-- ===== src/Tpm/Objects/Returned.antt =====
-- keylime/tpm/tpm2_objects.py: which keys come back from the public areas that are made of them.
use keylime.Prelude.{
  ℕ, ◌+◌, ◌*◌, ◌<◌, ◌≡◌, ◌≢◌, refl, sym, ap, ◌∙◌, Bool, true, false, ◌&&◌, none, some, ◌++◌, Bytes,
  length, length-append, ◌==◌, if◌then◌else◌, arith,
}
use keylime.Tpm.Struct.{◌>>=◌, be_bytes, byte_length}
use keylime.Tpm.Struct.Lemmas.{length-be_bytes, unpack-be_bytes, pack-be_bytes}
use keylime.Tpm.Objects.{
  alg_null, alg_rsa, alg_ecc, Curve, secp192r1, secp224r1, secp256r1, secp384r1, secp521r1,
  curve_id_from_name, curve_from_curve_id, key_size_of, rsa_numbers, ec_numbers, Keys,
  NonAsymAlgSpecificParameters, minimal_bytes, key_parts, tpm2b_public_from_pubkey, ecc_key,
  pubkey_parms_from_tpm2b_public, with_name,
}
use keylime.Tpm.Objects.RoundTrip.{
  sized, pack_in_tpm2b-sized, extract_tpm2b-whole, extract_tpm2b-sized, IsPackable, rsa_parms,
  key_parts-rsa, rsa_key-parms, write_then_read, minimal-value,
}

-- The TPM2B_PUBLIC of an RSA key is read back as that key and name algorithm, if the fields fit into
-- their bytes, the exponent is not 0, the modulus fills its bytes, and the parameters have a
-- symmetric algorithm, whose number of bits is not the number of the null algorithm.
pub rsa_round_trip :
    (keys : Keys) (key : keys.Key) (e n name_alg attributes : ℕ) (auth_policy : Bytes)
    (parms : NonAsymAlgSpecificParameters)
    → keys.public_numbers key ≡ rsa_numbers e n
    → keys.key_size key ≡ byte_length n * 8
    → keys.key_size key < 65536
    → e ≢ 0
    → e < 0x100000000
    → name_alg < 65536
    → attributes < 0x100000000
    → IsPackable parms
    → (parms.sym_algorithm == alg_null) ≡ false
    → (parms.sym_keybits == alg_null) ≡ false
    → 26 + length auth_policy + byte_length n < 65536
    → (tpm2b_public_from_pubkey keys key name_alg attributes auth_policy parms
        >>= pubkey_parms_from_tpm2b_public keys)
      ≡ some (key, name_alg)
rsa_round_trip keys key e n name_alg attributes auth_policy parms numbers size size_fits nonzero
      e_fits name_fits attributes_fit parms_fit sym_given bits_given fits =
    write_then_read keys name_alg attributes auth_policy parms name_fits attributes_fit parms_fit
      key alg_rsa (rsa_parms (keys.key_size key) e) (sized (minimal_bytes n)) parts sym_given
      bits_given (omega arith) (omega (arith, fits, length-be_bytes (byte_length n) n))
    ∙ ap (with_name keys name_alg) (
        rsa_key-parms keys e n (keys.key_size key) nonzero e_fits size_fits (omega arith) size
        ∙ ap keys.public_key (sym numbers)
        ∙ keys.public_key_numbers key)
  where
    parts :
        key_parts (keys.public_numbers key) (keys.key_size key)
        ≡ some (alg_rsa, rsa_parms (keys.key_size key) e, sized (minimal_bytes n))
    parts = rw numbers (key_parts-rsa e n (keys.key_size key) e_fits size_fits (omega arith))

abbrev ecc_parms : Curve → Bytes
ecc_parms curve = be_bytes 2 (curve_id_from_name curve) ++ be_bytes 2 alg_null

abbrev ecc_unique : ℕ → ℕ → Bytes
ecc_unique x y = sized (minimal_bytes x) ++ sized (minimal_bytes y)

curve_id_fits : (curve : Curve) → curve_id_from_name curve < 65536
curve_id_fits secp192r1 = omega arith
curve_id_fits secp224r1 = omega arith
curve_id_fits secp256r1 = omega arith
curve_id_fits secp384r1 = omega arith
curve_id_fits secp521r1 = omega arith

curve_from-id : (curve : Curve) → curve_from_curve_id (curve_id_from_name curve) ≡ some curve
unfolding curve_from_curve_id
curve_from-id secp192r1 = refl
curve_from-id secp224r1 = refl
curve_from-id secp256r1 = refl
curve_from-id secp384r1 = refl
curve_from-id secp521r1 = refl

key_parts-ecc :
    (curve : Curve) (x y key_size : ℕ)
    → byte_length x < 65536
    → byte_length y < 65536
    → key_parts (ec_numbers curve x y) key_size ≡ some (alg_ecc, ecc_parms curve, ecc_unique x y)
unfolding key_parts
key_parts-ecc curve x y key_size x_fits y_fits =
    rw
      (
        pack-be_bytes 2 (curve_id_from_name curve) (curve_id_fits curve),
        pack-be_bytes 2 alg_null (omega arith),
        pack_in_tpm2b-sized (minimal_bytes x) (omega (arith, length-be_bytes (byte_length x) x)),
        pack_in_tpm2b-sized (minimal_bytes y) (omega (arith, length-be_bytes (byte_length y) y)),
      )
      refl

-- the lengths of the coordinates that the reader asks for
abbrev pub fills : Curve → ℕ → ℕ → Bool
fills curve x y =
    (byte_length x * 8 == key_size_of curve) && (byte_length y * 8 == key_size_of curve)

ecc_key-parms :
    (keys : Keys) (curve : Curve) (x y : ℕ)
    → byte_length x < 65536
    → byte_length y < 65536
    → ecc_key keys (ecc_parms curve ++ ecc_unique x y)
      ≡ (if fills curve x y then keys.public_key (ec_numbers curve x y) else none)
unfolding ecc_key
ecc_key-parms keys curve x y x_fits y_fits =
    rw
      (
        unpack-be_bytes 2 (curve_id_from_name curve) (curve_id_fits curve),
        unpack-be_bytes 2 alg_null (omega arith),
        curve_from-id curve,
        extract_tpm2b-sized (minimal_bytes x) (sized (minimal_bytes y))
            (omega (arith, length-be_bytes (byte_length x) x)),
        extract_tpm2b-whole (minimal_bytes y) (omega (arith, length-be_bytes (byte_length y) y)),
        length-be_bytes (byte_length x) x,
        length-be_bytes (byte_length y) y,
        minimal-value x,
        minimal-value y,
      )
      refl

answer :
    (keys : Keys) (key : keys.Key) (curve : Curve) (x y name_alg : ℕ) (b : Bool)
    → keys.public_numbers key ≡ ec_numbers curve x y
    → with_name keys name_alg (if b then keys.public_key (ec_numbers curve x y) else none)
      ≡ (if b then some (key, name_alg) else none)
answer keys key curve x y name_alg true numbers =
    ap (with_name keys name_alg) (ap keys.public_key (sym numbers) ∙ keys.public_key_numbers key)
answer keys key curve x y name_alg false numbers = refl

-- The TPM2B_PUBLIC of an ECC key is read back exactly if both coordinates, without leading zero
-- bytes, have as many bits as the curve; otherwise reading it fails. (The fields fit, and the
-- parameters are as for RSA keys.)
pub ecc_round_trip_iff_full :
    (keys : Keys) (key : keys.Key) (curve : Curve) (x y name_alg attributes : ℕ)
    (auth_policy : Bytes) (parms : NonAsymAlgSpecificParameters)
    → keys.public_numbers key ≡ ec_numbers curve x y
    → name_alg < 65536
    → attributes < 0x100000000
    → IsPackable parms
    → (parms.sym_algorithm == alg_null) ≡ false
    → (parms.sym_keybits == alg_null) ≡ false
    → 26 + length auth_policy + byte_length x + byte_length y < 65536
    → (tpm2b_public_from_pubkey keys key name_alg attributes auth_policy parms
        >>= pubkey_parms_from_tpm2b_public keys)
      ≡ (if fills curve x y then some (key, name_alg) else none)
ecc_round_trip_iff_full keys key curve x y name_alg attributes auth_policy parms numbers name_fits
      attributes_fit parms_fit sym_given bits_given fits =
    write_then_read keys name_alg attributes auth_policy parms name_fits attributes_fit parms_fit
      key alg_ecc (ecc_parms curve) (ecc_unique x y) parts sym_given bits_given (omega arith)
      (omega (
        arith,
        fits,
        length-be_bytes (byte_length x) x,
        length-be_bytes (byte_length y) y,
        length-append (minimal_bytes x) (sized (minimal_bytes y)),
      ))
    ∙ ap (with_name keys name_alg) (ecc_key-parms keys curve x y (omega arith) (omega arith))
    ∙ answer keys key curve x y name_alg (fills curve x y) numbers
  where
    parts :
        key_parts (keys.public_numbers key) (keys.key_size key)
        ≡ some (alg_ecc, ecc_parms curve, ecc_unique x y)
    parts = rw numbers (key_parts-ecc curve x y (keys.key_size key) (omega arith) (omega arith))
