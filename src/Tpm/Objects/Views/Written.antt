-- ===== src/Tpm/Objects/Views/Written.antt =====
-- keylime/tpm/tpm2_objects.py: what is read of a public area that was made of a key.
use keylime.Prelude.{ℕ, ◌*◌, ◌<◌, ◌≡◌, ◌≢◌, refl, some, ◌++◌, Bytes, length, arith}
use keylime.Hash.{Hash, Hashlib, hash}
use keylime.Ima.Text.{to_hex}
use keylime.Tpm.Struct.{◌>>=◌, be_bytes, byte_length}
use keylime.Tpm.Struct.Lemmas.{unpack-be_bytes}
use keylime.Tpm.Objects.{
  Keys, rsa_numbers, NonAsymAlgSpecificParameters, pubkey_parms_from_tpm2b_public,
}
use keylime.Tpm.Objects.RoundTrip.{
  sized, area, IsPackable, parameter_bytes, extract_tpm2b-whole, extract_tpm2b-sized,
}
use keylime.Tpm.Objects.Returned.{rsa_round_trip}
use keylime.Tpm.Objects.Views.{
  get_tpm2b_public_object_attributes, get_tpm2b_public_symkey_params, get_hasher_from_name_alg,
  get_tpm2b_public_name, ek_low_attributes, ek_low_auth_policy, ek_low_non_asym_alg_parms,
  ek_low_tpm2b_public_from_pubkey,
}

-- Of a public area in its layout the attributes, the symmetric algorithm with its number of bits, and
-- the name, the algorithm's number and the hash of the area in hexadecimal, are read as they are.
pub views_of_area :
    (lib : Hashlib) (alg_type name_alg attributes : ℕ) (auth_policy : Bytes)
    (parms : NonAsymAlgSpecificParameters) (algo_parms unique : Bytes) (h : Hash)
    → alg_type < 65536
    → name_alg < 65536
    → attributes < 0x100000000
    → IsPackable parms
    → length auth_policy < 65536
    → length (area alg_type name_alg attributes auth_policy parms algo_parms unique) < 65536
    → get_hasher_from_name_alg name_alg ≡ some h
    → let public = sized (area alg_type name_alg attributes auth_policy parms algo_parms unique) in
      (get_tpm2b_public_object_attributes public ≡ some attributes)
      × (get_tpm2b_public_symkey_params public ≡ some (parms.sym_algorithm, parms.sym_keybits))
      × (get_tpm2b_public_name lib public
          ≡ some (
              to_hex (
                be_bytes 2 name_alg
                ++ hash lib h
                    (area alg_type name_alg attributes auth_policy parms algo_parms unique))))
unfolding get_tpm2b_public_object_attributes get_tpm2b_public_symkey_params get_tpm2b_public_name
views_of_area lib alg_type name_alg attributes auth_policy parms algo_parms unique h alg_fits
      name_fits attributes_fit parms_fit policy_fits fits hasher =
    let body = area alg_type name_alg attributes auth_policy parms algo_parms unique in
    (
      rw
          (
            unpack-be_bytes 2 (length body) fits,
            unpack-be_bytes 2 alg_type alg_fits,
            unpack-be_bytes 2 name_alg name_fits,
            unpack-be_bytes 4 attributes attributes_fit,
          )
          refl,
      rw
          (
            extract_tpm2b-whole body fits,
            extract_tpm2b-sized auth_policy (parameter_bytes parms ++ (algo_parms ++ unique))
                policy_fits,
            unpack-be_bytes 2 parms.sym_algorithm parms_fit.0,
            unpack-be_bytes 2 parms.sym_keybits parms_fit.1,
          )
          refl,
      rw (extract_tpm2b-whole body fits, unpack-be_bytes 2 name_alg name_fits, hasher) refl,
    )

-- The public area that the low template of endorsement keys gives an RSA key is read back as that
-- key, under SHA-256, for every exponent and modulus that fit.
pub ek_low_round_trip :
    (keys : Keys) (key : keys.Key) (e n : ℕ)
    → keys.public_numbers key ≡ rsa_numbers e n
    → keys.key_size key ≡ byte_length n * 8
    → byte_length n < 8192
    → e ≢ 0
    → e < 0x100000000
    → (ek_low_tpm2b_public_from_pubkey keys key >>= pubkey_parms_from_tpm2b_public keys)
      ≡ some (key, 0x000B)
unfolding ek_low_tpm2b_public_from_pubkey
ek_low_round_trip keys key e n numbers size fits nonzero e_fits =
    rsa_round_trip keys key e n 0x000B ek_low_attributes ek_low_auth_policy
      ek_low_non_asym_alg_parms numbers size (omega (arith, size, fits)) nonzero e_fits
      (omega arith) (omega arith) (omega arith, omega arith, omega arith, omega arith) refl refl
      (omega (arith, fits))
