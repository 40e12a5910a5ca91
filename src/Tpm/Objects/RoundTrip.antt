-- ===== src/Tpm/Objects/RoundTrip.antt =====
-- keylime/tpm/tpm2_objects.py: a public area that was made of a key is read back.
use keylime.Prelude.{
  ℕ, ◌+◌, ◌*◌, ◌<◌, ◌≡◌, ◌≢◌, refl, sym, ap, ◌∙◌, true, false, some, [], ◌++◌, Bytes, length,
  length-append, ◌==◌, arith,
}
use keylime.Tpm.Struct.{◌>>=◌, be_bytes, from_bytes, byte_length}
use keylime.Tpm.Struct.Lemmas.{
  take-append, drop-append, append_none, unpack-be_bytes, pack-be_bytes, length-be_bytes,
  from_bytes-be_bytes, fits_bytes,
}
use keylime.Tpm.Objects.{
  alg_null, alg_rsa, rsa_numbers, Keys, pack_in_tpm2b, extract_tpm2b, NonAsymAlgSpecificParameters,
  to_bytes, minimal_bytes, packed_exponent, exponent_of, key_parts, to_skip,
  tpm2b_public_from_pubkey, rsa_key, key_of_type, with_name, pubkey_parms_from_tpm2b_public,
}

abbrev pub sized : Bytes → Bytes
sized val = be_bytes 2 (length val) ++ val

pub pack_in_tpm2b-sized : (val : Bytes) → length val < 65536 → pack_in_tpm2b val ≡ some (sized val)
unfolding pack_in_tpm2b
pack_in_tpm2b-sized val h = rw (pack-be_bytes 2 (length val) h) refl

pub extract_tpm2b-sized :
    (val rest : Bytes) → length val < 65536 → extract_tpm2b (sized val ++ rest) ≡ some (val, rest)
unfolding extract_tpm2b
extract_tpm2b-sized val rest h =
    rw (unpack-be_bytes 2 (length val) h, take-append val rest, drop-append val rest) refl

pub extract_tpm2b-whole :
    (val : Bytes) → length val < 65536 → extract_tpm2b (sized val) ≡ some (val, [])
extract_tpm2b-whole val h =
    ap extract_tpm2b (sym (append_none (sized val))) ∙ extract_tpm2b-sized val [] h

-- the fields fit into their bytes
abbrev pub IsPackable : NonAsymAlgSpecificParameters → Type 0
IsPackable p =
    (p.sym_algorithm < 65536)
    × (p.sym_keybits < 65536)
    × (p.sym_mode < 65536)
    × (p.scheme_scheme < 65536)

abbrev pub parameter_bytes : NonAsymAlgSpecificParameters → Bytes
parameter_bytes p =
    be_bytes 2 p.sym_algorithm
    ++ be_bytes 2 p.sym_keybits
    ++ be_bytes 2 p.sym_mode
    ++ be_bytes 2 p.scheme_scheme

to_bytes-parameter_bytes :
    (p : NonAsymAlgSpecificParameters) → IsPackable p → to_bytes p ≡ some (parameter_bytes p)
unfolding to_bytes
to_bytes-parameter_bytes p h =
    rw
      (
        pack-be_bytes 2 p.sym_algorithm h.0,
        pack-be_bytes 2 p.sym_keybits h.1,
        pack-be_bytes 2 p.sym_mode h.2,
        pack-be_bytes 2 p.scheme_scheme h.3,
      )
      refl

-- the public area, with what follows the parameters
abbrev pub area : ℕ → ℕ → ℕ → Bytes → NonAsymAlgSpecificParameters → Bytes → Bytes → Bytes
area alg_type name_alg attributes auth_policy parms algo_parms unique =
    be_bytes 2 alg_type
    ++ (be_bytes 2 name_alg
        ++ (be_bytes 4 attributes
            ++ (sized auth_policy ++ (parameter_bytes parms ++ (algo_parms ++ unique)))))

-- without an attached scheme, but with a symmetric algorithm, eight bytes are skipped
skip_eight :
    (p : NonAsymAlgSpecificParameters)
    → (p.sym_algorithm == alg_null) ≡ false
    → (p.sym_keybits == alg_null) ≡ false
    → to_skip p.sym_algorithm p.sym_keybits ≡ 8
skip_eight p h g = rw (h, g) refl

module _ (keys : Keys) (name_alg attributes : ℕ) (auth_policy : Bytes)
    (parms : NonAsymAlgSpecificParameters) (name_fits : name_alg < 65536)
    (attributes_fit : attributes < 0x100000000) (parms_fit : IsPackable parms) where
  written :
      (key : keys.Key) (alg_type : ℕ) (algo_parms unique : Bytes)
      → key_parts (keys.public_numbers key) (keys.key_size key)
        ≡ some (alg_type, algo_parms, unique)
      → alg_type < 65536
      → length auth_policy < 65536
      → length (area alg_type name_alg attributes auth_policy parms algo_parms unique) < 65536
      → tpm2b_public_from_pubkey keys key name_alg attributes auth_policy parms
        ≡ some (sized (area alg_type name_alg attributes auth_policy parms algo_parms unique))
  unfolding tpm2b_public_from_pubkey
  written key alg_type algo_parms unique parts alg_fits policy_fits fits =
      rw
        (
          parts,
          pack_in_tpm2b-sized auth_policy policy_fits,
          to_bytes-parameter_bytes parms parms_fit,
          pack-be_bytes 2 alg_type alg_fits,
          pack-be_bytes 2 name_alg name_fits,
          pack-be_bytes 4 attributes attributes_fit,
        )
        (pack_in_tpm2b-sized _ fits)

  read_back :
      (alg_type : ℕ) (algo_parms unique : Bytes)
      → (parms.sym_algorithm == alg_null) ≡ false
      → (parms.sym_keybits == alg_null) ≡ false
      → alg_type < 65536
      → length auth_policy < 65536
      → length (area alg_type name_alg attributes auth_policy parms algo_parms unique) < 65536
      → pubkey_parms_from_tpm2b_public keys
          (sized (area alg_type name_alg attributes auth_policy parms algo_parms unique))
        ≡ with_name keys name_alg (key_of_type keys alg_type (algo_parms ++ unique))
  unfolding pubkey_parms_from_tpm2b_public
  read_back alg_type algo_parms unique sym_given bits_given alg_fits policy_fits fits =
      let body = area alg_type name_alg attributes auth_policy parms algo_parms unique in
      rw
        (
          extract_tpm2b-whole body fits,
          unpack-be_bytes 2 alg_type alg_fits,
          unpack-be_bytes 2 name_alg name_fits,
          unpack-be_bytes 4 attributes attributes_fit,
          extract_tpm2b-sized auth_policy (parameter_bytes parms ++ (algo_parms ++ unique))
              policy_fits,
          unpack-be_bytes 2 parms.sym_algorithm parms_fit.0,
          unpack-be_bytes 2 parms.sym_keybits parms_fit.1,
          skip_eight parms sym_given bits_given,
        )
        refl

  -- writing and reading, in terms of what the key is written as
  pub write_then_read :
      (key : keys.Key) (alg_type : ℕ) (algo_parms unique : Bytes)
      → key_parts (keys.public_numbers key) (keys.key_size key)
        ≡ some (alg_type, algo_parms, unique)
      → (parms.sym_algorithm == alg_null) ≡ false
      → (parms.sym_keybits == alg_null) ≡ false
      → alg_type < 65536
      → 18 + length auth_policy + length algo_parms + length unique < 65536
      → (tpm2b_public_from_pubkey keys key name_alg attributes auth_policy parms
          >>= pubkey_parms_from_tpm2b_public keys)
        ≡ with_name keys name_alg (key_of_type keys alg_type (algo_parms ++ unique))
  write_then_read key alg_type algo_parms unique parts sym_given bits_given alg_fits fits =
      rw (written key alg_type algo_parms unique parts alg_fits policy_fits area_fits)
        (read_back alg_type algo_parms unique sym_given bits_given alg_fits policy_fits area_fits)
    where
      policy_fits : length auth_policy < 65536
      policy_fits = omega arith

      area_fits :
          length (area alg_type name_alg attributes auth_policy parms algo_parms unique) < 65536
      area_fits = omega (
        arith,
        fits,
        length-append auth_policy (parameter_bytes parms ++ (algo_parms ++ unique)),
        length-append algo_parms unique,
      )

abbrev pub rsa_parms : ℕ → ℕ → Bytes
rsa_parms keybits e = be_bytes 2 keybits ++ be_bytes 4 (packed_exponent e)

exponent_of-packed : (e : ℕ) → e ≢ 0 → exponent_of (packed_exponent e) ≡ e
exponent_of-packed e h = ground arith

packed_fits : (e : ℕ) → e < 0x100000000 → packed_exponent e < 0x100000000
packed_fits e h = ground arith

pub key_parts-rsa :
    (e n key_size : ℕ)
    → e < 0x100000000
    → key_size < 65536
    → byte_length n < 65536
    → key_parts (rsa_numbers e n) key_size
      ≡ some (alg_rsa, rsa_parms key_size e, sized (minimal_bytes n))
unfolding key_parts
key_parts-rsa e n key_size e_fits size_fits n_fits =
    rw
      (
        pack-be_bytes 2 key_size size_fits,
        pack-be_bytes 4 (packed_exponent e) (packed_fits e e_fits),
        pack_in_tpm2b-sized (minimal_bytes n) (omega (arith, length-be_bytes (byte_length n) n)),
      )
      refl

pub minimal-value : (n : ℕ) → from_bytes 0 (minimal_bytes n) ≡ n
minimal-value n = from_bytes-be_bytes (byte_length n) n (fits_bytes n)

==-refl : (a b : ℕ) → a ≡ b → (a == b) ≡ true
==-refl a b h = ground arith

pub rsa_key-parms :
    (keys : Keys) (e n key_size : ℕ)
    → e ≢ 0
    → e < 0x100000000
    → key_size < 65536
    → byte_length n < 65536
    → key_size ≡ byte_length n * 8
    → rsa_key keys (rsa_parms key_size e ++ sized (minimal_bytes n))
      ≡ keys.public_key (rsa_numbers e n)
unfolding rsa_key
rsa_key-parms keys e n key_size odd e_fits size_fits n_fits size =
    rw
      (
        unpack-be_bytes 2 key_size size_fits,
        unpack-be_bytes 4 (packed_exponent e) (packed_fits e e_fits),
        extract_tpm2b-whole (minimal_bytes n) (omega (arith, length-be_bytes (byte_length n) n)),
        exponent_of-packed e odd,
        minimal-value n,
        length-be_bytes (byte_length n) n,
        ==-refl (byte_length n * 8) key_size (sym size),
      )
      refl
