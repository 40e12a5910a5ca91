-- ===== src/Tests/Objects.antt =====
-- keylime/tpm/tpm2_objects.py at concrete inputs: keys that are their numbers, and a small attestation.
use keylime.Prelude.{ℕ, ◌*◌, ◌≡◌, ◌≢◌, refl, none, some, [], ◌∷◌, ◌++◌, Bytes, if◌then◌else◌, arith}
use keylime.Hash.{sha256, hash}
use keylime.Ima.Text.{to_hex}
use keylime.Tpm.Struct.{◌>>=◌, be_bytes, byte_length, bit_length}
use keylime.Tpm.Objects.{
  Numbers, rsa_numbers, ec_numbers, Keys, secp192r1, tpm2b_public_from_pubkey,
  pubkey_parms_from_tpm2b_public,
}
use keylime.Tpm.Objects.RoundTrip.{sized, area}
use keylime.Tpm.Objects.Returned.{rsa_round_trip, ecc_round_trip_iff_full, fills}
use keylime.Tpm.Objects.Views.{
  get_tpm2b_public_object_attributes, get_tpm2b_public_symkey_params, get_tpm2b_public_name,
  get_hasher_from_name_alg, ek_low_non_asym_alg_parms, object_attributes_description,
}
use keylime.Tpm.Objects.Views.Written.{views_of_area}
use keylime.Tpm.Attested.{TpmsAttest, unmarshal_tpms_attest}
use keylime.Tpm.Attested.Layout.{attest_then, attest_round_trip}
use keylime.Tests.Data.{checksums}

abbrev size_of : Numbers → ℕ
size_of (rsa_numbers e n) = byte_length n * 8
size_of (ec_numbers curve x y) = 0

abbrev numbers : Keys
numbers = record {
  Key = Numbers;
  public_numbers = λ k. k;
  key_size = size_of;
  public_key = λ k. some k;
  public_key_numbers = λ k. refl;
}

abbrev key : Numbers
key = rsa_numbers 65537 179

-- fixed TPM and sign-encrypt
abbrev attributes : ℕ
attributes = 0x00040002

attributes_described : object_attributes_description attributes ≡ "fixed-tpm" ∷ "sign-encrypt" ∷ []
unfolding object_attributes_description
attributes_described = refl

abbrev usual : ℕ
usual = 65537

usual_nonzero : usual ≢ 0
usual_nonzero = λ e. omega arith

rsa_round_trip_example :
    (tpm2b_public_from_pubkey numbers key 11 attributes (1 ∷ 2 ∷ []) ek_low_non_asym_alg_parms
      >>= pubkey_parms_from_tpm2b_public numbers)
    ≡ some (key, 11)
unfolding bit_length
rsa_round_trip_example =
    rsa_round_trip numbers key 65537 179 11 attributes (1 ∷ 2 ∷ []) ek_low_non_asym_alg_parms refl
      refl (omega arith) usual_nonzero (omega arith) (omega arith) (omega arith)
      (omega arith, omega arith, omega arith, omega arith) refl refl (omega arith)

ecc_round_trip_iff_full_example :
    (tpm2b_public_from_pubkey numbers
        (ec_numbers secp192r1 7 300)
        11
        attributes
        (1 ∷ [])
        ek_low_non_asym_alg_parms
      >>= pubkey_parms_from_tpm2b_public numbers)
    ≡ (if fills secp192r1 7 300 then some (ec_numbers secp192r1 7 300, 11) else none)
unfolding bit_length
ecc_round_trip_iff_full_example =
    ecc_round_trip_iff_full numbers (ec_numbers secp192r1 7 300) secp192r1 7 300 11 attributes
      (1 ∷ []) ek_low_non_asym_alg_parms refl (omega arith) (omega arith)
      (omega arith, omega arith, omega arith, omega arith) refl refl (omega arith)

abbrev public_area : Bytes
public_area = area 1 11 attributes (1 ∷ 2 ∷ []) ek_low_non_asym_alg_parms (8 ∷ []) (9 ∷ [])

views_of_area_example :
    (get_tpm2b_public_object_attributes (sized public_area) ≡ some attributes)
    × (get_tpm2b_public_symkey_params (sized public_area) ≡ some (6, 128))
    × (get_tpm2b_public_name checksums (sized public_area)
        ≡ some (to_hex (be_bytes 2 11 ++ hash checksums sha256 public_area)))
views_of_area_example =
    views_of_area checksums 1 11 attributes (1 ∷ 2 ∷ []) ek_low_non_asym_alg_parms (8 ∷ []) (9 ∷ [])
      sha256 (omega arith) (omega arith) (omega arith)
      (omega arith, omega arith, omega arith, omega arith) (omega arith) (omega arith)
      (unfold get_hasher_from_name_alg in refl)

abbrev attest : TpmsAttest
attest = record {
  clock_info = record { clock = 70000; reset_count = 3; restart_count = 4; safe = 1 };
  extra_data = 5 ∷ 6 ∷ 7 ∷ [];
  pcr_digest = 8 ∷ 9 ∷ [];
}

attest_round_trip_example :
    unmarshal_tpms_attest (
      attest_then
        (1 ∷ 2 ∷ [])
        attest
        99
        ((11, 0 ∷ 4 ∷ 0 ∷ []) ∷ (4, 1 ∷ 0 ∷ 0 ∷ []) ∷ [])
        (77 ∷ []))
    ≡ some attest
attest_round_trip_example =
    attest_round_trip (1 ∷ 2 ∷ []) attest 99 ((11, 0 ∷ 4 ∷ 0 ∷ []) ∷ (4, 1 ∷ 0 ∷ 0 ∷ []) ∷ [])
      (77 ∷ []) (omega arith) (omega arith) (omega arith, omega arith, omega arith, omega arith)
      (omega arith) ((omega arith, omega arith), ((omega arith, omega arith), tt)) (omega arith)
