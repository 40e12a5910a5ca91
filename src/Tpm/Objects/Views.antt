-- ===== src/Tpm/Objects/Views.antt =====
-- keylime/tpm/tpm2_objects.py: what is read of a TPM2B_PUBLIC besides the key, and the public areas of
-- endorsement keys. `oas & flag`, of a flag of one bit, is read by division.
pub mod Written
use keylime.Prelude.{
  ℕ, ◌+◌, ◌*◌, ◌/◌, ◌%◌, String, Bool, Option, none, some, List, [], ◌∷◌, ◌++◌, Bytes, take, drop,
  ◌==◌, if◌then◌else◌, nonempty,
}
use keylime.Hash.{Hash, sha1, sha256, sha384, sha512, Hashlib, hash}
use keylime.Ima.Text.{to_hex}
use keylime.Tpm.Struct.{◌>>=◌, unpack, pack, be_bytes, byte_length}
use keylime.Tpm.Objects.{
  alg_null, Numbers, rsa_numbers, ec_numbers, Keys, extract_tpm2b, NonAsymAlgSpecificParameters,
  minimal_bytes, tpm2b_public_from_pubkey,
}

-- struct.unpack(">HHHI", public[0:10])
unfoldable pub get_tpm2b_public_object_attributes : Bytes → Option ℕ
get_tpm2b_public_object_attributes public = do
  _ ← unpack 2 (take 2 public)
  _ ← unpack 2 (take 2 (drop 2 public))
  _ ← unpack 2 (take 2 (drop 4 public))
  unpack 4 (take 4 (drop 6 public))

unfoldable pub get_tpm2b_public_symkey_params : Bytes → Option (ℕ × ℕ)
get_tpm2b_public_symkey_params given = do
  (public, rest) ← extract_tpm2b given
  if nonempty rest then none else do
    (_, sym_parms) ← extract_tpm2b (drop 8 public)
    sym_alg ← unpack 2 (take 2 sym_parms)
    symkey_bits ← unpack 2 (take 2 (drop 2 sym_parms))
    some (sym_alg, symkey_bits)

-- _get_hasher_from_name_alg
unfoldable pub get_hasher_from_name_alg : ℕ → Option Hash
get_hasher_from_name_alg name_alg =
    if name_alg == 0x0004
    then some sha1
    else if name_alg == 0x000B
    then some sha256
    else if name_alg == 0x000C
    then some sha384
    else if name_alg == 0x000D
    then some sha512
    else none

unfoldable pub get_tpm2b_public_name : Hashlib → Bytes → Option Bytes
get_tpm2b_public_name lib public = do
  (tpmt_public, rest) ← extract_tpm2b public
  if nonempty rest then none else do
    name_alg ← unpack 2 (take 2 (drop 2 tpmt_public))
    hasher ← get_hasher_from_name_alg name_alg
    some (to_hex (take 2 (drop 2 tpmt_public) ++ hash lib hasher tpmt_public))

abbrev attribute_names : List (ℕ × String)
attribute_names =
    (0x00000002, "fixed-tpm")
    ∷ (0x00000004, "st-clear")
    ∷ (0x00000010, "fixed-parent")
    ∷ (0x00000020, "sensitive-data-origin")
    ∷ (0x00000040, "user-with-auth")
    ∷ (0x00000080, "admin-with-policy")
    ∷ (0x00000400, "no-da")
    ∷ (0x00000800, "encrypted-duplication")
    ∷ (0x00010000, "restricted")
    ∷ (0x00020000, "decrypt")
    ∷ (0x00040000, "sign-encrypt")
    ∷ []

abbrev names_of : List (ℕ × String) → ℕ → List String
names_of [] oas = []
names_of ((flag, name) ∷ l) oas =
    let rest = names_of l oas in if oas / flag % 2 == 1 then name ∷ rest else rest

-- object_attributes_description: the texts that " | " joins
unfoldable pub object_attributes_description : ℕ → List String
object_attributes_description oas = names_of attribute_names oas

-- EK_LOW_ATTRIBUTES: fixed TPM and parent, sensitive data origin, admin with policy, restricted, decrypt
abbrev pub ek_low_attributes : ℕ
ek_low_attributes = 0x00000002 + 0x00000010 + 0x00000020 + 0x00000080 + 0x00010000 + 0x00020000

abbrev pub ek_low_auth_policy : Bytes
ek_low_auth_policy =
    0x83 ∷ 0x71 ∷ 0x97 ∷ 0x67 ∷ 0x44 ∷ 0x84 ∷ 0xB3 ∷ 0xF8 ∷ 0x1A ∷ 0x90 ∷ 0xCC ∷ 0x8D ∷ 0x46 ∷ 0xA5
    ∷ 0xD7 ∷ 0x24 ∷ 0xFD ∷ 0x52 ∷ 0xD7 ∷ 0x6E ∷ 0x06 ∷ 0x52 ∷ 0x0B ∷ 0x64 ∷ 0xF2 ∷ 0xA1 ∷ 0xDA
    ∷ 0x1B ∷ 0x33 ∷ 0x14 ∷ 0x69 ∷ 0xAA ∷ []

abbrev pub ek_low_non_asym_alg_parms : NonAsymAlgSpecificParameters
ek_low_non_asym_alg_parms = record {
  sym_algorithm = 0x0006;
  sym_keybits = 128;
  sym_mode = 0x0043;
  scheme_scheme = alg_null;
}

unfoldable pub ek_low_tpm2b_public_from_pubkey : (keys : Keys) → keys.Key → Option Bytes
unfolding tpm2b_public_from_pubkey
ek_low_tpm2b_public_from_pubkey keys pubkey =
    tpm2b_public_from_pubkey keys pubkey 0x000B ek_low_attributes ek_low_auth_policy
      ek_low_non_asym_alg_parms

-- tpms_ecc_point_marshal, of the public numbers
unfoldable pub tpms_ecc_point_marshal : ℕ → ℕ → Option Bytes
tpms_ecc_point_marshal x y = do
  x_size ← pack 2 (byte_length x)
  y_size ← pack 2 (byte_length y)
  some (x_size ++ minimal_bytes x ++ y_size ++ minimal_bytes y)
