-- ===== src/Ima/Keyrings.antt =====
-- keylime/ima/file_signatures.py: keyrings, and the verification of IMA signatures. The keys are
-- those of the `cryptography` package: their type, a key's own id and the check of a signature
-- are the record `Crypto`.
use keylime.Prelude.{
  ℕ, zero, suc, ◌+◌, ◌*◌, Bool, false, not, ◌||◌, Option, none, some, List, [], ◌∷◌, codes,
  bytes_eq, length, Bytes, ◌==◌, if◌then◌else◌, drop,
}
use keylime.Prelude.Dict.{get, put, remove, nat_key, bytes_key}

pub record Crypto (Pubkey : Type 0) : Type 0 where
  -- the lowest four bytes of the SHA-1 hash over the key (ImaKeyring._get_keyidv2)
  pub keyidv2_of : Pubkey → ℕ
  -- verify : key, signature, hash of the file, name of the hash function: whether it returns. False
  -- is InvalidSignature, and other exceptions of the package, which _asymmetric_verify does not catch,
  -- are left out.
  pub verify : Pubkey → Bytes → Bytes → Bytes → Bool

pub record ImaKeyring (Pubkey : Type 0) : Type 0 where
  pub ringv2 : List (ℕ × Pubkey)

pub record ImaKeyrings (Pubkey : Type 0) : Type 0 where
  pub keyrings : List (Bytes × ImaKeyring Pubkey)

-- the values of HashAlgo that HASH_FUNCS knows, with the names of the hash functions
unfoldable pub hash_funcs : ℕ → Option Bytes
hash_funcs a =
    if a == 1
    then some (codes "md5")
    else if a == 2
    then some (codes "sha1")
    else if a == 4
    then some (codes "sha256")
    else if a == 5
    then some (codes "sha384")
    else if a == 6
    then some (codes "sha512")
    else if a == 7
    then some (codes "sha224")
    else if a == 18
    then some (codes "streebog256")
    else if a == 19
    then some (codes "streebog512")
    else none

-- the fields of `struct signature_v2_hdr`, read as `>BBBIH`
pub record SignatureHeader : Type 0 where
  pub typ : ℕ
  pub version : ℕ
  pub hash_algo : ℕ
  pub keyidv2 : ℕ
  pub sig_size : ℕ

-- struct.unpack(">BBBIH", data[:9]), `none` if there are fewer than 9 bytes
unfoldable pub unpack_header : Bytes → Option SignatureHeader
unpack_header (t ∷ v ∷ h ∷ k3 ∷ k2 ∷ k1 ∷ k0 ∷ s1 ∷ s0 ∷ rest) = some (record {
  typ = t;
  version = v;
  hash_algo = h;
  keyidv2 = ((k3 * 256 + k2) * 256 + k1) * 256 + k0;
  sig_size = s1 * 256 + s0;
})
unpack_header _ = none

-- calcsize(">BBBIH")
abbrev pub hdrlen : ℕ
hdrlen = 9

-- `if not keyidv2`: both None and 0 mean that the id is computed
abbrev keyid_or : Option ℕ → ℕ → ℕ
keyid_or none own = own
keyid_or (some zero) own = own
keyid_or (some (suc n)) own = suc n

module _ {Pubkey : Type 0} where
  abbrev pub no_keyring : ImaKeyring Pubkey
  no_keyring = record { ringv2 = [] }

  abbrev pub no_keyrings : ImaKeyrings Pubkey
  no_keyrings = record { keyrings = [] }

  -- get_pubkey_by_keyidv2
  unfoldable pub get_pubkey_by_keyidv2 : ImaKeyring Pubkey → ℕ → Option Pubkey
  get_pubkey_by_keyidv2 r keyidv2 = get r.ringv2 keyidv2

  abbrev keyring_or_new : Option (ImaKeyring Pubkey) → ImaKeyring Pubkey
  keyring_or_new none = no_keyring
  keyring_or_new (some r) = r

  -- set_tenant_keyring
  unfoldable pub set_tenant_keyring :
      ImaKeyrings Pubkey → Option (ImaKeyring Pubkey) → ImaKeyrings Pubkey
  set_tenant_keyring k none = record { keyrings = remove k.keyrings (codes "tenant_keyring") }
  set_tenant_keyring k (some r) = record { keyrings = put k.keyrings (codes "tenant_keyring") r }

  -- the loop over get_all_keyrings() that stops at the first key with the id
  unfoldable pub find_pubkey : List (Bytes × ImaKeyring Pubkey) → ℕ → Option Pubkey
  unfolding get_pubkey_by_keyidv2
  find_pubkey [] keyidv2 = none
  find_pubkey ((name, r) ∷ rest) keyidv2 = elim (get_pubkey_by_keyidv2 r keyidv2) [
    | none ↦ find_pubkey rest keyidv2
    | some key ↦ some key
  ]

module _ {Pubkey : Type 0} (crypto : Crypto Pubkey) where
  open crypto use {keyidv2_of, verify}

  -- ImaKeyring.add_pubkey
  unfoldable pub add_pubkey : ImaKeyring Pubkey → Pubkey → Option ℕ → ImaKeyring Pubkey
  add_pubkey r pubkey keyidv2 = record {
    ringv2 = put r.ringv2 (keyid_or keyidv2 (keyidv2_of pubkey)) pubkey;
  }

  -- ImaKeyrings.add_pubkey_to_keyring
  unfoldable pub add_pubkey_to_keyring :
      ImaKeyrings Pubkey → Pubkey → Bytes → Option ℕ → ImaKeyrings Pubkey
  unfolding add_pubkey
  add_pubkey_to_keyring k pubkey keyring_name keyidv2 = record {
    keyrings =
        put k.keyrings keyring_name
          (add_pubkey (keyring_or_new (get k.keyrings keyring_name)) pubkey keyidv2);
  }

  -- the end of `_asymmetric_verify`, where the key has been looked up
  abbrev verify_with : Option Pubkey → Bytes → Bytes → Bytes → Bool
  verify_with none signature filehash name = false
  verify_with (some pubkey) signature filehash name =
      verify pubkey (drop hdrlen signature) filehash name

  abbrev check_hash_algo :
      ImaKeyrings Pubkey → SignatureHeader → Bytes → Bytes → Bytes → Option Bytes → Bool
  check_hash_algo k h signature filehash filehash_type none = false
  check_hash_algo k h signature filehash filehash_type (some name) =
      if not (bytes_eq filehash_type name)
      then false
      else verify_with (find_pubkey k.keyrings h.keyidv2) signature filehash name

  abbrev check_header : ImaKeyrings Pubkey → Bytes → Bytes → Bytes → Option SignatureHeader → Bool
  check_header k signature filehash filehash_type none = false
  check_header k signature filehash filehash_type (some h) =
      if not (length signature == hdrlen + h.sig_size)
      then false
      else check_hash_algo k h signature filehash filehash_type (hash_funcs h.hash_algo)

  -- ImaKeyrings._asymmetric_verify
  unfoldable pub asymmetric_verify : ImaKeyrings Pubkey → Bytes → Bytes → Bytes → Bool
  unfolding find_pubkey hash_funcs unpack_header
  asymmetric_verify k signature filehash filehash_type =
      check_header k signature filehash filehash_type (unpack_header signature)

  -- ImaKeyrings.integrity_digsig_verify; 3 and 5 are EVM_IMA_XATTR_DIGSIG and its portable form
  unfoldable pub integrity_digsig_verify : ImaKeyrings Pubkey → Bytes → Bytes → Bytes → Bool
  unfolding asymmetric_verify
  integrity_digsig_verify k (typ ∷ version ∷ rest) filehash filehash_type =
      if not (typ == 3 || typ == 5)
      then false
      else if version == 2
      then asymmetric_verify k (typ ∷ version ∷ rest) filehash filehash_type
      else false
  integrity_digsig_verify k _ filehash filehash_type = false

-- What the loaders of the `cryptography` package read from a file: a key of a type that keylime
-- supports, or another.
pub data KeyData (Pubkey : Type 0) : Type 0 where
  supported : Pubkey → KeyData Pubkey
  unsupported : KeyData Pubkey

-- the outcome of get_pubkey: a ValueError, (None, None), or a key with its id if it came with one
pub data KeyFound (Pubkey : Type 0) : Type 0 where
  unsupported_key no_key : KeyFound Pubkey
  found_key : Pubkey → Option ℕ → KeyFound Pubkey

abbrev pub Loaders : Type 0 → Type 0
Loaders Pubkey = List (Bytes → Option (KeyData Pubkey × Option ℕ))

module _ {Pubkey : Type 0} where
  -- get_pubkey: the first loader that reads the file decides
  unfoldable pub get_pubkey : Loaders Pubkey → Bytes → KeyFound Pubkey
  get_pubkey [] filedata = no_key
  get_pubkey (load ∷ loaders) filedata = elim (load filedata) [
    | none ↦ get_pubkey loaders filedata
    | some (supported pubkey, keyidv2) ↦ found_key pubkey keyidv2
    | some (unsupported, keyidv2) ↦ unsupported_key
  ]
