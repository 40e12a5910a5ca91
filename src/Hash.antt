-- ===== src/Hash.antt =====
-- keylime/common/algorithms.py: the hash, encryption and signature algorithms. `hashlib` is the
-- record `Hashlib`; an algorithm that it lacks raises ValueError, and `is_recognized` answers false.
use keylime.Prelude.{
  ℕ, ◌/◌, ◌*◌, String, ◌≡◌, Bool, false, Option, none, some, List, str_eq, length, Bytes,
  if◌then◌else◌, replicate, elem_str,
}

pub data Hash : Type 0 where
  sha1 sha256 sha384 sha512 sm3_256 : Hash

abbrev pub hash_value : Hash → String
hash_value sha1 = "sha1"
hash_value sha256 = "sha256"
hash_value sha384 = "sha384"
hash_value sha512 = "sha512"
hash_value sm3_256 = "sm3_256"

-- Hash(algorithm), `none` for ValueError
unfoldable pub hash_of_value : String → Option Hash
hash_of_value s =
    if str_eq s "sha1"
    then some sha1
    else if str_eq s "sha256"
    then some sha256
    else if str_eq s "sha384"
    then some sha384
    else if str_eq s "sha512"
    then some sha512
    else if str_eq s "sm3_256"
    then some sm3_256
    else none

-- hashlib: whether `hashlib.new(name)` succeeds, the digest, and the digest's size in bytes
pub record Hashlib : Type 0 where
  pub available : String → Bool
  pub digest : String → Bytes → Bytes
  pub digest_size : String → ℕ
  pub length-digest : (name : String) (d : Bytes) → length (digest name d) ≡ digest_size name

-- the name that `__hashfn` hands to hashlib
abbrev pub hashlib_name : Hash → String
hashlib_name sm3_256 = "sm3"
hashlib_name h = hash_value h

-- is_accepted(algorithm, accepted)
unfoldable pub is_accepted : String → List String → Bool
is_accepted algorithm accepted = elem_str algorithm accepted

module _ (lib : Hashlib) where
  open lib use {available, digest, digest_size}

  -- Hash.hash
  unfoldable pub hash : Hash → Bytes → Bytes
  hash h d = digest (hashlib_name h) d

  unfoldable pub get_size : Hash → ℕ
  get_size h = digest_size (hashlib_name h) * 8

  unfoldable pub get_start_hash : Hash → Bytes
  unfolding get_size
  get_start_hash h = replicate (get_size h / 8) 0

  unfoldable pub get_ff_hash : Hash → Bytes
  unfolding get_size
  get_ff_hash h = replicate (get_size h / 8) 0xff

  abbrev known : Option Hash → Bool
  known none = false
  known (some h) = available (hashlib_name h)

  -- Hash.is_recognized
  unfoldable pub is_recognized : String → Bool
  unfolding hash_of_value
  is_recognized algorithm = known (hash_of_value algorithm)
