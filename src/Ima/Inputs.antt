-- ===== src/Ima/Inputs.antt =====
-- keylime/ima/ima.py: what process_measurement_list is given, and the policy with the boot aggregates.
use keylime.Prelude.{
  ℕ, Bool, not, ◌&&◌, Option, none, some, List, [], ◌∷◌, ◌++◌, Bytes, if◌then◌else◌, codes,
  bytes_eq, ◌==◌, nonempty,
}
use keylime.Prelude.Dict.{get, put, bytes_key}
use keylime.Regex.{Regex}
use keylime.Hash.{Hash, Hashlib, sha1, sha256, sha384, sha512}
use keylime.Failure.{Severities}
use keylime.Ima.Keyrings.{Crypto, Loaders}
use keylime.Ima.Policy.{RuntimePolicy, elem_bytes}

-- config.IMA_PCR
abbrev pub ima_pcr : ℕ
ima_pcr = 10

-- what the validation uses and does not change; `int_of_text` is Python's int() of a text
pub record ImaEnv (Pubkey : Type 0) : Type 1 where
  pub lib : Hashlib
  pub severities : Severities
  pub re : Regex Bytes
  pub crypto : Crypto Pubkey
  pub loaders : Loaders Pubkey
  pub ignore_tomtou_errors : Bool
  pub int_of_text : Bytes → Option ℕ

-- line.strip("\n")
abbrev strip_left : Bytes → Bytes
strip_left [] = []
strip_left (c ∷ s) = let rest = strip_left s in if c == b'\n' then rest else c ∷ s

abbrev strip_right : Bytes → Bytes
strip_right [] = []
strip_right (c ∷ s) =
    let rest = strip_right s in if c == b'\n' && not (nonempty rest) then [] else c ∷ rest

unfoldable pub strip_newlines : Bytes → Bytes
strip_newlines s = strip_right (strip_left s)

-- algorithms.Hash(runtime_policy["ima"]["log_hash_alg"]) with its default; sm3_256 is no value that
-- the schema of a policy admits
abbrev log_hash_of : Bytes → Hash
log_hash_of a =
    if bytes_eq a (codes "sha256")
    then sha256
    else if bytes_eq a (codes "sha384")
    then sha384
    else if bytes_eq a (codes "sha512")
    then sha512
    else sha1

abbrev pub log_hash_alg_of : Option RuntimePolicy → Hash
log_hash_alg_of none = sha1
log_hash_alg_of (some policy) = log_hash_of policy.log_hash_alg

-- the loop that adds the boot aggregates to the policy's digests
abbrev pub BootAggregates : Type 0
BootAggregates = List (Bytes × List Bytes)

abbrev append_new : List Bytes → List Bytes → List Bytes
append_new l [] = l
append_new l (v ∷ vs) = append_new (if elem_bytes v l then l else l ++ v ∷ []) vs

abbrev append_all : List Bytes → BootAggregates → List Bytes
append_all l [] = l
append_all l ((alg, vs) ∷ rest) = append_all (append_new l vs) rest

abbrev listed_or_empty : Option (List Bytes) → List Bytes
listed_or_empty none = []
listed_or_empty (some l) = l

unfoldable pub with_boot_aggregates : BootAggregates → RuntimePolicy → RuntimePolicy
with_boot_aggregates [] policy = policy
with_boot_aggregates (a ∷ rest) policy = record policy {
  digests =
      put policy.digests (codes "boot_aggregate")
        (append_all (listed_or_empty (get policy.digests (codes "boot_aggregate"))) (a ∷ rest));
}

abbrev pub policy_with : BootAggregates → Option RuntimePolicy → Option RuntimePolicy
policy_with b none = none
policy_with b (some policy) = some (with_boot_aggregates b policy)

abbrev pub excludes_of : Option RuntimePolicy → Option (List Bytes)
excludes_of none = none
excludes_of (some policy) = some policy.excludes
