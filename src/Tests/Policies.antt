-- ===== src/Tests/Policies.antt =====
-- keylime/ima/ima.py and keylime/ima/ast.py: single entries against a policy.
use keylime.Prelude.{
  ℕ, ◌≡◌, ◌⊎◌, true, false, not, ◌||◌, ◌&&◌, Option, none, some, [], ◌∷◌, Bytes, codes, bytes_eq,
  if◌then◌else◌,
}
use keylime.Prelude.Dict.{get, bytes_key}
use keylime.Regex.{Regex, literals}
use keylime.Hash.{sha1, hash, get_ff_hash}
use keylime.Failure.{is_failure, Failure}
use keylime.Ima.Keyrings.{
  ImaKeyrings, Loaders, supported, found_key, get_pubkey, add_pubkey_to_keyring,
}
use keylime.Ima.Ast.{Mode, Digest, Name}
use keylime.Ima.Ast.Entry.{Entry, invalid, ima_pcr_text}
use keylime.Ima.Ast.Entry.Verdict.{objects, is_failure-invalid}
use keylime.Ima.Policy.{
  RuntimePolicy, HashTypes, is_excluded, validate_ima_ng, validate_ima_sig, validate_ima_buf,
  validate_mode,
}
use keylime.Ima.Policy.Accepts.{
  listed, verified, is_failure-validate_ima_ng, is_failure-validate_ima_sig, learns_listed_keys,
}
use keylime.Tests.Data.{two_levels, checksums, keys, policy}

abbrev byte_patterns : Regex Bytes
byte_patterns = literals bytes_eq

abbrev file_digest : Digest
file_digest = record { hash = 170 ∷ 187 ∷ []; algorithm = codes "sha256"; legacy = false }

abbrev file_name : Name
file_name = record { name = codes "/bin/a"; legacy = false }

is_failure-validate_ima_ng_example :
    is_failure (
      validate_ima_ng byte_patterns two_levels
        (some (codes "/tmp"))
        (some policy)
        file_digest
        file_name
        HashTypes.digests)
    ≡ (not (is_excluded byte_patterns (some (codes "/tmp")) file_name)
        && not (listed (get policy.digests file_name.name) file_digest))
is_failure-validate_ima_ng_example =
    is_failure-validate_ima_ng byte_patterns two_levels (some (codes "/tmp")) policy file_digest
      file_name HashTypes.digests

-- a keyring that holds the key 7 under its id 7
abbrev keyrings : ImaKeyrings ℕ
keyrings = record { keyrings = (codes ".ima", record { ringv2 = (7, 7) ∷ [] }) ∷ [] }

-- a signature by the key 7; the test key takes the digest itself as signature
abbrev signature : Bytes
signature = 3 ∷ 2 ∷ 4 ∷ 0 ∷ 0 ∷ 0 ∷ 7 ∷ 0 ∷ 2 ∷ 170 ∷ 187 ∷ []

is_failure-validate_ima_sig_example :
    is_failure (
      validate_ima_sig byte_patterns keys two_levels none
        (some keyrings)
        (some policy)
        file_digest
        file_name
        (some signature))
    ≡ not (
        is_excluded byte_patterns none file_name
        || verified keys keyrings file_digest (some signature)
        || listed (get policy.digests file_name.name) file_digest)
is_failure-validate_ima_sig_example =
    is_failure-validate_ima_sig byte_patterns keys two_levels none keyrings policy file_digest
      file_name (some signature)

-- a policy that allows a key on the keyring .ima
abbrev key_policy : RuntimePolicy
key_policy = record policy { keyrings = (codes ".ima", codes "aabb" ∷ []) ∷ [] }

abbrev keyring_name : Name
keyring_name = record { name = codes ".ima"; legacy = false }

abbrev loaders : Loaders ℕ
loaders = (λ filedata. some (supported 9, none)) ∷ []

abbrev learned : Option (ImaKeyrings ℕ)
learned =
    (validate_ima_buf byte_patterns keys loaders two_levels none (some key_policy) (some keyrings)
      file_digest keyring_name (codes "key")).1

learns_listed_keys_example :
    (learned ≡ some keyrings)
    ⊎ ((pubkey : ℕ) × (keyidv2 : Option ℕ) × (get_pubkey loaders (codes "key")
          ≡ found_key pubkey keyidv2)
        × (learned ≡ some (add_pubkey_to_keyring keys keyrings pubkey (codes ".ima") keyidv2))
        × ((is_excluded byte_patterns none keyring_name
              || listed (get key_policy.keyrings (codes ".ima")) file_digest)
            ≡ true))
learns_listed_keys_example =
    learns_listed_keys byte_patterns keys two_levels none loaders key_policy keyrings file_digest
      keyring_name (codes "key")

-- an entry whose template hash says that it could not be measured
abbrev violation : Entry
violation = record {
  pcr = codes "10";
  ima_template_hash = 255 ∷ 255 ∷ [];
  pcr_template_hash = 255 ∷ 255 ∷ [];
  mode = Mode.ima_ng file_digest file_name;
  bytes = [];
}

abbrev validate : Mode → Option (ImaKeyrings ℕ) → Failure × Option (ImaKeyrings ℕ)
validate = validate_mode byte_patterns keys [] two_levels none (some policy)

is_failure-invalid_example :
    is_failure (invalid checksums two_levels sha1 true (some validate) violation none).0 ≡ (
      not (bytes_eq violation.pcr ima_pcr_text)
      || (if bytes_eq violation.ima_template_hash (get_ff_hash checksums sha1)
          then true
          else not (bytes_eq violation.ima_template_hash (hash checksums sha1 violation.bytes))
            || objects (some validate) violation.mode none))
is_failure-invalid_example =
    is_failure-invalid checksums two_levels sha1 true (some validate) violation none
