-- ===== src/Ima/Policy.antt =====
-- keylime/ima/ima.py: a runtime policy, and the validation of one entry against it. The schema of a
-- policy admits only null for `dm_policy`, so there is no device-mapper validator. Excludes are one
-- regular expression.
pub mod Accepts
use keylime.Prelude.{
  ℕ, Bool, true, false, not, ◌&&◌, ◌||◌, Option, none, some, List, [], ◌∷◌, ◌++◌, Bytes,
  if◌then◌else◌, codes, bytes_eq, is_some, any_of, String,
}
use keylime.Prelude.Dict.{get, bytes_key}
use keylime.Regex.{Regex}
use keylime.Hash.{Hashlib}
use keylime.Failure.{Severities, Failure, Component, new_failure, add_event, is_failure}
use keylime.Ima.Keyrings.{
  Crypto, ImaKeyrings, Loaders, KeyFound, unsupported_key, no_key, found_key, get_pubkey,
  add_pubkey_to_keyring, integrity_digsig_verify,
}
use keylime.Ima.Text.{to_hex}
use keylime.Ima.Ast.{Digest, Name, Mode}

abbrev pub Allowed : Type 0
Allowed = List (Bytes × List Bytes)

pub record RuntimePolicy : Type 0 where
  pub digests : Allowed
  pub excludes : List Bytes
  pub keyrings : Allowed
  pub ignored_keyrings : List Bytes
  pub log_hash_alg : Bytes
  pub ima_buf : Allowed
  pub verification_keys : Bytes

-- the argument `hash_types` of _validate_ima_ng
pub data HashTypes : Type 0 where
  digests keyrings ima_buf : HashTypes

abbrev pub allowed_of : HashTypes → RuntimePolicy → Allowed
allowed_of HashTypes.digests p = p.digests
allowed_of HashTypes.keyrings p = p.keyrings
allowed_of HashTypes.ima_buf p = p.ima_buf

abbrev pub elem_bytes : Bytes → List Bytes → Bool
elem_bytes s = any_of (λ t. bytes_eq t s)

-- the validators.valid_exclude_list of keylime/common/validators.py; the error text is left out
abbrev join_groups : List Bytes → Bytes
join_groups [] = []
join_groups (x ∷ []) = x
join_groups (x ∷ y ∷ l) = x ++ codes ")|(" ++ join_groups (y ∷ l)

module _ (re : Regex Bytes) where
  open re use {Pattern, compile, match_prefix}

  -- the regular expression, and whether there is an error
  unfoldable pub valid_exclude_list : Option (List Bytes) → Option Pattern × Bool
  valid_exclude_list none = (none, false)
  valid_exclude_list (some []) = (none, false)
  valid_exclude_list (some (x ∷ l)) =
      elim (compile (codes "(" ++ join_groups (x ∷ l) ++ codes ")")) [
        | none ↦ (none, true)
        | some p ↦ (some p, false)
      ]

  abbrev pub is_excluded : Option Pattern → Name → Bool
  is_excluded none path = false
  is_excluded (some p) path = match_prefix p path.name

  abbrev check_accept_list : Severities → Failure → Digest → Option (List Bytes) → Failure
  check_accept_list sev failure digest none = add_event sev failure "not_in_allowlist" true none
  check_accept_list sev failure digest (some accept_list) =
      if not (elem_bytes (to_hex digest.hash) accept_list)
      then add_event sev failure "runtime_policy_hash" true none
      else failure

  -- _validate_ima_ng
  unfoldable pub validate_ima_ng :
      Severities → Option Pattern → Option RuntimePolicy → Digest → Name → HashTypes → Failure
  validate_ima_ng sev exclude none digest path hash_types =
      new_failure Component.ima (some ("validation" ∷ "ima-ng" ∷ []))
  validate_ima_ng sev exclude (some policy) digest path hash_types =
      let failure = new_failure Component.ima (some ("validation" ∷ "ima-ng" ∷ [])) in
      if is_excluded exclude path
      then failure
      else check_accept_list sev failure digest (get (allowed_of hash_types policy) path.name)

module _ {Pubkey : Type 0} (re : Regex Bytes) (crypto : Crypto Pubkey) where
  open re use {Pattern}

  -- `ima_keyrings and signature`, and then an excluded path or a good signature
  abbrev signature_passes :
      Option Pattern → Option (ImaKeyrings Pubkey) → Digest → Name → Option Bytes → Bool
  signature_passes exclude (some k) digest path (some sig) =
      is_excluded re exclude path
      || integrity_digsig_verify crypto k sig digest.hash digest.algorithm
  signature_passes exclude _ digest path _ = false

  -- _validate_ima_sig
  unfoldable pub validate_ima_sig :
      Severities
      → Option Pattern
      → Option (ImaKeyrings Pubkey)
      → Option RuntimePolicy
      → Digest
      → Name
      → Option Bytes
      → Failure
  unfolding validate_ima_ng
  validate_ima_sig sev exclude ima_keyrings policy digest path signature =
      let failure = new_failure Component.ima (some ("validator" ∷ "ima-sig" ∷ [])) in
      if signature_passes exclude ima_keyrings digest path signature
      then failure
      else if is_some policy
      then validate_ima_ng re sev exclude policy digest path HashTypes.digests
      else if not (is_some ima_keyrings)
      then failure
      else add_event sev failure "invalid_signature" true none

  abbrev ignored_keyrings_of : Option RuntimePolicy → List Bytes
  ignored_keyrings_of none = []
  ignored_keyrings_of (some policy) = policy.ignored_keyrings

  -- the key is learned only if it has been validated, and only if there are keyrings
  abbrev learn_key :
      Option (ImaKeyrings Pubkey) → Pubkey → Bytes → Option ℕ → Option (ImaKeyrings Pubkey)
  learn_key none pubkey name keyidv2 = none
  learn_key (some k) pubkey name keyidv2 = some (add_pubkey_to_keyring crypto k pubkey name keyidv2)

  abbrev validate_key :
      Severities
      → Option Pattern
      → Option RuntimePolicy
      → Option (ImaKeyrings Pubkey)
      → Digest
      → Name
      → Pubkey
      → Option ℕ
      → Failure × Option (ImaKeyrings Pubkey)
  validate_key sev exclude policy ima_keyrings digest path pubkey keyidv2 =
      let ignored = ignored_keyrings_of policy in
      if not (elem_bytes (codes "*") ignored) && not (elem_bytes path.name ignored)
      then (let failure = validate_ima_ng re sev exclude policy digest path HashTypes.keyrings in
          if not (is_failure failure)
          then (failure, learn_key ima_keyrings pubkey path.name keyidv2)
          else (failure, ima_keyrings))
      else (new_failure Component.ima none, ima_keyrings)

  abbrev validate_buffer :
      Severities
      → Option Pattern
      → Option RuntimePolicy
      → Option (ImaKeyrings Pubkey)
      → Digest
      → Name
      → KeyFound Pubkey
      → Failure × Option (ImaKeyrings Pubkey)
  validate_buffer sev exclude policy ima_keyrings digest path unsupported_key =
      (add_event sev (new_failure Component.ima none) "invalid_key" true none, ima_keyrings)
  validate_buffer sev exclude policy ima_keyrings digest path no_key =
      (validate_ima_ng re sev exclude policy digest path HashTypes.ima_buf, ima_keyrings)
  validate_buffer sev exclude policy ima_keyrings digest path (found_key pubkey keyidv2) =
      validate_key sev exclude policy ima_keyrings digest path pubkey keyidv2

  -- _validate_ima_buf
  unfoldable pub validate_ima_buf :
      Loaders Pubkey
      → Severities
      → Option Pattern
      → Option RuntimePolicy
      → Option (ImaKeyrings Pubkey)
      → Digest
      → Name
      → Bytes
      → Failure × Option (ImaKeyrings Pubkey)
  unfolding validate_ima_ng get_pubkey
  validate_ima_buf loaders sev exclude policy ima_keyrings digest path d =
      validate_buffer sev exclude policy ima_keyrings digest path (get_pubkey loaders d)

  -- the ast.Validator that _process_measurement_list builds, applied to an entry's mode
  unfoldable pub validate_mode :
      Loaders Pubkey
      → Severities
      → Option Pattern
      → Option RuntimePolicy
      → Mode
      → Option (ImaKeyrings Pubkey)
      → Failure × Option (ImaKeyrings Pubkey)
  unfolding validate_ima_sig validate_ima_buf
  validate_mode loaders sev exclude policy (Mode.ima digest path) k =
      (validate_ima_ng re sev exclude policy digest path HashTypes.digests, k)
  validate_mode loaders sev exclude policy (Mode.ima_ng digest path) k =
      (validate_ima_ng re sev exclude policy digest path HashTypes.digests, k)
  validate_mode loaders sev exclude policy (Mode.ima_sig digest path signature) k =
      (validate_ima_sig sev exclude k policy digest path signature, k)
  validate_mode loaders sev exclude policy (Mode.ima_buf digest name d) k =
      validate_ima_buf loaders sev exclude policy k digest name d
