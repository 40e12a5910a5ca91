-- ===== src/Ima/Policy/Accepts.antt =====
-- keylime/ima/ima.py: what a runtime policy lets through.
use keylime.Prelude.{
  ℕ, ◌≡◌, refl, ◌∙◌, ◌⊎◌, inl, inr, Bool, true, false, not, ◌&&◌, ◌||◌, Option, none, some, List,
  [], ◌∷◌, arith, Bytes, codes, Bool-cases,
}
use keylime.Prelude.Dict.{get, bytes_key}
use keylime.Regex.{Regex}
use keylime.Failure.{Severities, Failure, Component, new_failure, is_failure}
use keylime.Failure.Truth.{is_failure-add_event}
use keylime.Ima.Keyrings.{
  Crypto, ImaKeyrings, Loaders, KeyFound, unsupported_key, no_key, found_key, get_pubkey,
  integrity_digsig_verify, add_pubkey_to_keyring,
}
use keylime.Ima.Text.{to_hex}
use keylime.Ima.Ast.{Digest, Name}
use keylime.Ima.Policy.{
  RuntimePolicy, HashTypes, allowed_of, elem_bytes, is_excluded, validate_ima_ng, validate_ima_sig,
  validate_ima_buf, validate_buffer, validate_key, check_accept_list,
}

-- The digest is one of those that the policy lists for the path.
abbrev pub listed : Option (List Bytes) → Digest → Bool
listed none digest = false
listed (some accept_list) digest = elem_bytes (to_hex digest.hash) accept_list

module _ (re : Regex Bytes) (sev : Severities) (exclude : Option re.Pattern) where
  is_failure-check_accept_list :
      (failure : Failure) (digest : Digest) (o : Option (List Bytes))
      → is_failure failure ≡ false
      → is_failure (check_accept_list re sev failure digest o) ≡ not (listed o digest)
  is_failure-check_accept_list failure digest none h =
      is_failure-add_event sev failure "not_in_allowlist" true none
  is_failure-check_accept_list failure digest (some l) h =
      ground (arith, is_failure-add_event sev failure "runtime_policy_hash" true none)

  -- Against a policy an entry fails exactly if its path is not excluded and its digest is not listed
  -- for the path.
  pub is_failure-validate_ima_ng :
      (policy : RuntimePolicy) (digest : Digest) (path : Name) (hash_types : HashTypes)
      → is_failure (validate_ima_ng re sev exclude (some policy) digest path hash_types) ≡ (
          not (is_excluded re exclude path)
          && not (listed (get (allowed_of hash_types policy) path.name) digest))
  unfolding validate_ima_ng
  is_failure-validate_ima_ng policy digest path hash_types = ground (
    arith,
    empty,
    is_failure-check_accept_list fresh digest (get (allowed_of hash_types policy) path.name) empty,
  )
    where
      fresh : Failure
      fresh = new_failure Component.ima (some ("validation" ∷ "ima-ng" ∷ []))

      empty : is_failure fresh ≡ false
      empty = unfold new_failure is_failure in refl

fresh_empty : is_failure (new_failure Component.ima (some ("validator" ∷ "ima-sig" ∷ []))) ≡ false
unfolding new_failure is_failure
fresh_empty = refl

abbrev pub verified :
    {Pubkey : Type 0} → Crypto Pubkey → ImaKeyrings Pubkey → Digest → Option Bytes → Bool
verified crypto k digest none = false
verified crypto k digest (some sig) =
    integrity_digsig_verify crypto k sig digest.hash digest.algorithm

-- the policy takes no keys of this keyring
abbrev is_ignored : RuntimePolicy → Name → Bool
is_ignored policy path =
    elem_bytes (codes "*") policy.ignored_keyrings || elem_bytes path.name policy.ignored_keyrings

module _ {Pubkey : Type 0} (re : Regex Bytes) (crypto : Crypto Pubkey) (sev : Severities)
    (exclude : Option re.Pattern) where
  -- Where the verifier has keyrings and a policy, a signed or unsigned file entry is let through
  -- exactly if its path is excluded, if it has a signature that a key of the keyrings verifies for
  -- its digest, or if its digest is listed for its path.
  pub is_failure-validate_ima_sig :
      (k : ImaKeyrings Pubkey) (policy : RuntimePolicy) (digest : Digest) (path : Name)
      (signature : Option Bytes)
      → is_failure
          (validate_ima_sig re crypto sev exclude (some k) (some policy) digest path signature)
        ≡ not (
            is_excluded re exclude path
            || verified crypto k digest signature
            || listed (get policy.digests path.name) digest)
  unfolding validate_ima_sig
  is_failure-validate_ima_sig k policy digest path none =
      is_failure-validate_ima_ng re sev exclude policy digest path HashTypes.digests ∙ ground arith
  is_failure-validate_ima_sig k policy digest path (some sig) = ground (
    arith,
    fresh_empty,
    is_failure-validate_ima_ng re sev exclude policy digest path HashTypes.digests,
  )

  key_cases :
      (policy : RuntimePolicy) (k : ImaKeyrings Pubkey) (digest : Digest) (path : Name)
      (pubkey : Pubkey) (keyidv2 : Option ℕ)
      → ((validate_key re crypto sev exclude (some policy) (some k) digest path pubkey keyidv2).1
          ≡ some k)
        ⊎ (((validate_key re crypto sev exclude (some policy) (some k) digest path pubkey keyidv2).1
              ≡ some (add_pubkey_to_keyring crypto k pubkey path.name keyidv2))
            × ((is_excluded re exclude path || listed (get policy.keyrings path.name) digest)
                ≡ true))
  key_cases policy k digest path pubkey keyidv2 = elim (Bool-cases (is_ignored policy path)) [
    | inl ignored ↦ inl (ground (arith, ignored))
    | inr used ↦
        elim (Bool-cases (
          not (is_excluded re exclude path)
          && not (listed (get policy.keyrings path.name) digest))) [
            | inl bad ↦ inl (
                ground (
                  arith,
                  used,
                  bad,
                  is_failure-validate_ima_ng re sev exclude policy digest path HashTypes.keyrings,
                ))
            | inr good ↦ inr (
              ground (
                arith,
                used,
                good,
                is_failure-validate_ima_ng re sev exclude policy digest path HashTypes.keyrings,
              ),
              ground (arith, good),
            )
          ]
  ]

  -- A buffer entry changes the keyrings only by a key that is read from the buffer itself, and only
  -- if the entry is let through: the digest of the buffer is then listed under the policy's keyrings
  -- for the name of the keyring, unless that name is excluded.
  pub learns_listed_keys :
      (loaders : Loaders Pubkey) (policy : RuntimePolicy) (k : ImaKeyrings Pubkey) (digest : Digest)
      (path : Name) (d : Bytes)
      → ((validate_ima_buf re crypto loaders sev exclude (some policy) (some k) digest path d).1
          ≡ some k)
        ⊎ ((pubkey : Pubkey) × (keyidv2 : Option ℕ) × (get_pubkey loaders d
              ≡ found_key pubkey keyidv2)
            × ((validate_ima_buf re crypto loaders sev exclude
                  (some policy)
                  (some k)
                  digest
                  path
                  d).1
                ≡ some (add_pubkey_to_keyring crypto k pubkey path.name keyidv2))
            × ((is_excluded re exclude path || listed (get policy.keyrings path.name) digest)
                ≡ true))
  unfolding validate_ima_buf
  learns_listed_keys loaders policy k digest path d = by_outcome (get_pubkey loaders d) refl
    where
      by_outcome :
          (r : KeyFound Pubkey)
          → get_pubkey loaders d ≡ r
          → ((validate_ima_buf re crypto loaders sev exclude (some policy) (some k) digest path d).1
              ≡ some k)
            ⊎ ((pubkey : Pubkey) × (keyidv2 : Option ℕ) × (get_pubkey loaders d
                  ≡ found_key pubkey keyidv2)
                × ((validate_ima_buf re crypto loaders sev exclude
                      (some policy)
                      (some k)
                      digest
                      path
                      d).1
                    ≡ some (add_pubkey_to_keyring crypto k pubkey path.name keyidv2))
                × ((is_excluded re exclude path || listed (get policy.keyrings path.name) digest)
                    ≡ true))
      by_outcome unsupported_key e = inl (rw (e, validate_buffer))
      by_outcome no_key e = inl (rw (e, validate_buffer))
      by_outcome (found_key pubkey keyidv2) e =
          elim (key_cases policy k digest path pubkey keyidv2) [
            | inl same ↦ inl (rw (e, validate_buffer) same)
            | inr (learned, let_through) ↦
                inr (pubkey, keyidv2, e, rw (e, validate_buffer) learned, let_through)
          ]
