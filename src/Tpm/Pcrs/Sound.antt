-- ===== src/Tpm/Pcrs/Sound.antt =====
-- keylime/tpm/tpm_main.py, Tpm.check_pcrs: what the PCRs of an accepted quote show.
use keylime.Prelude.{
  ℕ, ◌≡◌, ◌≢◌, refl, sym, ap, ◌∙◌, ◌⊎◌, inl, inr, Bool, true, false, Option, none, some, List,
  arith, Bytes, bytes_eq_sound, elem_nat, ==_iff, String,
}
use keylime.Prelude.Int.{ℤ}
use keylime.Prelude.Dict.{get, nat_key}
use keylime.Hash.{Hash}
use keylime.Failure.{Failure, merge, is_failure, Component, new_failure}
use keylime.Failure.Truth.{is_failure-merge, is_failure-add_event}
use keylime.Attest.{AgentAttestState}
use keylime.Ima.Text.{split_all}
use keylime.Ima.Policy.{RuntimePolicy}
use keylime.Ima.Inputs.{ImaEnv, ima_pcr, BootAggregates}
use keylime.Ima.Process.{Outcome, process_measurement_list}
use keylime.Tpm.Pcrs.{
  tpm_data_pcr, MbLog, MbPlugin, MbEvaluate, pcr_event, sim_extend, Allowlist, Pcrs, Checks, unused,
  check_data_pcr, check_mb_pcrs, check_rest, merge_ima, check_ima_pcr, evaluate_bootlog,
  check_after_ima, finish, check_pcrs,
}
use keylime.Tpm.Pcrs.Accepts.{
  quotes_allowed, unused_subset, check_rest-Uses, check_mb_pcrs-Uses, check_missing-clean,
}

-- the quote's IMA PCR is explained by the agent's measurement list
abbrev pub ImaAccepted :
    {Pubkey : Type 0}
    → ImaEnv Pubkey
    → AgentAttestState Pubkey
    → AgentAttestState Pubkey
    → Bytes
    → Option Bytes
    → Option RuntimePolicy
    → BootAggregates
    → Hash
    → Type 0
ImaAccepted env a a' value ima_list policy aggregates hash_alg =
    (ml : Bytes) × (h : Bytes) × (f : Failure) × (ima_list ≡ some ml)
    × (process_measurement_list env a (split_all b'\n' ml) hash_alg policy (some value) aggregates
        ≡ (a', some (h, f)))
    × (is_failure f ≡ false)

module _ {Pubkey : Type 0} (env : ImaEnv Pubkey) (plugin : MbPlugin) (evaluate : MbEvaluate) where
  open env use {lib, severities}
  open plugin use {Log, bootlog_parse, policy_is_valid, bootlog_evaluate}

  evaluate_bootlog-clean :
      (mb_failed : Bool) (mb_policy : Option Bytes) (log : Log) (count : ℤ) (agent_id : String)
      (c : Checks)
      → is_failure (evaluate_bootlog env plugin evaluate mb_failed mb_policy log count agent_id c)
        ≡ false
      → is_failure c.failure ≡ false
  unfolding evaluate_bootlog
  evaluate_bootlog-clean mb_failed mb_policy log count agent_id c h = ground (
    arith,
    is_failure-merge c.failure (bootlog_evaluate mb_policy log c.pcrs_in_quote agent_id),
    is_failure-add_event severities c.failure "invalid_measured_boot_evaluate" true none,
  )

  -- every PCR of the allowlist has been used before, or has an allowed value in the quote
  check_after_ima-clean :
      (allowlist : Allowlist) (pcrs : Pcrs) (mb_list mb_policy : Option Bytes) (mb : MbLog Log)
      (count : ℤ) (agent_id : String) (c : Checks)
      → is_failure
          (check_after_ima env plugin evaluate allowlist pcrs mb_list mb_policy mb count agent_id c)
        ≡ false
      → (is_failure c.failure ≡ false)
        × ((m : ℕ) (values : List Bytes)
            → get allowlist m ≡ some values
            → (elem_nat m c.pcrs_in_quote ≡ true) ⊎ (quotes_allowed (some values) m pcrs ≡ true))
  unfolding check_after_ima
  check_after_ima-clean allowlist pcrs mb_list mb_policy mb count agent_id c h =
      let mb_failed = is_failure mb.failure in
      let booted =
        check_mb_pcrs severities mb_failed (policy_is_valid mb_policy) mb_list mb.pcrs_hashes
          allowlist pcrs c in
      let left = unused booted.pcrs_in_quote pcrs in
      let rest = check_rest severities allowlist booted left in
      let (clean, all_used) =
        check_missing-clean severities allowlist rest
          (evaluate_bootlog-clean mb_failed mb_policy mb.log count agent_id _ h) in
      let first =
        check_mb_pcrs-Uses severities allowlist mb_failed (policy_is_valid mb_policy) mb_list
          mb.pcrs_hashes pcrs c in
      let second = check_rest-Uses severities allowlist booted left in
      (
        first.clean (second.clean clean),
        λ m values g. rw (← g) (elim (second.used clean m (all_used m values g)) [
          | inr x ↦ inr (unused_subset (get allowlist m) m booted.pcrs_in_quote pcrs x)
          | inl x ↦ first.used (second.clean clean) m x
        ]),
      )

  check_data_pcr-clean :
      (hash_alg : Hash) (o d : Option Bytes) (failure : Failure)
      → is_failure (check_data_pcr severities lib hash_alg o d failure).failure ≡ false
      → (is_failure failure ≡ false)
        × ((m : ℕ)
            → elem_nat m (check_data_pcr severities lib hash_alg o d failure).pcrs_in_quote ≡ true
            → m ≡ tpm_data_pcr)
        × ((bound : Bytes) × (d ≡ some bound) × (o ≡ some (sim_extend lib bound hash_alg)))
  unfolding check_data_pcr
  check_data_pcr-clean hash_alg none d failure h = ground (
    arith,
    is_failure-add_event severities failure (pcr_event "missing_pcr_" tpm_data_pcr) true none,
  )
  check_data_pcr-clean hash_alg (some value) none failure h = ground (
    arith,
    is_failure-add_event severities failure (pcr_event "missing_pcr_" tpm_data_pcr) true none,
  )
  check_data_pcr-clean hash_alg (some value) (some bound) failure h = (
    ground (
      arith,
      is_failure-add_event severities failure (pcr_event "invalid_pcr_" tpm_data_pcr) true none,
    ),
    λ m e. ground (arith, ==_iff tpm_data_pcr m),
    (
      bound,
      refl,
      ap some (
          sym (
            bytes_eq_sound (sim_extend lib bound hash_alg) value (
              ground (
                arith,
                is_failure-add_event severities failure (pcr_event "invalid_pcr_" tpm_data_pcr) true
                    none,
              )))),
    ),
  )

  check_ima_pcr-clean :
      (a a' : AgentAttestState Pubkey) (o ima_list : Option Bytes) (policy : Option RuntimePolicy)
      (aggregates : BootAggregates) (hash_alg : Hash) (c c' : Checks)
      → check_ima_pcr env plugin evaluate a o ima_list policy aggregates hash_alg c ≡ (a', some c')
      → is_failure c'.failure ≡ false
      → (is_failure c.failure ≡ false)
        × ((m : ℕ)
            → elem_nat m c'.pcrs_in_quote ≡ true
            → (elem_nat m c.pcrs_in_quote ≡ true) ⊎ (m ≡ ima_pcr))
        × ((value : Bytes)
            → o ≡ some value
            → ImaAccepted env a a' value ima_list policy aggregates hash_alg)
  unfolding check_ima_pcr
  check_ima_pcr-clean a a' none ima_list policy aggregates hash_alg c c' h e = ground arith
  check_ima_pcr-clean a a' (some v) none policy aggregates hash_alg c c' h e =
      ground (
        arith,
        is_failure-add_event severities c.failure (pcr_event "unused_pcr_" ima_pcr) true none,
      )
  check_ima_pcr-clean a a' (some v) (some ml) policy aggregates hash_alg c c' h e =
      replayed
        (process_measurement_list env a (split_all b'\n' ml) hash_alg policy (some v) aggregates)
        refl h
    where
      replayed :
          (r : Outcome Pubkey)
          → process_measurement_list env a (split_all b'\n' ml) hash_alg policy (some v) aggregates
            ≡ r
          → merge_ima env plugin evaluate c r ≡ (a', some c')
          → (is_failure c.failure ≡ false)
            × ((m : ℕ)
                → elem_nat m c'.pcrs_in_quote ≡ true
                → (elem_nat m c.pcrs_in_quote ≡ true) ⊎ (m ≡ ima_pcr))
            × ((value : Bytes)
                → some v ≡ some value
                → ImaAccepted env a a' value (some ml) policy aggregates hash_alg)
      replayed (b, none) run g = cc
      replayed (b, some (x, f)) run g = (
        ground (arith, is_failure-merge c.failure (merge (new_failure Component.ima none) f)),
        λ m u. ground (arith, ==_iff ima_pcr m),
        λ value s. (
          ml,
          x,
          f,
          refl,
          ground arith,
          ground (
            arith,
            is_failure-merge c.failure (merge (new_failure Component.ima none) f),
            is_failure-merge (new_failure Component.ima none) f,
          ),
        ),
      )

  finish-some :
      (f : Checks → Failure) (r : AgentAttestState Pubkey × Option Checks)
      (a' : AgentAttestState Pubkey) (failure : Failure)
      → finish env plugin evaluate f r ≡ (a', some failure)
      → (c : Checks) × (r ≡ (a', some c)) × (f c ≡ failure)
  finish-some f (a, none) a' failure h = cc
  finish-some f (a, some c) a' failure h = (c, ground arith, ground arith)

  -- The PCRs of a quote are accepted only if the boot log could be parsed without a failure, the
  -- data PCR is the one that extending by the given data gives, the quoted IMA PCR, if there is one,
  -- is accepted together with the measurement list, and every other PCR that the policy names is in
  -- the quote with one of the values that the policy allows.
  pub accepted_pcrs_match_policy :
      (a a' : AgentAttestState Pubkey) (allowlist : Allowlist) (pcrs : Pcrs)
      (bind_data ima_list : Option Bytes) (policy : Option RuntimePolicy)
      (mb_list mb_policy : Option Bytes) (hash_alg : Hash) (count : ℤ) (failure : Failure)
      → check_pcrs env plugin evaluate a allowlist pcrs bind_data ima_list policy mb_list mb_policy
          hash_alg count
        ≡ (a', some failure)
      → is_failure failure ≡ false
      → (is_failure (bootlog_parse mb_list hash_alg).failure ≡ false)
        × ((bound : Bytes) × (bind_data ≡ some bound)
            × (get pcrs tpm_data_pcr ≡ some (sim_extend lib bound hash_alg)))
        × ((value : Bytes)
            → get pcrs ima_pcr ≡ some value
            → ImaAccepted env a a' value ima_list policy
                (bootlog_parse mb_list hash_alg).boot_aggregates
                hash_alg)
        × ((n : ℕ) (values : List Bytes)
            → n ≢ tpm_data_pcr
            → n ≢ ima_pcr
            → get allowlist n ≡ some values
            → quotes_allowed (some values) n pcrs ≡ true)
  unfolding check_pcrs
  accepted_pcrs_match_policy a a' allowlist pcrs bind_data ima_list policy mb_list mb_policy
        hash_alg count failure h e =
      let mb = bootlog_parse mb_list hash_alg in
      let f0 = merge (new_failure Component.pcr_validation none) mb.failure in
      let bound = check_data_pcr severities lib hash_alg (get pcrs tpm_data_pcr) bind_data f0 in
      let (c, checked, ends) =
        finish-some
          (check_after_ima env plugin evaluate allowlist pcrs mb_list mb_policy mb count a.agent_id)
          (check_ima_pcr env plugin evaluate a (get pcrs ima_pcr) ima_list policy mb.boot_aggregates
            hash_alg bound)
          a' failure h in
      let (clean, named) =
        check_after_ima-clean allowlist pcrs mb_list mb_policy mb count a.agent_id c
          (ap is_failure ends ∙ e) in
      let (clean_bound, by_ima, ima) =
        check_ima_pcr-clean a a' (get pcrs ima_pcr) ima_list policy mb.boot_aggregates hash_alg
          bound c checked clean in
      let (clean_start, by_data, data_bound) =
        check_data_pcr-clean hash_alg (get pcrs tpm_data_pcr) bind_data f0 clean_bound in
      (
        ground (arith, is_failure-merge (new_failure Component.pcr_validation none) mb.failure),
        data_bound,
        ima,
        λ n values not_data not_ima g. elim (named n values g) [
          | inr x ↦ x
          | inl x ↦ elim (by_ima n x) [
            | inl y ↦ absurd (not_data (by_data n y))
            | inr y ↦ absurd (not_ima y)
          ]
        ],
      )
