-- ===== src/Mba/Evaluation.antt =====
-- keylime/mba/elchecking/elchecker.py, bootlog_evaluate: which logs fail.
use keylime.Prelude.{
  ℕ, String, ◌≡◌, refl, sym, ap, ◌∙◌, Bool, true, false, not, ◌&&◌, ◌||◌, Option, none, some,
  some_inj, List, [], ◌∷◌, arith, str_eq, if◌then◌else◌, elem_nat, nonempty,
}
use keylime.Prelude.Dict.{string_key}
use keylime.Regex.{Regex}
use keylime.Failure.{Severities, Failure, is_failure, new_failure}
use keylime.Failure.Truth.{is_failure-add_event}
use keylime.Mba.Value.{Value, Reason}
use keylime.Mba.Test.{Test, TestState, Examined}
use keylime.Mba.WhyNot.{why_not}
use keylime.Mba.Accepts.{Agrees, accepts, is_pure}
use keylime.Mba.Accepts.Sound.{why_not-Agrees}
use keylime.Mba.Elchecker.{
  truthy, Policy, get_policy, or_reject_all, missing_pcrs, reason_or_exception, evaluate,
  fresh_failure, fresh_state, evaluate_test, judge_policy, note_reason, under_policy,
  bootlog_evaluate,
}

abbrev pub all_in : List ℕ → List ℕ → Bool
all_in [] pcrs_inquote = true
all_in (p ∷ ps) pcrs_inquote = elem_nat p pcrs_inquote && all_in ps pcrs_inquote

nonempty-missing_pcrs :
    (ps pcrs_inquote : List ℕ)
    → nonempty (missing_pcrs ps pcrs_inquote) ≡ not (all_in ps pcrs_inquote)
nonempty-missing_pcrs [] pcrs_inquote = refl
nonempty-missing_pcrs (p ∷ ps) pcrs_inquote =
    elim (elem_nat p pcrs_inquote)
      as (λ b.
        nonempty (if b then missing_pcrs ps pcrs_inquote else p ∷ missing_pcrs ps pcrs_inquote)
        ≡ not (b && all_in ps pcrs_inquote)) [
          | true ↦ nonempty-missing_pcrs ps pcrs_inquote
          | false ↦ refl
        ]

module _ (re : Regex String) (pattern_text : re.Pattern → String) (sev : Severities) where
  fresh_passes : is_failure fresh_failure ≡ false
  unfolding is_failure new_failure fresh_failure
  fresh_passes = refl

  is_failure-note_reason :
      (f : Failure) (name : String) (r : Reason)
      → is_failure f ≡ false
      → is_failure (note_reason re pattern_text sev f name r) ≡ nonempty r
  is_failure-note_reason f name [] h = h
  is_failure-note_reason f name (p ∷ r) h = is_failure-add_event sev f _ true none

  is_failure-judge_policy :
      (f : Failure) (missing : List ℕ) (name : String) (policy : Policy re.Pattern)
      (refstate eventlog : Value)
      → is_failure f ≡ false
      → is_failure (judge_policy re pattern_text sev f missing name policy refstate eventlog) ≡ (
          nonempty missing
          || nonempty (reason_or_exception (evaluate re pattern_text policy refstate eventlog)))
  is_failure-judge_policy f [] name policy refstate eventlog h =
      is_failure-note_reason f name
        (reason_or_exception (evaluate re pattern_text policy refstate eventlog)) h
  is_failure-judge_policy f (p ∷ ps) name policy refstate eventlog h =
      is_failure-add_event sev f _ true none

  -- With reference state that is not empty, bootlog_evaluate returns, and the log fails exactly if a
  -- PCR of the chosen policy is not in the quote, or the policy gives a reason or raises. A policy
  -- that is not registered is replaced by reject-all.
  pub bootlog_evaluate-judges :
      (json_loads : String → Option Value) (registry : List (String × Policy re.Pattern))
      (name refstate_str : String) (refstate eventlog : Value) (pcrs_inquote : List ℕ)
      → str_eq refstate_str "" ≡ false
      → json_loads refstate_str ≡ some refstate
      → truthy refstate ≡ true
      → let policy = (or_reject_all name (get_policy registry name)).1 in
        (f : Failure) × (bootlog_evaluate re pattern_text sev json_loads registry name
            (some refstate_str)
            eventlog
            pcrs_inquote
          ≡ some f)
        × (is_failure f ≡ (
            not (all_in policy.get_relevant_pcrs pcrs_inquote)
            || nonempty (reason_or_exception (evaluate re pattern_text policy refstate eventlog))))
  unfolding bootlog_evaluate
  bootlog_evaluate-judges json_loads registry name refstate_str refstate eventlog pcrs_inquote given
        loaded full =
      let chosen = or_reject_all name (get_policy registry name) in
      let missing = missing_pcrs chosen.1.get_relevant_pcrs pcrs_inquote in
      (
        under_policy re pattern_text sev fresh_failure chosen refstate eventlog pcrs_inquote,
        rw (given, loaded, full) refl,
        is_failure-judge_policy fresh_failure missing chosen.0 chosen.1 refstate eventlog
              fresh_passes
            ∙ ap
                (λ b.
                  b
                  || nonempty
                      (reason_or_exception (evaluate re pattern_text chosen.1 refstate eventlog)))
                (nonempty-missing_pcrs chosen.1.get_relevant_pcrs pcrs_inquote),
      )

  evaluate_compiled :
      (policy : Policy re.Pattern) (t : Test re.Pattern) (refstate eventlog : Value)
      → policy.refstate_to_test refstate ≡ some t
      → evaluate re pattern_text policy refstate eventlog
        ≡ why_not re pattern_text t fresh_state eventlog
  unfolding evaluate
  evaluate_compiled policy t refstate eventlog compiled =
      ap (λ o. evaluate_test re pattern_text o eventlog) compiled

  approved_accepts :
      (s : TestState) (b : Bool) (x : Examined)
      → Agrees s b x
      → nonempty (reason_or_exception x) ≡ false
      → b ≡ true
  approved_accepts s b (s', none) h e = cc
  approved_accepts s b (s', some []) h e = sym h.1
  approved_accepts s b (s', some (p ∷ r)) h e = cc

  or_false : (a b : Bool) → (not a || b) ≡ false → (a ≡ true) × (b ≡ false)
  or_false a b h = ground arith

  -- Under a registered policy whose test keeps no state, a log passes only if every PCR of the policy
  -- is in the quote and the log has what the test asks for.
  pub passed_bootlog_is_accepted :
      (json_loads : String → Option Value) (registry : List (String × Policy re.Pattern))
      (name refstate_str : String) (refstate eventlog : Value) (pcrs_inquote : List ℕ)
      (policy : Policy re.Pattern) (t : Test re.Pattern) (f : Failure)
      → str_eq refstate_str "" ≡ false
      → json_loads refstate_str ≡ some refstate
      → truthy refstate ≡ true
      → get_policy registry name ≡ some policy
      → policy.refstate_to_test refstate ≡ some t
      → is_pure re t ≡ true
      → bootlog_evaluate re pattern_text sev json_loads registry name
          (some refstate_str)
          eventlog
          pcrs_inquote
        ≡ some f
      → is_failure f ≡ false
      → (all_in policy.get_relevant_pcrs pcrs_inquote ≡ true) × (accepts re t eventlog ≡ true)
  passed_bootlog_is_accepted json_loads registry name refstate_str refstate eventlog pcrs_inquote
        policy t f given loaded full registered compiled pure returned passed =
      let judged =
        bootlog_evaluate-judges json_loads registry name refstate_str refstate eventlog pcrs_inquote
          given loaded full in
      let same = some_inj (sym judged.1 ∙ returned) in
      let verdict = or_false _ _ (sym judged.2 ∙ ap is_failure same ∙ passed) in
      let chosen = ap (λ o. (or_reject_all name o).1) registered in
      (
        ap (λ (p : Policy re.Pattern). all_in p.get_relevant_pcrs pcrs_inquote) (sym chosen)
            ∙ verdict.0,
        approved_accepts fresh_state (accepts re t eventlog)
            (why_not re pattern_text t fresh_state eventlog)
            (why_not-Agrees re pattern_text t fresh_state eventlog pure)
            (ap (λ x. nonempty (reason_or_exception x))
                (sym (
                  ap (λ p. evaluate re pattern_text p refstate eventlog) chosen
                  ∙ evaluate_compiled policy t refstate eventlog compiled))
              ∙ verdict.1),
      )
