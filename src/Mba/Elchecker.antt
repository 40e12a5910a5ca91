-- ===== src/Mba/Elchecker.antt =====
-- keylime/mba/elchecking/policies.py and elchecker.py: the registry of policies, and the evaluation
-- of a log against the reference state. `json.loads` is a parameter, and `none` is an exception.
use Prim.Native.String.{◌++◌ as ◌+s◌}
use keylime.Prelude.{
  ℕ, String, Bool, true, false, not, Option, none, some, List, [], ◌∷◌, str_eq, if◌then◌else◌,
  elem_nat,
}
use keylime.Prelude.Int.{pos, eq_ℤ}
use keylime.Prelude.Dict.{get, put, string_key}
use keylime.Regex.{Regex}
use keylime.Failure.{Severities, Failure, Component, new_failure, add_event}
use keylime.Mba.Value.{
  Value, null, bool, int, str, list, dict, no_items, item, no_fields, field, Reason, text,
}
use keylime.Mba.Test.{Test, accept_all, reject_all, TestState, Examined}
use keylime.Mba.WhyNot.{why_not}

-- Python's truth value
abbrev pub truthy : Value → Bool
truthy null = false
truthy (bool b) = b
truthy (int n) = not (eq_ℤ n (pos 0))
truthy (str s) = not (str_eq s "")
truthy (list no_items) = false
truthy (list (item v vs)) = true
truthy (dict no_fields) = false
truthy (dict (field k v fs)) = true

-- `len(obj)` raises of what is neither a text nor a collection.
abbrev has_length : Value → Bool
has_length (str s) = true
has_length (list vs) = true
has_length (dict fs) = true
has_length _ = false

abbrev validity : Option Value → Option Bool
validity none = some false
validity (some v) = if not (truthy v) then some false else if has_length v then some true else none

abbrev load_validity : (String → Option Value) → Option String → Option Bool
load_validity json_loads none = some false
load_validity json_loads (some s) = if str_eq s "" then some false else validity (json_loads s)

-- elchecker.policy_is_valid
unfoldable pub policy_is_valid : (String → Option Value) → Option String → Option Bool
policy_is_valid json_loads mb_refstate = load_validity json_loads mb_refstate

pub record Policy (P : Type 0) : Type 0 where
  pub get_relevant_pcrs : List ℕ
  pub refstate_to_test : Value → Option (Test P)

abbrev pub missing_pcrs : List ℕ → List ℕ → List ℕ
missing_pcrs [] pcrs_inquote = []
missing_pcrs (p ∷ ps) pcrs_inquote =
    let rest = missing_pcrs ps pcrs_inquote in if elem_nat p pcrs_inquote then rest else p ∷ rest

module _ {P : Type 0} where
  abbrev pub accept_all_policy : Policy P
  accept_all_policy = record { get_relevant_pcrs = []; refstate_to_test = λ v. some accept_all }

  abbrev pub reject_all_policy : Policy P
  reject_all_policy = record {
    get_relevant_pcrs = [];
    refstate_to_test = λ v. some (reject_all "reject all");
  }

  -- _registry, and `register`
  unfoldable pub register : List (String × Policy P) → String → Policy P → List (String × Policy P)
  register registry name policy = put registry name policy

  unfoldable pub initial_registry : List (String × Policy P)
  unfolding register
  initial_registry =
      register (register [] "accept-all" accept_all_policy) "reject-all" reject_all_policy

  unfoldable pub get_policy : List (String × Policy P) → String → Option (Policy P)
  get_policy registry name = get registry name

  abbrev pub or_reject_all : String → Option (Policy P) → String × Policy P
  or_reject_all name none = ("reject-all", reject_all_policy)
  or_reject_all name (some policy) = (name, policy)

abbrev pub fresh_state : TestState
fresh_state = record { globs = []; executed = [] }

-- the reason, or that of an exception, which is not empty
abbrev pub reason_or_exception : Examined → Reason
reason_or_exception (s, none) = text "policy evaluation failed: " ∷ []
reason_or_exception (s, some r) = r

unfoldable pub fresh_failure : Failure
unfolding new_failure
fresh_failure = new_failure Component.measured_boot none

module _ (re : Regex String) (pattern_text : re.Pattern → String) where
  -- Policy.evaluate, from empty globals. refstate_to_test builds a new test in each call, as those of
  -- the repository's policies do, so that no OnceTest in it has been executed.
  abbrev pub evaluate_test : Option (Test re.Pattern) → Value → Examined
  unfolding why_not
  evaluate_test none eventlog = (fresh_state, none)
  evaluate_test (some tester) eventlog = why_not re pattern_text tester fresh_state eventlog

  unfoldable pub evaluate : Policy re.Pattern → Value → Value → Examined
  unfolding why_not
  evaluate policy refstate eventlog = evaluate_test (policy.refstate_to_test refstate) eventlog

module _ (re : Regex String) (pattern_text : re.Pattern → String) (sev : Severities) where
  abbrev pub note_reason : Failure → String → Reason → Failure
  note_reason failure name [] = failure
  note_reason failure name (p ∷ r) = add_event sev failure ("policy_" +s name) true none

  abbrev pub judge_policy : Failure → List ℕ → String → Policy re.Pattern → Value → Value → Failure
  judge_policy failure [] name policy refstate eventlog =
      note_reason failure name
        (reason_or_exception (evaluate re pattern_text policy refstate eventlog))
  judge_policy failure (p ∷ ps) name policy refstate eventlog =
      add_event sev failure "missing_pcrs" true none

  abbrev pub under_policy : Failure → String × Policy re.Pattern → Value → Value → List ℕ → Failure
  under_policy failure (name, policy) refstate eventlog pcrs_inquote =
      judge_policy failure (missing_pcrs policy.get_relevant_pcrs pcrs_inquote) name policy refstate
        eventlog

  abbrev pub with_refstate :
      List (String × Policy re.Pattern) → String → Value → List ℕ → Option Value → Option Failure
  with_refstate registry name eventlog pcrs_inquote none = none
  with_refstate registry name eventlog pcrs_inquote (some refstate) = some (
      if not (truthy refstate)
      then fresh_failure
      else under_policy fresh_failure (or_reject_all name (get_policy registry name)) refstate
          eventlog pcrs_inquote)

  -- elchecker.bootlog_evaluate, with the configured name of the policy
  unfoldable pub bootlog_evaluate :
      (String → Option Value)
      → List (String × Policy re.Pattern)
      → String
      → Option String
      → Value
      → List ℕ
      → Option Failure
  bootlog_evaluate json_loads registry name none eventlog pcrs_inquote = some fresh_failure
  bootlog_evaluate json_loads registry name (some refstate_str) eventlog pcrs_inquote =
      if str_eq refstate_str ""
      then some fresh_failure
      else with_refstate registry name eventlog pcrs_inquote (json_loads refstate_str)
