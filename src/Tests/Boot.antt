-- ===== src/Tests/Boot.antt =====
-- keylime/mba/elchecking at concrete inputs: logs of a few events, and a policy that asks for them.
use keylime.Prelude.{
  ℕ, String, ◌≡◌, refl, true, false, not, ◌||◌, Option, some, List, [], ◌∷◌, str_eq, nonempty,
}
use keylime.Prelude.Int.{pos}
use keylime.Prelude.Dict.{string_key}
use keylime.Regex.{Regex, literals}
use keylime.Failure.{Failure, is_failure, new_failure}
use keylime.Mba.Value.{
  Value, null, int, str, list, dict, Items, no_items, item, no_fields, field, text, tuple_eq,
}
use keylime.Mba.Test.{
  Test, accept_all, any_of, dispatcher, field_test, iterate_test, tuple_test, delay_to_fields,
  string_equal, once_test, no_tests, more, Cases, no_cases, case,
}
use keylime.Mba.WhyNot.{why_not, why_not_case}
use keylime.Mba.Builders.{Signature, set_case, key_subset}
use keylime.Mba.Elchecker.{
  Policy, initial_registry, register, get_policy, reason_or_exception, evaluate, bootlog_evaluate,
  fresh_failure, fresh_state,
}
use keylime.Mba.Accepts.{Agrees, accepts, list_is, every}
use keylime.Mba.Accepts.Sound.{pure_test-Agrees}
use keylime.Mba.Once.Kept.{second_run_rejected}
use keylime.Mba.Delays.{delay_all, delayed_members_are_tested}
use keylime.Mba.Dispatch.{set_case-answers}
use keylime.Mba.Keys.{is_key_list, why_not-key_subset}
use keylime.Mba.Evaluation.{all_in, bootlog_evaluate-judges, passed_bootlog_is_accepted}
use keylime.Tests.Data.{two_levels}

abbrev re : Regex String
re = literals str_eq

abbrev shown_pattern : String → String
shown_pattern s = s

abbrev event : ℕ → String → Value
event pcr kind = dict (field "PCRIndex" (int (pos pcr)) (field "EventType" (str kind) no_fields))

abbrev log : Items
log = item (event 4 "EV_EFI_ACTION") (item (event 5 "EV_IPL") no_items)

abbrev is_kind : String → Test String
is_kind kind = field_test "EventType" (string_equal kind) true

-- actions of PCR 4, and anything of PCR 5
abbrev cases : Cases String
cases = case (int (pos 4) ∷ []) (is_kind "EV_EFI_ACTION") (
    case (int (pos 5) ∷ []) (any_of (more (is_kind "EV_POST") (more accept_all no_tests))) no_cases)

abbrev events_test : Test String
events_test = iterate_test (dispatcher ("PCRIndex" ∷ []) cases) true

pure_test-Agrees_example :
    Agrees fresh_state
      (accepts re events_test (list log))
      (why_not re shown_pattern events_test fresh_state (list log))
pure_test-Agrees_example = pure_test-Agrees re shown_pattern events_test fresh_state (list log) refl

log_approved : why_not re shown_pattern events_test fresh_state (list log) ≡ (fresh_state, some [])
unfolding why_not
log_approved = refl

second_run_rejected_example :
    let after =
      (why_not re shown_pattern events_test
        (why_not re shown_pattern (once_test 7 accept_all) fresh_state null).0
        (list log)).0 in
    why_not re shown_pattern (once_test 7 accept_all) after (str "again")
    ≡ (after, some (text "test was already run once" ∷ []))
second_run_rejected_example =
    second_run_rejected re shown_pattern 7 accept_all events_test fresh_state null (list log)
      (str "again")

abbrev kinds_of : Value → Test String
kinds_of v = field_test "kernels" (tuple_test (more events_test no_tests) true) true

delayed_members_are_tested_example :
    let passed =
      why_not re shown_pattern
        (delay_all re shown_pattern "kernels" false)
        fresh_state
        (list log) in
    (passed.1 ≡ some [])
    × (why_not re shown_pattern (delay_to_fields (kinds_of null) ("kernels" ∷ [])) passed.0 null
        ≡ why_not re shown_pattern
            (kinds_of null)
            passed.0
            (dict (field "kernels" (list log) no_fields)))
delayed_members_are_tested_example =
    delayed_members_are_tested re shown_pattern (kinds_of null) "kernels" false fresh_state log null

abbrev with_eight : Cases String
with_eight = case (int (pos 4) ∷ []) (is_kind "EV_EFI_ACTION") (
    case (int (pos 5) ∷ []) (any_of (more (is_kind "EV_POST") (more accept_all no_tests)))
      (case (int (pos 8) ∷ []) (is_kind "EV_IPL") no_cases))

set_case-answers_example :
    (why_not_case re shown_pattern
        ("PCRIndex" ∷ [])
        with_eight
        (int (pos 8) ∷ [])
        fresh_state
        (event 8 "EV_IPL")
      ≡ why_not re shown_pattern (is_kind "EV_IPL") fresh_state (event 8 "EV_IPL"))
    × ((l : List Value)
        → tuple_eq (int (pos 8) ∷ []) l ≡ false
        → why_not_case re shown_pattern
            ("PCRIndex" ∷ [])
            with_eight
            l
            fresh_state
            (event 8 "EV_IPL")
          ≡ why_not_case re shown_pattern ("PCRIndex" ∷ []) cases l fresh_state (event 8 "EV_IPL"))
set_case-answers_example =
    set_case-answers re shown_pattern (int (pos 8) ∷ []) (is_kind "EV_IPL") ("PCRIndex" ∷ []) cases
      with_eight fresh_state (event 8 "EV_IPL") refl (unfold set_case in refl)

abbrev key_a : Signature
key_a = record { owner = "a"; datum = "01" }

abbrev key_b : Signature
key_b = record { owner = "b"; datum = "02" }

abbrev key_dict : Signature → Value
key_dict k =
    dict (field "SignatureOwner" (str k.owner) (field "SignatureData" (str k.datum) no_fields))

abbrev key_lists : Value
key_lists = list (
    item
      (dict (
        field "SignatureType" (str "x509")
          (field "Keys" (list (item (key_dict key_b) no_items)) no_fields)))
      no_items)

why_not-key_subset_example :
    Agrees fresh_state
      (list_is (every (is_key_list "x509" (key_a ∷ key_b ∷ []))) key_lists)
      (why_not re shown_pattern (key_subset "x509" (key_a ∷ key_b ∷ [])) fresh_state key_lists)
why_not-key_subset_example =
    why_not-key_subset re shown_pattern "x509" (key_a ∷ key_b ∷ []) fresh_state key_lists

abbrev policy : Policy String
policy = record { get_relevant_pcrs = 4 ∷ 5 ∷ []; refstate_to_test = λ refstate. some events_test }

abbrev registry : List (String × Policy String)
unfolding register initial_registry
registry = register initial_registry "events" policy

abbrev loads : String → Option Value
loads s = some (dict (field "db" (str s) no_fields))

bootlog_evaluate-judges_example :
    (f : Failure) × (bootlog_evaluate re shown_pattern two_levels loads registry "events"
        (some "{}")
        (list log)
        (5 ∷ 4 ∷ [])
      ≡ some f)
    × (is_failure f ≡ (
        not (all_in (4 ∷ 5 ∷ []) (5 ∷ 4 ∷ []))
        || nonempty (
            reason_or_exception (
              evaluate re shown_pattern policy
                (dict (field "db" (str "{}") no_fields))
                (list log)))))
unfolding get_policy evaluate registry initial_registry register
bootlog_evaluate-judges_example =
    bootlog_evaluate-judges re shown_pattern two_levels loads registry "events" "{}"
      (dict (field "db" (str "{}") no_fields)) (list log) (5 ∷ 4 ∷ []) refl refl refl

passed_bootlog_is_accepted_example :
    (all_in (4 ∷ 5 ∷ []) (5 ∷ 4 ∷ []) ≡ true) × (accepts re events_test (list log) ≡ true)
passed_bootlog_is_accepted_example =
    passed_bootlog_is_accepted re shown_pattern two_levels loads registry "events" "{}"
      (dict (field "db" (str "{}") no_fields)) (list log) (5 ∷ 4 ∷ []) policy events_test
      fresh_failure refl refl refl (unfold get_policy registry initial_registry register in refl)
      refl refl
      (unfold bootlog_evaluate evaluate get_policy why_not registry initial_registry register in
        refl)
      (unfold is_failure fresh_failure new_failure in refl)
