-- ===== src/Mba/WhyNot.antt =====
-- keylime/mba/elchecking/tests.py: `why_not` of each class of tests, with the state after it; `none`
-- is an exception (an unhashable value, or a global that is missing).
use keylime.Prelude.{
  ℕ, suc, String, true, false, Option, none, some, List, [], ◌∷◌, ◌++◌, str_eq, if◌then◌else◌,
  elem_nat, ◌⊎◌, inl,
}
use keylime.Prelude.Dict.{get, string_key}
use keylime.Regex.{Regex}
use keylime.Mba.Value.{
  Value, str, list, dict, Items, Fields, text, shown, number, names, tuples, Reason, get_field,
  length_items, tuple_eq, scalar_eq,
}
use keylime.Mba.Test.{
  Test, accept_all, reject_all, all_of, any_of, dispatcher, field_test, iterate_test, tuple_test,
  delayed_field, delay_initializer, delay_to_fields, int_equal, string_equal, reg_exp, digests_test,
  variable_test, superset_of_dicts, once_test, no_action, Tests, no_tests, more, Cases, no_cases,
  case, TestState, Examined, StrOrRe, plain, pattern_of, approve, says, and_then, or_else, prefixed,
  bracketed, iterate, delay, initialize_globals, stashed, why_not_digests,
}
use keylime.Mba.Steps.{
  length_tests, head_or_null, tail_items, tuple_lengths, on_field, named, on_keys, why_not_int,
  why_not_str, why_not_superset, name_matches, on_data,
}

module _ (re : Regex String) (pattern_text : re.Pattern → String) where
  abbrev pub check_unicode_name : StrOrRe re.Pattern → String → Value → Reason ⊎ Value
  check_unicode_name (plain expected) s datum =
      name_matches (str_eq s expected)
        (text "Event.UnicodeName is " ∷ shown (str s) ∷ text " rather than " ∷ text expected ∷ [])
        datum
  check_unicode_name (pattern_of p) s datum =
      name_matches (re.fullmatch p s)
        (text "Event.UnicodeName, "
          ∷ shown (str s)
          ∷ text ", does not match "
          ∷ text (pattern_text p)
          ∷ [])
        datum

  abbrev pub check_data : StrOrRe re.Pattern → Value → Option Value → Reason ⊎ Value
  check_data unicode_name u none = inl (text "Event has no VariableData field" ∷ [])
  check_data unicode_name (str s) (some datum) = check_unicode_name unicode_name s datum
  check_data unicode_name _ (some datum) = inl (text "Event.UnicodeName is not a str" ∷ [])

  abbrev pub check_unicode : StrOrRe re.Pattern → Fields → Option Value → Reason ⊎ Value
  check_unicode unicode_name evt none = inl (text "Event has no UnicodeName field" ∷ [])
  check_unicode unicode_name evt (some u) = check_data unicode_name u (get_field evt "VariableData")

  abbrev pub check_variable : String → StrOrRe re.Pattern → Fields → Option Value → Reason ⊎ Value
  check_variable variable_name unicode_name evt none =
      inl (text "Event has no VariableName field" ∷ [])
  check_variable variable_name unicode_name evt (some v) =
      if scalar_eq v (str variable_name)
      then check_unicode unicode_name evt (get_field evt "UnicodeName")
      else inl
          (text "Event.VariableName is " ∷ shown v ∷ text " rather than " ∷ text variable_name ∷ [])

  abbrev pub check_event : String → StrOrRe re.Pattern → Option Value → Reason ⊎ Value
  check_event variable_name unicode_name none = inl (text "has no Event field" ∷ [])
  check_event variable_name unicode_name (some (dict evt)) =
      check_variable variable_name unicode_name evt (get_field evt "VariableName")
  check_event variable_name unicode_name (some _) = inl (text "Event is not a dict" ∷ [])

  unfoldable pub variable_data : String → StrOrRe re.Pattern → Value → Reason ⊎ Value
  variable_data variable_name unicode_name (dict fs) =
      check_event variable_name unicode_name (get_field fs "Event")
  variable_data variable_name unicode_name _ = inl (text "is not a dict" ∷ [])

  -- `why_not` of the class of the test. The tests of an Or that have failed leave their reasons.
  unfoldable mutual
    pub why_not : Test re.Pattern → TestState → Value → Examined
    why_not accept_all s v = approve s
    why_not (reject_all why) s v = says s why
    why_not (all_of tests) s v = why_not_all tests s v
    why_not (any_of no_tests) s v = says s "does not pass empty disjunction"
    why_not (any_of (more t ts)) s v = why_not_any (more t ts) [] s v
    why_not (dispatcher key_names tests) s v =
        on_keys key_names v s (λ key_vals. why_not_case key_names tests key_vals s v)
    why_not (field_test name test show_name) s v =
        named show_name name (on_field name v s (λ w. why_not test s w))
    why_not (iterate_test test show_elt) s (list vs) =
        iterate (λ s' w. why_not test s' w) show_elt 0 vs s
    why_not (iterate_test test show_elt) s _ = says s "is not a list"
    why_not (tuple_test tests pad) s (list vs) =
        and_then (s, some (tuple_lengths pad (length_items vs) (length_tests tests)))
          (λ s'. why_not_members tests 0 vs s')
    why_not (tuple_test tests pad) s _ = says s "is not a list"
    why_not (delayed_field name) s v = delay s name v (get s.globs name)
    why_not (delay_initializer field_names) s v = approve (initialize_globals field_names s)
    why_not (delay_to_fields test field_names) s v = why_not test s (dict (stashed field_names s))
    why_not (int_equal expected) s v = why_not_int expected v s
    why_not (string_equal expected) s v =
        why_not_str (λ t. str_eq t expected) (text "is not " ∷ shown (str expected) ∷ []) v s
    why_not (reg_exp p) s v =
        why_not_str (λ t. re.fullmatch p t) (text "does not match " ∷ text (pattern_text p) ∷ []) v
          s
    why_not (digests_test good) s v = (s, some (why_not_digests good v))
    why_not (variable_test variable_name unicode_name test) s v =
        on_data (variable_data variable_name unicode_name v) s (λ w. why_not test s w)
    why_not (superset_of_dicts reqs field_names) s v = (s, why_not_superset reqs field_names v)
    why_not (once_test self test) s v = elim (elem_nat self s.executed) [
      | true ↦ says s "test was already run once"
      | false ↦ why_not test (record s { executed = self ∷ s.executed }) v
    ]
    why_not (no_action pcr) s v = (
      s,
      some (text "No EV_EFI_ACTION event for " ∷ number pcr ∷ text " is expected in the spec" ∷ []),
    )

    pub why_not_all : Tests re.Pattern → TestState → Value → Examined
    why_not_all no_tests s v = approve s
    why_not_all (more t ts) s v = and_then (why_not t s v) (λ s'. why_not_all ts s' v)

    pub why_not_any : Tests re.Pattern → List Reason → TestState → Value → Examined
    why_not_any no_tests reasons s v = (s, some (bracketed reasons))
    why_not_any (more t ts) reasons s v =
        or_else (why_not t s v) (λ s' r. why_not_any ts (reasons ++ r ∷ []) s' v)

    pub why_not_case : List String → Cases re.Pattern → List Value → TestState → Value → Examined
    why_not_case key_names no_cases key_vals s v = (
      s,
      some (
          text "has unexpected "
          ∷ names key_names
          ∷ text " combination "
          ∷ tuples (key_vals ∷ [])
          ∷ []),
    )
    why_not_case key_names (case key test tests) key_vals s v = elim (tuple_eq key key_vals) [
      | true ↦ why_not test s v
      | false ↦ why_not_case key_names tests key_vals s v
    ]

    pub why_not_members : Tests re.Pattern → ℕ → Items → TestState → Examined
    why_not_members no_tests idx vs s = approve s
    why_not_members (more t ts) idx vs s =
        and_then (prefixed (text "[" ∷ number idx ∷ text "] " ∷ []) (why_not t s (head_or_null vs)))
          (λ s'. why_not_members ts (suc idx) (tail_items vs) s')
