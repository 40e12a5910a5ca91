-- ===== src/Mba/Accepts.antt =====
-- keylime/mba/elchecking/tests.py: which values the tests approve of, the tests that use the globals
-- and the OnceTests left aside.
pub mod Parts
pub mod Variable
pub mod Superset
pub mod Sound
use keylime.Prelude.{
  ℕ, zero, suc, ◌+◌, String, ◌≡◌, ap, ◌∙◌, ◌⊎◌, inl, inr, refl, Bool, true, false, not, ◌&&◌, ◌||◌,
  Option, none, some, List, [], ◌∷◌, ◌++◌, str_eq, if◌then◌else◌, arith, elem_str, elem_nat, ltb,
  leb, ◌==◌, length, nonempty, nonempty-append, Option-cases, Bool-cases,
}
use keylime.Prelude.Int.{ℤ, eq_ℤ}
use keylime.Prelude.Dict.{get, string_key}
use keylime.Regex.{Regex}
use keylime.Mba.Value.{
  Value, null, bool, int, str, list, dict, Items, no_items, item, Fields, no_fields, field, Piece,
  text, shown, number, names, Reason, get_field, length_items, int_of, scalar_eq, tuple_eq,
  all_hashable, elem_tuple,
}
use keylime.Mba.Test.{
  GoodDigests, Test, accept_all, reject_all, all_of, any_of, dispatcher, field_test, iterate_test,
  tuple_test, delayed_field, delay_initializer, delay_to_fields, int_equal, string_equal, reg_exp,
  digests_test, variable_test, superset_of_dicts, once_test, no_action, Tests, no_tests, more,
  Cases, no_cases, case, TestState, Examined, StrOrRe, plain, pattern_of, approve, says, and_then,
  or_else, prefixed, bracketed, keys_of, iterate, why_not_digests,
}
use keylime.Mba.Steps.{length_tests, head_or_null, tail_items, dict_to_tuple, minus, superset_loop}
use keylime.Mba.WhyNot.{
  variable_data, why_not, why_not_all, why_not_any, why_not_case, why_not_members,
}

abbrev pub str_is : (String → Bool) → Value → Bool
str_is p (str s) = p s
str_is p _ = false

abbrev pub int_is : ℤ → Option ℤ → Bool
int_is expected none = false
int_is expected (some n) = eq_ℤ n expected

abbrev pub holds : (Value → Bool) → Option Value → Bool
holds p none = false
holds p (some v) = p v

-- a test of a field of a dict
abbrev pub field_holds : String → (Value → Bool) → Value → Bool
field_holds name p (dict fs) = holds p (get_field fs name)
field_holds name p _ = false

abbrev pub every : (Value → Bool) → Items → Bool
every p no_items = true
every p (item v vs) = p v && every p vs

abbrev pub list_is : (Items → Bool) → Value → Bool
list_is p (list vs) = p vs
list_is p _ = false

-- the lengths that a TupleTest admits
abbrev pub fits : Bool → ℕ → ℕ → Bool
fits true subject_len test_len = leb subject_len test_len
fits false subject_len test_len = subject_len == test_len

abbrev pub keyed : (List Value → Bool) → List Value ⊎ String → Bool
keyed p (inl l) = p l
keyed p (inr name) = false

abbrev pub dispatched : List String → (List Value → Bool) → Value → Bool
dispatched key_names p (dict fs) = keyed p (keys_of key_names fs)
dispatched key_names p _ = false

abbrev pub approves : Reason → Bool
approves r = not (nonempty r)

-- a member of the list that is a dict with the tuple
abbrev pub is_tuple : List Value → Option (List Value) → Bool
is_tuple req none = false
is_tuple req (some t) = tuple_eq req t

abbrev pub found : List String → List Value → Items → Bool
found field_names req no_items = false
found field_names req (item (dict fs) vs) =
    is_tuple req (dict_to_tuple fs field_names) || found field_names req vs
found field_names req (item v vs) = found field_names req vs

abbrev pub is_some_tuple : Option (List Value) → Bool
is_some_tuple none = false
is_some_tuple (some t) = true

-- all the members are dicts with just the given names
abbrev pub all_named : List String → Items → Bool
all_named field_names no_items = true
all_named field_names (item (dict fs) vs) =
    is_some_tuple (dict_to_tuple fs field_names) && all_named field_names vs
all_named field_names (item v vs) = false

-- every required tuple is among those already seen, or found in the list
abbrev pub all_found : List (List Value) → List String → List (List Value) → Items → Bool
all_found [] field_names actual vs = true
all_found (req ∷ reqs) field_names actual vs =
    (elem_tuple req actual || found field_names req vs) && all_found reqs field_names actual vs

module _ (re : Regex String) where
  abbrev pub matches : StrOrRe re.Pattern → String → Bool
  matches (plain expected) s = str_eq s expected
  matches (pattern_of p) s = re.fullmatch p s

  -- an event of the variable, whose data pass the test
  abbrev pub variable_event : String → StrOrRe re.Pattern → (Value → Bool) → Value → Bool
  variable_event variable_name unicode_name p evt =
      field_holds "VariableName" (λ n. scalar_eq n (str variable_name)) evt
      && (field_holds "UnicodeName" (str_is (matches unicode_name)) evt
          && field_holds "VariableData" p evt)

  abbrev mutual
    pub accepts : Test re.Pattern → Value → Bool
    accepts accept_all v = true
    accepts (reject_all why) v = false
    accepts (all_of tests) v = accepts_all tests v
    accepts (any_of tests) v = accepts_any tests v
    accepts (dispatcher key_names tests) v =
        dispatched key_names (λ key_vals. accepts_case tests key_vals v) v
    accepts (field_test name test show_name) v = field_holds name (λ w. accepts test w) v
    accepts (iterate_test test show_elt) v = list_is (λ vs. every (λ w. accepts test w) vs) v
    accepts (tuple_test tests pad) v =
        list_is (λ vs. fits pad (length_items vs) (length_tests tests) && accepts_members tests vs)
          v
    accepts (int_equal expected) v = int_is expected (int_of v)
    accepts (string_equal expected) v = str_is (λ t. str_eq t expected) v
    accepts (reg_exp p) v = str_is (λ t. re.fullmatch p t) v
    accepts (digests_test good) v = approves (why_not_digests good v)
    accepts (variable_test variable_name unicode_name test) v =
        field_holds "Event" (variable_event variable_name unicode_name (λ w. accepts test w)) v
    accepts (superset_of_dicts reqs field_names) v =
        list_is (λ vs. all_named field_names vs && all_found reqs field_names [] vs) v
    accepts _ v = false

    pub accepts_all : Tests re.Pattern → Value → Bool
    accepts_all no_tests v = true
    accepts_all (more t ts) v = accepts t v && accepts_all ts v

    pub accepts_any : Tests re.Pattern → Value → Bool
    accepts_any no_tests v = false
    accepts_any (more t ts) v = accepts t v || accepts_any ts v

    pub accepts_case : Cases re.Pattern → List Value → Value → Bool
    accepts_case no_cases key_vals v = false
    accepts_case (case key test tests) key_vals v = elim (tuple_eq key key_vals) [
      | true ↦ accepts test v
      | false ↦ accepts_case tests key_vals v
    ]

    pub accepts_members : Tests re.Pattern → Items → Bool
    accepts_members no_tests vs = true
    accepts_members (more t ts) vs =
        accepts t (head_or_null vs) && accepts_members ts (tail_items vs)

  -- no test that reads or writes the state
  abbrev mutual
    pub is_pure : Test re.Pattern → Bool
    is_pure (all_of tests) = are_pure tests
    is_pure (any_of tests) = are_pure tests
    is_pure (dispatcher key_names tests) = cases_pure tests
    is_pure (field_test name test show_name) = is_pure test
    is_pure (iterate_test test show_elt) = is_pure test
    is_pure (tuple_test tests pad) = are_pure tests
    is_pure (delayed_field name) = false
    is_pure (delay_initializer field_names) = false
    is_pure (delay_to_fields test field_names) = false
    is_pure (variable_test variable_name unicode_name test) = is_pure test
    is_pure (once_test self test) = false
    is_pure _ = true

    pub are_pure : Tests re.Pattern → Bool
    are_pure no_tests = true
    are_pure (more t ts) = is_pure t && are_pure ts

    pub cases_pure : Cases re.Pattern → Bool
    cases_pure no_cases = true
    cases_pure (case key test tests) = is_pure test && cases_pure tests

-- the state is kept, and an answer is approval exactly if the Boolean holds
abbrev pub Agrees : TestState → Bool → Examined → Type 0
Agrees s b (s', none) = s' ≡ s
Agrees s b (s', some r) = (s' ≡ s) × (approves r ≡ b)
