-- ===== src/Mba/Once/Kept.antt =====
-- keylime/mba/elchecking/tests.py: what a test leaves of the OnceTests that have been executed.
use keylime.Prelude.{
  ℕ, suc, String, ◌≡◌, refl, Bool, true, false, some, List, [], ◌∷◌, ◌++◌, elem_nat, arith,
}
use keylime.Prelude.Dict.{get, string_key}
use keylime.Regex.{Regex}
use keylime.Mba.Value.{
  Value, null, bool, int, str, list, dict, Items, Reason, text, number, length_items, tuple_eq,
  int_of,
}
use keylime.Mba.Test.{
  Test, accept_all, reject_all, all_of, any_of, dispatcher, field_test, iterate_test, tuple_test,
  delayed_field, delay_initializer, delay_to_fields, int_equal, string_equal, reg_exp, digests_test,
  variable_test, superset_of_dicts, once_test, no_action, Tests, no_tests, more, Cases, no_cases,
  case, TestState, says, prefixed, stashed,
}
use keylime.Mba.Steps.{length_tests, head_or_null, tail_items, tuple_lengths}
use keylime.Mba.WhyNot.{
  why_not, why_not_all, why_not_any, why_not_case, why_not_members, variable_data,
}
use keylime.Mba.Once.{
  Ran, RanAfter, Ran-and_then, Ran-or_else, Ran-prefixed, Ran-named, Ran-on_field, Ran-on_keys,
  Ran-iterate, Ran-delay, Ran-initialize_globals, Ran-int_answer, Ran-why_not_str, Ran-on_data,
  Ran-executed,
}

chosen {ℓ} : {A : Type ℓ} (b : Bool) (x y : A) → b ≡ true → (elim b [ true ↦ x | false ↦ y ]) ≡ x
chosen true x y h = refl
chosen false x y h = cc

module _ (re : Regex String) (pattern_text : re.Pattern → String) (self : ℕ) where
  mutual
    unfolding why_not

    -- Whatever a test examines, a OnceTest that had been executed before is so afterwards.
    pub why_not-RanAfter :
        (t : Test re.Pattern) (s : TestState) (v : Value)
        → Ran self s
        → RanAfter self (why_not re pattern_text t s v)
    why_not-RanAfter accept_all s v h = h
    why_not-RanAfter (reject_all why) s v h = h
    why_not-RanAfter (digests_test good) s v h = h
    why_not-RanAfter (superset_of_dicts reqs field_names) s v h = h
    why_not-RanAfter (no_action pcr) s v h = h
    why_not-RanAfter (any_of no_tests) s v h = h
    why_not-RanAfter (all_of tests) s v h = all-RanAfter tests s v h
    why_not-RanAfter (any_of (more t ts)) s v h = any-RanAfter (more t ts) [] s v h
    why_not-RanAfter (dispatcher key_names tests) s v h =
        Ran-on_keys self key_names v s _ h (λ l. case-RanAfter key_names tests l s v h)
    why_not-RanAfter (field_test name test show_name) s v h =
        Ran-named self show_name name _
          (Ran-on_field self name v s _ h (λ w. why_not-RanAfter test s w h))
    why_not-RanAfter (iterate_test test show_elt) s (list vs) h =
        Ran-iterate self (λ s' w. why_not re pattern_text test s' w) show_elt
          (λ s' w h'. why_not-RanAfter test s' w h') 0 vs s h
    why_not-RanAfter (tuple_test tests pad) s (list vs) h =
        Ran-and_then self (s, some (tuple_lengths pad (length_items vs) (length_tests tests)))
          (λ s'. why_not_members re pattern_text tests 0 vs s') h
          (λ s' h'. members-RanAfter tests 0 vs s' h')
    why_not-RanAfter (delayed_field name) s v h = Ran-delay self s name v (get s.globs name) h
    why_not-RanAfter (delay_initializer field_names) s v h =
        Ran-initialize_globals self field_names s h
    why_not-RanAfter (delay_to_fields test field_names) s v h =
        why_not-RanAfter test s (dict (stashed field_names s)) h
    why_not-RanAfter (int_equal expected) s v h = Ran-int_answer self expected s (int_of v) h
    why_not-RanAfter (string_equal expected) s v h = Ran-why_not_str self _ _ v s h
    why_not-RanAfter (reg_exp p) s v h = Ran-why_not_str self (re.fullmatch p) _ v s h
    why_not-RanAfter (variable_test name u test) s v h =
        Ran-on_data self (variable_data re pattern_text name u v) s
          (λ w. why_not re pattern_text test s w) h (λ w. why_not-RanAfter test s w h)
    why_not-RanAfter (once_test other test) s v h =
        elim (elem_nat other s.executed)
          as (λ b. RanAfter self (elim b [
            | true ↦ says s "test was already run once"
            | false ↦ why_not re pattern_text test (record s { executed = other ∷ s.executed }) v
          ])) [
            | true ↦ h
            | false ↦
                why_not-RanAfter test (record s { executed = other ∷ s.executed }) v
                  (Ran-executed self other s h)
          ]
    why_not-RanAfter (iterate_test test show_elt) s null h = h
    why_not-RanAfter (iterate_test test show_elt) s (bool b) h = h
    why_not-RanAfter (iterate_test test show_elt) s (int n) h = h
    why_not-RanAfter (iterate_test test show_elt) s (str t) h = h
    why_not-RanAfter (iterate_test test show_elt) s (dict fs) h = h
    why_not-RanAfter (tuple_test tests pad) s null h = h
    why_not-RanAfter (tuple_test tests pad) s (bool b) h = h
    why_not-RanAfter (tuple_test tests pad) s (int n) h = h
    why_not-RanAfter (tuple_test tests pad) s (str t) h = h
    why_not-RanAfter (tuple_test tests pad) s (dict fs) h = h

    all-RanAfter :
        (ts : Tests re.Pattern) (s : TestState) (v : Value)
        → Ran self s
        → RanAfter self (why_not_all re pattern_text ts s v)
    all-RanAfter no_tests s v h = h
    all-RanAfter (more t ts) s v h =
        Ran-and_then self (why_not re pattern_text t s v)
          (λ s'. why_not_all re pattern_text ts s' v) (why_not-RanAfter t s v h)
          (λ s' h'. all-RanAfter ts s' v h')

    any-RanAfter :
        (ts : Tests re.Pattern) (reasons : List Reason) (s : TestState) (v : Value)
        → Ran self s
        → RanAfter self (why_not_any re pattern_text ts reasons s v)
    any-RanAfter no_tests reasons s v h = h
    any-RanAfter (more t ts) reasons s v h =
        Ran-or_else self (why_not re pattern_text t s v)
          (λ s' r. why_not_any re pattern_text ts (reasons ++ r ∷ []) s' v)
          (why_not-RanAfter t s v h) (λ s' r h'. any-RanAfter ts (reasons ++ r ∷ []) s' v h')

    case-RanAfter :
        (key_names : List String) (cases : Cases re.Pattern) (l : List Value) (s : TestState)
        (v : Value)
        → Ran self s
        → RanAfter self (why_not_case re pattern_text key_names cases l s v)
    case-RanAfter key_names no_cases l s v h = h
    case-RanAfter key_names (case key test cases) l s v h =
        elim (tuple_eq key l)
          as (λ b. RanAfter self (elim b [
            | true ↦ why_not re pattern_text test s v
            | false ↦ why_not_case re pattern_text key_names cases l s v
          ])) [ true ↦ why_not-RanAfter test s v h | false ↦ case-RanAfter key_names cases l s v h ]

    members-RanAfter :
        (ts : Tests re.Pattern) (idx : ℕ) (vs : Items) (s : TestState)
        → Ran self s
        → RanAfter self (why_not_members re pattern_text ts idx vs s)
    members-RanAfter no_tests idx vs s h = h
    members-RanAfter (more t ts) idx vs s h =
        Ran-and_then self
          (prefixed (text "[" ∷ number idx ∷ text "] " ∷ [])
            (why_not re pattern_text t s (head_or_null vs)))
          (λ s'. why_not_members re pattern_text ts (suc idx) (tail_items vs) s')
          (Ran-prefixed self (text "[" ∷ number idx ∷ text "] " ∷ [])
            (why_not re pattern_text t s (head_or_null vs))
            (why_not-RanAfter t s (head_or_null vs) h))
          (λ s' h'. members-RanAfter ts (suc idx) (tail_items vs) s' h')

  executed_self : (s : TestState) → Ran self (record s { executed = self ∷ s.executed })
  executed_self s = ground arith

  ran_once :
      (test : Test re.Pattern) (s : TestState) (v : Value)
      → RanAfter self (why_not re pattern_text (once_test self test) s v)
  unfolding why_not
  ran_once test s v = go (elem_nat self s.executed) refl
    where
      go :
          (b : Bool)
          → elem_nat self s.executed ≡ b
          → RanAfter self (elim b [
            | true ↦ says s "test was already run once"
            | false ↦ why_not re pattern_text test (record s { executed = self ∷ s.executed }) v
          ])
      go true e = e
      go false e =
          why_not-RanAfter test (record s { executed = self ∷ s.executed }) v (executed_self s)

  run_again :
      (test : Test re.Pattern) (s : TestState) (v : Value)
      → Ran self s
      → why_not re pattern_text (once_test self test) s v
        ≡ (s, some (text "test was already run once" ∷ []))
  unfolding why_not
  run_again test s v h = chosen (elem_nat self s.executed) _ _ h

  -- Once a OnceTest has examined a value, it rejects every other value in every later state that
  -- another test leaves, whatever it has answered before.
  pub second_run_rejected :
      (test between : Test re.Pattern) (s : TestState) (v w u : Value)
      → let after =
          (why_not re pattern_text between
            (why_not re pattern_text (once_test self test) s v).0
            w).0 in
        why_not re pattern_text (once_test self test) after u
        ≡ (after, some (text "test was already run once" ∷ []))
  second_run_rejected test between s v w u =
      run_again test
        (why_not re pattern_text between (why_not re pattern_text (once_test self test) s v).0 w).0
        u
        (why_not-RanAfter between (why_not re pattern_text (once_test self test) s v).0 w
          (ran_once test s v))
