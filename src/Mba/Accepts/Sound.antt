-- ===== src/Mba/Accepts/Sound.antt =====
-- keylime/mba/elchecking/tests.py: `why_not` of the tests that keep the state, and their Booleans.
use keylime.Prelude.{ℕ, suc, String, ◌≡◌, refl, true, false, some, List, [], ◌∷◌, ◌++◌}
use keylime.Regex.{Regex}
use keylime.Mba.Value.{
  Value, null, bool, int, str, list, dict, Items, Reason, text, number, length_items, tuple_eq,
  int_of,
}
use keylime.Mba.Test.{
  Test, accept_all, reject_all, all_of, any_of, dispatcher, field_test, iterate_test, tuple_test,
  delayed_field, delay_initializer, delay_to_fields, int_equal, string_equal, reg_exp, digests_test,
  variable_test, superset_of_dicts, once_test, no_action, Tests, no_tests, more, Cases, no_cases,
  case, TestState, prefixed,
}
use keylime.Mba.Steps.{length_tests, head_or_null, tail_items, tuple_lengths}
use keylime.Mba.WhyNot.{why_not, why_not_all, why_not_any, why_not_case, why_not_members}
use keylime.Mba.Accepts.{
  Agrees, accepts, accepts_all, accepts_any, accepts_case, accepts_members, is_pure, are_pure,
  cases_pure,
}
use keylime.Mba.Accepts.Parts.{
  Agrees-and_then, Agrees-or_else, Agrees-prefixed, Agrees-named, Agrees-on_field, Agrees-iterate,
  Agrees-why_not_int, Agrees-why_not_str, Agrees-on_keys, Agrees-tuple_lengths, and_left, and_right,
}
use keylime.Mba.Accepts.Variable.{variable_data-Agrees}
use keylime.Mba.Accepts.Superset.{superset-Agrees}

module _ (re : Regex String) (pattern_text : re.Pattern → String) where
  mutual
    unfolding why_not

    pub why_not-Agrees :
        (t : Test re.Pattern) (s : TestState) (v : Value)
        → is_pure re t ≡ true
        → Agrees s (accepts re t v) (why_not re pattern_text t s v)
    why_not-Agrees accept_all s v h = (refl, refl)
    why_not-Agrees (reject_all why) s v h = (refl, refl)
    why_not-Agrees (all_of tests) s v h = all-Agrees tests s v h
    why_not-Agrees (any_of no_tests) s v h = (refl, refl)
    why_not-Agrees (any_of (more t ts)) s v h = any-Agrees (more t ts) [] s s v h refl
    why_not-Agrees (dispatcher key_names tests) s v h =
        Agrees-on_keys s key_names (λ l. accepts_case re tests l v) v _
          (λ l. case-Agrees key_names tests l s v h)
    why_not-Agrees (field_test name test show_name) s v h =
        Agrees-named s _ show_name name _
          (Agrees-on_field s name (λ w. accepts re test w) v _ (λ w. why_not-Agrees test s w h))
    why_not-Agrees (iterate_test test show_elt) s (list vs) h =
        Agrees-iterate s (λ w. accepts re test w) (λ s' w. why_not re pattern_text test s' w)
          show_elt (λ s' w e. rw e (why_not-Agrees test s w h)) 0 vs s refl
    why_not-Agrees (tuple_test tests pad) s (list vs) h =
        Agrees-and_then _ _ (s, some (tuple_lengths pad (length_items vs) (length_tests tests))) _
          (Agrees-tuple_lengths s pad (length_items vs) (length_tests tests))
          (λ s' e. members-Agrees tests 0 vs s s' h e)
    why_not-Agrees (int_equal expected) s v h = Agrees-why_not_int s expected (int_of v)
    why_not-Agrees (string_equal expected) s v h = Agrees-why_not_str s _ _ _ v
    why_not-Agrees (reg_exp p) s v h = Agrees-why_not_str s (re.fullmatch p) _ _ v
    why_not-Agrees (digests_test good) s v h = (refl, refl)
    why_not-Agrees (variable_test name u test) s v h =
        variable_data-Agrees re pattern_text s (λ w. accepts re test w) _
          (λ w. why_not-Agrees test s w h) name u v
    why_not-Agrees (superset_of_dicts reqs field_names) s v h = superset-Agrees s reqs field_names v
    why_not-Agrees (no_action pcr) s v h = (refl, refl)
    why_not-Agrees (iterate_test test show_elt) s null h = (refl, refl)
    why_not-Agrees (iterate_test test show_elt) s (bool b) h = (refl, refl)
    why_not-Agrees (iterate_test test show_elt) s (int n) h = (refl, refl)
    why_not-Agrees (iterate_test test show_elt) s (str t) h = (refl, refl)
    why_not-Agrees (iterate_test test show_elt) s (dict fs) h = (refl, refl)
    why_not-Agrees (tuple_test tests pad) s null h = (refl, refl)
    why_not-Agrees (tuple_test tests pad) s (bool b) h = (refl, refl)
    why_not-Agrees (tuple_test tests pad) s (int n) h = (refl, refl)
    why_not-Agrees (tuple_test tests pad) s (str t) h = (refl, refl)
    why_not-Agrees (tuple_test tests pad) s (dict fs) h = (refl, refl)
    why_not-Agrees (delayed_field name) s v h = cc
    why_not-Agrees (delay_initializer field_names) s v h = cc
    why_not-Agrees (delay_to_fields test field_names) s v h = cc
    why_not-Agrees (once_test self test) s v h = cc

    all-Agrees :
        (ts : Tests re.Pattern) (s : TestState) (v : Value)
        → are_pure re ts ≡ true
        → Agrees s (accepts_all re ts v) (why_not_all re pattern_text ts s v)
    all-Agrees no_tests s v h = (refl, refl)
    all-Agrees (more t ts) s v h =
        Agrees-and_then (accepts re t v) (accepts_all re ts v) (why_not re pattern_text t s v)
          (λ s'. why_not_all re pattern_text ts s' v)
          (why_not-Agrees t s v (and_left (is_pure re t) (are_pure re ts) h))
          (λ s' e. rw e (all-Agrees ts s v (and_right (is_pure re t) (are_pure re ts) h)))

    any-Agrees :
        (ts : Tests re.Pattern) (reasons : List Reason) (s s' : TestState) (v : Value)
        → are_pure re ts ≡ true
        → s' ≡ s
        → Agrees s (accepts_any re ts v) (why_not_any re pattern_text ts reasons s' v)
    any-Agrees no_tests reasons s s' v h e = (e, refl)
    any-Agrees (more t ts) reasons s s' v h e =
        Agrees-or_else (accepts re t v) (accepts_any re ts v) (why_not re pattern_text t s' v)
          (λ s'' r. why_not_any re pattern_text ts (reasons ++ r ∷ []) s'' v)
          (rw e (why_not-Agrees t s v (and_left (is_pure re t) (are_pure re ts) h)))
          (λ s'' r e'.
            any-Agrees ts (reasons ++ r ∷ []) s s'' v (and_right (is_pure re t) (are_pure re ts) h)
              e')

    case-Agrees :
        (key_names : List String) (cases : Cases re.Pattern) (l : List Value) (s : TestState)
        (v : Value)
        → cases_pure re cases ≡ true
        → Agrees s (accepts_case re cases l v) (why_not_case re pattern_text key_names cases l s v)
    case-Agrees key_names no_cases l s v h = (refl, refl)
    case-Agrees key_names (case key test cases) l s v h =
        elim (tuple_eq key l)
          as (λ b.
            Agrees s (elim b [ true ↦ accepts re test v | false ↦ accepts_case re cases l v ])
              (elim b [
                | true ↦ why_not re pattern_text test s v
                | false ↦ why_not_case re pattern_text key_names cases l s v
              ])) [
                | true ↦
                    why_not-Agrees test s v (and_left (is_pure re test) (cases_pure re cases) h)
                | false ↦
                    case-Agrees key_names cases l s v
                      (and_right (is_pure re test) (cases_pure re cases) h)
              ]

    members-Agrees :
        (ts : Tests re.Pattern) (idx : ℕ) (vs : Items) (s s' : TestState)
        → are_pure re ts ≡ true
        → s' ≡ s
        → Agrees s (accepts_members re ts vs) (why_not_members re pattern_text ts idx vs s')
    members-Agrees no_tests idx vs s s' h e = (e, refl)
    members-Agrees (more t ts) idx vs s s' h e =
        Agrees-and_then (accepts re t (head_or_null vs)) (accepts_members re ts (tail_items vs))
          (prefixed (text "[" ∷ number idx ∷ text "] " ∷ [])
            (why_not re pattern_text t s' (head_or_null vs)))
          (λ s''. why_not_members re pattern_text ts (suc idx) (tail_items vs) s'')
          (Agrees-prefixed s (accepts re t (head_or_null vs))
            (text "[" ∷ number idx ∷ text "] " ∷ [])
            (why_not re pattern_text t s' (head_or_null vs))
            (rw e
              (why_not-Agrees t s (head_or_null vs) (and_left (is_pure re t) (are_pure re ts) h))))
          (λ s'' e'.
            members-Agrees ts (suc idx) (tail_items vs) s s''
              (and_right (is_pure re t) (are_pure re ts) h) e')

  -- A test without globals or OnceTests keeps the state, and if it returns, it approves exactly if
  -- the value has what the test asks for.
  pub pure_test-Agrees :
      (t : Test re.Pattern) (s : TestState) (v : Value)
      → is_pure re t ≡ true
      → Agrees s (accepts re t v) (why_not re pattern_text t s v)
  pure_test-Agrees t s v pure = why_not-Agrees t s v pure
