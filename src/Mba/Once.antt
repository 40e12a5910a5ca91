-- ===== src/Mba/Once.antt =====
-- keylime/mba/elchecking/tests.py, class OnceTest: an executed test stays executed.
pub mod Kept
use keylime.Prelude.{
  ℕ, suc, ◌+◌, String, ◌≡◌, refl, ap, ◌∙◌, ◌⊎◌, inl, inr, Bool, true, false, not, ◌&&◌, ◌||◌,
  Option, none, some, List, [], ◌∷◌, ◌++◌, arith, elem_nat, ==_iff, ◌==◌, Option-cases,
}
use keylime.Prelude.Dict.{get, put, string_key}
use keylime.Regex.{Regex}
use keylime.Mba.Value.{
  Value, null, bool, int, str, list, dict, Items, no_items, item, Fields, Reason, Piece, text,
  number, length_items, tuple_eq, int_of, get_field, append_items, all_hashable,
}
use keylime.Mba.Test.{
  Test, accept_all, reject_all, all_of, any_of, dispatcher, field_test, iterate_test, tuple_test,
  delayed_field, delay_initializer, delay_to_fields, int_equal, string_equal, reg_exp, digests_test,
  variable_test, superset_of_dicts, once_test, no_action, Tests, no_tests, more, Cases, no_cases,
  case, TestState, Examined, approve, says, and_then, or_else, prefixed, bracketed, keys_of,
  why_not_digests, iterate, elt_prefix, delay, initialize_globals, stashed,
}
use keylime.Mba.Steps.{
  length_tests, head_or_null, tail_items, on_field, field_answer, on_keys, keys_answer, named,
  tuple_lengths, on_data, is_expected, int_answer, why_not_int, why_not_str,
}
use keylime.Mba.WhyNot.{
  why_not, why_not_all, why_not_any, why_not_case, why_not_members, variable_data,
}
use keylime.Prelude.Int.{ℤ}

module _ (self : ℕ) where
  -- the OnceTest has been executed, before and after
  abbrev pub Ran : TestState → Type 0
  Ran s = elem_nat self s.executed ≡ true

  abbrev pub RanAfter : Examined → Type 0
  RanAfter (s, o) = Ran s

  pub Ran-and_then :
      (x : Examined) (k : TestState → Examined)
      → RanAfter x
      → ((s : TestState) → Ran s → RanAfter (k s))
      → RanAfter (and_then x k)
  Ran-and_then (s, none) k h g = h
  Ran-and_then (s, some []) k h g = g s h
  Ran-and_then (s, some (p ∷ r)) k h g = h

  pub Ran-or_else :
      (x : Examined) (k : TestState → Reason → Examined)
      → RanAfter x
      → ((s : TestState) (r : Reason) → Ran s → RanAfter (k s r))
      → RanAfter (or_else x k)
  Ran-or_else (s, none) k h g = h
  Ran-or_else (s, some []) k h g = h
  Ran-or_else (s, some (p ∷ r)) k h g = g s (p ∷ r) h

  pub Ran-prefixed : (q : Reason) (x : Examined) → RanAfter x → RanAfter (prefixed q x)
  Ran-prefixed q (s, none) h = h
  Ran-prefixed q (s, some []) h = h
  Ran-prefixed q (s, some (p ∷ r)) h = h

  pub Ran-named :
      (show : Bool) (name : String) (x : Examined) → RanAfter x → RanAfter (named show name x)
  Ran-named true name x h = Ran-prefixed (text name ∷ text " " ∷ []) x h
  Ran-named false name x h = h

  pub Ran-field_answer :
      (name : String) (s : TestState) (k : Value → Examined) (o : Option Value)
      → Ran s
      → ((w : Value) → RanAfter (k w))
      → RanAfter (field_answer name s k o)
  Ran-field_answer name s k none h g = h
  Ran-field_answer name s k (some w) h g = g w

  pub Ran-on_field :
      (name : String) (v : Value) (s : TestState) (k : Value → Examined)
      → Ran s
      → ((w : Value) → RanAfter (k w))
      → RanAfter (on_field name v s k)
  Ran-on_field name (dict fs) s k h g = Ran-field_answer name s k (get_field fs name) h g
  Ran-on_field name null s k h g = h
  Ran-on_field name (bool b) s k h g = h
  Ran-on_field name (int n) s k h g = h
  Ran-on_field name (str t) s k h g = h
  Ran-on_field name (list vs) s k h g = h

  pub Ran-keys :
      (s : TestState) (k : List Value → Examined) (o : List Value ⊎ String)
      → Ran s
      → ((l : List Value) → RanAfter (k l))
      → RanAfter (keys_answer s k o)
  Ran-keys s k (inr name) h g = h
  Ran-keys s k (inl l) h g =
      elim (all_hashable l) as (λ b. RanAfter (elim b [ true ↦ k l | false ↦ (s, none) ])) [
        | true ↦ g l
        | false ↦ h
      ]

  pub Ran-on_keys :
      (key_names : List String) (v : Value) (s : TestState) (k : List Value → Examined)
      → Ran s
      → ((l : List Value) → RanAfter (k l))
      → RanAfter (on_keys key_names v s k)
  Ran-on_keys key_names (dict fs) s k h g = Ran-keys s k (keys_of key_names fs) h g
  Ran-on_keys key_names null s k h g = h
  Ran-on_keys key_names (bool b) s k h g = h
  Ran-on_keys key_names (int n) s k h g = h
  Ran-on_keys key_names (str t) s k h g = h
  Ran-on_keys key_names (list vs) s k h g = h

  pub Ran-iterate :
      (test : TestState → Value → Examined) (show_elt : Bool)
      → ((s : TestState) (w : Value) → Ran s → RanAfter (test s w))
      → (idx : ℕ) (vs : Items) (s : TestState) → Ran s
      → RanAfter (iterate test show_elt idx vs s)
  Ran-iterate test show_elt g idx no_items s h = h
  Ran-iterate test show_elt g idx (item v vs) s h =
      Ran-and_then (prefixed (elt_prefix show_elt idx v) (test s v))
        (λ s'. iterate test show_elt (suc idx) vs s')
        (Ran-prefixed (elt_prefix show_elt idx v) (test s v) (g s v h))
        (λ s' h'. Ran-iterate test show_elt g (suc idx) vs s' h')

  pub Ran-delay :
      (s : TestState) (name : String) (v : Value) (o : Option Value)
      → Ran s
      → RanAfter (delay s name v o)
  Ran-delay s name v none h = h
  Ran-delay s name v (some (list vs)) h = h
  Ran-delay s name v (some null) h = h
  Ran-delay s name v (some (bool b)) h = h
  Ran-delay s name v (some (int n)) h = h
  Ran-delay s name v (some (str t)) h = h
  Ran-delay s name v (some (dict fs)) h = h

  pub Ran-initialize_globals :
      (l : List String) (s : TestState) → Ran s → Ran (initialize_globals l s)
  Ran-initialize_globals [] s h = h
  Ran-initialize_globals (name ∷ l) s h =
      Ran-initialize_globals l (record s { globs = put s.globs name (list no_items) }) h

  pub Ran-is_expected :
      (b : Bool) (s : TestState) (r : Reason) → Ran s → RanAfter (is_expected b s r)
  Ran-is_expected true s r h = h
  Ran-is_expected false s r h = h

  pub Ran-int_answer :
      (expected : ℤ) (s : TestState) (o : Option ℤ) → Ran s → RanAfter (int_answer expected s o)
  Ran-int_answer expected s none h = h
  Ran-int_answer expected s (some n) h = Ran-is_expected _ s _ h

  pub Ran-why_not_str :
      (test : String → Bool) (r : Reason) (v : Value) (s : TestState)
      → Ran s
      → RanAfter (why_not_str test r v s)
  Ran-why_not_str test r (str t) s h = Ran-is_expected (test t) s r h
  Ran-why_not_str test r null s h = h
  Ran-why_not_str test r (bool b) s h = h
  Ran-why_not_str test r (int n) s h = h
  Ran-why_not_str test r (list vs) s h = h
  Ran-why_not_str test r (dict fs) s h = h

  pub Ran-on_data :
      (o : Reason ⊎ Value) (s : TestState) (k : Value → Examined)
      → Ran s
      → ((w : Value) → RanAfter (k w))
      → RanAfter (on_data o s k)
  Ran-on_data (inl r) s k h g = h
  Ran-on_data (inr w) s k h g = g w

  pub Ran-executed :
      (other : ℕ) (s : TestState) → Ran s → Ran (record s { executed = other ∷ s.executed })
  Ran-executed other s h = ground arith
