-- ===== src/Mba/Delays.antt =====
-- keylime/mba/elchecking/tests.py, DelayToFields and its DelayedField and DelayInitializer.
use keylime.Prelude.{ℕ, suc, String, ◌≡◌, refl, sym, ap, Bool, none, some, [], ◌∷◌}
use keylime.Prelude.Dict.{get, put, get-put_self, string_key}
use keylime.Regex.{Regex}
use keylime.Mba.Value.{Value, list, dict, Items, no_items, item, no_fields, field, append_items}
use keylime.Mba.Test.{
  Test, all_of, iterate_test, delayed_field, delay_initializer, delay_to_fields, no_tests, more,
  TestState, Examined, iterate, delay, value_or_null, and_then,
}
use keylime.Mba.WhyNot.{why_not}

append_assoc :
    (us vs ws : Items) → append_items (append_items us vs) ws ≡ append_items us (append_items vs ws)
append_assoc no_items vs ws = refl
append_assoc (item u us) vs ws = ap (item u) (append_assoc us vs ws)

append_none : (us : Items) → append_items us no_items ≡ us
append_none no_items = refl
append_none (item u us) = ap (item u) (append_none us)

-- The examination approves, and leaves the list in the global of that name.
abbrev Stashes : String → Items → Examined → Type 0
Stashes name vs (s, o) = (o ≡ some []) × (get s.globs name ≡ some (list vs))

iterate-Stashes :
    (name : String) (show_elt : Bool) (idx : ℕ) (ws vs : Items) (s : TestState)
    → get s.globs name ≡ some (list ws)
    → Stashes name
        (append_items ws vs)
        (iterate (λ s' w. delay s' name w (get s'.globs name)) show_elt idx vs s)
iterate-Stashes name show_elt idx ws no_items s h = (refl, rw (append_none ws) h)
iterate-Stashes name show_elt idx ws (item v vs) s h = rw h (
    rw (sym (append_assoc ws (item v no_items) vs)) (
      iterate-Stashes name show_elt (suc idx) (append_items ws (item v no_items)) vs
        (record s { globs = put s.globs name (list (append_items ws (item v no_items))) })
        (get-put_self s.globs name (list (append_items ws (item v no_items))))))

module _ (re : Regex String) (pattern_text : re.Pattern → String) where
  -- the pass over the list: the initializer, and the delaying test of each member
  abbrev pub delay_all : String → Bool → Test re.Pattern
  delay_all name show_elt = all_of (
      more (delay_initializer (name ∷ []))
        (more (iterate_test (delayed_field name) show_elt) no_tests))

  delay_all-Stashes :
      (name : String) (show_elt : Bool) (s : TestState) (vs : Items)
      → Stashes name vs (why_not re pattern_text (delay_all name show_elt) s (list vs))
  unfolding why_not
  delay_all-Stashes name show_elt s vs = go _ (
      iterate-Stashes name show_elt 0 no_items vs
        (record s { globs = put s.globs name (list no_items) })
        (get-put_self s.globs name (list no_items)))
    where
      go : (x : Examined) → Stashes name vs x → Stashes name vs (and_then x (λ s'. (s', some [])))
      go (s', none) h = cc
      go (s', some []) h = h
      go (s', some (p ∷ r)) h = cc

  -- A pass that delays each member of a list approves of the list, whatever the globals held before,
  -- and the delayed test then examines just the members, in order, under the field's name.
  pub delayed_members_are_tested :
      (test : Test re.Pattern) (name : String) (show_elt : Bool) (s : TestState) (vs : Items)
      (v : Value)
      → let passed = why_not re pattern_text (delay_all name show_elt) s (list vs) in
        (passed.1 ≡ some [])
        × (why_not re pattern_text (delay_to_fields test (name ∷ [])) passed.0 v
            ≡ why_not re pattern_text test passed.0 (dict (field name (list vs) no_fields)))
  unfolding why_not
  delayed_members_are_tested test name show_elt s vs v =
      let stashes = delay_all-Stashes name show_elt s vs in
      (
        stashes.0,
        ap
            (λ o.
              why_not re pattern_text test
                (why_not re pattern_text (delay_all name show_elt) s (list vs)).0
                (dict (field name (value_or_null o) no_fields)))
            stashes.1,
      )
