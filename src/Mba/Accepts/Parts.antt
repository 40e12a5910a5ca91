-- ===== src/Mba/Accepts/Parts.antt =====
-- keylime/mba/elchecking/tests.py: the steps of which `why_not` is composed, each against its Boolean.
use keylime.Prelude.{
  ℕ, suc, String, ◌≡◌, ◌∙◌, ◌⊎◌, inl, inr, refl, Bool, true, false, ◌&&◌, ◌||◌, Option, none, some,
  List, [], ◌∷◌, ◌++◌, arith,
}
use keylime.Prelude.Int.{ℤ, eq_ℤ}
use keylime.Prelude.Dict.{string_key}
use keylime.Mba.Value.{
  Value, null, bool, int, str, list, dict, Items, no_items, item, Piece, text, Reason, get_field,
  all_hashable,
}
use keylime.Mba.Test.{
  TestState, Examined, approve, and_then, or_else, prefixed, keys_of, iterate, elt_prefix,
}
use keylime.Mba.Steps.{
  on_field, field_answer, keys_answer, int_answer, on_keys, named, tuple_lengths, is_expected,
  why_not_str,
}
use keylime.Mba.Accepts.{
  approves, Agrees, field_holds, holds, str_is, int_is, every, fits, dispatched, keyed,
}

approves-append : (q : Reason) (p : Piece) (r : Reason) → approves (q ++ p ∷ r) ≡ false
approves-append [] p r = refl
approves-append (x ∷ q) p r = refl

pub Agrees-approve : (s : TestState) → Agrees s true (approve s)
Agrees-approve s = (refl, refl)

pub Agrees-and_then :
    {s : TestState} (b c : Bool) (x : Examined) (k : TestState → Examined)
    → Agrees s b x
    → ((s' : TestState) → s' ≡ s → Agrees s c (k s'))
    → Agrees s (b && c) (and_then x k)
Agrees-and_then b c (s', none) k h g = h
Agrees-and_then true c (s', some []) k h g = g s' h.0
Agrees-and_then false c (s', some []) k h g = cc
Agrees-and_then true c (s', some (p ∷ r)) k h g = cc
Agrees-and_then false c (s', some (p ∷ r)) k h g = h

pub Agrees-or_else :
    {s : TestState} (b c : Bool) (x : Examined) (k : TestState → Reason → Examined)
    → Agrees s b x
    → ((s' : TestState) (r : Reason) → s' ≡ s → Agrees s c (k s' r))
    → Agrees s (b || c) (or_else x k)
Agrees-or_else b c (s', none) k h g = h
Agrees-or_else true c (s', some []) k h g = h
Agrees-or_else false c (s', some []) k h g = cc
Agrees-or_else true c (s', some (p ∷ r)) k h g = cc
Agrees-or_else false c (s', some (p ∷ r)) k h g = g s' (p ∷ r) h.0

pub Agrees-prefixed :
    (s : TestState) (b : Bool) (q : Reason) (x : Examined)
    → Agrees s b x
    → Agrees s b (prefixed q x)
Agrees-prefixed s b q (s', none) h = h
Agrees-prefixed s b q (s', some []) h = h
Agrees-prefixed s b q (s', some (p ∷ r)) h = (h.0, approves-append q p r ∙ h.1)

pub Agrees-named :
    (s : TestState) (b : Bool) (show : Bool) (name : String) (x : Examined)
    → Agrees s b x
    → Agrees s b (named show name x)
Agrees-named s b true name x h = Agrees-prefixed s b (text name ∷ text " " ∷ []) x h
Agrees-named s b false name x h = h

pub Agrees-on_field :
    (s : TestState) (name : String) (p : Value → Bool) (v : Value) (k : Value → Examined)
    → ((w : Value) → Agrees s (p w) (k w))
    → Agrees s (field_holds name p v) (on_field name v s k)
Agrees-on_field s name p (dict fs) k h =
    elim (get_field fs name) as (λ o. Agrees s (holds p o) (field_answer name s k o)) [
      | none ↦ (refl, refl)
      | some w ↦ h w
    ]
Agrees-on_field s name p null k h = (refl, refl)
Agrees-on_field s name p (bool b) k h = (refl, refl)
Agrees-on_field s name p (int n) k h = (refl, refl)
Agrees-on_field s name p (str t) k h = (refl, refl)
Agrees-on_field s name p (list vs) k h = (refl, refl)

pub Agrees-iterate :
    (s : TestState) (p : Value → Bool) (test : TestState → Value → Examined) (show_elt : Bool)
    → ((s' : TestState) (w : Value) → s' ≡ s → Agrees s (p w) (test s' w))
    → (idx : ℕ) (vs : Items) (s' : TestState) → s' ≡ s
    → Agrees s (every p vs) (iterate test show_elt idx vs s')
Agrees-iterate s p test show_elt h idx no_items s' e = (e, refl)
Agrees-iterate s p test show_elt h idx (item v vs) s' e =
    Agrees-and_then (p v) (every p vs) (prefixed (elt_prefix show_elt idx v) (test s' v)) _
      (Agrees-prefixed s (p v) (elt_prefix show_elt idx v) (test s' v) (h s' v e))
      (λ t e'. Agrees-iterate s p test show_elt h (suc idx) vs t e')

pub Agrees-is_expected :
    (s : TestState) (b : Bool) (p : Piece) (r : Reason) → Agrees s b (is_expected b s (p ∷ r))
Agrees-is_expected s true p r = (refl, refl)
Agrees-is_expected s false p r = (refl, refl)

pub Agrees-why_not_int :
    (s : TestState) (expected : ℤ) (o : Option ℤ)
    → Agrees s (int_is expected o) (int_answer expected s o)
Agrees-why_not_int s expected none = (refl, refl)
Agrees-why_not_int s expected (some n) = Agrees-is_expected s (eq_ℤ n expected) _ _

pub Agrees-why_not_str :
    (s : TestState) (test : String → Bool) (p : Piece) (r : Reason) (v : Value)
    → Agrees s (str_is test v) (why_not_str test (p ∷ r) v s)
Agrees-why_not_str s test p r (str t) = Agrees-is_expected s (test t) p r
Agrees-why_not_str s test p r null = (refl, refl)
Agrees-why_not_str s test p r (bool b) = (refl, refl)
Agrees-why_not_str s test p r (int n) = (refl, refl)
Agrees-why_not_str s test p r (list vs) = (refl, refl)
Agrees-why_not_str s test p r (dict fs) = (refl, refl)

pub Agrees-keys :
    (s : TestState) (p : List Value → Bool) (o : List Value ⊎ String) (k : List Value → Examined)
    → ((l : List Value) → Agrees s (p l) (k l))
    → Agrees s (keyed p o) (keys_answer s k o)
Agrees-keys s p (inr name) k h = (refl, refl)
Agrees-keys s p (inl l) k h =
    elim (all_hashable l) as (λ b. Agrees s (p l) (elim b [ true ↦ k l | false ↦ (s, none) ])) [
      | true ↦ h l
      | false ↦ refl
    ]

pub Agrees-on_keys :
    (s : TestState) (key_names : List String) (p : List Value → Bool) (v : Value)
    (k : List Value → Examined)
    → ((l : List Value) → Agrees s (p l) (k l))
    → Agrees s (dispatched key_names p v) (on_keys key_names v s k)
Agrees-on_keys s key_names p (dict fs) k h = Agrees-keys s p (keys_of key_names fs) k h
Agrees-on_keys s key_names p null k h = (refl, refl)
Agrees-on_keys s key_names p (bool b) k h = (refl, refl)
Agrees-on_keys s key_names p (int n) k h = (refl, refl)
Agrees-on_keys s key_names p (str t) k h = (refl, refl)
Agrees-on_keys s key_names p (list vs) k h = (refl, refl)

approves-tuple_lengths : (pad : Bool) (n m : ℕ) → approves (tuple_lengths pad n m) ≡ fits pad n m
approves-tuple_lengths true n m = ground arith
approves-tuple_lengths false n m = ground arith

pub Agrees-tuple_lengths :
    (s : TestState) (pad : Bool) (n m : ℕ)
    → Agrees s (fits pad n m) (s, some (tuple_lengths pad n m))
Agrees-tuple_lengths s pad n m = (refl, approves-tuple_lengths pad n m)

pub and_left : (a b : Bool) → (a && b) ≡ true → a ≡ true
and_left true b h = refl
and_left false b h = cc

pub and_right : (a b : Bool) → (a && b) ≡ true → b ≡ true
and_right true b h = h
and_right false b h = cc
