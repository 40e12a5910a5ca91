-- ===== src/Mba/Dispatch.antt =====
-- keylime/mba/elchecking/tests.py, class Dispatcher: `set`, and the test that is then applied.
use keylime.Prelude.{
  String, ◌≡◌, refl, sym, ap, ◌∙◌, Bool, true, false, ◌||◌, some, List, [], ◌∷◌, arith,
  if◌then◌else◌, eq_iff,
}
use keylime.Prelude.Int.{ℤ, eq_ℤ}
use keylime.Regex.{Regex}
use keylime.Mba.Value.{
  Value, null, bool, int, str, list, dict, scalar_eq, tuple_eq, all_hashable, is_hashable,
}
use keylime.Mba.Test.{Test, Cases, no_cases, case, TestState}
use keylime.Mba.WhyNot.{why_not, why_not_case}
use keylime.Mba.Builders.{has_case, add_case, set_case}

eq_ℤ_refl : (n : ℤ) → eq_ℤ n n ≡ true
eq_ℤ_refl n = ground arith

scalar_eq_refl : (v : Value) → is_hashable v ≡ true → scalar_eq v v ≡ true
scalar_eq_refl null h = refl
scalar_eq_refl (bool true) h = refl
scalar_eq_refl (bool false) h = refl
scalar_eq_refl (int n) h = eq_ℤ_refl n
scalar_eq_refl (str s) h = (eq_iff s s).1 refl
scalar_eq_refl (list vs) h = cc
scalar_eq_refl (dict fs) h = cc

tuple_eq_refl : (l : List Value) → all_hashable l ≡ true → tuple_eq l l ≡ true
tuple_eq_refl [] h = refl
tuple_eq_refl (v ∷ l) h = ground (arith, scalar_eq_refl v, tuple_eq_refl l)

chosen {ℓ} :
    {A : Type ℓ} (b : Bool) (x y : A) → (elim b [ true ↦ x | false ↦ y ]) ≡ (if b then x else y)
chosen true x y = refl
chosen false x y = refl

same_branches {ℓ} : {A : Type ℓ} (b : Bool) (x : A) → (if b then x else x) ≡ x
same_branches true x = refl
same_branches false x = refl

module _ (re : Regex String) (pattern_text : re.Pattern → String) where
  -- what an added case changes: the answer for a key that no earlier case takes
  case-add_case :
      (key_names : List String) (key : List Value) (test : Test re.Pattern)
      (cases : Cases re.Pattern) (l : List Value) (s : TestState) (v : Value)
      → why_not_case re pattern_text key_names (add_case key test cases) l s v ≡ (
          if has_case l cases
          then why_not_case re pattern_text key_names cases l s v
          else if tuple_eq key l
          then why_not re pattern_text test s v
          else why_not_case re pattern_text key_names cases l s v)
  unfolding why_not
  case-add_case key_names key test no_cases l s v =
      chosen (tuple_eq key l) (why_not re pattern_text test s v)
        (why_not_case re pattern_text key_names no_cases l s v)
  case-add_case key_names key test (case k t cases) l s v =
      elim (tuple_eq k l)
        as (λ b.
          (elim b [
            | true ↦ why_not re pattern_text t s v
            | false ↦ why_not_case re pattern_text key_names (add_case key test cases) l s v
          ])
          ≡ (if b || has_case l cases
              then elim b [
                | true ↦ why_not re pattern_text t s v
                | false ↦ why_not_case re pattern_text key_names cases l s v
              ]
              else if tuple_eq key l
              then why_not re pattern_text test s v
              else elim b [
                | true ↦ why_not re pattern_text t s v
                | false ↦ why_not_case re pattern_text key_names cases l s v
              ])) [ true ↦ refl | false ↦ case-add_case key_names key test cases l s v ]

  set_case-inv :
      (key : List Value) (test : Test re.Pattern) (key_names : List String)
      (cases cases' : Cases re.Pattern)
      → set_case key test key_names cases ≡ some cases'
      → (has_case key cases ≡ false) × (add_case key test cases ≡ cases')
  unfolding set_case
  set_case-inv key test key_names cases cases' h = ground arith

  -- When `set` gives a Dispatcher a test for a tuple of hashable key values, that tuple is examined by
  -- that test, and every other tuple as before.
  pub set_case-answers :
      (key : List Value) (test : Test re.Pattern) (key_names : List String)
      (cases cases' : Cases re.Pattern) (s : TestState) (v : Value)
      → all_hashable key ≡ true
      → set_case key test key_names cases ≡ some cases'
      → (why_not_case re pattern_text key_names cases' key s v ≡ why_not re pattern_text test s v)
        × ((l : List Value)
            → tuple_eq key l ≡ false
            → why_not_case re pattern_text key_names cases' l s v
              ≡ why_not_case re pattern_text key_names cases l s v)
  set_case-answers key test key_names cases cases' s v hashable h =
      let (fresh, added) = set_case-inv key test key_names cases cases' h in
      (
        ap (λ c. why_not_case re pattern_text key_names c key s v) (sym added)
            ∙ case-add_case key_names key test cases key s v
            ∙ rw (fresh, tuple_eq_refl key hashable) refl,
        λ l other.
            ap (λ c. why_not_case re pattern_text key_names c l s v) (sym added)
            ∙ case-add_case key_names key test cases l s v
            ∙ rw other (same_branches (has_case l cases) _),
      )
