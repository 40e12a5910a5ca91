-- ===== src/Mba/Accepts/Superset.antt =====
-- keylime/mba/elchecking/tests.py, class SupersetOfDicts: which lists hold all the required tuples.
use keylime.Prelude.{
  String, ◌≡◌, sym, refl, Bool, true, false, ◌&&◌, ◌||◌, Option, none, some, List, [], ◌∷◌, arith,
  if◌then◌else◌,
}
use keylime.Mba.Value.{
  Value, null, bool, int, str, list, dict, Items, no_items, item, Fields, Reason, all_hashable,
  elem_tuple,
}
use keylime.Mba.Test.{TestState}
use keylime.Mba.Steps.{dict_to_tuple, minus, lacking, with_tuple, superset_loop, why_not_superset}
use keylime.Mba.Accepts.{approves, Agrees, all_named, all_found, list_is}

-- what the loop answers
abbrev Answers : Bool → Option Reason → Type 0
Answers b none = Unit
Answers b (some r) = approves r ≡ b

all_found-none :
    (reqs : List (List Value)) (field_names : List String) (actual : List (List Value))
    → Answers (all_found reqs field_names actual no_items) (lacking field_names (minus reqs actual))
all_found-none [] field_names actual = refl
all_found-none (t ∷ ts) field_names actual =
    elim (elem_tuple t actual)
      as (λ b.
        Answers ((b || false) && all_found ts field_names actual no_items)
          (lacking field_names (if b then minus ts actual else t ∷ minus ts actual))) [
            | true ↦ all_found-none ts field_names actual
            | false ↦ refl
          ]

-- a tuple of the list may as well be one that has been seen
move_tuple :
    (reqs : List (List Value)) (field_names : List String) (actual : List (List Value))
    (fs : Fields) (t : List Value) (vs : Items)
    → dict_to_tuple fs field_names ≡ some t
    → all_found reqs field_names (t ∷ actual) vs
      ≡ all_found reqs field_names actual (item (dict fs) vs)
move_tuple [] field_names actual fs t vs e = refl
move_tuple (r ∷ rs) field_names actual fs t vs e =
    rw e (ground (arith, move_tuple rs field_names actual fs t vs e))

with_tuple-Answers :
    (b : Bool) (field_names : List String) (fs : Fields) (t : List Value)
    (k : List Value → Option Reason)
    → Answers b (k t)
    → Answers b (with_tuple field_names fs (some t) k)
with_tuple-Answers b field_names fs t k h =
    elim (all_hashable t) as (λ c. Answers b (elim c [ true ↦ k t | false ↦ none ])) [
      | true ↦ h
      | false ↦ tt
    ]

superset_step :
    (reqs : List (List Value)) (field_names : List String) (actual : List (List Value))
    (fs : Fields) (vs : Items) (o : Option (List Value))
    → dict_to_tuple fs field_names ≡ o
    → ((t : List Value)
        → Answers
            (all_named field_names vs && all_found reqs field_names (t ∷ actual) vs)
            (superset_loop reqs field_names (t ∷ actual) vs))
    → Answers
        (all_named field_names (item (dict fs) vs)
          && all_found reqs field_names actual (item (dict fs) vs))
        (with_tuple field_names fs o (λ t. superset_loop reqs field_names (t ∷ actual) vs))
superset_step reqs field_names actual fs vs none e h = rw e refl
superset_step reqs field_names actual fs vs (some t) e h =
    with_tuple-Answers _ field_names fs t (λ u. superset_loop reqs field_names (u ∷ actual) vs)
      (rw (sym (move_tuple reqs field_names actual fs t vs e)) (rw e (h t)))

superset_loop-Answers :
    (reqs : List (List Value)) (field_names : List String) (actual : List (List Value)) (vs : Items)
    → Answers
        (all_named field_names vs && all_found reqs field_names actual vs)
        (superset_loop reqs field_names actual vs)
superset_loop-Answers reqs field_names actual no_items = all_found-none reqs field_names actual
superset_loop-Answers reqs field_names actual (item (dict fs) vs) =
    superset_step reqs field_names actual fs vs (dict_to_tuple fs field_names) refl
      (λ t. superset_loop-Answers reqs field_names (t ∷ actual) vs)
superset_loop-Answers reqs field_names actual (item null vs) = refl
superset_loop-Answers reqs field_names actual (item (bool b) vs) = refl
superset_loop-Answers reqs field_names actual (item (int n) vs) = refl
superset_loop-Answers reqs field_names actual (item (str t) vs) = refl
superset_loop-Answers reqs field_names actual (item (list ws) vs) = refl

pub superset-Agrees :
    (s : TestState) (reqs : List (List Value)) (field_names : List String) (v : Value)
    → Agrees s
        (list_is (λ vs. all_named field_names vs && all_found reqs field_names [] vs) v)
        (s, why_not_superset reqs field_names v)
superset-Agrees s reqs field_names (list vs) =
    go (superset_loop reqs field_names [] vs) (superset_loop-Answers reqs field_names [] vs)
  where
    go :
        (o : Option Reason)
        → Answers (all_named field_names vs && all_found reqs field_names [] vs) o
        → Agrees s (all_named field_names vs && all_found reqs field_names [] vs) (s, o)
    go none h = refl
    go (some r) h = (refl, h)
superset-Agrees s reqs field_names null = (refl, refl)
superset-Agrees s reqs field_names (bool b) = (refl, refl)
superset-Agrees s reqs field_names (int n) = (refl, refl)
superset-Agrees s reqs field_names (str t) = (refl, refl)
superset-Agrees s reqs field_names (dict fs) = (refl, refl)
