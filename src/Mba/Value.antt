-- ===== src/Mba/Value.antt =====
-- keylime/mba/elchecking/tests.py: the values of JSON that tests examine, without floats, and the
-- explanations that tests give.
use keylime.Prelude.{
  ℕ, suc, String, Bool, true, false, ◌&&◌, ◌||◌, Option, none, some, List, [], ◌∷◌, str_eq,
  if◌then◌else◌,
}
use keylime.Prelude.Int.{ℤ, pos, eq_ℤ}

mutual
  pub data Value : Type 0 where
    null : Value
    bool : Bool → Value
    int : ℤ → Value
    str : String → Value
    list : Items → Value
    dict : Fields → Value

  pub data Items : Type 0 where
    no_items : Items
    item : Value → Items → Items

  pub data Fields : Type 0 where
    no_fields : Fields
    field : String → Value → Fields → Fields

-- A reason is the list of the pieces that its text is joined of. Each piece has a text that is not
-- empty, so that the empty text, which is approval, is the empty list.
pub data Piece : Type 0 where
  text : String → Piece
  shown : Value → Piece
  number : ℕ → Piece
  names : List String → Piece
  tuples : List (List Value) → Piece

abbrev pub Reason : Type 0
Reason = List Piece

-- `dict.get`
abbrev pub get_field : Fields → String → Option Value
get_field no_fields name = none
get_field (field k v fs) name = if str_eq k name then some v else get_field fs name

abbrev pub has_field : Fields → String → Bool
has_field no_fields name = false
has_field (field k v fs) name = str_eq k name || has_field fs name

abbrev pub length_items : Items → ℕ
length_items no_items = 0
length_items (item v vs) = suc (length_items vs)

abbrev pub append_items : Items → Items → Items
append_items no_items ws = ws
append_items (item v vs) ws = item v (append_items vs ws)

-- Python's bool is an int.
abbrev pub int_of : Value → Option ℤ
int_of (int n) = some n
int_of (bool true) = some (pos 1)
int_of (bool false) = some (pos 0)
int_of _ = none

-- a member of a tuple that is put into a set or looked up in a dict
abbrev pub is_hashable : Value → Bool
is_hashable (list vs) = false
is_hashable (dict fs) = false
is_hashable _ = true

abbrev ints_eq : Option ℤ → Option ℤ → Bool
ints_eq (some m) (some n) = eq_ℤ m n
ints_eq _ _ = false

-- == of hashable values
abbrev pub scalar_eq : Value → Value → Bool
scalar_eq null null = true
scalar_eq (str a) (str b) = str_eq a b
scalar_eq a b = ints_eq (int_of a) (int_of b)

abbrev pub tuple_eq : List Value → List Value → Bool
tuple_eq [] [] = true
tuple_eq (a ∷ as') (b ∷ bs) = scalar_eq a b && tuple_eq as' bs
tuple_eq _ _ = false

abbrev pub all_hashable : List Value → Bool
all_hashable [] = true
all_hashable (a ∷ l) = is_hashable a && all_hashable l

abbrev pub elem_tuple : List Value → List (List Value) → Bool
elem_tuple t [] = false
elem_tuple t (u ∷ us) = tuple_eq t u || elem_tuple t us
