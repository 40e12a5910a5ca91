-- ===== src/Mba/Steps.antt =====
-- keylime/mba/elchecking/tests.py: the steps of which the classes' `why_not` are composed.
use keylime.Prelude.{
  ℕ, suc, String, Bool, true, false, not, ◌&&◌, Option, none, some, List, [], ◌∷◌, if◌then◌else◌,
  elem_str, ltb, ◌⊎◌, inl, inr,
}
use keylime.Prelude.Int.{ℤ, eq_ℤ}
use keylime.Prelude.Dict.{string_key}
use keylime.Mba.Value.{
  Value, null, str, list, dict, Items, no_items, item, Fields, no_fields, field, text, shown,
  number, names, tuples, Reason, get_field, has_field, int_of, all_hashable, elem_tuple,
}
use keylime.Mba.Test.{
  Tests, no_tests, more, TestState, Examined, approve, says, prefixed, keys_of, value_or_null,
}

abbrev pub length_tests : {P : Type 0} → Tests P → ℕ
length_tests no_tests = 0
length_tests (more t ts) = suc (length_tests ts)

-- the first of the values, padded with None, and the others
abbrev pub head_or_null : Items → Value
head_or_null no_items = null
head_or_null (item v vs) = v

abbrev pub tail_items : Items → Items
tail_items no_items = no_items
tail_items (item v vs) = vs

-- TupleTest: what the two lengths say
abbrev pub tuple_lengths : Bool → ℕ → ℕ → Reason
tuple_lengths pad subject_len test_len =
    if ltb test_len subject_len
    then text " is longer ("
      ∷ number subject_len
      ∷ text ") than the applicable tests ("
      ∷ number test_len
      ∷ text ")"
      ∷ []
    else if ltb subject_len test_len && not pad
    then text " is shorter ("
      ∷ number subject_len
      ∷ text ") than the applicable tests ("
      ∷ number test_len
      ∷ text ")"
      ∷ []
    else []

-- the subject of a FieldTest
abbrev pub field_answer : String → TestState → (Value → Examined) → Option Value → Examined
field_answer name s k none = (s, some (text "has no " ∷ names (name ∷ []) ∷ text " field" ∷ []))
field_answer name s k (some v) = k v

abbrev pub on_field : String → Value → TestState → (Value → Examined) → Examined
on_field name (dict fs) s k = field_answer name s k (get_field fs name)
on_field name _ s k = says s "is not a dict"

abbrev pub named : Bool → String → Examined → Examined
named true name r = prefixed (text name ∷ text " " ∷ []) r
named false name r = r

-- the key values of a Dispatcher, of which a dict is asked
abbrev pub keys_answer : TestState → (List Value → Examined) → List Value ⊎ String → Examined
keys_answer s k (inl l) = elim (all_hashable l) [ true ↦ k l | false ↦ (s, none) ]
keys_answer s k (inr name) = (s, some (text "has no " ∷ text name ∷ []))

abbrev pub on_keys : List String → Value → TestState → (List Value → Examined) → Examined
on_keys key_names (dict fs) s k = keys_answer s k (keys_of key_names fs)
on_keys key_names _ s k = says s "is not a dict"

abbrev pub is_expected : Bool → TestState → Reason → Examined
is_expected true s r = approve s
is_expected false s r = (s, some r)

abbrev pub int_answer : ℤ → TestState → Option ℤ → Examined
int_answer expected s none = says s "is not a int"
int_answer expected s (some n) =
    is_expected (eq_ℤ n expected) s (text "is not " ∷ shown (Value.int expected) ∷ [])

abbrev pub why_not_int : ℤ → Value → TestState → Examined
why_not_int expected v s = int_answer expected s (int_of v)

abbrev pub why_not_str : (String → Bool) → Reason → Value → TestState → Examined
why_not_str test r (str t) s = is_expected (test t) s r
why_not_str test r _ s = says s "is not a str"

-- SupersetOfDicts.dict_to_tuple, `none` for FieldsMismatchError
abbrev names_in : List String → Fields → Bool
names_in [] fs = true
names_in (name ∷ l) fs = has_field fs name && names_in l fs

abbrev keys_in : Fields → List String → Bool
keys_in no_fields l = true
keys_in (field k v fs) l = elem_str k l && keys_in fs l

abbrev values_at : Fields → List String → List Value
values_at fs [] = []
values_at fs (name ∷ l) = value_or_null (get_field fs name) ∷ values_at fs l

unfoldable pub dict_to_tuple : Fields → List String → Option (List Value)
dict_to_tuple it field_names =
    if names_in field_names it && keys_in it field_names
    then some (values_at it field_names)
    else none

-- self.reqs - actual
abbrev pub minus : List (List Value) → List (List Value) → List (List Value)
minus [] actual = []
minus (t ∷ ts) actual = let rest = minus ts actual in if elem_tuple t actual then rest else t ∷ rest

abbrev pub lacking : List String → List (List Value) → Option Reason
lacking field_names [] = some []
lacking field_names (t ∷ missing) =
    some (text "lacks " ∷ names field_names ∷ text " combinations " ∷ tuples (t ∷ missing) ∷ [])

-- the loop of SupersetOfDicts.why_not, with the tuples found so far
abbrev pub with_tuple :
    List String → Fields → Option (List Value) → (List Value → Option Reason) → Option Reason
with_tuple field_names fs none k = some (
    text "member "
    ∷ shown (dict fs)
    ∷ text " does not have the right set of field names "
    ∷ names field_names
    ∷ [])
with_tuple field_names fs (some t) k = elim (all_hashable t) [ true ↦ k t | false ↦ none ]

abbrev pub superset_loop :
    List (List Value) → List String → List (List Value) → Items → Option Reason
superset_loop reqs field_names actual no_items = lacking field_names (minus reqs actual)
superset_loop reqs field_names actual (item (dict fs) vs) =
    with_tuple field_names fs (dict_to_tuple fs field_names)
      (λ t. superset_loop reqs field_names (t ∷ actual) vs)
superset_loop reqs field_names actual (item v vs) =
    some (text "member " ∷ shown v ∷ text " is not a dict" ∷ [])

abbrev pub why_not_superset : List (List Value) → List String → Value → Option Reason
why_not_superset reqs field_names (list vs) = superset_loop reqs field_names [] vs
why_not_superset reqs field_names _ = some (text "is not a list" ∷ [])

-- the subject of a VariableTest: the data of the variable, or what is wrong
abbrev pub name_matches : Bool → Reason → Value → Reason ⊎ Value
name_matches true r datum = inr datum
name_matches false r datum = inl r

abbrev pub on_data : Reason ⊎ Value → TestState → (Value → Examined) → Examined
on_data (inl r) s k = (s, some r)
on_data (inr datum) s k = k datum
