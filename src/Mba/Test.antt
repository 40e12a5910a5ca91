-- ===== src/Mba/Test.antt =====
-- keylime/mba/elchecking/tests.py: the classes of tests, and `why_not`. A test gives the empty reason
-- to approve of a value; an exception is `none`. The state holds the globals, and the identities of
-- the OnceTests that have been executed. A global list is a value, so a test that appends to the list
-- which it is just iterating over is not modelled.
use keylime.Prelude.{
  ℕ, suc, String, Bool, true, false, Option, none, some, List, [], ◌∷◌, ◌++◌, elem_str, ◌⊎◌, inl,
  inr,
}
use keylime.Prelude.Int.{ℤ}
use keylime.Prelude.Dict.{get, put, string_key}
use keylime.Mba.Value.{
  Value, null, str, list, dict, Items, no_items, item, Fields, no_fields, field, text, shown,
  number, names, Reason, get_field, append_items,
}

-- hash algorithms with their good digests
abbrev pub GoodDigests : Type 0
GoodDigests = List (String × List String)

-- `unicode_name` of a VariableTest: a text, or a pattern
pub data StrOrRe (P : Type 0) : Type 0 where
  plain : String → StrOrRe P
  pattern_of : P → StrOrRe P

-- `no_action` is an EvEfiActionTest for a PCR without expected texts.
mutual
  pub data Test (P : Type 0) : Type 0 where
    accept_all : Test P
    reject_all : String → Test P
    all_of : Tests P → Test P
    any_of : Tests P → Test P
    dispatcher : List String → Cases P → Test P
    field_test : String → Test P → Bool → Test P
    iterate_test : Test P → Bool → Test P
    tuple_test : Tests P → Bool → Test P
    delayed_field : String → Test P
    delay_initializer : List String → Test P
    delay_to_fields : Test P → List String → Test P
    int_equal : ℤ → Test P
    string_equal : String → Test P
    reg_exp : P → Test P
    digests_test : GoodDigests → Test P
    variable_test : String → StrOrRe P → Test P → Test P
    superset_of_dicts : List (List Value) → List String → Test P
    once_test : ℕ → Test P → Test P
    no_action : ℕ → Test P

  pub data Tests (P : Type 0) : Type 0 where
    no_tests : Tests P
    more : Test P → Tests P → Tests P

  pub data Cases (P : Type 0) : Type 0 where
    no_cases : Cases P
    case : List Value → Test P → Cases P → Cases P

pub record TestState : Type 0 where
  pub globs : List (String × Value)
  pub executed : List ℕ

abbrev pub Examined : Type 0
Examined = TestState × Option Reason

abbrev pub approve : TestState → Examined
approve s = (s, some [])

abbrev pub says : TestState → String → Examined
says s t = (s, some (text t ∷ []))

-- And: the first reason ends the series
abbrev pub and_then : Examined → (TestState → Examined) → Examined
and_then (s, none) k = (s, none)
and_then (s, some []) k = k s
and_then (s, some (p ∷ r)) k = (s, some (p ∷ r))

-- Or: the first approval ends the series
abbrev pub or_else : Examined → (TestState → Reason → Examined) → Examined
or_else (s, none) k = (s, none)
or_else (s, some []) k = (s, some [])
or_else (s, some (p ∷ r)) k = k s (p ∷ r)

-- a prefix of a reason, if there is one
abbrev pub prefixed : Reason → Examined → Examined
prefixed q (s, none) = (s, none)
prefixed q (s, some []) = (s, some [])
prefixed q (s, some (p ∷ r)) = (s, some (q ++ p ∷ r))

-- "[" + ", ".join(reasons) + "]"
abbrev join_reasons : List Reason → Reason
join_reasons [] = []
join_reasons (r ∷ []) = r
join_reasons (r ∷ q ∷ l) = r ++ (text ", " ∷ join_reasons (q ∷ l))

abbrev pub bracketed : List Reason → Reason
bracketed l = text "[" ∷ (join_reasons l ++ text "]" ∷ [])

-- the values of the key names, or the name that is missing
abbrev push_key : Value → List Value ⊎ String → List Value ⊎ String
push_key v (inl l) = inl (v ∷ l)
push_key v (inr name) = inr name

abbrev key_step : Option Value → String → List Value ⊎ String → List Value ⊎ String
key_step none name rest = inr name
key_step (some v) name rest = push_key v rest

abbrev pub keys_of : List String → Fields → List Value ⊎ String
keys_of [] fs = inl []
keys_of (name ∷ l) fs = key_step (get_field fs name) name (keys_of l fs)

-- IterateTest, from the index `idx` on
abbrev pub elt_prefix : Bool → ℕ → Value → Reason
elt_prefix true idx v = shown v ∷ text " " ∷ []
elt_prefix false idx v = text "[" ∷ number idx ∷ text "] " ∷ []

abbrev pub iterate : (TestState → Value → Examined) → Bool → ℕ → Items → TestState → Examined
iterate test show_elt idx no_items s = approve s
iterate test show_elt idx (item v vs) s =
    and_then (prefixed (elt_prefix show_elt idx v) (test s v))
      (λ s'. iterate test show_elt (suc idx) vs s')

-- DelayedField
abbrev pub delay : TestState → String → Value → Option Value → Examined
delay s name v none = (s, none)
delay s name v (some (list vs)) =
    approve (record s { globs = put s.globs name (list (append_items vs (item v no_items))) })
delay s name v (some _) =
    (s, some (text "malformed test: global " ∷ text name ∷ text " is not a list" ∷ []))

-- DelayToFields.initialize_globals
abbrev pub initialize_globals : List String → TestState → TestState
initialize_globals [] s = s
initialize_globals (name ∷ l) s =
    initialize_globals l (record s { globs = put s.globs name (list no_items) })

abbrev pub value_or_null : Option Value → Value
value_or_null none = null
value_or_null (some v) = v

abbrev pub stashed : List String → TestState → Fields
stashed [] s = no_fields
stashed (name ∷ l) s = field name (value_or_null (get s.globs name)) (stashed l s)

-- DigestsTest: one digest of the list, with its index
abbrev is_good : Option (List String) → String → Bool
is_good none hash_val = false
is_good (some l) hash_val = elem_str hash_val l

abbrev digest_value : GoodDigests → ℕ → String → Option Value → Reason ⊎ Bool
digest_value good idx alg none = inl (text "digest " ∷ number idx ∷ text " has no Digest" ∷ [])
digest_value good idx alg (some (str hash_val)) = inr (is_good (get good alg) hash_val)
digest_value good idx alg (some v) =
    inl (text "Digests[" ∷ number idx ∷ text "].Digest is " ∷ shown v ∷ text ", not a str" ∷ [])

abbrev digest_alg : GoodDigests → ℕ → Fields → Option Value → Reason ⊎ Bool
digest_alg good idx fs none = inl (text "digest " ∷ number idx ∷ text " has no AlgorithmId" ∷ [])
digest_alg good idx fs (some (str alg)) = digest_value good idx alg (get_field fs "Digest")
digest_alg good idx fs (some v) =
    inl
      (text "Digests[" ∷ number idx ∷ text "].AlgorithmId is " ∷ shown v ∷ text ", not a str" ∷ [])

abbrev pub digest_entry : GoodDigests → ℕ → Value → Reason ⊎ Bool
digest_entry good idx (dict fs) = digest_alg good idx fs (get_field fs "AlgorithmId")
digest_entry good idx v =
    inl (text "Digests[" ∷ number idx ∷ text "] is " ∷ shown v ∷ text ", not a dict" ∷ [])

abbrev goods : GoodDigests → List String
goods [] = []
goods ((alg, l) ∷ rest) = alg ∷ (l ++ goods rest)

abbrev digest_step : Reason ⊎ Bool → Reason → Reason
digest_step (inl r) rest = r
digest_step (inr true) rest = []
digest_step (inr false) rest = rest

abbrev pub check_digests : GoodDigests → ℕ → Items → Reason
check_digests good idx no_items = text "has no digest approved by " ∷ names (goods good) ∷ []
check_digests good idx (item v vs) =
    digest_step (digest_entry good idx v) (check_digests good (suc idx) vs)

abbrev digest_list : GoodDigests → Option Value → Reason
digest_list good none = text "has no Digests" ∷ []
digest_list good (some (list vs)) = check_digests good 0 vs
digest_list good (some _) = text "Digests is not a list" ∷ []

abbrev pub why_not_digests : GoodDigests → Value → Reason
why_not_digests good (dict fs) = digest_list good (get_field fs "Digests")
why_not_digests good _ = text "is not a dict" ∷ []
