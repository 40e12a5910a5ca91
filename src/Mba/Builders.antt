-- ===== src/Mba/Builders.antt =====
-- keylime/mba/elchecking/tests.py: the constructors of tests that check their arguments, where `none`
-- is an exception, and the classes that are built of other tests. `type_test`, `dict_test` and their
-- like check reference data whose types the arguments here have by themselves.
use keylime.Prelude.{
  ℕ, String, Bool, true, false, not, ◌||◌, Option, none, some, List, [], ◌∷◌, ◌++◌, map, ◌==◌,
  str_eq, if◌then◌else◌, elem_str, length, nonempty,
}
use keylime.Prelude.Dict.{get, put, string_key}
use keylime.Hash.{Hash, sha1, sha256, sha384, sha512, sm3_256, hash_value}
use keylime.Mba.Value.{Value, str, Fields, no_fields, field, tuple_eq, all_hashable, elem_tuple}
use keylime.Mba.Test.{
  GoodDigests, Test, reject_all, all_of, any_of, dispatcher, field_test, iterate_test, tuple_test,
  delayed_field, delay_initializer, string_equal, digests_test, superset_of_dicts, no_action, Tests,
  no_tests, more, Cases, no_cases, case,
}
use keylime.Mba.Steps.{dict_to_tuple}

-- the key tuples of a Dispatcher
abbrev pub has_case : {P : Type 0} → List Value → Cases P → Bool
has_case key no_cases = false
has_case key (case k t tests) = tuple_eq k key || has_case key tests

-- self.tests[key_vals] = test, for a new key
abbrev pub add_case : {P : Type 0} → List Value → Test P → Cases P → Cases P
add_case key test no_cases = case key test no_cases
add_case key test (case k t tests) = case k t (add_case key test tests)

abbrev pub tests_of : {P : Type 0} → List (Test P) → Tests P
tests_of [] = no_tests
tests_of (t ∷ ts) = more t (tests_of ts)

module _ {P : Type 0} where
  -- RejectAll(why)
  unfoldable pub new_reject_all : String → Option (Test P)
  new_reject_all why = if str_eq why "" then none else some (reject_all why)

  -- Dispatcher(key_names)
  unfoldable pub new_dispatcher : List String → Option (Test P)
  new_dispatcher key_names =
      if nonempty key_names then some (dispatcher key_names no_cases) else none

  -- Dispatcher.set: the keys are int or str
  unfoldable pub set_case : List Value → Test P → List String → Cases P → Option (Cases P)
  set_case key_vals test key_names tests =
      if not (length key_vals == length key_names)
      then none
      else if has_case key_vals tests
      then none
      else some (add_case key_vals test tests)

  abbrev as_dispatcher : List String → Option (Cases P) → Option (Test P)
  as_dispatcher key_names none = none
  as_dispatcher key_names (some tests) = some (dispatcher key_names tests)

  unfoldable pub set : List Value → Test P → Test P → Option (Test P)
  set key_vals test (dispatcher key_names tests) =
      as_dispatcher key_names (set_case key_vals test key_names tests)
  set key_vals test _ = none

  -- VariableDispatch, and its `set`
  abbrev pub new_variable_dispatch : Test P
  new_variable_dispatch =
      field_test "Event" (dispatcher ("VariableName" ∷ "UnicodeName" ∷ []) no_cases) true

  abbrev in_event : Option (Test P) → Option (Test P)
  in_event none = none
  in_event (some vd) = some (field_test "Event" vd true)

  abbrev pub set_variable : String → String → Test P → Test P → Option (Test P)
  set_variable variable_name unicode_name data_test (field_test event vd show_name) = in_event (
      set (str variable_name ∷ str unicode_name ∷ []) (field_test "VariableData" data_test true) vd)
  set_variable variable_name unicode_name data_test _ = none

  -- DelayToFields.get_initializer and get
  abbrev pub get_initializer : List String → Test P
  get_initializer field_names = delay_initializer field_names

  abbrev pub get_delayed : List String → String → Option (Test P)
  get_delayed field_names name =
      if elem_str name field_names then some (delayed_field name) else none

  -- FieldsTest(**fields)
  abbrev pub fields_test : List (String × Test P) → Test P
  fields_test fields =
      all_of (tests_of (map (λ (f : String × Test P). field_test f.0 f.1 true) fields))

-- DigestsTest(good_digests_list): the good digests of each algorithm
abbrev known_or_empty : Option (List String) → List String
known_or_empty none = []
known_or_empty (some l) = l

abbrev add_digests : List (String × String) → GoodDigests → GoodDigests
add_digests [] good = good
add_digests ((alg, hash_val) ∷ l) good =
    add_digests l (put good alg (known_or_empty (get good alg) ++ hash_val ∷ []))

abbrev collect : List (List (String × String)) → GoodDigests → GoodDigests
collect [] good = good
collect (d ∷ ds) good = collect ds (add_digests d good)

unfoldable pub good_digests : List (List (String × String)) → GoodDigests
good_digests good_digests_list = collect good_digests_list []

-- a signature: SignatureOwner and SignatureData
pub record Signature : Type 0 where
  pub owner : String
  pub datum : String

abbrev sig_fields : Signature → Fields
sig_fields sig =
    field "SignatureOwner" (str sig.owner) (field "SignatureData" (str sig.datum) no_fields)

-- SupersetOfDicts(reqs, field_names), where a mismatch of the fields or an unhashable value raises
abbrev push_req : Option (List Value) → Option (List (List Value)) → Option (List (List Value))
push_req (some t) (some ts) =
    if not (all_hashable t) then none else if elem_tuple t ts then some ts else some (t ∷ ts)
push_req _ _ = none

abbrev reqs_of : List Fields → List String → Option (List (List Value))
reqs_of [] field_names = some []
reqs_of (req ∷ reqs) field_names =
    push_req (dict_to_tuple req field_names) (reqs_of reqs field_names)

abbrev as_superset : {P : Type 0} → List String → Option (List (List Value)) → Option (Test P)
as_superset field_names none = none
as_superset field_names (some reqs) = some (superset_of_dicts reqs field_names)

unfoldable pub new_superset : {P : Type 0} → List Fields → List String → Option (Test P)
new_superset reqs field_names = as_superset field_names (reqs_of reqs field_names)

abbrev sig_names : List String
sig_names = "SignatureOwner" ∷ "SignatureData" ∷ []

-- EvEfiActionTest._expected_strings
abbrev expected_strings : ℕ → List String
expected_strings pcr =
    if pcr == 1
    then "Entering ROM Based Setup" ∷ []
    else if pcr == 4
    then "Calling EFI Application from Boot Option"
      ∷ "Returning from EFI Application from Boot Option" ∷ []
    else if pcr == 5
    then "Exit Boot Services Invocation" ∷ "Exit Boot Services Returned with Failure"
      ∷ "Exit Boot Services Returned with Success" ∷ []
    else if pcr == 6
    then "UEFI Debug Mode" ∷ []
    else []

module _ {P : Type 0} where
  unfoldable pub signature_test : Signature → Test P
  signature_test sig = all_of (
      tests_of (
        field_test "SignatureOwner" (string_equal sig.owner) true
        ∷ field_test "SignatureData" (string_equal sig.datum) true
        ∷ []))

  unfoldable pub signature_set_member : List Signature → Test P
  signature_set_member sigs = any_of (tests_of (map signature_test sigs))

  abbrev pub keys_of_type : List Signature → String → Test P
  keys_of_type keys sig_type = all_of (
      tests_of (
        field_test "SignatureType" (string_equal sig_type) true
        ∷ field_test "Keys" (iterate_test (signature_set_member keys) false) true
        ∷ []))

  unfoldable pub key_subset : String → List Signature → Test P
  key_subset sig_type keys = iterate_test (keys_of_type keys sig_type) false

  unfoldable pub key_subset_multi : List String → List Signature → Test P
  key_subset_multi sig_types keys =
      iterate_test (any_of (tests_of (map (keys_of_type keys) sig_types))) false

  abbrev superset_test : String → Option (Test P) → Option (Test P)
  superset_test sig_type none = none
  superset_test sig_type (some t) = some (
      tuple_test
        (tests_of (
          all_of (
            tests_of (
              field_test "SignatureType" (string_equal sig_type) true
              ∷ field_test "Keys" t true
              ∷ []))
          ∷ []))
        false)

  unfoldable pub key_superset : String → List Signature → Option (Test P)
  key_superset sig_type keys = superset_test sig_type (new_superset (map sig_fields keys) sig_names)

  -- An event whose text is given and whose digests are that text's hashes, which `hex_digest` gives
  -- (`hash_alg.hash(...).hex()`, of the bytes that the text stands for).
  abbrev event_with_digest : (Hash → String → String) → String → Test P
  event_with_digest hex_digest value = all_of (
      tests_of (
        field_test "Event" (string_equal value) true
        ∷ digests_test (
            good_digests (
              map (λ (h : Hash). (hash_value h, hex_digest h value))
                (sha1 ∷ sha256 ∷ sha384 ∷ sha512 ∷ sm3_256 ∷ [])
              ∷ []))
        ∷ []))

  abbrev pub ev_separator_test : (Hash → String → String) → Test P
  ev_separator_test hex_digest =
      any_of (tests_of (map (event_with_digest hex_digest) ("00000000" ∷ "FFFFFFFF" ∷ [])))

  abbrev action_test : (Hash → String → String) → ℕ → List String → Test P
  action_test hex_digest pcr [] = no_action pcr
  action_test hex_digest pcr (s ∷ l) =
      any_of (tests_of (map (event_with_digest hex_digest) (s ∷ l)))

  abbrev pub ev_efi_action_test : (Hash → String → String) → ℕ → Test P
  ev_efi_action_test hex_digest pcr = action_test hex_digest pcr (expected_strings pcr)
