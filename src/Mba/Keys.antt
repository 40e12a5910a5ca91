-- ===== src/Mba/Keys.antt =====
-- keylime/mba/elchecking/tests.py, class KeySubset: which lists of signature lists it approves of.
use keylime.Prelude.{
  String, ◌≡◌, refl, sym, ap, ◌∙◌, Bool, true, false, ◌&&◌, List, [], ◌∷◌, str_eq, any_of, map,
}
use mathlib.Core.Path.{fun_ext}
use keylime.Regex.{Regex}
use keylime.Mba.Value.{Value}
use keylime.Mba.Test.{TestState}
use keylime.Mba.WhyNot.{why_not}
use keylime.Mba.Builders.{
  Signature, signature_test, signature_set_member, key_subset, keys_of_type, tests_of,
}
use keylime.Mba.Accepts.{
  Agrees, accepts, accepts_any, are_pure, field_holds, str_is, list_is, every,
}
use keylime.Mba.Accepts.Sound.{why_not-Agrees}

-- a dict with the signature's owner and data
abbrev is_signature : Value → Signature → Bool
is_signature v sig =
    field_holds "SignatureOwner" (str_is (λ t. str_eq t sig.owner)) v
    && field_holds "SignatureData" (str_is (λ t. str_eq t sig.datum)) v

-- a signature list of the given type, all of whose keys are among the given ones
abbrev pub is_key_list : String → List Signature → Value → Bool
is_key_list sig_type keys v =
    field_holds "SignatureType" (str_is (λ t. str_eq t sig_type)) v
    && field_holds "Keys" (list_is (every (λ w. any_of (is_signature w) keys))) v

module _ (re : Regex String) (pattern_text : re.Pattern → String) where
  and_true : (b : Bool) → (b && true) ≡ b
  and_true true = refl
  and_true false = refl

  members_pure : (keys : List Signature) → are_pure re (tests_of (map signature_test keys)) ≡ true
  unfolding signature_test
  members_pure [] = refl
  members_pure (k ∷ ks) = members_pure ks

  accepts-members :
      (keys : List Signature) (w : Value)
      → accepts_any re (tests_of (map signature_test keys)) w ≡ any_of (is_signature w) keys
  unfolding signature_test
  accepts-members [] w = refl
  accepts-members (k ∷ ks) w =
      rw
        (
          accepts-members ks w,
          and_true (field_holds "SignatureData" (str_is (λ t. str_eq t k.datum)) w),
        )
        refl

  -- KeySubset keeps the state, and approves exactly of the lists of signature lists that all have the
  -- given type and keys among the given ones.
  pub why_not-key_subset :
      (sig_type : String) (keys : List Signature) (s : TestState) (v : Value)
      → Agrees s
          (list_is (every (is_key_list sig_type keys)) v)
          (why_not re pattern_text (key_subset sig_type keys) s v)
  unfolding key_subset signature_set_member
  why_not-key_subset sig_type keys s v = rw (sym (ap (λ p. list_is (every p) v) (fun_ext same))) (
      why_not-Agrees re pattern_text (key_subset sig_type keys) s v
        (and_true (are_pure re (tests_of (map signature_test keys))) ∙ members_pure keys))
    where
      same : (e : Value) → accepts re (keys_of_type keys sig_type) e ≡ is_key_list sig_type keys e
      same e =
          ap (λ b. field_holds "SignatureType" (str_is (λ t. str_eq t sig_type)) e && b)
            (and_true _)
          ∙ ap
              (λ q.
                field_holds "SignatureType" (str_is (λ t. str_eq t sig_type)) e
                && field_holds "Keys" (list_is (every q)) e)
              (fun_ext (accepts-members keys))
