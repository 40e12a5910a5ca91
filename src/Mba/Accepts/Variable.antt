-- ===== src/Mba/Accepts/Variable.antt =====
-- keylime/mba/elchecking/tests.py, class VariableTest: which events the checks of the names let through.
use keylime.Prelude.{
  String, ◌≡◌, refl, Bool, true, false, ◌&&◌, Option, none, some, [], ◌∷◌, str_eq, if◌then◌else◌,
  inl,
}
use keylime.Regex.{Regex}
use keylime.Mba.Value.{
  Value, null, bool, int, str, list, dict, Fields, Piece, text, shown, Reason, get_field, scalar_eq,
}
use keylime.Mba.Test.{TestState, Examined, StrOrRe, plain, pattern_of}
use keylime.Mba.Steps.{on_data, name_matches}
use keylime.Mba.WhyNot.{
  variable_data, check_unicode_name, check_data, check_unicode, check_variable, check_event,
}
use keylime.Mba.Accepts.{Agrees, field_holds, holds, str_is, matches, variable_event}

and_false : (b : Bool) → false ≡ (b && false)
and_false true = refl
and_false false = refl

module _ (re : Regex String) (pattern_text : re.Pattern → String) (s : TestState) (p : Value → Bool)
    (k : Value → Examined) (h : (w : Value) → Agrees s (p w) (k w)) where
  name_matches-Agrees :
      (b : Bool) (x : Piece) (r : Reason) (w : Value)
      → Agrees s (b && p w) (on_data (name_matches b (x ∷ r) w) s k)
  name_matches-Agrees true x r w = h w
  name_matches-Agrees false x r w = (refl, refl)

  check_unicode_name-Agrees :
      (u : StrOrRe re.Pattern) (t : String) (w : Value)
      → Agrees s (matches re u t && p w) (on_data (check_unicode_name re pattern_text u t w) s k)
  check_unicode_name-Agrees (plain expected) t w = name_matches-Agrees (str_eq t expected) _ _ w
  check_unicode_name-Agrees (pattern_of q) t w = name_matches-Agrees (re.fullmatch q t) _ _ w

  check_data-Agrees :
      (u : StrOrRe re.Pattern) (v : Value) (o : Option Value)
      → Agrees s
          (str_is (matches re u) v && holds p o)
          (on_data (check_data re pattern_text u v o) s k)
  check_data-Agrees u v none = (refl, and_false (str_is (matches re u) v))
  check_data-Agrees u (str t) (some w) = check_unicode_name-Agrees u t w
  check_data-Agrees u null (some w) = (refl, refl)
  check_data-Agrees u (bool b) (some w) = (refl, refl)
  check_data-Agrees u (int n) (some w) = (refl, refl)
  check_data-Agrees u (list vs) (some w) = (refl, refl)
  check_data-Agrees u (dict fs) (some w) = (refl, refl)

  check_unicode-Agrees :
      (u : StrOrRe re.Pattern) (evt : Fields) (o : Option Value)
      → Agrees s
          (holds (str_is (matches re u)) o && holds p (get_field evt "VariableData"))
          (on_data (check_unicode re pattern_text u evt o) s k)
  check_unicode-Agrees u evt none = (refl, refl)
  check_unicode-Agrees u evt (some v) = check_data-Agrees u v (get_field evt "VariableData")

  check_variable-Agrees :
      (name : String) (u : StrOrRe re.Pattern) (evt : Fields) (o : Option Value)
      → Agrees s
          (holds (λ n. scalar_eq n (str name)) o
            && (holds (str_is (matches re u)) (get_field evt "UnicodeName")
                && holds p (get_field evt "VariableData")))
          (on_data (check_variable re pattern_text name u evt o) s k)
  check_variable-Agrees name u evt none = (refl, refl)
  check_variable-Agrees name u evt (some v) =
      elim (scalar_eq v (str name))
        as (λ b.
          Agrees s
            (b
              && (holds (str_is (matches re u)) (get_field evt "UnicodeName")
                  && holds p (get_field evt "VariableData")))
            (on_data
              (if b
                then check_unicode re pattern_text u evt (get_field evt "UnicodeName")
                else inl (
                    text "Event.VariableName is "
                    ∷ shown v
                    ∷ text " rather than "
                    ∷ text name
                    ∷ []))
              s k)) [
                | true ↦ check_unicode-Agrees u evt (get_field evt "UnicodeName")
                | false ↦ (refl, refl)
              ]

  check_event-Agrees :
      (name : String) (u : StrOrRe re.Pattern) (o : Option Value)
      → Agrees s
          (holds (variable_event re name u p) o)
          (on_data (check_event re pattern_text name u o) s k)
  check_event-Agrees name u none = (refl, refl)
  check_event-Agrees name u (some (dict evt)) =
      check_variable-Agrees name u evt (get_field evt "VariableName")
  check_event-Agrees name u (some null) = (refl, refl)
  check_event-Agrees name u (some (bool b)) = (refl, refl)
  check_event-Agrees name u (some (int n)) = (refl, refl)
  check_event-Agrees name u (some (str t)) = (refl, refl)
  check_event-Agrees name u (some (list vs)) = (refl, refl)

  pub variable_data-Agrees :
      (name : String) (u : StrOrRe re.Pattern) (v : Value)
      → Agrees s
          (field_holds "Event" (variable_event re name u p) v)
          (on_data (variable_data re pattern_text name u v) s k)
  unfolding variable_data
  variable_data-Agrees name u (dict fs) = check_event-Agrees name u (get_field fs "Event")
  variable_data-Agrees name u null = (refl, refl)
  variable_data-Agrees name u (bool b) = (refl, refl)
  variable_data-Agrees name u (int n) = (refl, refl)
  variable_data-Agrees name u (str t) = (refl, refl)
  variable_data-Agrees name u (list vs) = (refl, refl)
