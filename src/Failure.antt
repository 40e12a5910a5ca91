-- ===== src/Failure.antt =====
-- keylime/failure.py: events that may cause a revocation, and the collection of them that a
-- validation step returns. An event's context, a text for the log and for notifications, is left
-- out. The module's two globals SEVERITY_RULES and MAX_SEVERITY_LABEL are the record `Severities`,
-- an argument of whatever reads them.
pub mod Config
pub mod Highest
pub mod Truth
use Prim.Native.String.{◌++◌ as ◌+s◌}
use mathlib.Core.Option
use keylime.Prelude.{
  ℕ, String, Bool, true, false, not, ◌&&◌, ◌||◌, Option, none, some, List, [], ◌∷◌, ◌++◌, map, ltb,
  ◌==◌, if◌then◌else◌, nonempty,
}

pub record SeverityLabel : Type 0 where
  pub name : String
  pub severity : ℕ

-- SeverityLabel.__lt__, __eq__, and the __gt__ that `functools.total_ordering` derives from them
abbrev pub label_lt : SeverityLabel → SeverityLabel → Bool
label_lt a b = ltb a.severity b.severity

abbrev pub label_eq : SeverityLabel → SeverityLabel → Bool
label_eq a b = a.severity == b.severity

abbrev pub label_gt : SeverityLabel → SeverityLabel → Bool
label_gt a b = not (label_lt a b) && not (label_eq a b)

pub data Component : Type 0 where
  quote_validation pcr_validation measured_boot ima internal default : Component

abbrev pub component_value : Component → String
component_value quote_validation = "qoute_validation"
component_value pcr_validation = "pcr_validation"
component_value measured_boot = "measured_boot"
component_value ima = "ima"
component_value internal = "internal"
component_value default = "default"

pub record Severities : Type 0 where
  pub rules : List (String → Option SeverityLabel)
  pub max_severity_label : SeverityLabel

-- _severity_match: the first rule that answers
unfoldable pub first_match : List (String → Option SeverityLabel) → String → Option SeverityLabel
first_match [] event_id = none
first_match (rule ∷ rules) event_id = elim (rule event_id) [
  | none ↦ first_match rules event_id
  | some label ↦ some label
]

abbrev pub label_or : Option SeverityLabel → SeverityLabel → SeverityLabel
label_or none d = d
label_or (some label) d = label

unfoldable pub severity_match : Severities → String → SeverityLabel
severity_match s event_id = label_or (first_match s.rules event_id) s.max_severity_label

pub record Event : Type 0 where
  pub event_id : String
  pub severity_label : SeverityLabel
  pub recoverable : Bool

-- ".".join(names)
abbrev pub join_dots : List String → String
join_dots [] = ""
join_dots (x ∷ []) = x
join_dots (x ∷ y ∷ l) = x +s ("." +s join_dots (y ∷ l))

abbrev pub sub_path : Option (List String) → String
sub_path none = ""
sub_path (some subs) = "." +s join_dots subs

-- Event.__init__
unfoldable pub new_event : Severities → Component → Option (List String) → String → Bool → Event
new_event s component sub_components event_id recoverable =
    let full = component_value component +s (sub_path sub_components +s ("." +s event_id)) in
    record { event_id = full; severity_label = severity_match s full; recoverable = recoverable }

pub record Failure : Type 0 where
  pub component : Component
  pub sub_components : Option (List String)
  pub events : List Event
  pub recoverable : Bool
  pub highest_severity : Option SeverityLabel
  pub highest_severity_event : Option Event

-- Failure.__init__
unfoldable pub new_failure : Component → Option (List String) → Failure
new_failure component sub_components = record {
  component = component;
  sub_components = sub_components;
  events = [];
  recoverable = true;
  highest_severity = none;
  highest_severity_event = none;
}

-- An irrecoverable event is given the highest label.
abbrev pub raise_label : Severities → Event → Event
raise_label s event =
    if not event.recoverable && not (label_eq event.severity_label s.max_severity_label)
    then record event { severity_label = s.max_severity_label }
    else event

-- `highest is None or label > highest`
abbrev pub exceeds : SeverityLabel → Option SeverityLabel → Bool
exceeds label none = true
exceeds label (some highest) = label_gt label highest

-- Failure._add
unfoldable pub add : Severities → Failure → Event → Failure
add s f event =
    let e = raise_label s event in
    let higher = exceeds e.severity_label f.highest_severity in
    record f {
      recoverable = if not e.recoverable then false else f.recoverable;
      highest_severity = if higher then some e.severity_label else f.highest_severity;
      highest_severity_event = if higher then some e else f.highest_severity_event;
      events = f.events ++ e ∷ [];
    }

-- the choice of sub-components in add_event
abbrev pub joined : Option (List String) → Option (List String) → Option (List String)
joined (some own) (some given) = some (own ++ given)
joined (some own) none = some own
joined none given = given

-- Failure.add_event
unfoldable pub add_event : Severities → Failure → String → Bool → Option (List String) → Failure
unfolding add new_event
add_event s f event_id recoverable sub_components =
    add s f (new_event s f.component (joined f.sub_components sub_components) event_id recoverable)

-- whether `merge` takes the other's highest severity
abbrev pub is_lower : Option SeverityLabel → Option SeverityLabel → Bool
is_lower none other = true
is_lower (some own) none = false
is_lower (some own) (some other) = label_lt own other

-- Failure.merge
unfoldable pub merge : Failure → Failure → Failure
merge f other =
    let lower = is_lower f.highest_severity other.highest_severity in
    record f {
      recoverable = if f.recoverable then other.recoverable else f.recoverable;
      highest_severity = if lower then other.highest_severity else f.highest_severity;
      highest_severity_event =
          if lower then other.highest_severity_event else f.highest_severity_event;
      events = f.events ++ other.events;
    }

-- Failure.get_event_ids
unfoldable pub get_event_ids : Failure → List String
get_event_ids f = map (λ e. e.event_id) f.events

-- Failure.__bool__
unfoldable pub is_failure : Failure → Bool
is_failure f = not f.recoverable || nonempty f.events
