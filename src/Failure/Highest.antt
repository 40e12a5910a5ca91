-- ===== src/Failure/Highest.antt =====
-- keylime/failure.py, class Failure: what the collection of events keeps.
use keylime.Prelude.{
  sym, ap, ◌∙◌, ◌≤◌, String, ◌≡◌, refl, Bool, true, false, ◌&&◌, Option, none, some, List, [], ◌∷◌,
  ◌++◌, arith, if◌then◌else◌, All, All-append,
}
use keylime.Failure.{
  SeverityLabel, Severities, Event, Failure, label_lt, raise_label, severity_match, exceeds, add,
  add_event, is_lower, merge, new_failure, new_event, Component, joined,
}

-- The first of the events that have the highest severity, told from the list alone.
abbrev pub worse : Event → Option Event → Event
worse e none = e
worse e (some rest) = if label_lt e.severity_label rest.severity_label then rest else e

abbrev pub first_highest : List Event → Option Event
first_highest [] = none
first_highest (e ∷ es) = some (worse e (first_highest es))

abbrev pub label_of : Option Event → Option SeverityLabel
label_of none = none
label_of (some e) = some e.severity_label

abbrev pub all_recoverable : List Event → Bool
all_recoverable [] = true
all_recoverable (e ∷ es) = e.recoverable && all_recoverable es

-- No event lies above the highest severity, and an irrecoverable event has it.
abbrev pub IsTagged : Severities → Event → Type 0
IsTagged s e =
    (e.severity_label.severity ≤ s.max_severity_label.severity)
    × (e.recoverable ≡ false → e.severity_label.severity ≡ s.max_severity_label.severity)

-- What the accepted configurations satisfy (Failure.Config.Bounds).
abbrev pub IsBounded : Severities → Type 0
IsBounded s =
    (event_id : String) → (severity_match s event_id).severity ≤ s.max_severity_label.severity

pub record IsConsistent (s : Severities) (f : Failure) : Type 0 where
  pub highest_event : f.highest_severity_event ≡ first_highest f.events
  pub highest_label : f.highest_severity ≡ label_of f.highest_severity_event
  pub recoverable_all : f.recoverable ≡ all_recoverable f.events
  pub tagged : All (IsTagged s) f.events

-- the choice that `merge` makes between two first highest events
abbrev pick : Option Event → Option Event → Option Event
pick none b = b
pick (some a) none = some a
pick (some a) (some b) = some (worse a (some b))

worse-pick :
    (x : Event) (a b : Option Event) → some (worse x (pick a b)) ≡ pick (some (worse x a)) b
worse-pick x none none = refl
worse-pick x none (some b) = refl
worse-pick x (some a) none = refl
worse-pick x (some a) (some b) = ground arith

-- `merge` compares labels, and keeps the event that goes with the label
merge_label :
    (a b : Option Event)
    → (if is_lower (label_of a) (label_of b) then label_of b else label_of a) ≡ label_of (pick a b)
merge_label none none = refl
merge_label none (some b) = refl
merge_label (some a) none = refl
merge_label (some a) (some b) = ground arith

merge_event :
    (a b : Option Event) → (if is_lower (label_of a) (label_of b) then b else a) ≡ pick a b
merge_event none none = refl
merge_event none (some b) = refl
merge_event (some a) none = refl
merge_event (some a) (some b) = ground arith

first_highest-append :
    (xs ys : List Event) → first_highest (xs ++ ys) ≡ pick (first_highest xs) (first_highest ys)
first_highest-append [] ys = refl
first_highest-append (x ∷ xs) ys =
    rw (first_highest-append xs ys) (worse-pick x (first_highest xs) (first_highest ys))

all_recoverable-append :
    (xs ys : List Event) → all_recoverable (xs ++ ys) ≡ (all_recoverable xs && all_recoverable ys)
all_recoverable-append [] ys = refl
all_recoverable-append (x ∷ xs) ys = ground (arith, all_recoverable-append xs ys)

pub new_failure-IsConsistent :
    (s : Severities) (c : Component) (subs : Option (List String))
    → IsConsistent s (new_failure c subs)
unfolding new_failure
new_failure-IsConsistent s c subs = record {
  highest_event = refl;
  highest_label = refl;
  recoverable_all = refl;
  tagged = tt;
}

module _ (s : Severities) (f other : Failure) (hf : IsConsistent s f)
    (ho : IsConsistent s other) where
  merge_picks :
      (merge f other).highest_severity_event
      ≡ pick f.highest_severity_event other.highest_severity_event
  unfolding merge
  merge_picks =
      rw (hf.highest_label, ho.highest_label)
        (merge_event f.highest_severity_event other.highest_severity_event)

  merge_picks_label :
      (merge f other).highest_severity
      ≡ label_of (pick f.highest_severity_event other.highest_severity_event)
  unfolding merge
  merge_picks_label =
      rw (hf.highest_label, ho.highest_label)
        (merge_label f.highest_severity_event other.highest_severity_event)

merged :
    (s : Severities) (f other : Failure)
    → IsConsistent s f
    → IsConsistent s other
    → IsConsistent s (merge f other)
merged s f other hf ho = record {
  highest_event = merge_picks s f other hf ho ∙ picked;
  highest_label =
      merge_picks_label s f other hf ho ∙ ap label_of (sym (merge_picks s f other hf ho));
  recoverable_all =
      unfold merge in
      rw (hf.recoverable_all, ho.recoverable_all, all_recoverable-append f.events other.events)
        (ground arith);
  tagged = unfold merge in All-append (IsTagged s) f.events other.events hf.tagged ho.tagged;
}
  where
    picked :
        pick f.highest_severity_event other.highest_severity_event
        ≡ first_highest (merge f other).events
    picked =
        unfold merge in
        rw (hf.highest_event, ho.highest_event) (sym (first_highest-append f.events other.events))

-- Merging two consistent failures gives a consistent one with the events of both, those of the first
-- before those of the other: the highest event is the first one of the highest severity in both
-- lists together, and the failure is recoverable exactly if both are.
pub merge-IsConsistent :
    (s : Severities) (f other : Failure)
    → IsConsistent s f
    → IsConsistent s other
    → IsConsistent s (merge f other)
      × ((merge f other).events ≡ f.events ++ other.events)
      × ((merge f other).highest_severity_event ≡ first_highest (f.events ++ other.events))
      × ((merge f other).recoverable ≡ (f.recoverable && other.recoverable))
merge-IsConsistent s f other hf ho =
    let both = merged s f other hf ho in
    (
      both,
      (unfold merge in refl),
      both.highest_event ∙ (unfold merge in refl),
      (unfold merge in ground arith),
    )

-- a failure that holds one event
abbrev single : Failure → Event → Failure
single f e = record f {
  events = e ∷ [];
  recoverable = e.recoverable;
  highest_severity = some e.severity_label;
  highest_severity_event = some e;
}

exceeds-is_lower :
    (label : SeverityLabel) (highest : Option SeverityLabel)
    → exceeds label highest ≡ is_lower highest (some label)
exceeds-is_lower label none = refl
exceeds-is_lower label (some h) = ground arith

-- `_add` is the merge with a failure of the one event.
add-merge :
    (s : Severities) (f : Failure) (e : Event) → add s f e ≡ merge f (single f (raise_label s e))
unfolding add merge
add-merge s f e =
    rw (exceeds-is_lower (raise_label s e).severity_label f.highest_severity) (ground arith)

raise_label-IsTagged :
    (s : Severities) (e : Event)
    → e.severity_label.severity ≤ s.max_severity_label.severity
    → IsTagged s (raise_label s e)
raise_label-IsTagged s e h = ground arith

-- Adding an event keeps a failure consistent, with the event's label raised if it is irrecoverable.
pub add_event-IsConsistent :
    (s : Severities) (f : Failure) (event_id : String) (recoverable : Bool)
    (sub_components : Option (List String))
    → IsBounded s
    → IsConsistent s f
    → IsConsistent s (add_event s f event_id recoverable sub_components)
add_event-IsConsistent s f event_id recoverable sub_components bound h =
    unfold add_event in
    rw (add-merge s f event) (
      merged s f (single f (raise_label s event)) h (record {
        highest_event = refl;
        highest_label = refl;
        recoverable_all = ground arith;
        tagged = (raise_label-IsTagged s event (unfold new_event in bound _), tt);
      }))
  where
    event : Event
    event = new_event s f.component (joined f.sub_components sub_components) event_id recoverable
