-- ===== src/Failure/Truth.antt =====
-- keylime/failure.py, class Failure: when a failure counts as one, and what can then be read of it.
use keylime.Prelude.{
  ap, ◌∙◌, sym, ◌≤◌, String, ◌≡◌, refl, Bool, true, false, ◌||◌, Option, some, List, [], ◌∷◌, arith,
  nonempty, nonempty-append, All,
}
use keylime.Failure.{Severities, Event, Failure, raise_label, add, add_event, merge, is_failure}
use keylime.Failure.Highest.{
  first_highest, label_of, all_recoverable, IsTagged, IsConsistent, worse,
}

or_true : (b : Bool) → (b || true) ≡ true
or_true true = refl
or_true false = refl

-- `if failure:` holds of a merge exactly if it holds of one of the two.
pub is_failure-merge :
    (f other : Failure) → is_failure (merge f other) ≡ (is_failure f || is_failure other)
unfolding is_failure merge
is_failure-merge f other = rw (nonempty-append f.events other.events) (ground arith)

is_failure-add : (s : Severities) (f : Failure) (e : Event) → is_failure (add s f e) ≡ true
unfolding is_failure add
is_failure-add s f e =
    rw (nonempty-append f.events (raise_label s e ∷ []), or_true (nonempty f.events)) (or_true _)

pub is_failure-add_event :
    (s : Severities) (f : Failure) (event_id : String) (recoverable : Bool)
    (sub_components : Option (List String))
    → is_failure (add_event s f event_id recoverable sub_components) ≡ true
unfolding add_event
is_failure-add_event s f event_id recoverable sub_components = is_failure-add s f _

some_first : (es : List Event) → nonempty es ≡ true → (e : Event) × (first_highest es ≡ some e)
some_first [] h = cc
some_first (x ∷ es) h = (worse x (first_highest es), refl)

irrecoverable_nonempty : (es : List Event) → all_recoverable es ≡ false → nonempty es ≡ true
irrecoverable_nonempty [] h = cc
irrecoverable_nonempty (x ∷ es) h = refl

-- no event of the list lies above the first highest
le_first :
    (s : Severities) (es : List Event) (e : Event)
    → All (IsTagged s) es
    → first_highest es ≡ some e
    → e.severity_label.severity ≤ s.max_severity_label.severity
le_first s [] e t p = cc
le_first s (x ∷ []) e t p = ground (arith, t.0.0)
le_first s (x ∷ y ∷ es) e t p =
    ground (arith, t.0.0, le_first s (y ∷ es) (worse y (first_highest es)) t.1 refl)

highest_is_max :
    (s : Severities) (es : List Event) (e : Event)
    → All (IsTagged s) es
    → all_recoverable es ≡ false
    → first_highest es ≡ some e
    → e.severity_label.severity ≡ s.max_severity_label.severity
highest_is_max s [] e t h p = cc
highest_is_max s (x ∷ []) e t h p = ground (arith, t.0.1)
highest_is_max s (x ∷ y ∷ es) e t h p = ground (
  arith,
  t.0.0,
  t.0.1,
  le_first s (y ∷ es) (worse y (first_highest es)) t.1 refl,
  highest_is_max s (y ∷ es) (worse y (first_highest es)) t.1,
)

-- A consistent failure that counts as one has a first highest event and that event's label, which
-- the verifier reads without a further test; if it is irrecoverable, the label is the highest.
pub failure_has_highest :
    (s : Severities) (f : Failure)
    → IsConsistent s f
    → is_failure f ≡ true
    → (e : Event) × (f.highest_severity_event ≡ some e)
      × (f.highest_severity ≡ some e.severity_label)
      × (f.recoverable ≡ false → e.severity_label.severity ≡ s.max_severity_label.severity)
failure_has_highest s f h b =
    let (e, first) = some_first f.events (nonempty_of f h b) in
    let event = h.highest_event ∙ first in
    (
      e,
      event,
      h.highest_label ∙ ap label_of event,
      λ r. highest_is_max s f.events e h.tagged (sym h.recoverable_all ∙ r) first,
    )
  where
    nonempty_of : (f : Failure) → IsConsistent s f → is_failure f ≡ true → nonempty f.events ≡ true
    nonempty_of f h b =
        unfold is_failure in ground (arith, irrecoverable_nonempty f.events, h.recoverable_all)
