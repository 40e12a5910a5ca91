-- ===== src/Tests/Failures.antt =====
-- keylime/failure.py and the modules that only depend on it, at concrete inputs.
use keylime.Prelude.{
  suc, ◌≤◌, ◌≡◌, refl, true, false, Option, none, some, List, [], ◌∷◌, ◌++◌, ◌&&◌, String, str_eq,
  length,
}
use keylime.Regex.{Regex, literals}
use keylime.Failure.{
  Severities, Failure, Component, Event, new_failure, add_event, merge, severity_match,
}
use keylime.Failure.Config.{set_severity_config}
use keylime.Failure.Config.Bounds.{severity_match-le_max}
use keylime.Failure.Highest.{
  IsConsistent, IsBounded, first_highest, new_failure-IsConsistent, merge-IsConsistent,
  add_event-IsConsistent,
}
use keylime.Failure.Truth.{is_failure-add_event, failure_has_highest}
use keylime.Tests.Data.{two_levels}

abbrev strings : Regex String
strings = literals str_eq

abbrev labels : List String
labels = "info" ∷ "alert" ∷ []

abbrev policies : List (String × String)
policies = ("ima.quote_progress", "info") ∷ []

abbrev or_two_levels : Option Severities → Severities
or_two_levels none = two_levels
or_two_levels (some s) = s

abbrev pub configured : Severities
configured = or_two_levels (set_severity_config strings (some labels) (some policies))

severity_match-le_max_example :
    ((severity_match configured "ima.entry").severity ≤ configured.max_severity_label.severity)
    × (suc configured.max_severity_label.severity ≡ length labels)
severity_match-le_max_example =
    severity_match-le_max strings labels policies configured "ima.entry"
      (unfold set_severity_config in refl)

pub configured-IsBounded : IsBounded configured
configured-IsBounded event_id =
    (severity_match-le_max strings labels policies configured event_id
      (unfold set_severity_config in refl)).0

abbrev pub start : Failure
start = new_failure Component.ima none

abbrev pub with_entry : Failure
with_entry = add_event configured start "entry" false none

pub start-IsConsistent : IsConsistent configured start
start-IsConsistent = new_failure-IsConsistent configured Component.ima none

new_failure-IsConsistent_example : IsConsistent configured start
new_failure-IsConsistent_example = new_failure-IsConsistent configured Component.ima none

pub with_entry-IsConsistent : IsConsistent configured with_entry
with_entry-IsConsistent =
    add_event-IsConsistent configured start "entry" false none configured-IsBounded
      start-IsConsistent

add_event-IsConsistent_example :
    IsConsistent configured (add_event configured start "quote_progress" true none)
add_event-IsConsistent_example =
    add_event-IsConsistent configured start "quote_progress" true none configured-IsBounded
      start-IsConsistent

abbrev progressed : Failure
progressed = add_event configured start "quote_progress" true none

merge-IsConsistent_example :
    IsConsistent configured (merge progressed with_entry)
    × ((merge progressed with_entry).events ≡ progressed.events ++ with_entry.events)
    × ((merge progressed with_entry).highest_severity_event
        ≡ first_highest (progressed.events ++ with_entry.events))
    × ((merge progressed with_entry).recoverable
        ≡ (progressed.recoverable && with_entry.recoverable))
merge-IsConsistent_example =
    merge-IsConsistent configured progressed with_entry
      (add_event-IsConsistent configured start "quote_progress" true none configured-IsBounded
        start-IsConsistent)
      with_entry-IsConsistent

failure_has_highest_example :
    (e : Event) × (with_entry.highest_severity_event ≡ some e)
    × (with_entry.highest_severity ≡ some e.severity_label)
    × (with_entry.recoverable ≡ false
        → e.severity_label.severity ≡ configured.max_severity_label.severity)
failure_has_highest_example =
    failure_has_highest configured with_entry with_entry-IsConsistent
      (is_failure-add_event configured start "entry" false none)
