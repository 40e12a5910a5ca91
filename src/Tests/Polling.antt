-- ===== src/Tests/Polling.antt =====
-- keylime/cloud_verifier_tornado.py, process_agent, at concrete inputs.
use keylime.Prelude.{
  ◌≡◌, refl, inl, not, ◌&&◌, ◌||◌, true, false, none, some, List, [], ◌∷◌, any_of,
}
use keylime.Failure.{new_failure, add_event, severity_match, first_match}
use keylime.Failure.Config.{set_severity_config}
use keylime.Failure.Truth.{is_failure-add_event}
use keylime.Verifier.{
  get_quote, get_quote_retry, failed, terminated, Agent, Effect, update_db, load_agent, load_policy,
  later_get_quote, Options, process_agent, turn, transition, retry_time, stops_polling,
}
use keylime.Verifier.Along.{Keeps}
use keylime.Verifier.Keeps.{process_agent-Keeps}
use keylime.Verifier.Timers.{polls, deletes, timer_after, is_new_high}
use keylime.Verifier.Stops.{stopping_failure_ends_polling, ended_agent_ends_polling}
use keylime.Tests.Data.{alert}
use keylime.Tests.Failures.{configured, start, with_entry, with_entry-IsConsistent}

abbrev options : Options
options = record {
  severities = configured;
  max_severity_label = alert;
  quote_interval = 2;
  retry_interval = 2;
  max_retries = 3;
  exponential_backoff = true;
  default_failure = start;
}

abbrev unreachable : Agent
unreachable = record {
  agent_id = "agent";
  operational_state = get_quote;
  severity_level = none;
  last_event_id = none;
  num_retries = 2;
  pending_event = true;
  attestation_count = 4;
  has_v = false;
}

abbrev given_up : Agent
given_up = record unreachable { num_retries = 3 }

abbrev retried : Agent × List Effect
retried = (
  record unreachable { num_retries = 3 },
  load_agent ∷ update_db unreachable ∷ load_policy ∷ later_get_quote 8 true ∷ [],
)

process_agent-Keeps_example : Keeps options unreachable retried.0
process_agent-Keeps_example =
    process_agent-Keeps options ((some get_quote, none) ∷ []) unreachable get_quote_retry start
      retried (unfold process_agent turn transition retry_time in refl)

stopping_failure_ends_polling_example :
    (r : Agent × List Effect) × (process_agent options
        ((some get_quote, none) ∷ [])
        unreachable
        failed
        with_entry
      ≡ some r)
    × (any_of polls r.1 ≡ false)
    × (timer_after true r.1 ≡ (true && not (false || is_new_high none with_entry.highest_severity)))
unfolding severity_match first_match set_severity_config
stopping_failure_ends_polling_example =
    stopping_failure_ends_polling options (some get_quote) [] unreachable failed with_entry
      (inl refl) with_entry-IsConsistent (is_failure-add_event configured start "entry" false none)
      stops
  where
    stops : stops_polling options with_entry ≡ true
    stops = unfold add_event new_failure in refl

ended_agent_ends_polling_example :
    (r : Agent × List Effect) × (process_agent options
        ((some terminated, none) ∷ [])
        unreachable
        failed
        with_entry
      ≡ some r)
    × (any_of polls r.1 ≡ false)
    × (timer_after true r.1 ≡ false)
    × (any_of deletes r.1 ≡ true)
ended_agent_ends_polling_example =
    ended_agent_ends_polling options (some terminated) [] unreachable failed with_entry refl
