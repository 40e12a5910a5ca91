-- ===== src/Tests/Agents.antt =====
-- keylime/agentstates.py at concrete inputs.
use keylime.Prelude.{ℕ, ◌+◌, ◌≤◌, ◌≡◌, refl, ◌⊎◌, ◌↔◌, true, some, [], ◌∷◌}
use keylime.Prelude.Int.{pos}
use keylime.Prelude.Dict.{get, string_key}
use keylime.Hash.{sha256}
use keylime.Attest.{
  AgentAttestState, update_ima_attestation, set_ima_pcrs, get_pcr_state, get_pcr,
  check_quote_progress,
}
use keylime.Attest.Progress.{progress_iff_reaches}
use keylime.Attest.Reset.{resumes_from_stored}
use keylime.Attest.States.{AgentAttestStates, get_by_agent_id, state_of, get_by_agent_id_stable}
use keylime.Tests.Data.{checksums, agent}

abbrev quoted : AgentAttestState ℕ
quoted = (check_quote_progress agent (pos 3) 5).0

progress_iff_reaches_example :
    (((check_quote_progress quoted (pos 2) 4).1 ≡ true) ↔ ((◌≡◌ {A = ℕ} 2 4) ⊎ (5 ≤ 3 + 2)))
    × ((check_quote_progress quoted (pos 2) 4).0.quote_progress ≡ some (pos 2, 4))
progress_iff_reaches_example =
    progress_iff_reaches quoted 3 5 2 4 (unfold check_quote_progress in refl)

abbrev updated : AgentAttestState ℕ
updated = update_ima_attestation agent 10 (1 ∷ 2 ∷ []) 7

resumes_from_stored_example :
    (s' : AgentAttestState ℕ) × (get_pcr_state checksums
        (set_ima_pcrs agent ((10, 9 ∷ []) ∷ []))
        10
        sha256
      ≡ some (s', some (9 ∷ [])))
    × (s'.ima_pcrs ≡ 10 ∷ [])
    × (get_pcr s'.tpm_state 10 ≡ some (9 ∷ []))
resumes_from_stored_example =
    resumes_from_stored checksums agent ((10, 9 ∷ []) ∷ []) 10 (9 ∷ []) sha256 (refl, tt) refl

abbrev both : AgentAttestStates ℕ
both = record { states = ("agent", updated) ∷ ("other", agent) ∷ [] }

get_by_agent_id_stable_example :
    ((get_by_agent_id both "third").1 ≡ state_of both "third")
    × (get (get_by_agent_id both "third").0.states "third" ≡ some (state_of both "third"))
    × (state_of (get_by_agent_id both "third").0 "agent" ≡ state_of both "agent")
get_by_agent_id_stable_example = get_by_agent_id_stable both "third" "agent"
