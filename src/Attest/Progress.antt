-- ===== src/Attest/Progress.antt =====
-- keylime/agentstates.py, check_quote_progress against its documentation.
use keylime.Prelude.{refl, ℕ, ◌+◌, ◌≤◌, ◌≡◌, ◌⊎◌, ◌↔◌, true, some, arith}
use keylime.Prelude.Int.{pos}
use keylime.Attest.{AgentAttestState, progress_since, check_quote_progress}

module _ (prev_line prev_length line log_length : ℕ) where
  progress_sound :
      progress_since (some (pos prev_line, prev_length)) (pos line) log_length ≡ true
      → (line ≡ log_length) ⊎ (prev_length ≤ prev_line + line)
  progress_sound h = ground arith

  reaches_sound :
      (line ≡ log_length) ⊎ (prev_length ≤ prev_line + line)
      → progress_since (some (pos prev_line, prev_length)) (pos line) log_length ≡ true
  reaches_sound h = ground arith

-- The previous quote matched its log of `prev_length` entries after `prev_line` of them. The next
-- one makes progress exactly if it has caught up with its own log, or if the entries that it
-- replayed reach the end of the previous log; either way its match is what is remembered.
pub progress_iff_reaches :
    {Pubkey : Type 0} (s : AgentAttestState Pubkey) (prev_line prev_length line log_length : ℕ)
    → s.quote_progress ≡ some (pos prev_line, prev_length)
    → (((check_quote_progress s (pos line) log_length).1 ≡ true)
        ↔ ((line ≡ log_length) ⊎ (prev_length ≤ prev_line + line)))
      × ((check_quote_progress s (pos line) log_length).0.quote_progress
          ≡ some (pos line, log_length))
unfolding check_quote_progress
progress_iff_reaches s prev_line prev_length line log_length h = rw h (
  (
    progress_sound prev_line prev_length line log_length,
    reaches_sound prev_line prev_length line log_length,
  ),
  refl,
)
