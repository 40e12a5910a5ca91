-- ===== src/Ima/Process/Sound.antt =====
-- keylime/ima/ima.py: what an accepted measurement list shows.
use keylime.Prelude.{
  ◌≡◌, refl, sym, ap, ◌∙◌, inl, inr, true, false, Option, none, some, List, [], ◌∷◌, arith, Bytes,
  bytes_eq_sound, All,
}
use keylime.Hash.{Hash}
use keylime.Failure.{Failure, is_failure}
use keylime.Failure.Truth.{is_failure-add_event}
use keylime.Attest.{AgentAttestState, get_pcr_state, get_ima_pcrs, reset_ima_attestation}
use keylime.Attest.Reset.{reset_forgets}
use keylime.Ima.Keyrings.{no_keyrings}
use keylime.Ima.Text.{from_hex}
use keylime.Ima.Policy.{RuntimePolicy}
use keylime.Ima.Inputs.{ImaEnv, log_hash_alg_of, BootAggregates, policy_with, ima_pcr}
use keylime.Ima.Process.{
  Scan, Step, goes_on, raises, scan, conclude, replay_from, first_scan, enter, reset_on_failure,
  start_replay, Outcome, process_measurement_list, process_measurement_list_inner,
}
use keylime.Ima.Process.Replay.{replay, LineAccepted}
use keylime.Ima.Process.Scanned.{Reaches, scan-Scanned}

-- What an outcome without failure shows of the lines.
abbrev pub Shows :
    {Pubkey : Type 0}
    → ImaEnv Pubkey
    → Hash
    → Option RuntimePolicy
    → Bytes
    → Bytes
    → List Bytes
    → Type 0
Shows env hash_alg policy pcrval v lines =
    Reaches env.lib (log_hash_alg_of policy) hash_alg pcrval v lines
    × All (LineAccepted env hash_alg policy pcrval) lines

module _ {Pubkey : Type 0} (env : ImaEnv Pubkey) where
  open env use {severities}

  -- An outcome that is no failure comes from a loop that ended, without failure, at the quoted value.
  conclude-clean :
      (m : Step Pubkey) (a : AgentAttestState Pubkey) (h : Bytes) (f : Failure)
      → conclude env m ≡ (a, some (h, f))
      → is_failure f ≡ false
      → (s : Scan Pubkey) × (m ≡ goes_on s) × (s.found_pcr ≡ true) × (is_failure s.failure ≡ false)
  unfolding conclude
  conclude-clean (raises b) a h f e c = cc
  conclude-clean (goes_on s) a h f e c = (
    s,
    refl,
    ground (arith, is_failure-add_event severities s.failure "pcr_mismatch" true none),
    ground (
      arith,
      is_failure-add_event severities s.failure "pcr_mismatch" true none,
      is_failure-add_event severities s.failure "quote_progress" true none,
    ),
  )

  replay_from-Shows :
      (hash_alg : Hash) (policy : Option RuntimePolicy) (lines : List Bytes)
      (a a' : AgentAttestState Pubkey) (running pcrval h : Bytes) (f : Failure)
      → replay_from env hash_alg policy lines a running (some pcrval) ≡ (a', some (h, f))
      → is_failure f ≡ false
      → Shows env hash_alg policy pcrval running lines
  unfolding replay_from replay
  replay_from-Shows hash_alg policy lines a a' running pcrval h f e c =
      let start = first_scan env a running (some pcrval) in
      let (s, run, found, clean) =
        conclude-clean (scan env hash_alg policy pcrval start 0 lines) a' h f e c in
      let sc = scan-Scanned env hash_alg policy pcrval lines start s 0 run in
      (
        elim sc.reached [
          | inl same ↦ ([], lines, refl, bytes_eq_sound running pcrval (sym same ∙ found))
          | inr reaches ↦ reaches
        ],
        sc.accepted clean,
      )

  reset-clean :
      (o : Outcome Pubkey) (a : AgentAttestState Pubkey) (h : Bytes) (f : Failure)
      → reset_on_failure env o ≡ (a, some (h, f))
      → (b : AgentAttestState Pubkey) × (o ≡ (b, some (h, f)))
  reset-clean (b, none) a h f e = cc
  reset-clean (b, some (h', f')) a h f e = (b, ap (λ (x : Outcome Pubkey). (b, x.1)) e)

  reset-dirty :
      (o : Outcome Pubkey) (a : AgentAttestState Pubkey) (h : Bytes) (f : Failure)
      → reset_on_failure env o ≡ (a, some (h, f))
      → is_failure f ≡ true
      → (b : AgentAttestState Pubkey) × (a ≡ reset_ima_attestation b)
  reset-dirty (b, none) a h f e c = cc
  reset-dirty (b, some (h', f')) a h f e c = (b, ground arith)

  started :
      (hash_alg : Hash) (policy : Option RuntimePolicy) (lines : List Bytes)
      (a a' : AgentAttestState Pubkey) (running : Option Bytes) (pcrval : Bytes)
      (read : Option Bytes) (h : Bytes) (f : Failure)
      → start_replay env hash_alg policy lines a running
          (elim read [ none ↦ none | some b ↦ some (some b) ])
        ≡ (a', some (h, f))
      → is_failure f ≡ false
      → (v : Bytes) × (value : Bytes) × (running ≡ some v)
        × (read ≡ some value)
        × Shows env hash_alg policy value v lines
  started hash_alg policy lines a a' none pcrval read h f e c = cc
  started hash_alg policy lines a a' (some []) pcrval read h f e c = cc
  started hash_alg policy lines a a' (some (x ∷ v)) pcrval none h f e c = cc
  started hash_alg policy lines a a' (some (x ∷ v)) pcrval (some b) h f e c =
      (x ∷ v, b, refl, refl, replay_from-Shows hash_alg policy lines a a' (x ∷ v) b h f e c)

  entered :
      (hash_alg : Hash) (policy : Option RuntimePolicy) (lines : List Bytes) (pcrval : Bytes)
      (a a' : AgentAttestState Pubkey) (o : Option (AgentAttestState Pubkey × Option Bytes))
      (h : Bytes) (f : Failure)
      → enter env hash_alg policy lines (some pcrval) a o ≡ (a', some (h, f))
      → is_failure f ≡ false
      → (start : AgentAttestState Pubkey) × (v : Bytes) × (value : Bytes) × (o
          ≡ some (start, some v))
        × (from_hex pcrval ≡ some value)
        × Shows env hash_alg policy value v lines
  entered hash_alg policy lines pcrval a a' none h f e c = cc
  entered hash_alg policy lines pcrval a a' (some (start, running)) h f e c =
      let (v, value, same, read, shows) =
        started hash_alg policy lines start a' running pcrval (from_hex pcrval) h f e c in
      (start, v, value, ap (λ (r : Option Bytes). some (start, r)) same, read, shows)

  -- A measurement list is accepted for a quoted PCR value only if it explains that value: extending
  -- the PCR by the template hashes of the first so many lines, from the value that the last accepted
  -- quote left or else from its initial value, gives exactly the quoted one. And every line of the
  -- list, the ones after that point too, is blank or parses into an entry whose own checks and whose
  -- validation against the policy, with the boot aggregates added, find no failure.
  pub accepted_list_explains_quote :
      (a a' : AgentAttestState Pubkey) (lines : List Bytes) (hash_alg : Hash)
      (policy : Option RuntimePolicy) (pcrval : Bytes) (boot_aggregates : BootAggregates)
      (h : Bytes) (failure : Failure)
      → process_measurement_list env a lines hash_alg policy (some pcrval) boot_aggregates
        ≡ (a', some (h, failure))
      → is_failure failure ≡ false
      → (start : AgentAttestState Pubkey) × (v : Bytes) × (value : Bytes) × (get_pcr_state env.lib a
            ima_pcr hash_alg
          ≡ some (start, some v))
        × (from_hex pcrval ≡ some value)
        × Shows env hash_alg (policy_with boot_aggregates policy) value v lines
  accepted_list_explains_quote a a' lines hash_alg policy pcrval boot_aggregates h failure e c =
      unfold process_measurement_list in
      (let (b, inner) =
          reset-clean
            (process_measurement_list_inner env a lines hash_alg policy (some pcrval)
              boot_aggregates)
            a' h failure e in
        unfold process_measurement_list_inner in
        entered hash_alg (policy_with boot_aggregates policy) lines pcrval a b
          (get_pcr_state env.lib a ima_pcr hash_alg) h failure inner c)

  -- After a list with a failure the agent's log is asked for from its start: nothing of the list is
  -- remembered.
  pub failed_list_starts_anew :
      (a a' : AgentAttestState Pubkey) (lines : List Bytes) (hash_alg : Hash)
      (policy : Option RuntimePolicy) (pcrval : Option Bytes) (boot_aggregates : BootAggregates)
      (h : Bytes) (failure : Failure)
      → process_measurement_list env a lines hash_alg policy pcrval boot_aggregates
        ≡ (a', some (h, failure))
      → is_failure failure ≡ true
      → (a'.next_ima_ml_entry ≡ 0)
        × (get_ima_pcrs a' ≡ [])
        × (a'.quote_progress ≡ none)
        × (a'.ima_keyrings ≡ no_keyrings)
  unfolding process_measurement_list
  failed_list_starts_anew a a' lines hash_alg policy pcrval boot_aggregates h failure e c =
      let (b, same) =
        reset-dirty
          (process_measurement_list_inner env a lines hash_alg policy pcrval boot_aggregates) a' h
          failure e c in
      let forgets = reset_forgets b in
      (
        ap (λ (x : AgentAttestState Pubkey). x.next_ima_ml_entry) same ∙ forgets.1,
        ap get_ima_pcrs same ∙ forgets.0,
        ap (λ (x : AgentAttestState Pubkey). x.quote_progress) same ∙ forgets.3,
        ap (λ (x : AgentAttestState Pubkey). x.ima_keyrings) same ∙ forgets.4,
      )
