-- ===== src/Attest.antt =====
-- keylime/agentstates.py: what the verifier remembers of an agent between two quotes, so that an
-- agent may send only the new part of its IMA log. PCR banks and IMA keyrings are part of it; the
-- lock of the map of states guards single calls and is left out.
pub mod Reset
pub mod Progress
pub mod States
use keylime.Prelude.{
  ℕ, zero, suc, ◌+◌, ◌-◌, ◌≤◌, ◌<◌, String, Bool, true, false, not, ◌&&◌, ◌||◌, Option, none, some,
  List, [], ◌∷◌, map, Bytes, ltb, leb, ◌==◌, if◌then◌else◌, is_some, elem_nat,
}
use keylime.Prelude.Int.{ℤ, pos, ◌-ℤ◌, ltb_ℤ, eq_ℤ}
use keylime.Prelude.Dict.{get, put, nat_key}
use keylime.Hash.{Hash, Hashlib, get_start_hash, get_ff_hash}
use keylime.Ima.Keyrings.{ImaKeyrings, no_keyrings}

pub record TpmClockInfo : Type 0 where
  pub clock : ℕ
  pub resetcount : ℕ
  pub restartcount : ℕ
  pub safe : ℕ

-- a dict with the keys "clock", "resetCount", "restartCount" and "safe", any of them missing
pub record ClockDict : Type 0 where
  pub clock : Option ℕ
  pub reset_count : Option ℕ
  pub restart_count : Option ℕ
  pub safe : Option ℕ

abbrev or_else : Option ℕ → ℕ → ℕ
or_else none d = d
or_else (some n) d = n

-- TPMClockInfo.from_dict and to_dict
unfoldable pub clock_from_dict : ClockDict → TpmClockInfo
clock_from_dict d = record {
  clock = or_else d.clock 0;
  resetcount = or_else d.reset_count 0;
  restartcount = or_else d.restart_count 0;
  safe = or_else d.safe 1;
}

unfoldable pub clock_to_dict : TpmClockInfo → ClockDict
clock_to_dict c = record {
  clock = some c.clock;
  reset_count = some c.resetcount;
  restart_count = some c.restartcount;
  safe = some c.safe;
}

-- A PCR that has not been used yet is `none`.
pub record TpmState : Type 0 where
  pub pcrs : List (ℕ × Option Bytes)
  pub hash_alg : List (ℕ × Hash)

-- TPMState.reset_pcr
unfoldable pub reset_pcr : TpmState → ℕ → TpmState
reset_pcr t pcr_num = record t { pcrs = put t.pcrs pcr_num none }

-- TPMState.set_pcr
unfoldable pub set_pcr : TpmState → ℕ → Bytes → TpmState
set_pcr t pcr_num v = record t { pcrs = put t.pcrs pcr_num (some v) }

abbrev join {ℓ} : {A : Type ℓ} → Option (Option A) → Option A
join none = none
join (some o) = o

-- TPMState.get_pcr
unfoldable pub get_pcr : TpmState → ℕ → Option Bytes
get_pcr t pcr_num = join (get t.pcrs pcr_num)

-- TPMState.used_pcr; a PCR of `hash_alg` is always one of `pcrs`
unfoldable pub used_pcr : TpmState → ℕ → Bool
unfolding get_pcr
used_pcr t pcr_num = is_some (get t.hash_alg pcr_num) && is_some (get_pcr t pcr_num)

-- the loop of TPMState.__init__ over range(0, 24)
abbrev reset_below : ℕ → TpmState → TpmState
reset_below zero t = t
reset_below (suc n) t = reset_pcr (reset_below n t) n

unfoldable pub new_tpm_state : TpmState
unfolding reset_pcr
new_tpm_state = reset_below 24 (record { pcrs = []; hash_alg = [] })

module _ (lib : Hashlib) where
  -- the first value of a PCR: those of the dynamic root of trust start with ones
  unfoldable pub initial_pcr : ℕ → Hash → Bytes
  initial_pcr pcr_num h =
      if leb 17 pcr_num && leb pcr_num 23 then get_ff_hash lib h else get_start_hash lib h

  abbrev alg_or : Option Hash → Hash → Hash
  alg_or none h = h
  alg_or (some own) h = own

  abbrev init_value : TpmState → ℕ → Hash → Option (Option Bytes) → Option TpmState
  init_value t pcr_num own none = none
  init_value t pcr_num own (some (some v)) = some t
  init_value t pcr_num own (some none) =
      some (record t { pcrs = put t.pcrs pcr_num (some (initial_pcr pcr_num own)) })

  -- TPMState.init_pcr; `none` is the KeyError of a PCR that is no key of `pcrs`
  unfoldable pub init_pcr : TpmState → ℕ → Hash → Option TpmState
  unfolding initial_pcr
  init_pcr t pcr_num h =
      let own = alg_or (get t.hash_alg pcr_num) h in
      let t' =
        if is_some (get t.hash_alg pcr_num)
        then t
        else record t { hash_alg = put t.hash_alg pcr_num h } in
      init_value t' pcr_num own (get t'.pcrs pcr_num)

pub record AgentAttestState (Pubkey : Type 0) : Type 0 where
  pub agent_id : String
  pub next_ima_ml_entry : ℕ
  pub boottime : ℕ
  pub tpm_clockinfo : TpmClockInfo
  pub tpm_state : TpmState
  pub ima_pcrs : List ℕ
  pub ima_keyrings : ImaKeyrings Pubkey
  pub ima_dm_state : Option Bytes
  pub quote_progress : Option (ℤ × ℕ)

abbrev reset_pcrs : List ℕ → TpmState → TpmState
reset_pcrs [] t = t
reset_pcrs (n ∷ ns) t = reset_pcrs ns (reset_pcr t n)

-- set.add
abbrev add_nat : ℕ → List ℕ → List ℕ
add_nat n l = if elem_nat n l then l else n ∷ l

abbrev set_pcrs : List (ℕ × Bytes) → TpmState → TpmState
set_pcrs [] t = t
set_pcrs ((n, v) ∷ d) t = set_pcrs d (set_pcr t n v)

-- the loop of AgentAttestState.get_ima_pcrs
abbrev pub used_pcrs : TpmState → List ℕ → List (ℕ × Option Bytes)
used_pcrs t [] = []
used_pcrs t (n ∷ ns) =
    let rest = used_pcrs t ns in if used_pcr t n then (n, get_pcr t n) ∷ rest else rest

-- the answer of check_quote_progress, given the previous quote's match and log length
abbrev progress_since : Option (ℤ × ℕ) → ℤ → ℕ → Bool
progress_since none pcr_match_line log_length = true
progress_since (some (prev_match, prev_length)) pcr_match_line log_length =
    let prev_lag = pos prev_length -ℤ prev_match in
    if eq_ℤ pcr_match_line (pos log_length)
    then true
    else if ltb_ℤ (pos 0) prev_lag && ltb_ℤ pcr_match_line prev_lag
    then false
    else true

module _ {Pubkey : Type 0} where
  -- AgentAttestState.reset_ima_attestation
  unfoldable pub reset_ima_attestation : AgentAttestState Pubkey → AgentAttestState Pubkey
  unfolding reset_pcr
  reset_ima_attestation s = record s {
    next_ima_ml_entry = 0;
    tpm_state = reset_pcrs s.ima_pcrs s.tpm_state;
    boottime = 0;
    ima_keyrings = no_keyrings;
    quote_progress = none;
  }

  -- AgentAttestState.__init__
  unfoldable pub new_agent_attest_state : String → AgentAttestState Pubkey
  unfolding reset_ima_attestation new_tpm_state
  new_agent_attest_state agent_id =
      let s : AgentAttestState Pubkey = record {
        agent_id = agent_id;
        next_ima_ml_entry = 0;
        boottime = 0;
        tpm_clockinfo = record { clock = 0; resetcount = 0; restartcount = 0; safe = 1 };
        tpm_state = new_tpm_state;
        ima_pcrs = [];
        ima_keyrings = no_keyrings;
        ima_dm_state = none;
        quote_progress = none;
      } in
      reset_ima_attestation s

  -- AgentAttestState.update_ima_attestation
  unfoldable pub update_ima_attestation :
      AgentAttestState Pubkey → ℕ → Bytes → ℕ → AgentAttestState Pubkey
  unfolding set_pcr
  update_ima_attestation s pcr_num pcr_value num_ml_entries = record s {
    ima_pcrs = add_nat pcr_num s.ima_pcrs;
    tpm_state = set_pcr s.tpm_state pcr_num pcr_value;
    next_ima_ml_entry = s.next_ima_ml_entry + num_ml_entries;
  }

  -- AgentAttestState.get_ima_pcrs
  unfoldable pub get_ima_pcrs : AgentAttestState Pubkey → List (ℕ × Option Bytes)
  unfolding used_pcr
  get_ima_pcrs s = used_pcrs s.tpm_state s.ima_pcrs

  -- AgentAttestState.set_ima_pcrs
  unfoldable pub set_ima_pcrs : AgentAttestState Pubkey → List (ℕ × Bytes) → AgentAttestState Pubkey
  unfolding set_pcr
  set_ima_pcrs s d = record s { tpm_state = set_pcrs d s.tpm_state; ima_pcrs = map (λ p. p.0) d }

  -- AgentAttestState.get_pcr_state: the state with the PCR initialised, and its value
  unfoldable pub get_pcr_state :
      Hashlib → AgentAttestState Pubkey → ℕ → Hash → Option (AgentAttestState Pubkey × Option Bytes)
  unfolding used_pcr init_pcr get_pcr
  get_pcr_state lib s pcr_num h =
      if used_pcr s.tpm_state pcr_num
      then some (s, get_pcr s.tpm_state pcr_num)
      else elim (init_pcr lib s.tpm_state pcr_num h) [
        | none ↦ none
        | some t ↦ some (record s { tpm_state = t }, get_pcr t pcr_num)
      ]

  -- AgentAttestState.is_expected_boottime
  unfoldable pub is_expected_boottime : AgentAttestState Pubkey → ℕ → Bool
  is_expected_boottime s boottime = s.boottime == boottime

  -- AgentAttestState.check_quote_progress
  unfoldable pub check_quote_progress :
      AgentAttestState Pubkey → ℤ → ℕ → AgentAttestState Pubkey × Bool
  check_quote_progress s pcr_match_line log_length = (
    record s { quote_progress = some (pcr_match_line, log_length) },
    progress_since s.quote_progress pcr_match_line log_length,
  )
