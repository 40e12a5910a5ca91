-- ===== src/Ima/Process.antt =====
-- keylime/ima/ima.py, process_measurement_list: replaying the lines of a measurement list from the
-- state that the last quote left, and validating each of them. The verifier passes the keyrings of
-- the agent's own state, which learn keys while the list is read. An exception leaves the state as
-- it has been changed so far; the count of errors per mode only feeds the log and is left out.
pub mod Replay
pub mod Scanned
pub mod Sound
use keylime.Prelude.{
  ℕ, suc, ◌+◌, Bool, true, false, not, ◌&&◌, ◌||◌, Option, none, some, List, [], ◌∷◌, ◌++◌, Bytes,
  if◌then◌else◌, codes, bytes_eq, is_some, any_of, ◌==◌, nonempty,
}
use keylime.Prelude.Int.{ℤ, pos, negsuc}
use keylime.Prelude.Dict.{get, put, bytes_key}
use keylime.Regex.{Regex}
use keylime.Hash.{Hash, Hashlib, hash, sha1, sha256, sha384, sha512}
use keylime.Failure.{Severities, Failure, Component, new_failure, add_event, merge, is_failure}
use keylime.Attest.{
  AgentAttestState, get_pcr_state, update_ima_attestation, check_quote_progress,
  reset_ima_attestation,
}
use keylime.Ima.Keyrings.{Crypto, ImaKeyrings, Loaders}
use keylime.Ima.Text.{from_hex, to_hex}
use keylime.Ima.Ast.{Problem, parser_error, struct_error, Parsed, ok, err}
use keylime.Ima.Ast.Entry.{Entry, new_entry, invalid}
use keylime.Ima.Policy.{RuntimePolicy, elem_bytes, validate_mode, valid_exclude_list}
use keylime.Ima.Inputs.{
  BootAggregates, ImaEnv, excludes_of, ima_pcr, log_hash_alg_of, policy_with, strip_newlines,
}

-- the variables of the loop over the lines
pub record Scan (Pubkey : Type 0) : Type 0 where
  pub agent : AgentAttestState Pubkey
  pub failure : Failure
  pub running_hash : Bytes
  pub found_pcr : Bool
  pub pcr_match_line : ℤ
  pub log_length : ℕ

-- the loop goes on, or an exception leaves it with the agent's state as it is then
pub data Step (Pubkey : Type 0) : Type 0 where
  goes_on : Scan Pubkey → Step Pubkey
  raises : AgentAttestState Pubkey → Step Pubkey

abbrev pub resume : {Pubkey : Type 0} → Step Pubkey → (Scan Pubkey → Step Pubkey) → Step Pubkey
resume (goes_on s) f = f s
resume (raises a) f = raises a

abbrev keyrings_or :
    {Pubkey : Type 0} → Option (ImaKeyrings Pubkey) → ImaKeyrings Pubkey → ImaKeyrings Pubkey
keyrings_or none k = k
keyrings_or (some k') k = k'

module _ {Pubkey : Type 0} (env : ImaEnv Pubkey) (policy : Option RuntimePolicy) where
  open env use {lib, severities, re, crypto, loaders, ignore_tomtou_errors}

  -- the entry's own checks, and the validation of its mode with the agent's keyrings
  unfoldable pub check_entry : Entry → ImaKeyrings Pubkey → Failure × Option (ImaKeyrings Pubkey)
  check_entry e k =
      invalid lib severities (log_hash_alg_of policy) ignore_tomtou_errors
        (some (
          validate_mode re crypto loaders severities (valid_exclude_list re (excludes_of policy)).0
            policy))
        e (some k)

module _ {Pubkey : Type 0} (env : ImaEnv Pubkey) (hash_alg : Hash) (policy : Option RuntimePolicy)
    (pcrval_bytes : Bytes) where
  open env use {lib, severities, int_of_text}

  -- the quoted value is reached: the match is remembered
  abbrev remember : Scan Pubkey → ℕ → Option ℕ → Step Pubkey
  remember s linenum none = raises s.agent
  remember s linenum (some pcr) = goes_on (record s {
    found_pcr = true;
    pcr_match_line = pos (linenum + 1);
    agent = update_ima_attestation s.agent pcr s.running_hash (linenum + 1);
  })

  -- the running hash and the validation of one line that parses
  unfoldable pub after_entry : Scan Pubkey → Entry → Scan Pubkey
  after_entry s e =
      let (validation_failure, k) = check_entry env policy e s.agent.ima_keyrings in
      record s {
        running_hash = hash lib hash_alg (s.running_hash ++ e.pcr_template_hash);
        agent = record s.agent { ima_keyrings = keyrings_or k s.agent.ima_keyrings };
        failure =
            if is_failure validation_failure then merge s.failure validation_failure else s.failure;
      }

  -- and the comparison with the quoted value, unless that has been found before
  unfoldable pub step_entry : Scan Pubkey → ℕ → Entry → Step Pubkey
  unfolding after_entry
  step_entry s linenum e =
      let s' = after_entry s e in
      if not s.found_pcr && bytes_eq s'.running_hash pcrval_bytes
      then remember s' linenum (int_of_text e.pcr)
      else goes_on s'

  abbrev step_parsed : Scan Pubkey → ℕ → Parsed Entry → Step Pubkey
  step_parsed s linenum (ok e) = step_entry s linenum e
  step_parsed s linenum (err struct_error) = raises s.agent
  step_parsed s linenum (err parser_error) =
      goes_on
        (record s { failure = add_event severities s.failure "entry" true (some ("parser" ∷ [])) })

  -- the body of the loop, for the line with the number `linenum`, counted from 0
  unfoldable pub step_line : Scan Pubkey → ℕ → Bytes → Step Pubkey
  unfolding step_entry
  step_line s linenum raw =
      let line = strip_newlines raw in
      if not (nonempty line)
      then goes_on s
      else step_parsed (record s { log_length = s.log_length + 1 }) linenum
          (new_entry lib (log_hash_alg_of policy) hash_alg line)

  unfoldable pub scan : Scan Pubkey → ℕ → List Bytes → Step Pubkey
  scan s linenum [] = goes_on s
  scan s linenum (line ∷ lines) =
      resume (step_line s linenum line) (λ s'. scan s' (suc linenum) lines)

-- A result, or `none` for an exception, with the agent's state after it.
abbrev pub Outcome : Type 0 → Type 0
Outcome Pubkey = AgentAttestState Pubkey × Option (Bytes × Failure)

module _ {Pubkey : Type 0} (env : ImaEnv Pubkey) where
  open env use {lib, severities}

  -- after the loop: the quoted value must have been found, and the quote must make progress
  unfoldable pub conclude : Step Pubkey → Outcome Pubkey
  conclude (raises a) = (a, none)
  conclude (goes_on s) =
      if not s.found_pcr
      then (
        s.agent,
        some (to_hex s.running_hash, add_event severities s.failure "pcr_mismatch" true none),
      )
      else (let (a, progress) = check_quote_progress s.agent s.pcr_match_line s.log_length in
          (
            a,
            some (
              to_hex s.running_hash,
              if not progress
                  then add_event severities s.failure "quote_progress" true none
                  else s.failure,
            ),
          ))

  abbrev pub first_scan : AgentAttestState Pubkey → Bytes → Option Bytes → Scan Pubkey
  first_scan a running none = record {
    agent = a;
    failure = new_failure Component.ima none;
    running_hash = running;
    found_pcr = true;
    pcr_match_line = negsuc 0;
    log_length = 0;
  }
  first_scan a running (some pcrval_bytes) = record {
    agent = a;
    failure = new_failure Component.ima none;
    running_hash = running;
    found_pcr = bytes_eq running pcrval_bytes;
    pcr_match_line = pos 0;
    log_length = 0;
  }

  abbrev bytes_or_empty : Option Bytes → Bytes
  bytes_or_empty none = []
  bytes_or_empty (some v) = v

  -- the rest of the function once the PCR's state and the quoted value have been read
  unfoldable pub replay_from :
      Hash
      → Option RuntimePolicy
      → List Bytes
      → AgentAttestState Pubkey
      → Bytes
      → Option Bytes
      → Outcome Pubkey
  unfolding conclude
  replay_from hash_alg policy lines a running pcrval =
      conclude
        (scan env hash_alg policy (bytes_or_empty pcrval) (first_scan a running pcrval) 0 lines)

  -- `bytes.fromhex(pcrval)`; the outer `none` is a ValueError
  abbrev read_pcrval : Option Bytes → Option (Option Bytes)
  read_pcrval none = some none
  read_pcrval (some v) = elim (from_hex v) [ none ↦ none | some b ↦ some (some b) ]

  abbrev start_replay :
      Hash
      → Option RuntimePolicy
      → List Bytes
      → AgentAttestState Pubkey
      → Option Bytes
      → Option (Option Bytes)
      → Outcome Pubkey
  start_replay hash_alg policy lines a none pcrval = (a, none)
  start_replay hash_alg policy lines a (some []) pcrval = (a, none)
  start_replay hash_alg policy lines a (some (c ∷ running)) none = (a, none)
  start_replay hash_alg policy lines a (some (c ∷ running)) (some pcrval) =
      replay_from hash_alg policy lines a (c ∷ running) pcrval

  abbrev enter :
      Hash
      → Option RuntimePolicy
      → List Bytes
      → Option Bytes
      → AgentAttestState Pubkey
      → Option (AgentAttestState Pubkey × Option Bytes)
      → Outcome Pubkey
  enter hash_alg policy lines pcrval a none = (a, none)
  enter hash_alg policy lines pcrval a (some (a', running)) =
      start_replay hash_alg policy lines a' running (read_pcrval pcrval)

  -- _process_measurement_list
  unfoldable pub process_measurement_list_inner :
      AgentAttestState Pubkey
      → List Bytes
      → Hash
      → Option RuntimePolicy
      → Option Bytes
      → BootAggregates
      → Outcome Pubkey
  unfolding replay_from
  process_measurement_list_inner a lines hash_alg policy pcrval boot_aggregates =
      enter hash_alg (policy_with boot_aggregates policy) lines pcrval a
        (get_pcr_state lib a ima_pcr hash_alg)

  -- the `finally` of process_measurement_list: a failure makes the next quote start anew
  abbrev reset_on_failure : Outcome Pubkey → Outcome Pubkey
  reset_on_failure (a, none) = (a, none)
  reset_on_failure (a, some (h, failure)) =
      (if is_failure failure then reset_ima_attestation a else a, some (h, failure))

  -- process_measurement_list
  unfoldable pub process_measurement_list :
      AgentAttestState Pubkey
      → List Bytes
      → Hash
      → Option RuntimePolicy
      → Option Bytes
      → BootAggregates
      → Outcome Pubkey
  unfolding process_measurement_list_inner
  process_measurement_list a lines hash_alg policy pcrval boot_aggregates =
      reset_on_failure
        (process_measurement_list_inner a lines hash_alg policy pcrval boot_aggregates)
