-- ===== src/Tpm/Pcrs.antt =====
-- keylime/tpm/tpm_main.py, Tpm.check_pcrs: the PCRs of a quote against the bound data, the IMA
-- measurement list, the boot log and the TPM policy. The measured boot plug-in that
-- keylime/mba/mba.py finds is a parameter, as long as it raises no exception. PCR values are texts of
-- hexadecimal digits, and a loop over a set of PCRs takes them in the order of the quote.
pub mod Accepts
pub mod Sound
use Prim.Native.String.{◌++◌ as ◌+s◌}
use keylime.Prelude.{
  ℕ, zero, suc, ◌+◌, ◌-◌, ◌*◌, ◌/◌, ◌%◌, String, Bool, true, false, not, ◌&&◌, ◌||◌, Option, none,
  some, List, [], ◌∷◌, ◌++◌, Bytes, if◌then◌else◌, bytes_eq, any_of, elem_nat, nonempty, ltb, ◌==◌,
  map,
}
use keylime.Prelude.Int.{ℤ, pos, eq_ℤ}
use keylime.Prelude.Dict.{get, nat_key}
use keylime.Hash.{Hash, Hashlib, hash, get_start_hash}
use keylime.Failure.{Severities, Failure, Component, new_failure, add_event, merge, is_failure}
use keylime.Attest.{AgentAttestState}
use keylime.Ima.Text.{split_all, to_hex, hex_digit}
use keylime.Ima.Policy.{RuntimePolicy, elem_bytes}
use keylime.Ima.Inputs.{ImaEnv, ima_pcr, BootAggregates}
use keylime.Ima.Process.{Outcome, process_measurement_list}

-- config.TPM_DATA_PCR and config.MEASUREDBOOT_PCRS
abbrev pub tpm_data_pcr : ℕ
tpm_data_pcr = 16

abbrev pub measuredboot_pcrs : List ℕ
measuredboot_pcrs = 0 ∷ 1 ∷ 2 ∷ 3 ∷ 4 ∷ 5 ∷ 6 ∷ 7 ∷ 8 ∷ 9 ∷ 11 ∷ 12 ∷ 13 ∷ 14 ∷ 15 ∷ []

-- what the plug-in reads from a boot log
pub record MbLog (Log : Type 0) : Type 0 where
  pub pcrs_hashes : List (ℕ × ℕ)
  pub boot_aggregates : BootAggregates
  pub log : Log
  pub failure : Failure

pub record MbPlugin : Type 1 where
  pub Log : Type 0
  pub bootlog_parse : Option Bytes → Hash → MbLog Log
  pub policy_is_valid : Option Bytes → Bool
  pub bootlog_evaluate : Option Bytes → Log → List ℕ → String → Failure

-- the values of the verifier's option `measured_boot_evaluate`
pub data MbEvaluate : Type 0 where
  once always invalid_evaluate : MbEvaluate

-- The decimal digits of a number. The fuel is the number itself, which is at least the number of its
-- digits less one.
abbrev digit_of : ℕ → List String → String
digit_of n [] = "9"
digit_of zero (s ∷ l) = s
digit_of (suc n) (s ∷ l) = digit_of n l

abbrev digit : ℕ → String
digit n = digit_of n ("0" ∷ "1" ∷ "2" ∷ "3" ∷ "4" ∷ "5" ∷ "6" ∷ "7" ∷ "8" ∷ "9" ∷ [])

abbrev decimal_on : ℕ → ℕ → String
decimal_on zero n = digit n
decimal_on (suc fuel) n = elim (ltb n 10) [
  | true ↦ digit n
  | false ↦ decimal_on fuel (n / 10) +s digit (n % 10)
]

unfoldable pub pcr_event : String → ℕ → String
pcr_event prefix n = prefix +s decimal_on n n

-- hex(n)[2:].lstrip("0"), and text.lstrip("0")
abbrev hex_on : ℕ → ℕ → Bytes
hex_on zero n = []
hex_on (suc fuel) n = elim (n == 0) [
  | true ↦ []
  | false ↦ hex_on fuel (n / 16) ++ hex_digit (n % 16) ∷ []
]

abbrev strip_zeros : Bytes → Bytes
strip_zeros [] = []
strip_zeros (c ∷ s) = let rest = strip_zeros s in if c == b'0' then rest else c ∷ s

unfoldable pub same_number : ℕ → Bytes → Bool
same_number n text = bytes_eq (hex_on n n) (strip_zeros text)

-- Tpm.sim_extend, for the UTF-8 bytes of the text
unfoldable pub sim_extend : Hashlib → Bytes → Hash → Bytes
sim_extend lib d hash_alg =
    to_hex (hash lib hash_alg (get_start_hash lib hash_alg ++ hash lib hash_alg d))

abbrev pub Allowlist : Type 0
Allowlist = List (ℕ × List Bytes)

abbrev pub Pcrs : Type 0
Pcrs = List (ℕ × Bytes)

-- the variables `failure` and `pcrs_in_quote`
pub record Checks : Type 0 where
  pub failure : Failure
  pub pcrs_in_quote : List ℕ

pub record MbChecks : Type 0 where
  pub checks : Checks
  pub mb_pcr_failure : Failure

abbrev bytes_or_empty : Option Bytes → Bytes
bytes_or_empty none = []
bytes_or_empty (some b) = b

abbrev number_or_zero : Option ℕ → ℕ
number_or_zero none = 0
number_or_zero (some k) = k

-- a PCR that the allowlist does not name may have any value
abbrev pub allowed_value : Option (List Bytes) → Bytes → Bool
allowed_value none value = true
allowed_value (some values) value = elem_bytes value values

-- the entries of the quote for PCRs that have not been used yet
abbrev unused : List ℕ → Pcrs → Pcrs
unused used [] = []
unused used ((n, v) ∷ pcrs) =
    let rest = unused used pcrs in if elem_nat n used then rest else (n, v) ∷ rest

abbrev missing_keys : List ℕ → Allowlist → List ℕ
missing_keys used [] = []
missing_keys used ((n, l) ∷ allowlist) =
    let rest = missing_keys used allowlist in if elem_nat n used then rest else n ∷ rest

module _ (sev : Severities) where
  abbrev event : Failure → String → Failure
  event f event_id = add_event sev f event_id true none

  unfoldable pub check_data_pcr : Hashlib → Hash → Option Bytes → Option Bytes → Failure → Checks
  unfolding pcr_event sim_extend
  check_data_pcr lib hash_alg (some value) (some d) failure = record {
    failure =
        if not (bytes_eq (sim_extend lib d hash_alg) value)
        then event failure (pcr_event "invalid_pcr_" tpm_data_pcr)
        else failure;
    pcrs_in_quote = tpm_data_pcr ∷ [];
  }
  check_data_pcr lib hash_alg _ _ failure = record {
    failure = event failure (pcr_event "missing_pcr_" tpm_data_pcr);
    pcrs_in_quote = [];
  }

  -- one measured boot PCR of the quote
  unfoldable pub mb_step :
      Bool → Option Bytes → List (ℕ × ℕ) → Allowlist → MbChecks → ℕ → Bytes → MbChecks
  unfolding pcr_event same_number
  mb_step valid mb_list hashes allowlist c n value =
      if not valid
      then c
      else if not (nonempty (bytes_or_empty mb_list))
      then record c {
        checks = record c.checks { failure = event c.checks.failure (pcr_event "unused_pcr_" n) };
      }
      else record {
        mb_pcr_failure =
            if not (same_number (number_or_zero (get hashes n)) value)
            then event c.mb_pcr_failure (pcr_event "invalid_pcr_" n)
            else c.mb_pcr_failure;
        checks = record {
          failure =
              if not (allowed_value (get allowlist n) value)
              then event c.checks.failure (pcr_event "invalid_pcr_" n)
              else c.checks.failure;
          pcrs_in_quote = n ∷ c.checks.pcrs_in_quote;
        };
      }

  unfoldable pub mb_loop :
      Bool → Option Bytes → List (ℕ × ℕ) → Allowlist → MbChecks → Pcrs → MbChecks
  unfolding mb_step
  mb_loop valid mb_list hashes allowlist c [] = c
  mb_loop valid mb_list hashes allowlist c ((n, value) ∷ pcrs) =
      mb_loop valid mb_list hashes allowlist
        (if elem_nat n measuredboot_pcrs
          then mb_step valid mb_list hashes allowlist c n value
          else c)
        pcrs

  -- the measured boot PCRs, unless the boot log could not be parsed
  unfoldable pub check_mb_pcrs :
      Bool → Bool → Option Bytes → List (ℕ × ℕ) → Allowlist → Pcrs → Checks → Checks
  unfolding mb_loop
  check_mb_pcrs mb_failed valid mb_list hashes allowlist pcrs c =
      let start : MbChecks = record {
        checks = c;
        mb_pcr_failure = new_failure Component.measured_boot none;
      } in
      let end = if mb_failed then start else mb_loop valid mb_list hashes allowlist start pcrs in
      record end.checks { failure = merge end.checks.failure end.mb_pcr_failure }

  abbrev rest_step : Option (List Bytes) → Checks → ℕ → Bytes → Checks
  rest_step none c n value = c
  rest_step (some values) c n value = record {
    failure =
        if not (elem_bytes value values)
        then event c.failure (pcr_event "invalid_pcr_" n)
        else c.failure;
    pcrs_in_quote = n ∷ c.pcrs_in_quote;
  }

  -- the PCRs that no other check has used
  unfoldable pub check_rest : Allowlist → Checks → Pcrs → Checks
  unfolding pcr_event
  check_rest allowlist c [] = c
  check_rest allowlist c ((n, value) ∷ pcrs) =
      check_rest allowlist (rest_step (get allowlist n) c n value) pcrs

  unfoldable pub check_missing : Allowlist → Checks → Checks
  check_missing allowlist c =
      if nonempty (missing_keys c.pcrs_in_quote allowlist)
      then record c { failure = event c.failure "missing_pcrs" }
      else c

module _ {Pubkey : Type 0} (env : ImaEnv Pubkey) (plugin : MbPlugin) (evaluate : MbEvaluate) where
  open env use {lib, severities}
  open plugin use {Log, bootlog_parse, policy_is_valid, bootlog_evaluate}

  abbrev merge_ima : Checks → Outcome Pubkey → AgentAttestState Pubkey × Option Checks
  merge_ima c (a, none) = (a, none)
  merge_ima c (a, some (h, ima_failure)) = (
    a,
    some (record {
      failure = merge c.failure (merge (new_failure Component.ima none) ima_failure);
      pcrs_in_quote = ima_pcr ∷ c.pcrs_in_quote;
    }),
  )

  -- the IMA PCR, with __check_ima
  unfoldable pub check_ima_pcr :
      AgentAttestState Pubkey
      → Option Bytes
      → Option Bytes
      → Option RuntimePolicy
      → BootAggregates
      → Hash
      → Checks
      → AgentAttestState Pubkey × Option Checks
  unfolding pcr_event
  check_ima_pcr a none ml policy aggregates hash_alg c = (a, some c)
  check_ima_pcr a (some value) none policy aggregates hash_alg c = (
    a,
    some (record {
      failure = event severities c.failure (pcr_event "unused_pcr_" ima_pcr);
      pcrs_in_quote = ima_pcr ∷ c.pcrs_in_quote;
    }),
  )
  check_ima_pcr a (some value) (some ml) policy aggregates hash_alg c =
      merge_ima c (
        process_measurement_list env a (split_all b'\n' ml) hash_alg policy (some value) aggregates)

  -- the evaluation of the boot log against the measured boot policy
  unfoldable pub evaluate_bootlog : Bool → Option Bytes → Log → ℤ → String → Checks → Failure
  evaluate_bootlog mb_failed mb_policy log count agent_id c =
      let evaluated = merge c.failure (bootlog_evaluate mb_policy log c.pcrs_in_quote agent_id) in
      if mb_failed || not (policy_is_valid mb_policy) then c.failure else elim evaluate [
        | invalid_evaluate ↦ event severities c.failure "invalid_measured_boot_evaluate"
        | always ↦ evaluated
        | once ↦ if eq_ℤ count (pos 0) then evaluated else c.failure
      ]

  -- from the measured boot PCRs to the end
  unfoldable pub check_after_ima :
      Allowlist → Pcrs → Option Bytes → Option Bytes → MbLog Log → ℤ → String → Checks → Failure
  unfolding check_mb_pcrs check_rest check_missing evaluate_bootlog
  check_after_ima allowlist pcrs mb_list mb_policy mb count agent_id c =
      let mb_failed = is_failure mb.failure in
      let booted =
        check_mb_pcrs severities mb_failed (policy_is_valid mb_policy) mb_list mb.pcrs_hashes
          allowlist pcrs c in
      let rest = check_rest severities allowlist booted (unused booted.pcrs_in_quote pcrs) in
      evaluate_bootlog mb_failed mb_policy mb.log count agent_id
        (check_missing severities allowlist rest)

  abbrev finish :
      (Checks → Failure)
      → AgentAttestState Pubkey × Option Checks
      → AgentAttestState Pubkey × Option Failure
  finish f (a, none) = (a, none)
  finish f (a, some c) = (a, some (f c))

  -- Tpm.check_pcrs; `allowlist` is the TPM policy without its mask
  unfoldable pub check_pcrs :
      AgentAttestState Pubkey
      → Allowlist
      → Pcrs
      → Option Bytes
      → Option Bytes
      → Option RuntimePolicy
      → Option Bytes
      → Option Bytes
      → Hash
      → ℤ
      → AgentAttestState Pubkey × Option Failure
  unfolding check_data_pcr check_ima_pcr check_after_ima
  check_pcrs a allowlist pcrs d ima_list policy mb_list mb_policy hash_alg count =
      let mb = bootlog_parse mb_list hash_alg in
      let bound =
        check_data_pcr severities lib hash_alg (get pcrs tpm_data_pcr) d
          (merge (new_failure Component.pcr_validation none) mb.failure) in
      finish (check_after_ima allowlist pcrs mb_list mb_policy mb count a.agent_id)
        (check_ima_pcr a (get pcrs ima_pcr) ima_list policy mb.boot_aggregates hash_alg bound)
