-- ===== src/Tpm/Quote.antt =====
-- keylime/tpm/tpm_main.py, Tpm.check_quote: the signature of a quote, its clock and its PCRs, in this
-- order. The cryptographic check and the reading of the clock are the record `QuoteReader`.
use keylime.Prelude.{
  ◌≡◌, refl, Bool, true, false, not, Option, none, some, [], Bytes, if◌then◌else◌, codes, arith,
}
use keylime.Prelude.Int.{ℤ}
use keylime.Hash.{Hash}
use keylime.Failure.{Failure, Component, new_failure, add_event, is_failure}
use keylime.Failure.Truth.{is_failure-add_event}
use keylime.Attest.{AgentAttestState, TpmClockInfo, ClockDict, clock_from_dict}
use keylime.Ima.Policy.{RuntimePolicy}
use keylime.Ima.Inputs.{ImaEnv}
use keylime.Tpm.Timing.{ClockFault, check_quote_timing, Follows, timing_iff_Follows}
use keylime.Tpm.Pcrs.{Allowlist, Pcrs, MbPlugin, MbEvaluate, check_pcrs}

-- `checkquote` takes the AIK, the quote, the nonce, the hash algorithm and whether the quote is
-- compressed, and gives the quoted PCRs, or `none` for an error.
pub record QuoteReader : Type 1 where
  pub Quote : Type 0
  pub checkquote : Bytes → Quote → Bytes → Hash → Bool → Option Pcrs
  pub clock_info_from_quote : Quote → Bool → Option ClockDict

-- ima.EMPTY_RUNTIME_POLICY as it is declared: what earlier calls have added to the one object is not
-- modelled
abbrev pub empty_runtime_policy : RuntimePolicy
empty_runtime_policy = record {
  digests = [];
  excludes = [];
  keyrings = [];
  ignored_keyrings = [];
  log_hash_alg = codes "sha1";
  ima_buf = [];
  verification_keys = [];
}

-- the arguments of check_quote, but for the agent's state; a missing TPM policy allows everything
pub record QuoteRequest (Quote : Type 0) : Type 0 where
  pub nonce : Bytes
  pub bind_data : Option Bytes
  pub quote : Quote
  pub aik_tpm : Bytes
  pub tpm_policy : Option Allowlist
  pub ima_measurement_list : Option Bytes
  pub runtime_policy : Option RuntimePolicy
  pub hash_alg : Hash
  pub mb_measurement_list : Option Bytes
  pub mb_policy : Option Bytes
  pub compressed : Bool
  pub count : ℤ
  pub skip_pcr_check : Bool
  pub skip_clock_check : Bool

abbrev pub policy_or_empty : Option RuntimePolicy → RuntimePolicy
policy_or_empty none = empty_runtime_policy
policy_or_empty (some p) = p

abbrev pub allowlist_or_empty : Option Allowlist → Allowlist
allowlist_or_empty none = []
allowlist_or_empty (some l) = l

module _ {Pubkey : Type 0} (env : ImaEnv Pubkey) (plugin : MbPlugin) (evaluate : MbEvaluate)
    (reader : QuoteReader) where
  open env use {severities}
  open reader use {Quote, checkquote, clock_info_from_quote}

  abbrev pub Answer : Type 0
  Answer = AgentAttestState Pubkey × Option Failure

  abbrev fresh : Failure
  fresh = new_failure Component.quote_validation none

  -- the failure that ends the check at once
  abbrev refused : Failure
  refused = add_event severities fresh "quote_validation" false none

  abbrev check_pcrs_of : QuoteRequest Quote → Pcrs → AgentAttestState Pubkey → Answer
  check_pcrs_of r pcrs a =
      check_pcrs env plugin evaluate a (allowlist_or_empty r.tpm_policy) pcrs r.bind_data
        r.ima_measurement_list (some (policy_or_empty r.runtime_policy)) r.mb_measurement_list
        r.mb_policy r.hash_alg r.count

  abbrev then_pcrs : QuoteRequest Quote → Pcrs → AgentAttestState Pubkey → Answer
  then_pcrs r pcrs a = if not r.skip_pcr_check then check_pcrs_of r pcrs a else (a, some fresh)

  abbrev after_clock :
      QuoteRequest Quote
      → Pcrs
      → AgentAttestState Pubkey
      → Option ClockFault × Option TpmClockInfo
      → Answer
  after_clock r pcrs a (some fault, kept) = (a, some refused)
  after_clock r pcrs a (none, none) = then_pcrs r pcrs a
  after_clock r pcrs a (none, some clock) = then_pcrs r pcrs (record a { tpm_clockinfo = clock })

  abbrev after_signature : QuoteRequest Quote → AgentAttestState Pubkey → Option Pcrs → Answer
  after_signature r a none = (a, some refused)
  after_signature r a (some pcrs) =
      if not r.skip_clock_check
      then after_clock r pcrs a
          (check_quote_timing a.tpm_clockinfo (clock_info_from_quote r.quote r.compressed))
      else then_pcrs r pcrs a

  -- Tpm.check_quote
  unfoldable pub check_quote : AgentAttestState Pubkey → QuoteRequest Quote → Answer
  unfolding check_pcrs check_quote_timing
  check_quote a r =
      after_signature r a (checkquote r.aik_tpm r.quote r.nonce r.hash_alg r.compressed)

  refused_fails : is_failure refused ≡ true
  refused_fails = is_failure-add_event severities fresh "quote_validation" false none

  after_clock-clean :
      (r : QuoteRequest Quote) (pcrs : Pcrs) (a a' : AgentAttestState Pubkey)
      (t : Option ClockFault × Option TpmClockInfo) (failure : Failure)
      → after_clock r pcrs a t ≡ (a', some failure)
      → is_failure failure ≡ false
      → r.skip_pcr_check ≡ false
      → (t.0 ≡ none)
        × ((kept : TpmClockInfo) × (check_pcrs_of r pcrs (record a { tpm_clockinfo = kept })
              ≡ (a', some failure)))
  after_clock-clean r pcrs a a' (some fault, kept) failure h e s = ground (arith, refused_fails)
  after_clock-clean r pcrs a a' (none, none) failure h e s = (refl, (a.tpm_clockinfo, ground arith))
  after_clock-clean r pcrs a a' (none, some clock) failure h e s = (refl, (clock, ground arith))

  -- A quote is accepted, with no check skipped, only if its signature is good for the nonce and the
  -- agent's key, its clock follows that of the last quote, and its PCRs, those that the signature
  -- covers, are accepted.
  pub accepted_quote_is_checked :
      (a a' : AgentAttestState Pubkey) (r : QuoteRequest Quote) (failure : Failure)
      → r.skip_clock_check ≡ false
      → r.skip_pcr_check ≡ false
      → check_quote a r ≡ (a', some failure)
      → is_failure failure ≡ false
      → (pcrs : Pcrs) × (d : ClockDict) × (kept : TpmClockInfo) × (checkquote r.aik_tpm r.quote
            r.nonce r.hash_alg r.compressed
          ≡ some pcrs)
        × (clock_info_from_quote r.quote r.compressed ≡ some d)
        × Follows a.tpm_clockinfo (clock_from_dict d)
        × (check_pcrs_of r pcrs (record a { tpm_clockinfo = kept }) ≡ (a', some failure))
  unfolding check_quote
  accepted_quote_is_checked a a' r failure sc sp h e =
      signed (checkquote r.aik_tpm r.quote r.nonce r.hash_alg r.compressed) refl h
    where
      timed :
          (pcrs : Pcrs) (c : Option ClockDict)
          → clock_info_from_quote r.quote r.compressed ≡ c
          → after_clock r pcrs a (check_quote_timing a.tpm_clockinfo c) ≡ (a', some failure)
          → (d : ClockDict) × (kept : TpmClockInfo) × (clock_info_from_quote r.quote r.compressed
              ≡ some d)
            × Follows a.tpm_clockinfo (clock_from_dict d)
            × (check_pcrs_of r pcrs (record a { tpm_clockinfo = kept }) ≡ (a', some failure))
      timed pcrs none read g = unfold check_quote_timing in ground (arith, refused_fails)
      timed pcrs (some d) read g =
          let (passes, (kept, checked)) =
            after_clock-clean r pcrs a a' (check_quote_timing a.tpm_clockinfo (some d)) failure g e
              sp in
          (d, kept, read, (timing_iff_Follows a.tpm_clockinfo d).0.0 passes, checked)

      signed :
          (o : Option Pcrs)
          → checkquote r.aik_tpm r.quote r.nonce r.hash_alg r.compressed ≡ o
          → after_signature r a o ≡ (a', some failure)
          → (pcrs : Pcrs) × (d : ClockDict) × (kept : TpmClockInfo) × (checkquote r.aik_tpm r.quote
                r.nonce r.hash_alg r.compressed
              ≡ some pcrs)
            × (clock_info_from_quote r.quote r.compressed ≡ some d)
            × Follows a.tpm_clockinfo (clock_from_dict d)
            × (check_pcrs_of r pcrs (record a { tpm_clockinfo = kept }) ≡ (a', some failure))
      signed none same g = ground (arith, refused_fails)
      signed (some pcrs) same g =
          let (d, kept, read, follows, checked) =
            timed pcrs (clock_info_from_quote r.quote r.compressed) refl (ground arith) in
          (pcrs, d, kept, same, read, follows, checked)
