-- ===== src/Verifier/Response.antt =====
-- keylime/cloud_verifier_common.py, process_quote_response: the agent's answer to a request for a
-- quote. The log entry and the boot time are numbers, since the source raises an exception for other
-- values; missing texts of the agent's dict are empty. `keyring_of` is ImaKeyring.from_string.
pub mod Counted
pub mod Clean
pub mod Current
use keylime.Prelude.{
  ℕ, suc, ◌+◌, ◌≡◌, refl, ap, ◌⊎◌, inl, inr, Bool, true, false, not, ◌&&◌, ◌||◌, Option, none, some,
  List, [], ◌∷◌, arith, Bytes, String, str_eq, if◌then◌else◌, bytes_eq, nonempty, ◌==◌, Bool-cases,
  is_some,
}
use keylime.Prelude.Int.{ℤ, pos}
use keylime.Hash.{Hash, Hashlib, hash_of_value, is_accepted, is_recognized}
use keylime.Failure.{Failure, Component, new_failure, add_event, merge, is_failure}
use keylime.Failure.Truth.{is_failure-merge, is_failure-add_event}
use keylime.Attest.{
  AgentAttestState, ClockDict, clock_from_dict, clock_to_dict, reset_ima_attestation,
  is_expected_boottime,
}
use keylime.Ima.Keyrings.{ImaKeyring, set_tenant_keyring}
use keylime.Ima.Policy.{RuntimePolicy}
use keylime.Ima.Inputs.{ImaEnv}
use keylime.Tpm.Pcrs.{Allowlist, MbPlugin, MbEvaluate}
use keylime.Tpm.Quote.{QuoteReader, QuoteRequest, check_quote}

-- the fields of the agent's dict that process_quote_response reads or writes
pub record QuotedAgent : Type 0 where
  pub public_key : Bytes
  pub v : Bytes
  pub b64_encrypted_v : Bytes
  pub should_provide_v : Bool
  pub nonce : Bytes
  pub ak_tpm : Bytes
  pub tpm_policy : Option Allowlist
  pub compressed : Bool
  pub accept_tpm_hash_algs : List String
  pub accept_tpm_encryption_algs : List String
  pub accept_tpm_signing_algs : List String
  pub hash_alg : String
  pub enc_alg : String
  pub sign_alg : String
  pub ima_sign_verification_keys : Bytes
  pub tpm_clockinfo : Option ClockDict
  pub attestation_count : ℕ
  pub last_received_quote : ℕ
  pub last_successful_attestation : ℕ

pub record Response (Quote : Type 0) : Type 0 where
  pub pubkey : Option Bytes
  pub quote : Option Quote
  pub ima_measurement_list : Option Bytes
  pub ima_measurement_list_entry : ℕ
  pub mb_measurement_list : Option Bytes
  pub boottime : ℕ
  pub hash_alg : Option String
  pub enc_alg : Option String
  pub sign_alg : Option String

-- `alg and algorithms.is_accepted(alg, accepted)`
abbrev pub accepted_alg : Option String → List String → Bool
accepted_alg none accepted = false
accepted_alg (some alg) accepted = not (str_eq alg "") && is_accepted alg accepted

abbrev text_or_empty : Option String → String
text_or_empty none = ""
text_or_empty (some s) = s

module _ {Pubkey : Type 0} (env : ImaEnv Pubkey) (plugin : MbPlugin) (evaluate : MbEvaluate)
    (reader : QuoteReader) (keyring_of : Bytes → Option (ImaKeyring Pubkey)) (now : ℕ)
    (mb_policy : Option Bytes) (policy : RuntimePolicy) where
  open env use {lib, severities}
  open reader use {Quote}

  -- the agent's dict, its state, and the failure or an exception
  abbrev pub Processed : Type 0
  Processed = QuotedAgent × AgentAttestState Pubkey × Option Failure

  abbrev fatal : Failure → String → Failure
  fatal f event_id = add_event severities f event_id false none

  -- after the check of the quote
  abbrev record_success : QuotedAgent → AgentAttestState Pubkey → Bytes → QuotedAgent
  record_success g a key =
      let h : QuotedAgent = record g {
        attestation_count = g.attestation_count + 1;
        last_successful_attestation = now;
        tpm_clockinfo = some (clock_to_dict a.tpm_clockinfo);
      } in
      if not (bytes_eq key g.public_key)
      then record h { public_key = key; b64_encrypted_v = []; should_provide_v = true }
      else h

  abbrev conclude_quote :
      QuotedAgent → Bytes → Failure → AgentAttestState Pubkey × Option Failure → Processed
  conclude_quote g key f (a, none) = (g, a, none)
  conclude_quote g key f (a, some quote_failure) =
      let merged = merge f quote_failure in
      let seen : QuotedAgent = record g { last_received_quote = now } in
      (if not (is_failure merged) then record_success seen a key else seen, a, some merged)

  abbrev clock_or : Option ClockDict → AgentAttestState Pubkey → AgentAttestState Pubkey
  clock_or none a = a
  clock_or (some d) a = record a { tpm_clockinfo = clock_from_dict d }

  -- what the state is given before the check of the quote
  unfoldable pub prepare_state :
      QuotedAgent → Response Quote → AgentAttestState Pubkey → AgentAttestState Pubkey
  unfolding clock_from_dict set_tenant_keyring
  prepare_state g r a =
      let key_text =
        if nonempty g.ima_sign_verification_keys
        then g.ima_sign_verification_keys
        else policy.verification_keys in
      clock_or g.tpm_clockinfo (record a {
        boottime = r.boottime;
        ima_keyrings = set_tenant_keyring a.ima_keyrings (keyring_of key_text);
      })

  abbrev pub request_of : QuotedAgent → Response Quote → Quote → Bytes → Hash → QuoteRequest Quote
  request_of g r quote key h = record {
    nonce = g.nonce;
    bind_data = some key;
    quote = quote;
    aik_tpm = g.ak_tpm;
    tpm_policy = g.tpm_policy;
    ima_measurement_list = r.ima_measurement_list;
    runtime_policy = some policy;
    hash_alg = h;
    mb_measurement_list = r.mb_measurement_list;
    mb_policy = mb_policy;
    compressed = g.compressed;
    count = pos g.attestation_count;
    skip_pcr_check = false;
    skip_clock_check = false;
  }

  abbrev verify :
      QuotedAgent
      → Response Quote
      → Quote
      → Bytes
      → Hash
      → Failure
      → AgentAttestState Pubkey
      → Processed
  verify g r quote key h f a =
      conclude_quote g key f
        (check_quote env plugin evaluate reader (prepare_state g r a) (request_of g r quote key h))

  -- where the agent's log starts: at 0, where it was asked to, or elsewhere
  unfoldable pub check_start :
      QuotedAgent
      → Response Quote
      → Quote
      → Bytes
      → Hash
      → Failure
      → AgentAttestState Pubkey
      → Processed
  unfolding reset_ima_attestation is_expected_boottime check_quote prepare_state
  check_start g r quote key h f a =
      if r.ima_measurement_list_entry == 0
      then verify g r quote key h f (reset_ima_attestation a)
      else if not (r.ima_measurement_list_entry == a.next_ima_ml_entry)
      then verify g r quote key h (fatal f "invalid_ima_entry_nb") a
      else if not (is_expected_boottime a r.boottime)
      then (g, reset_ima_attestation a, some f)
      else verify g r quote key h f a

  -- the hash, encryption and signing algorithms; the last two stand in the dict once accepted
  abbrev check_algs :
      QuotedAgent
      → Response Quote
      → Quote
      → Bytes
      → Option Hash
      → Failure
      → AgentAttestState Pubkey
      → Processed
  check_algs g r quote key none f a = (g, a, some (fatal f "invalid_hash_alg"))
  check_algs g r quote key (some h) f a =
      let g1 : QuotedAgent = record g { hash_alg = text_or_empty r.hash_alg } in
      let g2 : QuotedAgent = record g1 { enc_alg = text_or_empty r.enc_alg } in
      let g3 : QuotedAgent = record g2 { sign_alg = text_or_empty r.sign_alg } in
      if not (accepted_alg r.enc_alg g.accept_tpm_encryption_algs)
      then (g1, a, some (fatal f "invalid_enc_alg"))
      else if not (accepted_alg r.sign_alg g.accept_tpm_signing_algs)
      then (g2, a, some (fatal f "invalid_sign_alg"))
      else check_start g3 r quote key h f a

  -- the hash algorithm of the quote, if it is accepted and recognized
  abbrev pub usable_hash : Option String → List String → Option Hash
  usable_hash none accepted = none
  usable_hash (some alg) accepted =
      if accepted_alg (some alg) accepted && is_recognized lib alg then hash_of_value alg else none

  abbrev lacks_key : QuotedAgent → Bool
  lacks_key g = not (nonempty g.public_key) || (nonempty g.v && not (nonempty g.b64_encrypted_v))

  abbrev with_key :
      QuotedAgent → Response Quote → Quote → Bytes → Failure → AgentAttestState Pubkey → Processed
  with_key g r quote key f a =
      check_algs g r quote key (usable_hash r.hash_alg g.accept_tpm_hash_algs) f a

  abbrev check_key :
      QuotedAgent
      → Response Quote
      → Quote
      → Option Bytes
      → Failure
      → AgentAttestState Pubkey
      → Processed
  check_key g r quote (some key) f a = with_key g r quote key f a
  check_key g r quote none f a =
      if lacks_key g
      then (g, a, some (fatal f "no_pubkey"))
      else with_key (record g { should_provide_v = false }) r quote g.public_key f a

  abbrev check_response :
      QuotedAgent → Response Quote → Option Quote → Failure → AgentAttestState Pubkey → Processed
  check_response g r none f a = (g, a, some (fatal f "invalid_data"))
  check_response g r (some quote) f a = check_key g r quote r.pubkey f a

  unfoldable pub process_quote_response :
      QuotedAgent → Response Quote → AgentAttestState Pubkey → Processed
  unfolding check_start hash_of_value is_recognized is_accepted
  process_quote_response g r a =
      check_response g r r.quote (new_failure Component.quote_validation none) a
