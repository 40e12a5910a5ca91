-- ===== src/Verifier/Requests.antt =====
-- keylime/cloud_verifier_tornado.py, invoke_get_quote, invoke_provide_v, invoke_notify_error and
-- notify_error: what the verifier makes of an agent's answer. The calls of process_agent that are
-- given to asyncio.ensure_future are a list. Of the JSON of an answer is asked what the code reads of
-- it, where `none` is an exception. Durable attestation is off, and the agent's dict has provide_V.
pub mod Explained
pub mod KeyV
use keylime.Prelude.{
  ℕ, String, Bool, true, false, not, ◌||◌, Option, none, some, List, [], ◌∷◌, ◌++◌, Bytes, ◌==◌,
  str_eq, if◌then◌else◌, nonempty, elem_str, map,
}
use keylime.Failure.{Severities, Failure, Component, new_failure, add_event, is_failure}
use keylime.Attest.{AgentAttestState, get_ima_pcrs}
use keylime.Ima.Keyrings.{ImaKeyring, ImaKeyrings}
use keylime.Ima.Policy.{RuntimePolicy}
use keylime.Ima.Inputs.{ImaEnv}
use keylime.Tpm.Pcrs.{MbPlugin, MbEvaluate}
use keylime.Tpm.Quote.{QuoteReader}
use keylime.Verifier.{
  OperationalState, get_quote, get_quote_retry, provide_v, provide_v_retry, failed, invalid_quote,
}
use keylime.Tpm.Struct.{◌>>=◌}
use keylime.Verifier.Versions.{VersionAnswer, update_agent_api_version}
use keylime.Verifier.Response.{QuotedAgent, Response, process_quote_response}

-- process_agent(agent, state), and process_agent(agent, state, failure)
pub data Call : Type 0 where
  process : OperationalState → Call
  process_failure : OperationalState → Failure → Call

pub record Reply (Body : Type 0) : Type 0 where
  pub status_code : ℕ
  -- whether "API version not supported" is in the status of the JSON
  pub version_error : Option Bool
  pub body : Option Body
  -- the agent's answer when it is asked for its version, and whether the database takes it
  pub version_answer : Option VersionAnswer
  pub committed : Bool

-- Failure(Component.INTERNAL, ["verifier"])
unfoldable pub internal_failure : Failure
unfolding new_failure
internal_failure = new_failure Component.internal (some ("verifier" ∷ []))

abbrev pub is_lost : ℕ → Bool
is_lost code = code == 408 || (code == 500 || code == 599)

-- cloud_verifier_common.prepare_v: V encrypted with the agent's public key, `encrypt`, once
abbrev pub encrypted_v : QuotedAgent → Option Bytes → Option (QuotedAgent × Bytes)
encrypted_v g none = none
encrypted_v g (some e) = some (record g { b64_encrypted_v = e }, e)

unfoldable pub prepare_v :
    (Bytes → Bytes → Option Bytes) → QuotedAgent → Option (QuotedAgent × Bytes)
prepare_v encrypt g =
    if nonempty g.b64_encrypted_v
    then some (g, g.b64_encrypted_v)
    else encrypted_v g (encrypt g.public_key g.v)

-- cloud_verifier_common.prepare_get_quote: the agent with the new nonce, and what is asked for, but
-- for the mask of the TPM policy
pub record QuoteParams : Type 0 where
  pub nonce : Bytes
  pub ima_ml_entry : ℕ

abbrev pub prepare_get_quote :
    {Pubkey : Type 0} → Bytes → QuotedAgent → AgentAttestState Pubkey → QuotedAgent × QuoteParams
prepare_get_quote nonce g a =
    (record g { nonce = nonce }, record { nonce = nonce; ima_ml_entry = a.next_ima_ml_entry })

module _ (severities : Severities) where
  abbrev pub fail_with : Failure → String → Call
  fail_with f event_id = process_failure failed (add_event severities f event_id false none)

  -- whether the agent has been updated
  abbrev bumped : OperationalState → Bytes × Bool → Bytes × List Call
  bumped retry (version, true) = (version, process retry ∷ [])
  bumped retry (version, false) = (version, fail_with internal_failure "version_not_supported" ∷ [])

  abbrev update : OperationalState → Bytes → Bool → Option VersionAnswer → Bytes × List Call
  update retry version committed none = (version, fail_with internal_failure "exception" ∷ [])
  update retry version committed (some answer) =
      bumped retry (update_agent_api_version committed version answer)

  abbrev bad_request :
      OperationalState
      → String
      → Bytes
      → Bool
      → Option VersionAnswer
      → Option Bool
      → Bytes × List Call
  bad_request retry unexpected version committed answer none =
      (version, fail_with internal_failure "exception" ∷ [])
  bad_request retry unexpected version committed answer (some true) =
      update retry version committed answer
  bad_request retry unexpected version committed answer (some false) =
      (version, fail_with internal_failure unexpected ∷ [])

  -- an answer whose status is not 200: the agent's version, and the calls
  unfoldable pub on_error :
      {Body : Type 0} → OperationalState → String → Bytes → Reply Body → Bytes × List Call
  unfolding update_agent_api_version internal_failure
  on_error retry unexpected version reply =
      if is_lost reply.status_code
      then (version, process retry ∷ [])
      else if reply.status_code == 400
      then bad_request retry unexpected version reply.committed reply.version_answer
          reply.version_error
      else (version, fail_with internal_failure unexpected ∷ [])

  -- what follows the answer to the key V
  abbrev pub v_answered : {Body : Type 0} → Bytes → Reply Body → Bytes × List Call
  unfolding on_error
  v_answered version reply =
      if reply.status_code == 200
      then (version, process get_quote ∷ [])
      else on_error provide_v_retry "no_v" version reply

  -- the agent, the encrypted V that is sent, the agent's version and the calls; an exception of
  -- prepare_v is not handled
  unfoldable pub invoke_provide_v :
      {Body : Type 0}
      → (Bytes → Bytes → Option Bytes)
      → Bytes
      → QuotedAgent
      → Reply Body
      → Option (QuotedAgent × Bytes × Bytes × List Call)
  unfolding on_error prepare_v
  invoke_provide_v encrypt version g reply = do
    (g', encrypted) ← prepare_v encrypt g
    let answered = v_answered version reply
    some (g', encrypted, answered.0, answered.1)

module _ {Pubkey : Type 0} (env : ImaEnv Pubkey) (plugin : MbPlugin) (evaluate : MbEvaluate)
    (reader : QuoteReader) (keyring_of : Bytes → Option (ImaKeyring Pubkey)) (now : ℕ)
    (mb_policy : Option Bytes) where
  open env use {severities}
  open reader use {Quote}

  abbrev pub Requested : Type 0
  Requested = QuotedAgent × AgentAttestState Pubkey × Bytes × List Call

  -- the call for a quote that has been processed with the failure `f`, which is `passed` by the time
  -- that the call runs
  abbrev pub next_call : QuotedAgent → Failure → Failure → Call
  next_call g f passed =
      if is_failure f
      then process_failure invalid_quote passed
      else if g.should_provide_v
      then process provide_v
      else process get_quote

  -- An exception of store_attestation_state is handled as one of the quote. Its event is added to the
  -- failure that the first call has been given, and which runs later.
  abbrev pub after_quote :
      Bool → Bytes → QuotedAgent × AgentAttestState Pubkey × Option Failure → Requested
  after_quote stores version (g, a, none) =
      (g, a, version, fail_with severities internal_failure "exception" ∷ [])
  after_quote stores version (g, a, some f) = (
    g,
    a,
    version,
    next_call g f (if stores then f else add_event severities f "exception" false none)
        ∷ (if stores then [] else fail_with severities f "exception" ∷ []),
  )

  abbrev pub on_body :
      Option RuntimePolicy
      → Bool
      → Bytes
      → QuotedAgent
      → AgentAttestState Pubkey
      → Option (Response Quote)
      → Requested
  on_body (some policy) stores version g a (some r) =
      after_quote stores version
        (process_quote_response env plugin evaluate reader keyring_of now mb_policy policy g r a)
  on_body policy stores version g a _ =
      (g, a, version, fail_with severities internal_failure "exception" ∷ [])

  -- `nonce` is the random password of prepare_get_quote, `policy` the deserialized runtime policy, and `stores` whether
  -- store_attestation_state returns
  unfoldable pub invoke_get_quote :
      Bytes
      → Option RuntimePolicy
      → Bool
      → Bytes
      → QuotedAgent
      → AgentAttestState Pubkey
      → Reply (Response Quote)
      → Requested
  unfolding process_quote_response internal_failure on_error
  invoke_get_quote nonce policy stores version g a reply =
      let asked = (prepare_get_quote nonce g a).0 in
      if reply.status_code == 200
      then on_body policy stores version asked a reply.body
      else (let (after, calls) = on_error severities get_quote_retry "no_quote" version reply in
          (asked, a, after, calls))

-- store_attestation_state: what is written to the agent's row, which is there
pub record StoredState (Pubkey : Type 0) : Type 0 where
  pub boottime : ℕ
  pub next_ima_ml_entry : ℕ
  pub ima_pcrs : List ℕ
  pub pcrs : List (ℕ × Option Bytes)
  pub learned_ima_keyrings : ImaKeyrings Pubkey

unfoldable pub stored_state :
    {Pubkey : Type 0} → AgentAttestState Pubkey → Option (StoredState Pubkey)
unfolding get_ima_pcrs
stored_state a =
    if nonempty (get_ima_pcrs a)
    then some (record {
      boottime = a.boottime;
      next_ima_ml_entry = a.next_ima_ml_entry;
      ima_pcrs = map (λ (p : ℕ × Option Bytes). p.0) (get_ima_pcrs a);
      pcrs = get_ima_pcrs a;
      learned_ima_keyrings = a.ima_keyrings;
    })
    else none
