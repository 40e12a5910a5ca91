-- ===== src/Verifier/Requests/Explained.antt =====
-- keylime/cloud_verifier_tornado.py, invoke_get_quote: how often process_agent is
-- called, and when the verifier goes on with an agent.
use keylime.Prelude.{
  ℕ, ◌≡◌, refl, inl, inr, String, Bool, true, false, not, ◌&&◌, Option, none, some, Bytes, ◌==◌,
  if◌then◌else◌, length, Bool-cases, is_some,
}
use keylime.Failure.{Severities, Failure}
use keylime.Attest.{AgentAttestState}
use keylime.Ima.Keyrings.{ImaKeyring}
use keylime.Ima.Policy.{RuntimePolicy}
use keylime.Ima.Inputs.{ImaEnv}
use keylime.Tpm.Pcrs.{MbPlugin, MbEvaluate}
use keylime.Tpm.Quote.{QuoteReader}
use keylime.Verifier.{OperationalState, get_quote, get_quote_retry, provide_v}
use keylime.Verifier.Versions.{VersionAnswer, update_agent_api_version}
use keylime.Verifier.Response.{QuotedAgent, Response, process_quote_response}
use keylime.Verifier.Requests.{
  Call, process, Reply, is_lost, on_error, bad_request, update, bumped, after_quote, on_body,
  invoke_get_quote,
}

module _ (severities : Severities) where
  length-update :
      (retry : OperationalState) (version : Bytes) (committed : Bool) (o : Option VersionAnswer)
      → length (update severities retry version committed o).1 ≡ 1
  length-update retry version committed none = refl
  length-update retry version committed (some answer) =
      go (update_agent_api_version committed version answer)
    where
      go : (x : Bytes × Bool) → length (bumped severities retry x).1 ≡ 1
      go (v, true) = refl
      go (v, false) = refl

  length-on_error :
      {Body : Type 0} (retry : OperationalState) (unexpected : String) (version : Bytes)
      (reply : Reply Body)
      → length (on_error severities retry unexpected version reply).1 ≡ 1
  unfolding on_error
  length-on_error retry unexpected version reply = elim (Bool-cases (is_lost reply.status_code)) [
    | inl lost ↦ rw lost refl
    | inr other ↦ elim (Bool-cases (reply.status_code == 400)) [
      | inl bad ↦ rw (other, bad) (go reply.version_error)
      | inr unknown ↦ rw (other, unknown) refl
    ]
  ]
    where
      go :
          (o : Option Bool)
          → length
              (bad_request severities retry unexpected version reply.committed reply.version_answer
                o).1
            ≡ 1
      go none = refl
      go (some true) = length-update retry version reply.committed reply.version_answer
      go (some false) = refl

-- the calls by which the verifier goes on with an agent
abbrev pub goes_on : Call → Bool
goes_on (process get_quote) = true
goes_on (process provide_v) = true
goes_on _ = false

module _ {Pubkey : Type 0} (env : ImaEnv Pubkey) (plugin : MbPlugin) (evaluate : MbEvaluate)
    (reader : QuoteReader) (keyring_of : Bytes → Option (ImaKeyring Pubkey)) (now : ℕ)
    (mb_policy : Option Bytes) where
  open env use {severities}
  open reader use {Quote}

  length-after_quote :
      (stores : Bool) (version : Bytes)
      (out : QuotedAgent × AgentAttestState Pubkey × Option Failure)
      → length
          (after_quote env plugin evaluate reader keyring_of now mb_policy stores version out).3
        ≡ (if is_some out.2 && not stores then 2 else 1)
  length-after_quote stores version (g, a, none) = refl
  length-after_quote true version (g, a, some f) = refl
  length-after_quote false version (g, a, some f) = refl

  -- whether the answer's quote is processed without an exception
  abbrev pub answered :
      Option RuntimePolicy → QuotedAgent → AgentAttestState Pubkey → Option (Response Quote) → Bool
  answered (some policy) g a (some r) =
      is_some
        (process_quote_response env plugin evaluate reader keyring_of now mb_policy policy g r a).2
  answered _ g a _ = false

  length-on_body :
      (o : Option RuntimePolicy) (stores : Bool) (version : Bytes) (g : QuotedAgent)
      (a : AgentAttestState Pubkey) (b : Option (Response Quote))
      → length
          (on_body env plugin evaluate reader keyring_of now mb_policy o stores version g a b).3
        ≡ (if answered o g a b && not stores then 2 else 1)
  length-on_body none stores version g a none = refl
  length-on_body none stores version g a (some r) = refl
  length-on_body (some policy) stores version g a none = refl
  length-on_body (some policy) stores version g a (some r) =
      length-after_quote stores version
        (process_quote_response env plugin evaluate reader keyring_of now mb_policy policy g r a)

  -- Every answer to a request for a quote leads to a call of process_agent: to exactly one, but to two
  -- if the quote has been processed and storing the agent's state then raises.
  pub every_answer_is_processed :
      (nonce : Bytes) (o : Option RuntimePolicy) (stores : Bool) (version : Bytes) (g : QuotedAgent)
      (a : AgentAttestState Pubkey) (reply : Reply (Response Quote))
      → length
          (invoke_get_quote env plugin evaluate reader keyring_of now mb_policy nonce o stores
            version g a reply).3
        ≡ (if (reply.status_code == 200)
              && (answered o (record g { nonce = nonce }) a reply.body && not stores)
            then 2
            else 1)
  unfolding invoke_get_quote
  every_answer_is_processed nonce o stores version g a reply =
      elim (Bool-cases (reply.status_code == 200)) [
        | inl ok ↦ rw ok (length-on_body o stores version (record g { nonce = nonce }) a reply.body)
        | inr other ↦ rw other (length-on_error severities get_quote_retry "no_quote" version reply)
      ]
