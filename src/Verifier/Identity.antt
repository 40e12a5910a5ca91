-- ===== src/Verifier/Identity.antt =====
-- keylime/cloud_verifier_common.py, process_verify_identity_quote: a quote of which just the signature
-- counts. An assertion that fails is `none`.
use keylime.Prelude.{
  ◌≡◌, refl, ◌∙◌, String, true, false, not, ◌||◌, Option, none, some, [], Bytes, str_eq,
  if◌then◌else◌, is_some,
}
use keylime.Prelude.Int.{negsuc}
use keylime.Hash.{Hash, hash_of_value, is_recognized}
use keylime.Failure.{Failure, Component, new_failure, add_event, merge, is_failure}
use keylime.Failure.Truth.{is_failure-merge, is_failure-add_event}
use keylime.Attest.{AgentAttestState}
use keylime.Ima.Inputs.{ImaEnv}
use keylime.Tpm.Pcrs.{Pcrs, MbPlugin, MbEvaluate}
use keylime.Tpm.Quote.{QuoteReader, QuoteRequest, check_quote}

-- the fields of the agent's row that are read
pub record IdentityAgent : Type 0 where
  pub public_key : Option Bytes
  pub ak_tpm : Option Bytes

module _ {Pubkey : Type 0} (env : ImaEnv Pubkey) (plugin : MbPlugin) (evaluate : MbEvaluate)
    (reader : QuoteReader) where
  open env use {lib, severities}
  open reader use {Quote, checkquote}

  abbrev pub Identified : Type 0
  Identified = AgentAttestState Pubkey × Option Failure

  -- all checks but that of the signature are skipped
  abbrev pub identity_request : Bytes → Bytes → Quote → Bytes → Hash → QuoteRequest Quote
  identity_request public_key ak_tpm quote nonce h = record {
    nonce = nonce;
    bind_data = some public_key;
    quote = quote;
    aik_tpm = ak_tpm;
    tpm_policy = some [];
    ima_measurement_list = none;
    runtime_policy = none;
    hash_alg = h;
    mb_measurement_list = none;
    mb_policy = none;
    compressed = false;
    count = negsuc 0;
    skip_pcr_check = true;
    skip_clock_check = true;
  }

  abbrev conclude_identity : Failure → Identified → Identified
  conclude_identity f (a, none) = (a, some (add_event severities f "invalid_quote" false none))
  conclude_identity f (a, some q) = (a, some (merge f q))

  abbrev check_identity :
      Failure
      → Option Bytes
      → Option Bytes
      → Quote
      → Bytes
      → Option Hash
      → AgentAttestState Pubkey
      → Identified
  check_identity f (some public_key) (some ak_tpm) quote nonce (some h) a =
      conclude_identity f (
        check_quote env plugin evaluate reader a (identity_request public_key ak_tpm quote nonce h))
  check_identity f (some public_key) (some ak_tpm) quote nonce none a =
      (a, some (add_event severities f "invalid_quote" false none))
  check_identity f public_key ak_tpm quote nonce o a = (a, none)

  abbrev quote_failure : Failure
  quote_failure = new_failure Component.quote_validation none

  unfoldable pub process_verify_identity_quote :
      IdentityAgent → Quote → Bytes → String → AgentAttestState Pubkey → Identified
  unfolding check_quote hash_of_value is_recognized
  process_verify_identity_quote agent quote nonce hash_alg a =
      if str_eq hash_alg "" || not (is_recognized lib hash_alg)
      then (a, some (add_event severities quote_failure "invalid_hash_alg" false none))
      else check_identity quote_failure agent.public_key agent.ak_tpm quote nonce
          (hash_of_value hash_alg) a

  -- with the clock and the PCRs skipped, the state is kept and the signature decides
  signature_decides :
      (a : AgentAttestState Pubkey) (r : QuoteRequest Quote)
      → r.skip_clock_check ≡ true
      → r.skip_pcr_check ≡ true
      → (f : Failure) × (check_quote env plugin evaluate reader a r ≡ (a, some f))
        × (is_failure f
            ≡ not (is_some (checkquote r.aik_tpm r.quote r.nonce r.hash_alg r.compressed)))
  unfolding check_quote
  signature_decides a r clock pcrs =
      go (checkquote r.aik_tpm r.quote r.nonce r.hash_alg r.compressed) refl
    where
      go :
          (o : Option Pcrs)
          → checkquote r.aik_tpm r.quote r.nonce r.hash_alg r.compressed ≡ o
          → (f : Failure) × (check_quote env plugin evaluate reader a r ≡ (a, some f))
            × (is_failure f ≡ not (is_some o))
      go none e = (
        add_event severities quote_failure "quote_validation" false none,
        rw e refl,
        is_failure-add_event severities quote_failure "quote_validation" false none,
      )
      go (some p) e =
          (quote_failure, rw (e, clock, pcrs) refl, unfold new_failure is_failure in refl)

  fresh_passes : is_failure quote_failure ≡ false
  fresh_passes = unfold new_failure is_failure in refl

  -- Under a recognized algorithm, of an agent with both keys, the identity quote is answered, the
  -- agent's state is kept, and the quote fails exactly if its signature for the nonce is bad.
  pub identity_quote_iff_signed :
      (public_key ak_tpm : Bytes) (quote : Quote) (nonce : Bytes) (hash_alg : String) (h : Hash)
      (a : AgentAttestState Pubkey)
      → str_eq hash_alg "" ≡ false
      → is_recognized lib hash_alg ≡ true
      → hash_of_value hash_alg ≡ some h
      → (f : Failure) × (process_verify_identity_quote
            (record { public_key = some public_key; ak_tpm = some ak_tpm })
            quote
            nonce
            hash_alg
            a
          ≡ (a, some f))
        × (is_failure f ≡ not (is_some (checkquote ak_tpm quote nonce h false)))
  unfolding process_verify_identity_quote
  identity_quote_iff_signed public_key ak_tpm quote nonce hash_alg h a given recognized known =
      let (q, checked, decided) =
        signature_decides a (identity_request public_key ak_tpm quote nonce h) refl refl in
      (
        merge quote_failure q,
        rw (given, recognized, known, checked) refl,
        is_failure-merge quote_failure q ∙ rw fresh_passes decided,
      )
