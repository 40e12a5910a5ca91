-- ===== src/Tests/Answers.antt =====
-- keylime/cloud_verifier_common.py, process_quote_response, at a concrete answer.
use keylime.Prelude.{ℕ, true, false, Option, none, some, [], ◌∷◌, Bytes, codes}
use keylime.Ima.Keyrings.{ImaKeyring}
use keylime.Tpm.Pcrs.{Pcrs, MbEvaluate}
use keylime.Verifier.Response.{QuotedAgent, Response, process_quote_response}
use keylime.Verifier.Response.Counted.{Counted, process_quote_response-Counted}
use keylime.Tests.Data.{env, policy}
use keylime.Tests.Quotes.{no_boot_log, reader, request, seen, nonce_data}

abbrev pub no_key : Bytes → Option (ImaKeyring ℕ)
no_key text = none

abbrev pub quoted_agent : QuotedAgent
quoted_agent = record {
  public_key = [];
  v = [];
  b64_encrypted_v = [];
  should_provide_v = true;
  nonce = codes "nonce";
  ak_tpm = codes "aik";
  tpm_policy = request.tpm_policy;
  compressed = false;
  accept_tpm_hash_algs = "sha256" ∷ "sha1" ∷ [];
  accept_tpm_encryption_algs = "ecc" ∷ "rsa" ∷ [];
  accept_tpm_signing_algs = "rsassa" ∷ [];
  hash_alg = "";
  enc_alg = "";
  sign_alg = "";
  ima_sign_verification_keys = [];
  tpm_clockinfo = none;
  attestation_count = 0;
  last_received_quote = 0;
  last_successful_attestation = 0;
}

abbrev pub answer : Response Pcrs
answer = record {
  pubkey = some nonce_data;
  quote = some request.quote;
  ima_measurement_list = none;
  ima_measurement_list_entry = 0;
  mb_measurement_list = none;
  boottime = 17;
  hash_alg = some "sha1";
  enc_alg = some "rsa";
  sign_alg = some "rsassa";
}

process_quote_response-Counted_example :
    Counted env no_boot_log MbEvaluate.once reader no_key 1000 none policy quoted_agent quoted_agent
      answer seen
      (process_quote_response env no_boot_log MbEvaluate.once reader no_key 1000 none policy
        quoted_agent answer seen)
process_quote_response-Counted_example =
    process_quote_response-Counted env no_boot_log MbEvaluate.once reader no_key 1000 none policy
      quoted_agent answer seen
