-- ===== src/Tests/Replies.antt =====
-- keylime/cloud_verifier_tornado.py at concrete answers: an agent that was rebooted, a new version of
-- the API, a cache of policies, and the agents that are notified.
use keylime.Prelude.{
  Bytes, inl, is_some, Option, ◌++◌, ℕ, String, ◌≡◌, refl, true, false, not, ◌&&◌, none, some, List,
  [], ◌∷◌, codes, length, ◌==◌, if◌then◌else◌, str_eq,
}
use keylime.Prelude.Dict.{string_key}
use keylime.Hash.{sha1, hash_of_value, is_recognized, is_accepted}
use keylime.Failure.{Failure, is_failure}
use keylime.Attest.{AgentAttestState, is_expected_boottime}
use keylime.Tpm.Pcrs.{Pcrs, MbEvaluate}
use keylime.Verifier.Response.{QuotedAgent, Response, process_quote_response, check_start}
use keylime.Verifier.Requests.{Reply, prepare_v, invoke_get_quote}
use keylime.Verifier.Notify.{NotifiedAgent, Notified, notify_error, notify_error-Notified}
use keylime.Verifier.Requests.Explained.{answered, every_answer_is_processed}
use keylime.Verifier.Requests.KeyV.{IsUnderKey, sent_v-IsUnderKey}
use keylime.Verifier.Identity.{process_verify_identity_quote, identity_quote_iff_signed}
use keylime.Verifier.Versions.{
  VersionAnswer, update_agent_api_version, by_release, update_agent_api_version-by_release,
  str_to_version,
}
use keylime.Verifier.Cache.{
  StoredAgent, PolicyCache, verifier_read_policy_from_cache, IsFaithfulCache,
  read_policy_from_cache-IsFaithfulCache,
}
use keylime.Tests.Data.{env, policy}
use keylime.Tests.Quotes.{no_boot_log, reader, seen, request}
use keylime.Tests.Answers.{no_key, quoted_agent, answer}

-- The agent is asked for its log from entry 3 on, and has another boot time.
abbrev before : AgentAttestState ℕ
before = record seen { next_ima_ml_entry = 3; boottime = 5 }

abbrev part : Response Pcrs
part = record answer { ima_measurement_list_entry = 3 }

abbrev reply : Reply (Response Pcrs)
reply = record {
  status_code = 200;
  version_error = none;
  body = some part;
  version_answer = none;
  committed = true;
}

every_answer_is_processed_example :
    length
      (invoke_get_quote env no_boot_log MbEvaluate.once reader no_key 1000 none
        (codes "nonce")
        (some policy)
        false
        (codes "2.1")
        quoted_agent
        before
        reply).3
    ≡ (if (200 == 200)
          && (answered env no_boot_log MbEvaluate.once reader no_key 1000 none
                (some policy)
                quoted_agent
                before
                reply.body
              && not false)
        then 2
        else 1)
every_answer_is_processed_example =
    every_answer_is_processed env no_boot_log MbEvaluate.once reader no_key 1000 none
      (codes "nonce") (some policy) false (codes "2.1") quoted_agent before reply

abbrev newer : VersionAnswer
newer = record { status_code = 200; supported_version = some (codes "2.3") }

update_agent_api_version-by_release_example :
    update_agent_api_version true (codes "2.1") newer ≡ by_release true (codes "2.1") newer
update_agent_api_version-by_release_example =
    update_agent_api_version-by_release true (codes "2.1") newer refl

version_updated : update_agent_api_version true (codes "2.1") newer ≡ (codes "2.3", true)
unfolding update_agent_api_version str_to_version
version_updated = refl

abbrev policy_of : String → String
policy_of checksum = if str_eq checksum "" then "" else "policy"

abbrev stored_agent : StoredAgent
stored_agent = record {
  agent_id = "agent";
  ima_policy = some (record { checksum = "c1"; ima_policy = "policy" });
}

abbrev no_cache : PolicyCache
no_cache = []

empty_cache : IsFaithfulCache policy_of refl no_cache
empty_cache = λ agent_id l h. cc

read_policy_from_cache-IsFaithfulCache_example :
    ((verifier_read_policy_from_cache no_cache stored_agent).1 ≡ some "policy")
    × IsFaithfulCache policy_of refl (verifier_read_policy_from_cache no_cache stored_agent).0
read_policy_from_cache-IsFaithfulCache_example =
    read_policy_from_cache-IsFaithfulCache policy_of refl no_cache stored_agent empty_cache refl

abbrev peers : List NotifiedAgent
peers =
    record { agent_id = "a"; mtls_cert = "cert" }
    ∷ record { agent_id = "b"; mtls_cert = "" }
    ∷ record { agent_id = "c"; mtls_cert = "disabled" }
    ∷ []

abbrev failing : NotifiedAgent
failing = record { agent_id = "b"; mtls_cert = "" }

abbrev notifiers : List String
notifiers = "agent" ∷ "webhook" ∷ []

notify_error-Notified_example :
    Notified
      (str_eq "cert")
      true
      true
      false
      true
      peers
      (notify_error (str_eq "cert") true notifiers failing peers)
notify_error-Notified_example = notify_error-Notified (str_eq "cert") true notifiers failing peers

-- an encryption that shows the key and the text
abbrev show_key : Bytes → Bytes → Option Bytes
show_key key text = some (key ++ text)

abbrev with_v : QuotedAgent
with_v = record quoted_agent { public_key = 1 ∷ []; v = 2 ∷ [] }

abbrev answered_v : QuotedAgent
answered_v = record with_v { hash_alg = "sha1"; enc_alg = "rsa"; sign_alg = "rsassa" }

sent_v-IsUnderKey_example :
    IsUnderKey show_key
      (process_quote_response env no_boot_log MbEvaluate.once reader no_key 1000 none policy with_v
        part before).0
      (record answered_v { b64_encrypted_v = 1 ∷ 2 ∷ [] }, 1 ∷ 2 ∷ [])
sent_v-IsUnderKey_example =
    sent_v-IsUnderKey show_key env no_boot_log MbEvaluate.once reader no_key 1000 none policy with_v
      part before (record answered_v { b64_encrypted_v = 1 ∷ 2 ∷ [] }, 1 ∷ 2 ∷ []) (inl refl)
      (unfold prepare_v process_quote_response check_start hash_of_value is_recognized is_accepted
          is_expected_boottime in
        refl)

identity_quote_iff_signed_example :
    (f : Failure) × (process_verify_identity_quote env no_boot_log MbEvaluate.once reader
        (record { public_key = some (1 ∷ []); ak_tpm = some (codes "aik") })
        request.quote
        (codes "nonce")
        "sha1"
        before
      ≡ (before, some f))
    × (is_failure f
        ≡ not (is_some (reader.checkquote (codes "aik") request.quote (codes "nonce") sha1 false)))
identity_quote_iff_signed_example =
    identity_quote_iff_signed env no_boot_log MbEvaluate.once reader (1 ∷ []) (codes "aik")
      request.quote (codes "nonce") "sha1" sha1 before refl
      (unfold is_recognized hash_of_value in refl) (unfold hash_of_value in refl)
