-- ===== src/Tests/Quotes.antt =====
-- keylime/tpm/tpm_main.py at concrete inputs: a quote of the data PCR, the IMA PCR and PCR 23.
use keylime.Prelude.{
  ℕ, ◌≡◌, ◌≢◌, refl, ◌↔◌, true, false, ◌&&◌, none, some, List, [], ◌∷◌, Bytes, codes, if◌then◌else◌,
  ltb,
}
use keylime.Prelude.Int.{pos}
use keylime.Prelude.Dict.{get, nat_key}
use keylime.Hash.{sha1, hash, get_start_hash}
use keylime.Failure.{Failure, Component, new_failure, merge, is_failure, add_event}
use keylime.Attest.{AgentAttestState, TpmClockInfo, ClockDict, clock_from_dict}
use keylime.Ima.Inputs.{ima_pcr}
use keylime.Ima.Text.{split_all, to_hex}
use keylime.Tpm.Timing.{
  clock_not_increased, check_quote_timing, Follows, timing_iff_Follows, kept_clock_stops_replay,
}
use keylime.Tpm.Pcrs.{Allowlist, Pcrs, MbPlugin, MbEvaluate, tpm_data_pcr, sim_extend, check_pcrs}
use keylime.Tpm.Pcrs.Accepts.{quotes_allowed}
use keylime.Tpm.Pcrs.Sound.{ImaAccepted, accepted_pcrs_match_policy}
use keylime.Tpm.Quote.{QuoteReader, QuoteRequest, check_quote, accepted_quote_is_checked}
use keylime.Tests.Data.{checksums, env, policy, agent}
use keylime.Tests.Measurements.{line, quoted, after, list_accepted}

abbrev previous : TpmClockInfo
previous = record { clock = 100; resetcount = 2; restartcount = 5; safe = 1 }

abbrev clock_dict : ClockDict
clock_dict = record { clock = some 170; reset_count = some 2; restart_count = some 6; safe = none }

abbrev current : TpmClockInfo
current = record { clock = 170; resetcount = 2; restartcount = 6; safe = 1 }

timing_iff_Follows_example :
    (((check_quote_timing previous (some clock_dict)).0 ≡ none)
      ↔ Follows previous (clock_from_dict clock_dict))
    × ((check_quote_timing previous (some clock_dict)).0 ≡ none
        → (check_quote_timing previous (some clock_dict)).1 ≡ (
            if ltb previous.resetcount (clock_from_dict clock_dict).resetcount
              && ltb previous.restartcount (clock_from_dict clock_dict).restartcount
            then none
            else some (clock_from_dict clock_dict)))
timing_iff_Follows_example = timing_iff_Follows previous clock_dict

kept_clock_stops_replay_example :
    check_quote_timing current (some clock_dict) ≡ (some clock_not_increased, none)
kept_clock_stops_replay_example =
    kept_clock_stops_replay previous current clock_dict (unfold check_quote_timing in refl)

-- a plug-in that accepts all boot logs, and no policy
abbrev pub no_boot_log : MbPlugin
no_boot_log = record {
  Log = Unit {0};
  bootlog_parse = λ mb_list hash_alg. record {
    pcrs_hashes = [];
    boot_aggregates = [];
    log = tt;
    failure = new_failure Component.measured_boot none;
  };
  policy_is_valid = λ mb_policy. false;
  bootlog_evaluate = λ mb_policy log used agent_id. new_failure Component.measured_boot none;
}

abbrev pub nonce_data : Bytes
nonce_data = codes "key"

abbrev quoted_pcrs : Pcrs
quoted_pcrs = (16, sim_extend checksums nonce_data sha1) ∷ (10, quoted) ∷ (23, codes "ab") ∷ []

abbrev allowlist : Allowlist
allowlist = (23, codes "cd" ∷ codes "ab" ∷ []) ∷ []

one_line : split_all b'\n' line ≡ line ∷ []
unfolding split_all
one_line = refl

abbrev clean : Failure
clean = new_failure Component.pcr_validation none

pcrs_accepted :
    check_pcrs env no_boot_log MbEvaluate.once agent allowlist quoted_pcrs
      (some nonce_data)
      (some line)
      (some policy)
      none
      none
      sha1
      (pos 0)
    ≡ (after, some clean)
unfolding check_pcrs sim_extend is_failure new_failure merge add_event to_hex hash get_start_hash
pcrs_accepted = rw (one_line, list_accepted) refl

accepted_pcrs_match_policy_example :
    (is_failure (no_boot_log.bootlog_parse none sha1).failure ≡ false)
    × ((bound : Bytes) × (some nonce_data ≡ some bound)
        × (get quoted_pcrs tpm_data_pcr ≡ some (sim_extend checksums bound sha1)))
    × ((value : Bytes)
        → get quoted_pcrs ima_pcr ≡ some value
        → ImaAccepted env agent after value (some line) (some policy) [] sha1)
    × ((n : ℕ) (values : List Bytes)
        → n ≢ tpm_data_pcr
        → n ≢ ima_pcr
        → get allowlist n ≡ some values
        → quotes_allowed (some values) n quoted_pcrs ≡ true)
accepted_pcrs_match_policy_example =
    accepted_pcrs_match_policy env no_boot_log MbEvaluate.once agent after allowlist quoted_pcrs
      (some nonce_data) (some line) (some policy) none none sha1 (pos 0) clean pcrs_accepted
      (unfold is_failure new_failure in refl)

abbrev pub reader : QuoteReader
reader = record {
  Quote = Pcrs;
  checkquote = λ aik quote nonce hash_alg compressed. some quote;
  clock_info_from_quote = λ quote compressed. some clock_dict;
}

abbrev pub request : QuoteRequest Pcrs
request = record {
  nonce = codes "nonce";
  bind_data = some nonce_data;
  quote = (16, sim_extend checksums nonce_data sha1) ∷ (23, codes "ab") ∷ [];
  aik_tpm = codes "aik";
  tpm_policy = some allowlist;
  ima_measurement_list = some line;
  runtime_policy = some policy;
  hash_alg = sha1;
  mb_measurement_list = none;
  mb_policy = none;
  compressed = false;
  count = pos 0;
  skip_pcr_check = false;
  skip_clock_check = false;
}

abbrev pub seen : AgentAttestState ℕ
seen = record agent { tpm_clockinfo = previous }

quote_accepted :
    check_quote env no_boot_log MbEvaluate.once reader seen request
    ≡ (record seen { tpm_clockinfo = current }, some clean)
unfolding check_quote sim_extend is_failure new_failure merge add_event to_hex hash get_start_hash
quote_accepted = refl

accepted_quote_is_checked_example :
    (pcrs : Pcrs) × (d : ClockDict) × (kept : TpmClockInfo) × (some request.quote ≡ some pcrs)
    × (some clock_dict ≡ some d)
    × Follows previous (clock_from_dict d)
    × (check_pcrs env no_boot_log MbEvaluate.once
          (record seen { tpm_clockinfo = kept })
          allowlist
          pcrs
          (some nonce_data)
          (some line)
          (some policy)
          none
          none
          sha1
          (pos 0)
        ≡ (record seen { tpm_clockinfo = current }, some clean))
accepted_quote_is_checked_example =
    accepted_quote_is_checked env no_boot_log MbEvaluate.once reader seen
      (record seen { tpm_clockinfo = current }) request clean refl refl quote_accepted
      (unfold is_failure new_failure in refl)
