-- ===== src/Tests/Measurements.antt =====
-- keylime/ima at concrete inputs: a measurement list with one file, and the policy that lists it.
use keylime.Prelude.{ℕ, ◌≡◌, refl, true, false, none, some, [], ◌∷◌, ◌++◌, Bytes, codes, arith}
use keylime.Hash.{sha1, hash, get_ff_hash, get_start_hash}
use keylime.Failure.{Failure, Component, new_failure, is_failure, add_event, merge}
use keylime.Prelude.Int.{pos}
use keylime.Failure.Truth.{is_failure-add_event}
use keylime.Attest.{
  reset_ima_attestation, update_ima_attestation, check_quote_progress, AgentAttestState,
  get_pcr_state, get_ima_pcrs,
}
use keylime.Ima.Keyrings.{no_keyrings}
use keylime.Ima.Ast.{Mode, ok, parse_mode, mode_bytes}
use keylime.Ima.Ast.Entry.{new_entry, Entry, invalid, pcr_failure}
use keylime.Ima.Text.{split_max, split_all, le32, from_hex, to_hex}
use keylime.Ima.Text.Hex.{from_hex-to_hex}
use keylime.Ima.Policy.{validate_mode, valid_exclude_list}
use keylime.Ima.Inputs.{ima_pcr, strip_newlines, with_boot_aggregates}
use keylime.Ima.Process.{
  process_measurement_list, check_entry, scan, Scan, goes_on, first_scan, step_line,
}
use keylime.Ima.Process.Sound.{Shows, accepted_list_explains_quote, failed_list_starts_anew}
use keylime.Tests.Data.{two_levels, checksums, env, policy, agent}

from_hex-to_hex_example : from_hex (to_hex (17 ∷ 254 ∷ [])) ≡ some (17 ∷ 254 ∷ [])
from_hex-to_hex_example = from_hex-to_hex (17 ∷ 254 ∷ []) (omega arith, (omega arith, tt))

abbrev pub line : Bytes
line = codes "10 2119 ima-ng sha256:aabb /bin/a"

-- the PCR's value after the line
abbrev pub quoted : Bytes
quoted = codes "cc04"

strip_line : strip_newlines line ≡ line
unfolding strip_newlines
strip_line = refl

abbrev entry : Entry
entry = record {
  pcr = codes "10";
  ima_template_hash = 33 ∷ 25 ∷ [];
  pcr_template_hash = 33 ∷ 25 ∷ [];
  mode =
      Mode.ima_ng (record { hash = 170 ∷ 187 ∷ []; algorithm = codes "sha256"; legacy = false })
        (record { name = codes "/bin/a"; legacy = false });
  bytes =
      (10 ∷ 0 ∷ 0 ∷ 0 ∷ [])
      ++ codes "sha256"
      ++ (58 ∷ 0 ∷ 170 ∷ 187 ∷ 7 ∷ 0 ∷ 0 ∷ 0 ∷ [])
      ++ codes "/bin/a"
      ++ 0 ∷ [];
}

line_parses : new_entry checksums sha1 sha1 line ≡ ok entry
unfolding new_entry split_max hash get_ff_hash get_start_hash parse_mode split_all mode_bytes
    from_hex le32
line_parses = refl

entry_passes :
    check_entry env (some policy) entry no_keyrings
    ≡ (new_failure Component.ima (some ("validation" ∷ [])), some no_keyrings)
unfolding check_entry hash get_ff_hash is_failure new_failure merge to_hex invalid pcr_failure
    validate_mode valid_exclude_list
entry_passes = refl

abbrev before : AgentAttestState ℕ
before = record agent {
  tpm_state = record { pcrs = (10, some (0 ∷ 0 ∷ [])) ∷ []; hash_alg = (10, sha1) ∷ [] };
}

pcr_starts : get_pcr_state checksums agent ima_pcr sha1 ≡ some (before, some (0 ∷ 0 ∷ []))
unfolding get_pcr_state get_start_hash
pcr_starts = refl

abbrev scanned : Scan ℕ
scanned = record {
  agent = update_ima_attestation before 10 (204 ∷ 4 ∷ []) 1;
  failure = new_failure Component.ima none;
  running_hash = 204 ∷ 4 ∷ [];
  found_pcr = true;
  pcr_match_line = pos 1;
  log_length = 1;
}

abbrev quoted_bytes : Bytes
quoted_bytes = 204 ∷ 4 ∷ []

line_reaches :
    step_line env sha1
      (some policy)
      quoted_bytes
      (first_scan env before (0 ∷ 0 ∷ []) (some quoted_bytes))
      0
      line
    ≡ goes_on scanned
unfolding step_line hash is_failure new_failure
line_reaches = rw (strip_line, line_parses, entry_passes) refl

abbrev pub after : AgentAttestState ℕ
after = (check_quote_progress scanned.agent (pos 1) 1).0

pub list_accepted :
    process_measurement_list env agent (line ∷ []) sha1 (some policy) (some quoted) []
    ≡ (after, some (quoted, new_failure Component.ima none))
unfolding process_measurement_list from_hex is_failure new_failure check_quote_progress to_hex scan
    with_boot_aggregates update_ima_attestation
list_accepted = rw (pcr_starts, line_reaches) refl

accepted_list_explains_quote_example :
    (start : AgentAttestState ℕ) × (v : Bytes) × (value : Bytes) × (get_pcr_state checksums agent
        ima_pcr sha1
      ≡ some (start, some v))
    × (from_hex quoted ≡ some value)
    × Shows env sha1 (some (with_boot_aggregates [] policy)) value v (line ∷ [])
accepted_list_explains_quote_example =
    accepted_list_explains_quote env agent after (line ∷ []) sha1 (some policy) quoted [] quoted
      (new_failure Component.ima none) list_accepted (unfold is_failure new_failure in refl)

-- the same line, with a quoted value that it does not reach
abbrev other_quote : Bytes
other_quote = codes "ffff"

abbrev missed : Scan ℕ
missed = record {
  agent = before;
  failure = new_failure Component.ima none;
  running_hash = 204 ∷ 4 ∷ [];
  found_pcr = false;
  pcr_match_line = pos 0;
  log_length = 1;
}

line_misses :
    step_line env sha1
      (some policy)
      (255 ∷ 255 ∷ [])
      (first_scan env before (0 ∷ 0 ∷ []) (some (255 ∷ 255 ∷ [])))
      0
      line
    ≡ goes_on missed
unfolding step_line hash is_failure new_failure
line_misses = rw (strip_line, line_parses, entry_passes) refl

abbrev mismatch : Failure
mismatch = add_event two_levels (new_failure Component.ima none) "pcr_mismatch" true none

list_rejected :
    process_measurement_list env agent (line ∷ []) sha1 (some policy) (some other_quote) []
    ≡ (reset_ima_attestation before, some (quoted, mismatch))
unfolding process_measurement_list from_hex is_failure new_failure to_hex scan with_boot_aggregates
    add_event
list_rejected = rw (pcr_starts, line_misses) refl

failed_list_starts_anew_example :
    ((reset_ima_attestation before).next_ima_ml_entry ≡ 0)
    × (get_ima_pcrs (reset_ima_attestation before) ≡ [])
    × ((reset_ima_attestation before).quote_progress ≡ none)
    × ((reset_ima_attestation before).ima_keyrings ≡ no_keyrings)
failed_list_starts_anew_example =
    failed_list_starts_anew env agent (reset_ima_attestation before) (line ∷ []) sha1 (some policy)
      (some other_quote) [] quoted mismatch list_rejected
      (is_failure-add_event two_levels (new_failure Component.ima none) "pcr_mismatch" true none)
