-- ===== src/Tests/Data.antt =====
-- The parameters of the model at concrete values: a checksum of two bytes for hashlib, patterns that
-- match themselves, keys that are numbers, and an agent that has not been seen before.
use keylime.Prelude.{
  ℕ, ◌+◌, ◌*◌, ◌-◌, ◌%◌, String, refl, true, false, Option, none, some, [], ◌∷◌, Bytes, codes,
  bytes_eq, length, str_eq, if◌then◌else◌,
}
use keylime.Regex.{literals}
use keylime.Hash.{Hashlib}
use keylime.Failure.{SeverityLabel, Severities}
use keylime.Attest.{AgentAttestState}
use keylime.Ima.Keyrings.{Crypto, no_keyrings}
use keylime.Ima.Policy.{RuntimePolicy}
use keylime.Ima.Inputs.{ImaEnv}

abbrev sum : Bytes → ℕ
sum [] = 0
sum (c ∷ s) = c + 3 * sum s

abbrev pub checksums : Hashlib
checksums = record {
  available = λ name. true;
  digest = λ name d. (sum d % 256) ∷ (length d % 256) ∷ [];
  digest_size = λ name. 2;
  length-digest = λ name d. refl;
}

abbrev pub info : SeverityLabel
info = record { name = "info"; severity = 0 }

abbrev pub alert : SeverityLabel
alert = record { name = "alert"; severity = 1 }

abbrev if_progress : String → Option SeverityLabel
if_progress event_id = if str_eq event_id "ima.quote_progress" then some info else none

-- everything is an alert, except what concerns the progress of a quote
abbrev pub two_levels : Severities
two_levels = record { rules = if_progress ∷ []; max_severity_label = alert }

abbrev pub keys : Crypto ℕ
keys = record {
  keyidv2_of = λ key. key;
  verify = λ key signature filehash name. bytes_eq signature filehash;
}

-- int() of a decimal text
abbrev decimal : Bytes → ℕ → ℕ
decimal [] n = n
decimal (c ∷ s) n = decimal s (n * 10 + (c - 48))

abbrev pub env : ImaEnv ℕ
env = record {
  lib = checksums;
  severities = two_levels;
  re = literals bytes_eq;
  crypto = keys;
  loaders = [];
  ignore_tomtou_errors = false;
  int_of_text = λ text. some (decimal text 0);
}

abbrev pub policy : RuntimePolicy
policy = record {
  digests = (codes "/bin/a", codes "aabb" ∷ []) ∷ [];
  excludes = [];
  keyrings = [];
  ignored_keyrings = [];
  log_hash_alg = codes "sha1";
  ima_buf = [];
  verification_keys = [];
}

abbrev pub agent : AgentAttestState ℕ
agent = record {
  agent_id = "agent";
  next_ima_ml_entry = 0;
  boottime = 0;
  tpm_clockinfo = record { clock = 0; resetcount = 0; restartcount = 0; safe = 1 };
  tpm_state = record { pcrs = (10, none) ∷ []; hash_alg = [] };
  ima_pcrs = [];
  ima_keyrings = no_keyrings;
  ima_dm_state = none;
  quote_progress = none;
}
