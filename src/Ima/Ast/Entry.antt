-- ===== src/Ima/Ast/Entry.antt =====
-- keylime/ima/ast.py, class Entry: one line of the list, and what is wrong with it.
pub mod Verdict
use keylime.Prelude.{
  ℕ, ◌≡◌, ◌⊎◌, inl, inr, refl, Bool, true, false, not, ◌&&◌, ◌||◌, Option, none, some, List, [],
  ◌∷◌, arith, Bytes, if◌then◌else◌, codes, bytes_eq, bytes_eq_sound, Bool-cases, String,
}
use keylime.Hash.{Hash, Hashlib, hash, get_start_hash, get_ff_hash}
use keylime.Failure.{Severities, Failure, Component, new_failure, add_event, merge, is_failure}
use keylime.Failure.Truth.{is_failure-merge, is_failure-add_event}
use keylime.Ima.Text.{split_max, from_hex}
use keylime.Ima.Ast.{
  Problem, parser_error, struct_error, Parsed, ok, err, ◌>>=◌, Mode, parse_mode, mode_bytes,
  hex_data,
}

pub record Entry : Type 0 where
  pub pcr : Bytes
  pub ima_template_hash : Bytes
  pub pcr_template_hash : Bytes
  pub mode : Mode
  pub bytes : Bytes

-- str(config.IMA_PCR)
abbrev pub ima_pcr_text : Bytes
ima_pcr_text = codes "10"

module _ (lib : Hashlib) (ima_hash_alg pcr_hash_alg : Hash) where
  -- Entries of time-of-measure, time-of-use errors have a hash of zeros, and count as ones.
  abbrev fix_violation : Entry → Entry
  fix_violation e =
      if bytes_eq e.ima_template_hash (get_start_hash lib ima_hash_alg)
      then record e {
        ima_template_hash = get_ff_hash lib ima_hash_alg;
        pcr_template_hash = get_ff_hash lib pcr_hash_alg;
      }
      else e

  abbrev entry_of_tokens : List Bytes → Parsed Entry
  entry_of_tokens (pcr ∷ template_hash ∷ mode ∷ rest ∷ []) = do
    h ← hex_data template_hash
    m ← parse_mode mode rest
    b ← mode_bytes m
    ok (
        fix_violation (record {
          pcr = pcr;
          ima_template_hash = h;
          pcr_template_hash = hash lib pcr_hash_alg b;
          mode = m;
          bytes = b;
        }))
  entry_of_tokens _ = err parser_error

  -- Entry.__init__
  unfoldable pub new_entry : Bytes → Parsed Entry
  unfolding hex_data
  new_entry text = entry_of_tokens (split_max b' ' 3 text)

-- the test of the PCR in Entry.invalid
unfoldable pub pcr_failure : Severities → Entry → Failure
pcr_failure severities e =
    let failure = new_failure Component.ima (some ("validation" ∷ [])) in
    if not (bytes_eq e.pcr ima_pcr_text)
    then add_event severities failure "ima_pcr" true none
    else failure

-- `S` is what validating a mode may change: the keyrings that learn keys.
abbrev pub run_validator {ℓ} :
    {S : Type ℓ} → Severities → Option (Mode → S → Failure × S) → Failure → Mode → S → Failure × S
run_validator severities none failure mode s =
    (add_event severities failure "no_validator" true none, s)
run_validator severities (some v) failure mode s = let (f, s') = v mode s in (merge failure f, s')

-- Entry.invalid; `ignore_tomtou_errors` is the verifier's option of that name
unfoldable pub invalid {ℓ} :
    {S : Type ℓ}
    → Hashlib
    → Severities
    → Hash
    → Bool
    → Option (Mode → S → Failure × S)
    → Entry
    → S
    → Failure × S
invalid lib severities ima_hash_alg ignore_tomtou_errors validate e s =
    let failure = pcr_failure severities e in
    if bytes_eq e.ima_template_hash (get_ff_hash lib ima_hash_alg)
    then (
      if ignore_tomtou_errors then add_event severities failure "tomtou" true none else failure,
      s,
    )
    else if not (bytes_eq e.ima_template_hash (hash lib ima_hash_alg e.bytes))
    then (add_event severities failure "ima_hash" true none, s)
    else run_validator severities validate failure e.mode s
