-- ===== src/Ima/Ast/Entry/Verdict.antt =====
-- keylime/ima/ast.py, Entry.invalid: which entries it lets through.
use keylime.Prelude.{
  ◌≡◌, inl, inr, refl, ◌∙◌, Bool, true, not, ◌||◌, Option, none, some, arith, if◌then◌else◌,
  bytes_eq, Bool-cases,
}
use keylime.Hash.{Hash, Hashlib, hash, get_ff_hash}
use keylime.Failure.{Severities, Failure, new_failure, is_failure}
use keylime.Failure.Truth.{is_failure-merge, is_failure-add_event}
use keylime.Ima.Ast.{Mode}
use keylime.Ima.Ast.Entry.{Entry, ima_pcr_text, pcr_failure, run_validator, invalid}

is_failure-pcr_failure :
    (severities : Severities) (e : Entry)
    → is_failure (pcr_failure severities e) ≡ not (bytes_eq e.pcr ima_pcr_text)
unfolding pcr_failure
is_failure-pcr_failure severities e = elim (Bool-cases (bytes_eq e.pcr ima_pcr_text)) [
  | inl h ↦ rw h (unfold new_failure is_failure in refl)
  | inr h ↦ rw h (is_failure-add_event severities _ "ima_pcr" true none)
]

-- whether the validator of the mode objects
abbrev pub objects {ℓ} : {S : Type ℓ} → Option (Mode → S → Failure × S) → Mode → S → Bool
objects none mode s = true
objects (some v) mode s = is_failure (v mode s).0

is_failure-run_validator {ℓ} :
    {S : Type ℓ} (severities : Severities) (o : Option (Mode → S → Failure × S)) (failure : Failure)
    (mode : Mode) (s : S)
    → is_failure (run_validator severities o failure mode s).0
      ≡ (is_failure failure || objects o mode s)
is_failure-run_validator severities none failure mode s =
    is_failure-add_event severities failure "no_validator" true none ∙ ground arith
is_failure-run_validator severities (some v) failure mode s = is_failure-merge failure (v mode s).0

-- An entry is rejected exactly if it names another PCR than IMA's, or if its template hash is
-- that of a violation and `ignore_tomtou_errors` is on, or if its template hash is neither that
-- nor the hash of its template data, or if then the validator of its mode objects.
pub is_failure-invalid {ℓ} :
    {S : Type ℓ} (lib : Hashlib) (severities : Severities) (ima_hash_alg : Hash)
    (ignore_tomtou_errors : Bool) (validate : Option (Mode → S → Failure × S)) (e : Entry) (s : S)
    → is_failure (invalid lib severities ima_hash_alg ignore_tomtou_errors validate e s).0 ≡ (
        not (bytes_eq e.pcr ima_pcr_text)
        || (if bytes_eq e.ima_template_hash (get_ff_hash lib ima_hash_alg)
            then ignore_tomtou_errors
            else not (bytes_eq e.ima_template_hash (hash lib ima_hash_alg e.bytes))
              || objects validate e.mode s))
unfolding invalid
is_failure-invalid lib severities ima_hash_alg ignore validate e s = ground (
  arith,
  is_failure-pcr_failure severities e,
  is_failure-add_event severities (pcr_failure severities e) "tomtou" true none,
  is_failure-add_event severities (pcr_failure severities e) "ima_hash" true none,
  is_failure-run_validator severities validate (pcr_failure severities e) e.mode s,
)
