-- ===== src/Ima/Process/Replay.antt =====
-- keylime/ima/ima.py: the loop over the lines against a plain replay of the PCR extensions.
use keylime.Prelude.{
  ℕ, ◌+◌, ◌≡◌, refl, sym, ap, ◌∙◌, ◌⊎◌, inl, inr, true, false, not, ◌&&◌, Option, none, some, List,
  [], ◌∷◌, ◌++◌, arith, Bytes, if◌then◌else◌, bytes_eq, nonempty, Bool-cases,
}
use keylime.Hash.{Hash, Hashlib, hash}
use keylime.Failure.{is_failure}
use keylime.Failure.Truth.{is_failure-merge, is_failure-add_event}
use keylime.Ima.Keyrings.{ImaKeyrings}
use keylime.Ima.Ast.{parser_error, struct_error, Parsed, ok, err}
use keylime.Ima.Ast.Entry.{Entry, new_entry}
use keylime.Ima.Policy.{RuntimePolicy}
use keylime.Ima.Inputs.{ImaEnv, strip_newlines, log_hash_alg_of}
use keylime.Ima.Process.{
  Scan, goes_on, check_entry, after_entry, step_entry, step_parsed, step_line, remember,
}

-- What a list of lines makes of a PCR: each line that parses extends it by its template hash.
abbrev extend_parsed : Hashlib → Hash → Bytes → Parsed Entry → Bytes
extend_parsed lib hash_alg v (err e) = v
extend_parsed lib hash_alg v (ok e) = hash lib hash_alg (v ++ e.pcr_template_hash)

unfoldable pub extend_line : Hashlib → Hash → Hash → Bytes → Bytes → Bytes
extend_line lib ima_hash_alg hash_alg v raw =
    if not (nonempty (strip_newlines raw))
    then v
    else extend_parsed lib hash_alg v (new_entry lib ima_hash_alg hash_alg (strip_newlines raw))

unfoldable pub replay : Hashlib → Hash → Hash → Bytes → List Bytes → Bytes
replay lib ima_hash_alg hash_alg v [] = v
replay lib ima_hash_alg hash_alg v (line ∷ lines) =
    replay lib ima_hash_alg hash_alg (extend_line lib ima_hash_alg hash_alg v line) lines

module _ {Pubkey : Type 0} (env : ImaEnv Pubkey) (hash_alg : Hash) (policy : Option RuntimePolicy)
    (pcrval_bytes : Bytes) where
  open env use {lib, severities}

  -- A blank line, or one that parses into an entry that the keyrings of its time let through.
  abbrev pub LineAccepted : Bytes → Type 0
  LineAccepted raw =
      (nonempty (strip_newlines raw) ≡ false)
      ⊎ ((e : Entry) × (k : ImaKeyrings Pubkey) × (new_entry lib (log_hash_alg_of policy) hash_alg
              (strip_newlines raw)
            ≡ ok e)
          × (is_failure (check_entry env policy e k).0 ≡ false))

  -- What one round of the loop does.
  pub record Round (s : Scan Pubkey) (raw : Bytes) (s' : Scan Pubkey) : Type 0 where
    pub extended :
        s'.running_hash ≡ extend_line lib (log_hash_alg_of policy) hash_alg s.running_hash raw
    pub clean : is_failure s'.failure ≡ false → is_failure s.failure ≡ false
    pub accepted : is_failure s'.failure ≡ false → LineAccepted raw
    pub matched : (s'.found_pcr ≡ s.found_pcr) ⊎ (bytes_eq s'.running_hash pcrval_bytes ≡ true)

  goes_on_inj : {a b : Scan Pubkey} → goes_on a ≡ goes_on b → a ≡ b
  goes_on_inj h = cc

  clean-after_entry :
      (s : Scan Pubkey) (e : Entry)
      → is_failure (after_entry env hash_alg policy pcrval_bytes s e).failure ≡ false
      → (is_failure s.failure ≡ false)
        × (is_failure (check_entry env policy e s.agent.ima_keyrings).0 ≡ false)
  unfolding after_entry
  clean-after_entry s e h =
      ground (arith, is_failure-merge s.failure (check_entry env policy e s.agent.ima_keyrings).0)

  -- after the comparison only what is remembered of the match differs
  after_remember :
      (s t s' : Scan Pubkey) (linenum : ℕ) (o : Option ℕ)
      → remember env hash_alg policy pcrval_bytes t linenum o ≡ goes_on s'
      → (s'.running_hash ≡ t.running_hash) × (s'.failure ≡ t.failure)
  after_remember s t s' linenum none h = cc
  after_remember s t s' linenum (some pcr) h = ground arith

  abbrev after : Scan Pubkey → Entry → Scan Pubkey
  after = after_entry env hash_alg policy pcrval_bytes

  step_matched :
      (s : Scan Pubkey) (linenum : ℕ) (e : Entry)
      → (not s.found_pcr && bytes_eq (after s e).running_hash pcrval_bytes) ≡ true
      → step_entry env hash_alg policy pcrval_bytes s linenum e
        ≡ remember env hash_alg policy pcrval_bytes (after s e) linenum (env.int_of_text e.pcr)
  unfolding step_entry
  step_matched s linenum e t = rw (step_entry, t)

  step_passed :
      (s : Scan Pubkey) (linenum : ℕ) (e : Entry)
      → (not s.found_pcr && bytes_eq (after s e).running_hash pcrval_bytes) ≡ false
      → step_entry env hash_alg policy pcrval_bytes s linenum e ≡ goes_on (after s e)
  unfolding step_entry
  step_passed s linenum e t = rw (step_entry, t)

  running :
      (s : Scan Pubkey) (e : Entry)
      → (after s e).running_hash ≡ hash lib hash_alg (s.running_hash ++ e.pcr_template_hash)
  unfolding after_entry
  running s e = refl

  found : (s : Scan Pubkey) (e : Entry) → (after s e).found_pcr ≡ s.found_pcr
  unfolding after_entry
  found s e = refl

  after_step_entry :
      (s s' : Scan Pubkey) (linenum : ℕ) (e : Entry)
      → step_entry env hash_alg policy pcrval_bytes s linenum e ≡ goes_on s'
      → (s'.running_hash ≡ hash lib hash_alg (s.running_hash ++ e.pcr_template_hash))
        × (s'.failure ≡ (after_entry env hash_alg policy pcrval_bytes s e).failure)
        × ((s'.found_pcr ≡ s.found_pcr) ⊎ (bytes_eq s'.running_hash pcrval_bytes ≡ true))
  after_step_entry s s' linenum e h =
      elim (Bool-cases (not s.found_pcr && bytes_eq (after s e).running_hash pcrval_bytes)) [
        | inl t ↦
            let (r, f) =
              after_remember s (after s e) s' linenum (env.int_of_text e.pcr)
                (sym (step_matched s linenum e t) ∙ h) in
            (r ∙ running s e, f, inr (rw r (ground (arith, t))))
        | inr t ↦
            let same = goes_on_inj (sym (step_passed s linenum e t) ∙ h) in
            (
              sym (ap (λ (x : Scan Pubkey). x.running_hash) same) ∙ running s e,
              sym (ap (λ (x : Scan Pubkey). x.failure) same),
              inl (sym (ap (λ (x : Scan Pubkey). x.found_pcr) same) ∙ found s e),
            )
      ]

  extend_line_of :
      (raw v : Bytes) (p : Parsed Entry)
      → nonempty (strip_newlines raw) ≡ true
      → new_entry lib (log_hash_alg_of policy) hash_alg (strip_newlines raw) ≡ p
      → extend_line lib (log_hash_alg_of policy) hash_alg v raw ≡ extend_parsed lib hash_alg v p
  unfolding extend_line
  extend_line_of raw v p n e = rw (n, e)

  extend_blank :
      (raw v : Bytes)
      → nonempty (strip_newlines raw) ≡ false
      → extend_line lib (log_hash_alg_of policy) hash_alg v raw ≡ v
  unfolding extend_line
  extend_blank raw v n = rw n

  abbrev counted : Scan Pubkey → Scan Pubkey
  counted s = record s { log_length = s.log_length + 1 }

  line_parsed :
      (s : Scan Pubkey) (linenum : ℕ) (raw : Bytes)
      → nonempty (strip_newlines raw) ≡ true
      → step_line env hash_alg policy pcrval_bytes s linenum raw
        ≡ step_parsed env hash_alg policy pcrval_bytes
            (counted s)
            linenum
            (new_entry lib (log_hash_alg_of policy) hash_alg (strip_newlines raw))
  unfolding step_line
  line_parsed s linenum raw n = rw n

  line_blank :
      (s : Scan Pubkey) (linenum : ℕ) (raw : Bytes)
      → nonempty (strip_newlines raw) ≡ false
      → step_line env hash_alg policy pcrval_bytes s linenum raw ≡ goes_on s
  unfolding step_line
  line_blank s linenum raw n = rw n

  step_parsed-Round :
      (s s' : Scan Pubkey) (linenum : ℕ) (raw : Bytes) (p : Parsed Entry)
      → nonempty (strip_newlines raw) ≡ true
      → new_entry lib (log_hash_alg_of policy) hash_alg (strip_newlines raw) ≡ p
      → step_parsed env hash_alg policy pcrval_bytes s linenum p ≡ goes_on s'
      → Round s raw s'
  step_parsed-Round s s' linenum raw (err struct_error) n e h = cc
  step_parsed-Round s s' linenum raw (err parser_error) n e h =
      let same = sym (goes_on_inj h) in
      let dirty =
        ap is_failure (ap (λ (x : Scan Pubkey). x.failure) same)
        ∙ is_failure-add_event severities s.failure "entry" true (some ("parser" ∷ [])) in
      record {
        extended =
            ap (λ (x : Scan Pubkey). x.running_hash) same
            ∙ sym (extend_line_of raw s.running_hash _ n e);
        clean = λ c. cc;
        accepted = λ c. cc;
        matched = inl (ap (λ (x : Scan Pubkey). x.found_pcr) same);
      }
  step_parsed-Round s s' linenum raw (ok e) n p h =
      let (r, f, m) = after_step_entry s s' linenum e h in
      record {
        extended = r ∙ sym (extend_line_of raw s.running_hash _ n p);
        clean = λ c. (clean-after_entry s e (ap is_failure (sym f) ∙ c)).0;
        accepted = λ c.
            inr (e, s.agent.ima_keyrings, p, (clean-after_entry s e (ap is_failure (sym f) ∙ c)).1);
        matched = m;
      }

  pub step_line-Round :
      (s s' : Scan Pubkey) (linenum : ℕ) (raw : Bytes)
      → step_line env hash_alg policy pcrval_bytes s linenum raw ≡ goes_on s'
      → Round s raw s'
  step_line-Round s s' linenum raw h = elim (Bool-cases (nonempty (strip_newlines raw))) [
    | inl n ↦
        let r =
          step_parsed-Round (counted s) s' linenum raw _ n refl
            (sym (line_parsed s linenum raw n) ∙ h) in
        record {
          extended = r.extended;
          clean = r.clean;
          accepted = r.accepted;
          matched = r.matched;
        }
    | inr n ↦
        let same = sym (goes_on_inj (sym (line_blank s linenum raw n) ∙ h)) in
        record {
          extended =
              ap (λ (x : Scan Pubkey). x.running_hash) same
              ∙ sym (extend_blank raw s.running_hash n);
          clean = λ c. ap is_failure (ap (λ (x : Scan Pubkey). x.failure) (sym same)) ∙ c;
          accepted = λ c. inl n;
          matched = inl (ap (λ (x : Scan Pubkey). x.found_pcr) same);
        }
  ]
