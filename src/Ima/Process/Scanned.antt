-- ===== src/Ima/Process/Scanned.antt =====
-- keylime/ima/ima.py: what the loop over the lines shows when it ends.
use mathlib.Core.Path.{subst}
use keylime.Prelude.{
  ℕ, suc, ◌≡◌, refl, sym, ap, ◌∙◌, ◌⊎◌, inl, inr, false, Option, List, [], ◌∷◌, ◌++◌, Bytes,
  bytes_eq_sound, All,
}
use keylime.Hash.{Hash, Hashlib}
use keylime.Failure.{is_failure}
use keylime.Ima.Policy.{RuntimePolicy}
use keylime.Ima.Inputs.{ImaEnv, log_hash_alg_of}
use keylime.Ima.Process.{Scan, Step, goes_on, raises, resume, step_line, scan}
use keylime.Ima.Process.Replay.{replay, extend_line, LineAccepted, Round, step_line-Round}

resume-goes_on :
    {Pubkey : Type 0} (m : Step Pubkey) (f : Scan Pubkey → Step Pubkey) {s' : Scan Pubkey}
    → resume m f ≡ goes_on s'
    → (t : Scan Pubkey) × (m ≡ goes_on t) × (f t ≡ goes_on s')
resume-goes_on (goes_on t) f h = (t, refl, h)
resume-goes_on (raises a) f h = cc

-- The lines up to some point bring the PCR from `v` to the quoted value.
abbrev pub Reaches : Hashlib → Hash → Hash → Bytes → Bytes → List Bytes → Type 0
Reaches lib ima_hash_alg hash_alg pcrval v lines =
    (seen : List Bytes) × (rest : List Bytes) × (lines ≡ seen ++ rest)
    × (replay lib ima_hash_alg hash_alg v seen ≡ pcrval)

goes_on_inj : {Pubkey : Type 0} {a b : Scan Pubkey} → goes_on a ≡ goes_on b → a ≡ b
goes_on_inj h = cc

module _ {Pubkey : Type 0} (env : ImaEnv Pubkey) (hash_alg : Hash) (policy : Option RuntimePolicy)
    (pcrval_bytes : Bytes) where
  open env use {lib, severities}

  pub record Scanned (s : Scan Pubkey) (lines : List Bytes) (s' : Scan Pubkey) : Type 0 where
    pub replayed :
        s'.running_hash ≡ replay lib (log_hash_alg_of policy) hash_alg s.running_hash lines
    pub clean : is_failure s'.failure ≡ false → is_failure s.failure ≡ false
    pub accepted :
        is_failure s'.failure ≡ false → All (LineAccepted env hash_alg policy pcrval_bytes) lines
    pub reached :
        (s'.found_pcr ≡ s.found_pcr)
        ⊎ Reaches lib (log_hash_alg_of policy) hash_alg pcrval_bytes s.running_hash lines

  later-Reaches :
      (v : Bytes) (line : Bytes) (lines : List Bytes)
      → Reaches lib
          (log_hash_alg_of policy)
          hash_alg
          pcrval_bytes
          (extend_line lib (log_hash_alg_of policy) hash_alg v line)
          lines
      → Reaches lib (log_hash_alg_of policy) hash_alg pcrval_bytes v (line ∷ lines)
  later-Reaches v line lines (seen, rest, split, e) =
      (line ∷ seen, rest, ap (λ (l : List Bytes). line ∷ l) split, unfold replay in e)

  module _ (s t s' : Scan Pubkey) (line : Bytes) (lines : List Bytes)
      (r : Round env hash_alg policy pcrval_bytes s line t) (ih : Scanned t lines s') where
    joined_reached :
        (s'.found_pcr ≡ s.found_pcr)
        ⊎ Reaches lib (log_hash_alg_of policy) hash_alg pcrval_bytes s.running_hash (line ∷ lines)
    joined_reached = elim ih.reached [
      | inr later ↦ inr (
          later-Reaches s.running_hash line lines (
            subst
              (λ (v : Bytes). Reaches lib (log_hash_alg_of policy) hash_alg pcrval_bytes v lines)
              r.extended later))
      | inl same ↦ elim r.matched [
        | inl before ↦ inl (same ∙ before)
        | inr now ↦ inr (
          line ∷ [],
          lines,
          refl,
          unfold replay in sym r.extended ∙ bytes_eq_sound t.running_hash pcrval_bytes now,
        )
      ]
    ]

    joined : Scanned s (line ∷ lines) s'
    joined = record {
      replayed =
          ih.replayed
          ∙ ap (λ (v : Bytes). replay lib (log_hash_alg_of policy) hash_alg v lines) r.extended
          ∙ (unfold replay in refl);
      clean = λ c. r.clean (ih.clean c);
      accepted = λ c. (r.accepted (ih.clean c), ih.accepted c);
      reached = joined_reached;
    }

  pub scan-Scanned :
      (lines : List Bytes) (s s' : Scan Pubkey) (linenum : ℕ)
      → scan env hash_alg policy pcrval_bytes s linenum lines ≡ goes_on s'
      → Scanned s lines s'
  unfolding scan
  scan-Scanned [] s s' linenum h =
      let same = sym (goes_on_inj h) in
      record {
        replayed = ap (λ (x : Scan Pubkey). x.running_hash) same ∙ (unfold replay in refl);
        clean = λ c. ap (λ (x : Scan Pubkey). is_failure x.failure) (sym same) ∙ c;
        accepted = λ c. tt;
        reached = inl (ap (λ (x : Scan Pubkey). x.found_pcr) same);
      }
  scan-Scanned (line ∷ lines) s s' linenum h =
      let (t, first, others) =
        resume-goes_on (step_line env hash_alg policy pcrval_bytes s linenum line)
          (λ u. scan env hash_alg policy pcrval_bytes u (suc linenum) lines) h in
      joined s t s' line lines
        (step_line-Round env hash_alg policy pcrval_bytes s t linenum line first)
        (scan-Scanned lines t s' (suc linenum) others)
