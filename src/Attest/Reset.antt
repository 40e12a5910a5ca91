-- ===== src/Attest/Reset.antt =====
-- keylime/agentstates.py: what a reset forgets, and what a restored state resumes from.
use keylime.Prelude.{
  ap, ◌∙◌, map, ℕ, ◌≡◌, refl, inl, inr, true, Option, none, some, List, [], ◌∷◌, arith, Bytes,
  if◌then◌else◌, elem_nat, is_some, ◌==◌, Bool-cases, ==_iff,
}
use keylime.Prelude.Dict.{get, put, get-put, nat_key}
use keylime.Hash.{Hash, Hashlib}
use keylime.Ima.Keyrings.{no_keyrings}
use keylime.Attest.{
  join, TpmState, AgentAttestState, reset_pcr, set_pcr, get_pcr, used_pcr, reset_pcrs, set_pcrs,
  used_pcrs, reset_ima_attestation, get_ima_pcrs, set_ima_pcrs, get_pcr_state,
}

get_pcr-reset_pcr :
    (t : TpmState) (m n : ℕ) → get_pcr (reset_pcr t m) n ≡ (if m == n then none else get_pcr t n)
unfolding get_pcr reset_pcr
get_pcr-reset_pcr t m n = rw (get-put t.pcrs m n none) (ground arith)

get_pcr-set_pcr :
    (t : TpmState) (m n : ℕ) (v : Bytes)
    → get_pcr (set_pcr t m v) n ≡ (if m == n then some v else get_pcr t n)
unfolding get_pcr set_pcr
get_pcr-set_pcr t m n v = rw (get-put t.pcrs m n (some v)) (ground arith)

get_pcr-reset_pcrs :
    (l : List ℕ) (t : TpmState) (n : ℕ)
    → get_pcr (reset_pcrs l t) n ≡ (if elem_nat n l then none else get_pcr t n)
get_pcr-reset_pcrs [] t n = refl
get_pcr-reset_pcrs (m ∷ l) t n =
    rw (get_pcr-reset_pcrs l (reset_pcr t m) n, get_pcr-reset_pcr t m n) (ground arith)

-- a PCR of a sublist of `l` reads as unused after a reset of all of `l`
used_pcrs-reset_pcrs :
    (l ns : List ℕ) (t : TpmState)
    → ((n : ℕ) → elem_nat n ns ≡ true → elem_nat n l ≡ true)
    → used_pcrs (reset_pcrs l t) ns ≡ []
unfolding used_pcr
used_pcrs-reset_pcrs l [] t h = refl
used_pcrs-reset_pcrs l (n ∷ ns) t h =
    rw
      (
        get_pcr-reset_pcrs l t n,
        h n (ground arith),
        used_pcrs-reset_pcrs l ns t (λ m e. h m (ground arith)),
      )
      (ground arith)

-- After a reset the agent is asked for its whole log again: no PCR is remembered, the learned keys,
-- the boot time and the progress of the last quote are forgotten, and a PCR that IMA did not use
-- keeps its value.
pub reset_forgets :
    {Pubkey : Type 0} (s : AgentAttestState Pubkey)
    → (get_ima_pcrs (reset_ima_attestation s) ≡ [])
      × ((reset_ima_attestation s).next_ima_ml_entry ≡ 0)
      × ((reset_ima_attestation s).boottime ≡ 0)
      × ((reset_ima_attestation s).quote_progress ≡ none)
      × ((reset_ima_attestation s).ima_keyrings ≡ no_keyrings)
      × ((n : ℕ)
          → get_pcr (reset_ima_attestation s).tpm_state n
            ≡ (if elem_nat n s.ima_pcrs then none else get_pcr s.tpm_state n))
unfolding reset_ima_attestation get_ima_pcrs
reset_forgets s = (
  used_pcrs-reset_pcrs s.ima_pcrs s.ima_pcrs s.tpm_state (λ n e. e),
  refl,
  refl,
  refl,
  refl,
  get_pcr-reset_pcrs s.ima_pcrs s.tpm_state,
)

last_value : List (ℕ × Bytes) → ℕ → Option Bytes → Option Bytes
last_value [] n d = d
last_value ((m, v) ∷ l) n d = last_value l n (if m == n then some v else d)

get_pcr-set_pcrs :
    (d : List (ℕ × Bytes)) (t : TpmState) (n : ℕ)
    → get_pcr (set_pcrs d t) n ≡ last_value d n (get_pcr t n)
unfolding last_value
get_pcr-set_pcrs [] t n = refl
get_pcr-set_pcrs ((m, v) ∷ d) t n =
    rw (get_pcr-set_pcrs d (set_pcr t m v) n, get_pcr-set_pcr t m n v)

-- the keys of a dict are distinct
abbrev pub Distinct : List (ℕ × Bytes) → Type 0
Distinct [] = Unit
Distinct ((n, v) ∷ d) = (get d n ≡ none) × Distinct d

last_value-none :
    (d : List (ℕ × Bytes)) (n : ℕ) (o : Option Bytes) → get d n ≡ none → last_value d n o ≡ o
unfolding last_value
last_value-none [] n o h = refl
last_value-none ((m, v) ∷ d) n o h =
    ground (arith, last_value-none d n (if m == n then some v else o))

last_value-get :
    (d : List (ℕ × Bytes)) (n : ℕ) (v : Bytes) (o : Option Bytes)
    → Distinct d
    → get d n ≡ some v
    → last_value d n o ≡ some v
unfolding last_value
last_value-get [] n v o u h = cc
last_value-get ((m, w) ∷ d) n v o u h = elim (Bool-cases (m == n)) [
  | inl e ↦ rw e (last_value-none d n (some w) (rw (← (==_iff m n).0 e) u.0) ∙ first e)
  | inr e ↦ rw e (last_value-get d n v o u.1 (ground arith))
]
  where
    first : (m == n) ≡ true → some w ≡ some v
    first e = ground arith

join-some : (o : Option (Option Bytes)) {v : Bytes} → join o ≡ some v → o ≡ some (some v)
join-some none h = cc
join-some (some o) h = ap some h

-- reading a PCR that has a value initialises nothing
get_pcr_state-set :
    {Pubkey : Type 0} (lib : Hashlib) (s : AgentAttestState Pubkey) (n : ℕ) (v : Bytes) (h : Hash)
    → get_pcr s.tpm_state n ≡ some v
    → (s' : AgentAttestState Pubkey) × (get_pcr_state lib s n h ≡ some (s', some v))
      × (s'.ima_pcrs ≡ s.ima_pcrs)
      × (get_pcr s'.tpm_state n ≡ some v)
unfolding get_pcr_state get_pcr
get_pcr_state-set lib s n v h g = elim (Bool-cases (is_some (get s.tpm_state.hash_alg n))) [
  | inl e ↦ (s, ground (arith, join-some (get s.tpm_state.pcrs n) g), refl, g)
  | inr e ↦ (
    record s { tpm_state = record s.tpm_state { hash_alg = put s.tpm_state.hash_alg n h } },
    ground (arith, join-some (get s.tpm_state.pcrs n) g),
    refl,
    g,
  )
]

-- An agent that resumes from stored PCR values gets those values, and not the initial ones, as the
-- state from which its next log entries are replayed, whatever the hash algorithm.
pub resumes_from_stored :
    {Pubkey : Type 0} (lib : Hashlib) (s : AgentAttestState Pubkey) (d : List (ℕ × Bytes)) (n : ℕ)
    (v : Bytes) (h : Hash)
    → Distinct d
    → get d n ≡ some v
    → (s' : AgentAttestState Pubkey) × (get_pcr_state lib (set_ima_pcrs s d) n h
        ≡ some (s', some v))
      × (s'.ima_pcrs ≡ map (λ p. p.0) d)
      × (get_pcr s'.tpm_state n ≡ some v)
resumes_from_stored lib s d n v h u g =
    let (s', read, same, keeps) = get_pcr_state-set lib (set_ima_pcrs s d) n v h stored in
    (s', read, same ∙ keys, keeps)
  where
    stored : get_pcr (set_ima_pcrs s d).tpm_state n ≡ some v
    stored =
        unfold set_ima_pcrs in
        get_pcr-set_pcrs d s.tpm_state n ∙ last_value-get d n v (get_pcr s.tpm_state n) u g

    keys : (set_ima_pcrs s d).ima_pcrs ≡ map (λ p. p.0) d
    keys = unfold set_ima_pcrs in refl
