-- ===== src/Tpm/Pcrs/Accepts.antt =====
-- keylime/tpm/tpm_main.py, Tpm.check_pcrs: which PCRs its loops use for validation.
use keylime.Prelude.{
  ℕ, ◌≡◌, ◌⊎◌, inl, inr, Bool, true, false, ◌&&◌, ◌||◌, Option, none, some, List, [], ◌∷◌, arith,
  Bytes, if◌then◌else◌, elem_nat, nonempty, ◌==◌, ==_iff,
}
use keylime.Prelude.Dict.{get, nat_key}
use keylime.Failure.{Severities, merge, is_failure, Component, new_failure}
use keylime.Failure.Truth.{is_failure-merge, is_failure-add_event}
use keylime.Tpm.Pcrs.{
  measuredboot_pcrs, pcr_event, Allowlist, Pcrs, Checks, MbChecks, allowed_value, unused,
  missing_keys, mb_step, mb_loop, check_mb_pcrs, rest_step, check_rest, check_missing,
}

-- the quote has a value of the PCR that the policy allows
abbrev pub quotes_allowed : Option (List Bytes) → ℕ → Pcrs → Bool
quotes_allowed o m [] = false
quotes_allowed o m ((n, value) ∷ pcrs) =
    (n == m && allowed_value o value) || quotes_allowed o m pcrs

pub unused_subset :
    (o : Option (List Bytes)) (m : ℕ) (used : List ℕ) (pcrs : Pcrs)
    → quotes_allowed o m (unused used pcrs) ≡ true
    → quotes_allowed o m pcrs ≡ true
unused_subset o m used [] h = h
unused_subset o m used ((n, value) ∷ pcrs) h = ground (arith, unused_subset o m used pcrs)

missing_none :
    (used : List ℕ) (allowlist : Allowlist) (m : ℕ) (values : List Bytes)
    → nonempty (missing_keys used allowlist) ≡ false
    → get allowlist m ≡ some values
    → elem_nat m used ≡ true
missing_none used [] m values h g = cc
missing_none used ((n, l) ∷ allowlist) m values h g =
    ground (arith, missing_none used allowlist m values, ==_iff n m)

module _ (sev : Severities) (allowlist : Allowlist) where
  -- What a loop over some PCRs adds: no failure that it drops, and only PCRs with an allowed value.
  pub record Uses (c : Checks) (pcrs : Pcrs) (c' : Checks) : Type 0 where
    pub clean : is_failure c'.failure ≡ false → is_failure c.failure ≡ false
    pub used :
        is_failure c'.failure ≡ false
        → (m : ℕ) → elem_nat m c'.pcrs_in_quote ≡ true
        → (elem_nat m c.pcrs_in_quote ≡ true) ⊎ (quotes_allowed (get allowlist m) m pcrs ≡ true)

  later : {c c' : Checks} {p : ℕ × Bytes} {pcrs : Pcrs} → Uses c pcrs c' → Uses c (p ∷ pcrs) c'
  later u = record {
    clean = u.clean;
    used = λ h m e. elim (u.used h m e) [ inl x ↦ inl x | inr x ↦ inr (ground arith) ];
  }

  then-Uses :
      {c c' c'' : Checks} {p : ℕ × Bytes} {pcrs : Pcrs}
      → Uses c (p ∷ []) c'
      → Uses c' pcrs c''
      → Uses c (p ∷ pcrs) c''
  then-Uses u w = record {
    clean = λ h. u.clean (w.clean h);
    used = λ h m e. elim (w.used h m e) [
      | inr x ↦ inr (ground arith)
      | inl x ↦ elim (u.used (w.clean h) m x) [ inl y ↦ inl y | inr y ↦ inr (ground arith) ]
    ];
  }

  same-Uses : {c : Checks} → Uses c [] c
  same-Uses = record { clean = λ h. h; used = λ h m e. inl e }

  mb_step-Uses :
      (valid : Bool) (mb_list : Option Bytes) (hashes : List (ℕ × ℕ)) (c : MbChecks) (n : ℕ)
      (value : Bytes)
      → Uses c.checks
          ((n, value) ∷ [])
          (mb_step sev valid mb_list hashes allowlist c n value).checks
  unfolding mb_step
  mb_step-Uses valid mb_list hashes c n value = record {
    clean = ground (
      arith,
      is_failure-add_event sev c.checks.failure (pcr_event "unused_pcr_" n) true none,
      is_failure-add_event sev c.checks.failure (pcr_event "invalid_pcr_" n) true none,
    );
    used = λ h m e. ground (
      arith,
      ==_iff n m,
      is_failure-add_event sev c.checks.failure (pcr_event "invalid_pcr_" n) true none,
    );
  }

  rest_step-Uses :
      (c : Checks) (n : ℕ) (value : Bytes)
      → Uses c ((n, value) ∷ []) (rest_step sev (get allowlist n) c n value)
  rest_step-Uses c n value = record {
    clean =
        ground (arith, is_failure-add_event sev c.failure (pcr_event "invalid_pcr_" n) true none);
    used = λ h m e. ground (
      arith,
      ==_iff n m,
      is_failure-add_event sev c.failure (pcr_event "invalid_pcr_" n) true none,
    );
  }

  mb_loop-Uses :
      (valid : Bool) (mb_list : Option Bytes) (hashes : List (ℕ × ℕ)) (c : MbChecks) (pcrs : Pcrs)
      → Uses c.checks pcrs (mb_loop sev valid mb_list hashes allowlist c pcrs).checks
  unfolding mb_loop
  mb_loop-Uses valid mb_list hashes c [] = same-Uses
  mb_loop-Uses valid mb_list hashes c ((n, value) ∷ pcrs) =
      either (λ d. mb_loop-Uses valid mb_list hashes d pcrs) (elem_nat n measuredboot_pcrs)
    where
      either :
          ((d : MbChecks)
            → Uses d.checks pcrs (mb_loop sev valid mb_list hashes allowlist d pcrs).checks)
          → (b : Bool)
          → Uses c.checks
              ((n, value) ∷ pcrs)
              (mb_loop sev valid mb_list hashes allowlist
                (if b then mb_step sev valid mb_list hashes allowlist c n value else c)
                pcrs).checks
      either ih true =
          then-Uses (mb_step-Uses valid mb_list hashes c n value)
            (ih (mb_step sev valid mb_list hashes allowlist c n value))
      either ih false = later (ih c)

  pub check_rest-Uses : (c : Checks) (pcrs : Pcrs) → Uses c pcrs (check_rest sev allowlist c pcrs)
  unfolding check_rest
  check_rest-Uses c [] = same-Uses
  check_rest-Uses c ((n, value) ∷ pcrs) =
      then-Uses (rest_step-Uses c n value)
        (check_rest-Uses (rest_step sev (get allowlist n) c n value) pcrs)

  pub check_mb_pcrs-Uses :
      (failed valid : Bool) (mb_list : Option Bytes) (hashes : List (ℕ × ℕ)) (pcrs : Pcrs)
      (c : Checks)
      → Uses c pcrs (check_mb_pcrs sev failed valid mb_list hashes allowlist pcrs c)
  unfolding check_mb_pcrs
  check_mb_pcrs-Uses failed valid mb_list hashes pcrs c = merged failed
    where
      start : MbChecks
      start = record { checks = c; mb_pcr_failure = new_failure Component.measured_boot none }

      with_failures :
          (end : MbChecks)
          → Uses c pcrs end.checks
          → Uses c pcrs
              (record end.checks { failure = merge end.checks.failure end.mb_pcr_failure })
      with_failures end u = record {
        clean =
            λ h. u.clean (ground (arith, is_failure-merge end.checks.failure end.mb_pcr_failure));
        used = λ h. u.used (ground (arith, is_failure-merge end.checks.failure end.mb_pcr_failure));
      }

      nothing : (l : Pcrs) → Uses c l c
      nothing [] = same-Uses
      nothing (p ∷ l) = later (nothing l)

      merged : (b : Bool) → Uses c pcrs (check_mb_pcrs sev b valid mb_list hashes allowlist pcrs c)
      merged true = with_failures start (nothing pcrs)
      merged false =
          with_failures (mb_loop sev valid mb_list hashes allowlist start pcrs)
            (mb_loop-Uses valid mb_list hashes start pcrs)

  -- All PCRs of the policy have been used when nothing is missing.
  pub check_missing-clean :
      (c : Checks)
      → is_failure (check_missing sev allowlist c).failure ≡ false
      → (is_failure c.failure ≡ false)
        × ((m : ℕ) (values : List Bytes)
            → get allowlist m ≡ some values
            → elem_nat m c.pcrs_in_quote ≡ true)
  unfolding check_missing
  check_missing-clean c h = (
    ground (arith, is_failure-add_event sev c.failure "missing_pcrs" true none),
    λ m values g.
        missing_none c.pcrs_in_quote allowlist m values
          (ground (arith, is_failure-add_event sev c.failure "missing_pcrs" true none)) g,
  )
