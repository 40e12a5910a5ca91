-- ===== src/Tpm/Attested/Layout.antt =====
-- keylime/tpm/tpm2_objects.py: the layout that a TPM gives the attestation of a quote, and what is
-- read of it.
use keylime.Prelude.{
  ℕ, zero, suc, ◌+◌, ◌<◌, ◌≡◌, refl, sym, ap, ◌∙◌, some, List, [], ◌∷◌, ◌++◌, Bytes, drop, length,
  arith, All, length-append,
}
use keylime.Prelude.Dict.{put, nat_key}
use keylime.Tpm.Struct.{be_bytes, unpack_from}
use keylime.Tpm.Struct.Lemmas.{unpack-be_bytes, take-append, drop-append}
use keylime.Tpm.Attested.{
  ClockInfo, unmarshal_tpms_clock_info, unmarshal_tpms_pcr_selection, read_selections,
  unmarshal_tpml_pcr_selection, unmarshal_tpms_quote_info, TpmsAttest, generated_value,
  st_attest_quote, attest_body, unmarshal_tpms_attest,
}

plus_suc : (m n : ℕ) → suc m + n ≡ suc (m + n)
plus_suc m n = omega arith

drop_none : (n : ℕ) → drop {A = ℕ} n [] ≡ []
drop_none zero = refl
drop_none (suc n) = refl

drop-plus : (m n : ℕ) (xs : Bytes) → drop (m + n) xs ≡ drop n (drop m xs)
drop-plus zero n xs = ap (λ k. drop k xs) (omega arith)
drop-plus (suc m) n [] = drop_none (suc m + n) ∙ sym (drop_none n)
drop-plus (suc m) n (x ∷ xs) = ap (λ k. drop k (x ∷ xs)) (plus_suc m n) ∙ drop-plus m n xs

-- the parts of a list of the given lengths
drop-past : (m : ℕ) (xs ys zs : Bytes) → drop m xs ≡ ys ++ zs → drop (m + length ys) xs ≡ zs
drop-past m xs ys zs e = drop-plus m (length ys) xs ∙ ap (drop (length ys)) e ∙ drop-append ys zs

unpack_from-append : (xs ys : Bytes) → unpack_from (length xs) (xs ++ ys) ≡ some xs
unfolding unpack_from
unpack_from-append xs ys = rw (take-append xs ys) (ground (arith, length-append xs ys))

abbrev pub clock_bytes : ClockInfo → Bytes
clock_bytes c =
    be_bytes 8 c.clock
    ++ (be_bytes 4 c.reset_count ++ (be_bytes 4 c.restart_count ++ be_bytes 1 c.safe))

abbrev pub ClockFits : ClockInfo → Type 0
ClockFits c =
    (c.clock < 0x10000000000000000)
    × (c.reset_count < 0x100000000)
    × (c.restart_count < 0x100000000)
    × (c.safe < 256)

unmarshal-clock_bytes :
    (c : ClockInfo) → ClockFits c → unmarshal_tpms_clock_info (clock_bytes c) ≡ some c
unfolding unmarshal_tpms_clock_info
unmarshal-clock_bytes c h =
    rw
      (
        unpack-be_bytes 8 c.clock h.0,
        unpack-be_bytes 4 c.reset_count h.1,
        unpack-be_bytes 4 c.restart_count h.2,
        unpack-be_bytes 1 c.safe h.3,
      )
      refl

abbrev pub selections_then : List (ℕ × Bytes) → Bytes → Bytes
selections_then [] rest = rest
selections_then ((alg, select) ∷ l) rest =
    be_bytes 2 alg ++ (be_bytes 1 (length select) ++ (select ++ selections_then l rest))

abbrev pub SelectionFits : ℕ × Bytes → Type 0
SelectionFits (alg, select) = (alg < 65536) × (length select < 256)

unmarshal-selection :
    (alg : ℕ) (select rest : Bytes)
    → SelectionFits (alg, select)
    → unmarshal_tpms_pcr_selection
        (be_bytes 2 alg ++ (be_bytes 1 (length select) ++ (select ++ rest)))
      ≡ some (alg, select, 3 + length select)
unfolding unmarshal_tpms_pcr_selection
unmarshal-selection alg select rest h =
    rw
      (
        unpack-be_bytes 2 alg h.0,
        unpack-be_bytes 1 (length select) h.1,
        unpack_from-append select rest,
      )
      refl

-- the loop returns, and leaves the offset at what follows the selections
read_selections-drop :
    (sels : List (ℕ × Bytes)) (buffer rest : Bytes) (found : List (ℕ × Bytes)) (o : ℕ)
    → All SelectionFits sels
    → drop o buffer ≡ selections_then sels rest
    → (r : List (ℕ × Bytes) × ℕ) × (read_selections (length sels) buffer found o ≡ some r)
      × (drop r.1 buffer ≡ rest)
unfolding read_selections
read_selections-drop [] buffer rest found o h e = ((found, o), refl, e)
read_selections-drop ((alg, select) ∷ sels) buffer rest found o h e =
    let (r, returned, after) =
      read_selections-drop sels buffer rest (put found alg select) (o + (3 + length select)) h.1 (
        drop-plus o (3 + length select) buffer
        ∙ ap (drop (3 + length select)) e
        ∙ drop-plus 3 (length select) (selections_then ((alg, select) ∷ sels) rest)
        ∙ drop-append select (selections_then sels rest)) in
    (r, rw (e, unmarshal-selection alg select (selections_then sels rest) h.0) returned, after)

-- TPMS_QUOTE_INFO, with what follows it
abbrev pub quote_info_then : List (ℕ × Bytes) → Bytes → Bytes → Bytes
quote_info_then sels digest rest =
    be_bytes 4 (length sels)
    ++ selections_then sels (be_bytes 2 (length digest) ++ (digest ++ rest))

unmarshal-quote_info :
    (sels : List (ℕ × Bytes)) (digest rest : Bytes)
    → length sels < 0x100000000
    → All SelectionFits sels
    → length digest < 65536
    → unmarshal_tpms_quote_info (quote_info_then sels digest rest) ≡ some digest
unfolding unmarshal_tpms_quote_info unmarshal_tpml_pcr_selection
unmarshal-quote_info sels digest rest count_fits sels_fit digest_fits =
    let buffer = quote_info_then sels digest rest in
    let (r, returned, after) =
      read_selections-drop sels buffer (be_bytes 2 (length digest) ++ (digest ++ rest)) [] 4
        sels_fit refl in
    rw (unpack-be_bytes 4 (length sels) count_fits) (
      rw returned (
        rw (after, unpack-be_bytes 2 (length digest) digest_fits)
          (rw (drop-plus r.1 2 buffer ∙ ap (drop 2) after) (unpack_from-append digest rest))))

-- TPMS_ATTEST of a quote, with what follows it: the name of the signing key, the nonce, the clock,
-- the version of the firmware and the quote
abbrev pub attest_then : Bytes → TpmsAttest → ℕ → List (ℕ × Bytes) → Bytes → Bytes
attest_then name a firmware_version sels rest =
    be_bytes 4 generated_value
    ++ (be_bytes 2 st_attest_quote
        ++ (be_bytes 2 (length name)
            ++ (name
                ++ (be_bytes 2 (length a.extra_data)
                    ++ (a.extra_data
                        ++ (clock_bytes a.clock_info
                            ++ (be_bytes 8 firmware_version
                                ++ quote_info_then sels a.pcr_digest rest)))))))

-- The attestation of a quote, as a TPM lays it out, is read back: its nonce, its clock and the digest
-- of its PCRs are those written, whatever the signer's name, the version of the firmware, the
-- selections, and the bytes that follow, if the fields fit into their bytes.
pub attest_round_trip :
    (name : Bytes) (a : TpmsAttest) (firmware_version : ℕ) (sels : List (ℕ × Bytes)) (rest : Bytes)
    → length name < 65536
    → length a.extra_data < 65536
    → ClockFits a.clock_info
    → length sels < 0x100000000
    → All SelectionFits sels
    → length a.pcr_digest < 65536
    → unmarshal_tpms_attest (attest_then name a firmware_version sels rest) ≡ some a
unfolding unmarshal_tpms_attest attest_body
attest_round_trip name a firmware_version sels rest name_fits extra_fits clock_fits count_fits
      sels_fit digest_fits =
    rw
      (
        unpack-be_bytes 4 generated_value (omega arith),
        unpack-be_bytes 2 st_attest_quote (omega arith),
        unpack-be_bytes 2 (length name) name_fits,
      )
      (rw (at_extra, unpack-be_bytes 2 (length a.extra_data) extra_fits)
        (rw (extra_at, unpack_from-append a.extra_data after_extra)
          (rw (at_clock, unmarshal-clock_bytes a.clock_info clock_fits)
            (rw
              (
                at_quote,
                unmarshal-quote_info sels a.pcr_digest rest count_fits sels_fit digest_fits,
              )
              refl))))
  where
    attest : Bytes
    attest = attest_then name a firmware_version sels rest

    after_extra : Bytes
    after_extra =
        clock_bytes a.clock_info
        ++ (be_bytes 8 firmware_version ++ quote_info_then sels a.pcr_digest rest)

    after_name : Bytes
    after_name = be_bytes 2 (length a.extra_data) ++ (a.extra_data ++ after_extra)

    at_extra : drop (8 + length name) attest ≡ after_name
    at_extra = drop-past 8 attest name after_name refl

    extra_at : drop (8 + length name + 2) attest ≡ a.extra_data ++ after_extra
    extra_at = drop-plus (8 + length name) 2 attest ∙ ap (drop 2) at_extra

    at_clock : drop (8 + length name + 2 + length a.extra_data) attest ≡ after_extra
    at_clock = drop-past (8 + length name + 2) attest a.extra_data after_extra extra_at

    at_quote :
        drop (8 + length name + 2 + length a.extra_data + 17 + 8) attest
        ≡ quote_info_then sels a.pcr_digest rest
    at_quote =
        drop-plus (8 + length name + 2 + length a.extra_data + 17) 8 attest
        ∙ ap (drop 8) (
            drop-plus (8 + length name + 2 + length a.extra_data) 17 attest ∙ ap (drop 17) at_clock)
