-- ===== src/Tpm/Timing.antt =====
-- keylime/tpm/tpm_main.py, Tpm.check_quote_timing: the TPM's clock and counters from one quote to
-- the next. The error texts are the constructors of `ClockFault`.
use keylime.Prelude.{
  ◌≤◌, ◌<◌, ◌≡◌, ap, ◌↔◌, ◌⊎◌, not, ◌&&◌, Option, none, some, arith, ltb, leb, ◌==◌, if◌then◌else◌,
}
use keylime.Attest.{TpmClockInfo, ClockDict, clock_from_dict}

pub data ClockFault : Type 0 where
  no_clock_info reset_decreased restart_decreased unsafe_clock clock_not_increased : ClockFault

abbrev judge : TpmClockInfo → TpmClockInfo → Option ClockFault × Option TpmClockInfo
judge previous current =
    if ltb current.resetcount previous.resetcount
    then (some reset_decreased, none)
    else if ltb current.restartcount previous.restartcount
    then (some restart_decreased, none)
    else if not (current.safe == 1)
    then (some unsafe_clock, none)
    else if ltb previous.resetcount current.resetcount
        && ltb previous.restartcount current.restartcount
    then (none, none)
    else if leb current.clock previous.clock
    then (some clock_not_increased, none)
    else (none, some current)

-- `none` for a quote from which no clock information can be read
unfoldable pub check_quote_timing :
    TpmClockInfo → Option ClockDict → Option ClockFault × Option TpmClockInfo
unfolding clock_from_dict
check_quote_timing previous none = (some no_clock_info, none)
check_quote_timing previous (some d) = judge previous (clock_from_dict d)

-- A quote is in time after the previous one: its counters are not lower and its clock is safe, and
-- the clock has advanced or both counters have.
abbrev pub Follows : TpmClockInfo → TpmClockInfo → Type 0
Follows previous current =
    (previous.resetcount ≤ current.resetcount)
    × (previous.restartcount ≤ current.restartcount)
    × (current.safe ≡ 1)
    × ((previous.clock < current.clock)
        ⊎ ((previous.resetcount < current.resetcount)
            × (previous.restartcount < current.restartcount)))

judge-Follows :
    (previous current : TpmClockInfo) (kept : Option TpmClockInfo)
    → judge previous current ≡ (none, kept)
    → Follows previous current
judge-Follows previous current kept h = (ground arith, ground arith, ground arith, ground arith)

judge_accepts :
    (previous current : TpmClockInfo) → Follows previous current → (judge previous current).0 ≡ none
judge_accepts previous current h = ground arith

-- A quote with clock information passes exactly if it follows the previous clock. The clock that is
-- then kept is the quote's, unless both counters have advanced: then none is.
pub timing_iff_Follows :
    (previous : TpmClockInfo) (d : ClockDict)
    → (((check_quote_timing previous (some d)).0 ≡ none) ↔ Follows previous (clock_from_dict d))
      × ((check_quote_timing previous (some d)).0 ≡ none
          → (check_quote_timing previous (some d)).1 ≡ (
              if ltb previous.resetcount (clock_from_dict d).resetcount
                && ltb previous.restartcount (clock_from_dict d).restartcount
              then none
              else some (clock_from_dict d)))
unfolding check_quote_timing
timing_iff_Follows previous d = (
  (
    λ h.
        judge-Follows previous (clock_from_dict d) _
          (ap (λ (o : Option ClockFault). (o, (judge previous (clock_from_dict d)).1)) h),
    judge_accepts previous (clock_from_dict d),
  ),
  λ h. kept previous (clock_from_dict d) h,
)
  where
    kept :
        (p c : TpmClockInfo)
        → (judge p c).0 ≡ none
        → (judge p c).1 ≡ (
            if ltb p.resetcount c.resetcount && ltb p.restartcount c.restartcount
            then none
            else some c)
    kept p c h = ground arith

-- A quote whose clock has been kept does not pass a second time.
pub kept_clock_stops_replay :
    (previous kept : TpmClockInfo) (d : ClockDict)
    → check_quote_timing previous (some d) ≡ (none, some kept)
    → check_quote_timing kept (some d) ≡ (some clock_not_increased, none)
unfolding check_quote_timing
kept_clock_stops_replay previous kept d h = again previous (clock_from_dict d) kept h
  where
    same : (p c k : TpmClockInfo) → judge p c ≡ (none, some k) → (c ≡ k) × (c.safe ≡ 1)
    same p c k h = ground arith

    twice : (c : TpmClockInfo) → c.safe ≡ 1 → judge c c ≡ (some clock_not_increased, none)
    twice c h = ground arith

    again :
        (p c k : TpmClockInfo)
        → judge p c ≡ (none, some k)
        → judge k c ≡ (some clock_not_increased, none)
    again p c k h = let (e, safe) = same p c k h in rw (← e) (twice c safe)
