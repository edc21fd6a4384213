-- ===== src/Timing/Drift.antt =====
-- A tight ticker does not drift, and a loose one does not catch up.
use panaudia_lasa.Prelude.{
  ℕ, suc, ◌+◌, ◌*◌, max, ◌≡◌, ◌∙◌, true, false, List, [], ◌∷◌, arith, if◌then◌else◌, length,
}
use panaudia_lasa.Prelude.Int.{◌-ℤ◌}
use panaudia_lasa.Timing.{Ticker, tick, ticks_on}

tick_target :
    (after before : ℕ) (t : Ticker)
    → let t' = tick after before t in
      (t'.dur ≡ t.dur)
      × (t'.tight ≡ t.tight)
      × (t'.target_time ≡ (if t.tight then t.target_time else max t.target_time after) + t.dur)
unfolding tick ◌-ℤ◌
tick_target after before t = ground arith

one_more :
    (n : ℕ) (t t' : Ticker)
    → t'.dur ≡ t.dur
    → t'.target_time ≡ t.target_time + t.dur
    → t'.target_time + n * t'.dur ≡ t.target_time + suc n * t.dur
one_more n t t' d e = rw (d, e) (grind arith)

-- However late each tick comes, the target time of a tight ticker after some ticks is exactly as
-- many durations later.
pub tight_lem :
    (readings : List (ℕ × ℕ)) (t : Ticker)
    → t.tight ≡ true
    → (ticks_on readings t).target_time ≡ t.target_time + length readings * t.dur
unfolding ticks_on
tight_lem [] t h = omega arith
tight_lem ((after, before) ∷ readings) t h =
    let t' = tick after before t in
    let (d, ti, ta) = tick_target after before t in
    let target : t'.target_time ≡ t.target_time + t.dur = ground (arith, ta, h) in
    tight_lem readings t' (ti ∙ h) ∙ one_more (length readings) t t' d target

-- What a late tick asks for: each reading moves the ticks from its own on.
pub latest_due : ℕ → List (ℕ × ℕ) → ℕ
latest_due dur [] = 0
latest_due dur ((after, before) ∷ readings) =
    max (after + suc (length readings) * dur) (latest_due dur readings)

later_moves :
    (target after n dur due : ℕ)
    → max (max target after + dur + n * dur) due
      ≡ max (target + suc n * dur) (max (after + suc n * dur) due)
later_moves target after n dur due =
    let step : suc n * dur ≡ dur + n * dur = grind arith in omega (arith, step)

-- A loose ticker does not catch up: its target after some ticks is the latest of what its first
-- target and each reading of the clock ask for, which is one duration for every tick from there on.
pub loose_lem :
    (readings : List (ℕ × ℕ)) (t : Ticker)
    → t.tight ≡ false
    → (ticks_on readings t).target_time
      ≡ max (t.target_time + length readings * t.dur) (latest_due t.dur readings)
unfolding ticks_on latest_due
loose_lem [] t h = omega arith
loose_lem ((after, before) ∷ readings) t h =
    let t' = tick after before t in
    let (d, ti, ta) = tick_target after before t in
    let target : t'.target_time ≡ max t.target_time after + t.dur = ground (arith, ta, h) in
    let ih = loose_lem readings t' (ti ∙ h) in
    ih
    ∙ rw (d, target)
        (later_moves t.target_time after (length readings) t.dur (latest_due t.dur readings))
