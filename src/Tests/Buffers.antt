-- ===== src/Tests/Buffers.antt =====
-- The ring, the statistics of a window and the servo.
use panaudia_lasa.Prelude.{
  none, some, replicate, ℕ, ◌/◌, ◌≤◌, ◌<◌, min, ◌≡◌, ◌↔◌, refl, ◌⊎◌, true, false, List, [], ◌∷◌,
  arith,
}
use panaudia_lasa.Prelude.Int.{ℤ, pos, ◌+ℤ◌, ◌-ℤ◌, ◌≤ℤ◌, ltb_ℤ, int_laws}
use panaudia_lasa.Prelude.Fixed.{fixed, fixed-Irreflexive}
use panaudia_lasa.Buffers.Ring.{write_to_ring, read_from_ring}
use panaudia_lasa.Buffers.Ring.Held.{Holds, write_to_ring-Holds, read_from_ring-stream}
use panaudia_lasa.Buffers.Stats.{rank_nth, win_stats}
use panaudia_lasa.Buffers.Stats.Rank.{rank_nth_lem, count_above}
use panaudia_lasa.Buffers.Stats.Sorted.{win_stats_lem, count_below}
use panaudia_lasa.Buffers.Servo.{WindowEstimate, ServoGeometry, decide}
use panaudia_lasa.Buffers.Servo.Limits.{Within, decide_lem}

-- Three samples through a ring of two frames.
abbrev ring : List ℕ
ring = 0 ∷ 0 ∷ []

ring-Holds : Holds 2 1 ring []
ring-Holds = record { size = refl; last = λ p h i. absurd (omega (arith, h)) }

write_to_ring-Holds_example : Holds 2 1 (write_to_ring 2 1 ring (7 ∷ 8 ∷ []) 0 2) (7 ∷ 8 ∷ [])
write_to_ring-Holds_example =
    write_to_ring-Holds 2 1 ring (7 ∷ 8 ∷ []) [] 0 2 (omega arith) (omega arith) ring-Holds refl
      (omega arith) (omega arith)

twice :
    Holds 2 1
      (write_to_ring 2 1 (write_to_ring 2 1 ring (7 ∷ 8 ∷ []) 0 2) (9 ∷ []) 2 1)
      (7 ∷ 8 ∷ 9 ∷ [])
twice =
    write_to_ring-Holds 2 1 (write_to_ring 2 1 ring (7 ∷ 8 ∷ []) 0 2) (9 ∷ []) (7 ∷ 8 ∷ []) 2 1
      (omega arith) (omega arith)
      (write_to_ring-Holds 2 1 ring (7 ∷ 8 ∷ []) [] 0 2 (omega arith) (omega arith) ring-Holds refl
        (omega arith) (omega arith))
      refl (omega arith) (omega arith)

abbrev after : List ℕ
after = write_to_ring 2 1 (write_to_ring 2 1 ring (7 ∷ 8 ∷ []) 0 2) (9 ∷ []) 2 1

read_from_ring-stream_example : read_from_ring 2 1 after (0 ∷ 0 ∷ []) 1 2 ≡ 8 ∷ 9 ∷ []
read_from_ring-stream_example =
    read_from_ring-stream 2 1 after (0 ∷ 0 ∷ []) (7 ∷ 8 ∷ 9 ∷ []) 1 2 (omega arith) (omega arith)
      twice refl (omega arith) (omega arith)

abbrev widths : List ℤ
widths = pos 3 ∷ pos 9 ∷ pos 1 ∷ pos 8 ∷ []

rank_nth_lem_example :
    (w : ℤ) × (rank_nth widths 3 ≡ some w)
    × ((ltb_ℤ (pos 2) w ≡ true) ↔ (min 3 4 ≤ count_above (pos 2) widths))
rank_nth_lem_example =
    rank_nth_lem widths 3 (pos 2) (omega arith) (omega arith) (omega arith) (omega int_laws)

-- Nine of nine entries do not fit the array.
too_many : rank_nth (replicate 9 (pos 1)) 9 ≡ none
unfolding rank_nth
too_many = refl

win_stats_lem_example :
    let (med, lo, hi) = win_stats widths in
    ((ltb_ℤ med (pos 4) ≡ true) ↔ (4 / 2 < count_below (pos 4) widths))
    × ((ltb_ℤ lo (pos 4) ≡ true) ↔ (0 < count_below (pos 4) widths))
    × ((ltb_ℤ hi (pos 4) ≡ true) ↔ (4 ≤ count_below (pos 4) widths))
win_stats_lem_example = win_stats_lem widths (pos 4) (omega arith)

abbrev estimate : WindowEstimate ℤ
estimate = record {
  median_raw = pos 900;
  min_raw = pos 700;
  max_raw = pos 950;
  width_low = pos 10;
  width_high = pos 10;
  slope_fps = pos 0;
  horizon_sec = pos 1000;
}

abbrev servo : ServoGeometry ℤ
servo = record {
  setpoint = pos 480;
  deadband = pos 120;
  theta = pos 280;
  gain_per_sec = pos 10;
  rate_cap_per_sec = pos 20000;
  ff_clamp_per_sec = pos 22000;
}

capped : fixed.ltf (pos 20000) (fixed.neg (pos 20000)) ≡ false
unfolding fixed ◌-ℤ◌
capped = refl

still : Within fixed fixed-Irreflexive (pos 20000) (fixed.lit 0 0)
unfolding fixed ◌-ℤ◌
still = (refl, refl)

decide_lem_example :
    let (rate, trim) = decide fixed estimate servo in
    Within fixed fixed-Irreflexive (pos 20000) rate
    × ((trim ≡ pos 0) × (pos 700 ≤ℤ pos 480 +ℤ pos 280)
        ⊎ (rate ≡ fixed.lit 0 0)
          × (pos 480 +ℤ trim ≡ pos 900)
          × (ltb_ℤ (pos 280) trim ≡ true)
          × (ltb_ℤ (pos 480 +ℤ pos 280) (pos 700) ≡ true))
decide_lem_example = decide_lem fixed fixed-Irreflexive estimate servo capped still (omega int_laws)
