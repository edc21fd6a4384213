-- ===== src/Lab/V3/Window.antt =====
-- The adaptive window of a V3Buffer: its allowances keep their bounds and move a step at a time.
use panaudia_lasa.Prelude.{
  ℕ, ◌+◌, ◌-◌, ◌*◌, ◌≤◌, ◌<◌, ◌≡◌, ◌⊎◌, inl, inr, min, max, if◌then◌else◌, arith, ltb, leb,
  Bool-cases,
}
use panaudia_lasa.Lab.V3.{V3Geometry, V3Buffer, v3_decide, adapt}

-- Room for the highest overrun line below the capacity.
pub record IsSound (g : V3Geometry) : Type 0 where
  pub channels : 0 < g.nc
  pub writes : 0 < g.w
  pub floored : 0 < g.floor
  pub room : g.floor + g.l_max + 2 * g.w + g.h_max < g.capacity

up :
    (x top step : ℕ)
    → let y = if ltb x top then min (x + step) top else x in (x ≤ y) × (y ≤ x + step)
up x top step = ground arith

down :
    (x bottom step : ℕ)
    → let y = if ltb bottom x then max (x - step) bottom else x in (y ≤ x) × (x ≤ y + step)
down x bottom step = ground arith

module _ {S : Type 0} where
  pub record InBounds (b : V3Buffer S) : Type 0 where
    pub low : b.geo.l_min ≤ b.current_l
    pub low_top : b.current_l ≤ b.geo.l_max
    pub high : b.geo.h_min ≤ b.current_h
    pub high_top : b.current_h ≤ b.geo.h_max

  -- What adapting leaves alone.
  pub record Unmoved (b c : V3Buffer S) : Type 0 where
    pub geo : c.geo ≡ b.geo
    pub write_pos : c.write_pos ≡ b.write_pos
    pub read_pos : c.read_pos ≡ b.read_pos
    pub ring : c.ring ≡ b.ring

  decide-InBounds : (i d : ℕ) (b : V3Buffer S) → InBounds b → InBounds (v3_decide i d b)
  unfolding v3_decide
  decide-InBounds i d b v = ground arith

  pub adapt-Unmoved : (b : V3Buffer S) → Unmoved b (adapt b)
  unfolding adapt v3_decide
  adapt-Unmoved b = ground arith

  pub adapt-InBounds : (b : V3Buffer S) → InBounds b → InBounds (adapt b)
  unfolding adapt
  adapt-InBounds b v = ground (
    arith,
    decide-InBounds b.insert_count b.drop_count
        (record b { last_win_inserts = b.insert_count; last_win_drops = b.drop_count })
        (record { low = v.low; low_top = v.low_top; high = v.high; high_top = v.high_top }),
  )

  -- A window widens a side by the widen step at most, and only if both sides were corrected as
  -- often as the threshold; it narrows a side by the narrow step at most, and only if that side
  -- was not corrected at all. So one side never widens while the other narrows.
  pub v3_decide_lem :
      (i d : ℕ) (b : V3Buffer S)
      → 0 < b.geo.widen_threshold
      → let c = v3_decide i d b in
        (c.current_l ≤ b.current_l + b.geo.widen_step)
        × (b.current_l ≤ c.current_l + b.geo.narrow_step)
        × (c.current_h ≤ b.current_h + b.geo.widen_step)
        × (b.current_h ≤ c.current_h + b.geo.narrow_step)
        × ((c.current_l ≤ b.current_l) × (c.current_h ≤ b.current_h)
            ⊎ (b.geo.widen_threshold ≤ i)
              × (b.geo.widen_threshold ≤ d)
              × (b.current_l ≤ c.current_l)
              × (b.current_h ≤ c.current_h))
        × ((b.current_l ≤ c.current_l) ⊎ (i ≡ 0))
        × ((b.current_h ≤ c.current_h) ⊎ (d ≡ 0))
  unfolding v3_decide
  v3_decide_lem i d b h = elim (Bool-cases (leb b.geo.widen_threshold (min i d))) [
    | inl jitter ↦ rw jitter (
        ground (
          arith,
          up b.current_l b.geo.l_max b.geo.widen_step,
          up b.current_h b.geo.h_max b.geo.widen_step,
        ))
    | inr calm ↦ rw calm (
        ground (
          arith,
          down b.current_l b.geo.l_min b.geo.narrow_step,
          down b.current_h b.geo.h_min b.geo.narrow_step,
        ))
  ]
