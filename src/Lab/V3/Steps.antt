-- ===== src/Lab/V3/Steps.antt =====
-- The positions of a V3Buffer: every call keeps them in order, and a read leaves the fill at or
-- below the overrun line.
use panaudia_lasa.Prelude.{
  ℕ, ◌+◌, ◌*◌, ◌/◌, ◌≤◌, ◌<◌, ◌≡◌, ◌⊎◌, inl, inr, true, false, List, none, some, arith, ltb, ◌==◌,
  Bool-cases, Option-cases, length,
}
use panaudia_lasa.Prelude.Float.{Float}
use panaudia_lasa.Lab.V3.{V3Buffer, snap_target, v3_fill, v3_write, adapt, v3_start, v3_valves}
use panaudia_lasa.Lab.V3.Play.{v3_silence, v3_drop, v3_insert, v3_play, v3_finish, v3_read}
use panaudia_lasa.Lab.V3.Window.{IsSound, InBounds, Unmoved, adapt-Unmoved, adapt-InBounds}

module _ {S : Type 0} where
  pub record Placed (b : V3Buffer S) : Type 0 where
    pub sound : IsSound b.geo
    pub bounds : InBounds b
    pub ordered : b.read_pos ≤ b.write_pos

  -- What no read touches.
  pub record Kept (b c : V3Buffer S) : Type 0 where
    pub geo : c.geo ≡ b.geo
    pub write_pos : c.write_pos ≡ b.write_pos
    pub ring : c.ring ≡ b.ring

  pub write-Placed : (src : List S) {b : V3Buffer S} → Placed b → Placed (v3_write src b)
  unfolding v3_write
  write-Placed src v = ground arith

  adapt-Placed : (b : V3Buffer S) → Placed b → Placed (adapt b) × Unmoved b (adapt b)
  adapt-Placed b v = ground (arith, adapt-Unmoved b, adapt-InBounds b v.bounds)

  start-Placed :
      (b : V3Buffer S) {c : V3Buffer S}
      → Placed b
      → v3_start b ≡ some c
      → Placed c × Kept b c × (b.read_pos ≤ c.read_pos)
  unfolding v3_start
  start-Placed b v e = ground arith

  waiting :
      (b : V3Buffer S)
      → Placed b
      → v3_start b ≡ none
      → (b.read_pos ≡ 0) × (b.write_pos < snap_target b)
  unfolding v3_start
  waiting b v e = ground arith

  valves-Placed :
      (b : V3Buffer S)
      → Placed b
      → Placed (v3_valves b)
        × Kept b (v3_valves b)
        × (b.read_pos ≤ (v3_valves b).read_pos)
        × (v3_fill (v3_valves b) ≤ b.geo.floor + b.geo.l_max + 2 * b.geo.w + b.geo.h_max)
  unfolding v3_valves
  valves-Placed b v = ground arith

module _ {S : Type 0} (f32 : Float S) where
  play-Placed :
      (dst : List S) (n : ℕ) (b : V3Buffer S)
      → 0 < n
      → n ≤ v3_fill b
      → Placed b
      → let b' = (v3_play f32 dst n b).0 in
        Placed b'
        × Kept b b'
        × (b.read_pos ≤ b'.read_pos)
        × (b'.read_pos ≤ b.read_pos + n + 1)
        × (b.read_pos + n ≤ b'.read_pos + 1)
  unfolding v3_play v3_drop v3_insert
  play-Placed dst n b pos h v = ground arith

  finish-Placed :
      (dst : List S) (n : ℕ) (b : V3Buffer S)
      → 0 < n
      → Placed b
      → let (b', out, played) = v3_finish f32 dst n b in
        Placed b'
        × Kept b b'
        × (b.read_pos ≤ b'.read_pos)
        × ((played ≡ false) × (out ≡ v3_silence f32 dst) × (v3_fill b < n)
            ⊎ (played ≡ true) × (n ≤ v3_fill b))
  unfolding v3_finish
  finish-Placed dst n b pos v = elim (Bool-cases (ltb (v3_fill b) n)) [
    | inl short ↦ rw short (
        ground (
          arith,
          adapt-Placed (record b { underruns = b.underruns + 1 })
              (record {
                sound = v.sound;
                bounds = record {
                  low = v.bounds.low;
                  low_top = v.bounds.low_top;
                  high = v.bounds.high;
                  high_top = v.bounds.high_top;
                };
                ordered = v.ordered;
              }),
        ))
    | inr enough ↦
        let p = play-Placed dst n b pos (ground arith) v in
        rw enough (ground (arith, p, adapt-Placed (v3_play f32 dst n b).0 p.0))
  ]

  -- A read of a valid buffer that asks for at least a frame keeps it valid, with its allowances in
  -- their bounds, and touches neither the write position nor the ring. The read position never
  -- moves back, the fill is at most the highest overrun line after it, below the capacity, and
  -- where the read returns false it is silent.
  pub v3_read-Placed :
      (dst : List S) (b : V3Buffer S)
      → Placed b
      → 0 < length dst / b.geo.nc
      → let (b', out, played) = v3_read f32 dst b in
        Placed b'
        × Kept b b'
        × (b.read_pos ≤ b'.read_pos)
        × (v3_fill b' ≤ b.geo.floor + b.geo.l_max + 2 * b.geo.w + b.geo.h_max)
        × ((played ≡ false) × (out ≡ v3_silence f32 dst) ⊎ (played ≡ true))
  unfolding v3_read
  v3_read-Placed dst b v h =
      let asked : ((length dst / b.geo.nc) == 0) ≡ false = ground arith in
      elim (Option-cases (v3_start b)) [
        | inl e ↦ rw (asked, e, v3_read) (ground (arith, waiting b v e, adapt-Placed b v))
        | inr (c, e) ↦
            let up = start-Placed b v e in
            let g = valves-Placed c up.0 in
            rw (asked, e, v3_read)
              (ground (arith, up, g, finish-Placed dst (length dst / b.geo.nc) (v3_valves c) h g.0))
      ]
