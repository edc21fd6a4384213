-- ===== src/Buffers/Jitter/Valid.antt =====
-- The positions of a jitter buffer: what every call keeps, and the room that a read leaves.
use panaudia_lasa.Prelude.{ℕ, ◌+◌, ◌*◌, ◌≤◌, ◌<◌, ◌≡◌, refl, ◌⊎◌, List, some, arith, [], ◌∷◌, ◌++◌}
use panaudia_lasa.Prelude.Int.{ℤ, pos, ◌-ℤ◌, min_ℤ}
use panaudia_lasa.Prelude.Float.{Float}
use panaudia_lasa.Buffers.Stats.{win_stats}
use panaudia_lasa.Buffers.Jitter.{JitterBuffer, Geometry}
use panaudia_lasa.Buffers.Jitter.Window.{
  learn_widths, learn_drift, place_setpoint, act, close_window, observe_delivery, sense,
}
use panaudia_lasa.Buffers.Jitter.Play.{write, start_up, trim, fill, valves}

-- A geometry in which the highest setpoint leaves room for a write and a read below the capacity.
pub record IsSound {F : Type 0} (g : Geometry F) : Type 0 where
  pub channels : 0 < g.nc
  pub writes : 0 < g.w
  pub reads : 0 < g.r
  pub room : g.sp_max + (g.w + g.r) ≤ g.capacity

module _ {F S : Type 0} where
  pub record Placed (b : JitterBuffer F S) : Type 0 where
    pub sound : IsSound b.geo
    pub ordered : b.read_pos ≤ b.write_pos
    pub setpoint_in : b.setpoint ≤ b.geo.sp_max

  -- What a read never touches, and what it leaves alone before it plays.
  pub record Kept (b c : JitterBuffer F S) : Type 0 where
    pub geo : c.geo ≡ b.geo
    pub write_pos : c.write_pos ≡ b.write_pos
    pub ring : c.ring ≡ b.ring

  pub record Same (b c : JitterBuffer F S) : Type 0 where
    pub geo : c.geo ≡ b.geo
    pub write_pos : c.write_pos ≡ b.write_pos
    pub ring : c.ring ≡ b.ring
    pub dropped : c.dropped ≡ b.dropped
    pub inserted : c.inserted ≡ b.inserted

  pub write-Placed : (src : List S) {b : JitterBuffer F S} → Placed b → Placed (write src b)
  unfolding write
  write-Placed src v = ground arith

  pub start_up-Placed :
      (b : JitterBuffer F S) {c : JitterBuffer F S}
      → Placed b
      → start_up b ≡ some c
      → Placed c × Same b c
  unfolding start_up
  start_up-Placed b v e = ground arith

  pub trim-Placed : (b : JitterBuffer F S) → Placed b → Placed (trim b) × Same b (trim b)
  unfolding trim
  trim-Placed b v = ground arith

  -- The valves leave room below the capacity, and snap exactly to the setpoint.
  pub valves-Placed :
      (b : JitterBuffer F S)
      → Placed b
      → Placed (valves b)
        × Same b (valves b)
        × (fill (valves b) + (b.geo.w + b.geo.r) ≤ b.geo.capacity)
        × ((valves b ≡ b) ⊎ (fill (valves b) ≡ b.setpoint))
  unfolding valves
  valves-Placed b v = ground arith

module _ {F S : Type 0} (fl : Float F) where
  act-Same :
      (m : ℤ × ℤ × ℤ) (b : JitterBuffer F S)
      → Same b (act fl m b)
        × ((act fl m b).read_pos ≡ b.read_pos)
        × ((act fl m b).setpoint ≡ b.setpoint)
  unfolding act
  act-Same m b = ground arith

  place_setpoint-le : (b : JitterBuffer F S) → place_setpoint fl b ≤ b.geo.sp_max
  unfolding place_setpoint
  place_setpoint-le b = ground arith

  pub observe_delivery-Same :
      (b : JitterBuffer F S)
      → Same b (observe_delivery fl b)
        × ((observe_delivery fl b).read_pos ≡ b.read_pos)
        × ((observe_delivery fl b).setpoint ≡ b.setpoint)
  unfolding observe_delivery
  observe_delivery-Same b = ground arith

  learn-Same :
      (m k l : ℤ) (b : JitterBuffer F S)
      → let c = learn_drift fl m (learn_widths fl k l b) in
        Same b c × (c.read_pos ≡ b.read_pos) × (c.setpoint ≡ b.setpoint)
  unfolding learn_widths learn_drift
  learn-Same m k l b = (
    record { geo = refl; write_pos = refl; ring = refl; dropped = refl; inserted = refl },
    refl,
    refl,
  )

  close_window-Same :
      (b : JitterBuffer F S)
      → Same b (close_window fl b)
        × ((close_window fl b).read_pos ≡ b.read_pos)
        × ((close_window fl b).setpoint ≤ b.geo.sp_max)
  unfolding close_window
  close_window-Same b =
      let (med_v, min_v, max_v) = win_stats b.virt_buf in
      let wl_meas = min_ℤ (med_v -ℤ min_v) (pos b.geo.wl_cap) in
      let b1 = learn_drift fl med_v (learn_widths fl wl_meas (max_v -ℤ med_v) b) in
      let b2 = record b1 { setpoint = place_setpoint fl b1 } in
      ground (
        arith,
        learn-Same med_v wl_meas (max_v -ℤ med_v) b,
        place_setpoint-le b1,
        act-Same (win_stats b.raw_buf) b2,
      )

  pub sense-Same :
      (n : ℕ) (b : JitterBuffer F S)
      → b.setpoint ≤ b.geo.sp_max
      → Same b (sense fl n b)
        × ((sense fl n b).read_pos ≡ b.read_pos)
        × ((sense fl n b).setpoint ≤ b.geo.sp_max)
  unfolding sense
  sense-Same n b h =
      let b1 = record (observe_delivery fl b) { tick = b.tick + 1 } in
      let b2 = record b1 {
        raw_buf = b1.raw_buf ++ (pos n ∷ []);
        virt_buf = b1.virt_buf ++ ((pos b.write_pos -ℤ pos (b.geo.r * b.tick)) ∷ []);
      } in
      ground (arith, observe_delivery-Same b, close_window-Same b2)
