-- ===== src/Buffers/Jitter/Audio.antt =====
-- What a reader hears is what was written: the buffer against the stream of its samples.
use native.Mathlib.Nat.{mul-le-mul_right, mul-div_cancel}
use panaudia_lasa.Prelude.{
  ℕ, ◌+◌, ◌-◌, ◌*◌, ◌/◌, ◌≤◌, ◌<◌, ◌≡◌, refl, sym, ◌∙◌, ap, inl, inr, true, List, ◌++◌, arith, ltb,
  ◌==◌, Bool-cases, length, take, drop,
}
use panaudia_lasa.Prelude.Float.{Float}
use panaudia_lasa.Buffers.Ring.{read_from_ring}
use panaudia_lasa.Buffers.Ring.Accept.{accepted, accepted-Holds}
use panaudia_lasa.Buffers.Ring.Held.{Holds, read_from_ring-stream}
use panaudia_lasa.Buffers.Jitter.{JitterBuffer}
use panaudia_lasa.Buffers.Jitter.Play.{
  write, fill, pay_debt, choose, play_cut, Cut, drop_one, insert_one, as_is, play, finish, read,
}
use panaudia_lasa.Buffers.Jitter.Valid.{Placed, start_up-Placed}
use panaudia_lasa.Buffers.Jitter.Steps.{gated, gated-Placed, read_cases, pay_debt-Same}

module _ {F S : Type 0} where
  pub record Streams (b : JitterBuffer F S) (written : List S) : Type 0 where
    pub held : Holds b.geo.capacity b.geo.nc b.ring written
    pub counted : length written ≡ b.write_pos * b.geo.nc

  -- A write appends the samples that it accepts to the stream that the buffer holds.
  pub write-Streams :
      (src written : List S) (b : JitterBuffer F S)
      → Placed b
      → Streams b written
      → Streams (write src b) (written ++ accepted b.geo.capacity b.geo.nc src)
  unfolding write
  write-Streams src written b v st =
      let full : 0 < b.geo.capacity = omega (arith, v.sound.room, v.sound.writes) in
      let after =
        accepted-Holds b.geo.capacity b.geo.nc b.ring src written b.write_pos full v.sound.channels
          st.held st.counted in
      elim (Bool-cases (length src / b.geo.nc == 0)) [
        | inl e ↦ let kept = rw e at after in rw e (record { held = kept.0; counted = kept.1 })
        | inr e ↦ let kept = rw e at after in rw e (record { held = kept.0; counted = kept.1 })
      ]

module _ {F S : Type 0} (fl : Float F) (f32 : Float S) where
  play_cut_as_is :
      (c : Cut) (dst : List S) (n : ℕ) (b : JitterBuffer F S)
      → let (b', out) = play_cut fl f32 c dst n b in
        b'.dropped ≡ b.dropped
        → b'.inserted ≡ b.inserted
        → (b'.read_pos ≡ b.read_pos + n)
          × (out ≡ read_from_ring b.geo.capacity b.geo.nc b.ring dst b.read_pos n)
  unfolding play_cut
  play_cut_as_is drop_one dst n b d i = absurd (omega arith)
  play_cut_as_is insert_one dst n b d i = absurd (omega arith)
  play_cut_as_is as_is dst n b d i = (refl, refl)

  play_as_is :
      (dst : List S) (n : ℕ) (b : JitterBuffer F S)
      → let (b', out) = play fl f32 dst n b in
        b'.dropped ≡ b.dropped
        → b'.inserted ≡ b.inserted
        → (b'.read_pos ≡ b.read_pos + n)
          × (out ≡ read_from_ring b.geo.capacity b.geo.nc b.ring dst b.read_pos n)
  unfolding play
  play_as_is dst n b d i =
      let b1 = pay_debt fl f32 b in
      let same = pay_debt-Same fl f32 b in
      ground (arith, same, play_cut_as_is (choose fl f32 n b1) dst n b1)

  finish_as_is :
      (dst : List S) (n : ℕ) (b : JitterBuffer F S)
      → let (b', out, played) = finish fl f32 dst n b in
        played ≡ true
        → b'.dropped ≡ b.dropped
        → b'.inserted ≡ b.inserted
        → (n ≤ fill b)
          × (b'.read_pos ≡ b.read_pos + n)
          × (out ≡ read_from_ring b.geo.capacity b.geo.nc b.ring dst b.read_pos n)
  unfolding finish
  finish_as_is dst n b p d i = elim (Bool-cases (ltb (fill b) n)) [
    | inl short ↦ ground arith
    | inr enough ↦ ground (arith, play_as_is dst n b)
  ]

  heard :
      (dst written : List S) (n : ℕ) (b g : JitterBuffer F S)
      → Placed b
      → Streams b written
      → g.geo ≡ b.geo
      → g.ring ≡ b.ring
      → g.write_pos ≡ b.write_pos
      → Placed g
      → fill g ≤ b.geo.capacity
      → n ≤ fill g
      → length dst ≡ n * b.geo.nc
      → (rp : ℕ) {out : List S} → rp ≡ g.read_pos + n
      → out ≡ read_from_ring g.geo.capacity g.geo.nc g.ring dst g.read_pos n
      → (n ≤ rp) × (out ≡ take (n * b.geo.nc) (drop ((rp - n) * b.geo.nc) written))
  heard dst written n b g v st geo ring wp vg room fits ld rp moved out =
      let nc = b.geo.nc in
      let cap = b.geo.capacity in
      let start : rp - n ≡ g.read_pos = omega arith in
      let inside : (g.read_pos + n) * nc ≤ length written =
        rw st.counted (mul-le-mul_right {m = g.read_pos + n} {n = b.write_pos} nc (omega arith)) in
      let recent : length written ≤ (g.read_pos + cap) * nc =
        rw st.counted
          (mul-le-mul_right {m = b.write_pos} {n = g.read_pos + cap} nc (omega arith)) in
      let full : 0 < cap = omega (arith, v.sound.room, v.sound.writes) in
      let played : read_from_ring g.geo.capacity g.geo.nc g.ring dst g.read_pos n
          ≡ take (n * nc) (drop (g.read_pos * nc) written) =
        rw (geo, ring)
          (read_from_ring-stream cap nc b.ring dst written g.read_pos n full v.sound.channels
            st.held ld inside recent) in
      (omega arith, rw start (out ∙ played))

  -- A read of a valid buffer that holds the end of a stream, into a destination of `n` whole
  -- frames, at least one: if it plays, and neither drops nor inserts a frame, then it plays the
  -- stream as it was written, the `n` frames just before the new read position.
  pub read-stream :
      (dst written : List S) (n : ℕ) (b : JitterBuffer F S)
      → Placed b
      → Streams b written
      → 0 < n
      → length dst ≡ n * b.geo.nc
      → let (b', out, played) = read fl f32 dst b in
        played ≡ true
        → b'.dropped ≡ b.dropped
        → b'.inserted ≡ b.inserted
        → (n ≤ b'.read_pos)
          × (out ≡ take (n * b.geo.nc) (drop ((b'.read_pos - n) * b.geo.nc) written))
  read-stream dst written n b v st pos ld =
      let nc = b.geo.nc in
      let cap = b.geo.capacity in
      let asked : length dst / nc ≡ n = rw ld (mul-div_cancel n v.sound.channels) in
      let some_in : 0 < length dst / nc = omega arith in
      elim (read_cases fl f32 dst b some_in) [
        | inl (e, r) ↦ rw r (λ p d i. ground arith)
        | inr (c, e, r) ↦
            let up = start_up-Placed b v e in
            let g = gated fl f32 c in
            let gp = gated-Placed fl f32 c up.0 in
            let done = finish_as_is dst n g in
            let geo : g.geo ≡ b.geo = cc (up.1.geo, gp.1.geo) in
            let ring : g.ring ≡ b.ring = cc (up.1.ring, gp.1.ring) in
            let wp : g.write_pos ≡ b.write_pos = cc (up.1.write_pos, gp.1.write_pos) in
            let drops : g.dropped ≡ b.dropped = cc (up.1.dropped, gp.1.dropped) in
            let inserts : g.inserted ≡ b.inserted = cc (up.1.inserted, gp.1.inserted) in
            let room : fill g ≤ b.geo.capacity =
              omega (arith, gp.2, ap (λ x. x.capacity) {x = c.geo} {y = b.geo} up.1.geo) in
            rw (r, asked)
              (λ p d i.
                let (fits, moved, out) = done p (d ∙ sym drops) (i ∙ sym inserts) in
                heard dst written n b g v st geo ring wp gp.0 room fits ld _ moved out)
      ]
