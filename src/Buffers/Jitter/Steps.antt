-- ===== src/Buffers/Jitter/Steps.antt =====
-- A read as a whole: it keeps a buffer valid, leaves room below the capacity, and is silent exactly
-- when it says so.
use panaudia_lasa.Prelude.{
  ℕ, ◌+◌, ◌/◌, ◌≤◌, ◌<◌, ◌≡◌, refl, ◌⊎◌, inl, inr, true, false, List, none, some, arith, ltb, ◌==◌,
  Bool-cases, Option-cases, length,
}
use panaudia_lasa.Prelude.Float.{Float}
use panaudia_lasa.Buffers.Jitter.{JitterBuffer}
use panaudia_lasa.Buffers.Jitter.Window.{sense}
use panaudia_lasa.Buffers.Jitter.Play.{
  start_up, trim, fill, valves, silence, pay_debt, choose, play_cut, Cut, drop_one, insert_one,
  as_is, play, finish, read,
}
use panaudia_lasa.Buffers.Jitter.Valid.{
  Placed, Same, Kept, start_up-Placed, trim-Placed, valves-Placed, sense-Same,
}

module _ {F S : Type 0} (fl : Float F) (f32 : Float S) where
  pub pay_debt-Same :
      (b : JitterBuffer F S)
      → Same b (pay_debt fl f32 b)
        × ((pay_debt fl f32 b).read_pos ≡ b.read_pos)
        × ((pay_debt fl f32 b).setpoint ≡ b.setpoint)
  unfolding pay_debt
  pay_debt-Same b = ground arith

  -- A drop is chosen only with a frame to spare, an insert only for two frames or more.
  choose_fits :
      (n : ℕ) (b : JitterBuffer F S)
      → ((choose fl f32 n b ≡ drop_one) → n + 1 ≤ fill b)
        × ((choose fl f32 n b ≡ insert_one) → 2 ≤ n)
  unfolding choose
  choose_fits n b = (λ e. ground arith, λ e. ground arith)

  play_cut-Placed :
      (c : Cut) (dst : List S) (n : ℕ) (b : JitterBuffer F S)
      → (c ≡ drop_one → n + 1 ≤ fill b)
      → (c ≡ insert_one → 2 ≤ n)
      → n ≤ fill b
      → Placed b
      → let b' = (play_cut fl f32 c dst n b).0 in
        Placed b' × Kept b b' × (b.read_pos + n ≤ b'.read_pos + 1) × (b.read_pos ≤ b'.read_pos)
  unfolding play_cut
  play_cut-Placed drop_one dst n b d i h v = let d' = d refl in ground arith
  play_cut-Placed insert_one dst n b d i h v = let i' = i refl in ground arith
  play_cut-Placed as_is dst n b d i h v = ground arith

  play-Placed :
      (dst : List S) (n : ℕ) (b : JitterBuffer F S)
      → n ≤ fill b
      → Placed b
      → let b' = (play fl f32 dst n b).0 in
        Placed b' × Kept b b' × (b.read_pos + n ≤ b'.read_pos + 1) × (b.read_pos ≤ b'.read_pos)
  unfolding play
  play-Placed dst n b h v =
      let b1 = pay_debt fl f32 b in
      let same = pay_debt-Same b in
      let v1 : Placed b1 = ground (arith, same) in
      let h1 : n ≤ fill b1 = ground (arith, same) in
      let fits = choose_fits n b1 in
      ground (arith, same, play_cut-Placed (choose fl f32 n b1) dst n b1 fits.0 fits.1 h1 v1)

  finish-Placed :
      (dst : List S) (n : ℕ) (b : JitterBuffer F S)
      → Placed b
      → let (b', out, played) = finish fl f32 dst n b in
        Placed b'
        × Kept b b'
        × (b.read_pos ≤ b'.read_pos)
        × ((played ≡ false) × (out ≡ silence fl f32 dst) × (fill b < n) × (b'.read_pos ≡ b.read_pos)
            ⊎ (played ≡ true) × (n ≤ fill b) × (b.read_pos + n ≤ b'.read_pos + 1))
  unfolding finish
  finish-Placed dst n b v = elim (Bool-cases (ltb (fill b) n)) [
    | inl short ↦ rw short (ground arith)
    | inr enough ↦ rw enough (ground (arith, play-Placed dst n b (ground arith) v))
  ]

  -- The buffer after trim, valves and sensing, with its fill before the read.
  abbrev pub gated : JitterBuffer F S → JitterBuffer F S
  gated b = let b2 = valves (trim b) in sense fl (fill b2) b2

  pub gated-Placed :
      (b : JitterBuffer F S)
      → Placed b
      → Placed (gated b)
        × Same b (gated b)
        × (fill (gated b) + (b.geo.w + b.geo.r) ≤ b.geo.capacity)
  gated-Placed b v =
      let t = trim-Placed b v in
      let g = valves-Placed (trim b) t.0 in
      ground (arith, t, g, sense-Same fl (fill (valves (trim b))) (valves (trim b)) g.0.setpoint_in)

  -- What `read` does: it waits, or it starts and finishes.
  pub read_cases :
      (dst : List S) (b : JitterBuffer F S)
      → 0 < length dst / b.geo.nc
      → ((start_up b ≡ none) × (read fl f32 dst b ≡ (b, silence fl f32 dst, false)))
        ⊎ ((c : JitterBuffer F S) × (start_up b ≡ some c)
            × (read fl f32 dst b ≡ finish fl f32 dst (length dst / b.geo.nc) (gated c)))
  unfolding read
  read_cases dst b h =
      let asked : ((length dst / b.geo.nc) == 0) ≡ false = ground arith in
      elim (Option-cases (start_up b)) [
        | inl e ↦ inl (e, rw (asked, e, read))
        | inr (c, e) ↦ inr (c, e, rw (asked, e, read))
      ]

  waiting :
      (b : JitterBuffer F S)
      → Placed b
      → start_up b ≡ none
      → (b.read_pos ≡ 0) × (b.write_pos < b.setpoint)
  unfolding start_up
  waiting b v e = ground arith

  -- A read of a valid buffer that asks for at least a frame keeps it valid, whatever the read
  -- does, and touches neither the write position nor the ring. It leaves room for a writer frame
  -- and a reader frame below the capacity, and where it returns false, it is silent.
  pub read-Placed :
      (dst : List S) (b : JitterBuffer F S)
      → Placed b
      → 0 < length dst / b.geo.nc
      → let (b', out, played) = read fl f32 dst b in
        Placed b'
        × Kept b b'
        × (fill b' + (b.geo.w + b.geo.r) ≤ b.geo.capacity)
        × ((played ≡ false) × (out ≡ silence fl f32 dst) ⊎ (played ≡ true))
  read-Placed dst b v h = elim (read_cases dst b h) [
    | inl (e, r) ↦ rw r (ground (arith, waiting b v e, v.sound.room))
    | inr (c, e, r) ↦ rw r (
        ground (
          arith,
          start_up-Placed b v e,
          gated-Placed c (start_up-Placed b v e).0,
          finish-Placed dst (length dst / b.geo.nc) (gated c)
              (gated-Placed c (start_up-Placed b v e).0).0,
        ))
  ]
