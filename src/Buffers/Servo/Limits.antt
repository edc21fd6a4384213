-- ===== src/Buffers/Servo/Limits.antt =====
-- What the servo can order, and how the declared floors compose.
use native.Mathlib.Nat.{mul-le-mul_right}
use panaudia_lasa.Prelude.{
  ℕ, ◌+◌, ◌*◌, ◌≤◌, ◌≡◌, refl, ◌⊎◌, inl, inr, true, false, arith, if◌then◌else◌, Bool-cases,
}
use panaudia_lasa.Prelude.Int.{
  ℤ, pos, pos_part, ◌+ℤ◌, ◌-ℤ◌, ◌≤ℤ◌, ltb_ℤ, int_laws, ltb_ℤ→le, ltb_ℤ→lt, lt→ltb_ℤ,
}
use panaudia_lasa.Prelude.Float.{Float, Irreflexive}
use panaudia_lasa.Buffers.Servo.{
  WindowEstimate, ServoGeometry, soft_clamp, clamp_rate, decide, fec_floor,
}

module _ {F : Type 0} (fl : Float F) (irr : Irreflexive fl) where
  open fl use {lit, neg, ltf}

  -- Within ±c, as the comparisons of floats say it.
  abbrev pub Within : F → F → Type 0
  Within c v = (ltf c v ≡ false) × (ltf v (neg c) ≡ false)

  pub clamp_rate-Within : (v c : F) → ltf c (neg c) ≡ false → Within c (clamp_rate fl v c)
  unfolding clamp_rate
  clamp_rate-Within v c h = ground (arith, irr c, irr (neg c))

  -- The rate never exceeds the cap, for a cap that is not negative. A trim is ordered only when
  -- even the least fill of the window stands above the setpoint by more than theta; then the rate
  -- is zero, the trim takes the median fill to the setpoint, and it exceeds theta where the median
  -- is at least the least fill.
  pub decide_lem :
      (est : WindowEstimate F) (geo : ServoGeometry F)
      → ltf geo.rate_cap_per_sec (neg geo.rate_cap_per_sec) ≡ false
      → Within geo.rate_cap_per_sec (lit 0 0)
      → est.min_raw ≤ℤ est.median_raw
      → let (rate, trim) = decide fl est geo in
        Within geo.rate_cap_per_sec rate
        × ((trim ≡ pos 0) × (est.min_raw ≤ℤ geo.setpoint +ℤ geo.theta)
            ⊎ (rate ≡ lit 0 0)
              × (geo.setpoint +ℤ trim ≡ est.median_raw)
              × (ltb_ℤ geo.theta trim ≡ true)
              × (ltb_ℤ (geo.setpoint +ℤ geo.theta) est.min_raw ≡ true))
  unfolding decide
  decide_lem est geo h z m =
      let s = geo.setpoint in
      elim (Bool-cases (ltb_ℤ geo.theta (est.min_raw -ℤ s))) [
        | inl over ↦
            let far = ltb_ℤ→lt geo.theta (est.min_raw -ℤ s) over in
            rw over (
              z,
              inr (
                refl,
                omega int_laws,
                lt→ltb_ℤ geo.theta (est.median_raw -ℤ s) (omega int_laws),
                lt→ltb_ℤ (s +ℤ geo.theta) est.min_raw (omega int_laws),
              ),
            )
        | inr near ↦
            let e = est.median_raw -ℤ s in
            let p =
              if ltb_ℤ geo.deadband e
              then fl.mul geo.gain_per_sec (fl.of_int (e -ℤ geo.deadband))
              else lit 0 0 in
            let rate = fl.add p (soft_clamp fl est.slope_fps geo.ff_clamp_per_sec) in
            let close = ltb_ℤ→le geo.theta (est.min_raw -ℤ s) near in
            rw near (clamp_rate-Within rate geo.rate_cap_per_sec h, inl (refl, omega int_laws))
      ]

-- The floor of the forward error correction spans two repair holes: with an offset of n packets,
-- twice n + 2 frames, and nothing without redundancy. It never falls as the offset grows.
fec_floor_lem :
    (offset : ℕ) (less : ℤ) (frame : ℕ)
    → (less ≤ℤ pos offset)
    → (fec_floor less frame ≤ fec_floor (pos offset) frame)
      × ((offset ≡ 0) × (fec_floor (pos offset) frame ≡ 0)
          ⊎ (2 * (offset * frame) + 4 * frame ≡ fec_floor (pos offset) frame))
unfolding fec_floor
fec_floor_lem offset less frame h =
    ground (arith, mul-le-mul_right {m = 2 * (pos_part less + 2)} {n = 2 * (offset + 2)} frame)
