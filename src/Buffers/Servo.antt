-- ===== src/Buffers/Servo.antt =====
-- engine/buffers/jitter_buffer.go: the per-window decision law (softClamp, clampRate and
-- PServo.Decide) and the provisioning of a stream (QualityLevel, FECFloor).
-- A time.Duration is a count of nanoseconds, a float64 an element of `F`.
pub mod Limits
use panaudia_lasa.Prelude.{ℕ, ◌+◌, ◌*◌, Bool, ◌||◌, if◌then◌else◌}
use panaudia_lasa.Prelude.Int.{ℤ, pos, pos_part, ◌-ℤ◌, ltb_ℤ}
use panaudia_lasa.Prelude.Float.{Float}

pub record WindowEstimate (F : Type 0) : Type 0 where
  pub median_raw : ℤ
  pub min_raw : ℤ
  pub max_raw : ℤ
  pub width_low : ℤ
  pub width_high : ℤ
  pub slope_fps : F
  pub horizon_sec : F

pub record ServoGeometry (F : Type 0) : Type 0 where
  pub setpoint : ℤ
  pub deadband : ℤ
  pub theta : ℤ
  pub gain_per_sec : F
  pub rate_cap_per_sec : F
  pub ff_clamp_per_sec : F

-- The seam: a rate for the next window, and a trim.
abbrev pub Controller : Type 0 → Type 0
Controller F = WindowEstimate F → ServoGeometry F → F × ℤ

abbrev pub millisecond : ℕ
millisecond = 1_000_000

module _ {F : Type 0} (fl : Float F) where
  open fl use {lit, neg, add, mul, div, ltf, of_int}

  unfoldable pub soft_clamp : F → F → F
  soft_clamp v c = if ltf c v || ltf v (neg c) then div (mul c c) v else v

  unfoldable pub clamp_rate : F → F → F
  clamp_rate v cap_ = if ltf cap_ v then cap_ else if ltf v (neg cap_) then neg cap_ else v

  unfoldable pub decide : Controller F
  unfolding clamp_rate soft_clamp
  decide est geo =
      let e = est.median_raw -ℤ geo.setpoint in
      let ff = soft_clamp est.slope_fps geo.ff_clamp_per_sec in
      let p =
        if ltb_ℤ geo.deadband e
        then mul geo.gain_per_sec (of_int (e -ℤ geo.deadband))
        else lit 0 0 in
      if ltb_ℤ geo.theta (est.min_raw -ℤ geo.setpoint)
      then (lit 0 0, e)
      else (clamp_rate (add p ff) geo.rate_cap_per_sec, pos 0)

  -- (floor, robustness, capacity)
  unfoldable pub quality_level : ℤ → ℕ × F × ℕ
  quality_level level =
      if ltb_ℤ level (pos 1)
      then (0, lit 1 0, 0)
      else if ltb_ℤ level (pos 2)
      then (50 * millisecond, lit 4 0, 500 * millisecond)
      else (150 * millisecond, lit 8 0, 400 * millisecond)

unfoldable pub fec_floor : ℤ → ℕ → ℕ
fec_floor max_offset writer_frame =
    if ltb_ℤ (pos 0) max_offset then 2 * (pos_part max_offset + 2) * writer_frame else 0
