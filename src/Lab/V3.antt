-- ===== src/Lab/V3.antt =====
-- engine/jitterlab/v3.go: V3Buffer, whose operating window widens and narrows by its own corrections.
-- Frame counts and positions are natural numbers, a sample is an `S`. The ring is that of
-- Buffers/Ring, whose code v3.go repeats. A negative duration in the configuration is outside the
-- model.
pub mod Play
pub mod Stats
pub mod Window
pub mod Steps
pub mod Run
use panaudia_lasa.Prelude.{
  [], ◌∷◌, ℕ, ◌+◌, ◌-◌, ◌*◌, ◌/◌, ◌%◌, min, max, Bool, true, false, not, ◌&&◌, ◌||◌, List, Option,
  none, some, ltb, leb, ◌==◌, if◌then◌else◌, length, take, drop, overwrite, replicate,
}
use panaudia_lasa.Prelude.Float.{Float}
use panaudia_lasa.Buffers.Servo.{millisecond}
use panaudia_lasa.Buffers.Ring.{write_to_ring, read_from_ring}

-- Durations in nanoseconds; zero asks for the default.
pub record V3Config : Type 0 where
  pub sample_rate : ℕ
  pub num_channels : ℕ
  pub writer_frame_size : ℕ
  pub reader_frame_size : ℕ
  pub safety : ℕ
  pub low_init : ℕ
  pub low_min : ℕ
  pub low_max : ℕ
  pub high_init : ℕ
  pub high_min : ℕ
  pub high_max : ℕ

-- What the constructor fixes.
pub record V3Geometry : Type 0 where
  pub capacity : ℕ
  pub floor : ℕ
  pub w : ℕ
  pub nc : ℕ
  pub sr : ℕ
  pub l_min : ℕ
  pub l_max : ℕ
  pub h_min : ℕ
  pub h_max : ℕ
  pub window_reads : ℕ
  pub widen_threshold : ℕ
  pub widen_step : ℕ
  pub narrow_step : ℕ

pub record V3Buffer (S : Type 0) : Type 0 where
  pub geo : V3Geometry
  pub write_pos : ℕ
  pub read_pos : ℕ
  pub ring : List S
  pub current_l : ℕ
  pub current_h : ℕ
  pub last_win_inserts : ℕ
  pub last_win_drops : ℕ
  pub insert_count : ℕ
  pub drop_count : ℕ
  pub reads_this_window : ℕ
  pub underruns : ℕ
  pub overruns : ℕ
  pub laps : ℕ
  pub dropped : ℕ
  pub inserted : ℕ

abbrev pub default_val : ℕ → ℕ → ℕ
default_val v def = if v == 0 then def else v

abbrev pub frames_in : ℕ → ℕ → ℕ
frames_in sr d = d * sr / (1000 * millisecond)

-- The frame counts of a configuration, and the panics on them.
pub record Frames : Type 0 where
  pub w : ℕ
  pub r : ℕ
  pub s : ℕ
  pub l_min : ℕ
  pub l_init : ℕ
  pub l_max : ℕ
  pub h_min : ℕ
  pub h_init : ℕ
  pub h_max : ℕ

unfoldable pub frames_of : V3Config → ℕ → Frames
frames_of cfg sr =
    let w = default_val cfg.writer_frame_size (20 * millisecond) in
    record {
      w = frames_in sr w;
      r = frames_in sr (default_val cfg.reader_frame_size (5 * millisecond));
      s = frames_in sr (default_val cfg.safety millisecond);
      l_min = frames_in sr (default_val cfg.low_min (2 * millisecond));
      l_init = frames_in sr (default_val cfg.low_init (5 * millisecond));
      l_max = frames_in sr (default_val cfg.low_max (30 * millisecond));
      h_min = frames_in sr (default_val cfg.high_min w);
      h_init = frames_in sr (default_val cfg.high_init w);
      h_max = frames_in sr (default_val cfg.high_max (3 * w));
    }

unfoldable pub frames_ok : Frames → Bool
frames_ok f =
    not (f.r == 0 || f.w == 0)
    && (leb f.l_min f.l_init && leb f.l_init f.l_max)
    && (leb f.h_min f.h_init && leb f.h_init f.h_max)

unfoldable pub v3_geometry : Frames → (sr nc : ℕ) → V3Geometry
v3_geometry f sr nc =
    let band_top = f.r + f.s + f.l_max + 2 * f.w + f.h_max in
    record {
      capacity = 2 * band_top + 2 * max f.w f.r;
      floor = f.r + f.s;
      w = f.w;
      nc = nc;
      sr = sr;
      l_min = f.l_min;
      l_max = f.l_max;
      h_min = f.h_min;
      h_max = f.h_max;
      window_reads = 400;
      widen_threshold = 5;
      widen_step = frames_in sr (2 * millisecond);
      narrow_step = sr * 500 / 1000000;
    }

module _ {S : Type 0} (f32 : Float S) where
  unfoldable pub v3_fresh : Frames → V3Geometry → V3Buffer S
  v3_fresh f geo = record {
    geo = geo;
    write_pos = 0;
    read_pos = 0;
    ring = replicate (geo.capacity * geo.nc) (f32.lit 0 0);
    current_l = f.l_init;
    current_h = f.h_init;
    last_win_inserts = 0;
    last_win_drops = 0;
    insert_count = 0;
    drop_count = 0;
    reads_this_window = 0;
    underruns = 0;
    overruns = 0;
    laps = 0;
    dropped = 0;
    inserted = 0;
  }

  -- NewV3Buffer; `none` is its panic.
  unfoldable pub new_v3_buffer : V3Config → Option (V3Buffer S)
  unfolding frames_of frames_ok v3_geometry v3_fresh
  new_v3_buffer cfg =
      let sr = default_val cfg.sample_rate 48000 in
      let nc = default_val cfg.num_channels 1 in
      let f = frames_of cfg sr in
      if frames_ok f then some (v3_fresh f (v3_geometry f sr nc)) else none

module _ {S : Type 0} where
  -- The operating thresholds of the live window.
  abbrev pub snap_target : V3Buffer S → ℕ
  snap_target b = b.geo.floor + b.current_l + b.geo.w

  abbrev pub drop_line : V3Buffer S → ℕ
  drop_line b = b.geo.floor + b.current_l + b.geo.w + b.current_h

  abbrev pub overrun_at : V3Buffer S → ℕ
  overrun_at b = b.geo.floor + b.current_l + 2 * b.geo.w + b.current_h

  abbrev pub v3_fill : V3Buffer S → ℕ
  v3_fill b = b.write_pos - b.read_pos

  unfoldable pub v3_write : List S → V3Buffer S → V3Buffer S
  v3_write src b =
      let cap = b.geo.capacity in
      let n = length src / b.geo.nc in
      let clipped = ltb cap n in
      let src' = if clipped then drop ((n - cap) * b.geo.nc) src else src in
      let n' = if clipped then cap else n in
      if n == 0 then b else record b {
        ring = write_to_ring cap b.geo.nc b.ring src' b.write_pos n';
        write_pos = b.write_pos + n';
      }

  -- The allowances after a window with these counts of corrections.
  unfoldable pub v3_decide : ℕ → ℕ → V3Buffer S → V3Buffer S
  v3_decide inserts drops b =
      let g = b.geo in
      let wider_l =
        if ltb b.current_l g.l_max then min (b.current_l + g.widen_step) g.l_max else b.current_l in
      let wider_h =
        if ltb b.current_h g.h_max then min (b.current_h + g.widen_step) g.h_max else b.current_h in
      let narrower_l =
        if ltb g.l_min b.current_l
        then max (b.current_l - g.narrow_step) g.l_min
        else b.current_l in
      let narrower_h =
        if ltb g.h_min b.current_h
        then max (b.current_h - g.narrow_step) g.h_min
        else b.current_h in
      if leb g.widen_threshold (min inserts drops)
      then record b {
        current_l = if leb g.widen_threshold inserts then wider_l else b.current_l;
        current_h = if leb g.widen_threshold drops then wider_h else b.current_h;
      }
      else record b {
        current_l = if inserts == 0 then narrower_l else b.current_l;
        current_h = if drops == 0 then narrower_h else b.current_h;
      }

  unfoldable pub adapt : V3Buffer S → V3Buffer S
  unfolding v3_decide
  adapt b =
      let ticked = record b { reads_this_window = b.reads_this_window + 1 } in
      let published = record b {
        last_win_inserts = b.insert_count;
        last_win_drops = b.drop_count;
      } in
      if b.geo.window_reads == 0
      then b
      else if ltb ticked.reads_this_window b.geo.window_reads
      then ticked
      else record (v3_decide b.insert_count b.drop_count published) {
        insert_count = 0;
        drop_count = 0;
        reads_this_window = 0;
      }

  -- 1. `none` while the buffer waits for its operating point.
  unfoldable pub v3_start : V3Buffer S → Option (V3Buffer S)
  v3_start b =
      if b.read_pos == 0
      then if ltb b.write_pos (snap_target b)
        then none
        else some (record b { read_pos = b.write_pos - snap_target b })
      else some b

  -- 2. and 3. Lap and overrun. Of a valid buffer the target is not past the write position here.
  unfoldable pub v3_valves : V3Buffer S → V3Buffer S
  v3_valves b =
      let snapped = record b { read_pos = b.write_pos - snap_target b } in
      if leb b.geo.capacity (v3_fill b)
      then record snapped { laps = b.laps + 1 }
      else if ltb (overrun_at b) (v3_fill b)
      then record snapped { overruns = b.overruns + 1 }
      else b
