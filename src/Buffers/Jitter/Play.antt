-- ===== src/Buffers/Jitter/Play.antt =====
-- engine/buffers/jitter_buffer.go: Write, Read, StreamReadPos, GetBehind and Snapshot.
-- One call runs at a time: the race that the source accepts, a writer that laps a stalled reader
-- in the middle of a read, is outside the model.
use panaudia_lasa.Prelude.{
  ℕ, ◌+◌, ◌-◌, ◌*◌, ◌/◌, min, Bool, true, false, ◌&&◌, List, Option, none, some, ltb, leb, ◌==◌,
  if◌then◌else◌, length, drop, replicate,
}
use panaudia_lasa.Prelude.Int.{ℤ, pos}
use panaudia_lasa.Prelude.Float.{Float}
use panaudia_lasa.Buffers.Ring.{write_to_ring, read_from_ring}
use panaudia_lasa.Buffers.Jitter.{JitterBuffer}
use panaudia_lasa.Buffers.Jitter.Window.{reset_window, sense}
use panaudia_lasa.Buffers.Jitter.Splice.{splice_drop, splice_insert}

module _ {F S : Type 0} where
  unfoldable pub write : List S → JitterBuffer F S → JitterBuffer F S
  write src b =
      let cap = b.geo.capacity in
      let n = length src / b.geo.nc in
      let clipped = ltb cap n in
      let src' = if clipped then drop ((n - cap) * b.geo.nc) src else src in
      let n' = if clipped then cap else n in
      if n == 0 then b else record b {
        ring = write_to_ring cap b.geo.nc b.ring src' b.write_pos n';
        write_pos = b.write_pos + n';
      }

  -- 1. `none` while the buffer waits for its operating point.
  unfoldable pub start_up : JitterBuffer F S → Option (JitterBuffer F S)
  start_up b =
      if b.read_pos == 0
      then if ltb b.write_pos b.setpoint
        then none
        else some (record b {
          read_pos = b.write_pos - b.setpoint;
          started = true;
          last_wp = b.write_pos;
        })
      else some b

  -- 2. `wp-rp-sp` below zero trims nothing, as 0 does.
  unfoldable pub trim : JitterBuffer F S → JitterBuffer F S
  trim b =
      let t = min b.pending_trim (b.write_pos - b.read_pos - b.setpoint) in
      let moved =
        if ltb 0 t then record b { read_pos = b.read_pos + t; trims = b.trims + 1 } else b in
      if ltb 0 b.pending_trim then reset_window (record moved { pending_trim = 0 }) else b

  abbrev pub fill : JitterBuffer F S → ℕ
  fill b = b.write_pos - b.read_pos

  -- 3. Lap and overrun. A valid buffer never has its setpoint past `wp` here.
  unfoldable pub valves : JitterBuffer F S → JitterBuffer F S
  valves b =
      let snapped = reset_window (record b { read_pos = b.write_pos - b.setpoint }) in
      if leb b.geo.capacity (fill b)
      then record snapped { laps = b.laps + 1 }
      else if ltb b.geo.capacity (fill b + (b.geo.w + b.geo.r))
      then record snapped { overruns = b.overruns + 1 }
      else b

  unfoldable pub stream_read_pos : JitterBuffer F S → ℕ
  stream_read_pos b = b.read_pos

  unfoldable pub get_behind : JitterBuffer F S → ℕ
  get_behind b = (b.write_pos - b.read_pos) * b.geo.nc

pub record Stats (F : Type 0) : Type 0 where
  pub fill_frames : ℕ
  pub setpoint_frames : ℕ
  pub width_low_frames : ℤ
  pub width_high_frames : ℤ
  pub rate_per_sec : F
  pub frozen : Bool
  pub started : Bool
  pub underruns : ℕ
  pub laps : ℕ
  pub overruns : ℕ
  pub trims : ℕ
  pub samples_dropped : ℕ
  pub samples_inserted : ℕ

unfoldable pub snapshot : {F S : Type 0} → JitterBuffer F S → Stats F
snapshot b = record {
  fill_frames = b.write_pos - b.read_pos;
  setpoint_frames = b.setpoint;
  width_low_frames = b.cur_wl;
  width_high_frames = b.cur_wh;
  rate_per_sec = b.cur_rate;
  frozen = b.cur_frozen;
  started = ltb 0 b.read_pos;
  underruns = b.underruns;
  laps = b.laps;
  overruns = b.overruns;
  trims = b.trims;
  samples_dropped = b.dropped;
  samples_inserted = b.inserted;
}

pub data Cut : Type 0 where
  drop_one insert_one as_is : Cut

module _ {F S : Type 0} (fl : Float F) (f32 : Float S) where
  open fl use {lit, neg, add, sub, mul, div, ltf, lef, of_int}

  -- `clear(dst)`
  abbrev pub silence : List S → List S
  silence dst = replicate (length dst) (f32.lit 0 0)

  -- The debt bucket, filled at the servo rate unless frozen.
  unfoldable pub pay_debt : JitterBuffer F S → JitterBuffer F S
  pay_debt b =
      let d = add b.debt (div (mul b.rate (of_int (pos b.geo.r))) (of_int (pos b.geo.sr))) in
      let most = lit 15 1 in
      let debt = if ltf most d then most else if ltf d (neg most) then neg most else d in
      if b.frozen then b else record b { debt = debt }

  -- 6. Whether this read drops or inserts a frame.
  unfoldable pub choose : ℕ → JitterBuffer F S → Cut
  choose n b =
      if lef (lit 1 0) b.debt && leb (n + 1) (fill b)
      then drop_one
      else if lef b.debt (neg (lit 1 0)) && leb 2 n
      then insert_one
      else as_is

  unfoldable pub play_cut : Cut → List S → ℕ → JitterBuffer F S → JitterBuffer F S × List S
  play_cut drop_one dst n b = (
    record b {
      debt = sub b.debt (lit 1 0);
      read_pos = b.read_pos + n + 1;
      dropped = b.dropped + 1;
    },
    splice_drop f32 b.geo.capacity b.geo.nc b.ring dst b.read_pos n,
  )
  play_cut insert_one dst n b = (
    record b {
      debt = add b.debt (lit 1 0);
      read_pos = b.read_pos + n - 1;
      inserted = b.inserted + 1;
    },
    splice_insert f32 b.geo.capacity b.geo.nc b.ring dst b.read_pos n,
  )
  play_cut as_is dst n b = (
    record b { read_pos = b.read_pos + n },
    read_from_ring b.geo.capacity b.geo.nc b.ring dst b.read_pos n,
  )

  unfoldable pub play : List S → ℕ → JitterBuffer F S → JitterBuffer F S × List S
  play dst n b = let b1 = pay_debt b in play_cut (choose n b1) dst n b1

  -- 5. and 6., from a buffer that has sensed.
  unfoldable pub finish : List S → ℕ → JitterBuffer F S → JitterBuffer F S × List S × Bool
  finish dst n b =
      let (b', out) = play dst n b in
      if ltb (fill b) n
      then (record b { underruns = b.underruns + 1 }, silence dst, false)
      else (b', out, true)

  -- The buffer after the read, what `dst` holds then, and the result.
  unfoldable pub read : List S → JitterBuffer F S → JitterBuffer F S × List S × Bool
  read dst b =
      let n = length dst / b.geo.nc in
      if n == 0 then (b, dst, true) else elim (start_up b) [
        | none ↦ (b, silence dst, false)
        | some b1 ↦ let b2 = valves (trim b1) in finish dst n (sense fl (fill b2) b2)
      ]
