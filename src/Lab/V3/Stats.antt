-- ===== src/Lab/V3/Stats.antt =====
-- engine/jitterlab/v3.go: Snapshot and GetBehind, what an observer sees of a V3Buffer. `F` stands for
-- float64.
use panaudia_lasa.Prelude.{ℕ, ◌+◌, ◌*◌, Bool, ltb}
use panaudia_lasa.Prelude.Int.{pos}
use panaudia_lasa.Prelude.Float.{Float}
use panaudia_lasa.Lab.V3.{V3Buffer, v3_fill}

pub record V3Stats (F : Type 0) : Type 0 where
  pub fill_frames : ℕ
  pub fill_ms : F
  pub floor_frames : ℕ
  pub low_allowance_frames : ℕ
  pub low_allowance_ms : F
  pub high_allowance_frames : ℕ
  pub high_allowance_ms : F
  pub target_frames : ℕ
  pub started : Bool
  pub underruns : ℕ
  pub overruns : ℕ
  pub laps : ℕ
  pub samples_dropped : ℕ
  pub samples_inserted : ℕ
  pub last_window_inserts : ℕ
  pub last_window_drops : ℕ

module _ {F S : Type 0} (fl : Float F) where
  open fl use {lit, div, of_int}

  unfoldable pub v3_snapshot : V3Buffer S → V3Stats F
  v3_snapshot b =
      let ms =
        λ (frames : ℕ). div (of_int (pos frames)) (div (of_int (pos b.geo.sr)) (lit 1000 0)) in
      record {
        fill_frames = v3_fill b;
        fill_ms = ms (v3_fill b);
        floor_frames = b.geo.floor;
        low_allowance_frames = b.current_l;
        low_allowance_ms = ms b.current_l;
        high_allowance_frames = b.current_h;
        high_allowance_ms = ms b.current_h;
        target_frames = b.geo.floor + b.current_l;
        started = ltb 0 b.read_pos;
        underruns = b.underruns;
        overruns = b.overruns;
        laps = b.laps;
        samples_dropped = b.dropped;
        samples_inserted = b.inserted;
        last_window_inserts = b.last_win_inserts;
        last_window_drops = b.last_win_drops;
      }

-- In interleaved samples.
unfoldable pub v3_get_behind : {S : Type 0} → V3Buffer S → ℕ
v3_get_behind b = v3_fill b * b.geo.nc
