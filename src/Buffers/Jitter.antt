-- ===== src/Buffers/Jitter.antt =====
-- engine/buffers/jitter_buffer.go: the state of a JitterBuffer and NewJitterBuffer.
-- Frame counts, positions and ticks are natural numbers: an int64 position wraps after 2^63 frames,
-- six million years at 48 kHz. Virtual fill and widths are integers. `F` stands for float64 and `S`
-- for float32. A negative duration or frame count in the configuration is outside the model.
pub mod Window
pub mod Splice
pub mod Frames
pub mod Rounds
pub mod Spliced
pub mod Play
pub mod Valid
pub mod Sensing
pub mod Steps
pub mod Audio
pub mod Fresh
pub mod Run
pub mod Freeze
use panaudia_lasa.Prelude.{
  ℕ, ◌+◌, ◌-◌, ◌*◌, ◌/◌, ◌<◌, min, max, Bool, true, false, ◌||◌, List, [], Option, none, some, ltb,
  ◌==◌, if◌then◌else◌, replicate,
}
use panaudia_lasa.Prelude.Int.{ℤ, pos, pos_part}
use panaudia_lasa.Prelude.Float.{Float}
use panaudia_lasa.Buffers.Stats.{gcd}
use panaudia_lasa.Buffers.Servo.{Controller, decide, millisecond}

pub record Config (F : Type 0) : Type 0 where
  pub sample_rate : ℕ
  pub num_channels : ℕ
  pub writer_frame_size : ℕ
  pub reader_frame_size : ℕ
  pub safety : ℕ
  pub writer_frames : ℕ
  pub reader_frames : ℕ
  pub floor : ℕ
  pub robustness : F
  pub capacity : ℕ
  pub controller : Option (Controller F)

-- The immutable geometry and tuning.
pub record Geometry (F : Type 0) : Type 0 where
  pub capacity : ℕ
  pub w : ℕ
  pub r : ℕ
  pub s : ℕ
  pub nc : ℕ
  pub sr : ℕ
  pub ctrl : Controller F
  pub window_reads : ℕ
  pub freeze_reads : ℕ
  pub narrow_step : F
  pub sp_base : ℕ
  pub fl_decl : ℕ
  pub k_low : F
  pub k_high : F
  pub wl_cap : ℕ
  pub deadband : ℕ
  pub gain : F
  pub rate_cap : F
  pub ff_clamp : F
  pub ff_dead_zone : ℕ
  pub theta : ℕ
  pub sp_max : ℕ

-- The mirrors for observers (curWL, curRate and the like) are fields of their own.
pub record JitterBuffer (F S : Type 0) : Type 0 where
  pub geo : Geometry F
  pub write_pos : ℕ
  pub read_pos : ℕ
  pub ring : List S
  pub started : Bool
  pub tick : ℕ
  pub last_wp : ℕ
  pub gap_run : ℕ
  pub frozen : Bool
  pub raw_buf : List ℤ
  pub virt_buf : List ℤ
  pub wl_hist : List ℤ
  pub wh_hist : List ℤ
  pub hist_len : ℕ
  pub hist_pos : ℕ
  pub ff_ticks : List ℕ
  pub ff_vals : List ℤ
  pub wl : F
  pub wh : F
  pub rate : F
  pub debt : F
  pub pending_trim : ℕ
  pub setpoint : ℕ
  pub cur_wl : ℤ
  pub cur_wh : ℤ
  pub cur_rate : F
  pub cur_frozen : Bool
  pub underruns : ℕ
  pub laps : ℕ
  pub overruns : ℕ
  pub trims : ℕ
  pub dropped : ℕ
  pub inserted : ℕ

abbrev pub v4_width_history : ℕ
v4_width_history = 10

abbrev pub v4_width_rank : ℕ
v4_width_rank = 3

abbrev pub second : ℕ
second = 1000 * millisecond

-- `durToFrames`
abbrev pub dur_to_frames : ℕ → ℕ → ℕ
dur_to_frames sr d = d * sr / second

module _ {F S : Type 0} (fl : Float F) (f32 : Float S) where
  open fl use {lit, add, mul, div, ltf, of_int, trunc}

  -- int64(x) of a float that is not negative
  abbrev pub to_frames : F → ℕ
  to_frames x = pos_part (trunc x)

  unfoldable pub ms_to_frames : ℕ → F → ℕ
  ms_to_frames sr ms = to_frames (div (mul ms (of_int (pos sr))) (lit 1000 0))

  abbrev of_frames : ℕ → F
  of_frames n = of_int (pos n)

  unfoldable pub geometry : Config F → (sr nc w r s : ℕ) → Geometry F
  unfolding ms_to_frames
  geometry cfg sr nc w r s =
      let kappa = if ltf cfg.robustness (lit 1 0) then lit 1 0 else cfg.robustness in
      let k_low = mul (lit 12 1) kappa in
      let k_high = mul (lit 15 1) kappa in
      let wl_cap = to_frames (mul (of_frames (ms_to_frames sr (lit 30 0))) kappa) in
      let wh_cap = to_frames (mul (of_frames (ms_to_frames sr (lit 60 0))) kappa) in
      let sp_base = max (r + s) (r + w) in
      let fl_decl = dur_to_frames sr cfg.floor in
      let sp_top = max (sp_base + to_frames (mul k_low (of_frames wl_cap))) fl_decl in
      let zone = gcd w r / 2 in
      let asked = dur_to_frames sr cfg.capacity in
      let capacity =
        if asked == 0
        then 2 * (sp_top + to_frames (mul k_high (of_frames wh_cap))) + 2 * max w r
        else asked in
      let reserve = 4 * max w r in
      record {
        capacity = capacity;
        w = w;
        r = r;
        s = s;
        nc = nc;
        sr = sr;
        ctrl = elim cfg.controller [ none ↦ decide fl | some c ↦ c ];
        window_reads = to_frames (div (mul (lit 2 0) (of_frames sr)) (of_frames r));
        freeze_reads = max 8 (ms_to_frames sr (lit 40 0) / r);
        narrow_step = div (of_frames (ms_to_frames sr (lit 5 1))) kappa;
        sp_base = sp_base;
        fl_decl = fl_decl;
        k_low = k_low;
        k_high = k_high;
        wl_cap = wl_cap;
        deadband = ms_to_frames sr (lit 25 2);
        gain = lit 1 2;
        rate_cap = lit 20 0;
        ff_clamp = lit 22 0;
        ff_dead_zone = if ltb zone 1 then 1 else zone;
        theta = w + to_frames (mul (lit 20 0) (lit 2 0));
        -- `spMax > capacity-reserve`, where the difference may be negative
        sp_max =
            if ltb capacity (sp_top + reserve) then max sp_base (capacity - reserve) else sp_top;
      }

  unfoldable pub fresh : Geometry F → JitterBuffer F S
  fresh geo = record {
    geo = geo;
    write_pos = 0;
    read_pos = 0;
    ring = replicate (geo.capacity * geo.nc) (f32.lit 0 0);
    started = false;
    tick = 0;
    last_wp = 0;
    gap_run = 0;
    frozen = false;
    raw_buf = [];
    virt_buf = [];
    wl_hist = replicate v4_width_history (pos 0);
    wh_hist = replicate v4_width_history (pos 0);
    hist_len = 0;
    hist_pos = 0;
    ff_ticks = [];
    ff_vals = [];
    wl = lit 0 0;
    wh = lit 0 0;
    rate = lit 0 0;
    debt = lit 0 0;
    pending_trim = 0;
    setpoint = min (max geo.sp_base geo.fl_decl) geo.sp_max;
    cur_wl = pos 0;
    cur_wh = pos 0;
    cur_rate = lit 0 0;
    cur_frozen = false;
    underruns = 0;
    laps = 0;
    overruns = 0;
    trims = 0;
    dropped = 0;
    inserted = 0;
  }

  -- NewJitterBuffer; `none` is its panic.
  unfoldable pub new_jitter_buffer : Config F → Option (JitterBuffer F S)
  unfolding geometry fresh ms_to_frames
  new_jitter_buffer cfg =
      let sr = if cfg.sample_rate == 0 then 48000 else cfg.sample_rate in
      let nc = if cfg.num_channels == 0 then 1 else cfg.num_channels in
      let w =
        if cfg.writer_frames == 0
        then dur_to_frames sr cfg.writer_frame_size
        else cfg.writer_frames in
      let r =
        if cfg.reader_frames == 0
        then dur_to_frames sr cfg.reader_frame_size
        else cfg.reader_frames in
      let given = dur_to_frames sr cfg.safety in
      let s = if given == 0 then ms_to_frames sr (lit 1 0) else given in
      if w == 0 || r == 0 then none else some (fresh (geometry cfg sr nc w r s))
