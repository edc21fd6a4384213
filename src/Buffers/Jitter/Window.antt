-- ===== src/Buffers/Jitter/Window.antt =====
-- engine/buffers/jitter_buffer.go: sense, closeWindow and resetWindow, what the buffer learns from
-- each read.
use panaudia_lasa.Prelude.{
  none, some, ℕ, ◌+◌, ◌-◌, ◌*◌, ◌%◌, min, true, false, not, ◌&&◌, ◌||◌, List, [], ◌∷◌, ◌++◌, ltb,
  leb, if◌then◌else◌, length, get_or, take, drop, set,
}
use panaudia_lasa.Prelude.Int.{ℤ, pos, pos_part, ◌+ℤ◌, ◌-ℤ◌, ltb_ℤ, max_ℤ, min_ℤ}
use panaudia_lasa.Prelude.Float.{Float}
use panaudia_lasa.Buffers.Stats.{median3, rank_nth, lowest, win_stats}
use panaudia_lasa.Buffers.Jitter.{JitterBuffer, Geometry, v4_width_history, v4_width_rank}

module _ {F S : Type 0} where
  abbrev pub reset_window : JitterBuffer F S → JitterBuffer F S
  reset_window b = record b { raw_buf = []; virt_buf = [] }

module _ {F : Type 0} (fl : Float F) where
  open fl use {lit, neg, mul, div, ltf, lef, of_int}

  abbrev max_f : F → F → F
  max_f x y = if ltf x y then y else x

  -- (slope, horizonSec)
  unfoldable pub drift : Geometry F → List ℕ → List ℤ → F × F
  drift geo ticks vals =
      let n = length ticks in
      let v = λ (i : ℕ). get_or vals i (pos 0) in
      let t = λ (i : ℕ). get_or ticks i 0 in
      let wide = leb 6 n in
      let lo = if wide then median3 (v 0) (v 1) (v 2) else v 0 in
      let hi = if wide then median3 (v (n - 3)) (v (n - 2)) (v (n - 1)) else v (n - 1) in
      let ta = if wide then t 1 else t 0 in
      let tb = if wide then t (n - 2) else t (n - 1) in
      let span = of_int (pos (tb - ta)) in
      let per_read = div (of_int (hi -ℤ lo)) span in
      let d = mul per_read span in
      let zone = of_int (pos geo.ff_dead_zone) in
      let r = of_int (pos geo.r) in
      let sr = of_int (pos geo.sr) in
      if leb 2 n && ltb (t 0) (t (n - 1)) && ltb ta tb
      then (
        if lef zone d || lef d (neg zone) then div (mul per_read sr) r else lit 0 0,
        div (mul span r) sr,
      )
      else (lit 0 0, lit 0 0)

-- The width of a history, which has an entry where closeWindow asks for it.
unfoldable pub believed : List ℤ → ℤ
believed h = elim (rank_nth h v4_width_rank) [ none ↦ lowest | some w ↦ w ]

module _ {F S : Type 0} (fl : Float F) where
  open fl use {lit, neg, add, sub, mul, ltf, of_int, trunc}

  -- The widths of the window: their histories, their rank, the held values.
  unfoldable pub learn_widths : ℤ → ℤ → JitterBuffer F S → JitterBuffer F S
  learn_widths wl_meas wh_meas b =
      let wl_hist = set b.wl_hist b.hist_pos wl_meas in
      let wh_hist = set b.wh_hist b.hist_pos wh_meas in
      let hist_len = if ltb b.hist_len v4_width_history then b.hist_len + 1 else b.hist_len in
      let wl_eff = believed (take hist_len wl_hist) in
      let wh_eff = believed (take hist_len wh_hist) in
      let wl = max_f fl (of_int wl_eff) (sub b.wl b.geo.narrow_step) in
      let wh = max_f fl (of_int wh_eff) (sub b.wh b.geo.narrow_step) in
      record b {
        wl_hist = wl_hist;
        wh_hist = wh_hist;
        hist_pos = (b.hist_pos + 1) % v4_width_history;
        hist_len = hist_len;
        wl = wl;
        wh = wh;
        cur_wl = trunc wl;
        cur_wh = trunc wh;
      }

  -- The drift estimator's points, at most ten of them.
  unfoldable pub learn_drift : ℤ → JitterBuffer F S → JitterBuffer F S
  learn_drift med_v b =
      let ticks = b.ff_ticks ++ (b.tick ∷ []) in
      let vals = b.ff_vals ++ (med_v ∷ []) in
      let over = ltb v4_width_history (length ticks) in
      record b {
        ff_ticks = if over then drop 1 ticks else ticks;
        ff_vals = if over then drop 1 vals else vals;
      }

  -- The setpoint that the held late-side width asks for.
  unfoldable pub place_setpoint : JitterBuffer F S → ℕ
  place_setpoint b =
      let cushion = trunc (add (mul b.geo.k_low b.wl) (lit 5 1)) in
      let wanted = max_ℤ (pos b.geo.sp_base +ℤ cushion) (pos b.geo.fl_decl) in
      pos_part (min_ℤ wanted (pos b.geo.sp_max))

  -- The controller's answer for the next window.
  unfoldable pub act : ℤ × ℤ × ℤ → JitterBuffer F S → JitterBuffer F S
  act (med_raw, min_raw, max_raw) b =
      let (slope, horizon) = drift fl b.geo b.ff_ticks b.ff_vals in
      let (asked, trim) =
        b.geo.ctrl
          (record {
            median_raw = med_raw;
            min_raw = min_raw;
            max_raw = max_raw;
            width_low = trunc b.wl;
            width_high = trunc b.wh;
            slope_fps = slope;
            horizon_sec = horizon;
          })
          (record {
            setpoint = pos b.setpoint;
            deadband = max_ℤ (pos b.geo.deadband) (trunc b.wl);
            theta = pos b.geo.theta;
            gain_per_sec = b.geo.gain;
            rate_cap_per_sec = b.geo.rate_cap;
            ff_clamp_per_sec = b.geo.ff_clamp;
          }) in
      let cap = b.geo.rate_cap in
      let rate = if ltf cap asked then cap else if ltf asked (neg cap) then neg cap else asked in
      record b {
        rate = rate;
        cur_rate = rate;
        pending_trim = if ltb_ℤ (pos 0) trim then pos_part trim else b.pending_trim;
      }

  unfoldable pub close_window : JitterBuffer F S → JitterBuffer F S
  close_window b =
      let raw = win_stats b.raw_buf in
      let (med_v, min_v, max_v) = win_stats b.virt_buf in
      let wl_meas = min_ℤ (med_v -ℤ min_v) (pos b.geo.wl_cap) in
      let b1 = learn_drift med_v (learn_widths wl_meas (max_v -ℤ med_v) b) in
      reset_window (act raw (record b1 { setpoint = place_setpoint b1 }))

  -- A delivery ends a freeze; a long run without one starts it and rewinds its own samples.
  unfoldable pub observe_delivery : JitterBuffer F S → JitterBuffer F S
  observe_delivery b =
      let run = b.gap_run + 1 in
      let rw_raw = length b.raw_buf - min (run - 1) (length b.raw_buf) in
      let rw_virt = length b.virt_buf - min (run - 1) (length b.raw_buf) in
      let seen = record b { last_wp = b.write_pos } in
      if ltb b.last_wp b.write_pos
      then if b.frozen
        then record (reset_window seen) {
          frozen = false;
          cur_frozen = false;
          ff_ticks = [];
          ff_vals = [];
          gap_run = 0;
        }
        else record seen { gap_run = 0 }
      else if not b.frozen && ltb b.geo.freeze_reads run
      then record seen {
        gap_run = run;
        frozen = true;
        cur_frozen = true;
        rate = lit 0 0;
        cur_rate = lit 0 0;
        debt = lit 0 0;
        raw_buf = take rw_raw b.raw_buf;
        virt_buf = take rw_virt b.virt_buf;
      }
      else record seen { gap_run = run }

  -- One pre-read observation. `wp` is the buffer's write position, and the tick that the virtual
  -- signal uses is the one before this read.
  unfoldable pub sense : ℕ → JitterBuffer F S → JitterBuffer F S
  sense fill b =
      let b1 = record (observe_delivery b) { tick = b.tick + 1 } in
      let b2 = record b1 {
        raw_buf = b1.raw_buf ++ (pos fill ∷ []);
        virt_buf = b1.virt_buf ++ ((pos b.write_pos -ℤ pos (b.geo.r * b.tick)) ∷ []);
      } in
      let closed = close_window b2 in
      if not b.started
      then b
      else if b1.frozen
      then b1
      else if leb b.geo.window_reads (length b2.raw_buf)
      then closed
      else b2
