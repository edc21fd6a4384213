-- ===== src/Buffers/Jitter/Sensing.antt =====
-- What a read observes: the window, the histories, the drift points and the freeze.
use panaudia_lasa.Prelude.{
  some, List, take, ℕ, ◌+◌, ◌-◌, ◌*◌, ◌%◌, ◌≤◌, ◌<◌, min, max, ◌≡◌, refl, ap, inl, inr, Bool, true,
  false, not, [], ◌∷◌, ◌++◌, arith, leb, if◌then◌else◌, Bool-cases, length, length-append,
  length-take, length-drop, length-set,
}
use panaudia_lasa.Prelude.Int.{ℤ, pos, ◌-ℤ◌, min_ℤ}
use panaudia_lasa.Prelude.Float.{Float}
use panaudia_lasa.Buffers.Stats.{win_stats, rank_nth, lowest}
use panaudia_lasa.Buffers.Stats.Rank.{rank_nth_lem}
use panaudia_lasa.Buffers.Jitter.{JitterBuffer, v4_width_rank}
use panaudia_lasa.Buffers.Jitter.Window.{
  believed, learn_widths, learn_drift, place_setpoint, act, close_window, observe_delivery, sense,
}
use panaudia_lasa.Buffers.Jitter.Valid.{observe_delivery-Same}

branches :
    {A : Type 0} (P : A → Type 0) (on shut : Bool) {off frozen live : A}
    → P off
    → P frozen
    → (shut ≡ false → P live)
    → P (if not on then off else if shut then frozen else live)
branches P false shut p q r = p
branches P true true p q r = q
branches P true false p q r = r refl

-- closeWindow asks rankNth for the third highest of histories with an entry: no index panics.
pub believed_lem : (h : List ℤ) → 0 < length h → rank_nth h v4_width_rank ≡ some (believed h)
unfolding believed
believed_lem h one =
    let (w, e, above) =
      rank_nth_lem h v4_width_rank lowest (omega arith) one (omega arith) (omega arith) in
    rw (believed, e) refl

module _ {F S : Type 0} (fl : Float F) where
  open fl use {lit}

  -- The histories: the widths' as long as V4WidthHistory, at most so many drift points.
  pub record Recorded (b : JitterBuffer F S) : Type 0 where
    pub late : length b.wl_hist ≡ 10
    pub early : length b.wh_hist ≡ 10
    pub place : b.hist_pos < 10
    pub seen : b.hist_len ≤ 10
    pub points : length b.ff_vals ≡ length b.ff_ticks
    pub few : length b.ff_ticks ≤ 10
    pub shown_rate : b.cur_rate ≡ b.rate
    pub shown_frozen : b.cur_frozen ≡ b.frozen

  -- And the window: it closes before it is full, and a frozen buffer is at rest.
  pub record Sensed (b : JitterBuffer F S) : Type 0 where
    pub recorded : Recorded b
    pub paired : length b.virt_buf ≡ length b.raw_buf
    pub open_window : length b.raw_buf < max 1 b.geo.window_reads
    pub at_rest : b.frozen ≡ true → (b.rate ≡ lit 0 0) × (b.debt ≡ lit 0 0)

  pub seen_widths :
      (k l : ℤ) (b : JitterBuffer F S)
      → Recorded b
      → let c = learn_widths fl k l b in
        (0 < length (take c.hist_len c.wl_hist)) × (0 < length (take c.hist_len c.wh_hist))
  unfolding learn_widths
  seen_widths k l b v =
      let c = learn_widths fl k l b in
      ground (
        arith,
        length-take c.hist_len c.wl_hist,
        length-take c.hist_len c.wh_hist,
        length-set b.wl_hist b.hist_pos k,
        length-set b.wh_hist b.hist_pos l,
      )

  learn_widths-Recorded :
      (k l : ℤ) (b : JitterBuffer F S) → Recorded b → Recorded (learn_widths fl k l b)
  unfolding learn_widths
  learn_widths-Recorded k l b v =
      let wrapped : (b.hist_pos + 1) % 10 < 10 = omega arith in
      ground (arith, length-set b.wl_hist b.hist_pos k, length-set b.wh_hist b.hist_pos l, wrapped)

  learn_drift-Recorded : (m : ℤ) (b : JitterBuffer F S) → Recorded b → Recorded (learn_drift fl m b)
  unfolding learn_drift
  learn_drift-Recorded m b v =
      let ticks = b.ff_ticks ++ (b.tick ∷ []) in
      let vals = b.ff_vals ++ (m ∷ []) in
      ground (
        arith,
        length-append b.ff_ticks (b.tick ∷ []),
        length-append b.ff_vals (m ∷ []),
        length-drop 1 ticks,
        length-drop 1 vals,
      )

  learn-frozen :
      (m k l : ℤ) (b : JitterBuffer F S)
      → let c = learn_drift fl m (learn_widths fl k l b) in (c.frozen ≡ b.frozen) × (c.geo ≡ b.geo)
  unfolding learn_drift learn_widths
  learn-frozen m k l b = (refl, refl)

  act-Recorded :
      (m : ℤ × ℤ × ℤ) (b : JitterBuffer F S)
      → Recorded b
      → Recorded (act fl m b) × ((act fl m b).frozen ≡ b.frozen) × ((act fl m b).geo ≡ b.geo)
  unfolding act
  act-Recorded m b v = ground arith

  close_window-Recorded :
      (b : JitterBuffer F S)
      → Recorded b
      → let c = close_window fl b in
        Recorded c × (c.raw_buf ≡ []) × (c.virt_buf ≡ []) × (c.frozen ≡ b.frozen) × (c.geo ≡ b.geo)
  unfolding close_window
  close_window-Recorded b v =
      let (med_v, min_v, max_v) = win_stats b.virt_buf in
      let wl_meas = min_ℤ (med_v -ℤ min_v) (pos b.geo.wl_cap) in
      let b0 = learn_widths fl wl_meas (max_v -ℤ med_v) b in
      let b1 = learn_drift fl med_v b0 in
      let b2 = record b1 { setpoint = place_setpoint fl b1 } in
      let v1 = learn_drift-Recorded med_v b0 (learn_widths-Recorded wl_meas (max_v -ℤ med_v) b v) in
      let same = learn-frozen med_v wl_meas (max_v -ℤ med_v) b in
      ground (arith, v1, same, act-Recorded (win_stats b.raw_buf) b2 (ground (arith, v1)))

  observe_delivery-Sensed : (b : JitterBuffer F S) → Sensed b → Sensed (observe_delivery fl b)
  unfolding observe_delivery
  observe_delivery-Sensed b v = ground (
    arith,
    length-take (length b.raw_buf - min b.gap_run (length b.raw_buf)) b.raw_buf,
    length-take (length b.virt_buf - min b.gap_run (length b.raw_buf)) b.virt_buf,
  )

  observed :
      (n : ℕ) (z : ℤ) (b : JitterBuffer F S)
      → Sensed b
      → b.frozen ≡ false
      → let raw = b.raw_buf ++ (pos n ∷ []) in
        let seen = record b { raw_buf = raw; virt_buf = b.virt_buf ++ (z ∷ []) } in
        Recorded seen × (length seen.virt_buf ≡ length raw) × (length raw ≡ length b.raw_buf + 1)
  observed n z b v live =
      ground (arith, length-append b.raw_buf (pos n ∷ []), length-append b.virt_buf (z ∷ []))

  windowed :
      (n m : ℕ) (z : ℤ) (b : JitterBuffer F S)
      → b.geo.window_reads ≡ m
      → Sensed b
      → b.frozen ≡ false
      → let seen = record b {
        raw_buf = b.raw_buf ++ (pos n ∷ []);
        virt_buf = b.virt_buf ++ (z ∷ []);
      } in
        Sensed (if leb m (length seen.raw_buf) then close_window fl seen else seen)
  windowed n m z b same v live =
      let seen = record b {
        raw_buf = b.raw_buf ++ (pos n ∷ []);
        virt_buf = b.virt_buf ++ (z ∷ []);
      } in
      let o = observed n z b v live in
      let closed = close_window-Recorded seen o.0 in
      elim (Bool-cases (leb m (length seen.raw_buf))) [
        | inl full ↦ rw full (ground (arith, closed))
        | inr room ↦ rw room (ground (arith, o))
      ]

  -- Sensing keeps the window paired and short of its full length, the histories at their lengths,
  -- the figures shown equal to those in use, and a frozen buffer at rest.
  pub sense-Sensed : (n : ℕ) (b : JitterBuffer F S) → Sensed b → Sensed (sense fl n b)
  unfolding sense
  sense-Sensed n b v =
      let b1 = record (observe_delivery fl b) { tick = b.tick + 1 } in
      let v0 = observe_delivery-Sensed b v in
      let v1 : Sensed b1 = ground (arith, v0) in
      branches Sensed b.started b1.frozen v v1 (
        windowed n b.geo.window_reads (pos b.write_pos -ℤ pos (b.geo.r * b.tick)) b1
          (ap (λ g. g.window_reads) (observe_delivery-Same fl b).0.geo) v1)
