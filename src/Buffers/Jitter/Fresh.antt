-- ===== src/Buffers/Jitter/Fresh.antt =====
-- What a new buffer is: valid, and the buffer of the empty stream.
use panaudia_lasa.Prelude.{
  ℕ, sym, ◌+◌, ◌*◌, ◌≤◌, ◌<◌, ◌≡◌, refl, ap, ◌⊎◌, inl, inr, Bool, true, false, ◌||◌, [], none, some,
  arith, ◌==◌, if◌then◌else◌, length, replicate, length-replicate,
}
use panaudia_lasa.Prelude.Float.{Float}
use panaudia_lasa.Buffers.Jitter.{
  Config, Geometry, JitterBuffer, geometry, fresh, new_jitter_buffer, dur_to_frames, ms_to_frames,
}
use panaudia_lasa.Buffers.Jitter.Valid.{IsSound, Placed}
use panaudia_lasa.Buffers.Jitter.Audio.{Streams}

module _ {F S : Type 0} (fl : Float F) (f32 : Float S) where
  geometry-IsSound :
      (cfg : Config F) (sr nc w r s : ℕ)
      → 0 < nc
      → 0 < w
      → 0 < r
      → let g = geometry fl f32 cfg sr nc w r s in
        (dur_to_frames sr cfg.capacity ≡ 0) ⊎ (g.sp_base + (g.w + g.r) ≤ g.capacity) → IsSound g
  unfolding geometry
  geometry-IsSound cfg sr nc w r s n v u h = ground arith

  fresh-Placed :
      (g : Geometry F) → IsSound g → Placed (fresh fl f32 g) × Streams (fresh fl f32 g) []
  unfolding fresh
  fresh-Placed g v =
      let nothing : length (replicate (g.capacity * g.nc) (f32.lit 0 0)) ≡ g.capacity * g.nc =
        length-replicate (g.capacity * g.nc) (f32.lit 0 0) in
      (
        record { sound = v; ordered = omega arith; setpoint_in = omega arith },
        record {
          held = record { size = nothing; last = λ p h i. absurd (omega (arith, h)) };
          counted = omega arith;
        },
      )

  built :
      (bad : Bool) (g : Geometry F) (b : JitterBuffer F S)
      → (if bad then none else some (fresh fl f32 g)) ≡ some b
      → (bad ≡ false) × (fresh fl f32 g ≡ b)
  built true g b e = absurd (ground arith)
  built false g b e = (refl, ground arith)

  -- A configuration for which NewJitterBuffer does not panic gives a valid buffer of the empty
  -- stream, if the capacity is left to the default or leaves room for a write and a read above the
  -- lowest setpoint.
  pub new_jitter_buffer-Placed :
      (cfg : Config F) (b : JitterBuffer F S)
      → new_jitter_buffer fl f32 cfg ≡ some b
      → (cfg.capacity ≡ 0) ⊎ (b.geo.sp_base + (b.geo.w + b.geo.r) ≤ b.geo.capacity)
      → Placed b × Streams b []
  unfolding new_jitter_buffer
  new_jitter_buffer-Placed cfg b e h =
      let sr = if cfg.sample_rate == 0 then 48000 else cfg.sample_rate in
      let nc = if cfg.num_channels == 0 then 1 else cfg.num_channels in
      let w =
        if cfg.writer_frames == 0
        then dur_to_frames sr cfg.writer_frame_size
        else cfg.writer_frames in
      let r =
        if cfg.reader_frames == 0
        then dur_to_frames sr cfg.reader_frame_size
        else cfg.reader_frames in
      let given = dur_to_frames sr cfg.safety in
      let s = if given == 0 then ms_to_frames fl f32 sr (fl.lit 1 0) else given in
      let (fine, is_b) = built (w == 0 || r == 0) (geometry fl f32 cfg sr nc w r s) b e in
      let n_pos : 0 < nc = ground arith in
      let w_pos : 0 < w = ground arith in
      let r_pos : 0 < r = ground arith in
      let g = geometry fl f32 cfg sr nc w r s in
      let same : b.geo ≡ g = sym (ap (λ x. x.geo) {x = fresh fl f32 g} {y = b} is_b) in
      let no_cap : cfg.capacity ≡ 0 → dur_to_frames sr cfg.capacity ≡ 0 =
        λ z. let none_in : 0 * sr ≡ 0 = omega arith in rw (z, none_in) refl in
      let roomy : (dur_to_frames sr cfg.capacity ≡ 0) ⊎ (g.sp_base + (g.w + g.r) ≤ g.capacity) =
        elim h [ inl z ↦ inl (no_cap z) | inr q ↦ inr (rw same at q) ] in
      rw (sym is_b) (fresh-Placed g (geometry-IsSound cfg sr nc w r s n_pos w_pos r_pos roomy))

  pub new_jitter_buffer-channels :
      (cfg : Config F) (b : JitterBuffer F S)
      → new_jitter_buffer fl f32 cfg ≡ some b
      → b.geo.nc ≡ (if cfg.num_channels == 0 then 1 else cfg.num_channels)
  unfolding new_jitter_buffer geometry fresh
  new_jitter_buffer-channels cfg b e =
      let sr = if cfg.sample_rate == 0 then 48000 else cfg.sample_rate in
      let nc = if cfg.num_channels == 0 then 1 else cfg.num_channels in
      let w =
        if cfg.writer_frames == 0
        then dur_to_frames sr cfg.writer_frame_size
        else cfg.writer_frames in
      let r =
        if cfg.reader_frames == 0
        then dur_to_frames sr cfg.reader_frame_size
        else cfg.reader_frames in
      let given = dur_to_frames sr cfg.safety in
      let s = if given == 0 then ms_to_frames fl f32 sr (fl.lit 1 0) else given in
      let g = geometry fl f32 cfg sr nc w r s in
      let (fine, is_b) = built (w == 0 || r == 0) g b e in
      sym (ap (λ x. x.geo.nc) {x = fresh fl f32 g} {y = b} is_b)
