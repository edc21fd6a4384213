-- ===== src/Lab/V3/Run.antt =====
-- A V3Buffer from its constructor on: any sequence of Write and Read calls.
use panaudia_lasa.Prelude.{
  ℕ, ◌*◌, ◌/◌, ◌<◌, ◌≡◌, refl, sym, ap, ◌∙◌, inl, inr, true, List, [], ◌∷◌, ◌++◌, none, some, arith,
  ◌==◌, Bool-cases, length, length-replicate, if◌then◌else◌, Bool,
}
use panaudia_lasa.Prelude.Float.{Float}
use panaudia_lasa.Buffers.Ring.Held.{Holds}
use panaudia_lasa.Buffers.Ring.Accept.{accepted, accepted-Holds}
use panaudia_lasa.Buffers.Jitter.Run.{Call, writes, reads, stream}
use panaudia_lasa.Lab.V3.{
  V3Config, Frames, V3Buffer, v3_write, frames_of, frames_ok, v3_geometry, new_v3_buffer, v3_fresh,
  default_val,
}
use panaudia_lasa.Lab.V3.Play.{v3_read}
use panaudia_lasa.Lab.V3.Window.{IsSound}
use panaudia_lasa.Lab.V3.Steps.{Placed, Kept, write-Placed, v3_read-Placed}

v3_geometry-IsSound :
    (f : Frames) (sr nc : ℕ) → frames_ok f ≡ true → 0 < nc → IsSound (v3_geometry f sr nc)
unfolding frames_ok v3_geometry
v3_geometry-IsSound f sr nc ok ch = ground arith

module _ {S : Type 0} where
  -- The buffer holds the end of the stream that was written.
  pub record Streams (b : V3Buffer S) (written : List S) : Type 0 where
    pub held : Holds b.geo.capacity b.geo.nc b.ring written
    pub counted : length written ≡ b.write_pos * b.geo.nc

  write-geo : (src : List S) (b : V3Buffer S) → (v3_write src b).geo ≡ b.geo
  unfolding v3_write
  write-geo src b = ground arith

  write-Streams :
      (src written : List S) (b : V3Buffer S)
      → Placed b
      → Streams b written
      → Streams (v3_write src b) (written ++ accepted b.geo.capacity b.geo.nc src)
  unfolding v3_write
  write-Streams src written b v st =
      let after =
        accepted-Holds b.geo.capacity b.geo.nc b.ring src written b.write_pos
          (omega (arith, v.sound.room)) v.sound.channels st.held st.counted in
      elim (Bool-cases (length src / b.geo.nc == 0)) [
        | inl e ↦ let kept = rw e at after in rw e (record { held = kept.0; counted = kept.1 })
        | inr e ↦ let kept = rw e at after in rw e (record { held = kept.0; counted = kept.1 })
      ]

module _ {S : Type 0} (f32 : Float S) where
  fresh-Placed :
      (f : Frames) (sr nc : ℕ)
      → frames_ok f ≡ true
      → 0 < nc
      → let b = v3_fresh f32 f (v3_geometry f sr nc) in Placed b × Streams b []
  unfolding v3_fresh frames_ok v3_geometry
  fresh-Placed f sr nc ok ch =
      let g = v3_geometry f sr nc in
      (
        record {
          sound = v3_geometry-IsSound f sr nc ok ch;
          bounds = ground arith;
          ordered = omega arith;
        },
        record {
          held = record {
            size = length-replicate (g.capacity * g.nc) (f32.lit 0 0);
            last = λ p h i. absurd (omega (arith, h));
          };
          counted = omega arith;
        },
      )

  built :
      (ok : Bool) (c b : V3Buffer S)
      → (if ok then some c else none) ≡ some b
      → (ok ≡ true → Placed c × Streams c [])
      → Placed b × Streams b []
  built ok c b e h = elim (Bool-cases ok) [
    | inl t ↦ let same : c ≡ b = ground (arith, t, e) in rw (← same) (h t)
    | inr n ↦ absurd (ground (arith, n, e))
  ]

  -- What NewV3Buffer accepts is valid, and the buffer of the empty stream.
  new_v3_buffer-Placed :
      (cfg : V3Config) (b : V3Buffer S) → new_v3_buffer f32 cfg ≡ some b → Placed b × Streams b []
  unfolding new_v3_buffer
  new_v3_buffer-Placed cfg b e =
      let sr = default_val cfg.sample_rate 48000 in
      let nc = default_val cfg.num_channels 1 in
      let f = frames_of cfg sr in
      built (frames_ok f) (v3_fresh f32 f (v3_geometry f sr nc)) b e
        (λ ok. fresh-Placed f sr nc ok (ground arith))

  unfoldable pub v3_run : List (Call S) → V3Buffer S → V3Buffer S
  v3_run [] b = b
  v3_run (writes src ∷ calls) b = v3_run calls (v3_write src b)
  v3_run (reads dst ∷ calls) b = v3_run calls (v3_read f32 dst b).0

  empty_read :
      (dst : List S) (b : V3Buffer S) → length dst / b.geo.nc ≡ 0 → (v3_read f32 dst b).0 ≡ b
  unfolding v3_read
  empty_read dst b e = rw e refl

  read-Kept :
      (dst : List S) (b : V3Buffer S)
      → Placed b
      → let b' = (v3_read f32 dst b).0 in Placed b' × Kept b b'
  read-Kept dst b v = elim (Bool-cases (length dst / b.geo.nc == 0)) [
    | inl e ↦
        rw (empty_read dst b (ground arith))
          (v, record { geo = refl; write_pos = refl; ring = refl })
    | inr e ↦ ground (arith, v3_read-Placed f32 dst b v (ground arith))
  ]

  read-Streams :
      (dst written : List S) (b : V3Buffer S)
      → Kept b (v3_read f32 dst b).0
      → Streams b written
      → Streams (v3_read f32 dst b).0 written
  read-Streams dst written b k st = record {
    held = rw (k.geo, k.ring) st.held;
    counted = rw (k.geo, k.write_pos) st.counted;
  }

  run_from-Streams :
      (cap nc : ℕ) (calls : List (Call S)) (b : V3Buffer S) (written : List S)
      → b.geo.capacity ≡ cap
      → b.geo.nc ≡ nc
      → Placed b
      → Streams b written
      → Placed (v3_run calls b) × Streams (v3_run calls b) (stream cap nc calls written)
  unfolding v3_run stream
  run_from-Streams cap nc [] b written ec en v st = (v, st)
  run_from-Streams cap nc (writes src ∷ calls) b written ec en v st =
      let geo = write-geo src b in
      run_from-Streams cap nc calls (v3_write src b) (written ++ accepted cap nc src)
        (ap (λ g. g.capacity) geo ∙ ec) (ap (λ g. g.nc) geo ∙ en) (write-Placed src v)
        (rw (sym ec, sym en) (write-Streams src written b v st))
  run_from-Streams cap nc (reads dst ∷ calls) b written ec en v st =
      let (v', k) = read-Kept dst b v in
      run_from-Streams cap nc calls (v3_read f32 dst b).0 written (ap (λ g. g.capacity) k.geo ∙ ec)
        (ap (λ g. g.nc) k.geo ∙ en) v' (read-Streams dst written b k st)

  -- From a buffer that the constructor accepts, any sequence of writes and reads leaves a valid
  -- buffer that holds the end of the stream of the samples that the writes accepted. Its
  -- allowances are in their bounds, and its read position is not past its write position.
  pub v3_run-Placed :
      (cfg : V3Config) (b : V3Buffer S) (calls : List (Call S))
      → new_v3_buffer f32 cfg ≡ some b
      → Placed (v3_run calls b) × Streams (v3_run calls b) (stream b.geo.capacity b.geo.nc calls [])
  v3_run-Placed cfg b calls e =
      let (v, st) = new_v3_buffer-Placed cfg b e in
      run_from-Streams b.geo.capacity b.geo.nc calls b [] refl refl v st
