-- ===== src/Buffers/Jitter/Run.antt =====
-- A buffer between its writer and its reader: any sequence of Write and Read calls.
use panaudia_lasa.Prelude.{
  ℕ, sym, ◌+◌, ◌/◌, ◌≤◌, ◌≡◌, refl, ap, ◌∙◌, ◌⊎◌, inl, inr, List, [], ◌∷◌, ◌++◌, some, arith, ◌==◌,
  Bool-cases, length,
}
use panaudia_lasa.Prelude.Float.{Float}
use panaudia_lasa.Buffers.Jitter.{Config, JitterBuffer, new_jitter_buffer}
use panaudia_lasa.Buffers.Jitter.Play.{write, read}
use panaudia_lasa.Buffers.Jitter.Valid.{Placed, Kept, write-Placed}
use panaudia_lasa.Buffers.Jitter.Steps.{read-Placed}
use panaudia_lasa.Buffers.Jitter.Audio.{Streams, write-Streams}
use panaudia_lasa.Buffers.Ring.Accept.{accepted}
use panaudia_lasa.Buffers.Jitter.Fresh.{new_jitter_buffer-Placed}

-- A call on a buffer, with the samples given or the destination to fill.
pub data Call (S : Type 0) : Type 0 where
  writes : List S → Call S
  reads : List S → Call S

module _ {S : Type 0} where
  -- The samples that the writes of a sequence of calls add to the stream of `written`.
  unfoldable pub stream : (cap nc : ℕ) → List (Call S) → List S → List S
  stream cap nc [] written = written
  stream cap nc (writes src ∷ calls) written = stream cap nc calls (written ++ accepted cap nc src)
  stream cap nc (reads dst ∷ calls) written = stream cap nc calls written

module _ {F S : Type 0} (fl : Float F) (f32 : Float S) where
  unfoldable pub run : List (Call S) → JitterBuffer F S → JitterBuffer F S
  run [] b = b
  run (writes src ∷ calls) b = run calls (write src b)
  run (reads dst ∷ calls) b = run calls (read fl f32 dst b).0

  pub write-geo : (src : List S) (b : JitterBuffer F S) → (write src b).geo ≡ b.geo
  unfolding write
  write-geo src b = ground arith

  empty_read :
      (dst : List S) (b : JitterBuffer F S) → length dst / b.geo.nc ≡ 0 → (read fl f32 dst b).0 ≡ b
  unfolding read
  empty_read dst b e = rw e refl

  pub read-Kept :
      (dst : List S) (b : JitterBuffer F S)
      → Placed b
      → let b' = (read fl f32 dst b).0 in Placed b' × Kept b b'
  read-Kept dst b v = elim (Bool-cases (length dst / b.geo.nc == 0)) [
    | inl e ↦
        rw (empty_read dst b (ground arith))
          (v, record { geo = refl; write_pos = refl; ring = refl })
    | inr e ↦ ground (arith, read-Placed fl f32 dst b v (ground arith))
  ]

  pub read-Streams :
      (dst written : List S) (b : JitterBuffer F S)
      → Kept b (read fl f32 dst b).0
      → Streams b written
      → Streams (read fl f32 dst b).0 written
  read-Streams dst written b k st = record {
    held = rw (k.geo, k.ring) st.held;
    counted = rw (k.geo, k.write_pos) st.counted;
  }

  run-Running :
      (calls : List (Call S)) (written : List S) (b : JitterBuffer F S) (cap nc : ℕ)
      → b.geo.capacity ≡ cap
      → b.geo.nc ≡ nc
      → Placed b
      → Streams b written
      → let b' = run calls b in Placed b' × Streams b' (stream cap nc calls written)
  unfolding run stream
  run-Running [] written b cap nc hc hn v st = (v, st)
  run-Running (writes src ∷ calls) written b cap nc hc hn v st =
      let geo = write-geo src b in
      let st' : Streams (write src b) (written ++ accepted cap nc src) =
        rw (sym hc, sym hn) (write-Streams src written b v st) in
      run-Running calls (written ++ accepted cap nc src) (write src b) cap nc
        (ap (λ x. x.capacity) geo ∙ hc) (ap (λ x. x.nc) geo ∙ hn) (write-Placed src v) st'
  run-Running (reads dst ∷ calls) written b cap nc hc hn v st =
      let (v', k) = read-Kept dst b v in
      run-Running calls written (read fl f32 dst b).0 cap nc (ap (λ x. x.capacity) k.geo ∙ hc)
        (ap (λ x. x.nc) k.geo ∙ hn) v' (read-Streams dst written b k st)

  -- From a new buffer, with the capacity left to the default or large enough, any sequence of
  -- writes and reads leaves a valid buffer that holds the end of the stream of the samples that the
  -- writes accepted.
  pub run-Streams :
      (cfg : Config F) (calls : List (Call S)) (b : JitterBuffer F S)
      → new_jitter_buffer fl f32 cfg ≡ some b
      → (cfg.capacity ≡ 0) ⊎ (b.geo.sp_base + (b.geo.w + b.geo.r) ≤ b.geo.capacity)
      → let b' = run calls b in Placed b' × Streams b' (stream b.geo.capacity b.geo.nc calls [])
  run-Streams cfg calls b e h =
      let (v, st) = new_jitter_buffer-Placed fl f32 cfg b e h in
      run-Running calls [] b b.geo.capacity b.geo.nc refl refl v st
