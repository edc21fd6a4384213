-- ===== src/Lab/V3/Play.antt =====
-- engine/jitterlab/v3.go: Read of a V3Buffer, in its numbered steps.
use panaudia_lasa.Prelude.{
  [], ◌∷◌, ℕ, ◌+◌, ◌-◌, ◌*◌, ◌/◌, ◌%◌, Bool, true, false, ◌&&◌, List, none, some, ltb, leb, ◌==◌,
  if◌then◌else◌, length, take, drop, overwrite, replicate,
}
use panaudia_lasa.Prelude.Float.{Float}
use panaudia_lasa.Buffers.Ring.{read_from_ring}
use panaudia_lasa.Lab.V3.{V3Buffer, drop_line, v3_fill, adapt, v3_start, v3_valves}

module _ {S : Type 0} (f32 : Float S) where
  open f32 use {lit, add, mul}

  abbrev pub v3_silence : List S → List S
  v3_silence dst = replicate (length dst) (lit 0 0)

  -- Channel by channel, (a + b) * 0.5.
  abbrev pub mean : List S → List S → List S
  mean [] ys = []
  mean (x ∷ xs) [] = []
  mean (x ∷ xs) (y ∷ ys) = mul (add x y) (lit 5 1) ∷ mean xs ys

  -- The frame of the ring at a position, and the frame of `dst` at an index.
  abbrev pub ring_frame : V3Buffer S → ℕ → List S
  ring_frame b p = take b.geo.nc (drop ((p % b.geo.capacity) * b.geo.nc) b.ring)

  abbrev pub frame_of : V3Buffer S → List S → ℕ → List S
  frame_of b dst i = take b.geo.nc (drop (i * b.geo.nc) dst)

  abbrev pub from_ring : V3Buffer S → List S → ℕ → List S
  from_ring b dst n = read_from_ring b.geo.capacity b.geo.nc b.ring dst b.read_pos n

  unfoldable pub v3_drop : List S → ℕ → V3Buffer S → V3Buffer S × List S
  v3_drop dst n b =
      let out = from_ring b dst n in
      (
        record b {
          read_pos = b.read_pos + n + 1;
          dropped = b.dropped + 1;
          drop_count = b.drop_count + 1;
        },
        overwrite out ((n - 1) * b.geo.nc)
            (mean (frame_of b out (n - 1)) (ring_frame b (b.read_pos + n))),
      )

  -- `dst[:realFrames*nc]` is written by the ring, the tail frame by the mean.
  unfoldable pub v3_insert : List S → ℕ → V3Buffer S → V3Buffer S × List S
  v3_insert dst n b =
      let real = n - 1 in
      let out = overwrite dst 0 (from_ring b (take (real * b.geo.nc) dst) real) in
      (
        record b {
          read_pos = b.read_pos + real;
          inserted = b.inserted + 1;
          insert_count = b.insert_count + 1;
        },
        overwrite out (real * b.geo.nc)
            (mean (frame_of b out (real - 1)) (ring_frame b (b.read_pos + real))),
      )

  unfoldable pub v3_play : List S → ℕ → V3Buffer S → V3Buffer S × List S
  unfolding v3_drop v3_insert
  v3_play dst n b =
      if ltb (drop_line b) (v3_fill b) && leb (n + 1) (v3_fill b)
      then v3_drop dst n b
      else if ltb (v3_fill b) b.geo.floor && leb 2 n
      then v3_insert dst n b
      else (record b { read_pos = b.read_pos + n }, from_ring b dst n)

  -- 4. and 5., from a buffer past its valves.
  unfoldable pub v3_finish : List S → ℕ → V3Buffer S → V3Buffer S × List S × Bool
  unfolding v3_play
  v3_finish dst n b =
      let (b', out) = v3_play dst n b in
      if ltb (v3_fill b) n
      then (adapt (record b { underruns = b.underruns + 1 }), v3_silence dst, false)
      else (adapt b', out, true)

  -- The buffer after the read, what `dst` holds then, and the result.
  unfoldable pub v3_read : List S → V3Buffer S → V3Buffer S × List S × Bool
  unfolding v3_finish
  v3_read dst b =
      let n = length dst / b.geo.nc in
      if n == 0 then (b, dst, true) else elim (v3_start b) [
        | none ↦ (adapt b, v3_silence dst, false)
        | some b1 ↦ v3_finish dst n (v3_valves b1)
      ]
