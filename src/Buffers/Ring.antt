-- ===== src/Buffers/Ring.antt =====
-- engine/buffers/jitter_buffer.go, writeToRing and readFromRing: the ring of interleaved samples.
-- A slice is a list, `copy` is `overwrite`. Positions are cumulative frame counts.
pub mod Index
pub mod Stream
pub mod Held
pub mod Accept
use panaudia_lasa.Prelude.{ℕ, ◌+◌, ◌-◌, ◌*◌, ◌%◌, List, leb, if◌then◌else◌, take, drop, overwrite}

module _ {ℓ} {A : Type ℓ} (capacity nc : ℕ) where
  -- `data`, `src`, `wp` and `nFrames`; the result is the new `data`.
  pub write_to_ring : List A → List A → ℕ → ℕ → List A
  write_to_ring ring src wp n =
      let start = wp % capacity in
      let first = capacity - start in
      if leb (start + n) capacity
      then overwrite ring (start * nc) (take (n * nc) src)
      else overwrite (overwrite ring (start * nc) (take (first * nc) src)) 0
          (take ((n - first) * nc) (drop (first * nc) src))

  -- `data`, `dst`, `rp` and `nFrames`; the result is the new `dst`.
  unfoldable pub read_from_ring : List A → List A → ℕ → ℕ → List A
  read_from_ring ring dst rp n =
      let start = rp % capacity in
      let first = capacity - start in
      if leb (start + n) capacity
      then overwrite dst 0 (take (n * nc) (drop (start * nc) ring))
      else overwrite (overwrite dst 0 (take (first * nc) (drop (start * nc) ring))) (first * nc)
          (take ((n - first) * nc) ring)
