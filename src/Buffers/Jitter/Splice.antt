-- ===== src/Buffers/Jitter/Splice.antt =====
-- engine/buffers/jitter_buffer.go: frameDiff, spliceDrop and spliceInsert, the reads that consume one
-- frame more or less than they produce. The loops over frames recur on the rounds left.
use panaudia_lasa.Prelude.{
  ℕ, zero, suc, ◌+◌, ◌-◌, ◌*◌, ◌%◌, ◌||◌, List, [], ◌∷◌, ltb, ◌==◌, if◌then◌else◌, get_or, take,
  drop, overwrite,
}
use panaudia_lasa.Prelude.Float.{Float}

module _ {S : Type 0} (f32 : Float S) (capacity nc : ℕ) (ring : List S) where
  open f32 use {lit, neg, add, sub, mul, ltf, lef}

  -- Where a frame begins in the ring.
  abbrev pub base : ℕ → ℕ
  base p = (p % capacity) * nc

  -- The sum over the `k` channels that are left, from `ch` on.
  diff_from : ℕ → ℕ → ℕ → ℕ → S → S
  diff_from pb qb zero ch d = d
  diff_from pb qb (suc k) ch d =
      let x = sub (get_or ring (pb + ch) (lit 0 0)) (get_or ring (qb + ch) (lit 0 0)) in
      diff_from pb qb k (ch + 1) (add d (if ltf x (lit 0 0) then neg x else x))

  unfoldable pub frame_diff : ℕ → ℕ → S
  unfolding diff_from
  frame_diff p q = diff_from (base p) (base q) nc 0 (lit 0 0)

  -- The later cut wins ties. `at` is the frame before the cut `i`.
  unfoldable pub cut_from : ℕ → ℕ → ℕ → S → ℕ → ℕ
  unfolding frame_diff
  cut_from zero i before best cut = cut
  cut_from (suc k) i before best cut =
      let d = frame_diff before (before + 1) in
      let better = ltf best (lit 0 0) || lef d best in
      cut_from k (i + 1) (before + 1) (if better then d else best) (if better then i else cut)

  abbrev pub average : List S → List S → List S
  average [] ys = []
  average (x ∷ xs) [] = []
  average (x ∷ xs) (y ∷ ys) = mul (add x y) (lit 5 1) ∷ average xs ys

  abbrev pub frame_at : ℕ → List S
  frame_at p = take nc (drop (base p) ring)

  abbrev pub blend : ℕ → ℕ → List S
  blend p q = average (frame_at p) (frame_at q)

  -- Frame `j` of the output, of `k` frames that are left.
  unfoldable pub drop_frames : ℕ → ℕ → ℕ → ℕ → List S → List S
  drop_frames cut rp zero j dst = dst
  drop_frames cut rp (suc k) j dst =
      let src = if ltb cut j then rp + j + 1 else rp + j in
      let out = if j == cut then blend src (src + 1) else frame_at src in
      drop_frames cut rp k (j + 1) (overwrite dst (j * nc) out)

  unfoldable pub insert_frames : ℕ → ℕ → ℕ → ℕ → List S → List S
  insert_frames cut rp zero j dst = dst
  insert_frames cut rp (suc k) j dst =
      let src = if ltb cut j then rp + j - 1 else rp + j in
      let out = if j == cut then blend (rp + cut - 1) (rp + cut) else frame_at src in
      insert_frames cut rp k (j + 1) (overwrite dst (j * nc) out)

  unfoldable pub splice_drop : List S → ℕ → ℕ → List S
  unfolding cut_from drop_frames
  splice_drop dst rp n = drop_frames (cut_from n 0 rp (neg (lit 1 0)) 0) rp n 0 dst

  unfoldable pub splice_insert : List S → ℕ → ℕ → List S
  unfolding cut_from insert_frames
  splice_insert dst rp n = insert_frames (cut_from (n - 1) 1 rp (neg (lit 1 0)) 1) rp n 0 dst
