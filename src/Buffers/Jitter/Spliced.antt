-- ===== src/Buffers/Jitter/Spliced.antt =====
-- A splice against the stream: all its frames but the one at the cut are the stream's.
use native.Mathlib.Nat.{mul-le-mul_right}
use panaudia_lasa.Prelude.{
  ℕ, ◌+◌, ◌-◌, ◌*◌, ◌≤◌, ◌<◌, ◌≡◌, ap, ◌∙◌, inl, inr, false, List, arith, ltb, ◌==◌, if◌then◌else◌,
  Bool-cases, length,
}
use panaudia_lasa.Prelude.Float.{Float}
use panaudia_lasa.Buffers.Ring.Held.{Holds}
use panaudia_lasa.Buffers.Jitter.Splice.{average, frame_at, splice_drop, splice_insert, cut_from}
use panaudia_lasa.Buffers.Jitter.Frames.{nth_frame, frame_at-stream}
use panaudia_lasa.Buffers.Jitter.Rounds.{
  rounds_in, cut_in, cut_above, drop_full, insert_full, drop_frames-rounds, insert_frames-rounds,
  drop_content, insert_content,
}

module _ {S : Type 0} (f32 : Float S) (cap nc : ℕ) (ring : List S) where
  -- Where the splices of `n` frames from `rp` cut.
  abbrev pub drop_cut : ℕ → ℕ → ℕ
  drop_cut rp n = cut_from f32 cap nc ring n 0 rp (f32.neg (f32.lit 1 0)) 0

  abbrev pub insert_cut : ℕ → ℕ → ℕ
  insert_cut rp n = cut_from f32 cap nc ring (n - 1) 1 rp (f32.neg (f32.lit 1 0)) 1

  -- Any frame from `rp` to `top`, all of them held.
  held_frame :
      (written : List S) (rp top p : ℕ)
      → 0 < cap
      → 0 < nc
      → Holds cap nc ring written
      → top * nc ≤ length written
      → length written ≤ (rp + cap) * nc
      → rp ≤ p
      → p < top
      → frame_at f32 cap nc ring p ≡ nth_frame nc written p
  held_frame written rp top p h g v inside recent lo hi =
      frame_at-stream f32 cap nc ring written p h g v
        (omega (arith, inside, mul-le-mul_right {m = p + 1} {n = top} nc (omega (arith, hi))))
        (omega
          (arith, recent, mul-le-mul_right {m = rp + cap} {n = p + cap} nc (omega (arith, lo))))

  drop_heard :
      (cut rp j : ℕ) (f : ℕ → List S)
      → frame_at f32 cap nc ring (rp + j) ≡ f (rp + j)
      → frame_at f32 cap nc ring (rp + j + 1) ≡ f (rp + j + 1)
      → drop_content f32 cap nc ring cut rp j ≡ (
          if j == cut
          then average f32 cap nc ring (f (rp + j)) (f (rp + j + 1))
          else if ltb cut j
          then f (rp + j + 1)
          else f (rp + j))
  unfolding drop_content
  drop_heard cut rp j f here next = elim (Bool-cases (j == cut)) [
    | inl same ↦
        let past : ltb cut j ≡ false = ground (arith, same) in
        rw (drop_content, same, past)
          (ap (λ t. average f32 cap nc ring t (frame_at f32 cap nc ring (rp + j + 1))) here
            ∙ ap (average f32 cap nc ring (f (rp + j))) next)
    | inr off ↦ elim (Bool-cases (ltb cut j)) [
      | inl after ↦ rw (drop_content, off, after) next
      | inr before ↦ rw (drop_content, off, before) here
    ]
  ]

  -- At the cut, where both sides of the average are held, and off it, where the frame is.
  insert_heard :
      (cut rp j : ℕ) (f : ℕ → List S)
      → (j ≡ cut
          → (frame_at f32 cap nc ring (rp + cut - 1) ≡ f (rp + cut - 1))
            × (frame_at f32 cap nc ring (rp + cut) ≡ f (rp + cut)))
      → (j < cut → frame_at f32 cap nc ring (rp + j) ≡ f (rp + j))
      → (cut < j → frame_at f32 cap nc ring (rp + j - 1) ≡ f (rp + j - 1))
      → insert_content f32 cap nc ring cut rp j ≡ (
          if j == cut
          then average f32 cap nc ring (f (rp + cut - 1)) (f (rp + cut))
          else if ltb cut j
          then f (rp + j - 1)
          else f (rp + j))
  unfolding insert_content
  insert_heard cut rp j f at before after = elim (Bool-cases (j == cut)) [
    | inl same ↦
        let (left, right) = at (ground arith) in
        rw (insert_content, same)
          (ap (λ t. average f32 cap nc ring t (frame_at f32 cap nc ring (rp + cut))) left
            ∙ ap (average f32 cap nc ring (f (rp + cut - 1))) right)
    | inr off ↦ elim (Bool-cases (ltb cut j)) [
      | inl past ↦ rw (insert_content, off, past) (after (ground arith))
      | inr yet ↦ rw (insert_content, off, yet) (before (ground (arith, off)))
    ]
  ]

  -- Dropping a frame from a read of `n` frames, at least one, at `rp` of a stream that the ring holds:
  -- the cut lies among the `n`; before it the frames are the stream's, at it the frame is the average
  -- of the two around it, and after it the frames are the stream's, one further on.
  pub splice_drop-stream :
      (written dst : List S) (rp n j : ℕ)
      → 0 < cap
      → 0 < nc
      → Holds cap nc ring written
      → length dst ≡ n * nc
      → (rp + n + 1) * nc ≤ length written
      → length written ≤ (rp + cap) * nc
      → j < n
      → let cut = drop_cut rp n in
        let heard = nth_frame nc written in
        (cut < n)
        × (nth_frame nc (splice_drop f32 cap nc ring dst rp n) j ≡ (
            if j == cut
            then average f32 cap nc ring (heard (rp + j)) (heard (rp + j + 1))
            else if ltb cut j
            then heard (rp + j + 1)
            else heard (rp + j)))
  unfolding splice_drop
  splice_drop-stream written dst rp n j h g v ld inside recent less =
      let cut = drop_cut rp n in
      let full = drop_full f32 cap nc ring h v.size in
      let held = λ (p : ℕ). held_frame written rp (rp + n + 1) p h g v inside recent in
      let here = held (rp + j) (omega arith) (omega (arith, less)) in
      let next = held (rp + j + 1) (omega arith) (omega (arith, less)) in
      let run : nth_frame nc (splice_drop f32 cap nc ring dst rp n) j
          ≡ drop_content f32 cap nc ring cut rp j =
        rw (splice_drop, drop_frames-rounds f32 cap nc ring full cut rp n 0 dst)
          (rounds_in nc (drop_content f32 cap nc ring cut rp) (full cut rp) n 0 j dst
            (omega (arith, ld)) (omega arith) (omega (arith, less))) in
      (
        cut_in f32 cap nc ring n 0 n rp (f32.neg (f32.lit 1 0)) 0 (omega (arith, less))
            (omega arith),
        run ∙ drop_heard cut rp j (nth_frame nc written) here next,
      )

  -- Inserting a frame into a read of `n` frames, at least two, at `rp` of a stream that the ring
  -- holds: the cut lies between two of the `n`; before it the frames are the stream's, at it the
  -- frame is the average of the two around it, and after it the frames are the stream's, one
  -- earlier.
  pub splice_insert-stream :
      (written dst : List S) (rp n j : ℕ)
      → 0 < cap
      → 0 < nc
      → Holds cap nc ring written
      → length dst ≡ n * nc
      → 2 ≤ n
      → (rp + n) * nc ≤ length written
      → length written ≤ (rp + cap) * nc
      → j < n
      → let cut = insert_cut rp n in
        let heard = nth_frame nc written in
        (0 < cut)
        × (cut < n)
        × (nth_frame nc (splice_insert f32 cap nc ring dst rp n) j ≡ (
            if j == cut
            then average f32 cap nc ring (heard (rp + cut - 1)) (heard (rp + cut))
            else if ltb cut j
            then heard (rp + j - 1)
            else heard (rp + j)))
  unfolding splice_insert
  splice_insert-stream written dst rp n j h g v ld two inside recent less =
      let cut = insert_cut rp n in
      let full = insert_full f32 cap nc ring h v.size in
      let held = λ (p : ℕ). held_frame written rp (rp + n) p h g v inside recent in
      let small : cut < n =
        cut_in f32 cap nc ring (n - 1) 1 n rp (f32.neg (f32.lit 1 0)) 1 (omega (arith, two))
          (omega (arith, two)) in
      let run : nth_frame nc (splice_insert f32 cap nc ring dst rp n) j
          ≡ insert_content f32 cap nc ring cut rp j =
        rw (splice_insert, insert_frames-rounds f32 cap nc ring full cut rp n 0 dst)
          (rounds_in nc (insert_content f32 cap nc ring cut rp) (full cut rp) n 0 j dst
            (omega (arith, ld)) (omega arith) (omega (arith, less))) in
      let large : 0 < cut =
        cut_above f32 cap nc ring (n - 1) 1 0 rp (f32.neg (f32.lit 1 0)) 1 (omega arith)
          (omega arith) in
      (
        large,
        small,
        run
            ∙ insert_heard cut rp j (nth_frame nc written)
                (λ e. (
                  held (rp + cut - 1) (omega (arith, large)) (omega (arith, small)),
                  held (rp + cut) (omega arith) (omega (arith, small)),
                ))
                (λ e. held (rp + j) (omega arith) (omega (arith, less)))
                (λ e. held (rp + j - 1) (omega (arith, e)) (omega (arith, less, e))),
      )
