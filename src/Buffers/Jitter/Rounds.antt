-- ===== src/Buffers/Jitter/Rounds.antt =====
-- The loops of the splices over the frames of their output.
use native.Mathlib.Nat.{mul-le-mul_right}
use panaudia_lasa.Prelude.{
  ℕ, zero, suc, ◌+◌, ◌-◌, ◌*◌, ◌≤◌, ◌<◌, ◌≡◌, refl, sym, ◌∙◌, inl, inr, List, arith, ltb, ◌==◌,
  if◌then◌else◌, Bool-cases, length, overwrite, length-overwrite,
}
use panaudia_lasa.Prelude.Float.{Float}
use panaudia_lasa.Buffers.Jitter.Splice.{drop_frames, insert_frames, blend, frame_at, cut_from}
use panaudia_lasa.Buffers.Jitter.Frames.{
  nth_frame, nth_frame-overwrite, nth_frame-overwrite_ne, length-average, length-frame_at, either,
  either_above,
}

module _ {S : Type 0} (nc : ℕ) (content : ℕ → List S)
    (full : (j : ℕ) → length (content j) ≡ nc) where
  -- The loop over the frames of the output.
  unfoldable pub rounds : ℕ → ℕ → List S → List S
  rounds zero j dst = dst
  rounds (suc k) j dst = rounds k (j + 1) (overwrite dst (j * nc) (content j))

  rounds_before :
      (k j i : ℕ) (dst : List S) → i < j → nth_frame nc (rounds k j dst) i ≡ nth_frame nc dst i
  unfolding rounds
  rounds_before zero j i dst h = refl
  rounds_before (suc k) j i dst h =
      rounds_before k (j + 1) i (overwrite dst (j * nc) (content j)) (omega arith)
      ∙ nth_frame-overwrite_ne nc dst (content j) j i (full j) (λ e. omega (arith, e, h))

  pub rounds_in :
      (k j i : ℕ) (dst : List S)
      → (j + k) * nc ≤ length dst
      → j ≤ i
      → i < j + k
      → nth_frame nc (rounds k j dst) i ≡ content i
  unfolding rounds
  rounds_in zero j i dst h lo hi = absurd (omega (arith, lo, hi))
  rounds_in (suc k) j i dst h lo hi =
      let dst' = overwrite dst (j * nc) (content j) in
      elim (Bool-cases (j == i)) [
        | inl same ↦
            let at : j ≡ i = ground arith in
            let fits : (j + 1) * nc ≤ length dst =
              omega (arith, h, mul-le-mul_right {m = j + 1} {n = j + suc k} nc (omega arith)) in
            rw (sym at) (
              rounds_before k (j + 1) j dst' (omega arith)
              ∙ nth_frame-overwrite nc dst (content j) j (full j) fits)
        | inr other ↦
            let further : j + 1 ≤ i = ground (arith, lo) in
            let step : j + 1 + k ≡ j + suc k = omega arith in
            let long : (j + 1 + k) * nc ≤ length dst' =
              rw step (omega (arith, h, length-overwrite dst (j * nc) (content j))) in
            rounds_in k (j + 1) i dst' long further (omega (arith, hi))
      ]

module _ {S : Type 0} (f32 : Float S) (cap nc : ℕ) (ring : List S) where
  -- What frame `j` of a splice's output holds, in frames of the ring.
  unfoldable pub drop_content : ℕ → ℕ → ℕ → List S
  drop_content cut rp j =
      let src = if ltb cut j then rp + j + 1 else rp + j in
      if j == cut then blend f32 cap nc ring src (src + 1) else frame_at f32 cap nc ring src

  unfoldable pub insert_content : ℕ → ℕ → ℕ → List S
  insert_content cut rp j =
      let src = if ltb cut j then rp + j - 1 else rp + j in
      if j == cut
      then blend f32 cap nc ring (rp + cut - 1) (rp + cut)
      else frame_at f32 cap nc ring src

  length-blend :
      (p q : ℕ) → 0 < cap → length ring ≡ cap * nc → length (blend f32 cap nc ring p q) ≡ nc
  length-blend p q h size =
      let lp = length-frame_at f32 cap nc ring p h size in
      let lq = length-frame_at f32 cap nc ring q h size in
      length-average f32 cap nc ring (frame_at f32 cap nc ring p) (frame_at f32 cap nc ring q)
        (lp ∙ sym lq)
      ∙ lp

  pub drop_full :
      0 < cap → length ring ≡ cap * nc → (cut rp j : ℕ) → length (drop_content cut rp j) ≡ nc
  unfolding drop_content
  drop_full h size cut rp j =
      let src = if ltb cut j then rp + j + 1 else rp + j in
      elim (Bool-cases (j == cut)) [
        | inl here ↦ rw (drop_content, here) (length-blend src (src + 1) h size)
        | inr off ↦ rw (drop_content, off) (length-frame_at f32 cap nc ring src h size)
      ]

  pub insert_full :
      0 < cap → length ring ≡ cap * nc → (cut rp j : ℕ) → length (insert_content cut rp j) ≡ nc
  unfolding insert_content
  insert_full h size cut rp j =
      let src = if ltb cut j then rp + j - 1 else rp + j in
      elim (Bool-cases (j == cut)) [
        | inl here ↦ rw (insert_content, here) (length-blend (rp + cut - 1) (rp + cut) h size)
        | inr off ↦ rw (insert_content, off) (length-frame_at f32 cap nc ring src h size)
      ]

  pub drop_frames-rounds :
      (full : (cut rp j : ℕ) → length (drop_content cut rp j) ≡ nc) (cut rp k j : ℕ) (dst : List S)
      → drop_frames f32 cap nc ring cut rp k j dst
        ≡ rounds nc (drop_content cut rp) (full cut rp) k j dst
  unfolding drop_frames drop_content rounds
  drop_frames-rounds full cut rp zero j dst = refl
  drop_frames-rounds full cut rp (suc k) j dst =
      drop_frames-rounds full cut rp k (j + 1) (overwrite dst (j * nc) (drop_content cut rp j))

  pub insert_frames-rounds :
      (full : (cut rp j : ℕ) → length (insert_content cut rp j) ≡ nc) (cut rp k j : ℕ)
      (dst : List S)
      → insert_frames f32 cap nc ring cut rp k j dst
        ≡ rounds nc (insert_content cut rp) (full cut rp) k j dst
  unfolding insert_frames insert_content rounds
  insert_frames-rounds full cut rp zero j dst = refl
  insert_frames-rounds full cut rp (suc k) j dst =
      insert_frames-rounds full cut rp k (j + 1) (overwrite dst (j * nc) (insert_content cut rp j))

  pub cut_in :
      (k i m before : ℕ) (best : S) (cut : ℕ)
      → cut < m
      → i + k ≤ m
      → cut_from f32 cap nc ring k i before best cut < m
  unfolding cut_from
  cut_in zero i m before best cut h g = h
  cut_in (suc k) i m before best cut h g =
      cut_in k (i + 1) m (before + 1) _ _ (either {i = i} _ (omega (arith, g)) h) (omega (arith, g))

  pub cut_above :
      (k i lo before : ℕ) (best : S) (cut : ℕ)
      → lo < cut
      → lo < i
      → lo < cut_from f32 cap nc ring k i before best cut
  unfolding cut_from
  cut_above zero i lo before best cut h g = h
  cut_above (suc k) i lo before best cut h g =
      cut_above k (i + 1) lo (before + 1) _ _ (either_above _ g h) (omega (arith, g))
