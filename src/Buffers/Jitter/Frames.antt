-- ===== src/Buffers/Jitter/Frames.antt =====
-- The frames that a splice plays.
use native.Mathlib.Nat.{mul-le-mul_right, mod-lt}
use panaudia_lasa.Prelude.{
  ℕ, suc, ◌+◌, ◌*◌, ◌%◌, ◌≤◌, ◌<◌, ◌≡◌, ◌≢◌, refl, sym, ap, ◌∙◌, inl, inr, Bool, true, false, List,
  [], ◌∷◌, arith, ltb, leb, if◌then◌else◌, Bool-cases, length, take, drop, get_elem?, overwrite,
  list_ext, length-take, length-drop, length-overwrite, get_elem?-take, get_elem?-drop,
  get_elem?-overwrite_before, get_elem?-overwrite_after, get_elem?-overwrite_in,
}
use panaudia_lasa.Prelude.Float.{Float}
use panaudia_lasa.Buffers.Ring.{read_from_ring}
use panaudia_lasa.Buffers.Ring.Held.{Holds, read_from_ring-stream}
use panaudia_lasa.Buffers.Jitter.Splice.{average, frame_at}

next_frame : (nc i : ℕ) → (i + 1) * nc ≡ i * nc + nc
next_frame nc i = grind arith

module _ {S : Type 0} (nc : ℕ) where
  -- Frame `i` of some samples.
  abbrev pub nth_frame : List S → ℕ → List S
  nth_frame xs i = take nc (drop (i * nc) xs)

  -- Writing a frame puts what it writes, and leaves the others.
  pub nth_frame-overwrite :
      (xs ys : List S) (i : ℕ)
      → length ys ≡ nc
      → (i + 1) * nc ≤ length xs
      → nth_frame (overwrite xs (i * nc) ys) i ≡ ys
  nth_frame-overwrite xs ys i ly h = list_ext _ _ sizes (λ k hk.
      get_elem?-take nc (drop (i * nc) written) k (omega (arith, hk, sizes, ly))
      ∙ get_elem?-drop (i * nc) written k (i * nc + k) refl
      ∙ get_elem?-overwrite_in xs (i * nc) ys k (i * nc + k) refl (omega (arith, hk, sizes, ly))
          (omega (arith, hk, sizes, ly, h, next_frame nc i)))
    where
      written : List S
      written = overwrite xs (i * nc) ys

      sizes : length (nth_frame written i) ≡ length ys
      sizes = omega (
        arith,
        ly,
        h,
        next_frame nc i,
        length-take nc (drop (i * nc) written),
        length-drop (i * nc) written,
        length-overwrite xs (i * nc) ys,
      )

  pub nth_frame-overwrite_ne :
      (xs ys : List S) (i j : ℕ)
      → length ys ≡ nc
      → i ≢ j
      → nth_frame (overwrite xs (i * nc) ys) j ≡ nth_frame xs j
  nth_frame-overwrite_ne xs ys i j ly ne = list_ext _ _ sizes (λ k hk.
      let inside : k < nc = omega (arith, hk, length-take nc (drop (j * nc) written)) in
      get_elem?-take nc (drop (j * nc) written) k inside
      ∙ get_elem?-drop (j * nc) written k (j * nc + k) refl
      ∙ away k inside
      ∙ sym (get_elem?-drop (j * nc) xs k (j * nc + k) refl)
      ∙ sym (get_elem?-take nc (drop (j * nc) xs) k inside))
    where
      written : List S
      written = overwrite xs (i * nc) ys

      sizes : length (nth_frame written j) ≡ length (nth_frame xs j)
      sizes = omega (
        arith,
        length-take nc (drop (j * nc) written),
        length-take nc (drop (j * nc) xs),
        length-drop (j * nc) written,
        length-drop (j * nc) xs,
        length-overwrite xs (i * nc) ys,
      )

      away : (k : ℕ) → k < nc → get_elem? written (j * nc + k) ≡ get_elem? xs (j * nc + k)
      away k inside = elim (Bool-cases (ltb i j)) [
        | inl below ↦
            let le : (i + 1) * nc ≤ j * nc =
              mul-le-mul_right {m = i + 1} {n = j} nc (ground arith) in
            get_elem?-overwrite_after xs (i * nc) ys (j * nc + k)
              (omega (arith, le, ly, next_frame nc i))
        | inr above ↦
            let le : (j + 1) * nc ≤ i * nc =
              mul-le-mul_right {m = j + 1} {n = i} nc (ground (arith, ne)) in
            get_elem?-overwrite_before xs (i * nc) ys (j * nc + k)
              (omega (arith, le, inside, next_frame nc j))
      ]

overwrite_same : {A : Type 0} (xs : List A) → overwrite xs 0 xs ≡ xs
overwrite_same [] = refl
overwrite_same (x ∷ xs) = ap (λ t. x ∷ t) (overwrite_same xs)

module _ {S : Type 0} (f32 : Float S) (cap nc : ℕ) (ring : List S) where
  pub length-average :
      (xs ys : List S) → length xs ≡ length ys → length (average f32 cap nc ring xs ys) ≡ length xs
  length-average [] ys e = refl
  length-average (x ∷ xs) [] e = absurd (omega (arith, e))
  length-average (x ∷ xs) (y ∷ ys) e = ap suc (length-average xs ys (omega (arith, e)))

  pub length-frame_at :
      (p : ℕ) → 0 < cap → length ring ≡ cap * nc → length (frame_at f32 cap nc ring p) ≡ nc
  length-frame_at p h size =
      let at : p % cap + 1 ≤ cap = omega (arith, mod-lt p {m = cap} h) in
      omega (
        arith,
        size,
        next_frame nc (p % cap),
        mul-le-mul_right {m = p % cap + 1} {n = cap} nc at,
        length-take nc (drop ((p % cap) * nc) ring),
        length-drop ((p % cap) * nc) ring,
      )

  -- A frame of the ring is that of the stream.
  pub frame_at-stream :
      (written : List S) (p : ℕ)
      → 0 < cap
      → 0 < nc
      → Holds cap nc ring written
      → (p + 1) * nc ≤ length written
      → length written ≤ (p + cap) * nc
      → frame_at f32 cap nc ring p ≡ nth_frame nc written p
  unfolding read_from_ring
  frame_at-stream written p h g v inside recent =
      let x = frame_at f32 cap nc ring p in
      let one : 1 * nc ≡ nc = omega arith in
      let at : p % cap + 1 ≤ cap = omega (arith, mod-lt p {m = cap} h) in
      let whole : leb (p % cap + 1) cap ≡ true = ground (arith, at) in
      let same : read_from_ring cap nc ring x p 1 ≡ x =
        rw (read_from_ring, whole, one) (overwrite_same x) in
      let heard =
        read_from_ring-stream cap nc ring x written p 1 h g v
          (omega (arith, length-frame_at p h v.size, one)) inside recent in
      sym same ∙ heard ∙ ap (λ t. take t (drop (p * nc) written)) one

pub either : {i cut m : ℕ} (better : Bool) → i < m → cut < m → (if better then i else cut) < m
either true a b = a
either false a b = b

pub either_above :
    {i cut lo : ℕ} (better : Bool) → lo < i → lo < cut → lo < (if better then i else cut)
either_above true a b = a
either_above false a b = b
