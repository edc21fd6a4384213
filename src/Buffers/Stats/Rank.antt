-- ===== src/Buffers/Stats/Rank.antt =====
-- `rankNth` is the n-th highest of the history.
use panaudia_lasa.Prelude.{
  ◌||◌, ◌==◌, some, get_elem?, ℕ, zero, suc, ◌+◌, ◌-◌, ◌≤◌, ◌<◌, min, ◌≡◌, refl, ap, ◌∙◌, ◌↔◌,
  length-replicate, inl, inr, Bool-cases, true, false, List, [], ◌∷◌, arith, ltb, if◌then◌else◌,
  length, replicate, get_or,
}
use panaudia_lasa.Prelude.Int.{ℤ, ltb_ℤ, ◌≤ℤ◌}
use panaudia_lasa.Buffers.Stats.{drop_last, insert_top, top_of, lowest, rank_nth}

-- How many of a list exceed `x`.
abbrev pub count_above : ℤ → List ℤ → ℕ
count_above x [] = 0
count_above x (v ∷ h) = if ltb_ℤ x v then suc (count_above x h) else count_above x h

-- Highest first.
abbrev Falls : List ℤ → Type 0
Falls [] = Unit {0}
Falls (x ∷ []) = Unit {0}
Falls (x ∷ y ∷ xs) = (y ≤ℤ x) × Falls (y ∷ xs)

length-drop_last : (t : ℤ) (ts : List ℤ) → length (drop_last (t ∷ ts)) ≡ length ts
length-drop_last t [] = refl
length-drop_last t (u ∷ ts) = omega (arith, length-drop_last u ts)

length-insert_top : (v : ℤ) (top : List ℤ) → length (insert_top v top) ≡ length top
unfolding insert_top
length-insert_top v [] = refl
length-insert_top v (t ∷ ts) = ground (arith, length-drop_last t ts, length-insert_top v ts)

-- A value below every entry of a falling list is not counted there.
count_above-low : (x t : ℤ) (ts : List ℤ) → Falls (t ∷ ts) → t ≤ℤ x → count_above x (t ∷ ts) ≡ 0
count_above-low x t [] f h = ground arith
count_above-low x t (u ∷ ts) f h = ground (arith, count_above-low x u ts f.1)

count_above-drop_last :
    (x t : ℤ) (ts : List ℤ)
    → Falls (t ∷ ts)
    → count_above x (drop_last (t ∷ ts)) ≡ min (length ts) (count_above x (t ∷ ts))
count_above-drop_last x t [] f = ground arith
count_above-drop_last x t (u ∷ ts) f =
    ground (arith, count_above-drop_last x u ts f.1, count_above-low x u ts f.1)

count_above-le : (x : ℤ) (h : List ℤ) → count_above x h ≤ length h
count_above-le x [] = omega arith
count_above-le x (v ∷ h) = ground (arith, count_above-le x h)

insert_here :
    (x v t : ℤ) (r : List ℤ)
    → Falls (t ∷ r)
    → ltb_ℤ t v ≡ true
    → count_above x (v ∷ drop_last (t ∷ r)) ≡ min (suc (length r)) (count_above x (v ∷ t ∷ r))
insert_here x v t r f h = elim (Bool-cases (ltb_ℤ x v)) [
  | inl above ↦ rw above (omega (arith, count_above-drop_last x t r f))
  | inr below ↦
      let none_above : count_above x (t ∷ r) ≡ 0 = count_above-low x t r f (ground arith) in
      rw below (omega (arith, none_above, count_above-drop_last x t r f))
]

insert_later :
    (x v t : ℤ) (r : List ℤ)
    → Falls (t ∷ r)
    → ltb_ℤ t v ≡ false
    → count_above x (insert_top v r) ≡ min (length r) (count_above x (v ∷ r))
    → count_above x (t ∷ insert_top v r) ≡ min (suc (length r)) (count_above x (v ∷ t ∷ r))
insert_later x v t r f h ih = elim (Bool-cases (ltb_ℤ x t)) [
  | inl above ↦ elim (Bool-cases (ltb_ℤ x v)) [
    | inl p ↦ rw (above, p) (let ih' = rw p at ih in omega arith)
    | inr p ↦ rw (above, p) (let ih' = rw p at ih in omega arith)
  ]
  | inr below ↦
      let none_above : count_above x (t ∷ r) ≡ 0 = count_above-low x t r f (ground arith) in
      let none_in : count_above x r ≡ 0 = rw below at none_above in
      let v_below : ltb_ℤ x v ≡ false = ground arith in
      let ih' : count_above x (insert_top v r) ≡ min (length r) (count_above x r) =
        rw v_below at ih in
      rw (below, v_below) (omega arith)
]

tail-Falls : (t : ℤ) (r : List ℤ) → Falls (t ∷ r) → Falls r
tail-Falls t [] f = tt
tail-Falls t (u ∷ r) f = f.1

count_above-insert_top :
    (x v : ℤ) (top : List ℤ)
    → Falls top
    → count_above x (insert_top v top) ≡ min (length top) (count_above x (v ∷ top))
unfolding insert_top
count_above-insert_top x v [] f = omega arith
count_above-insert_top x v (t ∷ r) f = elim (Bool-cases (ltb_ℤ t v)) [
  | inl h ↦ rw h (insert_here x v t r f h)
  | inr h ↦ rw h (insert_later x v t r f h (count_above-insert_top x v r (tail-Falls t r f)))
]

Falls-drop_last : (t : ℤ) (r : List ℤ) → Falls (t ∷ r) → Falls (drop_last (t ∷ r))
Falls-drop_last t [] f = tt
Falls-drop_last t (u ∷ []) f = tt
Falls-drop_last t (u ∷ w ∷ r) f = (f.0, Falls-drop_last u (w ∷ r) f.1)

-- A falling list under a value that bounds its head.
Falls-cons :
    (v : ℤ) (r : List ℤ) → Falls r → ((t : ℤ) (ts : List ℤ) → r ≡ t ∷ ts → t ≤ℤ v) → Falls (v ∷ r)
Falls-cons v [] f h = tt
Falls-cons v (t ∷ ts) f h = (h t ts refl, f)

insert_top-Falls : (v : ℤ) (top : List ℤ) → Falls top → Falls (insert_top v top)
unfolding insert_top
insert_top-Falls v [] f = tt
insert_top-Falls v (t ∷ []) f = ground arith
insert_top-Falls v (t ∷ u ∷ r) f =
    ground (arith, insert_top-Falls v (u ∷ r) f.1, Falls-drop_last t (u ∷ r) f)

top_of-Falls : (h top : List ℤ) → Falls top → Falls (top_of h top)
unfolding top_of
top_of-Falls [] top f = f
top_of-Falls (v ∷ h) top f = top_of-Falls h (insert_top v top) (insert_top-Falls v top f)

length-top_of : (h top : List ℤ) → length (top_of h top) ≡ length top
unfolding top_of
length-top_of [] top = refl
length-top_of (v ∷ h) top = length-top_of h (insert_top v top) ∙ length-insert_top v top

count_above-top_of :
    (x : ℤ) (h top : List ℤ)
    → Falls top
    → count_above x (top_of h top) ≡ min (length top) (count_above x top + count_above x h)
unfolding top_of
count_above-top_of x [] top f = omega (arith, count_above-le x top)
count_above-top_of x (v ∷ h) top f = ground (
  arith,
  count_above-top_of x h (insert_top v top) (insert_top-Falls v top f),
  count_above-insert_top x v top f,
  length-insert_top v top,
)

replicate-Falls : (n : ℕ) → Falls (replicate n lowest)
replicate-Falls zero = tt
replicate-Falls (suc zero) = tt
replicate-Falls (suc (suc n)) = (omega arith, replicate-Falls (suc n))

count_above-replicate : (x : ℤ) (n : ℕ) → lowest ≤ℤ x → count_above x (replicate n lowest) ≡ 0
count_above-replicate x zero h = refl
count_above-replicate x (suc n) h = ground (arith, count_above-replicate x n h)

-- The last of a falling list exceeds `x` just when all do.
last_above :
    (x d t : ℤ) (ts : List ℤ)
    → Falls (t ∷ ts)
    → (ltb_ℤ x (get_or (t ∷ ts) (length ts) d) ≡ true) ↔ (count_above x (t ∷ ts) ≡ suc (length ts))
last_above x d t [] f = ground arith
last_above x d t (u ∷ ts) f =
    let (to, from) = last_above x d u ts f.1 in
    (
      λ h. let all = to h in let high = head_above x d t (u ∷ ts) f h in rw high (ap suc all),
      λ h. from (ground (arith, count_above-le x (u ∷ ts))),
    )
  where
    head_above :
        (x d t : ℤ) (ts : List ℤ)
        → Falls (t ∷ ts)
        → ltb_ℤ x (get_or (t ∷ ts) (length ts) d) ≡ true
        → ltb_ℤ x t ≡ true
    head_above x d t [] f h = h
    head_above x d t (u ∷ ts) f h = let up = head_above x d u ts f.1 h in ground arith

last_of_top :
    (x d : ℤ) (n : ℕ) (top : List ℤ)
    → Falls top
    → length top ≡ n
    → 0 < n
    → (ltb_ℤ x (get_or top (n - 1) d) ≡ true) ↔ (n ≤ count_above x top)
last_of_top x d n [] f e h = absurd (omega arith)
last_of_top x d n (t ∷ ts) f e h =
    let same : n - 1 ≡ length ts = omega arith in
    let (to, from) = last_above x d t ts f in
    rw same (λ p. omega (arith, to p), λ p. from (omega (arith, count_above-le x (t ∷ ts))))

nth_of :
    {A : Type 0} (xs : List A) (i : ℕ) (d : A)
    → i < length xs
    → get_elem? xs i ≡ some (get_or xs i d)
nth_of [] i d h = absurd (omega (arith, h))
nth_of (x ∷ xs) zero d h = refl
nth_of (x ∷ xs) (suc i) d h = nth_of xs i d (omega (arith, h))

rank_of : List ℤ → ℕ → ℤ
rank_of h k = get_or (top_of h (replicate k lowest)) (k - 1) lowest

rank_size : (h : List ℤ) (k : ℕ) → length (top_of h (replicate k lowest)) ≡ k
rank_size h k = length-top_of h (replicate k lowest) ∙ length-replicate k lowest

rank_of_lem :
    (h : List ℤ) (k : ℕ) (x : ℤ)
    → 0 < k
    → k ≤ length h
    → lowest ≤ℤ x
    → (ltb_ℤ x (rank_of h k) ≡ true) ↔ (k ≤ count_above x h)
unfolding rank_of
rank_of_lem h k x pk kh low =
    let start = replicate k lowest in
    let counted : count_above x (top_of h start) ≡ min k (count_above x h) = omega (
      arith,
      count_above-top_of x h start (replicate-Falls k),
      count_above-replicate x k low,
      length-replicate k lowest,
    ) in
    let (to, from) =
      last_of_top x lowest k (top_of h start) (top_of-Falls h start (replicate-Falls k))
        (rank_size h k) pk in
    (λ p. omega (arith, to p, counted), λ p. from (omega (arith, counted)))

rank_nth-some :
    (h : List ℤ) (n : ℕ)
    → 0 < n
    → 0 < length h
    → min n (length h) ≤ 8
    → rank_nth h n ≡ some (rank_of h (min n (length h)))
unfolding rank_nth rank_of
rank_nth-some h n pn ph few =
    let k = min n (length h) in
    let shorter : (if ltb (length h) n then length h else n) ≡ k = ground arith in
    let inside : (k == 0 || ltb 8 k) ≡ false = ground arith in
    rw (rank_nth, shorter, inside)
      (nth_of (top_of h (replicate k lowest)) (k - 1) lowest (omega (arith, rank_size h k)))

-- `rankNth` of a history that is not empty, asked for the n-th highest of at most eight or of all
-- entries of a history of at most eight, does not panic. Its width exceeds a width `x` exactly when
-- at least n entries of the history do, or all of them where it has fewer than n. Widths are at
-- least -(1 << 62).
pub rank_nth_lem :
    (h : List ℤ) (n : ℕ) (x : ℤ)
    → 0 < n
    → 0 < length h
    → min n (length h) ≤ 8
    → lowest ≤ℤ x
    → (w : ℤ) × (rank_nth h n ≡ some w)
      × ((ltb_ℤ x w ≡ true) ↔ (min n (length h) ≤ count_above x h))
rank_nth_lem h n x pn ph few low = (
  rank_of h (min n (length h)),
  rank_nth-some h n pn ph few,
  rank_of_lem h (min n (length h)) x (omega arith) (omega arith) low,
)
