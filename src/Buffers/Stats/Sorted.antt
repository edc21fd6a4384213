-- ===== src/Buffers/Stats/Sorted.antt =====
-- `winStats` gives three order statistics of the window.
use panaudia_lasa.Prelude.{
  ℕ, zero, suc, ◌-◌, ◌/◌, ◌≤◌, ◌<◌, ◌≡◌, refl, ◌∙◌, ◌↔◌, inl, inr, true, false, List, [], ◌∷◌,
  arith, if◌then◌else◌, length, get_or, Bool-cases,
}
use panaudia_lasa.Prelude.Int.{ℤ, pos, ltb_ℤ, ◌≤ℤ◌}
use panaudia_lasa.Buffers.Stats.{insert_sorted, sort, win_stats}

-- How many of a list are below `x`.
abbrev pub count_below : ℤ → List ℤ → ℕ
count_below x [] = 0
count_below x (v ∷ h) = if ltb_ℤ v x then suc (count_below x h) else count_below x h

abbrev Rises : List ℤ → Type 0
Rises [] = Unit {0}
Rises (x ∷ []) = Unit {0}
Rises (x ∷ y ∷ xs) = (x ≤ℤ y) × Rises (y ∷ xs)

insert_sorted-Rises : (v : ℤ) (xs : List ℤ) → Rises xs → Rises (insert_sorted v xs)
insert_sorted-Rises v [] r = tt
insert_sorted-Rises v (x ∷ []) r = ground arith
insert_sorted-Rises v (x ∷ y ∷ xs) r = ground (arith, insert_sorted-Rises v (y ∷ xs) r.1)

sort-Rises : (xs : List ℤ) → Rises (sort xs)
sort-Rises [] = tt
sort-Rises (x ∷ xs) = insert_sorted-Rises x (sort xs) (sort-Rises xs)

count_below-insert_sorted :
    (x v : ℤ) (xs : List ℤ) → count_below x (insert_sorted v xs) ≡ count_below x (v ∷ xs)
count_below-insert_sorted x v [] = refl
count_below-insert_sorted x v (y ∷ xs) = ground (arith, count_below-insert_sorted x v xs)

count_below-sort : (x : ℤ) (xs : List ℤ) → count_below x (sort xs) ≡ count_below x xs
count_below-sort x [] = refl
count_below-sort x (v ∷ xs) = count_below-insert_sorted x v (sort xs) ∙ (rw (count_below-sort x xs))

length-insert_sorted : (v : ℤ) (xs : List ℤ) → length (insert_sorted v xs) ≡ suc (length xs)
length-insert_sorted v [] = refl
length-insert_sorted v (x ∷ xs) = ground (arith, length-insert_sorted v xs)

length-sort : (xs : List ℤ) → length (sort xs) ≡ length xs
length-sort [] = refl
length-sort (x ∷ xs) = omega (arith, length-insert_sorted x (sort xs), length-sort xs)

-- Nothing of a rising list is below what its head is not below.
count_below-none :
    (x v : ℤ) (xs : List ℤ) → Rises (v ∷ xs) → ltb_ℤ v x ≡ false → count_below x (v ∷ xs) ≡ 0
count_below-none x v [] r h = rw h
count_below-none x v (w ∷ xs) r h =
    let up : ltb_ℤ w x ≡ false = ground arith in rw h (count_below-none x w xs r.1 up)

rising_rank :
    (x d : ℤ) (k : ℕ) (xs : List ℤ)
    → Rises xs
    → k < length xs
    → (ltb_ℤ (get_or xs k d) x ≡ true) ↔ (k < count_below x xs)
rising_rank x d k [] r h = absurd (omega arith)
rising_rank x d zero (v ∷ xs) r h = elim (Bool-cases (ltb_ℤ v x)) [
  | inl p ↦ (λ _. rw p (omega arith), λ _. p)
  | inr p ↦ (λ q. cc, λ q. absurd (omega (arith, count_below-none x v xs r p)))
]
rising_rank x d (suc k) (v ∷ xs) r h =
    let (to, from) = rising_rank x d k xs (tail-Rises v xs r) (omega arith) in
    elim (Bool-cases (ltb_ℤ v x)) [
      | inl p ↦ rw p (λ q. omega (arith, to q), λ q. from (omega arith))
      | inr p ↦
          let none : count_below x (v ∷ xs) ≡ 0 = count_below-none x v xs r p in
          let none' : count_below x xs ≡ 0 = rw p at none in
          (λ q. absurd (omega (arith, to q)), λ q. absurd (omega arith))
    ]
  where
    tail-Rises : (v : ℤ) (xs : List ℤ) → Rises (v ∷ xs) → Rises xs
    tail-Rises v [] r = tt
    tail-Rises v (w ∷ xs) r = r.1

sorted_rank :
    (x d : ℤ) (k : ℕ) (xs : List ℤ)
    → k < length xs
    → (ltb_ℤ (get_or (sort xs) k d) x ≡ true) ↔ (k < count_below x xs)
sorted_rank x d k xs h =
    rw (← count_below-sort x xs)
      (rising_rank x d k (sort xs) (sort-Rises xs) (omega (arith, length-sort xs)))

-- Of a window that is not empty, `winStats` gives the median, the least and the greatest: each is
-- below `x` exactly when more than n/2 of the samples are, when some are, and when all are.
pub win_stats_lem :
    (buf : List ℤ) (x : ℤ)
    → 0 < length buf
    → let (med, lo, hi) = win_stats buf in
      ((ltb_ℤ med x ≡ true) ↔ (length buf / 2 < count_below x buf))
      × ((ltb_ℤ lo x ≡ true) ↔ (0 < count_below x buf))
      × ((ltb_ℤ hi x ≡ true) ↔ (length buf ≤ count_below x buf))
unfolding win_stats
win_stats_lem buf x h =
    rw (length-sort buf)
      (sorted_rank x (pos 0) (length buf / 2) buf (omega arith), sorted_rank x (pos 0) 0 buf h, top)
  where
    top :
        (ltb_ℤ (get_or (sort buf) (length buf - 1) (pos 0)) x ≡ true)
        ↔ (length buf ≤ count_below x buf)
    top =
        let (to, from) = sorted_rank x (pos 0) (length buf - 1) buf (omega arith) in
        (λ p. omega (arith, to p), λ p. from (omega arith))
