-- ===== src/Prelude/Map.antt =====
-- Go maps as association lists with distinct keys, in the order of insertion.
use panaudia_lasa.Prelude.{
  ℕ, suc, ◌+◌, ◌≡◌, refl, ap, ◌∙◌, ◌≢◌, inl, inr, Option, none, some, List, [], ◌∷◌, arith, ◌==◌,
  if◌then◌else◌, Bool-cases, length,
}

abbrev pub Map {ℓ} : Type ℓ → Type ℓ
Map A = List (ℕ × A)

module _ {ℓ} {A : Type ℓ} where
  unfoldable pub lookup : ℕ → Map A → Option A
  lookup k [] = none
  lookup k ((j, v) ∷ m) = if k == j then some v else lookup k m

  unfoldable pub put : ℕ → A → Map A → Map A
  put k a [] = (k, a) ∷ []
  put k a ((j, v) ∷ m) = if k == j then (j, a) ∷ m else (j, v) ∷ put k a m

  unfoldable pub delete : ℕ → Map A → Map A
  delete k [] = []
  delete k ((j, v) ∷ m) = if k == j then m else (j, v) ∷ delete k m

  unfoldable pub Distinct : Map A → Type ℓ
  Distinct [] = Unit
  Distinct ((j, v) ∷ m) = (lookup j m ≡ none) × Distinct m

  pub lookup-put : (k : ℕ) (a : A) (m : Map A) → lookup k (put k a m) ≡ some a
  unfolding lookup put
  lookup-put k a [] = ground arith
  lookup-put k a ((j, v) ∷ m) = elim (Bool-cases (k == j)) [
    | inl e ↦ rw (e, e) refl
    | inr e ↦ rw (e, e) (lookup-put k a m)
  ]

  pub lookup-put_ne : (j k : ℕ) (a : A) (m : Map A) → k ≢ j → lookup j (put k a m) ≡ lookup j m
  unfolding lookup put
  lookup-put_ne j k a [] ne = ground arith
  lookup-put_ne j k a ((i, v) ∷ m) ne = ground (arith, lookup-put_ne j k a m ne)

  pub put-Distinct : (k : ℕ) (a : A) (m : Map A) → Distinct m → Distinct (put k a m)
  unfolding lookup put Distinct
  put-Distinct k a [] d = (refl, _)
  put-Distinct k a ((i, v) ∷ m) (fresh, d) = elim (Bool-cases (k == i)) [
    | inl e ↦ rw e (fresh, d)
    | inr e ↦
        let ne : k ≢ i = λ p. ground (arith, p) in
        rw e (lookup-put_ne i k a m ne ∙ fresh, put-Distinct k a m d)
  ]

  pub lookup-delete : (k : ℕ) (m : Map A) → Distinct m → lookup k (delete k m) ≡ none
  unfolding lookup delete Distinct
  lookup-delete k [] d = refl
  lookup-delete k ((i, v) ∷ m) (fresh, d) = elim (Bool-cases (k == i)) [
    | inl e ↦ let same : k ≡ i = ground arith in rw (e, same) fresh
    | inr e ↦ rw (e, e) (lookup-delete k m d)
  ]

  pub lookup-delete_ne : (j k : ℕ) (m : Map A) → k ≢ j → lookup j (delete k m) ≡ lookup j m
  unfolding lookup delete
  lookup-delete_ne j k [] ne = refl
  lookup-delete_ne j k ((i, v) ∷ m) ne = ground (arith, lookup-delete_ne j k m ne)

  pub delete-Distinct : (k : ℕ) (m : Map A) → Distinct m → Distinct (delete k m)
  unfolding lookup delete Distinct
  delete-Distinct k [] d = d
  delete-Distinct k ((i, v) ∷ m) (fresh, d) = elim (Bool-cases (k == i)) [
    | inl e ↦ rw e d
    | inr e ↦
        let ne : k ≢ i = λ p. ground (arith, p) in
        rw e (lookup-delete_ne i k m ne ∙ fresh, delete-Distinct k m d)
  ]

  pub length-put_new :
      (k : ℕ) (a : A) (m : Map A) → lookup k m ≡ none → length (put k a m) ≡ length m + 1
  unfolding lookup put
  length-put_new k a [] e = refl
  length-put_new k a ((i, v) ∷ m) e = ground (arith, length-put_new k a m)

  pub length-put_old :
      (k : ℕ) (a b : A) (m : Map A) → lookup k m ≡ some b → length (put k a m) ≡ length m
  unfolding lookup put
  length-put_old k a b [] e = absurd (ground arith)
  length-put_old k a b ((i, v) ∷ m) e = ground (arith, length-put_old k a b m)

  pub length-delete :
      (k : ℕ) (b : A) (m : Map A) → lookup k m ≡ some b → length (delete k m) + 1 ≡ length m
  unfolding lookup delete
  length-delete k b [] e = absurd (ground arith)
  length-delete k b ((i, v) ∷ m) e = ground (arith, length-delete k b m)

  pub put-put : (k : ℕ) (a b : A) (m : Map A) → put k b (put k a m) ≡ put k b m
  unfolding put
  put-put k a b [] = ground arith
  put-put k a b ((i, v) ∷ m) = ground (arith, put-put k a b m)

  pub put_same : (k : ℕ) (a : A) (m : Map A) → lookup k m ≡ some a → put k a m ≡ m
  unfolding lookup put
  put_same k a [] e = absurd (ground arith)
  put_same k a ((i, v) ∷ m) e = ground (arith, put_same k a m)

-- A map seen through a function on its values.
module _ {ℓ} {A B : Type ℓ} (f : A → B) where
  unfoldable pub values : Map A → Map B
  values [] = []
  values ((j, v) ∷ m) = (j, f v) ∷ values m

  unfoldable pub seen : Option A → Option B
  seen none = none
  seen (some a) = some (f a)

  pub lookup-values : (k : ℕ) (m : Map A) → lookup k (values m) ≡ seen (lookup k m)
  unfolding lookup values seen
  lookup-values k [] = refl
  lookup-values k ((j, v) ∷ m) = ground (arith, lookup-values k m)

  pub values-Distinct : (m : Map A) → Distinct m → Distinct (values m)
  unfolding values Distinct seen
  values-Distinct [] d = _
  values-Distinct ((j, v) ∷ m) (fresh, d) = (lookup-values j m ∙ ap seen fresh, values-Distinct m d)

  pub put-values : (k : ℕ) (a : A) (m : Map A) → values (put k a m) ≡ put k (f a) (values m)
  unfolding put values
  put-values k a [] = refl
  put-values k a ((j, v) ∷ m) = ground (arith, put-values k a m)

  pub delete-values : (k : ℕ) (m : Map A) → values (delete k m) ≡ delete k (values m)
  unfolding delete values
  delete-values k [] = refl
  delete-values k ((j, v) ∷ m) = ground (arith, delete-values k m)

  pub length-values : (m : Map A) → length (values m) ≡ length m
  unfolding values
  length-values [] = refl
  length-values ((j, v) ∷ m) = ap suc (length-values m)

-- A map as a function, with one value replaced.
abbrev pub overlay {ℓ} : {A : Type ℓ} → (ℕ → A) → ℕ → A → ℕ → A
overlay f i a j = if i == j then a else f j

pub overlay_at {ℓ} : {A : Type ℓ} (f : ℕ → A) (i : ℕ) (a : A) → overlay f i a i ≡ a
overlay_at f i a = ground arith

pub overlay_ne {ℓ} : {A : Type ℓ} (f : ℕ → A) (i j : ℕ) (a : A) → i ≢ j → overlay f i a j ≡ f j
overlay_ne f i j a ne = ground arith
