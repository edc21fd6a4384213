-- ===== src/Engine/Pose/Whole.antt =====
-- Samples of engine/engine/pose.go as words, and the stores that they come from.
use panaudia_lasa.Prelude.{
  ℕ, suc, ◌+◌, ◌<◌, ◌≡◌, refl, ap, ◌∙◌, some, List, [], ◌∷◌, ◌++◌, arith, get_elem?,
}
use panaudia_lasa.Engine.Pose.Threads.{Words}

abbrev pub All {ℓ} : {A : Type ℓ} → (A → Type 0) → List A → Type 0
All P [] = Unit
All P (x ∷ xs) = P x × All P xs

pub All-append {ℓ} :
    {A : Type ℓ} (P : A → Type 0) (xs : List A) (a : A) → All P xs → P a → All P (xs ++ (a ∷ []))
All-append P [] a h p = (p, _)
All-append P (x ∷ xs) a h p = (h.0, All-append P xs a h.1 p)

module _ (width : ℕ) where
  -- Two samples agree in all their words.
  abbrev pub Same : Words → Words → Type 0
  Same w s = (k : ℕ) → k < width → w k ≡ s k

  abbrev pub OneOf : List Words → Words → Type 0
  OneOf stores w = (i : ℕ) × (s : Words) × (get_elem? stores i ≡ some s) × Same w s

  pub OneOf-Same : (stores : List Words) (w s : Words) → Same w s → OneOf stores s → OneOf stores w
  OneOf-Same stores w s h (i, p, at, g) = (i, p, at, λ k lt. h k lt ∙ g k lt)

  All-OneOf_after :
      (all after : List Words) (n : ℕ)
      → ((i : ℕ) (s : Words) → get_elem? after i ≡ some s → get_elem? all (n + i) ≡ some s)
      → All (OneOf all) after
  All-OneOf_after all [] n at = _
  All-OneOf_after all (s ∷ after) n at = (
    (n + 0, s, at 0 s refl, λ k lt. refl),
    All-OneOf_after all after (n + 1) (λ i x e. ap (get_elem? all) (omega arith) ∙ at (suc i) x e),
  )

  pub All-OneOf : (stores : List Words) → All (OneOf stores) stores
  All-OneOf stores =
      All-OneOf_after stores stores 0 (λ i s e. ap (get_elem? stores) (omega arith) ∙ e)
