-- ===== src/Engine/Plane/Slots.antt =====
-- The slots of the audio thread: a free one is there as long as not all are taken.
use panaudia_lasa.Prelude.{
  ℕ, zero, suc, ◌+◌, ◌<◌, ◌≡◌, refl, Option, none, some, List, [], ◌∷◌, arith, length, get_elem?,
  replicate, set,
}
use panaudia_lasa.Engine.Plane.{free_slot}

abbrev pub taken : List (Option ℕ) → ℕ
taken [] = 0
taken (none ∷ xs) = taken xs
taken (some k ∷ xs) = suc (taken xs)

pub free_slot_lem :
    (xs : List (Option ℕ))
    → taken xs < length xs
    → (i : ℕ) × (free_slot xs ≡ some i) × (get_elem? xs i ≡ some none)
free_slot_lem [] h = absurd (omega (arith, h))
free_slot_lem (none ∷ xs) h = (0, refl, refl)
free_slot_lem (some k ∷ xs) h =
    let (i, e, g) = free_slot_lem xs (omega (arith, h)) in (suc i, rw e refl, g)

pub taken-set-some :
    (xs : List (Option ℕ)) (i k : ℕ)
    → get_elem? xs i ≡ some none
    → taken (set xs i (some k)) ≡ taken xs + 1
taken-set-some [] i k e = absurd (ground arith)
taken-set-some (none ∷ xs) zero k e = omega arith
taken-set-some (some j ∷ xs) zero k e = absurd (ground arith)
taken-set-some (none ∷ xs) (suc i) k e = taken-set-some xs i k e
taken-set-some (some j ∷ xs) (suc i) k e = omega (arith, taken-set-some xs i k e)

pub taken-set-none :
    (xs : List (Option ℕ)) (i k : ℕ)
    → get_elem? xs i ≡ some (some k)
    → taken (set xs i none) + 1 ≡ taken xs
taken-set-none [] i k e = absurd (ground arith)
taken-set-none (none ∷ xs) zero k e = absurd (ground arith)
taken-set-none (some j ∷ xs) zero k e = omega arith
taken-set-none (none ∷ xs) (suc i) k e = taken-set-none xs i k e
taken-set-none (some j ∷ xs) (suc i) k e = omega (arith, taken-set-none xs i k e)

pub taken-replicate : (n : ℕ) → taken (replicate n none) ≡ 0
taken-replicate zero = refl
taken-replicate (suc n) = taken-replicate n
