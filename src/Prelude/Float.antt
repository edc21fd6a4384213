-- ===== src/Prelude/Float.antt =====
-- Go's `float64` and `float32`. antt has no floating point, so a type of floats is a parameter `F`
-- with the operations that the code uses; a theorem names the laws of IEEE 754 that it needs.
use panaudia_lasa.Prelude.{ℕ, ◌≡◌, Bool, false}
use panaudia_lasa.Prelude.Int.{ℤ}

-- `lit m e` is the literal m · 10^-e, and `trunc` the conversion to an integer.
pub record Float (F : Type 0) : Type 0 where
  pub lit : ℕ → ℕ → F
  pub neg : F → F
  pub add : F → F → F
  pub sub : F → F → F
  pub mul : F → F → F
  pub div : F → F → F
  pub ltf : F → F → Bool
  pub lef : F → F → Bool
  pub of_int : ℤ → F
  pub trunc : F → ℤ

-- No number is below itself, and NaN is below nothing.
abbrev pub Irreflexive : {F : Type 0} → Float F → Type 0
Irreflexive {F} fl = (x : F) → fl.ltf x x ≡ false
