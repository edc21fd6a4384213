-- ===== src/Buffers/Stats/Gcd.antt =====
-- `gcd` is the greatest common divisor, and `median3` the median.
use mathlib.Core.WellFounded.{Acc}
use native.Mathlib.Bridge.{le_prop}
use native.Mathlib.Decide.{dec_lt}
use native.Mathlib.Nat.{div-add-mod, mod-lt}
use mathlib.Core.Logic.{dif_pos, dif_neg}
use panaudia_lasa.Prelude.{ℕ, ◌+◌, ◌-◌, ◌*◌, ◌/◌, ◌%◌, ◌<◌, ◌≡◌, ◌⊎◌, arith, ap}
use panaudia_lasa.Prelude.Int.{ℤ, ◌≤ℤ◌}
use panaudia_lasa.Prelude.Order.{lt_wf, sub-scale}
use panaudia_lasa.Buffers.Stats.{gcd_loop, gcd, median3}

abbrev pub Divides : ℕ → ℕ → Type 0
Divides d n = (k : ℕ) × (k * d ≡ n)

Divides-step : (a b d : ℕ) → Divides d b → Divides d (a % b) → Divides d a
Divides-step a b d (k, e) (j, f) =
    (a / b * k + j, omega (arith, div-add-mod a b, ap (λ (t : ℕ). a / b * t) e))

Divides-mod : (a b d : ℕ) → Divides d a → Divides d b → Divides d (a % b)
Divides-mod a b d (k, e) (j, f) = (
  k - a / b * j,
  rw (sub-scale k (a / b * j) d) (omega (arith, div-add-mod a b, ap (λ (t : ℕ). a / b * t) f)),
)

gcd_loop-Divides :
    (a b : ℕ) (w : Acc ◌<◌ b) → Divides (gcd_loop a b w) a × Divides (gcd_loop a b w) b
unfolding gcd_loop
gcd_loop-Divides a b (Acc.intro _ smaller) = elim (dec_lt 0 b) [
  | yes h ↦
      let ih = gcd_loop-Divides b (a % b) (smaller (a % b) (mod-lt a h)) in
      rw (dif_pos (dec_lt 0 b) le_prop h) (Divides-step a b _ ih.0 ih.1, ih.0)
  | no h ↦ rw (dif_neg (dec_lt 0 b) h) ((1, omega arith), (0, omega arith))
]

gcd_loop-greatest :
    (a b d : ℕ) (w : Acc ◌<◌ b) → Divides d a → Divides d b → Divides d (gcd_loop a b w)
unfolding gcd_loop
gcd_loop-greatest a b d (Acc.intro _ smaller) p q = elim (dec_lt 0 b) [
  | yes h ↦
      rw (dif_pos (dec_lt 0 b) le_prop h)
        (gcd_loop-greatest b (a % b) d (smaller (a % b) (mod-lt a h)) q (Divides-mod a b d p q))
  | no h ↦ rw (dif_neg (dec_lt 0 b) h) p
]

-- `gcd` divides both arguments, and every common divisor divides it.
gcd_lem :
    (a b : ℕ)
    → Divides (gcd a b) a
      × Divides (gcd a b) b
      × ((d : ℕ) → Divides d a → Divides d b → Divides d (gcd a b))
unfolding gcd
gcd_lem a b =
    let w = lt_wf.apply b in
    let both = gcd_loop-Divides a b w in (both.0, both.1, λ d p q. gcd_loop-greatest a b d w p q)

-- Two of the three are at most `median3`, two are at least, and it is one of the three.
median3_lem :
    (a b c : ℤ)
    → let m = median3 a b c in
      ((m ≡ a) × ((b ≤ℤ m) × (m ≤ℤ c) ⊎ (c ≤ℤ m) × (m ≤ℤ b)))
      ⊎ ((m ≡ b) × ((a ≤ℤ m) × (m ≤ℤ c) ⊎ (c ≤ℤ m) × (m ≤ℤ a)))
      ⊎ ((m ≡ c) × ((a ≤ℤ m) × (m ≤ℤ b) ⊎ (b ≤ℤ m) × (m ≤ℤ a)))
unfolding median3
median3_lem a b c = ground arith
