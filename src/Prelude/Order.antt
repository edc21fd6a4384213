-- ===== src/Prelude/Order.antt =====
-- `<` on the native numbers is well founded.
use mathlib.Core.WellFounded.{Acc, WellFounded}
use native.Mathlib.Nat.{mul_comm, mul-sub}
use panaudia_lasa.Prelude.{ℕ, zero, suc, ◌-◌, ◌*◌, ◌<◌, ◌≡◌, arith}

Acc-below : (k n : ℕ) → n < k → Acc ◌<◌ n
Acc-below zero n h = elim h [ ]
Acc-below (suc k) n h = Acc.intro n (λ m hm. Acc-below k m (omega arith))

unfoldable pub lt_wf : WellFounded ◌<◌
unfolding Acc-below
lt_wf = record { apply = λ n. Acc-below (suc n) n (omega arith) }

pub sub-scale : (a b k : ℕ) → (a - b) * k ≡ a * k - b * k
sub-scale a b k = rw (mul_comm (a - b) k, mul-sub k a b, mul_comm k a, mul_comm k b)
