-- ===== src/Prelude/Fixed.antt =====
-- Fixed-point numbers with three decimals, a concrete `Float` for the examples.
use panaudia_lasa.Prelude.{suc, ◌+◌, ◌*◌, ◌/◌, ◌^◌, arith, leb}
use panaudia_lasa.Prelude.Int.{ℤ, pos, negsuc, pos_part, neg_part, sub_ℕ, ◌+ℤ◌, ◌-ℤ◌, ◌*ℤ◌, ltb_ℤ}
use panaudia_lasa.Prelude.Float.{Float, Irreflexive}

-- Truncated towards zero.
abbrev div_ℤ : ℤ → ℤ → ℤ
div_ℤ (pos a) (pos b) = pos (a / b)
div_ℤ (pos a) (negsuc b) = sub_ℕ 0 (a / suc b)
div_ℤ (negsuc a) (pos b) = sub_ℕ 0 (suc a / b)
div_ℤ (negsuc a) (negsuc b) = pos (suc a / suc b)

unfoldable pub fixed : Float ℤ
unfolding ◌+ℤ◌ ◌-ℤ◌ ◌*ℤ◌
fixed = record {
  lit = λ m e. pos (m * 1000 / 10 ^ e);
  neg = λ a. pos 0 -ℤ a;
  add = ◌+ℤ◌;
  sub = ◌-ℤ◌;
  mul = λ a b. div_ℤ (a *ℤ b) (pos 1000);
  div = λ a b. div_ℤ (a *ℤ pos 1000) b;
  ltf = ltb_ℤ;
  lef = λ a b. leb (pos_part a + neg_part b) (pos_part b + neg_part a);
  of_int = λ a. a *ℤ pos 1000;
  trunc = λ a. div_ℤ a (pos 1000);
}

pub fixed-Irreflexive : Irreflexive fixed
unfolding fixed ◌+ℤ◌ ◌-ℤ◌ ◌*ℤ◌
fixed-Irreflexive x = ground arith
