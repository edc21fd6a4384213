-- ===== src/Buffers/Ring/Index.antt =====
-- Where a position of the stream lies in the ring.
use native.Mathlib.Nat.{
  mod-add-mod, mod-eq_of_lt, mod-eq-sub-mod, mod-lt, div-add-mod, add-mul-mod_self_left,
  mul-lt-mul_of_pos_right,
}
use panaudia_lasa.Prelude.{ℕ, ◌+◌, ◌-◌, ◌*◌, ◌/◌, ◌%◌, ◌≤◌, ◌<◌, ◌≡◌, sym, ◌∙◌, ap, arith}

pub mod_ahead : (W M k : ℕ) → W % M + k < M → (W + k) % M ≡ W % M + k
mod_ahead W M k h = sym (mod-add-mod W M k) ∙ mod-eq_of_lt h

pub mod_wrapped : (W M k : ℕ) → k < M → M ≤ W % M + k → (W + k) % M ≡ W % M + k - M
mod_wrapped W M k h g =
    sym (mod-add-mod W M k)
    ∙ mod-eq-sub-mod g
    ∙ mod-eq_of_lt (omega (arith, mod-lt W {m = M} (omega arith)))

-- The sample index of a frame: the ring of frames is a ring of samples.
pub mod-mul : (wp cap nc : ℕ) → 0 < cap → 0 < nc → (wp * nc) % (cap * nc) ≡ wp % cap * nc
mod-mul wp cap nc h g =
    ap (λ t. t % (cap * nc)) split
    ∙ add-mul-mod_self_left (wp % cap * nc) (cap * nc) (wp / cap)
    ∙ mod-eq_of_lt (mul-lt-mul_of_pos_right (mod-lt wp h) g)
  where
    split : wp * nc ≡ wp % cap * nc + cap * nc * (wp / cap)
    split = omega (arith, ap (λ (t : ℕ). t * nc) (div-add-mod wp cap))
