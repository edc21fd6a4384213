-- ===== src/Buffers/Stats.antt =====
-- engine/buffers/jitter_buffer.go: gcd, median3, rankNth and winStats, the statistics of a sensing
-- window. A fill or a width is an int64, here an integer.
pub mod Gcd
pub mod Rank
pub mod Sorted
use mathlib.Core.Logic.{dite}
use mathlib.Core.WellFounded.{Acc}
use native.Mathlib.Decide.{dec_lt}
use native.Mathlib.Nat.{mod-lt}
use panaudia_lasa.Prelude.{
  ℕ, zero, suc, ◌-◌, ◌/◌, ◌%◌, ◌<◌, ◌^◌, Bool, true, false, ◌||◌, Option, none, some, List, [], ◌∷◌,
  get_elem?, ◌==◌, if◌then◌else◌, ltb, length, replicate, get_or, arith,
}
use panaudia_lasa.Prelude.Int.{ℤ, pos, negsuc, ltb_ℤ, max_ℤ}
use panaudia_lasa.Prelude.Order.{lt_wf}

-- The loop `for b != 0 { a, b = b, a % b }` recurs on the proof that `b` is accessible.
gcd_loop : (a b : ℕ) → Acc ◌<◌ b → ℕ
gcd_loop a b (Acc.intro _ smaller) =
    dite (dec_lt 0 b) (λ h. gcd_loop b (a % b) (smaller (a % b) (mod-lt a h))) (λ _. a)

unfoldable pub gcd : ℕ → ℕ → ℕ
unfolding gcd_loop lt_wf dec_lt
gcd a b = gcd_loop a b (lt_wf.apply b)

pub median3 : ℤ → ℤ → ℤ → ℤ
median3 a b c =
    let lo = if ltb_ℤ b a then b else a in
    let hi = if ltb_ℤ b a then a else b in max_ℤ lo (if ltb_ℤ c hi then c else hi)

-- `copy(top[i+1:n], top[i:n-1])` loses the last of `top`.
abbrev pub drop_last {ℓ} : {A : Type ℓ} → List A → List A
drop_last [] = []
drop_last (x ∷ []) = []
drop_last (x ∷ y ∷ xs) = x ∷ drop_last (y ∷ xs)

-- One round of the outer loop: `v` goes before the first entry that it exceeds.
pub insert_top : ℤ → List ℤ → List ℤ
insert_top v [] = []
insert_top v (t ∷ ts) = if ltb_ℤ t v then v ∷ drop_last (t ∷ ts) else t ∷ insert_top v ts

pub top_of : List ℤ → List ℤ → List ℤ
unfolding insert_top
top_of [] top = top
top_of (v ∷ h) top = top_of h (insert_top v top)

-- -1 << 62
abbrev pub lowest : ℤ
lowest = negsuc (2 ^ 62 - 1)

-- The array of rankNth has eight entries; `none` is the panic of an index outside it, with more of
-- them to fill or with none to read. The entries from `n` on are never looked at.
unfoldable pub rank_nth : List ℤ → ℕ → Option ℤ
unfolding top_of
rank_nth h n =
    let n' = if ltb (length h) n then length h else n in
    if n' == 0 || ltb 8 n' then none else get_elem? (top_of h (replicate n' lowest)) (n' - 1)

-- `slices.Sort`
abbrev pub insert_sorted : ℤ → List ℤ → List ℤ
insert_sorted v [] = v ∷ []
insert_sorted v (x ∷ xs) = if ltb_ℤ x v then x ∷ insert_sorted v xs else v ∷ x ∷ xs

abbrev pub sort : List ℤ → List ℤ
sort [] = []
sort (x ∷ xs) = insert_sorted x (sort xs)

-- (median, min, max); the source indexes an empty window out of range.
unfoldable pub win_stats : List ℤ → ℤ × ℤ × ℤ
win_stats buf =
    let s = sort buf in
    let n = length s in (get_or s (n / 2) (pos 0), get_or s 0 (pos 0), get_or s (n - 1) (pos 0))
