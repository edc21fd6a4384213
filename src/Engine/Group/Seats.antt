-- ===== src/Engine/Group/Seats.antt =====
-- A set counts its members, whatever joins, leaves and supersessions come, in any order.
use panaudia_lasa.Prelude.{
  ℕ, zero, suc, ◌+◌, ◌<◌, ◌≡◌, ◌≢◌, ◌↔◌, refl, sym, ap, ◌∙◌, true, false, Option, none, some, List,
  [], ◌∷◌, arith, ◌==◌, if◌then◌else◌, set, get_or, length, length-set, length-replicate,
}
use panaudia_lasa.Engine.Plane.Slots.{taken, taken-replicate}
use panaudia_lasa.Engine.Group.{SourceGroup, new_source_group, seat, holds, vacant, join, leave}

-- Seats are taken one by one.
taken-set :
    (xs : List (Option ℕ)) (i : ℕ) (a : Option ℕ)
    → i < length xs
    → taken (set xs i a) + (if vacant (get_or xs i none) then 0 else 1)
      ≡ taken xs + (if vacant a then 0 else 1)
taken-set [] i a h = absurd (omega (arith, h))
taken-set (none ∷ xs) zero none h = omega arith
taken-set (none ∷ xs) zero (some k) h = omega arith
taken-set (some j ∷ xs) zero none h = omega arith
taken-set (some j ∷ xs) zero (some k) h = omega arith
taken-set (none ∷ xs) (suc i) a h = taken-set xs i a (omega (arith, h))
taken-set (some j ∷ xs) (suc i) a h = omega (arith, taken-set xs i a (omega (arith, h)))

get_or-set :
    (xs : List (Option ℕ)) (i : ℕ) (a : Option ℕ) → i < length xs → get_or (set xs i a) i none ≡ a
get_or-set [] i a h = absurd (omega (arith, h))
get_or-set (x ∷ xs) zero a h = refl
get_or-set (x ∷ xs) (suc i) a h = get_or-set xs i a (omega (arith, h))

get_or-set_ne :
    (xs : List (Option ℕ)) (i j : ℕ) (a : Option ℕ)
    → i ≢ j
    → get_or (set xs i a) j none ≡ get_or xs j none
get_or-set_ne [] i j a ne = refl
get_or-set_ne (x ∷ xs) zero zero a ne = absurd (ne refl)
get_or-set_ne (x ∷ xs) zero (suc j) a ne = refl
get_or-set_ne (x ∷ xs) (suc i) zero a ne = refl
get_or-set_ne (x ∷ xs) (suc i) (suc j) a ne = get_or-set_ne xs i j a (λ e. ne (ap suc e))

pub record Counted (g : SourceGroup) : Type 0 where
  pub size : length g.members ≡ g.n
  pub count : g.live ≡ taken g.members

pub data Act : Type 0 where
  joins leaves : ℕ → ℕ → Act

-- Whether an act names a seat of a set of `n`.
abbrev pub InRange : ℕ → Act → Type 0
InRange n (joins s i) = i < n
InRange n (leaves s i) = i < n

unfoldable pub act : Act → SourceGroup → SourceGroup
act (joins s i) g = join s i g
act (leaves s i) g = (leave i s g).0

join-Counted :
    (s i : ℕ) (g : SourceGroup)
    → Counted g
    → i < g.n
    → Counted (join s i g) × ((join s i g).n ≡ g.n) × (seat (join s i g) i ≡ some s)
unfolding join
join-Counted s i g v h = ground (
  arith,
  taken-set g.members i (some s),
  length-set g.members i (some s),
  get_or-set g.members i (some s),
)

leave-Counted :
    (s i : ℕ) (g : SourceGroup)
    → Counted g
    → i < g.n
    → Counted (leave i s g).0 × ((leave i s g).0.n ≡ g.n)
unfolding leave
leave-Counted s i g v h = ground (arith, taken-set g.members i none, length-set g.members i none)

unfoldable pub acts_on : List Act → SourceGroup → SourceGroup
acts_on [] g = g
acts_on (a ∷ more) g = acts_on more (act a g)

unfoldable pub AllInRange : ℕ → List Act → Type 0
AllInRange n [] = Unit
AllInRange n (a ∷ more) = InRange n a × AllInRange n more

act-Counted :
    (a : Act) (g : SourceGroup)
    → Counted g
    → InRange g.n a
    → Counted (act a g) × ((act a g).n ≡ g.n)
unfolding act
act-Counted (joins s i) g v h = let j = join-Counted s i g v h in (j.0, j.1)
act-Counted (leaves s i) g v h = leave-Counted s i g v h

acts_on-Counted :
    (more : List Act) (n : ℕ) (g : SourceGroup)
    → g.n ≡ n
    → Counted g
    → AllInRange n more
    → Counted (acts_on more g) × ((acts_on more g).n ≡ n)
unfolding acts_on AllInRange
acts_on-Counted [] n g e v _ = (v, e)
acts_on-Counted (a ∷ more) n g e v (h, hs) =
    let (w, same) = act-Counted a g v (rw e h) in acts_on-Counted more n (act a g) (same ∙ e) w hs

new_source_group-Counted : (n : ℕ) → Counted (new_source_group n)
unfolding new_source_group
new_source_group-Counted n = record {
  size = length-replicate n none;
  count = sym (taken-replicate n);
}

leave_empty : (i s : ℕ) (g : SourceGroup) → (leave i s g).1 ≡ ((leave i s g).0.live == 0)
unfolding leave
leave_empty i s g = refl

-- After any joins and leaves on a new set of `n`, each at one of its seats, the set counts exactly
-- the seats that are taken; and a leave reports the set empty exactly when it has left no seat
-- taken.
leave_lem :
    (n : ℕ) (more : List Act) (i s : ℕ)
    → AllInRange n more
    → i < n
    → let g = acts_on more (new_source_group n) in
      (g.live ≡ taken g.members) × (((leave i s g).1 ≡ true) ↔ (taken (leave i s g).0.members ≡ 0))
unfolding new_source_group
leave_lem n more i s hs h =
    let g = acts_on more (new_source_group n) in
    let (v, same) =
      acts_on-Counted more n (new_source_group n) refl (new_source_group-Counted n) hs in
    let (w, _) = leave-Counted s i g v (rw same h) in
    let e = leave_empty i s g in
    (v.count, (λ p. ground (arith, w.count, e, p), λ p. ground (arith, w.count, e, p)))

leave_unheld :
    (i s : ℕ) (g : SourceGroup)
    → holds (seat g i) s ≡ false
    → ((leave i s g).0 ≡ g) × ((leave i s g).1 ≡ (g.live == 0))
unfolding leave
leave_unheld i s g e = rw e (refl, refl)

taken-some : (xs : List (Option ℕ)) (i : ℕ) {k : ℕ} → get_or xs i none ≡ some k → 0 < taken xs
taken-some [] i e = absurd (ground arith)
taken-some (none ∷ xs) zero e = absurd (ground arith)
taken-some (some j ∷ xs) zero e = omega arith
taken-some (none ∷ xs) (suc i) e = taken-some xs i e
taken-some (some j ∷ xs) (suc i) e = omega arith

-- A member that takes a seat over keeps it when the one that it displaced leaves: its seat is
-- still its own, the set has as many members as before that leave, and the set is not empty.
pub leave-join_supersede :
    (i s t : ℕ) (g : SourceGroup)
    → Counted g
    → i < g.n
    → s ≢ t
    → let g' = join t i g in
      ((leave i s g').0 ≡ g') × ((leave i s g').1 ≡ false) × (seat g' i ≡ some t)
leave-join_supersede i s t g v h ne =
    let g' = join t i g in
    let (w, same, mine) = join-Counted t i g v h in
    let other : t ≢ s = λ e. ne (sym e) in
    let unheld : holds (seat g' i) s ≡ false = rw mine (ground (arith, other)) in
    let stays = leave_unheld i s g' unheld in
    let some_live : (g'.live == 0) ≡ false =
      ground (arith, w.count, taken-some g'.members i mine) in
    (stays.0, stays.1 ∙ some_live, mine)
