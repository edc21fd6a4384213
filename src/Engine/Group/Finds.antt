-- ===== src/Engine/Group/Finds.antt =====
-- engine/engine/mixer.go: when AddSource finds or makes the set of a lockstep member.
use panaudia_lasa.Prelude.{
  ℕ, ◌≡◌, refl, ◌⊎◌, inl, inr, false, Option, none, some, ◌↔◌, arith, Bool-cases, ◌==◌,
}
use panaudia_lasa.Prelude.Map.{overlay}
use panaudia_lasa.Prelude.Int.{pos, pos_part, ◌≤ℤ◌, ◌<ℤ◌}
use panaudia_lasa.Engine.Group.{new_source_group}
use panaudia_lasa.Engine.Group.Registry.{GroupSpec, Sets, bad_spec, find_or_make, find_set}

-- No set of another size is registered: there is none, or it is of the spec's size.
unfoldable pub Sized : Option ℕ → GroupSpec → Sets → Type 0
Sized none spec t = Unit
Sized (some g) spec t = (t.objects g).seats.n ≡ pos_part spec.count

-- The spec names a seat of a set of two or more, and none of another size has its id.
unfoldable pub Fits : GroupSpec → Sets → Type 0
Fits spec t =
    (pos 0 ≤ℤ spec.index)
    × (spec.index <ℤ spec.count)
    × (pos 2 ≤ℤ spec.count)
    × Sized (t.group_reg spec.set_id) spec t

-- Nothing has changed, or a set with every seat free has been registered under an id without one.
unfoldable pub Grown : GroupSpec → Sets → Sets → Type 0
Grown spec t u =
    (u ≡ t)
    ⊎ (t.group_reg spec.set_id ≡ none)
      × (u.objects
          ≡ overlay t.objects t.next
              (record { set_id = spec.set_id; seats = new_source_group (pos_part spec.count) }))
      × (u.group_reg ≡ overlay t.group_reg spec.set_id (some t.next))
      × (u.groups ≡ t.groups)

good_spec :
    (spec : GroupSpec)
    → (bad_spec spec ≡ false)
      ↔ ((pos 0 ≤ℤ spec.index) × (spec.index <ℤ spec.count) × (pos 2 ≤ℤ spec.count))
unfolding bad_spec
good_spec spec = (λ h. ground (arith, h), λ h. ground (arith, h))

find_or_make_lem :
    (known : Option ℕ) (spec : GroupSpec) (t : Sets)
    → t.group_reg spec.set_id ≡ known
    → Grown spec t (find_or_make known spec t).0
      × (((g : ℕ) × ((find_or_make known spec t).1 ≡ some g)) ↔ Sized known spec t)
unfolding find_or_make Grown Sized
find_or_make_lem none spec t e = (inr (e, refl, refl, refl), (λ h. tt, λ h. (t.next, refl)))
find_or_make_lem (some k) spec t e = (
  inl refl,
  elim (Bool-cases ((t.objects k).seats.n == pos_part spec.count)) [
    | inl same ↦ rw same (λ h. ground (arith, same), λ h. (k, refl))
    | inr other ↦ rw other (λ (g, h). absurd (cc), λ h. absurd (ground (arith, h, other)))
  ],
)

kept-Grown : (spec : GroupSpec) (t : Sets) → Grown spec t t
unfolding Grown
kept-Grown spec t = inl refl

pub find_set_lem :
    (spec : GroupSpec) (t : Sets)
    → Grown spec t (find_set spec t).0 × (((g : ℕ) × ((find_set spec t).1 ≡ some g)) ↔ Fits spec t)
unfolding find_set Fits
find_set_lem spec t = elim (Bool-cases (bad_spec spec)) [
  | inl bad ↦ rw bad (
    kept-Grown spec t,
    (
      λ (g, h). absurd (cc),
      λ (low, high, two, sized). let good = (good_spec spec).1 (low, high, two) in absurd (cc),
    ),
  )
  | inr good ↦
      let (grown, found) = find_or_make_lem (t.group_reg spec.set_id) spec t refl in
      let (low, high, two) = (good_spec spec).0 good in
      rw good (grown, (λ h. (low, high, two, found.0 h), λ (l, h, w, sized). found.1 sized))
]
