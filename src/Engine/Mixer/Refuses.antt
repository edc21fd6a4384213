-- ===== src/Engine/Mixer/Refuses.antt =====
-- AddSource (a lockstep member's too), addSink and AddAmbiSink: when they refuse, and what a refusal leaves behind.
use panaudia_lasa.Prelude.{
  Option-cases, ℕ, ◌≡◌, refl, ◌⊎◌, inl, inr, Bool, false, none, some, arith, Bool-cases, ◌<◌, ◌≤◌,
  ◌↔◌, leb, ltb, ◌&&◌, ◌||◌,
}
use panaudia_lasa.Prelude.Map.{lookup, put}
use panaudia_lasa.Engine.Plane.{Change, is_none, attach_source, attach_sink, attach_ambi}
use panaudia_lasa.Engine.Mixer.{
  Mixer, Answer, Refusal, RegEntry, entry_of, present, admit, add_source, add_sink, add_ambi_sink,
  err_duplicate_source, err_duplicate_sink,
}
use panaudia_lasa.Engine.Group.Registry.{GroupSpec, Sets, find_set, add_member}
use panaudia_lasa.Engine.Group.Finds.{Fits, Grown, find_set_lem}

-- A call that answers an error leaves the mixer as it was.
unfoldable pub Clean : {F : Type 0} → Mixer F → Answer F → Type 0
Clean m a = (a.1 ≡ none) ⊎ (a.0 ≡ m)

-- There is room for the id, known or not.
unfoldable pub Room : {F : Type 0} → ℕ → Mixer F → Type 0
Room id m = (is_none (lookup id m.reg) ≡ false) ⊎ (m.entity_count < m.max_entities)

module _ {F : Type 0} (id : ℕ) (busy : Bool) (twice : Refusal) (fill : RegEntry → RegEntry)
    (change : Change F) (m : Mixer F) where
  admit-Clean : Clean m (admit id busy twice fill change m)
  unfolding Clean
  admit-Clean = elim (Bool-cases m.closed) [
    | inl c ↦ rw c (inr refl)
    | inr c ↦ elim (Bool-cases busy) [
      | inl b ↦ rw (c, b) (inr refl)
      | inr b ↦ elim (Bool-cases (is_none (lookup id m.reg) && leb m.max_entities m.entity_count)) [
        | inl f ↦ rw (c, b, f) (inr refl)
        | inr f ↦ rw (c, b, f) (inl refl)
      ]
    ]
  ]

  admit-Room :
      ((admit id busy twice fill change m).1 ≡ none)
      ↔ ((m.closed ≡ false) × (busy ≡ false) × Room id m)
  unfolding Room
  admit-Room = elim (Bool-cases m.closed) [
    | inl c ↦ rw c (λ h. ground (arith, h), λ h. ground (arith, h))
    | inr c ↦ elim (Bool-cases busy) [
      | inl b ↦ rw (c, b) (λ h. ground (arith, h), λ h. ground (arith, h))
      | inr b ↦ elim (Bool-cases (is_none (lookup id m.reg))) [
        | inl n ↦ elim (Bool-cases (leb m.max_entities m.entity_count)) [
          | inl f ↦ rw (c, b, n, f) (λ h. ground (arith, h), λ h. absurd (ground (arith, h, f)))
          | inr f ↦ rw (c, b, n, f) (λ h. (refl, refl, inr (ground (arith, f))), λ h. refl)
        ]
        | inr k ↦ rw (c, b, k) (λ h. (refl, refl, inl refl), λ h. refl)
      ]
    ]
  ]

ambi-Clean : {F : Type 0} (id order h : ℕ) (m : Mixer F) → Clean m (add_ambi_sink id order h m)
unfolding add_ambi_sink Clean
ambi-Clean id order h m = elim (Bool-cases (ltb order 2 || ltb 3 order || ltb m.order order)) [
  | inl o ↦ rw o (inr refl)
  | inr o ↦ rw o (
      admit-Clean id (present (lookup order (entry_of (lookup id m.reg)).ambi)) err_duplicate_sink
        (λ e. record e { ambi = put order h e.ambi }) (attach_ambi id order h) m)
]

ambi-Room :
    {F : Type 0} (id order h : ℕ) (m : Mixer F)
    → ((add_ambi_sink id order h m).1 ≡ none) ↔ (
        (2 ≤ order)
        × (order ≤ 3)
        × (order ≤ m.order)
        × (m.closed ≡ false)
        × (present (lookup order (entry_of (lookup id m.reg)).ambi) ≡ false)
        × Room id m)
unfolding add_ambi_sink
ambi-Room id order h m = elim (Bool-cases (ltb order 2 || ltb 3 order || ltb m.order order)) [
  | inl o ↦ rw o (
    λ e. ground (arith, e),
    λ (low, high, within, unclosed, free, room). absurd (ground (arith, o, low, high, within)),
  )
  | inr o ↦ rw o (
    λ e.
        let accepted =
          (admit-Room id (present (lookup order (entry_of (lookup id m.reg)).ambi))
              err_duplicate_sink (λ e. record e { ambi = put order h e.ambi })
              (attach_ambi id order h) m).0
            e in
        (
          ground (arith, o),
          ground (arith, o),
          ground (arith, o),
          accepted.0,
          accepted.1,
          accepted.2,
        ),
    λ (low, high, within, unclosed, free, room).
        (admit-Room id (present (lookup order (entry_of (lookup id m.reg)).ambi)) err_duplicate_sink
            (λ e. record e { ambi = put order h e.ambi }) (attach_ambi id order h) m).1
          (unclosed, free, room),
  )
]

source-Room :
    {F : Type 0} (id s : ℕ) (m : Mixer F)
    → ((add_source id s m).1 ≡ none)
      ↔ ((m.closed ≡ false) × (present (entry_of (lookup id m.reg)).src ≡ false) × Room id m)
unfolding add_source
source-Room id s m =
    admit-Room id (present (entry_of (lookup id m.reg)).src) err_duplicate_source
      (λ e. record e { src = some s }) (attach_source id s) m

-- AddSource of a lockstep member.
module _ {F : Type 0} (id s : ℕ) (spec : GroupSpec) (m : Mixer F) (t : Sets) where
  member-Clean :
      ((add_member id s spec m t).2 ≡ none)
      ⊎ ((add_member id s spec m t).0 ≡ m) × Grown spec t (add_member id s spec m t).1
  unfolding add_member
  member-Clean =
      let grown = (find_set_lem spec t).0 in
      elim (Option-cases (find_set spec t).1) [
        | inl bad ↦ rw (bad, add_member) (inr (refl, grown))
        | inr (g, at) ↦ elim (Option-cases (add_source id s m).1) [
          | inr (e, no_room) ↦ rw (at, no_room, add_member) (inr (refl, grown))
          | inl ok ↦ rw (at, ok, add_member) (inl refl)
        ]
      ]

  member-Room : ((add_member id s spec m t).2 ≡ none) ↔ (
      Fits spec t
      × (m.closed ≡ false)
      × (present (entry_of (lookup id m.reg)).src ≡ false)
      × Room id m)
  unfolding add_member
  member-Room =
      let (fit, unfit) = (find_set_lem spec t).1 in
      elim (Option-cases (find_set spec t).1) [
        | inl bad ↦
            rw (bad, add_member)
              (
                λ h. absurd (cc),
                λ (fits, unclosed, free, room). let (g, at) = unfit fits in absurd (cc),
              )
        | inr (g, at) ↦ elim (Option-cases (add_source id s m).1) [
          | inr (e, no_room) ↦
              rw (at, no_room, add_member)
                (
                  λ h. absurd (cc),
                  λ (fits, unclosed, free, room).
                      let ok = (source-Room id s m).1 (unclosed, free, room) in absurd (cc),
                )
          | inl ok ↦
              rw (at, ok, add_member)
                (
                  λ h.
                      let (unclosed, free, room) = (source-Room id s m).0 ok in
                      (fit (g, at), unclosed, free, room),
                  λ h. refl,
                )
        ]
      ]

-- The Adds leave the registry, the count and the queue as they were where they
-- answer an error; where AddSource refuses a lockstep member, a new set with
-- every seat free may stay registered under an id that had none, and nothing
-- else of the lockstep sets changes. Given that its encoder can be made, an
-- Add accepts an id exactly when the mixer is open, the half is free and there
-- is room for the id, which one that is known always has; an ambisonic sink
-- needs an order of 2 or 3 that the mixer encodes as well. A lockstep member
-- needs as well a seat that lies in its set, a set of two or more, and that no
-- set of another size has the set's id.
pub adds_refuse :
    {F : Type 0} (id order h : ℕ) (spec : GroupSpec) (m : Mixer F) (t : Sets)
    → Clean m (add_source id h m)
      × Clean m (add_sink id h m)
      × Clean m (add_ambi_sink id order h m)
      × (((add_source id h m).1 ≡ none)
          ↔ ((m.closed ≡ false) × (present (entry_of (lookup id m.reg)).src ≡ false) × Room id m))
      × (((add_sink id h m).1 ≡ none)
          ↔ ((m.closed ≡ false) × (present (entry_of (lookup id m.reg)).sink ≡ false) × Room id m))
      × (((add_ambi_sink id order h m).1 ≡ none) ↔ (
          (2 ≤ order)
          × (order ≤ 3)
          × (order ≤ m.order)
          × (m.closed ≡ false)
          × (present (lookup order (entry_of (lookup id m.reg)).ambi) ≡ false)
          × Room id m))
      × (((add_member id h spec m t).2 ≡ none)
          ⊎ ((add_member id h spec m t).0 ≡ m) × Grown spec t (add_member id h spec m t).1)
      × (((add_member id h spec m t).2 ≡ none) ↔ (
          Fits spec t
          × (m.closed ≡ false)
          × (present (entry_of (lookup id m.reg)).src ≡ false)
          × Room id m))
unfolding add_source add_sink add_ambi_sink
adds_refuse id order h spec m t = (
  admit-Clean id (present (entry_of (lookup id m.reg)).src) err_duplicate_source
      (λ e. record e { src = some h }) (attach_source id h) m,
  admit-Clean id (present (entry_of (lookup id m.reg)).sink) err_duplicate_sink
      (λ e. record e { sink = some h }) (attach_sink id h) m,
  ambi-Clean id order h m,
  source-Room id h m,
  admit-Room id (present (entry_of (lookup id m.reg)).sink) err_duplicate_sink
      (λ e. record e { sink = some h }) (attach_sink id h) m,
  ambi-Room id order h m,
  member-Clean id h spec m t,
  member-Room id h spec m t,
)
