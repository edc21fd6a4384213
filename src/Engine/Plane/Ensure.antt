-- ===== src/Engine/Plane/Ensure.antt =====
-- ensureEntity: it does not panic while a slot is free.
use panaudia_lasa.Prelude.{
  get_elem?-below, ℕ, ◌<◌, ◌≡◌, ◌≢◌, refl, sym, ap, ◌∙◌, ◌⊎◌, inl, inr, none, some, arith, length,
  get_elem?, set, Option-cases, length-set, get_elem?-set_self, get_elem?-set_ne,
}
use panaudia_lasa.Prelude.Float.{Float}
use panaudia_lasa.Prelude.Map.{lookup, put, lookup-put, put-Distinct, length-put_new}
use panaudia_lasa.Engine.Plane.{Entity, Plane, free_slot, new_entity, ensure_entity}
use panaudia_lasa.Engine.Plane.Slots.{free_slot_lem, taken-set-some}
use panaudia_lasa.Engine.Plane.Sound.{Seated, Sound, put_cases}

module _ {F : Type 0} (fl : Float F) where
  -- The plane with a new entity in a free slot.
  abbrev pub admitted : ℕ → ℕ → Plane F → Plane F
  admitted id i p = record p {
    ents = put id (new_entity fl id i) p.ents;
    slots = set p.slots i (some id);
  }

  pub admitted-Sound :
      (n id i : ℕ) (p : Plane F)
      → Sound n p
      → lookup id p.ents ≡ none
      → get_elem? p.slots i ≡ some none
      → Sound n (admitted id i p)
  admitted-Sound n id i p v new free = record {
    size = length-set p.slots i (some id) ∙ v.size;
    distinct = put-Distinct id (new_entity fl id i) p.ents v.distinct;
    seated = others;
    counted = omega (
      arith,
      v.counted,
      length-put_new id (new_entity fl id i) p.ents new,
      taken-set-some p.slots i id free,
    );
  }
    where
      others :
          (j : ℕ) (f : Entity F)
          → lookup j (put id (new_entity fl id i) p.ents) ≡ some f
          → Seated (set p.slots i (some id)) j f
      others j f g = elim (put_cases id j (new_entity fl id i) f p.ents g) [
        | inl (at, is) ↦ record {
          named = ap (λ x. x.id) is ∙ sym at;
          seat =
              ap (get_elem? (set p.slots i (some id))) (ap (λ x. x.slot) is)
              ∙ get_elem?-set_self p.slots i (some id) (get_elem?-below p.slots i free)
              ∙ ap (λ x. some (some x)) (sym at);
        }
        | inr (ne, old) ↦
            let s = v.seated j f old in
            let off : i ≢ f.slot = λ q. ground (arith, free, s.seat, ap (get_elem? p.slots) q) in
            record { named = s.named; seat = get_elem?-set_ne p.slots (some id) off ∙ s.seat }
      ]

  ensure_found :
      (id : ℕ) (p : Plane F) (e : Entity F)
      → lookup id p.ents ≡ some e
      → ensure_entity fl id p ≡ some (p, e)
  unfolding ensure_entity
  ensure_found id p e l = rw (ensure_entity, l) refl

  ensure_new :
      (id i : ℕ) (p : Plane F)
      → lookup id p.ents ≡ none
      → free_slot p.slots ≡ some i
      → ensure_entity fl id p ≡ some (admitted id i p, new_entity fl id i)
  unfolding ensure_entity
  ensure_new id i p l f = rw (ensure_entity, l, f) refl

  -- An entity that is there is found; another is admitted if not all slots are taken.
  pub ensure_entity_lem :
      (n id : ℕ) (p : Plane F)
      → Sound n p
      → (lookup id p.ents ≡ none → length p.ents < n)
      → (p1 : Plane F) × (e : Entity F) × (ensure_entity fl id p ≡ some (p1, e))
        × Sound n p1
        × (lookup id p1.ents ≡ some e)
        × (((lookup id p.ents ≡ some e) × (p1 ≡ p))
            ⊎ ((lookup id p.ents ≡ none)
                × (e ≡ new_entity fl id e.slot)
                × (p1 ≡ admitted id e.slot p)))
  ensure_entity_lem n id p v room = elim (Option-cases (lookup id p.ents)) [
    | inr (e, l) ↦ (p, e, ensure_found id p e l, v, l, inl (l, refl))
    | inl l ↦
        let (i, f, free) = free_slot_lem p.slots (omega (arith, v.counted, v.size, room l)) in
        (
          admitted id i p,
          new_entity fl id i,
          ensure_new id i p l f,
          admitted-Sound n id i p v l free,
          lookup-put id (new_entity fl id i) p.ents,
          inr (l, refl, refl),
        )
  ]
