-- ===== src/Engine/Plane/Sound.antt =====
-- The audio thread's structures in order: an entity holds its slot, and no two hold one.
use panaudia_lasa.Prelude.{
  ℕ, ◌≡◌, ◌≢◌, sym, ap, ◌∙◌, ◌⊎◌, inl, inr, Option, none, some, List, arith, length, get_elem?, set,
  ◌==◌, Bool-cases, length-set, get_elem?-set_ne,
}
use panaudia_lasa.Prelude.Map.{
  Map, lookup, put, delete, Distinct, lookup-put, lookup-put_ne, put-Distinct, lookup-delete,
  lookup-delete_ne, delete-Distinct, length-put_old, length-delete,
}
use panaudia_lasa.Engine.Plane.{Entity, Plane, remove_entity, update}
use panaudia_lasa.Engine.Plane.Slots.{taken, taken-set-none}

module _ {F : Type 0} where
  -- `e` stands under `id`, and its slot holds `id`.
  pub record Seated (slots : List (Option ℕ)) (id : ℕ) (e : Entity F) : Type 0 where
    pub named : e.id ≡ id
    pub seat : get_elem? slots e.slot ≡ some (some id)

  pub record Sound (n : ℕ) (p : Plane F) : Type 0 where
    pub size : length p.slots ≡ n
    pub distinct : Distinct p.ents
    pub seated : (id : ℕ) (e : Entity F) → lookup id p.ents ≡ some e → Seated p.slots id e
    pub counted : taken p.slots ≡ length p.ents

  -- What stands under `j` after `put`: the new entity, or what stood there.
  pub put_cases :
      (k j : ℕ) (e f : Entity F) (m : Map (Entity F))
      → lookup j (put k e m) ≡ some f
      → ((j ≡ k) × (f ≡ e)) ⊎ (k ≢ j) × (lookup j m ≡ some f)
  put_cases k j e f m g = elim (Bool-cases (k == j)) [
    | inl same ↦
        let at : j ≡ k = ground arith in
        let found : lookup j (put k e m) ≡ some e = rw at (lookup-put k e m) in
        inl (at, cc (g, found))
    | inr other ↦
        let ne : k ≢ j = λ q. ground (arith, q) in inr (ne, sym (lookup-put_ne j k e m ne) ∙ g)
  ]

  pub update-Sound :
      (n : ℕ) (e e' : Entity F) (p : Plane F)
      → Sound n p
      → lookup e'.id p.ents ≡ some e
      → e'.slot ≡ e.slot
      → Sound n (update e' p)
  update-Sound n e e' p v l slot = record {
    size = v.size;
    distinct = put-Distinct e'.id e' p.ents v.distinct;
    seated = others;
    counted = v.counted ∙ sym (length-put_old e'.id e' e p.ents l);
  }
    where
      others : (j : ℕ) (f : Entity F) → lookup j (put e'.id e' p.ents) ≡ some f → Seated p.slots j f
      others j f g = elim (put_cases e'.id j e' f p.ents g) [
        | inl (at, is) ↦ record {
          named = ap (λ x. x.id) is ∙ sym at;
          seat =
              ap (get_elem? p.slots) (ap (λ x. x.slot) is ∙ slot)
              ∙ (v.seated e'.id e l).seat
              ∙ ap (λ x. some (some x)) (sym at);
        }
        | inr (ne, old) ↦ v.seated j f old
      ]

  -- Two ids that are seated sit apart.
  apart :
      {slots : List (Option ℕ)} {j k : ℕ} {e f : Entity F}
      → Seated slots j e
      → Seated slots k f
      → j ≢ k
      → e.slot ≢ f.slot
  apart {slots} a b ne same = ne (ground (arith, a.seat, b.seat, ap (get_elem? slots) same))

  pub remove_entity-Sound :
      (n : ℕ) (e e' : Entity F) (p : Plane F)
      → Sound n p
      → lookup e'.id p.ents ≡ some e
      → e'.slot ≡ e.slot
      → Sound n (remove_entity e' p)
  unfolding remove_entity
  remove_entity-Sound n e e' p v l slot = record {
    size = length-set p.slots e'.slot none ∙ v.size;
    distinct = delete-Distinct e'.id p.ents v.distinct;
    seated = others;
    counted = omega (
      arith,
      v.counted,
      length-delete e'.id e p.ents l,
      taken-set-none p.slots e'.slot e'.id here,
    );
  }
    where
      here : get_elem? p.slots e'.slot ≡ some (some e'.id)
      here = ap (get_elem? p.slots) slot ∙ (v.seated e'.id e l).seat

      others :
          (j : ℕ) (f : Entity F)
          → lookup j (delete e'.id p.ents) ≡ some f
          → Seated (set p.slots e'.slot none) j f
      others j f g = elim (Bool-cases (e'.id == j)) [
        | inl same ↦
            let at : e'.id ≡ j = ground arith in
            let gone : lookup j (delete e'.id p.ents) ≡ none =
              rw (sym at) (lookup-delete e'.id p.ents v.distinct) in
            absurd (ground (arith, gone, g))
        | inr other ↦
            let ne : e'.id ≢ j = λ q. ground (arith, q) in
            let s = v.seated j f (sym (lookup-delete_ne j e'.id p.ents ne) ∙ g) in
            let off : e'.slot ≢ f.slot = λ q. apart (v.seated e'.id e l) s ne (sym slot ∙ q) in
            record { named = s.named; seat = get_elem?-set_ne p.slots none off ∙ s.seat }
      ]
