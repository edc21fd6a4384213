-- ===== src/Engine/Mixer/Agree.antt =====
-- The registry against the audio thread: running what is queued gives exactly the registry.
use panaudia_lasa.Prelude.{
  ℕ, ◌≤◌, ◌<◌, ◌≡◌, refl, sym, ap, ◌∙◌, inl, inr, none, some, arith, length, Option-cases,
}
use panaudia_lasa.Prelude.Float.{Float}
use panaudia_lasa.Prelude.Map.{
  Map, lookup, put, delete, values, seen, lookup-values, put-values, delete-values, length-values,
  put-put, length-put_new, length-put_old, length-delete,
}
use panaudia_lasa.Engine.Plane.{Entity, Plane, new_entity, ensure_entity, update, remove_entity}
use panaudia_lasa.Engine.Plane.Sound.{Sound, update-Sound, remove_entity-Sound}
use panaudia_lasa.Engine.Plane.Ensure.{ensure_entity_lem, admitted}
use panaudia_lasa.Engine.Mixer.{RegEntry, new_reg_entry, entry_of}

module _ {F : Type 0} where
  -- What the registry keeps of an entity.
  abbrev pub entry : Entity F → RegEntry
  entry e = record { src = e.src; sink = e.sink; ambi = e.ambi_sinks }

  pub record Agrees (n : ℕ) (reg : Map RegEntry) (p : Plane F) : Type 0 where
    pub sound : Sound n p
    pub view : values entry p.ents ≡ reg
    pub room : length reg ≤ n

  -- The registry's entry of an entity that is there.
  pub entry_of_found :
      {n : ℕ} {reg : Map RegEntry} {p : Plane F}
      → Agrees n reg p
      → (id : ℕ) (e : Entity F) → lookup id p.ents ≡ some e
      → lookup id reg ≡ some (entry e)
  unfolding seen
  entry_of_found {p} v id e l = rw (← v.view, lookup-values entry id p.ents, l, seen) refl

  pub not_found :
      {n : ℕ} {reg : Map RegEntry} {p : Plane F}
      → Agrees n reg p
      → (id : ℕ) → lookup id reg ≡ none
      → lookup id p.ents ≡ none
  not_found {p} v id l = elim (Option-cases (lookup id p.ents)) [
    | inl e ↦ e
    | inr (e, f) ↦ absurd (ground (arith, entry_of_found v id e f, l))
  ]

  absent :
      {n : ℕ} {reg : Map RegEntry} {p : Plane F}
      → Agrees n reg p
      → (id : ℕ) → lookup id p.ents ≡ none
      → lookup id reg ≡ none
  unfolding seen
  absent {p = p} v id e = rw (← v.view, lookup-values entry id p.ents, e, seen) refl

  pub found :
      {n : ℕ} {reg : Map RegEntry} {p : Plane F}
      → Agrees n reg p
      → (id : ℕ) (r : RegEntry) → lookup id reg ≡ some r
      → (e : Entity F) × (lookup id p.ents ≡ some e) × (entry e ≡ r) × (e.id ≡ id)
  found {reg = reg} {p = p} v id r l = elim (Option-cases (lookup id p.ents)) [
    | inl e ↦ let gone = absent v id e in absurd (ground (arith, gone, l))
    | inr (e, f) ↦ (e, f, ground (arith, entry_of_found v id e f, l), (v.sound.seated id e f).named)
  ]

  pub update-Agrees :
      {n : ℕ} {reg : Map RegEntry} {p : Plane F}
      → Agrees n reg p
      → (id : ℕ) (e e' : Entity F) → lookup id p.ents ≡ some e
      → e'.id ≡ id
      → e'.slot ≡ e.slot
      → Agrees n (put id (entry e') reg) (update e' p)
  update-Agrees {n} {reg} {p} v id e e' l named slot = record {
    sound = update-Sound n e e' p v.sound (ap (λ j. lookup j p.ents) named ∙ l) slot;
    view =
        put-values entry e'.id e' p.ents
        ∙ ap (λ j. put j (entry e') (values entry p.ents)) named
        ∙ ap (put id (entry e')) v.view;
    room =
        omega (arith, v.room, length-put_old id (entry e') (entry e) reg (entry_of_found v id e l));
  }

  pub remove-Agrees :
      {n : ℕ} {reg : Map RegEntry} {p : Plane F}
      → Agrees n reg p
      → (id : ℕ) (e e' : Entity F) → lookup id p.ents ≡ some e
      → e'.id ≡ id
      → e'.slot ≡ e.slot
      → Agrees n (delete id reg) (remove_entity e' p)
  unfolding remove_entity
  remove-Agrees {n} {reg} {p} v id e e' l named slot = record {
    sound = remove_entity-Sound n e e' p v.sound (ap (λ j. lookup j p.ents) named ∙ l) slot;
    view =
        delete-values entry e'.id p.ents
        ∙ ap (λ j. delete j (values entry p.ents)) named
        ∙ ap (delete id) v.view;
    room = omega (arith, v.room, length-delete id (entry e) reg (entry_of_found v id e l));
  }

module _ {F : Type 0} (fl : Float F) where
  admitted-Agrees :
      {n : ℕ} {reg : Map RegEntry} {p : Plane F}
      → Agrees n reg p
      → (id i : ℕ) → lookup id reg ≡ none
      → length reg < n
      → Sound n (admitted fl id i p)
      → Agrees n (put id new_reg_entry reg) (admitted fl id i p)
  admitted-Agrees {n} {reg} {p} v id i new room s = record {
    sound = s;
    view = put-values entry id (new_entity fl id i) p.ents ∙ ap (put id new_reg_entry) v.view;
    room = omega (arith, room, length-put_new id new_reg_entry reg new);
  }

  -- An attachment, `g` on the entity and `f` on its entry, with room for a new entity.
  pub attach-Agrees :
      {n : ℕ} {reg : Map RegEntry} {p : Plane F}
      → Agrees n reg p
      → (id : ℕ) (g : Entity F → Entity F) (f : RegEntry → RegEntry)
      → ((e : Entity F) → (entry (g e) ≡ f (entry e)) × ((g e).id ≡ e.id) × ((g e).slot ≡ e.slot))
      → (lookup id reg ≡ none → length reg < n)
      → (p1 : Plane F) × (e : Entity F) × (ensure_entity fl id p ≡ some (p1, e))
        × Agrees n (put id (f (entry_of (lookup id reg))) reg) (update (g e) p1)
  attach-Agrees {n} {reg} {p} v id g f same room =
      let sizes : length p.ents ≡ length reg =
        sym (length-values entry p.ents) ∙ ap length v.view in
      let open_slot : lookup id p.ents ≡ none → length p.ents < n =
        λ l. omega (arith, sizes, room (absent v id l)) in
      let (p1, e, ran, s, here, how) = ensure_entity_lem fl n id p v.sound open_slot in
      let at : e.id ≡ id = (s.seated id e here).named in
      let (same_entry, same_id, same_slot) = same e in
      elim how [
        | inl (l, is_p) ↦
            let v1 : Agrees n reg p1 = rw is_p v in
            let eq : put id (f (entry_of (lookup id reg))) reg ≡ put id (entry (g e)) reg =
              rw (entry_of_found v id e l) (ap (λ x. put id x reg) (sym same_entry)) in
            (p1, e, ran, rw eq (update-Agrees v1 id e (g e) here (same_id ∙ at) same_slot))
        | inr (l, is_e, is_p) ↦
            let blank = new_reg_entry in
            let v1 : Agrees n (put id blank reg) p1 = rw is_p (
              admitted-Agrees v id e.slot (absent v id l) (room (absent v id l))
                (rw (sym is_p) s)) in
            let filled : entry (g e) ≡ f blank = same_entry ∙ ap f (ap entry is_e) in
            let eq : put id (f (entry_of (lookup id reg))) reg
                ≡ put id (entry (g e)) (put id blank reg) =
              rw (absent v id l)
                (ap (λ x. put id x reg) (sym filled) ∙ sym (put-put id blank (entry (g e)) reg)) in
            (p1, e, ran, rw eq (update-Agrees v1 id e (g e) here (same_id ∙ at) same_slot))
      ]
