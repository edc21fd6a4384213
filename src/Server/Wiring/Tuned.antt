-- ===== src/Server/Wiring/Tuned.antt =====
-- The audio thread against the derived state: what the observer has derived is what renders.
use panaudia_lasa.Prelude.{
  ℕ, ◌≡◌, refl, sym, ap, ◌∙◌, inl, inr, Bool, none, some, arith, ◌==◌, if◌then◌else◌, Bool-cases,
  Option-cases,
}
use panaudia_lasa.Prelude.Float.{Float}
use panaudia_lasa.Prelude.Map.{lookup, put, lookup-put, lookup-put_ne}
use panaudia_lasa.Engine.Params.{RenderParams}
use panaudia_lasa.Engine.Plane.{
  Entity, Plane, Change, apply, drain_changes, update, mark_audible_dirty, set_params,
  set_space_muted,
}
use panaudia_lasa.Engine.Plane.Sound.{put_cases}
use panaudia_lasa.Engine.Mixer.{Mixer}

module _ {F : Type 0} where
  -- An entity stands under its own id.
  abbrev pub Named : Plane F → Type 0
  Named p = (j : ℕ) (e : Entity F) → lookup j p.ents ≡ some e → e.id ≡ j

  -- An entity that is there changes in place.
  updated :
      (id id' : ℕ) (p : Plane F) (e e0 f : Entity F)
      → Named p
      → lookup id p.ents ≡ some e
      → lookup id' p.ents ≡ some e0
      → f.id ≡ e0.id
      → Named (update f p) × (lookup id (update f p).ents ≡ some (if id' == id then f else e))
  updated id id' p e e0 f named at at0 same =
      let key : f.id ≡ id' = same ∙ named id' e0 at0 in
      (
        λ j g l. elim (put_cases f.id j f g p.ents l) [
          | inl (here, is) ↦ ap (λ x. x.id) {x = g} {y = f} is ∙ sym here
          | inr (off, old) ↦ named j g old
        ],
        elim (Bool-cases (id' == id)) [
          | inl eq ↦
              let it : f.id ≡ id = ground (arith, eq, key) in
              rw eq (ap (λ i. lookup i (put f.id f p.ents)) (sym it) ∙ lookup-put f.id f p.ents)
          | inr ne ↦ rw ne (lookup-put_ne id f.id f p.ents (ground (arith, ne, key)) ∙ at)
        ],
      )

module _ {F : Type 0} (fl : Float F) where
  abbrev pub Runs : Mixer F → Plane F → Type 0
  Runs m p = drain_changes fl m.changes m.plane ≡ some p

  -- What a change of an entity's settings does to the entity `e` under `id`.
  pub record Touches (id : ℕ) (e : Entity F) (p : Plane F) (c : Change F) : Type 0 where
    pub after : Plane F
    pub applied : apply fl c p ≡ some after
    pub names : Named after
    pub there : lookup id after.ents ≡ some e
    pub table : after.channel_table ≡ p.channel_table

  -- A change that tunes the entity under `id'`, if there is one, by `g`.
  tunes :
      (id id' : ℕ) (c : Change F) (g : Entity F → Entity F) (p : Plane F) (e : Entity F)
      → ((x : Entity F) → (g x).id ≡ x.id)
      → (lookup id' p.ents ≡ none → apply fl c p ≡ some p)
      → ((x : Entity F)
          → lookup id' p.ents ≡ some x
          → (q : Plane F) × (apply fl c p ≡ some q)
            × (q.ents ≡ put (g x).id (g x) p.ents)
            × (q.channel_table ≡ p.channel_table))
      → Named p
      → lookup id p.ents ≡ some e
      → Touches id (if id' == id then g e else e) p c
  tunes id id' c g p e keeps misses hits named at = elim (Option-cases (lookup id' p.ents)) [
    | inl l ↦ record {
      after = p;
      applied = misses l;
      names = named;
      there = elim (Bool-cases (id' == id)) [
        | inl eq ↦
            let it : id' ≡ id = ground (arith, eq) in
            let both : none ≡ some e = sym l ∙ ap (λ i. lookup i p.ents) it ∙ at in
            absurd (ground (arith, both))
        | inr ne ↦ rw ne at
      ];
      table = refl;
    }
    | inr (x, l) ↦
        let (q, done, ents, table) = hits x l in
        let (names, there) = updated id id' p e x (g x) named at l (keeps x) in
        record {
          after = q;
          applied = done;
          names = λ j y found. names j y (ap (lookup j) (sym ents) ∙ found);
          there = ap (lookup id) ents ∙ there ∙ (elim (Bool-cases (id' == id)) [
            | inl eq ↦
                let it : id' ≡ id = ground (arith, eq) in
                let both : some x ≡ some e = sym l ∙ ap (λ i. lookup i p.ents) it ∙ at in
                let one : x ≡ e = cc both in rw (eq, one) refl
            | inr ne ↦ rw ne refl
          ]);
          table = table;
        }
  ]

  pub params_touch :
      (id id' : ℕ) (v : RenderParams F) (p : Plane F) (e : Entity F)
      → Named p
      → lookup id p.ents ≡ some e
      → Touches id (if id' == id then record e { params = v } else e) p (set_params id' v)
  unfolding apply mark_audible_dirty
  params_touch id id' v p e named at =
      tunes id id' (set_params id' v) (λ x. record x { params = v }) p e (λ x. refl)
        (λ l. rw (l, apply) refl)
        (λ x l.
          (mark_audible_dirty (update (record x { params = v }) p), rw (l, apply) refl, refl, refl))
        named at

  pub muted_touch :
      (id id' : ℕ) (on : Bool) (p : Plane F) (e : Entity F)
      → Named p
      → lookup id p.ents ≡ some e
      → Touches id
          (if id' == id then record e { space_muted = on } else e)
          p
          (set_space_muted id' on)
  unfolding apply
  muted_touch id id' on p e named at =
      tunes id id' (set_space_muted id' on) (λ x. record x { space_muted = on }) p e (λ x. refl)
        (λ l. rw (l, apply) refl)
        (λ x l. (update (record x { space_muted = on }) p, rw (l, apply) refl, refl, refl)) named at
