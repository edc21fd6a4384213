-- ===== src/Server/Wiring/Follows.antt =====
-- What it means that the audio thread keeps to the derived state, and the keys of an entity.
use panaudia_lasa.Prelude.{
  ℕ, ◌≡◌, ◌≢◌, refl, sym, ap, ◌∙◌, ◌⊎◌, inl, inr, Bool, true, false, some, List, arith, ◌==◌,
  if◌then◌else◌, Bool-cases, Option-cases,
}
use panaudia_lasa.Prelude.Float.{Float}
use panaudia_lasa.Prelude.Map.{lookup, put, lookup-put, lookup-put_ne}
use panaudia_lasa.Engine.Plane.{
  Entity, Plane, Change, set_params, set_space_muted, is_none, member, without,
}
use panaudia_lasa.Engine.Plane.Personal.{add-member, without-member}
use panaudia_lasa.Engine.Mixer.{Mixer, if_known, set_render_params, set_entity_muted}
use panaudia_lasa.Engine.Mixer.Calls.{drain_one}
use panaudia_lasa.Server.State.{DerivedEntity, Host}
use panaudia_lasa.Server.Wiring.{render_params, entity_update, with_member}
use panaudia_lasa.Server.Wiring.Tuned.{Named, Runs, Touches, params_touch, muted_touch}

muted-member :
    (id id' : ℕ) (on : Bool) (muted : List ℕ)
    → member id (if on then with_member id' muted else without id' muted)
      ≡ (if id == id' then on else member id muted)
muted-member id id' true muted = add-member id id' muted
muted-member id id' false muted = without-member id id' muted

module _ {F : Type 0} (fl : Float F) where
  -- The call that queues a change for an id that the registry may not have.
  pub known_run :
      (id id' : ℕ) (c : Change F) (m : Mixer F) (p : Plane F) (e e' : Entity F)
      → Runs fl m p
      → is_none (lookup id m.reg) ≡ false
      → Named p
      → lookup id p.ents ≡ some e
      → Touches fl id e' p c
      → (q : Plane F) × Runs fl (if_known id' c m).0 q
        × Named q
        × (q.channel_table ≡ p.channel_table)
        × (is_none (lookup id (if_known id' c m).0.reg) ≡ false)
        × ((lookup id q.ents ≡ some e') ⊎ (id' ≢ id) × (lookup id q.ents ≡ some e))
  known_run id id' c m p e e' run held names at t = elim (Option-cases (lookup id' m.reg)) [
    | inl l ↦
        let off : id' ≢ id =
          λ it. absurd (ground (arith, held, l, ap (λ i. is_none (lookup i m.reg)) it)) in
        rw (l, if_known) (p, run, names, refl, held, inr (off, at))
    | inr (r, l) ↦
        rw (l, if_known)
          (
            t.after,
            drain_one fl m.changes c m.plane p t.after run t.applied,
            t.names,
            t.table,
            held,
            inl t.there,
          )
  ]

module _ {F S : Type 0} (fl : Float F) where
  -- When the audio thread has run what is queued, the entity renders with the derived parameters
  -- and the moderation mute, and every channel with the parameters of the table.
  pub record Follows (id : ℕ) (h : Host F S) : Type 0 where
    pub plane : Plane F
    pub runs : Runs fl h.mixer plane
    pub names : Named plane
    pub entity : Entity F
    pub there : lookup id plane.ents ≡ some entity
    pub derived : DerivedEntity F
    pub marked : lookup id h.wiring.ents ≡ some derived
    pub params : entity.params ≡ render_params derived
    pub mute : entity.space_muted ≡ member id h.wiring.muted
    pub held : is_none (lookup id h.mixer.reg) ≡ false
    pub table : (c : ℕ) → lookup c plane.channel_table ≡ lookup c h.wiring.channels

  pub update-Follows :
      (id id' : ℕ) (fn : DerivedEntity F → DerivedEntity F) (h : Host F S)
      → Follows id h
      → Follows id (entity_update id' fn h)
  unfolding entity_update set_render_params
  update-Follows id id' fn h v = elim (Option-cases (lookup id' h.wiring.ents)) [
    | inl l ↦ rw (l, entity_update) v
    | inr (d, l) ↦
        let new = render_params (fn d) in
        let t = params_touch fl id id' new v.plane v.entity v.names v.there in
        let (q, run, names, table, held, spot) =
          known_run fl id id' (set_params id' new) h.mixer v.plane v.entity _ v.runs v.held v.names
            v.there t in
        elim (Bool-cases (id' == id)) [
          | inl eq ↦
              let it : id' ≡ id = ground (arith, eq) in
              rw (l, entity_update)
                (record {
                  plane = q;
                  runs = run;
                  names = names;
                  entity = record v.entity { params = new };
                  there = elim spot [ inl at ↦ rw eq at at | inr (off, at) ↦ absurd (off it) ];
                  derived = fn d;
                  marked =
                      ap (λ i. lookup i (put id' (fn d) h.wiring.ents)) (sym it)
                      ∙ lookup-put id' (fn d) h.wiring.ents;
                  params = refl;
                  mute = v.mute;
                  held = held;
                  table = λ c. ap (lookup c) table ∙ v.table c;
                })
          | inr ne ↦
              rw (l, entity_update)
                (record {
                  plane = q;
                  runs = run;
                  names = names;
                  entity = v.entity;
                  there = elim spot [ inl at ↦ rw ne at at | inr (off, at) ↦ at ];
                  derived = v.derived;
                  marked =
                      lookup-put_ne id id' (fn d) h.wiring.ents (ground (arith, ne)) ∙ v.marked;
                  params = v.params;
                  mute = v.mute;
                  held = held;
                  table = λ c. ap (lookup c) table ∙ v.table c;
                })
        ]
  ]

  pub mute-Follows :
      (id id' : ℕ) (on : Bool) (h : Host F S)
      → Follows id h
      → Follows id (record h {
        wiring = record h.wiring {
          muted = if on then with_member id' h.wiring.muted else without id' h.wiring.muted;
        };
        mixer = (set_entity_muted id' on h.mixer).0;
      })
  unfolding set_entity_muted
  mute-Follows id id' on h v =
      let t = muted_touch fl id id' on v.plane v.entity v.names v.there in
      let (q, run, names, table, held, spot) =
        known_run fl id id' (set_space_muted id' on) h.mixer v.plane v.entity _ v.runs v.held
          v.names v.there t in
      let now = muted-member id id' on h.wiring.muted in
      elim (Bool-cases (id' == id)) [
        | inl eq ↦
            let it : id' ≡ id = ground (arith, eq) in
            let flip : (id == id') ≡ true = ground (arith, it) in
            record {
              plane = q;
              runs = run;
              names = names;
              entity = record v.entity { space_muted = on };
              there = elim spot [ inl at ↦ rw eq at at | inr (off, at) ↦ absurd (off it) ];
              derived = v.derived;
              marked = v.marked;
              params = v.params;
              mute = sym (now ∙ rw flip refl);
              held = held;
              table = λ c. ap (lookup c) table ∙ v.table c;
            }
        | inr ne ↦
            let flip : (id == id') ≡ false = ground (arith, ne) in
            record {
              plane = q;
              runs = run;
              names = names;
              entity = v.entity;
              there = elim spot [ inl at ↦ rw ne at at | inr (off, at) ↦ at ];
              derived = v.derived;
              marked = v.marked;
              params = v.params;
              mute = v.mute ∙ sym (now ∙ rw flip refl);
              held = held;
              table = λ c. ap (lookup c) table ∙ v.table c;
            }
      ]
