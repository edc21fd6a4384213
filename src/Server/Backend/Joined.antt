-- ===== src/Server/Backend/Joined.antt =====
-- From EntityJoined on, the audio thread renders an entity with what the observer has derived for it.
use mathlib.Core.Path.{subst}
use panaudia_lasa.Prelude.{
  ℕ, ◌≡◌, refl, sym, ap, ◌∙◌, inl, inr, true, false, some, arith, ◌==◌, if◌then◌else◌, Bool-cases,
}
use panaudia_lasa.Prelude.Float.{Float}
use panaudia_lasa.Prelude.Map.{lookup}
use panaudia_lasa.Engine.Plane.{Entity, Plane, Change, set_params, set_space_muted, is_none, member}
use panaudia_lasa.Engine.Mixer.{Mixer, if_known, set_render_params, set_entity_muted}
use panaudia_lasa.Server.State.{DerivedEntity, Host}
use panaudia_lasa.Server.Wiring.{render_params, flush_joined}
use panaudia_lasa.Server.Wiring.Tuned.{Named, Runs, Touches, params_touch, muted_touch}
use panaudia_lasa.Server.Wiring.Follows.{Follows, known_run}

self : (id : ℕ) → (id == id) ≡ true
self id = ground arith

module _ {F : Type 0} (fl : Float F) where
  -- A known entity is tuned: its own case of `known_run`.
  own_run :
      (id : ℕ) (c : Change F) (m : Mixer F) (p : Plane F) (e e' : Entity F)
      → Runs fl m p
      → is_none (lookup id m.reg) ≡ false
      → Named p
      → lookup id p.ents ≡ some e
      → Touches fl id (if id == id then e' else e) p c
      → (q : Plane F) × Runs fl (if_known id c m).0 q
        × Named q
        × (q.channel_table ≡ p.channel_table)
        × (is_none (lookup id (if_known id c m).0.reg) ≡ false)
        × (lookup id q.ents ≡ some e')
  own_run id c m p e e' run held names at t =
      let t' = subst (λ b. Touches fl id (if b then e' else e) p c) (self id) t in
      let (q, run1, names1, table1, held1, spot) =
        known_run fl id id c m p e e' run held names at t' in
      (q, run1, names1, table1, held1, elim spot [ inl x ↦ x | inr (off, x) ↦ absurd (off refl) ])

module _ {F S : Type 0} (fl : Float F) where
  -- The flush, where the audio thread comes to an entity that is not muted.
  pub flush-Follows :
      (id : ℕ) (d : DerivedEntity F) (h : Host F S) (p : Plane F) (e : Entity F)
      → Runs fl h.mixer p
      → Named p
      → lookup id p.ents ≡ some e
      → e.space_muted ≡ false
      → is_none (lookup id h.mixer.reg) ≡ false
      → lookup id h.wiring.ents ≡ some d
      → ((c : ℕ) → lookup c p.channel_table ≡ lookup c h.wiring.channels)
      → Follows fl id (flush_joined id h)
  unfolding flush_joined set_render_params set_entity_muted
  flush-Follows id d h p e run names at quiet held marked table =
      let new = render_params d in
      let e1 = record e { params = new } in
      let (q, run1, names1, table1, held1, at1) =
        own_run fl id (set_params id new) h.mixer p e e1 run held names at
          (params_touch fl id id new p e names at) in
      let m1 = (set_render_params id new h.mixer).0 in
      let e2 = record e1 { space_muted = true } in
      elim (Bool-cases (member id h.wiring.muted)) [
        | inr loud ↦
            rw (marked, flush_joined, loud)
              (record {
                plane = q;
                runs = run1;
                names = names1;
                entity = e1;
                there = at1;
                derived = d;
                marked = marked;
                params = refl;
                mute = quiet ∙ sym loud;
                held = held1;
                table = λ c. ap (lookup c) table1 ∙ table c;
              })
        | inl silenced ↦
            let (q2, run2, names2, table2, held2, at2) =
              own_run fl id (set_space_muted id true) m1 q e1 e2 run1 held1 names1 at1
                (muted_touch fl id id true q e1 names1 at1) in
            rw (marked, flush_joined, silenced)
              (record {
                plane = q2;
                runs = run2;
                names = names2;
                entity = e2;
                there = at2;
                derived = d;
                marked = marked;
                params = refl;
                mute = sym silenced;
                held = held2;
                table = λ c. ap (lookup c) table2 ∙ ap (lookup c) table1 ∙ table c;
              })
      ]
