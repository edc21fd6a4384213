-- ===== src/Server/Backend/Leak.antt =====
-- EntityLeft of an entity with a binaural and an ambisonic sink: RemoveSink's closure drops the entity
-- from the audio thread before RemoveAmbiSink's closure can find it.
use panaudia_lasa.Prelude.{
  ℕ, ◌≡◌, refl, sym, ap, ◌∙◌, inl, inr, true, false, none, some, [], ◌∷◌, arith, ◌==◌, Bool-cases,
  Option-cases,
}
use panaudia_lasa.Prelude.Float.{Float}
use panaudia_lasa.Prelude.Map.{
  Map, lookup, put, delete, Distinct, lookup-put, lookup-delete, put-Distinct,
}
use panaudia_lasa.Engine.Plane.{
  Entity, Plane, apply, drain_changes, is_none, remove_entity, detach_source, detach_sink,
  detach_ambi, detach_source_from, detach_sink_from, mark_audible_dirty,
}
use panaudia_lasa.Engine.Mixer.{
  RegEntry, Mixer, vacate, remove_source, remove_sink, remove_ambi_sink, drain,
}
use panaudia_lasa.Engine.Mixer.Agree.{entry, Agrees, found}
use panaudia_lasa.Engine.Mixer.Calls.{Pending, drain_one}
use panaudia_lasa.Engine.Mixer.Settings.{drain_is}
use panaudia_lasa.Engine.Mixer.Order.{Reachable, Reachable-Pending}
use panaudia_lasa.Server.State.{EntityRec, Host}
use panaudia_lasa.Server.Backend.{remove_halves, entity_left}

module _ {F : Type 0} (fl : Float F) where
  -- What the audio thread comes to.
  abbrev Runs : Mixer F → Plane F → Type 0
  Runs m p = drain_changes fl m.changes m.plane ≡ some p

  source_run :
      (id : ℕ) (m : Mixer F) (p : Plane F) (r : RegEntry) (e : Entity F)
      → Runs m p
      → lookup id m.reg ≡ some r
      → is_none r.src ≡ false
      → lookup id p.ents ≡ some e
      → is_none e.src ≡ false
      → Runs (remove_source id m) (detach_source_from e p)
        × ((remove_source id m).reg
            ≡ (vacate id (record r { src = none }) (detach_source id) m).reg)
  unfolding remove_source apply
  source_run id m p r e run l on at has =
      let step : apply fl (detach_source id) p ≡ some (detach_source_from e p) =
        rw (at, apply, has) refl in
      rw (l, remove_source, on)
        (drain_one fl m.changes (detach_source id) m.plane p _ run step, refl)

  sink_run :
      (id k : ℕ) (m : Mixer F) (p : Plane F) (r : RegEntry) (e : Entity F)
      → Runs m p
      → lookup id m.reg ≡ some r
      → is_none r.sink ≡ false
      → lookup id p.ents ≡ some e
      → e.sink ≡ some k
      → Runs (remove_sink id m) (detach_sink_from k e p)
  unfolding remove_sink apply detach_sink_from
  sink_run id k m p r e run l on at has =
      let step : apply fl (detach_sink id) p ≡ some (detach_sink_from k e p) =
        rw (at, apply, has) refl in
      rw (l, remove_sink, on) (drain_one fl m.changes (detach_sink id) m.plane p _ run step)

  -- The audio thread finds no entity, and does nothing.
  ambi_run :
      (id order : ℕ) (m : Mixer F) (p : Plane F)
      → Runs m p
      → lookup id p.ents ≡ none
      → Runs (remove_ambi_sink id order m) p
  unfolding remove_ambi_sink apply
  ambi_run id order m p run gone =
      let step : apply fl (detach_ambi id order) p ≡ some p = rw (gone, apply) refl in
      elim (Option-cases (lookup id m.reg)) [
        | inl l ↦ rw (l, remove_ambi_sink) run
        | inr (r, l) ↦ elim (Bool-cases (is_none (lookup order r.ambi))) [
          | inl out ↦ rw (l, remove_ambi_sink, out) run
          | inr on ↦
              rw (l, remove_ambi_sink, on)
                (drain_one fl m.changes (detach_ambi id order) m.plane p p run step)
        ]
      ]

  -- The entity once its source is gone, and once its sink is gone too.
  after_source :
      (n : ℕ) (reg : Map RegEntry) (p : Plane F) (id k : ℕ) (e : Entity F)
      → Agrees n reg p
      → lookup id p.ents ≡ some e
      → e.id ≡ id
      → e.sink ≡ some k
      → let p1 = detach_source_from e p in
        (lookup id p1.ents ≡ some (record e { src = none }))
        × Distinct p1.ents
        × (p1.destroyed ≡ p.destroyed)
  unfolding detach_source_from
  after_source n reg p id k e v at named has =
      let on : is_none e.sink ≡ false = rw has refl in
      let e' = record e { src = none } in
      rw on (
        ap (λ i. lookup i (put e.id e' p.ents)) (sym named) ∙ lookup-put e.id e' p.ents,
        put-Distinct e.id e' p.ents v.sound.distinct,
        refl,
      )

  after_sink :
      (p : Plane F) (id k : ℕ) (e : Entity F)
      → Distinct p.ents
      → e.id ≡ id
      → e.src ≡ none
      → let p2 = detach_sink_from k e p in
        (lookup id p2.ents ≡ none) × (p2.destroyed ≡ k ∷ p.destroyed)
  unfolding detach_sink_from remove_entity mark_audible_dirty
  after_sink p id k e d named out =
      let off : is_none e.src ≡ true = rw out refl in
      rw off
        (ap (λ i. lookup i (delete e.id p.ents)) (sym named) ∙ lookup-delete e.id p.ents d, refl)

  halves_run :
      (id s k : ℕ) (ambi : Map ℕ) (m : Mixer F) (v : Pending fl m)
      → lookup id m.reg ≡ some (record { src = some s; sink = some k; ambi = ambi })
      → (p : Plane F) × Runs (remove_halves id m) p
        × (lookup id p.ents ≡ none)
        × (p.destroyed ≡ k ∷ v.ready.destroyed)
  halves_run id s k ambi m v l =
      let r : RegEntry = record { src = some s; sink = some k; ambi = ambi } in
      let (e, at, is, named) = found v.agrees id r l in
      let has_src : e.src ≡ some s = ap (λ x. x.src) {x = entry e} {y = r} is in
      let has_sink : e.sink ≡ some k = ap (λ x. x.sink) {x = entry e} {y = r} is in
      let m1 = remove_source id m in
      let p1 = detach_source_from e v.ready in
      let (run1, reg1) = source_run id m v.ready r e v.drained l refl at (rw has_src refl) in
      let e1 = record e { src = none } in
      let (at1, d1, log1) =
        after_source m.max_entities m.reg v.ready id k e v.agrees at named has_sink in
      let l1 : lookup id m1.reg ≡ some (record r { src = none }) =
        ap (lookup id) reg1 ∙ lookup-put id (record r { src = none }) m.reg in
      let p2 = detach_sink_from k e1 p1 in
      let run2 = sink_run id k m1 p1 (record r { src = none }) e1 run1 l1 refl at1 has_sink in
      let (gone, log2) = after_sink p1 id k e1 d1 named refl in
      let m2 = remove_sink id m1 in
      (
        p2,
        ambi_run id 3 (remove_ambi_sink id 2 m2) p2 (ambi_run id 2 m2 p2 run2 gone) gone,
        gone,
        log2 ∙ ap (λ t. k ∷ t) log1,
      )

module _ {F S : Type 0} (fl : Float F) where
  -- A departing entity with a source and a binaural sink: when the audio thread has run what its
  -- departure queued, it no longer has the entity, and of the entity's sinks only the binaural one
  -- was released. An ambisonic sink of the entity is never released then, whatever it has of them.
  pub entity_left-leak :
      (client id r s k : ℕ) (ambi : Map ℕ) (rec : EntityRec S) (h : Host F S)
      → Reachable fl h.mixer
      → lookup id h.backend.entities ≡ some r
      → lookup r h.backend.recs ≡ some rec
      → rec.client_id ≡ client
      → lookup id h.mixer.reg ≡ some (record { src = some s; sink = some k; ambi = ambi })
      → (m : Mixer F) × (m' : Mixer F) × (drain fl h.mixer ≡ some m)
        × (drain fl (entity_left client id h).mixer ≡ some m')
        × (lookup id m'.plane.ents ≡ none)
        × (m'.plane.destroyed ≡ k ∷ m.plane.destroyed)
  unfolding entity_left
  entity_left-leak client id r s k ambi rec h reach conn at owner l =
      let v = Reachable-Pending fl reach in
      let (p, run, gone, log) = halves_run fl id s k ambi h.mixer v l in
      let out = remove_halves id h.mixer in
      let mine : (rec.client_id == client) ≡ true = ground (arith, owner) in
      (
        record h.mixer { changes = []; plane = v.ready },
        record out { changes = []; plane = p },
        drain_is fl h.mixer v.ready v.drained,
        rw (conn, at, entity_left, mine) (drain_is fl out p run),
        gone,
        log,
      )
