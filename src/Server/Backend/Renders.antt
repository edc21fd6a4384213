-- ===== src/Server/Backend/Renders.antt =====
-- From EntityJoined on, the audio thread renders an entity with what the observer has derived.
use mathlib.Core.Path.{subst}
use panaudia_lasa.Prelude.{
  ℕ, ◌<◌, ◌≡◌, refl, sym, ap, ◌∙◌, ◌⊎◌, inl, inr, false, none, some, [], ◌∷◌, ◌++◌, arith, leb,
  Bool-cases, length, Bool,
}
use panaudia_lasa.Prelude.Float.{Float}
use panaudia_lasa.Prelude.Map.{Map, lookup, put, lookup-put, length-values}
use panaudia_lasa.Engine.Plane.{
  Entity, Plane, apply, attach_source, update, mark_audible_dirty, new_entity, is_none, member,
}
use panaudia_lasa.Engine.Plane.Ensure.{ensure_entity_lem, admitted}
use panaudia_lasa.Engine.Plane.Sound.{put_cases}
use panaudia_lasa.Engine.Mixer.{RegEntry, Mixer, new_reg_entry, add_source, drain}
use panaudia_lasa.Engine.Mixer.Agree.{entry, Agrees, not_found}
use panaudia_lasa.Engine.Mixer.Calls.{Pending, drain_one}
use panaudia_lasa.Engine.Mixer.Settings.{drain_is}
use panaudia_lasa.Engine.Mixer.Order.{Reachable, Reachable-Pending}
use panaudia_lasa.Server.State.{DerivedEntity, Host}
use panaudia_lasa.Server.Wiring.{render_params, ProfileDefaults}
use panaudia_lasa.Server.Wiring.Tuned.{Named, Runs}
use panaudia_lasa.Server.Wiring.Follows.{Follows}
use panaudia_lasa.Server.Wiring.Events.{Goes, Goes-Follows}
use panaudia_lasa.Server.Backend.{
  ResolvedEntity, Widths, seat_entity, new_rec, engine_add, answer_join, entity_joined,
}
use panaudia_lasa.Server.Backend.Mapped.{engine_add-cases}
use panaudia_lasa.Server.Backend.Joined.{flush-Follows}

module _ {F : Type 0} (fl : Float F) where
  -- The engine takes an id that it does not know.
  taken :
      (id h : ℕ) (m : Mixer F)
      → lookup id m.reg ≡ none
      → (add_source id h m).1 ≡ none
      → let m1 = (add_source id h m).0 in
        (m1.changes ≡ m.changes ++ (attach_source id h ∷ []))
        × (m1.plane ≡ m.plane)
        × (is_none (lookup id m1.reg) ≡ false)
        × (m.entity_count < m.max_entities)
  unfolding add_source
  taken id h m new ok = elim (Bool-cases m.closed) [
    | inl c ↦ absurd (ground (arith, rw c at ok))
    | inr c ↦ elim (Bool-cases (leb m.max_entities m.entity_count)) [
      | inl f ↦ absurd (ground (arith, rw (c, new, f) at ok))
      | inr f ↦
          rw (c, new, f)
            (
              refl,
              refl,
              ap is_none (lookup-put id (record new_reg_entry { src = some h }) m.reg),
              ground (arith, f),
            )
    ]
  ]

  sizes_lem :
      {n : ℕ} {reg : Map RegEntry} {p : Plane F} → Agrees n reg p → length p.ents ≡ length reg
  sizes_lem {p} v = sym (length-values entry p.ents) ∙ ap length v.view

  fresh_lem :
      (id : ℕ) (p1 p : Plane F) (e : Entity F)
      → ((lookup id p.ents ≡ some e) × (p1 ≡ p))
        ⊎ ((lookup id p.ents ≡ none)
            × (e ≡ new_entity fl id e.slot)
            × (p1 ≡ admitted fl id e.slot p))
      → lookup id p.ents ≡ none
      → (e.space_muted ≡ false) × (p1.channel_table ≡ p.channel_table)
  fresh_lem id p1 p e (inl (l, same)) blank = absurd (ground (arith, l, blank))
  fresh_lem id p1 p e (inr (l, new, made)) blank = (
    ap (λ x. x.space_muted) {x = e} {y = new_entity fl id e.slot} new,
    ap (λ x. x.channel_table) {x = p1} {y = admitted fl id e.slot p} made,
  )

  -- What the audio thread comes to with the new entity.
  attached :
      (id h : ℕ) (m : Mixer F) (v : Pending fl m)
      → lookup id m.reg ≡ none
      → (add_source id h m).1 ≡ none
      → (q : Plane F) × (e : Entity F) × Runs fl (add_source id h m).0 q
        × Named q
        × (lookup id q.ents ≡ some e)
        × (e.space_muted ≡ false)
        × (q.channel_table ≡ v.ready.channel_table)
  unfolding apply mark_audible_dirty
  attached id h m v new ok =
      let (changes, plane, held, room) = taken id h m new ok in
      let (p1, e0, ran, s, here, how) =
        ensure_entity_lem fl m.max_entities id v.ready v.agrees.sound
          (λ l. omega (arith, room, v.counted, sizes_lem v.agrees)) in
      let e1 = record e0 { src = some h } in
      let key : e0.id ≡ id = (s.seated id e0 here).named in
      let q = mark_audible_dirty (update e1 p1) in
      let step : apply fl (attach_source id h) v.ready ≡ some q = rw (apply, ran) refl in
      let run : Runs fl (add_source id h m).0 q =
        rw (changes, plane)
          (drain_one fl m.changes (attach_source id h) m.plane v.ready q v.drained step) in
      let blank = not_found v.agrees id new in
      let (quiet, table) = fresh_lem id p1 v.ready e0 how blank in
      (
        q,
        e1,
        run,
        λ j g l. elim (put_cases e1.id j e1 g p1.ents l) [
          | inl (at, is) ↦ ap (λ x. x.id) {x = g} {y = e1} is ∙ sym at
          | inr (off, old) ↦ (s.seated j g old).named
        ],
        ap (λ i. lookup i (put e1.id e1 p1.ents)) (sym key) ∙ lookup-put e1.id e1 p1.ents,
        quiet,
        table,
      )

engine_add-taken :
    {F : Type 0} (fits : Bool) (e : ResolvedEntity F) (r : ℕ) (m : Mixer F)
    → (engine_add fits e r m).1 ≡ none
    → engine_add fits e r m ≡ add_source e.id r m
engine_add-taken fits e r m accepted = elim (engine_add-cases fits e r m) [
  | inl same ↦ same
  | inr unfit ↦ absurd (let no = rw unfit at accepted in cc no)
]

module _ {F S : Type 0} (fl : Float F) (zero32 : S) (ws : Widths F S) where
  joined-Follows :
      (fits : Bool) (client : ℕ) (e : ResolvedEntity F) (d : DerivedEntity F) (h : Host F S)
      (v : Pending fl h.mixer)
      → lookup e.id h.mixer.reg ≡ none
      → lookup e.id h.wiring.ents ≡ some d
      → ((c : ℕ) → lookup c v.ready.channel_table ≡ lookup c h.wiring.channels)
      → (engine_add fits e h.backend.next h.mixer).1 ≡ none
      → Follows fl e.id (entity_joined zero32 ws fits client e h).0
  unfolding entity_joined answer_join
  joined-Follows fits client e d h v new marked table accepted =
      let same_add = engine_add-taken fits e h.backend.next h.mixer accepted in
      let ok = rw same_add at accepted in
      let r = h.backend.next in
      let (changes, plane, held, room) = taken fl e.id r h.mixer new ok in
      let (q, f, run, names, at, quiet, same) = attached fl e.id r h.mixer v new ok in
      let seated : Host F S = record h {
        mixer = (add_source e.id r h.mixer).0;
        backend = seat_entity client e.lockstep e.id r (new_rec zero32 ws client e r) h.backend;
      } in
      subst (λ a. Follows fl e.id (answer_join zero32 ws a client e h).0) (sym same_add)
        (rw (ok, answer_join)
          (flush-Follows fl e.id d seated q f run names at quiet held marked
            (λ c. ap (lookup c) same ∙ table c)))

module _ {F S : Type 0} (fl : Float F) (base : ProfileDefaults F) (zero32 : S)
    (ws : Widths F S) where
  -- An entity that the engine does not know joins and is accepted, its marker being live, at a host
  -- whose mixer calls and ticks have led to and whose queued changes bring the audio thread to the
  -- observer's channel table. Then, after any observed operations, markers of other entities and
  -- ticks, the queue runs without a panic, and the audio thread has the entity with exactly the
  -- parameters that are derived for it, silenced exactly when its moderation mute is set, and every
  -- channel as in the observer's table.
  pub joined_renders :
      (fits : Bool) (client : ℕ) (e : ResolvedEntity F) (d : DerivedEntity F) (h h' : Host F S)
      (m : Mixer F)
      → Reachable fl h.mixer
      → drain fl h.mixer ≡ some m
      → ((c : ℕ) → lookup c m.plane.channel_table ≡ lookup c h.wiring.channels)
      → lookup e.id h.mixer.reg ≡ none
      → lookup e.id h.wiring.ents ≡ some d
      → (engine_add fits e h.backend.next h.mixer).1 ≡ none
      → Goes fl base e.id (entity_joined zero32 ws fits client e h).0 h'
      → (m' : Mixer F) × (f : Entity F) × (d' : DerivedEntity F) × (drain fl h'.mixer ≡ some m')
        × (lookup e.id m'.plane.ents ≡ some f)
        × (lookup e.id h'.wiring.ents ≡ some d')
        × (f.params ≡ render_params d')
        × (f.space_muted ≡ member e.id h'.wiring.muted)
        × ((c : ℕ) → lookup c m'.plane.channel_table ≡ lookup c h'.wiring.channels)
  joined_renders fits client e d h h' m reach ran table new marked ok goes =
      let v = Reachable-Pending fl reach in
      let drained : some m ≡ some (record h.mixer { changes = []; plane = v.ready }) =
        sym ran ∙ drain_is fl h.mixer v.ready v.drained in
      let is : m ≡ record h.mixer { changes = []; plane = v.ready } = cc drained in
      let table' : (c : ℕ) → lookup c v.ready.channel_table ≡ lookup c h.wiring.channels = λ c.
        ap (λ x. lookup c x.plane.channel_table)
          {x = record h.mixer { changes = []; plane = v.ready }} {y = m} (sym is)
        ∙ table c in
      let w =
        Goes-Follows fl base e.id (entity_joined zero32 ws fits client e h).0
          (joined-Follows fl zero32 ws fits client e d h v new marked table' ok) goes in
      (
        record h'.mixer { changes = []; plane = w.plane },
        w.entity,
        w.derived,
        drain_is fl h'.mixer w.plane w.runs,
        w.there,
        w.marked,
        w.params,
        w.mute,
        w.table,
      )
