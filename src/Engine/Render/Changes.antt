-- ===== src/Engine/Render/Changes.antt =====
-- The changes of the queue: each keeps the pair record in order.
use panaudia_lasa.Prelude.{
  ℕ, ◌≡◌, refl, sym, ap, ◌∙◌, inl, inr, Bool, true, false, ◌&&◌, none, some, List, [], ◌∷◌, ◌++◌,
  arith, if◌then◌else◌, Bool-cases, Option-cases,
}
use panaudia_lasa.Prelude.Float.{Float}
use panaudia_lasa.Prelude.Map.{lookup, put, delete}
use panaudia_lasa.Engine.Plane.{
  Entity, Plane, Change, attach_source, attach_sink, attach_ambi, detach_source, detach_sink,
  detach_ambi, set_params, set_channel, set_mute, set_solo, set_space_muted, apply, drain_changes,
  update, remove_entity, mark_audible_dirty, detach_source_from, detach_sink_from, detach_ambi_from,
  is_none, is_empty, some_of, set_personal,
}
use panaudia_lasa.Engine.Plane.Sound.{Sound, update-Sound}
use panaudia_lasa.Engine.Channels.{resolve_pair, personal}
use panaudia_lasa.Engine.Render.{Table}
use panaudia_lasa.Engine.Render.Kept.{Good, mark-Good, removed-Good, updated-Good, attached-Good}

module _ {F S : Type 0} (fl : Float F) (f32 : Float S) (float32 : F → S) where
  -- The log of what is released is read by no pair.
  resolve_log :
      (p : Plane F) (log : List ℕ) (s k : Entity F)
      → resolve_pair fl f32 float32 (record p { destroyed = log }) s k
        ≡ resolve_pair fl f32 float32 p s k
  unfolding resolve_pair personal
  resolve_log p log s k = refl

  logged-Good :
      (n : ℕ) (t : Table F S) (p : Plane F) (log : List ℕ)
      → Good fl f32 float32 n t p
      → Good fl f32 float32 n t (record p { destroyed = log })
  logged-Good n t p log v = record {
    sound = record {
      size = v.sound.size;
      distinct = v.sound.distinct;
      seated = v.sound.seated;
      counted = v.sound.counted;
    };
    cached = record {
      right =
          λ clean i j s k ls lk. v.cached.right clean i j s k ls lk ∙ sym (resolve_log p log s k);
    };
  }

  -- A half goes, and the entity with its last.
  either-Good :
      (n : ℕ) (t : Table F S) (gone : Bool) (e e' : Entity F) (p : Plane F)
      → Good fl f32 float32 n t p
      → lookup e'.id p.ents ≡ some e
      → e'.slot ≡ e.slot
      → e'.params ≡ e.params
      → e'.id ≡ e.id
      → Good fl f32 float32 n t (if gone then remove_entity e' p else update e' p)
  either-Good n t true e e' p v l slot params named =
      removed-Good fl f32 float32 n t e e' p v.sound l slot
  either-Good n t false e e' p v l slot params named =
      updated-Good fl f32 float32 n t e e' p v l slot params named

  retold-Good :
      (n : ℕ) (t : Table F S) (p q : Plane F)
      → Sound n p
      → q.slots ≡ p.slots
      → q.ents ≡ p.ents
      → Good fl f32 float32 n t (mark_audible_dirty q)
  retold-Good n t p q v slots ents = mark-Good fl f32 float32 n t q (record {
    size = rw slots v.size;
    distinct = rw ents v.distinct;
    seated = rw (slots, ents) v.seated;
    counted = rw (slots, ents) v.counted;
  })

  -- An entity stands under its own id.
  here :
      {n : ℕ} (id : ℕ) (e : Entity F) (p : Plane F)
      → Sound n p
      → lookup id p.ents ≡ some e
      → lookup e.id p.ents ≡ some e
  here id e p v l = ap (λ x. lookup x p.ents) (v.seated id e l).named ∙ l

  source-Good :
      (n : ℕ) (t : Table F S) (e : Entity F) (p : Plane F)
      → Good fl f32 float32 n t p
      → lookup e.id p.ents ≡ some e
      → Good fl f32 float32 n t (detach_source_from e p)
  unfolding detach_source_from
  source-Good n t e p v l =
      either-Good n t (is_none e.sink && is_empty e.ambi_sinks) e (record e { src = none }) p v l
        refl refl refl

  sink-Good :
      (n : ℕ) (t : Table F S) (k : ℕ) (e : Entity F) (p : Plane F)
      → Good fl f32 float32 n t p
      → lookup e.id p.ents ≡ some e
      → Good fl f32 float32 n t (detach_sink_from k e p)
  unfolding detach_sink_from
  sink-Good n t k e p v l =
      either-Good n t (is_none e.src) e (record e { sink = none })
        (record p { destroyed = k ∷ p.destroyed }) (logged-Good n t p (k ∷ p.destroyed) v) l refl
        refl refl

  ambi-Good :
      (n : ℕ) (t : Table F S) (order : ℕ) (e : Entity F) (p : Plane F)
      → Good fl f32 float32 n t p
      → lookup e.id p.ents ≡ some e
      → Good fl f32 float32 n t (detach_ambi_from order e p)
  unfolding detach_ambi_from
  ambi-Good n t order e p v l =
      let rest = delete order e.ambi_sinks in
      let log = some_of (lookup order e.ambi_sinks) ++ p.destroyed in
      either-Good n t (is_none e.src && is_none e.sink && is_empty rest) e
        (record e { ambi_sinks = rest; ambi_enc = if is_empty rest then false else e.ambi_enc })
        (record p { destroyed = log }) (logged-Good n t p log v) l refl refl refl

  -- Running a change.
  pub apply-Good :
      (n : ℕ) (t : Table F S) (c : Change F) (p q : Plane F)
      → Good fl f32 float32 n t p
      → apply fl c p ≡ some q
      → Good fl f32 float32 n t q
  unfolding apply
  apply-Good n t (attach_source id h) p q v e =
      attached-Good fl f32 float32 n id t p q (λ x. record x { src = some h }) (λ x. (refl, refl))
        v.sound e
  apply-Good n t (attach_sink id h) p q v e =
      attached-Good fl f32 float32 n id t p q (λ x. record x { sink = some h }) (λ x. (refl, refl))
        v.sound e
  apply-Good n t (attach_ambi id order h) p q v e =
      attached-Good fl f32 float32 n id t p q
        (λ x. record x { ambi_enc = true; ambi_sinks = put order h x.ambi_sinks })
        (λ x. (refl, refl)) v.sound e
  apply-Good n t (detach_source id) p q v h = elim (Option-cases (lookup id p.ents)) [
    | inl l ↦ let is : p ≡ q = ground (arith, rw (l, apply) at h) in rw (← is) v
    | inr (e, l) ↦ elim (Bool-cases (is_none e.src)) [
      | inl out ↦ absurd (ground (arith, rw (l, apply, out) at h))
      | inr on ↦
          let is : detach_source_from e p ≡ q = ground (arith, rw (l, apply, on) at h) in
          rw (← is) (source-Good n t e p v (here id e p v.sound l))
    ]
  ]
  apply-Good n t (detach_sink id) p q v h = elim (Option-cases (lookup id p.ents)) [
    | inl l ↦ let is : p ≡ q = ground (arith, rw (l, apply) at h) in rw (← is) v
    | inr (e, l) ↦ elim (Option-cases e.sink) [
      | inl out ↦ let is : p ≡ q = ground (arith, rw (l, apply, out) at h) in rw (← is) v
      | inr (k, on) ↦
          let is : detach_sink_from k e p ≡ q = ground (arith, rw (l, apply, on) at h) in
          rw (← is) (sink-Good n t k e p v (here id e p v.sound l))
    ]
  ]
  apply-Good n t (detach_ambi id order) p q v h = elim (Option-cases (lookup id p.ents)) [
    | inl l ↦ let is : p ≡ q = ground (arith, rw (l, apply) at h) in rw (← is) v
    | inr (e, l) ↦
        let is : detach_ambi_from order e p ≡ q = ground (arith, rw (l, apply) at h) in
        rw (← is) (ambi-Good n t order e p v (here id e p v.sound l))
  ]
  apply-Good n t (set_params id w) p q v h = elim (Option-cases (lookup id p.ents)) [
    | inl l ↦ let is : p ≡ q = ground (arith, rw (l, apply) at h) in rw (← is) v
    | inr (e, l) ↦
        let is : mark_audible_dirty (update (record e { params = w }) p) ≡ q =
          ground (arith, rw (l, apply) at h) in
        rw (← is) (
          mark-Good fl f32 float32 n t (update (record e { params = w }) p)
            (update-Sound n e (record e { params = w }) p v.sound (here id e p v.sound l) refl))
  ]
  apply-Good n t (set_channel name w) p q v h =
      let p1 = record p { channel_table = put name w p.channel_table } in
      let is : mark_audible_dirty p1 ≡ q = ground (arith, h) in
      rw (← is) (retold-Good n t p p1 v.sound refl refl)
  apply-Good n t (set_mute listener other on) p q v h =
      let p1 = record p { personal_mutes = set_personal listener other on p.personal_mutes } in
      let is : mark_audible_dirty p1 ≡ q = ground (arith, h) in
      rw (← is) (retold-Good n t p p1 v.sound refl refl)
  apply-Good n t (set_solo listener other on) p q v h =
      let p1 = record p { personal_solos = set_personal listener other on p.personal_solos } in
      let is : mark_audible_dirty p1 ≡ q = ground (arith, h) in
      rw (← is) (retold-Good n t p p1 v.sound refl refl)
  apply-Good n t (set_space_muted id on) p q v h = elim (Option-cases (lookup id p.ents)) [
    | inl l ↦ let is : p ≡ q = ground (arith, rw (l, apply) at h) in rw (← is) v
    | inr (e, l) ↦
        let is : update (record e { space_muted = on }) p ≡ q =
          ground (arith, rw (l, apply) at h) in
        rw (← is) (
          updated-Good fl f32 float32 n t e (record e { space_muted = on }) p v
            (here id e p v.sound l) refl refl refl)
  ]

  -- Draining the queue.
  pub drain-Good :
      (n : ℕ) (t : Table F S) (cs : List (Change F)) (p q : Plane F)
      → Good fl f32 float32 n t p
      → drain_changes fl cs p ≡ some q
      → Good fl f32 float32 n t q
  unfolding drain_changes
  drain-Good n t [] p q v h = let is : p ≡ q = ground (arith, h) in rw (← is) v
  drain-Good n t (c ∷ cs) p q v h = elim (Option-cases (apply fl c p)) [
    | inl l ↦ absurd (ground (arith, rw (l, drain_changes) at h))
    | inr (p1, l) ↦ drain-Good n t cs p1 q (apply-Good n t c p p1 v l) (rw (l, drain_changes) at h)
  ]
