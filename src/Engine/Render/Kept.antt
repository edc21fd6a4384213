-- ===== src/Engine/Render/Kept.antt =====
-- A change either asks for the pair record to be rebuilt or leaves every pair as it was.
use panaudia_lasa.Prelude.{
  ℕ, suc, ◌≡◌, refl, sym, ap, ◌∙◌, inl, inr, true, false, Option, none, some, List, [], ◌∷◌, arith,
  Option-cases, get_elem?,
}
use panaudia_lasa.Prelude.Float.{Float}
use panaudia_lasa.Prelude.Map.{Map, lookup, put, lookup-put}
use panaudia_lasa.Engine.Params.{RenderParams}
use panaudia_lasa.Engine.Plane.{
  Entity, Plane, ensure_entity, free_slot, new_entity, update, remove_entity, mark_audible_dirty,
}
use panaudia_lasa.Engine.Plane.Sound.{Sound, update-Sound, remove_entity-Sound, put_cases}
use panaudia_lasa.Engine.Plane.Ensure.{admitted, admitted-Sound}
use panaudia_lasa.Engine.Channels.{resolve_pair, gain_factor, peer_attenuation_exponent, personal}
use panaudia_lasa.Engine.Render.{Table}

free_slot-free : (xs : List (Option ℕ)) (i : ℕ) → free_slot xs ≡ some i → get_elem? xs i ≡ some none
free_slot-free [] i e = absurd (ground (arith, e))
free_slot-free (none ∷ xs) i e = let it : 0 ≡ i = ground (arith, e) in rw (← it) refl
free_slot-free (some k ∷ xs) i e = elim (Option-cases (free_slot xs)) [
  | inl l ↦ absurd (ground (arith, rw l at e))
  | inr (j, l) ↦ let it : suc j ≡ i = ground (arith, rw l at e) in rw (← it) (free_slot-free xs j l)
]

module _ {F S : Type 0} (fl : Float F) (f32 : Float S) (float32 : F → S) where
  -- Unless it is to be rebuilt, the record is right for every two entities.
  pub record Cached (p : Plane F) (t : Table F S) : Type 0 where
    pub right :
        p.audible_dirty ≡ false
        → (i j : ℕ) (s k : Entity F) → lookup i p.ents ≡ some s
        → lookup j p.ents ≡ some k
        → t k.slot s.slot ≡ resolve_pair fl f32 float32 p s k

  pub dirty-Cached : (p : Plane F) (t : Table F S) → p.audible_dirty ≡ true → Cached p t
  dirty-Cached p t d = record { right = λ c. absurd (ground (arith, d, c)) }

  -- resolvePair reads the parameters and the ids of its entities.
  bare : RenderParams F → ℕ → Entity F
  bare params id = record {
    id = id;
    slot = 0;
    src = none;
    sink = none;
    params = params;
    ambi_enc = false;
    ambi_sinks = [];
    space_muted = false;
  }

  resolve_bare :
      (p : Plane F) (ents : Map (Entity F)) (s k : Entity F)
      → resolve_pair fl f32 float32 (record p { ents = ents }) s k
        ≡ resolve_pair fl f32 float32 p (bare s.params s.id) (bare k.params k.id)
  unfolding resolve_pair personal gain_factor peer_attenuation_exponent bare
  resolve_bare p ents s k = refl

  resolve_alike :
      (p : Plane F) (ents : Map (Entity F)) (s s0 k k0 : Entity F)
      → s.params ≡ s0.params
      → s.id ≡ s0.id
      → k.params ≡ k0.params
      → k.id ≡ k0.id
      → resolve_pair fl f32 float32 (record p { ents = ents }) s k
        ≡ resolve_pair fl f32 float32 p s0 k0
  resolve_alike p ents s s0 k k0 ps is pk ik =
      let source : bare s.params s.id ≡ bare s0.params s0.id = cc (ps, is) in
      let listener : bare k.params k.id ≡ bare k0.params k0.id = cc (pk, ik) in
      resolve_bare p ents s k
      ∙ ap (λ x. resolve_pair fl f32 float32 p x (bare k.params k.id)) source
      ∙ ap (resolve_pair fl f32 float32 p (bare s0.params s0.id)) listener
      ∙ sym (resolve_bare p p.ents s0 k0)

  -- An entity changed in place, of which the pairs read nothing that is new.
  alike :
      (e e' : Entity F) (p : Plane F)
      → lookup e'.id p.ents ≡ some e
      → e'.slot ≡ e.slot
      → e'.params ≡ e.params
      → e'.id ≡ e.id
      → (i : ℕ) (s : Entity F) → lookup i (put e'.id e' p.ents) ≡ some s
      → (s0 : Entity F) × (lookup i p.ents ≡ some s0)
        × (s.slot ≡ s0.slot)
        × (s.params ≡ s0.params)
        × (s.id ≡ s0.id)
  alike e e' p l slot params named i s g = elim (put_cases e'.id i e' s p.ents g) [
    | inl (at, is) ↦ (
      e,
      ap (λ x. lookup x p.ents) at ∙ l,
      ap (λ x. x.slot) {x = s} {y = e'} is ∙ slot,
      ap (λ x. x.params) {x = s} {y = e'} is ∙ params,
      ap (λ x. x.id) {x = s} {y = e'} is ∙ named,
    )
    | inr (ne, old) ↦ (s, old, refl, refl, refl)
  ]

  update-Cached :
      (e e' : Entity F) (p : Plane F) (t : Table F S)
      → lookup e'.id p.ents ≡ some e
      → e'.slot ≡ e.slot
      → e'.params ≡ e.params
      → e'.id ≡ e.id
      → Cached p t
      → Cached (update e' p) t
  update-Cached e e' p t l slot params named v = record {
    right = λ clean i j s k ls lk.
        let (s0, ls0, ss, ps, is) = alike e e' p l slot params named i s ls in
        let (k0, lk0, sk, pk, ik) = alike e e' p l slot params named j k lk in
        ap (λ x. t x s.slot) sk
        ∙ ap (λ x. t k0.slot x) ss
        ∙ v.right clean i j s0 k0 ls0 lk0
        ∙ sym (resolve_alike p (put e'.id e' p.ents) s s0 k k0 ps is pk ik);
  }

  -- What every change keeps.
  pub record Good (n : ℕ) (t : Table F S) (p : Plane F) : Type 0 where
    pub sound : Sound n p
    pub cached : Cached p t

  mark_dirty : (p : Plane F) → (mark_audible_dirty p).audible_dirty ≡ true
  unfolding mark_audible_dirty
  mark_dirty p = refl

  remove_dirty : (e : Entity F) (p : Plane F) → (remove_entity e p).audible_dirty ≡ true
  unfolding remove_entity mark_audible_dirty
  remove_dirty e p = refl

  mark-Sound : (n : ℕ) (p : Plane F) → Sound n p → Sound n (mark_audible_dirty p)
  unfolding mark_audible_dirty
  mark-Sound n p v = record {
    size = v.size;
    distinct = v.distinct;
    seated = v.seated;
    counted = v.counted;
  }

  pub mark-Good :
      (n : ℕ) (t : Table F S) (p : Plane F) → Sound n p → Good n t (mark_audible_dirty p)
  mark-Good n t p v = record {
    sound = mark-Sound n p v;
    cached = dirty-Cached (mark_audible_dirty p) t (mark_dirty p);
  }

  pub removed-Good :
      (n : ℕ) (t : Table F S) (e e' : Entity F) (p : Plane F)
      → Sound n p
      → lookup e'.id p.ents ≡ some e
      → e'.slot ≡ e.slot
      → Good n t (remove_entity e' p)
  removed-Good n t e e' p v l slot = record {
    sound = remove_entity-Sound n e e' p v l slot;
    cached = dirty-Cached (remove_entity e' p) t (remove_dirty e' p);
  }

  pub updated-Good :
      (n : ℕ) (t : Table F S) (e e' : Entity F) (p : Plane F)
      → Good n t p
      → lookup e'.id p.ents ≡ some e
      → e'.slot ≡ e.slot
      → e'.params ≡ e.params
      → e'.id ≡ e.id
      → Good n t (update e' p)
  updated-Good n t e e' p v l slot params named = record {
    sound = update-Sound n e e' p v.sound l slot;
    cached = update-Cached e e' p t l slot params named v.cached;
  }

  -- An entity that is there, or a new one.
  ensure-Sound :
      (n id : ℕ) (p q : Plane F) (e : Entity F)
      → Sound n p
      → ensure_entity fl id p ≡ some (q, e)
      → Sound n q × (lookup e.id q.ents ≡ some e)
  unfolding ensure_entity
  ensure-Sound n id p q e v h = elim (Option-cases (lookup id p.ents)) [
    | inr (f, l) ↦
        let same : some (p, f) ≡ some (q, e) = rw (l, ensure_entity) at h in
        let is_q : p ≡ q = ground (arith, same) in
        let is_e : f ≡ e = ground (arith, same) in
        rw (← is_q, ← is_e) (v, ap (λ x. lookup x p.ents) (v.seated id f l).named ∙ l)
    | inl l ↦ elim (Option-cases (free_slot p.slots)) [
      | inl full ↦ absurd (ground (arith, rw (l, full, ensure_entity) at h))
      | inr (i, free) ↦
          let same : some (admitted fl id i p, new_entity fl id i) ≡ some (q, e) =
            rw (l, free, ensure_entity) at h in
          let is_q : admitted fl id i p ≡ q = ground (arith, same) in
          let is_e : new_entity fl id i ≡ e = ground (arith, same) in
          rw (← is_q, ← is_e)
            (
              admitted-Sound fl n id i p v l (free_slot-free p.slots i free),
              lookup-put id (new_entity fl id i) p.ents,
            )
    ]
  ]

  pub attached-Good :
      (n id : ℕ) (t : Table F S) (p q : Plane F) (change : Entity F → Entity F)
      → ((e : Entity F) → ((change e).id ≡ e.id) × ((change e).slot ≡ e.slot))
      → Sound n p
      → (elim (ensure_entity fl id p) as (λ x. Option (Plane F)) [
        | none ↦ none
        | some (p1, e) ↦ some (mark_audible_dirty (update (change e) p1))
      ])
        ≡ some q
      → Good n t q
  attached-Good n id t p q change keeps v h = elim (Option-cases (ensure_entity fl id p)) [
    | inl l ↦ absurd (ground (arith, rw l at h))
    | inr ((p1, e), l) ↦
        let (v1, at_e) = ensure-Sound n id p p1 e v l in
        let (named, slot) = keeps e in
        let is : mark_audible_dirty (update (change e) p1) ≡ q = ground (arith, rw l at h) in
        rw (← is) (
          mark-Good n t (update (change e) p1)
            (update-Sound n e (change e) p1 v1 (ap (λ x. lookup x p1.ents) named ∙ at_e) slot))
  ]
