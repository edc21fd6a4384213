-- ===== src/Engine/Mixer/Leaves.antt =====
-- Each Remove against the change that it queues.
use mathlib.Core.Path.{subst}
use panaudia_lasa.Prelude.{
  ℕ, ◌≡◌, refl, sym, ap, ◌∙◌, inl, inr, none, some, ◌∷◌, ◌++◌, arith, Option-cases, Bool, false,
  Bool-cases, not, ◌&&◌, if◌then◌else◌,
}
use panaudia_lasa.Prelude.Float.{Float}
use panaudia_lasa.Prelude.Map.{Map, lookup, put, delete}
use panaudia_lasa.Engine.Plane.{
  Entity, Plane, Change, detach_source, detach_sink, detach_ambi, remove_entity, is_none, is_empty,
  apply, detach_source_from, detach_sink_from, detach_ambi_from, some_of,
}
use panaudia_lasa.Engine.Mixer.{
  RegEntry, Mixer, entry_of, remove_source, remove_sink, remove_ambi_sink,
}
use panaudia_lasa.Engine.Mixer.Agree.{entry, Agrees, found}
use panaudia_lasa.Engine.Mixer.Calls.{Pending, logged-Agrees, leave-Agrees, vacate-Pending}

-- Whether nothing is left of an entry.
abbrev pub vacant : RegEntry → Bool
vacant r = is_none r.src && is_none r.sink && is_empty r.ambi

abbrev pub leaving : ℕ → RegEntry → Map RegEntry → Map RegEntry
leaving id r reg = if vacant r then delete id reg else put id r reg

-- A sink whose entity has a source, or no ambisonic sink.
abbrev pub Spared : RegEntry → Type 0
Spared r = (is_none r.src && not (is_empty r.ambi)) ≡ false

module _ {F : Type 0} (fl : Float F) where
  -- What a change does to the entity `e` that it finds, the registry's entry going from `r` to `s`.
  abbrev Takes : Change F → ℕ → RegEntry → Map RegEntry → ℕ → Plane F → Type 0
  Takes c id s reg n p = (q : Plane F) × (apply fl c p ≡ some q) × Agrees n (leaving id s reg) q

  source_leaves :
      {n : ℕ} {reg : Map RegEntry} {p : Plane F}
      → Agrees n reg p
      → (id : ℕ) (e : Entity F) → lookup id p.ents ≡ some e
      → e.id ≡ id
      → is_none e.src ≡ false
      → Takes (detach_source id) id (record (entry e) { src = none }) reg n p
  unfolding detach_source_from apply remove_entity put
  source_leaves {p = p} v id e l named held = (
    detach_source_from e p,
    rw (apply, l, held) refl,
    leave-Agrees v id e (record e { src = none }) l named refl
        (is_none e.sink && is_empty e.ambi_sinks),
  )

  sink_leaves :
      {n : ℕ} {reg : Map RegEntry} {p : Plane F}
      → Agrees n reg p
      → (id k : ℕ) (e : Entity F) → lookup id p.ents ≡ some e
      → e.id ≡ id
      → e.sink ≡ some k
      → Spared (entry e)
      → Takes (detach_sink id) id (record (entry e) { sink = none }) reg n p
  unfolding detach_sink_from apply
  sink_leaves {p = p} v id k e l named held spared =
      let w = logged-Agrees (k ∷ p.destroyed) v in
      let gone : vacant (record (entry e) { sink = none }) ≡ is_none e.src =
        ground (arith, spared) in
      (
        detach_sink_from k e p,
        rw (apply, l, held) refl,
        rw gone (leave-Agrees w id e (record e { sink = none }) l named refl (is_none e.src)),
      )

  ambi_leaves :
      {n : ℕ} {reg : Map RegEntry} {p : Plane F}
      → Agrees n reg p
      → (id order : ℕ) (e : Entity F) → lookup id p.ents ≡ some e
      → e.id ≡ id
      → Takes
          (detach_ambi id order)
          id
          (record (entry e) { ambi = delete order e.ambi_sinks })
          reg
          n
          p
  unfolding detach_ambi_from apply delete remove_entity put lookup
  ambi_leaves {p = p} v id order e l named =
      let w = logged-Agrees (some_of (lookup order e.ambi_sinks) ++ p.destroyed) v in
      let rest = delete order e.ambi_sinks in
      let e' = record e {
        ambi_sinks = rest;
        ambi_enc = if is_empty rest then false else e.ambi_enc;
      } in
      (
        detach_ambi_from order e p,
        rw (apply, l) refl,
        leave-Agrees w id e e' l named refl (is_none e.src && is_none e.sink && is_empty rest),
      )

  pub remove_source-Pending :
      (id : ℕ) (m : Mixer F) → Pending fl m → Pending fl (remove_source id m)
  unfolding remove_source
  remove_source-Pending id m v = elim (Option-cases (lookup id m.reg)) [
    | inl l ↦ rw (remove_source, l) v
    | inr (r, l) ↦ elim (Bool-cases (is_none r.src)) [
      | inl bare ↦ rw (remove_source, l, bare) v
      | inr held ↦
          let s = record r { src = none } in
          rw (remove_source, l, held)
            (vacate-Pending fl id s (detach_source id) m
              (λ p a.
                let (e, f, is, named) = found a id r l in
                subst
                  (λ t.
                    Takes (detach_source id) id (record t { src = none }) m.reg m.max_entities p)
                  is (source_leaves a id e f named (ap (λ t. is_none t.src) is ∙ held)))
              r l v)
    ]
  ]

  pub remove_sink-Pending :
      (id : ℕ) (m : Mixer F)
      → Spared (entry_of (lookup id m.reg))
      → Pending fl m
      → Pending fl (remove_sink id m)
  unfolding remove_sink
  remove_sink-Pending id m spared v = elim (Option-cases (lookup id m.reg)) [
    | inl l ↦ rw (remove_sink, l) v
    | inr (r, l) ↦ elim (Option-cases r.sink) [
      | inl bare ↦ rw (remove_sink, l, bare) v
      | inr (k, held) ↦
          let s = record r { sink = none } in
          let kept : Spared r = subst Spared (ap entry_of l) spared in
          rw (remove_sink, l, held)
            (vacate-Pending fl id s (detach_sink id) m
              (λ p a.
                let (e, f, is, named) = found a id r l in
                subst
                  (λ t. Takes (detach_sink id) id (record t { sink = none }) m.reg m.max_entities p)
                  is
                  (sink_leaves a id k e f named (ap (λ t. t.sink) is ∙ held)
                    (subst Spared (sym is) kept)))
              r l v)
    ]
  ]

  pub remove_ambi_sink-Pending :
      (id order : ℕ) (m : Mixer F) → Pending fl m → Pending fl (remove_ambi_sink id order m)
  unfolding remove_ambi_sink
  remove_ambi_sink-Pending id order m v = elim (Option-cases (lookup id m.reg)) [
    | inl l ↦ rw (remove_ambi_sink, l) v
    | inr (r, l) ↦ elim (Bool-cases (is_none (lookup order r.ambi))) [
      | inl bare ↦ rw (remove_ambi_sink, l, bare) v
      | inr held ↦
          let s = record r { ambi = delete order r.ambi } in
          rw (remove_ambi_sink, l, held)
            (vacate-Pending fl id s (detach_ambi id order) m
              (λ p a.
                let (e, f, is, named) = found a id r l in
                subst
                  (λ t.
                    Takes (detach_ambi id order) id (record t { ambi = delete order t.ambi }) m.reg
                      m.max_entities p)
                  is (ambi_leaves a id order e f named))
              r l v)
    ]
  ]
