-- ===== src/Engine/Mixer/Calls.antt =====
-- Each call of the control plane against the change that it queues.
use panaudia_lasa.Prelude.{
  ℕ, ◌+◌, ◌-◌, ◌<◌, ◌≡◌, refl, sym, ap, ◌∙◌, inl, inr, Option, none, some, List, [], ◌∷◌, ◌++◌,
  arith, length, Option-cases, Bool, true, false, ◌&&◌, leb, if◌then◌else◌,
}
use panaudia_lasa.Prelude.Float.{Float}
use panaudia_lasa.Prelude.Map.{
  Map, lookup, put, delete, length-put_new, length-put_old, length-delete,
}
use panaudia_lasa.Engine.Plane.{
  Entity, Plane, Change, ensure_entity, mark_audible_dirty, update, remove_entity, is_none,
  is_empty, drain_changes, apply,
}
use panaudia_lasa.Engine.Mixer.{
  RegEntry, Mixer, Refusal, entry_of, admit, vacate, enqueue, if_known,
}
use panaudia_lasa.Engine.Mixer.Agree.{entry, Agrees, update-Agrees, remove-Agrees, attach-Agrees}

module _ {F : Type 0} where
  pub marked-Agrees :
      {n : ℕ} {reg : Map RegEntry} {p : Plane F}
      → Agrees n reg p
      → Agrees n reg (mark_audible_dirty p)
  unfolding mark_audible_dirty
  marked-Agrees v = record {
    sound = record {
      size = v.sound.size;
      distinct = v.sound.distinct;
      seated = v.sound.seated;
      counted = v.sound.counted;
    };
    view = v.view;
    room = v.room;
  }

  pub logged-Agrees :
      {n : ℕ} {reg : Map RegEntry} {p : Plane F} (log : List ℕ)
      → Agrees n reg p
      → Agrees n reg (record p { destroyed = log })
  logged-Agrees log v = record {
    sound = record {
      size = v.sound.size;
      distinct = v.sound.distinct;
      seated = v.sound.seated;
      counted = v.sound.counted;
    };
    view = v.view;
    room = v.room;
  }

  -- An entity that has lost a half stays or goes.
  pub leave-Agrees :
      {n : ℕ} {reg : Map RegEntry} {p : Plane F}
      → Agrees n reg p
      → (id : ℕ) (e e' : Entity F) → lookup id p.ents ≡ some e
      → e'.id ≡ id
      → e'.slot ≡ e.slot
      → (gone : Bool)
      → Agrees n
          (if gone then delete id reg else put id (entry e') reg)
          (if gone then remove_entity e' p else update e' p)
  leave-Agrees v id e e' l named slot true = remove-Agrees v id e e' l named slot
  leave-Agrees v id e e' l named slot false = update-Agrees v id e e' l named slot

-- An Add that is not refused.
unless_refused :
    {A B : Type 0} (P : A → Type 0) (a b c : Bool) (x : A) (r s t : B) (y : A × B)
    → P x
    → (c ≡ false → P y.0)
    → P (if a then (x, r) else if b then (x, s) else if c then (x, t) else y).0
unless_refused P true b c x r s t y px py = px
unless_refused P false true c x r s t y px py = px
unless_refused P false false true x r s t y px py = px
unless_refused P false false false x r s t y px py = py refl

has_room :
    {A : Type 0} (o : Option A) (n k : ℕ) {l : ℕ}
    → o ≡ none
    → (is_none o && leb n k) ≡ false
    → k ≡ l
    → l < n
has_room none n k e h c = ground arith
has_room (some a) n k e h c = absurd (ground arith)

recount :
    (id : ℕ) (r : RegEntry) (reg : Map RegEntry) (k : ℕ)
    → k ≡ length reg
    → (if is_none (lookup id reg) then k + 1 else k) ≡ length (put id r reg)
recount id r reg k h = elim (Option-cases (lookup id reg)) [
  | inl e ↦ rw e (omega (arith, h, length-put_new id r reg e))
  | inr (s, e) ↦ rw e (omega (arith, h, length-put_old id r s reg e))
]

discount :
    (id : ℕ) (r s : RegEntry) (reg : Map RegEntry) (k : ℕ) (gone : Bool)
    → k ≡ length reg
    → lookup id reg ≡ some s
    → (if gone then k - 1 else k) ≡ length (if gone then delete id reg else put id r reg)
discount id r s reg k true h e = omega (arith, h, length-delete id s reg e)
discount id r s reg k false h e = omega (arith, h, length-put_old id r s reg e)

module _ {F : Type 0} (fl : Float F) where
  -- What the audio thread comes to when it has run the queue, and that it does not panic.
  pub record Pending (m : Mixer F) : Type 0 where
    pub ready : Plane F
    pub drained : drain_changes fl m.changes m.plane ≡ some ready
    pub agrees : Agrees m.max_entities m.reg ready
    pub counted : m.entity_count ≡ length m.reg

  drain_empty : (p q : Plane F) → drain_changes fl [] p ≡ some q → p ≡ q
  unfolding drain_changes
  drain_empty p q d = ground arith

  drain_step :
      (c : Change F) (cs : List (Change F)) (p q : Plane F)
      → apply fl c p ≡ some q
      → drain_changes fl (c ∷ cs) p ≡ drain_changes fl cs q
  unfolding drain_changes
  drain_step c cs p q e = rw (drain_changes, e) refl

  drain_panic :
      (c : Change F) (cs : List (Change F)) (p : Plane F)
      → apply fl c p ≡ none
      → drain_changes fl (c ∷ cs) p ≡ none
  unfolding drain_changes
  drain_panic c cs p e = rw (drain_changes, e) refl

  drain_nothing : (p : Plane F) → drain_changes fl [] p ≡ some p
  unfolding drain_changes
  drain_nothing p = refl

  pub drain_one :
      (cs : List (Change F)) (c : Change F) (p q r : Plane F)
      → drain_changes fl cs p ≡ some q
      → apply fl c q ≡ some r
      → drain_changes fl (cs ++ (c ∷ [])) p ≡ some r
  drain_one [] c p q r d a =
      drain_step c [] p r (ap (apply fl c) (drain_empty p q d) ∙ a) ∙ drain_nothing r
  drain_one (b ∷ cs) c p q r d a = elim (Option-cases (apply fl b p)) [
    | inl e ↦ absurd (ground (arith, drain_panic b cs p e, d))
    | inr (p', e) ↦
        drain_step b (cs ++ (c ∷ [])) p p' e
        ∙ drain_one cs c p' q r (sym (drain_step b cs p p' e) ∙ d) a
  ]

  -- A queued change that keeps the registry.
  pub queued-Pending :
      (c : Change F) (m : Mixer F)
      → ((p : Plane F)
          → Agrees m.max_entities m.reg p
          → (q : Plane F) × (apply fl c p ≡ some q) × Agrees m.max_entities m.reg q)
      → Pending m
      → Pending (enqueue c m)
  queued-Pending c m runs v =
      let (q, a, w) = runs v.ready v.agrees in
      record {
        ready = q;
        drained = drain_one m.changes c m.plane v.ready q v.drained a;
        agrees = w;
        counted = v.counted;
      }

  pub if_known-Pending :
      (id : ℕ) (c : Change F) (m : Mixer F)
      → ((p : Plane F)
          → Agrees m.max_entities m.reg p
          → (q : Plane F) × (apply fl c p ≡ some q) × Agrees m.max_entities m.reg q)
      → Pending m
      → Pending (if_known id c m).0
  if_known-Pending id c m runs v = elim (Option-cases (lookup id m.reg)) [
    | inl e ↦ rw (if_known, e) v
    | inr (r, e) ↦ rw (if_known, e) (queued-Pending c m runs v)
  ]

  -- An Add whose change attaches `g` to the entity.
  pub admit-Pending :
      (id : ℕ) (busy : Bool) (twice : Refusal) (f : RegEntry → RegEntry) (c : Change F)
      (g : Entity F → Entity F) (m : Mixer F)
      → ((e : Entity F) → (entry (g e) ≡ f (entry e)) × ((g e).id ≡ e.id) × ((g e).slot ≡ e.slot))
      → ((p p1 : Plane F) (e : Entity F)
          → ensure_entity fl id p ≡ some (p1, e)
          → apply fl c p ≡ some (mark_audible_dirty (update (g e) p1)))
      → Pending m
      → Pending (admit id busy twice f c m).0
  admit-Pending id busy twice f c g m same runs v =
      let re = lookup id m.reg in
      unless_refused Pending m.closed busy (is_none re && leb m.max_entities m.entity_count) m _ _ _
        _ v
        (λ ok.
          let room : re ≡ none → length m.reg < m.max_entities =
            λ l. has_room re m.max_entities m.entity_count l ok v.counted in
          let (p1, e, ran, w) = attach-Agrees fl v.agrees id g f same room in
          record {
            ready = mark_audible_dirty (update (g e) p1);
            drained =
                drain_one m.changes c m.plane v.ready (mark_audible_dirty (update (g e) p1))
                  v.drained (runs v.ready p1 e ran);
            agrees = marked-Agrees w;
            counted = recount id (f (entry_of re)) m.reg m.entity_count v.counted;
          })

  -- A Remove that takes a half from the entity `e`, as its change does on the audio thread.
  pub vacate-Pending :
      (id : ℕ) (r : RegEntry) (c : Change F) (m : Mixer F)
      → ((p : Plane F)
          → Agrees m.max_entities m.reg p
          → (q : Plane F) × (apply fl c p ≡ some q)
            × (let gone = is_none r.src && is_none r.sink && is_empty r.ambi in
                Agrees m.max_entities (if gone then delete id m.reg else put id r m.reg) q))
      → (s : RegEntry) → lookup id m.reg ≡ some s
      → Pending m
      → Pending (vacate id r c m)
  vacate-Pending id r c m runs s l v =
      let (q, a, w) = runs v.ready v.agrees in
      record {
        ready = q;
        drained = drain_one m.changes c m.plane v.ready q v.drained a;
        agrees = w;
        counted =
            discount id r s m.reg m.entity_count
              (is_none r.src && is_none r.sink && is_empty r.ambi) v.counted l;
      }
