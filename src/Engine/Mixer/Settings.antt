-- ===== src/Engine/Mixer/Settings.antt =====
-- The new mixer, a tick, each Add and each setting keep the queue in step with the registry.
use mathlib.Core.Path.{subst}
use panaudia_lasa.Prelude.{
  ℕ, ◌≡◌, refl, sym, ap, ◌∙◌, inl, inr, none, some, [], arith, Option-cases, Bool, true, Bool-cases,
  ◌||◌, ltb, length-replicate,
}
use panaudia_lasa.Prelude.Float.{Float}
use panaudia_lasa.Prelude.Map.{Map, lookup, put, values, Distinct, put_same}
use panaudia_lasa.Engine.Params.{RenderParams, ChannelParams}
use panaudia_lasa.Engine.Plane.{
  Entity, Plane, Change, attach_source, attach_sink, attach_ambi, set_params, set_channel, set_mute,
  set_solo, set_space_muted, mark_audible_dirty, update, drain_changes, apply, set_personal,
}
use panaudia_lasa.Engine.Plane.Slots.{taken-replicate}
use panaudia_lasa.Engine.Mixer.{
  RegEntry, Mixer, entry_of, enqueue, present, add_source, add_sink, add_ambi_sink,
  set_channel_params, set_personal_mute, set_personal_solo, new_mixer, drain, err_duplicate_source,
  err_duplicate_sink,
}
use panaudia_lasa.Engine.Mixer.Agree.{entry, entry_of_found, Agrees, update-Agrees}
use panaudia_lasa.Engine.Mixer.Calls.{Pending, marked-Agrees, queued-Pending, admit-Pending}

module _ {F : Type 0} (fl : Float F) where
  pub new_mixer-Pending : (n order : ℕ) → Pending fl (new_mixer n order)
  unfolding new_mixer drain_changes values Distinct lookup
  new_mixer-Pending n order = record {
    ready = (new_mixer n order).plane;
    drained = refl;
    agrees = record {
      sound = record {
        size = length-replicate n none;
        distinct = _;
        seated = λ id e l. absurd (ground (arith, l));
        counted = taken-replicate n;
      };
      view = refl;
      room = omega arith;
    };
    counted = refl;
  }

  pub drain_is :
      (m : Mixer F) (p : Plane F)
      → drain_changes fl m.changes m.plane ≡ some p
      → drain fl m ≡ some (record m { changes = []; plane = p })
  unfolding drain
  drain_is m p d = rw (drain, d) refl

  drain_nothing : (p : Plane F) → drain_changes fl [] p ≡ some p
  unfolding drain_changes
  drain_nothing p = refl

  drained-Pending :
      (m : Mixer F) (v : Pending fl m) → Pending fl (record m { changes = []; plane = v.ready })
  drained-Pending m v = record {
    ready = v.ready;
    drained = drain_nothing v.ready;
    agrees = v.agrees;
    counted = v.counted;
  }

  pub drain-Pending : (m m' : Mixer F) → drain fl m ≡ some m' → Pending fl m → Pending fl m'
  drain-Pending m m' e v =
      let same : record m { changes = []; plane = v.ready } ≡ m' =
        ground (arith, drain_is m v.ready v.drained, e) in
      subst (Pending fl) same (drained-Pending m v)

  pub add_source-Pending :
      (id h : ℕ) (m : Mixer F) → Pending fl m → Pending fl (add_source id h m).0
  unfolding add_source apply
  add_source-Pending id h m v =
      admit-Pending fl id (present (entry_of (lookup id m.reg)).src) err_duplicate_source
        (λ e. record e { src = some h }) (attach_source id h) (λ e. record e { src = some h }) m
        (λ e. (refl, refl, refl)) (λ p p1 e ran. rw (apply, ran) refl) v

  pub add_sink-Pending : (id h : ℕ) (m : Mixer F) → Pending fl m → Pending fl (add_sink id h m).0
  unfolding add_sink apply
  add_sink-Pending id h m v =
      admit-Pending fl id (present (entry_of (lookup id m.reg)).sink) err_duplicate_sink
        (λ e. record e { sink = some h }) (attach_sink id h) (λ e. record e { sink = some h }) m
        (λ e. (refl, refl, refl)) (λ p p1 e ran. rw (apply, ran) refl) v

  pub add_ambi_sink-Pending :
      (id order h : ℕ) (m : Mixer F) → Pending fl m → Pending fl (add_ambi_sink id order h m).0
  unfolding add_ambi_sink apply
  add_ambi_sink-Pending id order h m v =
      elim (Bool-cases (ltb order 2 || ltb 3 order || ltb m.order order)) [
        | inl out ↦ rw (add_ambi_sink, out) v
        | inr fine ↦
            rw (add_ambi_sink, fine)
              (admit-Pending fl id (present (lookup order (entry_of (lookup id m.reg)).ambi))
                err_duplicate_sink (λ e. record e { ambi = put order h e.ambi })
                (attach_ambi id order h)
                (λ e. record e { ambi_enc = true; ambi_sinks = put order h e.ambi_sinks }) m
                (λ e. (refl, refl, refl)) (λ p p1 e ran. rw (apply, ran) refl) v)
      ]

  -- A change of an entity that the registry does not see.
  unseen :
      {n : ℕ} {reg : Map RegEntry} {p : Plane F}
      → Agrees n reg p
      → (id : ℕ) (e e' : Entity F) → lookup id p.ents ≡ some e
      → e'.id ≡ e.id
      → e'.slot ≡ e.slot
      → entry e' ≡ entry e
      → Agrees n reg (update e' p)
  unseen {n} {reg} {p} v id e e' l same_id slot same =
      let at = entry_of_found v id e l in
      let eq : put id (entry e') reg ≡ reg = put_same id (entry e') reg (at ∙ ap some (sym same)) in
      subst (λ r. Agrees n r (update e' p)) eq
        (update-Agrees v id e e' l (same_id ∙ (v.sound.seated id e l).named) slot)

  pub params_run :
      (id : ℕ) (w : RenderParams F) (n : ℕ) (reg : Map RegEntry) (p : Plane F)
      → Agrees n reg p
      → (q : Plane F) × (apply fl (set_params id w) p ≡ some q) × Agrees n reg q
  unfolding apply
  params_run id w n reg p v = elim (Option-cases (lookup id p.ents)) [
    | inl l ↦ (p, rw (apply, l) refl, v)
    | inr (e, l) ↦ (
      mark_audible_dirty (update (record e { params = w }) p),
      rw (apply, l) refl,
      marked-Agrees (unseen v id e (record e { params = w }) l refl refl refl),
    )
  ]

  pub muted_run :
      (id : ℕ) (on : Bool) (n : ℕ) (reg : Map RegEntry) (p : Plane F)
      → Agrees n reg p
      → (q : Plane F) × (apply fl (set_space_muted id on) p ≡ some q) × Agrees n reg q
  unfolding apply
  muted_run id on n reg p v = elim (Option-cases (lookup id p.ents)) [
    | inl l ↦ (p, rw (apply, l) refl, v)
    | inr (e, l) ↦ (
      update (record e { space_muted = on }) p,
      rw (apply, l) refl,
      unseen v id e (record e { space_muted = on }) l refl refl refl,
    )
  ]

  -- A change of the policy tables.
  policy :
      {n : ℕ} {reg : Map RegEntry} {p q : Plane F}
      → Agrees n reg p
      → q.ents ≡ p.ents
      → q.slots ≡ p.slots
      → Agrees n reg q
  policy v same_ents same_slots = record {
    sound = record {
      size = rw same_slots v.sound.size;
      distinct = rw same_ents v.sound.distinct;
      seated = rw (same_ents, same_slots) v.sound.seated;
      counted = rw (same_ents, same_slots) v.sound.counted;
    };
    view = rw same_ents v.view;
    room = v.room;
  }

  policy_run :
      (c : Change F) (q : Plane F → Plane F)
      → ((p : Plane F) → apply fl c p ≡ some (q p))
      → ((p : Plane F) → ((q p).ents ≡ p.ents) × ((q p).slots ≡ p.slots))
      → (m : Mixer F) → Pending fl m
      → Pending fl (enqueue c m)
  policy_run c q runs same m v =
      queued-Pending fl c m (λ p a. (q p, runs p, policy a (same p).0 (same p).1)) v

  pub sets_channel-Pending :
      (name : ℕ) (w : ChannelParams F) (m : Mixer F)
      → Pending fl m
      → Pending fl (set_channel_params name w m)
  unfolding set_channel_params apply mark_audible_dirty
  sets_channel-Pending name w m v =
      policy_run (set_channel name w)
        (λ p. mark_audible_dirty (record p { channel_table = put name w p.channel_table }))
        (λ p. refl) (λ p. (refl, refl)) m v

  pub sets_mute-Pending :
      (listener other : ℕ) (on : Bool) (m : Mixer F)
      → Pending fl m
      → Pending fl (set_personal_mute listener other on m)
  unfolding set_personal_mute apply mark_audible_dirty
  sets_mute-Pending listener other on m v =
      policy_run (set_mute listener other on)
        (λ p.
          mark_audible_dirty
            (record p { personal_mutes = set_personal listener other on p.personal_mutes }))
        (λ p. refl) (λ p. (refl, refl)) m v

  pub sets_solo-Pending :
      (listener other : ℕ) (on : Bool) (m : Mixer F)
      → Pending fl m
      → Pending fl (set_personal_solo listener other on m)
  unfolding set_personal_solo apply mark_audible_dirty
  sets_solo-Pending listener other on m v =
      policy_run (set_solo listener other on)
        (λ p.
          mark_audible_dirty
            (record p { personal_solos = set_personal listener other on p.personal_solos }))
        (λ p. refl) (λ p. (refl, refl)) m v
