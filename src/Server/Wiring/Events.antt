-- ===== src/Server/Wiring/Events.antt =====
-- Through every observed operation, a marker of another entity and a tick, the audio thread keeps to
-- the derived state.
use mathlib.Core.Path.{subst}
use panaudia_lasa.Prelude.{
  ℕ, ◌≡◌, ◌≢◌, refl, sym, ap, ◌∙◌, inl, inr, Bool, true, false, none, some, [], arith, ◌==◌,
  Bool-cases, Option-cases,
}
use panaudia_lasa.Prelude.Float.{Float}
use panaudia_lasa.Prelude.Map.{Map, lookup, put, lookup-put, lookup-put_ne, lookup-delete_ne}
use panaudia_lasa.Engine.Params.{ChannelParams, default_channel_params}
use panaudia_lasa.Engine.Plane.{
  Plane, Change, apply, drain_changes, mark_audible_dirty, set_channel, set_mute, set_solo,
}
use panaudia_lasa.Engine.Mixer.{
  Mixer, enqueue, set_channel_params, set_personal_mute, set_personal_solo, drain,
}
use panaudia_lasa.Engine.Mixer.Calls.{drain_one}
use panaudia_lasa.Engine.Mixer.Settings.{drain_is}
use panaudia_lasa.Server.State.{Host}
use panaudia_lasa.Server.Wiring.{
  Event, entity_render, channel_membership, entity_muted, channel_muted, channel_gain,
  channel_attenuation, personal_mute, personal_solo, dof_value, other_event, ProfileDefaults,
  channel_update, set_dof, on_event, on_marker, set_field, set_membership,
}
use panaudia_lasa.Server.Wiring.Follows.{Follows, update-Follows, mute-Follows}

put-same :
    {F : Type 0} (c x : ℕ) (a : ChannelParams F) (s t : Map (ChannelParams F))
    → lookup x s ≡ lookup x t
    → lookup x (put c a s) ≡ lookup x (put c a t)
put-same c x a s t e = elim (Bool-cases (c == x)) [
  | inl eq ↦
      let it : c ≡ x = ground (arith, eq) in
      ap (λ i. lookup i (put c a s)) (sym it)
      ∙ lookup-put c a s
      ∙ sym (ap (λ i. lookup i (put c a t)) (sym it) ∙ lookup-put c a t)
  | inr ne ↦
      lookup-put_ne x c a s (ground (arith, ne))
      ∙ e
      ∙ sym (lookup-put_ne x c a t (ground (arith, ne)))
]

module _ {F : Type 0} (fl : Float F) where
  nothing_left : (p : Plane F) → drain_changes fl [] p ≡ some p
  unfolding drain_changes
  nothing_left p = refl

module _ {F S : Type 0} (fl : Float F) where
  dof-same :
      (id dof : ℕ) (h : Host F S)
      → ((set_dof id dof h).mixer ≡ h.mixer) × ((set_dof id dof h).wiring ≡ h.wiring)
  unfolding set_dof
  dof-same id dof h = elim (Option-cases (lookup id h.backend.entities)) [
    | inl e ↦ rw (e, set_dof) (refl, refl)
    | inr (r, e) ↦ elim (Option-cases (lookup r h.backend.recs)) [
      | inl l ↦ rw (e, l, set_dof) (refl, refl)
      | inr (rec, l) ↦ rw (e, l, set_dof) (refl, refl)
    ]
  ]

  -- Only the mixer and the wiring count.
  of_parts :
      (id : ℕ) {h h' : Host F S}
      → h'.mixer ≡ h.mixer
      → h'.wiring ≡ h.wiring
      → Follows fl id h
      → Follows fl id h'
  of_parts id m w v = record {
    plane = v.plane;
    runs = rw m v.runs;
    names = v.names;
    entity = v.entity;
    there = v.there;
    derived = v.derived;
    marked = rw w v.marked;
    params = v.params;
    mute = rw w v.mute;
    held = rw m v.held;
    table = λ c. rw w (v.table c);
  }

  -- A queued change that leaves the entities.
  aside :
      (id : ℕ) (c : Change F) (q : Plane F) (h : Host F S) (channels : Map (ChannelParams F))
      → (v : Follows fl id h) → apply fl c v.plane ≡ some q
      → q.ents ≡ v.plane.ents
      → ((x : ℕ) → lookup x q.channel_table ≡ lookup x channels)
      → Follows fl id
          (record h { mixer = enqueue c h.mixer; wiring = record h.wiring { channels = channels } })
  aside id c q h channels v run ents table = record {
    plane = q;
    runs = drain_one fl h.mixer.changes c h.mixer.plane v.plane q v.runs run;
    names = λ j e l. v.names j e (ap (lookup j) (sym ents) ∙ l);
    entity = v.entity;
    there = ap (lookup id) ents ∙ v.there;
    derived = v.derived;
    marked = v.marked;
    params = v.params;
    mute = v.mute;
    held = v.held;
    table = table;
  }

module _ {F S : Type 0} (fl : Float F) (base : ProfileDefaults F) where
  channel-Follows :
      (id channel : ℕ) (fn : ChannelParams F → ChannelParams F) (h : Host F S)
      → Follows fl id h
      → Follows fl id (channel_update fl base channel fn h)
  unfolding channel_update set_channel_params apply mark_audible_dirty
  channel-Follows id channel fn h v =
      let p : ChannelParams F = fn (elim (lookup channel h.wiring.channels) [
        | none ↦ default_channel_params fl
        | some p ↦ p
      ]) in
      aside fl id (set_channel channel p) _ h (put channel p h.wiring.channels) v refl refl
        (λ x. put-same channel x p v.plane.channel_table h.wiring.channels (v.table x))

  event-Follows :
      (id : ℕ) (e : Event F) (h : Host F S) → Follows fl id h → Follows fl id (on_event fl base e h)
  unfolding on_event set_personal_mute set_personal_solo apply mark_audible_dirty
  event-Follows id (entity_render id' field x) h v =
      update-Follows fl id id' (set_field field x) h v
  event-Follows id (channel_membership id' channel hears is_member) h v =
      update-Follows fl id id' (set_membership channel hears is_member) h v
  event-Follows id (entity_muted id' on) h v = mute-Follows fl id id' on h v
  event-Follows id (channel_muted channel on) h v =
      channel-Follows id channel (λ p. record p { muted = on }) h v
  event-Follows id (channel_gain channel x) h v =
      channel-Follows id channel (λ p. record p { gain = x }) h v
  event-Follows id (channel_attenuation channel x) h v =
      channel-Follows id channel (λ p. record p { attenuation = x }) h v
  event-Follows id (personal_mute owner other on) h v =
      aside fl id (set_mute owner other on) _ h h.wiring.channels v refl refl v.table
  event-Follows id (personal_solo owner other on) h v =
      aside fl id (set_solo owner other on) _ h h.wiring.channels v refl refl v.table
  event-Follows id (dof_value id' x) h v = let (m, w) = dof-same fl id' x h in of_parts fl id m w v
  event-Follows id other_event h v = v

  marker-Follows :
      (id id' : ℕ) (cleared : Bool) (h : Host F S)
      → id' ≢ id
      → Follows fl id h
      → Follows fl id (on_marker fl base id' cleared h)
  unfolding on_marker
  marker-Follows id id' true h ne v = record {
    plane = v.plane;
    runs = v.runs;
    names = v.names;
    entity = v.entity;
    there = v.there;
    derived = v.derived;
    marked = lookup-delete_ne id id' h.wiring.ents ne ∙ v.marked;
    params = v.params;
    mute = v.mute;
    held = v.held;
    table = v.table;
  }
  marker-Follows id id' false h ne v = elim (Option-cases (lookup id' h.wiring.ents)) [
    | inr (d, l) ↦ rw (l, on_marker) v
    | inl l ↦
        rw (l, on_marker)
          (record {
            plane = v.plane;
            runs = v.runs;
            names = v.names;
            entity = v.entity;
            there = v.there;
            derived = v.derived;
            marked = lookup-put_ne id id' _ h.wiring.ents ne ∙ v.marked;
            params = v.params;
            mute = v.mute;
            held = v.held;
            table = v.table;
          })
  ]

  tick-Follows :
      (id : ℕ) (m' : Mixer F) (h : Host F S)
      → drain fl h.mixer ≡ some m'
      → Follows fl id h
      → Follows fl id (record h { mixer = m' })
  tick-Follows id m' h e v =
      let drained : some (record h.mixer { changes = []; plane = v.plane }) ≡ some m' =
        sym (drain_is fl h.mixer v.plane v.runs) ∙ e in
      let is : record h.mixer { changes = []; plane = v.plane } ≡ m' = cc drained in
      subst (λ m. Follows fl id (record h { mixer = m })) is
        (record {
          plane = v.plane;
          runs = nothing_left fl v.plane;
          names = v.names;
          entity = v.entity;
          there = v.there;
          derived = v.derived;
          marked = v.marked;
          params = v.params;
          mute = v.mute;
          held = v.held;
          table = v.table;
        })

  -- What may happen while an entity stays: any operation of the state, markers of other entities,
  -- ticks.
  pub data Goes (id : ℕ) (h : Host F S) : Host F S → Type 0 where
    stays : Goes id h h
    hears : {h' : Host F S} (e : Event F) → Goes id h h' → Goes id h (on_event fl base e h')
    marks :
        {h' : Host F S} (id' : ℕ) (cleared : Bool)
        → id' ≢ id
        → Goes id h h'
        → Goes id h (on_marker fl base id' cleared h')
    ticks :
        {h' : Host F S} (m' : Mixer F)
        → drain fl h'.mixer ≡ some m'
        → Goes id h h'
        → Goes id h (record h' { mixer = m' })

  pub Goes-Follows :
      (id : ℕ) (h : Host F S) {h' : Host F S} → Follows fl id h → Goes id h h' → Follows fl id h'
  Goes-Follows id h v stays = v
  Goes-Follows id h v (hears {h' = h'} e g) = event-Follows id e h' (Goes-Follows id h v g)
  Goes-Follows id h v (marks {h' = h'} id' cleared ne g) =
      marker-Follows id id' cleared h' ne (Goes-Follows id h v g)
  Goes-Follows id h v (ticks {h' = h'} m' e g) = tick-Follows id m' h' e (Goes-Follows id h v g)
