-- ===== src/Engine/Mixer/Order.antt =====
-- A mixer after any calls and ticks: the audio thread comes to exactly the registry.
use panaudia_lasa.Prelude.{ℕ, ◌≤◌, ◌≡◌, refl, sym, ap, ◌∙◌, some, [], arith, length, Bool}
use panaudia_lasa.Prelude.Float.{Float}
use panaudia_lasa.Prelude.Map.{lookup, values, length-values}
use panaudia_lasa.Engine.Params.{RenderParams, ChannelParams}
use panaudia_lasa.Engine.Plane.{set_params, set_space_muted}
use panaudia_lasa.Engine.Plane.Sound.{Sound}
use panaudia_lasa.Engine.Mixer.{
  Mixer, entry_of, add_source, add_sink, add_ambi_sink, remove_source, remove_sink,
  remove_ambi_sink, set_render_params, set_entity_muted, set_channel_params, set_personal_mute,
  set_personal_solo, new_mixer, drain,
}
use panaudia_lasa.Engine.Mixer.Agree.{entry}
use panaudia_lasa.Engine.Mixer.Leaves.{
  Spared, remove_source-Pending, remove_sink-Pending, remove_ambi_sink-Pending,
}
use panaudia_lasa.Engine.Mixer.Calls.{Pending, if_known-Pending}
use panaudia_lasa.Engine.Mixer.Settings.{
  new_mixer-Pending, drain-Pending, drain_is, add_source-Pending, add_sink-Pending,
  add_ambi_sink-Pending, params_run, muted_run, sets_channel-Pending, sets_mute-Pending,
  sets_solo-Pending,
}

module _ {F : Type 0} where
  abbrev pub Removable : ℕ → Mixer F → Type 0
  Removable id m = Spared (entry_of (lookup id m.reg))

module _ {F : Type 0} (fl : Float F) where
  -- A mixer that calls and ticks lead to, where a sink is removed only as `Removable` says.
  pub data Reachable : Mixer F → Type 0 where
    starts : (n order : ℕ) → Reachable (new_mixer n order)
    adds_source : {m : Mixer F} (id h : ℕ) → Reachable m → Reachable (add_source id h m).0
    adds_sink : {m : Mixer F} (id h : ℕ) → Reachable m → Reachable (add_sink id h m).0
    adds_ambi :
        {m : Mixer F} (id order h : ℕ) → Reachable m → Reachable (add_ambi_sink id order h m).0
    removes_source : {m : Mixer F} (id : ℕ) → Reachable m → Reachable (remove_source id m)
    removes_sink :
        {m : Mixer F} (id : ℕ) → Removable id m → Reachable m → Reachable (remove_sink id m)
    removes_ambi :
        {m : Mixer F} (id order : ℕ) → Reachable m → Reachable (remove_ambi_sink id order m)
    sets_params :
        {m : Mixer F} (id : ℕ) (v : RenderParams F)
        → Reachable m
        → Reachable (set_render_params id v m).0
    sets_muted :
        {m : Mixer F} (id : ℕ) (on : Bool) → Reachable m → Reachable (set_entity_muted id on m).0
    sets_channel :
        {m : Mixer F} (name : ℕ) (v : ChannelParams F)
        → Reachable m
        → Reachable (set_channel_params name v m)
    sets_mute :
        {m : Mixer F} (listener other : ℕ) (on : Bool)
        → Reachable m
        → Reachable (set_personal_mute listener other on m)
    sets_solo :
        {m : Mixer F} (listener other : ℕ) (on : Bool)
        → Reachable m
        → Reachable (set_personal_solo listener other on m)
    ticks : {m m' : Mixer F} → drain fl m ≡ some m' → Reachable m → Reachable m'

  pub Reachable-Pending : {m : Mixer F} → Reachable m → Pending fl m
  unfolding set_render_params set_entity_muted
  Reachable-Pending (starts n order) = new_mixer-Pending fl n order
  Reachable-Pending (adds_source {m = m} id h r) =
      add_source-Pending fl id h m (Reachable-Pending r)
  Reachable-Pending (adds_sink {m = m} id h r) = add_sink-Pending fl id h m (Reachable-Pending r)
  Reachable-Pending (adds_ambi {m = m} id order h r) =
      add_ambi_sink-Pending fl id order h m (Reachable-Pending r)
  Reachable-Pending (removes_source {m = m} id r) =
      remove_source-Pending fl id m (Reachable-Pending r)
  Reachable-Pending (removes_sink {m = m} id spared r) =
      remove_sink-Pending fl id m spared (Reachable-Pending r)
  Reachable-Pending (removes_ambi {m = m} id order r) =
      remove_ambi_sink-Pending fl id order m (Reachable-Pending r)
  Reachable-Pending (sets_params {m = m} id w r) =
      if_known-Pending fl id (set_params id w) m (params_run fl id w m.max_entities m.reg)
        (Reachable-Pending r)
  Reachable-Pending (sets_muted {m = m} id on r) =
      if_known-Pending fl id (set_space_muted id on) m (muted_run fl id on m.max_entities m.reg)
        (Reachable-Pending r)
  Reachable-Pending (sets_channel {m = m} name w r) =
      sets_channel-Pending fl name w m (Reachable-Pending r)
  Reachable-Pending (sets_mute {m = m} listener other on r) =
      sets_mute-Pending fl listener other on m (Reachable-Pending r)
  Reachable-Pending (sets_solo {m = m} listener other on r) =
      sets_solo-Pending fl listener other on m (Reachable-Pending r)
  Reachable-Pending (ticks {m = m} {m' = m'} e r) = drain-Pending fl m m' e (Reachable-Pending r)

  -- After any calls and ticks in which no sink is removed from an entity that has an ambisonic
  -- sink and no source, the queued changes run without a panic. The audio thread then holds
  -- exactly the registry's entities with their halves, as many as are counted and at most the
  -- capacity; each has a slot of its own, and no other slot is taken.
  pub drain-Agrees :
      (m : Mixer F)
      → Reachable m
      → (m' : Mixer F) × (drain fl m ≡ some m')
        × (m'.reg ≡ m.reg)
        × (values entry m'.plane.ents ≡ m.reg)
        × (m.entity_count ≡ length m'.plane.ents)
        × (m.entity_count ≤ m.max_entities)
        × Sound m.max_entities m'.plane
  drain-Agrees m r =
      let v = Reachable-Pending r in
      let sizes : length m.reg ≡ length v.ready.ents =
        ap length (sym v.agrees.view) ∙ length-values entry v.ready.ents in
      (
        record m { changes = []; plane = v.ready },
        drain_is fl m v.ready v.drained,
        refl,
        v.agrees.view,
        v.counted ∙ sizes,
        omega (arith, v.counted, v.agrees.room),
        v.agrees.sound,
      )
