-- ===== src/Server/Wiring.antt =====
-- server/wiring.go: the observer that turns the profile's keys into calls of the mixer.
-- The profile's parser and its defaults (profile/base, not in this repository) are parameters: `parse`
-- is ParseOp, with `none` for its error. A key is its bytes; `name` gives the number of an id.
pub mod Marker
pub mod Tuned
pub mod Follows
pub mod Events
use panaudia_lasa.Prelude.{
  ℕ, suc, ◌+◌, Bool, true, false, ◌&&◌, ◌||◌, not, Option, none, some, List, [], ◌∷◌, ◌++◌, leb,
  ◌==◌, if◌then◌else◌, length, drop,
}
use panaudia_lasa.Prelude.Map.{Map, lookup, put, delete}
use panaudia_lasa.Prelude.Float.{Float}
use panaudia_lasa.Engine.Params.{RenderParams, ChannelParams, default_channel_params}
use panaudia_lasa.Engine.Plane.{member, without, is_empty}
use panaudia_lasa.Engine.Mixer.{
  Mixer, set_render_params, set_entity_muted, set_channel_params, set_personal_mute,
  set_personal_solo,
}
use panaudia_lasa.Server.State.{DerivedEntity, StateWiring, EntityRec, Backend, Host}

pub data Field : Type 0 where
  field_gain field_attenuation field_size field_directivity : Field

-- The typed operations of profile/base that the observer tells apart.
pub data Event (F : Type 0) : Type 0 where
  entity_render : ℕ → Field → F → Event F
  channel_membership : ℕ → ℕ → Bool → Bool → Event F
  entity_muted : ℕ → Bool → Event F
  channel_muted : ℕ → Bool → Event F
  channel_gain : ℕ → F → Event F
  channel_attenuation : ℕ → Option F → Event F
  personal_mute : ℕ → ℕ → Bool → Event F
  personal_solo : ℕ → ℕ → Bool → Event F
  dof_value : ℕ → ℕ → Event F
  other_event : Event F

-- "lasa.entity."
abbrev pub marker_prefix : List ℕ
marker_prefix =
    b'l' ∷ b'a' ∷ b's' ∷ b'a' ∷ b'.' ∷ b'e' ∷ b'n' ∷ b't' ∷ b'i' ∷ b't' ∷ b'y' ∷ b'.' ∷ []

abbrev pub has_prefix : List ℕ → List ℕ → Bool
has_prefix [] key = true
has_prefix (p ∷ ps) [] = false
has_prefix (p ∷ ps) (c ∷ key) = p == c && has_prefix ps key

unfoldable pub id_after : List ℕ → List ℕ → Option (List ℕ)
id_after prefix key =
    let id = drop (length prefix) key in
    if has_prefix prefix key then if is_empty id || member b'.' id then none else some id else none

unfoldable pub marker_entity : List ℕ → Option (List ℕ)
unfolding id_after
marker_entity key = id_after marker_prefix key

-- A set as a list without repetitions.
abbrev pub with_member : ℕ → List ℕ → List ℕ
with_member x xs = if member x xs then xs else x ∷ xs

-- `sort.Strings`, where a name's number is its place in the order.
pub insert_key : ℕ → List ℕ → List ℕ
insert_key x [] = x ∷ []
insert_key x (y ∷ ys) = let rest = insert_key x ys in if leb x y then x ∷ y ∷ ys else y ∷ rest

unfoldable pub sorted_keys : List ℕ → List ℕ
unfolding insert_key
sorted_keys [] = []
sorted_keys (x ∷ xs) = insert_key x (sorted_keys xs)

unfoldable pub render_params : {F : Type 0} → DerivedEntity F → RenderParams F
render_params d = record {
  gain = d.gain;
  attenuation = d.attenuation;
  size = d.size;
  directivity = d.directivity;
  source_channels = sorted_keys d.heard_in;
  sink_channels = sorted_keys d.hears;
}

module _ {F : Type 0} where
  abbrev pub set_field : Field → F → DerivedEntity F → DerivedEntity F
  set_field field_gain v d = record d { gain = v }
  set_field field_attenuation v d = record d { attenuation = v }
  set_field field_size v d = record d { size = v }
  set_field field_directivity v d = record d { directivity = v }

  abbrev pub set_membership :
      (channel : ℕ) (hears is_member : Bool) → DerivedEntity F → DerivedEntity F
  set_membership channel hears is_member d =
      let change =
        λ (xs : List ℕ). if is_member then with_member channel xs else without channel xs in
      if hears
      then record d { hears = change d.hears }
      else record d { heard_in = change d.heard_in }

-- base.DefaultGain and its kin.
pub record ProfileDefaults (F : Type 0) : Type 0 where
  pub gain : F
  pub attenuation : F
  pub size : F
  pub directivity : F

unfoldable pub new_derived_entity : {F : Type 0} → ProfileDefaults F → DerivedEntity F
new_derived_entity base = record {
  gain = base.gain;
  attenuation = base.attenuation;
  size = base.size;
  directivity = base.directivity;
  heard_in = [];
  hears = [];
}

unfoldable pub new_state_wiring : {F : Type 0} → StateWiring F
new_state_wiring = record { ents = []; muted = []; channels = []; invalid = 0 }

module _ {F S : Type 0} where
  abbrev pub set_ents : Map (DerivedEntity F) → Host F S → Host F S
  set_ents ents h = record h { wiring = record h.wiring { ents = ents } }

  -- `fn` on the derived state, which goes to the mixer as a whole; a key without a marker is
  -- ignored, and so is the mixer's refusal.
  unfoldable pub entity_update : ℕ → (DerivedEntity F → DerivedEntity F) → Host F S → Host F S
  entity_update id fn h = elim (lookup id h.wiring.ents) [
    | none ↦ h
    | some d ↦ record (set_ents (put id (fn d) h.wiring.ents) h) {
      mixer = (set_render_params id (render_params (fn d)) h.mixer).0;
    }
  ]

  -- backend.setDof
  unfoldable pub set_dof : ℕ → ℕ → Host F S → Host F S
  set_dof id dof h = elim (lookup id h.backend.entities) [
    | none ↦ h
    | some r ↦ elim (lookup r h.backend.recs) [
      | none ↦ h
      | some rec ↦ record h {
        backend = record h.backend { recs = put r (record rec { dof = dof }) h.backend.recs };
      }
    ]
  ]

  -- stateWiring.entityJoined: what the derived state holds goes to the mixer once it has the entity.
  unfoldable pub flush_joined : ℕ → Host F S → Host F S
  flush_joined id h =
      let m1 : Mixer F = elim (lookup id h.wiring.ents) [
        | none ↦ h.mixer
        | some d ↦ (set_render_params id (render_params d) h.mixer).0
      ] in
      record h { mixer = if member id h.wiring.muted then (set_entity_muted id true m1).0 else m1 }

module _ {F S : Type 0} (fl : Float F) (base : ProfileDefaults F) where
  unfoldable pub channel_update : ℕ → (ChannelParams F → ChannelParams F) → Host F S → Host F S
  channel_update channel fn h =
      let p = fn (elim (lookup channel h.wiring.channels) [
        | none ↦ default_channel_params fl
        | some p ↦ p
      ]) in
      record h {
        wiring = record h.wiring { channels = put channel p h.wiring.channels };
        mixer = set_channel_params channel p h.mixer;
      }

  -- The switch of `observe` over the typed operations.
  unfoldable pub on_event : Event F → Host F S → Host F S
  on_event (entity_render id field v) h = entity_update id (set_field field v) h
  on_event (channel_membership id channel hears is_member) h =
      entity_update id (set_membership channel hears is_member) h
  on_event (entity_muted id on) h = record h {
    wiring = record h.wiring {
      muted = if on then with_member id h.wiring.muted else without id h.wiring.muted;
    };
    mixer = (set_entity_muted id on h.mixer).0;
  }
  on_event (channel_muted channel on) h = channel_update channel (λ p. record p { muted = on }) h
  on_event (channel_gain channel v) h = channel_update channel (λ p. record p { gain = v }) h
  on_event (channel_attenuation channel v) h =
      channel_update channel (λ p. record p { attenuation = v }) h
  on_event (personal_mute owner other on) h = record h {
    mixer = set_personal_mute owner other on h.mixer;
  }
  on_event (personal_solo owner other on) h = record h {
    mixer = set_personal_solo owner other on h.mixer;
  }
  on_event (dof_value id v) h = set_dof id v h
  on_event other_event h = h

  -- An existence marker comes, or goes with what was derived under it.
  unfoldable pub on_marker : ℕ → Bool → Host F S → Host F S
  unfolding new_derived_entity
  on_marker id cleared h =
      if cleared then set_ents (delete id h.wiring.ents) h else elim (lookup id h.wiring.ents) [
        | none ↦ set_ents (put id (new_derived_entity base) h.wiring.ents) h
        | some d ↦ h
      ]

  unfoldable pub observe :
      (parse : List ℕ → List ℕ → Bool → Option (Event F)) (name : List ℕ → ℕ)
      → (key value : List ℕ) (cleared : Bool) → Host F S
      → Host F S
  unfolding on_event on_marker
  observe parse name key value cleared h = elim (marker_entity key) [
    | some id ↦ on_marker (name id) cleared h
    | none ↦ elim (parse key value cleared) [
      | none ↦ record h { wiring = record h.wiring { invalid = h.wiring.invalid + 1 } }
      | some e ↦ on_event e h
    ]
  ]
