-- ===== src/Engine/Plane.antt =====
-- engine/engine/mixer.go and ambisink.go: the audio thread's state and the changes that the control
-- plane hands to it, each closure of the queue as a constructor.
-- A source, a sink or an encoder is known by a number, its identity. What a closure tells the DSP
-- encoder (position, gain and the like) is left out; its space mute is kept.
pub mod Slots
pub mod Sound
pub mod Ensure
pub mod Personal
use panaudia_lasa.Prelude.{
  ℕ, suc, ◌+◌, Bool, true, false, Option, none, some, List, [], ◌∷◌, ◌++◌, ◌==◌, if◌then◌else◌,
  length, set, ◌&&◌, not,
}
use panaudia_lasa.Prelude.Float.{Float}
use panaudia_lasa.Prelude.Map.{Map, lookup, put, delete}
use panaudia_lasa.Engine.Params.{RenderParams, ChannelParams, default_render_params}

pub record Entity (F : Type 0) : Type 0 where
  pub id : ℕ
  pub slot : ℕ
  pub src : Option ℕ
  pub sink : Option ℕ
  pub params : RenderParams F
  pub ambi_enc : Bool
  pub ambi_sinks : Map ℕ
  pub space_muted : Bool

-- `destroyed` is the log of the encoders released, the latest first. A set of ids is a list.
pub record Plane (F : Type 0) : Type 0 where
  pub ents : Map (Entity F)
  pub slots : List (Option ℕ)
  pub channel_table : Map (ChannelParams F)
  pub audible_dirty : Bool
  pub personal_mutes : Map (List ℕ)
  pub personal_solos : Map (List ℕ)
  pub destroyed : List ℕ

pub data Change (F : Type 0) : Type 0 where
  attach_source : ℕ → ℕ → Change F
  attach_sink : ℕ → ℕ → Change F
  attach_ambi : ℕ → ℕ → ℕ → Change F
  detach_source : ℕ → Change F
  detach_sink : ℕ → Change F
  detach_ambi : ℕ → ℕ → Change F
  set_params : ℕ → RenderParams F → Change F
  set_channel : ℕ → ChannelParams F → Change F
  set_mute : ℕ → ℕ → Bool → Change F
  set_solo : ℕ → ℕ → Bool → Change F
  set_space_muted : ℕ → Bool → Change F

abbrev pub is_none : {A : Type 0} → Option A → Bool
is_none none = true
is_none (some a) = false

abbrev pub is_empty : {A : Type 0} → List A → Bool
is_empty [] = true
is_empty (x ∷ xs) = false

abbrev pub some_of : {A : Type 0} → Option A → List A
some_of none = []
some_of (some a) = a ∷ []

-- Members of a set.
abbrev pub member : ℕ → List ℕ → Bool
member x [] = false
member x (y ∷ ys) = if x == y then true else member x ys

abbrev pub without : ℕ → List ℕ → List ℕ
without x [] = []
without x (y ∷ ys) = let rest = without x ys in if x == y then rest else y ∷ rest

-- `len(m[owner])` and `m[owner][other]` of a missing owner are 0 and false.
abbrev pub members : ℕ → Map (List ℕ) → List ℕ
members k m = elim (lookup k m) [ none ↦ [] | some s ↦ s ]

unfoldable pub set_personal : ℕ → ℕ → Bool → Map (List ℕ) → Map (List ℕ)
set_personal owner other on m =
    let s = members owner m in
    let rest = without other s in
    if on
    then put owner (if member other s then s else other ∷ s) m
    else if is_empty rest
    then delete owner m
    else put owner rest m

-- The first free slot.
abbrev pub free_slot : List (Option ℕ) → Option ℕ
free_slot [] = none
free_slot (none ∷ xs) = some 0
free_slot (some k ∷ xs) = elim (free_slot xs) [ none ↦ none | some i ↦ some (suc i) ]

module _ {F : Type 0} (fl : Float F) where
  abbrev pub new_entity : ℕ → ℕ → Entity F
  new_entity id slot = record {
    id = id;
    slot = slot;
    src = none;
    sink = none;
    params = default_render_params fl;
    ambi_enc = false;
    ambi_sinks = [];
    space_muted = false;
  }

  -- `none` is the panic when no slot is free.
  unfoldable pub ensure_entity : ℕ → Plane F → Option (Plane F × Entity F)
  ensure_entity id p = elim (lookup id p.ents) [
    | some e ↦ some (p, e)
    | none ↦ elim (free_slot p.slots) [
      | none ↦ none
      | some i ↦
          let e = new_entity id i in
          some (record p { ents = put id e p.ents; slots = set p.slots i (some id) }, e)
    ]
  ]

module _ {F : Type 0} where
  unfoldable pub mark_audible_dirty : Plane F → Plane F
  mark_audible_dirty p = record p { audible_dirty = true }

  unfoldable pub remove_entity : Entity F → Plane F → Plane F
  unfolding mark_audible_dirty
  remove_entity e p = mark_audible_dirty (record p {
    ents = delete e.id p.ents;
    personal_mutes = delete e.id p.personal_mutes;
    personal_solos = delete e.id p.personal_solos;
    slots = set p.slots e.slot none;
  })

  -- A change of an entity in place.
  abbrev pub update : Entity F → Plane F → Plane F
  update e p = record p { ents = put e.id e p.ents }

  unfoldable pub detach_source_from : Entity F → Plane F → Plane F
  detach_source_from e p =
      let e' = record e { src = none } in
      if is_none e.sink && is_empty e.ambi_sinks then remove_entity e' p else update e' p

  -- The entity goes when it has no source, whatever its ambisonic sinks.
  unfoldable pub detach_sink_from : ℕ → Entity F → Plane F → Plane F
  detach_sink_from k e p =
      let e' = record e { sink = none } in
      let p' = record p { destroyed = k ∷ p.destroyed } in
      if is_none e.src then remove_entity e' p' else update e' p'

  unfoldable pub detach_ambi_from : ℕ → Entity F → Plane F → Plane F
  detach_ambi_from order e p =
      let rest = delete order e.ambi_sinks in
      let e' = record e {
        ambi_sinks = rest;
        ambi_enc = if is_empty rest then false else e.ambi_enc;
      } in
      let p' = record p { destroyed = some_of (lookup order e.ambi_sinks) ++ p.destroyed } in
      if is_none e.src && is_none e.sink && is_empty rest then remove_entity e' p' else update e' p'

module _ {F : Type 0} (fl : Float F) where
  -- Running a closure; `none` is a panic: no free slot, or a source detached that is not there.
  unfoldable pub apply : Change F → Plane F → Option (Plane F)
  apply (attach_source id h) p = elim (ensure_entity fl id p) [
    | none ↦ none
    | some (p1, e) ↦ some (mark_audible_dirty (update (record e { src = some h }) p1))
  ]
  apply (attach_sink id h) p = elim (ensure_entity fl id p) [
    | none ↦ none
    | some (p1, e) ↦ some (mark_audible_dirty (update (record e { sink = some h }) p1))
  ]
  apply (attach_ambi id order h) p = elim (ensure_entity fl id p) [
    | none ↦ none
    | some (p1, e) ↦ some (
        mark_audible_dirty
          (update (record e { ambi_enc = true; ambi_sinks = put order h e.ambi_sinks }) p1))
  ]
  apply (detach_source id) p = elim (lookup id p.ents) [
    | none ↦ some p
    | some e ↦ if is_none e.src then none else some (detach_source_from e p)
  ]
  apply (detach_sink id) p = elim (lookup id p.ents) [
    | none ↦ some p
    | some e ↦ elim e.sink [ none ↦ some p | some k ↦ some (detach_sink_from k e p) ]
  ]
  apply (detach_ambi id order) p = elim (lookup id p.ents) [
    | none ↦ some p
    | some e ↦ some (detach_ambi_from order e p)
  ]
  apply (set_params id v) p = elim (lookup id p.ents) [
    | none ↦ some p
    | some e ↦ some (mark_audible_dirty (update (record e { params = v }) p))
  ]
  apply (set_channel name v) p =
      some (mark_audible_dirty (record p { channel_table = put name v p.channel_table }))
  apply (set_mute listener other on) p = some (
      mark_audible_dirty
        (record p { personal_mutes = set_personal listener other on p.personal_mutes }))
  apply (set_solo listener other on) p = some (
      mark_audible_dirty
        (record p { personal_solos = set_personal listener other on p.personal_solos }))
  apply (set_space_muted id on) p = elim (lookup id p.ents) [
    | none ↦ some p
    | some e ↦ some (update (record e { space_muted = on }) p)
  ]

  unfoldable pub drain_changes : List (Change F) → Plane F → Option (Plane F)
  drain_changes [] p = some p
  drain_changes (c ∷ cs) p = elim (apply c p) [ none ↦ none | some q ↦ drain_changes cs q ]
