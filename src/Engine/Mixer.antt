-- ===== src/Engine/Mixer.antt =====
-- engine/engine/mixer.go and ambisink.go: the control plane. An Add or a Remove answers from the
-- registry and queues a change for the audio thread.
-- A call that holds the lock and then enqueues is one step here: calls that race between the two
-- are outside the model, and so is the blocking of a queue of 4096. The lockstep sets are in
-- Group/Registry, and an encoder or decoder that cannot be made, which a call answers before any of
-- this, is left out.
pub mod Agree
pub mod Calls
pub mod Leaves
pub mod Settings
pub mod Order
pub mod Released
pub mod Close
pub mod Refuses
pub mod Sources
use panaudia_lasa.Prelude.{
  ℕ, ◌+◌, ◌-◌, Bool, true, false, ◌&&◌, ◌||◌, Option, none, some, List, [], ◌∷◌, ◌++◌, ltb, leb,
  if◌then◌else◌, replicate,
}
use panaudia_lasa.Prelude.Float.{Float}
use panaudia_lasa.Prelude.Map.{Map, lookup, put, delete}
use panaudia_lasa.Engine.Params.{RenderParams, ChannelParams}
use panaudia_lasa.Engine.Plane.{
  Entity, Plane, Change, attach_source, attach_sink, attach_ambi, detach_source, detach_sink,
  detach_ambi, set_params, set_channel, set_mute, set_solo, set_space_muted, is_none, is_empty,
  drain_changes, some_of,
}

pub record RegEntry : Type 0 where
  pub src : Option ℕ
  pub sink : Option ℕ
  pub ambi : Map ℕ

-- `changes` is the queue, the oldest first.
pub record Mixer (F : Type 0) : Type 0 where
  pub max_entities : ℕ
  pub order : ℕ
  pub reg : Map RegEntry
  pub entity_count : ℕ
  pub closed : Bool
  pub changes : List (Change F)
  pub plane : Plane F

pub data Refusal : Type 0 where
  err_closed err_duplicate_source err_duplicate_sink err_full err_unknown_entity err_order : Refusal
  err_bad_group : Refusal

-- What a call answers: the mixer after it, and the error if there is one.
abbrev pub Answer : Type 0 → Type 0
Answer F = Mixer F × Option Refusal

abbrev pub new_reg_entry : RegEntry
new_reg_entry = record { src = none; sink = none; ambi = [] }

abbrev pub entry_of : Option RegEntry → RegEntry
entry_of none = new_reg_entry
entry_of (some e) = e

abbrev pub present : {A : Type 0} → Option A → Bool
present none = false
present (some a) = true

module _ {F : Type 0} where
  -- The checks of an Add, `taken` being the half that must be free; then the entry is changed by
  -- `fill`, a new one is counted, and the change is queued.
  abbrev pub admit : ℕ → Bool → Refusal → (RegEntry → RegEntry) → Change F → Mixer F → Answer F
  admit id busy twice fill change m =
      let re = lookup id m.reg in
      let count = if is_none re then m.entity_count + 1 else m.entity_count in
      if m.closed
      then (m, some err_closed)
      else if busy
      then (m, some twice)
      else if is_none re && leb m.max_entities m.entity_count
      then (m, some err_full)
      else (
        record m {
          reg = put id (fill (entry_of re)) m.reg;
          entity_count = count;
          changes = m.changes ++ (change ∷ []);
        },
        none,
      )

  -- AddSource of a source with a buffer of its own; add_member of Group/Registry is that of a member
  -- of a lockstep set, which goes through this after its checks.
  unfoldable pub add_source : ℕ → ℕ → Mixer F → Answer F
  add_source id h m =
      admit id (present (entry_of (lookup id m.reg)).src) err_duplicate_source
        (λ e. record e { src = some h }) (attach_source id h) m

  unfoldable pub add_sink : ℕ → ℕ → Mixer F → Answer F
  add_sink id h m =
      admit id (present (entry_of (lookup id m.reg)).sink) err_duplicate_sink
        (λ e. record e { sink = some h }) (attach_sink id h) m

  unfoldable pub add_ambi_sink : ℕ → ℕ → ℕ → Mixer F → Answer F
  add_ambi_sink id order h m =
      if ltb order 2 || ltb 3 order || ltb m.order order
      then (m, some err_order)
      else admit id (present (lookup order (entry_of (lookup id m.reg)).ambi)) err_duplicate_sink
          (λ e. record e { ambi = put order h e.ambi }) (attach_ambi id order h) m

  -- The entry of a Remove after it has lost a half: it goes when nothing is left.
  abbrev pub vacate : ℕ → RegEntry → Change F → Mixer F → Mixer F
  vacate id e change m =
      let gone = is_none e.src && is_none e.sink && is_empty e.ambi in
      record m {
        reg = if gone then delete id m.reg else put id e m.reg;
        entity_count = if gone then m.entity_count - 1 else m.entity_count;
        changes = m.changes ++ (change ∷ []);
      }

  unfoldable pub remove_source : ℕ → Mixer F → Mixer F
  remove_source id m = elim (lookup id m.reg) [
    | none ↦ m
    | some e ↦ if is_none e.src then m else vacate id (record e { src = none }) (detach_source id) m
  ]

  unfoldable pub remove_sink : ℕ → Mixer F → Mixer F
  remove_sink id m = elim (lookup id m.reg) [
    | none ↦ m
    | some e ↦ if is_none e.sink then m else vacate id (record e { sink = none }) (detach_sink id) m
  ]

  unfoldable pub remove_ambi_sink : ℕ → ℕ → Mixer F → Mixer F
  remove_ambi_sink id order m = elim (lookup id m.reg) [
    | none ↦ m
    | some e ↦
        if is_none (lookup order e.ambi)
        then m
        else vacate id (record e { ambi = delete order e.ambi }) (detach_ambi id order) m
  ]

  abbrev pub enqueue : Change F → Mixer F → Mixer F
  enqueue change m = record m { changes = m.changes ++ (change ∷ []) }

  abbrev pub if_known : ℕ → Change F → Mixer F → Answer F
  if_known id change m = elim (lookup id m.reg) [
    | none ↦ (m, some err_unknown_entity)
    | some e ↦ (enqueue change m, none)
  ]

  unfoldable pub set_render_params : ℕ → RenderParams F → Mixer F → Answer F
  set_render_params id v m = if_known id (set_params id v) m

  unfoldable pub set_entity_muted : ℕ → Bool → Mixer F → Answer F
  set_entity_muted id on m = if_known id (set_space_muted id on) m

  unfoldable pub set_channel_params : ℕ → ChannelParams F → Mixer F → Mixer F
  set_channel_params name v m = enqueue (set_channel name v) m

  unfoldable pub set_personal_mute : ℕ → ℕ → Bool → Mixer F → Mixer F
  set_personal_mute listener other on m = enqueue (set_mute listener other on) m

  unfoldable pub set_personal_solo : ℕ → ℕ → Bool → Mixer F → Mixer F
  set_personal_solo listener other on m = enqueue (set_solo listener other on) m

  -- New, for a configuration with max_entities and order in range.
  unfoldable pub new_mixer : ℕ → ℕ → Mixer F
  new_mixer max_entities order = record {
    max_entities = max_entities;
    order = order;
    reg = [];
    entity_count = 0;
    closed = false;
    changes = [];
    plane = record {
      ents = [];
      slots = replicate max_entities none;
      channel_table = [];
      audible_dirty = false;
      personal_mutes = [];
      personal_solos = [];
      destroyed = [];
    };
  }

module _ {F : Type 0} (fl : Float F) where
  -- The head of a tick: the audio thread runs what is queued. `none` is a panic of a closure.
  unfoldable pub drain : Mixer F → Option (Mixer F)
  drain m = elim (drain_changes fl m.changes m.plane) [
    | none ↦ none
    | some p ↦ some (record m { changes = []; plane = p })
  ]

-- The handles of a map of ambisonic sinks.
abbrev pub handles : Map ℕ → List ℕ
handles [] = []
handles ((order, k) ∷ m) = k ∷ handles m

module _ {F : Type 0} where
  -- What Close does to the entity in a slot.
  unfoldable pub release : ℕ → Plane F → Plane F
  release id p = elim (lookup id p.ents) [
    | none ↦ p
    | some e ↦ record p {
      ents = put id (record e { sink = none; ambi_sinks = []; ambi_enc = false }) p.ents;
      destroyed = (some_of e.sink ++ handles e.ambi_sinks) ++ p.destroyed;
    }
  ]

  unfoldable pub release_slots : List (Option ℕ) → Plane F → Plane F
  release_slots [] p = p
  release_slots (none ∷ xs) p = release_slots xs p
  release_slots (some id ∷ xs) p = release_slots xs (release id p)

module _ {F : Type 0} (fl : Float F) where
  -- A second Close does nothing. The render workers and Run, which it stops, are left out.
  unfoldable pub close : Mixer F → Option (Mixer F)
  close m = if m.closed then some m else elim (drain_changes fl m.changes m.plane) [
    | none ↦ none
    | some p ↦ some (record m { closed = true; changes = []; plane = release_slots p.slots p })
  ]
