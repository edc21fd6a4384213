-- ===== src/Engine/Render.antt =====
-- engine/engine/render.go and channels.go: what Process does before its parallel phases. The changes
-- are drained, the pair record is rebuilt if a change asks for it, and every listener gets its row
-- of peers. The tick count gives the sample clock. A table has the listener's slot first; its three
-- columns are one. The timing counters and the sets' reads (Group) are left out.
pub mod Pairs
pub mod Kept
pub mod Changes
pub mod Ticks
use panaudia_lasa.Prelude.{
  ℕ, suc, ◌+◌, ◌*◌, Bool, true, false, not, ◌&&◌, ◌||◌, Option, none, some, List, [], ◌∷◌, ◌==◌,
  if◌then◌else◌,
}
use panaudia_lasa.Prelude.Float.{Float}
use panaudia_lasa.Prelude.Map.{Map, lookup}
use panaudia_lasa.Engine.Plane.{Entity, Plane, Change, drain_changes, is_none}
use panaudia_lasa.Engine.Mixer.{new_mixer}
use panaudia_lasa.Engine.Channels.{resolve_pair}
use panaudia_lasa.Engine.Source.{frame_size}

-- audible, pairGain and pairAttExp of a listener's slot and a source's.
abbrev pub Table : Type 0 → Type 0 → Type 0
Table F S = ℕ → ℕ → Bool × S × F

abbrev pub set_cell : {F S : Type 0} → Table F S → ℕ → ℕ → Bool × S × F → Table F S
set_cell t i j v = λ a b. if a == i && b == j then v else t a b

abbrev pub listening : {F : Type 0} → Entity F → Bool
listening e = not (is_none e.sink) || e.ambi_enc

abbrev pub keep : {A : Type 0} → (A → Bool) → List A → List A
keep f [] = []
keep f (x ∷ xs) = let rest = keep f xs in if f x then x ∷ rest else rest

-- The entities of the slots, in the order of the slots.
abbrev pub occupants : {F : Type 0} → Map (Entity F) → List (Option ℕ) → List (Entity F)
occupants ents [] = []
occupants ents (none ∷ slots) = occupants ents slots
occupants ents (some id ∷ slots) = elim (lookup id ents) [
  | none ↦ occupants ents slots
  | some e ↦ e ∷ occupants ents slots
]

-- The audio thread with its pair record, and the clock.
pub record Render (F S : Type 0) : Type 0 where
  pub plane : Plane F
  pub pairs : Table F S
  pub tick_count : ℕ
  pub frame_start : ℕ

-- A listener and whom it hears this tick.
pub record PeersRow (F : Type 0) : Type 0 where
  pub listener : Entity F
  pub peers : List (Entity F)

module _ {F S : Type 0} (fl : Float F) (f32 : Float S) (float32 : F → S) where
  unfoldable pub fill_row : Plane F → Entity F → Map (Entity F) → Table F S → Table F S
  fill_row p k [] t = t
  fill_row p k ((i, s) ∷ ents) t =
      fill_row p k ents (set_cell t k.slot s.slot (resolve_pair fl f32 float32 p s k))

  unfoldable pub fill_rows : Plane F → Map (Entity F) → Map (Entity F) → Table F S → Table F S
  unfolding fill_row
  fill_rows p all [] t = t
  fill_rows p all ((i, k) ∷ ents) t = fill_rows p all ents (fill_row p k all t)

  unfoldable pub recompute_audible : Render F S → Render F S
  unfolding fill_rows
  recompute_audible r = record r {
    plane = record r.plane { audible_dirty = false };
    pairs = fill_rows r.plane r.plane.ents r.plane.ents r.pairs;
  }

  -- Each listener's row: the sources of this tick that it hears.
  unfoldable pub peers_rows : Render F S → List (Entity F) → List (Entity F) → List (PeersRow F)
  peers_rows r sources [] = []
  peers_rows r sources (k ∷ ks) =
      record { listener = k; peers = keep (λ s. (r.pairs k.slot s.slot).0) sources }
      ∷ peers_rows r sources ks

  -- Process up to its phases, with the changes that the queue holds; `none` is a change's panic.
  unfoldable pub process : List (Change F) → Render F S → Option (Render F S × List (PeersRow F))
  unfolding recompute_audible peers_rows
  process changes r = elim (drain_changes fl changes r.plane) [
    | none ↦ none
    | some p ↦
        let ticked = record r {
          plane = p;
          tick_count = r.tick_count + 1;
          frame_start = r.tick_count * frame_size;
        } in
        let r' = if p.audible_dirty then recompute_audible ticked else ticked in
        let all = occupants r'.plane.ents r'.plane.slots in
        some (r', peers_rows r' (keep (λ e. not (is_none e.src)) all) (keep listening all))
  ]

-- The audio thread of a new mixer.
unfoldable pub new_render :
    {F S : Type 0} → Float F → Float S → (max_entities order : ℕ) → Render F S
unfolding new_mixer
new_render fl f32 max_entities order = record {
  plane = (new_mixer max_entities order).plane;
  pairs = λ a b. (false, f32.lit 0 0, fl.lit 0 0);
  tick_count = 0;
  frame_start = 0;
}
