-- ===== src/Engine/Pose/Slot.antt =====
-- engine/engine/pose.go: poseSlot, whose store and load run as steps on its atomic fields in any
-- order. A pose is the six words of its bits. The reader calls load again and again.
use panaudia_lasa.Prelude.{ℕ, ◌+◌, ◌%◌, Option, none, some, List, [], ◌∷◌, ltb, ◌==◌, if◌then◌else◌}
use panaudia_lasa.Prelude.Map.{overlay}
use panaudia_lasa.Engine.Pose.Threads.{Words, Cell, Turn, write_next, read_next}

-- Outside store, or before it stores word `k` over the version `v`.
pub data SlotWriter : Type 0 where
  resting : SlotWriter
  storing : (v k : ℕ) → Words → SlotWriter

-- At the head of load's loop, or before it loads word `k`.
pub data SlotReader : Type 0 where
  trying : SlotReader
  loading : (v k : ℕ) → Words → SlotReader

-- The poses that are to be stored, and what the loads returned, the last one first.
pub record PoseSlot : Type 0 where
  pub cell : Cell
  pub todo : List Words
  pub writer : SlotWriter
  pub reader : SlotReader
  pub loads : List (Option Words)

unfoldable pub start_store : List Words → PoseSlot → PoseSlot
start_store [] t = t
start_store (s ∷ rest) t = record t {
  cell = record (t.cell) { version = t.cell.version + 1 };
  todo = rest;
  writer = storing t.cell.version 0 s;
}

unfoldable pub slot_store : SlotWriter → PoseSlot → PoseSlot
unfolding start_store
slot_store resting t = start_store t.todo t
slot_store (storing v k s) t =
    if ltb k 6
    then record t {
      cell = record (t.cell) { words = overlay t.cell.words k (s k) };
      writer = storing v (k + 1) s;
    }
    else record t { cell = record (t.cell) { version = v + 2 }; writer = resting }

unfoldable pub slot_load : SlotReader → PoseSlot → PoseSlot
slot_load trying t =
    let v = t.cell.version in
    if v == 0
    then record t { loads = none ∷ t.loads }
    else if (v % 2) == 0
    then record t { reader = loading v 0 (λ _. 0) }
    else t
slot_load (loading v k got) t =
    if ltb k 6
    then record t { reader = loading v (k + 1) (overlay got k (t.cell.words k)) }
    else if t.cell.version == v
    then record t { loads = some got ∷ t.loads; reader = trying }
    else record t { reader = trying }

unfoldable pub slot_turn : Turn → PoseSlot → PoseSlot
slot_turn write_next t = slot_store t.writer t
slot_turn read_next t = slot_load t.reader t

unfoldable pub slot_run : List Turn → PoseSlot → PoseSlot
slot_run [] t = t
slot_run (x ∷ xs) t = slot_run xs (slot_turn x t)

unfoldable pub fresh_slot : List Words → PoseSlot
fresh_slot stores = record {
  cell = record { version = 0; words = λ _. 0 };
  todo = stores;
  writer = resting;
  reader = trying;
  loads = [];
}
