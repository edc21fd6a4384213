-- ===== src/Engine/Pose/Returns.antt =====
-- load of engine/engine/pose.go's poseSlot, interleaved with store: its steps and what it returns.
use panaudia_lasa.Prelude.{
  ℕ, zero, suc, ◌⊎◌, ◌+◌, ◌-◌, ◌%◌, ◌≤◌, ◌<◌, ◌≡◌, ap, ◌∙◌, inl, inr, List, arith, ◌==◌,
  if◌then◌else◌, length, replicate,
}
use panaudia_lasa.Engine.Pose.Threads.{Words, Cell, Turn, read_next}
use panaudia_lasa.Engine.Pose.Whole.{All}
use panaudia_lasa.Engine.Pose.Slot.{
  SlotWriter, resting, storing, SlotReader, trying, loading, PoseSlot, slot_load, slot_turn,
  slot_run, fresh_slot,
}
use panaudia_lasa.Engine.Pose.Loads.{Stored, WholeLoad, slot_run-SlotSafe, fresh_slot-SlotSafe}

-- The most turns of the reader until load returns, over a version that stays.
abbrev left : ℕ → SlotReader → ℕ
left version trying = 8
left version (loading v k got) = if version == v then 1 + (6 - k) else 9 + (6 - k)

slot_load-nears :
    (q : SlotReader) (t : PoseSlot)
    → t.cell.version % 2 ≡ 0
    → ((slot_load q t).cell ≡ t.cell)
      × ((length (slot_load q t).loads ≡ length t.loads + 1)
          ⊎ ((left t.cell.version (slot_load q t).reader < left t.cell.version q)
              × (length (slot_load q t).loads ≡ length t.loads)))
unfolding slot_load
slot_load-nears trying t even = ground arith
slot_load-nears (loading v k got) t even = ground arith

slot_load-grows : (q : SlotReader) (t : PoseSlot) → length t.loads ≤ length (slot_load q t).loads
unfolding slot_load
slot_load-grows trying t = ground arith
slot_load-grows (loading v k got) t = ground arith

reads-grow :
    (n : ℕ) (t : PoseSlot) → length t.loads ≤ length (slot_run (replicate n read_next) t).loads
unfolding slot_run slot_turn
reads-grow zero t = omega arith
reads-grow (suc n) t =
    omega (arith, slot_load-grows t.reader t, reads-grow n (slot_load t.reader t))

left_pos : (version : ℕ) (q : SlotReader) → 0 < left version q
left_pos version trying = omega arith
left_pos version (loading v k got) = ground arith

reads_return :
    (n : ℕ) (t : PoseSlot)
    → t.cell.version % 2 ≡ 0
    → left t.cell.version t.reader ≤ n
    → length t.loads < length (slot_run (replicate n read_next) t).loads
unfolding slot_run slot_turn
reads_return zero t even enough = absurd (omega (arith, left_pos t.cell.version t.reader, enough))
reads_return (suc n) t even enough =
    let u = slot_load t.reader t in
    let (same, next) = slot_load-nears t.reader t even in
    let versions : u.cell.version ≡ t.cell.version = ap (λ (c : Cell). c.version) same in
    elim next [
      | inl returned ↦ omega (arith, returned, reads-grow n u)
      | inr (nearer, kept) ↦
          let ih =
            reads_return n u (ap (λ (v : ℕ). v % 2) versions ∙ even)
              (rw versions (omega (arith, nearer, enough))) in
          omega (arith, kept, ih)
    ]

even_at_rest :
    (stores : List Words) (w : SlotWriter) (c : Cell)
    → w ≡ resting
    → Stored stores w c
    → c.version % 2 ≡ 0
even_at_rest stores resting c rests ok = ok.0
even_at_rest stores (storing v k s) c rests ok = absurd (cc)

left-le : (version : ℕ) (q : SlotReader) → left version q ≤ 15
left-le version trying = omega arith
left-le version (loading v k got) = ground arith

-- Whatever stores and loads have run in whatever order of their steps: when no store is under way,
-- load returns after at most fifteen more steps of the reader. Every pose that a load has returned
-- until then has all its words from one and the same store.
pub load_returns :
    (stores : List Words) (turns : List Turn)
    → let t = slot_run turns (fresh_slot stores) in
      let u = slot_run (replicate 15 read_next) t in
      t.writer ≡ resting → (length t.loads < length u.loads) × All (WholeLoad stores) u.loads
load_returns stores turns rests =
    let t = slot_run turns (fresh_slot stores) in
    let v = slot_run-SlotSafe stores turns (fresh_slot stores) (fresh_slot-SlotSafe stores) in
    (
      reads_return 15 t (even_at_rest stores t.writer t.cell rests v.stored)
          (left-le t.cell.version t.reader),
      (slot_run-SlotSafe stores (replicate 15 read_next) t v).returned,
    )
