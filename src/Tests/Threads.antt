-- ===== src/Tests/Threads.antt =====
-- The pose stores of engine/engine/pose.go, with the steps of their goroutines interleaved.
use panaudia_lasa.Prelude.{
  ℕ, zero, suc, ◌+◌, ◌*◌, ◌<◌, ◌≡◌, refl, List, [], ◌∷◌, ◌++◌, arith, map, length, replicate,
}
use panaudia_lasa.Engine.Pose.Threads.{
  Words, Turn, write_next, read_next, run_turns, fresh_threads, take_turn, write_turn, start_push,
  store_word, read_turn, load_version, load_word,
}
use panaudia_lasa.Engine.Pose.Whole.{All}
use panaudia_lasa.Engine.Pose.Torn.{snapshots_whole}
use panaudia_lasa.Engine.Pose.Vouched.{Whole}
use panaudia_lasa.Engine.Pose.WaitFree.{snapshot_returns}
use panaudia_lasa.Engine.Pose.Slot.{
  SlotWriter, slot_run, fresh_slot, slot_turn, slot_load, slot_store,
}
use panaudia_lasa.Engine.Pose.Loads.{WholeLoad}
use panaudia_lasa.Engine.Pose.Returns.{load_returns}

-- Sample `n`: all of its words are `n`, from 1 on.
abbrev samples : ℕ → ℕ → List Words
samples zero n = []
samples (suc k) n = (λ _. n) ∷ samples k (n + 1)

-- A push is eleven steps: the version, eight words with the version after them, and the head.
abbrev pushed : ℕ → List Turn
pushed n = replicate (n * 11) write_next

-- The reader starts after a push and is overtaken in the middle of the next.
abbrev mixed : List Turn
mixed =
    pushed 1
    ++ (replicate 4 read_next
        ++ (replicate 5 write_next ++ (replicate 20 read_next ++ replicate 20 write_next)))

mixed_reads :
    map (map (λ (w : Words). w 7)) (run_turns mixed (fresh_threads (samples 3 1))).snapshots
    ≡ ((1 ∷ []) ∷ (1 ∷ []) ∷ [])
unfolding run_turns take_turn fresh_threads write_turn start_push store_word read_turn load_version
    load_word
mixed_reads = refl

snapshots_whole_example :
    All (All (Whole (samples 3 1))) (run_turns mixed (fresh_threads (samples 3 1))).snapshots
snapshots_whole_example = snapshots_whole (samples 3 1) mixed

-- The writer goes on between the steps of the reader.
abbrev alternating : ℕ → List Turn
alternating zero = []
alternating (suc n) = write_next ∷ read_next ∷ alternating n

snapshot_returns_example :
    0 < length (run_turns (alternating 322) (fresh_threads (samples 40 1))).snapshots
unfolding fresh_threads
snapshot_returns_example =
    snapshot_returns (alternating 322) (fresh_threads (samples 40 1)) refl (omega arith)

-- Thirty-two poses are in the ring when a scan begins. The scan has copied thirty-one of them when the
-- thirty-third pose is pushed whole into the slot of the oldest, which it then copies as the last.
abbrev lapping : List Turn
lapping = pushed 32 ++ (replicate 311 read_next ++ (pushed 1 ++ replicate 20 read_next))

last_of : List ℕ → ℕ
last_of [] = 0
last_of (n ∷ []) = n
last_of (n ∷ m ∷ ns) = last_of (m ∷ ns)

lapped_snapshot :
    map
      (λ (s : List Words). last_of (map (λ (w : Words). w 0) s))
      (run_turns lapping (fresh_threads (samples 33 1))).snapshots
    ≡ (33 ∷ [])
unfolding run_turns take_turn fresh_threads write_turn start_push store_word read_turn load_version
    load_word last_of
lapped_snapshot = refl

-- A load overtaken by a store tries again, and returns the second pose.
abbrev stored_twice : List Turn
stored_twice = replicate 8 write_next ++ (replicate 3 read_next ++ replicate 8 write_next)

twice_stored : (slot_run stored_twice (fresh_slot (samples 2 1))).writer ≡ SlotWriter.resting
unfolding slot_run slot_turn slot_load slot_store fresh_slot
twice_stored = refl

load_returns_example :
    let t = slot_run stored_twice (fresh_slot (samples 2 1)) in
    let u = slot_run (replicate 15 read_next) t in
    (length t.loads < length u.loads) × All (WholeLoad (samples 2 1)) u.loads
load_returns_example = load_returns (samples 2 1) stored_twice twice_stored
