-- ===== src/Engine/Pose/Threads.antt =====
-- engine/engine/pose.go: poseRing.push and poseRing.snapshot as steps on their atomic fields, the
-- writer's and the reader's in any order. A sample is its eight uint64 words in the order of their
-- stores: the seq, the end sample and the bits of the pose. A store is one step, with the loads of
-- what only the writer itself stores: the head, the last seq and the version.
use panaudia_lasa.Prelude.{
  ℕ, ◌+◌, ◌-◌, ◌%◌, ◌&&◌, List, [], ◌∷◌, ◌++◌, leb, ltb, ◌==◌, if◌then◌else◌,
}
use panaudia_lasa.Prelude.Map.{overlay}

abbrev pub Words : Type 0
Words = ℕ → ℕ

abbrev pub word_count : ℕ
word_count = 8

-- A poseEntry.
pub record Cell : Type 0 where
  pub version : ℕ
  pub words : Words

-- Where the writer is in push: outside, before it stores word `k` over the version `v`, or before it
-- stores the head.
pub data Writer : Type 0 where
  resting : Writer
  storing : (h v k : ℕ) → Words → Writer
  stored : (h : ℕ) → Writer

-- Where the reader is in snapshot: outside, before it loads the version of entry `i`, or before it
-- loads word `k`; the last argument is `dst`, the newest first.
pub data Reader : Type 0 where
  away : Reader
  scanning : (h i : ℕ) → List Words → Reader
  loading : (h i v k : ℕ) → Words → List Words → Reader

-- The samples that are to be pushed, and the snapshots that were taken, the last one first.
pub record Threads : Type 0 where
  pub cells : ℕ → Cell
  pub head : ℕ
  pub last_seq : ℕ
  pub todo : List Words
  pub writer : Writer
  pub reader : Reader
  pub snapshots : List (List Words)

abbrev pub slot_of : ℕ → ℕ
slot_of p = p % 32

-- The slot of entry `i` of a scan from the head `h`.
abbrev pub slot_back : ℕ → ℕ → ℕ
slot_back h i = slot_of (h - 1 - i)

unfoldable pub start_push : List Words → Threads → Threads
start_push [] t = t
start_push (s ∷ rest) t =
    let e = slot_of t.head in
    let c = t.cells e in
    if ltb 0 t.head && leb (s 0) t.last_seq then record t { todo = rest } else record t {
      todo = rest;
      last_seq = s 0;
      cells = overlay t.cells e (record c { version = c.version + 1 });
      writer = storing t.head c.version 0 s;
    }

unfoldable pub store_word : (h v k : ℕ) → Words → Threads → Threads
store_word h v k s t =
    let e = slot_of h in
    let c = t.cells e in
    if ltb k word_count
    then record t {
      cells = overlay t.cells e (record c { words = overlay c.words k (s k) });
      writer = storing h v (k + 1) s;
    }
    else record t { cells = overlay t.cells e (record c { version = v + 2 }); writer = stored h }

unfoldable pub write_turn : Writer → Threads → Threads
write_turn resting t = start_push t.todo t
write_turn (storing h v k s) t = store_word h v k s t
write_turn (stored h) t = record t { head = h + 1; writer = resting }

abbrev pub return_with : List Words → Threads → Threads
return_with out t = record t { snapshots = out ∷ t.snapshots; reader = away }

unfoldable pub load_version : (h i : ℕ) → List Words → Threads → Threads
load_version h i out t =
    let v = (t.cells (slot_back h i)).version in
    if ltb i 32 && ltb i h && ((v % 2) == 0)
    then record t { reader = loading h i v 0 (λ _. 0) out }
    else return_with out t

unfoldable pub load_word : (h i v k : ℕ) → Words → List Words → Threads → Threads
load_word h i v k got out t =
    let c = t.cells (slot_back h i) in
    if ltb k word_count
    then record t { reader = loading h i v (k + 1) (overlay got k (c.words k)) out }
    else if c.version == v
    then record t { reader = scanning h (i + 1) (out ++ (got ∷ [])) }
    else return_with out t

unfoldable pub read_turn : Reader → Threads → Threads
read_turn away t = record t { reader = scanning t.head 0 [] }
read_turn (scanning h i out) t = load_version h i out t
read_turn (loading h i v k got out) t = load_word h i v k got out t

pub data Turn : Type 0 where
  write_next read_next : Turn

unfoldable pub take_turn : Turn → Threads → Threads
take_turn write_next t = write_turn t.writer t
take_turn read_next t = read_turn t.reader t

unfoldable pub run_turns : List Turn → Threads → Threads
run_turns [] t = t
run_turns (x ∷ xs) t = run_turns xs (take_turn x t)

-- The zero value of a ring, with both goroutines outside their calls.
unfoldable pub fresh_threads : List Words → Threads
fresh_threads pushes = record {
  cells = λ _. record { version = 0; words = λ _. 0 };
  head = 0;
  last_seq = 0;
  todo = pushes;
  writer = resting;
  reader = away;
  snapshots = [];
}
