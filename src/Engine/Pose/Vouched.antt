-- ===== src/Engine/Pose/Vouched.antt =====
-- push and snapshot of engine/engine/pose.go, interleaved: the state between two steps, and the
-- reader's steps.
use panaudia_lasa.Prelude.{
  ℕ, ◌+◌, ◌%◌, ◌≤◌, ◌<◌, ◌≡◌, ◌≢◌, ap, inl, inr, ◌&&◌, List, arith, ltb, ◌==◌, Bool-cases,
}
use panaudia_lasa.Engine.Pose.Threads.{
  Words, Cell, Writer, resting, storing, stored, Reader, away, scanning, loading, Threads, slot_of,
  slot_back, load_version, load_word, read_turn,
}
use panaudia_lasa.Engine.Pose.Whole.{All, All-append, OneOf, OneOf-Same}

module _ (pushes : List Words) where
  -- A whole sample: all the words of one and the same push.
  abbrev pub Whole : Words → Type 0
  Whole = OneOf 8 pushes

  -- What a cell holds while nobody stores in it.
  abbrev pub Stable : Cell → Type 0
  Stable c = (c.version % 2 ≡ 0) × (0 < c.version → Whole c.words)

  abbrev pub WriterOk : Writer → (ℕ → Cell) → ℕ → Type 0
  WriterOk resting cells head = (e : ℕ) → Stable (cells e)
  WriterOk (stored h) cells head =
      ((e : ℕ) → Stable (cells e)) × (h ≡ head) × (0 < (cells (slot_of h)).version)
  WriterOk (storing h v k s) cells head =
      ((e : ℕ) → slot_of h ≢ e → Stable (cells e))
      × (h ≡ head)
      × (v % 2 ≡ 0)
      × ((cells (slot_of h)).version ≡ v + 1)
      × ((j : ℕ) → j < k → (cells (slot_of h)).words j ≡ s j)
      × Whole s

  -- A version that is still the one loaded vouches for the words loaded so far.
  abbrev Vouches : (v k : ℕ) → Words → Cell → Type 0
  Vouches v k got c = c.version ≡ v → (j : ℕ) → j < k → got j ≡ c.words j

  abbrev pub ReaderOk : Reader → (ℕ → Cell) → ℕ → Type 0
  ReaderOk away cells head = Unit
  ReaderOk (scanning h i out) cells head = (h ≤ head) × All Whole out
  ReaderOk (loading h i v k got out) cells head =
      (h ≤ head)
      × (v % 2 ≡ 0)
      × (0 < v)
      × (v ≤ (cells (slot_back h i)).version)
      × Vouches v k got (cells (slot_back h i))
      × All Whole out

  pub record Safe (t : Threads) : Type 0 where
    pub writes : WriterOk t.writer t.cells t.head
    pub reads : ReaderOk t.reader t.cells t.head
    pub filled : (e : ℕ) → e < 32 → e < t.head → 0 < (t.cells e).version
    pub queued : All Whole t.todo
    pub taken : All (All Whole) t.snapshots

  -- A cell of an even version is at rest.
  Stable-even :
      (w : Writer) (cells : ℕ → Cell) (head e : ℕ)
      → WriterOk w cells head
      → (cells e).version % 2 ≡ 0
      → Stable (cells e)
  Stable-even resting cells head e ok even = ok e
  Stable-even (stored h) cells head e ok even = ok.0 e
  Stable-even (storing h v k s) cells head e ok even =
      ok.0 e (λ same. absurd (omega (arith, ok.2, ok.3, ap (λ (x : ℕ). (cells x).version) same)))

  load_version-Safe :
      (h i : ℕ) (out : List Words) (t : Threads)
      → Safe t
      → ReaderOk (scanning h i out) t.cells t.head
      → Safe (load_version h i out t)
  unfolding load_version
  load_version-Safe h i out t v (le, all) =
      let c = t.cells (slot_back h i) in
      elim (Bool-cases (ltb i 32 && ltb i h && ((c.version % 2) == 0))) [
        | inr stop ↦ rw stop (record {
          writes = v.writes;
          reads = _;
          filled = v.filled;
          queued = v.queued;
          taken = (all, v.taken);
        })
        | inl go ↦ rw go (record {
          writes = v.writes;
          reads = (
            le,
            ground arith,
            v.filled (slot_back h i) (omega arith) (ground arith),
            omega arith,
            λ _ j lt. elim lt [ ],
            all,
          );
          filled = v.filled;
          queued = v.queued;
          taken = v.taken;
        })
      ]

  load_word-Safe :
      (h i n k : ℕ) (got : Words) (out : List Words) (t : Threads)
      → Safe t
      → ReaderOk (loading h i n k got out) t.cells t.head
      → Safe (load_word h i n k got out t)
  unfolding load_word
  load_word-Safe h i n k got out t v (le, even, used, below, vouch, all) =
      let c = t.cells (slot_back h i) in
      elim (Bool-cases (ltb k 8)) [
        | inl more ↦ rw more (record {
          writes = v.writes;
          reads = (le, even, used, below, λ same j lt. ground (arith, vouch same j), all);
          filled = v.filled;
          queued = v.queued;
          taken = v.taken;
        })
        | inr done ↦ elim (Bool-cases (c.version == n)) [
          | inr moved ↦
              rw (done, moved)
                (record {
                  writes = v.writes;
                  reads = _;
                  filled = v.filled;
                  queued = v.queued;
                  taken = (all, v.taken);
                })
          | inl same ↦
              let here : c.version ≡ n = ground arith in
              let rest =
                Stable-even t.writer t.cells t.head (slot_back h i) v.writes
                  (omega (arith, even, here)) in
              rw (done, same)
                (record {
                  writes = v.writes;
                  reads = (
                    le,
                    All-append Whole out got all (
                        OneOf-Same 8 pushes got c.words (λ j lt. vouch here j (ground arith))
                          (rest.1 (omega (arith, used, here)))),
                  );
                  filled = v.filled;
                  queued = v.queued;
                  taken = v.taken;
                })
        ]
      ]

  pub read_turn-Safe :
      (q : Reader) (t : Threads) → Safe t → ReaderOk q t.cells t.head → Safe (read_turn q t)
  unfolding read_turn
  read_turn-Safe away t v ok = record {
    writes = v.writes;
    reads = (omega arith, _);
    filled = v.filled;
    queued = v.queued;
    taken = v.taken;
  }
  read_turn-Safe (scanning h i out) t v ok = load_version-Safe h i out t v ok
  read_turn-Safe (loading h i n k got out) t v ok = load_word-Safe h i n k got out t v ok
