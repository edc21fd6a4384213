-- ===== src/Engine/Pose/Torn.antt =====
-- push and snapshot of engine/engine/pose.go, interleaved: the writer's steps, and what snapshots hold.
use panaudia_lasa.Prelude.{
  ℕ, ◌+◌, ◌%◌, ◌≤◌, ◌<◌, ◌≡◌, refl, sym, ap, ◌∙◌, inl, inr, ◌&&◌, ltb→lt, leb, List, [], ◌∷◌, arith,
  ltb, ◌==◌, Bool-cases,
}
use panaudia_lasa.Prelude.Map.{overlay, overlay_at, overlay_ne}
use panaudia_lasa.Engine.Pose.Threads.{
  Words, Cell, Writer, resting, storing, stored, Reader, away, scanning, loading, Threads, slot_of,
  slot_back, start_push, store_word, write_turn, Turn, write_next, read_next, take_turn, run_turns,
  fresh_threads,
}
use panaudia_lasa.Engine.Pose.Whole.{All, OneOf-Same, All-OneOf}
use panaudia_lasa.Engine.Pose.Vouched.{Whole, Stable, WriterOk, ReaderOk, Safe, read_turn-Safe}

module _ (pushes : List Words) where
  -- What the writer may change under a scan: the version of a cell only grows, and its words only
  -- under another version than before.
  Moves : (ℕ → Cell) → (ℕ → Cell) → Type 0
  Moves cells next =
      (e : ℕ)
      → ((cells e).version ≤ (next e).version)
        × (((next e).version % 2 ≡ 0)
            → (next e).version ≡ (cells e).version
            → (j : ℕ) → (next e).words j ≡ (cells e).words j)

  Moves-overlay :
      (cells : ℕ → Cell) (i : ℕ) (c : Cell)
      → (cells i).version ≤ c.version
      → (c.version % 2 ≡ 0
          → c.version ≡ (cells i).version
          → (j : ℕ) → c.words j ≡ (cells i).words j)
      → Moves cells (overlay cells i c)
  unfolding Moves
  Moves-overlay cells i c up same e = elim (Bool-cases (i == e)) [
    | inl here ↦ let at : i ≡ e = ground arith in rw (here, ← at) (up, same)
    | inr off ↦ rw off (omega arith, λ _ _ j. refl)
  ]

  ReaderOk-Moves :
      (q : Reader) (cells next : ℕ → Cell) (head later : ℕ)
      → head ≤ later
      → Moves cells next
      → ReaderOk pushes q cells head
      → ReaderOk pushes q next later
  unfolding Moves
  ReaderOk-Moves away cells next head later le m ok = _
  ReaderOk-Moves (scanning h i out) cells next head later le m ok = (omega (arith, ok.0), ok.1)
  ReaderOk-Moves (loading h i v k got out) cells next head later le m ok =
      let e = slot_back h i in
      (
        omega (arith, ok.0),
        ok.1,
        ok.2,
        omega (arith, ok.3, (m e).0),
        λ same j lt.
            let before : (cells e).version ≡ v = omega (arith, same, ok.3, (m e).0) in
            ok.4 before j lt ∙ sym ((m e).1 (omega (arith, same, ok.1)) (same ∙ sym before) j),
        ok.5,
      )

  -- A turn of the writer from what its steps do to the cells.
  write-Safe :
      (t u : Threads)
      → Safe pushes t
      → WriterOk pushes u.writer u.cells u.head
      → Moves t.cells u.cells
      → t.head ≤ u.head
      → ((e : ℕ) → e < 32 → t.head ≤ e → e < u.head → 0 < (u.cells e).version)
      → All (Whole pushes) u.todo
      → u.reader ≡ t.reader
      → u.snapshots ≡ t.snapshots
      → Safe pushes u
  unfolding Moves
  write-Safe t u v ok m le new queue same_reader same_taken = record {
    writes = ok;
    reads = rw same_reader (ReaderOk-Moves t.reader t.cells u.cells t.head u.head le m v.reads);
    filled = λ e small lt. elim (Bool-cases (ltb e t.head)) [
      | inl old ↦ omega (arith, (m e).0, v.filled e small (ltb→lt e t.head old))
      | inr fresh_threads ↦ new e small (ground arith) lt
    ];
    queued = queue;
    taken = rw same_taken v.taken;
  }

  start_push-Safe :
      (todo : List Words) (t : Threads)
      → Safe pushes t
      → t.writer ≡ resting
      → ((e : ℕ) → Stable pushes (t.cells e))
      → All (Whole pushes) todo
      → Safe pushes (start_push todo t)
  unfolding start_push Moves
  start_push-Safe [] t v idle ok q = v
  start_push-Safe (s ∷ rest) t v idle ok q =
      let e = slot_of t.head in
      let c = t.cells e in
      elim (Bool-cases (ltb 0 t.head && leb (s 0) t.last_seq)) [
        | inl old ↦ rw old (
            write-Safe t (record t { todo = rest }) v (rw idle ok)
              (λ e. (omega arith, λ _ _ j. refl)) (omega arith) (λ e _ lo hi. absurd (omega arith))
              q.1 refl refl)
        | inr new ↦ rw new (
            write-Safe t _ v
              (
                λ x ne.
                    rw (overlay_ne t.cells e x (record c { version = c.version + 1 }) ne) (ok x),
                refl,
                (ok e).0,
                ap (λ (c : Cell). c.version)
                    (overlay_at t.cells e (record c { version = c.version + 1 })),
                λ j lt. elim lt [ ],
                q.0,
              )
              (Moves-overlay t.cells e (record c { version = c.version + 1 }) (omega arith)
                (λ _ same. absurd (omega arith)))
              (omega arith) (λ e _ lo hi. absurd (omega arith)) q.1 refl refl)
      ]

  store_word-Safe :
      (h n k : ℕ) (s : Words) (t : Threads)
      → Safe pushes t
      → WriterOk pushes (storing h n k s) t.cells t.head
      → Safe pushes (store_word h n k s t)
  unfolding store_word Moves
  store_word-Safe h n k s t v (others, at, even, odd, so_far, whole) = elim (Bool-cases (ltb k 8)) [
    | inl more ↦ rw more (
        write-Safe t _ v
          (
            λ x ne.
                rw
                  (overlay_ne t.cells (slot_of h) x
                    (record (t.cells (slot_of h)) {
                      words = overlay (t.cells (slot_of h)).words k (s k);
                    })
                    ne)
                  (others x ne),
            at,
            even,
            ap (λ (c : Cell). c.version)
                  (overlay_at t.cells (slot_of h) (record (t.cells (slot_of h)) {
                    words = overlay (t.cells (slot_of h)).words k (s k);
                  }))
                ∙ odd,
            λ j lt.
                rw
                  (overlay_at t.cells (slot_of h) (record (t.cells (slot_of h)) {
                    words = overlay (t.cells (slot_of h)).words k (s k);
                  }))
                  (ground (arith, so_far j)),
            whole,
          )
          (Moves-overlay t.cells (slot_of h)
            (record (t.cells (slot_of h)) { words = overlay (t.cells (slot_of h)).words k (s k) })
            (omega arith) (λ e _. absurd (omega (arith, odd, even))))
          (omega arith) (λ e _ lo hi. absurd (omega arith)) v.queued refl refl)
    | inr done ↦ rw done (
        write-Safe t _ v
          (
            λ x. elim (Bool-cases (slot_of h == x)) [
              | inl here ↦ rw here (
                omega (arith, even),
                λ _. OneOf-Same 8 pushes _ s (λ j lt. so_far j (ground arith)) whole,
              )
              | inr off ↦ rw off (others x (ground arith))
            ],
            at,
            rw (overlay_at t.cells (slot_of h) (record (t.cells (slot_of h)) { version = n + 2 }))
                (omega arith),
          )
          (Moves-overlay t.cells (slot_of h) (record (t.cells (slot_of h)) { version = n + 2 })
            (omega (arith, odd)) (λ _ same. absurd (omega (arith, odd))))
          (omega arith) (λ e _ lo hi. absurd (omega arith)) v.queued refl refl)
  ]

  write_turn-Safe :
      (w : Writer) (t : Threads)
      → Safe pushes t
      → t.writer ≡ w
      → WriterOk pushes w t.cells t.head
      → Safe pushes (write_turn w t)
  unfolding write_turn Moves
  write_turn-Safe resting t v at ok = start_push-Safe t.todo t v at ok v.queued
  write_turn-Safe (storing h n k s) t v at ok = store_word-Safe h n k s t v ok
  write_turn-Safe (stored h) t v at ok =
      write-Safe t _ v ok.0 (λ e. (omega arith, λ _ _ j. refl)) (omega (arith, ok.1))
        (λ e small lo hi. rw (← (let at : slot_of h ≡ e = omega (arith, ok.1) in at)) (ok.2))
        v.queued refl refl

  take_turn-Safe : (x : Turn) (t : Threads) → Safe pushes t → Safe pushes (take_turn x t)
  unfolding take_turn
  take_turn-Safe write_next t v = write_turn-Safe t.writer t v refl v.writes
  take_turn-Safe read_next t v = read_turn-Safe pushes t.reader t v v.reads

  run_turns-Safe :
      (turns : List Turn) (t : Threads) → Safe pushes t → Safe pushes (run_turns turns t)
  unfolding run_turns
  run_turns-Safe [] t v = v
  run_turns-Safe (x ∷ xs) t v = run_turns-Safe xs (take_turn x t) (take_turn-Safe x t v)

-- In whatever order the steps of the writer and the reader come, every sample of every snapshot has
-- all of its eight words from one and the same push.
pub snapshots_whole :
    (pushes : List Words) (turns : List Turn)
    → All (All (Whole pushes)) (run_turns turns (fresh_threads pushes)).snapshots
unfolding fresh_threads
snapshots_whole pushes turns =
    (run_turns-Safe pushes turns (fresh_threads pushes) (record {
      writes = λ e. (omega arith, λ used. elim used [ ]);
      reads = _;
      filled = λ e _ lt. elim lt [ ];
      queued = All-OneOf 8 pushes;
      taken = _;
    })).taken
