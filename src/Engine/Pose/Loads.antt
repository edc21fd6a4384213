-- ===== src/Engine/Pose/Loads.antt =====
-- store and load of engine/engine/pose.go's poseSlot, interleaved: the state between two steps.
use panaudia_lasa.Prelude.{
  ℕ, ◌+◌, ◌%◌, ◌≤◌, ◌<◌, ◌≡◌, refl, sym, ◌∙◌, inl, inr, Bool-cases, Option, none, some, List, [],
  ◌∷◌, arith, ltb, ◌==◌,
}
use panaudia_lasa.Engine.Pose.Threads.{Words, Cell, Turn, write_next, read_next}
use panaudia_lasa.Engine.Pose.Whole.{All, OneOf, OneOf-Same, All-OneOf}
use panaudia_lasa.Engine.Pose.Slot.{
  SlotWriter, resting, storing, SlotReader, trying, loading, PoseSlot, start_store, slot_store,
  slot_load, slot_turn, slot_run, fresh_slot,
}

module _ (stores : List Words) where
  abbrev pub WholePose : Words → Type 0
  WholePose = OneOf 6 stores

  abbrev pub Stored : SlotWriter → Cell → Type 0
  Stored resting c = (c.version % 2 ≡ 0) × (0 < c.version → WholePose c.words)
  Stored (storing v k s) c =
      (v % 2 ≡ 0) × (c.version ≡ v + 1) × ((j : ℕ) → j < k → c.words j ≡ s j) × WholePose s

  abbrev pub Copied : SlotReader → Cell → Type 0
  Copied trying c = Unit
  Copied (loading v k got) c =
      (v % 2 ≡ 0)
      × (0 < v)
      × (v ≤ c.version)
      × (c.version ≡ v → (j : ℕ) → j < k → got j ≡ c.words j)

  abbrev pub WholeLoad : Option Words → Type 0
  WholeLoad none = Unit
  WholeLoad (some w) = WholePose w

  pub record SlotSafe (t : PoseSlot) : Type 0 where
    pub stored : Stored t.writer t.cell
    pub loaded : Copied t.reader t.cell
    pub queued : All WholePose t.todo
    pub returned : All WholeLoad t.loads

  -- A store only raises the version, and touches the words only under an odd or a new version.
  Copied-raise :
      (q : SlotReader) (c d : Cell)
      → c.version ≤ d.version
      → (d.version % 2 ≡ 0 → d.version ≡ c.version → (j : ℕ) → d.words j ≡ c.words j)
      → Copied q c
      → Copied q d
  Copied-raise trying c d up same ok = _
  Copied-raise (loading v k got) c d up same ok = (
    ok.0,
    ok.1,
    omega (arith, ok.2),
    λ at j lt.
        let before : c.version ≡ v = omega (arith, at, ok.2, up) in
        ok.3 before j lt ∙ sym (same (omega (arith, at, ok.0)) (at ∙ sym before) j),
  )

  start_store-SlotSafe :
      (todo : List Words) (t : PoseSlot)
      → SlotSafe t
      → t.writer ≡ resting
      → Stored resting t.cell
      → All WholePose todo
      → SlotSafe (start_store todo t)
  unfolding start_store
  start_store-SlotSafe [] t v at ok q = v
  start_store-SlotSafe (s ∷ rest) t v at ok q = record {
    stored = (ok.0, refl, λ j lt. elim lt [ ], q.0);
    loaded =
        Copied-raise t.reader t.cell _ (omega arith) (λ _ same. absurd (omega (arith, same)))
          v.loaded;
    queued = q.1;
    returned = v.returned;
  }

  slot_store-SlotSafe :
      (w : SlotWriter) (t : PoseSlot)
      → SlotSafe t
      → t.writer ≡ w
      → Stored w t.cell
      → SlotSafe (slot_store w t)
  unfolding slot_store
  slot_store-SlotSafe resting t v at ok = start_store-SlotSafe t.todo t v at ok v.queued
  slot_store-SlotSafe (storing n k s) t v at (even, odd, so_far, whole) =
      elim (Bool-cases (ltb k 6)) [
        | inl more ↦ rw more (record {
          stored = (even, odd, λ j lt. ground (arith, so_far j), whole);
          loaded =
              Copied-raise t.reader t.cell _ (omega arith) (λ e. absurd (omega (arith, odd, even)))
                v.loaded;
          queued = v.queued;
          returned = v.returned;
        })
        | inr done ↦ rw done (record {
          stored = (
            omega (arith, even),
            λ _. OneOf-Same 6 stores t.cell.words s (λ j lt. so_far j (ground arith)) whole,
          );
          loaded =
              Copied-raise t.reader t.cell _ (omega (arith, odd))
                (λ _ same. absurd (omega (arith, odd, same))) v.loaded;
          queued = v.queued;
          returned = v.returned;
        })
      ]

  Stored-rests :
      (w : SlotWriter) (c : Cell)
      → Stored w c
      → c.version % 2 ≡ 0
      → 0 < c.version
      → WholePose c.words
  Stored-rests resting c ok even used = ok.1 used
  Stored-rests (storing v k s) c ok even used = absurd (omega (arith, ok.0, ok.1))

  slot_load-SlotSafe :
      (q : SlotReader) (t : PoseSlot) → SlotSafe t → Copied q t.cell → SlotSafe (slot_load q t)
  unfolding slot_load
  slot_load-SlotSafe trying t v ok = ground arith
  slot_load-SlotSafe (loading n k got) t v (even, used, below, vouch) =
      elim (Bool-cases (ltb k 6)) [
        | inl more ↦ rw more (record {
          stored = v.stored;
          loaded = (even, used, below, λ same j lt. ground (arith, vouch same j));
          queued = v.queued;
          returned = v.returned;
        })
        | inr done ↦ elim (Bool-cases (t.cell.version == n)) [
          | inr moved ↦
              rw (done, moved)
                (record { stored = v.stored; loaded = _; queued = v.queued; returned = v.returned })
          | inl same ↦
              let here : t.cell.version ≡ n = ground arith in
              let whole =
                Stored-rests t.writer t.cell v.stored (omega (arith, even, here))
                  (omega (arith, used, here)) in
              let got_whole =
                OneOf-Same 6 stores got t.cell.words (λ j lt. vouch here j (ground arith)) whole in
              rw (done, same)
                (record {
                  stored = v.stored;
                  loaded = _;
                  queued = v.queued;
                  returned = (got_whole, v.returned);
                })
        ]
      ]

  slot_turn-SlotSafe : (x : Turn) (t : PoseSlot) → SlotSafe t → SlotSafe (slot_turn x t)
  unfolding slot_turn
  slot_turn-SlotSafe write_next t v = slot_store-SlotSafe t.writer t v refl v.stored
  slot_turn-SlotSafe read_next t v = slot_load-SlotSafe t.reader t v v.loaded

  pub slot_run-SlotSafe :
      (turns : List Turn) (t : PoseSlot) → SlotSafe t → SlotSafe (slot_run turns t)
  unfolding slot_run
  slot_run-SlotSafe [] t v = v
  slot_run-SlotSafe (x ∷ xs) t v = slot_run-SlotSafe xs (slot_turn x t) (slot_turn-SlotSafe x t v)

  pub fresh_slot-SlotSafe : SlotSafe (fresh_slot stores)
  unfolding fresh_slot
  fresh_slot-SlotSafe = record {
    stored = (refl, λ used. elim used [ ]);
    loaded = _;
    queued = All-OneOf 6 stores;
    returned = _;
  }
