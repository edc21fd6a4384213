-- ===== src/Engine/Pose/Ring.antt =====
-- The ring against the log of the poses that were pushed: it keeps the newest thirty-two.
use panaudia_lasa.Prelude.{
  get_elem?-below, ℕ, zero, suc, ◌+◌, ◌-◌, ◌%◌, ◌≤◌, ◌<◌, ◌≡◌, ◌≢◌, refl, sym, ap, ◌∙◌, ◌⊎◌, inl,
  inr, true, false, ◌&&◌, some, List, [], ◌∷◌, arith, leb, ltb, ◌==◌, if◌then◌else◌, Bool-cases,
  length, get_elem?, set, take, drop, replicate, length-set, get_elem?-set_self, get_elem?-set_ne,
}
use panaudia_lasa.Engine.Pose.{
  PoseSample, PoseEntry, PoseRing, entry_at, version_of, empty_ring, push, scan_entries, snapshot,
}

module _ {P : Type 0} where
  unfoldable pub last_seq_of : List (PoseSample P) → ℕ
  last_seq_of [] = 0
  last_seq_of (s ∷ log) = s.seq

  -- Pushing on the log, the newest first: what is not newer than the last is dropped.
  unfoldable pub log_push : PoseSample P → List (PoseSample P) → List (PoseSample P)
  log_push s [] = s ∷ []
  log_push s (t ∷ log) = if leb s.seq t.seq then t ∷ log else s ∷ t ∷ log

  pub record Keeps (r : PoseRing P) (log : List (PoseSample P)) : Type 0 where
    pub size : length r.entries ≡ 32
    pub count : r.head ≡ length log
    pub last : r.last_seq ≡ last_seq_of log
    pub stable : (p : ℕ) → version_of (entry_at r p) % 2 ≡ 0
    pub newest :
        (i : ℕ) (s : PoseSample P)
        → i < 32
        → get_elem? log i ≡ some s
        → (e : PoseEntry P) × (entry_at r (r.head - 1 - i) ≡ some e)
          × (e.version % 2 ≡ 0)
          × (e.sample ≡ s)

  drop_cases :
      (xs : List (PoseSample P)) (i : ℕ)
      → ((length xs ≤ i) × (drop i xs ≡ []))
        ⊎ ((s : PoseSample P) × (get_elem? xs i ≡ some s) × (drop i xs ≡ s ∷ drop (suc i) xs))
  drop_cases [] zero = inl (omega arith, refl)
  drop_cases [] (suc i) = inl (omega arith, refl)
  drop_cases (x ∷ xs) zero = inr (x, refl, refl)
  drop_cases (x ∷ xs) (suc i) = elim (drop_cases xs i) [
    | inl (past, e) ↦ inl (omega (arith, past), e)
    | inr (s, at, e) ↦ inr (s, at, e)
  ]

  scan_step :
      (r : PoseRing P) (k i : ℕ) (e : PoseEntry P)
      → ltb i r.head ≡ true
      → entry_at r (r.head - 1 - i) ≡ some e
      → e.version % 2 ≡ 0
      → scan_entries r (suc k) i ≡ e.sample ∷ scan_entries r k (i + 1)
  unfolding scan_entries
  scan_step r k i e inside here even = rw (scan_entries, inside, here, even) refl

  scan_end : (r : PoseRing P) (k i : ℕ) → ltb i r.head ≡ false → scan_entries r (suc k) i ≡ []
  unfolding scan_entries
  scan_end r k i past = rw (scan_entries, past) refl

  scan-take :
      (r : PoseRing P) (log : List (PoseSample P)) (k i : ℕ)
      → Keeps r log
      → i + k ≤ 32
      → scan_entries r k i ≡ take k (drop i log)
  unfolding scan_entries
  scan-take r log zero i v h = refl
  scan-take r log (suc k) i v h = elim (drop_cases log i) [
    | inl (past, e) ↦ rw e (scan_end r k i (ground (arith, v.count)))
    | inr (s, at, e) ↦
        let (x, here, even, is) = v.newest i s (omega arith) at in
        let below = get_elem?-below log i at in
        let inside : ltb i r.head ≡ true = ground (arith, v.count, below) in
        let one : i + 1 ≡ suc i = omega arith in
        let rest : scan_entries r k (i + 1) ≡ take k (drop (suc i) log) =
          rw one (scan-take r log k (suc i) v (omega arith)) in
        rw e (
          scan_step r k i x inside here even
          ∙ ap (λ t. t ∷ scan_entries r k (i + 1)) is
          ∙ ap (λ t. s ∷ t) rest)
  ]

  pub snapshot-take :
      (r : PoseRing P) (log : List (PoseSample P)) → Keeps r log → snapshot r ≡ take 32 log
  unfolding snapshot
  snapshot-take r log v = scan-take r log 32 0 v (omega arith)

  -- The entries after a write at the head.
  abbrev written : PoseRing P → PoseSample P → PoseRing P
  written r s = record r {
    entries =
        set r.entries (r.head % 32)
          (record { version = version_of (entry_at r r.head) + 2; sample = s });
    head = r.head + 1;
    last_seq = s.seq;
  }

  written_here :
      (r : PoseRing P) (log : List (PoseSample P)) (s : PoseSample P) (p : ℕ)
      → Keeps r log
      → p % 32 ≡ r.head % 32
      → entry_at (written r s) p
        ≡ some (record { version = version_of (entry_at r r.head) + 2; sample = s })
  written_here r log s p v at =
      rw at (get_elem?-set_self r.entries (r.head % 32) _ (omega (arith, v.size)))

  written_other :
      (r : PoseRing P) (s : PoseSample P) (p : ℕ)
      → p % 32 ≢ r.head % 32
      → entry_at (written r s) p ≡ entry_at r p
  written_other r s p off = get_elem?-set_ne r.entries _ (λ e. off (sym e))

  written-Keeps :
      (r : PoseRing P) (log : List (PoseSample P)) (s : PoseSample P)
      → Keeps r log
      → Keeps (written r s) (s ∷ log)
  unfolding last_seq_of
  written-Keeps r log s v = record {
    size = length-set r.entries (r.head % 32) _ ∙ v.size;
    count = omega (arith, v.count);
    last = refl;
    stable = stable;
    newest = newest;
  }
    where
      stable : (p : ℕ) → version_of (entry_at (written r s) p) % 2 ≡ 0
      stable p = elim (Bool-cases (p % 32 == r.head % 32)) [
        | inl same ↦ rw (written_here r log s p v (ground arith)) (omega (arith, v.stable r.head))
        | inr other ↦ rw (written_other r s p (λ e. ground (arith, e))) (v.stable p)
      ]

      newest :
          (i : ℕ) (t : PoseSample P)
          → i < 32
          → get_elem? (s ∷ log) i ≡ some t
          → (e : PoseEntry P) × (entry_at (written r s) (r.head + 1 - 1 - i) ≡ some e)
            × (e.version % 2 ≡ 0)
            × (e.sample ≡ t)
      newest zero t h at = (
        record { version = version_of (entry_at r r.head) + 2; sample = s },
        written_here r log s (r.head + 1 - 1 - 0) v (omega arith),
        omega (arith, v.stable r.head),
        ground arith,
      )
      newest (suc i) t h at =
          let (e, here, even, is) = v.newest i t (omega arith) at in
          let below = get_elem?-below log i at in
          let old : r.head + 1 - 1 - suc i ≡ r.head - 1 - i = omega arith in
          let off : (r.head - 1 - i) % 32 ≢ r.head % 32 =
            λ q. omega (arith, q, below, v.count, h) in
          (e, rw old (written_other r s (r.head - 1 - i) off ∙ here), even, is)

  push_dropped :
      (r : PoseRing P) (s : PoseSample P)
      → (ltb 0 r.head && leb s.seq r.last_seq) ≡ true
      → push s r ≡ r
  unfolding push
  push_dropped r s e = rw (push, e) refl

  push-written :
      (r : PoseRing P) (s : PoseSample P)
      → (ltb 0 r.head && leb s.seq r.last_seq) ≡ false
      → push s r ≡ written r s
  unfolding push
  push-written r s e = rw (push, e) refl

  pub push-Keeps :
      (r : PoseRing P) (log : List (PoseSample P)) (s : PoseSample P)
      → Keeps r log
      → Keeps (push s r) (log_push s log)
  unfolding log_push last_seq_of
  push-Keeps r [] s v = rw (push-written r s (ground (arith, v.count))) (written-Keeps r [] s v)
  push-Keeps r (t ∷ log) s v = elim (Bool-cases (leb s.seq t.seq)) [
    | inl stale ↦ rw (stale, push_dropped r s (ground (arith, v.count, v.last))) v
    | inr newer ↦
        rw (newer, push-written r s (ground (arith, v.count, v.last)))
          (written-Keeps r (t ∷ log) s v)
  ]

  blank :
      (n i : ℕ) (e : PoseEntry P) → e.version ≡ 0 → version_of (get_elem? (replicate n e) i) % 2 ≡ 0
  blank zero i e h = refl
  blank (suc n) zero e h = rw h refl
  blank (suc n) (suc i) e h = blank n i e h

  pub empty_ring-Keeps : (zero_pose : P) → Keeps (empty_ring zero_pose) []
  unfolding empty_ring last_seq_of
  empty_ring-Keeps zero_pose = record {
    size = refl;
    count = refl;
    last = refl;
    stable = λ p.
        blank 32 (p % 32)
          (record { version = 0; sample = record { seq = 0; end_sample = 0; pose = zero_pose } })
          refl;
    newest = λ i s h e. absurd (ground (arith, e));
  }

  -- Pushing some poses one after the other, the first of the list first.
  unfoldable pub push_all : List (PoseSample P) → PoseRing P → PoseRing P
  push_all [] r = r
  push_all (s ∷ ss) r = push_all ss (push s r)

  unfoldable pub log_all : List (PoseSample P) → List (PoseSample P) → List (PoseSample P)
  log_all [] log = log
  log_all (s ∷ ss) log = log_all ss (log_push s log)

  push_all-Keeps :
      (ss : List (PoseSample P)) (r : PoseRing P) (log : List (PoseSample P))
      → Keeps r log
      → Keeps (push_all ss r) (log_all ss log)
  unfolding push_all log_all
  push_all-Keeps [] r log v = v
  push_all-Keeps (s ∷ ss) r log v =
      push_all-Keeps ss (push s r) (log_push s log) (push-Keeps r log s v)

  -- After any pushes on a new ring, a snapshot gives the newest thirty-two of the poses whose
  -- sequence number exceeded that of the pose kept before them, the newest first.
  pub snapshot-push_all :
      (zero_pose : P) (ss : List (PoseSample P))
      → snapshot (push_all ss (empty_ring zero_pose)) ≡ take 32 (log_all ss [])
  snapshot-push_all zero_pose ss =
      snapshot-take (push_all ss (empty_ring zero_pose)) (log_all ss [])
        (push_all-Keeps ss (empty_ring zero_pose) [] (empty_ring-Keeps zero_pose))
