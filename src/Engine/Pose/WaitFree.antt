-- ===== src/Engine/Pose/WaitFree.antt =====
-- snapshot of engine/engine/pose.go, interleaved with push: how many steps it takes.
use panaudia_lasa.Prelude.{
  ℕ, suc, ◌+◌, ◌-◌, ◌*◌, ◌≤◌, ◌<◌, ◌≡◌, refl, ap, ◌⊎◌, inl, inr, List, [], ◌∷◌, arith, length,
}
use panaudia_lasa.Engine.Pose.Threads.{
  Words, Writer, resting, storing, stored, Reader, away, scanning, loading, Threads, start_push,
  store_word, write_turn, load_version, load_word, read_turn, Turn, write_next, read_next,
  take_turn, run_turns,
}

abbrev pub reads_in : List Turn → ℕ
reads_in [] = 0
reads_in (write_next ∷ xs) = reads_in xs
reads_in (read_next ∷ xs) = suc (reads_in xs)

-- The most turns of the reader until its snapshot returns: ten for an entry, and one at each end.
abbrev left : Reader → ℕ
left away = 322
left (scanning h i out) = (32 - i) * 10 + 1
left (loading h i v k got out) = (32 - i) * 10 - k

abbrev InScan : Reader → Type 0
InScan away = Unit
InScan (scanning h i out) = i ≤ 32
InScan (loading h i v k got out) = (i < 32) × (k ≤ 8)

start_push-reader :
    (todo : List Words) (t : Threads)
    → ((start_push todo t).reader ≡ t.reader) × ((start_push todo t).snapshots ≡ t.snapshots)
unfolding start_push
start_push-reader [] t = (refl, refl)
start_push-reader (s ∷ rest) t = ground arith

write_turn-reader :
    (w : Writer) (t : Threads)
    → ((write_turn w t).reader ≡ t.reader) × ((write_turn w t).snapshots ≡ t.snapshots)
unfolding write_turn store_word
write_turn-reader resting t = start_push-reader t.todo t
write_turn-reader (storing h v k s) t = ground arith
write_turn-reader (stored h) t = (refl, refl)

-- The snapshot returns, or the reader is a turn closer to that.
Nears : Reader → Threads → Threads → Type 0
Nears q t u =
    (length u.snapshots ≡ length t.snapshots + 1)
    ⊎ (InScan u.reader × (left u.reader < left q) × (length u.snapshots ≡ length t.snapshots))

read_turn-Nears : (q : Reader) (t : Threads) → InScan q → Nears q t (read_turn q t)
unfolding Nears read_turn load_version load_word
read_turn-Nears away t b = inr (omega arith, omega arith, refl)
read_turn-Nears (scanning h i out) t b = ground arith
read_turn-Nears (loading h i v k got out) t b = ground arith

left_pos : (q : Reader) → InScan q → 0 < left q
left_pos away b = omega arith
left_pos (scanning h i out) b = omega arith
left_pos (loading h i v k got out) b = omega (arith, b.0, b.1)

read_turn-length :
    (q : Reader) (t : Threads) → length t.snapshots ≤ length (read_turn q t).snapshots
unfolding read_turn load_version load_word
read_turn-length away t = omega arith
read_turn-length (scanning h i out) t = ground arith
read_turn-length (loading h i v k got out) t = ground arith

take_turn-length : (x : Turn) (t : Threads) → length t.snapshots ≤ length (take_turn x t).snapshots
unfolding take_turn
take_turn-length write_next t = rw ((write_turn-reader t.writer t).1) (omega arith)
take_turn-length read_next t = read_turn-length t.reader t

run_turns-length :
    (turns : List Turn) (t : Threads) → length t.snapshots ≤ length (run_turns turns t).snapshots
unfolding run_turns
run_turns-length [] t = omega arith
run_turns-length (x ∷ xs) t =
    omega (arith, take_turn-length x t, run_turns-length xs (take_turn x t))

returns_in_time :
    (turns : List Turn) (t : Threads)
    → InScan t.reader
    → left t.reader ≤ reads_in turns
    → length t.snapshots < length (run_turns turns t).snapshots
unfolding run_turns take_turn Nears
returns_in_time [] t b enough = absurd (omega (arith, left_pos t.reader b, enough))
returns_in_time (write_next ∷ xs) t b enough =
    let same = write_turn-reader t.writer t in
    let ih = returns_in_time xs (write_turn t.writer t) (rw same.0 b) (rw same.0 enough) in
    omega (arith, ih, ap (λ l. length l) same.1)
returns_in_time (read_next ∷ xs) t b enough = elim (read_turn-Nears t.reader t b) [
  | inl returned ↦ omega (arith, returned, run_turns-length xs (read_turn t.reader t))
  | inr (b', nearer, same) ↦
      omega
        (arith, same, returns_in_time xs (read_turn t.reader t) b' (omega (arith, nearer, enough)))
]

-- A snapshot that is called takes 322 turns of the reader at most, whatever turns of the writer come
-- between them.
pub snapshot_returns :
    (turns : List Turn) (t : Threads)
    → t.reader ≡ away
    → 322 ≤ reads_in turns
    → length t.snapshots < length (run_turns turns t).snapshots
snapshot_returns turns t idle enough = returns_in_time turns t (rw idle _) (rw idle enough)
