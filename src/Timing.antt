-- ===== src/Timing.antt =====
-- engine/timing/ticker.go: the ticker that paces a mixer. A time.Time is a count of nanoseconds, a
-- duration an integer. The two readings of the clock in a Tick are arguments; what is printed and
-- the sleep itself are left out.
pub mod Drift
use panaudia_lasa.Prelude.{
  ℕ, ◌+◌, ◌-◌, ◌*◌, ◌/◌, Bool, true, false, List, [], ◌∷◌, ltb, ◌==◌, if◌then◌else◌,
}
use panaudia_lasa.Prelude.Int.{ℤ, pos, ◌+ℤ◌, ◌-ℤ◌, ltb_ℤ}

pub record Ticker : Type 0 where
  pub previous : ℕ
  pub after : ℕ
  pub before : ℕ
  pub target_time : ℕ
  pub diff : ℤ
  pub took : ℤ
  pub total_sleep : ℤ
  pub total_took : ℤ
  pub sleep : ℤ
  pub jitter : ℤ
  pub dur : ℕ
  pub ticks : ℕ
  pub ms : ℕ
  pub ticks_per_second : ℕ
  pub tight : Bool

-- What the four constructors share.
unfoldable pub ticker_at : (now dur ms per_second : ℕ) → Bool → Ticker
ticker_at now dur ms per_second tight = record {
  previous = now;
  after = now;
  before = now;
  target_time = now + dur;
  diff = pos 0;
  took = pos 0;
  total_sleep = pos 0;
  total_took = pos 0;
  sleep = pos 0;
  jitter = pos 0;
  dur = dur;
  ticks = 0;
  ms = ms;
  ticks_per_second = per_second;
  tight = tight;
}

unfoldable pub new_ticker : ℕ → ℕ → Ticker
unfolding ticker_at
new_ticker ms now = ticker_at now (ms * 1_000_000) ms (1000 / ms) true

unfoldable pub new_ticker_us : ℕ → ℕ → Ticker
unfolding ticker_at
new_ticker_us us now = ticker_at now (us * 1000) 0 (1_000_000 / us) true

unfoldable pub new_loose_ticker : ℕ → ℕ → Ticker
unfolding ticker_at
new_loose_ticker ms now = ticker_at now (ms * 1_000_000) ms (1000 / ms) false

-- For an offset that is not negative.
unfoldable pub new_off_ticker : ℕ → ℕ → ℕ → Ticker
unfolding ticker_at
new_off_ticker ms offset now = ticker_at now (ms * 1_000_000 + offset) ms (1000 / ms) false

-- `after` and `before` are what the clock reads at the start and at the end.
unfoldable pub tick : (after before : ℕ) → Ticker → Ticker
tick after before t =
    let diff = pos t.target_time -ℤ pos after in
    let took = pos after -ℤ pos t.before in
    let early = ltb_ℤ (pos 0) diff in
    let previous = if early then t.target_time else if t.tight then t.target_time else after in
    let ticks = t.ticks + 1 in
    let wraps = ticks == t.ticks_per_second in
    let slept = if early then t.total_sleep +ℤ diff else t.total_sleep in
    record t {
      jitter = pos t.before -ℤ pos t.previous;
      after = after;
      diff = diff;
      took = took;
      sleep = if early then diff else t.sleep;
      previous = previous;
      ticks = if wraps then 0 else ticks;
      total_sleep = if wraps then pos 0 else slept;
      total_took = if wraps then pos 0 else t.total_took +ℤ took;
      target_time = previous + t.dur;
      before = before;
    }

-- Some ticks, each with its two readings of the clock.
unfoldable pub ticks_on : List (ℕ × ℕ) → Ticker → Ticker
ticks_on [] t = t
ticks_on ((after, before) ∷ readings) t = ticks_on readings (tick after before t)
