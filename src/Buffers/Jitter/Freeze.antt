-- ===== src/Buffers/Jitter/Freeze.antt =====
-- A read keeps what the buffer has observed in order, and a frozen buffer is not corrected.
use panaudia_lasa.Prelude.{
  ℕ, ◌/◌, ◌<◌, ◌≡◌, ◌⊎◌, inl, inr, refl, sym, ◌∙◌, inl, inr, true, false, List, some, arith, ltb,
  Bool-cases, length, Bool,
}
use panaudia_lasa.Prelude.Float.{Float}
use panaudia_lasa.Buffers.Jitter.{JitterBuffer}
use panaudia_lasa.Buffers.Jitter.Play.{
  start_up, trim, fill, valves, pay_debt, choose, play_cut, Cut, drop_one, insert_one, as_is, play,
  finish, read,
}
use panaudia_lasa.Buffers.Jitter.Steps.{gated, gated-Placed, read_cases, pay_debt-Same}
use panaudia_lasa.Buffers.Jitter.Valid.{Placed, start_up-Placed}
use panaudia_lasa.Buffers.Jitter.Sensing.{Sensed, sense-Sensed}

module _ {F S : Type 0} (fl : Float F) where
  start_up-Sensed :
      (b : JitterBuffer F S) {c : JitterBuffer F S}
      → Sensed fl b
      → start_up b ≡ some c
      → Sensed fl c
  unfolding start_up
  start_up-Sensed b v e = ground arith

  trim-Sensed : (b : JitterBuffer F S) → Sensed fl b → Sensed fl (trim b)
  unfolding trim
  trim-Sensed b v = ground arith

  valves-Sensed : (b : JitterBuffer F S) → Sensed fl b → Sensed fl (valves b)
  unfolding valves
  valves-Sensed b v = ground arith

or_thawed : {A : Type 0} (frozen : Bool) → (frozen ≡ true → A) → (frozen ≡ false) ⊎ A
or_thawed true h = inr (h refl)
or_thawed false h = inl refl

module _ {F S : Type 0} (fl : Float F) (f32 : Float S) where
  open fl use {lit, neg, lef}

  -- A buffer at rest owes less than one frame either way, in IEEE 754 arithmetic.
  abbrev pub SmallZero : Type 0
  SmallZero = (lef (lit 1 0) (lit 0 0) ≡ false) × (lef (lit 0 0) (neg (lit 1 0)) ≡ false)

  pay_debt-Sensed :
      (b : JitterBuffer F S)
      → Sensed fl b
      → Sensed fl (pay_debt fl f32 b) × ((pay_debt fl f32 b).frozen ≡ b.frozen)
  unfolding pay_debt
  pay_debt-Sensed b v = ground arith

  choose_frozen :
      SmallZero
      → (n : ℕ) (b : JitterBuffer F S) → Sensed fl b
      → b.frozen ≡ true
      → choose fl f32 n b ≡ as_is
  unfolding choose
  choose_frozen z n b v e = rw ((v.at_rest e).1, z.0, z.1) refl

  play_cut-Sensed :
      (c : Cut) (dst : List S) (n : ℕ) (b : JitterBuffer F S)
      → (b.frozen ≡ true → c ≡ as_is)
      → Sensed fl b
      → let b' = (play_cut fl f32 c dst n b).0 in
        Sensed fl b'
        × (b'.frozen ≡ b.frozen)
        × (b.frozen ≡ true → (b'.dropped ≡ b.dropped) × (b'.inserted ≡ b.inserted))
  unfolding play_cut
  play_cut-Sensed drop_one dst n b still v =
      let live : b.frozen ≡ true → ⊥ = λ e. ground (arith, still e) in ground (arith, live)
  play_cut-Sensed insert_one dst n b still v =
      let live : b.frozen ≡ true → ⊥ = λ e. ground (arith, still e) in ground (arith, live)
  play_cut-Sensed as_is dst n b still v = ground arith

  play-Sensed :
      SmallZero
      → (dst : List S) (n : ℕ) (b : JitterBuffer F S) → Sensed fl b
      → let b' = (play fl f32 dst n b).0 in
        Sensed fl b'
        × (b'.frozen ≡ b.frozen)
        × (b.frozen ≡ true → (b'.dropped ≡ b.dropped) × (b'.inserted ≡ b.inserted))
  unfolding play
  play-Sensed z dst n b v =
      let b1 = pay_debt fl f32 b in
      let paid = pay_debt-Sensed b v in
      let same = (pay_debt-Same fl f32 b).0 in
      let done =
        play_cut-Sensed (choose fl f32 n b1) dst n b1 (choose_frozen z n b1 paid.0) paid.0 in
      (
        done.0,
        done.1 ∙ paid.1,
        λ e. let kept = done.2 (paid.1 ∙ e) in (kept.0 ∙ same.dropped, kept.1 ∙ same.inserted),
      )

  finish-Sensed :
      SmallZero
      → (dst : List S) (n : ℕ) (b : JitterBuffer F S) → Sensed fl b
      → let b' = (finish fl f32 dst n b).0 in
        Sensed fl b' × (b'.frozen ≡ true → (b'.dropped ≡ b.dropped) × (b'.inserted ≡ b.inserted))
  unfolding finish
  finish-Sensed z dst n b v = elim (Bool-cases (ltb (fill b) n)) [
    | inl short ↦ rw short (ground arith)
    | inr enough ↦
        let done = play-Sensed z dst n b v in rw enough (done.0, λ e. done.2 (sym done.1 ∙ e))
  ]

  -- A read of a valid buffer that asks for at least a frame keeps the window, the histories, the
  -- figures shown and the rest of a frozen buffer in order, if a debt of zero is below one frame
  -- either way. It leaves the buffer not frozen, or it has neither dropped nor inserted a frame.
  pub read-Sensed :
      SmallZero
      → (dst : List S) (b : JitterBuffer F S) → Placed b
      → Sensed fl b
      → 0 < length dst / b.geo.nc
      → let b' = (read fl f32 dst b).0 in
        Sensed fl b' × ((b'.frozen ≡ false) ⊎ (b'.dropped ≡ b.dropped) × (b'.inserted ≡ b.inserted))
  read-Sensed z dst b p v h = elim (read_cases fl f32 dst b h) [
    | inl (e, r) ↦ rw r (v, inr (refl, refl))
    | inr (c, e, r) ↦
        let vt = valves-Sensed fl (trim c) (trim-Sensed fl c (start_up-Sensed fl b v e)) in
        let vg = sense-Sensed fl (fill (valves (trim c))) (valves (trim c)) vt in
        let done = finish-Sensed z dst (length dst / b.geo.nc) (gated fl f32 c) vg in
        let up = start_up-Placed b p e in
        let same = (gated-Placed fl f32 c up.0).1 in
        let drops = same.dropped ∙ up.1.dropped in
        let inserts = same.inserted ∙ up.1.inserted in
        rw r (done.0, or_thawed _ (λ f. let kept = done.1 f in (kept.0 ∙ drops, kept.1 ∙ inserts)))
  ]
