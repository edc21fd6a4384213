-- ===== src/Buffers/Ring/Accept.antt =====
-- engine/buffers/jitter_buffer.go, Write: the whole frames of a write, clipped to the capacity, go
-- to the end of the stream that the ring holds the end of.
use native.Mathlib.Nat.{mul-le-mul_right, div-mul-le_self}
use panaudia_lasa.Prelude.{
  ℕ, ◌+◌, ◌-◌, ◌*◌, ◌/◌, ◌≤◌, ◌<◌, ◌≡◌, inl, inr, false, List, ◌++◌, arith, ltb, ◌==◌,
  if◌then◌else◌, Bool-cases, length, take, drop, length-append, length-take, length-drop,
}
use mathlib.Core.List.{append-nil}
use panaudia_lasa.Prelude.Order.{sub-scale}
use panaudia_lasa.Buffers.Ring.{write_to_ring}
use panaudia_lasa.Buffers.Ring.Held.{Holds, write_to_ring-Holds}

-- The samples of a write that reach the ring: its whole frames, and of more than the capacity the
-- most recent ones.
abbrev pub accepted {ℓ} : {A : Type ℓ} → ℕ → ℕ → List A → List A
accepted cap nc src =
    let n = length src / nc in
    if ltb cap n then take (cap * nc) (drop ((n - cap) * nc) src) else take (n * nc) src

module _ {ℓ} {A : Type ℓ} where
  -- The ring and the position after a write.
  abbrev pub written_ring : (cap nc : ℕ) (ring src : List A) → ℕ → List A
  written_ring cap nc ring src wp =
      let n = length src / nc in
      let clipped = ltb cap n in
      if n == 0
      then ring
      else write_to_ring cap nc ring (if clipped then drop ((n - cap) * nc) src else src) wp
          (if clipped then cap else n)

  abbrev pub written_pos : (cap nc : ℕ) (src : List A) → ℕ → ℕ
  written_pos cap nc src wp =
      let n = length src / nc in if n == 0 then wp else wp + (if ltb cap n then cap else n)

  pub accepted-Holds :
      (cap nc : ℕ) (ring src written : List A) (wp : ℕ)
      → 0 < cap
      → 0 < nc
      → Holds cap nc ring written
      → length written ≡ wp * nc
      → Holds cap nc (written_ring cap nc ring src wp) (written ++ accepted cap nc src)
        × (length (written ++ accepted cap nc src) ≡ written_pos cap nc src wp * nc)
  accepted-Holds cap nc ring src written wp full ch held counted =
      let n = length src / nc in
      let whole : n * nc ≤ length src = div-mul-le_self (length src) nc in
      let size = sub-scale n cap nc in
      elim (Bool-cases (n == 0)) [
        | inl e ↦
            let zero : n ≡ 0 = ground arith in
            let fits : ltb cap n ≡ false = ground arith in
            let none_in : 0 * nc ≡ 0 = omega arith in
            rw (fits, e, zero, none_in, append-nil written) (held, counted)
        | inr e ↦ elim (Bool-cases (ltb cap n)) [
          | inl big ↦
              let src' = drop ((n - cap) * nc) src in
              let over : cap ≤ n = ground arith in
              let long : cap * nc ≤ length src' = omega (
                arith,
                size,
                whole,
                length-drop ((n - cap) * nc) src,
                mul-le-mul_right {m = cap} {n = n} nc over,
              ) in
              rw (big, e)
                (
                  write_to_ring-Holds cap nc ring src' written wp cap full ch held counted
                      (omega arith) long,
                  omega (
                    arith,
                    counted,
                    long,
                    length-append written (take (cap * nc) src'),
                    length-take (cap * nc) src',
                  ),
                )
          | inr small ↦
              let fits : n ≤ cap = ground arith in
              rw (small, e)
                (
                  write_to_ring-Holds cap nc ring src written wp n full ch held counted fits whole,
                  omega (
                    arith,
                    counted,
                    whole,
                    length-append written (take (n * nc) src),
                    length-take (n * nc) src,
                  ),
                )
        ]
      ]
