-- ===== src/Tests/Splices.antt =====
-- Four samples in a ring of five frames, read with one dropped and with one inserted.
use panaudia_lasa.Prelude.{◌+◌, ◌-◌, ◌<◌, ◌≡◌, refl, List, [], ◌∷◌, arith, ltb, ◌==◌, if◌then◌else◌}
use panaudia_lasa.Prelude.Int.{ℤ, pos}
use panaudia_lasa.Prelude.Fixed.{fixed}
use panaudia_lasa.Buffers.Ring.{write_to_ring}
use panaudia_lasa.Buffers.Ring.Held.{Holds, write_to_ring-Holds}
use panaudia_lasa.Buffers.Jitter.Splice.{average, splice_drop, splice_insert}
use panaudia_lasa.Buffers.Jitter.Frames.{nth_frame}
use panaudia_lasa.Buffers.Jitter.Spliced.{
  drop_cut, insert_cut, splice_drop-stream, splice_insert-stream,
}

abbrev sent : List ℤ
sent = pos 1000 ∷ pos 2000 ∷ pos 2000 ∷ pos 9000 ∷ []

abbrev blank : List ℤ
blank = pos 0 ∷ pos 0 ∷ pos 0 ∷ pos 0 ∷ pos 0 ∷ []

abbrev ring : List ℤ
ring = write_to_ring 5 1 blank sent 0 4

ring-Holds : Holds 5 1 ring sent
ring-Holds =
    write_to_ring-Holds 5 1 blank sent [] 0 4 (omega arith) (omega arith)
      (record { size = refl; last = λ p h i. absurd (omega (arith, h)) }) refl (omega arith)
      (omega arith)

abbrev three : List ℤ
three = pos 0 ∷ pos 0 ∷ pos 0 ∷ []

splice_drop-stream_example :
    let cut = drop_cut fixed 5 1 ring 0 3 in
    let heard = nth_frame 1 sent in
    (cut < 3)
    × (nth_frame 1 (splice_drop fixed 5 1 ring three 0 3) 2 ≡ (
        if 2 == cut
        then average fixed 5 1 ring (heard 2) (heard 3)
        else if ltb cut 2
        then heard 3
        else heard 2))
splice_drop-stream_example =
    splice_drop-stream fixed 5 1 ring sent three 0 3 2 (omega arith) (omega arith) ring-Holds refl
      (omega arith) (omega arith) (omega arith)

splice_insert-stream_example :
    let cut = insert_cut fixed 5 1 ring 0 3 in
    let heard = nth_frame 1 sent in
    (0 < cut)
    × (cut < 3)
    × (nth_frame 1 (splice_insert fixed 5 1 ring three 0 3) 0 ≡ (
        if 0 == cut
        then average fixed 5 1 ring (heard (0 + cut - 1)) (heard (0 + cut))
        else if ltb cut 0
        then heard (0 + 0 - 1)
        else heard 0))
splice_insert-stream_example =
    splice_insert-stream fixed 5 1 ring sent three 0 3 0 (omega arith) (omega arith) ring-Holds refl
      (omega arith) (omega arith) (omega arith) (omega arith)
