-- ===== src/Tests/Jitter.antt =====
-- A small jitter buffer, at a thousand frames a second in fixed-point arithmetic.
use panaudia_lasa.Prelude.{
  ◌+◌, ◌*◌, ◌/◌, ◌≤◌, ◌<◌, ◌-◌, ◌≡◌, refl, ◌⊎◌, inr, true, false, List, [], ◌∷◌, none, some, arith,
  length, take, drop,
}
use panaudia_lasa.Prelude.Int.{ℤ, pos, ◌-ℤ◌}
use panaudia_lasa.Prelude.Fixed.{fixed}
use panaudia_lasa.Buffers.Jitter.{Config, JitterBuffer, geometry, fresh, new_jitter_buffer}
use panaudia_lasa.Buffers.Jitter.Window.{observe_delivery, sense}
use panaudia_lasa.Buffers.Jitter.Play.{
  write, start_up, trim, fill, valves, silence, pay_debt, choose, play_cut, play, finish, read,
}
use panaudia_lasa.Buffers.Jitter.Valid.{Placed, Kept}
use panaudia_lasa.Buffers.Jitter.Audio.{Streams, read-stream}
use panaudia_lasa.Buffers.Jitter.Steps.{read-Placed}
use panaudia_lasa.Buffers.Jitter.Sensing.{Recorded, Sensed}
use panaudia_lasa.Buffers.Jitter.Freeze.{SmallZero, read-Sensed}
use panaudia_lasa.Buffers.Jitter.Run.{Call, writes, reads, run, stream, run-Streams}

abbrev small : Config ℤ
unfolding fixed
small = record {
  sample_rate = 1000;
  num_channels = 0;
  writer_frame_size = 0;
  reader_frame_size = 0;
  safety = 1_000_000;
  writer_frames = 2;
  reader_frames = 2;
  floor = 0;
  robustness = pos 1000;
  capacity = 16_000_000;
  controller = none;
}

abbrev buffer : JitterBuffer ℤ ℤ
unfolding geometry fresh fixed
buffer = fresh fixed fixed (geometry fixed fixed small 1000 1 2 2 1)

abbrev two : List ℤ
two = pos 1 ∷ pos 2 ∷ []

abbrev calls : List (Call ℤ)
calls = writes two ∷ writes two ∷ reads two ∷ writes two ∷ []

new_buffer : new_jitter_buffer fixed fixed small ≡ some buffer
unfolding new_jitter_buffer small
new_buffer = refl

roomy : buffer.geo.sp_base + (buffer.geo.w + buffer.geo.r) ≤ buffer.geo.capacity
unfolding small buffer fixed
roomy = omega arith

run-Streams_example :
    let b' = run fixed fixed calls buffer in
    Placed b' × Streams b' (stream buffer.geo.capacity buffer.geo.nc calls [])
run-Streams_example = run-Streams fixed fixed small calls buffer new_buffer (inr roomy)

abbrev running : JitterBuffer ℤ ℤ
running = run fixed fixed calls buffer

abbrev sent : List ℤ
sent = stream buffer.geo.capacity buffer.geo.nc calls []

stereo : length two ≡ 2 * running.geo.nc
unfolding small buffer fixed run write start_up trim valves pay_debt choose play_cut play finish
    read sense observe_delivery
stereo = refl

played :
    let (b', out, done) = read fixed fixed two running in
    (done ≡ true) × (b'.dropped ≡ running.dropped) × (b'.inserted ≡ running.inserted)
unfolding small buffer fixed run write start_up trim valves pay_debt choose play_cut play finish
    read sense observe_delivery
played = (refl, refl, refl)

read-stream_example :
    let (b', out, done) = read fixed fixed two running in
    (2 ≤ b'.read_pos)
    × (out ≡ take (2 * running.geo.nc) (drop ((b'.read_pos - 2) * running.geo.nc) sent))
read-stream_example =
    let (v, st) = run-Streams fixed fixed small calls buffer new_buffer (inr roomy) in
    read-stream fixed fixed two sent 2 running v st (omega arith) stereo played.0 played.1 played.2

asked : 0 < length two / running.geo.nc
unfolding small buffer fixed run write start_up trim valves pay_debt choose play_cut play finish
    read sense observe_delivery
asked = omega arith

read-Placed_example :
    let (b', out, done) = read fixed fixed two running in
    Placed b'
    × Kept running b'
    × (fill b' + (running.geo.w + running.geo.r) ≤ running.geo.capacity)
    × ((done ≡ false) × (out ≡ silence fixed fixed two) ⊎ (done ≡ true))
read-Placed_example =
    read-Placed fixed fixed two running
      (run-Streams fixed fixed small calls buffer new_buffer (inr roomy)).0 asked

running-Recorded : Recorded fixed running
unfolding small buffer fixed run write start_up trim valves pay_debt choose play_cut play finish
    read sense observe_delivery
running-Recorded = record {
  late = refl;
  early = refl;
  place = omega arith;
  seen = omega arith;
  points = refl;
  few = omega arith;
  shown_rate = refl;
  shown_frozen = refl;
}

running-Sensed : Sensed fixed running
unfolding small buffer fixed run write start_up trim valves pay_debt choose play_cut play finish
    read sense observe_delivery
running-Sensed = record {
  recorded = running-Recorded;
  paired = refl;
  open_window = omega arith;
  at_rest = λ e. (refl, refl);
}

nothing_owed : SmallZero fixed fixed
unfolding fixed ◌-ℤ◌
nothing_owed = (refl, refl)

read-Sensed_example :
    let b' = (read fixed fixed two running).0 in
    Sensed fixed b'
    × ((b'.frozen ≡ false) ⊎ (b'.dropped ≡ running.dropped) × (b'.inserted ≡ running.inserted))
read-Sensed_example =
    read-Sensed fixed fixed nothing_owed two running
      (run-Streams fixed fixed small calls buffer new_buffer (inr roomy)).0 running-Sensed asked
