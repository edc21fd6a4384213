-- ===== src/Tests/Lockstep.antt =====
-- A lockstep set of two seats, of which one is free: a frame with a packet of two samples.
use panaudia_lasa.Prelude.{
  ℕ, ◌+◌, ◌*◌, ◌≤◌, ◌≡◌, ◌⊎◌, refl, inl, List, [], ◌∷◌, ◌++◌, Option, none, some, true, false,
  arith, length, get_elem?, replicate, length-replicate,
}
use panaudia_lasa.Prelude.Int.{ℤ, pos}
use panaudia_lasa.Prelude.Fixed.{fixed}
use panaudia_lasa.Buffers.Servo.{quality_level}
use panaudia_lasa.Buffers.Jitter.{
  Config, JitterBuffer, geometry, fresh, new_jitter_buffer, ms_to_frames,
}
use panaudia_lasa.Buffers.Jitter.Fresh.{new_jitter_buffer-Placed}
use panaudia_lasa.Engine.Pose.{empty_ring}
use panaudia_lasa.Engine.Source.{raw, Source, source_config, zero_pose, frame_size}
use panaudia_lasa.Engine.Group.Frames.{
  GroupChannel, Lockstep, any_audio, channel, gather, write_frame,
}
use panaudia_lasa.Engine.Group.Weave.{padded}
use panaudia_lasa.Engine.Group.Gather.{no_seats, empty_seat, taken_seat, Shared}
use panaudia_lasa.Engine.Group.Written.{write_frame_lem}
use panaudia_lasa.Tests.Source.{library, library-Sizes}

abbrev pair : Config ℤ
unfolding source_config
pair = record (source_config fixed (pos 0) (pos 0) 0 0) { num_channels = 2 }

abbrev buffer : JitterBuffer ℤ ℤ
buffer =
    fresh fixed fixed
      (geometry fixed fixed pair 48000 2 240 240 (ms_to_frames fixed fixed 48000 (fixed.lit 1 0)))

made : new_jitter_buffer fixed fixed pair ≡ some buffer
unfolding new_jitter_buffer pair
made = refl

open_capacity : pair.capacity ≡ 0
unfolding pair source_config quality_level
open_capacity = refl

abbrev singer : Source ℤ ℤ ℕ
singer = record {
  codec = raw;
  jitter = buffer;
  ring = empty_ring (zero_pose fixed);
  samples_written = 0;
  decode_errors = 0;
  initial_pose = zero_pose fixed;
}

abbrev set : Lockstep ℤ ℤ ℕ
set = record {
  n = 2;
  members = some singer ∷ none ∷ [];
  jitter = buffer;
  samples_written = 0;
  write_scratch = replicate (frame_size * 2) (pos 0);
  read_scratch = replicate (frame_size * 2) (pos 0);
  read_pos = 0;
}

two_channels : set.jitter.geo.nc ≡ 2
unfolding fresh geometry
two_channels = refl

a_frame : frame_size ≤ set.jitter.geo.capacity
unfolding pair source_config fixed quality_level fresh geometry
a_frame = omega arith

unread : set.samples_written ≡ set.jitter.write_pos
unfolding fresh
unread = refl

set-Shared : Shared set []
set-Shared =
    let (placed, streams) =
      new_jitter_buffer-Placed fixed fixed pair buffer made (inl open_capacity) in
    record {
      placed = placed;
      streams = streams;
      channels = two_channels;
      room = a_frame;
      seats = refl;
      able = taken_seat (inl refl) (λ e. absurd (ground (arith, e))) (empty_seat no_seats);
      size = length-replicate (frame_size * 2) (pos 0);
      counted = unread;
    }

abbrev quiet : GroupChannel ℤ
quiet = record { pose = none; audio = []; lost = false; audio_likely = false; silence = false }

abbrev shares : List (GroupChannel ℤ)
shares = record quiet { audio = 1 ∷ 0 ∷ 0 ∷ 0 ∷ 2 ∷ 0 ∷ 0 ∷ 0 ∷ [] } ∷ quiet ∷ []

write_frame_lem_example :
    (g' : Lockstep ℤ ℤ ℕ) × (write_frame fixed library pos 9 shares set ≡ some g')
    × ((any_audio shares ≡ false) × Shared g' [] × (g'.samples_written ≡ set.samples_written)
        ⊎ (any_audio shares ≡ true)
          × Shared g' ([] ++ g'.write_scratch)
          × (g'.samples_written ≡ set.samples_written + frame_size)
          × (ms : List (Option (Source ℤ ℤ ℕ))) × (pcms : List (List ℤ)) × (gather fixed library pos
                set.members shares
              ≡ some (ms, pcms))
          × (length pcms ≡ set.n)
          × ((i : ℕ) (pcm : List ℤ)
              → get_elem? pcms i ≡ some pcm
              → channel (fixed.lit 0 0) set.n i frame_size 0 g'.write_scratch
                ≡ padded (fixed.lit 0 0) frame_size pcm))
write_frame_lem_example =
    write_frame_lem fixed fixed library pos library-Sizes 9 shares set [] set-Shared refl
