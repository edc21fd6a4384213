-- ===== src/Tests/Source.antt =====
-- A source of five-millisecond packets, one of which the decoder refuses, and one without a decoder.
use panaudia_lasa.Prelude.{
  ℕ, suc, ◌+◌, ◌≤◌, ◌≡◌, refl, inl, inr, Bool-cases, min, List, [], ◌∷◌, ◌++◌, Option, none, some,
  true, arith, length, replicate, length-replicate, ◌==◌, if◌then◌else◌,
}
use panaudia_lasa.Prelude.Int.{ℤ, pos}
use panaudia_lasa.Prelude.Fixed.{fixed}
use panaudia_lasa.Buffers.Servo.{quality_level, fec_floor}
use panaudia_lasa.Buffers.Jitter.{JitterBuffer, geometry, fresh, new_jitter_buffer, ms_to_frames}
use panaudia_lasa.Buffers.Jitter.Play.{stream_read_pos}
use panaudia_lasa.Buffers.Jitter.Fresh.{new_jitter_buffer-Placed}
use panaudia_lasa.Engine.Source.Conceal.{conceal_raw_lem}
use panaudia_lasa.Engine.Pose.{empty_ring}
use panaudia_lasa.Engine.Decoder.{Opus, mono_room}
use panaudia_lasa.Engine.Source.{
  Codec, coded, raw, Source, source_config, new_source, zero_pose, conceal_source, frame_size,
}
use panaudia_lasa.Engine.Source.Aligned.{Aligned}
use panaudia_lasa.Engine.Source.Feed.{Sizes}
use panaudia_lasa.Engine.Source.Calls.{Call, packet, decoded, lost, frame, all_within, steps}
use panaudia_lasa.Engine.Source.Runs.{steps-Aligned}

-- A packet that starts with zero is refused; a lost one cannot be concealed.
abbrev frames_of : List ℕ → ℕ → Option (List ℤ)
frames_of [] room = none
frames_of (b ∷ bytes) room = if b == 0 then none else some (replicate (min room 240) (pos b))

abbrev pub library : Opus ℕ ℤ
library = record {
  decode = λ d room pkt. (suc d, frames_of pkt room);
  conceal = λ d room. (suc d, none);
}

frames_of-length_le :
    (pkt : List ℕ) (room : ℕ) (pcm : List ℤ) → frames_of pkt room ≡ some pcm → length pcm ≤ room
frames_of-length_le [] room pcm e = absurd (ground (arith, e))
frames_of-length_le (b ∷ bytes) room pcm e = elim (Bool-cases (b == 0)) [
  | inl bad ↦ absurd (ground (arith, rw bad at e))
  | inr good ↦
      let same : some (replicate (min room 240) (pos b)) ≡ some pcm = rw good at e in
      let it : replicate (min room 240) (pos b) ≡ pcm = cc same in
      rw (← it) (omega (arith, length-replicate (min room 240) (pos b)))
]

pub library-Sizes : Sizes library
library-Sizes = record {
  fits = λ d room pkt pcm e. frames_of-length_le pkt room pcm e;
  fills = λ d room pcm e. absurd (ground (arith, e));
}

abbrev decoder : Codec ℕ
decoder = coded (record { state = 0; channels = 1 })

abbrev buffer : JitterBuffer ℤ ℤ
unfolding source_config
buffer = fresh fixed fixed (
    geometry fixed fixed (source_config fixed (pos 0) (pos 0) 0 0) 48000 1 240 240
      (ms_to_frames fixed fixed 48000 (fixed.lit 1 0)))

abbrev singer : Source ℤ ℤ ℕ
singer = record {
  codec = decoder;
  jitter = buffer;
  ring = empty_ring (zero_pose fixed);
  samples_written = 0;
  decode_errors = 0;
  initial_pose = zero_pose fixed;
}

added : new_source fixed fixed decoder (zero_pose fixed) (pos 0) (pos 0) 0 0 ≡ some singer
unfolding new_source source_config new_jitter_buffer
added = refl

zero_capacity : (source_config fixed (pos 0) (pos 0) 0 0).capacity ≡ 0
unfolding source_config quality_level
zero_capacity = refl

roomy : mono_room ≤ singer.jitter.geo.capacity
unfolding buffer source_config fixed quality_level fresh geometry
roomy = omega arith

-- Two packets, of which the second is refused, a lost one, samples and a frame.
abbrev calls : List (Call ℤ ℤ)
calls =
    packet 1 (some (zero_pose fixed)) (5 ∷ 6 ∷ [])
    ∷ packet 2 none (0 ∷ [])
    ∷ lost 240
    ∷ decoded 4 none (replicate 240 (pos 7))
    ∷ frame (replicate 240 (pos 0))
    ∷ []

fit : all_within singer.jitter.geo.capacity calls ≡ true
unfolding buffer source_config fixed quality_level fresh geometry fec_floor
fit = refl

steps-Aligned_example :
    (t : Source ℤ ℤ ℕ) × (written : List ℤ) × (steps fixed fixed library pos
        (λ x y. x)
        (pos 3142)
        (λ dst. dst)
        calls
        singer
      ≡ some t)
    × Aligned t written
    × (t.samples_written ≡ t.jitter.write_pos)
    × (stream_read_pos t.jitter ≤ t.samples_written)
steps-Aligned_example =
    steps-Aligned fixed fixed library pos (λ x y. x) (pos 3142) (λ dst. dst) library-Sizes decoder
      (zero_pose fixed) (pos 0) (pos 0) 0 0 singer calls added (inl refl) (inl zero_capacity) roomy
      fit

-- The same buffer without a decoder, for a loss of two frames and a half.
abbrev plain : Source ℤ ℤ ℕ
plain = record singer { codec = raw }

made : new_jitter_buffer fixed fixed (source_config fixed (pos 0) (pos 0) 0 0) ≡ some buffer
unfolding source_config new_jitter_buffer
made = refl

mono : buffer.geo.nc ≡ 1
unfolding buffer fresh geometry
mono = refl

plain-Aligned : Aligned plain []
plain-Aligned =
    let (placed, streams) =
      new_jitter_buffer-Placed fixed fixed (source_config fixed (pos 0) (pos 0) 0 0) buffer made
        (inl zero_capacity) in
    record { placed = placed; streams = streams; mono = mono; counted = refl }

a_frame : frame_size ≤ plain.jitter.geo.capacity
a_frame = omega (arith, roomy)

conceal_raw_lem_example :
    (t : Source ℤ ℤ ℕ) × (conceal_source fixed library pos 600 plain ≡ some t)
    × Aligned t ([] ++ replicate 600 (fixed.lit 0 0))
    × (t.samples_written ≡ plain.samples_written + 600)
conceal_raw_lem_example =
    conceal_raw_lem fixed fixed library pos 600 plain [] refl plain-Aligned a_frame
