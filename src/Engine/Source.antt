-- ===== src/Engine/Source.antt =====
-- engine/engine/source.go: an entity's audio in: packets, decoded samples, lost packets and frames.
-- This is a source with a buffer of its own; the members of a lockstep set are in Group. A tone
-- source ignores what is written and has no buffer. The loudness is left out. `from_bits` is Go's
-- math.Float32frombits.
pub mod Aligned
pub mod Conceal
pub mod Feed
pub mod Calls
pub mod Runs
use panaudia_lasa.Prelude.{
  ℕ, zero, suc, ◌+◌, ◌-◌, ◌*◌, ◌/◌, ◌%◌, min, Bool, true, false, not, ◌||◌, Option, none, some,
  List, [], ◌∷◌, ltb, leb, ◌==◌, if◌then◌else◌, length, replicate,
}
use panaudia_lasa.Prelude.Float.{Float}
use panaudia_lasa.Prelude.Int.{ℤ}
use panaudia_lasa.Buffers.Servo.{millisecond, quality_level, fec_floor}
use panaudia_lasa.Buffers.Jitter.{Config, JitterBuffer, new_jitter_buffer}
use panaudia_lasa.Buffers.Jitter.Play.{read, write, stream_read_pos}
use panaudia_lasa.Engine.Plane.{is_empty}
use panaudia_lasa.Engine.Pose.{Pose, PoseRing, empty_ring, push, pose_at}
use panaudia_lasa.Engine.Decoder.{Opus, OpusInputDecoder, decode, conceal}

-- common.FRAME_SIZE
abbrev pub frame_size : ℕ
frame_size = 240

-- What an input is decoded with.
pub data Codec (D : Type 0) : Type 0 where
  tone raw : Codec D
  coded : OpusInputDecoder D → Codec D

pub record Source (F S D : Type 0) : Type 0 where
  pub codec : Codec D
  pub jitter : JitterBuffer F S
  pub ring : PoseRing (Pose F)
  pub samples_written : ℕ
  pub decode_errors : ℕ
  pub initial_pose : Pose F

module _ {F : Type 0} (fl : Float F) where
  -- The jitter buffer that AddSource makes, zero durations asking for five milliseconds.
  unfoldable pub source_config : (quality redundancy : ℤ) (writer reader : ℕ) → Config F
  source_config quality redundancy writer reader =
      let w = if writer == 0 then 5 * millisecond else writer in
      let (floor, robustness, capacity) = quality_level fl quality in
      let fec = fec_floor redundancy w in
      record {
        sample_rate = 48000;
        num_channels = 1;
        writer_frame_size = w;
        reader_frame_size = if reader == 0 then 5 * millisecond else reader;
        safety = 0;
        writer_frames = 0;
        reader_frames = 0;
        floor = if ltb floor fec then fec else floor;
        robustness = robustness;
        capacity = capacity;
        controller = none;
      }

  abbrev pub zero_pose : Pose F
  zero_pose = record {
    x = fl.lit 0 0;
    y = fl.lit 0 0;
    z = fl.lit 0 0;
    yaw = fl.lit 0 0;
    pitch = fl.lit 0 0;
    roll = fl.lit 0 0;
  }

module _ {F S D : Type 0} (fl : Float F) (f32 : Float S) where
  -- The Source of AddSource; `none` is the panic of a frame of no samples.
  unfoldable pub new_source :
      Codec D → Pose F → (quality redundancy : ℤ) (writer reader : ℕ) → Option (Source F S D)
  new_source codec home quality redundancy writer reader =
      elim (new_jitter_buffer fl f32 (source_config fl quality redundancy writer reader)) [
        | none ↦ none
        | some b ↦ some (record {
          codec = codec;
          jitter = b;
          ring = empty_ring (zero_pose fl);
          samples_written = 0;
          decode_errors = 0;
          initial_pose = home;
        })
      ]

-- Samples of four bytes, the least significant first.
abbrev pub samples_of : {S : Type 0} → (ℕ → S) → List ℕ → List S
samples_of from_bits (a ∷ b ∷ c ∷ d ∷ bytes) =
    from_bits (a + 256 * b + 65536 * c + 16777216 * d) ∷ samples_of from_bits bytes
samples_of from_bits bytes = []

module _ {F S D : Type 0} where
  unfoldable pub ingest_pcm : List S → Source F S D → Source F S D
  ingest_pcm pcm s = record s {
    jitter = write pcm s.jitter;
    samples_written = s.samples_written + length pcm;
  }

  unfoldable pub push_pose : ℕ → Option (Pose F) → Source F S D → Source F S D
  push_pose seq none s = s
  push_pose seq (some pose) s = record s {
    ring = push (record { seq = seq; end_sample = s.samples_written; pose = pose }) s.ring;
  }

module _ {S : Type 0} (f32 : Float S) (from_bits : ℕ → S) where
  -- The samples, and whether the packet is refused: it counts as an error and is silent then.
  unfoldable pub decode_raw : List ℕ → List S × Bool
  decode_raw pkt =
      if not (length pkt % 4 == 0) || ltb frame_size (length pkt / 4)
      then (replicate frame_size (f32.lit 0 0), true)
      else (samples_of from_bits pkt, false)

module _ {F S D : Type 0} (f32 : Float S) (opus : Opus D S) (from_bits : ℕ → S) where
  -- decodePacket; `none` is a panic, as in the functions that call it. A packet that the decoder
  -- rejects is concealed for a frame.
  unfoldable pub decode_packet : List ℕ → Source F S D → Option (Source F S D × List S)
  unfolding decode_raw
  decode_packet pkt s =
      let (pcm, refused) = decode_raw f32 from_bits pkt in
      elim s.codec [
        | tone ↦ none
        | raw ↦ some (
          record s { decode_errors = if refused then s.decode_errors + 1 else s.decode_errors },
          pcm,
        )
        | coded d ↦
            let (d1, r) = decode f32 opus d pkt in
            elim r [
              | some good ↦ some (record s { codec = coded d1 }, good)
              | none ↦ elim (conceal f32 opus d1 frame_size) [
                | none ↦ none
                | some (d2, lost) ↦
                    some (record s { codec = coded d2; decode_errors = s.decode_errors + 1 }, lost)
              ]
            ]
      ]

  unfoldable pub write_opus : ℕ → Option (Pose F) → List ℕ → Source F S D → Option (Source F S D)
  write_opus seq pose pkt s = elim s.codec [
    | tone ↦ some s
    | _ ↦ if is_empty pkt then some (push_pose seq pose s) else elim (decode_packet pkt s) [
      | none ↦ none
      | some (s1, pcm) ↦ some (push_pose seq pose (ingest_pcm pcm s1))
    ]
  ]

  unfoldable pub write_pcm : ℕ → Option (Pose F) → List S → Source F S D → Source F S D
  write_pcm seq pose pcm s = elim s.codec [
    | tone ↦ s
    | _ ↦ push_pose seq pose (if is_empty pcm then s else ingest_pcm pcm s)
  ]

  -- The loop of Conceal over frames of silence, with the rounds that it may take.
  unfoldable pub silences : ℕ → ℕ → Source F S D → Source F S D
  silences zero samples s = s
  silences (suc rounds) samples s =
      let n = min samples frame_size in
      let rest = silences rounds (samples - n) (ingest_pcm (replicate n (f32.lit 0 0)) s) in
      if samples == 0 then s else rest

  -- Every round takes a sample at least.
  unfoldable pub conceal_source : ℕ → Source F S D → Option (Source F S D)
  unfolding silences
  conceal_source samples s = elim s.codec [
    | tone ↦ some s
    | raw ↦ some (silences samples samples s)
    | coded d ↦ elim (conceal f32 opus d samples) [
      | none ↦ none
      | some (d1, pcm) ↦ some (ingest_pcm pcm (record s { codec = coded d1 }))
    ]
  ]

module _ {F S D : Type 0} (fl : Float F) (f32 : Float S) (remainder : F → F → F) (pi : F)
    (tone_frame : List S → List S) where
  -- readFrame: the source, the frame and the pose of its last sample.
  unfoldable pub read_frame : List S → Source F S D → Source F S D × List S × Pose F
  read_frame dst s =
      let (j, out, played) = read fl f32 dst s.jitter in
      let l = stream_read_pos j in
      elim s.codec [
        | tone ↦ (s, tone_frame dst, s.initial_pose)
        | _ ↦ (
          record s { jitter = j },
          out,
          if l == 0
              then s.initial_pose
              else elim (pose_at fl remainder pi l s.ring) [ none ↦ s.initial_pose | some p ↦ p ],
        )
      ]
