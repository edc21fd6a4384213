-- ===== src/Engine/Group/Frames.antt =====
-- engine/engine/group.go: WriteFrame, read and channel, the frames that a lockstep set's members share.
-- A member here is its source, whose decoder and pose ring are its own; its jitter buffer is not used.
use panaudia_lasa.Prelude.{
  ℕ, zero, suc, ◌+◌, ◌*◌, min, Bool, true, false, ◌&&◌, ◌||◌, not, Option, none, some, List, [],
  ◌∷◌, if◌then◌else◌, get_or, set, replicate,
}
use panaudia_lasa.Prelude.Float.{Float}
use panaudia_lasa.Buffers.Jitter.{JitterBuffer}
use panaudia_lasa.Buffers.Jitter.Play.{read, write, stream_read_pos}
use panaudia_lasa.Engine.Plane.{is_empty}
use panaudia_lasa.Engine.Pose.{Pose, push}
use panaudia_lasa.Engine.Decoder.{Opus, conceal}
use panaudia_lasa.Engine.Source.{tone, raw, coded, Source, frame_size, decode_packet}

pub record GroupChannel (F : Type 0) : Type 0 where
  pub pose : Option (Pose F)
  pub audio : List ℕ
  pub lost : Bool
  pub audio_likely : Bool
  pub silence : Bool

-- The set's buffer and the frames on their way in and out of it.
pub record Lockstep (F S D : Type 0) : Type 0 where
  pub n : ℕ
  pub members : List (Option (Source F S D))
  pub jitter : JitterBuffer F S
  pub samples_written : ℕ
  pub write_scratch : List S
  pub read_scratch : List S
  pub read_pos : ℕ

abbrev pub conceals : {F : Type 0} → GroupChannel F → Bool
conceals c = c.lost && c.audio_likely && not c.silence

abbrev pub any_audio : {F : Type 0} → List (GroupChannel F) → Bool
any_audio [] = false
any_audio (c ∷ cs) = if not (is_empty c.audio) || conceals c then true else any_audio cs

module _ {S : Type 0} (silent : S) where
  -- The inner loop of WriteFrame: a member's samples go to every n-th place, silence where it has none.
  unfoldable pub put_channel : (n i rounds j : ℕ) → List S → List S → List S
  put_channel n i zero j pcm scratch = scratch
  put_channel n i (suc k) j pcm scratch =
      put_channel n i k (j + 1) pcm (set scratch (j * n + i) (get_or pcm j silent))

  unfoldable pub weave : (n i : ℕ) → List (List S) → List S → List S
  unfolding put_channel
  weave n i [] scratch = scratch
  weave n i (pcm ∷ pcms) scratch = weave n (i + 1) pcms (put_channel n i frame_size 0 pcm scratch)

  -- The loop of channel, from the sample `j` of the destination on.
  unfoldable pub channel : (n i rounds j : ℕ) → List S → List S
  channel n i zero j scratch = []
  channel n i (suc k) j scratch = get_or scratch (j * n + i) silent ∷ channel n i k (j + 1) scratch

module _ {F S D : Type 0} (f32 : Float S) (opus : Opus D S) (from_bits : ℕ → S) where
  -- concealPCM; `none` is a panic.
  unfoldable pub conceal_pcm : ℕ → Source F S D → Option (Source F S D × List S)
  conceal_pcm samples s = elim s.codec [
    | tone ↦ none
    | raw ↦ some (s, replicate (min samples frame_size) (f32.lit 0 0))
    | coded d ↦ elim (conceal f32 opus d samples) [
      | none ↦ none
      | some (d1, pcm) ↦ some (record s { codec = coded d1 }, pcm)
    ]
  ]

  -- A member's share of a frame that is written: decoded, concealed, or nothing.
  unfoldable pub member_pcm :
      Option (Source F S D) → GroupChannel F → Option (Option (Source F S D) × List S)
  member_pcm none c = some (none, [])
  member_pcm (some s) c =
      let heard : Option (Source F S D × List S) =
        if not (is_empty c.audio)
        then decode_packet f32 opus from_bits c.audio s
        else if conceals c
        then conceal_pcm frame_size s
        else some (s, []) in
      elim heard [ none ↦ none | some (s1, pcm) ↦ some (some s1, pcm) ]

  unfoldable pub gather :
      List (Option (Source F S D))
      → List (GroupChannel F)
      → Option (List (Option (Source F S D)) × List (List S))
  gather [] cs = some ([], [])
  gather (m ∷ ms) [] = none
  gather (m ∷ ms) (c ∷ cs) = elim (member_pcm m c) [
    | none ↦ none
    | some (m1, pcm) ↦ elim (gather ms cs) [
      | none ↦ none
      | some (ms1, pcms) ↦ some (m1 ∷ ms1, pcm ∷ pcms)
    ]
  ]

module _ {F S D : Type 0} where
  abbrev pub pin : ℕ → ℕ → Option (Source F S D) → GroupChannel F → Option (Source F S D)
  pin seq at_sample none c = none
  pin seq at_sample (some s) c = elim c.pose [
    | none ↦ some s
    | some pose ↦ some (record s {
      ring = push (record { seq = seq; end_sample = at_sample; pose = pose }) s.ring;
    })
  ]

  -- The last loop: the poses, at the stream's new position.
  abbrev pub pin_all :
      ℕ → ℕ → List (Option (Source F S D)) → List (GroupChannel F) → List (Option (Source F S D))
  pin_all seq at_sample [] cs = []
  pin_all seq at_sample (m ∷ ms) [] = m ∷ ms
  pin_all seq at_sample (m ∷ ms) (c ∷ cs) = pin seq at_sample m c ∷ pin_all seq at_sample ms cs

  -- A pose for a seat that the set does not have: the loop indexes the members out of range.
  abbrev pub stray : List (Option (Source F S D)) → List (GroupChannel F) → Bool
  stray ms [] = false
  stray [] (c ∷ cs) = elim c.pose [ none ↦ stray [] cs | some pose ↦ true ]
  stray (m ∷ ms) (c ∷ cs) = stray ms cs

module _ {F S D : Type 0} (f32 : Float S) (opus : Opus D S) (from_bits : ℕ → S) where
  -- WriteFrame; `none` is a panic.
  unfoldable pub write_frame : ℕ → List (GroupChannel F) → Lockstep F S D → Option (Lockstep F S D)
  unfolding weave gather
  write_frame seq chans g =
      if stray g.members chans
      then none
      else if any_audio chans
      then elim (gather f32 opus from_bits g.members chans) [
        | none ↦ none
        | some (ms, pcms) ↦
            let scratch = weave (f32.lit 0 0) g.n 0 pcms g.write_scratch in
            let at_sample = g.samples_written + frame_size in
            some (record g {
              members = pin_all seq at_sample ms chans;
              jitter = write scratch g.jitter;
              samples_written = at_sample;
              write_scratch = scratch;
            })
      ]
      else some (record g { members = pin_all seq g.samples_written g.members chans })

module _ {F S D : Type 0} (fl : Float F) (f32 : Float S) where
  -- read of a set, and a member's frame of it.
  unfoldable pub read_group : Lockstep F S D → Lockstep F S D
  read_group g =
      let (j, out, played) = read fl f32 g.read_scratch g.jitter in
      record g { jitter = j; read_scratch = out; read_pos = stream_read_pos j }
