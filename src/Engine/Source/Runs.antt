-- ===== src/Engine/Source/Runs.antt =====
-- A source from AddSource on, through any sequence of calls.
use panaudia_lasa.Prelude.{
  ℕ, ◌+◌, ◌≤◌, ◌≡◌, refl, sym, ap, ◌⊎◌, inl, inr, true, some, List, [], ◌∷◌, arith, Option-cases,
}
use mathlib.Core.Path.{subst}
use panaudia_lasa.Prelude.Float.{Float}
use panaudia_lasa.Prelude.Int.{ℤ}
use panaudia_lasa.Buffers.Jitter.{JitterBuffer, new_jitter_buffer}
use panaudia_lasa.Buffers.Jitter.Play.{stream_read_pos}
use panaudia_lasa.Buffers.Jitter.Fresh.{new_jitter_buffer-Placed, new_jitter_buffer-channels}
use panaudia_lasa.Engine.Pose.{Pose, empty_ring}
use panaudia_lasa.Engine.Decoder.{Opus, mono_room}
use panaudia_lasa.Engine.Source.{
  Codec, Source, write_pcm, read_frame, new_source, source_config, zero_pose,
}
use panaudia_lasa.Engine.Source.Aligned.{Aligned, Aligned-counts}
use panaudia_lasa.Engine.Source.Feed.{Sizes, IsPlayable}
use panaudia_lasa.Engine.Source.Calls.{
  Call, packet, decoded, lost, frame, within, all_within, step, steps, Good, packet-Good,
  decoded-Good, lost-Good, frame-Good,
}

module _ {F S D : Type 0} (fl : Float F) (f32 : Float S) (opus : Opus D S) (from_bits : ℕ → S)
    (remainder : F → F → F) (pi : F) (tone_frame : List S → List S) where
  step-Good :
      (laws : Sizes opus) (c : Call F S) (cap : ℕ) (s : Source F S D)
      → within cap c ≡ true
      → mono_room ≤ cap
      → Good fl f32 opus from_bits remainder pi tone_frame cap s
      → (t : Source F S D) × (step fl f32 opus from_bits remainder pi tone_frame c s ≡ some t)
        × Good fl f32 opus from_bits remainder pi tone_frame cap t
  unfolding step
  step-Good laws (packet seq pose pkt) top s ok room v =
      packet-Good fl f32 opus from_bits remainder pi tone_frame laws seq pose pkt s room v
  step-Good laws (decoded seq pose pcm) top s ok room v = (
    write_pcm f32 opus from_bits seq pose pcm s,
    refl,
    decoded-Good fl f32 opus from_bits remainder pi tone_frame seq pose pcm s (ground (arith, ok))
        v,
  )
  step-Good laws (lost samples) top s ok room v =
      lost-Good fl f32 opus from_bits remainder pi tone_frame laws samples s (ground (arith, ok))
        room v
  step-Good laws (frame dst) top s ok room v = (
    (read_frame fl f32 remainder pi tone_frame dst s).0,
    refl,
    frame-Good fl f32 opus from_bits remainder pi tone_frame dst s v,
  )

  steps-Good :
      (laws : Sizes opus) (calls : List (Call F S)) (cap : ℕ) (s : Source F S D)
      → all_within cap calls ≡ true
      → mono_room ≤ cap
      → Good fl f32 opus from_bits remainder pi tone_frame cap s
      → (t : Source F S D) × (steps fl f32 opus from_bits remainder pi tone_frame calls s ≡ some t)
        × Good fl f32 opus from_bits remainder pi tone_frame cap t
  unfolding steps
  steps-Good laws [] top s ok room v = (s, refl, v)
  steps-Good laws (c ∷ cs) top s ok room v =
      let (t, e, v1) = step-Good laws c top s (ground (arith, ok)) room v in
      let (u, e1, v2) = steps-Good laws cs top t (ground (arith, ok)) room v1 in
      (u, rw (steps, e) e1, v2)

  -- The source over a buffer, and what it is from the start.
  abbrev over : Codec D → Pose F → JitterBuffer F S → Source F S D
  over codec home b = record {
    codec = codec;
    jitter = b;
    ring = empty_ring (zero_pose fl);
    samples_written = 0;
    decode_errors = 0;
    initial_pose = home;
  }

  over-Good :
      (codec : Codec D) (home : Pose F) (quality redundancy : ℤ) (writer reader : ℕ)
      (b : JitterBuffer F S)
      → let cfg = source_config fl quality redundancy writer reader in
        new_jitter_buffer fl f32 cfg ≡ some b
        → IsPlayable codec
        → (cfg.capacity ≡ 0) ⊎ (b.geo.sp_base + (b.geo.w + b.geo.r) ≤ b.geo.capacity)
        → Good fl f32 opus from_bits remainder pi tone_frame b.geo.capacity (over codec home b)
  unfolding source_config
  over-Good codec home quality redundancy writer reader b e ch room =
      let cfg = source_config fl quality redundancy writer reader in
      let (placed, streams) = new_jitter_buffer-Placed fl f32 cfg b e room in
      record {
        written = [];
        aligned = record {
          placed = placed;
          streams = streams;
          mono = new_jitter_buffer-channels fl f32 cfg b e;
          counted = refl;
        };
        size = refl;
        playable = ch;
      }

  new_source_cases :
      (codec : Codec D) (home : Pose F) (quality redundancy : ℤ) (writer reader : ℕ)
      (s : Source F S D)
      → new_source fl f32 codec home quality redundancy writer reader ≡ some s
      → (b : JitterBuffer F S) × (new_jitter_buffer fl f32
            (source_config fl quality redundancy writer reader)
          ≡ some b)
        × (over codec home b ≡ s)
  unfolding new_source
  new_source_cases codec home quality redundancy writer reader s e =
      elim (Option-cases
        (new_jitter_buffer fl f32 (source_config fl quality redundancy writer reader))) [
          | inl bad ↦ absurd (ground (arith, rw (bad, new_source) at e))
          | inr (b, l) ↦
              let same : some (over codec home b) ≡ some s = rw (l, new_source) at e in
              (b, l, cc same)
        ]

  -- A source as AddSource makes it, of a decoder of one channel or two, whose buffer holds sixty
  -- milliseconds and has its capacity left to the default or large enough. The Opus library gives
  -- no more samples than its room and fills what it conceals. Then through any sequence of
  -- packets, however malformed, decoded samples within the capacity, lost samples within the
  -- decoder's buffer and frames, nothing panics, and the source has counted exactly the samples of
  -- its buffer's write position: the positions that its poses have are those that its reads reach,
  -- and no read is past them.
  pub steps-Aligned :
      (laws : Sizes opus) (codec : Codec D) (home : Pose F) (quality redundancy : ℤ)
      (writer reader : ℕ) (s : Source F S D) (calls : List (Call F S))
      → new_source fl f32 codec home quality redundancy writer reader ≡ some s
      → IsPlayable codec
      → ((source_config fl quality redundancy writer reader).capacity ≡ 0)
        ⊎ (s.jitter.geo.sp_base + (s.jitter.geo.w + s.jitter.geo.r) ≤ s.jitter.geo.capacity)
      → mono_room ≤ s.jitter.geo.capacity
      → all_within s.jitter.geo.capacity calls ≡ true
      → (t : Source F S D) × (written : List S) × (steps fl f32 opus from_bits remainder pi
            tone_frame calls s
          ≡ some t)
        × Aligned t written
        × (t.samples_written ≡ t.jitter.write_pos)
        × (stream_read_pos t.jitter ≤ t.samples_written)
  steps-Aligned laws codec home quality redundancy writer reader s calls e ch room size ok =
      let (b, l, is) = new_source_cases codec home quality redundancy writer reader s e in
      let jitter : s.jitter ≡ b = sym (ap (λ x. x.jitter) {x = over codec home b} {y = s} is) in
      let roomy : ((source_config fl quality redundancy writer reader).capacity ≡ 0)
          ⊎ (b.geo.sp_base + (b.geo.w + b.geo.r) ≤ b.geo.capacity) =
        subst
          (λ j.
            ((source_config fl quality redundancy writer reader).capacity ≡ 0)
            ⊎ (j.geo.sp_base + (j.geo.w + j.geo.r) ≤ j.geo.capacity))
          {x = s.jitter} {y = b} jitter room in
      let start = over-Good codec home quality redundancy writer reader b l ch roomy in
      let good : Good fl f32 opus from_bits remainder pi tone_frame s.jitter.geo.capacity s =
        subst (λ x. Good fl f32 opus from_bits remainder pi tone_frame x.jitter.geo.capacity x)
          {x = over codec home b} {y = s} is start in
      let (t, ran, v) = steps-Good laws calls s.jitter.geo.capacity s ok size good in
      let (same, behind) = Aligned-counts v.aligned in (t, v.written, ran, v.aligned, same, behind)
