-- ===== src/Engine/Source/Calls.antt =====
-- The calls on a source: packets, decoded samples, lost packets and frames. Each keeps its count.
use panaudia_lasa.Prelude.{
  ℕ, ◌≤◌, ◌≡◌, refl, sym, ap, ◌∙◌, inl, inr, Bool, true, ◌&&◌, Option, none, some, List, [], ◌∷◌,
  ◌++◌, arith, leb, if◌then◌else◌, length, replicate, Bool-cases,
}
use mathlib.Core.Path.{subst}
use panaudia_lasa.Prelude.Float.{Float}
use panaudia_lasa.Buffers.Jitter.Play.{read}
use panaudia_lasa.Buffers.Jitter.Run.{read-Kept, read-Streams}
use panaudia_lasa.Engine.Plane.{is_empty}
use panaudia_lasa.Engine.Pose.{Pose}
use panaudia_lasa.Engine.Decoder.{Opus, mono_room}
use panaudia_lasa.Engine.Source.{
  coded, Source, ingest_pcm, push_pose, write_opus, write_pcm, silences, conceal_source, read_frame,
}
use panaudia_lasa.Engine.Source.Aligned.{Aligned, ingest-Aligned, same-Aligned}
use panaudia_lasa.Engine.Source.Conceal.{silences-Aligned}
use panaudia_lasa.Engine.Source.Feed.{
  Sizes, IsPlayable, Codec-cases, decode_packet_lem, conceal_lem,
}

-- A call on a source.
pub data Call (F S : Type 0) : Type 0 where
  packet : ℕ → Option (Pose F) → List ℕ → Call F S
  decoded : ℕ → Option (Pose F) → List S → Call F S
  lost : ℕ → Call F S
  frame : List S → Call F S

-- Decoded samples within the capacity, and lost ones within the decoder's buffer.
abbrev pub within : {F S : Type 0} → ℕ → Call F S → Bool
within cap (packet seq pose pkt) = true
within cap (decoded seq pose pcm) = leb (length pcm) cap
within cap (lost samples) = leb samples mono_room
within cap (frame dst) = true

abbrev pub all_within : {F S : Type 0} → ℕ → List (Call F S) → Bool
all_within cap [] = true
all_within cap (c ∷ cs) = within cap c && all_within cap cs

module _ {F S D : Type 0} (fl : Float F) (f32 : Float S) (opus : Opus D S) (from_bits : ℕ → S)
    (remainder : F → F → F) (pi : F) (tone_frame : List S → List S) where
  unfoldable pub step : Call F S → Source F S D → Option (Source F S D)
  step (packet seq pose pkt) s = write_opus f32 opus from_bits seq pose pkt s
  step (decoded seq pose pcm) s = some (write_pcm f32 opus from_bits seq pose pcm s)
  step (lost samples) s = conceal_source f32 opus from_bits samples s
  step (frame dst) s = some (read_frame fl f32 remainder pi tone_frame dst s).0

  unfoldable pub steps : List (Call F S) → Source F S D → Option (Source F S D)
  steps [] s = some s
  steps (c ∷ cs) s = elim (step c s) [ none ↦ none | some t ↦ steps cs t ]

  -- What every call keeps.
  pub record Good (cap : ℕ) (s : Source F S D) : Type 0 where
    pub written : List S
    pub aligned : Aligned s written
    pub size : s.jitter.geo.capacity ≡ cap
    pub playable : IsPlayable s.codec

  pushed :
      (seq : ℕ) (pose : Option (Pose F)) {cap : ℕ} {s : Source F S D}
      → Good cap s
      → Good cap (push_pose seq pose s)
  unfolding push_pose
  pushed seq none v = v
  pushed seq (some pose) {s = s} v = record {
    written = v.written;
    aligned = same-Aligned s (push_pose seq (some pose) s) v.written refl refl v.aligned;
    size = v.size;
    playable = v.playable;
  }

  ingested :
      (pcm : List S) {cap : ℕ} {s : Source F S D}
      → length pcm ≤ cap
      → Good cap s
      → Good cap (ingest_pcm pcm s)
  unfolding ingest_pcm
  ingested pcm {s = s} h v =
      let (a, geo) = ingest-Aligned fl f32 pcm s v.written v.aligned (rw v.size h) in
      record {
        written = v.written ++ pcm;
        aligned = a;
        size = ap (λ g. g.capacity) geo ∙ v.size;
        playable = v.playable;
      }

  recoded :
      {cap : ℕ} (s t : Source F S D)
      → t.jitter ≡ s.jitter
      → t.samples_written ≡ s.samples_written
      → IsPlayable t.codec
      → Good cap s
      → Good cap t
  recoded s t j n ch v = record {
    written = v.written;
    aligned = same-Aligned s t v.written j n v.aligned;
    size = ap (λ b. b.geo.capacity) j ∙ v.size;
    playable = ch;
  }

  pub packet-Good :
      (laws : Sizes opus) (seq : ℕ) (pose : Option (Pose F)) (pkt : List ℕ) {cap : ℕ}
      (s : Source F S D)
      → mono_room ≤ cap
      → Good cap s
      → (t : Source F S D) × (write_opus f32 opus from_bits seq pose pkt s ≡ some t) × Good cap t
  unfolding write_opus
  packet-Good laws seq pose pkt s room v = elim (Bool-cases (is_empty pkt)) [
    | inl bare ↦ elim (Codec-cases s.codec) [
      | inl t ↦ (s, rw t refl, v)
      | inr (inl r) ↦ (push_pose seq pose s, rw (r, bare) refl, pushed seq pose v)
      | inr (inr (d, c)) ↦ (push_pose seq pose s, rw (c, bare) refl, pushed seq pose v)
    ]
    | inr full ↦ elim (decode_packet_lem f32 opus from_bits laws pkt s v.playable) [
      | inl t ↦ (s, rw t refl, v)
      | inr (s1, pcm, e, j, n, ch, still, size) ↦
          let good =
            pushed seq pose (ingested pcm (omega (arith, size, room)) (recoded s s1 j n ch v)) in
          elim (Codec-cases s.codec) [
            | inl t ↦ (s, rw t refl, v)
            | inr (inl r) ↦
                (push_pose seq pose (ingest_pcm pcm s1), rw (r, full) (rw (rw r at e) refl), good)
            | inr (inr (d, c)) ↦
                (push_pose seq pose (ingest_pcm pcm s1), rw (c, full) (rw (rw c at e) refl), good)
          ]
    ]
  ]

  pub decoded-Good :
      (seq : ℕ) (pose : Option (Pose F)) (pcm : List S) {cap : ℕ} (s : Source F S D)
      → length pcm ≤ cap
      → Good cap s
      → Good cap (write_pcm f32 opus from_bits seq pose pcm s)
  unfolding write_pcm
  decoded-Good seq pose pcm {cap = top} s h v =
      let next = if is_empty pcm then s else ingest_pcm pcm s in
      let fed : Good top next = elim (Bool-cases (is_empty pcm)) [
        | inl bare ↦ rw bare v
        | inr full ↦ rw full (ingested pcm h v)
      ] in
      let good = pushed seq pose fed in
      elim (Codec-cases s.codec) [
        | inl t ↦
            let still : write_pcm f32 opus from_bits seq pose pcm s ≡ s = rw t refl in
            subst (λ x. Good top x) (sym still) v
        | inr (inl r) ↦
            let is : write_pcm f32 opus from_bits seq pose pcm s ≡ push_pose seq pose next =
              rw r refl in
            subst (λ x. Good top x) (sym is) good
        | inr (inr (d, c)) ↦
            let is : write_pcm f32 opus from_bits seq pose pcm s ≡ push_pose seq pose next =
              rw c refl in
            subst (λ x. Good top x) (sym is) good
      ]

  pub lost-Good :
      (laws : Sizes opus) (samples : ℕ) {cap : ℕ} (s : Source F S D)
      → samples ≤ mono_room
      → mono_room ≤ cap
      → Good cap s
      → (t : Source F S D) × (conceal_source f32 opus from_bits samples s ≡ some t) × Good cap t
  unfolding conceal_source
  lost-Good laws samples s h room v = elim (Codec-cases s.codec) [
    | inl t ↦ (s, rw t refl, v)
    | inr (inl r) ↦
        let (a, geo, codec) =
          silences-Aligned fl f32 opus from_bits samples samples s v.written (omega arith) v.aligned
            (rw v.size (omega (arith, room))) in
        (
          silences f32 opus from_bits samples samples s,
          rw r refl,
          record {
            written = v.written ++ replicate samples (f32.lit 0 0);
            aligned = a;
            size = ap (λ g. g.capacity) geo ∙ v.size;
            playable = rw codec v.playable;
          },
        )
    | inr (inr (d, c)) ↦
        let ch : IsPlayable (coded d) = rw c at v.playable in
        let (d1, pcm, e, kept, size) = conceal_lem f32 opus laws d samples ch h in
        let s1 = record s { codec = coded d1 } in
        (
          ingest_pcm pcm s1,
          rw (c, conceal_source, e) refl,
          ingested pcm (omega (arith, size, h, room)) (recoded s s1 refl refl (rw kept ch) v),
        )
  ]

  pub frame-Good :
      (dst : List S) {cap : ℕ} (s : Source F S D)
      → Good cap s
      → Good cap (read_frame fl f32 remainder pi tone_frame dst s).0
  unfolding read_frame
  frame-Good dst {cap = top} s v =
      let (placed, k) = read-Kept fl f32 dst s.jitter v.aligned.placed in
      let next = record s { jitter = (read fl f32 dst s.jitter).0 } in
      let played : Good top (record s { jitter = (read fl f32 dst s.jitter).0 }) = record {
        written = v.written;
        aligned = record {
          placed = placed;
          streams = read-Streams fl f32 dst v.written s.jitter k v.aligned.streams;
          mono = ap (λ g. g.nc) k.geo ∙ v.aligned.mono;
          counted = v.aligned.counted;
        };
        size = ap (λ g. g.capacity) k.geo ∙ v.size;
        playable = v.playable;
      } in
      elim (Codec-cases s.codec) [
        | inl t ↦
            let still : (read_frame fl f32 remainder pi tone_frame dst s).0 ≡ s = rw t refl in
            subst (λ x. Good top x) (sym still) v
        | inr (inl r) ↦
            let is : (read_frame fl f32 remainder pi tone_frame dst s).0 ≡ next = rw r refl in
            subst (λ x. Good top x) (sym is) played
        | inr (inr (d, c)) ↦
            let is : (read_frame fl f32 remainder pi tone_frame dst s).0 ≡ next = rw c refl in
            subst (λ x. Good top x) (sym is) played
      ]
