-- ===== src/Engine/Source/Conceal.antt =====
-- Conceal of a source without a decoder: the loop over frames of silence covers exactly the samples that
-- were lost.
use mathlib.Core.List.{append-nil, append_assoc}
use panaudia_lasa.Prelude.{
  ℕ, zero, suc, ◌+◌, ◌-◌, ◌≤◌, ◌<◌, ◌≡◌, refl, ap, ◌∙◌, inl, inr, min, some, List, ◌∷◌, ◌++◌, arith,
  ◌==◌, replicate, Bool-cases, length-append, length-replicate,
}
use panaudia_lasa.Prelude.Float.{Float}
use panaudia_lasa.Engine.Decoder.{Opus}
use panaudia_lasa.Engine.Source.{raw, Source, frame_size, ingest_pcm, silences, conceal_source}
use panaudia_lasa.Engine.Source.Aligned.{Aligned, ingest-Aligned}

append-replicate :
    {A : Type 0} (m n : ℕ) (x : A) → replicate m x ++ replicate n x ≡ replicate (m + n) x
append-replicate zero n x = let same : 0 + n ≡ n = omega arith in rw same refl
append-replicate (suc m) n x =
    let next : suc m + n ≡ suc (m + n) = omega arith in
    rw next (ap (λ t. x ∷ t) (append-replicate m n x))

module _ {F S D : Type 0} (fl : Float F) (f32 : Float S) (opus : Opus D S) (from_bits : ℕ → S) where
  pub silences-Aligned :
      (rounds samples : ℕ) (s : Source F S D) (written : List S)
      → samples ≤ rounds
      → Aligned s written
      → frame_size ≤ s.jitter.geo.capacity
      → let s' = silences f32 opus from_bits rounds samples s in
        Aligned s' (written ++ replicate samples (f32.lit 0 0))
        × (s'.jitter.geo ≡ s.jitter.geo)
        × (s'.codec ≡ s.codec)
  unfolding silences ingest_pcm
  silences-Aligned zero samples s written h v fits =
      let none_left : samples ≡ 0 = omega (arith, h) in
      rw (none_left, append-nil written) (v, refl, refl)
  silences-Aligned (suc rounds) samples s written h v fits = elim (Bool-cases (samples == 0)) [
    | inl over ↦
        let none_left : samples ≡ 0 = ground (arith, over) in
        rw (none_left, append-nil written) (v, refl, refl)
    | inr more ↦
        let z = f32.lit 0 0 in
        let n = min samples frame_size in
        let some_left : 0 < samples = ground (arith, more) in
        let size = length-replicate n z in
        let (v1, geo1) =
          ingest-Aligned fl f32 (replicate n z) s written v (omega (arith, size, fits)) in
        let room : frame_size ≤ (ingest_pcm (replicate n z) s).jitter.geo.capacity = rw geo1 fits in
        let (v2, geo2, codec2) =
          silences-Aligned rounds (samples - n) (ingest_pcm (replicate n z) s)
            (written ++ replicate n z) (omega (arith, h, some_left)) v1 room in
        let total : n + (samples - n) ≡ samples = omega arith in
        let stream : (written ++ replicate n z) ++ replicate (samples - n) z
            ≡ written ++ replicate samples z =
          append_assoc written (replicate n z) (replicate (samples - n) z)
          ∙ ap (λ t. written ++ t) (append-replicate n (samples - n) z)
          ∙ ap (λ k. written ++ replicate k z) total in
        rw more (rw (← stream) v2, geo2 ∙ geo1, codec2)
  ]

  -- Concealing lost samples on a source without a decoder: the loop ends, and however it cuts the
  -- samples into frames the stream has gained exactly that many samples of silence, as many as the
  -- source counts. The source counts as its buffer does before, and a frame fits the buffer.
  pub conceal_raw_lem :
      (samples : ℕ) (s : Source F S D) (written : List S)
      → s.codec ≡ raw
      → Aligned s written
      → frame_size ≤ s.jitter.geo.capacity
      → (s' : Source F S D) × (conceal_source f32 opus from_bits samples s ≡ some s')
        × Aligned s' (written ++ replicate samples (f32.lit 0 0))
        × (s'.samples_written ≡ s.samples_written + samples)
  unfolding conceal_source
  conceal_raw_lem samples s written c v fits =
      let (v', geo, codec) = silences-Aligned samples samples s written (omega arith) v fits in
      let z = f32.lit 0 0 in
      (
        silences f32 opus from_bits samples samples s,
        rw c refl,
        v',
        omega (
          arith,
          v'.counted,
          v.counted,
          length-append written (replicate samples z),
          length-replicate samples z,
        ),
      )
