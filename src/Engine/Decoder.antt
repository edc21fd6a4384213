-- ===== src/Engine/Decoder.antt =====
-- engine/inout/decoder.go and plc.go: an Opus packet to mono samples, and concealment of a lost one.
-- The Opus library is a parameter: `decode` and `conceal` of its decoder's state, a packet and the
-- room of the buffer give the new state and the samples, interleaved, or an error.
use panaudia_lasa.Prelude.{
  ℕ, ◌*◌, Option, none, some, List, [], ◌∷◌, ltb, ◌==◌, if◌then◌else◌, replicate,
}
use panaudia_lasa.Prelude.Float.{Float}

pub record Opus (D S : Type 0) : Type 0 where
  pub decode : D → ℕ → List ℕ → D × Option (List S)
  pub conceal : D → ℕ → D × Option (List S)

pub record OpusInputDecoder (D : Type 0) : Type 0 where
  pub state : D
  pub channels : ℕ

-- Sixty milliseconds.
abbrev pub mono_room : ℕ
mono_room = 2880

module _ {D S : Type 0} (f32 : Float S) (opus : Opus D S) where
  -- Left and right summed.
  abbrev pub downmix : List S → List S
  downmix [] = []
  downmix (l ∷ []) = []
  downmix (l ∷ r ∷ xs) = f32.add l r ∷ downmix xs

  abbrev mono : ℕ → List S → List S
  mono channels pcm = if channels == 1 then pcm else downmix pcm

  -- Silence where the library fails.
  abbrev filled : ℕ → Option (List S) → List S
  filled room none = replicate room (f32.lit 0 0)
  filled room (some pcm) = pcm

  -- Decode, the error as `none`.
  unfoldable pub decode : OpusInputDecoder D → List ℕ → OpusInputDecoder D × Option (List S)
  decode d pkt =
      let (state, r) = opus.decode d.state (d.channels * mono_room) pkt in
      (record d { state = state }, elim r [ none ↦ none | some pcm ↦ some (mono d.channels pcm) ])

  -- ConcealFloat32; `none` is the panic of more samples than the buffer has.
  unfoldable pub conceal : OpusInputDecoder D → ℕ → Option (OpusInputDecoder D × List S)
  conceal d samples =
      let room = if d.channels == 1 then samples else 2 * samples in
      let (state, r) = opus.conceal d.state room in
      let pcm = filled room r in
      if ltb mono_room samples then none else some (record d { state = state }, mono d.channels pcm)
