-- ===== src/Engine/Source/Feed.antt =====
-- Decoding a packet and covering a loss: neither panics, and how many samples they give.
use panaudia_lasa.Prelude.{
  ℕ, zero, suc, ◌+◌, ◌*◌, ◌/◌, ◌%◌, ◌≤◌, ◌≡◌, refl, ap, ◌∙◌, ◌⊎◌, inl, inr, true, false, ◌||◌, not,
  some, List, [], ◌∷◌, arith, ltb, ◌==◌, if◌then◌else◌, length, replicate, Bool-cases, Option-cases,
  length-replicate,
}
use panaudia_lasa.Prelude.Float.{Float}
use panaudia_lasa.Engine.Decoder.{Opus, OpusInputDecoder, decode, conceal, mono_room, downmix}
use panaudia_lasa.Engine.Source.{
  Codec, tone, raw, coded, Source, frame_size, samples_of, decode_raw, decode_packet,
}

-- What the Opus library documents of the sizes: a packet's samples fit the room given, and a
-- concealment that succeeds fills it.
pub record Sizes {D S : Type 0} (opus : Opus D S) : Type 0 where
  pub fits :
      (d : D) (room : ℕ) (pkt : List ℕ) (pcm : List S)
      → (opus.decode d room pkt).1 ≡ some pcm
      → length pcm ≤ room
  pub fills :
      (d : D) (room : ℕ) (pcm : List S) → (opus.conceal d room).1 ≡ some pcm → length pcm ≡ room

-- A decoder of one channel or two, which is what InputChannels may be.
abbrev pub channels_of : {D : Type 0} → Codec D → ℕ
channels_of tone = 1
channels_of raw = 1
channels_of (coded d) = d.channels

abbrev pub IsPlayable : {D : Type 0} → Codec D → Type 0
IsPlayable c = (channels_of c ≡ 1) ⊎ (channels_of c ≡ 2)

pub Codec-cases :
    {D : Type 0} (c : Codec D) → (c ≡ tone) ⊎ (c ≡ raw) ⊎ ((d : OpusInputDecoder D) × (c ≡ coded d))
Codec-cases tone = inl refl
Codec-cases raw = inr (inl refl)
Codec-cases (coded d) = inr (inr (d, refl))

module _ {D S : Type 0} (f32 : Float S) (opus : Opus D S) where
  length-downmix : (n : ℕ) (xs : List S) → length xs ≡ 2 * n → length (downmix f32 opus xs) ≡ n
  length-downmix zero [] e = refl
  length-downmix zero (x ∷ xs) e = absurd (omega (arith, e))
  length-downmix (suc n) [] e = absurd (omega (arith, e))
  length-downmix (suc n) (l ∷ []) e = absurd (omega (arith, e))
  length-downmix (suc n) (l ∷ r ∷ xs) e = ap suc (length-downmix n xs (omega (arith, e)))

  downmix-length_le : (n : ℕ) (xs : List S) → length xs ≤ 2 * n → length (downmix f32 opus xs) ≤ n
  downmix-length_le n [] h = omega arith
  downmix-length_le n (l ∷ []) h = omega arith
  downmix-length_le zero (l ∷ r ∷ xs) h = absurd (omega (arith, h))
  downmix-length_le (suc n) (l ∷ r ∷ xs) h =
      omega (arith, downmix-length_le n xs (omega (arith, h)))

  decode_lem :
      (laws : Sizes opus) (d : OpusInputDecoder D) (pkt : List ℕ)
      → IsPlayable (coded d)
      → let (d1, r) = decode f32 opus d pkt in
        (d1.channels ≡ d.channels) × ((pcm : List S) → r ≡ some pcm → length pcm ≤ mono_room)
  unfolding decode
  decode_lem laws d pkt ch = (
    refl,
    λ pcm e. elim (Option-cases (opus.decode d.state (d.channels * mono_room) pkt).1) [
      | inl bad ↦ absurd (ground (arith, rw bad at e))
      | inr (got, r) ↦
          let size = laws.fits d.state (d.channels * mono_room) pkt got r in
          elim ch [
            | inl one ↦
                let same : got ≡ pcm = ground (arith, rw (r, one) at e) in
                rw (← same) (ground (arith, rw one at size))
            | inr two ↦
                let same : downmix f32 opus got ≡ pcm = ground (arith, rw (r, two) at e) in
                rw (← same) (downmix-length_le mono_room got (ground (arith, rw two at size)))
          ]
    ],
  )

  pub conceal_lem :
      (laws : Sizes opus) (d : OpusInputDecoder D) (samples : ℕ)
      → IsPlayable (coded d)
      → samples ≤ mono_room
      → (d1 : OpusInputDecoder D) × (pcm : List S) × (conceal f32 opus d samples ≡ some (d1, pcm))
        × (d1.channels ≡ d.channels)
        × (length pcm ≡ samples)
  unfolding conceal
  conceal_lem laws d samples ch h =
      let inside : ltb mono_room samples ≡ false = ground (arith, h) in
      let mute = f32.lit 0 0 in
      let loud = opus.conceal d.state in
      elim ch [
        | inl one ↦
            let test : (d.channels == 1) ≡ true = rw one refl in
            elim (Option-cases (loud samples).1) [
              | inl bad ↦ (
                record d { state = (loud samples).0 },
                replicate samples mute,
                rw (test, bad, inside) refl,
                refl,
                length-replicate samples mute,
              )
              | inr (got, r) ↦ (
                record d { state = (loud samples).0 },
                got,
                rw (test, r, inside) refl,
                refl,
                laws.fills d.state samples got r,
              )
            ]
        | inr two ↦
            let test : (d.channels == 1) ≡ false = rw two refl in
            let room = 2 * samples in
            elim (Option-cases (loud room).1) [
              | inl bad ↦ (
                record d { state = (loud room).0 },
                downmix f32 opus (replicate room mute),
                rw (test, bad, inside) refl,
                refl,
                length-downmix samples (replicate room mute) (length-replicate room mute),
              )
              | inr (got, r) ↦ (
                record d { state = (loud room).0 },
                downmix f32 opus got,
                rw (test, r, inside) refl,
                refl,
                length-downmix samples got (laws.fills d.state room got r),
              )
            ]
      ]

samples_of-length_le :
    {S : Type 0} (from_bits : ℕ → S) (n : ℕ) (pkt : List ℕ)
    → length pkt / 4 ≤ n
    → length (samples_of from_bits pkt) ≤ n
samples_of-length_le from_bits n [] h = omega arith
samples_of-length_le from_bits n (a ∷ []) h = omega arith
samples_of-length_le from_bits n (a ∷ b ∷ []) h = omega arith
samples_of-length_le from_bits n (a ∷ b ∷ c ∷ []) h = omega arith
samples_of-length_le from_bits zero (a ∷ b ∷ c ∷ d ∷ pkt) h = absurd (omega (arith, h))
samples_of-length_le from_bits (suc n) (a ∷ b ∷ c ∷ d ∷ pkt) h =
    omega (arith, samples_of-length_le from_bits n pkt (omega (arith, h)))

module _ {S : Type 0} (f32 : Float S) (from_bits : ℕ → S) where
  decode_raw-length_le : (pkt : List ℕ) → length (decode_raw f32 from_bits pkt).0 ≤ frame_size
  unfolding decode_raw
  decode_raw-length_le pkt =
      elim (Bool-cases (not (length pkt % 4 == 0) || ltb frame_size (length pkt / 4))) [
        | inl bad ↦ rw bad (omega (arith, length-replicate frame_size (f32.lit 0 0)))
        | inr good ↦ rw good (samples_of-length_le from_bits frame_size pkt (ground (arith, good)))
      ]

module _ {F S D : Type 0} (f32 : Float S) (opus : Opus D S) (from_bits : ℕ → S) where
  -- A packet is decoded or covered, without a panic.
  pub decode_packet_lem :
      (laws : Sizes opus) (pkt : List ℕ) (s : Source F S D)
      → IsPlayable s.codec
      → (s.codec ≡ tone)
        ⊎ ((s1 : Source F S D) × (pcm : List S) × (decode_packet f32 opus from_bits pkt s
              ≡ some (s1, pcm))
            × (s1.jitter ≡ s.jitter)
            × (s1.samples_written ≡ s.samples_written)
            × IsPlayable s1.codec
            × (s1.codec ≡ tone → s.codec ≡ tone)
            × (length pcm ≤ mono_room))
  unfolding decode_packet decode
  decode_packet_lem laws pkt s ch = elim (Codec-cases s.codec) [
    | inl t ↦ inl t
    | inr (inl r) ↦
        let size = decode_raw-length_le f32 from_bits pkt in
        let (pcm, refused) = decode_raw f32 from_bits pkt in
        inr (
          record s { decode_errors = if refused then s.decode_errors + 1 else s.decode_errors },
          pcm,
          rw r refl,
          refl,
          refl,
          ch,
          λ t. t,
          omega (arith, size),
        )
    | inr (inr (d, c)) ↦
        let ch' : IsPlayable (coded d) = rw c at ch in
        let (kept, small) = decode_lem f32 opus laws d pkt ch' in
        elim (Option-cases (decode f32 opus d pkt).1) [
          | inr (good, e) ↦ inr (
            record s { codec = coded (decode f32 opus d pkt).0 },
            good,
            rw (c, e) refl,
            refl,
            refl,
            rw kept ch',
            λ t. absurd (ground (arith, t)),
            small good e,
          )
          | inl bad ↦
              let d1 = (decode f32 opus d pkt).0 in
              let (d2, lost, e, kept2, size) =
                conceal_lem f32 opus laws d1 frame_size (rw kept ch') (omega arith) in
              inr (
                record s { codec = coded d2; decode_errors = s.decode_errors + 1 },
                lost,
                rw (c, bad, e) refl,
                refl,
                refl,
                rw (kept2 ∙ kept) ch',
                λ t. absurd (ground (arith, t)),
                omega (arith, size),
              )
        ]
  ]
