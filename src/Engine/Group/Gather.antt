-- ===== src/Engine/Group/Gather.antt =====
-- What WriteFrame gathers of a set's members, and the set in order.
use panaudia_lasa.Prelude.{
  false, ℕ, suc, ◌*◌, ◌≤◌, ◌≡◌, ◌≢◌, refl, ap, inl, inr, min, Option, none, some, List, [], ◌∷◌,
  arith, length, replicate, Bool-cases, Option-cases,
}
use panaudia_lasa.Prelude.Float.{Float}
use panaudia_lasa.Buffers.Jitter.Valid.{Placed}
use panaudia_lasa.Buffers.Jitter.Audio.{Streams}
use panaudia_lasa.Engine.Plane.{is_empty}
use panaudia_lasa.Engine.Decoder.{Opus}
use panaudia_lasa.Engine.Source.{tone, coded, Source, frame_size}
use panaudia_lasa.Engine.Source.Feed.{
  Sizes, IsPlayable, Codec-cases, decode_packet_lem, conceal_lem,
}
use panaudia_lasa.Engine.Group.Frames.{
  GroupChannel, Lockstep, conceals, conceal_pcm, member_pcm, gather, pin, pin_all, stray,
}

module _ {F S D : Type 0} where
  -- Every member of the seats has a decoder of one channel or two, or none.
  pub data AllAble : List (Option (Source F S D)) → Type 0 where
    no_seats : AllAble []
    empty_seat : {ms : List (Option (Source F S D))} → AllAble ms → AllAble (none ∷ ms)
    taken_seat :
        {s : Source F S D} {ms : List (Option (Source F S D))}
        → IsPlayable s.codec
        → s.codec ≢ tone
        → AllAble ms
        → AllAble (some s ∷ ms)

  pin-Able :
      (seq at_sample : ℕ) (s : Source F S D) (c : GroupChannel F)
      {ms : List (Option (Source F S D))}
      → IsPlayable s.codec
      → s.codec ≢ tone
      → AllAble ms
      → AllAble (pin seq at_sample (some s) c ∷ ms)
  pin-Able seq at_sample s c ch ne v = elim (Option-cases c.pose) [
    | inl l ↦ rw l (taken_seat ch ne v)
    | inr (p, l) ↦ rw l (taken_seat ch ne v)
  ]

  -- A channel for each seat at most.
  pub stray-fits :
      (ms : List (Option (Source F S D))) (cs : List (GroupChannel F))
      → length cs ≤ length ms
      → stray ms cs ≡ false
  stray-fits [] [] h = refl
  stray-fits (m ∷ ms) [] h = refl
  stray-fits [] (c ∷ cs) h = absurd (omega (arith, h))
  stray-fits (m ∷ ms) (c ∷ cs) h = stray-fits ms cs (omega (arith, h))

  pub pin_all-AllAble :
      (seq at_sample : ℕ) (ms : List (Option (Source F S D))) (cs : List (GroupChannel F))
      → AllAble ms
      → AllAble (pin_all seq at_sample ms cs) × (length (pin_all seq at_sample ms cs) ≡ length ms)
  pin_all-AllAble seq at_sample [] cs v = (v, refl)
  pin_all-AllAble seq at_sample (m ∷ ms) [] v = (v, refl)
  pin_all-AllAble seq at_sample (none ∷ ms) (c ∷ cs) (empty_seat v) =
      let (rest, size) = pin_all-AllAble seq at_sample ms cs v in (empty_seat rest, ap suc size)
  pin_all-AllAble seq at_sample (some s ∷ ms) (c ∷ cs) (taken_seat ch ne v) =
      let (rest, size) = pin_all-AllAble seq at_sample ms cs v in
      (pin-Able seq at_sample s c ch ne rest, ap suc size)

  -- The set's buffer holds its stream of frames, which its count of samples agrees with.
  pub record Shared (g : Lockstep F S D) (written : List S) : Type 0 where
    pub placed : Placed g.jitter
    pub streams : Streams g.jitter written
    pub channels : g.jitter.geo.nc ≡ g.n
    pub room : frame_size ≤ g.jitter.geo.capacity
    pub seats : length g.members ≡ g.n
    pub able : AllAble g.members
    pub size : length g.write_scratch ≡ frame_size * g.n
    pub counted : g.samples_written ≡ g.jitter.write_pos

module _ {F S D : Type 0} (f32 : Float S) (opus : Opus D S) (from_bits : ℕ → S) where
  conceal_pcm_lem :
      (laws : Sizes opus) (s : Source F S D)
      → IsPlayable s.codec
      → s.codec ≢ tone
      → (s1 : Source F S D) × (pcm : List S) × (conceal_pcm f32 opus from_bits frame_size s
          ≡ some (s1, pcm))
        × IsPlayable s1.codec
        × (s1.codec ≢ tone)
  unfolding conceal_pcm
  conceal_pcm_lem laws s ch ne = elim (Codec-cases s.codec) [
    | inl t ↦ absurd (ne t)
    | inr (inl r) ↦ (s, replicate (min frame_size frame_size) (f32.lit 0 0), rw r refl, ch, ne)
    | inr (inr (d, c)) ↦
        let ch' : IsPlayable (coded d) = rw c at ch in
        let (d1, pcm, e, kept, size) = conceal_lem f32 opus laws d frame_size ch' (omega arith) in
        (
          record s { codec = coded d1 },
          pcm,
          rw (c, conceal_pcm, e) refl,
          rw kept ch',
          λ t. absurd (ground (arith, t)),
        )
  ]

  member_pcm_lem :
      (laws : Sizes opus) (s : Source F S D) (c : GroupChannel F)
      → IsPlayable s.codec
      → s.codec ≢ tone
      → (s1 : Source F S D) × (pcm : List S) × (member_pcm f32 opus from_bits (some s) c
          ≡ some (some s1, pcm))
        × IsPlayable s1.codec
        × (s1.codec ≢ tone)
  unfolding member_pcm
  member_pcm_lem laws s c ch ne = elim (Bool-cases (is_empty c.audio)) [
    | inr heard ↦ elim (decode_packet_lem f32 opus from_bits laws c.audio s ch) [
      | inl t ↦ absurd (ne t)
      | inr (s1, pcm, e, j, n, ch1, still, size) ↦
          (s1, pcm, rw (member_pcm, heard, e) refl, ch1, λ t. ne (still t))
    ]
    | inl nothing ↦ elim (Bool-cases (conceals c)) [
      | inl covered ↦
          let (s1, pcm, e, ch1, ne1) = conceal_pcm_lem laws s ch ne in
          (s1, pcm, rw (member_pcm, nothing, covered, e) refl, ch1, ne1)
      | inr quiet ↦ (s, [], rw (member_pcm, nothing, quiet) refl, ch, ne)
    ]
  ]

  empty_member : (c : GroupChannel F) → member_pcm f32 opus from_bits none c ≡ some (none, [])
  unfolding member_pcm
  empty_member c = refl

  -- Of every member something is gathered, without a panic.
  pub gather_lem :
      (laws : Sizes opus) (ms : List (Option (Source F S D))) (cs : List (GroupChannel F))
      → AllAble ms
      → length cs ≡ length ms
      → (ms1 : List (Option (Source F S D))) × (pcms : List (List S)) × (gather f32 opus from_bits
            ms cs
          ≡ some (ms1, pcms))
        × AllAble ms1
        × (length ms1 ≡ length ms)
        × (length pcms ≡ length ms)
  unfolding gather
  gather_lem laws [] cs v h = ([], [], refl, no_seats, refl, refl)
  gather_lem laws (m ∷ ms) [] v h = absurd (omega (arith, h))
  gather_lem laws (none ∷ ms) (c ∷ cs) (empty_seat v) h =
      let (ms1, pcms, e, v1, size, count) = gather_lem laws ms cs v (omega (arith, h)) in
      (
        none ∷ ms1,
        [] ∷ pcms,
        rw (gather, empty_member c, e) refl,
        empty_seat v1,
        ap suc size,
        ap suc count,
      )
  gather_lem laws (some s ∷ ms) (c ∷ cs) (taken_seat ch ne v) h =
      let (s1, pcm, e1, ch1, ne1) = member_pcm_lem laws s c ch ne in
      let (ms1, pcms, e, v1, size, count) = gather_lem laws ms cs v (omega (arith, h)) in
      (
        some s1 ∷ ms1,
        pcm ∷ pcms,
        rw (gather, e1, e) refl,
        taken_seat ch1 ne1 v1,
        ap suc size,
        ap suc count,
      )
