-- ===== src/Engine/Group/Written.antt =====
-- WriteFrame against the streams of the members: they stay in step.
use native.Mathlib.Nat.{mul-div_cancel}
use panaudia_lasa.Prelude.{
  ℕ, ◌+◌, ◌*◌, ◌/◌, ◌≤◌, ◌<◌, ◌≡◌, refl, sym, ap, ◌∙◌, ◌⊎◌, inl, inr, true, false, Option, some,
  List, ◌++◌, arith, ltb, length, get_elem?, take, Bool-cases,
}
use panaudia_lasa.Prelude.Float.{Float}
use panaudia_lasa.Buffers.Ring.Accept.{accepted}
use panaudia_lasa.Buffers.Jitter.{JitterBuffer}
use panaudia_lasa.Buffers.Jitter.Play.{write}
use panaudia_lasa.Buffers.Jitter.Valid.{write-Placed}
use panaudia_lasa.Buffers.Jitter.Audio.{write-Streams}
use panaudia_lasa.Buffers.Jitter.Run.{write-geo}
use panaudia_lasa.Engine.Decoder.{Opus}
use panaudia_lasa.Engine.Source.{Source, frame_size}
use panaudia_lasa.Engine.Source.Aligned.{take_all}
use panaudia_lasa.Engine.Source.Feed.{Sizes}
use panaudia_lasa.Engine.Group.Frames.{
  GroupChannel, Lockstep, any_audio, weave, channel, gather, pin_all, write_frame,
}
use panaudia_lasa.Engine.Group.Weave.{padded, length-weave, channel-weave}
use panaudia_lasa.Engine.Group.Gather.{AllAble, stray-fits, pin_all-AllAble, Shared, gather_lem}

-- A frame of `nc` channels is accepted whole.
frame_accepted :
    {S : Type 0} (cap nc : ℕ) (src : List S)
    → 0 < nc
    → length src ≡ frame_size * nc
    → frame_size ≤ cap
    → accepted cap nc src ≡ src
frame_accepted cap nc src pos size fits =
    let n : length src / nc ≡ frame_size = rw size (mul-div_cancel frame_size pos) in
    let inside : ltb cap frame_size ≡ false = ground (arith, fits) in
    rw (n, inside) (ap (λ k. take k src) (sym size) ∙ take_all src)

frame_moves :
    {F S : Type 0} (b : JitterBuffer F S) (src : List S)
    → 0 < b.geo.nc
    → length src ≡ frame_size * b.geo.nc
    → frame_size ≤ b.geo.capacity
    → (write src b).write_pos ≡ b.write_pos + frame_size
unfolding write
frame_moves b src pos size fits =
    let n : length src / b.geo.nc ≡ frame_size = rw size (mul-div_cancel frame_size pos) in
    let inside : ltb b.geo.capacity frame_size ≡ false = ground (arith, fits) in rw (n, inside) refl

module _ {F S D : Type 0} (fl : Float F) (f32 : Float S) where
  write-Shared :
      (g : Lockstep F S D) (written scratch : List S) (ms : List (Option (Source F S D)))
      → Shared g written
      → length scratch ≡ frame_size * g.n
      → length ms ≡ g.n
      → AllAble ms
      → Shared
          (record g {
            members = ms;
            jitter = write scratch g.jitter;
            samples_written = g.samples_written + frame_size;
            write_scratch = scratch;
          })
          (written ++ scratch)
  write-Shared g written scratch ms v size seats able =
      let geo = write-geo fl f32 scratch g.jitter in
      let wide : length scratch ≡ frame_size * g.jitter.geo.nc = rw v.channels size in
      let whole =
        frame_accepted g.jitter.geo.capacity g.jitter.geo.nc scratch v.placed.sound.channels wide
          v.room in
      let moved = frame_moves g.jitter scratch v.placed.sound.channels wide v.room in
      record {
        placed = write-Placed scratch v.placed;
        streams = rw whole at (write-Streams scratch written g.jitter v.placed v.streams);
        channels = ap (λ x. x.nc) geo ∙ v.channels;
        room = rw geo v.room;
        seats = seats;
        able = able;
        size = size;
        counted = omega (arith, v.counted, moved);
      }

module _ {F S D : Type 0} (fl : Float F) (f32 : Float S) (opus : Opus D S) (from_bits : ℕ → S) where
  -- A frame for a set whose seats are free or taken by members with a decoder of one channel or two,
  -- or none, whose buffer has a channel for each and holds a frame, and which counts as its buffer
  -- does. The Opus library gives no more samples than its room and fills what it conceals.
  -- WriteFrame of a share for every seat does not panic. If no share has audio or is concealed, the
  -- stream and the count stay. Otherwise one frame of samples is counted, the stream has gained
  -- exactly the frame, and the channel of every member has the member's own samples, cut to a
  -- frame or filled with silence. The set is then as it was before.
  pub write_frame_lem :
      (laws : Sizes opus) (seq : ℕ) (chans : List (GroupChannel F)) (g : Lockstep F S D)
      (written : List S)
      → Shared g written
      → length chans ≡ g.n
      → (g' : Lockstep F S D) × (write_frame f32 opus from_bits seq chans g ≡ some g')
        × ((any_audio chans ≡ false) × Shared g' written × (g'.samples_written ≡ g.samples_written)
            ⊎ (any_audio chans ≡ true)
              × Shared g' (written ++ g'.write_scratch)
              × (g'.samples_written ≡ g.samples_written + frame_size)
              × (ms : List (Option (Source F S D))) × (pcms : List (List S)) × (gather f32 opus
                    from_bits g.members chans
                  ≡ some (ms, pcms))
              × (length pcms ≡ g.n)
              × ((i : ℕ) (pcm : List S)
                  → get_elem? pcms i ≡ some pcm
                  → channel (f32.lit 0 0) g.n i frame_size 0 g'.write_scratch
                    ≡ padded (f32.lit 0 0) frame_size pcm))
  unfolding write_frame
  write_frame_lem laws seq chans g written v h = elim (Bool-cases (any_audio chans)) [
    | inr quiet ↦
        let seated = stray-fits g.members chans (omega (arith, h, v.seats)) in
        let (able, size) = pin_all-AllAble seq g.samples_written g.members chans v.able in
        let g1 = record g { members = pin_all seq g.samples_written g.members chans } in
        (
          g1,
          rw (seated, quiet) refl,
          inl (
            quiet,
            record {
              placed = v.placed;
              streams = v.streams;
              channels = v.channels;
              room = v.room;
              seats = size ∙ v.seats;
              able = able;
              size = v.size;
              counted = v.counted;
            },
            refl,
          ),
        )
    | inl heard ↦
        let seated = stray-fits g.members chans (omega (arith, h, v.seats)) in
        let (ms, pcms, e, v1, seats, count) =
          gather_lem f32 opus from_bits laws g.members chans v.able (h ∙ sym v.seats) in
        let z = f32.lit 0 0 in
        let scratch = weave z g.n 0 pcms g.write_scratch in
        let at_sample = g.samples_written + frame_size in
        let (able, size) = pin_all-AllAble seq at_sample ms chans v1 in
        let g1 = record g {
          members = pin_all seq at_sample ms chans;
          jitter = write scratch g.jitter;
          samples_written = at_sample;
          write_scratch = scratch;
        } in
        (
          g1,
          rw (seated, heard, write_frame, e) refl,
          inr (
            heard,
            write-Shared fl f32 g written scratch (pin_all seq at_sample ms chans) v
                (length-weave z g.n 0 pcms g.write_scratch ∙ v.size) (size ∙ seats ∙ v.seats) able,
            refl,
            ms,
            pcms,
            e,
            count ∙ v.seats,
            λ i pcm at_i.
                channel-weave z g.n i pcms pcm g.write_scratch at_i (omega (arith, count, v.seats))
                  (omega (arith, v.size)),
          ),
        )
  ]
