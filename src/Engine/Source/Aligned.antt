-- ===== src/Engine/Source/Aligned.antt =====
-- A source counts its samples as its jitter buffer does, through packets good and bad, decoded samples,
-- lost packets and frames: its poses and its reads are in one domain.
use panaudia_lasa.Prelude.{
  ℕ, ◌*◌, ◌/◌, ◌≤◌, ◌≡◌, refl, ap, ◌∙◌, false, List, [], ◌∷◌, ◌++◌, arith, ltb, length, take,
  length-append,
}
use panaudia_lasa.Prelude.Float.{Float}
use panaudia_lasa.Buffers.Ring.Accept.{accepted}
use panaudia_lasa.Buffers.Jitter.Play.{stream_read_pos}
use panaudia_lasa.Buffers.Jitter.Valid.{Placed, write-Placed}
use panaudia_lasa.Buffers.Jitter.Audio.{Streams, write-Streams}
use panaudia_lasa.Buffers.Jitter.Run.{write-geo}
use panaudia_lasa.Engine.Source.{Source, ingest_pcm}

pub take_all : {S : Type 0} (xs : List S) → take (length xs) xs ≡ xs
take_all [] = refl
take_all (x ∷ xs) = ap (λ t. x ∷ t) (take_all xs)

-- Of a mono buffer, a write of no more than the capacity is accepted whole.
pub accepted_whole :
    {S : Type 0} (cap : ℕ) (src : List S) → length src ≤ cap → accepted cap 1 src ≡ src
accepted_whole cap src h =
    let n : length src / 1 ≡ length src = omega arith in
    let size : length src * 1 ≡ length src = omega arith in
    let fits : ltb cap (length src) ≡ false = ground (arith, h) in rw (n, fits, size) (take_all src)

module _ {F S D : Type 0} where
  pub record Aligned (s : Source F S D) (written : List S) : Type 0 where
    pub placed : Placed s.jitter
    pub streams : Streams s.jitter written
    pub mono : s.jitter.geo.nc ≡ 1
    pub counted : s.samples_written ≡ length written

  -- The counts agree, and nothing is read before it is written.
  pub Aligned-counts :
      {s : Source F S D} {written : List S}
      → Aligned s written
      → (s.samples_written ≡ s.jitter.write_pos) × (stream_read_pos s.jitter ≤ s.samples_written)
  unfolding stream_read_pos
  Aligned-counts {s = s} v =
      let one : s.jitter.write_pos * s.jitter.geo.nc ≡ s.jitter.write_pos =
        rw v.mono (omega arith) in
      let same : s.samples_written ≡ s.jitter.write_pos = v.counted ∙ v.streams.counted ∙ one in
      (same, rw same v.placed.ordered)

  -- Fields that the alignment does not read.
  pub same-Aligned :
      (s t : Source F S D) (written : List S)
      → t.jitter ≡ s.jitter
      → t.samples_written ≡ s.samples_written
      → Aligned s written
      → Aligned t written
  same-Aligned s t written j n v = record {
    placed = rw j v.placed;
    streams = rw j v.streams;
    mono = rw j v.mono;
    counted = n ∙ v.counted;
  }

module _ {F S D : Type 0} (fl : Float F) (f32 : Float S) where
  pub ingest-Aligned :
      (pcm : List S) (s : Source F S D) (written : List S)
      → Aligned s written
      → length pcm ≤ s.jitter.geo.capacity
      → Aligned (ingest_pcm pcm s) (written ++ pcm) × ((ingest_pcm pcm s).jitter.geo ≡ s.jitter.geo)
  unfolding ingest_pcm
  ingest-Aligned pcm s written v h =
      let geo = write-geo fl f32 pcm s.jitter in
      let whole : accepted s.jitter.geo.capacity s.jitter.geo.nc pcm ≡ pcm =
        ap (λ nc. accepted s.jitter.geo.capacity nc pcm) v.mono
        ∙ accepted_whole s.jitter.geo.capacity pcm h in
      (
        record {
          placed = write-Placed pcm v.placed;
          streams = rw whole at (write-Streams pcm written s.jitter v.placed v.streams);
          mono = ap (λ g. g.nc) geo ∙ v.mono;
          counted = omega (arith, v.counted, length-append written pcm);
        },
        geo,
      )
