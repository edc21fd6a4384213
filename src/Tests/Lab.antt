-- ===== src/Tests/Lab.antt =====
-- A V3Buffer at a thousand frames a second, one channel, the default durations.
use panaudia_lasa.Prelude.{
  ℕ, ◌+◌, ◌*◌, ◌/◌, ◌≤◌, ◌<◌, ◌≡◌, refl, arith, ◌⊎◌, List, [], ◌∷◌, some, true, false, length,
  replicate,
}
use panaudia_lasa.Prelude.Int.{ℤ, pos}
use panaudia_lasa.Prelude.Fixed.{fixed}
use panaudia_lasa.Buffers.Jitter.Run.{Call, writes, reads, stream}
use panaudia_lasa.Lab.V3.{
  V3Config, V3Buffer, frames_of, v3_geometry, v3_fresh, new_v3_buffer, v3_decide, v3_fill, v3_write,
  v3_start, v3_valves, adapt,
}
use panaudia_lasa.Lab.V3.Play.{v3_read, v3_silence, v3_finish, v3_play}
use panaudia_lasa.Lab.V3.Stats.{v3_snapshot, v3_get_behind}
use panaudia_lasa.Lab.V3.Window.{v3_decide_lem}
use panaudia_lasa.Lab.V3.Steps.{Placed, Kept, v3_read-Placed}
use panaudia_lasa.Lab.V3.Run.{v3_run, Streams, v3_run-Placed}

abbrev slow : V3Config
slow = record {
  sample_rate = 1000;
  num_channels = 0;
  writer_frame_size = 0;
  reader_frame_size = 0;
  safety = 0;
  low_init = 0;
  low_min = 0;
  low_max = 0;
  high_init = 0;
  high_min = 0;
  high_max = 0;
}

abbrev built : V3Buffer ℤ
built = v3_fresh fixed (frames_of slow 1000) (v3_geometry (frames_of slow 1000) 1000 1)

accepts : new_v3_buffer fixed slow ≡ some built
unfolding new_v3_buffer frames_of
accepts = refl

-- A capacity of 312 frames for a band that ends at 136.
room : built.geo.capacity ≡ 312
unfolding v3_fresh v3_geometry frames_of
room = refl

-- Two writes of a writer frame reach the operating point, then a read plays.
abbrev calls : List (Call ℤ)
calls =
    writes (replicate 20 (pos 1000))
    ∷ writes (replicate 20 (pos 2000))
    ∷ reads (replicate 5 (pos 0))
    ∷ []

v3_run-Placed_example :
    Placed (v3_run fixed calls built)
    × Streams (v3_run fixed calls built) (stream built.geo.capacity built.geo.nc calls [])
v3_run-Placed_example = v3_run-Placed fixed slow built calls accepts

one_channel : (v3_run fixed calls built).geo.nc ≡ 1
unfolding v3_run v3_fresh v3_geometry frames_of v3_read v3_write v3_start v3_valves v3_finish
    v3_play adapt v3_decide
one_channel = refl

asks : 0 < length (replicate 5 (pos 0)) / (v3_run fixed calls built).geo.nc
asks = rw one_channel (ground arith)

v3_read-Placed_example :
    let b = v3_run fixed calls built in
    let (b', out, played) = v3_read fixed (replicate 5 (pos 0)) b in
    Placed b'
    × Kept b b'
    × (b.read_pos ≤ b'.read_pos)
    × (v3_fill b' ≤ b.geo.floor + b.geo.l_max + 2 * b.geo.w + b.geo.h_max)
    × ((played ≡ false) × (out ≡ v3_silence fixed (replicate 5 (pos 0))) ⊎ (played ≡ true))
v3_read-Placed_example =
    v3_read-Placed fixed (replicate 5 (pos 0)) (v3_run fixed calls built)
      (v3_run-Placed fixed slow built calls accepts).0 asks

adapts : 0 < built.geo.widen_threshold
unfolding v3_fresh v3_geometry
adapts = ground arith

abbrev inserts : ℕ
inserts = 6

abbrev drops : ℕ
drops = 7

v3_decide_lem_example :
    let c = v3_decide inserts drops built in
    (c.current_l ≤ built.current_l + built.geo.widen_step)
    × (built.current_l ≤ c.current_l + built.geo.narrow_step)
    × (c.current_h ≤ built.current_h + built.geo.widen_step)
    × (built.current_h ≤ c.current_h + built.geo.narrow_step)
    × ((c.current_l ≤ built.current_l) × (c.current_h ≤ built.current_h)
        ⊎ (built.geo.widen_threshold ≤ inserts)
          × (built.geo.widen_threshold ≤ drops)
          × (built.current_l ≤ c.current_l)
          × (built.current_h ≤ c.current_h))
    × ((built.current_l ≤ c.current_l) ⊎ (inserts ≡ 0))
    × ((built.current_h ≤ c.current_h) ⊎ (drops ≡ 0))
v3_decide_lem_example = v3_decide_lem inserts drops built adapts

-- A jittery window widens the low side by two milliseconds.
widened : (v3_decide inserts drops built).current_l ≡ 7
unfolding v3_decide v3_fresh v3_geometry frames_of
widened = refl

-- Of one channel, the samples behind are the frames.
behind :
    v3_get_behind (v3_run fixed calls built)
    ≡ (v3_snapshot fixed (v3_run fixed calls built)).fill_frames
unfolding v3_get_behind v3_snapshot v3_run v3_fresh v3_geometry frames_of v3_read v3_write v3_start
    v3_valves v3_finish v3_play adapt v3_decide
behind = refl
