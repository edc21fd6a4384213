-- ===== src/Tests/Render.antt =====
-- Two ticks of a mixer of two: a source and a listener come, then the listener is silenced.
use panaudia_lasa.Prelude.{◌+◌, ◌*◌, ◌≡◌, refl, Option, none, some, List, [], ◌∷◌, true, false}
use panaudia_lasa.Prelude.Int.{ℤ}
use panaudia_lasa.Prelude.Fixed.{fixed}
use panaudia_lasa.Prelude.Map.{lookup, put}
use panaudia_lasa.Engine.Plane.{
  Plane, Change, attach_source, attach_sink, set_mute, drain_changes, apply, ensure_entity,
  mark_audible_dirty, set_personal,
}
use panaudia_lasa.Engine.Mixer.{new_mixer}
use panaudia_lasa.Engine.Source.{frame_size}
use panaudia_lasa.Engine.Render.{Render, new_render, process}
use panaudia_lasa.Engine.Render.Ticks.{hearing}
use panaudia_lasa.Engine.Render.Ticks.{Ticks, opens, process_lem}

abbrev start : Render ℤ ℤ
start = new_render fixed fixed 2 3

abbrev arrivals : List (Change ℤ)
arrivals = attach_source 7 1 ∷ attach_sink 8 2 ∷ set_mute 8 9 true ∷ []

abbrev or_start : Option (Plane ℤ) → Plane ℤ
or_start none = start.plane
or_start (some p) = p

abbrev arrived : Plane ℤ
arrived = or_start (drain_changes fixed arrivals start.plane)

runs : drain_changes fixed arrivals start.plane ≡ some arrived
unfolding drain_changes apply ensure_entity mark_audible_dirty lookup put set_personal new_render
    new_mixer
runs = refl

process_lem_example :
    (r' : Render ℤ ℤ) × (process fixed fixed (λ x. x) arrivals start
      ≡ some (r', hearing fixed fixed (λ x. x) r'.plane))
    × Ticks fixed fixed (λ x. x) r'
    × (r'.plane ≡ record arrived { audible_dirty = false })
    × (r'.tick_count ≡ start.tick_count + 1)
    × (r'.frame_start + frame_size ≡ r'.tick_count * frame_size)
process_lem_example = process_lem fixed fixed (λ x. x) arrivals start arrived (opens 2 3) runs
