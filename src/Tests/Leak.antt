-- ===== src/Tests/Leak.antt =====
-- An entity with both renders leaves: the ambisonic one is not released.
use panaudia_lasa.Prelude.{◌≡◌, refl, some, none, [], ◌∷◌}
use panaudia_lasa.Prelude.Int.{ℤ, pos}
use panaudia_lasa.Prelude.Fixed.{fixed}
use panaudia_lasa.Prelude.Map.{lookup, put}
use panaudia_lasa.Engine.Mixer.{Mixer, new_mixer, add_source, add_sink, add_ambi_sink, drain}
use panaudia_lasa.Engine.Mixer.Order.{Reachable, starts, adds_source, adds_sink, adds_ambi}
use panaudia_lasa.Server.State.{EntityRec, Host}
use panaudia_lasa.Server.Wiring.{new_state_wiring, flush_joined}
use panaudia_lasa.Server.Backend.{
  new_host, new_backend, new_rec, seat_entity, engine_add, answer_join, entity_joined, entity_left,
}
use panaudia_lasa.Server.Backend.Sinks.{ambi2, add_pose_sink, start_sink}
use panaudia_lasa.Server.Backend.Leak.{entity_left-leak}
use panaudia_lasa.Tests.Server.{same_width, singer, sings}

abbrev both : Host ℤ ℤ
both = (start_sink (pos 0) same_width 7 ambi2 sings).0

abbrev renders : EntityRec ℤ
renders = record (new_rec (pos 0) same_width 1 singer 0) { sinks = 1 ∷ 2 ∷ [] }

built : Reachable fixed both.mixer
unfolding new_host new_backend new_state_wiring new_mixer entity_joined answer_join engine_add
    start_sink seat_entity flush_joined add_pose_sink add_source add_sink add_ambi_sink lookup put
built = adds_ambi 7 2 2 (adds_sink 7 1 (adds_source 7 0 (starts 2 3)))

conn : lookup 7 both.backend.entities ≡ some 0
unfolding new_host new_backend new_state_wiring new_mixer entity_joined answer_join engine_add
    start_sink seat_entity flush_joined add_pose_sink add_source add_sink add_ambi_sink lookup put
conn = refl

recorded : lookup 0 both.backend.recs ≡ some renders
unfolding new_host new_backend new_state_wiring new_mixer entity_joined answer_join engine_add
    start_sink seat_entity flush_joined add_pose_sink add_source add_sink add_ambi_sink lookup put
recorded = refl

registered :
    lookup 7 both.mixer.reg ≡ some (record { src = some 0; sink = some 1; ambi = put 2 2 [] })
unfolding new_host new_backend new_state_wiring new_mixer entity_joined answer_join engine_add
    start_sink seat_entity flush_joined add_pose_sink add_source add_sink add_ambi_sink lookup put
registered = refl

entity_left-leak_example :
    (m : Mixer ℤ) × (m' : Mixer ℤ) × (drain fixed both.mixer ≡ some m)
    × (drain fixed (entity_left 1 7 both).mixer ≡ some m')
    × (lookup 7 m'.plane.ents ≡ none)
    × (m'.plane.destroyed ≡ 1 ∷ m.plane.destroyed)
entity_left-leak_example =
    entity_left-leak fixed 1 7 0 0 1 (put 2 2 []) renders both built conn recorded refl registered
