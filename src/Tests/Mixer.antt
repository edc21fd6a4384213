-- ===== src/Tests/Mixer.antt =====
-- Two entities in a mixer of two, and a sink removed beside an ambisonic one.
use panaudia_lasa.Prelude.{
  ◌⊎◌, ℕ, ◌↔◌, ◌≤◌, ◌≡◌, refl, some, [], ◌∷◌, map, length, true, false, none,
}
use panaudia_lasa.Prelude.Int.{ℤ, pos}
use panaudia_lasa.Prelude.Fixed.{fixed}
use panaudia_lasa.Prelude.Map.{lookup, put, delete, values}
use panaudia_lasa.Engine.Plane.{
  Plane, drain_changes, apply, ensure_entity, mark_audible_dirty, remove_entity, detach_sink_from,
}
use panaudia_lasa.Engine.Plane.Sound.{Sound}
use panaudia_lasa.Engine.Mixer.{
  close, Mixer, RegEntry, new_mixer, add_source, add_sink, add_ambi_sink, remove_source,
  remove_sink, err_full, drain, entry_of, present,
}
use panaudia_lasa.Engine.Mixer.Released.{Idle, Released, sinks_of}
use panaudia_lasa.Engine.Mixer.Close.{close_lem}
use panaudia_lasa.Engine.Mixer.Agree.{entry}
use panaudia_lasa.Engine.Group.Registry.{GroupSpec, no_sets, add_member}
use panaudia_lasa.Engine.Group.Finds.{Fits, Grown}
use panaudia_lasa.Engine.Mixer.Refuses.{Clean, Room, adds_refuse}
use panaudia_lasa.Engine.Mixer.Order.{
  Reachable, starts, adds_source, adds_sink, adds_ambi, removes_source, drain-Agrees,
}

abbrev start : Mixer ℤ
start = new_mixer 2 3

abbrev busy : Mixer ℤ
busy = (add_source 5 3 (remove_source 7 (add_sink 7 2 (add_source 7 1 start).0).0)).0

busy-Reachable : Reachable fixed busy
busy-Reachable = adds_source 5 3 (removes_source 7 (adds_sink 7 2 (adds_source 7 1 (starts 2 3))))

drain-Agrees_example :
    (m' : Mixer ℤ) × (drain fixed busy ≡ some m')
    × (m'.reg ≡ busy.reg)
    × (values entry m'.plane.ents ≡ busy.reg)
    × (busy.entity_count ≡ length m'.plane.ents)
    × (busy.entity_count ≤ busy.max_entities)
    × Sound busy.max_entities m'.plane
drain-Agrees_example = drain-Agrees fixed busy busy-Reachable

-- Entity 7 keeps its sink and gains an ambisonic one, which Close releases.
abbrev rendering : Mixer ℤ
rendering = (add_ambi_sink 7 2 9 busy).0

still_open : rendering.closed ≡ false
unfolding new_mixer add_source add_sink add_ambi_sink remove_source lookup put
still_open = refl

held : map (λ (e : ℕ × RegEntry). sinks_of e.1) rendering.reg ≡ ((2 ∷ 9 ∷ []) ∷ [] ∷ [])
unfolding new_mixer add_source add_sink add_ambi_sink remove_source lookup put
held = refl

close_lem_example :
    (m' : Mixer ℤ) × (close fixed rendering ≡ some m')
    × (m'.closed ≡ true)
    × (m'.changes ≡ [])
    × ((j : ℕ) → Idle j m'.plane)
    × Released m'.plane.destroyed rendering.reg
close_lem_example = close_lem fixed rendering (adds_ambi 7 2 9 busy-Reachable) still_open

-- A third entity is refused.
refused : (add_source 6 4 busy).1 ≡ some err_full
unfolding add_source new_mixer add_sink remove_source lookup put
refused = refl

abbrev pair : GroupSpec
pair = record { set_id = 7; index = pos 0; count = pos 2 }

-- Entity 5 gains a sink or an ambisonic render of order 2, and not a second source. As a lockstep
-- member it is refused too, and set 7 stays.

adds_refuse_example :
    Clean busy (add_source 5 4 busy)
    × Clean busy (add_sink 5 4 busy)
    × Clean busy (add_ambi_sink 5 2 4 busy)
    × (((add_source 5 4 busy).1 ≡ none) ↔ (
        (busy.closed ≡ false) × (present (entry_of (lookup 5 busy.reg)).src ≡ false) × Room 5 busy))
    × (((add_sink 5 4 busy).1 ≡ none) ↔ (
        (busy.closed ≡ false)
        × (present (entry_of (lookup 5 busy.reg)).sink ≡ false)
        × Room 5 busy))
    × (((add_ambi_sink 5 2 4 busy).1 ≡ none) ↔ (
        (2 ≤ 2)
        × (2 ≤ 3)
        × (2 ≤ busy.order)
        × (busy.closed ≡ false)
        × (present (lookup 2 (entry_of (lookup 5 busy.reg)).ambi) ≡ false)
        × Room 5 busy))
    × (((add_member 5 4 pair busy no_sets).2 ≡ none)
        ⊎ ((add_member 5 4 pair busy no_sets).0 ≡ busy)
          × Grown pair no_sets (add_member 5 4 pair busy no_sets).1)
    × (((add_member 5 4 pair busy no_sets).2 ≡ none) ↔ (
        Fits pair no_sets
        × (busy.closed ≡ false)
        × (present (entry_of (lookup 5 busy.reg)).src ≡ false)
        × Room 5 busy))
adds_refuse_example = adds_refuse 5 2 4 pair busy no_sets

-- Where the sink goes while only an ambisonic sink is left, the registry keeps the entity and the
-- audio thread drops it.
abbrev mixed : Mixer ℤ
mixed = remove_sink 7 (add_ambi_sink 7 2 2 (add_sink 7 1 start).0).0

dropped :
    (length mixed.reg ≡ 1)
    × ((p : Plane ℤ) × (drain_changes fixed mixed.changes mixed.plane ≡ some p) × (p.ents ≡ []))
unfolding new_mixer add_sink add_ambi_sink remove_sink lookup put drain_changes apply ensure_entity
    mark_audible_dirty remove_entity detach_sink_from delete
dropped = (refl, (_, refl, refl))
