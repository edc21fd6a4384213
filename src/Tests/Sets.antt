-- ===== src/Tests/Sets.antt =====
-- Lockstep sets of two seats: one that empties and is made again, and what overlapping calls do.
use panaudia_lasa.Prelude.{ℕ, ◌≡◌, refl, List, [], ◌∷◌, some, arith}
use panaudia_lasa.Prelude.Int.{ℤ, pos}
use panaudia_lasa.Prelude.Map.{lookup}
use panaudia_lasa.Engine.Mixer.{Mixer, new_mixer, add_source}
use panaudia_lasa.Engine.Group.{new_source_group, join, leave}
use panaudia_lasa.Engine.Group.Registry.{
  GroupSpec, Sets, no_sets, bad_spec, find_or_make, find_set, seat_member, add_member, attach_set,
  forget_set, remove_member,
}
use panaudia_lasa.Engine.Group.United.{
  SetCall, adds, attaches, removes, set_call, set_calls, one_set,
}

abbrev mixer : Mixer ℤ
mixer = new_mixer 8 3

abbrev seat_of : ℕ → GroupSpec
seat_of i = record { set_id = 7; index = pos i; count = pos 2 }

abbrev history : List (SetCall ℤ)
history =
    adds mixer 1 11 (seat_of 0)
    ∷ attaches 0
    ∷ removes 0 11 0
    ∷ adds mixer 2 12 (seat_of 1)
    ∷ attaches 1
    ∷ adds mixer 1 13 (seat_of 0)
    ∷ removes 1 12 1
    ∷ []

one_member : ((set_calls history no_sets).objects 1).seats.live ≡ 1
unfolding set_calls set_call add_member find_set find_or_make bad_spec seat_member attach_set
    forget_set remove_member no_sets new_source_group join leave add_source new_mixer lookup
one_member = refl

one_set_example :
    let t = set_calls history no_sets in
    (◌≡◌ {A = ℕ} 1 1) × (t.group_reg (t.objects 1).set_id ≡ some 1)
one_set_example = one_set history 1 1 (omega (arith, one_member)) (omega (arith, one_member)) refl

-- The second member has found its set when the first one, the last in it, is removed; it then takes
-- its seat in a set that is no longer registered, and the next member makes another.
abbrev overlapping : Sets
overlapping =
    let t1 = (add_member 1 11 (seat_of 0) mixer no_sets).1 in
    let t2 = (find_set (seat_of 1) t1).0 in
    let t3 = seat_member 12 1 0 (remove_member 0 11 0 t2) in
    (add_member 1 13 (seat_of 0) mixer t3).1

two_sets :
    ((overlapping.objects 0).set_id ≡ 7)
    × ((overlapping.objects 1).set_id ≡ 7)
    × ((overlapping.objects 0).seats.live ≡ 1)
    × ((overlapping.objects 1).seats.live ≡ 1)
unfolding add_member find_set find_or_make bad_spec seat_member forget_set remove_member no_sets
    new_source_group join leave add_source new_mixer lookup
two_sets = (refl, refl, refl, refl)
