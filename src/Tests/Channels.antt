-- ===== src/Tests/Channels.antt =====
-- Two entities on the main channel, the second of which mutes the first.
use panaudia_lasa.Prelude.{
  ℕ, List, if◌then◌else◌, ◌==◌, ◌≡◌, ◌↔◌, refl, ◌⊎◌, inl, true, false, none, some, [], ◌∷◌, arith,
}
use panaudia_lasa.Prelude.Int.{ℤ, pos, ◌-ℤ◌}
use panaudia_lasa.Prelude.Fixed.{fixed, fixed-Irreflexive}
use panaudia_lasa.Prelude.Map.{Map, lookup, Distinct}
use panaudia_lasa.Engine.Params.{ChannelParams}
use panaudia_lasa.Engine.Plane.{Entity, Plane, member, members, is_empty, new_entity, set_personal}
use panaudia_lasa.Engine.Plane.Personal.{NoEmpty, set_personal_lem}
use panaudia_lasa.Engine.Channels.{scan, no_winner, channel_gain, resolve_pair}
use panaudia_lasa.Engine.Channels.Audible.{Common, Allowed, resolve_pair-Allowed, mute_symmetric}
use panaudia_lasa.Engine.Channels.Best.{Transitive, scan_lem}

abbrev first : Entity ℤ
first = new_entity fixed 1 0

abbrev second : Entity ℤ
second = new_entity fixed 2 1

abbrev plane : Plane ℤ
plane = record {
  ents = (1, first) ∷ (2, second) ∷ [];
  slots = some 1 ∷ some 2 ∷ [];
  channel_table = (0, record { muted = false; gain = pos 2000; attenuation = none }) ∷ [];
  audible_dirty = true;
  personal_mutes = (2, 1 ∷ []) ∷ [];
  personal_solos = [];
  destroyed = [];
}

resolve_pair-Allowed_example :
    ((resolve_pair fixed fixed (λ x. x) plane first second).0 ≡ true)
    ↔ (Common fixed plane.channel_table (0 ∷ []) (0 ∷ []) × Allowed plane 1 2)
resolve_pair-Allowed_example = resolve_pair-Allowed fixed fixed (λ x. x) plane first second

no_solo : is_empty (members 2 plane.personal_solos) ≡ true
unfolding lookup
no_solo = refl

no_solo_of_first : is_empty (members 1 plane.personal_solos) ≡ true
unfolding lookup
no_solo_of_first = refl

muted :
    (member 1 (members 2 plane.personal_mutes) ≡ true)
    ⊎ (member 2 (members 1 plane.personal_mutes) ≡ true)
unfolding lookup
muted = inl refl

mute_symmetric_example :
    ((resolve_pair fixed fixed (λ x. x) plane first second).0 ≡ false)
    × ((resolve_pair fixed fixed (λ x. x) plane second first).0 ≡ false)
mute_symmetric_example =
    mute_symmetric fixed fixed (λ x. x) plane first second no_solo no_solo_of_first muted

-- Channels 0 and 3 of the source, of which the sink has both.
abbrev table : Map (ChannelParams ℤ)
table =
    (0, record { muted = false; gain = pos 2000; attenuation = none })
    ∷ (3, record { muted = false; gain = pos 500; attenuation = none })
    ∷ []

fixed-Transitive : Transitive fixed
unfolding fixed
fixed-Transitive a b c h k = ground arith

common : Common fixed table (3 ∷ 0 ∷ []) (0 ∷ 3 ∷ [])
unfolding lookup
common = (3, refl, refl, refl)

-- Gains of 2, of 0.5 and of the 1 of a channel that is not named.
above :
    (v : Common fixed table (3 ∷ 0 ∷ []) (0 ∷ 3 ∷ []))
    → fixed.ltf (fixed.neg (fixed.lit 1 0)) (channel_gain fixed (lookup v.0 table)) ≡ true
unfolding lookup fixed ◌-ℤ◌
above (c, here, inside, live) = ground arith

scan_lem_example :
    let g = (scan fixed table (3 ∷ 0 ∷ []) (0 ∷ 3 ∷ []) (no_winner fixed)).gain in
    ((v : Common fixed table (3 ∷ 0 ∷ []) (0 ∷ 3 ∷ [])) × (g
        ≡ channel_gain fixed (lookup v.0 table)))
    × ((v : Common fixed table (3 ∷ 0 ∷ []) (0 ∷ 3 ∷ []))
        → fixed.ltf g (channel_gain fixed (lookup v.0 table)) ≡ false)
scan_lem_example =
    scan_lem fixed fixed-Irreflexive fixed-Transitive table (3 ∷ 0 ∷ []) (0 ∷ 3 ∷ []) above common

-- The mutes of entity 2, who mutes 1 and 3, and of entity 5, who mutes 1.
abbrev mutes : Map (List ℕ)
mutes = (2, 1 ∷ 3 ∷ []) ∷ (5, 1 ∷ []) ∷ []

mutes-Distinct : Distinct mutes
unfolding Distinct lookup
mutes-Distinct = (refl, (refl, _))

mutes-NoEmpty : NoEmpty mutes
unfolding NoEmpty lookup
mutes-NoEmpty k = ground arith

-- Entity 5 lifts its last mute.
set_personal_lem_example :
    Distinct (set_personal 5 1 false mutes)
    × NoEmpty (set_personal 5 1 false mutes)
    × ((j x : ℕ)
        → member x (members j (set_personal 5 1 false mutes)) ≡ (
            if 5 == j
            then (if x == 1 then false else member x (members j mutes))
            else member x (members j mutes)))
set_personal_lem_example = set_personal_lem 5 1 false mutes mutes-Distinct mutes-NoEmpty
