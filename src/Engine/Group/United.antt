-- ===== src/Engine/Group/United.antt =====
-- The lockstep sets of engine/engine/mixer.go through calls and changes that do not overlap.
use panaudia_lasa.Prelude.{
  ℕ, ◌<◌, ◌≡◌, refl, sym, ap, ◌∙◌, inl, inr, Option, none, some, List, [], ◌∷◌, arith, Bool-cases,
  Option-cases,
}
use panaudia_lasa.Prelude.Int.{pos_part}
use panaudia_lasa.Engine.Mixer.{Mixer, add_source}
use panaudia_lasa.Engine.Group.{new_source_group, leave}
use panaudia_lasa.Engine.Group.Registry.{
  GroupSpec, Sets, no_sets, bad_spec, find_or_make, find_set, seat_member, add_member, attach_set,
  forget_set, remove_member,
}

-- A set that has a member is the one registered under its id.
record Kept (t : Sets) : Type 0 where
  homed : (g : ℕ) → 0 < (t.objects g).seats.live → t.group_reg (t.objects g).set_id ≡ some g
  made : (id g : ℕ) → t.group_reg id ≡ some g → (g < t.next) × ((t.objects g).set_id ≡ id)

no_sets-Kept : Kept no_sets
unfolding no_sets new_source_group
no_sets-Kept = record { homed = λ g h. elim h [ ]; made = λ id g e. absurd (cc) }

find_or_make-Kept :
    (known : Option ℕ) (spec : GroupSpec) (t : Sets)
    → Kept t
    → t.group_reg spec.set_id ≡ known
    → Kept (find_or_make known spec t).0
      × ((g : ℕ)
          → (find_or_make known spec t).1 ≡ some g
          → (find_or_make known spec t).0.group_reg spec.set_id ≡ some g)
unfolding find_or_make new_source_group
find_or_make-Kept none spec t v e = (
  record {
    homed = λ g live. ground (arith, v.homed g, e);
    made = λ id g at. ground (arith, v.made id g, e);
  },
  λ g at. ground (arith, at),
)
find_or_make-Kept (some k) spec t v e = (v, λ g at. ground (arith, at, e))

seat_member-Kept :
    (s i g : ℕ) (t : Sets)
    → Kept t
    → t.group_reg (t.objects g).set_id ≡ some g
    → Kept (seat_member s i g t)
unfolding seat_member
seat_member-Kept s i g t v e = record {
  homed = λ h live. ground (arith, v.homed h, e);
  made = λ id h at. ground (arith, v.made id h);
}

remove_member-Kept : (i s g : ℕ) (t : Sets) → Kept t → Kept (remove_member i s g t)
unfolding remove_member forget_set leave
remove_member-Kept i s g t v = record {
  homed = λ h live. ground (arith, v.homed h);
  made = λ id h at. ground (arith, v.made id h);
}

find_set-Kept :
    (spec : GroupSpec) (t : Sets)
    → Kept t
    → Kept (find_set spec t).0
      × ((g : ℕ)
          → (find_set spec t).1 ≡ some g
          → (find_set spec t).0.group_reg spec.set_id ≡ some g)
unfolding find_set
find_set-Kept spec t v = elim (Bool-cases (bad_spec spec)) [
  | inl bad ↦ rw bad (v, λ g at. absurd (cc))
  | inr good ↦ rw good (find_or_make-Kept (t.group_reg spec.set_id) spec t v refl)
]

-- A call or a change: an AddSource of the mixer `m`, and the changes that attach a set and that
-- remove the member `s` from its seat.
pub data SetCall (F : Type 0) : Type 0 where
  adds : Mixer F → (id s : ℕ) → GroupSpec → SetCall F
  attaches : ℕ → SetCall F
  removes : (i s g : ℕ) → SetCall F

module _ {F : Type 0} where
  unfoldable pub set_call : SetCall F → Sets → Sets
  set_call (adds m id s spec) t = (add_member id s spec m t).1
  set_call (attaches g) t = attach_set g t
  set_call (removes i s g) t = remove_member i s g t

  unfoldable pub set_calls : List (SetCall F) → Sets → Sets
  set_calls [] t = t
  set_calls (c ∷ cs) t = set_calls cs (set_call c t)

  add_member-Kept :
      (id s : ℕ) (spec : GroupSpec) (m : Mixer F) (t : Sets)
      → Kept t
      → Kept (add_member id s spec m t).1
  unfolding add_member
  add_member-Kept id s spec m t v =
      let (v1, home) = find_set-Kept spec t v in
      elim (Option-cases (find_set spec t).1) [
        | inl bad ↦ rw (bad, add_member) v1
        | inr (g, at) ↦ elim (Option-cases (add_source id s m).1) [
          | inr (e, no_room) ↦ rw (at, no_room, add_member) v1
          | inl ok ↦
              rw (at, ok, add_member)
                (seat_member-Kept s (pos_part spec.index) g (find_set spec t).0 v1 (
                  ap (find_set spec t).0.group_reg ((v1.made spec.set_id g (home g at)).1)
                  ∙ home g at))
        ]
      ]

  set_calls-Kept : (cs : List (SetCall F)) (t : Sets) → Kept t → Kept (set_calls cs t)
  unfolding set_calls set_call attach_set
  set_calls-Kept [] t v = v
  set_calls-Kept (adds m id s spec ∷ cs) t v =
      set_calls-Kept cs (add_member id s spec m t).1 (add_member-Kept id s spec m t v)
  set_calls-Kept (attaches g ∷ cs) t v =
      set_calls-Kept cs (attach_set g t) (record { homed = v.homed; made = v.made })
  set_calls-Kept (removes i s g ∷ cs) t v =
      set_calls-Kept cs (remove_member i s g t) (remove_member-Kept i s g t v)

  -- Whatever lockstep members are added, refused, superseded and removed, by calls and changes that
  -- do not overlap: two sets of the same id that both have a member seated are one set, with one
  -- buffer, and it is the one that the next member of that id finds.
  pub one_set :
      (cs : List (SetCall F)) (g h : ℕ)
      → let t = set_calls cs no_sets in
        0 < (t.objects g).seats.live
        → 0 < (t.objects h).seats.live
        → (t.objects g).set_id ≡ (t.objects h).set_id
        → (g ≡ h) × (t.group_reg (t.objects h).set_id ≡ some g)
  one_set cs g h live_g live_h same =
      let v = set_calls-Kept cs no_sets no_sets-Kept in
      let here = v.homed g live_g in
      let there = v.homed h live_h in
      (ground (arith, here, there, same), ap (set_calls cs no_sets).group_reg (sym same) ∙ here)
