-- ===== src/Engine/Group/Registry.antt =====
-- engine/engine/mixer.go: how AddSource and RemoveSource share the lockstep sets. A set is known by
-- its address; `group_reg` is the control plane's map of the sets, `groups` the audio thread's. Each
-- function is what one lock protects, or one closure.
use panaudia_lasa.Prelude.{ℕ, ◌+◌, Bool, not, ◌||◌, Option, none, some, ◌==◌, if◌then◌else◌}
use panaudia_lasa.Prelude.Int.{ℤ, pos, pos_part, ltb_ℤ}
use panaudia_lasa.Prelude.Map.{overlay}
use panaudia_lasa.Engine.Mixer.{Mixer, Refusal, err_bad_group, add_source}
use panaudia_lasa.Engine.Group.{SourceGroup, new_source_group, holds, join, leave}

pub record GroupSpec : Type 0 where
  pub set_id : ℕ
  pub index : ℤ
  pub count : ℤ

pub record KnownGroup : Type 0 where
  pub set_id : ℕ
  pub seats : SourceGroup

-- The sets of a mixer; those from `next` on are not made yet.
pub record Sets : Type 0 where
  pub objects : ℕ → KnownGroup
  pub next : ℕ
  pub group_reg : ℕ → Option ℕ
  pub groups : ℕ → Option ℕ

unfoldable pub no_sets : Sets
no_sets = record {
  objects = λ _. record { set_id = 0; seats = new_source_group 0 };
  next = 0;
  group_reg = λ _. none;
  groups = λ _. none;
}

unfoldable pub bad_spec : GroupSpec → Bool
bad_spec s = ltb_ℤ s.index (pos 0) || not (ltb_ℤ s.index s.count) || ltb_ℤ s.count (pos 2)

-- The set that is registered under the id, or a new one; `none` is ErrBadGroup.
unfoldable pub find_or_make : Option ℕ → GroupSpec → Sets → Sets × Option ℕ
find_or_make none spec t = (
  record t {
    objects =
        overlay t.objects t.next
          (record { set_id = spec.set_id; seats = new_source_group (pos_part spec.count) });
    next = t.next + 1;
    group_reg = overlay t.group_reg spec.set_id (some t.next);
  },
  some t.next,
)
find_or_make (some g) spec t =
    (t, if (t.objects g).seats.n == pos_part spec.count then some g else none)

unfoldable pub find_set : GroupSpec → Sets → Sets × Option ℕ
unfolding find_or_make
find_set spec t = if bad_spec spec then (t, none) else find_or_make (t.group_reg spec.set_id) spec t

-- The member's call of SourceGroup.join.
unfoldable pub seat_member : (s i g : ℕ) → Sets → Sets
seat_member s i g t = record t {
  objects = overlay t.objects g (record (t.objects g) { seats = join s i (t.objects g).seats });
}

module _ {F : Type 0} where
  -- AddSource of a lockstep member, up to the change that it queues.
  unfoldable pub add_member :
      (id s : ℕ) → GroupSpec → Mixer F → Sets → Mixer F × Sets × Option Refusal
  add_member id s spec m t =
      let (t1, found) = find_set spec t in
      let (m1, refusal) = add_source id s m in
      elim found [
        | none ↦ (m, t1, some err_bad_group)
        | some g ↦ elim refusal [
          | some e ↦ (m, t1, some e)
          | none ↦ (m1, seat_member s (pos_part spec.index) g t1, none)
        ]
      ]

-- What the change of AddSource does to the audio thread's map.
unfoldable pub attach_set : ℕ → Sets → Sets
attach_set g t = record t { groups = overlay t.groups (t.objects g).set_id (some g) }

-- What the change of RemoveSource does: the member leaves, and an empty set goes.
unfoldable pub forget_set : ℕ → Sets → Sets
forget_set g t =
    let id = (t.objects g).set_id in
    record t {
      groups = overlay t.groups id none;
      group_reg = if holds (t.group_reg id) g then overlay t.group_reg id none else t.group_reg;
    }

unfoldable pub remove_member : (i s g : ℕ) → Sets → Sets
remove_member i s g t =
    let k = t.objects g in
    let (seats, empty) = leave i s k.seats in
    let t1 = record t { objects = overlay t.objects g (record k { seats = seats }) } in
    if empty then forget_set g t1 else t1
