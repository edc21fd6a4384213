-- ===== src/Engine/Pose.antt =====
-- engine/engine/pose.go: the ring of a source's poses and the pose of a stream position.
-- The writer and the reader take turns here: `version` is kept, but no entry is ever seen torn.
-- `Threads` and `Slot` interleave their steps.
pub mod Ring
pub mod At
pub mod Facing
pub mod Threads
pub mod Whole
pub mod Vouched
pub mod Torn
pub mod Slot
pub mod Loads
pub mod Returns
pub mod WaitFree
use panaudia_lasa.Prelude.{
  ℕ, zero, suc, ◌+◌, ◌-◌, ◌*◌, ◌%◌, Bool, true, false, ◌&&◌, ◌||◌, Option, none, some, List, [],
  ◌∷◌, leb, ltb, ◌==◌, if◌then◌else◌, get_elem?, set, replicate,
}
use panaudia_lasa.Prelude.Int.{ℤ, pos}
use panaudia_lasa.Prelude.Float.{Float}

pub record Pose (F : Type 0) : Type 0 where
  pub x : F
  pub y : F
  pub z : F
  pub yaw : F
  pub pitch : F
  pub roll : F

abbrev pub pose_ring_size : ℕ
pose_ring_size = 32

pub record PoseSample (P : Type 0) : Type 0 where
  pub seq : ℕ
  pub end_sample : ℕ
  pub pose : P

pub record PoseEntry (P : Type 0) : Type 0 where
  pub version : ℕ
  pub sample : PoseSample P

pub record PoseRing (P : Type 0) : Type 0 where
  pub entries : List (PoseEntry P)
  pub head : ℕ
  pub last_seq : ℕ

module _ {P : Type 0} where
  abbrev pub entry_at : PoseRing P → ℕ → Option (PoseEntry P)
  entry_at r p = get_elem? r.entries (p % pose_ring_size)

  -- The zero value, of zero poses.
  unfoldable pub empty_ring : P → PoseRing P
  empty_ring zero_pose = record {
    entries =
        replicate pose_ring_size
          (record { version = 0; sample = record { seq = 0; end_sample = 0; pose = zero_pose } });
    head = 0;
    last_seq = 0;
  }

  abbrev pub version_of : Option (PoseEntry P) → ℕ
  version_of none = 0
  version_of (some e) = e.version

  unfoldable pub push : PoseSample P → PoseRing P → PoseRing P
  push s r =
      let h = r.head in
      let e : PoseEntry P = record { version = version_of (entry_at r h) + 2; sample = s } in
      if ltb 0 h && leb s.seq r.last_seq
      then r
      else record { entries = set r.entries (h % pose_ring_size) e; head = h + 1; last_seq = s.seq }

  -- The rounds that are left, from `i` on, newest first; an odd version ends the scan.
  unfoldable pub scan_entries : PoseRing P → ℕ → ℕ → List (PoseSample P)
  scan_entries r zero i = []
  scan_entries r (suc k) i =
      let rest = scan_entries r k (i + 1) in
      if ltb i r.head
      then elim (entry_at r (r.head - 1 - i)) [
        | none ↦ []
        | some e ↦ if (e.version % 2) == 0 then e.sample ∷ rest else []
      ]
      else []

  unfoldable pub snapshot : PoseRing P → List (PoseSample P)
  snapshot r = scan_entries r pose_ring_size 0

module _ {F : Type 0} (fl : Float F) (remainder : F → F → F) (pi : F) where
  open fl use {lit, add, sub, mul, div, of_int}

  -- `remainder` is Go's math.Remainder.
  unfoldable pub lerp_angle : F → F → F → F
  lerp_angle a b t = add a (mul t (remainder (sub b a) (mul (lit 2 0) pi)))

  unfoldable pub lerp_pose : Pose F → Pose F → F → Pose F
  lerp_pose a b t = record {
    x = add a.x (mul t (sub b.x a.x));
    y = add a.y (mul t (sub b.y a.y));
    z = add a.z (mul t (sub b.z a.z));
    yaw = lerp_angle a.yaw b.yaw t;
    pitch = lerp_angle a.pitch b.pitch t;
    roll = lerp_angle a.roll b.roll t;
  }

  -- The loop of poseAt, `after` being the oldest sample seen that ends beyond `l`.
  unfoldable pub pose_from :
      ℕ → Option (PoseSample (Pose F)) → List (PoseSample (Pose F)) → Option (Pose F)
  pose_from l none [] = none
  pose_from l (some a) [] = some a.pose
  pose_from l none (e ∷ es) =
      let rest = pose_from l (some e) es in if leb e.end_sample l then some e.pose else rest
  pose_from l (some a) (e ∷ es) =
      let rest = pose_from l (some e) es in
      let span = a.end_sample - e.end_sample in
      let t = div (of_int (pos (l - e.end_sample))) (of_int (pos span)) in
      if leb e.end_sample l
      then if span == 0 then some a.pose else some (lerp_pose e.pose a.pose t)
      else rest

  unfoldable pub pose_at : ℕ → PoseRing (Pose F) → Option (Pose F)
  pose_at l r = pose_from l none (snapshot r)
