-- ===== src/Engine/Pose/Facing.antt =====
-- engine/engine/pose.go and engine/common/rotation.go: a pose as the signal processing takes it. `sin`,
-- `cos` and `pi` are those of Go's math; a float is equal to zero if neither is above the other.
use panaudia_lasa.Prelude.{ℕ, ◌+◌, ◌*◌, Bool, ◌&&◌, List, [], ◌∷◌, if◌then◌else◌, get_or}
use panaudia_lasa.Prelude.Float.{Float}
use panaudia_lasa.Engine.Pose.{Pose}

pub record Position (F : Type 0) : Type 0 where
  pub x : F
  pub y : F
  pub z : F

-- In degrees.
pub record Rotation (F : Type 0) : Type 0 where
  pub yaw : F
  pub pitch : F
  pub roll : F

module _ {F : Type 0} (fl : Float F) (sin cos : F → F) (pi : F) where
  open fl use {lit, neg, add, mul, div, lef}

  unfoldable pub position_of : Pose F → Position F
  position_of p = record { x = p.x; y = p.y; z = p.z }

  unfoldable pub rotation_of : Pose F → Rotation F
  rotation_of p =
      let rad_to_deg = div (lit 180 0) pi in
      record {
        yaw = mul p.yaw rad_to_deg;
        pitch = mul p.pitch rad_to_deg;
        roll = mul p.roll rad_to_deg;
      }

  -- Element `n` of a matrix of nine, row by row.
  abbrev pub at33 : List F → ℕ → F
  at33 m n = get_or m n (lit 0 0)

  unfoldable pub mul33 : List F → List F → List F
  mul33 a b =
      let cell = λ (i j : ℕ).
        add (add (mul (at33 a (i * 3)) (at33 b j)) (mul (at33 a (i * 3 + 1)) (at33 b (3 + j))))
          (mul (at33 a (i * 3 + 2)) (at33 b (6 + j))) in
      cell 0 0
      ∷ cell 0 1
      ∷ cell 0 2
      ∷ cell 1 0
      ∷ cell 1 1
      ∷ cell 1 2
      ∷ cell 2 0
      ∷ cell 2 1
      ∷ cell 2 2
      ∷ []

  unfoldable pub matrix_from_rotation : Rotation F → List F
  unfolding mul33
  matrix_from_rotation rot =
      let radians = λ (a : F). div (mul a pi) (lit 180 0) in
      let cy = cos (radians rot.yaw) in
      let sy = sin (radians rot.yaw) in
      let cp = cos (radians rot.pitch) in
      let sp = sin (radians rot.pitch) in
      let cr = cos (radians rot.roll) in
      let sr = sin (radians rot.roll) in
      let o = lit 0 0 in
      let i = lit 1 0 in
      let rz = cy ∷ sy ∷ o ∷ neg sy ∷ cy ∷ o ∷ o ∷ o ∷ i ∷ [] in
      let ry = cp ∷ o ∷ neg sp ∷ o ∷ i ∷ o ∷ sp ∷ o ∷ cp ∷ [] in
      let rx = i ∷ o ∷ o ∷ o ∷ cr ∷ sr ∷ o ∷ neg sr ∷ cr ∷ [] in mul33 rx (mul33 ry rz)

  abbrev pub is_zero : F → Bool
  is_zero a = lef a (lit 0 0) && lef (lit 0 0) a

  unfoldable pub forward : Pose F → Position F
  unfolding matrix_from_rotation rotation_of
  forward p =
      let m = matrix_from_rotation (rotation_of p) in
      if is_zero p.yaw && is_zero p.pitch && is_zero p.roll
      then record { x = lit 1 0; y = lit 0 0; z = lit 0 0 }
      else record { x = at33 m 0; y = at33 m 1; z = at33 m 2 }
