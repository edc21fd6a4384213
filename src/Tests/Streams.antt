-- ===== src/Tests/Streams.antt =====
-- Poses pushed out of order, a pose between two samples, the facing of a pose, a seat taken over, and a late tick.
use panaudia_lasa.Prelude.{
  ℕ, zero, ◌+◌, ◌-◌, ◌*◌, ◌<◌, max, ◌≡◌, ◌≢◌, refl, length, true, false, none, some, List, [], ◌∷◌,
  arith,
}
use panaudia_lasa.Prelude.Int.{ℤ, pos}
use panaudia_lasa.Prelude.Fixed.{fixed}
use panaudia_lasa.Engine.Pose.Facing.{forward, mul33}
use panaudia_lasa.Engine.Pose.{Pose, PoseSample, empty_ring, snapshot, pose_from, lerp_pose}
use panaudia_lasa.Engine.Pose.Ring.{push_all, log_all, log_push, snapshot-push_all}
use panaudia_lasa.Engine.Pose.At.{Ahead, pose_from_lem}
use panaudia_lasa.Engine.Group.{SourceGroup, seat, join, leave}
use panaudia_lasa.Engine.Group.Seats.{joins, AllInRange, leave-join_supersede}
use panaudia_lasa.Timing.{Ticker, ticks_on, ticker_at}
use panaudia_lasa.Timing.Drift.{tight_lem, loose_lem, latest_due}

abbrev sample : ℕ → ℕ → PoseSample ℕ
sample seq end_sample = record { seq = seq; end_sample = end_sample; pose = seq }

abbrev pushed : List (PoseSample ℕ)
pushed = sample 1 240 ∷ sample 3 720 ∷ sample 2 480 ∷ []

snapshot-push_all_example :
    snapshot (push_all pushed (empty_ring 0)) ≡ sample 3 720 ∷ sample 1 240 ∷ []
unfolding log_all log_push
snapshot-push_all_example = snapshot-push_all 0 pushed

abbrev facing : ℕ → Pose ℤ
facing a = record { x = pos a; y = pos 0; z = pos 0; yaw = pos 0; pitch = pos 0; roll = pos 0 }

abbrev posed : ℕ → ℕ → PoseSample (Pose ℤ)
posed seq end_sample = record { seq = seq; end_sample = end_sample; pose = facing seq }

ahead : Ahead 500 (posed 3 720 ∷ posed 2 600 ∷ [])
unfolding Ahead
ahead = (omega arith, (omega arith, _))

pose_from_lem_example :
    (pose_from fixed (λ a b. a) (pos 3142) 500 none (posed 3 720 ∷ posed 2 600 ∷ posed 1 240 ∷ [])
      ≡ some (
          lerp_pose fixed
            (λ a b. a)
            (pos 3142)
            (facing 1)
            (facing 2)
            (fixed.div (fixed.of_int (pos (500 - 240))) (fixed.of_int (pos (600 - 240))))))
    × (500 - 240 < 600 - 240)
    × (pose_from fixed (λ a b. a) (pos 3142) 500 none (posed 1 240 ∷ []) ≡ some (facing 1))
    × (pose_from fixed (λ a b. a) (pos 3142) 500 none (posed 3 720 ∷ posed 2 600 ∷ [])
        ≡ some (facing 2))
pose_from_lem_example =
    pose_from_lem fixed (λ a b. a) (pos 3142) 500 (posed 3 720 ∷ []) [] (posed 2 600) (posed 1 240)
      ahead (omega arith)

abbrev tight : Ticker
tight = ticker_at 0 5_000_000 5 200 true

abbrev loose : Ticker
loose = ticker_at 0 5_000_000 5 200 false

is_tight : tight.tight ≡ true
unfolding ticker_at
is_tight = refl

is_loose : loose.tight ≡ false
unfolding ticker_at
is_loose = refl

tight_lem_example :
    (ticks_on ((1_000_000, 5_000_000) ∷ (12_000_000, 12_000_000) ∷ []) tight).target_time
    ≡ tight.target_time + 2 * tight.dur
tight_lem_example =
    tight_lem ((1_000_000, 5_000_000) ∷ (12_000_000, 12_000_000) ∷ []) tight is_tight

loose_lem_example :
    let readings : List (ℕ × ℕ) = (12_000_000, 12_000_000) ∷ (14_000_000, 14_000_000) ∷ [] in
    (ticks_on readings loose).target_time
    ≡ max (loose.target_time + length readings * loose.dur) (latest_due loose.dur readings)
loose_lem_example =
    loose_lem ((12_000_000, 12_000_000) ∷ (14_000_000, 14_000_000) ∷ []) loose is_loose

-- A reconnect: member 4 takes seat 1 over from member 3, whose leave comes last.
history : AllInRange 2 (joins 3 1 ∷ joins 4 1 ∷ [])
unfolding AllInRange
history = (omega arith, (omega arith, _))

abbrev seated : SourceGroup
seated = record { n = 2; members = none ∷ some 3 ∷ []; live = 1 }

leave-join_supersede_example :
    let g' = join 4 1 seated in
    ((leave 1 3 g').0 ≡ g') × ((leave 1 3 g').1 ≡ false) × (seat g' 1 ≡ some 4)
leave-join_supersede_example =
    leave-join_supersede 1 3 4 seated (record { size = refl; count = refl }) (omega arith) different
  where
    different : ◌≢◌ {A = ℕ} 3 4
    different e = omega (arith, e)

-- A quarter turn to the left, with the sine and the cosine at the two angles that occur.
abbrev quarter_sin : ℤ → ℤ
quarter_sin (pos zero) = pos 0
quarter_sin a = pos 1000

abbrev quarter_cos : ℤ → ℤ
quarter_cos (pos zero) = pos 1000
quarter_cos a = pos 0

facing_left :
    forward fixed quarter_sin quarter_cos
      (pos 3142)
      (record { x = pos 5; y = pos 6; z = pos 7; yaw = pos 1571; pitch = pos 0; roll = pos 0 })
    ≡ record { x = pos 0; y = pos 1000; z = pos 0 }
unfolding forward mul33 fixed
facing_left = refl
