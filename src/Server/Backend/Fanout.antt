-- ===== src/Server/Backend/Fanout.antt =====
-- enforcePose and addPoseSink: a pose's readers agree, and a sink starts from a known pose.
use panaudia_lasa.Prelude.{
  ℕ, ◌≡◌, ◌≢◌, refl, ap, ◌∙◌, ◌⊎◌, inl, inr, none, some, List, [], ◌∷◌, arith, ◌==◌, if◌then◌else◌,
  Bool-cases,
}
use panaudia_lasa.Prelude.Map.{Map, lookup, put, lookup-put, lookup-put_ne}
use panaudia_lasa.Engine.Pose.{Pose}
use panaudia_lasa.Engine.Plane.{member}
use panaudia_lasa.Server.State.{EntityRec, Backend}
use panaudia_lasa.Server.Backend.{Widths, engine_pose}
use panaudia_lasa.Server.Backend.Sinks.{pose_sinks, enforce_pose}

module _ {F S : Type 0} (zero32 : S) (ws : Widths F S) where
  -- A sink of the list has the pose, any other keeps its own.
  pose_sinks_lem :
      (k : ℕ) (ks : List ℕ) (p : Pose F) (poses : Map (Pose F))
      → lookup k (pose_sinks zero32 ws ks p poses)
        ≡ (if member k ks then some p else lookup k poses)
  unfolding pose_sinks
  pose_sinks_lem k [] p poses = refl
  pose_sinks_lem k (j ∷ ks) p poses = elim (Bool-cases (k == j)) [
    | inl same ↦
        let it : j ≡ k = ground (arith, same) in
        let first : lookup k (put j p poses) ≡ some p =
          ap (λ i. lookup k (put i p poses)) it ∙ lookup-put k p poses in
        rw same (elim (Bool-cases (member k ks)) [
          | inl again ↦ pose_sinks_lem k ks p (put j p poses) ∙ rw again refl
          | inr last ↦ pose_sinks_lem k ks p (put j p poses) ∙ rw last first
        ])
    | inr off ↦
        let later : lookup k (put j p poses) ≡ lookup k poses =
          lookup-put_ne k j p poses (ground (arith, off)) in
        rw off (
          pose_sinks_lem k ks p (put j p poses) ∙ ap (λ x. if member k ks then some p else x) later)
  ]

  -- The pose that dof lets through: the position is the home's under dof 3.
  abbrev pub enforced : EntityRec S → Pose S → Pose S
  enforced rec pose =
      if rec.dof == 3 then record pose { x = rec.home.x; y = rec.home.y; z = rec.home.z } else pose

  -- Under dof 0 a pose changes nothing and the source gets none. Under any other, the source, the
  -- presence slot and every sink of the entity get the same pose, no other sink moves, and the
  -- other records stay: the turn is the packet's, and so is the position unless dof is 3, which
  -- pins it to the home pose.
  pub enforce_pose_lem :
      (r : ℕ) (rec : EntityRec S) (pose : Pose S) (b : Backend F S)
      → let (b', out) = enforce_pose zero32 ws r rec pose b in
        let ep = engine_pose zero32 ws (enforced rec pose) in
        (rec.dof ≡ 0) × (b' ≡ b) × (out ≡ none)
        ⊎ (rec.dof ≢ 0)
          × (out ≡ some ep)
          × (lookup r b'.recs ≡ some (record rec { presence = enforced rec pose }))
          × ((q : ℕ) → r ≢ q → lookup q b'.recs ≡ lookup q b.recs)
          × ((k : ℕ)
              → lookup k b'.sink_poses
                ≡ (if member k rec.sinks then some ep else lookup k b.sink_poses))
  unfolding enforce_pose
  enforce_pose_lem r rec pose b = elim (Bool-cases (rec.dof == 0)) [
    | inl still ↦ rw still (inl (ground (arith, still), refl, refl))
    | inr moves ↦
        let seen = record rec { presence = enforced rec pose } in
        rw moves (
          inr (
            ground (arith, moves),
            refl,
            lookup-put r seen b.recs,
            λ q ne. lookup-put_ne q r seen b.recs ne,
            λ k.
                pose_sinks_lem k rec.sinks (engine_pose zero32 ws (enforced rec pose)) b.sink_poses,
          ))
  ]
