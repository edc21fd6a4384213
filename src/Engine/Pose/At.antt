-- ===== src/Engine/Pose/At.antt =====
-- The pose of a stream position among samples, the newest first.
use panaudia_lasa.Prelude.{
  ℕ, ◌-◌, ◌≤◌, ◌<◌, ◌≡◌, refl, ◌∙◌, Option, none, some, List, [], ◌∷◌, ◌++◌, arith,
}
use panaudia_lasa.Prelude.Int.{pos}
use panaudia_lasa.Prelude.Float.{Float}
use panaudia_lasa.Engine.Pose.{Pose, PoseSample, lerp_pose, pose_from}

module _ {P : Type 0} where
  -- Every sample ends beyond `l`.
  unfoldable pub Ahead : ℕ → List (PoseSample P) → Type 0
  Ahead l [] = Unit
  Ahead l (e ∷ es) = (l < e.end_sample) × Ahead l es

module _ {F : Type 0} (fl : Float F) (remainder : F → F → F) (pi : F) where
  open fl use {div, of_int}

  from_ahead :
      (l : ℕ) (o : Option (PoseSample (Pose F))) (e : PoseSample (Pose F))
      (es : List (PoseSample (Pose F)))
      → l < e.end_sample
      → pose_from fl remainder pi l o (e ∷ es) ≡ pose_from fl remainder pi l (some e) es
  unfolding pose_from
  from_ahead l none e es h = ground arith
  from_ahead l (some a) e es h = ground arith

  skip-Ahead :
      (l : ℕ) (o : Option (PoseSample (Pose F))) (pre : List (PoseSample (Pose F)))
      (a : PoseSample (Pose F)) (rest : List (PoseSample (Pose F)))
      → Ahead l (pre ++ (a ∷ []))
      → pose_from fl remainder pi l o (pre ++ (a ∷ rest))
        ≡ pose_from fl remainder pi l (some a) rest
  unfolding Ahead
  skip-Ahead l o [] a rest (h, _) = from_ahead l o a rest h
  skip-Ahead l o (x ∷ pre) a rest (h, hs) =
      from_ahead l o x (pre ++ (a ∷ rest)) h ∙ skip-Ahead l (some x) pre a rest hs

  last-Ahead :
      (l : ℕ) (pre : List (PoseSample (Pose F))) (a : PoseSample (Pose F))
      → Ahead l (pre ++ (a ∷ []))
      → l < a.end_sample
  unfolding Ahead
  last-Ahead l [] a (h, _) = h
  last-Ahead l (x ∷ pre) a (h, hs) = last-Ahead l pre a hs

  from_between :
      (l : ℕ) (a e : PoseSample (Pose F)) (post : List (PoseSample (Pose F)))
      → l < a.end_sample
      → e.end_sample ≤ l
      → pose_from fl remainder pi l (some a) (e ∷ post)
        ≡ some (
            lerp_pose fl remainder pi e.pose a.pose
              (div (of_int (pos (l - e.end_sample))) (of_int (pos (a.end_sample - e.end_sample)))))
  unfolding pose_from
  from_between l a e post h k = ground arith

  from_newest :
      (l : ℕ) (e : PoseSample (Pose F)) (post : List (PoseSample (Pose F)))
      → e.end_sample ≤ l
      → pose_from fl remainder pi l none (e ∷ post) ≡ some e.pose
  unfolding pose_from
  from_newest l e post h = ground arith

  from_oldest :
      (l : ℕ) (a : PoseSample (Pose F)) → pose_from fl remainder pi l (some a) [] ≡ some a.pose
  unfolding pose_from
  from_oldest l a = refl

  -- The pose at `l` of samples `pre`, `a`, `e` and `post`, the newest first, of which those before
  -- `e` end beyond `l` and `e` does not: it lies between `e` and `a`, at a fraction below one. It is
  -- that of `e` itself where `e` is the newest, and that of `a` where `a` is the oldest.
  pub pose_from_lem :
      (l : ℕ) (pre post : List (PoseSample (Pose F))) (a e : PoseSample (Pose F))
      → Ahead l (pre ++ (a ∷ []))
      → e.end_sample ≤ l
      → (pose_from fl remainder pi l none (pre ++ (a ∷ e ∷ post))
          ≡ some (
              lerp_pose fl remainder pi e.pose a.pose (
                div
                  (of_int (pos (l - e.end_sample)))
                  (of_int (pos (a.end_sample - e.end_sample))))))
        × (l - e.end_sample < a.end_sample - e.end_sample)
        × (pose_from fl remainder pi l none (e ∷ post) ≡ some e.pose)
        × (pose_from fl remainder pi l none (pre ++ (a ∷ [])) ≡ some a.pose)
  pose_from_lem l pre post a e ahead h =
      let far = last-Ahead l pre a ahead in
      (
        skip-Ahead l none pre a (e ∷ post) ahead ∙ from_between l a e post far h,
        omega (arith, far, h),
        from_newest l e post h,
        skip-Ahead l none pre a [] ahead ∙ from_oldest l a,
      )
