-- ===== src/Server/Backend/Ingress.antt =====
-- server/backend.go: what a released frame of a lockstep set and a declared loss become. The lasa
-- shell's group depacketizer gives the set's channels, one for each seat, and wire.FrameSamples is `frame_samples`.
use panaudia_lasa.Prelude.{ℕ, Bool, true, false, Option, none, some, List, [], ◌∷◌, if◌then◌else◌}
use panaudia_lasa.Prelude.Float.{Float}
use panaudia_lasa.Prelude.Map.{lookup}
use panaudia_lasa.Engine.Pose.{Pose}
use panaudia_lasa.Engine.Decoder.{Opus}
use panaudia_lasa.Engine.Source.{Source, conceal_source}
use panaudia_lasa.Engine.Group.Frames.{GroupChannel, Lockstep, write_frame}
use panaudia_lasa.Server.State.{GroupRec, Backend}
use panaudia_lasa.Server.Backend.{Widths}
use panaudia_lasa.Server.Backend.Sinks.{enforce_pose}

-- server.GroupChannel
pub record ReleasedChannel (S : Type 0) : Type 0 where
  pub present : Bool
  pub pose : Option (Pose S)
  pub audio : List ℕ
  pub audio_likely : Bool
  pub silence : Bool

abbrev pub no_share : {F : Type 0} → GroupChannel F
no_share = record { pose = none; audio = []; lost = false; audio_likely = false; silence = false }

module _ {F S : Type 0} (zero32 : S) (ws : Widths F S) where
  -- The share of a seat's record, whose pose is enforced on the way; a free seat has none.
  unfoldable pub share_of :
      Option ℕ → ReleasedChannel S → Backend F S → Backend F S × GroupChannel F
  share_of none c b = (b, no_share)
  share_of (some r) c b = elim (lookup r b.recs) [
    | none ↦ (b, no_share)
    | some rec ↦
        if c.present
        then elim c.pose [
          | none ↦ (b, record no_share { audio = c.audio })
          | some pose ↦
              let (b1, ep) = enforce_pose zero32 ws r rec pose b in
              (b1, record no_share { pose = ep; audio = c.audio })
        ]
        else (
          b,
          record no_share { lost = true; audio_likely = c.audio_likely; silence = c.silence },
        )
  ]

  unfoldable pub shares_of :
      List (Option ℕ) → List (ReleasedChannel S) → Backend F S → Backend F S × List (GroupChannel F)
  unfolding share_of
  shares_of seats [] b = (b, [])
  shares_of [] (c ∷ cs) b = (b, [])
  shares_of (r ∷ seats) (c ∷ cs) b =
      let (b1, share) = share_of r c b in
      let (b2, shares) = shares_of seats cs b1 in (b2, share ∷ shares)

module _ {F S D : Type 0} (zero32 : S) (ws : Widths F S) (f32 : Float S) (opus : Opus D S)
    (from_bits : ℕ → S) where
  -- groupRec.Frame: the backend and the set after WriteFrame, where `none` is its panic.
  unfoldable pub group_frame :
      ℕ
      → GroupRec
      → List (ReleasedChannel S)
      → Backend F S
      → Lockstep F S D
      → Backend F S × Option (Lockstep F S D)
  unfolding shares_of
  group_frame seq gr chans b set =
      let (b1, shares) = shares_of zero32 ws gr.recs chans b in
      (b1, write_frame f32 opus from_bits seq shares set)

  -- entityRec.Lost: a loss that was likely of a pose only injects no samples.
  unfoldable pub lost : ℕ → Bool → Source F S D → Option (Source F S D)
  lost frame_samples audio_likely s =
      if audio_likely then conceal_source f32 opus from_bits frame_samples s else some s
