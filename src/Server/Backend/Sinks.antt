-- ===== src/Server/Backend/Sinks.antt =====
-- server/backend.go: what follows an entity's poses, and the renders that start and stop.
use panaudia_lasa.Prelude.{
  ℕ, ◌+◌, Option, none, some, List, [], ◌∷◌, ◌++◌, ◌==◌, if◌then◌else◌, ◌⊎◌, inl, inr,
}
use panaudia_lasa.Prelude.Map.{Map, lookup, put}
use panaudia_lasa.Engine.Pose.{Pose}
use panaudia_lasa.Engine.Mixer.{
  Mixer, Refusal, add_sink, add_ambi_sink, remove_sink, remove_ambi_sink,
}
use panaudia_lasa.Server.State.{EntityRec, Backend, Host}
use panaudia_lasa.Server.Backend.{Widths, engine_pose}

module _ {F S : Type 0} (zero32 : S) (ws : Widths F S) where
  -- Every sink of the list gets the pose.
  unfoldable pub pose_sinks : List ℕ → Pose F → Map (Pose F) → Map (Pose F)
  pose_sinks [] p poses = poses
  pose_sinks (k ∷ ks) p poses = pose_sinks ks p (put k p poses)

  -- enforcePose: the pose for the source, if the degrees of freedom leave one.
  unfoldable pub enforce_pose :
      ℕ → EntityRec S → Pose S → Backend F S → Backend F S × Option (Pose F)
  unfolding pose_sinks
  enforce_pose r rec pose b =
      let wp =
        if rec.dof == 3
        then record pose { x = rec.home.x; y = rec.home.y; z = rec.home.z }
        else pose in
      let ep = engine_pose zero32 ws wp in
      if rec.dof == 0 then (b, none) else (
        record b {
          recs = put r (record rec { presence = wp }) b.recs;
          sink_poses = pose_sinks rec.sinks ep b.sink_poses;
        },
        some ep,
      )

  -- entityRec.Frame: the backend, and the pose that WriteOpus gets with the sequence number and the
  -- audio.
  unfoldable pub entity_frame :
      ℕ → EntityRec S → Option (Pose S) → Backend F S → Backend F S × Option (Pose F)
  unfolding enforce_pose
  entity_frame r rec none b = (b, none)
  entity_frame r rec (some pose) b = enforce_pose r rec pose b

  -- addPoseSink: the sink starts from the entity's latest pose.
  unfoldable pub add_pose_sink : ℕ → ℕ → Backend F S → Backend F S
  add_pose_sink r k b = elim (lookup r b.recs) [
    | none ↦ b
    | some rec ↦ record b {
      recs = put r (record rec { sinks = rec.sinks ++ (k ∷ []) }) b.recs;
      sink_poses = put k (engine_pose zero32 ws rec.presence) b.sink_poses;
    }
  ]

abbrev pub drop_sink : ℕ → List ℕ → List ℕ
drop_sink k [] = []
drop_sink k (v ∷ vs) = let rest = drop_sink k vs in if v == k then rest else v ∷ rest

module _ {F S : Type 0} where
  unfoldable pub remove_pose_sink : ℕ → ℕ → Backend F S → Backend F S
  remove_pose_sink r k b = elim (lookup r b.recs) [
    | none ↦ b
    | some rec ↦ record b { recs = put r (record rec { sinks = drop_sink k rec.sinks }) b.recs }
  ]

pub data Format : Type 0 where
  binaural ambi2 ambi3 unknown_format : Format

pub data SinkRefusal : Type 0 where
  no_live_entity source_only format_not_supported : SinkRefusal
  engine_refusal : Refusal → SinkRefusal

-- A live render: its record, its sink and what stops it.
pub record SinkSession : Type 0 where
  pub rec : ℕ
  pub target : ℕ
  pub entity : ℕ
  pub format : Format

abbrev pub add_format : {F : Type 0} → Format → ℕ → ℕ → Mixer F → Mixer F × Option SinkRefusal
add_format binaural id k m =
    let (m', err) = add_sink id k m in
    (m', elim err [ none ↦ none | some x ↦ some (engine_refusal x) ])
add_format ambi2 id k m =
    let (m', err) = add_ambi_sink id 2 k m in
    (m', elim err [ none ↦ none | some x ↦ some (engine_refusal x) ])
add_format ambi3 id k m =
    let (m', err) = add_ambi_sink id 3 k m in
    (m', elim err [ none ↦ none | some x ↦ some (engine_refusal x) ])
add_format unknown_format id k m = (m, some format_not_supported)

module _ {F S : Type 0} (zero32 : S) (ws : Widths F S) where
  -- The host, and the session or the refusal.
  unfoldable pub start_sink : ℕ → Format → Host F S → Host F S × (SinkSession ⊎ SinkRefusal)
  unfolding add_pose_sink
  start_sink id format h = elim (lookup id h.backend.entities) [
    | none ↦ (h, inr no_live_entity)
    | some r ↦ elim (lookup r h.backend.recs) [
      | none ↦ (h, inr no_live_entity)
      | some rec ↦
          let k = h.backend.next in
          let (m', err) = add_format format id k h.mixer in
          let b' = add_pose_sink zero32 ws r k (record h.backend { next = k + 1 }) in
          if rec.head_frame then (h, inr source_only) else elim err [
            | some refusal ↦ (record h { mixer = m' }, inr refusal)
            | none ↦ (
              record h { mixer = m'; backend = b' },
              inl (record { rec = r; target = k; entity = id; format = format }),
            )
          ]
    ]
  ]

abbrev pub stop_format : {F : Type 0} → Format → ℕ → Mixer F → Mixer F
stop_format binaural id m = remove_sink id m
stop_format ambi2 id m = remove_ambi_sink id 2 m
stop_format ambi3 id m = remove_ambi_sink id 3 m
stop_format unknown_format id m = m

module _ {F S : Type 0} where
  unfoldable pub stop_session : SinkSession → Host F S → Host F S
  unfolding remove_pose_sink
  stop_session s h = record h {
    backend = remove_pose_sink s.rec s.target h.backend;
    mixer = stop_format s.format s.entity h.mixer;
  }
