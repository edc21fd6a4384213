-- ===== src/Server/Backend.antt =====
-- server/backend.go: entities join and leave, sinks start and stop, and an entity's poses fan out.
-- The lasa shell is not in this repository: a resolved entity and a sink's format come from it, its
-- presence collector is the record's `presence` pose, and its depacketizers call `entity_frame`. The log
-- lines and the statistics are left out. Where the source takes its lock, calls and closes it, one
-- operation runs here.
pub mod Sinks
pub mod Ingress
pub mod Agree
pub mod Steps
pub mod Mapped
pub mod Reach
pub mod Joined
pub mod Renders
pub mod Fanout
pub mod Leak
use panaudia_lasa.Prelude.{
  ℕ, suc, ◌+◌, ◌-◌, Bool, true, false, ◌&&◌, ◌||◌, not, Option, none, some, List, [], ◌∷◌, ◌++◌,
  ◌==◌, if◌then◌else◌, set, get_or, replicate, map, ◌⊎◌, inl, inr,
}
use panaudia_lasa.Prelude.Map.{Map, lookup, put, delete}
use panaudia_lasa.Prelude.Float.{Float}
use panaudia_lasa.Engine.Pose.{Pose}
use panaudia_lasa.Engine.Plane.{is_none}
use panaudia_lasa.Engine.Mixer.{
  Mixer, Refusal, Answer, err_bad_group, add_source, add_sink, add_ambi_sink, remove_source,
  remove_sink, remove_ambi_sink,
}
use panaudia_lasa.Server.State.{EntityRec, GroupRec, Backend, Host}
use panaudia_lasa.Server.Wiring.{flush_joined, new_state_wiring}

-- connect.ResolvedEntity, of which the backend reads these.
pub record Lockstep : Type 0 where
  pub index : ℕ
  pub count : ℕ

pub record ResolvedEntity (F : Type 0) : Type 0 where
  pub id : ℕ
  pub frame_head : Bool
  pub dof : Option ℕ
  pub position : Option (F × F × F)
  pub attitude : Option (F × F × F)
  pub lockstep : Option Lockstep

-- float32(x) and float64(x)
pub record Widths (F S : Type 0) : Type 0 where
  pub narrow : F → S
  pub widen : S → F

abbrev pub entity_dof : {F : Type 0} → ResolvedEntity F → ℕ
entity_dof e = elim e.dof [ none ↦ 6 | some d ↦ d ]

module _ {F S : Type 0} (zero32 : S) (ws : Widths F S) where
  open ws use {narrow, widen}

  abbrev pub zero_pose : Pose S
  zero_pose = record {
    x = zero32;
    y = zero32;
    z = zero32;
    yaw = zero32;
    pitch = zero32;
    roll = zero32;
  }

  abbrev place : Option (F × F × F) → Pose S → Pose S
  place none p = p
  place (some (x, y, z)) p = record p { x = narrow x; y = narrow y; z = narrow z }

  abbrev turn : Option (F × F × F) → Pose S → Pose S
  turn none p = p
  turn (some (yaw, pitch, roll)) p = record p {
    yaw = narrow yaw;
    pitch = narrow pitch;
    roll = narrow roll;
  }

  unfoldable pub initial_pose : ResolvedEntity F → Pose S
  initial_pose e = turn e.attitude (place e.position zero_pose)

  unfoldable pub engine_pose : Pose S → Pose F
  engine_pose p = record {
    x = widen p.x;
    y = widen p.y;
    z = widen p.z;
    yaw = widen p.yaw;
    pitch = widen p.pitch;
    roll = widen p.roll;
  }

module _ {F S : Type 0} where
  unfoldable pub new_backend : Backend F S
  new_backend = record {
    entities = [];
    recs = [];
    groups = [];
    group_recs = [];
    sink_poses = [];
    next = 0;
  }

  unfoldable pub new_host : Mixer F → Host F S
  new_host m = record { mixer = m; wiring = new_state_wiring; backend = new_backend }

  -- The set that a member joins, created by the first.
  abbrev pub set_of : ℕ → ℕ → ℕ → Backend F S → ℕ × GroupRec
  set_of client count fresh b =
      let made : ℕ × GroupRec =
        (fresh, record { n = count; recs = replicate count none; live = 0 }) in
      elim (lookup client b.groups) [
        | none ↦ made
        | some g ↦ elim (lookup g b.group_recs) [ none ↦ made | some gr ↦ (g, gr) ]
      ]

  -- A record `r` enters the conn-map, and its lockstep set if it has one.
  unfoldable pub seat_entity : ℕ → Option Lockstep → ℕ → ℕ → EntityRec S → Backend F S → Backend F S
  seat_entity client none id r rec b = record b {
    entities = put id r b.entities;
    recs = put r rec b.recs;
    next = r + 1;
  }
  seat_entity client (some l) id r rec b =
      let (g, gr) = set_of client l.count r b in
      record b {
        entities = put id r b.entities;
        recs = put r (record rec { group = some g; group_index = l.index }) b.recs;
        groups = put client g b.groups;
        group_recs =
            put g (record gr { recs = set gr.recs l.index (some r); live = gr.live + 1 })
              b.group_recs;
        next = r + 1;
      }

-- The engine's AddSource for an entity that joins: a lockstep member's has a set to find first, and
-- `fits` is whether the mixer's lockstep sets take the member, which `find_set` of
-- Engine/Group/Registry answers.
unfoldable pub engine_add : {F : Type 0} → Bool → ResolvedEntity F → ℕ → Mixer F → Answer F
engine_add fits e r m =
    if is_none e.lockstep || fits then add_source e.id r m else (m, some err_bad_group)

module _ {F S : Type 0} (zero32 : S) (ws : Widths F S) where
  -- The record of an entity that joins.
  abbrev pub new_rec : ℕ → ResolvedEntity F → ℕ → EntityRec S
  new_rec client e r =
      let home = initial_pose zero32 ws e in
      record {
        client_id = client;
        src = r;
        presence = home;
        dof = entity_dof e;
        home = home;
        head_frame = e.frame_head;
        sinks = [];
        group = none;
        group_index = 0;
      }

  -- What EntityJoined does with the engine's answer: a refusal is returned and nothing else happens.
  unfoldable pub answer_join :
      Answer F → ℕ → ResolvedEntity F → Host F S → Host F S × Option Refusal
  unfolding seat_entity flush_joined
  answer_join (m1, err) client e h =
      let r = h.backend.next in
      elim err [
        | some refusal ↦ (record h { mixer = m1 }, some refusal)
        | none ↦ (
          flush_joined e.id (record h {
            mixer = m1;
            backend = seat_entity client e.lockstep e.id r (new_rec client e r) h.backend;
          }),
          none,
        )
      ]

  unfoldable pub entity_joined : Bool → ℕ → ResolvedEntity F → Host F S → Host F S × Option Refusal
  unfolding engine_add answer_join
  entity_joined fits client e h = answer_join (engine_add fits e h.backend.next h.mixer) client e h

-- The engine's halves of a departed entity.
abbrev pub remove_halves : {F : Type 0} → ℕ → Mixer F → Mixer F
remove_halves id m =
    remove_ambi_sink id 3 (remove_ambi_sink id 2 (remove_sink id (remove_source id m)))

module _ {F S : Type 0} where
  -- A member gives up its seat; the set goes with its last.
  unfoldable pub leave_group : ℕ → EntityRec S → Backend F S → Backend F S
  leave_group client rec b = elim rec.group [
    | none ↦ b
    | some g ↦ elim (lookup g b.group_recs) [
      | none ↦ b
      | some gr ↦
          let gr' = record gr { recs = set gr.recs rec.group_index none; live = gr.live - 1 } in
          record b {
            group_recs = put g gr' b.group_recs;
            groups =
                if gr'.live == 0
                  && (elim (lookup client b.groups) [ none ↦ false | some g' ↦ g' == g ])
                then delete client b.groups
                else b.groups;
          }
    ]
  ]

  -- EntityLeft: nothing happens for an entity that is not there or is another client's.
  unfoldable pub entity_left : ℕ → ℕ → Host F S → Host F S
  unfolding leave_group
  entity_left client id h = elim (lookup id h.backend.entities) [
    | none ↦ h
    | some r ↦ elim (lookup r h.backend.recs) [
      | none ↦ h
      | some rec ↦
          if rec.client_id == client
          then record h {
            backend =
                leave_group client rec
                  (record h.backend { entities = delete id h.backend.entities });
            mixer = remove_halves id h.mixer;
          }
          else h
    ]
  ]
