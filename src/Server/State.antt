-- ===== src/Server/State.antt =====
-- server/backend.go and wiring.go: the state of the host. Ids, channel names and client ids are
-- numbers. A record that the source holds by pointer, and a lockstep set's, is known by a number
-- and stands in a map of its own. `F` stands for float64 and `S` for float32.
use panaudia_lasa.Prelude.{ℕ, Bool, Option, List}
use panaudia_lasa.Prelude.Map.{Map}
use panaudia_lasa.Engine.Params.{ChannelParams}
use panaudia_lasa.Engine.Mixer.{Mixer}
use panaudia_lasa.Engine.Pose.{Pose}

-- What the profile's keys have set for an entity whose existence marker is live.
pub record DerivedEntity (F : Type 0) : Type 0 where
  pub gain : F
  pub attenuation : F
  pub size : F
  pub directivity : F
  pub heard_in : List ℕ
  pub hears : List ℕ

pub record StateWiring (F : Type 0) : Type 0 where
  pub ents : Map (DerivedEntity F)
  pub muted : List ℕ
  pub channels : Map (ChannelParams F)
  pub invalid : ℕ

-- A live entity. `src` and `sinks` are identities of the engine's halves, `presence` the pose of
-- its presence slot; `group` is the identity of its lockstep set.
pub record EntityRec (S : Type 0) : Type 0 where
  pub client_id : ℕ
  pub src : ℕ
  pub presence : Pose S
  pub dof : ℕ
  pub home : Pose S
  pub head_frame : Bool
  pub sinks : List ℕ
  pub group : Option ℕ
  pub group_index : ℕ

pub record GroupRec : Type 0 where
  pub n : ℕ
  pub recs : List (Option ℕ)
  pub live : ℕ

-- `entities` is the conn-map, from an entity's id to its record, `groups` from a client's id to its
-- set; `sink_poses` is the latest pose of a sink; `next` is an identity that is not taken.
pub record Backend (F S : Type 0) : Type 0 where
  pub entities : Map ℕ
  pub recs : Map (EntityRec S)
  pub groups : Map ℕ
  pub group_recs : Map GroupRec
  pub sink_poses : Map (Pose F)
  pub next : ℕ

pub record Host (F S : Type 0) : Type 0 where
  pub mixer : Mixer F
  pub wiring : StateWiring F
  pub backend : Backend F S
