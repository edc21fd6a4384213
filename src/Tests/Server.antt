-- ===== src/Tests/Server.antt =====
-- A host of two entities: one joins, renders, and leaves.
use panaudia_lasa.Prelude.{
  true, ℕ, ◌≡◌, ◌≢◌, ◌↔◌, ◌⊎◌, refl, some, none, [], ◌∷◌, false, if◌then◌else◌, List, ◌++◌,
}
use panaudia_lasa.Prelude.Int.{ℤ, pos}
use panaudia_lasa.Prelude.Fixed.{fixed}
use panaudia_lasa.Prelude.Map.{lookup, put}
use panaudia_lasa.Engine.Pose.{Pose}
use panaudia_lasa.Engine.Plane.{Entity, member, is_empty, drain_changes}
use panaudia_lasa.Engine.Mixer.{Mixer, new_mixer, add_source, drain}
use panaudia_lasa.Engine.Mixer.Order.{Reachable}
use panaudia_lasa.Engine.Mixer.Order
use panaudia_lasa.Server.State.{DerivedEntity, EntityRec, Host}
use panaudia_lasa.Server.Wiring.{
  ProfileDefaults, entity_render, field_gain, on_marker, on_event, render_params, marker_entity,
  marker_prefix, new_state_wiring, new_derived_entity,
}
use panaudia_lasa.Server.Wiring.Marker.{marker_entity_lem}
use panaudia_lasa.Server.Wiring.Events.{stays, hears}
use panaudia_lasa.Server.Backend.{
  ResolvedEntity, Widths, new_host, new_backend, engine_add, answer_join, entity_joined,
  entity_left, engine_pose, new_rec,
}
use panaudia_lasa.Server.Backend.{seat_entity}
use panaudia_lasa.Server.Wiring.{flush_joined}
use panaudia_lasa.Engine.Mixer.{add_sink}
use panaudia_lasa.Server.Backend.Sinks.{binaural, start_sink, enforce_pose, add_pose_sink}
use panaudia_lasa.Server.Backend.Ingress.{share_of, no_share}
use panaudia_lasa.Server.Backend.Agree.{ConnMap}
use panaudia_lasa.Server.Backend.Reach.{Serves, opens, joins, leaves, starts, Serves-ConnMap}
use panaudia_lasa.Server.Backend.Renders.{joined_renders}
use panaudia_lasa.Server.Backend.Fanout.{enforced, enforce_pose_lem}

abbrev pub same_width : Widths ℤ ℤ
same_width = record { narrow = λ x. x; widen = λ x. x }

abbrev base : ProfileDefaults ℤ
base = record { gain = pos 1000; attenuation = pos 1000; size = pos 0; directivity = pos 0 }

abbrev pub singer : ResolvedEntity ℤ
singer = record {
  id = 7;
  frame_head = false;
  dof = some 3;
  position = some (pos 1, pos 2, pos 3);
  attitude = none;
  lockstep = none;
}

abbrev empty : Host ℤ ℤ
empty = new_host (new_mixer 2 3)

-- Client 1's singer joins, starts a binaural render, and leaves.
abbrev pub sings : Host ℤ ℤ
sings =
    (start_sink (pos 0) same_width 7 binaural
      (entity_joined (pos 0) same_width false 1 singer empty).0).0

sings-Serves : Serves fixed base (pos 0) same_width (entity_left 1 7 sings)
sings-Serves = leaves 1 7 (starts 7 binaural (joins false 1 singer (opens 2 3)))

Serves-ConnMap_example : ConnMap (entity_left 1 7 sings).mixer.reg (entity_left 1 7 sings).backend
Serves-ConnMap_example = Serves-ConnMap fixed base (pos 0) same_width sings-Serves

-- The marker comes first, then the entity, then a gain.
abbrev marked : Host ℤ ℤ
marked = on_marker fixed base 7 false empty

abbrev joined : Host ℤ ℤ
joined = (entity_joined (pos 0) same_width false 1 singer marked).0

abbrev tuned : Host ℤ ℤ
tuned = on_event fixed base (entity_render 7 field_gain (pos 500)) joined

starts_here : Reachable fixed marked.mixer
unfolding on_marker new_host new_state_wiring lookup
starts_here = Order.starts 2 3

nothing_queued : drain fixed marked.mixer ≡ some (new_mixer 2 3)
unfolding on_marker new_host new_state_wiring new_mixer drain lookup drain_changes
nothing_queued = refl

no_channels :
    (c : ℕ) → lookup c (new_mixer {F = ℤ} 2 3).plane.channel_table ≡ lookup c marked.wiring.channels
unfolding on_marker new_host new_state_wiring new_mixer lookup
no_channels c = refl

unknown : lookup 7 marked.mixer.reg ≡ none
unfolding on_marker new_host new_state_wiring new_mixer lookup
unknown = refl

derived : lookup 7 marked.wiring.ents ≡ some (new_derived_entity base)
unfolding on_marker new_host new_state_wiring lookup put
derived = refl

admitted : (engine_add false singer marked.backend.next marked.mixer).1 ≡ none
unfolding engine_add on_marker new_host new_state_wiring new_mixer new_backend lookup put add_source
admitted = refl

joined_renders_example :
    (m' : Mixer ℤ) × (f : Entity ℤ) × (d' : DerivedEntity ℤ) × (drain fixed tuned.mixer ≡ some m')
    × (lookup 7 m'.plane.ents ≡ some f)
    × (lookup 7 tuned.wiring.ents ≡ some d')
    × (f.params ≡ render_params d')
    × (f.space_muted ≡ member 7 tuned.wiring.muted)
    × ((c : ℕ) → lookup c m'.plane.channel_table ≡ lookup c tuned.wiring.channels)
joined_renders_example =
    joined_renders fixed base (pos 0) same_width false 1 singer (new_derived_entity base) marked
      tuned (new_mixer 2 3) starts_here nothing_queued no_channels unknown derived admitted
      (hears (entity_render 7 field_gain (pos 500)) stays)

-- A singer that turns in place, with two sinks.
abbrev turns : EntityRec ℤ
turns = record (new_rec (pos 0) same_width 1 singer 0) { sinks = 4 ∷ 5 ∷ [] }

abbrev walk : Pose ℤ
walk = record { x = pos 9; y = pos 9; z = pos 9; yaw = pos 4; pitch = pos 5; roll = pos 6 }

-- A lost frame of the singer's seat is to be concealed.
missed :
    (share_of
      (pos 0)
      same_width
      (some 0)
      (record { present = false; pose = none; audio = []; audio_likely = true; silence = false })
      sings.backend).1
    ≡ record no_share { lost = true; audio_likely = true }
unfolding share_of new_host new_backend new_state_wiring new_mixer entity_joined answer_join
    engine_add start_sink seat_entity flush_joined add_pose_sink add_source add_sink lookup put
missed = refl

enforce_pose_lem_example :
    let b = sings.backend in
    let (b', out) = enforce_pose (pos 0) same_width 0 turns walk b in
    let ep = engine_pose (pos 0) same_width (enforced (pos 0) same_width turns walk) in
    (turns.dof ≡ 0) × (b' ≡ b) × (out ≡ none)
    ⊎ (turns.dof ≢ 0)
      × (out ≡ some ep)
      × (lookup 0 b'.recs
          ≡ some (record turns { presence = enforced (pos 0) same_width turns walk }))
      × ((q : ℕ) → 0 ≢ q → lookup q b'.recs ≡ lookup q b.recs)
      × ((k : ℕ)
          → lookup k b'.sink_poses
            ≡ (if member k turns.sinks then some ep else lookup k b.sink_poses))
enforce_pose_lem_example = enforce_pose_lem (pos 0) same_width 0 turns walk sings.backend

abbrev named_x : List ℕ
named_x = b'x' ∷ []

marker_entity_lem_example : (marker_entity (marker_prefix ++ named_x) ≡ some named_x) ↔ (
    (marker_prefix ++ named_x ≡ marker_prefix ++ named_x)
    × (is_empty named_x ≡ false)
    × (member b'.' named_x ≡ false))
marker_entity_lem_example = marker_entity_lem (marker_prefix ++ named_x) named_x
