-- ===== src/Lib.antt =====
-- panaudia-lasa: a spatial audio server (engine/ and server/), its state machines.
--
-- The server hosts a mixer (engine/engine). Each source writes decoded audio to a jitter buffer
-- (engine/buffers) and its poses to a pose ring; a ticker (engine/timing) paces the mixer, whose
-- audio thread first runs the changes that the control plane has queued, then reads a frame and a
-- pose from every source, mixes what each listener may hear, and hands the frames to the sinks.
-- The server (server/) is the control plane's caller: its backend turns the joins and departures
-- of a session library into the mixer's adds and removes, and its wiring turns the keys of a
-- shared state into the mixer's settings.
--
-- Buffers/ is engine/buffers/jitter_buffer.go. Ring has writeToRing and readFromRing (against the
-- stream in Stream and Held), Stats the statistics of a window (gcd, median3, rankNth, winStats),
-- Servo the decision law and the provisioning (softClamp, clampRate, PServo.Decide, QualityLevel,
-- FECFloor), Jitter the state and NewJitterBuffer, Jitter/Window what a read learns (sense,
-- closeWindow), Jitter/Splice the two splices, Jitter/Play Read, Write and Snapshot. The other
-- files of Jitter/ hold proofs: Valid and Steps the positions, Sensing and Freeze the
-- observations, Audio the stream, Frames, Rounds and Spliced the splices, Fresh the new buffer and
-- Run sequences of calls. A read is split at its numbered steps: start_up, trim, valves, sense,
-- then finish, which plays.
--
-- Engine/ is engine/engine. Params has the render and channel parameters (params.go), Plane the
-- audio thread's entities and slots with the closures of the change queue as the type Change
-- (mixer.go, ambisink.go), Mixer the control plane (AddSource, addSink, AddAmbiSink, the removes
-- and the settings, Close) with its registry, Channels who hears whom (channels.go), Pose the pose
-- ring and poseAt (pose.go), where Threads and Slot have the ring and the pose slot as interleaved
-- atomic steps, Vouched, Torn, WaitFree, Loads and Returns are about those steps, and Facing has
-- the conversions of a pose, Group the seats and the shared frames of a lockstep set (group.go),
-- Source what a client's packets become (source.go), Render a tick up to its parallel phases
-- (render.go, recomputeAudible of channels.go) and Decoder the Opus input decoder
-- (engine/inout/decoder.go, plc.go). Under Source, Aligned, Feed, Calls and Runs are the counts of
-- samples and Conceal the loop over a loss; under Render, Pairs is the rebuilt record, Kept and
-- Changes are what a change leaves of it and Ticks the ticks; under Group, Seats is the seats,
-- Registry, Finds and United the sets that the mixer registers (AddSource, RemoveSource), Weave,
-- Gather and Written are the frames.
--
-- Lab/V3 is engine/jitterlab/v3.go, an earlier buffer whose window adapts by counting its own
-- corrections: NewV3Buffer and Write, Read in Play and Snapshot in Stats, on the ring of
-- Buffers/Ring. Window is the adaptation, Steps the positions, Run sequences of calls.
--
-- Server/ is server/. State has the host's records, Wiring the observer of the shared state's keys
-- (wiring.go: observe, entityUpdate, channelUpdate, entityJoined), Backend the entities, lockstep
-- sets and renders (backend.go: EntityJoined, EntityLeft, StartSink, Stop, enforcePose), Config
-- the environment (config.go: loadConfig) with Text the standard library's functions it calls, and
-- Checked and Accepted what a loaded configuration is. Under Wiring, Marker is the keys, Follows
-- and Events what the audio thread has of an entity; under Backend, Sinks has the poses and the
-- renders, Ingress a set's frames and losses, Agree, Steps, Mapped and Reach are the conn-map,
-- Joined and Renders the composition with the wiring and the audio thread, Fanout the poses and
-- Leak a departure. Where proofs need what the control plane's calls do to the registry's sources,
-- Engine/Mixer/Sources has it.
--
-- The session library, the profile's parser and its defaults are not in the repository: the parser
-- is an argument of `observe`, the defaults are a record, and a resolved entity is a record of
-- what the backend reads. The host has no lockstep sets of the engine: whether they take a member
-- that joins is an argument of `entity_joined`. `F` stands for float64, `S` for float32, and a
-- Widths has the conversions.
--
-- Timing is engine/timing/ticker.go. Tests/ runs each component on concrete inputs. Prelude has
-- lists, maps and integers over the native numbers, and the type of floats.
--
-- Floats are an abstract type with the operations that the code uses (Prelude/Float); a theorem
-- names what it needs of their order. Positions, ticks and counters are natural numbers without
-- the wrap of int64 and uint64, which takes millions of years at 48 kHz. Ids and names are
-- numbers, since the code only compares them. The one loop that is not structural, gcd's, recurs
-- on the accessibility of its second argument; the loops over frames and over ring entries recur
-- on the rounds that are left, which are the loop's own bound; the loop of Conceal has as many
-- rounds as samples, of which every round takes one at least.
--
-- Not modelled: the signal processing (engine/ambisonic, engine/binaural, engine/convolver,
-- engine/hrtf, engine/gemm and the rest of engine/inout), the loudness and the tone generator of a
-- source, the rest of the simulation laboratory (engine/jitterlab), the server's sockets,
-- certificates, log lines and statistics, the parallel phases of a tick, and the races between
-- goroutines other than those on the pose stores: a call of the control plane is one step, and so
-- is a call of the pose ring where a source uses it. Of the text functions, letters outside ASCII
-- keep their case.
pub mod Prelude
pub mod Buffers
pub mod Engine
pub mod Timing
pub mod Lab
pub mod Server
pub mod Tests
