-- ===== src/Server/Backend/Reach.antt =====
-- Everything the host does, as steps, and what the conn-map is after any of them.
use panaudia_lasa.Prelude.{ℕ, ◌≡◌, refl, inl, inr, Bool, Option, some, List, arith, Option-cases}
use panaudia_lasa.Prelude.Float.{Float}
use panaudia_lasa.Prelude.Map.{lookup, Distinct}
use panaudia_lasa.Engine.Pose.{Pose}
use panaudia_lasa.Engine.Mixer.{Mixer, new_mixer, drain}
use panaudia_lasa.Engine.Plane.{drain_changes}
use panaudia_lasa.Server.State.{EntityRec, Host}
use panaudia_lasa.Server.Wiring.{Event, ProfileDefaults, observe}
use panaudia_lasa.Server.Backend.{
  ResolvedEntity, Widths, new_backend, new_host, entity_joined, entity_left,
}
use panaudia_lasa.Server.Backend.Sinks.{Format, SinkSession, entity_frame, start_sink, stop_session}
use panaudia_lasa.Server.Backend.Agree.{ConnMap}
use panaudia_lasa.Server.Backend.Steps.{same_reg, observe-Mapped}
use panaudia_lasa.Server.Backend.Mapped.{
  joined-Mapped, left-Mapped, start-Mapped, stop-Mapped, entity_frame-Mapped,
}

-- The host after whatever the shell, the state observer and the audio thread do.
module _ {F S : Type 0} (fl : Float F) (base : ProfileDefaults F) (zero32 : S)
    (ws : Widths F S) where
  pub data Serves : Host F S → Type 0 where
    opens : (n order : ℕ) → Serves (new_host (new_mixer n order))
    joins :
        {h : Host F S} (fits : Bool) (client : ℕ) (e : ResolvedEntity F)
        → Serves h
        → Serves (entity_joined zero32 ws fits client e h).0
    leaves : {h : Host F S} (client id : ℕ) → Serves h → Serves (entity_left client id h)
    starts :
        {h : Host F S} (id : ℕ) (f : Format) → Serves h → Serves (start_sink zero32 ws id f h).0
    stops : {h : Host F S} (s : SinkSession) → Serves h → Serves (stop_session s h)
    frames :
        {h : Host F S} (r : ℕ) (rec : EntityRec S) (pose : Option (Pose S))
        → lookup r h.backend.recs ≡ some rec
        → Serves h
        → Serves (record h { backend = (entity_frame zero32 ws r rec pose h.backend).0 })
    observes :
        {h : Host F S} (parse : List ℕ → List ℕ → Bool → Option (Event F)) (name : List ℕ → ℕ)
        (key value : List ℕ) (cleared : Bool)
        → Serves h
        → Serves (observe fl base parse name key value cleared h)
    ticks :
        {h : Host F S} (m' : Mixer F)
        → drain fl h.mixer ≡ some m'
        → Serves h
        → Serves (record h { mixer = m' })

  drain-reg : (m m' : Mixer F) → drain fl m ≡ some m' → m'.reg ≡ m.reg
  unfolding drain
  drain-reg m m' e = elim (Option-cases (drain_changes fl m.changes m.plane)) [
    | inl l ↦ absurd (ground (arith, rw (l, drain) at e))
    | inr (p, l) ↦ ground (arith, rw (l, drain) at e)
  ]

  -- After any joins, departures, sink starts and stops, poses, observed keys and ticks, each id has
  -- one entry in the conn-map and in the engine's registry at most, and the engine has a source for
  -- an id exactly when the conn-map has the id: the source of its record, which exists.
  pub Serves-ConnMap : {h : Host F S} → Serves h → ConnMap h.mixer.reg h.backend
  unfolding new_host new_backend new_mixer lookup Distinct
  Serves-ConnMap (opens n order) = record {
    registry = _;
    conns = _;
    view = λ j. refl;
    known = λ j r l. absurd (ground (arith, l));
  }
  Serves-ConnMap (joins {h = h} fits client e s) =
      joined-Mapped zero32 ws fits client e h (Serves-ConnMap s)
  Serves-ConnMap (leaves {h = h} client id s) = left-Mapped client id h (Serves-ConnMap s)
  Serves-ConnMap (starts {h = h} id f s) = start-Mapped zero32 ws id f h (Serves-ConnMap s)
  Serves-ConnMap (stops {h = h} t s) = stop-Mapped t h (Serves-ConnMap s)
  Serves-ConnMap (frames {h = h} r rec pose at s) =
      entity_frame-Mapped zero32 ws r rec pose h.mixer.reg h.backend at (Serves-ConnMap s)
  Serves-ConnMap (observes {h = h} parse name key value cleared s) =
      observe-Mapped fl base parse name key value cleared h (Serves-ConnMap s)
  Serves-ConnMap (ticks {h = h} m' e s) = same_reg (drain-reg h.mixer m' e) (Serves-ConnMap s)
