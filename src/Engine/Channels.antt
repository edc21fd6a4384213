-- ===== src/Engine/Channels.antt =====
-- engine/engine/channels.go: who hears whom, and with which gain and attenuation.
-- The encoder's gain factor and attenuation exponent (engine/ambisonic/encoder.go) are those of an
-- encoder without roles, which the engine never gives it. `float32` is Go's conversion.
pub mod Audible
pub mod Best
use panaudia_lasa.Prelude.{
  ℕ, Bool, true, false, not, ◌&&◌, ◌||◌, Option, none, some, List, [], ◌∷◌, map, ◌==◌,
  if◌then◌else◌,
}
use panaudia_lasa.Prelude.Float.{Float}
use panaudia_lasa.Prelude.Map.{Map, lookup}
use panaudia_lasa.Engine.Params.{RenderParams, ChannelParams}
use panaudia_lasa.Engine.Plane.{Entity, Plane, member, members, is_empty}

-- The winners so far among the shared unmuted channels.
pub record Winner (F : Type 0) : Type 0 where
  pub shared : Bool
  pub gain : F
  pub attenuation : Option F

module _ {F : Type 0} (fl : Float F) where
  open fl use {lit, neg, div, ltf}

  abbrev pub channel_muted : Option (ChannelParams F) → Bool
  channel_muted none = false
  channel_muted (some cp) = cp.muted

  -- The gain that a channel offers, 1 if it is not named.
  abbrev pub channel_gain : Option (ChannelParams F) → F
  channel_gain none = lit 1 0
  channel_gain (some cp) = cp.gain

  abbrev pub channel_attenuation : Option (ChannelParams F) → Option F
  channel_attenuation none = none
  channel_attenuation (some cp) = cp.attenuation

  abbrev pub lower : Option F → Option F → Option F
  lower none old = old
  lower (some a) none = some a
  lower (some a) (some b) = if ltf a b then some a else some b

  unfoldable pub offer : Option (ChannelParams F) → Winner F → Winner F
  offer cp w = record {
    shared = true;
    gain = if ltf w.gain (channel_gain cp) then channel_gain cp else w.gain;
    attenuation = lower (channel_attenuation cp) w.attenuation;
  }

  -- The loop over the source's channels.
  unfoldable pub scan : Map (ChannelParams F) → List ℕ → List ℕ → Winner F → Winner F
  scan table sinks [] w = w
  scan table sinks (c ∷ cs) w =
      let cp = lookup c table in
      let next = if channel_muted cp then w else if member c sinks then offer cp w else w in
      scan table sinks cs next

  abbrev pub no_winner : Winner F
  no_winner = record { shared = false; gain = neg (lit 1 0); attenuation = none }

module _ {F : Type 0} where
  -- The personal solo and mute rules: a solo set decides alone, else a mute of either side vetoes.
  unfoldable pub personal : Plane F → ℕ → ℕ → Bool
  personal m s k =
      let solos = members k m.personal_solos in
      if is_empty solos
      then not (member s (members k m.personal_mutes) || member k (members s m.personal_mutes))
      else member s solos

module _ {F S : Type 0} (fl : Float F) (f32 : Float S) (float32 : F → S) where
  open fl use {lit, mul, div, ltf}

  -- The encoder's gain is that of the render parameters. SQRT_4_PI is the literal.
  unfoldable pub gain_factor : Entity F → S
  gain_factor s =
      let effective = mul s.params.gain (lit 1 0) in
      f32.mul (float32 (if ltf effective (lit 0 0) then lit 0 0 else effective))
        (f32.lit 35449077018110318 16)

  unfoldable pub peer_attenuation_exponent : Entity F → F
  peer_attenuation_exponent s = div s.params.attenuation (lit 2 0)

  -- (audible, gainF, attExp)
  unfoldable pub resolve_pair : Plane F → Entity F → Entity F → Bool × S × F
  resolve_pair m s k =
      let w =
        scan fl m.channel_table k.params.sink_channels s.params.source_channels (no_winner fl) in
      if not w.shared
      then (false, f32.lit 0 0, lit 0 0)
      else if personal m s.id k.id
      then (
        true,
        f32.mul (gain_factor s) (float32 w.gain),
        elim w.attenuation [ none ↦ peer_attenuation_exponent s | some a ↦ div a (lit 2 0) ],
      )
      else (false, f32.lit 0 0, lit 0 0)
