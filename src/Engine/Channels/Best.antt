-- ===== src/Engine/Channels/Best.antt =====
-- The winning gain is the highest of the shared unmuted channels.
use panaudia_lasa.Prelude.{
  ℕ, ◌≡◌, refl, ◌⊎◌, inl, inr, true, false, List, [], ◌∷◌, arith, ◌==◌, if◌then◌else◌, Bool-cases,
}
use panaudia_lasa.Prelude.Float.{Float, Irreflexive}
use panaudia_lasa.Prelude.Map.{Map, lookup}
use panaudia_lasa.Engine.Params.{ChannelParams}
use panaudia_lasa.Engine.Plane.{member}
use panaudia_lasa.Engine.Channels.{Winner, channel_muted, channel_gain, offer, scan, no_winner}
use panaudia_lasa.Engine.Channels.Audible.{Common}

module _ {F : Type 0} (fl : Float F) where
  open fl use {ltf}

  -- The order of the numbers, in IEEE 754.
  abbrev pub Transitive : Type 0
  Transitive = (a b c : F) → ltf a b ≡ true → ltf b c ≡ true → ltf a c ≡ true

  -- The gain never falls on the way.
  scan_above :
      Transitive
      → (table : Map (ChannelParams F)) (sinks cs : List ℕ) (w : Winner F) (g : F)
      → ltf w.gain g ≡ false
      → ltf (scan fl table sinks cs w).gain g ≡ false
  unfolding scan offer
  scan_above tr table sinks [] w g h = h
  scan_above tr table sinks (c ∷ cs) w g h =
      let cp = lookup c table in
      let next = if channel_muted fl cp then w else if member c sinks then offer fl cp w else w in
      let step : ltf next.gain g ≡ false = ground (arith, tr w.gain (channel_gain fl cp) g) in
      scan_above tr table sinks cs next g step

  scan_highest :
      Irreflexive fl
      → Transitive
      → (table : Map (ChannelParams F)) (sinks cs : List ℕ) (w : Winner F)
        (v : Common fl table sinks cs)
      → ltf (scan fl table sinks cs w).gain (channel_gain fl (lookup v.0 table)) ≡ false
  unfolding scan offer
  scan_highest irr tr table sinks [] w (c, here, inside, live) = absurd (ground arith)
  scan_highest irr tr table sinks (d ∷ cs) w (c, here, inside, live) =
      let next =
        if channel_muted fl (lookup d table)
        then w
        else if member d sinks
        then offer fl (lookup d table) w
        else w in
      let g = channel_gain fl (lookup c table) in
      elim (Bool-cases (c == d)) [
        | inl same ↦
            let at : d ≡ c = ground arith in
            let beaten : ltf next.gain g ≡ false = rw (at, live, inside) (ground (arith, irr g)) in
            scan_above tr table sinks cs next g beaten
        | inr other ↦ scan_highest irr tr table sinks cs next (c, ground arith, inside, live)
      ]

  -- The gain is the one that the loop began with or that of a shared unmuted channel.
  scan_from :
      (table : Map (ChannelParams F)) (sinks cs : List ℕ) (w : Winner F)
      → let g = (scan fl table sinks cs w).gain in
        (g ≡ w.gain) ⊎ ((v : Common fl table sinks cs) × (g ≡ channel_gain fl (lookup v.0 table)))
  unfolding scan offer
  scan_from table sinks [] w = inl refl
  scan_from table sinks (d ∷ cs) w =
      let cp = lookup d table in
      let next = if channel_muted fl cp then w else if member d sinks then offer fl cp w else w in
      elim (scan_from table sinks cs next) [
        | inr ((c, here, inside, live), e) ↦ inr ((c, ground arith, inside, live), e)
        | inl e ↦ elim (Bool-cases (channel_muted fl cp)) [
          | inl muted ↦ inl (ground arith)
          | inr live ↦ elim (Bool-cases (member d sinks)) [
            | inr outside ↦ inl (ground arith)
            | inl inside ↦ elim (Bool-cases (ltf w.gain (channel_gain fl cp))) [
              | inl up ↦ inr ((d, ground arith, inside, live), ground arith)
              | inr kept ↦ inl (ground arith)
            ]
          ]
        ]
      ]

  -- Of the shared unmuted channels, if there is one and their gains all exceed the -1 that the loop
  -- begins with, the winning gain is that of one of them, and no other gain exceeds it.
  pub scan_lem :
      Irreflexive fl
      → Transitive
      → (table : Map (ChannelParams F)) (sinks cs : List ℕ)
      → ((v : Common fl table sinks cs)
          → ltf (fl.neg (fl.lit 1 0)) (channel_gain fl (lookup v.0 table)) ≡ true)
      → Common fl table sinks cs
      → let g = (scan fl table sinks cs (no_winner fl)).gain in
        ((v : Common fl table sinks cs) × (g ≡ channel_gain fl (lookup v.0 table)))
        × ((v : Common fl table sinks cs) → ltf g (channel_gain fl (lookup v.0 table)) ≡ false)
  scan_lem irr tr table sinks cs above v =
      let highest = scan_highest irr tr table sinks cs (no_winner fl) in
      elim (scan_from table sinks cs (no_winner fl)) [
        | inr best ↦ (best, highest)
        | inl low ↦ absurd (ground (arith, low, highest v, above v))
      ]
