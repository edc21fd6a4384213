-- ===== src/Engine/Channels/Audible.antt =====
-- A pair is audible exactly when it shares an unmuted channel and no personal rule forbids it.
use panaudia_lasa.Prelude.{
  ℕ, ◌≡◌, ◌↔◌, refl, ◌⊎◌, inl, inr, Bool, true, false, not, ◌||◌, List, [], ◌∷◌, arith, ◌==◌,
  if◌then◌else◌, Bool-cases,
}
use panaudia_lasa.Prelude.Float.{Float}
use panaudia_lasa.Prelude.Map.{Map, lookup}
use panaudia_lasa.Engine.Params.{ChannelParams}
use panaudia_lasa.Engine.Plane.{Entity, Plane, member, members, is_empty}
use panaudia_lasa.Engine.Channels.{
  Winner, channel_muted, offer, scan, no_winner, personal, resolve_pair,
}

module _ {F : Type 0} (fl : Float F) where
  -- A channel of both that is not muted.
  abbrev pub Common : Map (ChannelParams F) → List ℕ → List ℕ → Type 0
  Common table sinks sources =
      (c : ℕ) × (member c sources ≡ true)
      × (member c sinks ≡ true)
      × (channel_muted fl (lookup c table) ≡ false)

  scan_keeps :
      (table : Map (ChannelParams F)) (sinks cs : List ℕ) (w : Winner F)
      → w.shared ≡ true
      → (scan fl table sinks cs w).shared ≡ true
  unfolding scan offer
  scan_keeps table sinks [] w h = h
  scan_keeps table sinks (c ∷ cs) w h =
      scan_keeps table sinks cs
        (if channel_muted fl (lookup c table)
          then w
          else if member c sinks
          then offer fl (lookup c table) w
          else w)
        (ground arith)

  scan_finds :
      (table : Map (ChannelParams F)) (sinks cs : List ℕ) (w : Winner F)
      → Common table sinks cs
      → (scan fl table sinks cs w).shared ≡ true
  unfolding scan offer
  scan_finds table sinks [] w (c, here, inside, live) = absurd (ground arith)
  scan_finds table sinks (d ∷ cs) w (c, here, inside, live) =
      let next =
        if channel_muted fl (lookup d table)
        then w
        else if member d sinks
        then offer fl (lookup d table) w
        else w in
      elim (Bool-cases (c == d)) [
        | inl same ↦
            let at : d ≡ c = ground arith in
            scan_keeps table sinks cs next (rw (at, live, inside) refl)
        | inr other ↦ scan_finds table sinks cs next (c, ground arith, inside, live)
      ]

  scan_only :
      (table : Map (ChannelParams F)) (sinks cs : List ℕ) (w : Winner F)
      → w.shared ≡ false
      → (scan fl table sinks cs w).shared ≡ true
      → Common table sinks cs
  unfolding scan offer
  scan_only table sinks [] w off h = absurd (ground arith)
  scan_only table sinks (d ∷ cs) w off h =
      let further : Common table sinks cs → Common table sinks (d ∷ cs) =
        λ (c, here, inside, live). (c, ground arith, inside, live) in
      elim (Bool-cases (channel_muted fl (lookup d table))) [
        | inl muted ↦ further (scan_only table sinks cs w off (rw (scan, muted) at h))
        | inr live ↦ elim (Bool-cases (member d sinks)) [
          | inl inside ↦ (d, ground arith, inside, live)
          | inr outside ↦ further (scan_only table sinks cs w off (rw (scan, live, outside) at h))
        ]
      ]

module _ {F : Type 0} where
  -- What the personal rules ask: membership of the listener's solo set if there is one, else that
  -- neither side mutes the other.
  abbrev pub Allowed : Plane F → ℕ → ℕ → Type 0
  Allowed m s k =
      (is_empty (members k m.personal_solos) ≡ true)
        × (member s (members k m.personal_mutes) ≡ false)
        × (member k (members s m.personal_mutes) ≡ false)
      ⊎ (member s (members k m.personal_solos) ≡ true)

  personal_iff : (m : Plane F) (s k : ℕ) → (personal m s k ≡ true) ↔ Allowed m s k
  unfolding personal
  personal_iff m s k =
      rules s k (members k m.personal_solos) (member s (members k m.personal_mutes))
        (member k (members s m.personal_mutes))
    where
      rules :
          (s k : ℕ) (solos : List ℕ) (a b : Bool)
          → ((if is_empty solos then not (a || b) else member s solos) ≡ true)
            ↔ ((is_empty solos ≡ true) × (a ≡ false) × (b ≡ false) ⊎ (member s solos ≡ true))
      rules s k [] false b = (λ h. ground arith, λ h. ground arith)
      rules s k [] true b = (λ h. ground arith, λ h. ground arith)
      rules s k (x ∷ xs) a b = (λ h. inr h, λ h. ground arith)

  vetoed :
      (m : Plane F) (s k : ℕ)
      → is_empty (members k m.personal_solos) ≡ true
      → (member s (members k m.personal_mutes) ≡ true)
        ⊎ (member k (members s m.personal_mutes) ≡ true)
      → Allowed m s k
      → ⊥
  vetoed m s k free muted (inl (none_solo, a, b)) = ground arith
  vetoed m s k free muted (inr solo) = outside s (members k m.personal_solos) free solo
    where
      outside : (s : ℕ) (xs : List ℕ) → is_empty xs ≡ true → member s xs ≡ true → ⊥
      outside s [] e h = ground arith
      outside s (x ∷ xs) e h = ground arith

module _ {F S : Type 0} (fl : Float F) (f32 : Float S) (float32 : F → S) where
  -- A source is audible to a listener exactly when they share a channel that is not muted and the
  -- personal rules allow it: the source is in the listener's solo set, or that set is empty and
  -- neither side mutes the other.
  pub resolve_pair-Allowed :
      (m : Plane F) (s k : Entity F)
      → ((resolve_pair fl f32 float32 m s k).0 ≡ true) ↔ (
          Common fl m.channel_table k.params.sink_channels s.params.source_channels
          × Allowed m s.id k.id)
  unfolding resolve_pair
  resolve_pair-Allowed m s k =
      let sinks = k.params.sink_channels in
      let cs = s.params.source_channels in
      let w = scan fl m.channel_table sinks cs (no_winner fl) in
      let (to, from) = personal_iff m s.id k.id in
      (
        λ h.
            let shared : w.shared ≡ true = ground arith in
            let may : personal m s.id k.id ≡ true = ground arith in
            (scan_only fl m.channel_table sinks cs (no_winner fl) refl shared, to may),
        λ (c, allowed).
            rw (scan_finds fl m.channel_table sinks cs (no_winner fl) c, from allowed) refl,
      )

  not_audible :
      (m : Plane F) (s k : Entity F)
      → (Allowed m s.id k.id → ⊥)
      → (resolve_pair fl f32 float32 m s k).0 ≡ false
  not_audible m s k no_way = elim (Bool-cases (resolve_pair fl f32 float32 m s k).0) [
    | inl heard ↦ absurd (no_way ((resolve_pair-Allowed m s k).0 heard).1)
    | inr silent ↦ silent
  ]

  -- A mute works both ways: if either side mutes the other and neither has a solo set, then neither
  -- hears the other, whatever their channels.
  pub mute_symmetric :
      (m : Plane F) (s k : Entity F)
      → is_empty (members k.id m.personal_solos) ≡ true
      → is_empty (members s.id m.personal_solos) ≡ true
      → (member s.id (members k.id m.personal_mutes) ≡ true)
        ⊎ (member k.id (members s.id m.personal_mutes) ≡ true)
      → ((resolve_pair fl f32 float32 m s k).0 ≡ false)
        × ((resolve_pair fl f32 float32 m k s).0 ≡ false)
  mute_symmetric m s k free_k free_s muted =
      let other : (member k.id (members s.id m.personal_mutes) ≡ true)
          ⊎ (member s.id (members k.id m.personal_mutes) ≡ true) =
        elim muted [ inl a ↦ inr a | inr a ↦ inl a ] in
      (
        not_audible m s k (vetoed m s.id k.id free_k muted),
        not_audible m k s (vetoed m k.id s.id free_s other),
      )
