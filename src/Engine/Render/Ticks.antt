-- ===== src/Engine/Render/Ticks.antt =====
-- Process from a new mixer on: the cached pair record is as good as resolvePair itself.
use panaudia_lasa.Prelude.{
  ℕ, ◌+◌, ◌*◌, ◌≡◌, refl, sym, ap, ◌∙◌, ◌⊎◌, inl, inr, Bool, false, not, Option, none, some, List,
  [], ◌∷◌, arith, Bool-cases, Option-cases, length-replicate,
}
use mathlib.Core.Path.{subst}
use panaudia_lasa.Prelude.Float.{Float}
use panaudia_lasa.Prelude.Map.{Map, lookup, Distinct}
use panaudia_lasa.Engine.Plane.{Entity, Plane, Change, drain_changes, is_none}
use panaudia_lasa.Engine.Plane.Sound.{Sound}
use panaudia_lasa.Engine.Plane.Slots.{taken-replicate}
use panaudia_lasa.Engine.Mixer.{new_mixer}
use panaudia_lasa.Engine.Channels.{resolve_pair, personal}
use panaudia_lasa.Engine.Source.{frame_size}
use panaudia_lasa.Engine.Render.{
  Render, PeersRow, listening, keep, occupants, recompute_audible, peers_rows, process, new_render,
}
use panaudia_lasa.Engine.Render.Pairs.{Sound-Alone, rows-set}
use panaudia_lasa.Engine.Render.Kept.{Cached, Good}
use panaudia_lasa.Engine.Render.Changes.{drain-Good}

module _ {F : Type 0} where
  -- Every entity of the list stands in the map.
  abbrev Known : Map (Entity F) → List (Entity F) → Type 0
  Known ents [] = Unit
  Known ents (e ∷ es) = ((i : ℕ) × (lookup i ents ≡ some e)) × Known ents es

  occupants-Known :
      (ents : Map (Entity F)) (slots : List (Option ℕ)) → Known ents (occupants ents slots)
  occupants-Known ents [] = _
  occupants-Known ents (none ∷ slots) = occupants-Known ents slots
  occupants-Known ents (some id ∷ slots) = elim (Option-cases (lookup id ents)) [
    | inl l ↦ rw (Known, occupants, l) (occupants-Known ents slots)
    | inr (e, l) ↦ rw (Known, occupants, l) ((id, l), occupants-Known ents slots)
  ]

  keep-Known :
      (ents : Map (Entity F)) (f : Entity F → Bool) (es : List (Entity F))
      → Known ents es
      → Known ents (keep f es)
  keep-Known ents f [] k = _
  keep-Known ents f (e ∷ es) (at_e, k) = elim (Bool-cases (f e)) [
    | inl stays ↦ rw stays (at_e, keep-Known ents f es k)
    | inr goes ↦ rw goes (keep-Known ents f es k)
  ]

  keep-same :
      (ents : Map (Entity F)) (f g : Entity F → Bool) (es : List (Entity F))
      → Known ents es
      → ((i : ℕ) (e : Entity F) → lookup i ents ≡ some e → f e ≡ g e)
      → keep f es ≡ keep g es
  keep-same ents f g [] k h = refl
  keep-same ents f g (e ∷ es) ((i, l), k) h =
      let rest = keep-same ents f g es k h in
      let one = h i e l in
      elim (Bool-cases (g e)) [
        | inl stays ↦ rw (one, stays) (ap (λ t. e ∷ t) rest)
        | inr goes ↦ rw (one, goes) rest
      ]

module _ {F S : Type 0} (fl : Float F) (f32 : Float S) (float32 : F → S) where
  -- The rows without a cache: each pair is asked for when it is needed.
  abbrev pub asked_rows : Plane F → List (Entity F) → List (Entity F) → List (PeersRow F)
  asked_rows p sources [] = []
  asked_rows p sources (k ∷ ks) =
      record { listener = k; peers = keep (λ s. (resolve_pair fl f32 float32 p s k).0) sources }
      ∷ asked_rows p sources ks

  abbrev pub hearing : Plane F → List (PeersRow F)
  hearing p =
      let all = occupants p.ents p.slots in
      asked_rows p (keep (λ e. not (is_none e.src)) all) (keep listening all)

  rows-same :
      (r : Render F S) (sources ks : List (Entity F))
      → Cached fl f32 float32 r.plane r.pairs
      → r.plane.audible_dirty ≡ false
      → Known r.plane.ents sources
      → Known r.plane.ents ks
      → peers_rows fl f32 float32 r sources ks ≡ asked_rows r.plane sources ks
  unfolding peers_rows
  rows-same r sources [] v clean ss ls = refl
  rows-same r sources (k ∷ ks) v clean ss ((j, l), ls) =
      let same =
        keep-same r.plane.ents (λ s. (r.pairs k.slot s.slot).0)
          (λ s. (resolve_pair fl f32 float32 r.plane s k).0) sources ss
          (λ i e at_e.
            ap (λ x. x.0) {x = r.pairs k.slot e.slot} {y = resolve_pair fl f32 float32 r.plane e k}
              (v.right clean i j e k at_e l)) in
      rw (same, rows-same r sources ks v clean ss ls) refl

  -- The flag is read by no pair.
  resolve_clean :
      (p : Plane F) (s k : Entity F)
      → resolve_pair fl f32 float32 (record p { audible_dirty = false }) s k
        ≡ resolve_pair fl f32 float32 p s k
  unfolding resolve_pair personal
  resolve_clean p s k = refl

  recompute-Good :
      (n : ℕ) (r : Render F S)
      → Sound n r.plane
      → let r' = recompute_audible fl f32 float32 r in
        Good fl f32 float32 n r'.pairs r'.plane × (r'.plane.audible_dirty ≡ false)
  unfolding recompute_audible
  recompute-Good n r v = (
    record {
      sound = record {
        size = v.size;
        distinct = v.distinct;
        seated = v.seated;
        counted = v.counted;
      };
      cached = record {
        right = λ clean i j s k ls lk.
            rows-set fl f32 float32 r.plane s k i j r.plane.ents r.plane.ents r.pairs v.distinct
              (Sound-Alone i v ls) ls v.distinct (Sound-Alone j v lk) lk
            ∙ sym (resolve_clean r.plane s k);
      };
    },
    refl,
  )

  recompute-Same :
      (r : Render F S)
      → let r' = recompute_audible fl f32 float32 r in
        (r'.plane ≡ record r.plane { audible_dirty = false })
        × (r'.tick_count ≡ r.tick_count)
        × (r'.frame_start ≡ r.frame_start)
  unfolding recompute_audible
  recompute-Same r = (refl, refl, refl)

  -- A tick's clock.
  pub record InTime (r : Render F S) : Type 0 where
    pub good : (n : ℕ) × Good fl f32 float32 n r.pairs r.plane
    pub clock : (r.tick_count ≡ 0) ⊎ (r.frame_start + frame_size ≡ r.tick_count * frame_size)

  -- What ticks lead to from a new mixer, whatever changes the queue holds.
  pub data Ticks : Render F S → Type 0 where
    opens : (max_entities order : ℕ) → Ticks (new_render fl f32 max_entities order)
    ticks :
        {r r' : Render F S} (cs : List (Change F)) (rows : List (PeersRow F))
        → process fl f32 float32 cs r ≡ some (r', rows)
        → Ticks r
        → Ticks r'

  -- A render whose record is in order, and its rows.
  shown :
      (n : ℕ) (r : Render F S)
      → Good fl f32 float32 n r.pairs r.plane
      → r.plane.audible_dirty ≡ false
      → let all = occupants r.plane.ents r.plane.slots in
        peers_rows fl f32 float32 r (keep (λ e. not (is_none e.src)) all) (keep listening all)
        ≡ hearing r.plane
  shown n r v clean =
      let all = occupants r.plane.ents r.plane.slots in
      let known = occupants-Known r.plane.ents r.plane.slots in
      rows-same r (keep (λ e. not (is_none e.src)) all) (keep listening all) v.cached clean
        (keep-Known r.plane.ents (λ e. not (is_none e.src)) all known)
        (keep-Known r.plane.ents listening all known)

  prepared :
      (cs : List (Change F)) (r : Render F S) (p : Plane F)
      → InTime r
      → drain_changes fl cs r.plane ≡ some p
      → (r' : Render F S) × (process fl f32 float32 cs r ≡ some (r', hearing r'.plane))
        × InTime r'
        × (r'.plane ≡ record p { audible_dirty = false })
        × (r'.tick_count ≡ r.tick_count + 1)
        × (r'.frame_start + frame_size ≡ r'.tick_count * frame_size)
  unfolding process
  prepared cs r p v d =
      let (n, g) = v.good in
      let g1 = drain-Good fl f32 float32 n r.pairs cs r.plane p g d in
      let ticked : Render F S = record r {
        plane = p;
        tick_count = r.tick_count + 1;
        frame_start = r.tick_count * frame_size;
      } in
      let clock : ticked.frame_start + frame_size ≡ ticked.tick_count * frame_size = omega arith in
      let rows : Render F S → List (PeersRow F) = λ x.
        peers_rows fl f32 float32 x
          (keep (λ e. not (is_none e.src)) (occupants x.plane.ents x.plane.slots))
          (keep listening (occupants x.plane.ents x.plane.slots)) in
      elim (Bool-cases p.audible_dirty) [
        | inr clean ↦
            let step : process fl f32 float32 cs r ≡ some (ticked, rows ticked) =
              rw (process, d, clean) refl in
            (
              ticked,
              step ∙ ap (λ x. some (ticked, x)) (shown n ticked g1 clean),
              record { good = (n, g1); clock = inr clock },
              ap (λ b. record p { audible_dirty = b }) clean,
              refl,
              clock,
            )
        | inl dirty ↦
            let again = recompute_audible fl f32 float32 ticked in
            let step : process fl f32 float32 cs r ≡ some (again, rows again) =
              rw (process, d, dirty) refl in
            let (g2, clean) = recompute-Good n ticked g1.sound in
            let (plane, count, start) = recompute-Same ticked in
            let clock2 : again.frame_start + frame_size ≡ again.tick_count * frame_size =
              rw (count, start) clock in
            (
              again,
              step ∙ ap (λ x. some (again, x)) (shown n again g2 clean),
              record { good = (n, g2); clock = inr clock2 },
              plane,
              count,
              clock2,
            )
      ]

  fresh-InTime : (max_entities order : ℕ) → InTime (new_render fl f32 max_entities order)
  unfolding new_render new_mixer lookup Distinct
  fresh-InTime max_entities order = record {
    good = (
      max_entities,
      record {
        sound = record {
          size = length-replicate max_entities none;
          distinct = _;
          seated = λ id e l. absurd (ground (arith, l));
          counted = taken-replicate max_entities;
        };
        cached = record { right = λ clean i j s k ls lk. absurd (ground (arith, ls)) };
      },
    );
    clock = inl refl;
  }

  stuck :
      (cs : List (Change F)) (r r' : Render F S) (rows : List (PeersRow F))
      → drain_changes fl cs r.plane ≡ none
      → process fl f32 float32 cs r ≡ some (r', rows)
      → ⊥
  unfolding process
  stuck cs r r' rows l e = ground (arith, rw (process, l) at e)

  Ticks-InTime : {r : Render F S} → Ticks r → InTime r
  Ticks-InTime (opens max_entities order) = fresh-InTime max_entities order
  Ticks-InTime (ticks {r = r} {r' = r'} cs rows e t) =
      let v = Ticks-InTime t in
      elim (Option-cases (drain_changes fl cs r.plane)) [
        | inl l ↦ absurd (stuck cs r r' rows l e)
        | inr (p, l) ↦
            let (r1, is, good, plane, count, clock) = prepared cs r p v l in
            let both : some (r1, hearing r1.plane) ≡ some (r', rows) = sym is ∙ e in
            subst InTime {x = r1} {y = r'} (cc both) good
      ]

  -- After any ticks from a new mixer, whatever changes their queues held, a tick whose changes do
  -- not panic does not panic, and gives each listener of the slots the sources that resolvePair itself
  -- lets it hear now, in the order of the slots, whether or not the pair record was rebuilt. The
  -- changes are done and no rebuilding is left, and the tick is counted: its frame ends where the
  -- tick count times the frame size is.
  pub process_lem :
      (cs : List (Change F)) (r : Render F S) (p : Plane F)
      → Ticks r
      → drain_changes fl cs r.plane ≡ some p
      → (r' : Render F S) × (process fl f32 float32 cs r ≡ some (r', hearing r'.plane))
        × Ticks r'
        × (r'.plane ≡ record p { audible_dirty = false })
        × (r'.tick_count ≡ r.tick_count + 1)
        × (r'.frame_start + frame_size ≡ r'.tick_count * frame_size)
  process_lem cs r p t d =
      let (r', is, good, plane, count, clock) = prepared cs r p (Ticks-InTime t) d in
      (r', is, ticks cs (hearing r'.plane) is t, plane, count, clock)
