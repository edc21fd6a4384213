-- ===== src/Engine/Mixer/Released.antt =====
-- Close's pass over the slots of engine/engine/mixer.go: an entity that it visits renders nothing after
-- it, and the sinks that it had are in the log of what is released.
use panaudia_lasa.Prelude.{
  ℕ, zero, suc, ◌≡◌, ◌≢◌, refl, sym, ap, ◌∙◌, ◌⊎◌, inl, inr, Option, none, some, List, [], ◌∷◌,
  ◌++◌, arith, Option-cases, ◌==◌, true, false, Bool-cases, get_elem?,
}
use panaudia_lasa.Prelude.Map.{Map, Distinct, lookup, put, lookup-put, lookup-put_ne}
use panaudia_lasa.Engine.Plane.{Entity, Plane, member, some_of}
use panaudia_lasa.Engine.Mixer.{RegEntry, handles, release, release_slots}
use panaudia_lasa.Engine.Mixer.Agree.{entry}

-- A released sink stays in the log, and the sink of a released entity enters it.
member_after : (h : ℕ) (xs ys : List ℕ) → member h ys ≡ true → member h (xs ++ ys) ≡ true
member_after h [] ys m = m
member_after h (x ∷ xs) ys m = ground (arith, member_after h xs ys m)

member_before : (h : ℕ) (xs ys : List ℕ) → member h xs ≡ true → member h (xs ++ ys) ≡ true
member_before h [] ys m = absurd (cc)
member_before h (x ∷ xs) ys m = ground (arith, member_before h xs ys)

-- All of these are in the log.
abbrev pub AllIn : List ℕ → List ℕ → Type 0
AllIn log [] = Unit
AllIn log (h ∷ hs) = (member h log ≡ true) × AllIn log hs

pub member-AllIn :
    (log hs : List ℕ) → ((h : ℕ) → member h hs ≡ true → member h log ≡ true) → AllIn log hs
member-AllIn log [] all = _
member-AllIn log (h ∷ hs) all =
    (all h (ground arith), member-AllIn log hs (λ g m. all g (ground (arith, m))))

-- The sink and the ambisonic sinks of an entry, and all those of a registry, are in the log.
abbrev pub sinks_of : RegEntry → List ℕ
sinks_of r = some_of r.sink ++ handles r.ambi

abbrev pub Released : List ℕ → Map RegEntry → Type 0
Released log [] = Unit
Released log ((k, r) ∷ reg) = AllIn log (sinks_of r) × Released log reg

pub lookup-Released :
    (log : List ℕ) (reg : Map RegEntry)
    → Distinct reg
    → ((k : ℕ) (r : RegEntry) → lookup k reg ≡ some r → AllIn log (sinks_of r))
    → Released log reg
unfolding lookup Distinct
lookup-Released log [] d each = _
lookup-Released log ((k, r) ∷ reg) (fresh, d) each = (
  each k r (ground arith),
  lookup-Released log reg d (λ j q at. each j q (elim (Bool-cases (j == k)) [
    | inl same ↦ let is : j ≡ k = ground arith in absurd (ground (arith, fresh, at, is))
    | inr other ↦ rw other at
  ])),
)

module _ {F : Type 0} where
  -- The entity under `k`, if there is one, renders nothing.
  abbrev pub Idle : ℕ → Plane F → Type 0
  Idle k p =
      (e : Entity F)
      → lookup k p.ents ≡ some e
      → (e.sink ≡ none) × (e.ambi_sinks ≡ []) × (e.ambi_enc ≡ false)

  -- The sink `h` of the entity under `k` is attached to it or released.
  unfoldable pub Owed : ℕ → ℕ → Plane F → Type 0
  Owed k h p =
      ((e : Entity F) × (lookup k p.ents ≡ some e) × (member h (sinks_of (entry e)) ≡ true))
      ⊎ (member h p.destroyed ≡ true)

  release_absent : (j : ℕ) (p : Plane F) → lookup j p.ents ≡ none → release j p ≡ p
  unfolding release
  release_absent j p l = rw (release, l) refl

  abbrev idle : Entity F → Entity F
  idle e = record e { sink = none; ambi_sinks = []; ambi_enc = false }

  release_present :
      (j : ℕ) (p : Plane F) (e : Entity F)
      → lookup j p.ents ≡ some e
      → release j p ≡ record p {
        ents = put j (idle e) p.ents;
        destroyed = (some_of e.sink ++ handles e.ambi_sinks) ++ p.destroyed;
      }
  unfolding release
  release_present j p e l = rw (release, l) refl

  release_self : (k : ℕ) (p : Plane F) → Idle k (release k p)
  release_self k p = elim (Option-cases (lookup k p.ents)) [
    | inl l ↦ rw (release_absent k p l) (λ e h. absurd (ground (arith, l, h)))
    | inr (e, l) ↦ rw (release_present k p e l) (λ f h.
        let is : idle e ≡ f = ground (arith, lookup-put k (idle e) p.ents, h) in
        (ap (λ x. x.sink) (sym is), ap (λ x. x.ambi_sinks) (sym is), ap (λ x. x.ambi_enc) (sym is)))
  ]

  release_other : (j k : ℕ) (p : Plane F) → j ≢ k → lookup k (release j p).ents ≡ lookup k p.ents
  release_other j k p ne = elim (Option-cases (lookup j p.ents)) [
    | inl l ↦ rw (release_absent j p l) refl
    | inr (e, l) ↦ rw (release_present j p e l) (lookup-put_ne k j (idle e) p.ents ne)
  ]

  release-Idle : (j k : ℕ) (p : Plane F) → Idle k p → Idle k (release j p)
  release-Idle j k p v = elim (Bool-cases (j == k)) [
    | inl same ↦ let at : j ≡ k = ground arith in rw at (release_self k p)
    | inr other ↦
        let ne : j ≢ k = λ q. ground (arith, q) in λ e h. v e (sym (release_other j k p ne) ∙ h)
  ]

  pub release_slots-Idle :
      (k : ℕ) (xs : List (Option ℕ)) (p : Plane F) → Idle k p → Idle k (release_slots xs p)
  unfolding release_slots
  release_slots-Idle k [] p v = v
  release_slots-Idle k (none ∷ xs) p v = release_slots-Idle k xs p v
  release_slots-Idle k (some j ∷ xs) p v =
      release_slots-Idle k xs (release j p) (release-Idle j k p v)

  -- A slot of `k` is enough to make its entity idle.
  pub release_slots_visit :
      (k i : ℕ) (xs : List (Option ℕ)) (p : Plane F)
      → get_elem? xs i ≡ some (some k)
      → Idle k (release_slots xs p)
  unfolding release_slots
  release_slots_visit k i [] p h = absurd (ground arith)
  release_slots_visit k zero (none ∷ xs) p h = absurd (ground arith)
  release_slots_visit k zero (some j ∷ xs) p h =
      let at : j ≡ k = ground arith in
      release_slots-Idle k xs (release j p) (rw at (release_self k p))
  release_slots_visit k (suc i) (none ∷ xs) p h = release_slots_visit k i xs p h
  release_slots_visit k (suc i) (some j ∷ xs) p h = release_slots_visit k i xs (release j p) h

  release_logs :
      (j h : ℕ) (p : Plane F)
      → member h p.destroyed ≡ true
      → member h (release j p).destroyed ≡ true
  release_logs j h p m = elim (Option-cases (lookup j p.ents)) [
    | inl l ↦ rw (release_absent j p l) m
    | inr (e, l) ↦
        rw (release_present j p e l)
          (member_after h (some_of e.sink ++ handles e.ambi_sinks) p.destroyed m)
  ]

  release_pays : (k h : ℕ) (p : Plane F) → Owed k h p → member h (release k p).destroyed ≡ true
  unfolding Owed
  release_pays k h p (inl (e, l, s)) =
      rw (release_present k p e l) (member_before h (sinks_of (entry e)) p.destroyed s)
  release_pays k h p (inr m) = release_logs k h p m

  release-Owed : (j k h : ℕ) (p : Plane F) → Owed k h p → Owed k h (release j p)
  unfolding Owed
  release-Owed j k h p v = elim (Bool-cases (j == k)) [
    | inl same ↦ let at : j ≡ k = ground arith in inr (rw at (release_pays k h p v))
    | inr other ↦
        let ne : j ≢ k = λ q. ground (arith, q) in
        elim v [
          | inl (e, l, s) ↦ inl (e, release_other j k p ne ∙ l, s)
          | inr m ↦ inr (release_logs j h p m)
        ]
  ]

  release_slots_log :
      (h : ℕ) (xs : List (Option ℕ)) (p : Plane F)
      → member h p.destroyed ≡ true
      → member h (release_slots xs p).destroyed ≡ true
  unfolding release_slots
  release_slots_log h [] p m = m
  release_slots_log h (none ∷ xs) p m = release_slots_log h xs p m
  release_slots_log h (some j ∷ xs) p m =
      release_slots_log h xs (release j p) (release_logs j h p m)

  pub release_slots_pay :
      (k h i : ℕ) (xs : List (Option ℕ)) (p : Plane F)
      → Owed k h p
      → get_elem? xs i ≡ some (some k)
      → member h (release_slots xs p).destroyed ≡ true
  unfolding release_slots
  release_slots_pay k h i [] p v g = absurd (ground arith)
  release_slots_pay k h zero (none ∷ xs) p v g = absurd (ground arith)
  release_slots_pay k h zero (some j ∷ xs) p v g =
      let at : j ≡ k = ground arith in
      release_slots_log h xs (release j p) (rw at (release_pays k h p v))
  release_slots_pay k h (suc i) (none ∷ xs) p v g = release_slots_pay k h i xs p v g
  release_slots_pay k h (suc i) (some j ∷ xs) p v g =
      release_slots_pay k h i xs (release j p) (release-Owed j k h p v) g
