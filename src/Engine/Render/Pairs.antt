-- ===== src/Engine/Render/Pairs.antt =====
-- recomputeAudible: the pair record of every two entities is what resolvePair says.
use panaudia_lasa.Prelude.{
  ℕ, ◌≡◌, refl, sym, ap, ◌∙◌, inl, inr, true, ◌&&◌, some, [], ◌∷◌, arith, ◌==◌, Bool-cases,
  get_elem?,
}
use panaudia_lasa.Prelude.Float.{Float}
use panaudia_lasa.Prelude.Map.{Map, lookup, Distinct}
use panaudia_lasa.Engine.Plane.{Entity, Plane}
use panaudia_lasa.Engine.Plane.Sound.{Sound}
use panaudia_lasa.Engine.Channels.{resolve_pair}
use panaudia_lasa.Engine.Render.{Table, set_cell, fill_row, fill_rows}

module _ {F : Type 0} where
  -- Entities that share a slot with `s` are `s`.
  abbrev pub Alone : Entity F → Map (Entity F) → Type 0
  Alone s ents = (i : ℕ) (e : Entity F) → lookup i ents ≡ some e → e.slot ≡ s.slot → e ≡ s

  -- Of a map with distinct keys, what stands in the rest stands in the whole.
  Alone-rest :
      (s e : Entity F) (i : ℕ) (ents : Map (Entity F))
      → Distinct ((i, e) ∷ ents)
      → Alone s ((i, e) ∷ ents)
      → (e.slot ≡ s.slot → e ≡ s) × Alone s ents
  unfolding Distinct lookup
  Alone-rest s e i ents (fresh, d) h = (
    h i e (let here : (i == i) ≡ true = ground arith in rw here refl),
    λ j f l. h j f (elim (Bool-cases (j == i)) [
      | inl same ↦
          let it : j ≡ i = ground (arith, same) in absurd (ground (arith, fresh, rw it at l))
      | inr other ↦ rw other l
    ]),
  )

  pub Sound-Alone :
      {n : ℕ} {p : Plane F} {s : Entity F} (j : ℕ)
      → Sound n p
      → lookup j p.ents ≡ some s
      → Alone s p.ents
  Sound-Alone {p = p} {s = s} j v l i e li same =
      let a = v.seated i e li in
      let b = v.seated j s l in
      let seats : some (some i) ≡ some (some j) =
        sym a.seat ∙ ap (get_elem? p.slots) same ∙ b.seat in
      let it : i ≡ j = ground (arith, seats) in
      let both : some e ≡ some s = sym li ∙ ap (λ x. lookup x p.ents) it ∙ l in cc both

module _ {F S : Type 0} (fl : Float F) (f32 : Float S) (float32 : F → S) (p : Plane F)
    (s0 k0 : Entity F) where
  -- The record of the pair.
  abbrev pub Right : Table F S → Type 0
  Right t = t k0.slot s0.slot ≡ resolve_pair fl f32 float32 p s0 k0

  cell-Right :
      (s k : Entity F) (t : Table F S)
      → (s.slot ≡ s0.slot → s ≡ s0)
      → (k.slot ≡ k0.slot → k ≡ k0)
      → Right t
      → Right (set_cell t k.slot s.slot (resolve_pair fl f32 float32 p s k))
  cell-Right s k t hs hk h = elim (Bool-cases (k0.slot == k.slot && s0.slot == s.slot)) [
    | inl hit ↦
        let is_k : k ≡ k0 = hk (ground (arith, hit)) in
        let is_s : s ≡ s0 = hs (ground (arith, hit)) in
        rw hit (
          ap (λ x. resolve_pair fl f32 float32 p x k) is_s
          ∙ ap (resolve_pair fl f32 float32 p s0) is_k)
    | inr miss ↦ rw miss h
  ]

  cell-set :
      (t : Table F S) → Right (set_cell t k0.slot s0.slot (resolve_pair fl f32 float32 p s0 k0))
  cell-set t =
      let a : (k0.slot == k0.slot) ≡ true = ground arith in
      let b : (s0.slot == s0.slot) ≡ true = ground arith in rw (a, b) refl

  row-Right :
      (k : Entity F) (ents : Map (Entity F)) (t : Table F S)
      → Distinct ents
      → Alone s0 ents
      → (k.slot ≡ k0.slot → k ≡ k0)
      → Right t
      → Right (fill_row fl f32 float32 p k ents t)
  unfolding fill_row Distinct
  row-Right k [] t d alone hk h = h
  row-Right k ((i, s) ∷ ents) t d alone hk h =
      let (hs, rest) = Alone-rest s0 s i ents d alone in
      row-Right k ents (set_cell t k.slot s.slot (resolve_pair fl f32 float32 p s k)) d.1 rest hk
        (cell-Right s k t hs hk h)

  row-set :
      (j : ℕ) (ents : Map (Entity F)) (t : Table F S)
      → Distinct ents
      → Alone s0 ents
      → lookup j ents ≡ some s0
      → Right (fill_row fl f32 float32 p k0 ents t)
  unfolding fill_row Distinct lookup
  row-set j [] t d alone l = absurd (ground (arith, l))
  row-set j ((i, s) ∷ ents) t d alone l =
      let (hs, rest) = Alone-rest s0 s i ents d alone in
      elim (Bool-cases (j == i)) [
        | inl here ↦
            let it : s ≡ s0 = ground (arith, rw here at l) in
            row-Right k0 ents (set_cell t k0.slot s.slot (resolve_pair fl f32 float32 p s k0)) d.1
              rest (λ q. refl) (rw it (cell-set t))
        | inr later ↦
            row-set j ents (set_cell t k0.slot s.slot (resolve_pair fl f32 float32 p s k0)) d.1 rest
              (rw later at l)
      ]

  rows-Right :
      (all ents : Map (Entity F)) (t : Table F S)
      → Distinct all
      → Alone s0 all
      → Distinct ents
      → Alone k0 ents
      → Right t
      → Right (fill_rows fl f32 float32 p all ents t)
  unfolding fill_rows Distinct
  rows-Right all [] t da sa d alone h = h
  rows-Right all ((i, k) ∷ ents) t da sa d alone h =
      let (hk, rest) = Alone-rest k0 k i ents d alone in
      rows-Right all ents (fill_row fl f32 float32 p k all t) da sa d.1 rest
        (row-Right k all t da sa hk h)

  pub rows-set :
      (i j : ℕ) (all ents : Map (Entity F)) (t : Table F S)
      → Distinct all
      → Alone s0 all
      → lookup i all ≡ some s0
      → Distinct ents
      → Alone k0 ents
      → lookup j ents ≡ some k0
      → Right (fill_rows fl f32 float32 p all ents t)
  unfolding fill_rows Distinct lookup
  rows-set i j all [] t da sa ls d alone l = absurd (ground (arith, l))
  rows-set i j all ((n, k) ∷ ents) t da sa ls d alone l =
      let (hk, rest) = Alone-rest k0 k n ents d alone in
      elim (Bool-cases (j == n)) [
        | inl here ↦
            let it : k ≡ k0 = ground (arith, rw here at l) in
            rows-Right all ents (fill_row fl f32 float32 p k all t) da sa d.1 rest
              (rw it (row-set i all t da sa ls))
        | inr later ↦
            rows-set i j all ents (fill_row fl f32 float32 p k all t) da sa ls d.1 rest
              (rw later at l)
      ]
