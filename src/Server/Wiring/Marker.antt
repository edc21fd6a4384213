-- ===== src/Server/Wiring/Marker.antt =====
-- markerEntity: which keys are existence markers.
use panaudia_lasa.Prelude.{
  ℕ, ◌≡◌, ◌↔◌, refl, sym, ap, ◌∙◌, inl, inr, true, false, some, List, [], ◌∷◌, ◌++◌, arith, ◌||◌,
  length, drop, Bool-cases,
}
use panaudia_lasa.Engine.Plane.{is_empty, member}
use panaudia_lasa.Server.Wiring.{marker_prefix, has_prefix, id_after, marker_entity}

has_prefix-append : (ps xs : List ℕ) → has_prefix ps (ps ++ xs) ≡ true
has_prefix-append [] xs = refl
has_prefix-append (p ∷ ps) xs = ground (arith, has_prefix-append ps xs)

drop-append : (ps xs : List ℕ) → drop (length ps) (ps ++ xs) ≡ xs
drop-append [] xs = refl
drop-append (p ∷ ps) xs = drop-append ps xs

has_prefix-split : (ps key : List ℕ) → has_prefix ps key ≡ true → key ≡ ps ++ drop (length ps) key
has_prefix-split [] key h = refl
has_prefix-split (p ∷ ps) [] h = absurd (ground (arith, h))
has_prefix-split (p ∷ ps) (c ∷ key) h = ground (arith, h, has_prefix-split ps key)

id_after_lem :
    (prefix key id : List ℕ)
    → (id_after prefix key ≡ some id)
      ↔ ((key ≡ prefix ++ id) × (is_empty id ≡ false) × (member b'.' id ≡ false))
unfolding id_after
id_after_lem prefix key id = (
  λ h. elim (Bool-cases (has_prefix prefix key)) [
    | inr off ↦ absurd (ground (arith, rw off at h))
    | inl on ↦
        elim (Bool-cases
          (is_empty (drop (length prefix) key) || member b'.' (drop (length prefix) key))) [
            | inl bad ↦ absurd (ground (arith, rw (on, bad) at h))
            | inr good ↦
                let same : some (drop (length prefix) key) ≡ some id = rw (on, good) at h in
                let it : drop (length prefix) key ≡ id = cc same in
                let t = drop (length prefix) key in
                let full : is_empty t ≡ false = ground (arith, good) in
                let dotless : member b'.' t ≡ false = ground (arith, good) in
                (
                  has_prefix-split prefix key on ∙ ap (λ u. prefix ++ u) it,
                  ap is_empty (sym it) ∙ full,
                  ap (member b'.') (sym it) ∙ dotless,
                )
          ]
  ],
  λ (split, full, dotless).
      rw (split, has_prefix-append prefix id, drop-append prefix id, full, dotless) refl,
)

-- A key names an entity's existence marker exactly when it is the prefix `lasa.entity.` before an id
-- that is not empty and has no dot.
pub marker_entity_lem :
    (key id : List ℕ)
    → (marker_entity key ≡ some id)
      ↔ ((key ≡ marker_prefix ++ id) × (is_empty id ≡ false) × (member b'.' id ≡ false))
unfolding marker_entity
marker_entity_lem key id = id_after_lem marker_prefix key id
