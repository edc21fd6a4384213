-- ===== src/Engine/Plane/Personal.antt =====
-- setPersonal: a set of ids per owner, kept without empty sets.
use panaudia_lasa.Prelude.{
  ℕ, ◌≡◌, ◌≢◌, refl, sym, ap, ◌∙◌, inl, inr, Bool, true, false, Option, none, some, List, [], ◌∷◌,
  arith, ◌==◌, if◌then◌else◌, Bool-cases,
}
use panaudia_lasa.Prelude.Map.{
  Map, lookup, put, delete, Distinct, lookup-put, lookup-put_ne, lookup-delete, lookup-delete_ne,
  put-Distinct, delete-Distinct,
}
use panaudia_lasa.Engine.Plane.{member, without, members, is_empty, set_personal}

nobody : (x : ℕ) (xs : List ℕ) → is_empty xs ≡ true → member x xs ≡ false
nobody x [] e = refl
nobody x (y ∷ ys) e = absurd (ground (arith, e))

members-put : (k : ℕ) (s : List ℕ) (m : Map (List ℕ)) → members k (put k s m) ≡ s
members-put k s m = rw (members, lookup-put k s m) refl

members-delete : (k : ℕ) (m : Map (List ℕ)) → Distinct m → members k (delete k m) ≡ []
members-delete k m d = rw (members, lookup-delete k m d) refl

same-member : (x y : ℕ) (xs : List ℕ) → x == y ≡ true → member x xs ≡ member y xs
same-member x y [] e = refl
same-member x y (z ∷ zs) e = ground (arith, e, same-member x y zs e)

pub add-member :
    (x other : ℕ) (s : List ℕ)
    → member x (if member other s then s else other ∷ s) ≡ (if x == other then true else member x s)
add-member x other s = elim (Bool-cases (x == other)) [
  | inl e ↦ ground (arith, e, same-member x other s e)
  | inr e ↦ ground (arith, e)
]

pub without-member :
    (x other : ℕ) (s : List ℕ)
    → member x (without other s) ≡ (if x == other then false else member x s)
without-member x other [] = ground arith
without-member x other (z ∷ zs) = ground (arith, without-member x other zs)

-- A set that would be left empty is deleted, which its owner does not see.
kept :
    (k : ℕ) (s : List ℕ) (m : Map (List ℕ)) (x : ℕ)
    → Distinct m
    → member x (members k (if is_empty s then delete k m else put k s m)) ≡ member x s
kept k [] m x d = rw (members-delete k m d) refl
kept k (y ∷ ys) m x d = rw (members-put k (y ∷ ys) m) refl

owner_set :
    (owner other x : ℕ) (on : Bool) (m : Map (List ℕ))
    → Distinct m
    → member x (members owner (set_personal owner other on m))
      ≡ (if x == other then on else member x (members owner m))
unfolding set_personal
owner_set owner other x true m d =
    ap (member x) (
      members-put owner
        (if member other (members owner m) then members owner m else other ∷ members owner m) m)
    ∙ add-member x other (members owner m)
owner_set owner other x false m d =
    kept owner (without other (members owner m)) m x d ∙ without-member x other (members owner m)

other_owner :
    (owner j other : ℕ) (on : Bool) (m : Map (List ℕ))
    → owner ≢ j
    → members j (set_personal owner other on m) ≡ members j m
unfolding set_personal
other_owner owner j other true m ne =
    rw
      (
        members,
        lookup-put_ne j owner
            (if member other (members owner m) then members owner m else other ∷ members owner m) m
            ne,
      )
      refl
other_owner owner j other false m ne =
    elim (Bool-cases (is_empty (without other (members owner m)))) [
      | inl e ↦ rw (members, e, lookup-delete_ne j owner m ne) refl
      | inr e ↦ rw (members, e, lookup-put_ne j owner (without other (members owner m)) m ne) refl
    ]

set_personal-Distinct :
    (owner other : ℕ) (on : Bool) (m : Map (List ℕ))
    → Distinct m
    → Distinct (set_personal owner other on m)
unfolding set_personal
set_personal-Distinct owner other true m d = put-Distinct owner _ m d
set_personal-Distinct owner other false m d =
    elim (Bool-cases (is_empty (without other (members owner m)))) [
      | inl e ↦ rw e (delete-Distinct owner m d)
      | inr e ↦ rw e (put-Distinct owner _ m d)
    ]

abbrev pub stored_empty : Option (List ℕ) → Bool
stored_empty none = false
stored_empty (some s) = is_empty s

-- No owner is kept with an empty set.
unfoldable pub NoEmpty : Map (List ℕ) → Type 0
NoEmpty m = (k : ℕ) → stored_empty (lookup k m) ≡ false

member-NonEmpty : (x : ℕ) (s : List ℕ) → member x s ≡ true → is_empty s ≡ false
member-NonEmpty x [] e = absurd (ground (arith, e))
member-NonEmpty x (y ∷ ys) e = refl

put-NoEmpty :
    (k : ℕ) (s : List ℕ) (m : Map (List ℕ)) → is_empty s ≡ false → NoEmpty m → NoEmpty (put k s m)
unfolding NoEmpty
put-NoEmpty k s m full h j = elim (Bool-cases (k == j)) [
  | inl e ↦
      let same : k ≡ j = ground (arith, e) in
      ap (λ i. stored_empty (lookup i (put k s m))) (sym same)
      ∙ ap stored_empty (lookup-put k s m)
      ∙ full
  | inr e ↦ ap stored_empty (lookup-put_ne j k s m (ground (arith, e))) ∙ h j
]

delete-NoEmpty : (k : ℕ) (m : Map (List ℕ)) → Distinct m → NoEmpty m → NoEmpty (delete k m)
unfolding NoEmpty
delete-NoEmpty k m d h j = elim (Bool-cases (k == j)) [
  | inl e ↦
      let same : k ≡ j = ground (arith, e) in
      ap (λ i. stored_empty (lookup i (delete k m))) (sym same)
      ∙ ap stored_empty (lookup-delete k m d)
  | inr e ↦ ap stored_empty (lookup-delete_ne j k m (ground (arith, e))) ∙ h j
]

added-NonEmpty :
    (other : ℕ) (s : List ℕ) → is_empty (if member other s then s else other ∷ s) ≡ false
added-NonEmpty other s = elim (Bool-cases (member other s)) [
  | inl e ↦ rw e (member-NonEmpty other s e)
  | inr e ↦ rw e refl
]

set_personal-NoEmpty :
    (owner other : ℕ) (on : Bool) (m : Map (List ℕ))
    → Distinct m
    → NoEmpty m
    → NoEmpty (set_personal owner other on m)
unfolding set_personal
set_personal-NoEmpty owner other true m d h =
    put-NoEmpty owner _ m (added-NonEmpty other (members owner m)) h
set_personal-NoEmpty owner other false m d h =
    elim (Bool-cases (is_empty (without other (members owner m)))) [
      | inl e ↦ rw e (delete-NoEmpty owner m d h)
      | inr e ↦ rw e (put-NoEmpty owner _ m e h)
    ]

member_after :
    (owner other : ℕ) (on : Bool) (m : Map (List ℕ)) (j x : ℕ)
    → Distinct m
    → member x (members j (set_personal owner other on m)) ≡ (
        if owner == j
        then (if x == other then on else member x (members j m))
        else member x (members j m))
member_after owner other on m j x d = elim (Bool-cases (owner == j)) [
  | inl e ↦
      let same : owner ≡ j = ground (arith, e) in
      rw e (
        ap (λ i. member x (members i (set_personal owner other on m))) (sym same)
        ∙ owner_set owner other x on m d
        ∙ ap (λ i. if x == other then on else member x (members i m)) same)
  | inr e ↦ rw e (ap (member x) (other_owner owner j other on m (ground (arith, e))))
]

-- Of a map that keeps one set for an owner and no empty one, setting a
-- personal mute or solo keeps both, and changes the membership of that one
-- id in that one owner's set, to what was asked for, and no other.
pub set_personal_lem :
    (owner other : ℕ) (on : Bool) (m : Map (List ℕ))
    → Distinct m
    → NoEmpty m
    → Distinct (set_personal owner other on m)
      × NoEmpty (set_personal owner other on m)
      × ((j x : ℕ)
          → member x (members j (set_personal owner other on m)) ≡ (
              if owner == j
              then (if x == other then on else member x (members j m))
              else member x (members j m)))
set_personal_lem owner other on m d h = (
  set_personal-Distinct owner other on m d,
  set_personal-NoEmpty owner other on m d h,
  λ j x. member_after owner other on m j x d,
)
