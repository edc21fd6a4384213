-- ===== src/Prelude/Lists.antt =====
-- Lists measured and indexed by native numbers, under the library's names.
use Prim.Native.Nat.{ℕ, zero, suc, ◌+◌, ◌-◌, ◌≤◌, ◌<◌, min}
use mathlib.Core.Path.{◌≡◌, refl, ap}
use mathlib.Core.Logic.{◌≢◌}
use mathlib.Core.List.{List, [], ◌∷◌, ◌++◌, map}
use mathlib.Core.Option.{Option, none, some}
use native.Mathlib.Omega.{arith}

module _ {ℓ} {A : Type ℓ} where
  abbrev pub length : List A → ℕ
  length [] = 0
  length (x ∷ xs) = suc (length xs)

  abbrev pub get_elem? : List A → ℕ → Option A
  get_elem? [] i = none
  get_elem? (x ∷ xs) zero = some x
  get_elem? (x ∷ xs) (suc i) = get_elem? xs i

  -- A write out of bounds changes nothing.
  abbrev pub set : List A → ℕ → A → List A
  set [] i v = []
  set (x ∷ xs) zero v = v ∷ xs
  set (x ∷ xs) (suc i) v = x ∷ set xs i v

  pub length-append : (xs ys : List A) → length (xs ++ ys) ≡ length xs + length ys
  length-append [] ys = omega arith
  length-append (x ∷ xs) ys = omega (arith, length-append xs ys)

module _ {ℓ} {A : Type ℓ} where
  pub length-set : (xs : List A) (i : ℕ) (v : A) → length (set xs i v) ≡ length xs
  length-set [] i v = refl
  length-set (x ∷ xs) zero v = refl
  length-set (x ∷ xs) (suc i) v = ap suc (length-set xs i v)

  pub get_elem?-set_self :
      (xs : List A) (i : ℕ) (v : A) → i < length xs → get_elem? (set xs i v) i ≡ some v
  get_elem?-set_self [] i v h = elim h [ ]
  get_elem?-set_self (x ∷ xs) zero v h = refl
  get_elem?-set_self (x ∷ xs) (suc i) v h = get_elem?-set_self xs i v (omega arith)

  pub get_elem?-set_ne :
      (xs : List A) {i j : ℕ} (v : A) → i ≢ j → get_elem? (set xs i v) j ≡ get_elem? xs j
  get_elem?-set_ne [] v h = refl
  get_elem?-set_ne (x ∷ xs) {i = zero} {j = zero} v h = absurd (h refl)
  get_elem?-set_ne (x ∷ xs) {i = zero} {j = suc j} v h = refl
  get_elem?-set_ne (x ∷ xs) {i = suc i} {j = zero} v h = refl
  get_elem?-set_ne (x ∷ xs) {i = suc i} {j = suc j} v h = get_elem?-set_ne xs v (λ e. h (ap suc e))

module _ {ℓ} {A : Type ℓ} where
  abbrev pub get_or : List A → ℕ → A → A
  get_or [] i d = d
  get_or (x ∷ xs) zero d = x
  get_or (x ∷ xs) (suc i) d = get_or xs i d

  abbrev pub take : ℕ → List A → List A
  take zero xs = []
  take (suc n) [] = []
  take (suc n) (x ∷ xs) = x ∷ take n xs

  abbrev pub drop : ℕ → List A → List A
  drop zero xs = xs
  drop (suc n) [] = []
  drop (suc n) (x ∷ xs) = drop n xs

  abbrev pub replicate : ℕ → A → List A
  replicate zero a = []
  replicate (suc n) a = a ∷ replicate n a

  pub take-append-drop : (n : ℕ) (xs : List A) → take n xs ++ drop n xs ≡ xs
  take-append-drop zero xs = refl
  take-append-drop (suc n) [] = refl
  take-append-drop (suc n) (x ∷ xs) = rw (take-append-drop n xs)

  pub length-take : (n : ℕ) (xs : List A) → length (take n xs) ≡ min n (length xs)
  length-take zero xs = omega arith
  length-take (suc n) [] = omega arith
  length-take (suc n) (x ∷ xs) = omega (arith, length-take n xs)

  pub length-drop : (n : ℕ) (xs : List A) → length (drop n xs) ≡ length xs - n
  length-drop zero xs = omega arith
  length-drop (suc n) [] = omega arith
  length-drop (suc n) (x ∷ xs) = omega (arith, length-drop n xs)

  pub length-replicate : (n : ℕ) (a : A) → length (replicate n a) ≡ n
  length-replicate zero a = refl
  length-replicate (suc n) a = ap suc (length-replicate n a)

  pub length-map {κ} : {B : Type κ} (xs : List A) (f : A → B) → length (map f xs) ≡ length xs
  length-map [] f = refl
  length-map (x ∷ xs) f = ap suc (length-map xs f)

module _ {ℓ} {A : Type ℓ} where
  -- Go's `copy(xs[i:], src)`: as many items as both sides hold.
  abbrev pub overwrite : List A → ℕ → List A → List A
  overwrite [] i src = []
  overwrite (x ∷ xs) zero [] = x ∷ xs
  overwrite (x ∷ xs) zero (s ∷ src) = s ∷ overwrite xs zero src
  overwrite (x ∷ xs) (suc i) src = x ∷ overwrite xs i src

  pub length-overwrite :
      (xs : List A) (i : ℕ) (src : List A) → length (overwrite xs i src) ≡ length xs
  length-overwrite [] i src = refl
  length-overwrite (x ∷ xs) zero [] = refl
  length-overwrite (x ∷ xs) zero (s ∷ src) = ap suc (length-overwrite xs zero src)
  length-overwrite (x ∷ xs) (suc i) src = ap suc (length-overwrite xs i src)

  pub get_elem?-overwrite_before :
      (xs : List A) (i : ℕ) (src : List A) (j : ℕ)
      → j < i
      → get_elem? (overwrite xs i src) j ≡ get_elem? xs j
  get_elem?-overwrite_before [] i src j h = refl
  get_elem?-overwrite_before (x ∷ xs) zero src j h = absurd (omega arith)
  get_elem?-overwrite_before (x ∷ xs) (suc i) src zero h = refl
  get_elem?-overwrite_before (x ∷ xs) (suc i) src (suc j) h =
      get_elem?-overwrite_before xs i src j (omega arith)

  pub get_elem?-overwrite_after :
      (xs : List A) (i : ℕ) (src : List A) (j : ℕ)
      → i + length src ≤ j
      → get_elem? (overwrite xs i src) j ≡ get_elem? xs j
  get_elem?-overwrite_after [] i src j h = refl
  get_elem?-overwrite_after (x ∷ xs) zero [] j h = refl
  get_elem?-overwrite_after (x ∷ xs) zero (s ∷ src) zero h = absurd (omega arith)
  get_elem?-overwrite_after (x ∷ xs) zero (s ∷ src) (suc j) h =
      get_elem?-overwrite_after xs zero src j (omega arith)
  get_elem?-overwrite_after (x ∷ xs) (suc i) src zero h = absurd (omega arith)
  get_elem?-overwrite_after (x ∷ xs) (suc i) src (suc j) h =
      get_elem?-overwrite_after xs i src j (omega arith)

  -- The `k`-th item of the source lands at `i + k`.
  pub get_elem?-overwrite_in :
      (xs : List A) (i : ℕ) (src : List A) (k j : ℕ)
      → j ≡ i + k
      → k < length src
      → j < length xs
      → get_elem? (overwrite xs i src) j ≡ get_elem? src k
  get_elem?-overwrite_in [] i src k j e h g = absurd (omega arith)
  get_elem?-overwrite_in (x ∷ xs) zero [] k j e h g = absurd (omega arith)
  get_elem?-overwrite_in (x ∷ xs) zero (s ∷ src) zero zero e h g = refl
  get_elem?-overwrite_in (x ∷ xs) zero (s ∷ src) zero (suc j) e h g = absurd (omega arith)
  get_elem?-overwrite_in (x ∷ xs) zero (s ∷ src) (suc k) zero e h g = absurd (omega arith)
  get_elem?-overwrite_in (x ∷ xs) zero (s ∷ src) (suc k) (suc j) e h g =
      get_elem?-overwrite_in xs zero src k j (omega arith) (omega arith) (omega arith)
  get_elem?-overwrite_in (x ∷ xs) (suc i) src k zero e h g = absurd (omega arith)
  get_elem?-overwrite_in (x ∷ xs) (suc i) src k (suc j) e h g =
      get_elem?-overwrite_in xs i src k j (omega arith) h (omega arith)

  pub get_elem?-take :
      (n : ℕ) (xs : List A) (i : ℕ) → i < n → get_elem? (take n xs) i ≡ get_elem? xs i
  get_elem?-take zero xs i h = absurd (omega arith)
  get_elem?-take (suc n) [] i h = refl
  get_elem?-take (suc n) (x ∷ xs) zero h = refl
  get_elem?-take (suc n) (x ∷ xs) (suc i) h = get_elem?-take n xs i (omega arith)

  pub get_elem?-drop :
      (n : ℕ) (xs : List A) (i j : ℕ) → j ≡ n + i → get_elem? (drop n xs) i ≡ get_elem? xs j
  get_elem?-drop zero xs i j e = ap (get_elem? xs) (omega arith)
  get_elem?-drop (suc n) [] i j e = refl
  get_elem?-drop (suc n) (x ∷ xs) i zero e = absurd (omega arith)
  get_elem?-drop (suc n) (x ∷ xs) i (suc j) e = get_elem?-drop n xs i j (omega arith)

  pub get_elem?-append_left :
      (xs ys : List A) (i : ℕ) → i < length xs → get_elem? (xs ++ ys) i ≡ get_elem? xs i
  get_elem?-append_left [] ys i h = absurd (omega arith)
  get_elem?-append_left (x ∷ xs) ys zero h = refl
  get_elem?-append_left (x ∷ xs) ys (suc i) h = get_elem?-append_left xs ys i (omega arith)

  pub get_elem?-append_right :
      (xs ys : List A) (i j : ℕ) → j ≡ length xs + i → get_elem? (xs ++ ys) j ≡ get_elem? ys i
  get_elem?-append_right [] ys i j e = ap (get_elem? ys) (omega arith)
  get_elem?-append_right (x ∷ xs) ys i zero e = absurd (omega arith)
  get_elem?-append_right (x ∷ xs) ys i (suc j) e = get_elem?-append_right xs ys i j (omega arith)

  -- Two lists of one length with the same items are equal.
  pub list_ext :
      (xs ys : List A)
      → length xs ≡ length ys
      → ((i : ℕ) → i < length xs → get_elem? xs i ≡ get_elem? ys i)
      → xs ≡ ys
  list_ext [] [] e h = refl
  list_ext [] (y ∷ ys) e h = absurd (omega arith)
  list_ext (x ∷ xs) [] e h = absurd (omega arith)
  list_ext (x ∷ xs) (y ∷ ys) e h =
      let tails : xs ≡ ys = list_ext xs ys (omega arith) (λ i g. h (suc i) (omega arith)) in
      cc (h 0 (omega arith))

module _ {ℓ} {A : Type ℓ} where
  pub get_elem?-below : (xs : List A) (i : ℕ) {a : A} → get_elem? xs i ≡ some a → i < length xs
  get_elem?-below [] i e = absurd (ground arith)
  get_elem?-below (x ∷ xs) zero e = omega arith
  get_elem?-below (x ∷ xs) (suc i) e = omega (arith, get_elem?-below xs i e)
