-- ===== src/Buffers/Ring/Stream.antt =====
-- The ring against the stream of samples that went through it.
use native.Mathlib.Nat.{mul-le-mul_right, mul-lt-mul_of_pos_right}
use panaudia_lasa.Prelude.{
  ℕ, ◌+◌, ◌-◌, ◌*◌, ◌%◌, ◌≤◌, ◌<◌, ◌≡◌, ap, ◌⊎◌, List, arith, leb, if◌then◌else◌, length, get_elem?,
  take, drop, overwrite, length-overwrite, length-take, length-drop, get_elem?-overwrite_before,
  get_elem?-overwrite_after, get_elem?-overwrite_in, get_elem?-take, get_elem?-drop,
}
use panaudia_lasa.Buffers.Ring.Index.{mod_ahead, mod_wrapped}

module _ {ℓ} {A : Type ℓ} where
  -- Writing and reading `n` samples from index `a` of a ring of `m`, in one or two pieces.
  abbrev pub put : ℕ → List A → ℕ → List A → ℕ → List A
  put m ring a src n =
      if leb (a + n) m
      then overwrite ring a (take n src)
      else overwrite (overwrite ring a (take (m - a) src)) 0 (take (n - (m - a)) (drop (m - a) src))

  abbrev pub get : ℕ → List A → ℕ → List A → ℕ → List A
  get m ring a dst n =
      if leb (a + n) m
      then overwrite dst 0 (take n (drop a ring))
      else overwrite (overwrite dst 0 (take (m - a) (drop a ring))) (m - a)
          (take (n - (m - a)) ring)

  -- The `k`-th sample written lands at `a + k`, round the end.
  pub put_in :
      (m a n k i : ℕ) (ring src : List A)
      → length ring ≡ m
      → n ≤ length src
      → a < m
      → n ≤ m
      → k < n
      → (i ≡ a + k) ⊎ (i + m ≡ a + k)
      → i < m
      → get_elem? (put m ring a src n) i ≡ get_elem? src k
  put_in m a n k i ring src lr ls am nm kn place im =
      let head = take (m - a) src in
      let tail = take (n - (m - a)) (drop (m - a) src) in
      let mid = overwrite ring a head in
      ground (
        arith,
        length-take n src,
        length-take (m - a) src,
        length-take (n - (m - a)) (drop (m - a) src),
        length-drop (m - a) src,
        length-overwrite ring a head,
        get_elem?-overwrite_in ring a (take n src) k i,
        get_elem?-overwrite_in ring a head k i,
        get_elem?-overwrite_after mid 0 tail i,
        get_elem?-overwrite_in mid 0 tail (k - (m - a)) i,
        get_elem?-take n src k,
        get_elem?-take (m - a) src k,
        get_elem?-take (n - (m - a)) (drop (m - a) src) (k - (m - a)),
        get_elem?-drop (m - a) src (k - (m - a)) k,
      )

  pub put_out :
      (m a n i : ℕ) (ring src : List A)
      → length ring ≡ m
      → n ≤ length src
      → a < m
      → n ≤ m
      → (a + n ≤ i) ⊎ (i < a)
      → a + n ≤ i + m
      → i < m
      → get_elem? (put m ring a src n) i ≡ get_elem? ring i
  put_out m a n i ring src lr ls am nm place wrap im =
      let head = take (m - a) src in
      let tail = take (n - (m - a)) (drop (m - a) src) in
      let mid = overwrite ring a head in
      ground (
        arith,
        length-take n src,
        length-take (m - a) src,
        length-take (n - (m - a)) (drop (m - a) src),
        length-drop (m - a) src,
        get_elem?-overwrite_before ring a (take n src) i,
        get_elem?-overwrite_after ring a (take n src) i,
        get_elem?-overwrite_before ring a head i,
        get_elem?-overwrite_after mid 0 tail i,
      )

  -- What a read of `n` samples puts at `k`.
  pub get_in :
      (m a n k i : ℕ) (ring dst : List A)
      → length ring ≡ m
      → n ≤ length dst
      → a < m
      → n ≤ m
      → k < n
      → (i ≡ a + k) ⊎ (i + m ≡ a + k)
      → i < m
      → get_elem? (get m ring a dst n) k ≡ get_elem? ring i
  get_in m a n k i ring dst lr ld am nm kn place im =
      let head = take (m - a) (drop a ring) in
      let tail = take (n - (m - a)) ring in
      let mid = overwrite dst 0 head in
      ground (
        arith,
        length-take n (drop a ring),
        length-take (m - a) (drop a ring),
        length-take (n - (m - a)) ring,
        length-drop a ring,
        length-overwrite dst 0 head,
        get_elem?-overwrite_in dst 0 (take n (drop a ring)) k k,
        get_elem?-overwrite_in dst 0 head k k,
        get_elem?-overwrite_before mid (m - a) tail k,
        get_elem?-overwrite_in mid (m - a) tail (k - (m - a)) k,
        get_elem?-take n (drop a ring) k,
        get_elem?-take (m - a) (drop a ring) k,
        get_elem?-take (n - (m - a)) ring (k - (m - a)),
        get_elem?-drop a ring k i,
        ap (get_elem? ring) {x = k - (m - a)} {y = i},
      )

pub leb-scale : (a b c k : ℕ) → 0 < k → leb (a + b) c ≡ leb (a * k + b * k) (c * k)
leb-scale a b c k h = ground (
  arith,
  mul-le-mul_right {m = a + b} {n = c} k,
  mul-lt-mul_of_pos_right {m = c} {n = a + b} {k = k},
)

-- A position `d` ahead of `W` lies `d` on from it, round the end.
pub place : (W m d : ℕ) → d < m → ((W + d) % m ≡ W % m + d) ⊎ ((W + d) % m + m ≡ W % m + d)
place W m d h = ground (arith, mod_ahead W m d, mod_wrapped W m d)
