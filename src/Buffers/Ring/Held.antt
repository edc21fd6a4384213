-- ===== src/Buffers/Ring/Held.antt =====
-- What the ring holds of the stream of samples that went through it.
use native.Mathlib.Nat.{mod-lt, mul-le-mul_right, add-mod_right}
use native.Mathlib.Decide.{dec_lt}
use panaudia_lasa.Prelude.{
  length-append, get_elem?-append_left, get_elem?-append_right, list_ext, ℕ, ◌+◌, ◌-◌, ◌*◌, ◌%◌,
  ◌≤◌, ◌<◌, ◌≡◌, refl, sym, ap, ◌∙◌, ◌⊎◌, List, ◌++◌, arith, length, get_elem?, take, drop,
  overwrite, length-overwrite, length-take, length-drop, get_elem?-take, get_elem?-drop,
}
use panaudia_lasa.Prelude.Order.{sub-scale}
use panaudia_lasa.Buffers.Ring.{write_to_ring, read_from_ring}
use panaudia_lasa.Buffers.Ring.Index.{mod-mul}
use panaudia_lasa.Buffers.Ring.Stream.{put, get, put_in, put_out, get_in, leb-scale, place}

module _ {ℓ} {A : Type ℓ} where
  write_to_ring-put :
      (cap nc : ℕ) (ring src : List A) (wp n : ℕ)
      → 0 < cap
      → 0 < nc
      → write_to_ring cap nc ring src wp n
        ≡ put (cap * nc) ring ((wp * nc) % (cap * nc)) src (n * nc)
  unfolding write_to_ring
  write_to_ring-put cap nc ring src wp n h g = rw (
    mod-mul wp cap nc h g,
    leb-scale (wp % cap) n cap nc g,
    sub-scale cap (wp % cap) nc,
    sub-scale n (cap - wp % cap) nc,
    sub-scale cap (wp % cap) nc,
  )

  read_from_ring-get :
      (cap nc : ℕ) (ring dst : List A) (rp n : ℕ)
      → 0 < cap
      → 0 < nc
      → read_from_ring cap nc ring dst rp n
        ≡ get (cap * nc) ring ((rp * nc) % (cap * nc)) dst (n * nc)
  unfolding read_from_ring
  read_from_ring-get cap nc ring dst rp n h g = rw (
    mod-mul rp cap nc h g,
    leb-scale (rp % cap) n cap nc g,
    sub-scale cap (rp % cap) nc,
    sub-scale n (cap - rp % cap) nc,
    sub-scale cap (rp % cap) nc,
  )

  -- The last `m` samples written, after `n` more.
  put-last :
      (m n W p : ℕ) (ring src written : List A)
      → length ring ≡ m
      → length written ≡ W
      → ((q : ℕ) → q < W → W ≤ q + m → get_elem? ring (q % m) ≡ get_elem? written q)
      → 0 < m
      → n ≤ m
      → n ≤ length src
      → p < W + n
      → W + n ≤ p + m
      → get_elem? (put m ring (W % m) src n) (p % m) ≡ get_elem? (written ++ take n src) p
  put-last m n W p ring src written lr lw held pos nm ls hp hq = elim (dec_lt p W) [
    | yes old ↦
        put_out m (W % m) n (p % m) ring src lr ls (mod-lt W pos) nm (omega (arith, at_old))
          (omega (arith, at_old, mod-lt W pos)) (mod-lt p pos)
        ∙ held p old (omega arith)
        ∙ sym (get_elem?-append_left written (take n src) p (omega arith))
    | no new ↦
        put_in m (W % m) n (p - W) (p % m) ring src lr ls (mod-lt W pos) nm (omega arith)
          (at_new new) (mod-lt p pos)
        ∙ sym (get_elem?-take n src (p - W) (omega arith))
        ∙ sym (get_elem?-append_right written (take n src) (p - W) p (omega arith))
  ]
    where
      at_old : (p < W) → (p % m ≡ W % m + (p + m - W)) ⊎ (p % m + m ≡ W % m + (p + m - W))
      at_old old =
          let same : (W + (p + m - W)) % m ≡ p % m =
            ap (λ t. t % m) (omega arith) ∙ add-mod_right p m in
          rw same at (place W m (p + m - W) (omega arith))

      at_new : ¬ (p < W) → (p % m ≡ W % m + (p - W)) ⊎ (p % m + m ≡ W % m + (p - W))
      at_new new =
          let same : W + (p - W) ≡ p = omega arith in rw same at (place W m (p - W) (omega arith))

  -- The ring holds the last `cap` frames of the samples written so far.
  pub record Holds (cap nc : ℕ) (ring written : List A) : Type ℓ where
    pub size : length ring ≡ cap * nc
    pub last :
        (p : ℕ)
        → p < length written
        → length written ≤ p + cap * nc
        → get_elem? ring (p % (cap * nc)) ≡ get_elem? written p

  -- If the ring holds the end of a stream whose length is the write position, then writing `n` whole
  -- frames, at most the capacity, makes it hold the end of the stream with those frames appended.
  pub write_to_ring-Holds :
      (cap nc : ℕ) (ring src written : List A) (wp n : ℕ)
      → 0 < cap
      → 0 < nc
      → Holds cap nc ring written
      → length written ≡ wp * nc
      → n ≤ cap
      → n * nc ≤ length src
      → Holds cap nc (write_to_ring cap nc ring src wp n) (written ++ take (n * nc) src)
  write_to_ring-Holds cap nc ring src written wp n h g v lw nc_cap ls = record {
    size = kept;
    last = last;
  }
    where
      kept : length (write_to_ring cap nc ring src wp n) ≡ cap * nc
      kept = rw (write_to_ring-put cap nc ring src wp n h g) (
          ground (
            arith,
            v.size,
            length-overwrite ring ((wp * nc) % (cap * nc)) (take (n * nc) src),
            length-overwrite ring ((wp * nc) % (cap * nc))
                (take (cap * nc - (wp * nc) % (cap * nc)) src),
            length-overwrite
                (overwrite ring ((wp * nc) % (cap * nc))
                  (take (cap * nc - (wp * nc) % (cap * nc)) src))
                0
                (take (n * nc - (cap * nc - (wp * nc) % (cap * nc)))
                  (drop (cap * nc - (wp * nc) % (cap * nc)) src)),
          ))

      longer : length (written ++ take (n * nc) src) ≡ wp * nc + n * nc
      longer = omega (arith, length-append written (take (n * nc) src), length-take (n * nc) src)

      last :
          (p : ℕ)
          → p < length (written ++ take (n * nc) src)
          → length (written ++ take (n * nc) src) ≤ p + cap * nc
          → get_elem? (write_to_ring cap nc ring src wp n) (p % (cap * nc))
            ≡ get_elem? (written ++ take (n * nc) src) p
      last p hp hq = rw (write_to_ring-put cap nc ring src wp n h g) (
          put-last (cap * nc) (n * nc) (wp * nc) p ring src written v.size lw
            (λ q a b. v.last q (omega arith) (omega arith)) (grind arith)
            (mul-le-mul_right nc nc_cap) ls (omega (arith, longer)) (omega (arith, longer)))

  get-stream :
      (m n R : ℕ) (ring dst written : List A)
      → length ring ≡ m
      → ((q : ℕ)
          → q < length written
          → length written ≤ q + m
          → get_elem? ring (q % m) ≡ get_elem? written q)
      → 0 < m
      → length dst ≡ n
      → R + n ≤ length written
      → length written ≤ R + m
      → get m ring (R % m) dst n ≡ take n (drop R written)
  get-stream m n R ring dst written lr held pos ld inside recent = list_ext _ _ sizes (λ k hk.
      get_in m (R % m) n k ((R + k) % m) ring dst lr (omega arith) (mod-lt R pos) (omega arith)
        (omega (arith, size)) (place R m k (omega (arith, size))) (mod-lt (R + k) pos)
      ∙ held (R + k) (omega (arith, size)) (omega arith)
      ∙ sym (get_elem?-drop R written k (R + k) refl)
      ∙ sym (get_elem?-take n (drop R written) k (omega (arith, size))))
    where
      size : length (get m ring (R % m) dst n) ≡ n
      size = ground (
        arith,
        length-overwrite dst 0 (take n (drop (R % m) ring)),
        length-overwrite dst 0 (take (m - R % m) (drop (R % m) ring)),
        length-overwrite (overwrite dst 0 (take (m - R % m) (drop (R % m) ring))) (m - R % m)
            (take (n - (m - R % m)) ring),
      )

      sizes : length (get m ring (R % m) dst n) ≡ length (take n (drop R written))
      sizes = omega (arith, size, length-take n (drop R written), length-drop R written)

  -- If the ring holds the end of a stream, then reading `n` frames at `rp`, written and not yet
  -- overwritten, gives those of the stream.
  pub read_from_ring-stream :
      (cap nc : ℕ) (ring dst written : List A) (rp n : ℕ)
      → 0 < cap
      → 0 < nc
      → Holds cap nc ring written
      → length dst ≡ n * nc
      → (rp + n) * nc ≤ length written
      → length written ≤ (rp + cap) * nc
      → read_from_ring cap nc ring dst rp n ≡ take (n * nc) (drop (rp * nc) written)
  read_from_ring-stream cap nc ring dst written rp n h g v ld inside recent =
      rw (read_from_ring-get cap nc ring dst rp n h g) (
        get-stream (cap * nc) (n * nc) (rp * nc) ring dst written v.size v.last (grind arith) ld
          (omega arith) (omega arith))
