-- ===== src/Engine/Group/Weave.antt =====
-- A set's frame has every member's samples in its channel: what weave puts in, channel takes out.
use native.Mathlib.Nat.{mul-add-mod_self_right, mod-eq_of_lt, add-mul, mul-le-mul_right}
use panaudia_lasa.Prelude.{
  ℕ, zero, suc, ◌+◌, ◌*◌, ◌%◌, ◌≤◌, ◌<◌, ◌≡◌, ◌≢◌, refl, sym, ap, ◌∙◌, some, List, [], ◌∷◌, arith,
  length, get_elem?, get_or, set, length-set, get_elem?-set_self, get_elem?-set_ne,
}
use panaudia_lasa.Engine.Source.{frame_size}
use panaudia_lasa.Engine.Group.Frames.{put_channel, weave, channel}

-- Places of different channels differ.
place_ne : (n i i' j q : ℕ) → i < n → i' < n → i ≢ i' → (j * n + i) ≢ (q * n + i')
place_ne n i i' j q h h' ne e = ne (
    sym (mul-add-mod_self_right j n i ∙ mod-eq_of_lt h)
    ∙ ap (λ p. p % n) e
    ∙ (mul-add-mod_self_right q n i' ∙ mod-eq_of_lt h'))

module _ {S : Type 0} (silent : S) where
  -- A member's samples cut to `k`, or filled with silence.
  abbrev pub padded : ℕ → List S → List S
  padded zero pcm = []
  padded (suc k) [] = silent ∷ padded k []
  padded (suc k) (x ∷ xs) = x ∷ padded k xs

  length-put_channel :
      (n i k j : ℕ) (pcm ws : List S) → length (put_channel silent n i k j pcm ws) ≡ length ws
  unfolding put_channel
  length-put_channel n i zero j pcm ws = refl
  length-put_channel n i (suc k) j pcm ws =
      length-put_channel n i k (j + 1) pcm (set ws (j * n + i) (get_or pcm j silent))
      ∙ length-set ws (j * n + i) (get_or pcm j silent)

  pub length-weave :
      (n i : ℕ) (pcms : List (List S)) (ws : List S) → length (weave silent n i pcms ws) ≡ length ws
  unfolding weave
  length-weave n i [] ws = refl
  length-weave n i (pcm ∷ pcms) ws =
      length-weave n (i + 1) pcms (put_channel silent n i frame_size 0 pcm ws)
      ∙ length-put_channel n i frame_size 0 pcm ws

  put_channel-other :
      (n i i' k j q : ℕ) (pcm ws : List S)
      → i < n
      → i' < n
      → i ≢ i'
      → get_elem? (put_channel silent n i k j pcm ws) (q * n + i') ≡ get_elem? ws (q * n + i')
  unfolding put_channel
  put_channel-other n i i' zero j q pcm ws h h' ne = refl
  put_channel-other n i i' (suc k) j q pcm ws h h' ne =
      put_channel-other n i i' k (j + 1) q pcm (set ws (j * n + i) (get_or pcm j silent)) h h' ne
      ∙ get_elem?-set_ne ws (get_or pcm j silent) (place_ne n i i' j q h h' ne)

  -- Before the places that the loop is at.
  put_channel-before :
      (n i k j p : ℕ) (pcm ws : List S)
      → p < j * n + i
      → get_elem? (put_channel silent n i k j pcm ws) p ≡ get_elem? ws p
  unfolding put_channel
  put_channel-before n i zero j p pcm ws h = refl
  put_channel-before n i (suc k) j p pcm ws h =
      let further : p < (j + 1) * n + i = omega (arith, h, add-mul j 1 n) in
      put_channel-before n i k (j + 1) p pcm (set ws (j * n + i) (get_or pcm j silent)) further
      ∙ get_elem?-set_ne ws (get_or pcm j silent) (λ e. omega (arith, h, e))

  put_channel-in :
      (n i k j q : ℕ) (pcm ws : List S)
      → i < n
      → q < k
      → (j + k) * n ≤ length ws
      → get_elem? (put_channel silent n i k j pcm ws) ((j + q) * n + i)
        ≡ some (get_or pcm (j + q) silent)
  unfolding put_channel
  put_channel-in n i zero j q pcm ws h g size = absurd (omega (arith, g))
  put_channel-in n i (suc k) j zero pcm ws h g size =
      let here : j + 0 ≡ j = omega arith in
      let next : j * n + i < (j + 1) * n + i = omega (arith, h, add-mul j 1 n) in
      let some_k : (j + 1) * n ≤ (j + suc k) * n = mul-le-mul_right n (omega arith) in
      let inside : j * n + i < length ws = omega (arith, h, size, some_k, add-mul j 1 n) in
      rw here (
        put_channel-before n i k (j + 1) (j * n + i) pcm (set ws (j * n + i) (get_or pcm j silent))
          next
        ∙ get_elem?-set_self ws (j * n + i) (get_or pcm j silent) inside)
  put_channel-in n i (suc k) j (suc q) pcm ws h g size =
      let shift : j + suc q ≡ (j + 1) + q = omega arith in
      let ahead : j + suc k ≡ (j + 1) + k = omega arith in
      let v = get_or pcm j silent in
      rw shift (
        put_channel-in n i k (j + 1) q pcm (set ws (j * n + i) v) h (omega (arith, g))
          (rw (length-set ws (j * n + i) v) (rw ahead at size)))

  -- Channels before the ones that the loop is at.
  weave-before :
      (n i i' q : ℕ) (pcms : List (List S)) (ws : List S)
      → i' < i
      → i + length pcms ≤ n
      → get_elem? (weave silent n i pcms ws) (q * n + i') ≡ get_elem? ws (q * n + i')
  unfolding weave
  weave-before n i i' q [] ws h g = refl
  weave-before n i i' q (pcm ∷ pcms) ws h g =
      weave-before n (i + 1) i' q pcms (put_channel silent n i frame_size 0 pcm ws)
        (omega (arith, h)) (omega (arith, g))
      ∙ put_channel-other n i i' frame_size 0 q pcm ws (omega (arith, g)) (omega (arith, h, g))
          (λ e. omega (arith, h, e))

  weave-in :
      (n i m q : ℕ) (pcms : List (List S)) (pcm ws : List S)
      → get_elem? pcms m ≡ some pcm
      → i + length pcms ≤ n
      → q < frame_size
      → frame_size * n ≤ length ws
      → get_elem? (weave silent n i pcms ws) (q * n + (i + m)) ≡ some (get_or pcm q silent)
  unfolding weave
  weave-in n i m q [] pcm ws e g h size = absurd (ground (arith, e))
  weave-in n i zero q (x ∷ pcms) pcm ws e g h size =
      let first : x ≡ pcm = ground (arith, e) in
      let here : i + 0 ≡ i = omega arith in
      let from : 0 + q ≡ q = omega arith in
      let put : get_elem? (put_channel silent n i frame_size 0 x ws) (q * n + i)
          ≡ some (get_or x q silent) =
        rw from at
          (put_channel-in n i frame_size 0 q x ws (omega (arith, g)) h (omega (arith, size))) in
      rw here (
        weave-before n (i + 1) i q pcms (put_channel silent n i frame_size 0 x ws) (omega arith)
          (omega (arith, g))
        ∙ put
        ∙ ap (λ t. some (get_or t q silent)) first)
  weave-in n i (suc m) q (x ∷ pcms) pcm ws e g h size =
      let shift : i + suc m ≡ (i + 1) + m = omega arith in
      rw shift (
        weave-in n (i + 1) m q pcms pcm (put_channel silent n i frame_size 0 x ws) e
          (omega (arith, g)) h (rw (length-put_channel n i frame_size 0 x ws) size))

  get_or-of : (xs : List S) (i : ℕ) {v : S} → get_elem? xs i ≡ some v → get_or xs i silent ≡ v
  get_or-of [] i e = absurd (ground (arith, e))
  get_or-of (x ∷ xs) zero e = ground (arith, e)
  get_or-of (x ∷ xs) (suc i) e = get_or-of xs i e

  channel-padded :
      (n i k j : ℕ) (pcm scratch : List S)
      → ((q : ℕ) → q < k → get_elem? scratch ((j + q) * n + i) ≡ some (get_or pcm q silent))
      → channel silent n i k j scratch ≡ padded k pcm
  unfolding channel
  channel-padded n i zero j pcm scratch h = refl
  channel-padded n i (suc k) j pcm scratch h =
      let here : j + 0 ≡ j = omega arith in
      let first : get_or scratch (j * n + i) silent ≡ get_or pcm 0 silent =
        get_or-of scratch (j * n + i) (rw here at (h 0 (omega arith))) in
      let later : (q : ℕ)
          → q < k
          → get_elem? scratch ((j + 1 + q) * n + i) ≡ some (get_or pcm (suc q) silent) =
        λ q g.
          let shift : j + 1 + q ≡ j + suc q = omega arith in
          rw shift (h (suc q) (omega (arith, g))) in
      elim pcm
          as (λ t.
            get_or scratch (j * n + i) silent ≡ get_or t 0 silent
            → ((q : ℕ)
                → q < k
                → get_elem? scratch ((j + 1 + q) * n + i) ≡ some (get_or t (suc q) silent))
            → (get_or scratch (j * n + i) silent ∷ channel silent n i k (j + 1) scratch)
              ≡ padded (suc k) t) [
                | [] ↦ λ f l. rw (f, channel-padded n i k (j + 1) [] scratch l) refl
                | x ∷ xs ↦ λ f l. rw (f, channel-padded n i k (j + 1) xs scratch l) refl
              ]
        first later

  -- What a member's channel has of a woven frame.
  pub channel-weave :
      (n i : ℕ) (pcms : List (List S)) (pcm ws : List S)
      → get_elem? pcms i ≡ some pcm
      → length pcms ≤ n
      → frame_size * n ≤ length ws
      → channel silent n i frame_size 0 (weave silent n 0 pcms ws) ≡ padded frame_size pcm
  channel-weave n i pcms pcm ws e h size =
      channel-padded n i frame_size 0 pcm (weave silent n 0 pcms ws) (λ q g.
        let from : 0 + q ≡ q = omega arith in
        let seat : 0 + i ≡ i = omega arith in
        rw from (rw seat at (weave-in n 0 i q pcms pcm ws e (omega (arith, h)) g size)))
