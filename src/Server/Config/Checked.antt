-- ===== src/Server/Config/Checked.antt =====
-- What a configuration that loadConfig accepts is.
use panaudia_lasa.Prelude.{
  ℕ, ◌≡◌, refl, sym, ap, ◌∙◌, ◌⊎◌, inl, inr, Bool, true, false, ◌&&◌, not, Option, none, some, List,
  arith, ◌==◌, if◌then◌else◌, length, Bool-cases, Option-cases,
}
use panaudia_lasa.Server.Text.{parse_bool, decode64}
use panaudia_lasa.Engine.Plane.{is_empty, is_none}
use panaudia_lasa.Server.Config.{
  Var, ticket_key_var, allow_unticketed_var, AppConfig, ConfigError, Loaded, ok, fails, ◌>>=◌, Env,
  env_bool, env_key, load_access,
}

pub >>=-ok :
    {A B : Type 0} (m : Loaded A) (f : A → Loaded B) (b : B)
    → (m >>= f) ≡ ok b
    → (a : A) × (m ≡ ok a) × (f a ≡ ok b)
>>=-ok (ok a) f b h = (a, refl, h)
>>=-ok (fails e) f b h = absurd (ground (arith, h))

pub ok-inj : {A : Type 0} (x y : A) → ok x ≡ ok y → x ≡ y
ok-inj x y h = cc h

-- Two checks before the rest.
pub gate_then :
    {A : Type 0} (b1 b2 : Bool) (e1 e2 : ConfigError) (m : Loaded A) (y : A)
    → (if b1 then fails e1 else if b2 then fails e2 else m) ≡ ok y
    → (b1 ≡ false) × (b2 ≡ false) × (m ≡ ok y)
gate_then true b2 e1 e2 m y h = absurd (ground (arith, h))
gate_then false true e1 e2 m y h = absurd (ground (arith, h))
gate_then false false e1 e2 m y h = (refl, refl, h)

pub gate :
    {A : Type 0} (b1 b2 : Bool) (e1 e2 : ConfigError) (x y : A)
    → (if b1 then fails e1 else if b2 then fails e2 else ok x) ≡ ok y
    → (b1 ≡ false) × (b2 ≡ false) × (x ≡ y)
gate b1 b2 e1 e2 x y h = let (f, g, same) = gate_then b1 b2 e1 e2 (ok x) y h in (f, g, cc same)

module _ (env : Env) where
  -- A space is ticketed by one key of 32 bytes, or open by an explicit choice.
  abbrev pub Access : AppConfig → Type 0
  Access c =
      ((key : List ℕ) × (c.ticket_key ≡ some key)
        × (length key ≡ 32)
        × (c.allow_unticketed ≡ false))
      ⊎ ((c.ticket_key ≡ none)
          × (c.allow_unticketed ≡ true)
          × (is_empty (env allow_unticketed_var) ≡ false)
          × (parse_bool (env allow_unticketed_var) ≡ some true))

  key_lem :
      (k : Option (List ℕ))
      → env_key env none ≡ ok k
      → (k ≡ none) ⊎ ((key : List ℕ) × (k ≡ some key) × (length key ≡ 32))
  unfolding env_key
  key_lem k e = elim (Bool-cases (is_empty (env ticket_key_var))) [
    | inl unset ↦ inl (ground (arith, rw unset at e))
    | inr given ↦ elim (Option-cases (decode64 (env ticket_key_var))) [
      | inl l ↦ absurd (ground (arith, rw (given, l, env_key) at e))
      | inr (raw, l) ↦ elim (Bool-cases (length raw == 32)) [
        | inl fits ↦
            inr (raw, ground (arith, rw (given, l, env_key, fits) at e), ground (arith, fits))
        | inr off ↦ absurd (ground (arith, rw (given, l, env_key, off) at e))
      ]
    ]
  ]

  bool_lem :
      (v : Var) (b : Bool)
      → env_bool env v false ≡ ok b
      → (b ≡ false) ⊎ (b ≡ true) × (is_empty (env v) ≡ false) × (parse_bool (env v) ≡ some true)
  bool_lem v true e = elim (Bool-cases (is_empty (env v))) [
    | inl unset ↦ absurd (ground (arith, rw unset at e))
    | inr given ↦ elim (Option-cases (parse_bool (env v))) [
      | inl l ↦ absurd (ground (arith, rw (given, l, env_bool) at e))
      | inr (b, l) ↦ inr (refl, given, l ∙ ap some (ground (arith, rw (given, l, env_bool) at e)))
    ]
  ]
  bool_lem v false e = inl refl

  either_way :
      (c : AppConfig) (key : Option (List ℕ)) (chosen : Bool)
      → (c.ticket_key ≡ key)
      → (c.allow_unticketed ≡ chosen)
      → (not (is_none key) && chosen ≡ false)
      → (is_none key && not chosen ≡ false)
      → ((key ≡ none) ⊎ ((k : List ℕ) × (key ≡ some k) × (length k ≡ 32)))
      → ((chosen ≡ false)
          ⊎ (chosen ≡ true)
            × (is_empty (env allow_unticketed_var) ≡ false)
            × (parse_bool (env allow_unticketed_var) ≡ some true))
      → Access c
  either_way c none true k o both neither ks (inr (t, given, parsed)) = inr (k, o, given, parsed)
  either_way c none true k o both neither ks (inl f) = absurd (ground (arith, f))
  either_way c none false k o both neither ks os = absurd (ground (arith, neither))
  either_way c (some key) true k o both neither ks os = absurd (ground (arith, both))
  either_way c (some key) false k o both neither (inl n) os = absurd (ground (arith, n))
  either_way c (some key) false k o both neither (inr (key', same, size)) os =
      inl (key', k ∙ same, size, o)

  pub access_lem :
      (cfg c : AppConfig)
      → cfg.ticket_key ≡ none
      → load_access env cfg ≡ ok c
      → Access c
        × (key : Option (List ℕ)) × (b : Bool) × (record cfg {
          ticket_key = key;
          allow_unticketed = b;
        }
            ≡ c)
  unfolding load_access
  access_lem cfg c no_key e =
      let (key, got, e1) = >>=-ok (env_key env cfg.ticket_key) _ c e in
      let (chosen, read, e2) = >>=-ok (env_bool env allow_unticketed_var false) _ c e1 in
      let (both, neither, is) =
        gate (not (is_none key) && chosen) (is_none key && not chosen) _ _ _ c e2 in
      (
        either_way c key chosen
            (sym (
              ap (λ x. x.ticket_key)
                {x = record cfg { ticket_key = key; allow_unticketed = chosen }} {y = c} is))
            (sym (
              ap (λ x. x.allow_unticketed)
                {x = record cfg { ticket_key = key; allow_unticketed = chosen }} {y = c} is))
            both neither (key_lem key (rw no_key at got))
            (bool_lem allow_unticketed_var chosen read),
        key,
        chosen,
        is,
      )
