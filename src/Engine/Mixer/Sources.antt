-- ===== src/Engine/Mixer/Sources.antt =====
-- The registry's sources: which calls change them, and that an id has one entry.
use mathlib.Core.Path.{subst}
use panaudia_lasa.Prelude.{
  ℕ, ◌≡◌, refl, sym, ap, ◌∙◌, ◌⊎◌, inl, inr, Bool, Option, none, some, arith, ◌==◌, if◌then◌else◌,
  ◌&&◌, ◌||◌, ltb, Bool-cases, Option-cases, leb,
}
use panaudia_lasa.Prelude.Map.{
  Map, lookup, put, delete, Distinct, lookup-put, lookup-put_ne, lookup-delete, lookup-delete_ne,
  put-Distinct, delete-Distinct,
}
use panaudia_lasa.Engine.Plane.{
  Change, is_none, is_empty, attach_source, attach_sink, attach_ambi, detach_source, detach_sink,
  detach_ambi,
}
use panaudia_lasa.Engine.Mixer.{
  RegEntry, Mixer, Refusal, entry_of, present, admit, vacate, add_source, add_sink, add_ambi_sink,
  remove_source, remove_sink, remove_ambi_sink, err_duplicate_source, err_duplicate_sink, err_order,
  err_closed, err_full,
}

abbrev pub src_of : Option RegEntry → Option ℕ
src_of r = (entry_of r).src

abbrev pub src_at : ℕ → Map RegEntry → Option ℕ
src_at j reg = src_of (lookup j reg)

put-src :
    (id j : ℕ) (e : RegEntry) (reg : Map RegEntry)
    → src_at j (put id e reg) ≡ (if id == j then e.src else src_at j reg)
put-src id j e reg = elim (Bool-cases (id == j)) [
  | inl same ↦
      let it : id ≡ j = ground (arith, same) in
      rw same (ap (λ i. src_at i (put id e reg)) (sym it) ∙ ap src_of (lookup-put id e reg))
  | inr off ↦ rw off (ap src_of (lookup-put_ne j id e reg (ground (arith, off))))
]

delete-src :
    (id j : ℕ) (reg : Map RegEntry)
    → Distinct reg
    → src_at j (delete id reg) ≡ (if id == j then none else src_at j reg)
delete-src id j reg d = elim (Bool-cases (id == j)) [
  | inl same ↦
      let it : id ≡ j = ground (arith, same) in
      rw same (ap (λ i. src_at i (delete id reg)) (sym it) ∙ ap src_of (lookup-delete id reg d))
  | inr off ↦ rw off (ap src_of (lookup-delete_ne j id reg (ground (arith, off))))
]

pub same_src :
    (id j : ℕ) (reg : Map RegEntry)
    → (if id == j then src_at id reg else src_at j reg) ≡ src_at j reg
same_src id j reg = elim (Bool-cases (id == j)) [
  | inl same ↦ let it : id ≡ j = ground (arith, same) in rw same (ap (λ i. src_at i reg) it)
  | inr off ↦ rw off refl
]

module _ {F : Type 0} where
  vacate-src :
      (id j : ℕ) (e : RegEntry) (c : Change F) (m : Mixer F)
      → Distinct m.reg
      → src_at j (vacate id e c m).reg ≡ (if id == j then e.src else src_at j m.reg)
  vacate-src id j e c m d = elim (Bool-cases (is_none e.src && is_none e.sink && is_empty e.ambi)) [
    | inl gone ↦ rw gone (ground (arith, gone, delete-src id j m.reg d))
    | inr held ↦ rw held (put-src id j e m.reg)
  ]

  vacate-Distinct :
      (id : ℕ) (e : RegEntry) (c : Change F) (m : Mixer F)
      → Distinct m.reg
      → Distinct (vacate id e c m).reg
  vacate-Distinct id e c m d =
      elim (Bool-cases (is_none e.src && is_none e.sink && is_empty e.ambi)) [
        | inl gone ↦ rw gone (delete-Distinct id m.reg d)
        | inr held ↦ rw held (put-Distinct id e m.reg d)
      ]

  -- An Add that is accepted fills the id's entry and no other; one that is refused does nothing.
  pub record Admits (id : ℕ) (src : Option ℕ) (m : Mixer F) (a : Mixer F × Option Refusal)
      : Type 0 where
    pub sources : (j : ℕ) → src_at j a.0.reg ≡ (if id == j then src else src_at j m.reg)
    pub distinct : Distinct m.reg → Distinct a.0.reg
    pub accepted : a.1 ≡ none

  pub admit-src :
      (id : ℕ) (busy : Bool) (twice : Refusal) (fill : RegEntry → RegEntry) (change : Change F)
      (m : Mixer F)
      → let a = admit id busy twice fill change m in
        Admits id (fill (entry_of (lookup id m.reg))).src m a ⊎ ((x : Refusal) × (a ≡ (m, some x)))
  admit-src id busy twice fill change m = elim (Bool-cases m.closed) [
    | inl c ↦ rw c (inr (err_closed, refl))
    | inr c ↦ elim (Bool-cases busy) [
      | inl b ↦ rw (c, b) (inr (twice, refl))
      | inr b ↦ elim (Bool-cases (is_none (lookup id m.reg) && leb m.max_entities m.entity_count)) [
        | inl f ↦ rw (c, b, f) (inr (err_full, refl))
        | inr f ↦
            rw (c, b, f)
              (inl (record {
                sources = λ j. put-src id j (fill (entry_of (lookup id m.reg))) m.reg;
                distinct = λ d. put-Distinct id (fill (entry_of (lookup id m.reg))) m.reg d;
                accepted = refl;
              }))
      ]
    ]
  ]

  pub add_source-src :
      (id h : ℕ) (m : Mixer F)
      → Admits id (some h) m (add_source id h m)
        ⊎ ((x : Refusal) × (add_source id h m ≡ (m, some x)))
  unfolding add_source
  add_source-src id h m =
      admit-src id (present (entry_of (lookup id m.reg)).src) err_duplicate_source
        (λ e. record e { src = some h }) (attach_source id h) m

  pub add_sink-src :
      (id h : ℕ) (m : Mixer F)
      → Admits id (src_at id m.reg) m (add_sink id h m)
        ⊎ ((x : Refusal) × (add_sink id h m ≡ (m, some x)))
  unfolding add_sink
  add_sink-src id h m =
      admit-src id (present (entry_of (lookup id m.reg)).sink) err_duplicate_sink
        (λ e. record e { sink = some h }) (attach_sink id h) m

  pub add_ambi_sink-src :
      (id order h : ℕ) (m : Mixer F)
      → Admits id (src_at id m.reg) m (add_ambi_sink id order h m)
        ⊎ ((x : Refusal) × (add_ambi_sink id order h m ≡ (m, some x)))
  unfolding add_ambi_sink
  add_ambi_sink-src id order h m =
      elim (Bool-cases (ltb order 2 || ltb 3 order || ltb m.order order)) [
        | inl o ↦ rw o (inr (err_order, refl))
        | inr o ↦ rw o (
            admit-src id (present (lookup order (entry_of (lookup id m.reg)).ambi))
              err_duplicate_sink (λ e. record e { ambi = put order h e.ambi })
              (attach_ambi id order h) m)
      ]

  -- What a Remove leaves of the sources.
  pub record Leaves (id : ℕ) (src : Option ℕ) (m m' : Mixer F) : Type 0 where
    pub sources : (j : ℕ) → src_at j m'.reg ≡ (if id == j then src else src_at j m.reg)
    pub distinct : Distinct m'.reg

  vacate-Leaves :
      (id : ℕ) (e : RegEntry) (c : Change F) (m : Mixer F)
      → Distinct m.reg
      → Leaves id e.src m (vacate id e c m)
  vacate-Leaves id e c m d = record {
    sources = λ j. vacate-src id j e c m d;
    distinct = vacate-Distinct id e c m d;
  }

  untouched : (id : ℕ) (m : Mixer F) → Distinct m.reg → Leaves id (src_at id m.reg) m m
  untouched id m d = record { sources = λ j. sym (same_src id j m.reg); distinct = d }

  with_src :
      (id : ℕ) {s t : Option ℕ} {m m' : Mixer F} → s ≡ t → Leaves id s m m' → Leaves id t m m'
  with_src id {s} {t} {m} {m'} e v = subst (λ u. Leaves id u m m') e v

  pub remove_source-src :
      (id : ℕ) (m : Mixer F) → Distinct m.reg → Leaves id none m (remove_source id m)
  unfolding remove_source
  remove_source-src id m d = elim (Option-cases (lookup id m.reg)) [
    | inl l ↦ rw (l, remove_source) (with_src id (ap src_of l) (untouched id m d))
    | inr (e, l) ↦ elim (Bool-cases (is_none e.src)) [
      | inl out ↦
          let gone : e.src ≡ none = ground (arith, out) in
          rw (l, remove_source, out) (with_src id (ap src_of l ∙ gone) (untouched id m d))
      | inr on ↦
          rw (l, remove_source, on)
            (vacate-Leaves id (record e { src = none }) (detach_source id) m d)
    ]
  ]

  pub remove_sink-src :
      (id : ℕ) (m : Mixer F) → Distinct m.reg → Leaves id (src_at id m.reg) m (remove_sink id m)
  unfolding remove_sink
  remove_sink-src id m d = elim (Option-cases (lookup id m.reg)) [
    | inl l ↦ rw (l, remove_sink) (with_src id (ap src_of l) (untouched id m d))
    | inr (e, l) ↦ elim (Bool-cases (is_none e.sink)) [
      | inl out ↦ rw (l, remove_sink, out) (with_src id (ap src_of l) (untouched id m d))
      | inr on ↦
          rw (l, remove_sink, on) (vacate-Leaves id (record e { sink = none }) (detach_sink id) m d)
    ]
  ]

  pub remove_ambi_sink-src :
      (id order : ℕ) (m : Mixer F)
      → Distinct m.reg
      → Leaves id (src_at id m.reg) m (remove_ambi_sink id order m)
  unfolding remove_ambi_sink
  remove_ambi_sink-src id order m d = elim (Option-cases (lookup id m.reg)) [
    | inl l ↦ rw (l, remove_ambi_sink) (with_src id (ap src_of l) (untouched id m d))
    | inr (e, l) ↦ elim (Bool-cases (is_none (lookup order e.ambi))) [
      | inl out ↦ rw (l, remove_ambi_sink, out) (with_src id (ap src_of l) (untouched id m d))
      | inr on ↦
          rw (l, remove_ambi_sink, on)
            (vacate-Leaves id (record e { ambi = delete order e.ambi }) (detach_ambi id order) m d)
    ]
  ]

  -- A call that leaves an id's source leaves every source.
  pub kept :
      (id : ℕ) {m m' : Mixer F}
      → Leaves id (src_at id m.reg) m m'
      → (j : ℕ) → src_at j m'.reg ≡ src_at j m.reg
  kept id {m} v j = v.sources j ∙ same_src id j m.reg

  pub kept-Admits :
      (id : ℕ) {m : Mixer F} {a : Mixer F × Option Refusal}
      → Admits id (src_at id m.reg) m a
      → (j : ℕ) → src_at j a.0.reg ≡ src_at j m.reg
  kept-Admits id {m} v j = v.sources j ∙ same_src id j m.reg
