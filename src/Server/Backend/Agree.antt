-- ===== src/Server/Backend/Agree.antt =====
-- The conn-map against the engine's registry, through everything the host does.
use panaudia_lasa.Prelude.{
  ℕ, suc, ◌+◌, ◌<◌, ◌≡◌, refl, sym, ap, ◌∙◌, inl, inr, Option, none, some, arith, ◌==◌,
  if◌then◌else◌, Bool-cases,
}
use panaudia_lasa.Prelude.Map.{
  Map, lookup, put, delete, Distinct, lookup-put, lookup-put_ne, lookup-delete, lookup-delete_ne,
  put-Distinct, delete-Distinct,
}
use panaudia_lasa.Engine.Mixer.{RegEntry, Mixer}
use panaudia_lasa.Engine.Mixer.Sources.{src_at, Leaves, kept}
use panaudia_lasa.Server.State.{EntityRec, Backend}
use panaudia_lasa.Server.Backend.{set_of, Lockstep, seat_entity}

same_known :
    {S : Type 0} (r r' : ℕ) (rec0 rec' : EntityRec S) (recs : Map (EntityRec S))
    → lookup r recs ≡ some rec0
    → rec'.src ≡ rec0.src
    → ((rec : EntityRec S) × (lookup r' recs ≡ some rec) × (rec.src ≡ r'))
    → (rec : EntityRec S) × (lookup r' (put r rec' recs) ≡ some rec) × (rec.src ≡ r')
same_known r r' rec0 rec' recs was own (rec, l, e) = elim (Bool-cases (r == r')) [
  | inl same ↦
      let it : r ≡ r' = ground (arith, same) in
      let both : some rec0 ≡ some rec = sym was ∙ ap (λ i. lookup i recs) it ∙ l in
      let one : rec0 ≡ rec = cc both in
      (
        rec',
        ap (λ i. lookup i (put r rec' recs)) (sym it) ∙ lookup-put r rec' recs,
        own ∙ ap (λ x. x.src) {x = rec0} {y = rec} one ∙ e,
      )
  | inr off ↦ (rec, lookup-put_ne r' r rec' recs (ground (arith, off)) ∙ l, e)
]

module _ {F S : Type 0} where
  -- The engine's source of an id is the source of the id's record in the conn-map, and there is
  -- none for an id that is not in it.
  pub record ConnMap (reg : Map RegEntry) (b : Backend F S) : Type 0 where
    pub registry : Distinct reg
    pub conns : Distinct b.entities
    pub view : (j : ℕ) → src_at j reg ≡ lookup j b.entities
    pub known :
        (j r : ℕ)
        → lookup j b.entities ≡ some r
        → (r < b.next) × (rec : EntityRec S) × (lookup r b.recs ≡ some rec) × (rec.src ≡ r)

  -- A call of the mixer that leaves the sources.
  pub with_reg :
      {reg reg' : Map RegEntry} {b : Backend F S}
      → Distinct reg'
      → ((j : ℕ) → src_at j reg' ≡ src_at j reg)
      → ConnMap reg b
      → ConnMap reg' b
  with_reg d same v = record {
    registry = d;
    conns = v.conns;
    view = λ j. same j ∙ v.view j;
    known = v.known;
  }

  -- A record changes in place, and nothing else that the conn-map stands on.
  pub with_rec :
      {reg : Map RegEntry} {b b' : Backend F S} (r : ℕ) (rec0 rec' : EntityRec S)
      → lookup r b.recs ≡ some rec0
      → b'.entities ≡ b.entities
      → b'.recs ≡ put r rec' b.recs
      → b.next < suc b'.next
      → rec'.src ≡ rec0.src
      → ConnMap reg b
      → ConnMap reg b'
  with_rec {reg} {b} {b'} r rec0 rec' was ents recs next own v = record {
    registry = v.registry;
    conns = rw ents v.conns;
    view = λ j. rw ents (v.view j);
    known = λ j r' l.
        let (lt, rec, at, its) = v.known j r' (ap (lookup j) (sym ents) ∙ l) in
        let (rec2, at2, its2) = same_known r r' rec0 rec' b.recs was own (rec, at, its) in
        (omega arith, rec2, ap (lookup r') recs ∙ at2, its2);
  }

  pub with_mixer :
      (id : ℕ) {m m' : Mixer F} {b : Backend F S}
      → Leaves id (src_at id m.reg) m m'
      → ConnMap m.reg b
      → ConnMap m'.reg b
  with_mixer id out v = with_reg out.distinct (kept id out) v

  entered :
      {reg reg' : Map RegEntry} {b b' : Backend F S} (id : ℕ) (rec : EntityRec S)
      → b'.entities ≡ put id b.next b.entities
      → b'.recs ≡ put b.next rec b.recs
      → b'.next ≡ b.next + 1
      → rec.src ≡ b.next
      → ((j : ℕ) → src_at j reg' ≡ (if id == j then some b.next else src_at j reg))
      → Distinct reg'
      → ConnMap reg b
      → ConnMap reg' b'
  entered {reg} {reg'} {b} {b'} id rec ents recs next own sources d v = record {
    registry = d;
    conns = rw ents (put-Distinct id b.next b.entities v.conns);
    view = λ j. rw ents (elim (Bool-cases (id == j)) [
      | inl same ↦
          let it : id ≡ j = ground (arith, same) in
          (rw same at (sources j))
          ∙ sym (
              ap (λ i. lookup i (put id b.next b.entities)) (sym it)
              ∙ lookup-put id b.next b.entities)
      | inr off ↦
          (rw off at (sources j))
          ∙ v.view j
          ∙ sym (lookup-put_ne j id b.next b.entities (ground (arith, off)))
    ]);
    known = λ j r l.
        let l' : lookup j (put id b.next b.entities) ≡ some r = ap (lookup j) (sym ents) ∙ l in
        elim (Bool-cases (id == j)) [
          | inl same ↦
              let it : id ≡ j = ground (arith, same) in
              let new : some b.next ≡ some r =
                sym (
                  ap (λ i. lookup i (put id b.next b.entities)) (sym it)
                  ∙ lookup-put id b.next b.entities)
                ∙ l' in
              let its : b.next ≡ r = cc new in
              (
                omega arith,
                rec,
                ap (lookup r) recs
                    ∙ ap (λ i. lookup i (put b.next rec b.recs)) (sym its)
                    ∙ lookup-put b.next rec b.recs,
                own ∙ its,
              )
          | inr off ↦
              let old : lookup j b.entities ≡ some r =
                sym (lookup-put_ne j id b.next b.entities (ground (arith, off))) ∙ l' in
              let (lt, rec0, at, its) = v.known j r old in
              (
                omega arith,
                rec0,
                ap (lookup r) recs ∙ lookup-put_ne r b.next rec b.recs (ground (arith, lt)) ∙ at,
                its,
              )
        ];
  }

  pub seat-entered :
      {reg reg' : Map RegEntry} {b : Backend F S} (client id : ℕ) (l : Option Lockstep)
      (rec : EntityRec S)
      → rec.src ≡ b.next
      → ((j : ℕ) → src_at j reg' ≡ (if id == j then some b.next else src_at j reg))
      → Distinct reg'
      → ConnMap reg b
      → ConnMap reg' (seat_entity client l id b.next rec b)
  unfolding seat_entity
  seat-entered client id none rec own sources d v = entered id rec refl refl refl own sources d v
  seat-entered {b = b} client id (some l) rec own sources d v =
      entered id
        (record rec { group = some (set_of client l.count b.next b).0; group_index = l.index }) refl
        refl refl own sources d v

  -- A departure, of whatever set.
  pub left :
      {reg reg' : Map RegEntry} {b b' : Backend F S} (id : ℕ)
      → b'.entities ≡ delete id b.entities
      → b'.recs ≡ b.recs
      → b'.next ≡ b.next
      → ((j : ℕ) → src_at j reg' ≡ (if id == j then none else src_at j reg))
      → Distinct reg'
      → ConnMap reg b
      → ConnMap reg' b'
  left {reg} {reg'} {b} {b'} id ents recs next sources d v = record {
    registry = d;
    conns = rw ents (delete-Distinct id b.entities v.conns);
    view = λ j. rw ents (elim (Bool-cases (id == j)) [
      | inl same ↦
          let it : id ≡ j = ground (arith, same) in
          (rw same at (sources j))
          ∙ sym (
              ap (λ i. lookup i (delete id b.entities)) (sym it)
              ∙ lookup-delete id b.entities v.conns)
      | inr off ↦
          (rw off at (sources j))
          ∙ v.view j
          ∙ sym (lookup-delete_ne j id b.entities (ground (arith, off)))
    ]);
    known = λ j r l.
        let l' : lookup j (delete id b.entities) ≡ some r = ap (lookup j) (sym ents) ∙ l in
        elim (Bool-cases (id == j)) [
          | inl same ↦
              let it : id ≡ j = ground (arith, same) in
              let gone : none ≡ some r =
                sym (
                  ap (λ i. lookup i (delete id b.entities)) (sym it)
                  ∙ lookup-delete id b.entities v.conns)
                ∙ l' in
              absurd (ground (arith, gone))
          | inr off ↦
              let old : lookup j b.entities ≡ some r =
                sym (lookup-delete_ne j id b.entities (ground (arith, off))) ∙ l' in
              let (lt, rec0, at, its) = v.known j r old in
              (omega arith, rec0, ap (lookup r) recs ∙ at, its)
        ];
  }
