-- ===== src/Server/Backend/Mapped.antt =====
-- The conn-map through joins, departures, sinks and poses.
use mathlib.Core.Path.{subst}
use panaudia_lasa.Prelude.{
  ℕ, ◌+◌, ◌≡◌, refl, sym, ap, ◌∙◌, ◌⊎◌, inl, inr, Option, none, some, [], ◌∷◌, ◌++◌, arith, ◌==◌,
  Bool-cases, Option-cases, Bool, ◌||◌,
}
use panaudia_lasa.Prelude.Map.{Map, lookup, delete, Distinct}
use panaudia_lasa.Engine.Pose.{Pose}
use panaudia_lasa.Engine.Plane.{is_none}
use panaudia_lasa.Engine.Mixer.{
  RegEntry, Mixer, Refusal, err_bad_group, add_source, add_sink, add_ambi_sink, remove_source,
  remove_sink, remove_ambi_sink,
}
use panaudia_lasa.Engine.Mixer.Sources.{
  same_src, src_at, Admits, Leaves, add_source-src, add_sink-src, add_ambi_sink-src,
  remove_source-src, remove_sink-src, remove_ambi_sink-src, kept, kept-Admits,
}
use panaudia_lasa.Server.State.{EntityRec, Backend, Host}
use panaudia_lasa.Server.Backend.{
  ResolvedEntity, Widths, seat_entity, engine_add, answer_join, entity_joined, leave_group,
  remove_halves, entity_left, new_rec,
}
use panaudia_lasa.Server.Backend.Sinks.{
  Format, binaural, ambi2, ambi3, unknown_format, SinkSession, entity_frame, add_pose_sink,
  remove_pose_sink, add_format, start_sink, stop_format, drop_sink, stop_session,
}
use panaudia_lasa.Server.Backend.Agree.{ConnMap, with_reg, with_rec, with_mixer, seat-entered, left}
use panaudia_lasa.Server.Backend.Steps.{same_reg, flush-reg, Mapped}

module _ {F : Type 0} where
  removed : (id : ℕ) (m : Mixer F) → Distinct m.reg → Leaves id none m (remove_halves id m)
  removed id m d =
      let one = remove_source-src id m d in
      let m1 = remove_source id m in
      let two = remove_sink-src id m1 one.distinct in
      let m2 = remove_sink id m1 in
      let three = remove_ambi_sink-src id 2 m2 two.distinct in
      let m3 = remove_ambi_sink id 2 m2 in
      let four = remove_ambi_sink-src id 3 m3 three.distinct in
      record {
        sources = λ j. kept id four j ∙ kept id three j ∙ kept id two j ∙ one.sources j;
        distinct = four.distinct;
      }

  stop-Leaves :
      (f : Format) (id : ℕ) (m : Mixer F)
      → Distinct m.reg
      → Leaves id (src_at id m.reg) m (stop_format f id m)
  stop-Leaves binaural id m d = remove_sink-src id m d
  stop-Leaves ambi2 id m d = remove_ambi_sink-src id 2 m d
  stop-Leaves ambi3 id m d = remove_ambi_sink-src id 3 m d
  stop-Leaves unknown_format id m d = record {
    sources = λ j. sym (same_src id j m.reg);
    distinct = d;
  }

  answer-keeps :
      (id : ℕ) (m : Mixer F) (a : Mixer F × Option Refusal)
      → Admits id (src_at id m.reg) m a ⊎ ((x : Refusal) × (a ≡ (m, some x)))
      → Distinct m.reg
      → ((j : ℕ) → src_at j a.0.reg ≡ src_at j m.reg) × Distinct a.0.reg
  answer-keeps id m a (inl taken) d = (kept-Admits id taken, taken.distinct d)
  answer-keeps id m a (inr (x, refused)) d =
      let same : a.0.reg ≡ m.reg = ap (λ y. y.0.reg) {x = a} {y = (m, some x)} refused in
      (λ j. ap (src_at j) same, subst Distinct (sym same) d)

  format-keeps :
      (f : Format) (id k : ℕ) (m : Mixer F)
      → Distinct m.reg
      → ((j : ℕ) → src_at j (add_format f id k m).0.reg ≡ src_at j m.reg)
        × Distinct (add_format f id k m).0.reg
  format-keeps binaural id k m d = answer-keeps id m (add_sink id k m) (add_sink-src id k m) d
  format-keeps ambi2 id k m d =
      answer-keeps id m (add_ambi_sink id 2 k m) (add_ambi_sink-src id 2 k m) d
  format-keeps ambi3 id k m d =
      answer-keeps id m (add_ambi_sink id 3 k m) (add_ambi_sink-src id 3 k m) d
  format-keeps unknown_format id k m d = (λ j. refl, d)

module _ {F S : Type 0} where
  group_keeps :
      (client : ℕ) (rec : EntityRec S) (b : Backend F S)
      → ((leave_group client rec b).entities ≡ b.entities)
        × ((leave_group client rec b).recs ≡ b.recs)
        × ((leave_group client rec b).next ≡ b.next)
  unfolding leave_group
  group_keeps client rec b = ground arith

  pub left-Mapped : (client id : ℕ) (h : Host F S) → Mapped h → Mapped (entity_left client id h)
  unfolding entity_left
  left-Mapped client id h v = elim (Option-cases (lookup id h.backend.entities)) [
    | inl e ↦ rw (e, entity_left) v
    | inr (r, e) ↦
        let (lt, rec, at, its) = v.known id r e in
        elim (Bool-cases (rec.client_id == client)) [
          | inl owner ↦
              let out = removed id h.mixer v.registry in
              let (ents, recs, next) =
                group_keeps client rec
                  (record h.backend { entities = delete id h.backend.entities }) in
              rw (e, at, entity_left, owner) (left id ents recs next out.sources out.distinct v)
          | inr stranger ↦ rw (e, at, entity_left, stranger) v
        ]
  ]

  pub stop-Mapped : (s : SinkSession) (h : Host F S) → Mapped h → Mapped (stop_session s h)
  unfolding stop_session remove_pose_sink
  stop-Mapped s h v =
      let v' = with_mixer s.entity (stop-Leaves s.format s.entity h.mixer v.registry) v in
      elim (Option-cases (lookup s.rec h.backend.recs)) [
        | inl e ↦ rw (e, remove_pose_sink) v'
        | inr (rec, e) ↦
            rw (e, remove_pose_sink)
              (with_rec s.rec rec (record rec { sinks = drop_sink s.target rec.sinks }) e refl refl
                (omega arith) refl v')
      ]

pub engine_add-cases :
    {F : Type 0} (fits : Bool) (e : ResolvedEntity F) (r : ℕ) (m : Mixer F)
    → (engine_add fits e r m ≡ add_source e.id r m)
      ⊎ (engine_add fits e r m ≡ (m, some err_bad_group))
unfolding engine_add
engine_add-cases fits e r m = elim (Bool-cases (is_none e.lockstep || fits)) [
  | inl b ↦ rw b (inl refl)
  | inr b ↦ rw b (inr refl)
]

module _ {F S : Type 0} (zero32 : S) (ws : Widths F S) where
  answered-Mapped :
      (client : ℕ) (e : ResolvedEntity F) (h : Host F S)
      → Mapped h
      → Mapped (answer_join zero32 ws (add_source e.id h.backend.next h.mixer) client e h).0
  unfolding answer_join
  answered-Mapped client e h v = elim (add_source-src e.id h.backend.next h.mixer) [
    | inr (x, refused) ↦ subst (λ a. Mapped (answer_join zero32 ws a client e h).0) (sym refused) v
    | inl a ↦
        let r = h.backend.next in
        let rec = new_rec zero32 ws client e r in
        let seated : Host F S = record h {
          mixer = (add_source e.id r h.mixer).0;
          backend = seat_entity client e.lockstep e.id r rec h.backend;
        } in
        rw (a.accepted, answer_join)
          (same_reg (flush-reg e.id seated)
            (seat-entered client e.id e.lockstep rec refl a.sources (a.distinct v.registry) v))
  ]

  pub joined-Mapped :
      (fits : Bool) (client : ℕ) (e : ResolvedEntity F) (h : Host F S)
      → Mapped h
      → Mapped (entity_joined zero32 ws fits client e h).0
  unfolding entity_joined answer_join
  joined-Mapped fits client e h v = elim (engine_add-cases fits e h.backend.next h.mixer) [
    | inl same ↦
        subst (λ a. Mapped (answer_join zero32 ws a client e h).0) (sym same)
          (answered-Mapped client e h v)
    | inr unfit ↦ subst (λ a. Mapped (answer_join zero32 ws a client e h).0) (sym unfit) v
  ]

  pub entity_frame-Mapped :
      (r : ℕ) (rec : EntityRec S) (pose : Option (Pose S)) (reg : Map RegEntry) (b : Backend F S)
      → lookup r b.recs ≡ some rec
      → ConnMap reg b
      → ConnMap reg (entity_frame zero32 ws r rec pose b).0
  unfolding entity_frame
  entity_frame-Mapped r rec none reg b at v = v
  entity_frame-Mapped r rec (some pose) reg b at v = elim (Bool-cases (rec.dof == 0)) [
    | inl e ↦ rw e v
    | inr e ↦ rw e (with_rec r rec _ at refl refl (omega arith) refl v)
  ]

  started :
      (r : ℕ) (rec : EntityRec S) (k : ℕ) (reg : Map RegEntry) (b : Backend F S)
      → lookup r b.recs ≡ some rec
      → ConnMap reg b
      → ConnMap reg (add_pose_sink zero32 ws r k (record b { next = b.next + 1 }))
  unfolding add_pose_sink
  started r rec k reg b at v =
      rw (at, add_pose_sink)
        (with_rec r rec (record rec { sinks = rec.sinks ++ (k ∷ []) }) at refl refl (omega arith)
          refl v)

  pub start-Mapped :
      (id : ℕ) (f : Format) (h : Host F S) → Mapped h → Mapped (start_sink zero32 ws id f h).0
  unfolding start_sink
  start-Mapped id f h v = elim (Option-cases (lookup id h.backend.entities)) [
    | inl e ↦ rw (e, start_sink) v
    | inr (r, e) ↦
        let (lt, rec, at, its) = v.known id r e in
        elim (Bool-cases rec.head_frame) [
          | inl fixed ↦ rw (e, at, start_sink, fixed) v
          | inr free ↦
              let k = h.backend.next in
              let (same, d) = format-keeps f id k h.mixer v.registry in
              let v' = with_reg d same v in
              elim (Option-cases (add_format f id k h.mixer).1) [
                | inl ok ↦ rw (e, at, start_sink, free, ok) (started r rec k _ h.backend at v')
                | inr (x, no_sink) ↦ rw (e, at, start_sink, free, no_sink) v'
              ]
        ]
  ]
