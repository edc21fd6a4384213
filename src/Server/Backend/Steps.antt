-- ===== src/Server/Backend/Steps.antt =====
-- The conn-map through each operation of the host.
use mathlib.Core.Path.{subst}
use panaudia_lasa.Prelude.{
  ℕ, ◌≡◌, refl, sym, ◌∙◌, inl, inr, Bool, true, false, Option, List, arith, Bool-cases,
  Option-cases,
}
use panaudia_lasa.Prelude.Float.{Float}
use panaudia_lasa.Prelude.Map.{Map, lookup}
use panaudia_lasa.Engine.Mixer.{
  RegEntry, Mixer, if_known, set_render_params, set_entity_muted, set_channel_params,
  set_personal_mute, set_personal_solo,
}
use panaudia_lasa.Engine.Plane.{Change, member, set_params, set_space_muted}
use panaudia_lasa.Server.State.{DerivedEntity, Backend, Host}
use panaudia_lasa.Server.Wiring.{
  Event, entity_render, channel_membership, entity_muted, channel_muted, channel_gain,
  channel_attenuation, personal_mute, personal_solo, dof_value, other_event, ProfileDefaults,
  observe, flush_joined, set_dof, entity_update, channel_update, on_event, on_marker, marker_entity,
  render_params, set_field, set_membership,
}
use panaudia_lasa.Engine.Params.{RenderParams}
use panaudia_lasa.Server.Backend.Agree.{ConnMap, with_rec}

module _ {F : Type 0} where
  if_known-reg : (id : ℕ) (c : Change F) (m : Mixer F) → (if_known id c m).0.reg ≡ m.reg
  if_known-reg id c m = elim (Option-cases (lookup id m.reg)) [
    | inl e ↦ rw (e, if_known) refl
    | inr (r, e) ↦ rw (e, if_known) refl
  ]

  params-reg :
      (id : ℕ) (v : RenderParams F) (m : Mixer F) → (set_render_params id v m).0.reg ≡ m.reg
  unfolding set_render_params
  params-reg id v m = if_known-reg id (set_params id v) m

  muted-reg : (id : ℕ) (on : Bool) (m : Mixer F) → (set_entity_muted id on m).0.reg ≡ m.reg
  unfolding set_entity_muted
  muted-reg id on m = if_known-reg id (set_space_muted id on) m

module _ {F S : Type 0} where
  -- Equal registries.
  pub same_reg :
      {reg reg' : Map RegEntry} {b : Backend F S} → reg' ≡ reg → ConnMap reg b → ConnMap reg' b
  same_reg {reg} {reg'} {b} e v = subst (λ r. ConnMap r b) (sym e) v

  pub flush-reg : (id : ℕ) (h : Host F S) → (flush_joined id h).mixer.reg ≡ h.mixer.reg
  unfolding flush_joined
  flush-reg id h = elim (Option-cases (lookup id h.wiring.ents)) [
    | inl e ↦ elim (Bool-cases (member id h.wiring.muted)) [
      | inl m ↦ rw (e, m) (muted-reg id true h.mixer)
      | inr m ↦ rw (e, m) refl
    ]
    | inr (d, e) ↦ elim (Bool-cases (member id h.wiring.muted)) [
      | inl m ↦
          rw (e, m)
            (muted-reg id true (set_render_params id (render_params d) h.mixer).0
              ∙ params-reg id (render_params d) h.mixer)
      | inr m ↦ rw (e, m) (params-reg id (render_params d) h.mixer)
    ]
  ]

  abbrev pub Mapped : Host F S → Type 0
  Mapped h = ConnMap h.mixer.reg h.backend

  update-Mapped :
      (id : ℕ) (fn : DerivedEntity F → DerivedEntity F) (h : Host F S)
      → Mapped h
      → Mapped (entity_update id fn h)
  unfolding entity_update
  update-Mapped id fn h v = elim (Option-cases (lookup id h.wiring.ents)) [
    | inl e ↦ rw (e, entity_update) v
    | inr (d, e) ↦ rw (e, entity_update) (same_reg (params-reg id (render_params (fn d)) h.mixer) v)
  ]

  dof-Mapped : (id dof : ℕ) (h : Host F S) → Mapped h → Mapped (set_dof id dof h)
  unfolding set_dof
  dof-Mapped id dof h v = elim (Option-cases (lookup id h.backend.entities)) [
    | inl e ↦ rw (e, set_dof) v
    | inr (r, e) ↦
        let (lt, rec, at, its) = v.known id r e in
        rw (e, at, set_dof)
          (with_rec r rec (record rec { dof = dof }) at refl refl (omega arith) refl v)
  ]

module _ {F S : Type 0} (fl : Float F) (base : ProfileDefaults F) where
  event-Mapped : (e : Event F) (h : Host F S) → Mapped h → Mapped (on_event fl base e h)
  unfolding on_event channel_update set_channel_params set_personal_mute set_personal_solo
  event-Mapped (entity_render id field x) h v = update-Mapped id (set_field field x) h v
  event-Mapped (channel_membership id channel hears is_member) h v =
      update-Mapped id (set_membership channel hears is_member) h v
  event-Mapped (entity_muted id on) h v = same_reg (muted-reg id on h.mixer) v
  event-Mapped (channel_muted channel on) h v = same_reg refl v
  event-Mapped (channel_gain channel x) h v = same_reg refl v
  event-Mapped (channel_attenuation channel x) h v = same_reg refl v
  event-Mapped (personal_mute owner other on) h v = same_reg refl v
  event-Mapped (personal_solo owner other on) h v = same_reg refl v
  event-Mapped (dof_value id x) h v = dof-Mapped id x h v
  event-Mapped other_event h v = v

  marker-Mapped :
      (id : ℕ) (cleared : Bool) (h : Host F S) → Mapped h → Mapped (on_marker fl base id cleared h)
  unfolding on_marker
  marker-Mapped id true h v = v
  marker-Mapped id false h v = elim (Option-cases (lookup id h.wiring.ents)) [
    | inl e ↦ rw (e, on_marker) v
    | inr (d, e) ↦ rw (e, on_marker) v
  ]

  pub observe-Mapped :
      (parse : List ℕ → List ℕ → Bool → Option (Event F)) (name : List ℕ → ℕ) (key value : List ℕ)
      (cleared : Bool) (h : Host F S)
      → Mapped h
      → Mapped (observe fl base parse name key value cleared h)
  unfolding observe
  observe-Mapped parse name key value cleared h v = elim (Option-cases (marker_entity key)) [
    | inr (id, e) ↦ rw (e, observe) (marker-Mapped (name id) cleared h v)
    | inl e ↦ elim (Option-cases (parse key value cleared)) [
      | inl none_in ↦ rw (e, none_in, observe) v
      | inr (ev, parsed) ↦ rw (e, parsed, observe) (event-Mapped ev h v)
    ]
  ]
