-- ===== src/Engine/Mixer/Close.antt =====
-- What Close leaves behind: no sink that is attached, and every sink released.
use panaudia_lasa.Prelude.{
  ℕ, ◌≡◌, refl, ap, ◌∙◌, inl, inr, some, [], arith, Option-cases, Bool, true, false, if◌then◌else◌,
}
use panaudia_lasa.Prelude.Float.{Float}
use panaudia_lasa.Prelude.Map.{Map, values-Distinct, lookup}
use panaudia_lasa.Engine.Plane.{Plane, member, drain_changes}
use panaudia_lasa.Engine.Plane.Sound.{Sound}
use panaudia_lasa.Engine.Mixer.{RegEntry, Mixer, release_slots, close}
use panaudia_lasa.Engine.Mixer.Released.{
  AllIn, member-AllIn, sinks_of, Released, lookup-Released, Idle, Owed, release_slots-Idle,
  release_slots_visit, release_slots_pay,
}
use panaudia_lasa.Engine.Mixer.Agree.{Agrees, entry, found}
use panaudia_lasa.Engine.Mixer.Order.{Reachable, Reachable-Pending}

module _ {F : Type 0} (fl : Float F) where
  close_is :
      (m : Mixer F) (p : Plane F)
      → m.closed ≡ false
      → drain_changes fl m.changes m.plane ≡ some p
      → close fl m
        ≡ some (record m { closed = true; changes = []; plane = release_slots p.slots p })
  unfolding close
  close_is m p live d = rw (close, d) (unless m.closed (some m) _ live)
    where
      unless : {A : Type 0} (b : Bool) (x y : A) → b ≡ false → (if b then x else y) ≡ y
      unless true x y e = absurd (ground (arith, e))
      unless false x y e = refl

  release_slots-Idle_all :
      (n : ℕ) (p : Plane F) (k : ℕ) → Sound n p → Idle k (release_slots p.slots p)
  release_slots-Idle_all n p k v = elim (Option-cases (lookup k p.ents)) [
    | inl l ↦ release_slots-Idle k p.slots p (λ e h. absurd (ground (arith, l, h)))
    | inr (e, l) ↦ release_slots_visit k e.slot p.slots p (v.seated k e l).seat
  ]

  -- The sinks of an entry of the registry are released.
  release_slots_entry :
      {n : ℕ} {reg : Map RegEntry} (p : Plane F)
      → Agrees n reg p
      → (k : ℕ) (r : RegEntry) → lookup k reg ≡ some r
      → AllIn (release_slots p.slots p).destroyed (sinks_of r)
  unfolding Owed
  release_slots_entry p v k r known =
      let (e, l, is, named) = found v k r known in
      member-AllIn (release_slots p.slots p).destroyed (sinks_of r) (λ h m.
        release_slots_pay k h e.slot p.slots p (inl (e, l, ap (λ q. member h (sinks_of q)) is ∙ m))
          (v.sound.seated k e l).seat)

  -- Closing an open mixer that calls and ticks have led to, with sinks removed as for a tick,
  -- does not panic. The mixer is closed then with nothing queued, no entity has a sink or an
  -- ambisonic render, and every sink and every ambisonic sink of the registry has been released.
  pub close_lem :
      (m : Mixer F)
      → Reachable fl m
      → m.closed ≡ false
      → (m' : Mixer F) × (close fl m ≡ some m')
        × (m'.closed ≡ true)
        × (m'.changes ≡ [])
        × ((j : ℕ) → Idle j m'.plane)
        × Released m'.plane.destroyed m.reg
  close_lem m reach live =
      let v = Reachable-Pending fl reach in
      let p = v.ready in
      (
        record m { closed = true; changes = []; plane = release_slots p.slots p },
        close_is m p live v.drained,
        refl,
        refl,
        λ j. release_slots-Idle_all m.max_entities p j v.agrees.sound,
        lookup-Released (release_slots p.slots p).destroyed m.reg
            (rw (← v.agrees.view) (values-Distinct entry p.ents v.agrees.sound.distinct))
            (release_slots_entry p v.agrees),
      )
