-- ===== src/Engine/Group.antt =====
-- engine/engine/group.go: the seats of a lockstep set, where a member is known by its identity. The
-- frames that the members share are in Frames.
pub mod Seats
pub mod Registry
pub mod Finds
pub mod United
pub mod Frames
pub mod Weave
pub mod Gather
pub mod Written
use panaudia_lasa.Prelude.{
  ℕ, zero, suc, ◌+◌, ◌-◌, ◌*◌, Bool, true, false, ◌&&◌, ◌||◌, not, Option, none, some, List, [],
  ◌∷◌, ◌==◌, if◌then◌else◌, get_elem?, set, get_or, length, replicate,
}

pub record SourceGroup : Type 0 where
  pub n : ℕ
  pub members : List (Option ℕ)
  pub live : ℕ

unfoldable pub new_source_group : ℕ → SourceGroup
new_source_group n = record { n = n; members = replicate n none; live = 0 }

-- The member of a seat; the source indexes out of range where there is none.
abbrev pub seat : SourceGroup → ℕ → Option ℕ
seat g index = get_or g.members index none

abbrev pub holds : Option ℕ → ℕ → Bool
holds none s = false
holds (some t) s = t == s

abbrev pub vacant : Option ℕ → Bool
vacant none = true
vacant (some t) = false

unfoldable pub join : ℕ → ℕ → SourceGroup → SourceGroup
join s index g = record g {
  live = if vacant (seat g index) then g.live + 1 else g.live;
  members = set g.members index (some s);
}

-- The set without the member, and whether it is empty now.
unfoldable pub leave : ℕ → ℕ → SourceGroup → SourceGroup × Bool
leave index s g =
    let g' =
      if holds (seat g index) s
      then record g { members = set g.members index none; live = g.live - 1 }
      else g in
    (g', g'.live == 0)
