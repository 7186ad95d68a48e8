-- ===== src/Route/Exclusions.antt =====
-- `BackendExclusions` of src/route/mod.rs: eight ids in place, and a vector for the rest.
pub mod Laws
use brigh_to_router.Prelude.{
  ℕ, zero, suc, ◌+◌, Bool, true, false, ◌||◌, List, [], ◌∷◌, ◌++◌, take, set, replicate, ltb, ◌==◌,
  if◌then◌else◌,
}

abbrev pub inline_exclusions : ℕ
inline_exclusions = 8

pub record BackendExclusions : Type 0 where
  pub inline : List ℕ
  pub len : ℕ
  pub overflow : List ℕ

-- `slice::contains`.
unfoldable pub mem : List ℕ → ℕ → Bool
mem [] a = false
mem (x ∷ xs) a = (x == a) || mem xs a

unfoldable pub contains : BackendExclusions → ℕ → Bool
contains e id = mem (take e.len e.inline) id || mem e.overflow id

unfoldable pub insert : ℕ → BackendExclusions → BackendExclusions
insert id e =
    if contains e id
    then e
    else if ltb e.len inline_exclusions
    then record e { inline = set e.inline e.len id; len = e.len + 1 }
    else record e { overflow = e.overflow ++ id ∷ [] }

unfoldable pub default : BackendExclusions
default = record { inline = replicate inline_exclusions 0; len = 0; overflow = [] }
