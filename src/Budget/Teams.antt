-- ===== src/Budget/Teams.antt =====
-- `sync_teams`: the loaded budgets are those of the enabled teams.
use brigh_to_router.Prelude.{
  ℕ, ◌≡◌, ap, ◌⊎◌, inl, inr, refl, true, Option, none, some, List, [], ◌∷◌, arith, ◌==◌, ==_iff,
  if◌then◌else◌, Bool-cases, Option-cases,
}
use brigh_to_router.Prelude.Eq.{ℕ_eq}
use brigh_to_router.Prelude.Maps.{Map, lookup, remove, lookup-insert, lookup-remove}
use brigh_to_router.Contract.Config.{Budget, Team}
use brigh_to_router.Budget.{RamBudgetStore, set_budget, sync_each, prune, has_team, sync_teams}

-- Keys that occur once, as in a `HashMap`.
abbrev pub UniqueKeys : Map ℕ Team → Type 0
UniqueKeys [] = Unit
UniqueKeys ((k, v) ∷ m) = (lookup k m ≡ none) × UniqueKeys m

-- The budget that the snapshot gives to a team: none if the team is missing or disabled.
abbrev pub budget_of : Option Team → Option Budget
budget_of none = none
budget_of (some t) = if t.enabled then t.budget else none

lookup-set_budget :
    (m : Map ℕ Budget) (id j : ℕ) (b : Option Budget)
    → lookup j (set_budget m id b) ≡ (if id == j then b else lookup j m)
unfolding set_budget
lookup-set_budget m id j none = lookup-remove id j m
lookup-set_budget m id j (some b) = lookup-insert id j b m

-- One team of the second loop.
lookup-sync_one :
    (m : Map ℕ Budget) (id j : ℕ) (t : Team)
    → lookup j (if t.enabled then set_budget m id t.budget else remove id m)
      ≡ (if id == j then budget_of (some t) else lookup j m)
lookup-sync_one m id j t = elim (Bool-cases t.enabled) [
  | inl on ↦ rw on (lookup-set_budget m id j t.budget)
  | inr off ↦ rw off (lookup-remove id j m)
]

lookup_same : (teams : Map ℕ Team) (id j : ℕ) → (id == j) ≡ true → lookup id teams ≡ lookup j teams
lookup_same teams id j h = ap (λ k. lookup k teams) ((==_iff id j).0 h)

abbrev synced : Option Team → Option Budget → Option Budget
synced none old = old
synced (some t) old = budget_of (some t)

lookup-sync_each :
    (teams : Map ℕ Team) (m : Map ℕ Budget) (j : ℕ)
    → UniqueKeys teams
    → lookup j (sync_each teams m) ≡ synced (lookup j teams) (lookup j m)
unfolding sync_each lookup
lookup-sync_each [] m j u = refl
lookup-sync_each ((id, t) ∷ teams) m j u = ground (
  arith,
  lookup-sync_one m id j t,
  lookup-sync_each teams (if t.enabled then set_budget m id t.budget else remove id m) j u.1,
  lookup_same teams id j,
)

-- What the first loop does to one key.
lookup-prune :
    (current : List (ℕ × Budget)) (teams : Map ℕ Team) (m : Map ℕ Budget) (j : ℕ)
    → lookup j teams ≡ none
    → (lookup j m ≡ none) ⊎ ((b : Budget) × (lookup j current ≡ some b))
    → lookup j (prune current teams m) ≡ none
unfolding prune has_team lookup
lookup-prune [] teams m j e (inl h) = h
lookup-prune [] teams m j e (inr (b, h)) = cc
lookup-prune ((id, b) ∷ current) teams m j e h =
    lookup-prune current teams (if has_team (lookup id teams) then m else remove id m) j e
      (ground (arith, lookup-remove id j m, lookup_same teams id j))

-- After `sync_teams` the budget that is loaded for a team is the one of the snapshot, and none for
-- a team that the snapshot lacks or disables, whatever was loaded before.
pub sync_teams-eq :
    (s : RamBudgetStore) (teams : Map ℕ Team) (j : ℕ)
    → UniqueKeys teams
    → lookup j (sync_teams s teams).team_budgets ≡ budget_of (lookup j teams)
unfolding sync_teams
sync_teams-eq s teams j u =
    let synced_eq = lookup-sync_each teams (prune s.team_budgets teams s.team_budgets) j u in
    elim (Option-cases (lookup j teams)) [
      | inl e ↦ ground (
        arith,
        synced_eq,
        e,
        lookup-prune s.team_budgets teams s.team_budgets j e
            (Option-cases (lookup j s.team_budgets)),
      )
      | inr (t, e) ↦ ground (arith, synced_eq, e)
    ]
