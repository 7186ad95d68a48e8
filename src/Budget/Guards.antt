-- ===== src/Budget/Guards.antt =====
-- The slots of `acquire_concurrency` and their guards.
use brigh_to_router.Prelude.{
  ℕ, zero, suc, ◌+◌, ◌-◌, ◌≡◌, refl, leb, if_intro, Option, none, some, arith, ◌==◌, ==_iff,
  if◌then◌else◌,
}
use brigh_to_router.Prelude.Eq.{ℕ_eq}
use brigh_to_router.Prelude.Maps.{lookup, lookup-insert, lookup-modify}
use brigh_to_router.Contract.Config.{ApiKey, unwrap_or}
use brigh_to_router.Budget.{
  RamBudgetStore, acquire_slot, acquire_limited, acquire_concurrency, release_concurrency,
}

-- The gauge of a key.
unfoldable pub gauge : RamBudgetStore → ℕ → ℕ
gauge s id = unwrap_or (lookup id s.inflight) 0

-- The slots that a guard holds for a key.
abbrev pub slots : Option ℕ → ℕ → ℕ
slots none j = 0
slots (some id) j = if id == j then 1 else 0

abbrev pub granted : Option (Option ℕ) → ℕ → ℕ
granted none j = 0
granted (some g) j = slots g j

acquire_slot-gauge :
    (s : RamBudgetStore) (id limit j : ℕ)
    → gauge (acquire_slot s id limit).0 j ≡ gauge s j + granted (acquire_slot s id limit).1 j
unfolding gauge acquire_slot
acquire_slot-gauge s id limit j = ground (
  arith,
  ==_iff id j,
  lookup-insert id j (unwrap_or (lookup id s.inflight) 0) s.inflight,
  lookup-insert id j (unwrap_or (lookup id s.inflight) 0 + 1) s.inflight,
)

acquire_limited-gauge :
    (s : RamBudgetStore) (id : ℕ) (limit : Option ℕ) (j : ℕ)
    → gauge (acquire_limited s id limit).0 j ≡ gauge s j + granted (acquire_limited s id limit).1 j
unfolding acquire_limited
acquire_limited-gauge s id none j = omega arith
acquire_limited-gauge s id (some zero) j = omega arith
acquire_limited-gauge s id (some (suc n)) j = acquire_slot-gauge s id (suc n) j

-- Acquiring adds to the gauge of each key the slots of the guard, and a refusal adds nothing.
pub acquire_concurrency-gauge :
    (s : RamBudgetStore) (key : ApiKey) (j : ℕ)
    → gauge (acquire_concurrency s key).0 j ≡ gauge s j + granted (acquire_concurrency s key).1 j
unfolding acquire_concurrency
acquire_concurrency-gauge s key j = acquire_limited-gauge s key.id key.concurrency_limit j

release-gauge :
    (s : RamBudgetStore) (g : Option ℕ) (j : ℕ)
    → gauge (release_concurrency s g) j ≡ gauge s j - slots g j
unfolding gauge release_concurrency
release-gauge s none j = omega arith
release-gauge s (some id) j = ground (arith, lookup-modify id j (λ (v : ℕ). v - 1) s.inflight)

-- Dropping the guard of an acquisition gives every gauge its value from before.
pub release-acquire :
    (s t : RamBudgetStore) (key : ApiKey) (g : Option ℕ) (j : ℕ)
    → acquire_concurrency s key ≡ (t, some g)
    → gauge (release_concurrency t g) j ≡ gauge s j
release-acquire s t key g j e =
    let h : gauge t j ≡ gauge s j + slots g j = rw e at (acquire_concurrency-gauge s key j) in
    omega (arith, h, release-gauge t g j)

acquire_slot-usage :
    (s : RamBudgetStore) (id limit : ℕ) → (acquire_slot s id limit).0.usage ≡ s.usage
unfolding acquire_slot
acquire_slot-usage s id limit =
    if_intro {A = RamBudgetStore × Option (Option ℕ)} (λ p. p.0.usage ≡ s.usage)
      (leb limit (unwrap_or (lookup id s.inflight) 0)) _ _ (λ e. refl) (λ e. refl)

acquire_limited-usage :
    (s : RamBudgetStore) (id : ℕ) (limit : Option ℕ)
    → (acquire_limited s id limit).0.usage ≡ s.usage
unfolding acquire_limited
acquire_limited-usage s id none = refl
acquire_limited-usage s id (some zero) = refl
acquire_limited-usage s id (some (suc n)) = acquire_slot-usage s id (suc n)

-- A slot does not touch the usage.
pub acquire_concurrency-usage :
    (s : RamBudgetStore) (key : ApiKey) → (acquire_concurrency s key).0.usage ≡ s.usage
unfolding acquire_concurrency
acquire_concurrency-usage s key = acquire_limited-usage s key.id key.concurrency_limit
