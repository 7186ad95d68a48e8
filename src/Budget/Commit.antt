-- ===== src/Budget/Commit.antt =====
-- A commit charges what was used.
use brigh_to_router.Prelude.{
  ℕ, ◌+◌, ◌≤◌, ◌<◌, ◌≡◌, ◌≢◌, refl, ap, inl, inr, Bool, true, false, ◌||◌, Bool-cases, Option, none,
  some, List, [], ◌∷◌, All, arith, ltb, if◌then◌else◌, u64_mod, Option-cases,
}
use brigh_to_router.Prelude.Eq.{◌=?◌, list_eq}
use brigh_to_router.Prelude.Maps.{lookup}
use brigh_to_router.Prelude.Result.{Result, ok, err}
use brigh_to_router.Prelude.Text.{Text}
use brigh_to_router.Contract.Config.{ApiKey}
use brigh_to_router.Budget.Usage.{
  Counters, UsageKey, ReservedScope, usage_key_eq, usage_key_beq_iff, used, commit_one,
  reserve_scope, commit_scopes,
}
use brigh_to_router.Budget.Usage.Laws.{
  reserve_scope_lem, reserved_on, used-commit_one, lookup-commit_one,
}
use brigh_to_router.Budget.{
  RamBudgetStore, BudgetError, Effective, total_key, model_key, effective_budget, reserve_model,
  after_model, after_total, reserve_budget, take_rpm, check_rate, rate_result, after_budget,
  reserve, commit,
}
use brigh_to_router.Budget.Usage.Presence.{Has, reserve_scope-Has}
use brigh_to_router.Budget.Conservation.{used_same, reserve-used}
use brigh_to_router.Budget.Limits.{effective-distinct, key_ne}

-- The keys of a list of scopes.
unfoldable pub on : List ReservedScope → UsageKey → Bool
on [] j = false
on (s ∷ ss) j = (s.key =? j) || on ss j

abbrev pub Distinct : List ReservedScope → Type 0
Distinct [] = Unit
Distinct (s ∷ ss) = (on ss s.key ≡ false) × Distinct ss

-- Each scope has its counter, which holds its amount and has room for the actual tokens.
abbrev pub Backed : Counters → ℕ → List ReservedScope → Type 0
Backed u actual =
    All λ s. Has u s.key × (s.amount ≤ used u s.key) × (used u s.key + actual < u64_mod)

-- Being backed is read off the lookups.
backed_of :
    (u v : Counters) (t : ReservedScope) (actual : ℕ)
    → lookup t.key v ≡ lookup t.key u
    → Has u t.key × (t.amount ≤ used u t.key) × (used u t.key + actual < u64_mod)
    → Has v t.key × (t.amount ≤ used v t.key) × (used v t.key + actual < u64_mod)
unfolding used
backed_of u v t actual e b = ground arith

Backed-commit_one :
    (u : Counters) (s : ReservedScope) (ss : List ReservedScope) (actual : ℕ)
    → on ss s.key ≡ false
    → Backed u actual ss
    → Backed (commit_one u s actual) actual ss
unfolding on
Backed-commit_one u s [] actual h b = tt
Backed-commit_one u s (t ∷ ss) actual h b = (
  backed_of u (commit_one u s actual) t actual
      (lookup-commit_one u s t.key actual (ground (arith, usage_key_beq_iff t.key s.key))) b.0,
  Backed-commit_one u s ss actual (ground arith) b.1,
)

on_same : (ss : List ReservedScope) (k j : UsageKey) → (k =? j) ≡ true → on ss k ≡ on ss j
on_same ss k j h = ap (on ss) ((usage_key_beq_iff k j).0 h)

reserved_on-zero : (ss : List ReservedScope) (j : UsageKey) → on ss j ≡ false → reserved_on ss j ≡ 0
unfolding on reserved_on
reserved_on-zero [] j h = refl
reserved_on-zero (s ∷ ss) j h = ground (arith, reserved_on-zero ss j)

-- A commit of scopes on different keys, all backed by counters that do not wrap around, leaves each
-- key at its usage less what they held there, plus the actual tokens on the keys of the scopes.
pub used-commit_scopes :
    (u : Counters) (ss : List ReservedScope) (actual : ℕ) (j : UsageKey)
    → Distinct ss
    → Backed u actual ss
    → used (commit_scopes u ss actual) j + reserved_on ss j
      ≡ used u j + (if on ss j then actual else 0)
unfolding commit_scopes reserved_on on
used-commit_scopes u [] actual j d b = omega arith
used-commit_scopes u (s ∷ ss) actual j d b =
    let ih =
      used-commit_scopes (commit_one u s actual) ss actual j d.1
        (Backed-commit_one u s ss actual d.0 b.1) in
    ground (
      arith,
      ih,
      used-commit_one u s j (used u s.key) actual b.0.0 b.0.1 b.0.2,
      on_same ss s.key j,
      used_same u s.key j,
      reserved_on-zero ss j,
    )

-- The scopes of a reservation have distinct keys, each with a counter that holds the amount.
abbrev Sound : Counters × Result (List ReservedScope) BudgetError → Type 0
Sound (u, err e) = Unit
Sound (u, ok scopes) = Distinct scopes × All (λ s. Has u s.key × (s.amount ≤ used u s.key)) scopes

-- What a successful reservation of one scope leaves.
scope_facts :
    (u : Counters) (k : UsageKey) (limit amount : ℕ) (s : ReservedScope)
    → (reserve_scope u k limit amount).1 ≡ ok s
    → (s ≡ record { key = k; amount = amount })
      × Has (reserve_scope u k limit amount).0 k
      × (amount ≤ used (reserve_scope u k limit amount).0 k)
scope_facts u k limit amount s e = (
  ground (arith, reserve_scope_lem u k k limit amount),
  reserve_scope-Has u k k limit amount (inl refl),
  ground (arith, reserve_scope_lem u k k limit amount, usage_key_beq_iff k k),
)

after_model-Sound :
    (total : ReservedScope) (k : UsageKey) (est : ℕ) (p : Counters × Result ReservedScope ℕ)
    → (total.key =? k) ≡ false
    → Has p.0 total.key
    → total.amount ≤ used p.0 total.key
    → ((s : ReservedScope)
        → p.1 ≡ ok s
        → (s ≡ record { key = k; amount = est }) × Has p.0 k × (est ≤ used p.0 k))
    → Sound (after_model total p)
unfolding after_model on
after_model-Sound total k est (u, err r) d h le f = tt
after_model-Sound total k est (u, ok s) d h le f =
    let (e, hk, lek) = f s refl in
    (
      (
        ground (arith, usage_key_beq_iff s.key total.key, usage_key_beq_iff total.key k),
        (refl, tt),
      ),
      ((h, le), ((rw e hk, rw e lek), tt)),
    )

reserve_model-Sound :
    (total : ReservedScope) (u : Counters) (k : UsageKey) (cap : Option ℕ) (est : ℕ)
    → (total.key =? k) ≡ false
    → Has u total.key
    → total.amount ≤ used u total.key
    → Sound (reserve_model total u k cap est)
unfolding reserve_model on
reserve_model-Sound total u k none est d h le = ground arith
reserve_model-Sound total u k (some cap) est d h le =
    after_model-Sound total k est (reserve_scope u k cap est) d
      (reserve_scope-Has u k total.key cap est (inr h))
      (ground (arith, reserve_scope_lem u k total.key cap est, usage_key_beq_iff k total.key))
      (scope_facts u k cap est)

after_total-Sound :
    (e : Effective) (model : Text) (est now : ℕ) (p : Counters × Result ReservedScope ℕ)
    → e.total_scope ≢ e.model_scope
    → ((s : ReservedScope)
        → p.1 ≡ ok s
        → (s ≡ record { key = total_key e now; amount = est })
          × Has p.0 (total_key e now)
          × (est ≤ used p.0 (total_key e now)))
    → Sound (after_total e model est now p)
unfolding after_total
after_total-Sound e model est now (u, err r) d f = tt
after_total-Sound e model est now (u, ok total) d f =
    let (same, has, le) = f total refl in
    reserve_model-Sound total u (model_key e model now) (lookup model e.budget.per_model) est
      (rw same (key_ne e model now d)) (rw same has) (rw same le)

abbrev Apart : Option Effective → Type 0
Apart none = Unit
Apart (some e) = e.total_scope ≢ e.model_scope

reserve_budget-Sound :
    (e : Option Effective) (u : Counters) (model : Text) (est now : ℕ)
    → Apart e
    → Sound (reserve_budget e u model est now)
unfolding reserve_budget
reserve_budget-Sound none u model est now d = (tt, tt)
reserve_budget-Sound (some e) u model est now d =
    after_total-Sound e model est now _ d (scope_facts u (total_key e now) e.budget.max_tokens est)

abbrev SoundStore : RamBudgetStore × Result (List ReservedScope) BudgetError → Type 0
SoundStore (s, r) = Sound (s.usage, r)

rate_result-Sound :
    (scopes : List ReservedScope) (p : RamBudgetStore × Result (Unit {0}) ℕ)
    → Sound (p.0.usage, ok scopes)
    → SoundStore (rate_result scopes p)
unfolding rate_result
rate_result-Sound scopes (s, ok t) h = h
rate_result-Sound scopes (s, err d) h = tt

check_rate-Sound :
    (s : RamBudgetStore) (id : ℕ) (limit : Option ℕ) (now_ms : ℕ) (scopes : List ReservedScope)
    → Sound (s.usage, ok scopes)
    → SoundStore (check_rate s id limit now_ms scopes)
unfolding check_rate rate_result take_rpm
check_rate-Sound s id none now_ms scopes h = h
check_rate-Sound s id (some limit) now_ms scopes h = elim (Bool-cases (ltb 0 limit)) [
  | inl limited ↦ rw limited (rate_result-Sound scopes (take_rpm s id limit now_ms) h)
  | inr free ↦ rw free h
]

after_budget-Sound :
    (s : RamBudgetStore) (key : ApiKey) (now_ms : ℕ)
    (p : Counters × Result (List ReservedScope) BudgetError)
    → Sound p
    → SoundStore (after_budget s key now_ms p)
unfolding after_budget
after_budget-Sound s key now_ms (u, err e) h = h
after_budget-Sound s key now_ms (u, ok scopes) h =
    check_rate-Sound (record s { usage = u }) key.id key.rpm_limit now_ms scopes h

Apart-effective : (s : RamBudgetStore) (key : ApiKey) → Apart (effective_budget s key)
Apart-effective s key = elim (Option-cases (effective_budget s key)) [
  | inl e ↦ rw e tt
  | inr (b, e) ↦ rw e (effective-distinct s key b e)
]

reserve-Sound :
    (s : RamBudgetStore) (key : ApiKey) (model : Text) (est now_secs now_ms : ℕ)
    → SoundStore (reserve s key model est now_secs now_ms)
unfolding reserve
reserve-Sound s key model est now_secs now_ms = after_budget-Sound s key now_ms _ (
    reserve_budget-Sound (effective_budget s key) s.usage model est now_secs
      (Apart-effective s key))

All-Backed :
    (u : Counters) (actual : ℕ) (ss : List ReservedScope)
    → ((k : UsageKey) → used u k + actual < u64_mod)
    → All (λ s. Has u s.key × (s.amount ≤ used u s.key)) ss
    → Backed u actual ss
All-Backed u actual [] h b = tt
All-Backed u actual (s ∷ ss) h b = ((b.0.0, b.0.1, h s.key), All-Backed u actual ss h b.1)

-- A reservation that is committed charges each key of its scopes with the actual tokens, however
-- they compare with the estimate, and no other key, provided that no counter passes 64 bits.
pub commit-reserve :
    (s t : RamBudgetStore) (key : ApiKey) (model : Text) (est now_secs now_ms actual : ℕ)
    (scopes : List ReservedScope) (j : UsageKey)
    → reserve s key model est now_secs now_ms ≡ (t, ok scopes)
    → ((k : UsageKey) → used t.usage k + actual < u64_mod)
    → used (commit t scopes actual).usage j ≡ used s.usage j + (if on scopes j then actual else 0)
unfolding commit
commit-reserve s t key model est now_secs now_ms actual scopes j e room =
    let sound : Sound (t.usage, ok scopes) =
      rw e at (reserve-Sound s key model est now_secs now_ms) in
    let taken : used t.usage j ≡ used s.usage j + reserved_on scopes j =
      rw e at (reserve-used s key model est now_secs now_ms j) in
    omega (
      arith,
      taken,
      used-commit_scopes t.usage scopes actual j sound.0
          (All-Backed t.usage actual scopes room sound.1),
    )
