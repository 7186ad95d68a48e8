-- ===== src/Budget/Conservation.antt =====
-- No reservation is lost or kept by mistake: a refusal changes no usage, a rollback undoes a
-- reservation, and a commit charges what was used.
use brigh_to_router.Prelude.{
  ℕ, ◌+◌, ◌-◌, ◌≡◌, ap, true, inl, inr, Bool-cases, Option, none, some, List, [], ◌∷◌, arith, ltb,
}
use brigh_to_router.Prelude.Eq.{◌=?◌, list_eq}
use brigh_to_router.Prelude.Maps.{lookup}
use brigh_to_router.Prelude.Result.{Result, ok, err}
use brigh_to_router.Prelude.Text.{Text}
use brigh_to_router.Contract.Config.{ApiKey}
use brigh_to_router.Budget.Usage.{
  Counters, UsageKey, ReservedScope, usage_key_eq, usage_key_beq_iff, used, reserve_scope,
  rollback_scopes,
}
use brigh_to_router.Budget.Usage.Laws.{reserve_scope_lem, reserved_on, used-rollback_scopes}
use brigh_to_router.Budget.{
  RamBudgetStore, BudgetError, Effective, total_key, model_key, effective_budget, reserve_model,
  after_total, reserve_budget, take_rpm, check_rate, rate_result, after_budget, reserve, rollback,
}

pub used_same : (u : Counters) (k j : UsageKey) → (k =? j) ≡ true → used u k ≡ used u j
used_same u k j h = ap (used u) ((usage_key_beq_iff k j).0 h)

-- What a reservation makes of the usage `n` of a key: the scopes' amounts on top, or the same.
abbrev pub held : ℕ → Result (List ReservedScope) BudgetError → UsageKey → ℕ
held n (ok scopes) j = n + reserved_on scopes j
held n (err e) j = n

reserve_model-used :
    (total : ReservedScope) (u : Counters) (k j : UsageKey) (cap : Option ℕ) (est n : ℕ)
    → used u j ≡ n + reserved_on (total ∷ []) j
    → used (reserve_model total u k cap est).0 j ≡ held n (reserve_model total u k cap est).1 j
unfolding reserve_model
reserve_model-used total u k j none est n h = h
reserve_model-used total u k j (some cap) est n h = elim (Bool-cases (ltb (cap - used u k) est)) [
  | inl full ↦ ground (
    arith,
    reserve_scope_lem u k j cap est,
    used-rollback_scopes (reserve_scope u k cap est).0 (total ∷ []) j,
  )
  | inr room ↦
      unfold reserved_on in ground (arith, h, reserve_scope_lem u k j cap est, used_same u k j)
]

abbrev pub held_one : ℕ → Result ReservedScope ℕ → UsageKey → ℕ
held_one n (ok s) j = n + reserved_on (s ∷ []) j
held_one n (err r) j = n

reserve_scope-used :
    (u : Counters) (k j : UsageKey) (limit amount : ℕ)
    → used (reserve_scope u k limit amount).0 j
      ≡ held_one (used u j) (reserve_scope u k limit amount).1 j
unfolding reserved_on
reserve_scope-used u k j limit amount =
    ground (arith, reserve_scope_lem u k j limit amount, used_same u k j)

after_total-used :
    (e : Effective) (model : Text) (est now n : ℕ) (p : Counters × Result ReservedScope ℕ)
    (j : UsageKey)
    → used p.0 j ≡ held_one n p.1 j
    → used (after_total e model est now p).0 j ≡ held n (after_total e model est now p).1 j
unfolding after_total rollback_scopes
after_total-used e model est now n (u, err r) j h = h
after_total-used e model est now n (u, ok total) j h =
    reserve_model-used total u (model_key e model now) j (lookup model e.budget.per_model) est n h

reserve_budget-used :
    (e : Option Effective) (u : Counters) (model : Text) (est now : ℕ) (j : UsageKey)
    → used (reserve_budget e u model est now).0 j
      ≡ held (used u j) (reserve_budget e u model est now).1 j
unfolding reserve_budget reserved_on
reserve_budget-used none u model est now j = omega arith
reserve_budget-used (some e) u model est now j =
    after_total-used e model est now (used u j)
      (reserve_scope u (total_key e now) e.budget.max_tokens est) j
      (reserve_scope-used u (total_key e now) j e.budget.max_tokens est)

rate_result-used :
    (scopes : List ReservedScope) (p : RamBudgetStore × Result (Unit {0}) ℕ) (n : ℕ) (j : UsageKey)
    → used p.0.usage j ≡ n + reserved_on scopes j
    → used (rate_result scopes p).0.usage j ≡ held n (rate_result scopes p).1 j
unfolding rate_result
rate_result-used scopes (s, ok t) n j h = h
rate_result-used scopes (s, err d) n j h = omega (arith, h, used-rollback_scopes s.usage scopes j)

check_rate-used :
    (s : RamBudgetStore) (id : ℕ) (limit : Option ℕ) (now_ms : ℕ) (scopes : List ReservedScope)
    (n : ℕ) (j : UsageKey)
    → used s.usage j ≡ n + reserved_on scopes j
    → used (check_rate s id limit now_ms scopes).0.usage j
      ≡ held n (check_rate s id limit now_ms scopes).1 j
unfolding check_rate
check_rate-used s id none now_ms scopes n j h = h
check_rate-used s id (some limit) now_ms scopes n j h = elim (Bool-cases (ltb 0 limit)) [
  | inl limited ↦
      rw limited (rate_result-used scopes (take_rpm s id limit now_ms) n j (unfold take_rpm in h))
  | inr free ↦ rw free h
]

after_budget-used :
    (s : RamBudgetStore) (key : ApiKey) (now_ms n : ℕ)
    (p : Counters × Result (List ReservedScope) BudgetError) (j : UsageKey)
    → used p.0 j ≡ held n p.1 j
    → used (after_budget s key now_ms p).0.usage j ≡ held n (after_budget s key now_ms p).1 j
unfolding after_budget
after_budget-used s key now_ms n (u, err e) j h = h
after_budget-used s key now_ms n (u, ok scopes) j h =
    check_rate-used (record s { usage = u }) key.id key.rpm_limit now_ms scopes n j h

-- Whatever its outcome, a reservation leaves on every key the usage from before, plus, if it
-- succeeded, exactly what its scopes hold there: a refusal by the total, by the model's cap or by
-- the request rate leaves no usage behind.
pub reserve-used :
    (s : RamBudgetStore) (key : ApiKey) (model : Text) (est now_secs now_ms : ℕ) (j : UsageKey)
    → used (reserve s key model est now_secs now_ms).0.usage j
      ≡ held (used s.usage j) (reserve s key model est now_secs now_ms).1 j
unfolding reserve
reserve-used s key model est now_secs now_ms j =
    after_budget-used s key now_ms (used s.usage j) _ j
      (reserve_budget-used (effective_budget s key) s.usage model est now_secs j)

-- A reservation that is rolled back, as when its owner is dropped, leaves every key as it was.
pub rollback-reserve :
    (s t : RamBudgetStore) (key : ApiKey) (model : Text) (est now_secs now_ms : ℕ)
    (scopes : List ReservedScope) (j : UsageKey)
    → reserve s key model est now_secs now_ms ≡ (t, ok scopes)
    → used (rollback t scopes).usage j ≡ used s.usage j
unfolding rollback
rollback-reserve s t key model est now_secs now_ms scopes j e =
    let h = reserve-used s key model est now_secs now_ms j in
    let h' : used t.usage j ≡ used s.usage j + reserved_on scopes j = rw e at h in
    omega (arith, h', used-rollback_scopes t.usage scopes j)
