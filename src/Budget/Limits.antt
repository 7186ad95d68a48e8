-- ===== src/Budget/Limits.antt =====
-- When the budget grants a reservation.
use brigh_to_router.Prelude.{
  ℕ, ◌-◌, ◌≡◌, ◌≢◌, refl, false, Option, none, some, List, [], ◌∷◌, arith, ltb, if◌then◌else◌,
}
use brigh_to_router.Prelude.Eq.{◌=?◌, list_eq}
use brigh_to_router.Prelude.Maps.{lookup}
use brigh_to_router.Prelude.Result.{Result, ok, err}
use brigh_to_router.Prelude.Text.{Text}
use brigh_to_router.Contract.Config.{ApiKey, Budget}
use brigh_to_router.Budget.Usage.{
  Counters, UsageKey, ReservedScope, usage_key_eq, used, reserve_scope,
}
use brigh_to_router.Budget.Usage.Laws.{reserve_scope_lem}
use brigh_to_router.Budget.{
  RamBudgetStore, BudgetError, Effective, budget_exceeded, total_key, model_key, effective_budget,
  own_or_team, reserve_model, after_total, reserve_budget,
}

abbrev expected_model :
    ReservedScope → Counters → UsageKey → Option ℕ → ℕ → Result (List ReservedScope) BudgetError
expected_model total u k none est = ok (total ∷ [])
expected_model total u k (some cap) est =
    let left = cap - used u k in
    if ltb left est
    then err (budget_exceeded left)
    else ok (total ∷ record { key = k; amount = est } ∷ [])

-- What the budget part should answer: the total first, then the model's cap if it has one; a
-- refusal names the tokens that remain where it failed.
abbrev pub expected : Effective → Counters → Text → ℕ → ℕ → Result (List ReservedScope) BudgetError
expected e u model est now =
    let left = e.budget.max_tokens - used u (total_key e now) in
    if ltb left est
    then err (budget_exceeded left)
    else expected_model (record { key = total_key e now; amount = est }) u (model_key e model now)
        (lookup model e.budget.per_model) est

pub key_ne :
    (e : Effective) (model : Text) (now : ℕ)
    → e.total_scope ≢ e.model_scope
    → (total_key e now =? model_key e model now) ≡ false
key_ne e model now h = ground arith

reserve_model-eq :
    (total : ReservedScope) (u v : Counters) (k : UsageKey) (cap : Option ℕ) (est : ℕ)
    → used u k ≡ used v k
    → (reserve_model total u k cap est).1 ≡ expected_model total v k cap est
unfolding reserve_model
reserve_model-eq total u v k none est h = refl
reserve_model-eq total u v k (some cap) est h = ground (arith, reserve_scope_lem u k k cap est)

after_total-eq :
    (e : Effective) (u : Counters) (model : Text) (est now : ℕ)
    (p : Counters × Result ReservedScope ℕ)
    → p.1 ≡ (
        if ltb (e.budget.max_tokens - used u (total_key e now)) est
        then err (e.budget.max_tokens - used u (total_key e now))
        else ok (record { key = total_key e now; amount = est }))
    → used p.0 (model_key e model now) ≡ used u (model_key e model now)
    → (after_total e model est now p).1 ≡ expected e u model est now
unfolding after_total
after_total-eq e u model est now (v, err r) h k = ground arith
after_total-eq e u model est now (v, ok total) h k = ground (
  arith,
  reserve_model-eq total v u (model_key e model now) (lookup model e.budget.per_model) est k,
)

own_or_team-distinct :
    (s : RamBudgetStore) (key : ApiKey) (b : Option Budget) (e : Effective)
    → own_or_team s key b ≡ some e
    → e.total_scope ≢ e.model_scope
unfolding own_or_team
own_or_team-distinct s key none e h = ground arith
own_or_team-distinct s key (some b) e h = ground arith

-- A budget's two scope numbers differ.
pub effective-distinct :
    (s : RamBudgetStore) (key : ApiKey) (e : Effective)
    → effective_budget s key ≡ some e
    → e.total_scope ≢ e.model_scope
unfolding effective_budget
effective-distinct s key e h = own_or_team-distinct s key key.budget e h

used_model_key :
    (e : Effective) (u : Counters) (model : Text) (est now : ℕ)
    → e.total_scope ≢ e.model_scope
    → used (reserve_scope u (total_key e now) e.budget.max_tokens est).0 (model_key e model now)
      ≡ used u (model_key e model now)
used_model_key e u model est now h = ground (
  arith,
  reserve_scope_lem u (total_key e now) (model_key e model now) e.budget.max_tokens est,
  key_ne e model now h,
)

-- The budget part of `reserve` is granted exactly when the budget that applies (the key's own, or
-- else the team's) has room in its total and in its cap for the model, if there is one; a refusal
-- names what remains of the first that has not.
pub reserve_budget-eq :
    (s : RamBudgetStore) (key : ApiKey) (e : Effective) (model : Text) (est now : ℕ)
    → effective_budget s key ≡ some e
    → (reserve_budget (effective_budget s key) s.usage model est now).1
      ≡ expected e s.usage model est now
unfolding reserve_budget
reserve_budget-eq s key e model est now h = rw h (
    after_total-eq e s.usage model est now
      (reserve_scope s.usage (total_key e now) e.budget.max_tokens est)
      (reserve_scope_lem s.usage (total_key e now) (total_key e now) e.budget.max_tokens est).0
      (used_model_key e s.usage model est now (effective-distinct s key e h)))
