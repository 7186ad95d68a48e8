-- ===== src/Budget/Rpm/Tests.antt =====
-- The theorems on request rates at concrete inputs.
use brigh_to_router.Prelude.{ℕ, ◌-◌, ◌+◌, ◌*◌, ◌≤◌, ◌≡◌, ◌≢◌, refl, List, [], ◌∷◌, All, arith}
use brigh_to_router.Prelude.Result.{ok, err}
use brigh_to_router.Budget.Rpm.{RpmBucket, try_take}
use brigh_to_router.Budget.Rpm.Window.{grants, grants_bound}
use brigh_to_router.Budget.Rpm.Retry.{IsPlausible, retry_after_short}

-- One token left, of a limit of 60, and none.
abbrev bucket : RpmBucket
bucket = record { tokens = 1; last_refill_ms = 1_000 }

abbrev dry : RpmBucket
dry = record { tokens = 0; last_refill_ms = 1_000 }

abbrev calls : List ℕ
calls = 1_100 ∷ 1_200 ∷ 2_300 ∷ []

in_window : All (λ t. t ≤ 3_000) calls
in_window = (omega arith, (omega arith, (omega arith, tt)))

grants_bound_example :
    60_000 * grants bucket 60 calls ≤ 60_000 * bucket.tokens + (3_000 - bucket.last_refill_ms) * 60
grants_bound_example = grants_bound bucket 60 3_000 calls (omega arith) in_window

dry-IsPlausible : IsPlausible dry 60 1_500
dry-IsPlausible = record {
  within = omega arith;
  positive = omega arith;
  limit_u32 = omega arith;
  forwards = omega arith;
  clock = omega arith;
}

dry-IsPlausible_7 : IsPlausible dry 7 1_500
dry-IsPlausible_7 = record {
  within = omega arith;
  positive = omega arith;
  limit_u32 = omega arith;
  forwards = omega arith;
  clock = omega arith;
}

refused_60 : (try_take dry 60 1_500).1 ≡ err 500
unfolding try_take brigh_to_router.Budget.Rpm.refill
refused_60 = refl

refused_7 : (try_take dry 7 1_500).1 ≡ err 8_071
unfolding try_take brigh_to_router.Budget.Rpm.refill
refused_7 = refl

retry_after_short_example : (try_take (try_take dry 7 1_500).0 7 (1_500 + 8_071)).1 ≢ ok tt
retry_after_short_example =
    retry_after_short dry 7 1_500 8_071 dry-IsPlausible_7 (omega arith) refused_7
