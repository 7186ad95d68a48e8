-- ===== src/Budget/Rpm.antt =====
-- `RpmBucket` of src/budget/mod.rs: the token bucket that limits requests per minute. `now` is the
-- clock in milliseconds. `try_take` is the round of the loop whose compare-exchange succeeds.
pub mod Window
pub mod Retry
pub mod Tests
use brigh_to_router.Prelude.{
  ℕ, ◌+◌, ◌-◌, ◌*◌, ◌/◌, ◌%◌, ltb, ◌==◌, if◌then◌else◌, min, max, u64_mod,
}
use brigh_to_router.Prelude.Result.{Result, ok, err}

pub record RpmBucket : Type 0 where
  pub tokens : ℕ
  pub last_refill_ms : ℕ

unfoldable pub new : ℕ → ℕ → RpmBucket
new limit now = record { tokens = limit; last_refill_ms = now }

-- The tokens that have come in since the last refill.
unfoldable pub refill : RpmBucket → ℕ → ℕ → ℕ
refill b lim now = ((now - b.last_refill_ms) * lim / 60_000) % u64_mod

unfoldable pub replenished : RpmBucket → ℕ → ℕ → ℕ
replenished b lim now = min ((b.tokens + refill b lim now) % u64_mod) lim

-- The bucket after the call, and the delay that a refusal asks for, in milliseconds.
unfoldable pub try_take : RpmBucket → ℕ → ℕ → RpmBucket × Result (Unit {0}) ℕ
unfolding replenished
try_take b lim now =
    if replenished b lim now == 0
    then (b, err ((b.last_refill_ms + 60_000 / max lim 1) - now))
    else (
      record {
        tokens = replenished b lim now - 1;
        last_refill_ms = if ltb 0 (refill b lim now) then now else b.last_refill_ms;
      },
      ok tt,
    )
