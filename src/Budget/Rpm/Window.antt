-- ===== src/Budget/Rpm/Window.antt =====
-- How many requests a bucket lets through in any window of time.
use brigh_to_router.Prelude.{
  ℕ, ◌+◌, ◌-◌, ◌*◌, ◌/◌, ◌%◌, ◌≤◌, ◌<◌, ◌≡◌, List, [], ◌∷◌, All, arith, Bool-cases, inl, inr, leb,
  leb→le, u64_mod,
}
use brigh_to_router.Prelude.Result.{Result, ok, err}
use brigh_to_router.Budget.Rpm.{RpmBucket, refill, replenished, try_take}

taken : Result (Unit {0}) ℕ → ℕ
taken (ok t) = 1
taken (err d) = 0

-- The requests that are let through, of a sequence of calls at the given times.
pub grants : RpmBucket → ℕ → List ℕ → ℕ
unfolding taken
grants b lim [] = 0
grants b lim (now ∷ times) = let (b', r) = try_take b lim now in taken r + grants b' lim times

div-mul-le : (n : ℕ) → n / 60_000 * 60_000 ≤ n
div-mul-le n = omega arith

mod-le : (a b : ℕ) → a % b ≤ a
mod-le a b = grind arith

refill_le :
    (b : RpmBucket) (lim now : ℕ) → refill b lim now * 60_000 ≤ (now - b.last_refill_ms) * lim
unfolding refill
refill_le b lim now = omega (
  arith,
  mod-le ((now - b.last_refill_ms) * lim / 60_000) u64_mod,
  div-mul-le ((now - b.last_refill_ms) * lim),
)

replenished_le : (b : RpmBucket) (lim now : ℕ) → replenished b lim now ≤ b.tokens + refill b lim now
unfolding replenished
replenished_le b lim now = omega (arith, mod-le (b.tokens + refill b lim now) u64_mod)

-- A window from `last` to `end` splits at `now`.
window_split :
    (last now end lim : ℕ)
    → last ≤ now
    → now ≤ end
    → (now - last) * lim + (end - now) * lim ≡ (end - last) * lim
window_split last now end lim h h' = grind arith

refill_early : (b : RpmBucket) (lim now : ℕ) → now ≤ b.last_refill_ms → refill b lim now ≡ 0
refill_early b lim now h =
    let e : now - b.last_refill_ms ≡ 0 = omega arith in
    let z : (now - b.last_refill_ms) * lim ≡ 0 = rw e (omega arith) in
    omega (arith, refill_le b lim now)

-- The refill moves the start of the window, or nothing has come in.
window_refill :
    (b : RpmBucket) (lim now end : ℕ)
    → now ≤ end
    → b.last_refill_ms ≤ end
    → 0 < refill b lim now
    → 60_000 * refill b lim now + (end - now) * lim ≤ (end - b.last_refill_ms) * lim
window_refill b lim now end h h' pos = elim (Bool-cases (leb now b.last_refill_ms)) [
  | inl early ↦ absurd (omega (arith, refill_early b lim now (leb→le now b.last_refill_ms early)))
  | inr later ↦
      omega (arith, refill_le b lim now, window_split b.last_refill_ms now end lim (ground arith) h)
]

step_bound :
    (b : RpmBucket) (lim now end : ℕ)
    → now ≤ end
    → b.last_refill_ms ≤ end
    → (60_000 * (taken (try_take b lim now).1 + (try_take b lim now).0.tokens)
          + (end - (try_take b lim now).0.last_refill_ms) * lim
        ≤ 60_000 * b.tokens + (end - b.last_refill_ms) * lim)
      × ((try_take b lim now).0.last_refill_ms ≤ end)
unfolding try_take taken
step_bound b lim now end h h' =
    ground (arith, replenished_le b lim now, window_refill b lim now end h h')

-- Whatever the times of the calls up to `end`, which is not before the last refill, the requests
-- let through are at most the tokens at
-- hand plus the rate times the window: 60000 of them cost as much as `lim` per millisecond brings.
pub grants_bound :
    (b : RpmBucket) (lim end : ℕ) (times : List ℕ)
    → b.last_refill_ms ≤ end
    → All (λ t. t ≤ end) times
    → 60_000 * grants b lim times ≤ 60_000 * b.tokens + (end - b.last_refill_ms) * lim
unfolding grants
grants_bound b lim end [] h hs = omega arith
grants_bound b lim end (now ∷ times) h hs =
    let step = step_bound b lim now end hs.0 h in
    omega (arith, step, grants_bound (try_take b lim now).0 lim end times step.1 hs.1)

-- A bucket within its limit stays within it.
pub try_take-tokens :
    (b : RpmBucket) (lim now : ℕ) → b.tokens ≤ lim → (try_take b lim now).0.tokens ≤ lim
unfolding try_take replenished
try_take-tokens b lim now h = ground arith
