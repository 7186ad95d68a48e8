-- ===== src/Budget/Rpm/Retry.antt =====
-- When a refused caller may come back.
use brigh_to_router.Prelude.{
  ℕ, ◌+◌, ◌-◌, ◌*◌, ◌/◌, ◌^◌, ◌≤◌, ◌<◌, ◌≡◌, ◌≢◌, ◌⊎◌, arith, inl, inr, u32_mod,
}
use brigh_to_router.Prelude.Result.{ok, err}
use brigh_to_router.Budget.Rpm.{RpmBucket, refill, replenished, try_take}

-- A bucket within its limit, a `u32` limit, and a clock that has not run backwards and is within
-- 557 years of the epoch.
pub record IsPlausible (b : RpmBucket) (lim now : ℕ) : Type 0 where
  pub within : b.tokens ≤ lim
  pub positive : 0 < lim
  pub limit_u32 : lim < u32_mod
  pub forwards : b.last_refill_ms ≤ now
  pub clock : now < 2 ^ 44

mul_lt : (a b c d : ℕ) → a < c → b < d → a * b < c * d
mul_lt a b c d h k = grind arith

-- No refill wraps around.
refill_exact :
    (b : RpmBucket) (lim now : ℕ)
    → lim < u32_mod
    → now < 2 ^ 45
    → (refill b lim now ≡ (now - b.last_refill_ms) * lim / 60_000) × (refill b lim now < 2 ^ 63)
unfolding refill
refill_exact b lim now h c =
    let m = mul_lt (now - b.last_refill_ms) lim (2 ^ 45) (2 ^ 32) (omega arith) h in
    (omega (arith, m), omega (arith, m))

-- A refusal leaves the bucket as it was: it is empty, and less than one token has come in.
refused :
    (b : RpmBucket) (lim now delay : ℕ)
    → IsPlausible b lim now
    → (try_take b lim now).1 ≡ err delay
    → (b.tokens ≡ 0)
      × ((now - b.last_refill_ms) * lim < 60_000)
      × (delay ≡ (b.last_refill_ms + 60_000 / lim) - now)
      × ((try_take b lim now).0 ≡ b)
unfolding try_take replenished
refused b lim now delay p e = ground (arith, refill_exact b lim now p.limit_u32 (omega arith))

mul_mono : (a b c : ℕ) → a ≤ b → a * c ≤ b * c
mul_mono a b c h = grind arith

div-le : (a b : ℕ) → a / b ≤ a
div-le a b = grind arith

retry_clock :
    (b : RpmBucket) (lim now delay : ℕ)
    → IsPlausible b lim now
    → delay ≡ (b.last_refill_ms + 60_000 / lim) - now
    → now + delay < 2 ^ 45
retry_clock b lim now delay p wait = omega (arith, p.clock, p.forwards, div-le 60_000 lim)

-- The first moment of the promised retry, measured from the last refill.
elapsed_at_retry :
    (last now lim delay : ℕ)
    → last ≤ now
    → delay ≡ (last + 60_000 / lim) - now
    → (((now + delay) - last ≡ now - last) × (60_000 / lim ≤ now - last))
      ⊎ ((now + delay) - last ≡ 60_000 / lim)
elapsed_at_retry last now lim delay h e = grind arith

retried :
    (b : RpmBucket) (lim now delay : ℕ)
    → IsPlausible b lim now
    → b.tokens ≡ 0
    → (now - b.last_refill_ms) * lim < 60_000
    → delay ≡ (b.last_refill_ms + 60_000 / lim) - now
    → 60_000 / lim * lim ≡ 60_000
    → (try_take b lim (now + delay)).1 ≡ ok tt
unfolding try_take replenished
retried b lim now delay p empty little wait whole =
    elim (elapsed_at_retry b.last_refill_ms now lim delay p.forwards wait) [
      | inl (e, late) ↦
          absurd (omega (arith, mul_mono (60_000 / lim) (now - b.last_refill_ms) lim late))
      | inr e ↦
          let m : ((now + delay) - b.last_refill_ms) * lim ≡ 60_000 = rw e whole in
          ground (
            arith,
            p.positive,
            m,
            refill_exact b lim (now + delay) p.limit_u32 (retry_clock b lim now delay p wait),
          )
    ]

refused_again :
    (b : RpmBucket) (lim now delay : ℕ)
    → IsPlausible b lim now
    → b.tokens ≡ 0
    → (now - b.last_refill_ms) * lim < 60_000
    → delay ≡ (b.last_refill_ms + 60_000 / lim) - now
    → 60_000 / lim * lim < 60_000
    → (try_take b lim (now + delay)).1 ≢ ok tt
unfolding try_take replenished
refused_again b lim now delay p empty little wait part =
    elim (elapsed_at_retry b.last_refill_ms now lim delay p.forwards wait) [
      | inl (e, late) ↦
          let m : ((now + delay) - b.last_refill_ms) * lim < 60_000 = rw e little in
          ground (
            arith,
            m,
            refill_exact b lim (now + delay) p.limit_u32 (retry_clock b lim now delay p wait),
          )
      | inr e ↦
          let m : ((now + delay) - b.last_refill_ms) * lim < 60_000 = rw e part in
          ground (
            arith,
            m,
            refill_exact b lim (now + delay) p.limit_u32 (retry_clock b lim now delay p wait),
          )
    ]

-- For a plausible bucket, limit and clock: where the limit divides the 60000 milliseconds of a minute, a refused caller that comes back
-- after the delay it was told is let through, if nobody else called in between.
pub retry_after_enough :
    (b : RpmBucket) (lim now delay : ℕ)
    → IsPlausible b lim now
    → 60_000 / lim * lim ≡ 60_000
    → (try_take b lim now).1 ≡ err delay
    → (try_take (try_take b lim now).0 lim (now + delay)).1 ≡ ok tt
retry_after_enough b lim now delay p whole e =
    let (empty, little, wait, same) = refused b lim now delay p e in
    rw same (retried b lim now delay p empty little wait whole)

-- For a plausible bucket, limit and clock: where the limit does not divide 60000, the delay is
-- rounded down and comes too soon, as the refused caller that comes back after exactly that delay is
-- refused again.
pub retry_after_short :
    (b : RpmBucket) (lim now delay : ℕ)
    → IsPlausible b lim now
    → 60_000 / lim * lim < 60_000
    → (try_take b lim now).1 ≡ err delay
    → (try_take (try_take b lim now).0 lim (now + delay)).1 ≢ ok tt
retry_after_short b lim now delay p part e =
    let (empty, little, wait, same) = refused b lim now delay p e in
    rw same (refused_again b lim now delay p empty little wait part)
