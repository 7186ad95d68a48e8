-- ===== src/Budget/Cas/Tests.antt =====
-- Two threads that race for the last of a limit of 100.
use brigh_to_router.Prelude.{◌+◌, ◌≤◌, ◌≡◌, refl, [], ◌∷◌, arith}
use brigh_to_router.Budget.Usage.{reserve_round}
use brigh_to_router.Budget.Cas.{
  idle, loaded, granted, refused, Shared, move, load, exchange, observe, refuse, Reach, here, next,
  held, interleaved_reserves,
}

abbrev start : Shared
start = record { counter = 50; threads = idle 30 ∷ idle 40 ∷ [] }

abbrev end : Shared
end = record { counter = 80; threads = granted 30 ∷ refused ∷ [] }

-- Both load 50, the first exchanges, the second observes 80 and is refused.
race : Reach 100 start end
unfolding reserve_round
race =
    next
      (next
        (next
          (next (next here (move 0 50 (idle 30) (loaded 30 50) refl (load 30)))
            (move 1 50 (idle 40) (loaded 40 50) refl (load 40)))
          (move 0 80 (loaded 30 50) (granted 30) refl (exchange 30 50 80 refl refl)))
        (move 1 80 (loaded 40 50) (loaded 40 80) refl (observe 40 50 90 refl)))
      (move 1 80 (loaded 40 80) refused refl (refuse 40 80 20 refl))

none_held : held start.threads ≡ 0
unfolding held
none_held = refl

interleaved_reserves_example :
    (end.counter ≡ start.counter + held end.threads) × (end.counter ≤ 100)
interleaved_reserves_example = interleaved_reserves 100 none_held (omega arith) race
