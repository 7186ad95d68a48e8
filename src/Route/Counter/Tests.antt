-- ===== src/Route/Counter/Tests.antt =====
-- The counter of a model at a concrete run: two routers, a query whose answer is lost, a restart.
use brigh_to_router.Prelude.{◌≡◌, refl, none, some, List, [], ◌∷◌}
use brigh_to_router.Prelude.Eq.{list_eq}
use brigh_to_router.Prelude.Maps.{lookup, insert}
use brigh_to_router.Prelude.Text.{codes}
use brigh_to_router.Route.Counter.{
  empty, answered, lost, value_of, allocate, query, take_block, refill_block,
  next_persistent_counter, Counters,
}
use brigh_to_router.Route.Counter.Runs.{
  Event, drawn, restarted, put, values, draw_all, Distinct, counter-Distinct,
}

abbrev counters : Counters
counters = (codes "m", 40) ∷ []

abbrev events : List Event
events =
    drawn 1 2 (some answered)
    ∷ drawn 2 3 (some answered)
    ∷ drawn 1 2 none
    ∷ drawn 1 2 (some (lost (codes "closed")))
    ∷ drawn 1 2 (some answered)
    ∷ restarted 2
    ∷ drawn 2 3 (some answered)
    ∷ []

values_drawn : draw_all (codes "m") events (λ r. empty) counters ≡ 40 ∷ 42 ∷ 41 ∷ 47 ∷ 49 ∷ []
unfolding draw_all values put next_persistent_counter refill_block take_block query allocate
    value_of lookup insert empty
values_drawn = refl

counter-Distinct_example : Distinct (draw_all (codes "m") events (λ r. empty) counters)
counter-Distinct_example = counter-Distinct (codes "m") events counters
