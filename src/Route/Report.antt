-- ===== src/Route/Report.antt =====
-- `unavailable_report` of src/route/mod.rs, which explains why no backend could be picked, with its
-- messages as data; and `snapshot`, for the metrics. The clock counts nanoseconds here.
pub mod Truth
pub mod Tests
use brigh_to_router.Prelude.{
  ℕ, zero, suc, ◌-◌, ◌/◌, Bool, true, false, not, ◌&&◌, Option, none, some, List, [], ◌∷◌, ◌++◌,
  map, ltb, leb, ◌==◌, if◌then◌else◌,
}
use brigh_to_router.Prelude.Eq.{ℕ_eq}
use brigh_to_router.Prelude.Maps.{lookup}
use brigh_to_router.Contract.Config.{ModelRoute, endpoint_enabled, endpoint_max_inflight}
use brigh_to_router.Route.Exclusions.{mem}
use brigh_to_router.Route.Pool.{RamBackendPool, BackendState, Circuit, closed, opened, half_open}
use brigh_to_router.Route.Candidate.{effective_max}

-- What is said of a backend, and the whole report.
pub data Reason : Type 0 where
  endpoint_disabled not_loaded provider_disabled retry_window_ready : Reason
  circuit_open : ℕ → Reason
  probe_available probe_in_flight eligible : Reason
  full : ℕ → ℕ → Reason

pub data Report : Type 0 where
  no_backend_ids : Report
  reasons : List (ℕ × Reason) → Report

with_fallback : List ℕ → Option ℕ → List ℕ
with_fallback ids none = ids
with_fallback ids (some b) = if mem ids b then ids else ids ++ b ∷ []

-- `saturating_duration_since(now).as_millis()`, and 0 where no time is set.
unfoldable pub remaining_ms : Option ℕ → ℕ → ℕ
remaining_ms none now = 0
remaining_ms (some t) now = (t - now) / 1_000_000

circuit_reason : Circuit → ModelRoute → ℕ → ℕ → BackendState → Reason
circuit_reason opened route now id s =
    let ms = remaining_ms s.opened_until now in
    if ltb 0 ms then circuit_open ms else retry_window_ready
circuit_reason half_open route now id s =
    if s.half_open_probe then probe_available else probe_in_flight
circuit_reason closed route now id s =
    let m = effective_max s.max_inflight (endpoint_max_inflight route id) in
    if ltb 0 m && leb m s.inflight then full s.inflight m else eligible

state_reason : ModelRoute → ℕ → ℕ → Option BackendState → Reason
unfolding circuit_reason
state_reason route now id none = not_loaded
state_reason route now id (some s) =
    if s.enabled then circuit_reason s.circuit route now id s else provider_disabled

pub reason : RamBackendPool → ModelRoute → ℕ → ℕ → Reason
unfolding state_reason
reason p route now id =
    if endpoint_enabled route id
    then state_reason route now id (lookup id p.states)
    else endpoint_disabled

report_of : RamBackendPool → ModelRoute → ℕ → List ℕ → Report
report_of p route now [] = no_backend_ids
report_of p route now (id ∷ ids) = reasons (map (λ i. (i, reason p route now i)) (id ∷ ids))

pub unavailable_report : RamBackendPool → ModelRoute → ℕ → Report
unfolding report_of with_fallback
unavailable_report p route now =
    report_of p route now (with_fallback route.backend_ids route.fallback_backend_id)

-- Each backend with its load and whether its circuit is anything but closed.
is_closed : Circuit → Bool
is_closed closed = true
is_closed _ = false

pub snapshot : RamBackendPool → List (ℕ × ℕ × Bool)
unfolding is_closed
snapshot p = map (λ e. (e.0, e.1.inflight, not (is_closed e.1.circuit))) p.states
