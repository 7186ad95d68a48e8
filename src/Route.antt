-- ===== src/Route.antt =====
-- src/route/mod.rs: the pool of backends, the choice of one for a request, the leases and the
-- circuit breaker.
pub mod Exclusions
pub mod Pool
pub mod Candidate
pub mod Select
pub mod Acquire
pub mod Report
pub mod Counter
pub mod Health
pub mod Tests
