-- ===== src/Ledger.antt =====
-- src/ledger/mod.rs: the way of a usage event from a request to the database.
pub mod Sink
pub mod Writer
pub mod Step
pub mod Seeds
pub mod Tests
use brigh_to_router.Prelude.{ℕ, Bool, Option}
use brigh_to_router.Prelude.Text.{Text}

pub record UsageEvent : Type 0 where
  pub ts : ℕ
  pub request_id : Text
  pub key_id : ℕ
  pub team_id : ℕ
  pub model : Text
  pub backend_id : ℕ
  pub status : ℕ
  pub input_tokens : ℕ
  pub output_tokens : ℕ
  pub estimated : Bool
  pub ttfb_ms : ℕ
  pub total_ms : ℕ
  pub router_overhead_ms : ℕ
  pub completed_at_ms : ℕ
  pub stream : Bool
  pub client_aborted : Bool
  pub error_class : Option Text
