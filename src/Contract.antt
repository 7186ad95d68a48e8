-- ===== src/Contract.antt =====
-- src/contract.rs: the records that the configuration is made of.
pub mod Protocol
pub mod Policy
pub mod Names
pub mod Config
pub mod Tests
