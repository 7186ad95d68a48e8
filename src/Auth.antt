-- ===== src/Auth.antt =====
-- src/auth.rs: who may call, and for which model. The hash of a key (SHA-256, a package) is an
-- argument; the time is `now`, in seconds.
pub mod Exact
pub mod Tests
use brigh_to_router.Prelude.{
  ℕ, Bool, true, false, ◌||◌, Option, none, some, List, [], ◌∷◌, leb, if◌then◌else◌,
}
use brigh_to_router.Prelude.Eq.{ℕ_eq, list_eq, list_beq}
use brigh_to_router.Prelude.Maps.{lookup}
use brigh_to_router.Prelude.Text.{Text}
use brigh_to_router.Contract.Config.{ApiKey, Team, ConfigSnapshot}

pub data AuthError : Type 0 where
  invalid_key expired disabled model_not_allowed : AuthError

pub data AuthResult : Type 0 where
  ok : ApiKey → AuthResult
  err : AuthError → AuthResult

infixl 5 ◌>>=◌
abbrev ◌>>=◌ : AuthResult → (ApiKey → AuthResult) → AuthResult
ok k >>= f = f k
err e >>= f = err e

any_is : Text → List Text → Bool
any_is model [] = false
any_is model (m ∷ ms) = list_beq m model || any_is model ms

allowed : List Text → Text → Bool
allowed [] model = true
allowed (m ∷ ms) model = any_is model (m ∷ ms)

pub model_allowed : ApiKey → Text → Bool
unfolding allowed any_is
model_allowed key model = allowed key.allowed_models model

expiry : ApiKey → ℕ → AuthResult
expiry key now = elim key.expires_at [
  | none ↦ ok key
  | some exp ↦ if leb exp now then err expired else ok key
]

team_enabled : ApiKey → Option Team → ℕ → AuthResult
unfolding expiry
team_enabled key none now = err disabled
team_enabled key (some team) now = if team.enabled then expiry key now else err disabled

key_enabled : ConfigSnapshot → Option ApiKey → ℕ → AuthResult
unfolding team_enabled
key_enabled snapshot none now = err invalid_key
key_enabled snapshot (some key) now =
    if key.enabled then team_enabled key (lookup key.team_id snapshot.teams) now else err disabled

pub authorize_key : ConfigSnapshot → List ℕ → ℕ → AuthResult
unfolding key_enabled
authorize_key snapshot key_hash now =
    key_enabled snapshot (lookup key_hash snapshot.keys_by_hash) now

pub authorize_detailed : ConfigSnapshot → List ℕ → Text → ℕ → AuthResult
authorize_detailed snapshot key_hash model now = do
  key ← authorize_key snapshot key_hash now
  if model_allowed key model then ok key else err model_not_allowed

abbrev to_option : AuthResult → Option ApiKey
to_option (ok k) = some k
to_option (err e) = none

pub authorize : ConfigSnapshot → List ℕ → Text → ℕ → Option ApiKey
authorize snapshot key_hash model now = to_option (authorize_detailed snapshot key_hash model now)
