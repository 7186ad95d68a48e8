-- ===== src/Auth/Tests.antt =====
-- The theorems on authorization at concrete inputs.
use brigh_to_router.Prelude.{◌≡◌, ◌↔◌, refl, true, none, some, [], ◌∷◌}
use brigh_to_router.Prelude.Eq.{ℕ_eq, list_eq}
use brigh_to_router.Prelude.Maps.{lookup}
use brigh_to_router.Prelude.Text.{codes}
use brigh_to_router.Contract.Config.{ApiKey, ConfigSnapshot}
use brigh_to_router.Auth.{
  ok, err, model_not_allowed, authorize_detailed, authorize_key, model_allowed,
}
use brigh_to_router.Auth.Exact.{
  MayCall, Refusal, authorize_detailed_iff, authorize_detailed-Refusal,
}

abbrev caller : ApiKey
caller = record {
  id = 1;
  key_hash = 9 ∷ [];
  key_prefix = codes "sk";
  team_id = 7;
  owner = codes "o";
  allowed_models = codes "m" ∷ [];
  budget = none;
  rpm_limit = none;
  concurrency_limit = none;
  expires_at = some 500;
  enabled = true;
}

abbrev snapshot : ConfigSnapshot
snapshot = record {
  backends = [];
  routes = [];
  teams = (7, record { id = 7; name = codes "t"; budget = none; enabled = true }) ∷ [];
  keys_by_hash = (9 ∷ [], caller) ∷ [];
}

authorize_detailed_iff_example :
    (authorize_detailed snapshot (9 ∷ []) (codes "m") 100 ≡ ok caller)
    ↔ MayCall snapshot (9 ∷ []) (codes "m") 100 caller
authorize_detailed_iff_example = authorize_detailed_iff snapshot (9 ∷ []) (codes "m") 100 caller

refused : authorize_detailed snapshot (9 ∷ []) (codes "x") 100 ≡ err model_not_allowed
unfolding authorize_detailed authorize_key lookup model_allowed
refused = refl

authorize_detailed-Refusal_example : Refusal snapshot (9 ∷ []) (codes "x") 100 model_not_allowed
authorize_detailed-Refusal_example =
    authorize_detailed-Refusal snapshot (9 ∷ []) (codes "x") 100 model_not_allowed refused
