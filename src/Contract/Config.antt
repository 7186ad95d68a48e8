-- ===== src/Contract/Config.antt =====
-- The records of src/contract.rs, and the lookups of `ModelRoute`. Floating-point fields (prices,
-- `chars_per_token`) and fields that only the Portal shows are left out. An id (`i64`) is only
-- compared, so a number stands for it. Times are in the source's units.
use brigh_to_router.Prelude.{
  ℕ, Bool, true, false, Option, none, some, List, [], ◌∷◌, if◌then◌else◌, max,
}
use brigh_to_router.Prelude.Eq.{ℕ_eq, list_eq}
use brigh_to_router.Prelude.Maps.{Map, lookup}
use brigh_to_router.Prelude.Text.{Text, trim}
use brigh_to_router.Contract.Policy.{RoutingPolicy}

pub data BackendFormat : Type 0 where
  open_ai anthropic : BackendFormat

pub record Backend : Type 0 where
  pub id : ℕ
  pub name : Text
  pub base_url : Text
  pub api_key_ref : Text
  pub api_key : Option Text
  pub weight : ℕ
  pub max_inflight : ℕ
  pub format : BackendFormat
  pub enabled : Bool

pub record ModelEndpoint : Type 0 where
  pub backend_id : ℕ
  pub provider_model_name : Text
  pub provider_key_ref : Option Text
  pub auth_mode : Text
  pub protocol : Text
  pub weight : ℕ
  pub max_inflight : ℕ
  pub enabled : Bool
  pub provider_key : Option Text

pub record EffectiveModelEndpoint : Type 0 where
  pub provider_model_name : Text
  pub provider_key : Option Text
  pub auth_mode : Text
  pub protocol : Text

pub record ModelRoute : Type 0 where
  pub model_name : Text
  pub backend_ids : List ℕ
  pub fallback_backend_id : Option ℕ
  pub first_byte_timeout : ℕ
  pub provider_model_name : Text
  pub enabled : Bool
  pub provider_key_ref : Option Text
  pub auth_mode : Text
  pub protocol : Text
  pub provider_key : Option Text
  pub routing_policy : RoutingPolicy
  pub accept_anthropic_messages : Bool
  pub endpoints : Map ℕ ModelEndpoint

pub record Budget : Type 0 where
  pub period : Text
  pub max_tokens : ℕ
  pub max_usd_cents : Option ℕ
  pub per_model : Map Text ℕ

pub record Team : Type 0 where
  pub id : ℕ
  pub name : Text
  pub budget : Option Budget
  pub enabled : Bool

pub record ApiKey : Type 0 where
  pub id : ℕ
  pub key_hash : List ℕ
  pub key_prefix : Text
  pub team_id : ℕ
  pub owner : Text
  pub allowed_models : List Text
  pub budget : Option Budget
  pub rpm_limit : Option ℕ
  pub concurrency_limit : Option ℕ
  pub expires_at : Option ℕ
  pub enabled : Bool

pub record ConfigSnapshot : Type 0 where
  pub backends : Map ℕ Backend
  pub routes : Map Text ModelRoute
  pub teams : Map ℕ Team
  pub keys_by_hash : Map (List ℕ) ApiKey

-- `Option::or_else`, `Option::unwrap_or`.
abbrev pub or_else {ℓ} : {A : Type ℓ} → Option A → Option A → Option A
or_else none d = d
or_else (some a) d = some a

abbrev pub unwrap_or {ℓ} : {A : Type ℓ} → Option A → A → A
unwrap_or none d = d
unwrap_or (some a) d = a

is_empty : Text → Bool
is_empty [] = true
is_empty (c ∷ s) = false

effective : ModelRoute → Option ModelEndpoint → EffectiveModelEndpoint
unfolding is_empty
effective r none = record {
  provider_model_name = r.provider_model_name;
  provider_key = r.provider_key;
  auth_mode = r.auth_mode;
  protocol = r.protocol;
}
effective r (some e) = record {
  provider_model_name =
      if is_empty (trim e.provider_model_name)
      then r.provider_model_name
      else e.provider_model_name;
  provider_key = or_else e.provider_key r.provider_key;
  auth_mode = e.auth_mode;
  protocol = e.protocol;
}

unfoldable pub endpoint_for : ModelRoute → ℕ → EffectiveModelEndpoint
unfolding effective
endpoint_for r backend_id = effective r (lookup backend_id r.endpoints)

-- `.filter(|e| e.enabled)`.
abbrev pub if_enabled : Option ModelEndpoint → Option ModelEndpoint
if_enabled none = none
if_enabled (some e) = if e.enabled then some e else none

abbrev weight_of : Option ModelEndpoint → ℕ
weight_of none = 1
weight_of (some e) = max e.weight 1

abbrev max_inflight_of : Option ModelEndpoint → ℕ
max_inflight_of none = 0
max_inflight_of (some e) = e.max_inflight

abbrev enabled_of : Option ModelEndpoint → Bool
enabled_of none = true
enabled_of (some e) = e.enabled

unfoldable pub endpoint_weight : ModelRoute → ℕ → ℕ
endpoint_weight r backend_id = weight_of (if_enabled (lookup backend_id r.endpoints))

unfoldable pub endpoint_max_inflight : ModelRoute → ℕ → ℕ
endpoint_max_inflight r backend_id = max_inflight_of (if_enabled (lookup backend_id r.endpoints))

unfoldable pub endpoint_enabled : ModelRoute → ℕ → Bool
endpoint_enabled r backend_id = enabled_of (lookup backend_id r.endpoints)
