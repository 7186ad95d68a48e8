-- ===== src/Auth/Exact.antt =====
-- When a key is accepted, and which refusal each other case has.
use brigh_to_router.Prelude.{
  ℕ, ◌<◌, ◌≤◌, ◌≡◌, ◌≢◌, ◌≤◌, ◌↔◌, ◌⊎◌, inl, inr, refl, true, false, Option, none, some, List, [],
  ◌∷◌, arith, Option-cases,
}
use brigh_to_router.Prelude.Eq.{ℕ_eq, list_eq, list_beq_iff}
use brigh_to_router.Prelude.Maps.{lookup}
use brigh_to_router.Prelude.Text.{Text}
use brigh_to_router.Contract.Config.{ApiKey, Team, ConfigSnapshot}
use brigh_to_router.Auth.{
  AuthError, ok, err, invalid_key, expired, disabled, model_not_allowed, any_is, allowed, expiry,
  model_allowed, team_enabled, key_enabled, authorize_key, authorize_detailed,
}

-- Live: no expiry, or one in the future.
abbrev pub IsLive : Option ℕ → ℕ → Type 0
IsLive none now = Unit
IsLive (some exp) now = now < exp

abbrev pub Listed : Text → List Text → Type 0
Listed model [] = ⊥
Listed model (m ∷ ms) = (m ≡ model) ⊎ Listed model ms

-- No list means every model.
abbrev pub Allows : List Text → Text → Type 0
Allows models model = (models ≡ []) ⊎ Listed model models

-- The conditions under which a key may be used for a model.
pub record MayCall (snapshot : ConfigSnapshot) (key_hash : List ℕ) (model : Text) (now : ℕ)
    (key : ApiKey) : Type 0 where
  pub known : lookup key_hash snapshot.keys_by_hash ≡ some key
  pub enabled : key.enabled ≡ true
  pub team : (t : Team) × (lookup key.team_id snapshot.teams ≡ some t) × (t.enabled ≡ true)
  pub live : IsLive key.expires_at now
  pub model_ok : Allows key.allowed_models model

any_is_iff : (model : Text) (ms : List Text) → (any_is model ms ≡ true) ↔ Listed model ms
unfolding any_is
any_is_iff model [] = (λ h. cc, λ h. absurd h)
any_is_iff model (m ∷ ms) = ground (arith, list_beq_iff m model, any_is_iff model ms)

allowed_iff : (ms : List Text) (model : Text) → (allowed ms model ≡ true) ↔ Allows ms model
unfolding allowed
allowed_iff [] model = (λ h. inl refl, λ h. refl)
allowed_iff (m ∷ ms) model = ground (arith, any_is_iff model (m ∷ ms))

expiry_iff :
    (o : Option ℕ) (key k : ApiKey) (now : ℕ)
    → key.expires_at ≡ o
    → (expiry key now ≡ ok k) ↔ (IsLive o now × (key ≡ k))
unfolding expiry
expiry_iff none key k now e = ground arith
expiry_iff (some x) key k now e = ground arith

abbrev TeamOk : Option Team → Type 0
TeamOk o = (t : Team) × (o ≡ some t) × (t.enabled ≡ true)

team_enabled_iff :
    (key : ApiKey) (o : Option Team) (now : ℕ) (k : ApiKey)
    → (team_enabled key o now ≡ ok k) ↔ (TeamOk o × (expiry key now ≡ ok k))
unfolding team_enabled
team_enabled_iff key none now k = ground arith
team_enabled_iff key (some t) now k = ground arith

-- A call is authorized, with some key, exactly when the hash is known with that key, the key and
-- its team are enabled, the key is not expired, and its list of models is empty or has the model.
pub authorize_detailed_iff :
    (snapshot : ConfigSnapshot) (key_hash : List ℕ) (model : Text) (now : ℕ) (key : ApiKey)
    → (authorize_detailed snapshot key_hash model now ≡ ok key)
      ↔ MayCall snapshot key_hash model now key
unfolding authorize_detailed authorize_key key_enabled model_allowed
authorize_detailed_iff snapshot key_hash model now key =
    elim (Option-cases (lookup key_hash snapshot.keys_by_hash)) [
      | inl e ↦ ground arith
      | inr (k, e) ↦ ground (
        arith,
        team_enabled_iff k (lookup k.team_id snapshot.teams) now key,
        team_enabled_iff k (lookup k.team_id snapshot.teams) now k,
        expiry_iff k.expires_at k key now refl,
        expiry_iff k.expires_at k k now refl,
        allowed_iff k.allowed_models model,
      )
    ]

abbrev pub IsLate : Option ℕ → ℕ → Type 0
IsLate none now = ⊥
IsLate (some exp) now = exp ≤ now

abbrev pub NoTeam : Option Team → Type 0
NoTeam o = (o ≡ none) ⊎ ((t : Team) × (o ≡ some t) × (t.enabled ≡ false))

abbrev pub Unlisted : Text → List Text → Type 0
Unlisted model [] = Unit
Unlisted model (m ∷ ms) = (m ≢ model) × Unlisted model ms

abbrev pub Forbids : List Text → Text → Type 0
Forbids models model = (models ≢ []) × Unlisted model models

-- What each refusal means.
abbrev pub Refusal : ConfigSnapshot → List ℕ → Text → ℕ → AuthError → Type 0
Refusal snapshot key_hash model now invalid_key = lookup key_hash snapshot.keys_by_hash ≡ none
Refusal snapshot key_hash model now disabled =
    (key : ApiKey) × (lookup key_hash snapshot.keys_by_hash ≡ some key)
    × ((key.enabled ≡ false) ⊎ NoTeam (lookup key.team_id snapshot.teams))
Refusal snapshot key_hash model now expired =
    (key : ApiKey) × (lookup key_hash snapshot.keys_by_hash ≡ some key)
    × (key.enabled ≡ true)
    × TeamOk (lookup key.team_id snapshot.teams)
    × IsLate key.expires_at now
Refusal snapshot key_hash model now model_not_allowed =
    (key : ApiKey) × (lookup key_hash snapshot.keys_by_hash ≡ some key)
    × (key.enabled ≡ true)
    × TeamOk (lookup key.team_id snapshot.teams)
    × IsLive key.expires_at now
    × Forbids key.allowed_models model

any_is-false : (model : Text) (ms : List Text) → any_is model ms ≡ false → Unlisted model ms
unfolding any_is
any_is-false model [] h = tt
any_is-false model (m ∷ ms) h = ground (arith, list_beq_iff m model, any_is-false model ms)

allowed_false : (ms : List Text) (model : Text) → allowed ms model ≡ false → Forbids ms model
unfolding allowed
allowed_false [] model h = ground arith
allowed_false (m ∷ ms) model h = ground (arith, any_is-false model (m ∷ ms) h)

expiry_err :
    (o : Option ℕ) (key : ApiKey) (now : ℕ) (x : AuthError)
    → key.expires_at ≡ o
    → expiry key now ≡ err x
    → (x ≡ expired) × IsLate o now
unfolding expiry
expiry_err none key now x e h = ground arith
expiry_err (some t) key now x e h = ground arith

-- A key that gets as far as its models is live.
expiry_ok-IsLive :
    (o : Option ℕ) (key k : ApiKey) (now : ℕ)
    → key.expires_at ≡ o
    → expiry key now ≡ ok k
    → IsLive o now
expiry_ok-IsLive o key k now e h = ((expiry_iff o key k now e).0 h).0

-- Every refusal has the reason that it names: an unknown hash; a disabled key, or a team that is
-- missing or disabled; an enabled key past its expiry; a good key whose list lacks the model.
pub authorize_detailed-Refusal :
    (snapshot : ConfigSnapshot) (key_hash : List ℕ) (model : Text) (now : ℕ) (x : AuthError)
    → authorize_detailed snapshot key_hash model now ≡ err x
    → Refusal snapshot key_hash model now x
unfolding authorize_detailed authorize_key key_enabled model_allowed team_enabled expiry
authorize_detailed-Refusal snapshot key_hash model now invalid_key h = ground arith
authorize_detailed-Refusal snapshot key_hash model now disabled h = ground arith
authorize_detailed-Refusal snapshot key_hash model now expired h = ground arith
authorize_detailed-Refusal snapshot key_hash model now model_not_allowed h =
    elim (Option-cases (lookup key_hash snapshot.keys_by_hash)) [
      | inl e ↦ ground arith
      | inr (k, e) ↦ (
        k,
        e,
        ground arith,
        ground arith,
        expiry_ok-IsLive k.expires_at k k now refl (ground arith),
        allowed_false k.allowed_models model (ground arith),
      )
    ]
