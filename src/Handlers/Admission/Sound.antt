-- ===== src/Handlers/Admission/Sound.antt =====
-- Which requests are admitted.
use brigh_to_router.Prelude.{
  ℕ, ◌≡◌, refl, sym, ap, ◌∙◌, subst, Bool, true, false, ◌||◌, Option, none, some, arith,
}
use brigh_to_router.Prelude.Eq.{list_eq}
use brigh_to_router.Prelude.Maps.{lookup}
use brigh_to_router.Prelude.Result.{Result, ok, err}
use brigh_to_router.Prelude.Text.{Text}
use brigh_to_router.Contract.Config.{ApiKey, ConfigSnapshot}
use brigh_to_router.Contract.Protocol.{parse, accepts_incoming_path}
use brigh_to_router.Auth.{AuthResult, authorize_key, model_allowed}
use brigh_to_router.Proxy.Headers.{HeaderMap}
use brigh_to_router.Handlers.{extract_api_key, parse_content_length}
use brigh_to_router.Handlers.Body.{IncomingBody, head_of, read_incoming_body, BodyReadError}
use brigh_to_router.Handlers.Admission.{
  GenerateRequest, Outside, Admission, ◌>>=◌, ensure, needed, authorized, read_or,
  any_backend_enabled, is_bridge_request, route_for, admit,
}

value_or {ℓ} : {A : Type ℓ} → A → Result A (ℕ × Text) → A
value_or d (ok a) = a
value_or d (err e) = d

pub bind-ok {ℓ κ} :
    {A : Type ℓ} {B : Type κ} (r : Result A (ℕ × Text)) (f : A → Result B (ℕ × Text)) (b : B)
    → (r >>= f) ≡ ok b
    → (a : A) × (r ≡ ok a) × (f a ≡ ok b)
unfolding ◌>>=◌
bind-ok (ok a) f b e = (a, refl, e)
bind-ok (err x) f b e = absurd (ground arith)

pub ok-injective {ℓ} : {A : Type ℓ} (a b : A) → ◌≡◌ {A = Result A (ℕ × Text)} (ok a) (ok b) → a ≡ b
unfolding value_or
ok-injective a b e = ap (value_or a) e

ensure-ok : (t : Bool) (code : ℕ) (m : Text) (u : Unit {0}) → ensure t code m ≡ ok u → t ≡ true
unfolding ensure
ensure-ok true code m u e = refl
ensure-ok false code m u e = absurd (ground arith)

needed-ok {ℓ} :
    {A : Type ℓ} (x : Option A) (code : ℕ) (m : Text) (a : A) → needed x code m ≡ ok a → x ≡ some a
unfolding needed
needed-ok none code m a e = absurd (ground arith)
needed-ok (some b) code m a e = ground (arith, e)

authorized-ok : (r : AuthResult) (key : ApiKey) → authorized r ≡ ok key → r ≡ AuthResult.ok key
unfolding authorized
authorized-ok (AuthResult.ok k) key e = ground (arith, e)
authorized-ok (AuthResult.err x) key e = absurd (ground arith)

module _ (H : HeaderMap) (o : Outside) (snapshot : ConfigSnapshot) (path : Text) where
  -- The model is one of the key's, and its route is enabled, has an enabled backend, and takes the
  -- endpoint.
  pub record Routed (key : ApiKey) (model : Text) (a : Admission) : Type 0 where
    pub same_key : a.key ≡ key
    pub same_model : a.model ≡ model
    pub allowed : model_allowed key model ≡ true
    pub listed : lookup model snapshot.routes ≡ some a.route
    pub enabled : a.route.enabled ≡ true
    pub backend : any_backend_enabled snapshot a.route ≡ true
    pub endpoint :
        (is_bridge_request a.route path || accepts_incoming_path (parse a.route.protocol) path)
        ≡ true

  route_for-Routed :
      (key : ApiKey) (model : Text) (a : Admission)
      → route_for H o snapshot path key model ≡ ok a
      → Routed key model a
  unfolding route_for
  route_for-Routed key model a e =
      let (u, nonempty, e1) = bind-ok _ _ a e in
      let (v, allowed, e2) = bind-ok _ _ a e1 in
      let (route, listed, e3) = bind-ok _ _ a e2 in
      let (x, enabled, e4) = bind-ok _ _ a e3 in
      let (y, backend, e5) = bind-ok _ _ a e4 in
      let (z, endpoint, e6) = bind-ok _ _ a e5 in
      subst (Routed key model) (ok-injective _ a e6) (record {
        same_key = refl;
        same_model = refl;
        allowed = ensure-ok _ 403 _ v allowed;
        listed = needed-ok _ 404 _ route listed;
        enabled = ensure-ok _ 403 _ x enabled;
        backend = ensure-ok _ 403 _ y backend;
        endpoint = ensure-ok _ 400 _ z endpoint;
      })

  -- The key's token was given and its key may be used now, and the body's head names the model.
  pub record Admitted (r : GenerateRequest H) (a : Admission) (incoming : IncomingBody)
      : Type 0 where
    pub plain : Text
    pub has_key : extract_api_key H r.headers ≡ some plain
    pub authorized_key : authorize_key snapshot (o.hash_key plain) o.now_secs ≡ AuthResult.ok a.key
    pub read :
        read_incoming_body o.parse_head o.scan o.max_body_bytes
          (parse_content_length H r.headers)
          r.chunks
        ≡ ok incoming
    pub routed : Routed a.key (head_of incoming).model a

  read-ok : (x : Result IncomingBody BodyReadError) (b : IncomingBody) → read_or x ≡ ok b → x ≡ ok b
  read-ok (ok c) b e = ap ok (ok-injective c b e)
  read-ok (err BodyReadError.too_large) b e = absurd (ground arith)
  read-ok (err BodyReadError.read_failed) b e = absurd (ground arith)
  read-ok (err BodyReadError.invalid_json) b e = absurd (ground arith)

  pub admit-Admitted :
      (r : GenerateRequest H) (a : Admission) (incoming : IncomingBody)
      → admit H o snapshot path r ≡ ok (a, incoming)
      → Admitted r a incoming
  unfolding admit
  admit-Admitted r a incoming e =
      let (plain, given, e1) = bind-ok _ _ (a, incoming) e in
      let (key, known, e2) = bind-ok _ _ (a, incoming) e1 in
      let (body, read, e3) = bind-ok _ _ (a, incoming) e2 in
      let (b, routed, e4) = bind-ok _ _ (a, incoming) e3 in
      let pair = ok-injective (b, body) (a, incoming) e4 in
      let same : b ≡ a = ap (λ (p : Admission × IncomingBody). p.0) pair in
      let same_body : body ≡ incoming = ap (λ (p : Admission × IncomingBody). p.1) pair in
      let facts =
        subst (λ x. Routed key (head_of body).model x) same
          (route_for-Routed key (head_of body).model b routed) in
      let same_key = facts.same_key in
      record {
        plain = plain;
        has_key = needed-ok _ 401 _ plain given;
        authorized_key = authorized-ok _ key known ∙ ap AuthResult.ok (sym same_key);
        read = read-ok _ body read ∙ ap ok same_body;
        routed =
            subst (λ (k : ApiKey). Routed k (head_of incoming).model a) (sym same_key)
              (subst (λ (c : IncomingBody). Routed key (head_of c).model a) same_body facts);
      }
