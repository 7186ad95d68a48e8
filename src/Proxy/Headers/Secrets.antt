-- ===== src/Proxy/Headers/Secrets.antt =====
-- Which credentials reach a backend: src/proxy/mod.rs.
use brigh_to_router.Prelude.{
  ◌≡◌, refl, ◌∙◌, ap, sym, Bool, false, Option, none, some, [], ◌∷◌, ◌++◌, if◌then◌else◌, arith,
}
use brigh_to_router.Prelude.Eq.{list_beq, list_beq_iff}
use brigh_to_router.Prelude.Text.{Text, codes, to_ascii_lowercase, ascii_lower}
use brigh_to_router.Contract.Config.{BackendFormat, or_else, unwrap_or, open_ai, anthropic}
use brigh_to_router.Json.{is_empty}
use brigh_to_router.Proxy.Target.{must_drop_header}
use brigh_to_router.Proxy.Headers.{
  HeaderMap, Headers, copied, checked, defaulted, with_version, with_auth, with_id, with_encoding,
  request_headers,
}

-- The last value that the client gave to a name.
unfoldable pub last_value : Text → Headers → Option Text
last_value n [] = none
last_value n ((k, v) ∷ hs) = or_else (last_value n hs) (if list_beq k n then some v else none)

-- The credentials of a backend: a bearer token or an API key, by its format, and none without a key.
abbrev pub authorization_of : BackendFormat → Text → Option Text
authorization_of open_ai key = if is_empty key then none else some (codes "Bearer " ++ key)
authorization_of anthropic key = none

abbrev pub api_key_of : BackendFormat → Text → Option Text
api_key_of open_ai key = none
api_key_of anthropic key = if is_empty key then none else some key

or_else_assoc : (a b c : Option Text) → or_else (or_else a b) c ≡ or_else a (or_else b c)
or_else_assoc none b c = refl
or_else_assoc (some x) b c = refl

or_else-none : (a : Option Text) → or_else a none ≡ a
or_else-none none = refl
or_else-none (some x) = refl

abbrev passed : Headers → Text → Option Text
passed hs n = if must_drop_header n then none else last_value n hs

if_false : (a b : Option Text) {t : Bool} → t ≡ false → (if t then a else b) ≡ b
if_false a b e = rw e refl

module _ (H : HeaderMap) where
  copied-get :
      (hs : Headers) (n : Text) (m : H.Map)
      → H.get n (copied H hs m)
        ≡ (if must_drop_header n then H.get n m else or_else (last_value n hs) (H.get n m))
  unfolding copied last_value
  copied-get [] n m = ground arith
  copied-get ((k, v) ∷ hs) n m = ground (
    arith,
    copied-get hs n m,
    copied-get hs n (H.insert k v m),
    H.get-insert k n v m,
    list_beq_iff k n,
    or_else_assoc (last_value n hs) (some v) (H.get n m),
    or_else_assoc (last_value n hs) none (H.get n m),
  )

  copied_get : (hs : Headers) (n : Text) → H.get n (copied H hs H.empty) ≡ passed hs n
  copied_get hs n =
      ground (arith, copied-get hs n H.empty, H.get-empty n, or_else-none (last_value n hs))

  checked-get :
      (name value n : Text) (p m : H.Map)
      → checked H name value p ≡ some m
      → H.get n m ≡ (if list_beq name n then some value else H.get n p)
  unfolding checked
  checked-get name value n p m e = ground (arith, H.get-insert name n value p)

  checked-other :
      (name value n : Text) (p m : H.Map)
      → list_beq name n ≡ false
      → checked H name value p ≡ some m
      → H.get n m ≡ H.get n p
  checked-other name value n p m other e = checked-get name value n p m e ∙ if_false _ _ other

  defaulted-other :
      (n : Text) (o : Option Text) (p : H.Map)
      → list_beq (codes "anthropic-version") n ≡ false
      → H.get n (defaulted H o p) ≡ H.get n p
  unfolding defaulted
  defaulted-other n (some v) p other = refl
  defaulted-other n none p other =
      H.get-insert (codes "anthropic-version") n (codes "2023-06-01") p ∙ if_false _ _ other

  with_version-other :
      (n : Text) (o : Option H.Map) (m : H.Map)
      → list_beq (codes "anthropic-version") n ≡ false
      → with_version H o ≡ some m
      → (p : H.Map) × (o ≡ some p) × (H.get n m ≡ H.get n p)
  unfolding with_version
  with_version-other n none m other e = absurd (cc)
  with_version-other n (some p) m other e = (
    p,
    refl,
    ap (λ o. H.get n (unwrap_or o p)) (sym e)
        ∙ defaulted-other n (H.get (codes "anthropic-version") p) p other,
  )

  with_encoding-other :
      (n : Text) (o : Option H.Map) (m : H.Map)
      → list_beq (codes "accept-encoding") n ≡ false
      → with_encoding H o ≡ some m
      → (p : H.Map) × (o ≡ some p) × (H.get n m ≡ H.get n p)
  unfolding with_encoding
  with_encoding-other n none m other e = absurd (cc)
  with_encoding-other n (some p) m other e = (
    p,
    refl,
    ap (λ o. H.get n (unwrap_or o p)) (sym e)
        ∙ H.get-insert (codes "accept-encoding") n (codes "identity") p
        ∙ if_false _ _ other,
  )

  with_id-other :
      (request_id n : Text) (o : Option H.Map) (m : H.Map)
      → list_beq (codes "x-request-id") n ≡ false
      → with_id H request_id o ≡ some m
      → (p : H.Map) × (o ≡ some p) × (H.get n m ≡ H.get n p)
  unfolding with_id
  with_id-other request_id n none m other e = absurd (cc)
  with_id-other request_id n (some p) m other e =
      (p, refl, checked-other (codes "x-request-id") request_id n p m other e)

  -- The router's own headers that come last, at another name.
  last-other :
      (request_id n : Text) (o : Option H.Map) (m : H.Map)
      → list_beq (codes "accept-encoding") n ≡ false
      → list_beq (codes "x-request-id") n ≡ false
      → with_encoding H (with_id H request_id o) ≡ some m
      → (p : H.Map) × (o ≡ some p) × (H.get n m ≡ H.get n p)
  last-other request_id n o m encoding id e =
      let (q, made, same) = with_encoding-other n (with_id H request_id o) m encoding e in
      let (p, from, alike) = with_id-other request_id n o q id made in (p, from, same ∙ alike)

  with_auth-authorization :
      (hs : Headers) (format : BackendFormat) (key : Text) (m : H.Map)
      → with_auth H format key (copied H hs H.empty) ≡ some m
      → H.get (codes "authorization") m ≡ authorization_of format key
  unfolding with_auth must_drop_header to_ascii_lowercase ascii_lower
  with_auth-authorization hs open_ai [] m e =
      ap (λ o. H.get (codes "authorization") (unwrap_or o m)) (sym e)
      ∙ copied_get hs (codes "authorization")
  with_auth-authorization hs open_ai (c ∷ key) m e =
      checked-get (codes "authorization") (codes "Bearer " ++ c ∷ key) (codes "authorization")
        (copied H hs H.empty) m e
  with_auth-authorization hs anthropic [] m e =
      ap (λ o. H.get (codes "authorization") (unwrap_or o m)) (sym e)
      ∙ copied_get hs (codes "authorization")
  with_auth-authorization hs anthropic (c ∷ key) m e =
      let (p, made, same) =
        with_version-other (codes "authorization")
          (checked H (codes "x-api-key") (c ∷ key) (copied H hs H.empty)) m refl e in
      same
      ∙ checked-other (codes "x-api-key") (c ∷ key) (codes "authorization") (copied H hs H.empty) p
          refl made
      ∙ copied_get hs (codes "authorization")

  with_auth-api_key :
      (hs : Headers) (format : BackendFormat) (key : Text) (m : H.Map)
      → with_auth H format key (copied H hs H.empty) ≡ some m
      → H.get (codes "x-api-key") m ≡ api_key_of format key
  unfolding with_auth must_drop_header to_ascii_lowercase ascii_lower
  with_auth-api_key hs open_ai [] m e =
      ap (λ o. H.get (codes "x-api-key") (unwrap_or o m)) (sym e)
      ∙ copied_get hs (codes "x-api-key")
  with_auth-api_key hs open_ai (c ∷ key) m e =
      checked-other (codes "authorization") (codes "Bearer " ++ c ∷ key) (codes "x-api-key")
        (copied H hs H.empty) m refl e
      ∙ copied_get hs (codes "x-api-key")
  with_auth-api_key hs anthropic [] m e =
      ap (λ o. H.get (codes "x-api-key") (unwrap_or o m)) (sym e)
      ∙ copied_get hs (codes "x-api-key")
  with_auth-api_key hs anthropic (c ∷ key) m e =
      let (p, made, same) =
        with_version-other (codes "x-api-key")
          (checked H (codes "x-api-key") (c ∷ key) (copied H hs H.empty)) m refl e in
      same
      ∙ checked-get (codes "x-api-key") (c ∷ key) (codes "x-api-key") (copied H hs H.empty) p made

  with_auth-other :
      (hs : Headers) (format : BackendFormat) (key n : Text) (m : H.Map)
      → list_beq (codes "authorization") n ≡ false
      → list_beq (codes "x-api-key") n ≡ false
      → list_beq (codes "anthropic-version") n ≡ false
      → with_auth H format key (copied H hs H.empty) ≡ some m
      → H.get n m ≡ passed hs n
  unfolding with_auth
  with_auth-other hs open_ai [] n m a x v e =
      ap (λ o. H.get n (unwrap_or o m)) (sym e) ∙ copied_get hs n
  with_auth-other hs open_ai (c ∷ key) n m a x v e =
      checked-other (codes "authorization") (codes "Bearer " ++ c ∷ key) n (copied H hs H.empty) m a
        e
      ∙ copied_get hs n
  with_auth-other hs anthropic [] n m a x v e =
      ap (λ o. H.get n (unwrap_or o m)) (sym e) ∙ copied_get hs n
  with_auth-other hs anthropic (c ∷ key) n m a x v e =
      let (p, made, same) =
        with_version-other n (checked H (codes "x-api-key") (c ∷ key) (copied H hs H.empty)) m v
          e in
      same
      ∙ checked-other (codes "x-api-key") (c ∷ key) n (copied H hs H.empty) p x made
      ∙ copied_get hs n

  -- The credentials that a backend gets are its own: whatever headers the client sent, a request that
  -- can be built has the bearer token or the API key of the backend, by its format, and neither where
  -- the backend has no key.
  pub request_headers-credentials :
      (hs : Headers) (format : BackendFormat) (key request_id : Text) (m : H.Map)
      → request_headers H hs format key request_id ≡ some m
      → (H.get (codes "authorization") m ≡ authorization_of format key)
        × (H.get (codes "x-api-key") m ≡ api_key_of format key)
  unfolding request_headers
  request_headers-credentials hs format key request_id m e =
      let o = with_auth H format key (copied H hs H.empty) in
      let (p, made, same) = last-other request_id (codes "authorization") o m refl refl e in
      let (q, built, alike) = last-other request_id (codes "x-api-key") o m refl refl e in
      (
        same ∙ with_auth-authorization hs format key p made,
        alike ∙ with_auth-api_key hs format key q built,
      )

  -- Every header that is not the router's own is the client's last one of that name, or none where
  -- the name must not be passed on.
  pub request_headers-passed :
      (hs : Headers) (format : BackendFormat) (key request_id n : Text) (m : H.Map)
      → list_beq (codes "accept-encoding") n ≡ false
      → list_beq (codes "x-request-id") n ≡ false
      → list_beq (codes "authorization") n ≡ false
      → list_beq (codes "x-api-key") n ≡ false
      → list_beq (codes "anthropic-version") n ≡ false
      → request_headers H hs format key request_id ≡ some m
      → H.get n m ≡ passed hs n
  unfolding request_headers
  request_headers-passed hs format key request_id n m encoding id a x v e =
      let o = with_auth H format key (copied H hs H.empty) in
      let (p, made, same) = last-other request_id n o m encoding id e in
      same ∙ with_auth-other hs format key n p a x v made
