-- ===== src/Proxy/Forward/Settled.antt =====
-- What `proxy_forward` of src/proxy/mod.rs leaves behind, on every path.
use brigh_to_router.Prelude.{
  ℕ, zero, suc, ◌+◌, ◌≤◌, ◌<◌, ◌≡◌, refl, Bool, true, false, Option, none, some, [], ◌∷◌, ◌++◌,
  length, if_intro, arith,
}
use brigh_to_router.Prelude.Result.{Result, ok, err}
use brigh_to_router.Prelude.Text.{Text}
use brigh_to_router.Contract.Config.{Backend, EffectiveModelEndpoint}
use brigh_to_router.Route.Exclusions
use brigh_to_router.Route.Exclusions.{BackendExclusions, contains, mem, default}
use brigh_to_router.Route.Exclusions.Laws.{default-IsValid}
use brigh_to_router.Route.Select.{Scores}
use brigh_to_router.Route.Acquire.Loop.{left, left-length}
use brigh_to_router.Route.Acquire.Again.{named}
use brigh_to_router.Json.{Codec}
use brigh_to_router.Ledger.Sink.{Channels}
use brigh_to_router.Proxy.Headers.{HeaderMap}
use brigh_to_router.Proxy.Attempt.{
  ProxyContext, ProxyRequestBody, is_replayable, RequestBody, Refused, Request,
  build_reqwest_request_id, put_back,
}
use brigh_to_router.Proxy.Reporter.{AppState}
use brigh_to_router.Proxy.Forward.{
  World, Incoming, Executed, responded, failed, timed_out, sent, Forward, Ending, count, give_back,
  note, give_up, after_sent, send, after_built, when, with_body, with_upload, if_allowed,
  with_backend, attempt, forward_from, no_backend, start, proxy_forward,
}
use brigh_to_router.Proxy.Forward.Trace.{Distinct, leases, drops, sends}
use brigh_to_router.Proxy.Forward.Invariant.{Inv, Inv-same, Inv-sent}
use brigh_to_router.Proxy.Forward.Outcome.{
  Good, reply-Good, unavailable-Good, refuse-Good, hand_over-Good, give_back-Inv, note-Inv,
  count-Inv,
}
use brigh_to_router.Proxy.Forward.Turns.{Ready, Goes, acquire-Good, retry-Good}

module _ (H : HeaderMap) (codec : Codec) (channels : Channels) (scores : Scores) (w : World)
    (incoming : Incoming) (ctx : ProxyContext) (fuel later : ℕ) (s : AppState channels)
    (enough : length ctx.route.backend_ids < fuel) (two : 1 < fuel) where
  abbrev Rest : Type 0
  Rest = ℕ → Forward H channels → Option (Ending H × Forward H channels)

  abbrev Next : ℕ → Rest → Type 0
  Next = Goes H codec channels scores w incoming ctx fuel later s enough two

  give_up-Good :
      (replayable : Bool) (k n b : ℕ) (backend : Backend) (status : ℕ) (message : Text)
      (f : Forward H channels) (rest : Rest)
      → Inv s (b ∷ []) f
      → left (named ctx.route) f.tried ≤ k
      → Next k rest
      → Good ctx s (
          give_up H codec channels scores w incoming ctx fuel later replayable n b backend status
            message f rest)
  unfolding give_up
  give_up-Good replayable k n b backend status message f rest i few goes =
      retry-Good H codec channels scores w incoming ctx fuel later s enough two replayable k n none
        _ rest _
        (count-Inv H codec channels scores w incoming ctx fuel later s [] status _ (
          give_back-Inv H codec channels scores w incoming ctx fuel later s [] b _
            (note-Inv H codec channels scores w incoming ctx fuel later s (b ∷ []) n b false f i)))
        (unfold count in unfold give_back in unfold note in few) goes
        (reply-Good H codec channels scores w incoming ctx fuel later s status message
          (some backend.name) (w.pre_forward_ms n))

  after_sent-Good :
      (replayable : Bool) (k n b : ℕ) (backend : Backend) (x : Executed) (f : Forward H channels)
      (rest : Rest)
      → Inv s (b ∷ []) f
      → left (named ctx.route) f.tried ≤ k
      → Next k rest
      → Good ctx s (
          after_sent H codec channels scores w incoming ctx fuel later replayable n b backend x f
            rest)
  unfolding after_sent
  after_sent-Good replayable k n b backend (failed e) f rest i few goes =
      give_up-Good replayable k n b backend 502 _ f rest i few goes
  after_sent-Good replayable k n b backend timed_out f rest i few goes =
      give_up-Good replayable k n b backend 504 _ f rest i few goes
  after_sent-Good replayable k n b backend (responded status) f rest i few goes =
      if_intro (Good ctx s) _ _ _
        (λ e.
          retry-Good H codec channels scores w incoming ctx fuel later s enough two replayable k n
            (some b) _ rest _
            (note-Inv H codec channels scores w incoming ctx fuel later s (b ∷ []) n b false f i)
            (unfold note in few) goes
            (hand_over-Good H codec channels scores w incoming ctx fuel later s n b backend status))
        (λ e.
          hand_over-Good H codec channels scores w incoming ctx fuel later s n b backend status _
            (note-Inv H codec channels scores w incoming ctx fuel later s (b ∷ []) n b true f i))

  after_built-Good :
      (replayable : Bool) (k n b : ℕ) (backend : Backend) (o : Option (Request H))
      (f : Forward H channels) (rest : Rest)
      → ((r : Request H) → o ≡ some r → r.backend_id ≡ b)
      → Inv s (b ∷ []) f
      → mem (sends f.calls) b ≡ false
      → contains f.tried b ≡ true
      → left (named ctx.route) f.tried ≤ k
      → Next k rest
      → Good ctx s (
          after_built H codec channels scores w incoming ctx fuel later replayable n b backend o f
            rest)
  unfolding after_built
  after_built-Good replayable k n b backend none f rest at_b i unsent there few goes =
      give_up-Good replayable k n b backend 502 _ f rest i few goes
  after_built-Good replayable k n b backend (some r) f rest at_b i unsent there few goes =
      let e = at_b r refl in
      after_sent-Good replayable k n b backend (w.execute n) _ rest
        (unfold send in
          Inv-same s (b ∷ []) (record f { calls = f.calls ++ sent r ∷ [] }) _ refl refl refl refl
            refl refl (Inv-sent s (b ∷ []) f r (rw e unsent) (rw e there) i))
        (unfold send in few) goes

  when_id :
      (b : ℕ) (built : Bool) (o : Option (Request H))
      → ((r : Request H) → o ≡ some r → r.backend_id ≡ b)
      → (r : Request H) → when H codec channels scores w incoming ctx fuel later built o ≡ some r
      → r.backend_id ≡ b
  unfolding when
  when_id b true o h = h
  when_id b false o h = λ r e. absurd (cc)

  with_body-Good :
      (replayable : Bool) (k n b : ℕ) (backend : Backend) (endpoint : EffectiveModelEndpoint)
      (upload : ProxyRequestBody) (body : Result RequestBody Refused) (f : Forward H channels)
      (rest : Rest)
      → Ready H codec channels scores w incoming ctx fuel later s enough two k b f
      → Next k rest
      → Good ctx s (
          with_body H codec channels scores w incoming ctx fuel later replayable n b backend
            endpoint upload body f rest)
  unfolding with_body
  with_body-Good replayable k n b backend endpoint upload (err (status, message)) f rest y goes =
      refuse-Good H codec channels scores w incoming ctx fuel later s n b backend status message f
        y.inv
  with_body-Good replayable k n b backend endpoint upload (ok body) f rest y goes =
      after_built-Good replayable k n b backend _ (record f { upload = put_back upload }) rest
        (when_id b (w.builds n) _ (λ r e. build_reqwest_request_id H b _ _ _ _ _ _ r e))
        (Inv-same s (b ∷ []) f _ refl refl refl refl refl refl y.inv) y.unsent y.there y.few goes

  with_upload-Good :
      (replayable : Bool) (k n b : ℕ) (backend : Backend) (endpoint : EffectiveModelEndpoint)
      (upload : Option ProxyRequestBody) (f : Forward H channels) (rest : Rest)
      → Ready H codec channels scores w incoming ctx fuel later s enough two k b f
      → Next k rest
      → Good ctx s (
          with_upload H codec channels scores w incoming ctx fuel later replayable n b backend
            endpoint upload f rest)
  unfolding with_upload
  with_upload-Good replayable k n b backend endpoint none f rest y goes =
      refuse-Good H codec channels scores w incoming ctx fuel later s n b backend 502 _ f y.inv
  with_upload-Good replayable k n b backend endpoint (some upload) f rest y goes =
      with_body-Good replayable k n b backend endpoint upload _ (record f { upload = none }) rest
        (record {
          inv = Inv-same s (b ∷ []) f _ refl refl refl refl refl refl y.inv;
          unsent = y.unsent;
          there = y.there;
          few = y.few;
        })
        goes

  if_allowed-Good :
      (allowed replayable : Bool) (k n b : ℕ) (backend : Backend)
      (endpoint : EffectiveModelEndpoint) (f : Forward H channels) (rest : Rest)
      → Ready H codec channels scores w incoming ctx fuel later s enough two k b f
      → Next k rest
      → Good ctx s (
          if_allowed H codec channels scores w incoming ctx fuel later allowed replayable n b
            backend endpoint f rest)
  unfolding if_allowed
  if_allowed-Good true replayable k n b backend endpoint f rest y goes =
      with_upload-Good replayable k n b backend endpoint f.upload f rest y goes
  if_allowed-Good false replayable k n b backend endpoint f rest y goes =
      reply-Good H codec channels scores w incoming ctx fuel later s 502 _ (some backend.name)
        (w.elapsed_ms n) _
        (count-Inv H codec channels scores w incoming ctx fuel later s [] 502 _
          (give_back-Inv H codec channels scores w incoming ctx fuel later s [] b f y.inv))

  with_backend-Good :
      (replayable : Bool) (k n b : ℕ) (o : Option Backend) (f : Forward H channels) (rest : Rest)
      → Ready H codec channels scores w incoming ctx fuel later s enough two k b f
      → Next k rest
      → Good ctx s
          (with_backend H codec channels scores w incoming ctx fuel later replayable n b o f rest)
  unfolding with_backend
  with_backend-Good replayable k n b none f rest y goes =
      unavailable-Good H codec channels scores w incoming ctx fuel later s n _ _
        (give_back-Inv H codec channels scores w incoming ctx fuel later s [] b f y.inv)
  with_backend-Good replayable k n b (some backend) f rest y goes =
      if_allowed-Good _ replayable k n b backend _ f rest y goes

  forward_from-Good :
      (replayable : Bool) (rounds n b : ℕ) (f : Forward H channels)
      → Ready H codec channels scores w incoming ctx fuel later s enough two rounds b
          (record f { tried = Exclusions.insert b f.tried })
      → left (named ctx.route) (Exclusions.insert b f.tried) < rounds
      → Good ctx s
          (forward_from H codec channels scores w incoming ctx fuel later replayable rounds n b f)
  unfolding forward_from attempt
  forward_from-Good replayable zero n b f y few = absurd (omega arith)
  forward_from-Good replayable (suc rounds) n b f y few =
      with_backend-Good replayable rounds n b _ (record f { tried = Exclusions.insert b f.tried }) _
        (record { inv = y.inv; unsent = y.unsent; there = y.there; few = omega (arith, few) })
        (forward_from-Good replayable rounds (n + 1))

  start-Inv :
      (upload : ProxyRequestBody)
      → Inv s [] (start H codec channels scores w incoming ctx fuel later upload s)
  unfolding start leases drops sends Distinct mem
  start-Inv upload = record {
    valid = default-IsValid;
    balance = refl;
    distinct = tt;
    seen = λ j h. absurd (cc);
    once = tt;
    sent_to = λ j h. absurd (cc);
    budget = refl;
    ledger = refl;
  }

  -- A request ends, with a turn for each of the route's backends, and fuel above
  -- its primary backends and above 1 for each search; whatever the other requests, the backends and the
  -- configuration do. No backend is leased or sent to twice. Where the router answers itself, each
  -- lease was dropped once, and the reservation and the key's slot were given back; where a response is
  -- handed over, the one lease that is left, the reservation and the slot are the reporter's, and
  -- nothing was settled. The ledger has no event so far.
  pub proxy_forward-Good :
      (rounds : ℕ) (upload : ProxyRequestBody)
      → length (named ctx.route) ≤ rounds
      → Good ctx s (proxy_forward H codec channels scores w incoming ctx fuel later rounds upload s)
  unfolding proxy_forward start no_backend
  proxy_forward-Good rounds upload few =
      acquire-Good H codec channels scores w incoming ctx fuel later s enough two rounds 0 none
        (start H codec channels scores w incoming ctx fuel later upload s) _ _ (start-Inv upload)
        (omega (arith, left-length (named ctx.route) default, few))
        (forward_from-Good (is_replayable upload) rounds 1)
        (λ g i. unavailable-Good H codec channels scores w incoming ctx fuel later s 0 _ g i)
