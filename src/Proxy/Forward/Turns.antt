-- ===== src/Proxy/Forward/Turns.antt =====
-- How a turn of `proxy_forward` in src/proxy/mod.rs leads to the next one.
use brigh_to_router.Prelude.{
  ℕ, ◌≤◌, ◌<◌, ◌≡◌, refl, ◌∙◌, Bool, true, false, Option, none, some, [], ◌∷◌, ◌++◌, length, ==_iff,
  arith,
}
use mathlib.Core.List.{append-nil}
use brigh_to_router.Prelude.Result.{Result, ok, err}
use brigh_to_router.Route.Exclusions
use brigh_to_router.Route.Exclusions.{BackendExclusions, contains, mem, default}
use brigh_to_router.Route.Exclusions.Laws.{IsValid, contains-insert}
use brigh_to_router.Route.Select.{AcquireError, counter_unavailable, Scores}
use brigh_to_router.Route.Acquire.{Acquired}
use brigh_to_router.Route.Acquire.Loop.{left, left_fewer}
use brigh_to_router.Route.Acquire.Again.{named, Above, left-Above, Fresh, acquire_excluding-Fresh}
use brigh_to_router.Json.{Codec}
use brigh_to_router.Ledger.Sink.{Channels}
use brigh_to_router.Proxy.Headers.{HeaderMap}
use brigh_to_router.Proxy.Attempt.{ProxyContext}
use brigh_to_router.Proxy.Reporter.{AppState}
use brigh_to_router.Proxy.Forward.{
  World, Incoming, leased, dropped, Forward, Ending, give_back, release, after_lease,
  after_acquired, acquire, retry,
}
use brigh_to_router.Proxy.Forward.Trace.{sends, sends-append}
use brigh_to_router.Proxy.Forward.Invariant.{Inv, Inv-same, Inv-leased, unsent_before}
use brigh_to_router.Proxy.Forward.Outcome.{
  Good, held_by, unavailable-Good, give_back-Inv, release-Inv, search-Inv,
}

ahead :
    (b : ℕ) (e f : BackendExclusions)
    → IsValid e
    → IsValid f
    → Above e f
    → Above (Exclusions.insert b e) (Exclusions.insert b f)
ahead b e f v u up j h = ground (arith, contains-insert b j e v, contains-insert b j f u, up j)

module _ (H : HeaderMap) (codec : Codec) (channels : Channels) (scores : Scores) (w : World)
    (incoming : Incoming) (ctx : ProxyContext) (fuel later : ℕ) (s : AppState channels)
    (enough : length ctx.route.backend_ids < fuel) (two : 1 < fuel) where
  -- A turn with its lease, `k` backends of the route at most being left.
  pub record Ready (k b : ℕ) (f : Forward H channels) : Type 0 where
    pub inv : Inv s (b ∷ []) f
    pub unsent : mem (sends f.calls) b ≡ false
    pub there : contains f.tried b ≡ true
    pub few : left (named ctx.route) f.tried ≤ k

  -- What the next turn must do, from a lease that is not yet excluded.
  abbrev pub Goes : ℕ → (ℕ → Forward H channels → Option (Ending H × Forward H channels)) → Type 0
  Goes k rest =
      (b : ℕ) (f : Forward H channels)
      → Ready k b (record f { tried = Exclusions.insert b f.tried })
      → left (named ctx.route) (Exclusions.insert b f.tried) < k
      → Good ctx s (rest b f)

  -- The state of the next turn, after the search and with the lease that is dropped late.
  abbrev next : Option ℕ → ℕ → Acquired → Forward H channels → Forward H channels
  next held b a f = release H codec channels scores w incoming ctx fuel later held (record f {
    tried = a.excluded;
    state = record f.state { backends = a.pool };
    calls = f.calls ++ leased b ∷ [];
  })

  next-Inv :
      (held : Option ℕ) (b : ℕ) (a : Acquired) (f : Forward H channels)
      → Fresh (named ctx.route) f.tried a
      → contains f.tried b ≡ false
      → Inv s (held_by held) f
      → Inv s
          (b ∷ [])
          (record (next held b a f) { tried = Exclusions.insert b (next held b a f).tried })
  unfolding release
  next-Inv none b a f x fresh i =
      Inv-same s (b ∷ [])
        (record f { tried = Exclusions.insert b a.excluded; calls = f.calls ++ leased b ∷ [] }) _
        refl refl refl refl refl refl (Inv-leased s [] f b a.excluded i x.valid x.above fresh)
  next-Inv (some c) b a f x fresh i =
      unfold give_back in
      give_back-Inv H codec channels scores w incoming ctx fuel later s (b ∷ []) c
        (record f {
          tried = Exclusions.insert b a.excluded;
          state = record f.state { backends = a.pool };
          calls = f.calls ++ leased b ∷ [];
        })
        (Inv-same s (c ∷ b ∷ [])
          (record f { tried = Exclusions.insert b a.excluded; calls = f.calls ++ leased b ∷ [] }) _
          refl refl refl refl refl refl
          (Inv-leased s (c ∷ []) f b a.excluded i x.valid x.above fresh))

  next-sends :
      (held : Option ℕ) (b : ℕ) (a : Acquired) (f : Forward H channels)
      → sends (next held b a f).calls ≡ sends f.calls
  unfolding release give_back sends
  next-sends none b a f = sends-append f.calls (leased b ∷ []) ∙ append-nil (sends f.calls)
  next-sends (some c) b a f =
      sends-append (f.calls ++ leased b ∷ []) (dropped c ∷ [])
      ∙ append-nil (sends (f.calls ++ leased b ∷ []))
      ∙ sends-append f.calls (leased b ∷ [])
      ∙ append-nil (sends f.calls)

  next-tried :
      (held : Option ℕ) (b : ℕ) (a : Acquired) (f : Forward H channels)
      → (next held b a f).tried ≡ a.excluded
  unfolding release give_back
  next-tried none b a f = refl
  next-tried (some c) b a f = refl

  next-Goes :
      (k : ℕ) (held : Option ℕ) (b : ℕ) (a : Acquired) (f : Forward H channels)
      (rest : ℕ → Forward H channels → Option (Ending H × Forward H channels))
      → Goes k rest
      → Inv s
          (b ∷ [])
          (record (next held b a f) { tried = Exclusions.insert b (next held b a f).tried })
      → mem (sends f.calls) b ≡ false
      → IsValid a.excluded
      → left (named ctx.route) (Exclusions.insert b a.excluded) < k
      → Good ctx s (rest b (next held b a f))
  next-Goes k held b a f rest goes i unsent v fewer =
      let t = next-tried held b a f in
      let fewer_here : left (named ctx.route) (Exclusions.insert b (next held b a f).tried) < k =
        rw t fewer in
      let there : contains (Exclusions.insert b a.excluded) b ≡ true =
        ground (arith, contains-insert b b a.excluded v, ==_iff b b) in
      goes b (next held b a f)
        (record {
          inv = i;
          unsent = rw (next-sends held b a f) unsent;
          there = rw t there;
          few = omega (arith, fewer_here);
        })
        fewer_here

  after_lease-Good :
      (k n : ℕ) (held : Option ℕ) (a : Acquired) (lease : Result (Option ℕ) AcquireError)
      (f : Forward H channels)
      (rest : ℕ → Forward H channels → Option (Ending H × Forward H channels))
      (last : Forward H channels → Option (Ending H × Forward H channels))
      → a.lease ≡ lease
      → Fresh (named ctx.route) f.tried a
      → Inv s (held_by held) f
      → left (named ctx.route) f.tried ≤ k
      → Goes k rest
      → ((g : Forward H channels) → Inv s (held_by held) g → Good ctx s (last g))
      → Good ctx s (
          after_lease H codec channels scores w incoming ctx fuel later n held lease
            (record f { tried = a.excluded; state = record f.state { backends = a.pool } })
            rest
            last)
  unfolding after_lease
  after_lease-Good k n held a (ok (some b)) f rest last given x i few goes done =
      let fresh = x.fresh b given in
      let tried = ahead b f.tried a.excluded i.valid x.valid x.above in
      let fewer : left (named ctx.route) (Exclusions.insert b a.excluded) < k = omega (
        arith,
        left_fewer (named ctx.route) b f.tried i.valid (x.listed b given) fresh,
        left-Above (named ctx.route) (Exclusions.insert b f.tried) (Exclusions.insert b a.excluded)
            tried,
      ) in
      next-Goes k held b a f rest goes (next-Inv held b a f x fresh i)
        (unsent_before s (held_by held) f b i fresh) x.valid fewer
  after_lease-Good k n held a (ok none) f rest last given x i few goes done =
      done _
        (search-Inv H codec channels scores w incoming ctx fuel later s (held_by held) _ a f x i)
  after_lease-Good k n held a (err (counter_unavailable m)) f rest last given x i few goes done =
      unavailable-Good H codec channels scores w incoming ctx fuel later s n m _ (
        release-Inv H codec channels scores w incoming ctx fuel later s held _
          (search-Inv H codec channels scores w incoming ctx fuel later s (held_by held) _ a f x i))

  pub acquire-Good :
      (k n : ℕ) (held : Option ℕ) (f : Forward H channels)
      (rest : ℕ → Forward H channels → Option (Ending H × Forward H channels))
      (last : Forward H channels → Option (Ending H × Forward H channels))
      → Inv s (held_by held) f
      → left (named ctx.route) f.tried ≤ k
      → Goes k rest
      → ((g : Forward H channels) → Inv s (held_by held) g → Good ctx s (last g))
      → Good ctx s (acquire H codec channels scores w incoming ctx fuel later n held f rest last)
  unfolding acquire after_acquired
  acquire-Good k n held f rest last i few goes done =
      let (a, found, x) =
        acquire_excluding-Fresh scores ctx.route (w.acquiring n) fuel later f.tried f.state.backends
          i.valid enough two in
      rw found (after_lease-Good k n held a a.lease f rest last refl x i few goes done)

  pub retry-Good :
      (replayable : Bool) (k n : ℕ) (held : Option ℕ) (f : Forward H channels)
      (rest : ℕ → Forward H channels → Option (Ending H × Forward H channels))
      (last : Forward H channels → Option (Ending H × Forward H channels))
      → Inv s (held_by held) f
      → left (named ctx.route) f.tried ≤ k
      → Goes k rest
      → ((g : Forward H channels) → Inv s (held_by held) g → Good ctx s (last g))
      → Good ctx s
          (retry H codec channels scores w incoming ctx fuel later replayable n held f rest last)
  unfolding retry
  retry-Good true k n held f rest last i few goes done =
      acquire-Good k n held f rest last i few goes done
  retry-Good false k n held f rest last i few goes done = done f i
