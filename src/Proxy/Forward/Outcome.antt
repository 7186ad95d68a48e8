-- ===== src/Proxy/Forward/Outcome.antt =====
-- What `proxy_forward` of src/proxy/mod.rs leaves behind, and its steps that end a turn.
use brigh_to_router.Prelude.{
  ℕ, ◌≡◌, refl, sym, ap, ◌∙◌, Bool, false, Option, none, some, List, [], ◌∷◌, ◌++◌,
}
use mathlib.Core.List.{append-nil}
use brigh_to_router.Prelude.Text.{Text}
use brigh_to_router.Contract.Config.{Backend}
use brigh_to_router.Route.Select.{Scores}
use brigh_to_router.Route.Acquire.{Acquired}
use brigh_to_router.Route.Acquire.Again.{Fresh}
use brigh_to_router.Json.{Codec}
use brigh_to_router.Ledger.Sink.{Channels}
use brigh_to_router.Proxy.Headers.{HeaderMap}
use brigh_to_router.Proxy.Attempt.{ProxyContext}
use brigh_to_router.Proxy.Reporter.{CompletionReporter, AppState, maybe_rollback, maybe_release}
use brigh_to_router.Proxy.Forward.{
  World, Incoming, dropped, noted, Forward, Ending, answered, handed, count, give_back, note,
  settle, reply, unavailable, release, hand_over, refuse,
}
use brigh_to_router.Proxy.Forward.Trace.{Distinct, leases, drops, sends}
use brigh_to_router.Proxy.Forward.Invariant.{Inv, Inv-same, Inv-wider, Inv-noted, Inv-dropped}

module _ {H : HeaderMap} {channels : Channels} (ctx : ProxyContext) (s : AppState channels) where
  -- An answer of the router's own: every lease was dropped, and the reservation and the slot of the
  -- key were given back.
  pub record Answered (f : Forward H channels) : Type 0 where
    pub balance : drops f.calls ≡ leases f.calls
    pub distinct : Distinct (leases f.calls)
    pub once : Distinct (sends f.calls)
    pub budget :
        f.state.budget ≡ maybe_rollback ctx.reservation (maybe_release ctx.concurrency s.budget)
    pub ledger : f.state.ledger ≡ s.ledger

  -- A response to pass on: the reporter holds the one lease that is left, the reservation and the
  -- slot, none of them settled.
  pub record Handed (r : CompletionReporter) (f : Forward H channels) : Type 0 where
    pub balance : leases f.calls ≡ drops f.calls ++ r.backend_id ∷ []
    pub distinct : Distinct (leases f.calls)
    pub once : Distinct (sends f.calls)
    pub reservation : r.reservation ≡ ctx.reservation
    pub concurrency : r.concurrency ≡ ctx.concurrency
    pub unsettled : r.finished ≡ false
    pub budget : f.state.budget ≡ s.budget
    pub ledger : f.state.ledger ≡ s.ledger

  unfoldable pub Left : Ending H → Forward H channels → Type 0
  Left (answered r) f = Answered f
  Left (handed status format r name ms) f = Handed r f

  -- The function returns, and leaves things so.
  pub record Good (o : Option (Ending H × Forward H channels)) : Type 0 where
    pub ending : Ending H
    pub after : Forward H channels
    pub returns : o ≡ some (ending, after)
    pub left_so : Left ending after

abbrev pub held_by : Option ℕ → List ℕ
held_by none = []
held_by (some b) = b ∷ []

module _ (H : HeaderMap) (codec : Codec) (channels : Channels) (scores : Scores) (w : World)
    (incoming : Incoming) (ctx : ProxyContext) (fuel later : ℕ) (s : AppState channels) where
  abbrev pub State : Type 0
  State = Forward H channels

  abbrev pub Turned : Type 0
  Turned = Option (Ending H × State)

  pub reply-Good :
      (status : ℕ) (message : Text) (name : Option Text) (ms : ℕ) (f : State)
      → Inv s [] f
      → Good ctx s
          (reply H codec channels scores w incoming ctx fuel later status message name ms f)
  unfolding reply settle Left
  reply-Good status message name ms f i = record {
    ending = _;
    after = _;
    returns = refl;
    left_so = record {
      balance = sym (i.balance ∙ append-nil (drops f.calls));
      distinct = i.distinct;
      once = i.once;
      budget = ap (λ b. maybe_rollback ctx.reservation (maybe_release ctx.concurrency b)) i.budget;
      ledger = i.ledger;
    };
  }

  pub unavailable-Good :
      (n : ℕ) (message : Text) (f : State)
      → Inv s [] f
      → Good ctx s (unavailable H codec channels scores w incoming ctx fuel later n message f)
  unfolding unavailable count
  unavailable-Good n message f i =
      reply-Good 503 message none (w.elapsed_ms n) _
        (Inv-same s [] f _ refl refl refl refl refl refl i)

  pub give_back-Inv :
      (held : List ℕ) (b : ℕ) (f : State)
      → Inv s (b ∷ held) f
      → Inv s held (give_back H codec channels scores w incoming ctx fuel later b f)
  unfolding give_back
  give_back-Inv held b f i =
      Inv-same s held (record f { calls = f.calls ++ dropped b ∷ [] }) _ refl refl refl refl refl
        refl (Inv-dropped s held f b i)

  pub note-Inv :
      (held : List ℕ) (n b : ℕ) (good : Bool) (f : State)
      → Inv s held f
      → Inv s held (note H codec channels scores w incoming ctx fuel later n b good f)
  unfolding note
  note-Inv held n b good f i =
      Inv-same s held (record f { calls = f.calls ++ noted b good ∷ [] }) _ refl refl refl refl refl
        refl (Inv-noted s held f b good i)

  pub count-Inv :
      (held : List ℕ) (status : ℕ) (f : State)
      → Inv s held f
      → Inv s held (count H codec channels scores w incoming ctx fuel later status f)
  unfolding count
  count-Inv held status f i = Inv-same s held f _ refl refl refl refl refl refl i

  pub release-Inv :
      (held : Option ℕ) (f : State)
      → Inv s (held_by held) f
      → Inv s [] (release H codec channels scores w incoming ctx fuel later held f)
  unfolding release
  release-Inv none f i = i
  release-Inv (some b) f i = give_back-Inv [] b f i

  -- What a search does to the exclusions and the pool.
  pub search-Inv :
      (held : List ℕ) (ids : List ℕ) (a : Acquired) (f : State)
      → Fresh ids f.tried a
      → Inv s held f
      → Inv s held (record f { tried = a.excluded; state = record f.state { backends = a.pool } })
  search-Inv held ids a f x i =
      Inv-same s held (record f { tried = a.excluded }) _ refl refl refl refl refl refl
        (Inv-wider s held f a.excluded x.valid x.above i)

  pub refuse-Good :
      (n b : ℕ) (backend : Backend) (status : ℕ) (message : Text) (f : State)
      → Inv s (b ∷ []) f
      → Good ctx s
          (refuse H codec channels scores w incoming ctx fuel later n b backend status message f)
  unfolding refuse
  refuse-Good n b backend status message f i =
      reply-Good status message (some backend.name) (w.elapsed_ms n) _
        (give_back-Inv [] b _ (count-Inv (b ∷ []) status f i))

  pub hand_over-Good :
      (n b : ℕ) (backend : Backend) (status : ℕ) (f : State)
      → Inv s (b ∷ []) f
      → Good ctx s
          (hand_over H codec channels scores w incoming ctx fuel later n b backend status f)
  unfolding hand_over Left
  hand_over-Good n b backend status f i = record {
    ending = _;
    after = _;
    returns = refl;
    left_so = record {
      balance = i.balance;
      distinct = i.distinct;
      once = i.once;
      reservation = refl;
      concurrency = refl;
      unsettled = refl;
      budget = i.budget;
      ledger = i.ledger;
    };
  }
