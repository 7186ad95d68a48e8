-- ===== src/Proxy/Forward/Invariant.antt =====
-- What holds between the calls of `proxy_forward`.
use brigh_to_router.Prelude.{
  ℕ, ◌≡◌, refl, sym, ap, ◌∙◌, Bool, true, false, List, [], ◌∷◌, ◌++◌, ==_iff, arith, Bool-cases,
  inl, inr,
}
use mathlib.Core.List.{append_assoc, append-nil}
use brigh_to_router.Route.Exclusions
use brigh_to_router.Route.Exclusions.{BackendExclusions, contains, mem}
use brigh_to_router.Route.Exclusions.Laws.{IsValid, insert-IsValid, contains-insert}
use brigh_to_router.Route.Acquire.Again.{Above}
use brigh_to_router.Ledger.Sink.{Channels}
use brigh_to_router.Proxy.Headers.{HeaderMap}
use brigh_to_router.Proxy.Attempt.{Request}
use brigh_to_router.Proxy.Reporter.{AppState}
use brigh_to_router.Proxy.Forward.{leased, dropped, noted, sent, Forward}
use brigh_to_router.Proxy.Forward.Trace.{
  Distinct, mem-snoc, Distinct-snoc, leases, drops, sends, leases-append, drops-append,
  sends-append,
}

absent :
    (xs : List ℕ) (e : BackendExclusions) (b : ℕ)
    → ((j : ℕ) → mem xs j ≡ true → contains e j ≡ true)
    → contains e b ≡ false
    → mem xs b ≡ false
absent xs e b h fresh = elim (Bool-cases (mem xs b)) [
  | inl there ↦ let x = h b there in absurd (cc)
  | inr no_such ↦ no_such
]

seen-insert :
    (xs : List ℕ) (b : ℕ) (f e : BackendExclusions)
    → IsValid e
    → Above f e
    → ((j : ℕ) → mem xs j ≡ true → contains f j ≡ true)
    → (j : ℕ) → mem xs j ≡ true
    → contains (Exclusions.insert b e) j ≡ true
seen-insert xs b f e v up h j there = ground (arith, contains-insert b j e v, up j (h j there))

seen-snoc :
    (xs : List ℕ) (b : ℕ) (e : BackendExclusions)
    → contains e b ≡ true
    → ((j : ℕ) → mem xs j ≡ true → contains e j ≡ true)
    → (j : ℕ) → mem (xs ++ b ∷ []) j ≡ true
    → contains e j ≡ true
seen-snoc xs b e there h j found = elim (Bool-cases (mem xs j)) [
  | inl old ↦ h j old
  | inr new ↦ let same : b ≡ j = ground (arith, mem-snoc xs b j, ==_iff b j) in rw (← same) there
]

module _ {H : HeaderMap} {channels : Channels} (s : AppState channels) where
  -- Every lease but those held was dropped, in the order of the leases; no backend was leased or sent
  -- to twice, and all are excluded; the budget and the ledger are as they were.
  pub record Inv (held : List ℕ) (f : Forward H channels) : Type 0 where
    pub valid : IsValid f.tried
    pub balance : leases f.calls ≡ drops f.calls ++ held
    pub distinct : Distinct (leases f.calls)
    pub seen : (j : ℕ) → mem (leases f.calls) j ≡ true → contains f.tried j ≡ true
    pub once : Distinct (sends f.calls)
    pub sent_to : (j : ℕ) → mem (sends f.calls) j ≡ true → contains f.tried j ≡ true
    pub budget : f.state.budget ≡ s.budget
    pub ledger : f.state.ledger ≡ s.ledger

  -- Changes of the rest of the state, and calls that are no leases and send nothing.
  pub Inv-same :
      (held : List ℕ) (f g : Forward H channels)
      → g.tried ≡ f.tried
      → leases g.calls ≡ leases f.calls
      → drops g.calls ≡ drops f.calls
      → sends g.calls ≡ sends f.calls
      → g.state.budget ≡ f.state.budget
      → g.state.ledger ≡ f.state.ledger
      → Inv held f
      → Inv held g
  Inv-same held f g tried same_leases same_drops same_sends budget ledger i = record {
    valid = rw tried i.valid;
    balance = rw (same_leases, same_drops) i.balance;
    distinct = rw same_leases i.distinct;
    seen = rw (same_leases, tried) i.seen;
    once = rw same_sends i.once;
    sent_to = rw (same_sends, tried) i.sent_to;
    budget = budget ∙ i.budget;
    ledger = ledger ∙ i.ledger;
  }

  -- More backends may be excluded.
  pub Inv-wider :
      (held : List ℕ) (f : Forward H channels) (e : BackendExclusions)
      → IsValid e
      → Above f.tried e
      → Inv held f
      → Inv held (record f { tried = e })
  Inv-wider held f e v up i = record {
    valid = v;
    balance = i.balance;
    distinct = i.distinct;
    seen = λ j h. up j (i.seen j h);
    once = i.once;
    sent_to = λ j h. up j (i.sent_to j h);
    budget = i.budget;
    ledger = i.ledger;
  }

  pub Inv-noted :
      (held : List ℕ) (f : Forward H channels) (b : ℕ) (good : Bool)
      → Inv held f
      → Inv held (record f { calls = f.calls ++ noted b good ∷ [] })
  unfolding leases drops sends
  Inv-noted held f b good =
      Inv-same held f (record f { calls = f.calls ++ noted b good ∷ [] }) refl
        (leases-append f.calls (noted b good ∷ []) ∙ append-nil (leases f.calls))
        (drops-append f.calls (noted b good ∷ []) ∙ append-nil (drops f.calls))
        (sends-append f.calls (noted b good ∷ []) ∙ append-nil (sends f.calls)) refl refl

  pub Inv-dropped :
      (held : List ℕ) (f : Forward H channels) (b : ℕ)
      → Inv (b ∷ held) f
      → Inv held (record f { calls = f.calls ++ dropped b ∷ [] })
  unfolding leases drops sends
  Inv-dropped held f b i =
      let same_leases : leases (f.calls ++ dropped b ∷ []) ≡ leases f.calls =
        leases-append f.calls (dropped b ∷ []) ∙ append-nil (leases f.calls) in
      let same_sends : sends (f.calls ++ dropped b ∷ []) ≡ sends f.calls =
        sends-append f.calls (dropped b ∷ []) ∙ append-nil (sends f.calls) in
      record {
        valid = i.valid;
        balance =
            same_leases
            ∙ i.balance
            ∙ sym (append_assoc (drops f.calls) (b ∷ []) held)
            ∙ ap (λ l. l ++ held) (sym (drops-append f.calls (dropped b ∷ [])));
        distinct = rw same_leases i.distinct;
        seen = rw same_leases i.seen;
        once = rw same_sends i.once;
        sent_to = rw same_sends i.sent_to;
        budget = i.budget;
        ledger = i.ledger;
      }

  -- A lease of a backend that was not excluded, which then is.
  pub Inv-leased :
      (held : List ℕ) (f : Forward H channels) (b : ℕ) (e : BackendExclusions)
      → Inv held f
      → IsValid e
      → Above f.tried e
      → contains f.tried b ≡ false
      → Inv
          (held ++ b ∷ [])
          (record f { tried = Exclusions.insert b e; calls = f.calls ++ leased b ∷ [] })
  unfolding leases drops sends
  Inv-leased held f b e i v up fresh =
      let inserted : contains (Exclusions.insert b e) b ≡ true =
        ground (arith, contains-insert b b e v, ==_iff b b) in
      let same_leases : leases (f.calls ++ leased b ∷ []) ≡ leases f.calls ++ b ∷ [] =
        leases-append f.calls (leased b ∷ []) in
      let same_drops : drops (f.calls ++ leased b ∷ []) ≡ drops f.calls =
        drops-append f.calls (leased b ∷ []) ∙ append-nil (drops f.calls) in
      let same_sends : sends (f.calls ++ leased b ∷ []) ≡ sends f.calls =
        sends-append f.calls (leased b ∷ []) ∙ append-nil (sends f.calls) in
      record {
        valid = insert-IsValid b e v;
        balance =
            same_leases
            ∙ ap (λ l. l ++ b ∷ []) i.balance
            ∙ append_assoc (drops f.calls) held (b ∷ [])
            ∙ ap (λ l. l ++ (held ++ b ∷ [])) (sym same_drops);
        distinct = rw same_leases (
            Distinct-snoc (leases f.calls) b i.distinct
              (absent (leases f.calls) f.tried b i.seen fresh));
        seen = rw same_leases (
            seen-snoc (leases f.calls) b (Exclusions.insert b e) inserted
              (seen-insert (leases f.calls) b f.tried e v up i.seen));
        once = rw same_sends i.once;
        sent_to = rw same_sends (seen-insert (sends f.calls) b f.tried e v up i.sent_to);
        budget = i.budget;
        ledger = i.ledger;
      }

  -- A backend that is leased next got no request before.
  pub unsent_before :
      (held : List ℕ) (f : Forward H channels) (b : ℕ)
      → Inv held f
      → contains f.tried b ≡ false
      → mem (sends f.calls) b ≡ false
  unsent_before held f b i fresh = absent (sends f.calls) f.tried b i.sent_to fresh

  -- A request to a backend that got none yet.
  pub Inv-sent :
      (held : List ℕ) (f : Forward H channels) (r : Request H)
      → mem (sends f.calls) r.backend_id ≡ false
      → contains f.tried r.backend_id ≡ true
      → Inv held f
      → Inv held (record f { calls = f.calls ++ sent r ∷ [] })
  unfolding leases drops sends
  Inv-sent held f r unsent there i =
      let same_leases : leases (f.calls ++ sent r ∷ []) ≡ leases f.calls =
        leases-append f.calls (sent r ∷ []) ∙ append-nil (leases f.calls) in
      let same_drops : drops (f.calls ++ sent r ∷ []) ≡ drops f.calls =
        drops-append f.calls (sent r ∷ []) ∙ append-nil (drops f.calls) in
      let same_sends : sends (f.calls ++ sent r ∷ []) ≡ sends f.calls ++ r.backend_id ∷ [] =
        sends-append f.calls (sent r ∷ []) in
      record {
        valid = i.valid;
        balance = same_leases ∙ i.balance ∙ ap (λ l. l ++ held) (sym same_drops);
        distinct = rw same_leases i.distinct;
        seen = rw same_leases i.seen;
        once = rw same_sends (Distinct-snoc (sends f.calls) r.backend_id i.once unsent);
        sent_to = rw same_sends (seen-snoc (sends f.calls) r.backend_id f.tried there i.sent_to);
        budget = i.budget;
        ledger = i.ledger;
      }
