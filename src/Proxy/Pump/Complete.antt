-- ===== src/Proxy/Pump/Complete.antt =====
-- What the client of a bridged stream gets, where it takes everything.
use brigh_to_router.Prelude.{
  ℕ, ◌≡◌, refl, sym, ap, ◌∙◌, Bool, true, some, List, [], ◌∷◌, ◌++◌, if◌then◌else◌, if_intro, arith,
  Bool-cases, inl, inr,
}
use mathlib.Core.List.{append_assoc, append-nil}
use brigh_to_router.Prelude.Text.{Text, codes}
use brigh_to_router.Contract.Config.{open_ai}
use brigh_to_router.Json.{Codec, Bytes, is_empty}
use brigh_to_router.Bridge.{BridgeContext}
use brigh_to_router.Bridge.Limited.{concat}
use brigh_to_router.Bridge.Stream.Events.{SseTranslator, Event, Emit, new, abort}
use brigh_to_router.Bridge.Stream.Feed
use brigh_to_router.Bridge.Stream.Feed.{is_finished}
use brigh_to_router.Bridge.Stream.Feed.Complete.{
  feed-Sends, Finishes, finish-Finishes, new-Consistent,
}
use brigh_to_router.Bridge.Stream.Phase.{before, ended, run, run-append}
use brigh_to_router.Bridge.Stream.Render.{render_all}
use brigh_to_router.Bridge.Stream.Sound.{phase, Consistent, Sound, abort-Sound, phase_finished}
use brigh_to_router.Proxy.Tap
use brigh_to_router.Proxy.Pump.{
  Next, chunk, broken, idle, Bridged, last_output, after_output, bridge_turn, opened, translated,
  pump_bridge,
}

concat-snoc : (xs : List Bytes) (x : Bytes) → concat (xs ++ x ∷ []) ≡ concat xs ++ x
unfolding concat
concat-snoc [] x = append-nil x
concat-snoc (y ∷ ys) x = ap (λ l. y ++ l) (concat-snoc ys x) ∙ sym (append_assoc y (concat ys) x)

is_empty_lem : (s : Bytes) → is_empty s ≡ true → s ≡ []
is_empty_lem [] h = refl
is_empty_lem (c ∷ s) h = absurd (cc)

module _ (codec : Codec) where
  render_all-append :
      (es fs : List Event)
      → render_all codec (es ++ fs) ≡ render_all codec es ++ render_all codec fs
  unfolding render_all
  render_all-append [] fs = refl
  render_all-append (e ∷ es) fs =
      ap (λ l. brigh_to_router.Bridge.Stream.Render.render codec e ++ l) (render_all-append es fs)
      ∙ sym (append_assoc _ (render_all codec es) (render_all codec fs))

  -- The bytes sent are those of events that a client accepts, up to the translator's own phase.
  pub record Streamed (out : List Bytes) (t : SseTranslator) : Type 0 where
    pub events : List Event
    pub text : concat out ≡ render_all codec events
    pub accepted : run (some before) events ≡ some (phase t)
    pub consistent : Consistent t

  -- What is sent of an emission.
  sent_of : List Bytes → Bytes → List Bytes
  sent_of out output = if is_empty output then out else out ++ output ∷ []

  sent_of-concat : (out : List Bytes) (x : Bytes) → concat (sent_of out x) ≡ concat out ++ x
  unfolding sent_of
  sent_of-concat out [] = sym (append-nil (concat out))
  sent_of-concat out (c ∷ s) = concat-snoc out (c ∷ s)

  step :
      (out : List Bytes) (t : SseTranslator) (r : Emit)
      → Streamed out t
      → Sound t r
      → Streamed (sent_of out (render_all codec r.1)) r.0
  step out t r st sound = record {
    events = st.events ++ r.1;
    text =
        sent_of-concat out (render_all codec r.1)
        ∙ ap (λ l. l ++ render_all codec r.1) st.text
        ∙ sym (render_all-append st.events r.1);
    accepted =
        run-append (some before) st.events r.1 ∙ ap (λ p. run p r.1) st.accepted ∙ sound.accepted;
    consistent = sound.consistent;
  }

  abort-ends : (n : ℕ) (m : Text) (t : SseTranslator) → (abort codec n m t).0.finished ≡ true
  unfolding abort
  abort-ends n m t = ground arith

  started : (bridge : BridgeContext) → Streamed (opened bridge).out (opened bridge).translator
  unfolding opened new phase concat render_all run
  started bridge = record {
    events = [];
    text = refl;
    accepted = refl;
    consistent = new-Consistent codec bridge;
  }

  pub record Done (b : Bridged) : Type 0 where
    pub streamed : Streamed b.out b.translator
    pub at_end : b.translator.finished ≡ true

  module _ (chunk_may_have_usage : Bytes → Bool) (accepts : ℕ → Bool)
      (takes_all : (n : ℕ) → accepts n ≡ true) where
    last_output-Done :
        (b : Bridged) (r : Emit)
        → Streamed b.out b.translator
        → Finishes codec b.translator r
        → Done (last_output codec chunk_may_have_usage accepts b r)
    unfolding last_output
    last_output-Done b r st f =
        let now = step b.out b.translator r st f.sound in
        if_intro Done (is_empty (render_all codec r.1)) _ _
          (λ e. record { streamed = unfold sent_of in rw e at now; at_end = f.at_end })
          (λ e.
            rw (takes_all b.sends)
              (record { streamed = unfold sent_of in rw e at now; at_end = f.at_end }))

    after_output-Done :
        (b : Bridged) (r : Emit) (rest : Bridged → Bridged)
        → Streamed b.out b.translator
        → Sound b.translator r
        → ((c : Bridged) → Streamed c.out c.translator → Done (rest c))
        → Done (after_output codec chunk_may_have_usage accepts b r rest)
    unfolding after_output
    after_output-Done b r rest st sound goes =
        let now = step b.out b.translator r st sound in
        elim (Bool-cases (is_empty (render_all codec r.1))) [
          | inl e ↦
              let quiet : Streamed b.out r.0 = unfold sent_of in rw e at now in
              rw e (
                if_intro Done (is_finished r.0) _ _
                  (λ f. record { streamed = quiet; at_end = unfold is_finished in f })
                  (λ f. goes _ quiet))
          | inr e ↦
              let more : Streamed (b.out ++ render_all codec r.1 ∷ []) r.0 =
                unfold sent_of in rw e at now in
              rw (e, takes_all b.sends)
                (if_intro Done (is_finished r.0) _ _
                  (λ f. record { streamed = more; at_end = unfold is_finished in f })
                  (λ f. goes _ more))
        ]

    bridge_turn-Done :
        (nexts : List Next) (b : Bridged)
        → Streamed b.out b.translator
        → Done (bridge_turn codec chunk_may_have_usage accepts nexts b)
    unfolding bridge_turn
    bridge_turn-Done [] b st =
        last_output-Done b _ st (finish-Finishes codec b.translator st.consistent)
    bridge_turn-Done (broken e ∷ rest) b st =
        last_output-Done (record b { error_class = some e }) _ st
          (record {
            sound = abort-Sound codec 502 _ b.translator st.consistent;
            at_end = abort-ends 502 _ b.translator;
          })
    bridge_turn-Done (idle ∷ rest) b st =
        last_output-Done (record b { error_class = some (codes "upstream stream idle timeout") }) _
          st
          (record {
            sound = abort-Sound codec 504 _ b.translator st.consistent;
            at_end = abort-ends 504 _ b.translator;
          })
    bridge_turn-Done (chunk bytes ∷ rest) b st =
        after_output-Done
          (record b { tapped = Tap.feed codec chunk_may_have_usage open_ai bytes b.tapped })
          (Feed.feed codec bytes b.translator) (bridge_turn codec chunk_may_have_usage accepts rest)
          st (feed-Sends codec bytes b.translator st.consistent) (bridge_turn-Done rest)

    -- The client of a bridged stream that takes everything gets a complete Anthropic stream, whatever the
    -- upstream sends and however it ends: well, by a read error or by silence. The bytes are those of a
    -- sequence of events that the independent description of such a stream accepts to its end.
    pub pump_bridge_complete :
        (bridge : BridgeContext) (nexts : List Next)
        → (events : List Event) × (concat
              (pump_bridge codec chunk_may_have_usage accepts bridge nexts).out
            ≡ render_all codec events)
          × (run (some before) events ≡ some ended)
    unfolding pump_bridge opened translated
    pump_bridge_complete bridge nexts =
        let b = bridge_turn codec chunk_may_have_usage accepts nexts (opened bridge) in
        let d = bridge_turn-Done nexts (opened bridge) (started bridge) in
        let st = d.streamed in
        (st.events, st.text, st.accepted ∙ ap some (phase_finished b.translator d.at_end))
