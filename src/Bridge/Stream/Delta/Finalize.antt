-- ===== src/Bridge/Stream/Delta/Finalize.antt =====
-- The same of `finalize`.
use brigh_to_router.Prelude.{
  ℕ, ◌+◌, ◌≡◌, refl, ◌∙◌, ap, Bool, true, false, Option, none, some, [], ◌∷◌, ==_refl, if_intro,
  arith,
}
use brigh_to_router.Prelude.Maps.{Map}
use brigh_to_router.Prelude.Result.{Result, ok, err}
use brigh_to_router.Prelude.Text.{Text}
use brigh_to_router.Json.{Value, str, Codec}
use brigh_to_router.Bridge.{BridgeError}
use brigh_to_router.Bridge.Response.{tool_input}
use brigh_to_router.Bridge.Stream.Events.{
  SseTranslator, ToolCallState, ◌>>◌, ensure_started, close_open,
}
use brigh_to_router.Bridge.Stream.Phase.{run, accept, run-append}
use brigh_to_router.Bridge.Stream.Sound.{
  phase, Consistent, Sound, Sound-seq, ensure_started-Sound, close_open-Sound,
}
use brigh_to_router.Bridge.Stream.Delta.{
  Try, fine, tool_events, then_try, emit_tool, and_tools, emit_tools, ensure_block, any_tool,
  end_message, finalize_tools, finalize,
}

-- Between two blocks of a stream that goes on.
record Ready (t : SseTranslator) : Type 0 where
  begun : t.started ≡ true
  going : t.finished ≡ false
  closed : t.open_block ≡ none

Ready-Consistent : (t : SseTranslator) → Ready t → Consistent t
Ready-Consistent t r = ground arith

-- Emissions that the client accepts, and that leave no block open unless the stream ended.
record Tried (t : SseTranslator) (r : Try) : Type 0 where
  accepted : run (some (phase t)) r.1 ≡ some (phase r.0)
  ready : Ready r.0

module _ (codec : Codec) where
  emit_tool-Tried :
      (i : ℕ) (s : ToolCallState) (name : Option Text) (input : Result Value BridgeError)
      (t : SseTranslator)
      → Ready t
      → Tried t (emit_tool codec i s name input t)
  unfolding emit_tool tool_events phase run accept
  emit_tool-Tried i s none input t r = record { accepted = refl; ready = r }
  emit_tool-Tried i s (some name) (err e) t r = record { accepted = refl; ready = r }
  emit_tool-Tried i s (some name) (ok input) t r = ground (arith, ==_refl t.next_index)

  and_tools-Tried :
      (t : SseTranslator) (r : Try) (f : SseTranslator → Try)
      → Tried t r
      → ((u : SseTranslator) → Ready u → Tried u (f u))
      → Tried t (and_tools codec r f)
  unfolding and_tools then_try
  and_tools-Tried t (u, es, some e) f h k = h
  and_tools-Tried t (u, es, none) f h k =
      let next = k u h.ready in
      record {
        accepted =
            run-append (some (phase t)) es (f u).1
            ∙ ap (λ p. run p (f u).1) h.accepted
            ∙ next.accepted;
        ready = next.ready;
      }

  emit_tools-Tried :
      (i : ℕ) (m : Map ℕ ToolCallState) (t : SseTranslator)
      → Ready t
      → Tried t (emit_tools codec i m t)
  unfolding emit_tools run
  emit_tools-Tried i [] t r = record { accepted = refl; ready = r }
  emit_tools-Tried i ((j, s) ∷ m) t r =
      and_tools-Tried t _ (emit_tools codec (i + 1) m)
        (emit_tool-Tried i s s.name (tool_input codec (some (str s.arguments))) t r)
        (emit_tools-Tried (i + 1) m)

  -- The last events, of a message with a block at least.
  last_events-Sound :
      (has_tools : Bool) (t : SseTranslator)
      → Ready t
      → Sound t (ensure_block codec t >> end_message codec has_tools)
  unfolding ensure_block end_message phase run accept
  last_events-Sound has_tools t r = ground (arith, ==_refl t.next_index)

  -- Emissions that end the stream, or end in an error between two blocks.
  pub record Ends (t : SseTranslator) (r : Try) : Type 0 where
    pub sound : Sound t (r.0, r.1)
    pub ended : r.2 ≡ none → r.0.finished ≡ true

  and_tools-Ends :
      (t : SseTranslator) (r : Try) (f : SseTranslator → Try)
      → Tried t r
      → ((u : SseTranslator) → Ready u → Ends u (f u))
      → Ends t (and_tools codec r f)
  unfolding and_tools then_try
  and_tools-Ends t (u, es, some e) f h k = record {
    sound = record { accepted = h.accepted; consistent = Ready-Consistent u h.ready };
    ended = λ p. ground arith;
  }
  and_tools-Ends t (u, es, none) f h k =
      let next = k u h.ready in
      let first : Sound t (u, es) = record {
        accepted = h.accepted;
        consistent = Ready-Consistent u h.ready;
      } in
      record {
        sound = Sound-seq t (u, es) (λ v. ((f v).0, (f v).1)) first next.sound;
        ended = next.ended;
      }

  last_events-Ends :
      (has_tools : Bool) (t : SseTranslator)
      → Ready t
      → Ends t (fine (ensure_block codec t >> end_message codec has_tools))
  unfolding end_message
  last_events-Ends has_tools t r = record {
    sound = last_events-Sound has_tools t r;
    ended = λ p. refl;
  }

  finalize_tools-Ends :
      (m : Map ℕ ToolCallState) (t : SseTranslator) → Ready t → Ends t (finalize_tools codec m t)
  unfolding finalize_tools phase
  finalize_tools-Ends m t r =
      let cleared = record t { tools = [] } in
      let tried =
        emit_tools-Tried 0 m cleared
          (record { begun = r.begun; going = r.going; closed = r.closed }) in
      and_tools-Ends t _ (λ u. fine (ensure_block codec u >> end_message codec (any_tool codec m)))
        (record { accepted = tried.accepted; ready = tried.ready })
        (last_events-Ends (any_tool codec m))

  started_and_closed :
      (t : SseTranslator)
      → t.finished ≡ false
      → Consistent t
      → Sound t (ensure_started t >> close_open codec)
        × Ready (ensure_started t >> close_open codec).0
  unfolding ensure_started close_open
  started_and_closed t f c =
      let begun = ensure_started-Sound codec t f c in
      let u = (ensure_started t).0 in
      let going : u.finished ≡ false = ground arith in
      (
        Sound-seq t (ensure_started t) (close_open codec) begun
            (close_open-Sound codec u u.open_block refl going begun.consistent),
        ground arith,
      )

  pub finalize-Ends : (t : SseTranslator) → Consistent t → Ends t (finalize codec t)
  unfolding finalize then_try run
  finalize-Ends t c =
      if_intro (Ends t) t.finished (t, [], none)
        (then_try codec (ensure_started t >> close_open codec) λ u. finalize_tools codec u.tools u)
        (λ e. record { sound = record { accepted = refl; consistent = c }; ended = λ p. e })
        (λ e.
          let r = ensure_started t >> close_open codec in
          let (sound, ready) = started_and_closed t e c in
          let rest = finalize_tools-Ends r.0.tools r.0 ready in
          record {
            sound =
                Sound-seq t r
                  (λ u. ((finalize_tools codec u.tools u).0, (finalize_tools codec u.tools u).1))
                  sound rest.sound;
            ended = rest.ended;
          })
