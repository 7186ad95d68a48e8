-- ===== src/Bridge/Stream/Sound.antt =====
-- The phase that a client is in, for each state of the translator, and the operations on blocks.
use brigh_to_router.Prelude.{
  ℕ, ◌+◌, ◌%◌, ◌≡◌, refl, ◌∙◌, ap, Bool, true, false, Option, none, some, [], ◌∷◌, ==_refl,
  if◌then◌else◌, u32_mod, arith, Bool-cases, if_intro, inl, inr,
}
use brigh_to_router.Prelude.Text.{Text}
use brigh_to_router.Json.{Codec, is_empty}
use brigh_to_router.Bridge.{BridgeError, upstream, status, message}
use brigh_to_router.Bridge.Stream.Events.{
  SseTranslator, OpenBlock, text, thinking, Emit, ◌>>◌, error_event, ensure_started, close_open,
  text_at, open_text, thinking_at, open_thinking, put_text, emit_text, put_thinking, emit_thinking,
  fail, abort,
}
use brigh_to_router.Bridge.Stream.Phase.{
  Phase, before, between, in_text, in_thinking, ended, accept, run, run-append,
}

-- The phase that a client is in.
phase_in : Bool → Bool → Option OpenBlock → ℕ → Bool → Phase
phase_in true started blk next any = ended
phase_in false false blk next any = before
phase_in false true none next any = between next any
phase_in false true (some (text i)) next any = in_text i
phase_in false true (some (thinking i s)) next any = in_thinking i

unfoldable pub phase : SseTranslator → Phase
unfolding phase_in
phase t = phase_in t.finished t.started t.open_block t.next_index t.emitted_block

pub phase_finished : (t : SseTranslator) → t.finished ≡ true → phase t ≡ ended
unfolding phase
phase_finished t e = ground arith

-- An open block is the last one begun, and nothing is open or emitted before the start.
abbrev pub OpenOk : SseTranslator → Option OpenBlock → Type 0
OpenOk t none = Unit
OpenOk t (some (text i)) =
    (t.next_index ≡ (i + 1) % u32_mod) × (t.emitted_block ≡ true) × (t.started ≡ true)
OpenOk t (some (thinking i s)) =
    (t.next_index ≡ (i + 1) % u32_mod) × (t.emitted_block ≡ true) × (t.started ≡ true)

pub record Consistent (t : SseTranslator) : Type 0 where
  pub open_ok : OpenOk t t.open_block
  pub fresh_index : (if t.started then 0 else t.next_index) ≡ 0
  pub fresh_flag : (if t.started then false else t.emitted_block) ≡ false

-- The events of a step take the client to the phase of the translator after it.
pub record Sound (t : SseTranslator) (r : Emit) : Type 0 where
  pub accepted : run (some (phase t)) r.1 ≡ some (phase r.0)
  pub consistent : Consistent r.0

pub Sound-seq :
    (t : SseTranslator) (r : Emit) (f : SseTranslator → Emit)
    → Sound t r
    → Sound r.0 (f r.0)
    → Sound t (r >> f)
Sound-seq t r f h k = record {
  accepted =
      run-append (some (phase t)) r.1 (f r.0).1 ∙ ap (λ p. run p (f r.0).1) h.accepted ∙ k.accepted;
  consistent = k.consistent;
}

module _ (codec : Codec) where
  pub ensure_started-Sound :
      (t : SseTranslator) → t.finished ≡ false → Consistent t → Sound t (ensure_started t)
  unfolding ensure_started phase run accept
  ensure_started-Sound t f c = ground arith

  pub close_open-Sound :
      (t : SseTranslator) (o : Option OpenBlock)
      → t.open_block ≡ o
      → t.finished ≡ false
      → Consistent t
      → Sound t (close_open codec t)
  unfolding close_open phase run accept
  close_open-Sound t none e f c = ground arith
  close_open-Sound t (some (text i)) e f c = ground (arith, ==_refl i)
  close_open-Sound t (some (thinking i s)) e f c = ground (arith, ==_refl i)

  text_at-Sound :
      (o : Option OpenBlock) (t : SseTranslator)
      → t.open_block ≡ o
      → t.finished ≡ false
      → Consistent t
      → Sound t (text_at codec o t)
  unfolding text_at ensure_started close_open phase run accept
  text_at-Sound none t e f c = ground (arith, ==_refl t.next_index)
  text_at-Sound (some (text i)) t e f c = ground (arith, ==_refl t.next_index)
  text_at-Sound (some (thinking i s)) t e f c = ground (arith, ==_refl i, ==_refl t.next_index)

  thinking_at-Sound :
      (o : Option OpenBlock) (t : SseTranslator)
      → t.open_block ≡ o
      → t.finished ≡ false
      → Consistent t
      → Sound t (thinking_at codec o t)
  unfolding thinking_at ensure_started close_open phase run accept
  thinking_at-Sound none t e f c = ground (arith, ==_refl t.next_index)
  thinking_at-Sound (some (thinking i s)) t e f c = ground (arith, ==_refl t.next_index)
  thinking_at-Sound (some (text i)) t e f c = ground (arith, ==_refl i, ==_refl t.next_index)

  -- After `open_text` a text block is open, and after `open_thinking` a thinking block.
  abbrev InText : Option OpenBlock → Type 0
  InText (some (text i)) = Unit
  InText _ = ⊥

  abbrev InThinking : Option OpenBlock → Type 0
  InThinking (some (thinking i s)) = Unit
  InThinking _ = ⊥

  text_at-InText :
      (o : Option OpenBlock) (t : SseTranslator)
      → t.open_block ≡ o
      → InText (text_at codec o t).0.open_block × ((text_at codec o t).0.finished ≡ t.finished)
  unfolding text_at ensure_started close_open
  text_at-InText none t e = (tt, ground arith)
  text_at-InText (some (text i)) t e = (rw e tt, refl)
  text_at-InText (some (thinking i s)) t e = (tt, ground arith)

  thinking_at-InThinking :
      (o : Option OpenBlock) (t : SseTranslator)
      → t.open_block ≡ o
      → InThinking (thinking_at codec o t).0.open_block
        × ((thinking_at codec o t).0.finished ≡ t.finished)
  unfolding thinking_at ensure_started close_open
  thinking_at-InThinking none t e = (tt, ground arith)
  thinking_at-InThinking (some (thinking i s)) t e = (rw e tt, refl)
  thinking_at-InThinking (some (text i)) t e = (tt, ground arith)

  put_text-Sound :
      (s : Text) (o : Option OpenBlock) (t : SseTranslator)
      → t.open_block ≡ o
      → InText o
      → t.finished ≡ false
      → Consistent t
      → Sound t (put_text codec s t)
  unfolding put_text phase run accept
  put_text-Sound s none t e h f c = absurd h
  put_text-Sound s (some (text i)) t e h f c = ground (arith, ==_refl i)
  put_text-Sound s (some (thinking i a)) t e h f c = absurd h

  put_thinking-Sound :
      (s : Text) (o : Option OpenBlock) (t : SseTranslator)
      → t.open_block ≡ o
      → InThinking o
      → t.finished ≡ false
      → Consistent t
      → Sound t (put_thinking codec s t)
  unfolding put_thinking phase run accept
  put_thinking-Sound s none t e h f c = absurd h
  put_thinking-Sound s (some (thinking i a)) t e h f c = ground (arith, ==_refl i)
  put_thinking-Sound s (some (text i)) t e h f c = absurd h

  -- An operation that does not end the stream.
  pub record Going (t : SseTranslator) (r : Emit) : Type 0 where
    pub sound : Sound t r
    pub going : r.0.finished ≡ false

  Sound-none : (t : SseTranslator) → Consistent t → Sound t (t, [])
  unfolding run
  Sound-none t c = record { accepted = refl; consistent = c }

  pub emit_text-Going :
      (s : Text) (t : SseTranslator)
      → t.finished ≡ false
      → Consistent t
      → Going t (emit_text codec s t)
  unfolding emit_text open_text
  emit_text-Going s t f c = elim (Bool-cases (is_empty s)) [
    | inl e ↦ rw e (record { sound = Sound-none t c; going = f })
    | inr e ↦
        let r = text_at codec t.open_block t in
        let (inside, same) = text_at-InText t.open_block t refl in
        let opened = text_at-Sound t.open_block t refl f c in
        rw e (record {
          sound =
              Sound-seq t r (put_text codec s) opened
                (put_text-Sound s r.0.open_block r.0 refl inside (same ∙ f) opened.consistent);
          going = unfold put_text in same ∙ f;
        })
  ]

  pub emit_thinking-Going :
      (s : Text) (t : SseTranslator)
      → t.finished ≡ false
      → Consistent t
      → Going t (emit_thinking codec s t)
  unfolding emit_thinking open_thinking
  emit_thinking-Going s t f c = elim (Bool-cases (is_empty s)) [
    | inl e ↦ rw e (record { sound = Sound-none t c; going = f })
    | inr e ↦
        let r = thinking_at codec t.open_block t in
        let (inside, same) = thinking_at-InThinking t.open_block t refl in
        let opened = thinking_at-Sound t.open_block t refl f c in
        rw e (record {
          sound =
              Sound-seq t r (put_thinking codec s) opened
                (put_thinking-Sound s r.0.open_block r.0 refl inside (same ∙ f) opened.consistent);
          going = unfold put_thinking in same ∙ f;
        })
  ]

  -- `fail` and `abort` close what is open, and end the stream by an error.
  end_with : BridgeError → ℕ → Text → SseTranslator → Emit
  end_with x n m u = (record u { error = some x; finished = true }, error_event n m ∷ [])

  end_with-Sound :
      (x : BridgeError) (n : ℕ) (m : Text) (u : SseTranslator)
      → u.open_block ≡ none
      → u.finished ≡ false
      → Consistent u
      → Sound u (end_with x n m u)
  unfolding end_with phase run accept
  end_with-Sound x n m u o f c = ground arith

  close_and_end-Sound :
      (x : BridgeError) (n : ℕ) (m : Text) (t : SseTranslator)
      → t.finished ≡ false
      → Consistent t
      → Sound t (close_open codec t >> end_with x n m)
  close_and_end-Sound x n m t f c =
      let closed = close_open-Sound t t.open_block refl f c in
      Sound-seq t (close_open codec t) (end_with x n m) closed (
        end_with-Sound x n m (close_open codec t).0 (unfold close_open in refl)
          (unfold close_open in f) closed.consistent)

  pub fail-Sound : (x : BridgeError) (t : SseTranslator) → Consistent t → Sound t (fail codec x t)
  unfolding fail end_with
  fail-Sound x t c =
      if_intro (Sound t) t.finished (t, [])
        (close_open codec t >> end_with x (status x) (message x)) (λ e. Sound-none t c)
        (λ e. close_and_end-Sound x (status x) (message x) t e c)

  pub abort-Sound :
      (n : ℕ) (m : Text) (t : SseTranslator) → Consistent t → Sound t (abort codec n m t)
  unfolding abort end_with
  abort-Sound n m t c =
      if_intro (Sound t) t.finished (t, []) (close_open codec t >> end_with (upstream m) n m)
        (λ e. Sound-none t c) (λ e. close_and_end-Sound (upstream m) n m t e c)
