-- ===== src/AudioQa/Timeline/Expansion.antt =====
-- What a timeline compiles to (tools/audio_qa/pad_timeline.cpp).
use mathlib.Core.Path.{subst, subst₂}
use ayther_runtime.Prelude.{
  ℕ, zero, suc, ◌+◌, ◌≤◌, ◌<◌, ◌≡◌, refl, sym, ap, ◌∙◌, List, [], ◌∷◌, ◌++◌, ◌^◌, arith, length,
  length-append, All, replicate, not, ◌&&◌, ◌||◌,
}
use ayther_runtime.Prelude.Int.{ℤ}
use ayther_runtime.AudioQa.Timeline.{
  TimelineStepKind, wait, press, down, up, TimelineStep, CompiledStepSpan, Compiling, goes,
  and_then, append_frames, step_frames, compile_step, compile_steps, span,
}
use mathlib.Core.List.{append-nil, append_assoc}
use ayther_runtime.AudioQa.Timeline.Steps.{
  lasting, step_lasts, expand_kind, expand, kind_spans, spans_from,
}
use ayther_runtime.AudioQa.Timeline.Buttons.{Held, has, mask_of, added-mask, removed-mask}

-- Spans that follow each other from one frame to another, none of them empty.
abbrev pub Chain : ℕ → List CompiledStepSpan → ℕ → Type 0
Chain a [] b = a ≡ b
Chain a (s ∷ spans) b = (s.first_frame ≡ a) × (1 ≤ s.frames) × Chain (a + s.frames) spans b

Chain-append :
    (a b c step : ℕ) (spans : List CompiledStepSpan)
    → Chain a spans b
    → 1 ≤ c
    → Chain a (spans ++ (span step b c ∷ [])) (b + c)
Chain-append a b c step [] h p = (sym h, p, ap (λ k. k + c) h)
Chain-append a b c step (s ∷ spans) h p =
    (h.0, h.1, Chain-append (a + s.frames) b c step spans h.2 p)

length-replicate : (n mask : ℕ) → length (replicate n mask) ≡ n
length-replicate zero mask = refl
length-replicate (suc n) mask = omega (arith, length-replicate n mask)

-- What the masks and the spans so far meet.
pub record Sound (buttons : List ℕ) (spans : List CompiledStepSpan) : Type 0 where
  pub few : length buttons ≤ 54000
  pub chain : Chain 0 spans (length buttons)

frames_go_on :
    (index line count mask held : ℕ) (buttons : List ℕ) (spans : List CompiledStepSpan)
    (k : ℕ → List ℕ → List CompiledStepSpan → Compiling) (held' : ℕ) (buttons' : List ℕ)
    (spans' : List CompiledStepSpan)
    → count < 2 ^ 63
    → length buttons ≤ 54000
    → and_then (append_frames index line count mask held buttons spans) k
      ≡ goes held' buttons' spans'
    → (1 ≤ count)
      × (length buttons + count ≤ 54000)
      × (k held
            (buttons ++ replicate count mask)
            (spans ++ (span index (length buttons) count ∷ []))
          ≡ goes held' buttons' spans')
unfolding and_then append_frames
frames_go_on index line count mask held buttons spans k held' buttons' spans' w f e = ground arith

frames_counted :
    (count mask : ℕ) (buttons : List ℕ)
    → length (buttons ++ replicate count mask) ≡ length buttons + count
frames_counted count mask buttons =
    omega (arith, length-append buttons (replicate count mask), length-replicate count mask)

frames-Sound :
    (index count mask : ℕ) (buttons : List ℕ) (spans : List CompiledStepSpan)
    → Sound buttons spans
    → 1 ≤ count
    → length buttons + count ≤ 54000
    → Sound (buttons ++ replicate count mask) (spans ++ (span index (length buttons) count ∷ []))
frames-Sound index count mask buttons spans s p f =
    let n = frames_counted count mask buttons in
    record {
      few = omega (arith, n);
      chain =
          subst (λ b. Chain 0 (spans ++ (span index (length buttons) count ∷ [])) b) (sym n)
            (Chain-append 0 (length buttons) count index spans s.chain p);
    }

module _ (round_seconds : ℕ → ℤ) where
  -- That the frames of a step are a value of the C library's result type.
  abbrev pub IsWord : TimelineStep → Type 0
  IsWord step = step_frames round_seconds step < 2 ^ 63

  -- Masks and spans that were appended to those so far, and what they all meet.
  abbrev pub Expands :
      List ℕ
      → List CompiledStepSpan
      → List ℕ
      → List CompiledStepSpan
      → List ℕ
      → List CompiledStepSpan
      → Type 0
  Expands masks placed buttons spans buttons' spans' =
      (buttons' ≡ buttons ++ masks) × Sound buttons' spans' × (spans' ≡ spans ++ placed)

  module _ (step : TimelineStep) (index : ℕ) (held : Held) (buttons : List ℕ)
      (spans : List CompiledStepSpan) (k : ℕ → List ℕ → List CompiledStepSpan → Compiling)
      (rest : Held → List ℕ) (places : ℕ → List CompiledStepSpan) (held' : ℕ) (buttons' : List ℕ)
      (spans' : List CompiledStepSpan) (word : IsWord step) (sound : Sound buttons spans)
      (later : (h : Held) (b : List ℕ) (s : List CompiledStepSpan)
        → Sound b s
        → k (mask_of 16 h) b s ≡ goes held' buttons' spans'
        → Expands (rest h) (places (length b)) b s buttons' spans') where
    frames_expand :
        (mask : ℕ)
        → and_then
            (append_frames index step.line
              (step_frames round_seconds step)
              mask
              (mask_of 16 held)
              buttons
              spans)
            k
          ≡ goes held' buttons' spans'
        → Expands
            (replicate (lasting round_seconds step.duration) mask ++ rest held)
            (span index (length buttons) (lasting round_seconds step.duration)
              ∷ places (length buttons + lasting round_seconds step.duration))
            buttons
            spans
            buttons'
            spans'
    frames_expand mask e =
        let n = step_frames round_seconds step in
        let g =
          frames_go_on index step.line n mask (mask_of 16 held) buttons spans k held' buttons'
            spans' word sound.few e in
        let placed = span index (length buttons) n in
        let l =
          later held (buttons ++ replicate n mask) (spans ++ (placed ∷ []))
            (frames-Sound index n mask buttons spans sound g.0 g.1) g.2 in
        (
          l.0
              ∙ append_assoc buttons (replicate n mask) (rest held)
              ∙ ap (λ n. buttons ++ (replicate n mask ++ rest held))
                  (step_lasts round_seconds step),
          l.1,
          l.2
              ∙ append_assoc spans (placed ∷ []) (places (length (buttons ++ replicate n mask)))
              ∙ ap (λ f. spans ++ (placed ∷ places f)) (frames_counted n mask buttons)
              ∙ ap (λ n. spans ++ (span index (length buttons) n ∷ places (length buttons + n)))
                  (step_lasts round_seconds step),
        )

    kind-Expands :
        (kind : TimelineStepKind)
        → and_then (compile_step round_seconds kind index step (mask_of 16 held) buttons spans) k
          ≡ goes held' buttons' spans'
        → Expands
            (expand_kind round_seconds kind step held rest)
            (kind_spans round_seconds kind step index (length buttons) places)
            buttons
            spans
            buttons'
            spans'
    unfolding compile_step expand_kind kind_spans and_then
    kind-Expands down e =
        later (λ i. held i || has step.buttons i) buttons spans sound
          (ap (λ h. k h buttons spans) (sym (added-mask step.buttons held)) ∙ e)
    kind-Expands up e =
        later (λ i. held i && not (has step.buttons i)) buttons spans sound
          (ap (λ h. k h buttons spans) (sym (removed-mask step.buttons held)) ∙ e)
    kind-Expands wait e = frames_expand (mask_of 16 held) e
    kind-Expands press e =
        let mask = mask_of 16 (λ i. held i || has step.buttons i) in
        frames_expand mask (
          ap
            (λ m.
              and_then
                (append_frames index step.line (step_frames round_seconds step) m (mask_of 16 held)
                  buttons spans)
                k)
            (sym (added-mask step.buttons held))
          ∙ e)

  pub steps_expand :
      (steps : List TimelineStep) (index : ℕ) (held : Held) (buttons : List ℕ)
      (spans : List CompiledStepSpan) (held' : ℕ) (buttons' : List ℕ)
      (spans' : List CompiledStepSpan)
      → All IsWord steps
      → Sound buttons spans
      → compile_steps round_seconds index (mask_of 16 held) buttons spans steps
        ≡ goes held' buttons' spans'
      → Expands
          (expand round_seconds held steps)
          (spans_from round_seconds index (length buttons) steps)
          buttons
          spans
          buttons'
          spans'
  unfolding compile_steps expand spans_from
  steps_expand [] index held buttons spans held' buttons' spans' w s e =
      let b : buttons' ≡ buttons = ground arith in
      let c : spans' ≡ spans = ground arith in
      (b ∙ sym (append-nil buttons), subst₂ Sound (sym b) (sym c) s, c ∙ sym (append-nil spans))
  steps_expand (step ∷ steps) index held buttons spans held' buttons' spans' w s e =
      kind-Expands step index held buttons spans
        (λ h b p. compile_steps round_seconds (suc index) h b p steps)
        (λ h. expand round_seconds h steps) (λ f. spans_from round_seconds (suc index) f steps)
        held' buttons' spans' w.0 s
        (λ h b p v f. steps_expand steps (suc index) h b p held' buttons' spans' w.1 v f) step.kind
        e
