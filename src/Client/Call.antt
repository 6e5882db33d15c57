-- ===== src/Client/Call.antt =====
-- A call of the current server session, and what it leaves.
use mathlib.Core.Path.{subst}
use mathlib.Core.Bool.{false≢true}
use petals_ai_refactor.Prelude.{
  if◌then◌else◌, length, drop, length-append, ℕ, ◌+◌, ◌-◌, ◌≤◌, ◌<◌, ◌≡◌, refl, sym, ap, ◌∙◌, ◌⊎◌,
  inl, inr, true, false, Option, none, some, List, [], ◌∷◌, ◌++◌, arith,
}
use petals_ai_refactor.Data.{PeerId, RemoteSpanInfo}
use petals_ai_refactor.Client.Stream.{ServerSession, Servers, can_step, check_shape, step_stream}
use petals_ai_refactor.Client.Session.{InferenceSession, last_tokens, Outcome, failed, succeeded}
use petals_ai_refactor.Client.Retry.{punish}
use petals_ai_refactor.Client.Middle.{append_assoc}
use petals_ai_refactor.Client.Causal.{
  old_inputs, all_inputs, new_inputs, IsCausal, length-apply_blocks, old-new_inputs,
  last_tokens-either, all_inputs-span,
}
use petals_ai_refactor.Client.Track.{held_session, IsHeld, IsHeld-snoc}
use petals_ai_refactor.Client.Attempt.{IsReady, Frame, Track}
use petals_ai_refactor.Autograd.Chain.{apply_blocks}
use petals_ai_refactor.Routing.Route.{IsRoute}

module _ {W X P K : Type 0} (servers : Servers W X P K) (hypo_ids : K)
    (block : ℕ → List X → List X) where
  open servers use {
    make_sequence, on_request_success, connects, respond, hypo_fits, same_shape, sleep, num_blocks,
  }

  -- What a session without deep prompts relies on. The manager finds routes. A server that answers
  -- applies the blocks of its span to all tokens that it was sent, and returns the outputs for the
  -- new ones. A state has a patience, a bound on the failures from there on: without any left, no
  -- call fails, a failure and the wait after it use some up, and a success gives none back.
  pub record IsReliable (patience : W → ℕ) : Type 0 where
    pub routes :
        (w : W) (b e : ℕ) (spans : List RemoteSpanInfo)
        → b < e
        → make_sequence w b e ≡ some spans
        → IsRoute b e spans
    pub answers :
        (w : W) (s : RemoteSpanInfo) (sent new outputs : List X)
        → s.start < s.end
        → respond w s sent new [] hypo_ids ≡ some outputs
        → outputs ≡ drop (length sent) (apply_blocks block s.start (s.end - s.start) (sent ++ new))
    pub shapes :
        (w : W) (s : RemoteSpanInfo) (sent new outputs : List X)
        → respond w s sent new [] hypo_ids ≡ some outputs
        → (same_shape outputs new ≡ true) × (same_shape new outputs ≡ true)
    pub hypotheses : (new : List X) → hypo_fits hypo_ids new ≡ true
    pub no_route :
        (w : W) (b e : ℕ) → b < e → e ≤ num_blocks → make_sequence w b e ≡ none → 0 < patience w
    pub no_connection : (w : W) (s : RemoteSpanInfo) → connects w s ≡ false → 0 < patience w
    pub no_answer :
        (w : W) (s : RemoteSpanInfo) (sent new : List X)
        → respond w s sent new [] hypo_ids ≡ none
        → 0 < patience w
    pub failure :
        (w : W) (peer : Option PeerId) (delay : ℕ)
        → 0 < patience w
        → patience (sleep delay (punish servers [] hypo_ids w peer)) < patience w
    pub success : (w : W) (peer : PeerId) → patience (on_request_success w peer) ≤ patience w

  module _ (patience : W → ℕ) (reliable : IsReliable patience) where
    abbrev pub IsAnswer : W → ServerSession X → List X → Option (List X) × ServerSession X → Type 0
    IsAnswer w c tokens (none, left) = 0 < patience w
    IsAnswer w c tokens (some outputs, left) =
        (left ≡ record c { stepped = true; sent = c.sent ++ tokens })
        × (respond w c.span c.sent tokens [] hypo_ids ≡ some outputs)

    open-can_step :
        (c : ServerSession X) (tokens : List X)
        → c.closed ≡ false
        → can_step servers c tokens [] hypo_ids ≡ true
    unfolding can_step
    open-can_step c tokens open_one = rw open_one (reliable.hypotheses tokens)

    shape-IsAnswer :
        (w : W) (c : ServerSession X) (tokens : List X) (r : Option (List X))
        → respond w c.span c.sent tokens [] hypo_ids ≡ r
        → IsAnswer w c tokens
            (check_shape servers tokens r, record c { stepped = true; sent = c.sent ++ tokens })
    shape-IsAnswer w c tokens none e = reliable.no_answer w c.span c.sent tokens e
    shape-IsAnswer w c tokens (some outputs) e =
        rw ((reliable.shapes w c.span c.sent tokens outputs e).0) (refl, e)

    pub step_stream-IsAnswer :
        (w : W) (c : ServerSession X) (tokens : List X)
        → c.closed ≡ false
        → IsAnswer w c tokens (step_stream servers w c tokens [] hypo_ids)
    unfolding step_stream
    step_stream-IsAnswer w c tokens open_one =
        rw (open-can_step c tokens open_one)
          (shape-IsAnswer w c tokens (respond w c.span c.sent tokens [] hypo_ids) refl)

  module _ (causal : IsCausal block) (patience : W → ℕ) (reliable : IsReliable patience)
      (old new : List X) (some_new : 0 < length new) where
    abbrev all : ℕ → List X
    all = all_inputs block old new

    abbrev pub IsAfter : ℕ → ℕ → InferenceSession W X → List X → Outcome X → Type 0
    IsAfter k b s inputs (failed peer) =
        (0 < patience s.world) × Track block old new num_blocks false s k b inputs
    IsAfter k b s inputs (succeeded span outputs) =
        (b < span.end)
        × (span.end ≤ num_blocks)
        × Track block old new num_blocks true s (k + 1) span.end outputs

    -- the current session joins those that are done
    pub Frame-next :
        (s : InferenceSession W X) (k b : ℕ) (inputs outputs : List X) (fs : List RemoteSpanInfo)
        (fc : List (ServerSession X)) (fi : List (Option (List X))) (span : RemoteSpanInfo)
        (c : ServerSession X) (ss : List RemoteSpanInfo) (cs : List (ServerSession X))
        (stored : List (Option (List X)))
        → Frame block old new num_blocks s k b inputs fs fc fi
            (span ∷ ss)
            (c ∷ cs)
            (some (all b) ∷ stored)
        → span.start ≡ b
        → b < span.end
        → c ≡ held_session (all b) span
        → (outputs ≡ all span.end) ⊎ (outputs ≡ new_inputs block old new span.end)
        → Frame block old new num_blocks s
            (k + 1)
            span.end
            outputs
            (fs ++ span ∷ [])
            (fc ++ c ∷ [])
            (fi ++ some (all b) ∷ [])
            ss
            cs
            stored
    Frame-next s k b inputs outputs fs fc fi span c ss cs stored f start lt held either = record {
      old_position = f.old_position;
      still_open = f.still_open;
      spans_split = f.spans_split ∙ sym (append_assoc fs (span ∷ []) ss);
      sessions_split = f.sessions_split ∙ sym (append_assoc fc (c ∷ []) cs);
      stored_split = f.stored_split ∙ sym (append_assoc fi (some (all b) ∷ []) stored);
      spans_at = omega (arith, length-append fs (span ∷ []), f.spans_at);
      sessions_at = omega (arith, length-append fc (c ∷ []), f.sessions_at);
      stored_at = omega (arith, length-append fi (some (all b) ∷ []), f.stored_at);
      done =
          subst
            (λ d.
              IsHeld block (old ++ new) 0 span.end (fs ++ span ∷ []) (fc ++ d ∷ [])
                (fi ++ some (all b) ∷ []))
            (sym held) (IsHeld-snoc block (old ++ new) 0 b fs fc fi span f.done start lt);
      some_inputs = either;
    }

    -- what a ready session is sent, answers, and has been sent then
    abbrev tokens_for : ServerSession X → List X → ℕ → List X
    tokens_for c inputs b = if c.stepped then last_tokens (length new) inputs else all b

    -- A fresh session answers with all outputs, one that holds the old tokens with the new outputs;
    -- both hold all tokens then.
    abbrev IsCalled : RemoteSpanInfo → ServerSession X → List X → ℕ → List X → Type 0
    IsCalled span c tokens b outputs =
        (record c { stepped = true; sent = c.sent ++ tokens } ≡ held_session (all b) span)
        × ((outputs ≡ all span.end) ⊎ (outputs ≡ new_inputs block old new span.end))
        × (c.stepped ≡ false → outputs ≡ all span.end)

    fresh-IsCalled :
        (w : W) (b : ℕ) (span : RemoteSpanInfo) (outputs : List X)
        → span.start ≡ b
        → b < span.end
        → respond w span [] (all b) [] hypo_ids ≡ some outputs
        → outputs ≡ all span.end
    fresh-IsCalled w b span outputs start lt e =
        reliable.answers w span [] (all b) outputs (omega arith) e
        ∙ ap (λ j. apply_blocks block j (span.end - j) (all b)) start
        ∙ all_inputs-span block causal old new b span.end lt

    held-IsCalled :
        (w : W) (b : ℕ) (span : RemoteSpanInfo) (outputs : List X)
        → span.start ≡ b
        → b < span.end
        → respond w span (old_inputs block old new b) (new_inputs block old new b) [] hypo_ids
          ≡ some outputs
        → outputs ≡ new_inputs block old new span.end
    held-IsCalled w b span outputs start lt e =
        let sent = old_inputs block old new b in
        let tokens = new_inputs block old new b in
        reliable.answers w span sent tokens outputs (omega arith) e
        ∙ ap (λ n. drop n (apply_blocks block span.start (span.end - span.start) (sent ++ tokens)))
            (length-apply_blocks block causal 0 b old)
        ∙ ap (λ l. drop (length old) (apply_blocks block span.start (span.end - span.start) l))
            (old-new_inputs block causal old new b)
        ∙ ap (λ j. drop (length old) (apply_blocks block j (span.end - j) (all b))) start
        ∙ ap (drop (length old)) (all_inputs-span block causal old new b span.end lt)

    pub ready-IsCalled :
        (w : W) (b : ℕ) (inputs : List X) (span : RemoteSpanInfo) (c : ServerSession X)
        (outputs : List X)
        → span.start ≡ b
        → b < span.end
        → (inputs ≡ all b) ⊎ (inputs ≡ new_inputs block old new b)
        → IsReady block old new num_blocks b span c
        → respond w c.span c.sent (tokens_for c inputs b) [] hypo_ids ≡ some outputs
        → IsCalled span c (tokens_for c inputs b) b outputs
    ready-IsCalled w b inputs span c outputs start lt either (inl fresh) =
        subst
          (λ d.
            respond w d.span d.sent (tokens_for d inputs b) [] hypo_ids ≡ some outputs
            → IsCalled span d (tokens_for d inputs b) b outputs)
          (sym fresh)
          (λ e. let out = fresh-IsCalled w b span outputs start lt e in (refl, inl out, λ s. out))
    ready-IsCalled w b inputs span c outputs start lt either (inr held) =
        let last = last_tokens-either block causal old new b inputs some_new either in
        subst
          (λ d.
            respond w d.span d.sent (tokens_for d inputs b) [] hypo_ids ≡ some outputs
            → IsCalled span d (tokens_for d inputs b) b outputs)
          (sym held)
          (λ e. (
            ap (held_old b span) last
                ∙ ap (λ l. held_session l span) (old-new_inputs block causal old new b),
            inr (
                held-IsCalled w b span outputs start lt (
                  ap (λ l. respond w span (old_inputs block old new b) l [] hypo_ids) (sym last)
                  ∙ e)),
            λ s. absurd (false≢true (sym s)),
          ))
      where
        held_old : ℕ → RemoteSpanInfo → List X → ServerSession X
        held_old b span l = held_session (old_inputs block old new b ++ l) span
