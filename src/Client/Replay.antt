-- ===== src/Client/Replay.antt =====
-- The steps of a session in a swarm in which requests fail.
use mathlib.Core.Path.{subst}
use mathlib.Core.Bool.{false≢true}
use petals_ai_refactor.Prelude.{
  leb, ◌==◌, length, drop, length-append, Fallible, ok, ◌>>=◌, ◌>>◌, guard, ℕ, ◌+◌, ◌≤◌, ◌<◌, ◌≡◌,
  refl, sym, ap, ◌∙◌, ◌⊎◌, inl, inr, Bool, true, false, not, ◌||◌, Option, List, [], ◌∷◌, ◌++◌,
  arith,
}
use petals_ai_refactor.Data.{RemoteSpanInfo}
use petals_ai_refactor.Client.Stream.{ServerSession, Servers}
use petals_ai_refactor.Client.Session.{
  InferenceSession, SessionError, session_closed, length_exceeded, last_tokens, Loop,
}
use petals_ai_refactor.Client.Retry.{step}
use petals_ai_refactor.Client.Middle.{append_nil, drop-append}
use petals_ai_refactor.Client.Causal.{all_inputs, new_inputs, IsCausal, last_tokens-either}
use petals_ai_refactor.Client.Track.{IsHeld, IsHeld-not_fresh, IsHeld-IsRest, IsRest-le}
use petals_ai_refactor.Client.Attempt.{IsTodo, IsRest-IsTodo}
use petals_ai_refactor.Client.Call.{IsReliable}
use petals_ai_refactor.Client.Progress.{IsLoop, attempt_loop-Ends}
use petals_ai_refactor.Autograd.Chain.{apply_blocks}

empty_must_renew :
    {A : Type 0} (xs : List A) (b c : Bool)
    → xs ≡ []
    → (length xs == 0 || b || c) ≡ false
    → false ≡ true
empty_must_renew [] b c e h = sym h
empty_must_renew (x ∷ xs) b c e h = cc

guarded :
    {A B : Type 0} {r : Fallible SessionError A} (closed inside : Bool) (l : A) (f : A → B)
    → closed ≡ false
    → inside ≡ true
    → r ≡ ok l
    → (do guard (not closed) session_closed; guard inside length_exceeded; m ← r; ok (f m))
      ≡ ok (f l)
guarded closed inside l f open_one fits e = rw open_one (rw fits (rw e refl))

module _ {W X P K : Type 0} (servers : Servers W X P K) (block : ℕ → List X → List X) where
  open servers use {num_blocks}

  -- A session between steps: it is open, and its server sessions, if there are any, lead through all
  -- blocks and hold the tokens of the steps so far.
  pub record HoldsTokens (tokens : List X) (max_length : ℕ) (s : InferenceSession W X)
      : Type 0 where
    pub position : s.position ≡ length tokens
    pub still_open : s.closed ≡ false
    pub same_length : s.max_length ≡ max_length
    pub servers_hold :
        ((s.chosen_spans ≡ []) × (s.server_sessions ≡ []) × (s.server_inputs ≡ []) × (tokens ≡ []))
        ⊎ IsHeld block tokens 0 num_blocks s.chosen_spans s.server_sessions s.server_inputs

module _ {W X P K : Type 0} (servers : Servers W X P K) (hypo_ids : K) (block : ℕ → List X → List X)
    (causal : IsCausal block) (patience : W → ℕ)
    (reliable : IsReliable servers hypo_ids block patience) where
  open servers use {num_blocks}

  module _ (old new : List X) (some_new : 0 < length new) (max_length : ℕ) where
    abbrev started : InferenceSession W X → Loop W X
    started s = record { session = s; server_idx = 0; block_idx = 0; inputs = new; attempt_no = 0 }

    started_first :
        (s : InferenceSession W X)
        → HoldsTokens servers block old max_length s
        → s.chosen_spans ≡ []
        → s.server_sessions ≡ []
        → s.server_inputs ≡ []
        → old ≡ []
        → IsLoop servers hypo_ids block causal patience reliable old new some_new max_length
            (started s)
    unfolding apply_blocks
    started_first s h no_spans no_sessions no_inputs no_tokens =
        let whole : new ≡ old ++ new = ap (λ l. l ++ new) (sym no_tokens) in
        record {
          ready = false;
          track = record {
            spans_done = [];
            sessions_done = [];
            stored_done = [];
            spans_todo = [];
            sessions_todo = [];
            stored_todo = [];
            frame = record {
              old_position = h.position;
              still_open = h.still_open;
              spans_split = no_spans;
              sessions_split = no_sessions;
              stored_split = no_inputs;
              spans_at = refl;
              sessions_at = refl;
              stored_at = refl;
              done = refl;
              some_inputs = inl whole;
            };
            todo = inr (refl, refl, whole);
          };
          used = λ may.
              empty_must_renew s.chosen_spans (length s.server_sessions == 0) (leb 1 0) no_spans
                may;
          same_length = h.same_length;
          inside = omega arith;
        }

    started_later :
        (s : InferenceSession W X)
        → HoldsTokens servers block old max_length s
        → IsHeld block old 0 num_blocks s.chosen_spans s.server_sessions s.server_inputs
        → IsLoop servers hypo_ids block causal patience reliable old new some_new max_length
            (started s)
    unfolding apply_blocks
    started_later s h held =
        let last : new ≡ drop (length old) (old ++ new) =
          sym (drop-append old new (length old) refl) in
        record {
          ready = true;
          track = record {
            spans_done = [];
            sessions_done = [];
            stored_done = [];
            spans_todo = s.chosen_spans;
            sessions_todo = s.server_sessions;
            stored_todo = s.server_inputs;
            frame = record {
              old_position = h.position;
              still_open = h.still_open;
              spans_split = refl;
              sessions_split = refl;
              stored_split = refl;
              spans_at = refl;
              sessions_at = refl;
              stored_at = refl;
              done = refl;
              some_inputs = inr last;
            };
            todo =
                IsRest-IsTodo block old new num_blocks [] 0 new s.chosen_spans s.server_sessions
                  s.server_inputs
                  (λ fresh. absurd (
                    false≢true (
                      sym (
                        IsHeld-not_fresh block old 0 num_blocks s.chosen_spans s.server_sessions
                          s.server_inputs held)
                      ∙ fresh)))
                  (IsHeld-IsRest block old 0 num_blocks s.chosen_spans s.server_sessions
                    s.server_inputs held);
          };
          used = λ _. refl;
          same_length = h.same_length;
          inside = omega arith;
        }

    started-IsLoop :
        (s : InferenceSession W X)
        → HoldsTokens servers block old max_length s
        → IsLoop servers hypo_ids block causal patience reliable old new some_new max_length
            (started s)
    started-IsLoop s h = elim h.servers_hold [
      | inl (no_spans, no_sessions, no_inputs, no_tokens) ↦
          started_first s h no_spans no_sessions no_inputs no_tokens
      | inr held ↦ started_later s h held
    ]

    ended_nil :
        (inputs : List X) (ready : Bool) (tokens : List X) (fs : List RemoteSpanInfo)
        (fc : List (ServerSession X)) (fi : List (Option (List X))) (spans : List RemoteSpanInfo)
        (sessions : List (ServerSession X)) (stored : List (Option (List X)))
        → IsHeld block tokens 0 num_blocks fs fc fi
        → IsTodo block old new num_blocks ready fs num_blocks inputs spans sessions stored
        → IsHeld block tokens 0 num_blocks (fs ++ spans) (fc ++ sessions) (fi ++ stored)
    ended_nil inputs ready tokens fs fc fi [] [] [] h todo =
        rw (append_nil fs) (rw (append_nil fc) (rw (append_nil fi) h))
    ended_nil inputs ready tokens fs fc fi (s ∷ spans) (c ∷ sessions) (i ∷ stored) h todo =
        absurd
          (omega (arith, todo.1, IsRest-le block old s.end num_blocks spans sessions stored todo.4))
    ended_nil inputs ready tokens fs fc fi [] [] (_ ∷ _) h todo = absurd todo
    ended_nil inputs ready tokens fs fc fi [] (_ ∷ _) stored h todo = absurd todo
    ended_nil inputs ready tokens fs fc fi (_ ∷ _) [] stored h todo = absurd todo
    ended_nil inputs ready tokens fs fc fi (_ ∷ _) (_ ∷ _) [] h todo = absurd todo

    abbrev moved_on : Loop W X → InferenceSession W X
    moved_on l = record l.session { position = l.session.position + length new }

    abbrev IsInLoop : Loop W X → Type 0
    IsInLoop = IsLoop servers hypo_ids block causal patience reliable old new some_new max_length

    ended-HoldsTokens :
        (l : Loop W X)
        → l.block_idx ≡ num_blocks
        → IsInLoop l
        → HoldsTokens servers block (old ++ new) max_length (moved_on l)
    ended-HoldsTokens l at_end h =
        let t = h.track in
        record {
          position = omega (arith, t.frame.old_position, length-append old new);
          still_open = t.frame.still_open;
          same_length = h.same_length;
          servers_hold = inr (
              rw t.frame.spans_split (
                rw t.frame.sessions_split (
                  rw t.frame.stored_split (
                    ended_nil l.inputs h.ready (old ++ new) t.spans_done t.sessions_done
                      t.stored_done t.spans_todo t.sessions_todo t.stored_todo
                      (subst
                        (λ e.
                          IsHeld block (old ++ new) 0 e t.spans_done t.sessions_done t.stored_done)
                        at_end t.frame.done)
                      (subst
                        (λ e.
                          IsTodo block old new num_blocks h.ready t.spans_done e l.inputs
                            t.spans_todo t.sessions_todo t.stored_todo)
                        at_end t.todo)))));
        }

    ended_outputs :
        (l : Loop W X)
        → l.block_idx ≡ num_blocks
        → IsInLoop l
        → last_tokens (length new) l.inputs ≡ new_inputs block old new num_blocks
    ended_outputs l at_end h =
        last_tokens-either block causal old new num_blocks l.inputs some_new (
          subst
            (λ b. (l.inputs ≡ all_inputs block old new b) ⊎ (l.inputs ≡ new_inputs block old new b))
            at_end h.track.frame.some_inputs)

  -- In a reliable swarm, with fuel for the failures that it still has patience for and for one server
  -- session to each block, a step of a session that holds the old tokens returns what all blocks make
  -- of the old and the new tokens together, for the new ones, however often requests failed on the
  -- way; afterwards the session holds the new tokens as well.
  pub step-HoldsTokens :
      (fuel : ℕ) (s : InferenceSession W X) (old new : List X) (max_length : ℕ)
      → 0 < length new
      → HoldsTokens servers block old max_length s
      → length old + length new ≤ max_length
      → patience s.world + num_blocks ≤ fuel
      → (t : InferenceSession W X) × (step servers [] hypo_ids fuel s new
          ≡ ok (new_inputs block old new num_blocks, t))
        × HoldsTokens servers block (old ++ new) max_length t
        × (patience t.world ≤ patience s.world)
  unfolding step
  step-HoldsTokens fuel s old new max_length some_new h short enough =
      let begun = started old new some_new max_length s in
      let (l, e, ended, at_end, left) =
        attempt_loop-Ends servers hypo_ids block causal patience reliable old new some_new
          max_length fuel begun (started-IsLoop old new some_new max_length s h)
          (omega (arith, enough)) in
      let inside : leb (s.position + length new) s.max_length ≡ true =
        ground (arith, h.position, h.same_length, short) in
      (
        moved_on old new some_new max_length l,
        guarded s.closed (leb (s.position + length new) s.max_length) l
              (λ m. (last_tokens (length new) m.inputs, moved_on old new some_new max_length m))
              h.still_open inside e
            ∙ ap (λ out. ok (out, moved_on old new some_new max_length l))
                (ended_outputs old new some_new max_length l at_end ended),
        ended-HoldsTokens old new some_new max_length l at_end ended,
        left,
      )
