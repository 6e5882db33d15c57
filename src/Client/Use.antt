-- ===== src/Client/Use.antt =====
-- The part of an attempt that calls the current server session.
use mathlib.Core.Path.{subst}
use mathlib.Core.Bool.{false≢true}
use petals_ai_refactor.Prelude.{
  ◌==◌, if◌then◌else◌, ==_iff, length, get_elem?, set, ℕ, ◌+◌, ◌<◌, ◌≡◌, refl, sym, ap, ◌∙◌, ◌⊎◌,
  inl, inr, Bool, true, false, Option, none, some, List, [], ◌∷◌, ◌++◌, arith,
}
use petals_ai_refactor.Data.{PeerId, RemoteSpanInfo}
use petals_ai_refactor.Client.Stream.{ServerSession, Servers, step_stream}
use petals_ai_refactor.Client.Session.{
  InferenceSession, last_tokens, Outcome, failed, succeeded, Attempted, fed_inputs,
}
use petals_ai_refactor.Client.Retry.{finish_call, call_session, use_session, use_at}
use petals_ai_refactor.Client.Middle.{get_elem?-middle, set-middle, slice-nil}
use petals_ai_refactor.Client.Causal.{
  all_inputs, new_inputs, IsCausal, length-all_inputs, last_tokens-either,
}
use petals_ai_refactor.Client.Track.{held_session, IsRest-le}
use petals_ai_refactor.Client.Attempt.{IsTodo, Frame, Track, IsRest-IsTodo, fed_inputs-all_inputs}
use petals_ai_refactor.Client.Call.{
  IsReliable, IsAnswer, step_stream-IsAnswer, IsAfter, Frame-next, ready-IsCalled,
}

module _ {W X P K : Type 0} (servers : Servers W X P K) (hypo_ids : K) (block : ℕ → List X → List X)
    (causal : IsCausal block) (patience : W → ℕ)
    (reliable : IsReliable servers hypo_ids block patience) (old new : List X)
    (some_new : 0 < length new) where
  open servers use {same_shape, num_blocks}

  -- the session once the inputs are stored and the answer is in
  abbrev pub called : ℕ → InferenceSession W X → List X → ServerSession X → InferenceSession W X
  called k s fed left = record s {
    server_inputs = set s.server_inputs k (some fed);
    server_sessions = set s.server_sessions k left;
  }

  Frame-called :
      (s : InferenceSession W X) (k b : ℕ) (inputs sent : List X) (fs : List RemoteSpanInfo)
      (fc : List (ServerSession X)) (fi : List (Option (List X))) (ss : List RemoteSpanInfo)
      (c : ServerSession X) (cs : List (ServerSession X)) (i : Option (List X))
      (stored : List (Option (List X))) (left : ServerSession X)
      → Frame block old new num_blocks s k b inputs fs fc fi ss (c ∷ cs) (i ∷ stored)
      → (sent ≡ all_inputs block old new b) ⊎ (sent ≡ new_inputs block old new b)
      → Frame block old new num_blocks
          (called k s (all_inputs block old new b) left)
          k
          b
          sent
          fs
          fc
          fi
          ss
          (left ∷ cs)
          (some (all_inputs block old new b) ∷ stored)
  Frame-called s k b inputs sent fs fc fi ss c cs i stored left f either = record {
    old_position = f.old_position;
    still_open = f.still_open;
    spans_split = f.spans_split;
    sessions_split =
        ap (λ l. set l k left) f.sessions_split ∙ set-middle fc cs c left k f.sessions_at;
    stored_split =
        ap (λ l. set l k (some (all_inputs block old new b))) f.stored_split
        ∙ set-middle fi stored i (some (all_inputs block old new b)) k f.stored_at;
    spans_at = f.spans_at;
    sessions_at = f.sessions_at;
    stored_at = f.stored_at;
    done = f.done;
    some_inputs = either;
  }

  tokens_either :
      (b : ℕ) (inputs : List X) (stepped : Bool)
      → (inputs ≡ all_inputs block old new b) ⊎ (inputs ≡ new_inputs block old new b)
      → let sent =
          (if stepped then last_tokens (length new) inputs else all_inputs block old new b) in
        (sent ≡ all_inputs block old new b) ⊎ (sent ≡ new_inputs block old new b)
  tokens_either b inputs true either =
      inr (last_tokens-either block causal old new b inputs some_new either)
  tokens_either b inputs false either = inl refl

  module _ (s : InferenceSession W X) (k b : ℕ) (inputs : List X) (fs : List RemoteSpanInfo)
      (fc : List (ServerSession X)) (fi : List (Option (List X))) (span : RemoteSpanInfo)
      (ss : List RemoteSpanInfo) (c : ServerSession X) (cs : List (ServerSession X))
      (i : Option (List X)) (stored : List (Option (List X)))
      (frame : Frame block old new num_blocks s k b inputs fs fc fi
        (span ∷ ss)
        (c ∷ cs)
        (i ∷ stored))
      (todo : IsTodo block old new num_blocks true fs b inputs
        (span ∷ ss)
        (c ∷ cs)
        (i ∷ stored)) where
    abbrev sent : List X
    sent = if c.stepped then last_tokens (length new) inputs else all_inputs block old new b

    abbrev After : InferenceSession W X → List X → Outcome X → Type 0
    After = IsAfter servers hypo_ids block causal patience reliable old new some_new k b

    failed-After :
        (left : ServerSession X) (peer : Option PeerId)
        → 0 < patience s.world
        → After (called k s (all_inputs block old new b) left) sent (failed peer)
    failed-After left peer some_left = (
      some_left,
      record {
        spans_done = fs;
        sessions_done = fc;
        stored_done = fi;
        spans_todo = span ∷ ss;
        sessions_todo = left ∷ cs;
        stored_todo = some (all_inputs block old new b) ∷ stored;
        frame =
            Frame-called s k b inputs sent fs fc fi (span ∷ ss) c cs i stored left frame
              (tokens_either b inputs c.stepped frame.some_inputs);
        todo = (todo.0, todo.1, inr (inr refl), (λ r. absurd (false≢true r)), todo.4);
      },
    )

    succeeded-After :
        (left : ServerSession X) (outputs : List X)
        → left ≡ held_session (all_inputs block old new b) span
        → (outputs ≡ all_inputs block old new span.end)
          ⊎ (outputs ≡ new_inputs block old new span.end)
        → (c.stepped ≡ false → outputs ≡ all_inputs block old new span.end)
        → After (called k s (all_inputs block old new b) left) sent (succeeded span outputs)
    succeeded-After left outputs held either whole = (
      todo.1,
      IsRest-le block old span.end num_blocks ss cs stored todo.4,
      record {
        spans_done = fs ++ span ∷ [];
        sessions_done = fc ++ left ∷ [];
        stored_done = fi ++ some (all_inputs block old new b) ∷ [];
        spans_todo = ss;
        sessions_todo = cs;
        stored_todo = stored;
        frame =
            Frame-next servers hypo_ids block causal patience reliable old new some_new
              (called k s (all_inputs block old new b) left) k b sent outputs fs fc fi span left ss
              cs stored
              (Frame-called s k b inputs sent fs fc fi (span ∷ ss) c cs i stored left frame
                (tokens_either b inputs c.stepped frame.some_inputs))
              todo.0 todo.1 held either;
        todo =
            IsRest-IsTodo block old new num_blocks (fs ++ span ∷ []) span.end outputs ss cs stored
              (λ fresh. whole ((todo.3 refl).1 fresh)) todo.4;
      },
    )

    ready-open : c.closed ≡ false
    ready-open = elim (todo.3 refl).0 [
      | inl fresh ↦ ap (λ (c : ServerSession X). c.closed) fresh
      | inr held ↦ ap (λ (c : ServerSession X). c.closed) held
    ]

    answered-After :
        (answer : Option (List X) × ServerSession X)
        → IsAnswer servers hypo_ids block patience reliable s.world c sent answer
        → After
            (called k s (all_inputs block old new b) answer.1)
            sent
            (finish_call servers [] hypo_ids span sent answer)
    answered-After (none, left) a = failed-After left (some span.peer_id) a
    answered-After (some outputs, left) (eq, answered) =
        let (holds, either, whole) =
          ready-IsCalled servers hypo_ids block causal patience reliable old new some_new s.world b
            inputs span c outputs todo.0 todo.1 frame.some_inputs (todo.3 refl).0 answered in
        rw ((reliable.shapes s.world c.span c.sent sent outputs answered).1)
          (succeeded-After left outputs (eq ∙ holds) either whole)

    called-After :
        let a =
          call_session servers [] hypo_ids k
            (length new)
            (record s { server_inputs = set s.server_inputs k (some (all_inputs block old new b)) })
            inputs
            c
            span
            (all_inputs block old new b) in
        After a.session a.inputs a.outcome
    called-After =
        let fits : (length (all_inputs block old new b) == s.position + length new) ≡ true =
          (==_iff (length (all_inputs block old new b)) (s.position + length new)).1
            (omega (arith, length-all_inputs block causal old new b, frame.old_position)) in
        rw fits (
          rw (slice-nil {A = P} span.start span.end) (
            answered-After (step_stream servers s.world c sent [] hypo_ids) (
              step_stream-IsAnswer servers hypo_ids block patience reliable s.world c sent
                ready-open)))

  abbrev pub AfterUse : ℕ → ℕ → Attempted W X → Type 0
  AfterUse k b a =
      IsAfter servers hypo_ids block causal patience reliable old new some_new k b a.session
        a.inputs a.outcome

  -- the three reads of `use_at`
  abbrev read_session :
      InferenceSession W X
      → ℕ
      → List X
      → Option (ServerSession X)
      → Option RemoteSpanInfo
      → Option (Option (List X))
      → Attempted W X
  read_session s k inputs = use_session servers [] hypo_ids k (length new) s inputs

  use_todo-After :
      (s : InferenceSession W X) (k b : ℕ) (inputs : List X) (fs : List RemoteSpanInfo)
      (fc : List (ServerSession X)) (fi : List (Option (List X))) (bs : List RemoteSpanInfo)
      (bc : List (ServerSession X)) (bi : List (Option (List X)))
      → b < num_blocks
      → Frame block old new num_blocks s k b inputs fs fc fi bs bc bi
      → IsTodo block old new num_blocks true fs b inputs bs bc bi
      → AfterUse k b (use_at servers [] hypo_ids k (length new) inputs (true, s))
  unfolding use_session
  use_todo-After s k b inputs fs fc fi [] [] [] lt frame (inl over) = absurd (omega arith)
  use_todo-After s k b inputs fs fc fi [] [] [] lt frame (inr first) =
      absurd (false≢true (sym first.0))
  use_todo-After s k b inputs fs fc fi (span ∷ ss) (c ∷ cs) (i ∷ stored) lt frame todo =
      let session_at : get_elem? s.server_sessions k ≡ some c =
        ap (λ l. get_elem? l k) frame.sessions_split
        ∙ get_elem?-middle fc cs c k frame.sessions_at in
      let span_at : get_elem? s.chosen_spans k ≡ some span =
        ap (λ l. get_elem? l k) frame.spans_split ∙ get_elem?-middle fs ss span k frame.spans_at in
      let input_at : get_elem? s.server_inputs k ≡ some i =
        ap (λ l. get_elem? l k) frame.stored_split
        ∙ get_elem?-middle fi stored i k frame.stored_at in
      let fed : fed_inputs s.position (length new) inputs i ≡ all_inputs block old new b =
        ap (λ p. fed_inputs p (length new) inputs i) frame.old_position
        ∙ fed_inputs-all_inputs block old new num_blocks causal b inputs i some_new todo.2
            frame.some_inputs in
      rw session_at (
        rw span_at (
          rw input_at (
            subst
              (λ l. AfterUse k b (
                call_session servers [] hypo_ids k (length new)
                  (record s { server_inputs = set s.server_inputs k (some l) }) inputs c span l))
              (sym fed) (called-After s k b inputs fs fc fi span ss c cs i stored frame todo))))
  use_todo-After s k b inputs fs fc fi [] [] (_ ∷ _) lt frame todo = absurd todo
  use_todo-After s k b inputs fs fc fi [] (_ ∷ _) bi lt frame todo = absurd todo
  use_todo-After s k b inputs fs fc fi (_ ∷ _) [] bi lt frame todo = absurd todo
  use_todo-After s k b inputs fs fc fi (_ ∷ _) (_ ∷ _) [] lt frame todo = absurd todo

  -- A session that can be called leaves, after the call, either a session that is to be renewed or
  -- one whose next server session can be called.
  pub use_at-After :
      (ready : Bool) (s : InferenceSession W X) (k b : ℕ) (inputs : List X)
      → b < num_blocks
      → (ready ≡ false → 0 < patience s.world)
      → Track block old new num_blocks ready s k b inputs
      → AfterUse k b (use_at servers [] hypo_ids k (length new) inputs (ready, s))
  use_at-After true s k b inputs lt trouble t =
      use_todo-After s k b inputs t.spans_done t.sessions_done t.stored_done t.spans_todo
        t.sessions_todo t.stored_todo lt t.frame t.todo
  use_at-After false s k b inputs lt trouble t = (trouble refl, t)
