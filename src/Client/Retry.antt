-- ===== src/Client/Retry.antt =====
-- `InferenceSession.step` of client/inference_session.py: the attempts to get through all blocks.
use petals_ai_refactor.Prelude.{
  ltb, leb, ◌==◌, if◌then◌else◌, length, get_elem?, set, Fallible, err, ok, ◌>>=◌, ◌>>◌, guard, ℕ,
  zero, suc, ◌+◌, Bool, true, false, not, ◌||◌, Option, none, some, List, [], ◌∷◌,
}
use petals_ai_refactor.Data.{PeerId, RemoteSpanInfo}
use petals_ai_refactor.Routing.Info.{slice}
use petals_ai_refactor.Client.Stream.{ServerSession, Servers, new_session, step_stream}
use petals_ai_refactor.Client.Session.{
  InferenceSession, SessionError, session_closed, bad_prompts, length_exceeded, out_of_fuel,
  last_tokens, Outcome, failed, succeeded, Attempted, Loop, fed_inputs, recovery_inputs, install,
  close_at,
}
use petals_ai_refactor.Autograd.Forward.{clip_last}
use petals_ai_refactor.Routing.Manager.{get_retry_delay}

module _ {W X P K : Type 0} (servers : Servers W X P K) (prompts : List P) (hypo_ids : K) where
  open servers use {
    make_sequence, on_request_success, on_request_failure, connects, same_shape, sleep, min_backoff,
    num_blocks,
  }

  -- `_enter_server_sessions`; on an exception the sessions entered before are closed and dropped
  unfoldable pub enter_sessions : W → List RemoteSpanInfo → Option (List (ServerSession X))
  enter_sessions w [] = some []
  enter_sessions w (s ∷ spans) = elim (enter_sessions w spans) [
    | none ↦ none
    | some sessions ↦ if connects w s then some (new_session s ∷ sessions) else none
  ]

  abbrev pub end_of : Option RemoteSpanInfo → ℕ
  end_of none = num_blocks
  end_of (some span) = span.end

  abbrev pub update_end : ℕ → InferenceSession W X → ℕ
  update_end k s = end_of (get_elem? s.chosen_spans k)

  abbrev pub clipped_path : W → ℕ → ℕ → Option (List RemoteSpanInfo)
  clipped_path w block_idx end = elim (make_sequence w block_idx end) [
    | none ↦ none
    | some spans ↦ clip_last end spans
  ]

  abbrev pub enter_path :
      ℕ → InferenceSession W X → Option (List RemoteSpanInfo) → Bool × InferenceSession W X
  enter_path k s none = (false, s)
  enter_path k s (some spans) = elim (enter_sessions s.world spans) [
    | none ↦ (false, s)
    | some sessions ↦ install k spans sessions (recovery_inputs k s) s
  ]

  -- the branch of the attempt that replaces the session at an index, or makes the first ones
  unfoldable pub renew : ℕ → ℕ → InferenceSession W X → Bool × InferenceSession W X
  unfolding close_at enter_sessions clip_last install
  renew k block_idx s =
      enter_path k (record s { server_sessions = close_at servers s.world k s.server_sessions })
        (clipped_path s.world block_idx (update_end k s))

  abbrev pub finish_call : RemoteSpanInfo → List X → Option (List X) × ServerSession X → Outcome X
  finish_call span new (none, c) = failed (some span.peer_id)
  finish_call span new (some outputs, c) =
      if same_shape new outputs then succeeded span outputs else failed (some span.peer_id)

  -- the rest of the attempt, once the inputs of the session at an index are stored
  abbrev pub call_session :
      ℕ
      → ℕ
      → InferenceSession W X
      → List X
      → ServerSession X
      → RemoteSpanInfo
      → List X
      → Attempted W X
  call_session k n s inputs c span fed =
      let new = if c.stepped then last_tokens n inputs else fed in
      let answer = step_stream servers s.world c new (slice span.start span.end prompts) hypo_ids in
      if length fed == s.position + n
      then record {
        session = record s { server_sessions = set s.server_sessions k answer.1 };
        inputs = new;
        outcome = finish_call span new answer;
      }
      else record { session = s; inputs = inputs; outcome = failed (some span.peer_id) }

  unfoldable pub use_session :
      ℕ
      → ℕ
      → InferenceSession W X
      → List X
      → Option (ServerSession X)
      → Option RemoteSpanInfo
      → Option (Option (List X))
      → Attempted W X
  unfolding last_tokens step_stream
  use_session k n s inputs (some c) (some span) (some old) =
      let fed = fed_inputs s.position n inputs old in
      call_session k n (record s { server_inputs = set s.server_inputs k (some fed) }) inputs c span
        fed
  use_session k n s inputs (some c) (some span) none = record {
    session = s;
    inputs = inputs;
    outcome = failed (some span.peer_id);
  }
  use_session k n s inputs _ _ _ = record { session = s; inputs = inputs; outcome = failed none }

  abbrev pub use_at : ℕ → ℕ → List X → Bool × InferenceSession W X → Attempted W X
  use_at k n inputs (false, s) = record { session = s; inputs = inputs; outcome = failed none }
  use_at k n inputs (true, s) =
      use_session k n s inputs (get_elem? s.server_sessions k) (get_elem? s.chosen_spans k)
        (get_elem? s.server_inputs k)

  abbrev pub needs_renewal : InferenceSession W X → ℕ → Bool
  needs_renewal s attempt_no =
      length s.chosen_spans == 0 || length s.server_sessions == 0 || leb 1 attempt_no

  -- the body of `try`
  unfoldable pub attempt : ℕ → Loop W X → Attempted W X
  unfolding renew use_session
  attempt n l = use_at l.server_idx n l.inputs (
      if needs_renewal l.session l.attempt_no
      then renew l.server_idx l.block_idx l.session
      else (true, l.session))

  abbrev pub punish : W → Option PeerId → W
  punish w none = w
  punish w (some peer) = on_request_failure w peer

  -- the rest of the `try` on success, the `except` on failure
  abbrev pub conclude : Loop W X → InferenceSession W X → List X → Outcome X → Loop W X
  conclude l s inputs (failed peer) = record l {
    session = record s {
      world = sleep (get_retry_delay min_backoff l.attempt_no) (punish s.world peer);
    };
    inputs = inputs;
    attempt_no = l.attempt_no + 1;
  }
  conclude l s inputs (succeeded span outputs) = record {
    session = record s { world = on_request_success s.world span.peer_id };
    server_idx = l.server_idx + 1;
    block_idx = span.end;
    inputs = outputs;
    attempt_no = 0;
  }

  unfoldable pub next_attempt : ℕ → Loop W X → Loop W X
  unfolding attempt
  next_attempt n l = let a = attempt n l in conclude l a.session a.inputs a.outcome

  -- both loops, with fuel for the attempts in all
  unfoldable pub attempt_loop : ℕ → ℕ → Loop W X → Fallible SessionError (Loop W X)
  unfolding next_attempt
  attempt_loop zero n l = if ltb l.block_idx num_blocks then err out_of_fuel else ok l
  attempt_loop (suc fuel) n l =
      let rest = attempt_loop fuel n (next_attempt n l) in
      if ltb l.block_idx num_blocks then rest else ok l

  -- `step`: the outputs, and the session after it
  unfoldable pub step :
      ℕ → InferenceSession W X → List X → Fallible SessionError (List X × InferenceSession W X)
  unfolding attempt_loop
  step fuel s inputs = do
    let n = length inputs
    guard (not s.closed) session_closed
    guard (length prompts == 0 || length prompts == num_blocks) bad_prompts
    guard (leb (s.position + n) s.max_length) length_exceeded
    l ←
        attempt_loop fuel n
          (record { session = s; server_idx = 0; block_idx = 0; inputs = inputs; attempt_no = 0 })
    ok (last_tokens n l.inputs, record l.session { position = l.session.position + n })
