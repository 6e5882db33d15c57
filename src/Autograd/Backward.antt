-- ===== src/Autograd/Backward.antt =====
-- `sequential_backward` of client/sequential_autograd.py, for one tensor of gradients. The casts
-- between devices are left out.
use mathlib.Core.List.{reverse}
use petals_ai_refactor.Prelude.{
  ◌==◌, if◌then◌else◌, length, Fallible, err, ok, ◌>>◌, guard, ℕ, zero, suc, ◌+◌, Bool, false, ◌&&◌,
  Option, none, some, List, [], ◌∷◌, ◌++◌,
}
use petals_ai_refactor.Data.{RemoteSpanInfo}
use petals_ai_refactor.Routing.Info.{slice}
use petals_ai_refactor.Autograd.Forward.{
  Swarm, Progress, ForwardError, out_of_fuel, sequential_forward,
}
use petals_ai_refactor.Routing.Manager.{get_retry_delay}

-- The variables of the loops, but the gradients: the stacks of spans and of their inputs, and the
-- span that was taken from them with its inputs.
pub record Turn (W H : Type 0) : Type 0 where
  pub world : W
  pub forward_sequences : List RemoteSpanInfo
  pub intermediate_inputs : List H
  pub span : RemoteSpanInfo
  pub inputs : H

pub record Pass (W H P : Type 0) : Type 0 where
  pub turn : Turn W H
  pub attempt_no : ℕ
  pub grad_outputs : H
  pub grad_prompts_reversed : List P

-- What the loops leave.
pub record Gradients (W H P : Type 0) : Type 0 where
  pub world : W
  pub grad_outputs : H
  pub grad_prompts : List P

pub data BackwardError : Type 0 where
  lengths_differ no_fuel : BackwardError

-- The state in which an attempt calls a server, or in which it raises before.
pub data Prepared (W H : Type 0) : Type 0 where
  no_forward_fuel : Prepared W H
  raises ready : Turn W H → Prepared W H

pub data Next (W H P : Type 0) : Type 0 where
  stuck : Next W H P
  again : Pass W H P → Next W H P
  finished : Gradients W H P → Next W H P

-- `xs.pop()`: the list without its last entry, and that entry
unfoldable pub pop {ℓ} : {A : Type ℓ} → List A → Option (List A × A)
pop [] = none
pop (x ∷ xs) = elim (pop xs) [ none ↦ some ([], x) | some (front, last) ↦ some (x ∷ front, last) ]

-- the assertions on the first and the last span of a recovered path
abbrev pub starts_at : ℕ → List RemoteSpanInfo → Bool
starts_at b [] = false
starts_at b (s ∷ spans) = s.start == b

abbrev pub ends_at : ℕ → List RemoteSpanInfo → Bool
ends_at e [] = false
ends_at e (s ∷ []) = s.end == e
ends_at e (s ∷ t ∷ spans) = ends_at e (t ∷ spans)

module _ {W H P : Type 0} (swarm : Swarm W H P)
    (run_remote_backward : W → RemoteSpanInfo → H → H → List P → Option (H × List P))
    (prompts : List P) (forward_fuel : ℕ) where
  open swarm use {on_request_success, on_request_failure, sleep, min_backoff}

  -- both pops, where neither stack is empty
  abbrev pub pop_turn :
      W → Option (List RemoteSpanInfo × RemoteSpanInfo) → Option (List H × H) → Option (Turn W H)
  pop_turn w (some (spans, s)) (some (rest, inputs)) = some (record {
    world = w;
    forward_sequences = spans;
    intermediate_inputs = rest;
    span = s;
    inputs = inputs;
  })
  pop_turn w _ _ = none

  abbrev pub recovered : Turn W H → Option (Turn W H) → Prepared W H
  recovered t none = raises t
  recovered t (some u) = ready u

  -- what the forward pass over the blocks of the span gives, put on the stacks; its assertions raise
  -- before it changes anything
  abbrev pub after_forward : Turn W H → Fallible ForwardError (Progress W H) → Prepared W H
  after_forward t (err out_of_fuel) = no_forward_fuel
  after_forward t (err _) = raises t
  after_forward t (ok p) =
      let u = record t { world = p.world } in
      if length p.intermediate_inputs == length p.done_sequences
        && starts_at t.span.start p.done_sequences
        && ends_at t.span.end p.done_sequences
      then recovered u (
          pop_turn p.world (pop (t.forward_sequences ++ p.done_sequences))
            (pop (t.intermediate_inputs ++ p.intermediate_inputs)))
      else raises u

  -- `if attempt_no >= 1`
  unfoldable pub prepare : ℕ → Turn W H → Prepared W H
  unfolding pop
  prepare zero t = ready t
  prepare (suc n) t = after_forward t (
      sequential_forward swarm prompts forward_fuel t.world t.inputs t.span.start (some t.span.end))

  -- the `except`
  abbrev pub retry : Pass W H P → Turn W H → Pass W H P
  retry p t = record p {
    turn = record t {
      world =
          sleep (get_retry_delay min_backoff p.attempt_no)
            (on_request_failure t.world t.span.peer_id);
    };
    attempt_no = p.attempt_no + 1;
  }

  -- the test of the outer loop, and the start of its body
  abbrev pub begin : W → H → List P → Option (Turn W H) → Next W H P
  begin w g ps none = finished (record { world = w; grad_outputs = g; grad_prompts = reverse ps })
  begin w g ps (some t) =
      again (record { turn = t; attempt_no = 0; grad_outputs = g; grad_prompts_reversed = ps })

  -- the rest of the `try` once the server has answered
  unfoldable pub conclude : Pass W H P → Turn W H → Option (H × List P) → Next W H P
  unfolding pop
  conclude p t none = again (retry p t)
  conclude p t (some (g, ps)) =
      let w = on_request_success t.world t.span.peer_id in
      begin w g (p.grad_prompts_reversed ++ ps)
        (pop_turn w (pop t.forward_sequences) (pop t.intermediate_inputs))

  abbrev pub call_server : Pass W H P → Prepared W H → Next W H P
  call_server p no_forward_fuel = stuck
  call_server p (raises t) = again (retry p t)
  call_server p (ready t) = conclude p t (
      run_remote_backward t.world t.span t.inputs p.grad_outputs
        (slice t.span.start t.span.end prompts))

  -- the body of `try`
  unfoldable pub try_backward : Pass W H P → Next W H P
  unfolding prepare conclude
  try_backward p = call_server p (prepare p.attempt_no p.turn)

  -- both loops, with fuel for the attempts in all
  unfoldable pub backward_loop : ℕ → Next W H P → Fallible BackwardError (Gradients W H P)
  unfolding try_backward
  backward_loop fuel (finished r) = ok r
  backward_loop fuel stuck = err no_fuel
  backward_loop zero (again p) = err no_fuel
  backward_loop (suc fuel) (again p) = backward_loop fuel (try_backward p)

  unfoldable pub sequential_backward :
      ℕ → W → H → List H → List RemoteSpanInfo → Fallible BackwardError (Gradients W H P)
  unfolding backward_loop
  sequential_backward fuel w g intermediate_inputs forward_sequences = do
    guard (length intermediate_inputs == length forward_sequences) lengths_differ
    backward_loop fuel (begin w g [] (pop_turn w (pop forward_sequences) (pop intermediate_inputs)))
