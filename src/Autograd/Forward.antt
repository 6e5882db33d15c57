-- ===== src/Autograd/Forward.antt =====
-- `sequential_forward` of client/sequential_autograd.py. The manager, the network and the clock are
-- one state of a parameter type, which requests, failures and waits change; an exception is `none`,
-- as the code only logs it. The casts between devices are left out.
use petals_ai_refactor.Prelude.{
  ltb, leb, ◌==◌, if◌then◌else◌, length, Fallible, err, ok, ◌>>◌, guard, ℕ, zero, suc, ◌+◌, min,
  Bool, ◌||◌, Option, none, some, List, [], ◌∷◌, ◌++◌,
}
use petals_ai_refactor.Data.{PeerId, RemoteSpanInfo}
use petals_ai_refactor.Routing.Info.{slice}
use petals_ai_refactor.Routing.Manager.{get_retry_delay}

-- What the pass calls: the manager's methods, the remote call for a span with the prompts of its
-- blocks, the comparison of the shapes of two tensors, and `asyncio.sleep`.
pub record Swarm (W H P : Type 0) : Type 0 where
  pub make_sequence : W → ℕ → ℕ → Option (List RemoteSpanInfo)
  pub on_request_success : W → PeerId → W
  pub on_request_failure : W → PeerId → W
  pub run_remote_forward : W → RemoteSpanInfo → H → List P → Option H
  pub has_three_dims : H → Bool
  pub same_shape : H → H → Bool
  pub sleep : ℕ → W → W
  pub min_backoff : ℕ
  -- `len(sequence_manager.block_uids)`
  pub num_blocks : ℕ

-- How an attempt ends: with an exception, after a span was taken or before, or with the outputs of
-- a span and the spans behind it.
pub data Attempt (H : Type 0) : Type 0 where
  failed : Option PeerId → Attempt H
  succeeded : RemoteSpanInfo → List RemoteSpanInfo → H → Attempt H

-- The variables of the loops. The deque of spans is made anew after an exception, so that what an
-- exception leaves in it is not kept here.
pub record Progress (W H : Type 0) : Type 0 where
  pub world : W
  pub block_idx : ℕ
  pub attempt_no : ℕ
  pub sequences : List RemoteSpanInfo
  pub inputs : H
  pub intermediate_inputs : List H
  pub done_sequences : List RemoteSpanInfo

pub data ForwardError : Type 0 where
  bad_inputs bad_range bad_prompts out_of_fuel : ForwardError

-- `sequences[-1].end = min(sequences[-1].end, end_index)`, which raises on an empty deque
unfoldable pub clip_last : ℕ → List RemoteSpanInfo → Option (List RemoteSpanInfo)
clip_last end [] = none
clip_last end (s ∷ []) = some (record s { end = min s.end end } ∷ [])
clip_last end (s ∷ t ∷ spans) = elim (clip_last end (t ∷ spans)) [
  | none ↦ none
  | some clipped ↦ some (s ∷ clipped)
]

module _ {W H P : Type 0} (swarm : Swarm W H P) (prompts : List P) where
  open swarm use {
    make_sequence, on_request_success, on_request_failure, run_remote_forward, has_three_dims,
    same_shape, sleep, min_backoff, num_blocks,
  }

  abbrev pub new_path : W → ℕ → ℕ → Option (List RemoteSpanInfo)
  new_path w block_idx end = elim (make_sequence w block_idx end) [
    | none ↦ none
    | some spans ↦ clip_last end spans
  ]

  -- the spans to go on with: `if not sequences or attempt_no >= 1`, a new path
  unfoldable pub find_path : W → ℕ → ℕ → ℕ → List RemoteSpanInfo → Option (List RemoteSpanInfo)
  find_path w block_idx end zero (s ∷ spans) = some (s ∷ spans)
  find_path w block_idx end attempt_no _ = new_path w block_idx end

  abbrev pub call_span : W → RemoteSpanInfo → List RemoteSpanInfo → H → Attempt H
  call_span w s rest inputs = elim (run_remote_forward w s inputs (slice s.start s.end prompts)) [
    | none ↦ failed (some s.peer_id)
    | some outputs ↦
        if same_shape outputs inputs then succeeded s rest outputs else failed (some s.peer_id)
  ]

  abbrev pub call_first : W → Option (List RemoteSpanInfo) → H → Attempt H
  call_first w none inputs = failed none
  call_first w (some []) inputs = failed none
  call_first w (some (s ∷ rest)) inputs = call_span w s rest inputs

  -- the body of `try`
  unfoldable pub try_span : ℕ → Progress W H → Attempt H
  unfolding find_path
  try_span end p =
      call_first p.world (find_path p.world p.block_idx end p.attempt_no p.sequences) p.inputs

  abbrev pub penalize : W → Option PeerId → W
  penalize w none = w
  penalize w (some peer) = on_request_failure w peer

  -- the rest of the `try` on success, the `except` on failure
  unfoldable pub advance : Attempt H → Progress W H → Progress W H
  advance (failed peer) p = record p {
    world = sleep (get_retry_delay min_backoff p.attempt_no) (penalize p.world peer);
    attempt_no = p.attempt_no + 1;
  }
  advance (succeeded s rest outputs) p = record {
    world = on_request_success p.world s.peer_id;
    block_idx = s.end;
    attempt_no = 0;
    sequences = rest;
    inputs = outputs;
    intermediate_inputs = p.intermediate_inputs ++ p.inputs ∷ [];
    done_sequences = p.done_sequences ++ s ∷ [];
  }

  -- both loops, with fuel for the attempts in all
  unfoldable pub forward_loop : ℕ → ℕ → Progress W H → Fallible ForwardError (Progress W H)
  unfolding try_span advance
  forward_loop zero end p = if ltb p.block_idx end then err out_of_fuel else ok p
  forward_loop (suc fuel) end p =
      let rest = forward_loop fuel end (advance (try_span end p) p) in
      if ltb p.block_idx end then rest else ok p

  unfoldable pub sequential_forward :
      ℕ → W → H → ℕ → Option ℕ → Fallible ForwardError (Progress W H)
  unfolding forward_loop
  sequential_forward fuel w inputs start_index end_index = do
    let end : ℕ = elim end_index [ none ↦ num_blocks | some e ↦ e ]
    guard (has_three_dims inputs) bad_inputs
    guard (leb end num_blocks) bad_range
    guard (length prompts == 0 || length prompts == num_blocks) bad_prompts
    forward_loop fuel end (record {
      world = w;
      block_idx = start_index;
      attempt_no = 0;
      sequences = [];
      inputs = inputs;
      intermediate_inputs = [];
      done_sequences = [];
    })
