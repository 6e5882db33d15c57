-- ===== src/Tests/AutogradTests.antt =====
-- A swarm of five blocks, of which each adds its number, and in which the first attempts fail.
use mathlib.Core.Path.{subst}
use mathlib.Core.List.{append-nil}
use petals_ai_refactor.Prelude.{
  ltb, if◌then◌else◌, lt→ltb, length, ℕ, zero, suc, ◌+◌, ◌-◌, ◌≤◌, ◌<◌, ◌≡◌, refl, true, Option,
  none, some, List, [], ◌∷◌, arith,
}
use petals_ai_refactor.Autograd.Backprop.{IsBackward, HasGradients, sequential_backward-IsBackward}
use petals_ai_refactor.Autograd.Backward.{sequential_backward}
use petals_ai_refactor.Autograd.Chain.{apply_blocks}
use petals_ai_refactor.Autograd.Forward.{Swarm, sequential_forward}
use petals_ai_refactor.Autograd.Prompts.{rows_of, prompt_rows}
use petals_ai_refactor.Autograd.Recovery.{IsReliable, IsForward, sequential_forward-IsForward}
use petals_ai_refactor.Autograd.Stacks.{grad_blocks}
use petals_ai_refactor.Data.{RemoteSpanInfo}
use petals_ai_refactor.Routing.Info.{slice}
use petals_ai_refactor.Routing.Route.{IsRoute}

abbrev add_block : ℕ → ℕ → ℕ
add_block i h = h + i

-- the state is the number of requests that will fail
abbrev call_server : ℕ → RemoteSpanInfo → ℕ → List (List ℕ) → Option ℕ
call_server zero s h ps = some (apply_blocks add_block s.start (s.end - s.start) h)
call_server (suc n) s h ps = none

abbrev swarm : Swarm ℕ ℕ (List ℕ)
swarm = record {
  make_sequence =
      λ w b e. some (if ltb b e then record { start = b; end = e + 1; peer_id = 7 } ∷ [] else []);
  on_request_success = λ w p. w;
  on_request_failure = λ w p. w;
  run_remote_forward = call_server;
  has_three_dims = λ h. true;
  same_shape = λ out h. true;
  sleep = λ delay w. w - 1;
  min_backoff = 1;
  num_blocks = 5;
}

swarm_answers :
    (w : ℕ) (s : RemoteSpanInfo) (h : ℕ) (ps : List (List ℕ)) → call_server w s h ps ≡ none → 0 < w
swarm_answers zero s h ps e = cc
swarm_answers (suc w) s h ps e = omega arith

swarm_serves :
    (w : ℕ) (s : RemoteSpanInfo) (h : ℕ) (ps : List (List ℕ)) (out : ℕ)
    → call_server w s h ps ≡ some out
    → out ≡ apply_blocks add_block s.start (s.end - s.start) h
swarm_serves zero s h ps out e = cc
swarm_serves (suc w) s h ps out e = cc

swarm_routes :
    (b e : ℕ) (spans : List RemoteSpanInfo)
    → b < e
    → some (if ltb b e then record { start = b; end = e + 1; peer_id = 7 } ∷ [] else [])
      ≡ some spans
    → IsRoute b e spans
swarm_routes b e spans lt eq =
    let more = lt→ltb b e lt in
    let path : record { start = b; end = e + 1; peer_id = 7 } ∷ [] ≡ spans = cc in
    subst (IsRoute b e) path (refl, omega arith, lt, omega arith)

swarm-IsReliable : IsReliable swarm [] add_block (λ w. w)
swarm-IsReliable = record {
  routes = λ w b e spans lt le eq. swarm_routes b e spans lt eq;
  serves = λ w s h out lt le eq same. swarm_serves w s h (slice s.start s.end []) out eq;
  no_route = λ w b e lt le eq. cc;
  no_answer = λ w s h lt le eq. swarm_answers w s h (slice s.start s.end []) eq;
  misshapen = λ w s h out lt le eq other. cc;
  wait = λ w delay left. omega arith;
  wait_after = λ w peer delay left. omega arith;
  succeeds = λ w peer. omega arith;
}

sequential_forward-IsForward_example :
    IsForward swarm [] add_block
      (λ w. w)
      swarm-IsReliable
      1
      4
      10
      (sequential_forward swarm [] 5 2 10 1 (some 4))
sequential_forward-IsForward_example =
    sequential_forward-IsForward swarm [] add_block (λ w. w) swarm-IsReliable 5 2 10 1 4
      (omega arith) refl refl refl (omega arith)

-- the gradient of a block is what comes back from behind it, and its input on top
abbrev add_gradient : ℕ → ℕ → ℕ → ℕ
add_gradient i h g = g + h

-- each block has one prompt, whose gradient is that behind the block and the block's number
abbrev add_prompt_gradient : ℕ → ℕ → ℕ → List ℕ
add_prompt_gradient i h g = (g + i) ∷ []

abbrev call_backward : ℕ → RemoteSpanInfo → ℕ → ℕ → List (List ℕ) → Option (ℕ × List (List ℕ))
call_backward zero s h g ps = some (
  grad_blocks add_block add_gradient s.start (s.end - s.start) h g,
  prompt_rows add_block add_gradient add_prompt_gradient s.start (s.end - s.start) h g ∷ [],
)
call_backward (suc n) s h g ps = none

swarm_gradients :
    (w : ℕ) (s : RemoteSpanInfo) (h g out : ℕ) (ps qs : List (List ℕ))
    → call_backward w s h g qs ≡ some (out, ps)
    → (out ≡ grad_blocks add_block add_gradient s.start (s.end - s.start) h g)
      × (length ps ≤ 1)
      × (rows_of (λ l. l) ps
          ≡ prompt_rows add_block add_gradient add_prompt_gradient s.start (s.end - s.start) h g)
swarm_gradients zero s h g out ps qs e =
    let rows =
      prompt_rows add_block add_gradient add_prompt_gradient s.start (s.end - s.start) h g in
    let same : rows ∷ [] ≡ ps = cc in
    (
      cc,
      subst (λ l. length l ≤ 1) same (omega arith),
      subst (λ l. rows_of (λ r. r) l ≡ rows) same (append-nil rows),
    )
swarm_gradients (suc w) s h g out ps qs e = cc

swarm_backward_fails :
    (w : ℕ) (s : RemoteSpanInfo) (h g : ℕ) (qs : List (List ℕ))
    → call_backward w s h g qs ≡ none
    → 0 < w
swarm_backward_fails zero s h g qs e = cc
swarm_backward_fails (suc w) s h g qs e = omega arith

swarm-HasGradients :
    HasGradients swarm call_backward [] add_block add_gradient (λ l. l) add_prompt_gradient (λ w. w)
swarm-HasGradients = record {
  gradients = λ w s h g out ps lt le e. swarm_gradients w s h g out ps (slice s.start s.end []) e;
  failure = λ w s h g lt le e. swarm_backward_fails w s h g (slice s.start s.end []) e;
  tensors = λ h. refl;
}

abbrev two_spans : List RemoteSpanInfo
two_spans =
    record { start = 0; end = 2; peer_id = 1 } ∷ record { start = 2; end = 5; peer_id = 2 } ∷ []

sequential_backward-IsBackward_example :
    IsBackward
      (λ l. l)
      add_block
      add_gradient
      add_prompt_gradient
      0
      5
      4
      1
      (sequential_backward swarm call_backward [] 7 7 2 1 (4 ∷ 5 ∷ []) two_spans)
unfolding apply_blocks
sequential_backward-IsBackward_example =
    sequential_backward-IsBackward swarm call_backward [] add_block add_gradient (λ l. l)
      add_prompt_gradient (λ w. w) swarm-IsReliable swarm-HasGradients refl 7 0 5 (omega arith) 4 1
      7 2 two_spans (4 ∷ 5 ∷ []) 14
      (refl, omega arith, refl, (refl, omega arith, refl, (refl, refl))) (omega arith) (omega arith)
