-- ===== src/Autograd/Backprop.antt =====
-- The backward pass in a swarm in which requests fail.
-- The gradients are those of the blocks from `b` up to `e`.
use mathlib.Core.List.{reverse}
use petals_ai_refactor.Prelude.{
  leb, ◌==◌, ==_iff, length, Fallible, err, ok, ℕ, zero, suc, ◌+◌, ◌-◌, ◌≤◌, ◌<◌, ◌≡◌, refl, sym,
  ap, ◌∙◌, true, ◌||◌, Option, none, some, List, [], ◌∷◌, ◌++◌, arith,
}
use petals_ai_refactor.Autograd.Backward.{
  Turn, Pass, Gradients, BackwardError, Prepared, no_forward_fuel, raises, ready, Next, stuck,
  again, finished, pop, pop_turn, after_forward, prepare, begin, conclude, call_server,
  try_backward, backward_loop, sequential_backward,
}
use petals_ai_refactor.Autograd.Chain.{apply_blocks, IsChain, IsChain-apply_blocks}
use petals_ai_refactor.Autograd.Forward.{Swarm, Progress, ForwardError, sequential_forward}
use petals_ai_refactor.Autograd.Patience.{LeavesPatience, sequential_forward-LeavesPatience}
use petals_ai_refactor.Autograd.Recovery.{IsReliable, IsForward, sequential_forward-IsForward}
use petals_ai_refactor.Autograd.Stacks.{
  pop-snoc, IsLast, IsChain-IsLast, IsChain-append, IsChain-length, IsChain-ends, grad_blocks,
}
use petals_ai_refactor.Data.{RemoteSpanInfo}
use petals_ai_refactor.Routing.Info.{slice}
use petals_ai_refactor.Routing.Manager.{get_retry_delay}
use petals_ai_refactor.Autograd.Prompts.{rows_of, rows_of-reverse, prompt_rows, back, back-span}

-- The gradients of the inputs, and the slices of those of the prompts.
abbrev pub result_of : {H P R : Type 0} → (P → List R) → H → List P → H × List R
result_of rows k ps = (k, rows_of rows ps)

-- The gradients are those of the blocks from `b` up to `e`, and so are those of the prompts.
abbrev pub IsBackward :
    {W H P R : Type 0}
    → (P → List R)
    → (ℕ → H → H)
    → (ℕ → H → H → H)
    → (ℕ → H → H → List R)
    → ℕ
    → ℕ
    → H
    → H
    → Fallible BackwardError (Gradients W H P)
    → Type 0
IsBackward rows block gradient prompt_gradient b e h g (err x) = ⊥
IsBackward rows block gradient prompt_gradient b e h g (ok r) =
    result_of rows r.grad_outputs r.grad_prompts ≡ back block gradient prompt_gradient b (e - b) h g

module _ {W H P R : Type 0} (swarm : Swarm W H P)
    (run_remote_backward : W → RemoteSpanInfo → H → H → List P → Option (H × List P))
    (prompts : List P) (block : ℕ → H → H) (gradient : ℕ → H → H → H) (rows : P → List R)
    (prompt_gradient : ℕ → H → H → List R) (patience : W → ℕ) where
  open swarm use {has_three_dims, num_blocks}

  -- What the servers promise of gradients, for blocks of the model: one that answers has propagated
  -- them through the blocks of the span, and returns at most one tensor of gradients of prompts,
  -- whose slices are those of these blocks, and a request fails only where some patience is left.
  pub record HasGradients : Type 0 where
    pub gradients :
        (w : W) (s : RemoteSpanInfo) (h g out : H) (ps : List P)
        → s.start < s.end
        → s.end ≤ num_blocks
        → run_remote_backward w s h g (slice s.start s.end prompts) ≡ some (out, ps)
        → (out ≡ grad_blocks block gradient s.start (s.end - s.start) h g)
          × (length ps ≤ 1)
          × (rows_of rows ps
              ≡ prompt_rows block gradient prompt_gradient s.start (s.end - s.start) h g)
    pub failure :
        (w : W) (s : RemoteSpanInfo) (h g : H)
        → s.start < s.end
        → s.end ≤ num_blocks
        → run_remote_backward w s h g (slice s.start s.end prompts) ≡ none
        → 0 < patience w
    pub tensors : (h : H) → has_three_dims h ≡ true

  module _ (reliable : IsReliable swarm prompts block patience) (has : HasGradients)
      (prompts_fit : (length prompts == 0 || length prompts == num_blocks) ≡ true)
      (forward_fuel b e : ℕ) (inside : e ≤ num_blocks) (h g : H) where
    -- the outputs of the span of a turn
    abbrev outputs_of : Turn W H → H
    outputs_of t = apply_blocks block t.span.start (t.span.end - t.span.start) t.inputs

    record IsTurn (t : Turn W H) : Type 0 where
      before : IsChain block b h t.forward_sequences t.intermediate_inputs t.span.start t.inputs
      some_blocks : t.span.start < t.span.end
      within : t.span.end ≤ e
      enough : patience t.world + num_blocks ≤ forward_fuel

    -- the gradients behind the span of a turn
    abbrev IsGradient : Turn W H → H → List P → Type 0
    IsGradient t k ps =
        result_of rows k (reverse ps)
        ≡ back block gradient prompt_gradient t.span.end (e - t.span.end) (outputs_of t) g

    abbrev attempts_left : Turn W H → ℕ
    attempts_left t = patience t.world + t.span.end

    abbrev IsNext : ℕ → Next W H P → Type 0
    IsNext n stuck = ⊥
    IsNext n (again p) =
        IsTurn p.turn
        × IsGradient p.turn p.grad_outputs p.grad_prompts_reversed
        × (attempts_left p.turn < n)
    IsNext n (finished r) =
        result_of rows r.grad_outputs r.grad_prompts
        ≡ back block gradient prompt_gradient b (e - b) h g

    -- the last span of a chain, taken from the stacks
    abbrev last_turn :
        (w : W) (spans : List RemoteSpanInfo) (inputs : List H) (c : ℕ) (out : H)
        → IsLast block b h spans inputs c out
        → Turn W H
    last_turn w spans inputs c out l = record {
      world = w;
      forward_sequences = l.front;
      intermediate_inputs = l.front_inputs;
      span = l.span;
      inputs = l.given;
    }

    pop_turn-last_turn :
        (w : W) (spans : List RemoteSpanInfo) (inputs : List H) (c : ℕ) (out : H)
        (l : IsLast block b h spans inputs c out)
        → pop_turn swarm run_remote_backward prompts forward_fuel w (pop spans) (pop inputs)
          ≡ some (last_turn w spans inputs c out l)
    pop_turn-last_turn w spans inputs c out l =
        let popped : pop spans ≡ some (l.front, l.span) =
          ap pop l.spans_split ∙ pop-snoc l.front l.span in
        let popped_inputs : pop inputs ≡ some (l.front_inputs, l.given) =
          ap pop l.inputs_split ∙ pop-snoc l.front_inputs l.given in
        ap (λ a. pop_turn swarm run_remote_backward prompts forward_fuel w a (pop inputs)) popped
        ∙ ap
            (λ a.
              pop_turn swarm run_remote_backward prompts forward_fuel w (some (l.front, l.span)) a)
            popped_inputs

    last_turn-IsTurn :
        (w : W) (spans : List RemoteSpanInfo) (inputs : List H) (c : ℕ) (out : H)
        (l : IsLast block b h spans inputs c out)
        → c ≤ e
        → patience w + num_blocks ≤ forward_fuel
        → IsTurn (last_turn w spans inputs c out l)
    last_turn-IsTurn w spans inputs c out l le fuel = record {
      before = l.before;
      some_blocks = l.some_blocks;
      within = omega (arith, l.at_end, le);
      enough = fuel;
    }

    begin_some :
        (n : ℕ) (w : W) (k : H) (ps : List P) (spans : List RemoteSpanInfo) (inputs : List H)
        (c : ℕ) (out : H)
        → b < c
        → IsChain block b h spans inputs c out
        → c ≤ e
        → patience w + num_blocks ≤ forward_fuel
        → result_of rows k (reverse ps) ≡ back block gradient prompt_gradient c (e - c) out g
        → patience w + c < n
        → IsNext n (
            begin swarm run_remote_backward prompts forward_fuel w k ps
              (pop_turn swarm run_remote_backward prompts forward_fuel w (pop spans) (pop inputs)))
    begin_some n w k ps spans inputs c out lt links le fuel grads less =
        let l = IsChain-IsLast block b h spans inputs c out lt links in
        rw (pop_turn-last_turn w spans inputs c out l) (
          last_turn-IsTurn w spans inputs c out l le fuel,
          grads
              ∙ ap (λ x. back block gradient prompt_gradient c (e - c) x g) l.outputs
              ∙ ap
                  (λ j.
                    back block gradient prompt_gradient j (e - j)
                      (apply_blocks block l.span.start (l.span.end - l.span.start) l.given) g)
                  (sym l.at_end),
          omega (arith, l.at_end, less),
        )

    begin-IsNext :
        (n : ℕ) (w : W) (k : H) (ps : List P) (spans : List RemoteSpanInfo) (inputs : List H)
        (c : ℕ) (out : H)
        → IsChain block b h spans inputs c out
        → c ≤ e
        → patience w + num_blocks ≤ forward_fuel
        → result_of rows k (reverse ps) ≡ back block gradient prompt_gradient c (e - c) out g
        → patience w + c < n
        → IsNext n (
            begin swarm run_remote_backward prompts forward_fuel w k ps
              (pop_turn swarm run_remote_backward prompts forward_fuel w (pop spans) (pop inputs)))
    unfolding pop
    begin-IsNext n w k ps [] [] c out links le fuel grads less =
        grads
        ∙ ap (λ j. back block gradient prompt_gradient j (e - j) out g) (sym links.0)
        ∙ ap (λ x. back block gradient prompt_gradient b (e - b) x g) (sym links.1)
    begin-IsNext n w k ps (s ∷ spans) (i ∷ inputs) c out links le fuel grads less =
        let after = IsChain-apply_blocks block s.end _ spans inputs c out links.3 in
        begin_some n w k ps (s ∷ spans) (i ∷ inputs) c out (omega (arith, after.0, links.1)) links
          le fuel grads less
    begin-IsNext n w k ps [] (_ ∷ _) c out links le fuel grads less = absurd links
    begin-IsNext n w k ps (_ ∷ _) [] c out links le fuel grads less = absurd links

    abbrev IsPrepared : Turn W H → Prepared W H → Type 0
    IsPrepared t no_forward_fuel = ⊥
    IsPrepared t (raises u) = ⊥
    IsPrepared t (ready u) =
        IsTurn u
        × (u.span.end ≡ t.span.end)
        × (outputs_of u ≡ outputs_of t)
        × (patience u.world ≤ patience t.world)

    after_forward-IsPrepared :
        (t : Turn W H) (r : Fallible ForwardError (Progress W H))
        → IsTurn t
        → IsForward swarm prompts block patience reliable t.span.start t.span.end t.inputs r
        → LeavesPatience swarm prompts block patience reliable (patience t.world) r
        → IsPrepared t (after_forward swarm run_remote_backward prompts forward_fuel t r)
    after_forward-IsPrepared t (err x) turn f left = absurd f
    after_forward-IsPrepared t (ok p) turn f left =
        let (at, same, links) = f in
        let (lengths, first, last) =
          IsChain-ends block t.span.start t.inputs p.done_sequences p.intermediate_inputs t.span.end
            p.inputs turn.some_blocks links in
        let past =
          IsChain-apply_blocks block b h t.forward_sequences t.intermediate_inputs t.span.start
            t.inputs turn.before in
        let l =
          IsChain-IsLast block b h (t.forward_sequences ++ p.done_sequences)
            (t.intermediate_inputs ++ p.intermediate_inputs) t.span.end p.inputs
            (omega (arith, past.0, turn.some_blocks))
            (IsChain-append block b t.span.start t.span.end h t.inputs p.inputs t.forward_sequences
              p.done_sequences t.intermediate_inputs p.intermediate_inputs turn.before links) in
        rw ((==_iff (length p.intermediate_inputs) (length p.done_sequences)).1 lengths) (
          rw first (
            rw last (
              rw (pop_turn-last_turn p.world _ _ t.span.end p.inputs l) (
                last_turn-IsTurn p.world _ _ t.span.end p.inputs l turn.within
                    (omega (arith, turn.enough, left)),
                l.at_end,
                sym l.outputs ∙ same,
                left,
              ))))

    prepare-IsPrepared :
        (n : ℕ) (t : Turn W H)
        → IsTurn t
        → IsPrepared t (prepare swarm run_remote_backward prompts forward_fuel n t)
    unfolding prepare
    prepare-IsPrepared zero t turn = (turn, refl, refl, omega arith)
    prepare-IsPrepared (suc n) t turn =
        let inner : leb t.span.end num_blocks ≡ true = ground (arith, turn.within, inside) in
        after_forward-IsPrepared t
          (sequential_forward swarm prompts forward_fuel t.world t.inputs t.span.start
            (some t.span.end))
          turn
          (sequential_forward-IsForward swarm prompts block patience reliable forward_fuel t.world
            t.inputs t.span.start t.span.end (omega (arith, turn.some_blocks)) inner
            (has.tensors t.inputs) prompts_fit (omega (arith, turn.enough, turn.within, inside)))
          (sequential_forward-LeavesPatience swarm prompts block patience reliable forward_fuel
            t.world t.inputs t.span.start t.span.end (omega (arith, turn.some_blocks)) inner
            (has.tensors t.inputs) prompts_fit)

    conclude-IsNext :
        (p : Pass W H P) (t : Turn W H) (r : Option (H × List P))
        → run_remote_backward t.world t.span t.inputs p.grad_outputs
            (slice t.span.start t.span.end prompts)
          ≡ r
        → IsTurn t
        → IsGradient t p.grad_outputs p.grad_prompts_reversed
        → IsNext (attempts_left t) (conclude swarm run_remote_backward prompts forward_fuel p t r)
    unfolding conclude
    conclude-IsNext p t none eq turn grads =
        let left =
          has.failure t.world t.span t.inputs p.grad_outputs turn.some_blocks
            (omega (arith, turn.within, inside)) eq in
        let spent =
          reliable.wait_after t.world t.span.peer_id
            (get_retry_delay swarm.min_backoff p.attempt_no) left in
        (
          record {
            before = turn.before;
            some_blocks = turn.some_blocks;
            within = turn.within;
            enough = omega (arith, spent, turn.enough);
          },
          grads,
          omega (arith, spent),
        )
    conclude-IsNext p t (some (k, ps)) eq turn grads =
        let kept = reliable.succeeds t.world t.span.peer_id in
        let (grad, single, added) =
          has.gradients t.world t.span t.inputs p.grad_outputs k ps turn.some_blocks
            (omega (arith, turn.within, inside)) eq in
        let reached =
          back-span block gradient prompt_gradient t.span.start t.span.end e t.inputs g k
            p.grad_outputs (rows_of rows ps) (rows_of rows (reverse p.grad_prompts_reversed))
            turn.some_blocks turn.within grads grad added in
        begin-IsNext (attempts_left t) _ k (p.grad_prompts_reversed ++ ps) t.forward_sequences
          t.intermediate_inputs t.span.start t.inputs turn.before
          (omega (arith, turn.some_blocks, turn.within)) (omega (arith, kept, turn.enough))
          (ap (λ l. (k, l)) (rows_of-reverse rows p.grad_prompts_reversed ps single) ∙ reached)
          (omega (arith, kept, turn.some_blocks))

    IsNext-le : (m n : ℕ) (r : Next W H P) → m ≤ n → IsNext m r → IsNext n r
    IsNext-le m n stuck le r = absurd r
    IsNext-le m n (again p) le r = (r.0, r.1, omega (arith, r.2))
    IsNext-le m n (finished x) le r = r

    call_server-IsNext :
        (p : Pass W H P) (r : Prepared W H)
        → IsPrepared p.turn r
        → IsGradient p.turn p.grad_outputs p.grad_prompts_reversed
        → IsNext
            (attempts_left p.turn)
            (call_server swarm run_remote_backward prompts forward_fuel p r)
    call_server-IsNext p no_forward_fuel ready_one grads = absurd ready_one
    call_server-IsNext p (raises t) ready_one grads = absurd ready_one
    call_server-IsNext p (ready t) (turn, at, same, left) grads =
        IsNext-le (attempts_left t) (attempts_left p.turn) _ (omega (arith, at, left)) (
          conclude-IsNext p t
            (run_remote_backward t.world t.span t.inputs p.grad_outputs
              (slice t.span.start t.span.end prompts))
            refl turn
            (grads
              ∙ ap
                  (λ x.
                    back block gradient prompt_gradient p.turn.span.end (e - p.turn.span.end) x g)
                  (sym same)
              ∙ ap (λ j. back block gradient prompt_gradient j (e - j) (outputs_of t) g) (sym at)))

    try_backward-IsNext :
        (p : Pass W H P)
        → IsTurn p.turn
        → IsGradient p.turn p.grad_outputs p.grad_prompts_reversed
        → IsNext
            (attempts_left p.turn)
            (try_backward swarm run_remote_backward prompts forward_fuel p)
    unfolding try_backward
    try_backward-IsNext p turn grads =
        call_server-IsNext p
          (prepare swarm run_remote_backward prompts forward_fuel p.attempt_no p.turn)
          (prepare-IsPrepared p.attempt_no p.turn turn) grads

    backward_loop-IsBackward :
        (fuel : ℕ) (r : Next W H P)
        → IsNext (fuel + 1) r
        → IsBackward rows block gradient prompt_gradient b e h g
            (backward_loop swarm run_remote_backward prompts forward_fuel fuel r)
    unfolding backward_loop
    backward_loop-IsBackward fuel (finished x) r = r
    backward_loop-IsBackward fuel stuck r = absurd r
    backward_loop-IsBackward zero (again p) (turn, grads, less) =
        absurd (omega (arith, less, turn.some_blocks))
    backward_loop-IsBackward (suc fuel) (again p) (turn, grads, less) =
        backward_loop-IsBackward fuel
          (try_backward swarm run_remote_backward prompts forward_fuel p)
          (IsNext-le (attempts_left p.turn) (fuel + 1) _ (omega (arith, less))
            (try_backward-IsNext p turn grads))

    -- A backward pass over the spans of a forward pass from block `b` to block `e`, each with its
    -- inputs. In the swarm, for blocks of the model, the manager, where it returns, returns a route,
    -- servers whose answers have the right shape have applied or propagated through their blocks
    -- and return at most one tensor of gradients of their prompts, attempts fail only while
    -- patience is left, and the wait after each failure takes some away; tensors have three
    -- dimensions, and there are prompts for all blocks of the model or none. With fuel for the
    -- patience and one attempt for each block, the pass returns. Its gradients are those of
    -- backpropagation through all the blocks, and the gradients of the prompts, put together, are
    -- those of the blocks in order, however often spans were replaced and their inputs computed
    -- anew on the way.
    pub sequential_backward-IsBackward :
        (fuel : ℕ) (w : W) (spans : List RemoteSpanInfo) (inputs : List H) (out : H)
        → IsChain block b h spans inputs e out
        → patience w + num_blocks ≤ forward_fuel
        → patience w + e ≤ fuel
        → IsBackward rows block gradient prompt_gradient b e h g (
            sequential_backward swarm run_remote_backward prompts forward_fuel fuel w g inputs
              spans)
    unfolding sequential_backward grad_blocks prompt_rows
    sequential_backward-IsBackward fuel w spans inputs out links enough fuel_left =
        let none_left : e - e ≡ 0 = omega arith in
        rw
          ((==_iff (length inputs) (length spans)).1
            (IsChain-length block b h spans inputs e out links))
          (backward_loop-IsBackward fuel _ (
            begin-IsNext (fuel + 1) w g [] spans inputs e out links (omega arith) enough
              (ap (λ n. back block gradient prompt_gradient e n out g) (sym none_left))
              (omega (arith, fuel_left))))
