-- ===== src/Autograd/Recovery.antt =====
-- The forward pass in a swarm in which requests fail.
use mathlib.Core.Path.{subst}
use petals_ai_refactor.Prelude.{
  ltb, leb, ◌==◌, if◌then◌else◌, ltb→lt, Bool-cases, length, Fallible, err, ok, ℕ, zero, suc, ◌+◌,
  ◌-◌, ◌≤◌, ◌<◌, ◌≡◌, refl, sym, inl, inr, true, false, ◌||◌, Option, none, some, List, [], ◌∷◌,
  ◌++◌, arith,
}
use petals_ai_refactor.Autograd.Chain.{
  IsPath, IsClipped, clip_last-IsClipped, IsPath-head, apply_blocks, IsChain, IsChain-snoc,
  IsChain-apply_blocks,
}
use petals_ai_refactor.Autograd.Forward.{
  Swarm, Attempt, failed, succeeded, Progress, ForwardError, clip_last, find_path, call_first,
  try_span, advance, forward_loop, sequential_forward,
}
use petals_ai_refactor.Data.{PeerId, RemoteSpanInfo}
use petals_ai_refactor.Routing.Info.{slice}
use petals_ai_refactor.Routing.Route.{IsRoute}

module _ {W H P : Type 0} (swarm : Swarm W H P) (prompts : List P) (block : ℕ → H → H) where
  open swarm use {
    make_sequence, on_request_success, on_request_failure, sleep, run_remote_forward,
    has_three_dims, same_shape, num_blocks,
  }

  -- What the manager and the servers promise for blocks of the model: the manager, where it returns,
  -- returns a route, and a server whose answer has the right shape has applied the blocks of the
  -- span with their prompts. A state has a finite patience, a bound on how many attempts fail from
  -- there on: only where some is left does the manager raise, a request fail or an answer have
  -- another shape, the wait after a failure takes some away, and nothing gives any back.
  pub record IsReliable (patience : W → ℕ) : Type 0 where
    pub routes :
        (w : W) (b e : ℕ) (spans : List RemoteSpanInfo)
        → b < e
        → e ≤ num_blocks
        → make_sequence w b e ≡ some spans
        → IsRoute b e spans
    pub serves :
        (w : W) (s : RemoteSpanInfo) (h out : H)
        → s.start < s.end
        → s.end ≤ num_blocks
        → run_remote_forward w s h (slice s.start s.end prompts) ≡ some out
        → same_shape out h ≡ true
        → out ≡ apply_blocks block s.start (s.end - s.start) h
    pub no_route :
        (w : W) (b e : ℕ) → b < e → e ≤ num_blocks → make_sequence w b e ≡ none → 0 < patience w
    pub no_answer :
        (w : W) (s : RemoteSpanInfo) (h : H)
        → s.start < s.end
        → s.end ≤ num_blocks
        → run_remote_forward w s h (slice s.start s.end prompts) ≡ none
        → 0 < patience w
    pub misshapen :
        (w : W) (s : RemoteSpanInfo) (h out : H)
        → s.start < s.end
        → s.end ≤ num_blocks
        → run_remote_forward w s h (slice s.start s.end prompts) ≡ some out
        → same_shape out h ≡ false
        → 0 < patience w
    pub wait : (w : W) (delay : ℕ) → 0 < patience w → patience (sleep delay w) < patience w
    pub wait_after :
        (w : W) (peer : PeerId) (delay : ℕ)
        → 0 < patience w
        → patience (sleep delay (on_request_failure w peer)) < patience w
    pub succeeds : (w : W) (peer : PeerId) → patience (on_request_success w peer) ≤ patience w

  module _ (patience : W → ℕ) (reliable : IsReliable patience) where
    abbrev IsFound : W → ℕ → ℕ → Option (List RemoteSpanInfo) → Type 0
    IsFound w b e none = 0 < patience w
    IsFound w b e (some []) = ⊥
    IsFound w b e (some (s ∷ rest)) = IsPath b e (s ∷ rest)

    clipped-IsFound :
        (w : W) (b e : ℕ) (r : Option (List RemoteSpanInfo)) → IsClipped b e r → IsFound w b e r
    clipped-IsFound w b e none h = absurd h
    clipped-IsFound w b e (some []) h = h
    clipped-IsFound w b e (some (s ∷ rest)) h = h

    new_path-IsFound :
        (w : W) (b e : ℕ) (r : Option (List RemoteSpanInfo))
        → b < e
        → e ≤ num_blocks
        → make_sequence w b e ≡ r
        → IsFound w b e (elim r [ none ↦ none | some spans ↦ clip_last e spans ])
    new_path-IsFound w b e none lt le eq = reliable.no_route w b e lt le eq
    new_path-IsFound w b e (some spans) lt le eq =
        clipped-IsFound w b e (clip_last e spans)
          (clip_last-IsClipped b e spans lt (reliable.routes w b e spans lt le eq))

    find_path-IsFound :
        (w : W) (b e n : ℕ) (spans : List RemoteSpanInfo)
        → b < e
        → e ≤ num_blocks
        → IsPath b e spans
        → IsFound w b e (find_path swarm prompts w b e n spans)
    unfolding find_path
    find_path-IsFound w b e zero (s ∷ spans) lt le h = h
    find_path-IsFound w b e zero [] lt le h =
        new_path-IsFound w b e (make_sequence w b e) lt le refl
    find_path-IsFound w b e (suc n) spans lt le h =
        new_path-IsFound w b e (make_sequence w b e) lt le refl

    abbrev pub IsAttempt : W → ℕ → ℕ → H → Attempt H → Type 0
    IsAttempt w b e h (failed peer) = 0 < patience w
    IsAttempt w b e h (succeeded s rest out) =
        (s.start ≡ b)
        × (b < s.end)
        × (s.end ≤ e)
        × IsPath s.end e rest
        × (out ≡ apply_blocks block s.start (s.end - s.start) h)

    call_span-IsAttempt :
        (w : W) (b e : ℕ) (h : H) (s : RemoteSpanInfo) (rest : List RemoteSpanInfo) (r : Option H)
        → e ≤ num_blocks
        → IsPath b e (s ∷ rest)
        → run_remote_forward w s h (slice s.start s.end prompts) ≡ r
        → IsAttempt w b e h (elim r [
          | none ↦ failed (some s.peer_id)
          | some out ↦ if same_shape out h then succeeded s rest out else failed (some s.peer_id)
        ])
    call_span-IsAttempt w b e h s rest none inside path eq =
        let (start, lt, le, tail) = IsPath-head b e s rest path in
        reliable.no_answer w s h (omega arith) (omega arith) eq
    call_span-IsAttempt w b e h s rest (some out) inside path eq =
        let (start, lt, le, tail) = IsPath-head b e s rest path in
        elim (Bool-cases (same_shape out h)) [
          | inl same ↦
              let served = reliable.serves w s h out (omega arith) (omega arith) eq same in
              rw same (start, lt, le, tail, served)
          | inr other ↦ rw other (reliable.misshapen w s h out (omega arith) (omega arith) eq other)
        ]

    call_first-IsAttempt :
        (w : W) (b e : ℕ) (h : H) (r : Option (List RemoteSpanInfo))
        → e ≤ num_blocks
        → IsFound w b e r
        → IsAttempt w b e h (call_first swarm prompts w r h)
    call_first-IsAttempt w b e h none inside f = f
    call_first-IsAttempt w b e h (some []) inside f = absurd f
    call_first-IsAttempt w b e h (some (s ∷ rest)) inside f =
        call_span-IsAttempt w b e h s rest (run_remote_forward w s h (slice s.start s.end prompts))
          inside f refl

    -- What holds whenever the outer loop tests its condition.
    pub record IsOnTrack (start e : ℕ) (h : H) (p : Progress W H) : Type 0 where
      pub inside : e ≤ num_blocks
      pub bounded : p.block_idx ≤ e
      pub path : IsPath p.block_idx e p.sequences
      pub chain : IsChain block start h p.done_sequences p.intermediate_inputs p.block_idx p.inputs

    pub try_span-IsAttempt :
        (start e : ℕ) (h : H) (p : Progress W H)
        → p.block_idx < e
        → IsOnTrack start e h p
        → IsAttempt p.world p.block_idx e p.inputs (try_span swarm prompts e p)
    unfolding try_span
    try_span-IsAttempt start e h p lt t =
        call_first-IsAttempt p.world p.block_idx e p.inputs
          (find_path swarm prompts p.world p.block_idx e p.attempt_no p.sequences) t.inside
          (find_path-IsFound p.world p.block_idx e p.attempt_no p.sequences lt t.inside t.path)

    pub advance-IsOnTrack :
        (start e : ℕ) (h : H) (p : Progress W H) (a : Attempt H)
        → IsAttempt p.world p.block_idx e p.inputs a
        → IsOnTrack start e h p
        → IsOnTrack start e h (advance swarm prompts a p)
    unfolding advance
    advance-IsOnTrack start e h p (failed peer) a t = record {
      inside = t.inside;
      bounded = t.bounded;
      path = t.path;
      chain = t.chain;
    }
    advance-IsOnTrack start e h p (succeeded s rest out) (at, lt, le, tail, eq) t = record {
      inside = t.inside;
      bounded = le;
      path = tail;
      chain =
          subst
            (IsChain block start h (p.done_sequences ++ s ∷ [])
              (p.intermediate_inputs ++ p.inputs ∷ []) s.end)
            (sym eq)
            (IsChain-snoc block start h p.done_sequences p.intermediate_inputs s p.inputs
              (subst (λ b. IsChain block start h p.done_sequences p.intermediate_inputs b p.inputs)
                (sym at) t.chain)
              (omega arith));
    }

    fails-lt :
        (p : Progress W H) (peer : Option PeerId)
        → 0 < patience p.world
        → patience (advance swarm prompts (failed peer) p).world < patience p.world
    unfolding advance
    fails-lt p none some_left = reliable.wait p.world _ some_left
    fails-lt p (some peer) some_left = reliable.wait_after p.world peer _ some_left

    -- an attempt uses up patience, or brings the pass nearer to its end
    advance-lt :
        (e : ℕ) (p : Progress W H) (a : Attempt H)
        → IsAttempt p.world p.block_idx e p.inputs a
        → patience (advance swarm prompts a p).world + (e - (advance swarm prompts a p).block_idx)
          < patience p.world + (e - p.block_idx)
    unfolding advance
    advance-lt e p (failed peer) a = omega (arith, fails-lt p peer a)
    advance-lt e p (succeeded s rest out) (at, lt, le, tail, _) =
        omega (arith, reliable.succeeds p.world s.peer_id)

    pub advance-patience :
        (e : ℕ) (p : Progress W H) (a : Attempt H)
        → IsAttempt p.world p.block_idx e p.inputs a
        → patience (advance swarm prompts a p).world ≤ patience p.world
    unfolding advance
    advance-patience e p (failed peer) a = omega (arith, fails-lt p peer a)
    advance-patience e p (succeeded s rest out) a = reliable.succeeds p.world s.peer_id

    abbrev pub IsForward : ℕ → ℕ → H → Fallible ForwardError (Progress W H) → Type 0
    IsForward start e h (err x) = ⊥
    IsForward start e h (ok p) =
        (p.block_idx ≡ e)
        × (p.inputs ≡ apply_blocks block start (e - start) h)
        × IsChain block start h p.done_sequences p.intermediate_inputs e p.inputs

    end-IsForward :
        (start e : ℕ) (h : H) (p : Progress W H)
        → ltb p.block_idx e ≡ false
        → IsOnTrack start e h p
        → IsForward start e h (ok p)
    end-IsForward start e h p over t =
        let at : p.block_idx ≡ e = ground (arith, over, t.bounded) in
        let chain =
          subst (λ b. IsChain block start h p.done_sequences p.intermediate_inputs b p.inputs) at
            t.chain in
        (
          at,
          (IsChain-apply_blocks block start h p.done_sequences p.intermediate_inputs e p.inputs
              chain).1,
          chain,
        )

    forward_loop-IsForward :
        (fuel start e : ℕ) (h : H) (p : Progress W H)
        → patience p.world + (e - p.block_idx) ≤ fuel
        → IsOnTrack start e h p
        → IsForward start e h (forward_loop swarm prompts fuel e p)
    unfolding forward_loop
    forward_loop-IsForward zero start e h p enough t =
        let over : ltb p.block_idx e ≡ false = ground (arith, enough) in
        rw over (end-IsForward start e h p over t)
    forward_loop-IsForward (suc fuel) start e h p enough t = elim (Bool-cases (ltb p.block_idx e)) [
      | inr over ↦ rw over (end-IsForward start e h p over t)
      | inl more ↦
          let lt = ltb→lt p.block_idx e more in
          let a = try_span-IsAttempt start e h p lt t in
          let nearer = advance-lt e p (try_span swarm prompts e p) a in
          rw more (
            forward_loop-IsForward fuel start e h
              (advance swarm prompts (try_span swarm prompts e p) p) (omega arith)
              (advance-IsOnTrack start e h p (try_span swarm prompts e p) a t))
    ]

    -- A forward pass over the blocks from `start` up to `e`, with arguments that pass its
    -- assertions. In the swarm, for blocks of the model, the manager, where it returns, returns a
    -- route, and servers whose answers have the right shape have applied the blocks. The manager
    -- raises, a request fails or an answer has another shape only while patience is left, and the
    -- wait after each failure takes some away. With fuel for the patience of the first state and for
    -- one attempt for each block, the pass returns. Its outputs are those of all the blocks, each
    -- applied once and in order, and its spans join up from `start` to `e`, each with the inputs
    -- that it was given.
    pub sequential_forward-IsForward :
        (fuel : ℕ) (w : W) (h : H) (start e : ℕ)
        → start ≤ e
        → leb e num_blocks ≡ true
        → has_three_dims h ≡ true
        → (length prompts == 0 || length prompts == num_blocks) ≡ true
        → patience w + (e - start) ≤ fuel
        → IsForward start e h (sequential_forward swarm prompts fuel w h start (some e))
    unfolding sequential_forward
    sequential_forward-IsForward fuel w h start e le inside three right enough =
        let within : e ≤ num_blocks = ground (arith, inside) in
        rw three (
          rw inside (
            rw right (
              forward_loop-IsForward fuel start e h _ enough
                (record { inside = within; bounded = le; path = tt; chain = (refl, refl) }))))
