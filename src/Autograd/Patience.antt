-- ===== src/Autograd/Patience.antt =====
-- A forward pass gives back no patience.
use petals_ai_refactor.Prelude.{
  ltb, leb, ◌==◌, ltb→lt, Bool-cases, length, Fallible, err, ok, ℕ, zero, suc, ◌≤◌, ◌≡◌, refl, inl,
  inr, true, ◌||◌, some, List, arith,
}
use petals_ai_refactor.Autograd.Forward.{
  Swarm, Progress, ForwardError, try_span, advance, forward_loop, sequential_forward,
}
use petals_ai_refactor.Autograd.Recovery.{
  IsOnTrack, IsReliable, try_span-IsAttempt, advance-IsOnTrack, advance-patience,
}

module _ {W H P : Type 0} (swarm : Swarm W H P) (prompts : List P) (block : ℕ → H → H)
    (patience : W → ℕ) (reliable : IsReliable swarm prompts block patience) where
  open swarm use {has_three_dims, num_blocks}

  -- the state that a pass leaves, where it returns
  abbrev pub LeavesPatience : ℕ → Fallible ForwardError (Progress W H) → Type 0
  LeavesPatience n (err e) = Unit
  LeavesPatience n (ok p) = patience p.world ≤ n

  LeavesPatience-le :
      (m n : ℕ) (r : Fallible ForwardError (Progress W H))
      → m ≤ n
      → LeavesPatience m r
      → LeavesPatience n r
  LeavesPatience-le m n (err e) le h = tt
  LeavesPatience-le m n (ok p) le h = omega (arith, le, h)

  forward_loop-LeavesPatience :
      (fuel start e : ℕ) (h : H) (p : Progress W H)
      → IsOnTrack swarm prompts block patience reliable start e h p
      → LeavesPatience (patience p.world) (forward_loop swarm prompts fuel e p)
  unfolding forward_loop
  forward_loop-LeavesPatience zero start e h p t = elim (Bool-cases (ltb p.block_idx e)) [
    | inl more ↦ rw more tt
    | inr over ↦ rw over (omega arith)
  ]
  forward_loop-LeavesPatience (suc fuel) start e h p t = elim (Bool-cases (ltb p.block_idx e)) [
    | inl more ↦
        let a = try_span swarm prompts e p in
        let made =
          try_span-IsAttempt swarm prompts block patience reliable start e h p
            (ltb→lt p.block_idx e more) t in
        rw more (
          LeavesPatience-le (patience (advance swarm prompts a p).world) (patience p.world)
            (forward_loop swarm prompts fuel e (advance swarm prompts a p))
            (advance-patience swarm prompts block patience reliable e p a made)
            (forward_loop-LeavesPatience fuel start e h (advance swarm prompts a p)
              (advance-IsOnTrack swarm prompts block patience reliable start e h p a made t)))
    | inr over ↦ rw over (omega arith)
  ]

  pub sequential_forward-LeavesPatience :
      (fuel : ℕ) (w : W) (h : H) (start e : ℕ)
      → start ≤ e
      → leb e num_blocks ≡ true
      → has_three_dims h ≡ true
      → (length prompts == 0 || length prompts == num_blocks) ≡ true
      → LeavesPatience (patience w) (sequential_forward swarm prompts fuel w h start (some e))
  unfolding sequential_forward
  sequential_forward-LeavesPatience fuel w h start e le inside three right =
      let within : e ≤ num_blocks = ground (arith, inside) in
      rw three (
        rw inside (
          rw right (
            forward_loop-LeavesPatience fuel start e h _
              (record { inside = within; bounded = le; path = tt; chain = (refl, refl) }))))
