-- ===== src/Client/Progress.antt =====
-- The attempts of a step: each uses up patience or goes on to the next server session.
use mathlib.Core.Path.{subst}
use mathlib.Core.Bool.{false≢true}
use petals_ai_refactor.Prelude.{
  ltb, leb, ◌==◌, ltb→lt, Bool-cases, length, Fallible, ok, ℕ, zero, suc, ◌+◌, ◌-◌, ◌≤◌, ◌<◌, ◌≡◌,
  refl, sym, ap, ◌∙◌, inl, inr, Bool, true, false, ◌||◌, List, [], arith,
}
use petals_ai_refactor.Client.Stream.{Servers}
use petals_ai_refactor.Client.Session.{
  InferenceSession, SessionError, Outcome, failed, succeeded, Attempted, Loop,
}
use petals_ai_refactor.Client.Retry.{
  renew, use_at, needs_renewal, attempt, conclude, next_attempt, attempt_loop,
}
use petals_ai_refactor.Client.Causal.{IsCausal}
use petals_ai_refactor.Client.Attempt.{Track}
use petals_ai_refactor.Client.Call.{IsReliable}
use petals_ai_refactor.Client.Use.{AfterUse, use_at-After}
use petals_ai_refactor.Client.Renewed.{AfterRenewal, renew-Track}
use petals_ai_refactor.Client.Keeps.{Keeps, renew-Keeps, use_at-Keeps}
use petals_ai_refactor.Routing.Manager.{get_retry_delay}

must_renew : (a b : Bool) (n : ℕ) → (a || b || leb 1 (n + 1)) ≡ false → false ≡ true
must_renew a b n h = ground arith

module _ {W X P K : Type 0} (servers : Servers W X P K) (hypo_ids : K) (block : ℕ → List X → List X)
    (causal : IsCausal block) (patience : W → ℕ)
    (reliable : IsReliable servers hypo_ids block patience) (old new : List X)
    (some_new : 0 < length new) (max_length : ℕ) where
  open servers use {num_blocks}

  pub record IsLoop (l : Loop W X) : Type 0 where
    pub ready : Bool
    pub track : Track block old new num_blocks ready l.session l.server_idx l.block_idx l.inputs
    pub used : needs_renewal servers [] hypo_ids l.session l.attempt_no ≡ false → ready ≡ true
    pub same_length : l.session.max_length ≡ max_length
    pub inside : l.block_idx ≤ num_blocks

  abbrev pub attempts_left : Loop W X → ℕ
  attempts_left l = patience l.session.world + (num_blocks - l.block_idx)

  -- a change of the world does not touch what a session holds
  Track-world :
      (ready : Bool) (s : InferenceSession W X) (w : W) (k b : ℕ) (inputs : List X)
      → Track block old new num_blocks ready s k b inputs
      → Track block old new num_blocks ready (record s { world = w }) k b inputs
  Track-world ready s w k b inputs t = record {
    spans_done = t.spans_done;
    sessions_done = t.sessions_done;
    stored_done = t.stored_done;
    spans_todo = t.spans_todo;
    sessions_todo = t.sessions_todo;
    stored_todo = t.stored_todo;
    frame = record {
      old_position = t.frame.old_position;
      still_open = t.frame.still_open;
      spans_split = t.frame.spans_split;
      sessions_split = t.frame.sessions_split;
      stored_split = t.frame.stored_split;
      spans_at = t.frame.spans_at;
      sessions_at = t.frame.sessions_at;
      stored_at = t.frame.stored_at;
      done = t.frame.done;
      some_inputs = t.frame.some_inputs;
    };
    todo = t.todo;
  }

  abbrev After : ℕ → ℕ → Attempted W X → Type 0
  After k b a = AfterUse servers hypo_ids block causal patience reliable old new some_new k b a

  renewed-After :
      (l : Loop W X) (r : Bool × InferenceSession W X)
      → l.block_idx < num_blocks
      → AfterRenewal servers hypo_ids block patience reliable old new l.session.world l.server_idx
          l.block_idx l.inputs r
      → Keeps servers hypo_ids l.session r.1
      → let a = use_at servers [] hypo_ids l.server_idx (length new) l.inputs r in
        After l.server_idx l.block_idx a × Keeps servers hypo_ids l.session a.session
  renewed-After l (ready, s) lt renewed kept =
      let later = use_at-Keeps servers hypo_ids l.server_idx (length new) l.inputs ready s in
      (
        use_at-After servers hypo_ids block causal patience reliable old new some_new ready s
            l.server_idx l.block_idx l.inputs lt
            (λ r. omega (arith, renewed.1 r, ap patience kept.0)) renewed.0,
        (later.0 ∙ kept.0, later.1 ∙ kept.1),
      )

  attempt-After :
      (l : Loop W X)
      → l.block_idx < num_blocks
      → IsLoop l
      → let a = attempt servers [] hypo_ids (length new) l in
        After l.server_idx l.block_idx a × Keeps servers hypo_ids l.session a.session
  unfolding attempt
  attempt-After l lt h =
      elim (Bool-cases (needs_renewal servers [] hypo_ids l.session l.attempt_no)) [
        | inl must ↦ rw must (
            renewed-After l (renew servers [] hypo_ids l.server_idx l.block_idx l.session) lt
              (renew-Track servers hypo_ids block patience reliable old new h.ready l.session
                l.server_idx l.block_idx l.inputs lt h.track)
              (renew-Keeps servers hypo_ids l.server_idx l.block_idx l.session))
        | inr may ↦ rw may (
            renewed-After l (true, l.session) lt
              (
                subst
                    (λ r.
                      Track block old new num_blocks r l.session l.server_idx l.block_idx l.inputs)
                    (h.used may) h.track,
                λ r. absurd (false≢true (sym r)),
              )
              (refl, refl))
      ]

  abbrev Advances : Loop W X → Loop W X → Type 0
  Advances l m =
      IsLoop m
      × (attempts_left m < attempts_left l)
      × (patience m.session.world ≤ patience l.session.world)

  conclude-Advances :
      (l : Loop W X) (s : InferenceSession W X) (inputs : List X) (outcome : Outcome X)
      → l.block_idx < num_blocks
      → IsLoop l
      → After l.server_idx l.block_idx (record { session = s; inputs = inputs; outcome = outcome })
      → Keeps servers hypo_ids l.session s
      → Advances l (conclude servers [] hypo_ids l s inputs outcome)
  conclude-Advances l s inputs (failed peer) lt h (some_left, t) kept =
      let spent =
        reliable.failure s.world peer (get_retry_delay servers.min_backoff l.attempt_no)
          some_left in
      let same = ap patience kept.0 in
      (
        record {
          ready = false;
          track = Track-world false s _ l.server_idx l.block_idx inputs t;
          used = λ may.
              must_renew (length s.chosen_spans == 0) (length s.server_sessions == 0) l.attempt_no
                may;
          same_length = kept.1 ∙ h.same_length;
          inside = h.inside;
        },
        omega (arith, spent, same),
        omega (arith, spent, same),
      )
  conclude-Advances l s inputs (succeeded span outputs) lt h (after, inside, t) kept =
      let kept_on = reliable.success s.world span.peer_id in
      let same = ap patience kept.0 in
      (
        record {
          ready = true;
          track = Track-world true s _ (l.server_idx + 1) span.end outputs t;
          used = λ _. refl;
          same_length = kept.1 ∙ h.same_length;
          inside = inside;
        },
        omega (arith, kept_on, same),
        omega (arith, kept_on, same),
      )

  next_attempt-Advances :
      (l : Loop W X)
      → l.block_idx < num_blocks
      → IsLoop l
      → Advances l (next_attempt servers [] hypo_ids (length new) l)
  unfolding next_attempt
  next_attempt-Advances l lt h =
      let a = attempt servers [] hypo_ids (length new) l in
      let (after, kept) = attempt-After l lt h in
      conclude-Advances l a.session a.inputs a.outcome lt h after kept

  -- With fuel for the failures and for the blocks that are left, both loops end, past the last block.
  abbrev pub Ends : Loop W X → Fallible SessionError (Loop W X) → Type 0
  Ends l r =
      (m : Loop W X) × (r ≡ ok m)
      × IsLoop m
      × (m.block_idx ≡ num_blocks)
      × (patience m.session.world ≤ patience l.session.world)

  pub attempt_loop-Ends :
      (fuel : ℕ) (l : Loop W X)
      → IsLoop l
      → attempts_left l ≤ fuel
      → Ends l (attempt_loop servers [] hypo_ids fuel (length new) l)
  unfolding attempt_loop
  attempt_loop-Ends zero l h le =
      let over : ltb l.block_idx num_blocks ≡ false = ground (arith, h.inside) in
      rw over (l, refl, h, omega (arith, h.inside), omega arith)
  attempt_loop-Ends (suc fuel) l h le = elim (Bool-cases (ltb l.block_idx num_blocks)) [
    | inl more ↦
        let lt : l.block_idx < num_blocks = ltb→lt l.block_idx num_blocks more in
        let (next, less, spent) = next_attempt-Advances l lt h in
        let (m, e, ended, at_end, left) =
          attempt_loop-Ends fuel (next_attempt servers [] hypo_ids (length new) l) next
            (omega arith) in
        rw more (m, e, ended, at_end, omega arith)
    | inr over ↦ rw over (l, refl, h, ground (arith, over, h.inside), omega arith)
  ]
