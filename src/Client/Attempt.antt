-- ===== src/Client/Attempt.antt =====
-- One call of a server session within a step.
use mathlib.Core.Bool.{false≢true}
use petals_ai_refactor.Prelude.{
  ◌==◌, ==_iff, length, length-append, ℕ, suc, ◌<◌, ◌≡◌, refl, sym, ap, ◌∙◌, ◌⊎◌, inl, inr, Bool,
  true, false, Option, none, some, List, [], ◌∷◌, ◌++◌, arith,
}
use petals_ai_refactor.Data.{RemoteSpanInfo}
use petals_ai_refactor.Client.Stream.{ServerSession, new_session}
use petals_ai_refactor.Client.Session.{InferenceSession, last_tokens, fed_inputs, lengths_agree}
use petals_ai_refactor.Client.Causal.{
  old_inputs, all_inputs, new_inputs, IsCausal, length-apply_blocks, length-all_inputs,
  old-new_inputs, last_tokens-either,
}
use petals_ai_refactor.Client.Track.{
  held_session, starts_fresh, IsHeld, IsHeld-not_fresh, IsRest, IsHeld-IsRest, IsRest-lengths,
}

module _ {X : Type 0} (block : ℕ → List X → List X) (old new : List X) (num_blocks : ℕ) where
  -- What is stored for the current session: nothing yet, its inputs for the old tokens, or those
  -- for all tokens, where an attempt has stored them.
  abbrev pub IsStored : ℕ → List X → Option (List X) → Type 0
  IsStored b inputs i =
      ((i ≡ none) × (inputs ≡ all_inputs block old new b))
      ⊎ ((i ≡ some (old_inputs block old new b)) ⊎ (i ≡ some (all_inputs block old new b)))

  abbrev pub IsReady : ℕ → RemoteSpanInfo → ServerSession X → Type 0
  IsReady b s c = (c ≡ new_session s) ⊎ (c ≡ held_session (old_inputs block old new b) s)

  -- The sessions from the current one on, which can be called if `ready`. There are none before the
  -- first step and after the last block.
  abbrev pub IsTodo :
      Bool
      → List RemoteSpanInfo
      → ℕ
      → List X
      → List RemoteSpanInfo
      → List (ServerSession X)
      → List (Option (List X))
      → Type 0
  IsTodo ready before b inputs [] [] [] =
      (b ≡ num_blocks) ⊎ ((ready ≡ false) × (before ≡ []) × (inputs ≡ all_inputs block old new b))
  IsTodo ready before b inputs (s ∷ spans) (c ∷ sessions) (i ∷ stored) =
      (s.start ≡ b)
      × (b < s.end)
      × IsStored b inputs i
      × (ready ≡ true → IsReady b s c × (starts_fresh stored ≡ true → c.stepped ≡ false))
      × IsRest block old s.end num_blocks spans sessions stored
  IsTodo ready before b inputs _ _ _ = ⊥

  -- The session within a step, before the server session `k`, at block `b`: the three lists, each
  -- split at `k`.
  pub record Frame {W : Type 0} (s : InferenceSession W X) (k b : ℕ) (inputs : List X)
      (spans_done : List RemoteSpanInfo) (sessions_done : List (ServerSession X))
      (stored_done : List (Option (List X))) (spans_todo : List RemoteSpanInfo)
      (sessions_todo : List (ServerSession X)) (stored_todo : List (Option (List X))) : Type 0 where
    pub old_position : s.position ≡ length old
    pub still_open : s.closed ≡ false
    pub spans_split : s.chosen_spans ≡ spans_done ++ spans_todo
    pub sessions_split : s.server_sessions ≡ sessions_done ++ sessions_todo
    pub stored_split : s.server_inputs ≡ stored_done ++ stored_todo
    pub spans_at : length spans_done ≡ k
    pub sessions_at : length sessions_done ≡ k
    pub stored_at : length stored_done ≡ k
    pub done : IsHeld block (old ++ new) 0 b spans_done sessions_done stored_done
    pub some_inputs : (inputs ≡ all_inputs block old new b) ⊎ (inputs ≡ new_inputs block old new b)

  pub record Track {W : Type 0} (ready : Bool) (s : InferenceSession W X) (k b : ℕ)
      (inputs : List X) : Type 0 where
    pub spans_done : List RemoteSpanInfo
    pub sessions_done : List (ServerSession X)
    pub stored_done : List (Option (List X))
    pub spans_todo : List RemoteSpanInfo
    pub sessions_todo : List (ServerSession X)
    pub stored_todo : List (Option (List X))
    pub frame :
        Frame s k b inputs spans_done sessions_done stored_done spans_todo sessions_todo stored_todo
    pub todo : IsTodo ready spans_done b inputs spans_todo sessions_todo stored_todo

  pub IsTodo-weaken :
      (ready : Bool) (before : List RemoteSpanInfo) (b : ℕ) (inputs : List X)
      (spans : List RemoteSpanInfo) (sessions : List (ServerSession X))
      (stored : List (Option (List X)))
      → IsTodo true before b inputs spans sessions stored
      → IsTodo ready before b inputs spans sessions stored
  IsTodo-weaken ready before b inputs [] [] [] (inl over) = inl over
  IsTodo-weaken ready before b inputs [] [] [] (inr h) = absurd (false≢true (sym h.0))
  IsTodo-weaken ready before b inputs (s ∷ spans) (c ∷ sessions) (i ∷ stored) h =
      (h.0, h.1, h.2, (λ r. h.3 refl), h.4)
  IsTodo-weaken ready before b inputs [] [] (_ ∷ _) h = absurd h
  IsTodo-weaken ready before b inputs [] (_ ∷ _) stored h = absurd h
  IsTodo-weaken ready before b inputs (_ ∷ _) [] stored h = absurd h
  IsTodo-weaken ready before b inputs (_ ∷ _) (_ ∷ _) [] h = absurd h

  IsTodo-lengths :
      (ready : Bool) (before : List RemoteSpanInfo) (b : ℕ) (inputs : List X)
      (spans : List RemoteSpanInfo) (sessions : List (ServerSession X))
      (stored : List (Option (List X)))
      → IsTodo ready before b inputs spans sessions stored
      → (length spans ≡ length sessions) × (length sessions ≡ length stored)
  IsTodo-lengths ready before b inputs [] [] [] h = (refl, refl)
  IsTodo-lengths ready before b inputs (s ∷ spans) (c ∷ sessions) (i ∷ stored) h =
      let same = IsRest-lengths block old s.end num_blocks spans sessions stored h.4 in
      (ap suc same.0, ap suc same.1)
  IsTodo-lengths ready before b inputs [] [] (_ ∷ _) h = absurd h
  IsTodo-lengths ready before b inputs [] (_ ∷ _) stored h = absurd h
  IsTodo-lengths ready before b inputs (_ ∷ _) [] stored h = absurd h
  IsTodo-lengths ready before b inputs (_ ∷ _) (_ ∷ _) [] h = absurd h

  -- so the assertion on the three lists holds
  pub Track-lengths_agree :
      {W : Type 0} (ready : Bool) (s : InferenceSession W X) (k b : ℕ) (inputs : List X)
      → Track ready s k b inputs
      → lengths_agree s ≡ true
  Track-lengths_agree ready s k b inputs t =
      let same =
        IsTodo-lengths ready t.spans_done b inputs t.spans_todo t.sessions_todo t.stored_todo
          t.todo in
      let spans = ap length t.frame.spans_split ∙ length-append t.spans_done t.spans_todo in
      let sessions =
        ap length t.frame.sessions_split ∙ length-append t.sessions_done t.sessions_todo in
      let stored = ap length t.frame.stored_split ∙ length-append t.stored_done t.stored_todo in
      let first : length s.chosen_spans ≡ length s.server_sessions =
        omega (arith, spans, sessions, same.0, t.frame.spans_at, t.frame.sessions_at) in
      let second : length s.server_sessions ≡ length s.server_inputs =
        omega (arith, sessions, stored, same.1, t.frame.sessions_at, t.frame.stored_at) in
      rw ((==_iff (length s.chosen_spans) (length s.server_sessions)).1 first)
        ((==_iff (length s.server_sessions) (length s.server_inputs)).1 second)

  -- What follows a session that was called, with its outputs as inputs.
  pub IsRest-IsTodo :
      (before : List RemoteSpanInfo) (b : ℕ) (outputs : List X) (spans : List RemoteSpanInfo)
      (sessions : List (ServerSession X)) (stored : List (Option (List X)))
      → (starts_fresh stored ≡ true → outputs ≡ all_inputs block old new b)
      → IsRest block old b num_blocks spans sessions stored
      → IsTodo true before b outputs spans sessions stored
  IsRest-IsTodo before b outputs [] [] [] whole h = inl h
  IsRest-IsTodo before b outputs (s ∷ spans) (c ∷ sessions) (none ∷ stored) whole h = (
    h.0,
    h.1,
    inl (refl, whole refl),
    (λ r. (inl h.2, λ fresh. ap (λ (c : ServerSession X). c.stepped) h.2)),
    h.3,
  )
  IsRest-IsTodo before b outputs (s ∷ spans) (c ∷ sessions) (some i ∷ stored) whole h = (
    h.0,
    h.1,
    inr (inl h.3),
    (λ r. (
      inr h.2,
      λ fresh. absurd (
          false≢true
            (sym (IsHeld-not_fresh block old s.end num_blocks spans sessions stored h.4) ∙ fresh)),
    )),
    IsHeld-IsRest block old s.end num_blocks spans sessions stored h.4,
  )
  IsRest-IsTodo before b outputs [] [] (_ ∷ _) whole h = absurd h
  IsRest-IsTodo before b outputs [] (_ ∷ _) stored whole h = absurd h
  IsRest-IsTodo before b outputs (_ ∷ _) [] stored whole h = absurd h
  IsRest-IsTodo before b outputs (_ ∷ _) (_ ∷ _) [] whole h = absurd h

  -- the inputs that the session is to have been sent are all of them
  pub fed_inputs-all_inputs :
      (causal : IsCausal block) (b : ℕ) (inputs : List X) (i : Option (List X))
      → 0 < length new
      → IsStored b inputs i
      → (inputs ≡ all_inputs block old new b) ⊎ (inputs ≡ new_inputs block old new b)
      → fed_inputs (length old) (length new) inputs i ≡ all_inputs block old new b
  fed_inputs-all_inputs causal b inputs i lt (inl (nothing, whole)) either =
      ap (fed_inputs (length old) (length new) inputs) nothing ∙ whole
  fed_inputs-all_inputs causal b inputs i lt (inr (inl past)) either =
      let same : (length (old_inputs block old new b) == length old) ≡ true =
        (==_iff (length (old_inputs block old new b)) (length old)).1
          (length-apply_blocks block causal 0 b old) in
      let last : last_tokens (length new) inputs ≡ new_inputs block old new b =
        last_tokens-either block causal old new b inputs lt either in
      ap (fed_inputs (length old) (length new) inputs) past
      ∙ rw same (rw last (old-new_inputs block causal old new b))
  fed_inputs-all_inputs causal b inputs i lt (inr (inr all)) either =
      let n = length-all_inputs block causal old new b in
      let differ : (length (all_inputs block old new b) == length old) ≡ false =
        ground (arith, n) in
      ap (fed_inputs (length old) (length new) inputs) all ∙ rw differ refl
