-- ===== src/Handler/SessionBounds.antt =====
-- The intervals of the attention cache that the steps of a session write.
use mathlib.Core.Path.{subst}
use petals_ai_refactor.Prelude.{
  leb, ◌==◌, leb→le, ==_iff, Bool-cases, length, err, ok, ◌>>=◌, ◌>>◌, guard, ℕ, ◌+◌, ◌≤◌, ◌≡◌,
  refl, sym, ap, ◌∙◌, inl, inr, Bool, true, false, not, Option, none, some, List, [], ◌∷◌, ◌++◌,
  arith,
}
use petals_ai_refactor.Data.{ModuleUid}
use petals_ai_refactor.Handler.Errors.{
  HandlerError, no_blocks, cannot_allocate, prompts_mismatch, length_exceeded, bad_hypo_dtype,
  not_three_dims, cache_mismatch, Result, Value, negative_int, int_value,
}
use petals_ai_refactor.Handler.Session.{
  Hidden, is_dummy, Step, Request, Incoming, request, timed_out, InferenceMetadata, Environment,
  Call, Trace, parse_prompts, zip_infos, dim_one, has_three, failure, int_of, submit_step, run_step,
  prepend, respond, session_loop, open_session, run_session, rpc_inference,
}
use petals_ai_refactor.Handler.Uids.{is_nil, check_uids, IsChain, check_uids-IsChain}

-- The calls and the responses of a session from a prefix on. A step that is spared the call has
-- empty hidden states. A call is for all blocks of the session with their handles, it starts at
-- the prefix and ends within the allocated length. The prefix goes on by the tokens of each step, so
-- that a call starts where the steps before it end.
pub data CallsFit {X : Type 0} (uids : List ModuleUid) (handles : List (List ℕ)) (m : ℕ)
    : ℕ → List Call → List (Hidden X) → Type 0 where
  ended : (p : ℕ) → CallsFit uids handles m p [] []
  spared :
      (p n : ℕ) (out : Hidden X) (calls : List Call) (outs : List (Hidden X))
      → is_dummy out ≡ true
      → dim_one out.shape ≡ ok n
      → p + n ≤ m
      → CallsFit uids handles m (p + n) calls outs
      → CallsFit uids handles m p calls (out ∷ outs)
  called :
      (p n : ℕ) (c : Call) (out : Hidden X) (calls : List Call) (outs : List (Hidden X))
      → dim_one c.shape ≡ ok n
      → dim_one out.shape ≡ ok n
      → p + n ≤ m
      → c.infos ≡ zip_infos p uids handles
      → CallsFit uids handles m (p + n) calls outs
      → CallsFit uids handles m p (c ∷ calls) (out ∷ outs)

module _ {X P : Type 0} (env : Environment X P) where
  -- What the pool is documented to do: its output has as many tokens as its inputs.
  abbrev pub KeepsLength : Type 0
  KeepsLength =
      (h : Hidden X) (hypo : List ℕ) (infos : List InferenceMetadata) (ps : List (Option P))
      (out : Hidden X)
      → env.run_inference h hypo infos ps ≡ ok out
      → dim_one out.shape ≡ dim_one h.shape

  -- What a step that does not raise has done.
  abbrev StepFits : List ModuleUid → List (List ℕ) → ℕ → ℕ → Result (List Call × Hidden X) → Type 0
  StepFits uids handles m p (err e) = Unit
  StepFits uids handles m p (ok (calls, out)) =
      (n : ℕ) × (dim_one out.shape ≡ ok n)
      × ((rest : List Call) (outs : List (Hidden X))
          → CallsFit uids handles m (p + n) rest outs
          → CallsFit uids handles m p (calls ++ rest) (out ∷ outs))

  submit-StepFits :
      (uids : List ModuleUid) (handles : List (List ℕ)) (m p n : ℕ) (step : Step X P)
      (ps : List (Option P))
      → KeepsLength
      → dim_one step.hidden_states.shape ≡ ok n
      → p + n ≤ m
      → StepFits uids handles m p (submit_step env step (zip_infos p uids handles) ps)
  unfolding submit_step
  submit-StepFits uids handles m p n step ps keeps e le =
      elim (Bool-cases (is_dummy step.hidden_states)) [
        | inl empty ↦
            rw empty (n, e, λ rest outs h. spared p n step.hidden_states rest outs empty e le h)
        | inr full ↦ rw full (guarded (has_three step.hidden_states.shape))
      ]
    where
      infos : List InferenceMetadata
      infos = zip_infos p uids handles

      outcome :
          (r : Result (Hidden X))
          → env.run_inference step.hidden_states step.hypo_ids infos ps ≡ r
          → StepFits uids handles m p (
              r >>= λ out.
              ok (record { shape = step.hidden_states.shape; infos = infos } ∷ [], out))
      outcome (err x) q = tt
      outcome (ok out) q = (
        n,
        keeps step.hidden_states step.hypo_ids infos ps out q ∙ e,
        λ rest outs h.
            called p n (record { shape = step.hidden_states.shape; infos = infos }) out rest outs e
              (keeps step.hidden_states step.hypo_ids infos ps out q ∙ e) le refl h,
      )

      guarded :
          (b : Bool)
          → StepFits uids handles m p (
              guard b not_three_dims
              >> (env.run_inference step.hidden_states step.hypo_ids infos ps >>= λ out.
                  ok (record { shape = step.hidden_states.shape; infos = infos } ∷ [], out)))
      guarded false = tt
      guarded true = outcome (env.run_inference step.hidden_states step.hypo_ids infos ps) refl

  StepFits-guard :
      (uids : List ModuleUid) (handles : List (List ℕ)) (m p : ℕ) (b : Bool) (e : HandlerError)
      (k : Result (List Call × Hidden X))
      → (b ≡ true → StepFits uids handles m p k)
      → StepFits uids handles m p (guard b e >> k)
  StepFits-guard uids handles m p true e k h = h refl
  StepFits-guard uids handles m p false e k h = tt

  run_step-StepFits :
      (uids : List ModuleUid) (handles : List (List ℕ)) (m p : ℕ) (step : Step X P)
      → KeepsLength
      → StepFits uids handles m p (run_step env uids handles m p step)
  unfolding run_step
  run_step-StepFits uids handles m p step keeps =
      StepFits-guard uids handles m p step.hypo_is_int64 bad_hypo_dtype _ λ _.
        StepFits-guard uids handles m p _ prompts_mismatch _
          λ _. sized (dim_one step.hidden_states.shape) refl
    where
      ps : List (Option P)
      ps = parse_prompts (length uids) step.prompts

      sized :
          (r : Result ℕ)
          → dim_one step.hidden_states.shape ≡ r
          → StepFits uids handles m p (
              r >>= λ n.
              guard (leb (p + n) m) length_exceeded
              >> submit_step env step (zip_infos p uids handles) ps)
      sized (err e) q = tt
      sized (ok n) q =
          StepFits-guard uids handles m p (leb (p + n) m) length_exceeded _
            λ fits. submit-StepFits uids handles m p n step ps keeps q (leb→le (p + n) m fits)

  -- The calls and responses of a session fit from a prefix on.
  abbrev pub TraceFits : List ModuleUid → List (List ℕ) → ℕ → ℕ → Trace X → Type 0
  TraceFits uids handles m p t = CallsFit uids handles m p t.calls t.responses

  respond-TraceFits :
      (uids : List ModuleUid) (handles : List (List ℕ)) (m p : ℕ)
      (r : Result (List Call × Hidden X)) (next : ℕ → Trace X)
      → StepFits uids handles m p r
      → ((n : ℕ) → TraceFits uids handles m (p + n) (next n))
      → TraceFits uids handles m p (respond env r next)
  respond-TraceFits uids handles m p (err e) next s h = ended p
  respond-TraceFits uids handles m p (ok (calls, out)) next s h = respond_at (dim_one out.shape) s.1
    where
      respond_at :
          (d : Result ℕ)
          → d ≡ ok s.0
          → TraceFits uids handles m p (elim d as (λ _. Trace X) [
            | err e ↦ prepend env calls out (failure e)
            | ok n ↦ prepend env calls out (next n)
          ])
      respond_at (err e) q = cc
      respond_at (ok n) q =
          let same : n ≡ s.0 = cc in
          subst (λ k. TraceFits uids handles m p (prepend env calls out (next k))) (sym same)
            (s.2 (next s.0).calls (next s.0).responses (h s.0))

  session_loop-TraceFits :
      (uids : List ModuleUid) (handles : List (List ℕ)) (m p : ℕ) (step : Option (Step X P))
      (rest : List (Incoming X P))
      → KeepsLength
      → TraceFits uids handles m p (session_loop env uids handles m p step rest)
  unfolding session_loop
  session_loop-TraceFits uids handles m p none rest keeps = ended p
  session_loop-TraceFits uids handles m p (some step) [] keeps =
      respond-TraceFits uids handles m p (run_step env uids handles m p step) _
        (run_step-StepFits uids handles m p step keeps) λ n. ended (p + n)
  session_loop-TraceFits uids handles m p (some step) (timed_out ∷ rest) keeps =
      respond-TraceFits uids handles m p (run_step env uids handles m p step) _
        (run_step-StepFits uids handles m p step keeps) λ n. ended (p + n)
  session_loop-TraceFits uids handles m p (some step) (request r ∷ rest) keeps =
      respond-TraceFits uids handles m p (run_step env uids handles m p step) _
        (run_step-StepFits uids handles m p step keeps)
        λ n. session_loop-TraceFits uids handles m (p + n) r.step rest keeps

  -- What opening a session establishes.
  abbrev pub IsOpen : Request X P → Result (List ModuleUid × ℕ × List (List ℕ)) → Type 0
  IsOpen r (err e) = Unit
  IsOpen r (ok (uids, m, handles)) =
      IsChain env.serves r.uid uids
      × (m ≤ env.inference_max_length)
      × (r.max_length ≡ int_value m)
      × (env.allocate_cache uids r.batch_size m ≡ ok handles)
      × (length handles ≡ length uids)

  bind-IsOpen :
      {A : Type 0} (r : Request X P) (m : Result A)
      (f : A → Result (List ModuleUid × ℕ × List (List ℕ)))
      → ((a : A) → m ≡ ok a → IsOpen r (f a))
      → IsOpen r (m >>= f)
  bind-IsOpen r (ok a) f h = h a refl
  bind-IsOpen r (err e) f h = tt

  guard-IsOpen :
      (r : Request X P) (b : Bool) (e : HandlerError)
      (k : Result (List ModuleUid × ℕ × List (List ℕ)))
      → (b ≡ true → IsOpen r k)
      → IsOpen r (guard b e >> k)
  guard-IsOpen r true e k h = h refl
  guard-IsOpen r false e k h = tt

  int_of_lem : (v points : Value) (n : ℕ) → int_of v points ≡ ok n → v ≡ int_value n
  unfolding int_of
  int_of_lem (int_value k) points n h = ground arith
  int_of_lem negative_int points n h = ground arith
  int_of_lem _ points n h = ground arith

  open_session-IsOpen : (r : Request X P) → IsOpen r (open_session env r)
  unfolding open_session
  open_session-IsOpen r = bind-IsOpen r (check_uids env.serves r.uid) _ λ uids checked.
      guard-IsOpen r (not (is_nil uids)) no_blocks _ λ _.
        bind-IsOpen r (int_of r.max_length r.points) _ λ m length_given.
          guard-IsOpen r (leb m env.inference_max_length) cannot_allocate _ λ allowed.
            bind-IsOpen r (env.allocate_cache uids r.batch_size m) _ λ handles allocated.
              guard-IsOpen r (length handles == length uids) cache_mismatch _ λ matched. (
                (check_uids-IsChain env.serves r.uid).0 uids checked,
                leb→le m env.inference_max_length allowed,
                int_of_lem r.max_length r.points m length_given,
                allocated,
                (==_iff (length handles) (length uids)).0 matched,
              )

  -- What a session from its first request on is, by how it opens.
  abbrev pub SessionFits :
      Request X P → List (Incoming X P) → Result (List ModuleUid × ℕ × List (List ℕ)) → Type 0
  SessionFits r rest (err e) = rpc_inference env (request r ∷ rest) ≡ failure e
  SessionFits r rest (ok (uids, m, handles)) =
      IsOpen r (ok (uids, m, handles))
      × TraceFits uids handles m 0 (rpc_inference env (request r ∷ rest))

  -- A session whose pool keeps the number of tokens. If it cannot be opened, it makes no call and
  -- sends no response. Otherwise its blocks are those that the first request names, all of them
  -- served, its length is that of the request and at most the server's, and each block has the
  -- handles that were allocated for this length and the request's batch size. Each step that is
  -- answered either has empty hidden states and makes no call, or makes one call, which starts
  -- where the tokens of the answers before it end, and ends within that length.
  pub rpc_inference_lem :
      (r : Request X P) (rest : List (Incoming X P))
      → KeepsLength
      → SessionFits r rest (open_session env r)
  unfolding rpc_inference
  rpc_inference_lem r rest keeps = opened (open_session env r) refl (open_session-IsOpen r)
    where
      opened :
          (o : Result (List ModuleUid × ℕ × List (List ℕ)))
          → open_session env r ≡ o
          → IsOpen r o
          → SessionFits r rest o
      opened (err e) q h = ap (λ o. run_session env o r.step rest) q
      opened (ok (uids, m, handles)) q h = (
        h,
        subst (λ o. TraceFits uids handles m 0 (run_session env o r.step rest)) (sym q)
            (session_loop-TraceFits uids handles m 0 r.step rest keeps),
      )
