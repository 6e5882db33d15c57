-- ===== src/Tests/ClientTests.antt =====
-- A swarm of three blocks, of which each replaces a token by the sum of the tokens so far and of its
-- number. A server of the later blocks drops a session that has gone on for a step, as long as the
-- state, which counts these failures, is not zero.
use mathlib.Core.Path.{subst}
use petals_ai_refactor.Prelude.{
  ltb, if◌then◌else◌, ltb→lt, Bool-cases, length, take, drop, Fallible, err, ok, ℕ, zero, suc, ◌+◌,
  ◌-◌, ◌<◌, ◌≡◌, refl, sym, ap, inl, inr, Bool, true, false, Option, none, some, List, [], ◌∷◌,
  ◌++◌, arith,
}
use petals_ai_refactor.Data.{PeerId, RemoteSpanInfo}
use petals_ai_refactor.Client.Stream.{Servers}
use petals_ai_refactor.Client.Session.{InferenceSession, SessionError, new_inference_session}
use petals_ai_refactor.Client.Retry.{punish, step}
use petals_ai_refactor.Client.Causal.{IsCausal}
use petals_ai_refactor.Client.Call.{IsReliable}
use petals_ai_refactor.Client.Replay.{HoldsTokens}
use petals_ai_refactor.Client.Steps.{run_steps, run_steps-apply_blocks}
use petals_ai_refactor.Routing.Route.{IsRoute}
use petals_ai_refactor.Autograd.Chain.{apply_blocks}

abbrev sums : ℕ → List ℕ → List ℕ
sums total [] = []
sums total (x ∷ xs) = (total + x) ∷ sums (total + x) xs

abbrev block : ℕ → List ℕ → List ℕ
block i xs = sums i xs

length-sums : (total : ℕ) (xs : List ℕ) → length (sums total xs) ≡ length xs
length-sums total [] = refl
length-sums total (x ∷ xs) = ap suc (length-sums (total + x) xs)

take-sums : (total : ℕ) (xs ys : List ℕ) → take (length xs) (sums total (xs ++ ys)) ≡ sums total xs
take-sums total [] ys = refl
take-sums total (x ∷ xs) ys = ap (λ l. (total + x) ∷ l) (take-sums (total + x) xs ys)

block-IsCausal : IsCausal block
block-IsCausal = record { keeps_length = length-sums; keeps_past = take-sums }

abbrev outputs_of : RemoteSpanInfo → List ℕ → List ℕ → List ℕ
outputs_of s sent new =
    drop (length sent) (apply_blocks block s.start (s.end - s.start) (sent ++ new))

abbrev answer : ℕ → RemoteSpanInfo → List ℕ → List ℕ → Option (List ℕ)
answer (suc failures) s (x ∷ sent) new =
    if ltb 0 s.start then none else some (outputs_of s (x ∷ sent) new)
answer zero s (x ∷ sent) new = some (outputs_of s (x ∷ sent) new)
answer failures s [] new = some (outputs_of s [] new)

-- the first block of a route has a server of its own where it does not have to serve alone
abbrev route : ℕ → ℕ → ℕ → List RemoteSpanInfo
route w b e =
    if ltb (b + 1) e
    then record { start = b; end = b + 1; peer_id = w }
      ∷ record { start = b + 1; end = e; peer_id = w + 10 }
      ∷ []
    else record { start = b; end = e; peer_id = w } ∷ []

abbrev swarm : Servers ℕ ℕ ℕ ℕ
swarm = record {
  make_sequence = λ w b e. some (route w b e);
  on_request_success = λ w peer. w;
  on_request_failure = λ w peer. w;
  connects = λ w s. true;
  closes = λ w c. false;
  respond = λ w s sent new ps k. answer w s sent new;
  prompt_fits = λ p new. true;
  hypo_fits = λ k new. true;
  same_shape = λ xs ys. true;
  sleep = λ delay w. w - 1;
  min_backoff = 1;
  num_blocks = 3;
}

abbrev outputs_only :
    Fallible SessionError (List ℕ × InferenceSession ℕ ℕ) → Fallible SessionError (List ℕ)
outputs_only (ok r) = ok r.0
outputs_only (err e) = err e

abbrev two_steps : Fallible SessionError (List ℕ × InferenceSession ℕ ℕ)
two_steps = run_steps swarm 0 6 (new_inference_session 3 8) ((1 ∷ 2 ∷ []) ∷ (3 ∷ []) ∷ [])

route-IsRoute : (w b e : ℕ) → b < e → IsRoute b e (route w b e)
route-IsRoute w b e lt = elim (Bool-cases (ltb (b + 1) e)) [
  | inl more ↦
      rw more
        (refl, omega arith, lt, (refl, ltb→lt (b + 1) e more, ltb→lt (b + 1) e more, omega arith))
  | inr no_more ↦ rw no_more (refl, lt, lt, omega arith)
]

some_inj : {A : Type 0} (x y : A) → some x ≡ some y → y ≡ x
some_inj x y e = cc

if_some :
    {A : Type 0} (refused : Bool) (x y : A) → (if refused then none else some x) ≡ some y → y ≡ x
if_some true x y e = cc
if_some false x y e = some_inj x y e

answer-outputs_of :
    (w : ℕ) (s : RemoteSpanInfo) (sent new outputs : List ℕ)
    → answer w s sent new ≡ some outputs
    → outputs ≡ outputs_of s sent new
answer-outputs_of (suc w) s (x ∷ sent) new outputs e =
    if_some (ltb 0 s.start) (outputs_of s (x ∷ sent) new) outputs e
answer-outputs_of zero s (x ∷ sent) new outputs e = some_inj _ _ e
answer-outputs_of zero s [] new outputs e = some_inj _ _ e
answer-outputs_of (suc w) s [] new outputs e = some_inj _ _ e

answer-none : (w : ℕ) (s : RemoteSpanInfo) (sent new : List ℕ) → answer w s sent new ≡ none → 0 < w
answer-none (suc w) s sent new e = omega arith
answer-none zero s (x ∷ sent) new e = cc
answer-none zero s [] new e = cc

punish_lem : (w : ℕ) (peer : Option PeerId) → punish swarm [] 0 w peer ≡ w
punish_lem w none = refl
punish_lem w (some peer) = refl

swarm-IsReliable : IsReliable swarm 0 block (λ w. w)
swarm-IsReliable = record {
  routes =
      λ w b e spans lt eq. subst (IsRoute b e) (sym (some_inj _ _ eq)) (route-IsRoute w b e lt);
  answers = λ w s sent new outputs lt eq. answer-outputs_of w s sent new outputs eq;
  shapes = λ w s sent new outputs eq. (refl, refl);
  hypotheses = λ new. refl;
  no_route = λ w b e lt le eq. cc;
  no_connection = λ w s eq. cc;
  no_answer = answer-none;
  failure = λ w peer delay lt. omega (arith, lt, punish_lem w peer);
  success = λ w peer. omega arith;
}

-- the server of the later blocks is called anew in the second step
two_steps_test : outputs_only two_steps ≡ ok (apply_blocks block 0 3 (1 ∷ 2 ∷ 3 ∷ []))
unfolding run_steps step apply_blocks
two_steps_test = refl

run_steps-apply_blocks_example :
    (t : InferenceSession ℕ ℕ) × (run_steps swarm 0 6
        (new_inference_session 3 8)
        ((1 ∷ 2 ∷ []) ∷ (3 ∷ []) ∷ [])
      ≡ ok (apply_blocks block 0 3 (1 ∷ 2 ∷ 3 ∷ []), t))
    × HoldsTokens swarm block (1 ∷ 2 ∷ 3 ∷ []) 8 t
run_steps-apply_blocks_example =
    run_steps-apply_blocks swarm 0 block block-IsCausal (λ w. w) swarm-IsReliable 6 8 3
      ((1 ∷ 2 ∷ []) ∷ (3 ∷ []) ∷ []) (omega arith, (omega arith, tt)) (omega arith) (omega arith)
