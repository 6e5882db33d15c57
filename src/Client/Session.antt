-- ===== src/Client/Session.antt =====
-- `InferenceSession` of client/inference_session.py. Its three lists are indexed alike; an index
-- out of range and a failed assertion are exceptions, which the retry loop catches.
use petals_ai_refactor.Prelude.{
  ltb, ◌==◌, if◌then◌else◌, length, get_elem?, drop, replicate, ℕ, zero, suc, ◌-◌, Bool, true,
  false, ◌&&◌, Option, none, some, List, [], ◌∷◌, ◌++◌,
}
use petals_ai_refactor.Data.{PeerId, RemoteSpanInfo}
use petals_ai_refactor.Client.Stream.{ServerSession, Servers, close_stream}

pub record InferenceSession (W X : Type 0) : Type 0 where
  pub world : W
  pub closed : Bool
  pub chosen_spans : List RemoteSpanInfo
  pub server_sessions : List (ServerSession X)
  pub server_inputs : List (Option (List X))
  pub position : ℕ
  pub max_length : ℕ

pub data SessionError : Type 0 where
  session_closed bad_prompts length_exceeded out_of_fuel : SessionError

abbrev pub new_inference_session : {W X : Type 0} → W → ℕ → InferenceSession W X
new_inference_session w max_length = record {
  world = w;
  closed = false;
  chosen_spans = [];
  server_sessions = [];
  server_inputs = [];
  position = 0;
  max_length = max_length;
}

-- `xs[k : k + 1] = ys`
unfoldable pub splice {ℓ} : {A : Type ℓ} → ℕ → List A → List A → List A
splice zero ys [] = ys
splice zero ys (x ∷ xs) = ys ++ xs
splice (suc k) ys [] = ys
splice (suc k) ys (x ∷ xs) = x ∷ splice k ys xs

-- `inputs[:, -n:]`, which is all of the inputs where `n` is 0
unfoldable pub last_tokens {ℓ} : {A : Type ℓ} → ℕ → List A → List A
last_tokens n xs = if n == 0 then xs else drop (length xs - n) xs

-- How an attempt ends, with the session and the inputs that it leaves.
pub data Outcome (X : Type 0) : Type 0 where
  failed : Option PeerId → Outcome X
  succeeded : RemoteSpanInfo → List X → Outcome X

pub record Attempted (W X : Type 0) : Type 0 where
  pub session : InferenceSession W X
  pub inputs : List X
  pub outcome : Outcome X

-- The variables of the loops.
pub record Loop (W X : Type 0) : Type 0 where
  pub session : InferenceSession W X
  pub server_idx : ℕ
  pub block_idx : ℕ
  pub inputs : List X
  pub attempt_no : ℕ

module _ {X : Type 0} where
  -- what a server session is fed: the tokens that it has to have been sent after this step
  abbrev pub fed_inputs : ℕ → ℕ → List X → Option (List X) → List X
  fed_inputs position n inputs none = inputs
  fed_inputs position n inputs (some old) =
      if length old == position then old ++ last_tokens n inputs else old

module _ {W X : Type 0} where
  unfoldable pub close : InferenceSession W X → InferenceSession W X
  close s =
      if s.closed
      then s
      else record s { server_inputs = []; server_sessions = []; chosen_spans = []; closed = true }

  -- the inputs to regenerate the caches from; the outer `none` is the IndexError
  abbrev pub recovery_inputs : ℕ → InferenceSession W X → Option (Option (List X))
  recovery_inputs k s =
      if ltb k (length s.chosen_spans) then get_elem? s.server_inputs k else some none

  abbrev pub lengths_agree : InferenceSession W X → Bool
  lengths_agree s =
      length s.chosen_spans == length s.server_sessions
      && length s.server_sessions == length s.server_inputs

  -- the three assignments that put the updated spans in the place of the failed one, and the
  -- assertion after them; whether all this raises nothing
  unfoldable pub install :
      ℕ
      → List RemoteSpanInfo
      → List (ServerSession X)
      → Option (Option (List X))
      → InferenceSession W X
      → Bool × InferenceSession W X
  unfolding splice
  install k spans sessions none s = (
    false,
    record s {
      chosen_spans = splice k spans s.chosen_spans;
      server_sessions = splice k sessions s.server_sessions;
    },
  )
  install k spans sessions (some recovery) s =
      let updated = record s {
        chosen_spans = splice k spans s.chosen_spans;
        server_sessions = splice k sessions s.server_sessions;
        server_inputs = splice k (recovery ∷ replicate (length spans - 1) none) s.server_inputs;
      } in
      (lengths_agree updated, updated)

module _ {W X P K : Type 0} (servers : Servers W X P K) where
  -- `_exit_server_sessions` on the one session at an index, if there is one
  unfoldable pub close_at : W → ℕ → List (ServerSession X) → List (ServerSession X)
  close_at w k [] = []
  close_at w zero (c ∷ cs) = close_stream servers w c ∷ cs
  close_at w (suc k) (c ∷ cs) = c ∷ close_at w k cs
