-- ===== src/Client/Stream.antt =====
-- `_ServerInferenceSession` of client/inference_session.py: the stream to one server. Hidden states
-- are lists of what they hold for each token, along the dimension that a session extends.
use petals_ai_refactor.Prelude.{
  ◌==◌, if◌then◌else◌, length, ℕ, ◌-◌, Bool, true, false, not, ◌&&◌, ◌||◌, Option, none, some, List,
  [], ◌∷◌, ◌++◌,
}
use petals_ai_refactor.Data.{PeerId, RemoteSpanInfo}

-- The span stands for the uids and the peer that the stream was opened for; `sent` are the tokens
-- that it has carried to the server.
pub record ServerSession (X : Type 0) : Type 0 where
  pub span : RemoteSpanInfo
  pub stepped : Bool
  pub closed : Bool
  pub sent : List X

-- What a session calls: the manager's methods and whether a stream to a server can be opened, the
-- answer of a server to new tokens after the ones that it was sent before, or none for an
-- exception, the assertions on prompts and hypotheses, and `time.sleep`. The manager, the network
-- and the clock are one state of a parameter type, which requests, failures and waits change.
pub record Servers (W X P K : Type 0) : Type 0 where
  pub make_sequence : W → ℕ → ℕ → Option (List RemoteSpanInfo)
  pub on_request_success : W → PeerId → W
  pub on_request_failure : W → PeerId → W
  pub connects : W → RemoteSpanInfo → Bool
  -- whether the end of a stream raises nothing
  pub closes : W → ServerSession X → Bool
  pub respond : W → RemoteSpanInfo → List X → List X → List P → K → Option (List X)
  -- the tests on the dimensions of deep prompts but the first, and on the hypotheses
  pub prompt_fits : P → List X → Bool
  pub hypo_fits : K → List X → Bool
  -- `inputs.shape == outputs.shape`
  pub same_shape : List X → List X → Bool
  pub sleep : ℕ → W → W
  pub min_backoff : ℕ
  pub num_blocks : ℕ

-- `create`, on a stream that could be opened
abbrev pub new_session : {X : Type 0} → RemoteSpanInfo → ServerSession X
new_session s = record { span = s; stepped = false; closed = false; sent = [] }

module _ {W X P K : Type 0} (servers : Servers W X P K) where
  open servers use {closes, respond, prompt_fits, hypo_fits, same_shape}

  -- `close`; its callers only log an exception, after which the session is not marked as closed
  abbrev pub close_stream : W → ServerSession X → ServerSession X
  close_stream w c = if closes w c then record c { closed = true } else c

  abbrev pub all_fit : List P → List X → Bool
  all_fit [] new = true
  all_fit (p ∷ ps) new = prompt_fits p new && all_fit ps new

  -- the assertions on the prompts, of which a dummy has none, and on the hypotheses
  unfoldable pub can_step : ServerSession X → List X → List P → K → Bool
  can_step c new prompts hypo_ids =
      not c.closed
      && (length prompts == 0
          || (length prompts == (c.span.end - c.span.start) && all_fit prompts new))
      && hypo_fits hypo_ids new

  abbrev pub check_shape : List X → Option (List X) → Option (List X)
  check_shape new none = none
  check_shape new (some outputs) = if same_shape outputs new then some outputs else none

  -- `step`, with the session that it leaves: once the tokens are in the queue, they are sent, also
  -- where the answer is an exception
  unfoldable pub step_stream :
      W → ServerSession X → List X → List P → K → Option (List X) × ServerSession X
  unfolding can_step
  step_stream w c new prompts hypo_ids =
      if can_step c new prompts hypo_ids
      then (
        check_shape new (respond w c.span c.sent new prompts hypo_ids),
        record c { stepped = true; sent = c.sent ++ new },
      )
      else (none, c)
