-- ===== src/Client/Keeps.antt =====
-- What an attempt leaves as it is.
use petals_ai_refactor.Prelude.{
  ◌==◌, if◌then◌else◌, length, get_elem?, ℕ, ◌+◌, ◌≡◌, refl, Bool, true, false, Option, none, some,
  List, [],
}
use petals_ai_refactor.Data.{RemoteSpanInfo}
use petals_ai_refactor.Client.Stream.{ServerSession, Servers}
use petals_ai_refactor.Client.Session.{
  InferenceSession, Attempted, fed_inputs, recovery_inputs, install, close_at,
}
use petals_ai_refactor.Client.Retry.{
  enter_sessions, update_end, clipped_path, enter_path, renew, use_session, use_at,
}
use petals_ai_refactor.Client.Use.{called}

module _ {W X P K : Type 0} (servers : Servers W X P K) (hypo_ids : K) where
  -- the state of the world, which only changes once the attempt is over, and the bound on the length
  abbrev pub Keeps : InferenceSession W X → InferenceSession W X → Type 0
  Keeps s t = (t.world ≡ s.world) × (t.max_length ≡ s.max_length)

  install-Keeps :
      (k : ℕ) (spans : List RemoteSpanInfo) (sessions : List (ServerSession X))
      (recovery : Option (Option (List X))) (s : InferenceSession W X)
      → Keeps s (install k spans sessions recovery s).1
  unfolding install
  install-Keeps k spans sessions none s = (refl, refl)
  install-Keeps k spans sessions (some recovery) s = (refl, refl)

  entered-Keeps :
      (k : ℕ) (spans : List RemoteSpanInfo) (entered : Option (List (ServerSession X)))
      (s : InferenceSession W X)
      → let r : Bool × InferenceSession W X = elim entered [
        | none ↦ (false, s)
        | some sessions ↦ install k spans sessions (recovery_inputs k s) s
      ] in
        Keeps s r.1
  entered-Keeps k spans none s = (refl, refl)
  entered-Keeps k spans (some sessions) s = install-Keeps k spans sessions (recovery_inputs k s) s

  enter_path-Keeps :
      (k : ℕ) (s : InferenceSession W X) (r : Option (List RemoteSpanInfo))
      → Keeps s (enter_path servers [] hypo_ids k s r).1
  enter_path-Keeps k s none = (refl, refl)
  enter_path-Keeps k s (some spans) =
      entered-Keeps k spans (enter_sessions servers [] hypo_ids s.world spans) s

  pub renew-Keeps :
      (k b : ℕ) (s : InferenceSession W X) → Keeps s (renew servers [] hypo_ids k b s).1
  unfolding renew
  renew-Keeps k b s =
      enter_path-Keeps k
        (record s { server_sessions = close_at servers s.world k s.server_sessions })
        (clipped_path servers [] hypo_ids s.world b (update_end servers [] hypo_ids k s))

  called-Keeps :
      (s : InferenceSession W X) (called failing : Attempted W X) (fits : Bool)
      → Keeps s called.session
      → Keeps s failing.session
      → Keeps s (if fits then called else failing).session
  called-Keeps s called failing true h g = h
  called-Keeps s called failing false h g = g

  use_session-Keeps :
      (k n : ℕ) (s : InferenceSession W X) (inputs : List X) (c : Option (ServerSession X))
      (span : Option RemoteSpanInfo) (old : Option (Option (List X)))
      → Keeps s (use_session servers [] hypo_ids k n s inputs c span old).session
  unfolding use_session
  use_session-Keeps k n s inputs (some c) (some span) (some old) =
      called-Keeps s _ _ (length (fed_inputs s.position n inputs old) == s.position + n)
        (refl, refl) (refl, refl)
  use_session-Keeps k n s inputs (some c) (some span) none = (refl, refl)
  use_session-Keeps k n s inputs (some c) none old = (refl, refl)
  use_session-Keeps k n s inputs none span old = (refl, refl)

  pub use_at-Keeps :
      (k n : ℕ) (inputs : List X) (ready : Bool) (s : InferenceSession W X)
      → Keeps s (use_at servers [] hypo_ids k n inputs (ready, s)).session
  use_at-Keeps k n inputs true s =
      use_session-Keeps k n s inputs (get_elem? s.server_sessions k) (get_elem? s.chosen_spans k)
        (get_elem? s.server_inputs k)
  use_at-Keeps k n inputs false s = (refl, refl)
