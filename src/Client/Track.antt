-- ===== src/Client/Track.antt =====
-- What holds of a session within a step: the server sessions before the current one hold all
-- tokens, those behind it hold the old ones or were just made.
use mathlib.Core.Path.{subst}
use petals_ai_refactor.Prelude.{
  length, replicate, ℕ, suc, ◌≤◌, ◌<◌, ◌≡◌, refl, sym, ap, ◌∙◌, Bool, true, false, Option, none,
  some, List, [], ◌∷◌, ◌++◌, map, arith,
}
use petals_ai_refactor.Data.{RemoteSpanInfo}
use petals_ai_refactor.Client.Stream.{ServerSession, new_session}
use petals_ai_refactor.Autograd.Chain.{IsPath, IsPath-head, IsPath-end, apply_blocks}

-- A server session that has been sent the tokens, for a span.
abbrev pub held_session : {X : Type 0} → List X → RemoteSpanInfo → ServerSession X
held_session tokens s = record { span = s; stepped = true; closed = false; sent = tokens }

-- A server session that is yet to be sent its first tokens is the next one.
abbrev pub starts_fresh : {A : Type 0} → List (Option A) → Bool
starts_fresh (none ∷ _) = true
starts_fresh _ = false

module _ {X : Type 0} (block : ℕ → List X → List X) where
  -- From block `b` to block `e`, a row of server sessions that hold their inputs for the tokens,
  -- and that the client has stored.
  abbrev pub IsHeld :
      List X
      → ℕ
      → ℕ
      → List RemoteSpanInfo
      → List (ServerSession X)
      → List (Option (List X))
      → Type 0
  IsHeld tokens b e [] [] [] = b ≡ e
  IsHeld tokens b e (s ∷ spans) (c ∷ sessions) (i ∷ stored) =
      (s.start ≡ b)
      × (b < s.end)
      × (c ≡ held_session (apply_blocks block 0 b tokens) s)
      × (i ≡ some (apply_blocks block 0 b tokens))
      × IsHeld tokens s.end e spans sessions stored
  IsHeld tokens b e _ _ _ = ⊥

  pub IsHeld-snoc :
      (tokens : List X) (b e : ℕ) (spans : List RemoteSpanInfo) (sessions : List (ServerSession X))
      (stored : List (Option (List X))) (s : RemoteSpanInfo)
      → IsHeld tokens b e spans sessions stored
      → s.start ≡ e
      → e < s.end
      → IsHeld tokens b s.end
          (spans ++ s ∷ [])
          (sessions ++ held_session (apply_blocks block 0 e tokens) s ∷ [])
          (stored ++ some (apply_blocks block 0 e tokens) ∷ [])
  IsHeld-snoc tokens b e [] [] [] s h start lt = (
    start ∙ sym h,
    omega (arith, h, lt),
    ap (λ j. held_session (apply_blocks block 0 j tokens) s) (sym h),
    ap (λ j. some (apply_blocks block 0 j tokens)) (sym h),
    refl,
  )
  IsHeld-snoc tokens b e (t ∷ spans) (c ∷ sessions) (i ∷ stored) s h start lt =
      (h.0, h.1, h.2, h.3, IsHeld-snoc tokens t.end e spans sessions stored s h.4 start lt)
  IsHeld-snoc tokens b e [] [] (_ ∷ _) s h start lt = absurd h
  IsHeld-snoc tokens b e [] (_ ∷ _) stored s h start lt = absurd h
  IsHeld-snoc tokens b e (_ ∷ _) [] stored s h start lt = absurd h
  IsHeld-snoc tokens b e (_ ∷ _) (_ ∷ _) [] s h start lt = absurd h

  pub IsHeld-lengths :
      (tokens : List X) (b e : ℕ) (spans : List RemoteSpanInfo) (sessions : List (ServerSession X))
      (stored : List (Option (List X)))
      → IsHeld tokens b e spans sessions stored
      → (length spans ≡ length sessions) × (length sessions ≡ length stored)
  IsHeld-lengths tokens b e [] [] [] h = (refl, refl)
  IsHeld-lengths tokens b e (s ∷ spans) (c ∷ sessions) (i ∷ stored) h =
      let same = IsHeld-lengths tokens s.end e spans sessions stored h.4 in
      (ap suc same.0, ap suc same.1)
  IsHeld-lengths tokens b e [] [] (_ ∷ _) h = absurd h
  IsHeld-lengths tokens b e [] (_ ∷ _) stored h = absurd h
  IsHeld-lengths tokens b e (_ ∷ _) [] stored h = absurd h
  IsHeld-lengths tokens b e (_ ∷ _) (_ ∷ _) [] h = absurd h

  pub IsHeld-not_fresh :
      (tokens : List X) (b e : ℕ) (spans : List RemoteSpanInfo) (sessions : List (ServerSession X))
      (stored : List (Option (List X)))
      → IsHeld tokens b e spans sessions stored
      → starts_fresh stored ≡ false
  IsHeld-not_fresh tokens b e spans sessions [] h = refl
  IsHeld-not_fresh tokens b e (s ∷ spans) (c ∷ sessions) (some i ∷ stored) h = refl
  IsHeld-not_fresh tokens b e (s ∷ spans) (c ∷ sessions) (none ∷ stored) h = cc (h.3)
  IsHeld-not_fresh tokens b e [] [] (i ∷ stored) h = absurd h
  IsHeld-not_fresh tokens b e [] (c ∷ sessions) (i ∷ stored) h = absurd h
  IsHeld-not_fresh tokens b e (s ∷ spans) [] (i ∷ stored) h = absurd h

  module _ (old : List X) where
    -- A row of server sessions that are new, up to some block, and hold the old tokens from there.
    abbrev pub IsRest :
        ℕ → ℕ → List RemoteSpanInfo → List (ServerSession X) → List (Option (List X)) → Type 0
    IsRest b e [] [] [] = b ≡ e
    IsRest b e (s ∷ spans) (c ∷ sessions) (none ∷ stored) =
        (s.start ≡ b) × (b < s.end) × (c ≡ new_session s) × IsRest s.end e spans sessions stored
    IsRest b e (s ∷ spans) (c ∷ sessions) (some i ∷ stored) =
        IsHeld old b e (s ∷ spans) (c ∷ sessions) (some i ∷ stored)
    IsRest b e _ _ _ = ⊥

    pub IsHeld-IsRest :
        (b e : ℕ) (spans : List RemoteSpanInfo) (sessions : List (ServerSession X))
        (stored : List (Option (List X)))
        → IsHeld old b e spans sessions stored
        → IsRest b e spans sessions stored
    IsHeld-IsRest b e [] [] [] h = h
    IsHeld-IsRest b e (s ∷ spans) (c ∷ sessions) (some i ∷ stored) h = h
    IsHeld-IsRest b e (s ∷ spans) (c ∷ sessions) (none ∷ stored) h = cc (h.3)
    IsHeld-IsRest b e [] [] (_ ∷ _) h = absurd h
    IsHeld-IsRest b e [] (_ ∷ _) stored h = absurd h
    IsHeld-IsRest b e (_ ∷ _) [] stored h = absurd h
    IsHeld-IsRest b e (_ ∷ _) (_ ∷ _) [] h = absurd h

    pub IsRest-le :
        (b e : ℕ) (spans : List RemoteSpanInfo) (sessions : List (ServerSession X))
        (stored : List (Option (List X)))
        → IsRest b e spans sessions stored
        → b ≤ e
    IsRest-le b e [] [] [] h = omega (arith, h)
    IsRest-le b e (s ∷ spans) (c ∷ sessions) (none ∷ stored) h =
        omega (arith, h.1, IsRest-le s.end e spans sessions stored h.3)
    IsRest-le b e (s ∷ spans) (c ∷ sessions) (some i ∷ stored) h = omega (
      arith,
      h.1,
      IsRest-le s.end e spans sessions stored (IsHeld-IsRest s.end e spans sessions stored h.4),
    )
    IsRest-le b e [] [] (_ ∷ _) h = absurd h
    IsRest-le b e [] (_ ∷ _) stored h = absurd h
    IsRest-le b e (_ ∷ _) [] stored h = absurd h
    IsRest-le b e (_ ∷ _) (_ ∷ _) [] h = absurd h

    pub IsRest-lengths :
        (b e : ℕ) (spans : List RemoteSpanInfo) (sessions : List (ServerSession X))
        (stored : List (Option (List X)))
        → IsRest b e spans sessions stored
        → (length spans ≡ length sessions) × (length sessions ≡ length stored)
    IsRest-lengths b e [] [] [] h = (refl, refl)
    IsRest-lengths b e (s ∷ spans) (c ∷ sessions) (none ∷ stored) h =
        let same = IsRest-lengths s.end e spans sessions stored h.3 in
        (ap suc same.0, ap suc same.1)
    IsRest-lengths b e (s ∷ spans) (c ∷ sessions) (some i ∷ stored) h =
        IsHeld-lengths old b e (s ∷ spans) (c ∷ sessions) (some i ∷ stored) h
    IsRest-lengths b e [] [] (_ ∷ _) h = absurd h
    IsRest-lengths b e [] (_ ∷ _) stored h = absurd h
    IsRest-lengths b e (_ ∷ _) [] stored h = absurd h
    IsRest-lengths b e (_ ∷ _) (_ ∷ _) [] h = absurd h

    -- New sessions for a path, put before such a row, are one again.
    pub path-IsRest :
        (b c e : ℕ) (path spans : List RemoteSpanInfo) (sessions : List (ServerSession X))
        (stored : List (Option (List X)))
        → IsPath b c path
        → (path ≡ [] → b ≡ c)
        → IsRest c e spans sessions stored
        → IsRest b e
            (path ++ spans)
            (map new_session path ++ sessions)
            (replicate (length path) none ++ stored)
    path-IsRest b c e [] spans sessions stored p at h =
        subst (λ j. IsRest j e spans sessions stored) (sym (at refl)) h
    path-IsRest b c e (s ∷ path) spans sessions stored p at h =
        let (start, lt, le, tail) = IsPath-head b c s path p in
        (
          start,
          lt,
          refl,
          path-IsRest s.end c e path spans sessions stored tail (IsPath-end b c s path p) h,
        )
