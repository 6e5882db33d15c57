-- ===== src/Client/Renewal.antt =====
-- The part of an attempt that puts new server sessions in the place of a failed one.
use mathlib.Core.Path.{subst}
use mathlib.Core.Bool.{false≢true}
use petals_ai_refactor.Prelude.{
  if◌then◌else◌, Bool-cases, length, replicate, ℕ, suc, ◌-◌, ◌≤◌, ◌<◌, ◌≡◌, refl, sym, ap, ◌∙◌, ◌⊎◌,
  inl, inr, Bool, false, Option, none, some, List, [], ◌∷◌, ◌++◌, map, arith,
}
use petals_ai_refactor.Data.{RemoteSpanInfo}
use petals_ai_refactor.Client.Stream.{ServerSession, Servers, new_session}
use petals_ai_refactor.Client.Session.{InferenceSession, splice, recovery_inputs, install}
use petals_ai_refactor.Client.Retry.{enter_sessions, enter_path}
use petals_ai_refactor.Client.Causal.{all_inputs, new_inputs}
use petals_ai_refactor.Client.Track.{IsHeld, IsRest, path-IsRest}
use petals_ai_refactor.Client.Attempt.{IsStored, Track, Track-lengths_agree}
use petals_ai_refactor.Client.Call.{IsReliable}
use petals_ai_refactor.Autograd.Forward.{clip_last}
use petals_ai_refactor.Autograd.Chain.{
  IsPath, IsClipped, clip_last-IsClipped, IsPath-head, IsPath-end,
}

module _ {W X P K : Type 0} (servers : Servers W X P K) (hypo_ids : K) (block : ℕ → List X → List X)
    (patience : W → ℕ) (reliable : IsReliable servers hypo_ids block patience)
    (old new : List X) where
  open servers use {make_sequence, connects, num_blocks}

  abbrev IsEntered : W → List RemoteSpanInfo → Option (List (ServerSession X)) → Type 0
  IsEntered w spans none = 0 < patience w
  IsEntered w spans (some sessions) = sessions ≡ map new_session spans

  connected-IsEntered :
      (w : W) (s : RemoteSpanInfo) (spans : List RemoteSpanInfo)
      (r : Option (List (ServerSession X)))
      → IsEntered w spans r
      → IsEntered w (s ∷ spans) (elim r [
        | none ↦ none
        | some sessions ↦ if connects w s then some (new_session s ∷ sessions) else none
      ])
  connected-IsEntered w s spans none h = h
  connected-IsEntered w s spans (some sessions) h = elim (Bool-cases (connects w s)) [
    | inl opened ↦ rw opened (ap (λ l. new_session s ∷ l) h)
    | inr refused ↦ rw refused (reliable.no_connection w s refused)
  ]

  enter_sessions-IsEntered :
      (w : W) (spans : List RemoteSpanInfo)
      → IsEntered w spans (enter_sessions servers [] hypo_ids w spans)
  unfolding enter_sessions
  enter_sessions-IsEntered w [] = refl
  enter_sessions-IsEntered w (s ∷ spans) =
      connected-IsEntered w s spans (enter_sessions servers [] hypo_ids w spans)
        (enter_sessions-IsEntered w spans)

  abbrev IsFound : W → ℕ → ℕ → Option (List RemoteSpanInfo) → Type 0
  IsFound w b e none = 0 < patience w
  IsFound w b e (some []) = ⊥
  IsFound w b e (some (s ∷ spans)) = IsPath b e (s ∷ spans)

  clipped-IsFound :
      (w : W) (b e : ℕ) (r : Option (List RemoteSpanInfo)) → IsClipped b e r → IsFound w b e r
  clipped-IsFound w b e none h = absurd h
  clipped-IsFound w b e (some []) h = h
  clipped-IsFound w b e (some (s ∷ spans)) h = h

  pub path-IsFound :
      (w : W) (b e : ℕ) (r : Option (List RemoteSpanInfo))
      → b < e
      → e ≤ num_blocks
      → make_sequence w b e ≡ r
      → IsFound w b e (elim r [ none ↦ none | some spans ↦ clip_last e spans ])
  path-IsFound w b e none lt le eq = reliable.no_route w b e lt le eq
  path-IsFound w b e (some spans) lt le eq =
      clipped-IsFound w b e (clip_last e spans)
        (clip_last-IsClipped b e spans lt (reliable.routes w b e spans lt eq))

  -- A session that is about to get new server sessions at the index `k`, for a path from `b` to `c`.
  module _ (s : InferenceSession W X) (k b c : ℕ) (inputs : List X) (fs : List RemoteSpanInfo)
      (fc : List (ServerSession X)) (fi : List (Option (List X))) (ss : List RemoteSpanInfo)
      (cs : List (ServerSession X)) (i : Option (List X)) (stored : List (Option (List X)))
      (old_position : s.position ≡ length old) (still_open : s.closed ≡ false)
      (spans_at : length fs ≡ k) (sessions_at : length fc ≡ k) (stored_at : length fi ≡ k)
      (done : IsHeld block (old ++ new) 0 b fs fc fi)
      (either : (inputs ≡ all_inputs block old new b) ⊎ (inputs ≡ new_inputs block old new b))
      (has : IsStored block old new num_blocks b inputs i)
      (rest : IsRest block old c num_blocks ss cs stored)
      (splice_spans : (zs : List RemoteSpanInfo) → splice k zs s.chosen_spans ≡ fs ++ (zs ++ ss))
      (splice_sessions : (zs : List (ServerSession X))
        → splice k zs s.server_sessions ≡ fc ++ (zs ++ cs))
      (splice_stored : (zs : List (Option (List X)))
        → splice k zs s.server_inputs ≡ fi ++ (zs ++ stored)) where
    abbrev IsRenewed : Bool × InferenceSession W X → Type 0
    IsRenewed r =
        Track block old new num_blocks r.0 r.1 k b inputs × (r.0 ≡ false → 0 < patience s.world)

    install-IsRenewed :
        (span : RemoteSpanInfo) (path : List RemoteSpanInfo)
        → IsPath b c (span ∷ path)
        → IsRenewed (install k (span ∷ path) (map new_session (span ∷ path)) (some i) s)
    unfolding install
    install-IsRenewed span path p =
        let (start, lt, le, tail) = IsPath-head b c span path p in
        let n : suc (length path) - 1 ≡ length path = omega arith in
        let track : Track block old new num_blocks _ _ k b inputs = record {
          spans_done = fs;
          sessions_done = fc;
          stored_done = fi;
          spans_todo = span ∷ (path ++ ss);
          sessions_todo = new_session span ∷ (map new_session path ++ cs);
          stored_todo = i ∷ (replicate (length path) none ++ stored);
          frame = record {
            old_position = old_position;
            still_open = still_open;
            spans_split = splice_spans (span ∷ path);
            sessions_split = splice_sessions (map new_session (span ∷ path));
            stored_split =
                splice_stored (i ∷ replicate (suc (length path) - 1) none)
                ∙ ap (λ m. fi ++ (i ∷ (replicate m none ++ stored))) n;
            spans_at = spans_at;
            sessions_at = sessions_at;
            stored_at = stored_at;
            done = done;
            some_inputs = either;
          };
          todo = (
            start,
            lt,
            has,
            (λ r. (inl refl, λ fresh. refl)),
            path-IsRest block old span.end c num_blocks path ss cs stored tail
                (IsPath-end b c span path p) rest,
          );
        } in
        (
          track,
          λ bad. absurd (
              false≢true
                (sym bad ∙ Track-lengths_agree block old new num_blocks _ _ k b inputs track)),
        )

    entered-IsRenewed :
        (span : RemoteSpanInfo) (path : List RemoteSpanInfo)
        (entered : Option (List (ServerSession X)))
        → IsPath b c (span ∷ path)
        → IsEntered s.world (span ∷ path) entered
        → recovery_inputs k s ≡ some i
        → Track block old new num_blocks false s k b inputs
        → IsRenewed (elim entered [
          | none ↦ (false, s)
          | some sessions ↦ install k (span ∷ path) sessions (recovery_inputs k s) s
        ])
    entered-IsRenewed span path none p new_ones recovered trouble = (trouble, λ _. new_ones)
    entered-IsRenewed span path (some sessions) p new_ones recovered trouble =
        subst (λ l. IsRenewed (install k (span ∷ path) l (recovery_inputs k s) s)) (sym new_ones)
          (subst (λ r. IsRenewed (install k (span ∷ path) (map new_session (span ∷ path)) r s))
            (sym recovered) (install-IsRenewed span path p))

    pub enter_path-IsRenewed :
        (r : Option (List RemoteSpanInfo))
        → IsFound s.world b c r
        → recovery_inputs k s ≡ some i
        → Track block old new num_blocks false s k b inputs
        → IsRenewed (enter_path servers [] hypo_ids k s r)
    enter_path-IsRenewed none f recovered trouble = (trouble, λ _. f)
    enter_path-IsRenewed (some []) f recovered trouble = absurd f
    enter_path-IsRenewed (some (span ∷ path)) f recovered trouble =
        entered-IsRenewed span path (enter_sessions servers [] hypo_ids s.world (span ∷ path)) f
          (enter_sessions-IsEntered s.world (span ∷ path)) recovered trouble
