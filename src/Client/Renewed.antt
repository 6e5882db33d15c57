-- ===== src/Client/Renewed.antt =====
-- The branch of an attempt that renews the current server session.
use mathlib.Core.Path.{subst}
use mathlib.Core.Bool.{false≢true}
use petals_ai_refactor.Prelude.{
  ltb, lt→ltb, length, get_elem?, length-append, ℕ, ◌<◌, ◌≡◌, refl, sym, ap, ◌∙◌, inl, inr, Bool,
  true, false, Option, none, some, List, [], ◌∷◌, ◌++◌, arith,
}
use petals_ai_refactor.Data.{RemoteSpanInfo}
use petals_ai_refactor.Client.Stream.{ServerSession, Servers, close_stream}
use petals_ai_refactor.Client.Session.{InferenceSession, splice, recovery_inputs, close_at}
use petals_ai_refactor.Client.Retry.{end_of, update_end, clipped_path, enter_path, renew}
use petals_ai_refactor.Client.Middle.{get_elem?-middle, splice-middle, splice-nil, close_at-middle}
use petals_ai_refactor.Client.Causal.{all_inputs}
use petals_ai_refactor.Client.Track.{IsRest-le}
use petals_ai_refactor.Client.Attempt.{IsTodo, Frame, Track, IsTodo-weaken}
use petals_ai_refactor.Client.Call.{IsReliable}
use petals_ai_refactor.Client.Renewal.{path-IsFound, enter_path-IsRenewed}

module _ {W X P K : Type 0} (servers : Servers W X P K) (hypo_ids : K) (block : ℕ → List X → List X)
    (patience : W → ℕ) (reliable : IsReliable servers hypo_ids block patience)
    (old new : List X) where
  open servers use {num_blocks}

  abbrev pub AfterRenewal : W → ℕ → ℕ → List X → Bool × InferenceSession W X → Type 0
  AfterRenewal w k b inputs r =
      Track block old new num_blocks r.0 r.1 k b inputs × (r.0 ≡ false → 0 < patience w)

  -- before the first step: nothing to close, and new sessions for all blocks
  renew_first :
      (s : InferenceSession W X) (k b : ℕ) (inputs : List X)
      → b < num_blocks
      → Frame block old new num_blocks s k b inputs [] [] [] [] [] []
      → inputs ≡ all_inputs block old new b
      → AfterRenewal s.world k b inputs (renew servers [] hypo_ids k b s)
  unfolding renew close_at splice
  renew_first s k b inputs lt frame whole =
      let none_chosen : get_elem? s.chosen_spans k ≡ none = rw frame.spans_split refl in
      let no_sessions : close_at servers s.world k s.server_sessions ≡ [] =
        rw frame.sessions_split refl in
      let closing = record s { server_sessions = close_at servers s.world k s.server_sessions } in
      let end : update_end servers [] hypo_ids k s ≡ num_blocks =
        ap (end_of servers [] hypo_ids) none_chosen in
      let trouble : Track block old new num_blocks false closing k b inputs = record {
        spans_done = [];
        sessions_done = [];
        stored_done = [];
        spans_todo = [];
        sessions_todo = [];
        stored_todo = [];
        frame = record {
          old_position = frame.old_position;
          still_open = frame.still_open;
          spans_split = frame.spans_split;
          sessions_split = no_sessions;
          stored_split = frame.stored_split;
          spans_at = frame.spans_at;
          sessions_at = frame.sessions_at;
          stored_at = frame.stored_at;
          done = frame.done;
          some_inputs = inl whole;
        };
        todo = inr (refl, refl, whole);
      } in
      let outside : ltb k 0 ≡ false = ground arith in
      let recovered : recovery_inputs k closing ≡ some none =
        rw frame.spans_split (rw outside refl) in
      subst
        (λ e.
          AfterRenewal s.world k b inputs (
            enter_path servers [] hypo_ids k closing
              (clipped_path servers [] hypo_ids s.world b e)))
        (sym end)
        (enter_path-IsRenewed servers hypo_ids block patience reliable old new closing k b
          num_blocks inputs [] [] [] [] [] none [] frame.old_position frame.still_open
          frame.spans_at frame.sessions_at frame.stored_at frame.done (inl whole)
          (inl (refl, whole)) refl (λ zs. splice-nil k zs s.chosen_spans frame.spans_split)
          (λ zs. splice-nil k zs (close_at servers s.world k s.server_sessions) no_sessions)
          (λ zs. splice-nil k zs s.server_inputs frame.stored_split)
          (clipped_path servers [] hypo_ids s.world b num_blocks)
          (path-IsFound servers hypo_ids block patience reliable old new s.world b num_blocks _ lt
            (omega arith) refl)
          recovered trouble)

  -- the current session is closed, and new ones take over the blocks of its span
  renew_current :
      (s : InferenceSession W X) (k b : ℕ) (inputs : List X) (fs : List RemoteSpanInfo)
      (fc : List (ServerSession X)) (fi : List (Option (List X))) (span : RemoteSpanInfo)
      (ss : List RemoteSpanInfo) (c : ServerSession X) (cs : List (ServerSession X))
      (i : Option (List X)) (stored : List (Option (List X)))
      → Frame block old new num_blocks s k b inputs fs fc fi (span ∷ ss) (c ∷ cs) (i ∷ stored)
      → IsTodo block old new num_blocks false fs b inputs (span ∷ ss) (c ∷ cs) (i ∷ stored)
      → AfterRenewal s.world k b inputs (renew servers [] hypo_ids k b s)
  unfolding renew
  renew_current s k b inputs fs fc fi span ss c cs i stored frame todo =
      let chosen : get_elem? s.chosen_spans k ≡ some span =
        ap (λ l. get_elem? l k) frame.spans_split ∙ get_elem?-middle fs ss span k frame.spans_at in
      let closed_split : close_at servers s.world k s.server_sessions
          ≡ fc ++ close_stream servers s.world c ∷ cs =
        ap (close_at servers s.world k) frame.sessions_split
        ∙ close_at-middle servers s.world fc cs c k frame.sessions_at in
      let closing = record s { server_sessions = close_at servers s.world k s.server_sessions } in
      let end : update_end servers [] hypo_ids k s ≡ span.end =
        ap (end_of servers [] hypo_ids) chosen in
      let trouble : Track block old new num_blocks false closing k b inputs = record {
        spans_done = fs;
        sessions_done = fc;
        stored_done = fi;
        spans_todo = span ∷ ss;
        sessions_todo = close_stream servers s.world c ∷ cs;
        stored_todo = i ∷ stored;
        frame = record {
          old_position = frame.old_position;
          still_open = frame.still_open;
          spans_split = frame.spans_split;
          sessions_split = closed_split;
          stored_split = frame.stored_split;
          spans_at = frame.spans_at;
          sessions_at = frame.sessions_at;
          stored_at = frame.stored_at;
          done = frame.done;
          some_inputs = frame.some_inputs;
        };
        todo = (todo.0, todo.1, todo.2, (λ r. absurd (false≢true r)), todo.4);
      } in
      let within : ltb k (length s.chosen_spans) ≡ true = lt→ltb k (length s.chosen_spans) (
        omega (arith, ap length frame.spans_split, length-append fs (span ∷ ss), frame.spans_at)) in
      let recovered : recovery_inputs k closing ≡ some i = rw within (
        ap (λ l. get_elem? l k) frame.stored_split
        ∙ get_elem?-middle fi stored i k frame.stored_at) in
      subst
        (λ e.
          AfterRenewal s.world k b inputs (
            enter_path servers [] hypo_ids k closing
              (clipped_path servers [] hypo_ids s.world b e)))
        (sym end)
        (enter_path-IsRenewed servers hypo_ids block patience reliable old new closing k b span.end
          inputs fs fc fi ss cs i stored frame.old_position frame.still_open frame.spans_at
          frame.sessions_at frame.stored_at frame.done frame.some_inputs todo.2 todo.4
          (λ zs. ap (splice k zs) frame.spans_split ∙ splice-middle fs ss zs span k frame.spans_at)
          (λ zs.
            ap (splice k zs) closed_split
            ∙ splice-middle fc cs zs (close_stream servers s.world c) k frame.sessions_at)
          (λ zs.
            ap (splice k zs) frame.stored_split ∙ splice-middle fi stored zs i k frame.stored_at)
          (clipped_path servers [] hypo_ids s.world b span.end)
          (path-IsFound servers hypo_ids block patience reliable old new s.world b span.end _ todo.1
            (IsRest-le block old span.end num_blocks ss cs stored todo.4) refl)
          recovered trouble)

  renew_todo :
      (s : InferenceSession W X) (k b : ℕ) (inputs : List X) (fs : List RemoteSpanInfo)
      (fc : List (ServerSession X)) (fi : List (Option (List X))) (bs : List RemoteSpanInfo)
      (bc : List (ServerSession X)) (bi : List (Option (List X)))
      → b < num_blocks
      → Frame block old new num_blocks s k b inputs fs fc fi bs bc bi
      → IsTodo block old new num_blocks false fs b inputs bs bc bi
      → AfterRenewal s.world k b inputs (renew servers [] hypo_ids k b s)
  renew_todo s k b inputs fs fc fi [] [] [] lt frame (inl over) = absurd (omega arith)
  renew_todo s k b inputs [] [] [] [] [] [] lt frame (inr (ready, first, whole)) =
      renew_first s k b inputs lt frame whole
  renew_todo s k b inputs [] [] (_ ∷ _) [] [] [] lt frame (inr x) = absurd frame.done
  renew_todo s k b inputs [] (_ ∷ _) fi [] [] [] lt frame (inr x) = absurd frame.done
  renew_todo s k b inputs (_ ∷ _) fc fi [] [] [] lt frame (inr (ready, first, whole)) = cc first
  renew_todo s k b inputs fs fc fi (span ∷ ss) (c ∷ cs) (i ∷ stored) lt frame todo =
      renew_current s k b inputs fs fc fi span ss c cs i stored frame todo
  renew_todo s k b inputs fs fc fi [] [] (_ ∷ _) lt frame todo = absurd todo
  renew_todo s k b inputs fs fc fi [] (_ ∷ _) bi lt frame todo = absurd todo
  renew_todo s k b inputs fs fc fi (_ ∷ _) [] bi lt frame todo = absurd todo
  renew_todo s k b inputs fs fc fi (_ ∷ _) (_ ∷ _) [] lt frame todo = absurd todo

  -- Renewed or not, the session is as before, and if all went well, the current server session can
  -- be called.
  pub renew-Track :
      (ready : Bool) (s : InferenceSession W X) (k b : ℕ) (inputs : List X)
      → b < num_blocks
      → Track block old new num_blocks ready s k b inputs
      → AfterRenewal s.world k b inputs (renew servers [] hypo_ids k b s)
  renew-Track true s k b inputs lt t =
      renew_todo s k b inputs t.spans_done t.sessions_done t.stored_done t.spans_todo
        t.sessions_todo t.stored_todo lt t.frame
        (IsTodo-weaken block old new num_blocks false t.spans_done b inputs t.spans_todo
          t.sessions_todo t.stored_todo t.todo)
  renew-Track false s k b inputs lt t =
      renew_todo s k b inputs t.spans_done t.sessions_done t.stored_done t.spans_todo
        t.sessions_todo t.stored_todo lt t.frame t.todo
