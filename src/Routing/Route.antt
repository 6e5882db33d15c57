-- ===== src/Routing/Route.antt =====
-- What `make_sequence` returns, over a table that `compute_spans` made.
use mathlib.Core.Path.{subst}
use petals_ai_refactor.Prelude.{
  ltb, leb, ltb→lt, Bool-cases, length, get_elem?, All, err, ok, ◌>>=◌, ℕ, zero, suc, ◌+◌, ◌%◌, ◌≤◌,
  ◌<◌, ◌≡◌, refl, sym, ap, ◌∙◌, inl, inr, true, false, ◌&&◌, Option, some, List, [], ◌∷◌, arith,
}
use petals_ai_refactor.Data.{PeerId, RemoteModuleInfo, RemoteSpanInfo}
use petals_ai_refactor.Routing.Coverage.{online_at, IsTable}
use petals_ai_refactor.Routing.Index.{has_peer, spans_at, IsCovered}
use petals_ai_refactor.Routing.Info.{RemoteSequenceInfo}
use petals_ai_refactor.Routing.Manager.{
  missing_blocks, Result, Mode, random, fastest, unknown, choose_span, candidates_at, cut_span,
  next_span, route, form_sequence,
}

-- A route from `current` on: each span starts where the one before it ends, and the last one ends
-- at `end` or behind it.
abbrev pub IsRoute : ℕ → ℕ → List RemoteSpanInfo → Type 0
IsRoute current end [] = end ≤ current
IsRoute current end (s ∷ spans) =
    (s.start ≡ current) × (current < s.end) × (current < end) × IsRoute s.end end spans

abbrev pub IsKnown : Mode → Type 0
IsKnown random = Unit
IsKnown fastest = Unit
IsKnown unknown = ⊥

get_elem?-lt :
    {A : Type 0} (P : A → Type 0) (xs : List A) (i : ℕ)
    → i < length xs
    → All P xs
    → (a : A) × (get_elem? xs i ≡ some a) × P a
get_elem?-lt P [] i lt h = elim lt [ ]
get_elem?-lt P (x ∷ xs) zero lt h = (x, refl, h.0)
get_elem?-lt P (x ∷ xs) (suc i) lt h = get_elem?-lt P xs i (omega arith) h.1

mod-lt-length : (n m : ℕ) → n % suc m < suc m
mod-lt-length n m = grind arith

All-tt : {A : Type 0} (xs : List A) → All (λ _. Unit {0}) xs
All-tt [] = tt
All-tt (x ∷ xs) = (tt, All-tt xs)

choose_span_lem :
    (P : RemoteSpanInfo → Type 0) (mode : Mode) (draw : ℕ) (s : RemoteSpanInfo)
    (spans : List RemoteSpanInfo)
    → IsKnown mode
    → All P (s ∷ spans)
    → (t : RemoteSpanInfo) × (choose_span mode draw (s ∷ spans) ≡ ok t) × P t
unfolding choose_span
choose_span_lem P random draw s spans k h =
    let (t, found, p) =
      get_elem?-lt P (s ∷ spans) (draw % length (s ∷ spans)) (mod-lt-length draw (length spans))
        h in
    (t, rw found, p)
choose_span_lem P fastest draw s spans k h =
    let (t, found, p) =
      get_elem?-lt P (s ∷ spans) (draw % length (s ∷ spans)) (mod-lt-length draw (length spans))
        h in
    (t, rw found, p)
choose_span_lem P unknown draw s spans k h = absurd k

module _ (draw : ℕ → ℕ) (mode : Mode) (lists : List (List RemoteSpanInfo)) (current : ℕ) where
  next_span_missing :
      get_elem? lists current ≡ some []
      → next_span draw mode lists current ≡ err (missing_blocks current)
  unfolding next_span candidates_at
  next_span_missing e = ground arith

  next_span_chosen :
      (s : RemoteSpanInfo) (spans : List RemoteSpanInfo) (t : RemoteSpanInfo)
      → get_elem? lists current ≡ some (s ∷ spans)
      → choose_span mode (draw current) (s ∷ spans) ≡ ok t
      → next_span draw mode lists current ≡ cut_span current t
  unfolding next_span candidates_at
  next_span_chosen s spans t e chosen = ground arith

module _ {F : Type 0} (infos : List (Option (RemoteModuleInfo F))) where
  -- A route through servers that are online at each of their blocks, or the error that names a
  -- block of the range at which no server is online.
  abbrev pub Outcome : ℕ → ℕ → Result (List RemoteSpanInfo) → Type 0
  Outcome current end (ok spans) =
      IsRoute current end spans × All (IsCovered (online_at infos)) spans
  Outcome current end (err (missing_blocks i)) =
      (current ≤ i) × (i < end) × ((p : PeerId) → online_at infos p i ≡ false)
  Outcome current end (err _) = ⊥

  abbrev Step : ℕ → Result RemoteSpanInfo → Type 0
  Step current (ok s) = (s.start ≡ current) × (current < s.end) × IsCovered (online_at infos) s
  Step current (err (missing_blocks i)) =
      (i ≡ current) × ((p : PeerId) → online_at infos p i ≡ false)
  Step current (err _) = ⊥

  cut_span-Step :
      (current : ℕ) (t : RemoteSpanInfo)
      → IsCovered (online_at infos) t × (t.start ≤ current) × (current < t.end)
      → Step current (cut_span current t)
  unfolding cut_span
  cut_span-Step current t h =
      let inside : (leb t.start current && ltb current t.end) ≡ true = ground arith in
      rw inside (refl, h.2, λ c ge lt. h.0 c (omega (arith, h.1)) lt)

  candidates-Step :
      (draw : ℕ → ℕ) (mode : Mode) (lists : List (List RemoteSpanInfo)) (current : ℕ)
      (spans : List RemoteSpanInfo)
      → IsKnown mode
      → get_elem? lists current ≡ some spans
      → ((p : PeerId) → has_peer p spans ≡ online_at infos p current)
      → All (λ s. IsCovered (online_at infos) s × (s.start ≤ current) × (current < s.end)) spans
      → Step current (next_span draw mode lists current)
  candidates-Step draw mode lists current [] k e peers h =
      let stopped = next_span_missing draw mode lists current e in
      subst (Step current) (sym stopped) (refl, λ p. sym (peers p))
  candidates-Step draw mode lists current (s ∷ spans) k e peers h =
      let (t, chosen, facts) = choose_span_lem _ mode (draw current) s spans k h in
      subst (Step current) (sym (next_span_chosen draw mode lists current s spans t e chosen))
        (cut_span-Step current t facts)

  next_span-Step :
      (draw : ℕ → ℕ) (mode : Mode) (lists : List (List RemoteSpanInfo)) (current : ℕ)
      → IsKnown mode
      → IsTable infos lists
      → current < length lists
      → Step current (next_span draw mode lists current)
  next_span-Step draw mode lists current k t lt =
      let (spans, found, _) = get_elem?-lt (λ _. Unit {0}) lists current lt (All-tt lists) in
      let here : spans_at lists current ≡ spans = ground arith in
      candidates-Step draw mode lists current spans k found
        (λ p. ap (has_peer p) (sym here) ∙ t.peers p current)
        (subst (All (λ s. IsCovered (online_at infos) s × (s.start ≤ current) × (current < s.end)))
          here (t.sound current))

  extend-Outcome :
      (current end : ℕ) (s : RemoteSpanInfo) (r : Result (List RemoteSpanInfo))
      → (s.start ≡ current) × (current < s.end) × IsCovered (online_at infos) s
      → current < end
      → Outcome s.end end r
      → Outcome current end (r >>= λ spans. ok (s ∷ spans))
  extend-Outcome current end s (ok spans) h lt o = ((h.0, h.1, lt, o.0), (h.2, o.1))
  extend-Outcome current end s (err (missing_blocks i)) h lt o = (omega arith, o.1, o.2)
  extend-Outcome current end s (err _) h lt o = absurd o

  bind-Outcome :
      (current end : ℕ) (r : Result RemoteSpanInfo)
      (later : RemoteSpanInfo → Result (List RemoteSpanInfo))
      → Step current r
      → current < end
      → ((s : RemoteSpanInfo) → current < s.end → Outcome s.end end (later s))
      → Outcome current end (r >>= λ s. later s >>= λ spans. ok (s ∷ spans))
  bind-Outcome current end (ok s) later h lt o =
      extend-Outcome current end s (later s) h lt (o s h.1)
  bind-Outcome current end (err (missing_blocks i)) later h lt o = (omega arith, omega arith, h.1)
  bind-Outcome current end (err _) later h lt o = absurd h

  route-Outcome :
      (draw : ℕ → ℕ) (mode : Mode) (lists : List (List RemoteSpanInfo)) (fuel current end : ℕ)
      → IsKnown mode
      → IsTable infos lists
      → end ≤ length lists
      → end ≤ current + fuel
      → Outcome current end (route draw mode lists fuel current end)
  unfolding route
  route-Outcome draw mode lists zero current end k t le enough =
      let done : ltb current end ≡ false = ground arith in rw done (omega arith, tt)
  route-Outcome draw mode lists (suc fuel) current end k t le enough =
      elim (Bool-cases (ltb current end)) [
        | inr done ↦ rw done (ground arith, tt)
        | inl more ↦
            let lt = ltb→lt current end more in
            rw more (
              bind-Outcome current end (next_span draw mode lists current)
                (λ s. route draw mode lists fuel s.end end)
                (next_span-Step draw mode lists current k t (omega arith)) lt
                (λ s further. route-Outcome draw mode lists fuel s.end end k t le (omega arith)))
      ]

  -- The loop of `make_sequence` in a known mode, from `start` to at most the number of blocks, over a table of
  -- the blocks, whatever is drawn: either a route from `start` to `end` or behind it, in which each
  -- span is of a peer that is online at every block of it, or a `MissingBlocksError` with a block
  -- of the range at which no peer is online. It raises nothing else, and it ends.
  pub form_sequence-Outcome :
      (draw : ℕ → ℕ) (mode : Mode) (info : RemoteSequenceInfo F) (start end : ℕ)
      → IsKnown mode
      → IsTable infos info.spans_containing_block
      → end ≤ length infos
      → Outcome start end (form_sequence draw mode info start (some end))
  unfolding form_sequence
  form_sequence-Outcome draw mode info start end k t le =
      route-Outcome draw mode info.spans_containing_block end start end k t (omega (arith, t.size))
        (omega arith)
