-- ===== src/Routing/Index.antt =====
-- The spans sorted and listed by the blocks that they contain.
use mathlib.Core.List.{append-nil, append_assoc}
use petals_ai_refactor.Prelude.{
  ltb, leb, ◌==◌, if◌then◌else◌, Bool-cases, length, get_elem?, replicate, range_from, All,
  All-append, All-weaken, ℕ, zero, suc, ◌+◌, ◌-◌, ◌≤◌, ◌<◌, ◌≡◌, refl, sym, ap, ◌∙◌, inl, inr, Bool,
  true, false, ◌&&◌, ◌||◌, none, some, List, [], ◌∷◌, ◌++◌, arith,
}
use petals_ai_refactor.Data.{PeerId, RemoteSpanInfo}
use petals_ai_refactor.Routing.Active.{covers, some_covers, Fits}
use petals_ai_refactor.Routing.Spans.{
  span_length, insert_span, sort_spans, append_at, append_all, index_spans,
}

-- Whether one of the spans is the peer's.
abbrev pub has_peer : PeerId → List RemoteSpanInfo → Bool
has_peer p [] = false
has_peer p (s ∷ spans) = s.peer_id == p || has_peer p spans

some_covers-insert :
    (p : PeerId) (b : ℕ) (s : RemoteSpanInfo) (spans : List RemoteSpanInfo)
    → some_covers p b (insert_span s spans) ≡ (covers p b s || some_covers p b spans)
unfolding insert_span
some_covers-insert p b s [] = refl
some_covers-insert p b s (t ∷ spans) = ground (arith, some_covers-insert p b s spans)

pub some_covers-sort :
    (p : PeerId) (b : ℕ) (spans : List RemoteSpanInfo)
    → some_covers p b (sort_spans spans) ≡ some_covers p b spans
unfolding sort_spans
some_covers-sort p b [] = refl
some_covers-sort p b (s ∷ spans) =
    some_covers-insert p b s (sort_spans spans) ∙ rw (some_covers-sort p b spans)

All-insert :
    (P : RemoteSpanInfo → Type 0) (s : RemoteSpanInfo) (spans : List RemoteSpanInfo)
    → P s
    → All P spans
    → All P (insert_span s spans)
unfolding insert_span
All-insert P s [] hs h = (hs, tt)
All-insert P s (t ∷ spans) hs h = elim (Bool-cases (ltb (span_length s) (span_length t))) [
  | inl lt ↦ rw lt (h.0, All-insert P s spans hs h.1)
  | inr ge ↦ rw ge (hs, h)
]

pub All-sort :
    (P : RemoteSpanInfo → Type 0) (spans : List RemoteSpanInfo)
    → All P spans
    → All P (sort_spans spans)
unfolding sort_spans
All-sort P [] h = tt
All-sort P (s ∷ spans) h = All-insert P s (sort_spans spans) h.0 (All-sort P spans h.1)

-- The candidates of a block.
abbrev pub spans_at : List (List RemoteSpanInfo) → ℕ → List RemoteSpanInfo
spans_at lists b = elim (get_elem? lists b) [ none ↦ [] | some spans ↦ spans ]

spans_at-append_at :
    (i b : ℕ) (s : RemoteSpanInfo) (lists : List (List RemoteSpanInfo))
    → i < length lists
    → spans_at (append_at i s lists) b
      ≡ (if i == b then spans_at lists b ++ s ∷ [] else spans_at lists b)
unfolding append_at
spans_at-append_at i b s [] h = elim h [ ]
spans_at-append_at zero zero s (spans ∷ lists) h = ground arith
spans_at-append_at zero (suc b) s (spans ∷ lists) h = ground arith
spans_at-append_at (suc i) zero s (spans ∷ lists) h = ground arith
spans_at-append_at (suc i) (suc b) s (spans ∷ lists) h =
    ground (arith, spans_at-append_at i b s lists)

length-append_at :
    (i : ℕ) (s : RemoteSpanInfo) (lists : List (List RemoteSpanInfo))
    → length (append_at i s lists) ≡ length lists
unfolding append_at
length-append_at i s [] = refl
length-append_at zero s (spans ∷ lists) = refl
length-append_at (suc i) s (spans ∷ lists) = ap suc (length-append_at i s lists)

length-append_all :
    (is : List ℕ) (s : RemoteSpanInfo) (lists : List (List RemoteSpanInfo))
    → length (append_all is s lists) ≡ length lists
unfolding append_all
length-append_all [] s lists = refl
length-append_all (i ∷ is) s lists =
    length-append_all is s (append_at i s lists) ∙ length-append_at i s lists

spans_at-append_all :
    (i n b : ℕ) (s : RemoteSpanInfo) (lists : List (List RemoteSpanInfo))
    → i + n ≤ length lists
    → spans_at (append_all (range_from i n) s lists) b
      ≡ (if leb i b && ltb b (i + n) then spans_at lists b ++ s ∷ [] else spans_at lists b)
unfolding append_all
spans_at-append_all i zero b s lists h = ground arith
spans_at-append_all i (suc n) b s lists h =
    let size = length-append_at i s lists in
    ground (
      arith,
      spans_at-append_all (i + 1) n b s (append_at i s lists),
      spans_at-append_at i b s lists,
      size,
    )

pub length-index_spans :
    (spans : List RemoteSpanInfo) (lists : List (List RemoteSpanInfo))
    → length (index_spans spans lists) ≡ length lists
unfolding index_spans
length-index_spans [] lists = refl
length-index_spans (s ∷ spans) lists =
    length-index_spans spans _ ∙ length-append_all (range_from s.start (span_length s)) s lists

has_peer-append :
    (p : PeerId) (xs ys : List RemoteSpanInfo)
    → has_peer p (xs ++ ys) ≡ (has_peer p xs || has_peer p ys)
has_peer-append p [] ys = refl
has_peer-append p (x ∷ xs) ys = ground (arith, has_peer-append p xs ys)

pub has_peer-index_spans :
    (p : PeerId) (b n : ℕ) (spans : List RemoteSpanInfo) (lists : List (List RemoteSpanInfo))
    → length lists ≡ n
    → All (Fits n) spans
    → has_peer p (spans_at (index_spans spans lists) b)
      ≡ (has_peer p (spans_at lists b) || some_covers p b spans)
unfolding index_spans
has_peer-index_spans p b n [] lists e h = ground arith
has_peer-index_spans p b n (s ∷ spans) lists e h =
    let size = length-append_all (range_from s.start (span_length s)) s lists in
    let rest =
      has_peer-index_spans p b n spans (append_all (range_from s.start (span_length s)) s lists)
        (size ∙ e) h.1 in
    let here = spans_at-append_all s.start (span_length s) b s lists (omega (arith, h.0)) in
    ground (arith, rest, here, has_peer-append p (spans_at lists b) (s ∷ []), h.0)

-- The spans that contain the block, in order.
abbrev pub containing : ℕ → List RemoteSpanInfo → List RemoteSpanInfo
containing b [] = []
containing b (s ∷ spans) =
    if leb s.start b && ltb b s.end then s ∷ containing b spans else containing b spans

pub spans_at-index_spans :
    (b n : ℕ) (spans : List RemoteSpanInfo) (lists : List (List RemoteSpanInfo))
    → length lists ≡ n
    → All (Fits n) spans
    → spans_at (index_spans spans lists) b ≡ spans_at lists b ++ containing b spans
unfolding index_spans
spans_at-index_spans b n [] lists e h = sym (append-nil (spans_at lists b))
spans_at-index_spans b n (s ∷ spans) lists e h =
    let cells = range_from s.start (span_length s) in
    let rest =
      spans_at-index_spans b n spans (append_all cells s lists)
        (length-append_all cells s lists ∙ e) h.1 in
    let here = spans_at-append_all s.start (span_length s) b s lists (omega (arith, h.0)) in
    let upto : s.start + span_length s ≡ s.end = omega (arith, h.0) in
    elim (Bool-cases (leb s.start b && ltb b s.end)) [
      | inl inside ↦
          let here' : spans_at (append_all cells s lists) b ≡ spans_at lists b ++ s ∷ [] =
            here ∙ rw upto (rw inside refl) in
          rest
          ∙ rw here' (rw inside (append_assoc (spans_at lists b) (s ∷ []) (containing b spans)))
      | inr outside ↦
          let here' : spans_at (append_all cells s lists) b ≡ spans_at lists b =
            here ∙ rw upto (rw outside refl) in
          rest ∙ rw here' (rw outside refl)
    ]

-- No span is longer than one before it.
abbrev pub IsByLength : List RemoteSpanInfo → Type 0
IsByLength [] = Unit
IsByLength (s ∷ spans) = All (λ t. t.end - t.start ≤ s.end - s.start) spans × IsByLength spans

insert_span-IsByLength :
    (s : RemoteSpanInfo) (spans : List RemoteSpanInfo)
    → IsByLength spans
    → IsByLength (insert_span s spans)
unfolding insert_span
insert_span-IsByLength s [] h = (tt, tt)
insert_span-IsByLength s (t ∷ spans) h = elim (Bool-cases (ltb (span_length s) (span_length t))) [
  | inl lt ↦
      let le : span_length s ≤ span_length t = ground (arith, lt) in
      rw lt (
        All-insert (λ u. span_length u ≤ span_length t) s spans le h.0,
        insert_span-IsByLength s spans h.1,
      )
  | inr ge ↦
      let le : span_length t ≤ span_length s = ground (arith, ge) in
      rw ge ((le, All-weaken _ _ spans (λ u l. omega (arith, l, le)) h.0), h)
]

pub sort_spans-IsByLength : (spans : List RemoteSpanInfo) → IsByLength (sort_spans spans)
unfolding sort_spans
sort_spans-IsByLength [] = tt
sort_spans-IsByLength (s ∷ spans) =
    insert_span-IsByLength s (sort_spans spans) (sort_spans-IsByLength spans)

-- Every block of the span has its peer, by the given test.
abbrev pub IsCovered : (PeerId → ℕ → Bool) → RemoteSpanInfo → Type 0
IsCovered test s = (c : ℕ) → s.start ≤ c → c < s.end → test s.peer_id c ≡ true

All-if-append :
    (P : RemoteSpanInfo → Type 0) (b : Bool) (s : RemoteSpanInfo) (spans : List RemoteSpanInfo)
    → All P spans
    → (b ≡ true → P s)
    → All P (if b then spans ++ s ∷ [] else spans)
All-if-append P true s spans h k = All-append P spans (s ∷ []) h (k refl, tt)
All-if-append P false s spans h k = h

pub All-index_spans :
    (P : RemoteSpanInfo → Type 0) (b n : ℕ) (spans : List RemoteSpanInfo)
    (lists : List (List RemoteSpanInfo))
    → length lists ≡ n
    → All (Fits n) spans
    → All P spans
    → All (λ s. P s × (s.start ≤ b) × (b < s.end)) (spans_at lists b)
    → All (λ s. P s × (s.start ≤ b) × (b < s.end)) (spans_at (index_spans spans lists) b)
unfolding index_spans
All-index_spans P b n [] lists e f h l = l
All-index_spans P b n (s ∷ spans) lists e f h l =
    let cells = range_from s.start (span_length s) in
    All-index_spans P b n spans (append_all cells s lists) (length-append_all cells s lists ∙ e) f.1
      h.1
      (rw (spans_at-append_all s.start (span_length s) b s lists (omega (arith, f.0))) (
        All-if-append (λ t. P t × (t.start ≤ b) × (b < t.end)) _ s (spans_at lists b) l
          (λ in_range. (h.0, ground (arith, f.0), ground (arith, f.0)))))

-- Every span of a list is covered by the list.
pub covers_itself :
    (spans : List RemoteSpanInfo) → All (IsCovered (λ p b. some_covers p b spans)) spans
covers_itself [] = tt
covers_itself (s ∷ spans) = (
  λ c ge lt. ground arith,
  All-weaken (IsCovered (λ p b. some_covers p b spans)) _ spans
      (λ t h c ge lt. ground (arith, h c ge lt)) (covers_itself spans),
)

pub spans_at-replicate : (n b : ℕ) → spans_at (replicate n []) b ≡ []
spans_at-replicate zero b = refl
spans_at-replicate (suc n) zero = refl
spans_at-replicate (suc n) (suc b) = spans_at-replicate n b
