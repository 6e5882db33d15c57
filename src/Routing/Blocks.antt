-- ===== src/Routing/Blocks.antt =====
-- One block in the loop of `compute_spans`: the spans that open and those that close.
use petals_ai_refactor.Prelude.{
  ◌==◌, if◌then◌else◌, Bool-cases, All, ℕ, ◌+◌, ◌≤◌, ◌≡◌, refl, ◌∙◌, inl, inr, Bool, true, false,
  not, ◌&&◌, ◌||◌, Option, none, some, List, [], ◌∷◌, arith,
}
use petals_ai_refactor.Data.{PeerId, ServerInfo, RemoteModuleInfo, is_online}
use petals_ai_refactor.Routing.Spans.{
  ActiveSpans, extend_span, lookup, open_spans, online_in, close_spans,
}
use petals_ai_refactor.Routing.Active.{
  some_covers, some_active, is_active, IsActive, IsActive-ext, ends_after, extend-IsActive,
  some_active-extend, Fits,
}

module _ {F : Type 0} where
  abbrev pub any_online : PeerId → List (PeerId × ServerInfo F) → Bool
  any_online p [] = false
  any_online p ((q, server) ∷ servers) = (q == p && is_online server.state) || any_online p servers

  pub any_online-lookup :
      (p : PeerId) (servers : List (PeerId × ServerInfo F)) (server : ServerInfo F)
      → lookup p servers ≡ some server
      → is_online server.state ≡ true
      → any_online p servers ≡ true
  any_online-lookup p [] server e h = cc
  any_online-lookup p ((q, t) ∷ servers) server e h =
      ground (arith, any_online-lookup p servers server)

  -- where the spans end after the servers of the block `i`
  abbrev ends_of : ℕ → List (PeerId × ServerInfo F) → (PeerId → ℕ) → PeerId → ℕ
  ends_of i servers f q = if any_online q servers then i + 1 else f q

  pub open-IsActive :
      (i : ℕ) (servers : List (PeerId × ServerInfo F)) (f : PeerId → ℕ) (a : ActiveSpans)
      → ((q : PeerId) → f q ≤ i + 1)
      → IsActive f a
      → IsActive (ends_of i servers f) (open_spans i servers a)
  unfolding open_spans
  open-IsActive i [] f a le h = h
  open-IsActive i ((p, server) ∷ servers) f a le h = elim (Bool-cases (is_online server.state)) [
    | inl on ↦ rw on (
        IsActive-ext _ _ _ (λ q m. ground arith)
          (open-IsActive i servers (ends_after i p f) (extend_span i p a)
            (λ q. ground (arith, le q)) (extend-IsActive i p f a (le p) h)))
    | inr off ↦ rw off (IsActive-ext _ _ _ (λ q m. ground arith) (open-IsActive i servers f a le h))
  ]

  pub some_active-open :
      (i : ℕ) (servers : List (PeerId × ServerInfo F)) (f : PeerId → ℕ) (a : ActiveSpans)
      (p : PeerId) (b : ℕ)
      → ((q : PeerId) → (f q ≤ i + 1) × (i ≤ f q))
      → IsActive f a
      → some_active p b (open_spans i servers a)
        ≡ (some_active p b a || (any_online p servers && b == i))
  unfolding open_spans
  some_active-open i [] f a p b le h = ground arith
  some_active-open i ((q, server) ∷ servers) f a p b le h =
      elim (Bool-cases (is_online server.state)) [
        | inl on ↦
            let rest =
              some_active-open i servers (ends_after i q f) (extend_span i q a) p b
                (λ r. ground (arith, le r)) (extend-IsActive i q f a (le q).0 h) in
            let here = some_active-extend i p q b f a (le q).0 (le q).1 h in
            rw on (ground (arith, rest, here))
        | inr off ↦ rw off (ground (arith, some_active-open i servers f a p b le h))
      ]

  pub some_active-close :
      (info : Option (RemoteModuleInfo F)) (last : Bool) (a : ActiveSpans) (p : PeerId) (b : ℕ)
      → (some_active p b (close_spans info last a).0 || some_covers p b (close_spans info last a).1)
        ≡ some_active p b a
  unfolding close_spans
  some_active-close info last [] p b = refl
  some_active-close info last ((q, s) ∷ a) p b = ground (arith, some_active-close info last a p b)

  is_active-close :
      (info : Option (RemoteModuleInfo F)) (last : Bool) (a : ActiveSpans) (p : PeerId)
      → is_active p a ≡ false
      → is_active p (close_spans info last a).0 ≡ false
  unfolding close_spans
  is_active-close info last [] p h = refl
  is_active-close info last ((q, s) ∷ a) p h = ground (arith, is_active-close info last a p)

  pub close-IsActive :
      (info : Option (RemoteModuleInfo F)) (last : Bool) (f g : PeerId → ℕ) (a : ActiveSpans)
      → ((p : PeerId) → online_in info p ≡ true → f p ≡ g p)
      → IsActive f a
      → IsActive g (close_spans info last a).0
  unfolding close_spans
  close-IsActive info last f g [] e h = tt
  close-IsActive info last f g ((q, s) ∷ a) e h =
      elim (Bool-cases (not (online_in info q) || last)) [
        | inl gone ↦ rw gone (close-IsActive info last f g a e h.4)
        | inr stays ↦ rw stays (
          h.0,
          h.1,
          h.2 ∙ e q (ground arith),
          is_active-close info last a q h.3,
          close-IsActive info last f g a e h.4,
        )
      ]

  pub close-last :
      (info : Option (RemoteModuleInfo F)) (a : ActiveSpans) → (close_spans info true a).0 ≡ []
  unfolding close_spans
  close-last info [] = refl
  close-last info ((q, s) ∷ a) = ground (arith, close-last info a)

  pub close-Fits :
      (info : Option (RemoteModuleInfo F)) (last : Bool) (f : PeerId → ℕ) (i : ℕ) (a : ActiveSpans)
      → ((p : PeerId) → f p ≤ i)
      → IsActive f a
      → All (Fits i) (close_spans info last a).1
  unfolding close_spans
  close-Fits info last f i [] le h = tt
  close-Fits info last f i ((q, s) ∷ a) le h = elim (Bool-cases (not (online_in info q) || last)) [
    | inl gone ↦ rw gone ((h.1, omega (arith, le q)), close-Fits info last f i a le h.4)
    | inr stays ↦ rw stays (close-Fits info last f i a le h.4)
  ]

  -- Whether the records, the first of them at block `i`, have the peer online at block `b`.
  abbrev pub serves_at : ℕ → List (Option (RemoteModuleInfo F)) → PeerId → ℕ → Bool
  serves_at i [] p b = false
  serves_at i (none ∷ infos) p b = serves_at (i + 1) infos p b
  serves_at i (some info ∷ infos) p b =
      (any_online p info.servers && b == i) || serves_at (i + 1) infos p b

  abbrev pub IsLast : List (Option (RemoteModuleInfo F)) → ActiveSpans → Type 0
  IsLast [] a = a ≡ []
  IsLast (info ∷ infos) a = Unit
