-- ===== src/Client/Middle.antt =====
-- Reads and writes at the index behind the first of two lists.
use petals_ai_refactor.Prelude.{
  length, get_elem?, set, take, drop, ℕ, zero, suc, ◌-◌, ◌≡◌, refl, sym, ap, ◌∙◌, none, some, List,
  [], ◌∷◌, ◌++◌, arith,
}
use petals_ai_refactor.Routing.Info.{slice}
use petals_ai_refactor.Client.Stream.{ServerSession, Servers, close_stream}
use petals_ai_refactor.Client.Session.{splice, close_at}

module _ {A : Type 0} where
  pub get_elem?-middle :
      (xs ys : List A) (y : A) (k : ℕ) → length xs ≡ k → get_elem? (xs ++ y ∷ ys) k ≡ some y
  get_elem?-middle [] ys y zero e = refl
  get_elem?-middle [] ys y (suc k) e = absurd (omega arith)
  get_elem?-middle (x ∷ xs) ys y zero e = absurd (omega arith)
  get_elem?-middle (x ∷ xs) ys y (suc k) e = get_elem?-middle xs ys y k (omega arith)

  pub get_elem?-end : (xs : List A) (k : ℕ) → length xs ≡ k → get_elem? (xs ++ []) k ≡ none
  get_elem?-end [] k e = refl
  get_elem?-end (x ∷ xs) zero e = absurd (omega arith)
  get_elem?-end (x ∷ xs) (suc k) e = get_elem?-end xs k (omega arith)

  pub set-middle :
      (xs ys : List A) (y z : A) (k : ℕ) → length xs ≡ k → set (xs ++ y ∷ ys) k z ≡ xs ++ z ∷ ys
  set-middle [] ys y z zero e = refl
  set-middle [] ys y z (suc k) e = absurd (omega arith)
  set-middle (x ∷ xs) ys y z zero e = absurd (omega arith)
  set-middle (x ∷ xs) ys y z (suc k) e = ap (λ l. x ∷ l) (set-middle xs ys y z k (omega arith))

  pub splice-middle :
      (xs ys zs : List A) (y : A) (k : ℕ)
      → length xs ≡ k
      → splice k zs (xs ++ y ∷ ys) ≡ xs ++ (zs ++ ys)
  unfolding splice
  splice-middle [] ys zs y zero e = refl
  splice-middle [] ys zs y (suc k) e = absurd (omega arith)
  splice-middle (x ∷ xs) ys zs y zero e = absurd (omega arith)
  splice-middle (x ∷ xs) ys zs y (suc k) e =
      ap (λ l. x ∷ l) (splice-middle xs ys zs y k (omega arith))

  splice_empty : (k : ℕ) (zs : List A) → splice k zs [] ≡ zs
  unfolding splice
  splice_empty zero zs = refl
  splice_empty (suc k) zs = refl

  pub append_assoc : (xs ys zs : List A) → (xs ++ ys) ++ zs ≡ xs ++ (ys ++ zs)
  append_assoc [] ys zs = refl
  append_assoc (x ∷ xs) ys zs = ap (λ l. x ∷ l) (append_assoc xs ys zs)

  pub append_nil : (xs : List A) → xs ++ [] ≡ xs
  append_nil [] = refl
  append_nil (x ∷ xs) = ap (λ l. x ∷ l) (append_nil xs)

  pub splice-nil : (k : ℕ) (zs xs : List A) → xs ≡ [] → splice k zs xs ≡ zs ++ []
  splice-nil k zs xs e = ap (splice k zs) e ∙ splice_empty k zs ∙ sym (append_nil zs)

  pub take-drop : (n : ℕ) (xs : List A) → take n xs ++ drop n xs ≡ xs
  take-drop zero xs = refl
  take-drop (suc n) [] = refl
  take-drop (suc n) (x ∷ xs) = ap (λ l. x ∷ l) (take-drop n xs)

  pub take-append : (xs ys : List A) (n : ℕ) → length xs ≡ n → take n (xs ++ ys) ≡ xs
  take-append [] ys zero e = refl
  take-append [] ys (suc n) e = absurd (omega arith)
  take-append (x ∷ xs) ys zero e = absurd (omega arith)
  take-append (x ∷ xs) ys (suc n) e = ap (λ l. x ∷ l) (take-append xs ys n (omega arith))

  pub drop-append : (xs ys : List A) (n : ℕ) → length xs ≡ n → drop n (xs ++ ys) ≡ ys
  drop-append [] ys zero e = refl
  drop-append [] ys (suc n) e = absurd (omega arith)
  drop-append (x ∷ xs) ys zero e = absurd (omega arith)
  drop-append (x ∷ xs) ys (suc n) e = drop-append xs ys n (omega arith)

  take-nil : (n : ℕ) → take {A = A} n [] ≡ []
  take-nil zero = refl
  take-nil (suc n) = refl

  pub slice-nil : (start stop : ℕ) → slice {A = A} start stop [] ≡ []
  slice-nil zero stop = take-nil (stop - 0)
  slice-nil (suc start) stop = take-nil (stop - suc start)

module _ {W X P K : Type 0} (servers : Servers W X P K) (w : W) where
  pub close_at-middle :
      (xs ys : List (ServerSession X)) (y : ServerSession X) (k : ℕ)
      → length xs ≡ k
      → close_at servers w k (xs ++ y ∷ ys) ≡ xs ++ close_stream servers w y ∷ ys
  unfolding close_at
  close_at-middle [] ys y zero e = refl
  close_at-middle [] ys y (suc k) e = absurd (omega arith)
  close_at-middle (x ∷ xs) ys y zero e = absurd (omega arith)
  close_at-middle (x ∷ xs) ys y (suc k) e =
      ap (λ l. x ∷ l) (close_at-middle xs ys y k (omega arith))
