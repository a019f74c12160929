-- ===== src/Prelude/Every.antt =====
-- A property of every element of a list, and lists without repetition.
use mathlib.Core.Path.{sym}
use mathlib.Core.Logic.{◌≢◌}
use mathlib.Core.List.{List, [], ◌∷◌, ◌++◌}

module _ {ℓ κ} {A : Type ℓ} where
  abbrev pub All : (A → Type κ) → List A → Type κ
  All P [] = Unit
  All P (x ∷ xs) = P x × All P xs

  pub All-append : (P : A → Type κ) (xs ys : List A) → All P xs → All P ys → All P (xs ++ ys)
  All-append P [] ys hx hy = hy
  All-append P (x ∷ xs) ys hx hy = (hx.0, All-append P xs ys hx.1 hy)

  pub All-left : (P : A → Type κ) (xs ys : List A) → All P (xs ++ ys) → All P xs
  All-left P [] ys h = tt
  All-left P (x ∷ xs) ys h = (h.0, All-left P xs ys h.1)

  pub All-right : (P : A → Type κ) (xs ys : List A) → All P (xs ++ ys) → All P ys
  All-right P [] ys h = h
  All-right P (x ∷ xs) ys h = All-right P xs ys h.1

  pub All-mono : (P Q : A → Type κ) (xs : List A) → ((x : A) → P x → Q x) → All P xs → All Q xs
  All-mono P Q [] f h = tt
  All-mono P Q (x ∷ xs) f h = (f x h.0, All-mono P Q xs f h.1)

  pub All-and : (P Q : A → Type κ) (xs : List A) → All P xs → All Q xs → All (λ x. P x × Q x) xs
  All-and P Q [] hp hq = tt
  All-and P Q (x ∷ xs) hp hq = ((hp.0, hq.0), All-and P Q xs hp.1 hq.1)

module _ {A : Type 0} where
  -- `a` is not in the list.
  abbrev pub Avoids : A → List A → Type 0
  Avoids a xs = All (λ x. x ≢ a) xs

  abbrev pub Distinct : List A → Type 0
  Distinct [] = Unit
  Distinct (x ∷ xs) = Avoids x xs × Distinct xs

  pub Distinct-append :
      (xs ys : List A) → Distinct xs → Distinct ys → All (λ x. Avoids x ys) xs → Distinct (xs ++ ys)
  Distinct-append [] ys dx dy h = dy
  Distinct-append (x ∷ xs) ys dx dy h =
      (All-append (λ y. y ≢ x) xs ys dx.0 h.0, Distinct-append xs ys dx.1 dy h.1)

  -- Of two parts of a list without repetition, the first element of the second is in neither.
  pub Distinct-pop :
      (xs : List A) (a : A) (ys : List A)
      → Distinct (xs ++ (a ∷ ys))
      → Distinct (xs ++ ys) × Avoids a (xs ++ ys)
  Distinct-pop [] a ys d = (d.1, d.0)
  Distinct-pop (x ∷ xs) a ys d =
      let (d', av) = Distinct-pop xs a ys d.1 in
      let front = All-left (λ y. y ≢ x) xs (a ∷ ys) d.0 in
      let back = All-right (λ y. y ≢ x) xs (a ∷ ys) d.0 in
      ((All-append (λ y. y ≢ x) xs ys front back.1, d'), ((λ e. back.0 (sym e)), av))

  pub Distinct-push :
      (xs : List A) (a : A) (ys : List A)
      → Distinct (xs ++ ys)
      → Avoids a (xs ++ ys)
      → Distinct (xs ++ (a ∷ ys))
  Distinct-push [] a ys d av = (av, d)
  Distinct-push (x ∷ xs) a ys d av = (
    All-append (λ y. y ≢ x) xs (a ∷ ys) (All-left (λ y. y ≢ x) xs ys d.0)
        ((λ e. av.0 (sym e)), All-right (λ y. y ≢ x) xs ys d.0),
    Distinct-push xs a ys d.1 av.1,
  )
