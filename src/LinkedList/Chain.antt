-- ===== src/LinkedList/Chain.antt =====
-- Runs of linked nodes in the heap of include/em/list_i.h, and rings of them.
use emlib.Prelude.{
  ℕ, ◌≡◌, ◌≢◌, refl, sym, ap, ◌∙◌, List, [], ◌∷◌, ◌++◌, arith, ◌==◌, ==-refl, false, put_at, Avoids,
  Distinct, All, All-mono,
}
use emlib.LinkedList.{Links}

-- From x over the nodes ys to b, with the links in both directions.
abbrev pub Chain : Links → ℕ → List ℕ → ℕ → Type 0
Chain h x [] b = (h.next x ≡ b) × (h.prev b ≡ x)
Chain h x (y ∷ ys) b = (h.next x ≡ y) × (h.prev y ≡ x) × Chain h y ys b

-- No node is in both lists.
abbrev pub Apart : List ℕ → List ℕ → Type 0
Apart xs ys = All (λ x. Avoids x ys) xs

pub Apart-sym : (xs ys : List ℕ) → Apart xs ys → Apart ys xs
Apart-sym xs [] h = tt
Apart-sym xs (y ∷ ys) h = (
  All-mono (λ x. Avoids x (y ∷ ys)) (λ x. x ≢ y) xs (λ x f q. f.0 (sym q)) h,
  Apart-sym xs ys (All-mono (λ x. Avoids x (y ∷ ys)) (λ x. Avoids x ys) xs (λ x f. f.1) h),
)

-- The list with this head has these nodes.
pub record IsRing (h : Links) (head : ℕ) (nodes : List ℕ) : Type 0 where
  pub chain : Chain h head nodes head
  pub distinct : Distinct (head ∷ nodes)

pub put_at-here : (f : ℕ → ℕ) (i v : ℕ) → put_at f i v i ≡ v
put_at-here f i v = rw (==-refl i) refl

pub put_at-other : (f : ℕ → ℕ) (i v j : ℕ) → j ≢ i → put_at f i v j ≡ f j
put_at-other f i v j ne = let away : (i == j) ≡ false = ground arith in rw away refl

-- Only the next fields of p and q and the prev fields of r and s change.
pub record Changes (h h' : Links) (p q r s : ℕ) : Type 0 where
  pub next : (z : ℕ) → z ≢ p → z ≢ q → h'.next z ≡ h.next z
  pub prev : (z : ℕ) → z ≢ r → z ≢ s → h'.prev z ≡ h.prev z

pub frame :
    (h h' : Links) (p q r s x : ℕ) (ys : List ℕ) (b : ℕ)
    → Changes h h' p q r s
    → Avoids p (x ∷ ys)
    → Avoids q (x ∷ ys)
    → Avoids r ys
    → Avoids s ys
    → b ≢ r
    → b ≢ s
    → Chain h x ys b
    → Chain h' x ys b
frame h h' p q r s x [] b c ap aq ar av br bs ch =
    (c.next x ap.0 aq.0 ∙ ch.0, c.prev b br bs ∙ ch.1)
frame h h' p q r s x (y ∷ ys) b c ap aq ar av br bs ch = (
  c.next x ap.0 aq.0 ∙ ch.0,
  c.prev y ar.0 av.0 ∙ ch.1,
  frame h h' p q r s y ys b c ap.1 aq.1 ar.1 av.1 br bs ch.2,
)

-- The node before the end of a chain is one of its nodes, and so is the one behind its start.
pub prev-Chain :
    (h : Links) (x : ℕ) (ys : List ℕ) (b z : ℕ) → Chain h x ys b → Avoids z (x ∷ ys) → h.prev b ≢ z
prev-Chain h x [] b z ch av e = av.0 (sym ch.1 ∙ e)
prev-Chain h x (y ∷ ys) b z ch av e = prev-Chain h y ys b z ch.2 av.1 e

pub next-Chain :
    (h : Links) (x : ℕ) (ys : List ℕ) (b z : ℕ)
    → Chain h x ys b
    → Avoids z ys
    → b ≢ z
    → h.next x ≢ z
next-Chain h x [] b z ch av bz e = bz (sym ch.0 ∙ e)
next-Chain h x (y ∷ ys) b z ch av bz e = av.0 (sym ch.0 ∙ e)

pub Chain-split :
    (h : Links) (x : ℕ) (ys : List ℕ) (m : ℕ) (zs : List ℕ) (b : ℕ)
    → Chain h x (ys ++ (m ∷ zs)) b
    → Chain h x ys m × Chain h m zs b
Chain-split h x [] m zs b ch = ((ch.0, ch.1), ch.2)
Chain-split h x (y ∷ ys) m zs b ch =
    let (l, r) = Chain-split h y ys m zs b ch.2 in ((ch.0, ch.1, l), r)

pub next-prev : (h : Links) (x : ℕ) (ys : List ℕ) (b : ℕ) → Chain h x ys b → h.next (h.prev b) ≡ b
next-prev h x [] b ch = ap h.next ch.1 ∙ ch.0
next-prev h x (y ∷ ys) b ch = next-prev h y ys b ch.2
