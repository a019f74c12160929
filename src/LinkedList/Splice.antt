-- ===== src/LinkedList/Splice.antt =====
-- Nodes that are linked in behind a node, in include/em/list_i.h.
use emlib.Prelude.{
  ℕ, ◌≡◌, ◌≢◌, refl, sym, ap, ◌∙◌, List, [], ◌∷◌, ◌++◌, All, Avoids, Distinct, All-append,
  Distinct-append, All-mono, subst,
}
use emlib.LinkedList.{Links}
use emlib.LinkedList.Chain.{Chain, Apart, Apart-sym, Changes, frame, prev-Chain}

-- What it leaves to link the nodes from first to last in between pos and nx.
pub record Spliced (h h' : Links) (pos nx first last : ℕ) : Type 0 where
  pub changes : Changes h h' pos last first nx
  pub next_pos : h'.next pos ≡ first
  pub prev_first : h'.prev first ≡ pos
  pub next_last : h'.next last ≡ nx
  pub prev_nx : h'.prev nx ≡ last

-- The nodes behind the new ones.
rest_lem :
    (h h' : Links) (pos first last nx : ℕ) (xs : List ℕ)
    → Spliced h h' pos nx first last
    → h.next pos ≡ nx
    → Chain h pos xs pos
    → Distinct (pos ∷ xs)
    → Avoids last (pos ∷ xs)
    → Avoids first (pos ∷ xs)
    → Chain h' last xs pos
rest_lem h h' pos first last nx [] s e ch d al af =
    (s.next_last ∙ (sym e ∙ ch.0), ap h'.prev (sym ch.0 ∙ e) ∙ s.prev_nx)
rest_lem h h' pos first last nx (x ∷ xs) s e ch d al af =
    let at : nx ≡ x = sym e ∙ ch.0 in
    (
      s.next_last ∙ at,
      ap h'.prev (sym at) ∙ s.prev_nx,
      frame h h' pos last first nx x xs pos s.changes d.0 al.1 af.1.1
          (All-mono (λ z. z ≢ x) (λ z. z ≢ nx) xs (λ z f q. f (q ∙ at)) d.1.0) af.0
          (λ q. d.0.0 (sym (q ∙ at))) ch.2,
    )

module _ (h h' : Links) (pos first nx b : ℕ) (xs : List ℕ)
    (s : Spliced h h' pos nx first (h.prev b)) (rest : Chain h' (h.prev b) xs pos) where
  -- From one of the new nodes on.
  walk :
      (z : ℕ) (zs : List ℕ)
      → Chain h z zs b
      → Distinct (z ∷ zs)
      → Avoids pos (z ∷ zs)
      → Avoids first zs
      → Avoids nx zs
      → Chain h' z (zs ++ xs) pos
  walk z [] ch d ap' af an = subst (λ k. Chain h' k xs pos) ch.1 rest
  walk z (w ∷ ws) ch d ap' af an = (
    s.changes.next z ap'.0 (λ q. prev-Chain h w ws b z ch.2 d.0 (sym q)) ∙ ch.0,
    s.changes.prev w af.0 an.0 ∙ ch.1,
    walk w ws ch.2 d.1 ap'.1 af.1 an.1,
  )

-- Where the node behind pos is not one of the new ones.
pub behind :
    (h : Links) (pos : ℕ) (xs zs : List ℕ)
    → Chain h pos xs pos
    → All (λ x. Avoids x zs) (pos ∷ xs)
    → Avoids (h.next pos) zs
behind h pos [] zs ch a = subst (λ k. Avoids k zs) (sym ch.0) a.0
behind h pos (x ∷ xs) zs ch a = subst (λ k. Avoids k zs) (sym ch.0) a.1.0

pub Spliced-Chain :
    (h h' : Links) (pos : ℕ) (xs : List ℕ) (first : ℕ) (ys : List ℕ) (b : ℕ)
    → Spliced h h' pos (h.next pos) first (h.prev b)
    → Chain h pos xs pos
    → Chain h first ys b
    → Distinct (pos ∷ xs)
    → Distinct (first ∷ ys)
    → Apart (pos ∷ xs) (first ∷ ys)
    → Chain h' pos ((first ∷ ys) ++ xs) pos × Distinct (pos ∷ ((first ∷ ys) ++ xs))
Spliced-Chain h h' pos xs first ys b s ch1 ch2 d1 d2 apart =
    let back = Apart-sym (pos ∷ xs) (first ∷ ys) apart in
    let last_out : Avoids (h.prev b) (pos ∷ xs) =
      All-mono (λ x. Avoids x (first ∷ ys)) (λ x. x ≢ h.prev b) (pos ∷ xs)
        (λ x f q. prev-Chain h first ys b x ch2 f (sym q)) apart in
    let rest = rest_lem h h' pos first (h.prev b) (h.next pos) xs s refl ch1 d1 last_out back.0 in
    let nx_out = behind h pos xs (first ∷ ys) ch1 apart in
    let new = walk h h' pos first (h.next pos) b xs s rest first ys ch2 d2 apart.0 d2.0 nx_out.1 in
    let tails =
      All-mono (λ y. Avoids y (pos ∷ xs)) (λ y. Avoids y xs) (first ∷ ys) (λ y f. f.1) back in
    (
      (s.next_pos, s.prev_first, new),
      (
        All-append (λ z. z ≢ pos) (first ∷ ys) xs apart.0 d1.0,
        Distinct-append (first ∷ ys) xs d2 d1.1 tails,
      ),
    )
