-- ===== src/LinkedList/Front.antt =====
-- em_list_merge_first of include/em/list_i.h.
use emlib.Prelude.{
  ℕ, ◌≡◌, ◌≢◌, refl, sym, ◌∙◌, List, [], ◌∷◌, ◌++◌, arith, ◌==◌, false, put_at, Avoids, All-append,
}
use emlib.LinkedList.{Links, init, link_node, merge_first, merge_last}
use emlib.LinkedList.Chain.{IsRing, Apart, Apart-sym, frame, put_at-here, put_at-other, prev-Chain}
use emlib.LinkedList.Merge.{merge_last-IsRing}
use emlib.LinkedList.Splice.{Spliced, Spliced-Chain, behind}

-- The two links of the merge, before the second list is emptied.
abbrev linked : Links → ℕ → ℕ → ℕ → Links
linked h l1 l2 y = link_node (link_node h (h.prev l2) (h.next l1)) l1 y

linked-Spliced :
    (h : Links) (l1 l2 y : ℕ)
    → l1 ≢ h.prev l2
    → h.next l1 ≢ y
    → Spliced h (linked h l1 l2 y) l1 (h.next l1) y (h.prev l2)
linked-Spliced h l1 l2 y lp ny = record {
  changes = record {
    next = λ z a b.
        put_at-other (put_at h.next (h.prev l2) (h.next l1)) l1 y z a
        ∙ put_at-other h.next (h.prev l2) (h.next l1) z b;
    prev = λ z a b.
        put_at-other (put_at h.prev (h.next l1) (h.prev l2)) y l1 z a
        ∙ put_at-other h.prev (h.next l1) (h.prev l2) z b;
  };
  next_pos = put_at-here (put_at h.next (h.prev l2) (h.next l1)) l1 y;
  prev_first = put_at-here (put_at h.prev (h.next l1) (h.prev l2)) y l1;
  next_last =
      put_at-other (put_at h.next (h.prev l2) (h.next l1)) l1 y (h.prev l2) (λ q. lp (sym q))
      ∙ put_at-here h.next (h.prev l2) (h.next l1);
  prev_nx =
      put_at-other (put_at h.prev (h.next l1) (h.prev l2)) y l1 (h.next l1) ny
      ∙ put_at-here h.prev (h.next l1) (h.prev l2);
}

-- A ring without this node is not touched when the node is emptied.
init-IsRing :
    (h : Links) (list node : ℕ) (xs : List ℕ)
    → IsRing h list xs
    → Avoids node (list ∷ xs)
    → IsRing (init h node) list xs
init-IsRing h list node xs r a = record {
  chain =
      frame h (init h node) node node node node list xs list
        (record {
          next = λ z p q. put_at-other h.next node node z p;
          prev = λ z p q. put_at-other h.prev node node z p;
        })
        a a a.1 a.1 a.0 a.0 r.chain;
  distinct = r.distinct;
}

merge_first-linked :
    (h : Links) (l1 l2 y : ℕ)
    → h.next l2 ≡ y
    → y ≢ l2
    → h.prev l2 ≢ l2
    → merge_first h l1 l2 ≡ init (linked h l1 l2 y) l2
unfolding merge_first
merge_first-linked h l1 l2 y e yl pl =
    let full : (y == l2) ≡ false = ground arith in
    rw (put_at-other h.next (h.prev l2) (h.next l1) l2 (λ q. pl (sym q)), e, full) refl

-- Of two rings without a common node, of which the second has a first node y, em_list_merge_last makes the
-- ring of the nodes of the first and then those of the second, and em_list_merge_first the ring
-- of those of the second and then those of the first. Both empty the second ring.
pub merge-IsRing :
    (h : Links) (l1 l2 : ℕ) (xs : List ℕ) (y : ℕ) (ys : List ℕ)
    → IsRing h l1 xs
    → IsRing h l2 (y ∷ ys)
    → Apart (l1 ∷ xs) (l2 ∷ y ∷ ys)
    → (IsRing (merge_last h l1 l2) l1 (xs ++ (y ∷ ys)) × IsRing (merge_last h l1 l2) l2 [])
      × (IsRing (merge_first h l1 l2) l1 ((y ∷ ys) ++ xs) × IsRing (merge_first h l1 l2) l2 [])
merge-IsRing h l1 l2 xs y ys r1 r2 apart =
    let ch2 = r2.chain.2 in
    let back = Apart-sym (l1 ∷ xs) (l2 ∷ y ∷ ys) apart in
    let nodes_apart = Apart-sym (y ∷ ys) (l1 ∷ xs) back.1 in
    let nx = behind h l1 xs (y ∷ ys) r1.chain nodes_apart in
    let s =
      linked-Spliced h l1 l2 y (λ q. prev-Chain h y ys l2 l1 ch2 nodes_apart.0 (sym q))
        (λ q. nx.0 (sym q)) in
    let (c, d) =
      Spliced-Chain h (linked h l1 l2 y) l1 xs y ys l2 s r1.chain ch2 r1.distinct r2.distinct.1
        nodes_apart in
    let out : Avoids l2 (l1 ∷ ((y ∷ ys) ++ xs)) =
      (back.0.0, All-append (λ z. z ≢ l2) (y ∷ ys) xs r2.distinct.0 back.0.1) in
    let e =
      merge_first-linked h l1 l2 y r2.chain.0 r2.distinct.0.0
        (prev-Chain h y ys l2 l2 ch2 r2.distinct.0) in
    (
      merge_last-IsRing h l1 l2 xs y ys r1 r2 apart,
      rw e (
        init-IsRing (linked h l1 l2 y) l1 l2 ((y ∷ ys) ++ xs) (record { chain = c; distinct = d })
            out,
        record {
          chain = (
            put_at-here (linked h l1 l2 y).next l2 l2,
            put_at-here (linked h l1 l2 y).prev l2 l2,
          );
          distinct = (tt, tt);
        },
      ),
    )
