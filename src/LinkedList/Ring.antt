-- ===== src/LinkedList/Ring.antt =====
-- em_list_insert_nodes_after, em_list_insert_nodes_before and em_list_merge_first of
-- include/em/list_i.h on rings.
use emlib.Prelude.{
  ℕ, ◌≡◌, ◌≢◌, sym, ◌∙◌, List, [], ◌∷◌, ◌++◌, append_assoc, append-nil, put_at, Avoids, Distinct,
  All-left, All-right, Distinct-append, subst,
}
use emlib.LinkedList.{Links, insert_nodes_after, insert_nodes_before}
use emlib.LinkedList.Chain.{
  Chain, Chain-split, IsRing, Apart, Apart-sym, put_at-here, put_at-other, prev-Chain,
}
use emlib.LinkedList.Splice.{Spliced, Spliced-Chain, behind}

insert_nodes_after-Spliced :
    (h : Links) (pos lst : ℕ)
    → pos ≢ h.prev lst
    → h.next pos ≢ lst
    → Spliced h (insert_nodes_after h pos lst) pos (h.next pos) lst (h.prev lst)
unfolding insert_nodes_after
insert_nodes_after-Spliced h pos lst pl nl = record {
  changes = record {
    next = λ z a b.
        put_at-other (put_at h.next pos lst) (h.prev lst) (h.next pos) z b
        ∙ put_at-other h.next pos lst z a;
    prev = λ z a b.
        put_at-other (put_at h.prev lst pos) (h.next pos) (h.prev lst) z b
        ∙ put_at-other h.prev lst pos z a;
  };
  next_pos =
      put_at-other (put_at h.next pos lst) (h.prev lst) (h.next pos) pos pl
      ∙ put_at-here h.next pos lst;
  prev_first =
      put_at-other (put_at h.prev lst pos) (h.next pos) (h.prev lst) lst (λ q. nl (sym q))
      ∙ put_at-here h.prev lst pos;
  next_last = put_at-here (put_at h.next pos lst) (h.prev lst) (h.next pos);
  prev_nx = put_at-here (put_at h.prev lst pos) (h.next pos) (h.prev lst);
}

-- Rings whose nodes lie apart: the ends of the second are not in the first.
module _ (h : Links) (pos lst : ℕ) (xs ys : List ℕ) where
  last-Apart : Chain h lst ys lst → Apart (pos ∷ xs) (lst ∷ ys) → pos ≢ h.prev lst
  last-Apart ch a q = prev-Chain h lst ys lst pos ch a.0 (sym q)

  pub nodes_after :
      IsRing h pos xs
      → IsRing h lst ys
      → Apart (pos ∷ xs) (lst ∷ ys)
      → IsRing (insert_nodes_after h pos lst) pos ((lst ∷ ys) ++ xs)
  nodes_after r1 r2 a =
      let nx = behind h pos xs (lst ∷ ys) r1.chain a in
      let s = insert_nodes_after-Spliced h pos lst (last-Apart r2.chain a) (λ q. nx.0 (sym q)) in
      let (c, d) =
        Spliced-Chain h (insert_nodes_after h pos lst) pos xs lst ys lst s r1.chain r2.chain
          r1.distinct r2.distinct a in
      record { chain = c; distinct = d }

Chain-join :
    (h : Links) (x : ℕ) (ys : List ℕ) (m : ℕ) (zs : List ℕ) (b : ℕ)
    → Chain h x ys m
    → Chain h m zs b
    → Chain h x (ys ++ (m ∷ zs)) b
Chain-join h x [] m zs b l r = (l.0, l.1, r)
Chain-join h x (y ∷ ys) m zs b l r = (l.0, l.1, Chain-join h y ys m zs b l.2 r)

Distinct-split : (xs ys : List ℕ) → Distinct (xs ++ ys) → Distinct xs × Distinct ys × Apart xs ys
Distinct-split [] ys d = (tt, d, tt)
Distinct-split (x ∷ xs) ys d =
    let (l, r, a) = Distinct-split xs ys d.1 in
    ((All-left (λ y. y ≢ x) xs ys d.0, l), r, (All-right (λ y. y ≢ x) xs ys d.0, a))

Distinct-rotate : (xs ys : List ℕ) → Distinct (xs ++ ys) → Distinct (ys ++ xs)
Distinct-rotate xs ys d =
    let (l, r, a) = Distinct-split xs ys d in Distinct-append ys xs r l (Apart-sym xs ys a)

-- A ring may be seen from any of its nodes.
pub rotate :
    (h : Links) (x : ℕ) (as' : List ℕ) (m : ℕ) (bs : List ℕ)
    → IsRing h x (as' ++ (m ∷ bs))
    → IsRing h m (bs ++ (x ∷ as'))
rotate h x as' m bs r =
    let (l, k) = Chain-split h x as' m bs x r.chain in
    record {
      chain = Chain-join h m bs x as' m k l;
      distinct = Distinct-rotate (x ∷ as') (m ∷ bs) r.distinct;
    }

-- A list is empty or has a last element.
with_last :
    (P : List ℕ → Type 0)
    → P []
    → ((as' : List ℕ) (p : ℕ) → P (as' ++ (p ∷ [])))
    → (xs : List ℕ) → P xs
with_last P e f [] = e
with_last P e f (x ∷ xs) = with_last (λ l. P (x ∷ l)) (f [] x) (λ as' p. f (x ∷ as') p) xs

module _ (h : Links) (pos lst : ℕ) (ys : List ℕ) (r2 : IsRing h lst ys) where
  abbrev Before : List ℕ → Type 0
  Before xs =
      IsRing h pos xs
      → Apart (pos ∷ xs) (lst ∷ ys)
      → IsRing (insert_nodes_before h pos lst) pos (xs ++ (lst ∷ ys))

  alone : Before []
  alone r a =
      let one : h.prev pos ≡ pos = r.chain.1 in
      let after = nodes_after h pos lst [] ys r r2 a in
      rw one (subst (IsRing (insert_nodes_after h pos lst) pos) (append-nil (lst ∷ ys)) after)

  behind_last : (as' : List ℕ) (p : ℕ) → Before (as' ++ (p ∷ []))
  behind_last as' p r a =
      let from_p = rotate h pos as' p [] r in
      let one : h.prev pos ≡ p = from_p.chain.1 in
      let a1 = All-left (λ x. Avoids x (lst ∷ ys)) as' (p ∷ []) a.1 in
      let a2 = All-right (λ x. Avoids x (lst ∷ ys)) as' (p ∷ []) a.1 in
      let after = nodes_after h p lst (pos ∷ as') ys from_p r2 (a2.0, (a.0, a1)) in
      rw one (
        subst (IsRing (insert_nodes_after h p lst) pos) (sym (append_assoc as' (p ∷ []) (lst ∷ ys)))
          (rotate (insert_nodes_after h p lst) p (lst ∷ ys) pos as' after))

-- em_list_insert_nodes_after puts the nodes of a ring without a head, from the given one on, behind a
-- node of another ring, and em_list_insert_nodes_before puts them before it; the other nodes keep
-- their order. Both rings are seen from the nodes that are given, and have no node in common.
pub insert_nodes-IsRing :
    (h : Links) (pos lst : ℕ) (xs ys : List ℕ)
    → IsRing h pos xs
    → IsRing h lst ys
    → Apart (pos ∷ xs) (lst ∷ ys)
    → IsRing (insert_nodes_after h pos lst) pos ((lst ∷ ys) ++ xs)
      × IsRing (insert_nodes_before h pos lst) pos (xs ++ (lst ∷ ys))
insert_nodes-IsRing h pos lst xs ys r1 r2 a = (
  nodes_after h pos lst xs ys r1 r2 a,
  with_last (Before h pos lst ys r2) (alone h pos lst ys r2) (behind_last h pos lst ys r2) xs r1 a,
)
