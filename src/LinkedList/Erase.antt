-- ===== src/LinkedList/Erase.antt =====
-- Erasure of a node of a list of include/em/list_i.h.
use emlib.Prelude.{
  ℕ, ◌≡◌, ◌≢◌, refl, sym, ap, subst, ◌∙◌, List, [], ◌∷◌, ◌++◌, put_at, Avoids, Distinct, All-left,
  All-right, All-append, Distinct-pop,
}
use emlib.LinkedList.{Links, erase}
use emlib.LinkedList.Chain.{
  Chain, Chain-split, IsRing, put_at-here, put_at-other, Changes, frame, prev-Chain, next-Chain,
}

-- What an erasure of a node between pn and nx leaves.
record Erased (h h' : Links) (pn node nx : ℕ) : Type 0 where
  changes : Changes h h' pn node nx node
  next_prev : h'.next pn ≡ nx
  prev_next : h'.prev nx ≡ pn
  next_self : h'.next node ≡ node
  prev_self : h'.prev node ≡ node

erase_lem :
    (h : Links) (pn node nx : ℕ)
    → pn ≢ node
    → nx ≢ node
    → h.prev node ≡ pn
    → h.next node ≡ nx
    → Erased h (erase h node) pn node nx
unfolding erase
erase_lem h pn node nx a b ep en =
    rw (ep, en)
      record {
        changes = record {
          next = λ z zp zn.
              put_at-other (put_at h.next pn nx) node node z zn ∙ put_at-other h.next pn nx z zp;
          prev = λ z zx zn.
              put_at-other (put_at h.prev nx pn) node node z zn ∙ put_at-other h.prev nx pn z zx;
        };
        next_prev = put_at-other (put_at h.next pn nx) node node pn a ∙ put_at-here h.next pn nx;
        prev_next = put_at-other (put_at h.prev nx pn) node node nx b ∙ put_at-here h.prev nx pn;
        next_self = put_at-here (put_at h.next pn nx) node node;
        prev_self = put_at-here (put_at h.prev nx pn) node node;
      }

-- From the node before the erased one on.
behind :
    (h h' : Links) (x node : ℕ) (ys : List ℕ) (b : ℕ)
    → Erased h h' x node (h.next node)
    → Chain h node ys b
    → Avoids x ys
    → Distinct (node ∷ ys)
    → Avoids b (node ∷ ys)
    → Chain h' x ys b
behind h h' x node [] b e ch ax d ab =
    let end = ch.0 in (e.next_prev ∙ end, ap h'.prev (sym end) ∙ e.prev_next)
behind h h' x node (y ∷ ys) b e ch ax d ab =
    let first = ch.0 in
    (
      e.next_prev ∙ first,
      ap h'.prev (sym first) ∙ e.prev_next,
      frame h h' x node (h.next node) node y ys b e.changes ax d.0
          (subst (λ z. Avoids z ys) (sym first) d.1.0) d.0.1 (λ q. ab.1.0 (sym (q ∙ first)))
          (λ q. ab.0 (sym q)) ch.2,
    )

-- Along the chain up to the erased node.
along :
    (h h' : Links) (x : ℕ) (xs : List ℕ) (node : ℕ) (ys : List ℕ) (b : ℕ)
    → Erased h h' (h.prev node) node (h.next node)
    → Chain h x xs node
    → Chain h node ys b
    → Distinct (x ∷ (xs ++ (node ∷ ys)))
    → Avoids b (xs ++ (node ∷ ys))
    → Chain h' x (xs ++ ys) b
along h h' x [] node ys b e l r d ab =
    behind h h' x node ys b (subst (λ p. Erased h h' p node (h.next node)) l.1 e) r d.0.1 d.1 ab
along h h' x (a ∷ xs) node ys b e l r d ab = (
  e.changes.next x (λ q. before (sym q))
        (λ q. (All-right (λ z. z ≢ x) xs (node ∷ ys) d.0.1).0 (sym q))
      ∙ l.0,
  e.changes.prev a (λ q. after (sym q))
        (λ q. (All-right (λ z. z ≢ a) xs (node ∷ ys) d.1.0).0 (sym q))
      ∙ l.1,
  along h h' a xs node ys b e l.2 r d.1 ab.1,
)
  where
    before : h.prev node ≢ x
    before = prev-Chain h a xs node x l.2 (d.0.0, All-left (λ z. z ≢ x) xs (node ∷ ys) d.0.1)

    after : h.next node ≢ a
    after =
        next-Chain h node ys b a r (All-right (λ z. z ≢ a) xs (node ∷ ys) d.1.0).1
          (λ q. ab.0 (sym q))

-- em_list_erase of a node of a ring leaves the ring of the other nodes in their order, and makes the node
-- the head of an empty list.
pub erase-IsRing :
    (h : Links) (list : ℕ) (xs : List ℕ) (node : ℕ) (ys : List ℕ)
    → IsRing h list (xs ++ (node ∷ ys))
    → IsRing (erase h node) list (xs ++ ys) × IsRing (erase h node) node []
erase-IsRing h list xs node ys r =
    let (l, m) = Chain-split h list xs node ys list r.chain in
    let (d, av) = Distinct-pop xs node ys r.distinct.1 in
    let away : node ≢ list = (All-right (λ z. z ≢ list) xs (node ∷ ys) r.distinct.0).0 in
    let e =
      erase_lem h (h.prev node) node (h.next node)
        (prev-Chain h list xs node node l ((λ q. away (sym q)), All-left (λ z. z ≢ node) xs ys av))
        (next-Chain h node ys list node m (All-right (λ z. z ≢ node) xs ys av) (λ q. away (sym q)))
        refl refl in
    (
      record {
        chain = along h (erase h node) list xs node ys list e l m r.distinct r.distinct.0;
        distinct = (
          All-append (λ z. z ≢ list) xs ys (All-left (λ z. z ≢ list) xs (node ∷ ys) r.distinct.0)
              (All-right (λ z. z ≢ list) xs (node ∷ ys) r.distinct.0).1,
          d,
        );
      },
      record { chain = (e.next_self, e.prev_self); distinct = (tt, tt) },
    )
