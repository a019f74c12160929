-- ===== src/LinkedList/Insert.antt =====
-- Insertion at the front and at the back of a list of include/em/list_i.h.
use emlib.Prelude.{
  ℕ, ◌≡◌, ◌≢◌, sym, ap, ◌∙◌, List, [], ◌∷◌, ◌++◌, arith, ◌==◌, false, put_at, Avoids, Distinct,
  All-append, All-mono, Distinct-append,
}
use emlib.LinkedList.{Links, insert_after, insert_head, insert_tail}
use emlib.LinkedList.Chain.{
  Chain, IsRing, put_at-here, put_at-other, Changes, frame, prev-Chain, next-prev,
}

-- What an insertion behind pos leaves.
record Inserted (h h' : Links) (pos node nx : ℕ) : Type 0 where
  changes : Changes h h' node pos node nx
  next_pos : h'.next pos ≡ node
  next_node : h'.next node ≡ nx
  prev_node : h'.prev node ≡ pos
  prev_next : h'.prev nx ≡ node

insert_after_lem :
    (h : Links) (pos node nx : ℕ)
    → node ≢ pos
    → node ≢ nx
    → h.next pos ≡ nx
    → Inserted h (insert_after h pos node) pos node nx
unfolding insert_after
insert_after_lem h pos node nx np nn e =
    let apart : (node == pos) ≡ false = ground arith in
    rw (apart, e)
      record {
        changes = record {
          next = λ z zn zp.
              put_at-other (put_at h.next node nx) pos node z zp ∙ put_at-other h.next node nx z zn;
          prev = λ z zn zx.
              put_at-other (put_at h.prev node pos) nx node z zx
              ∙ put_at-other h.prev node pos z zn;
        };
        next_pos = put_at-here (put_at h.next node nx) pos node;
        next_node =
            put_at-other (put_at h.next node nx) pos node node np ∙ put_at-here h.next node nx;
        prev_node =
            put_at-other (put_at h.prev node pos) nx node node nn ∙ put_at-here h.prev node pos;
        prev_next = put_at-here (put_at h.prev node pos) nx node;
      }

-- Behind the start of a chain.
front :
    (h : Links) (x : ℕ) (ys : List ℕ) (b node : ℕ)
    → Chain h x ys b
    → Avoids x ys
    → Distinct ys
    → Avoids b ys
    → Avoids node (x ∷ ys)
    → node ≢ b
    → Chain (insert_after h x node) x (node ∷ ys) b
front h x [] b node ch ax d ab an nb =
    let i = insert_after_lem h x node b (λ e. an.0 (sym e)) nb ch.0 in
    (i.next_pos, i.prev_node, (i.next_node, i.prev_next))
front h x (y ∷ ys) b node ch ax d ab an nb =
    let i = insert_after_lem h x node y (λ e. an.0 (sym e)) (λ e. an.1.0 (sym e)) ch.0 in
    (
      i.next_pos,
      i.prev_node,
      (
        i.next_node,
        i.prev_next,
        frame h (insert_after h x node) node x node y y ys b i.changes an.1 ax an.1.1 d.0
            (λ e. nb (sym e)) (λ e. ab.0 (sym e)) ch.2,
      ),
    )

-- Before the end of a chain.
back :
    (h h' : Links) (x : ℕ) (ys : List ℕ) (b node : ℕ)
    → Inserted h h' (h.prev b) node b
    → Chain h x ys b
    → Distinct (x ∷ ys)
    → Avoids b ys
    → Avoids node (x ∷ ys)
    → Chain h' x (ys ++ (node ∷ [])) b
back h h' x [] b node i ch d ab an =
    let last = ch.1 in
    (ap h'.next (sym last) ∙ i.next_pos, i.prev_node ∙ last, (i.next_node, i.prev_next))
back h h' x (y ∷ ys) b node i ch d ab an =
    let before = prev-Chain h y ys b x ch.2 d.0 in
    (
      i.changes.next x an.0 (λ e. before (sym e)) ∙ ch.0,
      i.changes.prev y an.1.0 ab.0 ∙ ch.1,
      back h h' y ys b node i ch.2 d.1 ab.1 an.1,
    )

-- A node that is not in a ring becomes its first node by em_list_insert_head, which is
-- em_list_insert_after of the head, and its last one by em_list_insert_tail, which is
-- em_list_insert_before of the head; the other nodes keep their order.
pub insert-IsRing :
    (h : Links) (list node : ℕ) (nodes : List ℕ)
    → IsRing h list nodes
    → Avoids node (list ∷ nodes)
    → IsRing (insert_head h list node) list (node ∷ nodes)
      × IsRing (insert_tail h list node) list (nodes ++ (node ∷ []))
insert-IsRing h list node nodes r an =
    let away : node ≢ list = λ e. an.0 (sym e) in
    let from_last : node ≢ h.prev list =
      λ e. prev-Chain h list nodes list node r.chain an (sym e) in
    (
      record {
        chain = front h list nodes list node r.chain r.distinct.0 r.distinct.1 r.distinct.0 an away;
        distinct = ((away, r.distinct.0), (an.1, r.distinct.1));
      },
      record {
        chain =
            back h (insert_tail h list node) list nodes list node
              (insert_after_lem h (h.prev list) node list from_last away
                (next-prev h list nodes list r.chain))
              r.chain r.distinct r.distinct.0 an;
        distinct = (
          All-append (λ y. y ≢ list) nodes (node ∷ []) r.distinct.0 (away, tt),
          Distinct-append nodes (node ∷ []) r.distinct.1 (tt, tt)
              (All-mono (λ y. y ≢ node) (λ y. Avoids y (node ∷ [])) nodes
                (λ y f. ((λ e. f (sym e)), tt)) an.1),
        );
      },
    )
