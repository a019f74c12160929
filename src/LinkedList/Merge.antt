-- ===== src/LinkedList/Merge.antt =====
-- em_list_merge_last of include/em/list_i.h.
use emlib.Prelude.{
  ℕ, ◌≡◌, ◌≢◌, refl, sym, ap, ◌∙◌, List, [], ◌∷◌, ◌++◌, arith, ◌==◌, false, put_at, Avoids,
  Distinct, All-append, Distinct-append, All-mono,
}
use emlib.LinkedList.{Links, merge_last}
use emlib.LinkedList.Chain.{Chain, IsRing, Apart, Apart-sym, put_at-here, put_at-other, prev-Chain}

-- What the merge leaves: p1 and p2 are the last nodes of the two lists, y is the first of the second.
record Merged (h h' : Links) (p1 p2 y l1 l2 : ℕ) : Type 0 where
  next : (z : ℕ) → z ≢ p1 → z ≢ p2 → z ≢ l2 → h'.next z ≡ h.next z
  prev : (z : ℕ) → z ≢ y → z ≢ l1 → z ≢ l2 → h'.prev z ≡ h.prev z
  next_p1 : h'.next p1 ≡ y
  prev_y : h'.prev y ≡ p1
  next_p2 : h'.next p2 ≡ l1
  prev_l1 : h'.prev l1 ≡ p2
  next_l2 : h'.next l2 ≡ l2
  prev_l2 : h'.prev l2 ≡ l2

merge_last_lem :
    (h : Links) (l1 l2 y : ℕ)
    → h.next l2 ≡ y
    → y ≢ l2
    → y ≢ l1
    → l1 ≢ l2
    → h.prev l1 ≢ h.prev l2
    → h.prev l1 ≢ l2
    → h.prev l2 ≢ l2
    → Merged h (merge_last h l1 l2) (h.prev l1) (h.prev l2) y l1 l2
unfolding merge_last
merge_last_lem h l1 l2 y e yl yl1 l12 pp p1l p2l =
    let full : (y == l2) ≡ false = ground arith in
    rw (e, put_at-other h.prev y (h.prev l1) l2 (λ q. yl (sym q)), full)
      record {
        next = λ z a b c.
            put_at-other (put_at (put_at h.next (h.prev l1) y) (h.prev l2) l1) l2 l2 z c
            ∙ put_at-other (put_at h.next (h.prev l1) y) (h.prev l2) l1 z b
            ∙ put_at-other h.next (h.prev l1) y z a;
        prev = λ z a b c.
            put_at-other (put_at (put_at h.prev y (h.prev l1)) l1 (h.prev l2)) l2 l2 z c
            ∙ put_at-other (put_at h.prev y (h.prev l1)) l1 (h.prev l2) z b
            ∙ put_at-other h.prev y (h.prev l1) z a;
        next_p1 =
            put_at-other (put_at (put_at h.next (h.prev l1) y) (h.prev l2) l1) l2 l2 (h.prev l1) p1l
            ∙ put_at-other (put_at h.next (h.prev l1) y) (h.prev l2) l1 (h.prev l1) pp
            ∙ put_at-here h.next (h.prev l1) y;
        prev_y =
            put_at-other (put_at (put_at h.prev y (h.prev l1)) l1 (h.prev l2)) l2 l2 y yl
            ∙ put_at-other (put_at h.prev y (h.prev l1)) l1 (h.prev l2) y yl1
            ∙ put_at-here h.prev y (h.prev l1);
        next_p2 =
            put_at-other (put_at (put_at h.next (h.prev l1) y) (h.prev l2) l1) l2 l2 (h.prev l2) p2l
            ∙ put_at-here (put_at h.next (h.prev l1) y) (h.prev l2) l1;
        prev_l1 =
            put_at-other (put_at (put_at h.prev y (h.prev l1)) l1 (h.prev l2)) l2 l2 l1 l12
            ∙ put_at-here (put_at h.prev y (h.prev l1)) l1 (h.prev l2);
        next_l2 = put_at-here (put_at (put_at h.next (h.prev l1) y) (h.prev l2) l1) l2 l2;
        prev_l2 = put_at-here (put_at (put_at h.prev y (h.prev l1)) l1 (h.prev l2)) l2 l2;
      }

module _ (h h' : Links) (p1 y l1 l2 : ℕ) (m : Merged h h' p1 (h.prev l2) y l1 l2) where
  -- The nodes of the second list, now up to the first head.
  second :
      (z : ℕ) (zs : List ℕ)
      → Chain h z zs l2
      → Distinct (z ∷ zs)
      → Avoids p1 (z ∷ zs)
      → Avoids l2 (z ∷ zs)
      → Avoids l1 zs
      → Avoids y zs
      → Chain h' z zs l1
  second z [] ch d ap1 al2 al1 ay = (ap h'.next (sym ch.1) ∙ m.next_p2, m.prev_l1 ∙ ch.1)
  second z (w ∷ ws) ch d ap1 al2 al1 ay = (
    m.next z ap1.0 (λ q. prev-Chain h w ws l2 z ch.2 d.0 (sym q)) al2.0 ∙ ch.0,
    m.prev w ay.0 al1.0 al2.1.0 ∙ ch.1,
    second w ws ch.2 d.1 ap1.1 al2.1 al1.1 ay.1,
  )

  -- The nodes of the first list, up to the second ones.
  first :
      (x : ℕ) (xs ys : List ℕ)
      → p1 ≡ h.prev l1
      → Chain h x xs l1
      → Distinct (x ∷ xs)
      → Avoids (h.prev l2) (x ∷ xs)
      → Avoids l2 (x ∷ xs)
      → Avoids y xs
      → Avoids l1 xs
      → Chain h' y ys l1
      → Chain h' x (xs ++ (y ∷ ys)) l1
  first x [] ys e ch d a2 al2 ay al1 rest =
      let last : p1 ≡ x = e ∙ ch.1 in (ap h'.next (sym last) ∙ m.next_p1, m.prev_y ∙ last, rest)
  first x (a ∷ as') ys e ch d a2 al2 ay al1 rest = (
    m.next x (λ q. prev-Chain h a as' l1 x ch.2 d.0 (sym (q ∙ e))) a2.0 al2.0 ∙ ch.0,
    m.prev a ay.0 al1.0 al2.1.0 ∙ ch.1,
    first a as' ys e ch.2 d.1 a2.1 al2.1 ay.1 al1.1 rest,
  )

-- em_list_merge_last of two rings without a common node, of which the second has a first node y, makes
-- of the first one the ring of its nodes and then the second's, and empties the second.
pub merge_last-IsRing :
    (h : Links) (l1 l2 : ℕ) (xs : List ℕ) (y : ℕ) (ys : List ℕ)
    → IsRing h l1 xs
    → IsRing h l2 (y ∷ ys)
    → Apart (l1 ∷ xs) (l2 ∷ y ∷ ys)
    → IsRing (merge_last h l1 l2) l1 (xs ++ (y ∷ ys)) × IsRing (merge_last h l1 l2) l2 []
merge_last-IsRing h l1 l2 xs y ys r1 r2 apart =
    let back = Apart-sym (l1 ∷ xs) (l2 ∷ y ∷ ys) apart in
    let ch2 = r2.chain.2 in
    let p2_out : Avoids (h.prev l2) (l1 ∷ xs) =
      All-mono (λ x. Avoids x (l2 ∷ y ∷ ys)) (λ x. x ≢ h.prev l2) (l1 ∷ xs)
        (λ x f q. prev-Chain h y ys l2 x ch2 f.1 (sym q)) apart in
    let p1_out : Avoids (h.prev l1) (y ∷ ys) =
      All-mono (λ z. Avoids z (l1 ∷ xs)) (λ z. z ≢ h.prev l1) (y ∷ ys)
        (λ z f q. prev-Chain h l1 xs l1 z r1.chain f (sym q)) back.1 in
    let p12 : h.prev l1 ≢ h.prev l2 = λ q. prev-Chain h l1 xs l1 (h.prev l2) r1.chain p2_out q in
    let m =
      merge_last_lem h l1 l2 y r2.chain.0 r2.distinct.0.0 (λ q. back.1.0.0 (sym q))
        (λ q. back.0.0 q) p12 (prev-Chain h l1 xs l1 l2 r1.chain back.0)
        (prev-Chain h y ys l2 l2 ch2 r2.distinct.0) in
    let later =
      second h (merge_last h l1 l2) (h.prev l1) y l1 l2 m y ys ch2 r2.distinct.1 p1_out
        r2.distinct.0 apart.0.1.1 r2.distinct.1.0 in
    (
      record {
        chain =
            first h (merge_last h l1 l2) (h.prev l1) y l1 l2 m l1 xs ys refl r1.chain r1.distinct
              p2_out back.0 back.1.0.1 r1.distinct.0 later;
        distinct = (
          All-append (λ z. z ≢ l1) xs (y ∷ ys) r1.distinct.0 apart.0.1,
          Distinct-append xs (y ∷ ys) r1.distinct.1 r2.distinct.1 (
              All-mono (λ x. Avoids x (l2 ∷ y ∷ ys)) (λ x. Avoids x (y ∷ ys)) xs (λ x f. f.1)
                apart.1),
        );
      },
      record { chain = (m.next_l2, m.prev_l2); distinct = (tt, tt) },
    )
