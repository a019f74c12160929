-- ===== src/LinkedList/Walk.antt =====
-- The walks of include/em/list_i.h along a ring.
use emlib.Prelude.{
  ℕ, zero, suc, ◌+◌, ◌<◌, ◌≡◌, ◌≢◌, refl, ap, ◌∙◌, Option, none, some, Bool, false, List, [], ◌∷◌,
  arith, ◌==◌, ==-refl, if◌then◌else◌, Bool-cases, inl, inr, length, Avoids,
}
use emlib.LinkedList.{Links, find_from, search_from, size_from, search, size, find_node}
use emlib.LinkedList.Chain.{Chain, IsRing}

-- The first node for which the comparison gives 0.
abbrev pub first_found : (ℕ → Bool) → List ℕ → Option ℕ
first_found found [] = none
first_found found (x ∷ xs) = if found x then some x else first_found found xs

-- The node from which the loop starts: the first one, or the end.
abbrev start : List ℕ → ℕ → ℕ
start [] b = b
start (y ∷ ys) b = y

next-start : (h : Links) (x : ℕ) (ys : List ℕ) (b : ℕ) → Chain h x ys b → h.next x ≡ start ys b
next-start h x [] b ch = ch.0
next-start h x (y ∷ ys) b ch = ch.0

away : (y b : ℕ) → y ≢ b → (y == b) ≡ false
away y b h = ground arith

search_from-lem :
    (h : Links) (b : ℕ) (found : ℕ → Bool) (x : ℕ) (ys : List ℕ) (fuel : ℕ)
    → Chain h x ys b
    → Avoids b ys
    → length ys < fuel
    → search_from h b found fuel (start ys b) ≡ some (first_found found ys)
unfolding search_from
search_from-lem h b found x ys zero ch av l = absurd (omega arith)
search_from-lem h b found x [] (suc fuel) ch av l = rw (==-refl b) refl
search_from-lem h b found x (y ∷ ys) (suc fuel) ch av l =
    let rest = search_from-lem h b found y ys fuel ch.2 av.1 (omega arith) in
    elim (Bool-cases (found y)) [
      | inl hit ↦ rw (away y b av.0, hit) refl
      | inr miss ↦ rw (away y b av.0, miss, next-start h y ys b ch.2) rest
    ]

size_from-lem :
    (h : Links) (b count x : ℕ) (ys : List ℕ) (fuel : ℕ)
    → Chain h x ys b
    → Avoids b ys
    → length ys < fuel
    → size_from h b count fuel (start ys b) ≡ some (count + length ys)
unfolding size_from
size_from-lem h b count x ys zero ch av l = absurd (omega arith)
size_from-lem h b count x [] (suc fuel) ch av l = rw (==-refl b) (ap some (omega arith))
size_from-lem h b count x (y ∷ ys) (suc fuel) ch av l =
    rw (away y b av.0, next-start h y ys b ch.2)
      (size_from-lem h b (count + 1) y ys fuel ch.2 av.1 (omega arith) ∙ ap some (omega arith))

find_from-lem :
    (h : Links) (b node x : ℕ) (ys : List ℕ) (fuel : ℕ)
    → Chain h x ys b
    → Avoids b ys
    → b ≢ node
    → length ys < fuel
    → find_from h b node fuel (start ys b) ≡ some (first_found (λ p. p == node) ys)
unfolding find_from
find_from-lem h b node x ys zero ch av ne l = absurd (omega arith)
find_from-lem h b node x [] (suc fuel) ch av ne l = rw (==-refl b, away b node ne) refl
find_from-lem h b node x (y ∷ ys) (suc fuel) ch av ne l =
    let rest = find_from-lem h b node y ys fuel ch.2 av.1 ne (omega arith) in
    elim (Bool-cases (y == node)) [
      | inl hit ↦ rw (away y b av.0, hit) refl
      | inr miss ↦ rw (away y b av.0, miss, next-start h y ys b ch.2) rest
    ]

-- On a ring, with more rounds than it has nodes, em_list_size gives the number of the nodes,
-- em_list_search the first node for which the comparison gives 0, or NULL if there is none, and
-- em_list_find_node of another node than the head that node if it is in the ring, and else NULL.
pub walks_lem :
    (h : Links) (list : ℕ) (nodes : List ℕ) (found : ℕ → Bool) (node fuel : ℕ)
    → IsRing h list nodes
    → list ≢ node
    → length nodes < fuel
    → (size h list fuel ≡ some (length nodes))
      × (search h list found fuel ≡ some (first_found found nodes))
      × (find_node h list node fuel ≡ some (first_found (λ p. p == node) nodes))
walks_lem h list nodes found node fuel r ne l =
    let first = next-start h list nodes list r.chain in
    (
      rw first
          (size_from-lem h list 0 list nodes fuel r.chain r.distinct.0 l ∙ ap some (omega arith)),
      rw first (search_from-lem h list found list nodes fuel r.chain r.distinct.0 l),
      rw first (find_from-lem h list node list nodes fuel r.chain r.distinct.0 ne l),
    )
