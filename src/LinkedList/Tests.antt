-- ===== src/LinkedList/Tests.antt =====
-- Lists on concrete nodes.
use emlib.Prelude.{◌≡◌, refl, none, some, [], ◌∷◌, arith}
use emlib.LinkedList.{
  Links, init, insert_head, insert_tail, insert_after, erase, merge_last, merge_first, find_node,
  find_from, insert_nodes_after, insert_nodes_before,
}
use emlib.LinkedList.Chain.{IsRing}
use emlib.LinkedList.Insert.{insert-IsRing}
use emlib.LinkedList.Erase.{erase-IsRing}
use emlib.LinkedList.Front.{merge-IsRing}
use emlib.LinkedList.Ring.{rotate, insert_nodes-IsRing}

abbrev nowhere : Links
nowhere = record { next = λ i. 0; prev = λ i. 0 }

-- The head 1 with the nodes 2, 3 and 4.
abbrev three : Links
three = insert_tail (insert_tail (insert_head (init nowhere 1) 1 2) 1 3) 1 4

three-IsRing : IsRing three 1 (2 ∷ 3 ∷ 4 ∷ [])
unfolding insert_after
three-IsRing = record { chain = ground arith; distinct = ground arith }

found_third : find_node three 1 4 9 ≡ some (some 4)
unfolding find_from insert_after
found_third = refl

not_found : find_node three 1 7 9 ≡ some none
unfolding find_from insert_after
not_found = refl

insert-IsRing_example :
    IsRing (insert_head three 1 5) 1 (5 ∷ 2 ∷ 3 ∷ 4 ∷ [])
    × IsRing (insert_tail three 1 5) 1 (2 ∷ 3 ∷ 4 ∷ 5 ∷ [])
insert-IsRing_example = insert-IsRing three 1 5 (2 ∷ 3 ∷ 4 ∷ []) three-IsRing (ground arith)

erase-IsRing_example : IsRing (erase three 3) 1 (2 ∷ 4 ∷ []) × IsRing (erase three 3) 3 []
erase-IsRing_example = erase-IsRing three 1 (2 ∷ []) 3 (4 ∷ []) three-IsRing

-- With a second list, of the head 11 with the nodes 12 and 13.
abbrev both : Links
both = insert_tail (insert_tail (init three 11) 11 12) 11 13

both-IsRing : IsRing both 1 (2 ∷ 3 ∷ 4 ∷ []) × IsRing both 11 (12 ∷ 13 ∷ [])
unfolding insert_after
both-IsRing = (
  record { chain = ground arith; distinct = ground arith },
  record { chain = ground arith; distinct = ground arith },
)

merge-IsRing_example :
    (IsRing (merge_last both 1 11) 1 (2 ∷ 3 ∷ 4 ∷ 12 ∷ 13 ∷ [])
      × IsRing (merge_last both 1 11) 11 [])
    × (IsRing (merge_first both 1 11) 1 (12 ∷ 13 ∷ 2 ∷ 3 ∷ 4 ∷ [])
        × IsRing (merge_first both 1 11) 11 [])
merge-IsRing_example =
    merge-IsRing both 1 11 (2 ∷ 3 ∷ 4 ∷ []) 12 (13 ∷ []) both-IsRing.0 both-IsRing.1 (ground arith)

-- The nodes 11, 12 and 13, with no head, before and behind the node 3.
from_third : IsRing both 3 (4 ∷ 1 ∷ 2 ∷ [])
from_third = rotate both 1 (2 ∷ []) 3 (4 ∷ []) both-IsRing.0

insert_nodes-IsRing_example :
    IsRing (insert_nodes_after both 3 11) 3 (11 ∷ 12 ∷ 13 ∷ 4 ∷ 1 ∷ 2 ∷ [])
    × IsRing (insert_nodes_before both 3 11) 3 (4 ∷ 1 ∷ 2 ∷ 11 ∷ 12 ∷ 13 ∷ [])
insert_nodes-IsRing_example =
    insert_nodes-IsRing both 3 11 (4 ∷ 1 ∷ 2 ∷ []) (12 ∷ 13 ∷ []) from_third both-IsRing.1
      (ground arith)
