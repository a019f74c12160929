-- ===== src/LinkedList.antt =====
-- The circular lists of include/em/list_i.h and include/em/list.h. A node is its address, and the
-- `next` and `prev` fields of all nodes are two arrays; a list is its head node.
pub mod Chain
pub mod Insert
pub mod Erase
pub mod Merge
pub mod Splice
pub mod Ring
pub mod Front
pub mod Walk
mod Tests
use emlib.Prelude.{ℕ, zero, suc, ◌+◌, Option, none, some, Bool, ◌||◌, ◌==◌, if◌then◌else◌, put_at}

pub record Links : Type 0 where
  pub next : ℕ → ℕ
  pub prev : ℕ → ℕ

-- `em_list_init` and `em_list_empty`
abbrev pub init : Links → ℕ → Links
init h node = record h { prev = put_at h.prev node node; next = put_at h.next node node }

abbrev pub is_empty : Links → ℕ → Bool
is_empty h node = h.next node == node

-- `em_link_node`
abbrev pub link_node : Links → ℕ → ℕ → Links
link_node h prev next = record h { next = put_at h.next prev next; prev = put_at h.prev next prev }

-- `em_list_insert_after`, assignment by assignment
unfoldable pub insert_after : Links → ℕ → ℕ → Links
insert_after h pos node =
    let h1 = record h { prev = put_at h.prev node pos } in
    let h2 = record h1 { next = put_at h1.next node (h1.next pos) } in
    let h3 = record h2 { prev = put_at h2.prev (h2.next pos) node } in
    record h3 { next = put_at h3.next pos node }

-- `em_list_insert_before`, `em_list_insert_head` and `em_list_insert_tail`
abbrev pub insert_before : Links → ℕ → ℕ → Links
insert_before h pos node = insert_after h (h.prev pos) node

abbrev pub insert_head : Links → ℕ → ℕ → Links
insert_head h list_head node = insert_after h list_head node

abbrev pub insert_tail : Links → ℕ → ℕ → Links
insert_tail h list_head node = insert_before h list_head node

-- `em_list_erase`
unfoldable pub erase : Links → ℕ → Links
erase h node = init (link_node h (h.prev node) (h.next node)) node

-- `em_list_insert_nodes_after` and `em_list_insert_nodes_before`: the nodes of `lst`, which is one of
-- them and not a head.
unfoldable pub insert_nodes_after : Links → ℕ → ℕ → Links
insert_nodes_after h pos lst = link_node (link_node h pos lst) (h.prev lst) (h.next pos)

abbrev pub insert_nodes_before : Links → ℕ → ℕ → Links
insert_nodes_before h pos lst = insert_nodes_after h (h.prev pos) lst

-- `em_list_merge_last` and `em_list_merge_first`
unfoldable pub merge_last : Links → ℕ → ℕ → Links
merge_last h lst1 lst2 =
    let h1 = link_node h (h.prev lst1) (h.next lst2) in
    let h2 = link_node h1 (h1.prev lst2) lst1 in if is_empty h lst2 then h else init h2 lst2

unfoldable pub merge_first : Links → ℕ → ℕ → Links
merge_first h lst1 lst2 =
    let h1 = link_node h (h.prev lst2) (h.next lst1) in
    let h2 = link_node h1 lst1 (h1.next lst2) in if is_empty h lst2 then h else init h2 lst2

-- The loops of `em_list_find_node`, `em_list_search` and `em_list_size`, from the node p on; `none`
-- if the fuel is not enough. `found` says whether the comparison gives 0.
abbrev pub node_or_null : Bool → ℕ → Option ℕ
node_or_null b p = if b then some p else none

unfoldable pub find_from : Links → ℕ → ℕ → ℕ → ℕ → Option (Option ℕ)
find_from h list node zero p = none
find_from h list node (suc fuel) p =
    let rest = find_from h list node fuel (h.next p) in
    if (p == list) || (p == node) then some (node_or_null (p == node) p) else rest

unfoldable pub search_from : Links → ℕ → (ℕ → Bool) → ℕ → ℕ → Option (Option ℕ)
search_from h list found zero p = none
search_from h list found (suc fuel) p =
    let rest = search_from h list found fuel (h.next p) in
    if (p == list) || found p then some (if p == list then none else some p) else rest

unfoldable pub size_from : Links → ℕ → ℕ → ℕ → ℕ → Option ℕ
size_from h list count zero p = none
size_from h list count (suc fuel) p =
    let rest = size_from h list (count + 1) fuel (h.next p) in
    if p == list then some count else rest

abbrev pub find_node : Links → ℕ → ℕ → ℕ → Option (Option ℕ)
find_node h list node fuel = find_from h list node fuel (h.next list)

abbrev pub search : Links → ℕ → (ℕ → Bool) → ℕ → Option (Option ℕ)
search h list found fuel = search_from h list found fuel (h.next list)

abbrev pub size : Links → ℕ → ℕ → Option ℕ
size h list fuel = size_from h list 0 fuel (h.next list)
