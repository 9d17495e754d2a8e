-- ===== src/RbTree/Tests.antt =====
-- Runs of the operations of src/rbtree.c, and the theorems at concrete trees.
use regex.Base.{
  ℕ, ◌≡◌, ◌==◌, refl, false, Option, none, some, Option, List, [], ◌∷◌, if◌then◌else◌, arith,
}
use regex.Base.Int.{pos, int_less}
use regex.RbTree.Memory.{Ptr, null, red, black, RbNode, RbTreeCtrl, TreeMemory}
use regex.RbTree.Shape.{Entry, Tree, leaf, node, top, cell, At}
use regex.RbTree.Queries.{rbtree_search}
use regex.RbTree.Insert.{rbtree_insert, rbtree_insert_reverse}
use regex.RbTree.Order.{insert_sorted}
use regex.RbTree.Insertion.{Ordered, entry, rbtree_insert-Ordered, rbtree_insert_reverse-Ordered}
use regex.RbTree.Found.{Found, rbtree_search-Found}

abbrev item : Ptr → ℕ → Entry
item p k = record { at = p; key = pos k; content = 0 }

abbrev block : ℕ → Ptr → RbTreeCtrl
block count root = record { count = count; root = root; pool_root = null; pool_ptr = null }

-- A black root with two red children.
abbrev three_cells : Ptr → Option RbNode
three_cells p =
    if p == 1
    then some (cell red null (item 1 10) null 2)
    else if p == 2
    then some (cell black 1 (item 2 20) 3 null)
    else if p == 3
    then some (cell red null (item 3 30) null 2)
    else none

abbrev three : TreeMemory
three = record { nodes = three_cells; ctrl = block 3 2; freed = [] }

abbrev three_tree : Tree
three_tree =
    node black (node red leaf (item 1 10) leaf) (item 2 20) (node red leaf (item 3 30) leaf)

abbrev three_items : List Entry
three_items = item 1 10 ∷ item 2 20 ∷ item 3 30 ∷ []

abbrev three-At : At (λ a. a) 4 three three_tree top
three-At = (
  (
    omega arith,
    omega arith,
    omega arith,
    refl,
    (omega arith, omega arith, omega arith, refl, tt, tt),
    (omega arith, omega arith, omega arith, refl, tt, tt),
  ),
  refl,
)

three-Ordered : Ordered int_less three three_items 3
unfolding int_less
three-Ordered = record {
  tree = three_tree;
  held = ((λ a. a), 4, three-At);
  red_black = record {
    root_black = tt;
    height = 1;
    balanced = (0, refl, (tt, tt, refl, refl), (tt, tt, refl, refl));
  };
  listed = refl;
  sorted = ((refl, (refl, tt)), ((refl, tt), (tt, tt)));
  counted = refl;
  empty_pool = refl;
}

rbtree_insert-Ordered_example :
    (m' : TreeMemory) × (rbtree_insert 4 9 (pos 25) 70 false three ≡ some (9, m'))
    × Ordered int_less m' (insert_sorted int_less (entry 9 (pos 25) 70 false) three_items) 4
rbtree_insert-Ordered_example =
    rbtree_insert-Ordered 4 9 (pos 25) 70 false three three_items 3 three-Ordered (omega arith)
      (omega arith) refl

rbtree_search-Found_example :
    (p : Ptr) × (rbtree_search 4 2 (pos 30) three ≡ some (p, three)) × Found three_items (pos 30) p
rbtree_search-Found_example =
    rbtree_search-Found 4 three (pos 30) three_items 3 three-Ordered (omega arith)

-- By descending keys, with one node.
abbrev one : TreeMemory
one = record {
  nodes = λ p. if p == 5 then some (cell black null (item 5 50) null null) else none;
  ctrl = block 0 5;
  freed = [];
}

one-Ordered : Ordered (λ x y. int_less y x) one (item 5 50 ∷ []) 0
one-Ordered = record {
  tree = node black leaf (item 5 50) leaf;
  held = ((λ a. a), 6, ((omega arith, omega arith, omega arith, refl, tt, tt), refl));
  red_black = record { root_black = tt; height = 1; balanced = (0, refl, refl, refl) };
  listed = refl;
  sorted = (tt, tt);
  counted = refl;
  empty_pool = refl;
}

rbtree_insert_reverse-Ordered_example :
    (m' : TreeMemory) × (rbtree_insert_reverse 2 7 (pos 60) 70 false one ≡ some (7, m'))
    × Ordered
        (λ x y. int_less y x)
        m'
        (insert_sorted (λ x y. int_less y x) (entry 7 (pos 60) 70 false) (item 5 50 ∷ []))
        0
rbtree_insert_reverse-Ordered_example =
    rbtree_insert_reverse-Ordered 2 7 (pos 60) 70 false one (item 5 50 ∷ []) 0 one-Ordered
      (omega arith) (omega arith) refl

-- A black node whose sibling is black and has a black and a red child.
abbrev five_cells : Ptr → Option RbNode
five_cells p =
    if p == 1
    then some (cell black null (item 1 10) null 2)
    else if p == 2
    then some (cell black 1 (item 2 20) 4 null)
    else if p == 3
    then some (cell black null (item 3 30) null 4)
    else if p == 4
    then some (cell black 3 (item 4 40) 5 2)
    else if p == 5
    then some (cell red null (item 5 50) null 4)
    else none

abbrev five : TreeMemory
five = record { nodes = five_cells; ctrl = block 5 2; freed = [] }
