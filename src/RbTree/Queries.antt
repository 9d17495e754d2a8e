-- ===== src/RbTree/Queries.antt =====
-- The operations of src/rbtree.c that only read: the search, the ends and the neighbours of a node.
-- A loop has fuel, one round for each node on its way and one more for the test that ends it.
use regex.Base.{ℕ, zero, suc, true, false, Option, none, some, ◌==◌, if◌then◌else◌}
use regex.Base.Int.{ℤ, int_less, int_same}
use regex.RbTree.Memory.{Ptr, null, RbTreeCtrl, M, pure, fault, ◌>>=◌, read_node}

unfoldable pub rbtree_node_count : Option RbTreeCtrl → ℕ
rbtree_node_count none = 0
rbtree_node_count (some t) = t.count

unfoldable pub rbtree_search : ℕ → Ptr → ℤ → M Ptr
rbtree_search zero t key = fault
rbtree_search (suc k) t key = elim (t == null) [
  | true ↦ pure null
  | false ↦ read_node t >>= λ n. elim (int_same n.key key) [
    | true ↦ pure t
    | false ↦ elim (int_less key n.key) [
      | true ↦ rbtree_search k n.left key
      | false ↦ rbtree_search k n.right key
    ]
  ]
]

unfoldable pub rbtree_min : ℕ → Ptr → M Ptr
rbtree_min zero t = fault
rbtree_min (suc k) t = elim (t == null) [
  | true ↦ pure null
  | false ↦
      read_node t >>= λ n. elim (n.left == null) [ true ↦ pure t | false ↦ rbtree_min k n.left ]
]

unfoldable pub rbtree_max : ℕ → Ptr → M Ptr
rbtree_max zero t = fault
rbtree_max (suc k) t = elim (t == null) [
  | true ↦ pure null
  | false ↦
      read_node t >>= λ n. elim (n.right == null) [ true ↦ pure t | false ↦ rbtree_max k n.right ]
]

-- `while((ret != NULL) && (t != ret->right)) { t = ret; ret = ret->parent; }`
unfoldable pub climb_left : ℕ → Ptr → Ptr → M Ptr
climb_left zero t ret = fault
climb_left (suc k) t ret = elim (ret == null) [
  | true ↦ pure null
  | false ↦ read_node ret >>= λ n. elim (t == n.right) [
    | true ↦ pure ret
    | false ↦ climb_left k ret n.parent
  ]
]

-- `while((ret != NULL) && (t == ret->right)) { t = ret; ret = ret->parent; }`
unfoldable pub climb_right : ℕ → Ptr → Ptr → M Ptr
climb_right zero t ret = fault
climb_right (suc k) t ret = elim (ret == null) [
  | true ↦ pure null
  | false ↦ read_node ret >>= λ n. elim (t == n.right) [
    | true ↦ climb_right k ret n.parent
    | false ↦ pure ret
  ]
]

unfoldable pub rbtree_predecessor : ℕ → Ptr → M Ptr
rbtree_predecessor k t = if t == null then pure null else (do
  n ← read_node t
  if n.left == null
      then (if n.parent == null then pure null else (do
        up ← read_node n.parent
        if t == up.left then climb_left k t n.parent else pure n.parent))
      else rbtree_max k n.left)

unfoldable pub rbtree_successor : ℕ → Ptr → M Ptr
rbtree_successor k t = if t == null then pure null else (do
  n ← read_node t
  if n.right == null then climb_right k t n.parent else rbtree_min k n.right)
