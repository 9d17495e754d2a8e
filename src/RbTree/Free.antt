-- ===== src/RbTree/Free.antt =====
-- Freeing a tree and its pool, src/rbtree.c `rbtree_free_pool` and `rbtree_free`. `free_data` is
-- the visitor that the caller gives, if any; the loops have fuel. The block of the tree itself is
-- not followed: after `rbtree_free` only the nodes and the freed data are looked at.
use regex.Base.{ℕ, zero, suc, true, false, Option, none, some, ◌==◌, if◌then◌else◌}
use regex.RbTree.Memory.{
  Ptr, null, M, pure, fault, ◌>>=◌, ◌>>◌, read_node, set_left, set_right, free_node, free_content,
  get_ctrl, put_ctrl, set_root,
}
use regex.RbTree.Queries.{rbtree_min}
use regex.RbTree.Pool.{reset_pool_ptr}

-- The loop over the pool frees data with `free`, whatever `free_data` is.
unfoldable pub free_pool_data : Option (Ptr → M (Unit {0})) → Ptr → M (Unit {0})
free_pool_data none d = pure tt
free_pool_data (some _) d = free_content d

unfoldable pub visit_data : Option (Ptr → M (Unit {0})) → Ptr → M (Unit {0})
visit_data none d = pure tt
visit_data (some f) d = f d

-- One round: what `ptr` is next. The root of the pool is left and freed at the end.
unfoldable pub free_pool_round : ℕ → Option (Ptr → M (Unit {0})) → Ptr → M Ptr
free_pool_round k free_data ptr = do
  n ← read_node ptr
  if n.parent == null then reset_pool_ptr k n.right else (do
    up ← read_node n.parent
    free_pool_data free_data n.content
    free_node ptr
    if ptr == up.left
        then (do
          set_left n.parent null
          if up.right == null then pure n.parent else reset_pool_ptr k up.right)
        else (do set_right n.parent null; pure n.parent))

unfoldable pub free_pool_loop : ℕ → Option (Ptr → M (Unit {0})) → Ptr → M (Unit {0})
free_pool_loop zero free_data ptr = fault
free_pool_loop (suc k) free_data ptr = elim (ptr == null) [
  | true ↦ pure tt
  | false ↦ free_pool_round k free_data ptr >>= λ next. free_pool_loop k free_data next
]

unfoldable pub rbtree_free_pool : ℕ → Option (Ptr → M (Unit {0})) → M (Unit {0})
rbtree_free_pool k free_data = do
  t ← get_ctrl
  if t.pool_root == null then pure tt else (do
    free_pool_loop k free_data t.pool_ptr
    n ← read_node t.pool_root
    free_pool_data free_data n.content
    free_node t.pool_root)

-- A leaf is cut off and freed, and the loop goes on at its parent.
unfoldable pub free_leaf : Option (Ptr → M (Unit {0})) → Ptr → M Ptr
free_leaf free_data cur = do
  n ← read_node cur
  (if n.parent == null then pure tt else (do
    next ← read_node n.parent
    if cur == next.left then set_left n.parent null else set_right n.parent null))
  visit_data free_data n.content
  free_node cur
  pure n.parent

-- The round at a node that is not the root, or below it: `cur` is next, and a node with a left
-- child only stays.
unfoldable pub free_round : ℕ → Option (Ptr → M (Unit {0})) → Ptr → M Ptr
free_round k free_data cur = do
  n ← read_node cur
  if n.right == null
      then (if n.left == null then free_leaf free_data cur else pure cur)
      else rbtree_min k n.right

unfoldable pub free_loop : ℕ → Option (Ptr → M (Unit {0})) → Ptr → Ptr → M (Unit {0})
free_loop zero free_data root cur = fault
free_loop (suc k) free_data root cur = elim (cur == null) [
  | true ↦ pure tt
  | false ↦ elim (cur == root) [
    | true ↦ read_node root >>= λ n. elim (n.right == null) [
      | true ↦ pure tt
      | false ↦ rbtree_min k n.right >>= λ c.
          free_round k free_data c >>= λ next. free_loop k free_data root next
    ]
    | false ↦ free_round k free_data cur >>= λ next. free_loop k free_data root next
  ]
]

-- The pointer to the tree is not null.
unfoldable pub rbtree_free : ℕ → Option (Ptr → M (Unit {0})) → M (Unit {0})
rbtree_free k free_data = do
  t ← get_ctrl
  (if t.root == null then pure tt else (do
    least ← rbtree_min k t.root
    root ← read_node t.root
    cur ← (if least == t.root then rbtree_min k root.right else pure least)
    free_loop k free_data t.root cur
    last ← read_node t.root
    visit_data free_data last.content
    free_node t.root
    set_root null))
  next ← reset_pool_ptr k t.pool_ptr
  c ← get_ctrl
  put_ctrl (record c { pool_ptr = next })
  rbtree_free_pool k free_data
