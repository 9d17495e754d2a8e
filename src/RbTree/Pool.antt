-- ===== src/RbTree/Pool.antt =====
-- The pool of nodes that were cleared and wait to be used again, src/rbtree.c `new_rbtree`,
-- `reset_pool_ptr`, `rbtree_clear` and `new_rbtree_node`. The pool is a tree; `pool_ptr` points at
-- the node that is taken next.
use regex.Base.{ℕ, zero, suc, Bool, true, false, some, ◌==◌, if◌then◌else◌}
use regex.Base.Int.{ℤ}
use regex.RbTree.Memory.{
  Ptr, null, red, RbNode, RbTreeCtrl, M, pure, fault, ◌>>=◌, ◌>>◌, read_node, store_node, set_left,
  set_right, set_parent, get_ctrl, put_ctrl,
}
use regex.RbTree.Queries.{rbtree_min}

unfoldable pub new_rbtree : RbTreeCtrl
new_rbtree = record { count = 0; root = null; pool_root = null; pool_ptr = null }

-- `while(*ptr != NULL && (*ptr)->left == NULL)`: to the right as long as it can.
unfoldable pub skip_right : ℕ → Ptr → M Ptr
skip_right zero ptr = fault
skip_right (suc k) ptr = elim (ptr == null) [
  | true ↦ pure null
  | false ↦ read_node ptr >>= λ n. elim (n.left == null) [
    | true ↦ elim (n.right == null) [ true ↦ pure ptr | false ↦ skip_right k n.right ]
    | false ↦ pure ptr
  ]
]

-- The second loop of the source is that of `rbtree_min`.
unfoldable pub reset_pool_ptr : ℕ → Ptr → M Ptr
reset_pool_ptr k ptr = do p ← skip_right k ptr; rbtree_min k p

-- The whole tree goes into the pool: it becomes the pool, or hangs on the left of the node that
-- would be taken next.
unfoldable pub rbtree_clear : ℕ → M (Unit {0})
rbtree_clear k = do
  t ← get_ctrl
  if t.root == null then pure tt else (do
    pool_root ←
        (if t.pool_root == null
          then pure t.root
          else (do set_left t.pool_ptr t.root; set_parent t.root t.pool_ptr; pure t.pool_root))
    least ← rbtree_min k t.root
    next ← reset_pool_ptr k least
    put_ctrl (record { count = 0; root = null; pool_root = pool_root; pool_ptr = next }))

-- The root of the pool is taken: the pool is its right subtree.
unfoldable pub take_pool_root : ℕ → RbNode → M (Unit {0})
take_pool_root k n = do
  t ← get_ctrl
  put_ctrl (record t { pool_ptr = n.right; pool_root = n.right })
  if n.right == null then pure tt else (do
    set_parent n.right null
    next ← reset_pool_ptr k n.right
    put_ctrl (record t { pool_ptr = next; pool_root = n.right }))

-- A child is taken: the next one is below its sibling on the right, or is the parent.
unfoldable pub take_pool_child : ℕ → Ptr → RbNode → M (Unit {0})
take_pool_child k p n = do
  t ← get_ctrl
  up ← read_node n.parent
  if p == up.left
      then (do
        set_left n.parent null
        if up.right == null
            then put_ctrl (record t { pool_ptr = n.parent })
            else (do next ← reset_pool_ptr k up.right; put_ctrl (record t { pool_ptr = next })))
      else (do set_right n.parent null; put_ctrl (record t { pool_ptr = n.parent }))

-- A fresh node is all zeros, and its colour 0 is red; one from the pool keeps its colour and, where
-- the data are to be used again, its data.
unfoldable pub new_rbtree_node : ℕ → Ptr → ℤ → Ptr → Bool → M Ptr
new_rbtree_node k fresh key content reuse = do
  t ← get_ctrl
  if t.pool_ptr == null
      then (do
        store_node fresh (
            some (record {
              key = key;
              left = null;
              right = null;
              parent = null;
              content = if reuse then null else content;
              color = red;
            }))
        pure fresh)
      else (do
        n ← read_node t.pool_ptr
        if n.parent == null then take_pool_root k n else take_pool_child k t.pool_ptr n
        store_node t.pool_ptr (
            some (record {
              key = key;
              left = null;
              right = null;
              parent = null;
              content = if reuse then n.content else content;
              color = n.color;
            }))
        pure t.pool_ptr)
