-- ===== src/RbTree/Insert.antt =====
-- Insertion, src/rbtree.c `rbtree_insert`, `rbtree_insert_reverse` and `rbtree_fixup`. The address
-- that `calloc` would return is an argument, and the loops have fuel.
use regex.Base.{ℕ, zero, suc, ◌+◌, Bool, true, false, ◌==◌, if◌then◌else◌}
use regex.Base.Int.{ℤ, int_less}
use regex.RbTree.Memory.{
  Ptr, null, red, black, is_red, M, pure, fault, ◌>>=◌, ◌>>◌, read_node, set_left, set_right,
  set_parent, set_color, set_root, get_ctrl, put_ctrl,
}
use regex.RbTree.Rotate.{left_rotate, right_rotate}
use regex.RbTree.Pool.{new_rbtree_node}

-- `uncle != NULL && uncle->color == RED`
unfoldable pub uncle_is_red : Ptr → M Bool
uncle_is_red uncle =
    if uncle == null then pure false else (do u ← read_node uncle; pure (is_red u.color))

-- Parent, uncle and grandparent change colours.
unfoldable pub recolor : Ptr → Ptr → Ptr → M (Unit {0})
recolor parent uncle gparent = do
  set_color parent black
  set_color uncle black
  set_color gparent red

-- The inner child is rotated outwards: what `parent` and `gparent` are afterwards, for a rotation
-- about the old parent.
unfoldable pub straighten : Bool → (Ptr → M (Unit {0})) → Ptr → Ptr → Ptr → M (Ptr × Ptr × Ptr)
straighten false rotate child parent gparent = pure (child, parent, gparent)
straighten true rotate child parent gparent = do
  rotate parent
  n ← read_node parent
  up ← read_node n.parent
  pure (parent, n.parent, up.parent)

unfoldable pub rotate_up : Ptr → Ptr → (Ptr → M (Unit {0})) → M (Unit {0})
rotate_up parent gparent rotate = do set_color parent black; set_color gparent red; rotate gparent

-- One round of the loop for a red parent: the new `child` and `parent`.
unfoldable pub fixup_round : Ptr → Ptr → M (Ptr × Ptr)
fixup_round child parent = do
  p ← read_node parent
  g ← read_node p.parent
  if parent == g.left
      then (do
        hot ← uncle_is_red g.right
        if hot
            then (do
              recolor parent g.right p.parent
              next ← read_node p.parent
              pure (p.parent, next.parent))
            else (do
              (c, q, r) ← straighten (child == p.right) left_rotate child parent p.parent
              rotate_up q r right_rotate
              pure (c, q)))
      else (do
        hot ← uncle_is_red g.left
        if hot
            then (do
              recolor parent g.left p.parent
              next ← read_node p.parent
              pure (p.parent, next.parent))
            else (do
              (c, q, r) ← straighten (child == p.left) right_rotate child parent p.parent
              rotate_up q r left_rotate
              pure (c, q)))

unfoldable pub fixup_loop : ℕ → Ptr → Ptr → M (Unit {0})
fixup_loop zero child parent = fault
fixup_loop (suc k) child parent = elim (parent == null) [
  | true ↦ set_root child >> set_color child black
  | false ↦ read_node parent >>= λ n. elim (is_red n.color) [
    | true ↦ fixup_round child parent >>= λ r. fixup_loop k r.0 r.1
    | false ↦ pure tt
  ]
]

unfoldable pub rbtree_fixup : ℕ → Ptr → M (Unit {0})
rbtree_fixup k t = do n ← read_node t; fixup_loop k t n.parent

-- The walk from the root to the node below which the new one is hung; `turns` says for a key
-- whether the walk goes to the right.
unfoldable pub walk_down : ℕ → (ℤ → Bool) → Ptr → Ptr → M Ptr
walk_down zero turns walker prev = fault
walk_down (suc k) turns walker prev = elim (walker == null) [
  | true ↦ pure prev
  | false ↦ read_node walker >>= λ n. elim (turns n.key) [
    | true ↦ walk_down k turns n.right walker
    | false ↦ walk_down k turns n.left walker
  ]
]

unfoldable pub hang : ℕ → (ℤ → Bool) → Ptr → Ptr → M (Unit {0})
hang k turns new prev = do
  set_parent new prev
  if prev == null then (do set_root new; set_color new black) else (do
    n ← read_node prev
    if turns n.key then set_right prev new else set_left prev new
    set_color new red
    rbtree_fixup k new)

-- The pointer to the tree is not null.
unfoldable pub rbtree_insert : ℕ → Ptr → ℤ → Ptr → Bool → M Ptr
rbtree_insert k fresh key content reuse = do
  t ← get_ctrl
  put_ctrl (record t { count = t.count + 1 })
  new ← new_rbtree_node k fresh key content reuse
  c ← get_ctrl
  prev ← walk_down k (λ x. int_less x key) c.root null
  hang k (λ x. int_less x key) new prev
  pure new

-- Does not count the new node.
unfoldable pub rbtree_insert_reverse : ℕ → Ptr → ℤ → Ptr → Bool → M Ptr
rbtree_insert_reverse k fresh key content reuse = do
  new ← new_rbtree_node k fresh key content reuse
  c ← get_ctrl
  prev ← walk_down k (λ x. int_less key x) c.root null
  hang k (λ x. int_less key x) new prev
  pure new
