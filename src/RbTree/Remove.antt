-- ===== src/RbTree/Remove.antt =====
-- Removal, src/rbtree.c `rbtree_remove` and `rbtree_remove_fixup`. The loop has fuel.
use regex.Base.{ℕ, zero, suc, Bool, true, false, not, ◌&&◌, ◌==◌, if◌then◌else◌}
use regex.RbTree.Memory.{
  Ptr, null, Color, red, black, is_red, RbNode, M, pure, fault, ◌>>=◌, ◌>>◌, read_node, set_left,
  set_right, set_parent, set_color, get_ctrl,
}
use regex.RbTree.Queries.{rbtree_min}
use regex.RbTree.Rotate.{left_rotate, right_rotate, adopt, rbtree_transplant}

-- `p->color == RED`
unfoldable pub color_is_red : Ptr → M Bool
color_is_red p = do n ← read_node p; pure (is_red n.color)

-- The sibling of `t` on the side that `far` reads, after a red one was rotated away.
unfoldable pub black_sibling : (RbNode → Ptr) → Ptr → M Ptr
black_sibling far t = do
  n ← read_node t
  up ← read_node n.parent
  hot ← color_is_red (far up)
  if hot
      then (do
        set_color (far up) black
        set_color n.parent red
        left_rotate n.parent
        after ← read_node t
        above ← read_node after.parent
        pure (far above))
      else pure (far up)

-- The last case: `near` and `far` are the children of the sibling on the side of `t` and away from
-- it; what `t` is next.
unfoldable pub close_fixup : (RbNode → Ptr) → (RbNode → Ptr) → Ptr → Ptr → M Ptr
close_fixup near far t tmp = do
  s ← read_node tmp
  set_color (near s) black
  set_color tmp red
  right_rotate tmp
  n ← read_node t
  up ← read_node n.parent
  set_color (far up) up.color
  set_color n.parent black
  again ← read_node (far up)
  set_color (far again) black
  left_rotate n.parent
  c ← get_ctrl
  pure c.root

unfoldable pub remove_side : (RbNode → Ptr) → (RbNode → Ptr) → Ptr → M Ptr
remove_side near far t = do
  tmp ← black_sibling far t
  s ← read_node tmp
  near_red ← color_is_red (near s)
  far_red ← (if near_red then color_is_red (far s) else pure true)
  if near_red && not far_red
      then (do set_color tmp red; n ← read_node t; pure n.parent)
      else (do out ← color_is_red (far s); if out then pure t else close_fixup near far t tmp)

unfoldable pub remove_fixup_loop : ℕ → Ptr → Ptr → M (Unit {0})
remove_fixup_loop zero root t = fault
remove_fixup_loop (suc k) root t = elim (t == root) [
  | true ↦ pure tt
  | false ↦ read_node t >>= λ n. elim (is_red n.color) [
    | true ↦ pure tt
    | false ↦ read_node n.parent >>= λ up.
        (if t == up.left
          then remove_side (λ s. s.left) (λ s. s.right) t
          else remove_side (λ s. s.right) (λ s. s.left) t)
        >>= λ next. remove_fixup_loop k root next
  ]
]

unfoldable pub rbtree_remove_fixup : ℕ → Ptr → M (Unit {0})
rbtree_remove_fixup k t =
    if t == null then pure tt else (do c ← get_ctrl; remove_fixup_loop k c.root t)

-- The node that takes the place of a node with two children: the least one on the right. The
-- colour that it had, and the child that took its place.
unfoldable pub splice_successor : ℕ → Ptr → RbNode → M (Color × Ptr)
splice_successor k t n = do
  tmp ← rbtree_min k n.right
  y ← read_node tmp
  (if y.parent == t then adopt y.right tmp else (do
    rbtree_transplant tmp y.right
    now ← read_node t
    set_right tmp now.right
    set_parent now.right tmp))
  rbtree_transplant t tmp
  last ← read_node t
  set_left tmp last.left
  set_parent last.left tmp
  set_color tmp last.color
  pure (y.color, y.right)

unfoldable pub rbtree_remove : ℕ → Ptr → M (Unit {0})
rbtree_remove k t = if t == null then pure tt else (do
  n ← read_node t
  (color, below) ←
      (if n.left == null
        then (do rbtree_transplant t n.right; pure (n.color, n.right))
        else if n.right == null
        then (do rbtree_transplant t n.left; pure (n.color, n.left))
        else splice_successor k t n)
  if is_red color then pure tt else rbtree_remove_fixup k below)
