-- ===== src/RbTree/Rotate.antt =====
-- The rotations of src/rbtree.c, `left_rotate` and `right_rotate`, and `rbtree_transplant`.
pub mod Links
pub mod Settle
pub mod Turn
use regex.Base.{ℕ, Bool, true, false, Option, none, some, ◌==◌, if◌then◌else◌}
use regex.RbTree.Memory.{
  Ptr, null, M, pure, ◌>>=◌, ◌>>◌, read_node, set_left, set_right, set_parent, set_root,
}

-- `if(q != NULL) { q->parent = p; }`
unfoldable pub adopt : Ptr → Ptr → M (Unit {0})
adopt q p = if q == null then pure tt else set_parent q p

-- The link that led from the parent `up` to `t` leads to `tmp`. `left_rotate` asks whether `t` is
-- the left child, `right_rotate` whether it is the right one.
unfoldable pub relink_left_first : Ptr → Ptr → Ptr → M (Unit {0})
relink_left_first up t tmp = elim (up == null) [
  | true ↦ set_root tmp
  | false ↦
      read_node up >>= λ n. elim (t == n.left) [ true ↦ set_left up tmp | false ↦ set_right up tmp ]
]

unfoldable pub relink_right_first : Ptr → Ptr → Ptr → M (Unit {0})
relink_right_first up t tmp = elim (up == null) [
  | true ↦ set_root tmp
  | false ↦ read_node up >>= λ n. elim (t == n.right) [
    | true ↦ set_right up tmp
    | false ↦ set_left up tmp
  ]
]

-- The fields are read where the code reads them; the parent of `t` is not written before it is read
-- for the last time.
unfoldable pub left_rotate : Ptr → M (Unit {0})
left_rotate t = if t == null then pure tt else (do
  n ← read_node t
  let tmp = n.right
  c ← read_node tmp
  set_right t c.left
  adopt c.left t
  relink_left_first n.parent t tmp
  set_parent tmp n.parent
  set_left tmp t
  set_parent t tmp)

unfoldable pub right_rotate : Ptr → M (Unit {0})
right_rotate t = if t == null then pure tt else (do
  n ← read_node t
  let tmp = n.left
  c ← read_node tmp
  set_left t c.right
  adopt c.right t
  relink_right_first n.parent t tmp
  set_parent tmp n.parent
  set_right tmp t
  set_parent t tmp)

-- `v` takes the place of `u` below the parent of `u`.
unfoldable pub rbtree_transplant : Ptr → Ptr → M (Unit {0})
rbtree_transplant u v =
    if u == null
    then adopt v null
    else (do n ← read_node u; relink_left_first n.parent u v; adopt v n.parent)
