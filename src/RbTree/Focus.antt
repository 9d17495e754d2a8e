-- ===== src/RbTree/Focus.antt =====
-- A subtree at the end of its path, in the memory of src/rbtree.c: moves of the focus, and the read
-- and the recolouring of its root.
use regex.Base.{ℕ, suc, ◌≡◌, refl, Option, some, arith}
use regex.RbTree.Memory.{Ptr, Color, TreeMemory, write_at, read_node, set_color}
use regex.RbTree.Cells.{
  write_at_self, Held-write_below, Held-write_above, Around-write, read_node-at, set_color-at,
}
use regex.RbTree.Shape.{
  Entry, Tree, node, Spine, top, left_of, right_of, root_of, path_at, plug, cell, lo_of, hi_of, At,
  SameBlock,
}

module _ (rank : Ptr → ℕ) (n : ℕ) where
  -- The operation returns, and the memory then holds the subtree at the end of the path.
  abbrev pub Leaves : TreeMemory → Option (Unit {0} × TreeMemory) → Tree → Spine → Type 0
  Leaves m done t pth =
      (m' : TreeMemory) × (done ≡ some (tt, m')) × At rank n m' t pth × SameBlock m m'

  module _ (m : TreeMemory) (c : Color) (l r : Tree) (e : Entry) (pth : Spine) where
    pub At-left : At rank n m (node c l e r) pth → At rank n m l (left_of c e r pth)
    At-left ((some_e, low, high, at, hl, hr), har) = (hl, (some_e, low, high, at, hr, har))

    pub At-right : At rank n m (node c l e r) pth → At rank n m r (right_of l c e pth)
    At-right ((some_e, low, high, at, hl, hr), har) = (hr, (some_e, low, high, at, hl, har))

    pub At-up_left : At rank n m l (left_of c e r pth) → At rank n m (node c l e r) pth
    At-up_left (hl, (some_e, low, high, at, hr, har)) = ((some_e, low, high, at, hl, hr), har)

    pub At-up_right : At rank n m r (right_of l c e pth) → At rank n m (node c l e r) pth
    At-up_right (hr, (some_e, low, high, at, hl, har)) = ((some_e, low, high, at, hl, hr), har)

    pub read_node-At :
        At rank n m (node c l e r) pth
        → read_node e.at m ≡ some (cell c (root_of l) e (root_of r) (path_at pth), m)
    read_node-At ((some_e, low, high, at, hl, hr), har) =
        read_node-at m e.at e.at (cell c (root_of l) e (root_of r) (path_at pth)) some_e at

    pub set_color-At :
        (d : Color)
        → At rank n m (node c l e r) pth
        → Leaves m (set_color e.at d m) (node d l e r) pth
    set_color-At d ((some_e, low, high, at, hl, hr), har) =
        let f = m.nodes in
        let k = some (cell d (root_of l) e (root_of r) (path_at pth)) in
        (
          record m { nodes = write_at f e.at k },
          set_color-at m e.at d (cell c (root_of l) e (root_of r) (path_at pth)) some_e at,
          (
            (
              some_e,
              low,
              high,
              write_at_self f e.at k,
              Held-write_above rank f e.at k (lo_of rank pth) (rank e.at) e.at l (omega arith) hl,
              Held-write_below rank f e.at k (suc (rank e.at)) (hi_of rank n pth) e.at r
                  (omega arith) hr,
            ),
            Around-write rank f e.at k n m.ctrl.root e.at pth low high har,
          ),
          refl,
        )

  -- From the end of the path up to the whole tree.
  pub plug-At :
      (m : TreeMemory) (t : Tree) (pth : Spine) → At rank n m t pth → At rank n m (plug pth t) top
  plug-At m t top h = h
  plug-At m t (left_of c e r up) h = plug-At m (node c t e r) up (At-up_left m c t r e up h)
  plug-At m t (right_of l c e up) h = plug-At m (node c l e t) up (At-up_right m c l t e up h)
