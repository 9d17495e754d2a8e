-- ===== src/RbTree/Rotate/Links.antt =====
-- What the single writes of the rotations of src/rbtree.c do to the tree that the memory holds.
use regex.Base.{ℕ, suc, ◌≤◌, ◌<◌, ◌≡◌, ◌≢◌, Option, some, refl, arith}
use regex.RbTree.Memory.{
  Ptr, null, Color, RbNode, TreeMemory, write_at, set_left, set_right, set_root,
}
use regex.RbTree.Cells.{
  write_at_self, write_at_below, write_at_above, Held-write_below, Held-write_above, Around-write,
  read_node-at, set_left-at, set_right-at, set_parent-at,
}
use regex.RbTree.Rotate.{adopt, relink_left_first, relink_right_first}
use regex.RbTree.Shape.{
  SameBlock, Entry, Tree, leaf, node, Spine, top, left_of, right_of, root_of, path_at, cell, Held,
  Around, lo_of, hi_of, root_of_ne,
}

module _ (rank : Ptr → ℕ) where
  -- The nodes have changed only at addresses whose rank is in the interval.
  abbrev pub Within : ℕ → ℕ → (Ptr → Option RbNode) → (Ptr → Option RbNode) → Type 0
  Within lo hi f g = ((a : Ptr) → rank a < lo → g a ≡ f a) × ((a : Ptr) → hi ≤ rank a → g a ≡ f a)

  -- `adopt` gives a subtree, empty or not, a new parent.
  pub adopt-Held :
      (m : TreeMemory) (lo hi : ℕ) (up p : Ptr) (t : Tree)
      → Held rank m.nodes lo hi up t
      → (f : Ptr → Option RbNode) × (adopt (root_of t) p m ≡ some (tt, record m { nodes = f }))
        × Held rank f lo hi p t
        × Within lo hi m.nodes f
  unfolding adopt
  adopt-Held m lo hi up p leaf h = (m.nodes, refl, tt, ((λ a _. refl), (λ a _. refl)))
  adopt-Held m lo hi up p (node c l e r) (nonnull, low, high, at, hl, hr) =
      let n = cell c (root_of l) e (root_of r) up in
      let d = some (record n { parent = p }) in
      let f = m.nodes in
      (
        write_at f e.at d,
        ground (arith, nonnull, set_parent-at m e.at p n nonnull at),
        (
          nonnull,
          low,
          high,
          write_at_self f e.at d,
          Held-write_above rank f e.at d lo (rank e.at) e.at l (omega arith) hl,
          Held-write_below rank f e.at d (suc (rank e.at)) hi e.at r (omega arith) hr,
        ),
        (
          (λ a q. write_at_below rank f e.at d a (omega arith)),
          (λ a q. write_at_above rank f e.at d a (omega arith)),
        ),
      )

  -- The memory has not changed at addresses whose rank is in the interval.
  abbrev pub Spared : ℕ → ℕ → TreeMemory → TreeMemory → Type 0
  Spared lo hi m m' = (a : Ptr) → lo ≤ rank a → rank a < hi → m'.nodes a ≡ m.nodes a

  abbrev pub Relinked : ℕ → TreeMemory → Ptr → Spine → Option (Unit {0} × TreeMemory) → Type 0
  Relinked n m y pth done =
      (m' : TreeMemory) × (done ≡ some (tt, m'))
      × Around rank n m'.nodes m'.ctrl.root y pth
      × Spared (lo_of rank pth) (hi_of rank n pth) m m'
      × SameBlock m m'

  -- The write to the parent's field, on either side.
  pub relink_below_left :
      (n : ℕ) (m : TreeMemory) (x y : Ptr) (c : Color) (e : Entry) (r : Tree) (up : Spine)
      → Around rank n m.nodes m.ctrl.root x (left_of c e r up)
      → Relinked n m y (left_of c e r up) (set_left e.at y m)
  relink_below_left n m x y c e r up (nonnull, low, high, at, hr, h) =
      let d = some (cell c y e (root_of r) (path_at up)) in
      let f = m.nodes in
      (
        record m { nodes = write_at f e.at d },
        set_left-at m e.at y (cell c x e (root_of r) (path_at up)) nonnull at,
        (
          nonnull,
          low,
          high,
          write_at_self f e.at d,
          Held-write_below rank f e.at d (suc (rank e.at)) (hi_of rank n up) e.at r (omega arith)
              hr,
          Around-write rank f e.at d n m.ctrl.root e.at up low high h,
        ),
        (λ a p q. write_at_below rank f e.at d a q),
        refl,
      )

  pub relink_below_right :
      (n : ℕ) (m : TreeMemory) (x y : Ptr) (l : Tree) (c : Color) (e : Entry) (up : Spine)
      → Around rank n m.nodes m.ctrl.root x (right_of l c e up)
      → Relinked n m y (right_of l c e up) (set_right e.at y m)
  relink_below_right n m x y l c e up (nonnull, low, high, at, hl, h) =
      let d = some (cell c (root_of l) e y (path_at up)) in
      let f = m.nodes in
      (
        record m { nodes = write_at f e.at d },
        set_right-at m e.at y (cell c (root_of l) e x (path_at up)) nonnull at,
        (
          nonnull,
          low,
          high,
          write_at_self f e.at d,
          Held-write_above rank f e.at d (lo_of rank up) (rank e.at) e.at l (omega arith) hl,
          Around-write rank f e.at d n m.ctrl.root e.at up low high h,
        ),
        (λ a p q. write_at_above rank f e.at d a (omega arith)),
        refl,
      )

  -- Whichever side is asked for first, the link that led to `x` leads to `y`.
  pub relink_left_first-Around :
      (n : ℕ) (m : TreeMemory) (x y : Ptr) (pth : Spine)
      → Around rank n m.nodes m.ctrl.root x pth
      → x ≢ null
      → lo_of rank pth ≤ rank x
      → rank x < hi_of rank n pth
      → Relinked n m y pth (relink_left_first (path_at pth) x y m)
  unfolding relink_left_first set_root
  relink_left_first-Around n m x y top h some_x low high =
      (record m { ctrl = record m.ctrl { root = y } }, refl, refl, (λ a p q. refl), refl)
  relink_left_first-Around n m x y (left_of c e r up) h some_x low high =
      let (m', done, kept, spared, block) = relink_below_left n m x y c e r up h in
      let got = read_node-at m e.at y (cell c x e (root_of r) (path_at up)) h.0 h.3 in
      (m', ground (arith, done, got, h.0), kept, spared, block)
  relink_left_first-Around n m x y (right_of l c e up) h some_x low high =
      let (m', done, kept, spared, block) = relink_below_right n m x y l c e up h in
      let got = read_node-at m e.at y (cell c (root_of l) e x (path_at up)) h.0 h.3 in
      let apart =
        root_of_ne rank m.nodes (lo_of rank up) (rank e.at) e.at l x h.4 some_x
          (λ p q. omega arith) in
      (m', ground (arith, done, got, h.0, apart), kept, spared, block)

  pub relink_right_first-Around :
      (n : ℕ) (m : TreeMemory) (x y : Ptr) (pth : Spine)
      → Around rank n m.nodes m.ctrl.root x pth
      → x ≢ null
      → lo_of rank pth ≤ rank x
      → rank x < hi_of rank n pth
      → Relinked n m y pth (relink_right_first (path_at pth) x y m)
  unfolding relink_right_first set_root
  relink_right_first-Around n m x y top h some_x low high =
      (record m { ctrl = record m.ctrl { root = y } }, refl, refl, (λ a p q. refl), refl)
  relink_right_first-Around n m x y (left_of c e r up) h some_x low high =
      let (m', done, kept, spared, block) = relink_below_left n m x y c e r up h in
      let got = read_node-at m e.at y (cell c x e (root_of r) (path_at up)) h.0 h.3 in
      let apart =
        root_of_ne rank m.nodes (suc (rank e.at)) (hi_of rank n up) e.at r x h.4 some_x
          (λ p q. omega arith) in
      (m', ground (arith, done, got, h.0, apart), kept, spared, block)
  relink_right_first-Around n m x y (right_of l c e up) h some_x low high =
      let (m', done, kept, spared, block) = relink_below_right n m x y l c e up h in
      let got = read_node-at m e.at y (cell c (root_of l) e x (path_at up)) h.0 h.3 in
      (m', ground (arith, done, got, h.0), kept, spared, block)
