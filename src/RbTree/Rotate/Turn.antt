-- ===== src/RbTree/Rotate/Turn.antt =====
-- The rotations of src/rbtree.c on a memory that holds a tree.
use regex.Base.{ℕ, suc, ◌≤◌, ◌<◌, ◌≡◌, ◌≢◌, ◌∙◌, some, arith}
use regex.RbTree.Memory.{Ptr, Color, TreeMemory, ◌>>=◌, write_at}
use regex.RbTree.Rotate.{left_rotate, right_rotate}
use regex.RbTree.Rotate.Settle.{settle_left, settle_right}
use regex.RbTree.Rotate.Links.{adopt-Held, relink_left_first-Around, relink_right_first-Around}
use regex.RbTree.Cells.{
  write_at_self, write_at_apart, Held-write_below, Held-write_above, Around-write, null-test,
  read_node-at, set_left-at, set_right-at,
}
use regex.RbTree.Shape.{
  SameBlock, Entry, Tree, node, Spine, root_of, path_at, cell, lo_of, hi_of, At, Held-frame,
  Around-frame,
}

module _ (rank : Ptr → ℕ) where
  -- `left_rotate` at a node whose right child is not empty rotates the subtree there.
  pub left_rotate-At :
      (n : ℕ) (m : TreeMemory) (c d : Color) (l s r : Tree) (e g : Entry) (pth : Spine)
      → At rank n m (node c l e (node d s g r)) pth
      → (m' : TreeMemory) × (left_rotate e.at m ≡ some (tt, m'))
        × At rank n m' (node d (node c l e s) g r) pth
        × SameBlock m m'
  unfolding left_rotate
  left_rotate-At n m c d l s r e g pth
        ((some_e, low, high, at_e, hl, (some_g, low', high', at_g, hs, hr)), har) =
      let lo = lo_of rank pth in
      let hi = hi_of rank n pth in
      let f = m.nodes in
      let d1 = some (cell c (root_of l) e (root_of s) (path_at pth)) in
      let m1 = record m { nodes = write_at f e.at d1 } in
      let (f2, adopted, hs2, within) =
        adopt-Held rank m1 (suc (rank e.at)) (rank g.at) g.at e.at s
          (Held-write_below rank f e.at d1 (suc (rank e.at)) (rank g.at) g.at s (omega arith) hs) in
      let m2 = record m { nodes = f2 } in
      let har2 =
        Around-frame rank n m.ctrl.root e.at pth
          (Around-write rank f e.at d1 n m.ctrl.root e.at pth low high har)
          (λ a q. within.0 a (omega arith)) (λ a q. within.1 a (omega arith)) in
      let (m3, linked, har3, spared, block) =
        relink_left_first-Around rank n m2 e.at g.at pth har2 some_e low high in
      let at_g3 =
        spared g.at (omega arith) (omega arith)
        ∙ within.1 g.at (omega arith)
        ∙ write_at_apart rank f e.at d1 g.at (omega arith)
        ∙ at_g in
      let at_e3 = spared e.at low high ∙ within.0 e.at (omega arith) ∙ write_at_self f e.at d1 in
      let (f6, settled, at_e6, at_g6, calm) =
        settle_left rank m3 e.at g.at (path_at pth) (cell c (root_of l) e (root_of s) (path_at pth))
          (cell d (root_of s) g (root_of r) e.at) some_e some_g (omega arith) at_e3 at_g3 in
      let late : (a : Ptr)
          → lo ≤ rank a
          → rank a < hi
          → rank a ≢ rank e.at
          → rank a ≢ rank g.at
          → f6 a ≡ f2 a =
        λ a q z u v. calm a u v ∙ spared a q z in
      (
        record m3 { nodes = f6 },
        rw (
          null-test e.at some_e,
          read_node-at m e.at e.at (cell c (root_of l) e g.at (path_at pth)) some_e at_e,
          read_node-at m g.at g.at (cell d (root_of s) g (root_of r) e.at) some_g at_g,
          set_right-at m e.at (root_of s) (cell c (root_of l) e g.at (path_at pth)) some_e at_e,
          adopted,
          linked,
          settled,
          ◌>>=◌,
        ),
        (
          (
            some_g,
            omega arith,
            omega arith,
            at_g6,
            (
              some_e,
              low,
              omega arith,
              at_e6,
              Held-frame rank lo (rank e.at) e.at l hl (λ a q z.
                  late a (omega arith) (omega arith) (omega arith) (omega arith)
                  ∙ within.0 a (omega arith)
                  ∙ write_at_apart rank f e.at d1 a (omega arith)),
              Held-frame rank (suc (rank e.at)) (rank g.at) e.at s hs2
                  (λ a q z. late a (omega arith) (omega arith) (omega arith) (omega arith)),
            ),
            Held-frame rank (suc (rank g.at)) hi g.at r hr (λ a q z.
                late a (omega arith) (omega arith) (omega arith) (omega arith)
                ∙ within.1 a (omega arith)
                ∙ write_at_apart rank f e.at d1 a (omega arith)),
          ),
          Around-frame rank n m3.ctrl.root g.at pth har3 (λ a q. calm a (omega arith) (omega arith))
              (λ a q. calm a (omega arith) (omega arith)),
        ),
        block,
      )

  -- `right_rotate` at a node whose left child is not empty rotates the subtree there.
  pub right_rotate-At :
      (n : ℕ) (m : TreeMemory) (c d : Color) (l s r : Tree) (e g : Entry) (pth : Spine)
      → At rank n m (node c (node d l g s) e r) pth
      → (m' : TreeMemory) × (right_rotate e.at m ≡ some (tt, m'))
        × At rank n m' (node d l g (node c s e r)) pth
        × SameBlock m m'
  unfolding right_rotate
  right_rotate-At n m c d l s r e g pth
        ((some_e, low, high, at_e, (some_g, low', high', at_g, hl, hs), hr), har) =
      let lo = lo_of rank pth in
      let hi = hi_of rank n pth in
      let f = m.nodes in
      let d1 = some (cell c (root_of s) e (root_of r) (path_at pth)) in
      let m1 = record m { nodes = write_at f e.at d1 } in
      let (f2, adopted, hs2, within) =
        adopt-Held rank m1 (suc (rank g.at)) (rank e.at) g.at e.at s
          (Held-write_above rank f e.at d1 (suc (rank g.at)) (rank e.at) g.at s (omega arith) hs) in
      let m2 = record m { nodes = f2 } in
      let har2 =
        Around-frame rank n m.ctrl.root e.at pth
          (Around-write rank f e.at d1 n m.ctrl.root e.at pth low high har)
          (λ a q. within.0 a (omega arith)) (λ a q. within.1 a (omega arith)) in
      let (m3, linked, har3, spared, block) =
        relink_right_first-Around rank n m2 e.at g.at pth har2 some_e low high in
      let at_g3 =
        spared g.at (omega arith) (omega arith)
        ∙ within.0 g.at (omega arith)
        ∙ write_at_apart rank f e.at d1 g.at (omega arith)
        ∙ at_g in
      let at_e3 = spared e.at low high ∙ within.1 e.at (omega arith) ∙ write_at_self f e.at d1 in
      let (f6, settled, at_e6, at_g6, calm) =
        settle_right rank m3 e.at g.at (path_at pth)
          (cell c (root_of s) e (root_of r) (path_at pth)) (cell d (root_of l) g (root_of s) e.at)
          some_e some_g (omega arith) at_e3 at_g3 in
      let late : (a : Ptr)
          → lo ≤ rank a
          → rank a < hi
          → rank a ≢ rank e.at
          → rank a ≢ rank g.at
          → f6 a ≡ f2 a =
        λ a q z u v. calm a u v ∙ spared a q z in
      (
        record m3 { nodes = f6 },
        rw (
          null-test e.at some_e,
          read_node-at m e.at e.at (cell c g.at e (root_of r) (path_at pth)) some_e at_e,
          read_node-at m g.at g.at (cell d (root_of l) g (root_of s) e.at) some_g at_g,
          set_left-at m e.at (root_of s) (cell c g.at e (root_of r) (path_at pth)) some_e at_e,
          adopted,
          linked,
          settled,
          ◌>>=◌,
        ),
        (
          (
            some_g,
            omega arith,
            omega arith,
            at_g6,
            Held-frame rank lo (rank g.at) g.at l hl (λ a q z.
                late a (omega arith) (omega arith) (omega arith) (omega arith)
                ∙ within.0 a (omega arith)
                ∙ write_at_apart rank f e.at d1 a (omega arith)),
            (
              some_e,
              omega arith,
              high,
              at_e6,
              Held-frame rank (suc (rank g.at)) (rank e.at) e.at s hs2
                  (λ a q z. late a (omega arith) (omega arith) (omega arith) (omega arith)),
              Held-frame rank (suc (rank e.at)) hi e.at r hr (λ a q z.
                  late a (omega arith) (omega arith) (omega arith) (omega arith)
                  ∙ within.1 a (omega arith)
                  ∙ write_at_apart rank f e.at d1 a (omega arith)),
            ),
          ),
          Around-frame rank n m3.ctrl.root g.at pth har3 (λ a q. calm a (omega arith) (omega arith))
              (λ a q. calm a (omega arith) (omega arith)),
        ),
        block,
      )
