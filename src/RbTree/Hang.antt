-- ===== src/RbTree/Hang.antt =====
-- The last part of `rbtree_insert` in src/rbtree.c: the new node is hung into the empty place, and the
-- tree is repaired.
use regex.Base.{ℕ, ◌≤◌, ◌<◌, ◌≡◌, ◌≢◌, ◌∙◌, refl, Bool, some, [], ◌∷◌}
use regex.Base.Int.{ℤ}
use regex.RbTree.Memory.{
  Ptr, null, red, black, TreeMemory, ◌>>=◌, ◌>>◌, write_at, set_parent, set_color, set_root,
}
use regex.RbTree.Insert.{rbtree_fixup, hang}
use regex.RbTree.Cells.{write_at_self, Around-write, null-test, set_parent-at}
use regex.RbTree.Rotate.Links.{relink_below_left, relink_below_right}
use regex.RbTree.Balance.{Fits}
use regex.RbTree.Fixup.{Repaired, depth}
use regex.RbTree.Repair.{fixup_loop-Repaired}
use regex.RbTree.Walk.{Aimed}
use regex.RbTree.Focus.{At-up_left, At-up_right, read_node-At, set_color-At}
use regex.RbTree.Shape.{
  Entry, leaf, node, Spine, top, left_of, right_of, path_at, around, cell, lo_of, hi_of, At,
  SameBlock,
}

module _ (rank : Ptr → ℕ) (n : ℕ) where
  -- A node that is not in the tree, in memory between the two sides of the empty place.
  abbrev pub Loose : TreeMemory → Entry → Ptr → Spine → Type 0
  Loose m e parent pth =
      (e.at ≢ null)
      × (lo_of rank pth ≤ rank e.at)
      × (rank e.at < hi_of rank n pth)
      × (m.nodes e.at ≡ some (cell red null e null parent))

  -- The parent is written to the node.
  set_parent-Loose :
      (m : TreeMemory) (e : Entry) (old parent : Ptr) (pth : Spine)
      → Loose m e old pth
      → At rank n m leaf pth
      → (m' : TreeMemory) × (set_parent e.at parent m ≡ some (tt, m'))
        × Loose m' e parent pth
        × At rank n m' leaf pth
        × SameBlock m m'
  set_parent-Loose m e old parent pth (some_e, low, high, at) h =
      let c = some (cell red null e null parent) in
      (
        record m { nodes = write_at m.nodes e.at c },
        set_parent-at m e.at parent (cell red null e null old) some_e at,
        (some_e, low, high, write_at_self m.nodes e.at c),
        (tt, Around-write rank m.nodes e.at c n m.ctrl.root null pth low high h.1),
        refl,
      )

  -- The repair from the new node on.
  repair :
      (k : ℕ) (m : TreeMemory) (e : Entry) (pth : Spine)
      → depth pth < k
      → At rank n m (node red leaf e leaf) pth
      → Fits 0 pth
      → Repaired rank n m ((set_color e.at red >> rbtree_fixup k e.at) m) (around pth (e ∷ []))
  unfolding rbtree_fixup
  repair k m e pth rounds h fits =
      let (m1, d1, h1, s1) = set_color-At rank n m red leaf leaf e pth red h in
      let (t, (m2, d2, h2, s2), rb, same) =
        fixup_loop-Repaired rank n k m1 0 leaf leaf e pth rounds h1 (tt, tt, refl, refl) fits in
      (
        t,
        (m2, rw (d1, ◌>>=◌, read_node-At rank n m1 red leaf leaf e pth h1) d2, h2, s2 ∙ s1),
        rb,
        same,
      )

  -- Hanging the node in and repairing the tree.
  pub hang-Repaired :
      (turns : ℤ → Bool) (k : ℕ) (m : TreeMemory) (e : Entry) (pth : Spine)
      → depth pth < k
      → Loose m e null pth
      → At rank n m leaf pth
      → Aimed turns pth
      → Fits 0 pth
      → Repaired rank n m (hang k turns e.at (path_at pth) m) (around pth (e ∷ []))
  unfolding hang set_root
  hang-Repaired turns k m e top rounds loose h aimed fits =
      let (m1, d1, (some_e, low, high, at), h1, s1) = set_parent-Loose m e null null top loose h in
      let m2 = record m1 { ctrl = record m1.ctrl { root = e.at } } in
      let (m3, d3, h3, s3) =
        set_color-At rank n m2 red leaf leaf e top black ((some_e, low, high, at, tt, tt), refl) in
      (
        node black leaf e leaf,
        (m3, rw (d1, ◌>>=◌) d3, h3, s3 ∙ s1),
        record { root_black = tt; height = 1; balanced = (0, refl, refl, refl) },
        refl,
      )
  hang-Repaired turns k m e (left_of c p r up) rounds loose h aimed fits =
      let pth = left_of c p r up in
      let (m1, d1, (some_e, low, high, at), h1, s1) = set_parent-Loose m e null p.at pth loose h in
      let (m2, d2, h2, spared, s2) = relink_below_left rank n m1 null e.at c p r up h1.1 in
      let below = At-up_left rank n m1 c leaf r p up h1 in
      let (t, (m3, d3, h3, s3), rb, same) =
        repair k m2 e pth rounds ((some_e, low, high, spared e.at low high ∙ at, tt, tt), h2)
          fits in
      (
        t,
        (
          m3,
          rw
              (
                d1,
                null-test p.at below.0.0,
                read_node-At rank n m1 c leaf r p up below,
                aimed,
                d2,
                ◌>>=◌,
              )
              d3,
          h3,
          s3 ∙ s2 ∙ s1,
        ),
        rb,
        same,
      )
  hang-Repaired turns k m e (right_of l c p up) rounds loose h aimed fits =
      let pth = right_of l c p up in
      let (m1, d1, (some_e, low, high, at), h1, s1) = set_parent-Loose m e null p.at pth loose h in
      let (m2, d2, h2, spared, s2) = relink_below_right rank n m1 null e.at l c p up h1.1 in
      let below = At-up_right rank n m1 c l leaf p up h1 in
      let (t, (m3, d3, h3, s3), rb, same) =
        repair k m2 e pth rounds ((some_e, low, high, spared e.at low high ∙ at, tt, tt), h2)
          fits in
      (
        t,
        (
          m3,
          rw
              (
                d1,
                null-test p.at below.0.0,
                read_node-At rank n m1 c l leaf p up below,
                aimed,
                d2,
                ◌>>=◌,
              )
              d3,
          h3,
          s3 ∙ s2 ∙ s1,
        ),
        rb,
        same,
      )
