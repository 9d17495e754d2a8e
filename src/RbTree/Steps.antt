-- ===== src/RbTree/Steps.antt =====
-- The steps of a round of `rbtree_fixup` in src/rbtree.c, on the tree that the memory holds.
use regex.Base.{ℕ, ◌≡◌, ◌∙◌, refl, Bool, true, false, some, arith}
use regex.RbTree.Memory.{Ptr, red, black, is_red, TreeMemory, ◌>>=◌}
use regex.RbTree.Insert.{uncle_is_red, recolor, straighten, rotate_up}
use regex.RbTree.Rotate.{left_rotate, right_rotate}
use regex.RbTree.Rotate.Turn.{left_rotate-At, right_rotate-At}
use regex.RbTree.Focus.{
  Leaves, At-left, At-right, At-up_left, At-up_right, read_node-At, set_color-At,
}
use regex.RbTree.Shape.{
  Entry, Tree, leaf, node, Spine, left_of, right_of, root_of, path_at, At, SameBlock,
}

abbrev pub root_is_red : Tree → Bool
root_is_red leaf = false
root_is_red (node c l e r) = is_red c

module _ (rank : Ptr → ℕ) (n : ℕ) where
  pub uncle_is_red-At :
      (m : TreeMemory) (u : Tree) (pth : Spine)
      → At rank n m u pth
      → uncle_is_red (root_of u) m ≡ some (root_is_red u, m)
  unfolding uncle_is_red
  uncle_is_red-At m leaf pth h = refl
  uncle_is_red-At m (node c l e r) pth h =
      ground (arith, h.0.0, read_node-At rank n m c l r e pth h)

  module _ (m : TreeMemory) (a b : Tree) (p g : Entry) (up : Spine) where
    -- The parent is a left child and the uncle a right one, both red.
    pub recolor-left :
        (c d : Tree) (u : Entry)
        → At rank n m (node black (node red a p b) g (node red c u d)) up
        → Leaves rank n m
            (recolor p.at u.at g.at m)
            (node red (node black a p b) g (node black c u d))
            up
    unfolding recolor
    recolor-left c d u h =
        let old = node red c u d in
        let new = node black a p b in
        let (m1, d1, h1, s1) =
          set_color-At rank n m red a b p (left_of black g old up) black
            (At-left rank n m black (node red a p b) old g up h) in
        let (m2, d2, h2, s2) =
          set_color-At rank n m1 red c d u (right_of new black g up) black
            (At-right rank n m1 black new old g up (At-up_left rank n m1 black new old g up h1)) in
        let (m3, d3, h3, s3) =
          set_color-At rank n m2 black new (node black c u d) g up red
            (At-up_right rank n m2 black new (node black c u d) g up h2) in
        (m3, rw (d1, d2, d3, ◌>>=◌), h3, s3 ∙ s2 ∙ s1)

    pub recolor-right :
        (c d : Tree) (u : Entry)
        → At rank n m (node black (node red c u d) g (node red a p b)) up
        → Leaves rank n m
            (recolor p.at u.at g.at m)
            (node red (node black c u d) g (node black a p b))
            up
    unfolding recolor
    recolor-right c d u h =
        let old = node red c u d in
        let new = node black a p b in
        let (m1, d1, h1, s1) =
          set_color-At rank n m red a b p (right_of old black g up) black
            (At-right rank n m black old (node red a p b) g up h) in
        let (m2, d2, h2, s2) =
          set_color-At rank n m1 red c d u (left_of black g new up) black
            (At-left rank n m1 black old new g up (At-up_right rank n m1 black old new g up h1)) in
        let (m3, d3, h3, s3) =
          set_color-At rank n m2 black (node black c u d) new g up red
            (At-up_left rank n m2 black (node black c u d) new g up h2) in
        (m3, rw (d1, d2, d3, ◌>>=◌), h3, s3 ∙ s2 ∙ s1)

    -- The outer child's side goes up.
    pub rotate_up-right :
        (u : Tree)
        → At rank n m (node black (node red a p b) g u) up
        → Leaves rank n m (rotate_up p.at g.at right_rotate m) (node black a p (node red b g u)) up
    unfolding rotate_up
    rotate_up-right u h =
        let new = node black a p b in
        let (m1, d1, h1, s1) =
          set_color-At rank n m red a b p (left_of black g u up) black
            (At-left rank n m black (node red a p b) u g up h) in
        let (m2, d2, h2, s2) =
          set_color-At rank n m1 black new u g up red (At-up_left rank n m1 black new u g up h1) in
        let (m3, d3, h3, s3) = right_rotate-At rank n m2 red black a b u g p up h2 in
        (m3, rw (d1, d2, d3, ◌>>=◌), h3, s3 ∙ s2 ∙ s1)

    pub rotate_up-left :
        (u : Tree)
        → At rank n m (node black u g (node red a p b)) up
        → Leaves rank n m (rotate_up p.at g.at left_rotate m) (node black (node red u g a) p b) up
    unfolding rotate_up
    rotate_up-left u h =
        let new = node black a p b in
        let (m1, d1, h1, s1) =
          set_color-At rank n m red a b p (right_of u black g up) black
            (At-right rank n m black u (node red a p b) g up h) in
        let (m2, d2, h2, s2) =
          set_color-At rank n m1 black u new g up red (At-up_right rank n m1 black u new g up h1) in
        let (m3, d3, h3, s3) = left_rotate-At rank n m2 red black u a b g p up h2 in
        (m3, rw (d1, d2, d3, ◌>>=◌), h3, s3 ∙ s2 ∙ s1)

  module _ (m : TreeMemory) (a b u : Tree) (x y : Entry) (gparent : Ptr) (pth : Spine) where
    -- The inner child `y` is rotated above its parent `x`, which is what counts as the child then.
    pub straighten-left :
        At rank n m (node red u x (node red a y b)) pth
        → (m' : TreeMemory) × (straighten true left_rotate y.at x.at gparent m
            ≡ some ((x.at, y.at, path_at pth), m'))
          × At rank n m' (node red (node red u x a) y b) pth
          × SameBlock m m'
    unfolding straighten
    straighten-left h =
        let (m1, d1, h1, s1) = left_rotate-At rank n m red red u a b x y pth h in
        let below = At-left rank n m1 red (node red u x a) b y pth h1 in
        (
          m1,
          rw (
            d1,
            read_node-At rank n m1 red u a x (left_of red y b pth) below,
            read_node-At rank n m1 red (node red u x a) b y pth h1,
            ◌>>=◌,
          ),
          h1,
          s1,
        )

    pub straighten-right :
        At rank n m (node red (node red a y b) x u) pth
        → (m' : TreeMemory) × (straighten true right_rotate y.at x.at gparent m
            ≡ some ((x.at, y.at, path_at pth), m'))
          × At rank n m' (node red a y (node red b x u)) pth
          × SameBlock m m'
    unfolding straighten
    straighten-right h =
        let (m1, d1, h1, s1) = right_rotate-At rank n m red red a b u x y pth h in
        let below = At-right rank n m1 red a (node red b x u) y pth h1 in
        (
          m1,
          rw (
            d1,
            read_node-At rank n m1 red b u x (right_of a red y pth) below,
            read_node-At rank n m1 red a (node red b x u) y pth h1,
            ◌>>=◌,
          ),
          h1,
          s1,
        )
