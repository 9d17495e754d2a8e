-- ===== src/RbTree/Rounds.antt =====
-- One round of `rbtree_fixup` in src/rbtree.c below a red parent, on the tree that the memory holds.
use regex.Base.{ℕ, suc, ◌∙◌, ◌≡◌, ◌≢◌, ◌==◌, true, false, Option, some, arith}
use regex.RbTree.Memory.{Ptr, Color, red, black, TreeMemory, ◌>>=◌}
use regex.RbTree.Insert.{straighten, fixup_round}
use regex.RbTree.Steps.{
  root_is_red, uncle_is_red-At, recolor-left, recolor-right, rotate_up-left, rotate_up-right,
  straighten-left, straighten-right,
}
use regex.RbTree.Focus.{At-left, At-right, At-up_left, At-up_right, read_node-At}
use regex.RbTree.Shape.{
  Entry, Tree, node, Spine, left_of, right_of, root_of, path_at, lo_of, hi_of, root_of_ne, At,
  SameBlock,
}

pub same-test : (p : Ptr) → (p == p) ≡ true
same-test p = ground arith

pub apart-test : (p q : Ptr) → q ≢ p → (p == q) ≡ false
apart-test p q h = ground arith

module _ (rank : Ptr → ℕ) (n : ℕ) where
  -- The round returns the next child and parent, and the memory then holds the subtree.
  abbrev pub Turns :
      TreeMemory → Option ((Ptr × Ptr) × TreeMemory) → Ptr → Ptr → Tree → Spine → Type 0
  Turns m done child parent t pth =
      (m' : TreeMemory) × (done ≡ some ((child, parent), m')) × At rank n m' t pth × SameBlock m m'

  -- The roots of the two subtrees of a node are apart.
  module _ (m : TreeMemory) (c d : Color) (l r b : Tree) (e p : Entry) (pth : Spine) where
    right_apart : At rank n m (node c (node d l e r) p b) pth → root_of b ≢ e.at
    right_apart ((some_p, low, high, at, (some_e, low', high', at', hl, hr), hb), har) =
        root_of_ne rank m.nodes (suc (rank p.at)) (hi_of rank n pth) p.at b e.at hb some_e
          (λ u v. omega arith)

    left_apart : At rank n m (node c b p (node d l e r)) pth → root_of b ≢ e.at
    left_apart ((some_p, low, high, at, hb, (some_e, low', high', at', hl, hr)), har) =
        root_of_ne rank m.nodes (lo_of rank pth) (rank p.at) p.at b e.at hb some_e
          (λ u v. omega arith)

  module _ (m : TreeMemory) (p g : Entry) (up : Spine) where
    -- The uncle is red: the round goes on at the grandparent.
    pub fixup_round-hot_left :
        (child : Ptr) (a b c d : Tree) (u : Entry)
        → At rank n m (node black (node red a p b) g (node red c u d)) up
        → Turns m
            (fixup_round child p.at m)
            g.at
            (path_at up)
            (node red (node black a p b) g (node black c u d))
            up
    unfolding fixup_round
    fixup_round-hot_left child a b c d u h =
        let t = node red a p b in
        let v = node red c u d in
        let (m1, d1, h1, s1) = recolor-left rank n m a b p g up c d u h in
        (
          m1,
          rw (
            read_node-At rank n m red a b p (left_of black g v up)
                (At-left rank n m black t v g up h),
            read_node-At rank n m black t v g up h,
            same-test p.at,
            uncle_is_red-At rank n m v (right_of t black g up) (At-right rank n m black t v g up h),
            d1,
            read_node-At rank n m1 red (node black a p b) (node black c u d) g up h1,
            ◌>>=◌,
          ),
          h1,
          s1,
        )

    -- The uncle is not red, and the child is the outer one.
    pub fixup_round-outer_left :
        (l r b u : Tree) (e : Entry)
        → root_is_red u ≡ false
        → At rank n m (node black (node red (node red l e r) p b) g u) up
        → Turns m
            (fixup_round e.at p.at m)
            e.at
            p.at
            (node black (node red l e r) p (node red b g u))
            up
    unfolding fixup_round straighten
    fixup_round-outer_left l r b u e cold h =
        let a = node red l e r in
        let t = node red a p b in
        let at_p = At-left rank n m black t u g up h in
        let (m1, d1, h1, s1) = rotate_up-right rank n m a b p g up u h in
        (
          m1,
          rw (
            read_node-At rank n m red a b p (left_of black g u up) at_p,
            read_node-At rank n m black t u g up h,
            same-test p.at,
            uncle_is_red-At rank n m u (right_of t black g up) (At-right rank n m black t u g up h),
            cold,
            apart-test e.at (root_of b)
                (right_apart m red red l r b e p (left_of black g u up) at_p),
            d1,
            ◌>>=◌,
          ),
          h1,
          s1,
        )

    -- The uncle is not red, and the child is the inner one.
    pub fixup_round-inner_left :
        (a c d u : Tree) (e : Entry)
        → root_is_red u ≡ false
        → At rank n m (node black (node red a p (node red c e d)) g u) up
        → Turns m
            (fixup_round e.at p.at m)
            p.at
            e.at
            (node black (node red a p c) e (node red d g u))
            up
    unfolding fixup_round
    fixup_round-inner_left a c d u e cold h =
        let b = node red c e d in
        let t = node red a p b in
        let at_p = At-left rank n m black t u g up h in
        let (m1, d1, h1, s1) =
          straighten-left rank n m c d a p e g.at (left_of black g u up) at_p in
        let turned = At-up_left rank n m1 black (node red (node red a p c) e d) u g up h1 in
        let (m2, d2, h2, s2) = rotate_up-right rank n m1 (node red a p c) d e g up u turned in
        (
          m2,
          rw (
            read_node-At rank n m red a b p (left_of black g u up) at_p,
            read_node-At rank n m black t u g up h,
            same-test p.at,
            uncle_is_red-At rank n m u (right_of t black g up) (At-right rank n m black t u g up h),
            cold,
            same-test e.at,
            d1,
            d2,
            ◌>>=◌,
          ),
          h2,
          s2 ∙ s1,
        )

    -- The same for a parent that is a right child.
    pub fixup_round-hot_right :
        (child : Ptr) (a b c d : Tree) (u : Entry)
        → At rank n m (node black (node red c u d) g (node red a p b)) up
        → Turns m
            (fixup_round child p.at m)
            g.at
            (path_at up)
            (node red (node black c u d) g (node black a p b))
            up
    unfolding fixup_round
    fixup_round-hot_right child a b c d u h =
        let t = node red a p b in
        let v = node red c u d in
        let (m1, d1, h1, s1) = recolor-right rank n m a b p g up c d u h in
        (
          m1,
          rw (
            read_node-At rank n m red a b p (right_of v black g up)
                (At-right rank n m black v t g up h),
            read_node-At rank n m black v t g up h,
            apart-test p.at u.at (left_apart m black red a b v p g up h),
            uncle_is_red-At rank n m v (left_of black g t up) (At-left rank n m black v t g up h),
            d1,
            read_node-At rank n m1 red (node black c u d) (node black a p b) g up h1,
            ◌>>=◌,
          ),
          h1,
          s1,
        )

    pub fixup_round-outer_right :
        (l r b u : Tree) (e : Entry)
        → root_is_red u ≡ false
        → At rank n m (node black u g (node red b p (node red l e r))) up
        → Turns m
            (fixup_round e.at p.at m)
            e.at
            p.at
            (node black (node red u g b) p (node red l e r))
            up
    unfolding fixup_round straighten
    fixup_round-outer_right l r b u e cold h =
        let a = node red l e r in
        let t = node red b p a in
        let at_p = At-right rank n m black u t g up h in
        let (m1, d1, h1, s1) = rotate_up-left rank n m b a p g up u h in
        (
          m1,
          rw (
            read_node-At rank n m red b a p (right_of u black g up) at_p,
            read_node-At rank n m black u t g up h,
            apart-test p.at (root_of u) (left_apart m black red b a u p g up h),
            uncle_is_red-At rank n m u (left_of black g t up) (At-left rank n m black u t g up h),
            cold,
            apart-test e.at (root_of b)
                (left_apart m red red l r b e p (right_of u black g up) at_p),
            d1,
            ◌>>=◌,
          ),
          h1,
          s1,
        )

    pub fixup_round-inner_right :
        (a c d u : Tree) (e : Entry)
        → root_is_red u ≡ false
        → At rank n m (node black u g (node red (node red c e d) p a)) up
        → Turns m
            (fixup_round e.at p.at m)
            p.at
            e.at
            (node black (node red u g c) e (node red d p a))
            up
    unfolding fixup_round
    fixup_round-inner_right a c d u e cold h =
        let b = node red c e d in
        let t = node red b p a in
        let at_p = At-right rank n m black u t g up h in
        let (m1, d1, h1, s1) =
          straighten-right rank n m c d a p e g.at (right_of u black g up) at_p in
        let turned = At-up_right rank n m1 black u (node red c e (node red d p a)) g up h1 in
        let (m2, d2, h2, s2) = rotate_up-left rank n m1 c (node red d p a) e g up u turned in
        (
          m2,
          rw (
            read_node-At rank n m red b a p (right_of u black g up) at_p,
            read_node-At rank n m black u t g up h,
            apart-test p.at (root_of u) (left_apart m black red b a u p g up h),
            uncle_is_red-At rank n m u (left_of black g t up) (At-left rank n m black u t g up h),
            cold,
            same-test e.at,
            d1,
            d2,
            ◌>>=◌,
          ),
          h2,
          s2 ∙ s1,
        )
