-- ===== src/RbTree/Walk.antt =====
-- The walk of `rbtree_insert` in src/rbtree.c from the root down to the place of the new node.
use regex.Base.{
  ℕ, zero, suc, ◌+◌, ◌≤◌, ◌<◌, ◌≡◌, refl, sym, Bool, true, false, some, Bool-cases, inl, inr, arith,
}
use mathlib.Core.Path.{subst}
use regex.Base.Int.{ℤ}
use regex.RbTree.Memory.{Ptr, Color, red, black, TreeMemory}
use regex.RbTree.Insert.{walk_down}
use regex.RbTree.Balance.{IsBlack, Balanced, IsRedBlack, Fits, Fitting}
use regex.RbTree.Fixup.{depth, Fitting-below_black}
use regex.RbTree.Focus.{At-left, At-right, read_node-At}
use regex.RbTree.Shape.{
  Entry, Tree, leaf, node, Spine, top, left_of, right_of, root_of, path_at, plug, At,
}

abbrev pub size : Tree → ℕ
size leaf = 0
size (node c l e r) = suc (size l + size r)

module _ (turns : ℤ → Bool) where
  -- The path to the empty place that the walk ends at.
  abbrev pub descend : Tree → Spine → Spine
  descend leaf pth = pth
  descend (node c l e r) pth = elim (turns e.key) [
    | true ↦ descend r (right_of l c e pth)
    | false ↦ descend l (left_of c e r pth)
  ]

  -- The last turn on the path is the one that the key of its node asks for.
  abbrev pub Aimed : Spine → Type 0
  Aimed top = Unit
  Aimed (left_of c e r up) = turns e.key ≡ false
  Aimed (right_of l c e up) = turns e.key ≡ true

  descend-true :
      (c : Color) (l r : Tree) (e : Entry) (pth : Spine)
      → turns e.key ≡ true
      → descend (node c l e r) pth ≡ descend r (right_of l c e pth)
  descend-true c l r e pth h = ground (arith, h)

  descend-false :
      (c : Color) (l r : Tree) (e : Entry) (pth : Spine)
      → turns e.key ≡ false
      → descend (node c l e r) pth ≡ descend l (left_of c e r pth)
  descend-false c l r e pth h = ground (arith, h)

  -- What every turn of the walk keeps holds at its end.
  pub descend_rule :
      (P : Tree → Spine → Type 0)
      → ((c : Color) (l r : Tree) (e : Entry) (pth : Spine)
          → turns e.key ≡ true
          → P (node c l e r) pth
          → P r (right_of l c e pth))
      → ((c : Color) (l r : Tree) (e : Entry) (pth : Spine)
          → turns e.key ≡ false
          → P (node c l e r) pth
          → P l (left_of c e r pth))
      → (t : Tree) (pth : Spine) → P t pth
      → P leaf (descend t pth)
  descend_rule P right left leaf pth h = h
  descend_rule P right left (node c l e r) pth h = elim (Bool-cases (turns e.key)) [
    | inl p ↦
        subst (P leaf) (sym (descend-true c l r e pth p))
          (descend_rule P right left r (right_of l c e pth) (right c l r e pth p h))
    | inr p ↦
        subst (P leaf) (sym (descend-false c l r e pth p))
          (descend_rule P right left l (left_of c e r pth) (left c l r e pth p h))
  ]

  pub descend-Aimed : (t : Tree) → Aimed (descend t top)
  descend-Aimed t =
      descend_rule (λ s pth. Aimed pth) (λ c l r e pth p h. p) (λ c l r e pth p h. p) t top tt

  pub plug-descend : (t : Tree) → plug (descend t top) leaf ≡ t
  plug-descend t =
      descend_rule (λ s pth. plug pth s ≡ t) (λ c l r e pth p h. h) (λ c l r e pth p h. h) t top
        refl

  pub depth-descend : (t : Tree) → depth (descend t top) ≤ size t
  depth-descend t =
      let end =
        descend_rule (λ s pth. depth pth + size s ≤ size t) (λ c l r e pth p h. omega arith)
          (λ c l r e pth p h. omega arith) t top (omega arith) in
      omega (arith, end)

  Fitting-black : (t : Tree) (pth : Spine) → IsBlack t → Fitting t pth
  Fitting-black leaf pth h = tt
  Fitting-black (node red l e r) pth h = absurd h
  Fitting-black (node black l e r) pth h = tt

  -- A subtree fits below its path, with some number of black nodes.
  abbrev FitsAt : Tree → Spine → Type 0
  FitsAt t pth = (b : ℕ) × Balanced b t × Fitting t pth × Fits b pth

  FitsAt-right :
      (c : Color) (l r : Tree) (e : Entry) (pth : Spine)
      → turns e.key ≡ true
      → FitsAt (node c l e r) pth
      → FitsAt r (right_of l c e pth)
  FitsAt-right red l r e pth p (b, (lb, rb, bl, br), fit, fits) =
      (b, br, Fitting-black r (right_of l red e pth) rb, (lb, bl, fit, fits))
  FitsAt-right black l r e pth p (b, (k, same, bl, br), fit, fits) =
      (k, br, Fitting-below_black r (right_of l black e pth) tt, (bl, rw (← same) fits))

  FitsAt-left :
      (c : Color) (l r : Tree) (e : Entry) (pth : Spine)
      → turns e.key ≡ false
      → FitsAt (node c l e r) pth
      → FitsAt l (left_of c e r pth)
  FitsAt-left red l r e pth p (b, (lb, rb, bl, br), fit, fits) =
      (b, bl, Fitting-black l (left_of red e r pth) lb, (rb, br, fit, fits))
  FitsAt-left black l r e pth p (b, (k, same, bl, br), fit, fits) =
      (k, bl, Fitting-below_black l (left_of black e r pth) tt, (br, rw (← same) fits))

  -- The empty place fits where the whole tree is red-black.
  pub descend-Fits : (t : Tree) → IsRedBlack t → Fits 0 (descend t top)
  descend-Fits t h =
      let (b, none_left, fit, fits) =
        descend_rule FitsAt FitsAt-right FitsAt-left t top
          (h.height, h.balanced, Fitting-black t top h.root_black, tt) in
      rw (← none_left) fits

  module _ (rank : Ptr → ℕ) (n : ℕ) (m : TreeMemory) where
    pub At-descend : (t : Tree) → At rank n m t top → At rank n m leaf (descend t top)
    At-descend t h =
        descend_rule (At rank n m) (λ c l r e pth p. At-right rank n m c l r e pth)
          (λ c l r e pth p. At-left rank n m c l r e pth) t top h

    -- The walk ends, and finds the node above the empty place.
    pub walk_down-descend :
        (k : ℕ) (t : Tree) (pth : Spine)
        → size t < k
        → At rank n m t pth
        → walk_down k turns (root_of t) (path_at pth) m ≡ some (path_at (descend t pth), m)
    unfolding walk_down
    walk_down-descend zero t pth rounds h = absurd (omega arith)
    walk_down-descend (suc k) leaf pth rounds h = refl
    walk_down-descend (suc k) (node c l e r) pth rounds h = ground (
      arith,
      h.0.0,
      read_node-At rank n m c l r e pth h,
      walk_down-descend k r (right_of l c e pth) (omega arith) (At-right rank n m c l r e pth h),
      walk_down-descend k l (left_of c e r pth) (omega arith) (At-left rank n m c l r e pth h),
    )
