-- ===== src/RbTree/Shape.antt =====
-- The inductive trees that the nodes of src/rbtree.c stand for. The addresses of a tree are told
-- apart by a `rank` that grows from left to right: each subtree has an interval of ranks of its own.
use regex.Base.{ℕ, suc, ◌≤◌, ◌<◌, ◌≡◌, ◌≢◌, Option, some, List, [], ◌∷◌, ◌++◌, arith, ◌∙◌, sym, ap}
use regex.Base.Int.{ℤ}
use regex.RbTree.Memory.{Ptr, null, Color, RbNode, TreeMemory}

-- What an operation on the tree leaves as it is in a node.
pub record Entry : Type 0 where
  pub at : Ptr
  pub key : ℤ
  pub content : Ptr

pub data Tree : Type 0 where
  leaf : Tree
  node : Color → Tree → Entry → Tree → Tree

-- The way from a subtree up to the root: the nodes above it, each with the subtree on its other
-- side.
pub data Spine : Type 0 where
  top : Spine
  left_of : Color → Entry → Tree → Spine → Spine
  right_of : Tree → Color → Entry → Spine → Spine

abbrev pub root_of : Tree → Ptr
root_of leaf = null
root_of (node c l e r) = e.at

abbrev pub path_at : Spine → Ptr
path_at top = null
path_at (left_of c e r up) = e.at
path_at (right_of l c e up) = e.at

-- The nodes in order.
abbrev pub entries : Tree → List Entry
entries leaf = []
entries (node c l e r) = entries l ++ e ∷ entries r

abbrev pub around : Spine → List Entry → List Entry
around top xs = xs
around (left_of c e r up) xs = around up (xs ++ e ∷ entries r)
around (right_of l c e up) xs = around up (entries l ++ e ∷ xs)

abbrev pub plug : Spine → Tree → Tree
plug top t = t
plug (left_of c e r up) t = plug up (node c t e r)
plug (right_of l c e up) t = plug up (node c l e t)

abbrev pub cell : Color → Ptr → Entry → Ptr → Ptr → RbNode
cell c l e r up = record {
  key = e.key;
  left = l;
  right = r;
  parent = up;
  content = e.content;
  color = c;
}

-- Of the control block only the root may differ.
abbrev pub SameBlock : TreeMemory → TreeMemory → Type 0
SameBlock m m' = record m'.ctrl { root = null } ≡ record m.ctrl { root = null }

module _ (rank : Ptr → ℕ) where
  -- The tree hangs below `up`, its ranks from `lo` to below `hi`.
  abbrev pub Held : (Ptr → Option RbNode) → ℕ → ℕ → Ptr → Tree → Type 0
  Held f lo hi up leaf = Unit
  Held f lo hi up (node c l e r) =
      (e.at ≢ null)
      × (lo ≤ rank e.at)
      × (rank e.at < hi)
      × (f e.at ≡ some (cell c (root_of l) e (root_of r) up))
      × Held f lo (rank e.at) e.at l
      × Held f (suc (rank e.at)) hi e.at r

  abbrev pub lo_of : Spine → ℕ
  lo_of top = 0
  lo_of (left_of c e r up) = lo_of up
  lo_of (right_of l c e up) = suc (rank e.at)

  abbrev pub hi_of : ℕ → Spine → ℕ
  hi_of n top = n
  hi_of n (left_of c e r up) = rank e.at
  hi_of n (right_of l c e up) = hi_of n up

  -- The path leads from a subtree at `x` to the root.
  abbrev pub Around : ℕ → (Ptr → Option RbNode) → Ptr → Ptr → Spine → Type 0
  Around n f root x top = root ≡ x
  Around n f root x (left_of c e r up) =
      (e.at ≢ null)
      × (lo_of up ≤ rank e.at)
      × (rank e.at < hi_of n up)
      × (f e.at ≡ some (cell c x e (root_of r) (path_at up)))
      × Held f (suc (rank e.at)) (hi_of n up) e.at r
      × Around n f root e.at up
  Around n f root x (right_of l c e up) =
      (e.at ≢ null)
      × (lo_of up ≤ rank e.at)
      × (rank e.at < hi_of n up)
      × (f e.at ≡ some (cell c (root_of l) e x (path_at up)))
      × Held f (lo_of up) (rank e.at) e.at l
      × Around n f root e.at up

  -- The memory holds the subtree at the end of the path.
  abbrev pub At : ℕ → TreeMemory → Tree → Spine → Type 0
  At n m t pth =
      Held m.nodes (lo_of pth) (hi_of n pth) (path_at pth) t
      × Around n m.nodes m.ctrl.root (root_of t) pth

  pub Held-frame :
      {f g : Ptr → Option RbNode} (lo hi : ℕ) (up : Ptr) (t : Tree)
      → Held f lo hi up t
      → ((a : Ptr) → lo ≤ rank a → rank a < hi → g a ≡ f a)
      → Held g lo hi up t
  Held-frame lo hi up leaf h same = tt
  Held-frame lo hi up (node c l e r) (nonnull, low, high, at, hl, hr) same = (
    nonnull,
    low,
    high,
    same e.at low high ∙ at,
    Held-frame lo (rank e.at) e.at l hl (λ a p q. same a p (omega arith)),
    Held-frame (suc (rank e.at)) hi e.at r hr (λ a p q. same a (omega arith) q),
  )

  pub Around-frame :
      {f g : Ptr → Option RbNode} (n : ℕ) (root x : Ptr) (pth : Spine)
      → Around n f root x pth
      → ((a : Ptr) → rank a < lo_of pth → g a ≡ f a)
      → ((a : Ptr) → hi_of n pth ≤ rank a → g a ≡ f a)
      → Around n g root x pth
  Around-frame n root x top h below above = h
  Around-frame n root x (left_of c e r up) (nonnull, low, high, at, hr, h) below above = (
    nonnull,
    low,
    high,
    above e.at (omega arith) ∙ at,
    Held-frame (suc (rank e.at)) (hi_of n up) e.at r hr (λ a p q. above a (omega arith)),
    Around-frame n root e.at up h below (λ a p. above a (omega arith)),
  )
  Around-frame n root x (right_of l c e up) (nonnull, low, high, at, hl, h) below above = (
    nonnull,
    low,
    high,
    below e.at (omega arith) ∙ at,
    Held-frame (lo_of up) (rank e.at) e.at l hl (λ a p q. below a (omega arith)),
    Around-frame n root e.at up h (λ a p. below a (omega arith)) above,
  )

  -- The address of the root of a tree is not one above its ranks, nor one below them.
  pub root_of_ne :
      (f : Ptr → Option RbNode) (lo hi : ℕ) (up : Ptr) (t : Tree) (p : Ptr)
      → Held f lo hi up t
      → p ≢ null
      → (lo ≤ rank p → rank p < hi → ⊥)
      → root_of t ≢ p
  root_of_ne f lo hi up leaf p h nonnull out = λ e. nonnull (sym e)
  root_of_ne f lo hi up (node c l e r) p h nonnull out =
      λ q. out (omega (arith, ap rank q, h.1)) (omega (arith, ap rank q, h.2))
