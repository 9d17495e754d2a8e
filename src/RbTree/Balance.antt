-- ===== src/RbTree/Balance.antt =====
-- What makes a tree of src/rbtree.c red-black: red nodes have no red child, the root is black and
-- all ways down pass as many black nodes.
use regex.Base.{ℕ, suc, ◌≡◌, refl}
use regex.RbTree.Memory.{red, black}
use regex.RbTree.Shape.{Entry, Tree, leaf, node, Spine, top, left_of, right_of, plug}

-- The root is not red.
abbrev pub IsBlack : Tree → Type 0
IsBlack leaf = Unit
IsBlack (node red l e r) = ⊥
IsBlack (node black l e r) = Unit

-- All ways down pass `b` black nodes, and no red node has a red child.
abbrev pub Balanced : ℕ → Tree → Type 0
Balanced b leaf = b ≡ 0
Balanced b (node red l e r) = IsBlack l × IsBlack r × Balanced b l × Balanced b r
Balanced b (node black l e r) = (k : ℕ) × (b ≡ suc k) × Balanced k l × Balanced k r

pub record IsRedBlack (t : Tree) : Type 0 where
  pub root_black : IsBlack t
  pub height : ℕ
  pub balanced : Balanced height t

-- The last node on the path is black; the empty path has none.
abbrev pub EndsBlack : Spine → Type 0
EndsBlack top = ⊥
EndsBlack (left_of red e r up) = ⊥
EndsBlack (left_of black e r up) = Unit
EndsBlack (right_of l red e up) = ⊥
EndsBlack (right_of l black e up) = Unit

-- The path fits a subtree with `b` black nodes on its ways.
abbrev pub Fits : ℕ → Spine → Type 0
Fits b top = Unit
Fits b (left_of red e r up) = IsBlack r × Balanced b r × EndsBlack up × Fits b up
Fits b (left_of black e r up) = Balanced b r × Fits (suc b) up
Fits b (right_of l red e up) = IsBlack l × Balanced b l × EndsBlack up × Fits b up
Fits b (right_of l black e up) = Balanced b l × Fits (suc b) up

-- A red root stands only below a black node.
abbrev pub Fitting : Tree → Spine → Type 0
Fitting leaf pth = Unit
Fitting (node red l e r) pth = EndsBlack pth
Fitting (node black l e r) pth = Unit

pub Fitting-top-IsBlack : (t : Tree) → Fitting t top → IsBlack t
Fitting-top-IsBlack leaf h = tt
Fitting-top-IsBlack (node red l e r) h = absurd h
Fitting-top-IsBlack (node black l e r) h = tt

-- A subtree that fits below a red node has no red root.
left_of_red-IsBlack :
    (t r : Tree) (e : Entry) (up : Spine) → Fitting t (left_of red e r up) → IsBlack t
left_of_red-IsBlack leaf r e up h = tt
left_of_red-IsBlack (node red l f s) r e up h = absurd h
left_of_red-IsBlack (node black l f s) r e up h = tt

right_of_red-IsBlack :
    (t l : Tree) (e : Entry) (up : Spine) → Fitting t (right_of l red e up) → IsBlack t
right_of_red-IsBlack leaf l e up h = tt
right_of_red-IsBlack (node red k f s) l e up h = absurd h
right_of_red-IsBlack (node black k f s) l e up h = tt

-- A subtree put at the end of a path that it fits makes the whole red-black.
pub plug-IsRedBlack :
    (b : ℕ) (t : Tree) (pth : Spine)
    → Balanced b t
    → Fitting t pth
    → Fits b pth
    → IsRedBlack (plug pth t)
plug-IsRedBlack b t top bal fit fits = record {
  root_black = Fitting-top-IsBlack t fit;
  height = b;
  balanced = bal;
}
plug-IsRedBlack b t (left_of red e r up) bal fit (rb, br, ends, fits) =
    plug-IsRedBlack b (node red t e r) up (left_of_red-IsBlack t r e up fit, rb, bal, br) ends fits
plug-IsRedBlack b t (left_of black e r up) bal fit (br, fits) =
    plug-IsRedBlack (suc b) (node black t e r) up (b, refl, bal, br) tt fits
plug-IsRedBlack b t (right_of l red e up) bal fit (lb, bl, ends, fits) =
    plug-IsRedBlack b (node red l e t) up (lb, right_of_red-IsBlack t l e up fit, bl, bal) ends fits
plug-IsRedBlack b t (right_of l black e up) bal fit (bl, fits) =
    plug-IsRedBlack (suc b) (node black l e t) up (b, refl, bl, bal) tt fits
