-- ===== src/RbTree/Fixup.antt =====
-- `rbtree_fixup` of src/rbtree.c: a red node hung into a red-black tree leaves a red-black tree with
-- the same nodes in the same order.
use regex.Base.{ℕ, suc, ◌≡◌, ◌∙◌, refl, false, Option, some, List, arith}
use regex.RbTree.Memory.{Ptr, red, black, TreeMemory}
use regex.RbTree.Insert.{fixup_round, fixup_loop}
use regex.RbTree.Steps.{root_is_red}
use regex.RbTree.Balance.{IsBlack, Balanced, IsRedBlack, EndsBlack, Fits, Fitting, plug-IsRedBlack}
use regex.RbTree.Focus.{Leaves, At-up_left, At-up_right, read_node-At, plug-At}
use regex.RbTree.Shape.{
  Entry, Tree, leaf, node, Spine, top, left_of, right_of, path_at, entries, around, plug, At,
}

-- The nodes of the path.
abbrev pub depth : Spine → ℕ
depth top = 0
depth (left_of c e r up) = suc (depth up)
depth (right_of l c e up) = suc (depth up)

pub entries-plug : (pth : Spine) (t : Tree) → entries (plug pth t) ≡ around pth (entries t)
entries-plug top t = refl
entries-plug (left_of c e r up) t = entries-plug up (node c t e r)
entries-plug (right_of l c e up) t = entries-plug up (node c l e t)

pub IsBlack-cold : (u : Tree) → root_is_red u ≡ false → IsBlack u
IsBlack-cold leaf h = tt
IsBlack-cold (node red l e r) h = cc
IsBlack-cold (node black l e r) h = tt

pub Fitting-below_black : (t : Tree) (pth : Spine) → EndsBlack pth → Fitting t pth
Fitting-below_black leaf pth h = tt
Fitting-below_black (node red l e r) pth h = h
Fitting-below_black (node black l e r) pth h = tt

module _ (rank : Ptr → ℕ) (n : ℕ) where
  -- The memory then holds a red-black tree with these nodes.
  abbrev pub Repaired : TreeMemory → Option (Unit {0} × TreeMemory) → List Entry → Type 0
  Repaired m done es = (t : Tree) × Leaves rank n m done t top × IsRedBlack t × (entries t ≡ es)

  -- The loop ends below a black node.
  ends_below_black :
      (k : ℕ) (m : TreeMemory) (child : Ptr) (t : Tree) (pth : Spine)
      → EndsBlack pth
      → At rank n m t pth
      → fixup_loop (suc k) child (path_at pth) m ≡ some (tt, m)
  unfolding fixup_loop
  ends_below_black k m child t top h at = absurd h
  ends_below_black k m child t (left_of red e r up) h at = absurd h
  ends_below_black k m child t (right_of l red e up) h at = absurd h
  ends_below_black k m child t (left_of black e r up) h at =
      let here = At-up_left rank n m black t r e up at in
      ground (arith, here.0.0, read_node-At rank n m black t r e up here)
  ends_below_black k m child t (right_of l black e up) h at =
      let here = At-up_right rank n m black l t e up at in
      ground (arith, here.0.0, read_node-At rank n m black l t e up here)

  pub fixup-below_black :
      (k : ℕ) (m : TreeMemory) (child : Ptr) (b : ℕ) (t : Tree) (pth : Spine)
      → EndsBlack pth
      → At rank n m t pth
      → Balanced b t
      → Fits b pth
      → Repaired m (fixup_loop (suc k) child (path_at pth) m) (around pth (entries t))
  fixup-below_black k m child b t pth h at bal fits = (
    plug pth t,
    (m, ends_below_black k m child t pth h at, plug-At rank n m t pth at, refl),
    plug-IsRedBlack b t pth bal (Fitting-below_black t pth h) fits,
    entries-plug pth t,
  )

  -- A round below a red parent, with what the loop makes of its result.
  pub loop_on :
      (k : ℕ) (m m' : TreeMemory) (child parent c q : Ptr) (es fs : List Entry)
      → fixup_loop (suc k) child parent m ≡ fixup_loop k c q m'
      → record m'.ctrl { root = 0 } ≡ record m.ctrl { root = 0 }
      → Repaired m' (fixup_loop k c q m') es
      → es ≡ fs
      → Repaired m (fixup_loop (suc k) child parent m) fs
  loop_on k m m' child parent c q es fs step block (t, (m2, done, at, block2), rb, same) e =
      (t, (m2, step ∙ done, at, block2 ∙ block), rb, same ∙ e)

  -- One round below a red parent at `p`.
  pub steps_on :
      (k : ℕ) (m m' : TreeMemory) (child c q : Ptr) (x y : Tree) (p : Entry) (pth : Spine)
      → At rank n m (node red x p y) pth
      → fixup_round child p.at m ≡ some ((c, q), m')
      → fixup_loop (suc k) child p.at m ≡ fixup_loop k c q m'
  unfolding fixup_loop
  steps_on k m m' child c q x y p pth h round =
      ground (arith, h.0.0, read_node-At rank n m red x y p pth h, round)
