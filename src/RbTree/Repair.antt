-- ===== src/RbTree/Repair.antt =====
-- `rbtree_fixup` of src/rbtree.c, by induction on the rounds of its loop: a red node hung into a
-- red-black tree leaves a red-black tree with the same nodes in the same order.
use regex.Base.{ℕ, zero, suc, ◌<◌, refl, ◌++◌, ◌∷◌, arith}
use regex.RbTree.Memory.{Ptr, null, red, black, TreeMemory, set_root}
use regex.RbTree.Insert.{fixup_loop}
use regex.RbTree.Balance.{Balanced, Fits}
use regex.RbTree.Rounds.{fixup_round-hot_left, fixup_round-hot_right}
use regex.RbTree.Fixup.{Repaired, depth, fixup-below_black, loop_on, steps_on}
use regex.RbTree.Cases.{cold_outer_left, cold_inner_left, cold_outer_right, cold_inner_right}
use regex.RbTree.Focus.{At-up_left, At-up_right, At-left, At-right, set_color-At}
use regex.RbTree.Shape.{
  Entry, Tree, leaf, node, Spine, top, left_of, right_of, path_at, entries, around, At,
}

module _ (rank : Ptr → ℕ) (n : ℕ) where
  -- The loop at a red node repairs the tree.
  abbrev LoopRepairs : ℕ → Type 0
  LoopRepairs k =
      (m : TreeMemory) (b : ℕ) (l r : Tree) (e : Entry) (pth : Spine)
      → depth pth < k
      → At rank n m (node red l e r) pth
      → Balanced b (node red l e r)
      → Fits b pth
      → Repaired rank n m (fixup_loop k e.at (path_at pth) m)
          (around pth (entries (node red l e r)))

  -- The uncle is red: the loop goes on at the grandparent.
  module _ (k : ℕ) (rec : LoopRepairs k) (m : TreeMemory) (b : ℕ) (child : Ptr) (p g v : Entry)
      (x y c d : Tree) (up : Spine) (rounds : depth up < k) where
    hot_left :
        At rank n m (node black (node red x p y) g (node red c v d)) up
        → Balanced b x
        → Balanced b y
        → Balanced b (node red c v d)
        → Fits (suc b) up
        → Repaired rank n m
            (fixup_loop (suc k) child p.at m)
            (around up ((entries x ++ p ∷ entries y) ++ g ∷ entries (node red c v d)))
    hot_left h bx by (cb, db, bc, bd) fits =
        let t = node red x p y in
        let u = node red c v d in
        let es = around up ((entries x ++ p ∷ entries y) ++ g ∷ entries u) in
        let (m1, d1, h1, s1) = fixup_round-hot_left rank n m p g up child x y c d v h in
        loop_on rank n k m m1 child p.at g.at (path_at up) es es
          (steps_on rank n k m m1 child g.at (path_at up) x y p (left_of black g u up)
            (At-left rank n m black t u g up h) d1)
          s1
          (rec m1 (suc b) (node black x p y) (node black c v d) g up rounds h1
            (tt, tt, (b, refl, bx, by), (b, refl, bc, bd)) fits)
          refl

    hot_right :
        At rank n m (node black (node red c v d) g (node red x p y)) up
        → Balanced b x
        → Balanced b y
        → Balanced b (node red c v d)
        → Fits (suc b) up
        → Repaired rank n m
            (fixup_loop (suc k) child p.at m)
            (around up (entries (node red c v d) ++ g ∷ (entries x ++ p ∷ entries y)))
    hot_right h bx by (cb, db, bc, bd) fits =
        let t = node red x p y in
        let u = node red c v d in
        let es = around up (entries u ++ g ∷ (entries x ++ p ∷ entries y)) in
        let (m1, d1, h1, s1) = fixup_round-hot_right rank n m p g up child x y c d v h in
        loop_on rank n k m m1 child p.at g.at (path_at up) es es
          (steps_on rank n k m m1 child g.at (path_at up) x y p (right_of u black g up)
            (At-right rank n m black u t g up h) d1)
          s1
          (rec m1 (suc b) (node black c v d) (node black x p y) g up rounds h1
            (tt, tt, (b, refl, bc, bd), (b, refl, bx, by)) fits)
          refl

  outer_left :
      (k : ℕ)
      → LoopRepairs k
      → (m : TreeMemory) (b : ℕ) (l r s u : Tree) (e p g : Entry) (up : Spine) → suc (depth up) < k
      → At rank n m (node red l e r) (left_of red p s (left_of black g u up))
      → Balanced b (node red l e r)
      → Fits b (left_of red p s (left_of black g u up))
      → Repaired rank n m
          (fixup_loop (suc k) e.at p.at m)
          (around (left_of red p s (left_of black g u up)) (entries (node red l e r)))
  outer_left zero rec m b l r s u e p g up rounds h bal fits = absurd (omega arith)
  outer_left (suc k) rec m b l r s leaf e p g up rounds h bal fits =
      cold_outer_left rank n k m b p g up l r s leaf e refl h bal fits
  outer_left (suc k) rec m b l r s (node black c v d) e p g up rounds h bal fits =
      cold_outer_left rank n k m b p g up l r s (node black c v d) e refl h bal fits
  outer_left (suc k) rec m b l r s (node red c v d) e p g up rounds h bal
        (sb, bs, ends, (bu, fits)) =
      hot_left (suc k) rec m b e.at p g v (node red l e r) s c d up (omega arith)
        (At-up_left rank n m black (node red (node red l e r) p s) (node red c v d) g up
          (At-up_left rank n m red (node red l e r) s p (left_of black g (node red c v d) up) h))
        bal bs bu fits

  inner_left :
      (k : ℕ)
      → LoopRepairs k
      → (m : TreeMemory) (b : ℕ) (l r s u : Tree) (e p g : Entry) (up : Spine) → suc (depth up) < k
      → At rank n m (node red l e r) (right_of s red p (left_of black g u up))
      → Balanced b (node red l e r)
      → Fits b (right_of s red p (left_of black g u up))
      → Repaired rank n m
          (fixup_loop (suc k) e.at p.at m)
          (around (right_of s red p (left_of black g u up)) (entries (node red l e r)))
  inner_left zero rec m b l r s u e p g up rounds h bal fits = absurd (omega arith)
  inner_left (suc k) rec m b l r s leaf e p g up rounds h bal fits =
      cold_inner_left rank n k m b p g up l r s leaf e refl h bal fits
  inner_left (suc k) rec m b l r s (node black c v d) e p g up rounds h bal fits =
      cold_inner_left rank n k m b p g up l r s (node black c v d) e refl h bal fits
  inner_left (suc k) rec m b l r s (node red c v d) e p g up rounds h bal
        (sb, bs, ends, (bu, fits)) =
      hot_left (suc k) rec m b e.at p g v s (node red l e r) c d up (omega arith)
        (At-up_left rank n m black (node red s p (node red l e r)) (node red c v d) g up
          (At-up_right rank n m red s (node red l e r) p (left_of black g (node red c v d) up) h))
        bs bal bu fits

  outer_right :
      (k : ℕ)
      → LoopRepairs k
      → (m : TreeMemory) (b : ℕ) (l r s u : Tree) (e p g : Entry) (up : Spine) → suc (depth up) < k
      → At rank n m (node red l e r) (right_of s red p (right_of u black g up))
      → Balanced b (node red l e r)
      → Fits b (right_of s red p (right_of u black g up))
      → Repaired rank n m
          (fixup_loop (suc k) e.at p.at m)
          (around (right_of s red p (right_of u black g up)) (entries (node red l e r)))
  outer_right zero rec m b l r s u e p g up rounds h bal fits = absurd (omega arith)
  outer_right (suc k) rec m b l r s leaf e p g up rounds h bal fits =
      cold_outer_right rank n k m b p g up l r s leaf e refl h bal fits
  outer_right (suc k) rec m b l r s (node black c v d) e p g up rounds h bal fits =
      cold_outer_right rank n k m b p g up l r s (node black c v d) e refl h bal fits
  outer_right (suc k) rec m b l r s (node red c v d) e p g up rounds h bal
        (sb, bs, ends, (bu, fits)) =
      hot_right (suc k) rec m b e.at p g v s (node red l e r) c d up (omega arith)
        (At-up_right rank n m black (node red c v d) (node red s p (node red l e r)) g up
          (At-up_right rank n m red s (node red l e r) p (right_of (node red c v d) black g up) h))
        bs bal bu fits

  inner_right :
      (k : ℕ)
      → LoopRepairs k
      → (m : TreeMemory) (b : ℕ) (l r s u : Tree) (e p g : Entry) (up : Spine) → suc (depth up) < k
      → At rank n m (node red l e r) (left_of red p s (right_of u black g up))
      → Balanced b (node red l e r)
      → Fits b (left_of red p s (right_of u black g up))
      → Repaired rank n m
          (fixup_loop (suc k) e.at p.at m)
          (around (left_of red p s (right_of u black g up)) (entries (node red l e r)))
  inner_right zero rec m b l r s u e p g up rounds h bal fits = absurd (omega arith)
  inner_right (suc k) rec m b l r s leaf e p g up rounds h bal fits =
      cold_inner_right rank n k m b p g up l r s leaf e refl h bal fits
  inner_right (suc k) rec m b l r s (node black c v d) e p g up rounds h bal fits =
      cold_inner_right rank n k m b p g up l r s (node black c v d) e refl h bal fits
  inner_right (suc k) rec m b l r s (node red c v d) e p g up rounds h bal
        (sb, bs, ends, (bu, fits)) =
      hot_right (suc k) rec m b e.at p g v (node red l e r) s c d up (omega arith)
        (At-up_right rank n m black (node red c v d) (node red (node red l e r) p s) g up
          (At-up_left rank n m red (node red l e r) s p (right_of (node red c v d) black g up) h))
        bal bs bu fits

  -- At the root the node is made black.
  at_root :
      (k : ℕ) (m : TreeMemory) (b : ℕ) (l r : Tree) (e : Entry)
      → At rank n m (node red l e r) top
      → Balanced b (node red l e r)
      → Repaired rank n m (fixup_loop (suc k) e.at null m) (entries (node red l e r))
  unfolding fixup_loop set_root
  at_root k m b l r e h (lb, rb, bl, br) =
      let m0 = record m { ctrl = record m.ctrl { root = e.at } } in
      let (m1, d1, h1, s1) = set_color-At rank n m0 red l r e top black (h.0, refl) in
      (
        node black l e r,
        (m1, d1, h1, s1),
        record { root_black = tt; height = suc b; balanced = (b, refl, bl, br) },
        refl,
      )

  pub fixup_loop-Repaired : (k : ℕ) → LoopRepairs k
  fixup_loop-Repaired zero m b l r e pth rounds h bal fits = absurd (omega arith)
  fixup_loop-Repaired (suc k) m b l r e top rounds h bal fits = at_root k m b l r e h bal
  fixup_loop-Repaired (suc k) m b l r e (left_of black g u up) rounds h bal fits =
      fixup-below_black rank n k m e.at b (node red l e r) (left_of black g u up) tt h bal fits
  fixup_loop-Repaired (suc k) m b l r e (right_of u black g up) rounds h bal fits =
      fixup-below_black rank n k m e.at b (node red l e r) (right_of u black g up) tt h bal fits
  fixup_loop-Repaired (suc k) m b l r e (left_of red p s (left_of red g u up)) rounds h bal fits =
      absurd fits.2
  fixup_loop-Repaired (suc k) m b l r e (left_of red p s (right_of u red g up)) rounds h bal fits =
      absurd fits.2
  fixup_loop-Repaired (suc k) m b l r e (left_of red p s top) rounds h bal fits = absurd fits.2
  fixup_loop-Repaired (suc k) m b l r e (right_of s red p (left_of red g u up)) rounds h bal fits =
      absurd fits.2
  fixup_loop-Repaired (suc k) m b l r e (right_of s red p (right_of u red g up)) rounds h bal fits =
      absurd fits.2
  fixup_loop-Repaired (suc k) m b l r e (right_of s red p top) rounds h bal fits = absurd fits.2
  fixup_loop-Repaired (suc k) m b l r e (left_of red p s (left_of black g u up)) rounds h bal fits =
      outer_left k (fixup_loop-Repaired k) m b l r s u e p g up (omega arith) h bal fits
  fixup_loop-Repaired (suc k) m b l r e (left_of red p s (right_of u black g up)) rounds h bal
        fits =
      inner_right k (fixup_loop-Repaired k) m b l r s u e p g up (omega arith) h bal fits
  fixup_loop-Repaired (suc k) m b l r e (right_of s red p (left_of black g u up)) rounds h bal
        fits =
      inner_left k (fixup_loop-Repaired k) m b l r s u e p g up (omega arith) h bal fits
  fixup_loop-Repaired (suc k) m b l r e (right_of s red p (right_of u black g up)) rounds h bal
        fits =
      outer_right k (fixup_loop-Repaired k) m b l r s u e p g up (omega arith) h bal fits
