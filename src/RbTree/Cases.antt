-- ===== src/RbTree/Cases.antt =====
-- The cases of a round of `rbtree_fixup` in src/rbtree.c, and the loop by induction on its rounds.
use regex.Base.{ℕ, suc, ◌≡◌, ap, false, ◌++◌, ◌∷◌}
use mathlib.Core.List.{append_assoc}
use regex.RbTree.Memory.{Ptr, red, black, TreeMemory}
use regex.RbTree.Insert.{fixup_loop}
use regex.RbTree.Steps.{root_is_red}
use regex.RbTree.Balance.{Balanced, Fits}
use regex.RbTree.Rounds.{
  fixup_round-outer_left, fixup_round-inner_left, fixup_round-outer_right, fixup_round-inner_right,
}
use regex.RbTree.Fixup.{Repaired, IsBlack-cold, fixup-below_black, loop_on, steps_on}
use regex.RbTree.Focus.{At-up_left, At-up_right, At-left, At-right}
use regex.RbTree.Shape.{Entry, Tree, node, Spine, left_of, right_of, entries, around, At}

module _ (rank : Ptr → ℕ) (n : ℕ) where
  -- The uncle `u` is not red: after the round the loop ends.
  module _ (k : ℕ) (m : TreeMemory) (b : ℕ) (p g : Entry) (up : Spine) where
    pub cold_outer_left :
        (l r s u : Tree) (e : Entry)
        → root_is_red u ≡ false
        → At rank n m (node red l e r) (left_of red p s (left_of black g u up))
        → Balanced b (node red l e r)
        → Fits b (left_of red p s (left_of black g u up))
        → Repaired rank n m
            (fixup_loop (suc (suc k)) e.at p.at m)
            (around up ((entries (node red l e r) ++ p ∷ entries s) ++ g ∷ entries u))
    cold_outer_left l r s u e cold h bal (sb, bs, ends, (bu, fits)) =
        let a = node red l e r in
        let at_p = At-up_left rank n m red a s p (left_of black g u up) h in
        let at_g = At-up_left rank n m black (node red a p s) u g up at_p in
        let (m1, d1, h1, s1) = fixup_round-outer_left rank n m p g up l r s u e cold at_g in
        loop_on rank n (suc k) m m1 e.at p.at e.at p.at
          (around up (entries a ++ p ∷ (entries s ++ g ∷ entries u)))
          (around up ((entries a ++ p ∷ entries s) ++ g ∷ entries u))
          (steps_on rank n (suc k) m m1 e.at e.at p.at a s p (left_of black g u up) at_p d1) s1
          (fixup-below_black rank n k m1 e.at b a (left_of black p (node red s g u) up) tt
            (At-left rank n m1 black a (node red s g u) p up h1) bal
            ((sb, IsBlack-cold u cold, bs, bu), fits))
          (ap (around up) (simp append_assoc))

    pub cold_inner_left :
        (c d s u : Tree) (e : Entry)
        → root_is_red u ≡ false
        → At rank n m (node red c e d) (right_of s red p (left_of black g u up))
        → Balanced b (node red c e d)
        → Fits b (right_of s red p (left_of black g u up))
        → Repaired rank n m
            (fixup_loop (suc (suc k)) e.at p.at m)
            (around up ((entries s ++ p ∷ entries (node red c e d)) ++ g ∷ entries u))
    cold_inner_left c d s u e cold h (cb, db, bc, bd) (sb, bs, ends, (bu, fits)) =
        let a = node red c e d in
        let low = node red s p c in
        let at_p = At-up_right rank n m red s a p (left_of black g u up) h in
        let at_g = At-up_left rank n m black (node red s p a) u g up at_p in
        let (m1, d1, h1, s1) = fixup_round-inner_left rank n m p g up s c d u e cold at_g in
        loop_on rank n (suc k) m m1 e.at p.at p.at e.at
          (around up (entries low ++ e ∷ (entries d ++ g ∷ entries u)))
          (around up ((entries s ++ p ∷ entries a) ++ g ∷ entries u))
          (steps_on rank n (suc k) m m1 e.at p.at e.at s a p (left_of black g u up) at_p d1) s1
          (fixup-below_black rank n k m1 p.at b low (left_of black e (node red d g u) up) tt
            (At-left rank n m1 black low (node red d g u) e up h1) (sb, cb, bs, bc)
            ((db, IsBlack-cold u cold, bd, bu), fits))
          (ap (around up) (simp append_assoc))

    pub cold_outer_right :
        (l r s u : Tree) (e : Entry)
        → root_is_red u ≡ false
        → At rank n m (node red l e r) (right_of s red p (right_of u black g up))
        → Balanced b (node red l e r)
        → Fits b (right_of s red p (right_of u black g up))
        → Repaired rank n m
            (fixup_loop (suc (suc k)) e.at p.at m)
            (around up (entries u ++ g ∷ (entries s ++ p ∷ entries (node red l e r))))
    cold_outer_right l r s u e cold h bal (sb, bs, ends, (bu, fits)) =
        let a = node red l e r in
        let at_p = At-up_right rank n m red s a p (right_of u black g up) h in
        let at_g = At-up_right rank n m black u (node red s p a) g up at_p in
        let (m1, d1, h1, s1) = fixup_round-outer_right rank n m p g up l r s u e cold at_g in
        loop_on rank n (suc k) m m1 e.at p.at e.at p.at
          (around up ((entries u ++ g ∷ entries s) ++ p ∷ entries a))
          (around up (entries u ++ g ∷ (entries s ++ p ∷ entries a)))
          (steps_on rank n (suc k) m m1 e.at e.at p.at s a p (right_of u black g up) at_p d1) s1
          (fixup-below_black rank n k m1 e.at b a (right_of (node red u g s) black p up) tt
            (At-right rank n m1 black (node red u g s) a p up h1) bal
            ((IsBlack-cold u cold, sb, bu, bs), fits))
          (ap (around up) (simp append_assoc))

    pub cold_inner_right :
        (c d s u : Tree) (e : Entry)
        → root_is_red u ≡ false
        → At rank n m (node red c e d) (left_of red p s (right_of u black g up))
        → Balanced b (node red c e d)
        → Fits b (left_of red p s (right_of u black g up))
        → Repaired rank n m
            (fixup_loop (suc (suc k)) e.at p.at m)
            (around up (entries u ++ g ∷ (entries (node red c e d) ++ p ∷ entries s)))
    cold_inner_right c d s u e cold h (cb, db, bc, bd) (sb, bs, ends, (bu, fits)) =
        let a = node red c e d in
        let high = node red d p s in
        let at_p = At-up_left rank n m red a s p (right_of u black g up) h in
        let at_g = At-up_right rank n m black u (node red a p s) g up at_p in
        let (m1, d1, h1, s1) = fixup_round-inner_right rank n m p g up s c d u e cold at_g in
        loop_on rank n (suc k) m m1 e.at p.at p.at e.at
          (around up ((entries u ++ g ∷ entries c) ++ e ∷ entries high))
          (around up (entries u ++ g ∷ (entries a ++ p ∷ entries s)))
          (steps_on rank n (suc k) m m1 e.at p.at e.at a s p (right_of u black g up) at_p d1) s1
          (fixup-below_black rank n k m1 p.at b high (right_of (node red u g c) black e up) tt
            (At-right rank n m1 black (node red u g c) high e up h1) (db, sb, bd, bs)
            ((IsBlack-cold u cold, cb, bu, bc), fits))
          (ap (around up) (simp append_assoc))
