-- ===== src/RbTree/Rotate/Settle.antt =====
-- The three writes that end a rotation of src/rbtree.c: the lower node `g` gets the parent of `e`,
-- and `e` becomes a child of `g`.
use regex.Base.{ℕ, ◌≡◌, ◌≢◌, ◌∙◌, sym, Option, some}
use regex.RbTree.Memory.{
  Ptr, null, RbNode, TreeMemory, ◌>>=◌, ◌>>◌, write_at, set_left, set_right, set_parent,
}
use regex.RbTree.Cells.{write_at_self, write_at_apart, set_left-at, set_right-at, set_parent-at}

module _ (rank : Ptr → ℕ) where
  abbrev pub Settled :
      TreeMemory → Ptr → Ptr → RbNode → RbNode → Option (Unit {0} × TreeMemory) → Type 0
  Settled m e g ne ng done =
      (f : Ptr → Option RbNode) × (done ≡ some (tt, record m { nodes = f }))
      × (f e ≡ some ne)
      × (f g ≡ some ng)
      × ((a : Ptr) → rank a ≢ rank e → rank a ≢ rank g → f a ≡ m.nodes a)

  pub settle_left :
      (m : TreeMemory) (e g up : Ptr) (ne ng : RbNode)
      → e ≢ null
      → g ≢ null
      → rank e ≢ rank g
      → m.nodes e ≡ some ne
      → m.nodes g ≡ some ng
      → Settled m e g
          (record ne { parent = g })
          (record ng { parent = up; left = e })
          ((set_parent g up >> (set_left g e >> set_parent e g)) m)
  settle_left m e g up ne ng some_e some_g apart at_e at_g =
      let n4 = record ng { parent = up } in
      let n5 = record n4 { left = e } in
      let n6 = record ne { parent = g } in
      let f4 = write_at m.nodes g (some n4) in
      let f5 = write_at f4 g (some n5) in
      let f6 = write_at f5 e (some n6) in
      let at_g4 = write_at_self m.nodes g (some n4) in
      let at_e5 =
        write_at_apart rank f4 g (some n5) e apart
        ∙ write_at_apart rank m.nodes g (some n4) e apart
        ∙ at_e in
      (
        f6,
        rw (
          set_parent-at m g up ng some_g at_g,
          set_left-at (record m { nodes = f4 }) g e n4 some_g at_g4,
          set_parent-at (record m { nodes = f5 }) e g ne some_e at_e5,
          ◌>>=◌,
        ),
        write_at_self f5 e (some n6),
        write_at_apart rank f5 e (some n6) g (λ h. apart (sym h)) ∙ write_at_self f4 g (some n5),
        (λ a u v.
            write_at_apart rank f5 e (some n6) a u
            ∙ write_at_apart rank f4 g (some n5) a v
            ∙ write_at_apart rank m.nodes g (some n4) a v),
      )

  pub settle_right :
      (m : TreeMemory) (e g up : Ptr) (ne ng : RbNode)
      → e ≢ null
      → g ≢ null
      → rank e ≢ rank g
      → m.nodes e ≡ some ne
      → m.nodes g ≡ some ng
      → Settled m e g
          (record ne { parent = g })
          (record ng { parent = up; right = e })
          ((set_parent g up >> (set_right g e >> set_parent e g)) m)
  settle_right m e g up ne ng some_e some_g apart at_e at_g =
      let n4 = record ng { parent = up } in
      let n5 = record n4 { right = e } in
      let n6 = record ne { parent = g } in
      let f4 = write_at m.nodes g (some n4) in
      let f5 = write_at f4 g (some n5) in
      let f6 = write_at f5 e (some n6) in
      let at_g4 = write_at_self m.nodes g (some n4) in
      let at_e5 =
        write_at_apart rank f4 g (some n5) e apart
        ∙ write_at_apart rank m.nodes g (some n4) e apart
        ∙ at_e in
      (
        f6,
        rw (
          set_parent-at m g up ng some_g at_g,
          set_right-at (record m { nodes = f4 }) g e n4 some_g at_g4,
          set_parent-at (record m { nodes = f5 }) e g ne some_e at_e5,
          ◌>>=◌,
        ),
        write_at_self f5 e (some n6),
        write_at_apart rank f5 e (some n6) g (λ h. apart (sym h)) ∙ write_at_self f4 g (some n5),
        (λ a u v.
            write_at_apart rank f5 e (some n6) a u
            ∙ write_at_apart rank f4 g (some n5) a v
            ∙ write_at_apart rank m.nodes g (some n4) a v),
      )
