-- ===== src/RbTree/Grow.antt =====
-- Room for one more node among the ranks of a tree of src/rbtree.c: the ranks are doubled, and the
-- new address gets one between those on its two sides.
use regex.Base.{ℕ, suc, ◌+◌, ◌*◌, ◌≤◌, ◌==◌, ◌≡◌, Option, none, some, if◌then◌else◌, arith}
use regex.RbTree.Memory.{Ptr, RbNode}
use regex.RbTree.Shape.{Tree, leaf, node, Spine, top, left_of, right_of, Held, Around, lo_of, hi_of}

module _ (rank : Ptr → ℕ) (fresh : Ptr) (w : ℕ) where
  unfoldable pub spread : Ptr → ℕ
  spread a = if a == fresh then 2 * w else 2 * rank a + 1

  pub spread-fresh : spread fresh ≡ 2 * w
  unfolding spread
  spread-fresh = ground arith

  module _ (f : Ptr → Option RbNode) (free : f fresh ≡ none) where
    spread-taken : (a : Ptr) (c : RbNode) → f a ≡ some c → spread a ≡ 2 * rank a + 1
    unfolding spread
    spread-taken a c h = ground (arith, free, h)

    pub Held-spread :
        (lo hi lo' hi' : ℕ) (up : Ptr) (t : Tree)
        → lo' ≤ 2 * lo
        → 2 * hi + 1 ≤ hi'
        → Held rank f lo hi up t
        → Held spread f lo' hi' up t
    Held-spread lo hi lo' hi' up leaf u v h = tt
    Held-spread lo hi lo' hi' up (node c l e r) u v (some_e, low, high, at, hl, hr) =
        let here = spread-taken e.at _ at in
        (
          some_e,
          omega (arith, here),
          omega (arith, here),
          at,
          Held-spread lo (rank e.at) lo' (spread e.at) e.at l u (omega (arith, here)) hl,
          Held-spread (suc (rank e.at)) hi (suc (spread e.at)) hi' e.at r (omega (arith, here)) v
              hr,
        )

    module _ (n : ℕ) (root : Ptr) where
      pub spread-bounds :
          (x : Ptr) (pth : Spine)
          → Around rank n f root x pth
          → (lo_of spread pth ≡ 2 * lo_of rank pth)
            × (hi_of spread (2 * n + 1) pth ≡ 2 * hi_of rank n pth + 1)
            × (lo_of rank pth ≤ hi_of rank n pth)
      spread-bounds x top h = omega arith
      spread-bounds x (left_of c e r up) (some_e, low, high, at, hr, h) =
          let (a, b, d) = spread-bounds e.at up h in (a, spread-taken e.at _ at, low)
      spread-bounds x (right_of l c e up) (some_e, low, high, at, hl, h) =
          let (a, b, d) = spread-bounds e.at up h in
          (omega (arith, spread-taken e.at _ at), b, high)

      pub Around-spread :
          (x : Ptr) (pth : Spine)
          → Around rank n f root x pth
          → Around spread (2 * n + 1) f root x pth
      Around-spread x top h = h
      Around-spread x (left_of c e r up) (some_e, low, high, at, hr, h) =
          let here = spread-taken e.at _ at in
          let (a, b, d) = spread-bounds e.at up h in
          (
            some_e,
            omega (arith, here),
            omega (arith, here),
            at,
            Held-spread (suc (rank e.at)) (hi_of rank n up) (suc (spread e.at))
                (hi_of spread (2 * n + 1) up) e.at r (omega (arith, here)) (omega arith) hr,
            Around-spread e.at up h,
          )
      Around-spread x (right_of l c e up) (some_e, low, high, at, hl, h) =
          let here = spread-taken e.at _ at in
          let (a, b, d) = spread-bounds e.at up h in
          (
            some_e,
            omega (arith, here),
            omega (arith, here),
            at,
            Held-spread (lo_of rank up) (rank e.at) (lo_of spread up) (spread e.at) e.at l
                (omega arith) (omega (arith, here)) hl,
            Around-spread e.at up h,
          )
