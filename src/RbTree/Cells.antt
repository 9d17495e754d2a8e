-- ===== src/RbTree/Cells.antt =====
-- What single reads and writes of fields do, in the memory of src/rbtree.c's nodes and in the trees
-- that it holds.
use regex.Base.{ℕ, ◌==◌, false, ◌≤◌, ◌<◌, ◌≡◌, ◌≢◌, Option, some, ap, arith}
use regex.RbTree.Memory.{
  Ptr, null, Color, RbNode, ◌>>=◌, TreeMemory, write_at, read_node, store_node, set_left, set_right,
  set_parent, set_color,
}
use regex.RbTree.Shape.{Tree, Spine, Held, Around, lo_of, hi_of, Held-frame, Around-frame}

pub write_at_self : (f : Ptr → Option RbNode) (p : Ptr) (c : Option RbNode) → write_at f p c p ≡ c
unfolding write_at
write_at_self f p c = ground arith

write_at_ne :
    (f : Ptr → Option RbNode) (p : Ptr) (c : Option RbNode) (a : Ptr)
    → a ≢ p
    → write_at f p c a ≡ f a
unfolding write_at
write_at_ne f p c a n = ground arith

pub null-test : (p : Ptr) → p ≢ null → (p == null) ≡ false
null-test p n = ground arith

module _ (m : TreeMemory) (p q : Ptr) (n : RbNode) (some_p : p ≢ null)
    (at : m.nodes p ≡ some n) where
  pub read_node-at : read_node p m ≡ some (n, m)
  unfolding read_node
  read_node-at = ground (arith, some_p, at)

  pub set_left-at :
      set_left p q m
      ≡ some (tt, record m { nodes = write_at m.nodes p (some (record n { left = q })) })
  unfolding set_left store_node
  set_left-at = rw (read_node-at, ◌>>=◌)

  pub set_right-at :
      set_right p q m
      ≡ some (tt, record m { nodes = write_at m.nodes p (some (record n { right = q })) })
  unfolding set_right store_node
  set_right-at = rw (read_node-at, ◌>>=◌)

  pub set_parent-at :
      set_parent p q m
      ≡ some (tt, record m { nodes = write_at m.nodes p (some (record n { parent = q })) })
  unfolding set_parent store_node
  set_parent-at = rw (read_node-at, ◌>>=◌)

pub set_color-at :
    (m : TreeMemory) (p : Ptr) (d : Color) (n : RbNode)
    → p ≢ null
    → m.nodes p ≡ some n
    → set_color p d m
      ≡ some (tt, record m { nodes = write_at m.nodes p (some (record n { color = d })) })
unfolding set_color store_node
set_color-at m p d n some_p at = rw (read_node-at m p p n some_p at, ◌>>=◌)

module _ (rank : Ptr → ℕ) (f : Ptr → Option RbNode) (p : Ptr) (c : Option RbNode) where
  pub write_at_below : (a : Ptr) → rank a < rank p → write_at f p c a ≡ f a
  write_at_below a h = write_at_ne f p c a (λ e. omega (arith, h, ap rank e))

  pub write_at_above : (a : Ptr) → rank p < rank a → write_at f p c a ≡ f a
  write_at_above a h = write_at_ne f p c a (λ e. omega (arith, h, ap rank e))

  pub write_at_apart : (a : Ptr) → rank a ≢ rank p → write_at f p c a ≡ f a
  write_at_apart a h = write_at_ne f p c a (λ e. h (ap rank e))

  -- A tree is spared by a write at an address whose rank is not in its interval.
  pub Held-write_below :
      (lo hi : ℕ) (up : Ptr) (t : Tree)
      → rank p < lo
      → Held rank f lo hi up t
      → Held rank (write_at f p c) lo hi up t
  Held-write_below lo hi up t out h =
      Held-frame rank lo hi up t h (λ a q r. write_at_above a (omega arith))

  pub Held-write_above :
      (lo hi : ℕ) (up : Ptr) (t : Tree)
      → hi ≤ rank p
      → Held rank f lo hi up t
      → Held rank (write_at f p c) lo hi up t
  Held-write_above lo hi up t out h =
      Held-frame rank lo hi up t h (λ a q r. write_at_below a (omega arith))

  pub Around-write :
      (n : ℕ) (root x : Ptr) (pth : Spine)
      → lo_of rank pth ≤ rank p
      → rank p < hi_of rank n pth
      → Around rank n f root x pth
      → Around rank n (write_at f p c) root x pth
  Around-write n root x pth low high h =
      Around-frame rank n root x pth h (λ a q. write_at_below a (omega arith))
        (λ a q. write_at_above a (omega arith))
