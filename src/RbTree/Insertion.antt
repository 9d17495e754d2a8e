-- ===== src/RbTree/Insertion.antt =====
-- `rbtree_insert` and `rbtree_insert_reverse` of src/rbtree.c, on a tree with an empty pool: insertion
-- into the ordered list of the nodes, in a tree that stays red-black.
use mathlib.Core.Path.{subst}
use regex.Base.{
  ℕ, ◌+◌, ◌*◌, ◌<◌, ◌≡◌, ◌≢◌, ◌∙◌, refl, ap, sym, Bool, none, some, List, [], ◌∷◌, if◌then◌else◌,
  length, length-append, Option-cases, inl, inr, arith,
}
use regex.Base.Int.{ℤ, int_less}
use regex.RbTree.Memory.{
  Ptr, null, red, TreeMemory, M, pure, ◌>>=◌, ◌>>◌, write_at, get_ctrl, put_ctrl, store_node,
}
use regex.RbTree.Pool.{new_rbtree_node}
use regex.RbTree.Insert.{walk_down, hang, rbtree_insert, rbtree_insert_reverse}
use regex.RbTree.Cells.{write_at_self, Around-write}
use regex.RbTree.Balance.{IsRedBlack}
use regex.RbTree.Fixup.{Repaired}
use regex.RbTree.Grow.{spread, spread-fresh, spread-bounds, Around-spread}
use regex.RbTree.Walk.{
  size, descend, descend-Aimed, descend-Fits, depth-descend, plug-descend, At-descend,
  walk_down-descend,
}
use regex.RbTree.Hang.{Loose, hang-Repaired}
use regex.RbTree.Focus.{plug-At}
use regex.RbTree.Order.{
  Sorted, insert_sorted, IsStrictOrder, less-IsStrictOrder, greater-IsStrictOrder, around-descend,
  insert_sorted-Sorted,
}
use regex.RbTree.Shape.{Entry, Tree, leaf, node, top, entries, around, cell, lo_of, At}

-- The memory holds the tree.
abbrev pub Holds : TreeMemory → Tree → Type 0
Holds m t = (rank : Ptr → ℕ) × (n : ℕ) × At rank n m t top

-- The memory holds a red-black tree with these nodes, the pool is empty, and so many insertions
-- have been counted.
pub record Ordered (before : ℤ → ℤ → Bool) (m : TreeMemory) (es : List Entry) (count : ℕ)
    : Type 0 where
  pub tree : Tree
  pub held : Holds m tree
  pub red_black : IsRedBlack tree
  pub listed : entries tree ≡ es
  pub sorted : Sorted before es
  pub counted : m.ctrl.count ≡ count
  pub empty_pool : m.ctrl.pool_ptr ≡ null

-- What is new of an inserted node.
abbrev pub entry : Ptr → ℤ → Ptr → Bool → Entry
entry fresh key content reuse = record {
  at = fresh;
  key = key;
  content = if reuse then null else content;
}

-- Where the pool is empty, the node is a fresh one.
new_rbtree_node-fresh :
    (k : ℕ) (fresh : Ptr) (key : ℤ) (content : Ptr) (reuse : Bool) (m : TreeMemory)
    → m.ctrl.pool_ptr ≡ null
    → new_rbtree_node k fresh key content reuse m
      ≡ some (
        fresh,
        record m {
          nodes =
              write_at m.nodes fresh
                (some (cell red null (entry fresh key content reuse) null null));
        },
      )
unfolding new_rbtree_node get_ctrl store_node
new_rbtree_node-fresh k fresh key content reuse m empty = ground (arith, empty)

-- The walk from the root and the hanging.
abbrev place : (ℤ → Bool) → ℕ → Ptr → Ptr → M (Unit {0})
place turns k root new = walk_down k turns root null >>= λ prev. hang k turns new prev

place-pure :
    (turns : ℤ → Bool) (k : ℕ) (root new : Ptr) (m m' : TreeMemory)
    → place turns k root new m ≡ some (tt, m')
    → (do prev ← walk_down k turns root null; hang k turns new prev; pure new) m ≡ some (new, m')
place-pure turns k root new m m' h = elim (Option-cases (walk_down k turns root null m)) [
  | inl e ↦ let stuck = rw (e, ◌>>=◌) at h in cc
  | inr ((prev, m1), e) ↦ rw (e, rw (e, ◌>>=◌) at h, ◌>>=◌)
]

-- The memory with the new node.
abbrev with_entry : TreeMemory → Entry → TreeMemory
with_entry m e = record m { nodes = write_at m.nodes e.at (some (cell red null e null null)) }

module _ (turns : ℤ → Bool) (k : ℕ) (m : TreeMemory) (e : Entry) (t : Tree) where
  place-Repaired :
      Holds m t
      → IsRedBlack t
      → size t < k
      → e.at ≢ null
      → m.nodes e.at ≡ none
      → (rank : Ptr → ℕ) × (n : ℕ) × Repaired rank n
          (with_entry m e)
          (place turns k m.ctrl.root e.at (with_entry m e))
          (around (descend turns t top) (e ∷ []))
  place-Repaired (rank, n, h) rb rounds some_e free =
      let pth = descend turns t top in
      let w = lo_of rank pth in
      let c = some (cell red null e null null) in
      let m1 = record m { nodes = write_at m.nodes e.at c } in
      let here = At-descend turns rank n m t h in
      let (low, high, between) =
        spread-bounds rank e.at w m.nodes free n m.ctrl.root null pth here.1 in
      let mid = spread-fresh rank e.at w in
      let r = spread rank e.at w in
      let loose : Loose r (2 * n + 1) m1 e null pth =
        (some_e, omega arith, omega arith, write_at_self m.nodes e.at c) in
      let at : At r (2 * n + 1) m1 leaf pth = (
        tt,
        Around-write r m.nodes e.at c (2 * n + 1) m.ctrl.root null pth loose.1 loose.2
            (Around-spread rank e.at w m.nodes free n m.ctrl.root null pth here.1),
      ) in
      let whole : At r (2 * n + 1) m1 t top =
        subst (λ s. At r (2 * n + 1) m1 s top) (plug-descend turns t)
          (plug-At r (2 * n + 1) m1 leaf pth at) in
      let walked =
        ap (λ p. walk_down k turns p null m1) whole.1
        ∙ walk_down-descend turns r (2 * n + 1) m1 k t top rounds whole in
      let (t', (m2, d2, h2, s2), rb', same) =
        hang-Repaired r (2 * n + 1) turns k m1 e pth (omega (arith, depth-descend turns t)) loose at
          (descend-Aimed turns t) (descend-Fits turns t rb) in
      (r, 2 * n + 1, (t', (m2, rw (walked, ◌>>=◌) d2, h2, s2), rb', same))

pub size-entries : (t : Tree) → size t ≡ length (entries t)
size-entries leaf = refl
size-entries (node c l e r) =
    omega (arith, size-entries l, size-entries r, length-append {0} (entries l) (e ∷ entries r))

-- What both insertions do behind the allocation.
inserted :
    (before : ℤ → ℤ → Bool)
    → IsStrictOrder before
    → (k : ℕ) (m : TreeMemory) (e : Entry) (es : List Entry) (count : ℕ) → Ordered before m es count
    → length es < k
    → e.at ≢ null
    → m.nodes e.at ≡ none
    → (m' : TreeMemory) × (place (λ x. before x e.key) k m.ctrl.root e.at (with_entry m e)
        ≡ some (tt, m'))
      × Ordered before m' (insert_sorted before e es) count
inserted before law k m e es count o rounds some_e free =
    let t = o.tree in
    let (rank, n, (t', (m', done, at, block), rb, same)) =
      place-Repaired (λ x. before x e.key) k m e t o.held o.red_black
        (omega (arith, size-entries t, ap length o.listed)) some_e free in
    let listed = around-descend before law e t (subst (Sorted before) (sym o.listed) o.sorted) in
    (
      m',
      done,
      record {
        tree = t';
        held = (rank, n, at);
        red_black = rb;
        listed = same ∙ listed ∙ ap (insert_sorted before e) o.listed;
        sorted = insert_sorted-Sorted before law e es o.sorted;
        counted = ap (λ c. c.count) block ∙ o.counted;
        empty_pool = ap (λ c. c.pool_ptr) block ∙ o.empty_pool;
      },
    )

module _ (k : ℕ) (fresh : Ptr) (key : ℤ) (content : Ptr) (reuse : Bool) (m : TreeMemory)
    (es : List Entry) (count : ℕ) where
  -- Where the memory holds a red-black tree whose nodes are in ascending order and fewer than the
  -- rounds, the pool is empty, and the address that the allocator gives is not null and not in use,
  -- an insertion returns this address and leaves a red-black tree in ascending order: its nodes are
  -- those from before with the new one in front of the first that has no smaller key, and the count
  -- is one more.
  pub rbtree_insert-Ordered :
      Ordered int_less m es count
      → length es < k
      → fresh ≢ null
      → m.nodes fresh ≡ none
      → (m' : TreeMemory) × (rbtree_insert k fresh key content reuse m ≡ some (fresh, m'))
        × Ordered int_less m'
            (insert_sorted int_less (entry fresh key content reuse) es)
            (count + 1)
  unfolding rbtree_insert get_ctrl put_ctrl
  rbtree_insert-Ordered o rounds some_fresh free =
      let m0 = record m { ctrl = record m.ctrl { count = m.ctrl.count + 1 } } in
      let e = entry fresh key content reuse in
      let o0 : Ordered int_less m0 es (count + 1) = record {
        tree = o.tree;
        held = o.held;
        red_black = o.red_black;
        listed = o.listed;
        sorted = o.sorted;
        counted = ap (λ (c : ℕ). c + 1) o.counted;
        empty_pool = o.empty_pool;
      } in
      let (m', done, o') =
        inserted int_less less-IsStrictOrder k m0 e es (count + 1) o0 rounds some_fresh free in
      (
        m',
        rw (new_rbtree_node-fresh k fresh key content reuse m0 o.empty_pool, ◌>>=◌)
            (place-pure (λ x. int_less x key) k m0.ctrl.root fresh (with_entry m0 e) m' done),
        o',
      )

  -- The reverse insertion does the same in descending order, under the same conditions: the new
  -- node stands in front of the first that has no greater key. It does not change the count of the
  -- nodes.
  pub rbtree_insert_reverse-Ordered :
      Ordered (λ x y. int_less y x) m es count
      → length es < k
      → fresh ≢ null
      → m.nodes fresh ≡ none
      → (m' : TreeMemory) × (rbtree_insert_reverse k fresh key content reuse m ≡ some (fresh, m'))
        × Ordered
            (λ x y. int_less y x)
            m'
            (insert_sorted (λ x y. int_less y x) (entry fresh key content reuse) es)
            count
  unfolding rbtree_insert_reverse get_ctrl
  rbtree_insert_reverse-Ordered o rounds some_fresh free =
      let e = entry fresh key content reuse in
      let (m', done, o') =
        inserted (λ x y. int_less y x) greater-IsStrictOrder k m e es count o rounds some_fresh
          free in
      (
        m',
        rw (new_rbtree_node-fresh k fresh key content reuse m o.empty_pool, ◌>>=◌)
            (place-pure (λ x. int_less key x) k m.ctrl.root fresh (with_entry m e) m' done),
        o',
      )
