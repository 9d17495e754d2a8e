-- ===== src/RbTree/Found.antt =====
-- `rbtree_search` of src/rbtree.c on an ordered tree.
use regex.Base.{
  ℕ, zero, suc, ◌<◌, ◌≡◌, ◌∙◌, refl, ap, sym, true, false, some, List, [], ◌∷◌, ◌++◌, Every,
  Bool-cases, length, ◌⊎◌, inl, inr, arith,
}
use mathlib.Core.Path.{subst}
use mathlib.Core.List.{append_assoc}
use regex.Base.Int.{ℤ, pos, negsuc, int_less, int_same}
use regex.RbTree.Memory.{Ptr, null, TreeMemory}
use regex.RbTree.Queries.{rbtree_search}
use regex.RbTree.Walk.{size}
use regex.RbTree.Order.{Sorted, Sorted-left, Sorted-right, Every_middle}
use regex.RbTree.Focus.{At-left, At-right, read_node-At}
use regex.RbTree.Insertion.{Ordered, size-entries}
use regex.RbTree.Shape.{
  Entry, Tree, leaf, node, Spine, top, left_of, right_of, root_of, entries, At,
}

miss_above : (k e y : ℤ) → int_less k e ≡ true → int_less y e ≡ false → int_same y k ≡ false
unfolding int_less int_same
miss_above (pos k) (pos e) (pos y) h g = ground arith
miss_above (pos k) (negsuc e) y h g = cc
miss_above (negsuc k) e (pos y) h g = refl
miss_above (negsuc k) (pos e) (negsuc y) h g = cc
miss_above (negsuc k) (negsuc e) (negsuc y) h g = ground arith
miss_above (pos k) (pos e) (negsuc y) h g = refl

miss_below :
    (k e y : ℤ)
    → int_same e k ≡ false
    → int_less k e ≡ false
    → int_less e y ≡ false
    → int_same y k ≡ false
unfolding int_less int_same
miss_below (pos k) (pos e) (pos y) h g f = ground arith
miss_below (pos k) (negsuc e) (pos y) h g f = cc
miss_below (pos k) e (negsuc y) h g f = refl
miss_below (negsuc k) e (pos y) h g f = refl
miss_below (negsuc k) (pos e) (negsuc y) h g f = cc
miss_below (negsuc k) (negsuc e) (negsuc y) h g f = ground arith

same-eq : (x y : ℤ) → int_same x y ≡ true → x ≡ y
unfolding int_same
same-eq (pos x) (pos y) h = ground arith
same-eq (pos x) (negsuc y) h = cc
same-eq (negsuc x) (pos y) h = cc
same-eq (negsuc x) (negsuc y) h = ground arith

-- The address of a node with this key, or null where there is none.
abbrev pub Found : List Entry → ℤ → Ptr → Type 0
Found es key p =
    ((p ≡ null) × Every (λ y. int_same y.key key ≡ false) es)
    ⊎ ((e : Entry) × (xs : List Entry) × (ys : List Entry) × (es ≡ xs ++ e ∷ ys)
        × (e.at ≡ p)
        × (e.key ≡ key))

Every-append :
    (P : Entry → Type 0) (xs ys : List Entry) → Every P xs → Every P ys → Every P (xs ++ ys)
Every-append P [] ys h g = g
Every-append P (x ∷ xs) ys h g = (h.0, Every-append P xs ys h.1 g)

-- What is true of all nodes where it follows from the place in the order.
Every-imp :
    (P Q : Entry → Type 0) → ((y : Entry) → P y → Q y) → (xs : List Entry) → Every P xs → Every Q xs
Every-imp P Q f [] h = tt
Every-imp P Q f (x ∷ xs) h = (f x h.0, Every-imp P Q f xs h.1)

Sorted-behind :
    (p : Entry) (xs ys : List Entry)
    → Sorted int_less (xs ++ p ∷ ys)
    → Every (λ y. int_less y.key p.key ≡ false) ys
Sorted-behind p [] ys h = h.0
Sorted-behind p (x ∷ xs) ys h = Sorted-behind p xs ys h.1

Sorted-before :
    (p : Entry) (xs ys : List Entry)
    → Sorted int_less (xs ++ p ∷ ys)
    → Every (λ y. int_less p.key y.key ≡ false) xs
Sorted-before p [] ys h = tt
Sorted-before p (x ∷ xs) ys h =
    (Every_middle (λ y. int_less y.key x.key ≡ false) xs ys p h.0, Sorted-before p xs ys h.1)

module _ (key : ℤ) (e : Entry) (xs ys : List Entry) (sorted : Sorted int_less (xs ++ e ∷ ys))
    (other : int_same e.key key ≡ false) (p : Ptr) where
  Found-left : int_less key e.key ≡ true → Found xs key p → Found (xs ++ e ∷ ys) key p
  Found-left less (inl (none, h)) = inl (
    none,
    Every-append (λ y. int_same y.key key ≡ false) xs (e ∷ ys) h
        (
          other,
          Every-imp (λ y. int_less y.key e.key ≡ false) (λ y. int_same y.key key ≡ false)
              (λ y. miss_above key e.key y.key less) ys (Sorted-behind e xs ys sorted),
        ),
  )
  Found-left less (inr (d, us, vs, split, at, same)) =
      inr (d, us, vs ++ e ∷ ys, rw split (append_assoc us (d ∷ vs) (e ∷ ys)), at, same)

  Found-right : int_less key e.key ≡ false → Found ys key p → Found (xs ++ e ∷ ys) key p
  Found-right more (inl (none, h)) = inl (
    none,
    Every-append (λ y. int_same y.key key ≡ false) xs (e ∷ ys)
        (Every-imp (λ y. int_less e.key y.key ≡ false) (λ y. int_same y.key key ≡ false)
          (λ y. miss_below key e.key y.key other more) xs (Sorted-before e xs ys sorted))
        (other, h),
  )
  Found-right more (inr (d, us, vs, split, at, same)) =
      inr (d, xs ++ e ∷ us, vs, rw split (sym (append_assoc xs (e ∷ us) (d ∷ vs))), at, same)

module _ (rank : Ptr → ℕ) (n : ℕ) (m : TreeMemory) (key : ℤ) where
  search_tree :
      (k : ℕ) (t : Tree) (pth : Spine)
      → size t < k
      → At rank n m t pth
      → Sorted int_less (entries t)
      → (p : Ptr) × (rbtree_search k (root_of t) key m ≡ some (p, m)) × Found (entries t) key p
  unfolding rbtree_search
  search_tree zero t pth rounds h sorted = absurd (omega arith)
  search_tree (suc k) leaf pth rounds h sorted = (null, refl, inl (refl, tt))
  search_tree (suc k) (node c l e r) pth rounds h sorted =
      let xs = entries l in
      let ys = entries r in
      let got = read_node-At rank n m c l r e pth h in
      elim (Bool-cases (int_same e.key key)) [
        | inl same ↦ (
          e.at,
          ground (arith, h.0.0, got, same),
          inr (e, xs, ys, refl, refl, same-eq e.key key same),
        )
        | inr other ↦ elim (Bool-cases (int_less key e.key)) [
          | inl less ↦
              let (p, done, found) =
                search_tree k l (left_of c e r pth) (omega arith) (At-left rank n m c l r e pth h)
                  (Sorted-left int_less xs (e ∷ ys) sorted) in
              (
                p,
                ground (arith, h.0.0, got, other, less, done),
                Found-left key e xs ys sorted other p less found,
              )
          | inr more ↦
              let (p, done, found) =
                search_tree k r (right_of l c e pth) (omega arith) (At-right rank n m c l r e pth h)
                  (Sorted-right int_less e xs ys sorted) in
              (
                p,
                ground (arith, h.0.0, got, other, more, done),
                Found-right key e xs ys sorted other p more found,
              )
        ]
      ]

-- In a red-black tree whose nodes are in ascending order and fewer than the rounds, a search from
-- the root returns the address of a node with the key, or null if no node has it, and leaves the
-- memory as it was.
pub rbtree_search-Found :
    (k : ℕ) (m : TreeMemory) (key : ℤ) (es : List Entry) (count : ℕ)
    → Ordered int_less m es count
    → length es < k
    → (p : Ptr) × (rbtree_search k m.ctrl.root key m ≡ some (p, m)) × Found es key p
rbtree_search-Found k m key es count o rounds =
    let (rank, n, h) = o.held in
    let (p, done, found) =
      search_tree rank n m key k o.tree top (omega (arith, size-entries o.tree, ap length o.listed))
        h (subst (Sorted int_less) (sym o.listed) o.sorted) in
    (p, ap (λ x. rbtree_search k x key m) h.1 ∙ done, subst (λ xs. Found xs key p) o.listed found)
