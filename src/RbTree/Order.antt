-- ===== src/RbTree/Order.antt =====
-- Insertion into an ordered list of nodes, which the insertion of src/rbtree.c carries out on a tree:
-- by ascending keys, or by descending keys for `rbtree_insert_reverse`.
use regex.Base.{
  ◌≡◌, ◌∙◌, refl, ap, sym, Bool, true, false, List, [], ◌∷◌, ◌++◌, if◌then◌else◌, Bool-cases, Every,
  inl, inr, arith,
}
use regex.Base.Int.{ℤ, int_less, pos, negsuc}
use regex.RbTree.Walk.{descend, descend_rule}
use regex.RbTree.Shape.{Entry, Tree, Spine, top, entries, around}

-- A strict order of keys.
pub record IsStrictOrder (before : ℤ → ℤ → Bool) : Type 0 where
  pub up : (x y k : ℤ) → before x k ≡ false → before y x ≡ false → before y k ≡ false
  pub once : (x y : ℤ) → before x y ≡ true → before y x ≡ false

less_up : (x y k : ℤ) → int_less x k ≡ false → int_less y x ≡ false → int_less y k ≡ false
unfolding int_less
less_up (pos a) (pos b) (pos c) h g = ground arith
less_up (pos a) (pos b) (negsuc c) h g = refl
less_up (pos a) (negsuc b) k h g = cc
less_up (negsuc a) (pos b) (pos c) h g = cc
less_up (negsuc a) (pos b) (negsuc c) h g = refl
less_up (negsuc a) (negsuc b) (pos c) h g = cc
less_up (negsuc a) (negsuc b) (negsuc c) h g = ground arith

less_once : (x y : ℤ) → int_less x y ≡ true → int_less y x ≡ false
unfolding int_less
less_once (pos a) (pos b) h = ground arith
less_once (pos a) (negsuc b) h = cc
less_once (negsuc a) (pos b) h = refl
less_once (negsuc a) (negsuc b) h = ground arith

pub less-IsStrictOrder : IsStrictOrder int_less
less-IsStrictOrder = record { up = less_up; once = less_once }

greater_up : (x y k : ℤ) → int_less k x ≡ false → int_less x y ≡ false → int_less k y ≡ false
greater_up x y k h g = less_up x k y g h

-- The other way round, for `rbtree_insert_reverse`.
pub greater-IsStrictOrder : IsStrictOrder (λ x y. int_less y x)
greater-IsStrictOrder = record { up = greater_up; once = λ x y. less_once y x }

pub Every_middle :
    (P : Entry → Type 0) (xs ys : List Entry) (p : Entry) → Every P (xs ++ p ∷ ys) → P p
Every_middle P [] ys p h = h.0
Every_middle P (x ∷ xs) ys p h = Every_middle P xs ys p h.1

Every-left : (P : Entry → Type 0) (xs ys : List Entry) → Every P (xs ++ ys) → Every P xs
Every-left P [] ys h = tt
Every-left P (x ∷ xs) ys h = (h.0, Every-left P xs ys h.1)

module _ (before : ℤ → ℤ → Bool) where
  -- No node has one behind it that comes before it.
  abbrev pub Sorted : List Entry → Type 0
  Sorted [] = Unit
  Sorted (x ∷ xs) = Every (λ y. before y.key x.key ≡ false) xs × Sorted xs

  -- The new node goes in front of the first one that is not before it.
  abbrev pub insert_sorted : Entry → List Entry → List Entry
  insert_sorted e [] = e ∷ []
  insert_sorted e (x ∷ xs) = if before x.key e.key then x ∷ insert_sorted e xs else e ∷ x ∷ xs

  pub insert_sorted-Every :
      (P : Entry → Type 0) (e : Entry) (xs : List Entry)
      → P e
      → Every P xs
      → Every P (insert_sorted e xs)
  insert_sorted-Every P e [] p h = (p, tt)
  insert_sorted-Every P e (x ∷ xs) p (q, h) = elim (Bool-cases (before x.key e.key)) [
    | inl b ↦ rw b (q, insert_sorted-Every P e xs p h)
    | inr b ↦ rw b (p, (q, h))
  ]

  pub Sorted-right : (p : Entry) (xs ys : List Entry) → Sorted (xs ++ p ∷ ys) → Sorted ys
  Sorted-right p [] ys h = h.1
  Sorted-right p (x ∷ xs) ys h = Sorted-right p xs ys h.1

  pub Sorted-left : (xs ys : List Entry) → Sorted (xs ++ ys) → Sorted xs
  Sorted-left [] ys h = tt
  Sorted-left (x ∷ xs) ys h =
      (Every-left (λ y. before y.key x.key ≡ false) xs ys h.0, Sorted-left xs ys h.1)

  module _ (law : IsStrictOrder before) where
    behind_all :
        (e x : Entry) (xs : List Entry)
        → before x.key e.key ≡ false
        → Every (λ y. before y.key x.key ≡ false) xs
        → Every (λ y. before y.key e.key ≡ false) xs
    behind_all e x [] b h = tt
    behind_all e x (y ∷ ys) b (q, h) = (law.up x.key y.key e.key b q, behind_all e x ys b h)

    pub insert_sorted-Sorted :
        (e : Entry) (xs : List Entry) → Sorted xs → Sorted (insert_sorted e xs)
    insert_sorted-Sorted e [] h = (tt, tt)
    insert_sorted-Sorted e (x ∷ xs) (q, h) = elim (Bool-cases (before x.key e.key)) [
      | inl b ↦ rw b (
        insert_sorted-Every (λ y. before y.key x.key ≡ false) e xs (law.once x.key e.key b) q,
        insert_sorted-Sorted e xs h,
      )
      | inr b ↦ rw b ((b, behind_all e x xs b q), (q, h))
    ]

    -- Beside a node in the list, the insertion is one into the part on its side.
    insert_right :
        (e p : Entry) (xs ys : List Entry)
        → before p.key e.key ≡ true
        → Sorted (xs ++ p ∷ ys)
        → insert_sorted e (xs ++ p ∷ ys) ≡ xs ++ p ∷ insert_sorted e ys
    insert_right e p [] ys b h = rw b
    insert_right e p (x ∷ xs) ys b (q, h) = elim (Bool-cases (before x.key e.key)) [
      | inl c ↦ rw c (ap (λ zs. x ∷ zs) (insert_right e p xs ys b h))
      | inr c ↦
          let back = Every_middle (λ y. before y.key x.key ≡ false) xs ys p q in
          let wrong = law.up x.key p.key e.key c back in cc
    ]

    insert_left :
        (e p : Entry) (xs ys : List Entry)
        → before p.key e.key ≡ false
        → insert_sorted e (xs ++ p ∷ ys) ≡ insert_sorted e xs ++ p ∷ ys
    insert_left e p [] ys b = rw b
    insert_left e p (x ∷ xs) ys b = elim (Bool-cases (before x.key e.key)) [
      | inl c ↦ rw c (ap (λ zs. x ∷ zs) (insert_left e p xs ys b))
      | inr c ↦ rw c
    ]

    -- The walk finds the place of the insertion into the ordered list.
    pub around-descend :
        (e : Entry) (t : Tree)
        → Sorted (entries t)
        → around (descend (λ x. before x e.key) t top) (e ∷ []) ≡ insert_sorted e (entries t)
    around-descend e t h =
        let P : Tree → Spine → Type 0 = λ s pth.
          Sorted (entries s)
          × (around pth (insert_sorted e (entries s)) ≡ insert_sorted e (entries t)) in
        let end =
          descend_rule (λ x. before x e.key) P
            (λ c l r p pth b g. (
              Sorted-right p (entries l) (entries r) g.0,
              ap (around pth) (sym (insert_right e p (entries l) (entries r) b g.0)) ∙ g.1,
            ))
            (λ c l r p pth b g. (
              Sorted-left (entries l) (p ∷ entries r) g.0,
              ap (around pth) (sym (insert_left e p (entries l) (entries r) b)) ∙ g.1,
            ))
            t top (h, refl) in
        end.1
