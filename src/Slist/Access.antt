-- ===== src/Slist/Access.antt =====
-- Search and access by index in a list of src/slist.c.
use regex.Base.{
  ℕ, zero, suc, ◌+◌, ◌-◌, ◌≤◌, ◌<◌, ◌≡◌, ◌∙◌, refl, sym, ap, true, false, ◌||◌, some, List, [], ◌∷◌,
  arith, leb, ◌==◌, length, get_or, Bool-cases, inl, inr,
}
use regex.Base.Int.{pos}
use regex.Slist.Memory.{Ptr, null, Slist, Memory}
use regex.Slist.Chain.{Seg, nil, cons, Holds, load-Holds}
use regex.Slist.Walk.{list_search, list_get_at}
use regex.Slist.Lookup.{
  IsList, contents, content_at-Holds, first_answer, search-answer, Seg-get, get_or-contents,
  walk-get,
}

module _ (m : Memory) where
  -- A chain is empty if and only if it begins at null.
  Seg-null : {p : Ptr} {ps : List Ptr} → Seg m null p ps → (p == null) ≡ true → ps ≡ []
  Seg-null nil e = refl
  Seg-null (cons h out s) e = absurd (ground (arith, h.address))

  Seg-first :
      {p : Ptr} {ps : List Ptr}
      → Seg m null p ps
      → (p == null) ≡ false
      → (1 ≤ length ps) × (p ≡ get_or ps 0 null)
  Seg-first nil e = absurd (ground arith)
  Seg-first (cons h out s) e = (omega arith, refl)

  -- A search of a list that stands in memory gives the first answer for the data of the items that
  -- is not null, in order, and the last one if all others are null; on an empty list it gives null.
  -- The memory is left as it was.
  pub list_search-first_answer :
      (l : Slist) (ps : List Ptr) (compare : Ptr → Ptr)
      → IsList m l ps
      → list_search l compare m ≡ some (first_answer compare (contents m ps), m)
  unfolding list_search
  list_search-first_answer l ps compare v = elim (Bool-cases (l.head == null)) [
    | inl e ↦ rw (e, Seg-null v.chain e) refl
    | inr n ↦ rw n (search-answer m (l.size + 1) compare v.chain n (omega (arith, v.counted)))
  ]

  get_or_out : (xs : List Ptr) (i : ℕ) → length xs ≤ i → get_or xs i null ≡ null
  get_or_out [] i b = refl
  get_or_out (x ∷ xs) zero b = absurd (omega arith)
  get_or_out (x ∷ xs) (suc i) b = get_or_out xs i (omega arith)

  length-contents : (ps : List Ptr) → length (contents m ps) ≡ length ps
  length-contents [] = refl
  length-contents (p ∷ ps) = ap suc (length-contents ps)

  -- An index in the list, with the item that stands there.
  at_item :
      (l : Slist) (ps : List Ptr) (i q d : ℕ)
      → IsList m l ps
      → i < length ps
      → (l.head == null) ≡ false
      → Holds m (get_or ps i null) q d
      → list_get_at l (pos i) m ≡ some (d, m)
  unfolding list_get_at
  at_item l ps i q d v b n h =
      let first : (1 ≤ length ps) × (l.head ≡ get_or ps 0 null) = Seg-first v.chain n in
      let inside : leb l.size i ≡ false = ground (arith, v.counted) in
      elim (Bool-cases (i == 0)) [
        | inl z ↦
            let z' : i ≡ 0 = ground arith in
            let at : l.head ≡ get_or ps i null = rw z' first.1 in ground (arith, load-Holds h)
        | inr z ↦ elim (Bool-cases (i == l.size - 1)) [
          | inl e ↦
              let e' : i ≡ length ps - 1 = ground (arith, v.counted) in
              let at : l.tail ≡ get_or ps i null = rw e' (v.ends first.0) in
              ground (arith, load-Holds h)
          | inr e ↦
              ground (
                arith,
                walk-get m (l.size + 1) i v.chain b (omega (arith, v.counted)),
                load-Holds h,
              )
        ]
      ]

  beyond :
      (l : Slist) (ps : List Ptr) (i : ℕ)
      → IsList m l ps
      → (l.head == null || leb l.size i) ≡ true
      → length ps ≤ i
  beyond l ps i v e = elim (Bool-cases (l.head == null)) [
    | inl z ↦ rw (Seg-null v.chain z) (omega arith)
    | inr z ↦ ground (arith, v.counted)
  ]

  -- The access at an index of a list that stands in memory, with its number of items and its tail
  -- right, gives the datum of the item there, and null for an index behind the
  -- list; the memory is left as it was.
  pub list_get_at-contents :
      (l : Slist) (ps : List Ptr) (i : ℕ)
      → IsList m l ps
      → list_get_at l (pos i) m ≡ some (get_or (contents m ps) i null, m)
  unfolding list_get_at
  list_get_at-contents l ps i v = elim (Bool-cases (l.head == null || leb l.size i)) [
    | inl e ↦ rw e (
        ap (λ (x : Ptr). some (x, m))
          (sym
            (get_or_out (contents m ps) i (omega (arith, length-contents ps, beyond l ps i v e)))))
    | inr n ↦
        let live : (l.head == null) ≡ false = ground arith in
        let b : i < length ps = ground (arith, v.counted) in
        let (q, d, h) = Seg-get m i v.chain b in
        at_item l ps i q d v b live h
        ∙ ap (λ (x : Ptr). some (x, m)) (sym (get_or-contents m ps i b ∙ content_at-Holds h))
  ]
