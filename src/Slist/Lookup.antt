-- ===== src/Slist/Lookup.antt =====
-- Reading a list of src/slist.c: iteration, search and access by index against the list of its data.
use regex.Base.{
  ℕ, zero, suc, ◌-◌, ◌≤◌, ◌<◌, ◌≡◌, refl, false, none, some, List, [], ◌∷◌, arith, ◌==◌,
  if◌then◌else◌, length, map, get_or,
}
use regex.Slist.Memory.{Ptr, null, Slist, Memory}
use regex.Slist.Chain.{Seg, nil, cons, Holds, load-Holds}
use regex.Slist.Walk.{search_items, walk_items}
use regex.Slist.Whole.{list_iterate, iterate_items}

-- The data of the item at an address.
abbrev pub content_at : Memory → Ptr → Ptr
content_at m p = elim (m p) [ none ↦ null | some n ↦ n.content ]

abbrev pub contents : Memory → List Ptr → List Ptr
contents m ps = map (content_at m) ps

-- The list's items stand at the addresses `ps`, and it knows their number and the last one.
pub record IsList (m : Memory) (l : Slist) (ps : List Ptr) : Type 0 where
  pub chain : Seg m null l.head ps
  pub counted : l.size ≡ length ps
  pub ends : 1 ≤ length ps → l.tail ≡ get_or ps (length ps - 1) null

abbrev pub fold : {S : Type 0} → (Ptr → S → S) → List Ptr → S → S
fold action [] s = s
fold action (d ∷ ds) s = fold action ds (action d s)

pub content_at-Holds : {m : Memory} {p q d : Ptr} → Holds m p q d → content_at m p ≡ d
content_at-Holds h = rw (content_at, h.stored) refl

-- The first answer of a search that is not null, or the last one.
abbrev pub first_answer : (Ptr → Ptr) → List Ptr → Ptr
first_answer compare [] = null
first_answer compare (d ∷ []) = compare d
first_answer compare (d ∷ e ∷ ds) =
    let rest = first_answer compare (e ∷ ds) in if compare d == null then rest else compare d

module _ (m : Memory) where
  iterate-fold :
      {S : Type 0} {p : Ptr} {ps : List Ptr} (action : Ptr → S → S) (s : S)
      → Seg m null p ps
      → iterate_items (length ps) action p s m ≡ some (fold action (contents m ps) s, m)
  unfolding iterate_items
  iterate-fold action s nil = refl
  iterate-fold action s (cons {p} {q} {d} h out rest) =
      ground (arith, load-Holds h, content_at-Holds h, iterate-fold action (action d s) rest)

  -- An iteration over a list that stands in memory applies the action to the data of all items, in order, and leaves the memory as it
  -- was.
  pub list_iterate-fold :
      {S : Type 0} (l : Slist) (ps : List Ptr) (action : Ptr → S → S) (s : S)
      → IsList m l ps
      → list_iterate l action s m ≡ some (fold action (contents m ps) s, m)
  unfolding list_iterate
  list_iterate-fold l ps action s v = rw v.counted (iterate-fold action s v.chain)

  pub search-answer :
      {p : Ptr} {ps : List Ptr} (k : ℕ) (compare : Ptr → Ptr)
      → Seg m null p ps
      → (p == null) ≡ false
      → length ps < k
      → search_items k compare p m ≡ some (first_answer compare (contents m ps), m)
  unfolding search_items
  search-answer zero compare s n b = absurd (omega arith)
  search-answer (suc k) compare nil n b = absurd (ground arith)
  search-answer (suc k) compare (cons {p} {q} {d} h out nil) n b =
      ground (arith, load-Holds h, content_at-Holds h)
  search-answer (suc k) compare (cons {p} {q} {d} h out (cons g out' rest)) n b =
      let on : (q == null) ≡ false = ground (arith, g.address) in
      ground (
        arith,
        load-Holds h,
        content_at-Holds h,
        search-answer k compare (cons g out' rest) on (omega arith),
      )

  pub Seg-get :
      {p : Ptr} {ps : List Ptr} (i : ℕ)
      → Seg m null p ps
      → i < length ps
      → (q d : Ptr) × Holds m (get_or ps i null) q d
  Seg-get i nil b = absurd (omega arith)
  Seg-get zero (cons {q} {d} h out s) b = (q, d, h)
  Seg-get (suc i) (cons h out s) b = Seg-get i s (omega arith)

  pub get_or-contents :
      (ps : List Ptr) (i : ℕ)
      → i < length ps
      → get_or (contents m ps) i null ≡ content_at m (get_or ps i null)
  get_or-contents [] i b = absurd (omega arith)
  get_or-contents (p ∷ ps) zero b = refl
  get_or-contents (p ∷ ps) (suc i) b = get_or-contents ps i (omega arith)

  pub walk-get :
      {p : Ptr} {ps : List Ptr} (k i : ℕ)
      → Seg m null p ps
      → i < length ps
      → i < k
      → walk_items k p i m ≡ some (some (get_or ps i null), m)
  unfolding walk_items
  walk-get zero i s b c = absurd (omega arith)
  walk-get (suc k) i nil b c = absurd (omega arith)
  walk-get (suc k) zero (cons h out s) b c = refl
  walk-get (suc k) (suc i) (cons h out nil) b c = absurd (omega arith)
  walk-get (suc k) (suc i) (cons {p} {q} {d} h out (cons g out' rest)) b c =
      let on : (q == null) ≡ false = ground (arith, g.address) in
      ground (arith, load-Holds h, walk-get k i (cons g out' rest) (omega arith) (omega arith))
