-- ===== src/Slist/Chain.antt =====
-- Chains of items in memory: which addresses a chain from a pointer runs through, and what a write
-- to a `next` field does to it.
use regex.Base.{◌≡◌, ◌≢◌, refl, Bool, false, ◌||◌, Option, some, List, [], ◌∷◌, ◌++◌, arith, ◌==◌}
use regex.Slist.Memory.{Ptr, null, Item, item, Memory, write, load, set_next}

abbrev pub has : Ptr → List Ptr → Bool
has a [] = false
has a (p ∷ ps) = a == p || has a ps

-- An item stands at an address that is not null.
pub record Holds (m : Memory) (p : Ptr) (q d : Ptr) : Type 0 where
  pub address : p ≢ null
  pub stored : m p ≡ some (item q d)

-- From the first pointer up to `stop`, through each address once.
pub data Seg (m : Memory) (stop : Ptr) : Ptr → List Ptr → Type 0 where
  nil : Seg m stop stop []
  cons :
      {p q d : Ptr} {ps : List Ptr}
      → Holds m p q d
      → has p ps ≡ false
      → Seg m stop q ps
      → Seg m stop p (p ∷ ps)

-- The memory behind `p->next = q`, for an item with the data `d`.
abbrev pub relink : Memory → Ptr → Ptr → Ptr → Memory
relink m p q d = write m p (some (item q d))

pub load-Holds : {m : Memory} {p q d : Ptr} → Holds m p q d → load p m ≡ some (item q d, m)
unfolding load
load-Holds h = ground (arith, h.address, h.stored)

pub set_next-Holds :
    {m : Memory} {p q d : Ptr} (r : Ptr)
    → Holds m p q d
    → set_next p r m ≡ some (tt, relink m p r d)
unfolding set_next
set_next-Holds r h = ground (arith, load-Holds h)

pub Holds-relink :
    {m : Memory} {p q d : Ptr} (r : Ptr) → Holds m p q d → Holds (relink m p r d) p r d
unfolding write
Holds-relink {p} r h = record { address = h.address; stored = ground arith }

pub Holds-other :
    {m : Memory} {p q d : Ptr} (a : Ptr) (c : Option Item)
    → (p == a) ≡ false
    → Holds m p q d
    → Holds (write m a c) p q d
unfolding write
Holds-other a c n h = record { address = h.address; stored = rw n h.stored }

pub Seg-write :
    {m : Memory} {stop p : Ptr} {ps : List Ptr} (a : Ptr) (c : Option Item)
    → has a ps ≡ false
    → Seg m stop p ps
    → Seg (write m a c) stop p ps
Seg-write a c out nil = nil
Seg-write a c out (cons h fresh s) =
    cons (Holds-other a c (ground arith) h) fresh (Seg-write a c (ground arith) s)

pub has_snoc_iff :
    (a b : Ptr) (ps : List Ptr)
    → has a (ps ++ b ∷ []) ≡ false
    → (has a ps ≡ false) × ((a == b) ≡ false)
has_snoc_iff a b [] out = (refl, ground arith)
has_snoc_iff a b (p ∷ ps) out = ground (arith, has_snoc_iff a b ps)

-- A chain with a last item does not begin at null.
pub Seg-start :
    {m : Memory} {t d p : Ptr} {ps : List Ptr}
    → Seg m t p ps
    → Holds m t null d
    → (p == null) ≡ false
Seg-start nil h = ground (arith, h.address)
Seg-start (cons k fresh s) h = ground (arith, k.address)

pub has_snoc :
    (a b : Ptr) (ps : List Ptr) → has a ps ≡ false → (a == b) ≡ false → has a (ps ++ b ∷ []) ≡ false
has_snoc a b [] out n = rw n refl
has_snoc a b (p ∷ ps) out n = ground (arith, has_snoc a b ps)

-- The end of a segment is linked to a new stop.
pub Seg-snoc :
    {m : Memory} {q r d p : Ptr} {ps : List Ptr}
    → Seg m q p ps
    → Holds m q r d
    → has q ps ≡ false
    → Seg m r p (ps ++ q ∷ [])
Seg-snoc nil h out = cons h refl nil
Seg-snoc {q} (cons {p} {ps} k fresh s) h out =
    cons k (has_snoc p q ps fresh (ground arith)) (Seg-snoc s h (ground arith))
