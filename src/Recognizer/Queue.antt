-- ===== src/Recognizer/Queue.antt =====
-- The pools of threads as queues, src/recognizer.c.
use regex.Base.{◌≡◌, refl, false, Option, some, List, [], ◌∷◌, ◌++◌, arith, ◌==◌}
use regex.Slist.Memory.{Ptr, null, Item, Memory, write}
use regex.Slist.Chain.{
  has, Seg, nil, cons, Holds, Seg-write, Seg-snoc, has_snoc_iff, Seg-start, load-Holds,
  set_next-Holds, Holds-relink, Holds-other, relink,
}
use regex.Recognizer.Pool.{SimPoolList, sim_pool, sim_pool_append, sim_pool_shift}

-- The threads of a pool, in order: a segment up to the last one, whose `next` is null.
pub data IsPool (m : Memory) : SimPoolList → List Ptr → Type 0 where
  no_threads : {t : Ptr} → IsPool m (sim_pool null t) []
  threads :
      {h t d : Ptr} {xs : List Ptr}
      → Seg m t h xs
      → Holds m t null d
      → has t xs ≡ false
      → IsPool m (sim_pool h t) (xs ++ t ∷ [])

-- A pool behind a write to an address that it does not hold.
pub pool_write :
    {m : Memory} {pool : SimPoolList} {xs : List Ptr} (a : Ptr) (c : Option Item)
    → IsPool m pool xs
    → has a xs ≡ false
    → IsPool (write m a c) pool xs
pool_write a c no_threads out = no_threads
pool_write a c (threads {t} {xs} s h fresh) out =
    let apart : (has a xs ≡ false) × ((a == t) ≡ false) = has_snoc_iff a t xs out in
    threads (Seg-write a c apart.0 s) (Holds-other a c (ground arith) h) fresh

-- A thread that stands in memory and is not in the pool goes to its end, and what is in the pool stays in order.
pub sim_pool_append-IsPool :
    {m : Memory} {pool : SimPoolList} {xs : List Ptr} {thread q d : Ptr}
    → IsPool m pool xs
    → Holds m thread q d
    → has thread xs ≡ false
    → (r : SimPoolList × Memory) × (sim_pool_append pool thread m ≡ some r)
      × IsPool r.1 r.0 (xs ++ thread ∷ [])
unfolding sim_pool_append
sim_pool_append-IsPool {m} {thread} {d} no_threads h out = (
  (sim_pool thread thread, relink m thread null d),
  ground (arith, set_next-Holds null h),
  threads nil (Holds-relink null h) refl,
)
sim_pool_append-IsPool {m} {thread} {d} (threads {h = first} {t} {d = d'} {xs} s k fresh) h out =
    let apart : (has thread xs ≡ false) × ((thread == t) ≡ false) = has_snoc_iff thread t xs out in
    let h1 : Holds (relink m t thread d') thread _ d = Holds-other t _ apart.1 h in
    (
      (sim_pool first thread, relink (relink m t thread d') thread null d),
      ground (arith, Seg-start s k, set_next-Holds thread k, set_next-Holds null h1),
      threads
          (Seg-write thread _ out (Seg-snoc (Seg-write t _ fresh s) (Holds-relink thread k) fresh))
          (Holds-relink null h1) out,
    )

abbrev pub first_of : List Ptr → Ptr
first_of [] = null
first_of (x ∷ xs) = x

abbrev pub rest_of : List Ptr → List Ptr
rest_of [] = []
rest_of (x ∷ xs) = xs

-- A shift takes the first thread of the pool, or null if there is none, and leaves the others in
-- order.
pub sim_pool_shift-IsPool :
    {m : Memory} {pool : SimPoolList} {xs : List Ptr}
    → IsPool m pool xs
    → (r : (Ptr × SimPoolList) × Memory) × (sim_pool_shift pool m ≡ some r)
      × (r.0.0 ≡ first_of xs)
      × IsPool r.1 r.0.1 (rest_of xs)
unfolding sim_pool_shift
sim_pool_shift-IsPool {m} (no_threads {t}) = (((null, sim_pool null t), m), refl, refl, no_threads)
sim_pool_shift-IsPool {m} (threads {t} {d} nil k fresh) = (
  ((t, sim_pool null null), relink m t null d),
  ground (arith, Seg-start nil k, load-Holds k, set_next-Holds null k),
  refl,
  no_threads,
)
sim_pool_shift-IsPool {m} (threads {t} {d} (cons {p} {q} {d = d'} {ps} h apart s) k fresh) =
    let other : (p == t) ≡ false = ground arith in
    let start : (p == null) ≡ false = ground (arith, h.address) in
    (
      ((p, sim_pool q t), relink m p null d'),
      ground (arith, load-Holds h, set_next-Holds null h),
      refl,
      threads (Seg-write p _ apart s) (Holds-other p _ (ground arith) k) (ground arith),
    )
