-- ===== src/Recognizer/Release.antt =====
-- The release of all threads, src/recognizer.c `release_all_threads`.
use regex.Base.{
  ◌≡◌, ◌∙◌, refl, true, false, ◌&&◌, some, List, [], ◌∷◌, ◌++◌, arith, ◌==◌, if◌then◌else◌,
  Bool-cases, inl, inr,
}
use regex.Slist.Memory.{Ptr, null, Memory, M, pure, ◌>>=◌, ◌>>◌, set_next}
use regex.Slist.Chain.{
  has, Seg, nil, cons, Holds, Seg-write, Seg-snoc, has_snoc_iff, Seg-start, set_next-Holds,
  Holds-relink, Holds-other, relink,
}
use regex.Recognizer.Pool.{
  SimPoolList, sim_pool, Pools, link_pool, link_thread, release_all_threads,
}
use regex.Recognizer.Queue.{IsPool, no_threads, threads}
use regex.Recognizer.Join.{
  Apart, Joined, has_append, append_nil, link_pool-Joined, link_next-Joined,
}

Holds-same : {m m' : Memory} {p q d : Ptr} → Holds m p q d → m' p ≡ m p → Holds m' p q d
Holds-same h e = record { address = h.address; stored = e ∙ h.stored }

Seg-same :
    {m m' : Memory} {stop p : Ptr} {ps : List Ptr}
    → Seg m stop p ps
    → ((a : Ptr) → has a ps ≡ true → m' a ≡ m a)
    → Seg m' stop p ps
Seg-same nil same = nil
Seg-same (cons {p} h out s) same =
    cons (Holds-same h (same p (ground arith))) out (Seg-same s (λ a i. same a (ground arith)))

IsPool-same :
    {m m' : Memory} {pool : SimPoolList} {xs : List Ptr}
    → IsPool m pool xs
    → ((a : Ptr) → has a xs ≡ true → m' a ≡ m a)
    → IsPool m' pool xs
IsPool-same no_threads same = no_threads
IsPool-same (threads {t} {xs} s k fresh) same =
    threads (Seg-same s (λ a i. same a (ground (arith, has_append a xs (t ∷ [])))))
      (Holds-same k (same t (ground (arith, has_append t xs (t ∷ []))))) fresh

abbrev pub empty_but : SimPoolList → Pools
empty_but pool = record {
  thread_pool = pool;
  active_threads = sim_pool null null;
  next_threads = sim_pool null null;
}

abbrev pub pools : SimPoolList → SimPoolList → SimPoolList → Pools
pools a b c = record { thread_pool = a; active_threads = b; next_threads = c }

-- What is left to do when the three pools are one.
abbrev finish : SimPoolList → Ptr → M Pools
finish pool thread = do
  q ← link_thread pool thread
  if thread == null then pure tt else set_next thread null
  pure (empty_but q)

finish-null : (pool : SimPoolList) (m : Memory) → finish pool null m ≡ some (empty_but pool, m)
unfolding link_thread
finish-null pool m = refl

finish-thread :
    {m : Memory} {pool : SimPoolList} {xs : List Ptr} {thread q d : Ptr}
    → IsPool m pool xs
    → (pool.head == null) ≡ false
    → Holds m thread q d
    → has thread xs ≡ false
    → (p : SimPoolList) × (m' : Memory) × (finish pool thread m ≡ some (empty_but p, m'))
      × IsPool m' p (xs ++ thread ∷ [])
unfolding link_thread link_pool
finish-thread no_threads live h out = absurd (ground arith)
finish-thread {m} {thread} {d} (threads {h = first} {t} {d = d'} {xs} s k fresh) live h out =
    let apart : (has thread xs ≡ false) × ((thread == t) ≡ false) = has_snoc_iff thread t xs out in
    let h1 : Holds (relink m t thread d') thread _ d = Holds-other t _ apart.1 h in
    let some_thread : (thread == null) ≡ false = ground (arith, h.address) in
    (
      sim_pool first thread,
      relink (relink m t thread d') thread null d,
      ground (arith, some_thread, set_next-Holds thread k, set_next-Holds null h1),
      threads
          (Seg-write thread _ out (Seg-snoc (Seg-write t _ fresh s) (Holds-relink thread k) fresh))
          (Holds-relink null h1) out,
    )

-- The three pools become one, unless they are all empty.
gather :
    {m : Memory} {A B C : SimPoolList} {xs ys zs : List Ptr} (thread : Ptr)
    → IsPool m A xs
    → IsPool m B ys
    → IsPool m C zs
    → Apart xs ys
    → Apart (xs ++ ys) zs
    → (A.head == null && (B.head == null && C.head == null)) ≡ false
    → (r : SimPoolList × Memory) × (release_all_threads (pools A B C) thread m
        ≡ finish r.0 thread r.1)
      × Joined m (xs ++ ys) zs r
unfolding release_all_threads
gather thread no_threads no_threads no_threads ab c live = absurd (ground arith)
gather {m} {C} thread no_threads no_threads (threads s k fresh) ab c live = (
  (C, m),
  ground (arith, Seg-start s k),
  record { pool = threads s k fresh; live = Seg-start s k; spared = λ a o. refl },
)
gather thread no_threads (threads s k fresh) q ab c live =
    let (r, e, j) = link_next-Joined (threads s k fresh) (Seg-start s k) q c in
    (r, ground (arith, Seg-start s k, e), j)
gather {zs} thread (threads {t} {xs} s k fresh) no_threads q ab c live =
    let nil_end : (xs ++ t ∷ []) ++ [] ≡ xs ++ t ∷ [] = append_nil (xs ++ t ∷ []) in
    let c' : Apart (xs ++ t ∷ []) zs = λ a i. c a (rw nil_end i) in
    let (r, e, j) = link_next-Joined (threads s k fresh) (Seg-start s k) q c' in
    (r, ground (arith, Seg-start s k, e), rw nil_end j)
gather {zs} thread (threads {t} {xs} s k fresh) (threads {t = t'} {xs = ys} s' k' fresh') q ab c
      live =
    let first : List Ptr = xs ++ t ∷ [] in
    let second : List Ptr = ys ++ t' ∷ [] in
    let (r1, e1, j1) = link_pool-Joined s k fresh s' k' fresh' ab in
    let q1 = IsPool-same q (λ a i. j1.spared a (ground (arith, c a, has_append a first second))) in
    let (r, e, j) = link_next-Joined j1.pool j1.live q1 c in
    (
      r,
      ground (arith, Seg-start s k, Seg-start s' k', e1, e),
      record {
        pool = j.pool;
        live = j.live;
        spared = λ a o. j.spared a o ∙ j1.spared a (ground (arith, has_append a first second));
      },
    )

IsPool-null :
    {m : Memory} {P : SimPoolList} {xs : List Ptr}
    → IsPool m P xs
    → (P.head == null) ≡ true
    → xs ≡ []
IsPool-null no_threads e = refl
IsPool-null (threads s k fresh) e = absurd (ground (arith, Seg-start s k))

-- All three pools are empty: the thread alone is released.
release_alone :
    {m : Memory} (A B C : SimPoolList) {thread q d : Ptr}
    → (A.head == null && (B.head == null && C.head == null)) ≡ true
    → Holds m thread q d
    → release_all_threads (pools A B C) thread m
      ≡ some (empty_but (sim_pool thread thread), relink m thread null d)
unfolding release_all_threads
release_alone A B C e h = ground (arith, h.address, set_next-Holds null h)

release_none :
    (A B C : SimPoolList)
    → (A.head == null && (B.head == null && C.head == null)) ≡ true
    → (m : Memory) → release_all_threads (pools A B C) null m ≡ some (empty_but A, m)
unfolding release_all_threads
release_none A B C e m = ground arith

-- Releasing all threads and one more makes one pool of them: the threads that were in the pool, the
-- active ones, the next ones and the one more, in this order, if the three pools share no thread
-- and the one more is in none of them; the other two pools are empty.
pub release_all_threads-IsPool :
    {m : Memory} {A B C : SimPoolList} {xs ys zs : List Ptr} {thread q d : Ptr}
    → IsPool m A xs
    → IsPool m B ys
    → IsPool m C zs
    → Apart xs ys
    → Apart (xs ++ ys) zs
    → Holds m thread q d
    → has thread ((xs ++ ys) ++ zs) ≡ false
    → (p : SimPoolList) × (m' : Memory) × (release_all_threads (pools A B C) thread m
        ≡ some (empty_but p, m'))
      × IsPool m' p (((xs ++ ys) ++ zs) ++ thread ∷ [])
release_all_threads-IsPool {m} {A} {B} {C} {xs} {ys} {zs} {thread} {d} a b c ab abc h out =
    elim (Bool-cases (A.head == null && (B.head == null && C.head == null))) [
      | inl none_live ↦
          let xs_nil : xs ≡ [] = IsPool-null a (ground arith) in
          let ys_nil : ys ≡ [] = IsPool-null b (ground arith) in
          let zs_nil : zs ≡ [] = IsPool-null c (ground arith) in
          (
            sim_pool thread thread,
            relink m thread null d,
            release_alone A B C none_live h,
            rw (xs_nil, ys_nil, zs_nil) (threads nil (Holds-relink null h) refl),
          )
      | inr live ↦
          let (r, e, j) = gather thread a b c ab abc live in
          let spared : r.1 thread ≡ m thread =
            j.spared thread (ground (arith, has_append thread (xs ++ ys) zs)) in
          let (p, m', f, released) = finish-thread j.pool j.live (Holds-same h spared) out in
          (p, m', e ∙ f, released)
    ]

-- Without one more thread, the release makes one pool of the threads of the three pools, in order,
-- if they share none; the other two pools are empty.
pub release_all_threads-null :
    {m : Memory} {A B C : SimPoolList} {xs ys zs : List Ptr}
    → IsPool m A xs
    → IsPool m B ys
    → IsPool m C zs
    → Apart xs ys
    → Apart (xs ++ ys) zs
    → (p : SimPoolList) × (m' : Memory) × (release_all_threads (pools A B C) null m
        ≡ some (empty_but p, m'))
      × IsPool m' p ((xs ++ ys) ++ zs)
release_all_threads-null {m} {A} {B} {C} {xs} {ys} {zs} a b c ab abc =
    elim (Bool-cases (A.head == null && (B.head == null && C.head == null))) [
      | inl none_live ↦
          let xs_nil : xs ≡ [] = IsPool-null a (ground arith) in
          let ys_nil : ys ≡ [] = IsPool-null b (ground arith) in
          let zs_nil : zs ≡ [] = IsPool-null c (ground arith) in
          (
            A,
            m,
            release_none A B C none_live m,
            rw (ys_nil, zs_nil, append_nil xs, append_nil xs) a,
          )
      | inr live ↦
          let (r, e, j) = gather null a b c ab abc live in
          (r.0, r.1, e ∙ finish-null r.0 r.1, j.pool)
    ]
