-- ===== src/Recognizer/Join.antt =====
-- Joining pools of threads end to end, as `release_all_threads` of src/recognizer.c does.
use regex.Base.{◌≡◌, refl, ap, true, false, ◌||◌, some, List, [], ◌∷◌, ◌++◌, arith, ◌==◌}
use regex.Slist.Memory.{Ptr, null, Memory, write}
use regex.Slist.Chain.{
  has, Seg, nil, cons, Holds, Seg-write, Seg-snoc, has_snoc_iff, Seg-start, set_next-Holds,
  Holds-relink, Holds-other, relink,
}
use regex.Recognizer.Pool.{SimPoolList, sim_pool, link_pool, link_next}
use regex.Recognizer.Queue.{IsPool, no_threads, threads}

-- No address is in both lists.
abbrev pub Apart : List Ptr → List Ptr → Type 0
Apart ps qs = (a : Ptr) → has a ps ≡ true → has a qs ≡ false

pub has_append : (a : Ptr) (ps qs : List Ptr) → has a (ps ++ qs) ≡ (has a ps || has a qs)
has_append a [] qs = refl
has_append a (p ∷ ps) qs = ground (arith, has_append a ps qs)

append_assoc : (r s t : List Ptr) → (r ++ s) ++ t ≡ r ++ (s ++ t)
append_assoc [] s t = refl
append_assoc (c ∷ r) s t = ap (λ l. c ∷ l) (append_assoc r s t)

pub append_nil : (s : List Ptr) → s ++ [] ≡ s
append_nil [] = refl
append_nil (c ∷ s) = ap (λ l. c ∷ l) (append_nil s)

Seg-append :
    {m : Memory} {q r p : Ptr} {ps qs : List Ptr}
    → Seg m q p ps
    → Seg m r q qs
    → Apart ps qs
    → Seg m r p (ps ++ qs)
Seg-append nil t apart = t
Seg-append {qs} (cons {p} {ps} h out s) t apart =
    cons h (rw (has_append p ps qs, out) (apart p (ground arith)))
      (Seg-append s t (λ a i. apart a (ground arith)))

Apart-front : (ps qs : List Ptr) (t : Ptr) → Apart ps (qs ++ t ∷ []) → Apart ps qs
Apart-front ps qs t apart a i = (has_snoc_iff a t qs (apart a i)).0

last_out :
    (ps qs : List Ptr) (t : Ptr)
    → has t qs ≡ false
    → Apart ps (qs ++ t ∷ [])
    → has t (ps ++ qs) ≡ false
last_out ps qs t fresh apart = ground (arith, has_append t ps qs, apart t, has_append t qs (t ∷ []))

relink_other :
    (m : Memory) (t q d : Ptr) (xs : List Ptr) (a : Ptr)
    → has a (xs ++ t ∷ []) ≡ false
    → relink m t q d a ≡ m a
unfolding write
relink_other m t q d xs a out = rw (has_snoc_iff a t xs out).1 refl

-- What a join of two pools gives: one pool with the threads of both, in order, and nothing else is
-- written than the last thread of the first.
pub record Joined (m : Memory) (xs ys : List Ptr) (r : SimPoolList × Memory) : Type 0 where
  pub pool : IsPool r.1 r.0 (xs ++ ys)
  pub live : (r.0.head == null) ≡ false
  pub spared : (a : Ptr) → has a xs ≡ false → r.1 a ≡ m a

pub link_pool-Joined :
    {m : Memory} {h t d h' t' d' : Ptr} {xs ys : List Ptr}
    → Seg m t h xs
    → Holds m t null d
    → has t xs ≡ false
    → Seg m t' h' ys
    → Holds m t' null d'
    → has t' ys ≡ false
    → Apart (xs ++ t ∷ []) (ys ++ t' ∷ [])
    → (r : SimPoolList × Memory) × (link_pool (sim_pool h t) (sim_pool h' t') m ≡ some r)
      × Joined m (xs ++ t ∷ []) (ys ++ t' ∷ []) r
unfolding link_pool
link_pool-Joined {m} {h} {t} {d} {h'} {t'} {d'} {xs} {ys} s k fresh s' k' fresh' apart =
    let m1 : Memory = relink m t h' d in
    let t_out : has t (ys ++ t' ∷ []) ≡ false =
      apart t (ground (arith, has_append t xs (t ∷ []))) in
    let out : (has t ys ≡ false) × ((t == t') ≡ false) = has_snoc_iff t t' ys t_out in
    (
      (sim_pool h t', m1),
      ground (arith, set_next-Holds h' k),
      record {
        pool = rw (← append_assoc (xs ++ t ∷ []) ys (t' ∷ [])) (
            threads
              (Seg-append (Seg-snoc (Seg-write t _ fresh s) (Holds-relink h' k) fresh)
                (Seg-write t _ out.0 s') (Apart-front (xs ++ t ∷ []) ys t' apart))
              (Holds-other t _ (ground arith) k') (last_out (xs ++ t ∷ []) ys t' fresh' apart));
        live = Seg-start s k;
        spared = relink_other m t h' d xs;
      },
    )

-- A pool that may be empty is joined to one that is not.
pub link_next-Joined :
    {m : Memory} {P Q : SimPoolList} {xs ys : List Ptr}
    → IsPool m P xs
    → (P.head == null) ≡ false
    → IsPool m Q ys
    → Apart xs ys
    → (r : SimPoolList × Memory) × (link_next P Q m ≡ some r) × Joined m xs ys r
unfolding link_next
link_next-Joined no_threads live q apart = absurd (ground arith)
link_next-Joined {m} (threads {h} {t} {xs} s k fresh) live no_threads apart = (
  (sim_pool h t, m),
  refl,
  record {
    pool = rw (append_nil (xs ++ t ∷ [])) (threads s k fresh);
    live = live;
    spared = λ a o. refl;
  },
)
link_next-Joined (threads s k fresh) live (threads s' k' fresh') apart =
    let (r, e, j) = link_pool-Joined s k fresh s' k' fresh' apart in
    (r, ground (arith, Seg-start s' k', e), j)
