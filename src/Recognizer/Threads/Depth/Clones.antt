-- ===== src/Recognizer/Threads/Depth/Clones.antt =====
-- The clones and the loops of a load return a result, src/recognizer.c, if the loads below them do.
use regex.Base.{
  ℕ, zero, suc, ◌+◌, ◌≡◌, ◌≤◌, ◌<◌, ◌∙◌, refl, ap, inl, inr, Bool, false, Bool-cases, some,
  Option-cases, List, [], ◌∷◌, ◌==◌, ==_iff, arith, Every, Every-snoc, get_elem?, drop, leb, length,
  length-replicate,
}
use regex.Recognizer.Threads.{Thread, Ctrl, Dst, byte_at, free_thread, obtain_thread}
use regex.Recognizer.Threads.Load.{
  Load, fits, copy_thread, keep_clone, thread_clone, set_iterator, get_next, for_each_loop,
  for_each, clone_range, load_at, clone_all, process_adjacents,
}
use regex.Recognizer.Threads.Depth.{Ranked, IsSized, IsFine}
use regex.Recognizer.Threads.Reach.Loads.{Every-index, Every-drop}
use regex.Recognizer.Ensures.{Returns, Returns-bind, Returns-weaken}

get_elem-some : {A : Type 0} (xs : List A) (i : ℕ) (x : A) → get_elem? xs i ≡ some x → i < length xs
get_elem-some [] i x e = absurd (cc)
get_elem-some (y ∷ ys) zero x e = omega arith
get_elem-some (y ∷ ys) (suc i) x e = omega (arith, get_elem-some ys i x e)

pub get_elem-inside :
    {A : Type 0} (xs : List A) (i : ℕ) → i < length xs → (x : A) × (get_elem? xs i ≡ some x)
get_elem-inside [] i h = absurd (omega arith)
get_elem-inside (y ∷ ys) zero h = (y, refl)
get_elem-inside (y ∷ ys) (suc i) h = get_elem-inside ys i (omega arith)

module _ (g : Ranked) where
  -- A fine controller, in which the iterators of the nodes from a g.rank on have not moved.
  abbrev pub Calm : ℕ → Ctrl → Ctrl → Type 0
  Calm low c c' = IsFine g c' × ((n : ℕ) → low ≤ g.rank n → c'.iter_idx n ≡ c.iter_idx n)

  pub Calm-then : (low : ℕ) (c c' c'' : Ctrl) → Calm low c c' → Calm low c' c'' → Calm low c c''
  Calm-then low c c' c'' h k = (k.0, (λ n l. k.1 n l ∙ h.1 n l))

  pub Calm-weaken : (low high : ℕ) (c c' : Ctrl) → low ≤ high → Calm low c c' → Calm high c c'
  Calm-weaken low high c c' e h = (h.0, (λ n l. h.1 n (omega arith)))

  obtain_thread-Calm : (low : ℕ) (c : Ctrl) → IsFine g c → Calm low c (obtain_thread c).2
  unfolding obtain_thread
  obtain_thread-Calm low c v = (ground (arith), (λ n l. ground (arith)))

  obtain_thread-IsSized : (c : Ctrl) → IsFine g c → IsSized g.cap (obtain_thread c).1
  unfolding obtain_thread
  obtain_thread-IsSized c v = ground (arith, length-replicate {A = ℕ} c.loop_record_cap 0)

  copy_thread-IsSized :
      (room : ℕ) (new : Bool) (t sim : Thread) (q : ℕ)
      → room ≡ g.cap
      → IsSized g.cap t
      → IsSized g.cap sim
      → IsSized g.cap (copy_thread room new t q sim)
  unfolding copy_thread
  copy_thread-IsSized room new t sim q e h k = ground (arith, length-replicate {A = ℕ} room 0)

  keep_clone-Calm :
      (low : ℕ) (c : Ctrl) (r : Thread × Ctrl)
      → IsSized g.cap r.0
      → Calm low c r.1
      → Calm low c (keep_clone r)
  unfolding keep_clone free_thread
  keep_clone-Calm low c (t, c') h k =
      let more = Every-snoc (IsSized g.cap) c'.thread_pool t k.0.pool h in
      (ground (arith, more, k.0), (λ n l. ground (arith, k.1 n l)))

  other_node : (n q : ℕ) → suc (g.rank q) ≤ g.rank n → (n == q) ≡ false
  other_node n q l = elim (Bool-cases (n == q)) [
    | inr b ↦ b
    | inl b ↦
        (let same : g.rank n ≡ g.rank q = ap g.rank ((==_iff n q).0 b) in absurd (omega arith))
  ]

  -- The step of an iterator.
  get_next-Calm : (q : ℕ) (c : Ctrl) → IsFine g c → Calm (suc (g.rank q)) c (get_next q c).1
  unfolding get_next
  get_next-Calm q c v = (ground (arith, v.nodes), (λ n l. ground (arith, other_node n q l)))

  get_next-some :
      (q tmp : ℕ) (c : Ctrl)
      → IsFine g c
      → (get_next q c).0 ≡ some tmp
      → (get_elem? (g.nfa q).reachable (c.iter_idx q) ≡ some tmp)
        × ((get_next q c).1.iter_idx q ≡ c.iter_idx q + 1)
  unfolding get_next
  get_next-some q tmp c v e = (ground (arith, v.nodes), ground (arith))

  -- What a load at a node leaves: the thread, and the iterators from the g.rank behind the node on.
  abbrev pub Done : ℕ → Ctrl → Thread × Ctrl → Type 0
  Done q c r = IsSized g.cap r.0 × Calm (suc (g.rank q)) c r.1

  abbrev pub Loads : Load → ℕ → Type 0
  Loads load q =
      (sim : Thread) (dst : Dst) (lookahead : ℕ) (c : Ctrl)
      → IsFine g c
      → IsSized g.cap sim
      → Returns (Done q c) (load sim q dst lookahead c)

  -- The nodes behind a node are lower, and loads at them return.
  abbrev pub Below : Load → ℕ → Type 0
  Below load q =
      (i r : ℕ) → get_elem? (g.nfa q).reachable i ≡ some r → (g.rank r < g.rank q) × Loads load r

  module _ (load : Load) (sim : Thread) (sized : IsSized g.cap sim) (dst : Dst)
      (lookahead : ℕ) where
    thread_clone-Calm :
        (low q : ℕ) (c : Ctrl)
        → g.rank q < low
        → Loads load q
        → IsFine g c
        → Returns (Calm low c) (thread_clone load q sim dst lookahead c)
    unfolding thread_clone
    thread_clone-Calm low q c e loads v = elim (Bool-cases (fits (c.nfa q) (byte_at c lookahead))) [
      | inl b ↦ rw b (
          let o = obtain_thread c in
          let clone = copy_thread c.loop_record_cap o.0 o.1 q sim in
          let clone-IsSized : IsSized g.cap clone =
            copy_thread-IsSized c.loop_record_cap o.0 o.1 sim q v.loops (obtain_thread-IsSized c v)
              sized in
          let start = obtain_thread-Calm low c v in
          Returns-bind (λ (r : Thread × Ctrl). IsSized g.cap r.0 × Calm (suc (g.rank q)) o.2 r.1)
            (Calm low c) (load clone q dst lookahead o.2) _
            (loads clone dst lookahead o.2 start.0 clone-IsSized)
            (λ r w. keep_clone-Calm low c r w.0 (
              Calm-then low c o.2 r.1 start
                (Calm-weaken (suc (g.rank q)) low o.2 r.1 (omega arith) w.1))))
      | inr b ↦ rw b (v, (λ n l. refl))
    ]

    -- The g.rounds that are left are enough for the items that are left.
    clone_loop-Calm :
        (k q finish : ℕ) (c : Ctrl)
        → ((i r : ℕ)
            → get_elem? (g.nfa q).reachable i ≡ some r
            → (g.rank r < g.rank q) × Loads load r)
        → 0 < k
        → length (g.nfa q).reachable < k + c.iter_idx q
        → IsFine g c
        → Returns
            (Calm (suc (g.rank q)) c)
            (for_each_loop k (λ tmp c'. thread_clone load tmp sim dst lookahead c') q finish c)
    unfolding for_each_loop
    clone_loop-Calm zero q finish c h more e v = absurd (omega arith)
    clone_loop-Calm (suc k) q finish c h more e v =
        let next = (get_next q c).1 in
        let calm = get_next-Calm q c v in
        elim (Option-cases (get_next q c).0) [
          | inl e' ↦ rw (e', Returns) calm
          | inr (tmp, e') ↦ elim (Bool-cases (leb (next.iter_idx q) finish)) [
            | inr b ↦ rw (e', b, Returns) calm
            | inl b ↦
                rw (e', b, Returns)
                  (let (item, moved) = get_next-some q tmp c v e' in
                    let (lower, loads) = h (c.iter_idx q) tmp item in
                    let inside = get_elem-some (g.nfa q).reachable (c.iter_idx q) tmp item in
                    Returns-bind (Calm (g.rank q) next) (Calm (suc (g.rank q)) c)
                      (thread_clone load tmp sim dst lookahead next) _
                      (thread_clone-Calm (g.rank q) tmp next lower loads calm.0)
                      (λ c' w.
                        (Returns-weaken (Calm (suc (g.rank q)) c') (Calm (suc (g.rank q)) c) _
                          (clone_loop-Calm k q finish c' h (omega (arith, e, inside))
                            (omega (arith, e, moved, w.1 q (omega arith))) w.0)
                          (λ c'' w'. Calm-then (suc (g.rank q)) c next c'' calm (
                            Calm-then (suc (g.rank q)) next c' c''
                              (Calm-weaken (g.rank q) (suc (g.rank q)) next c' (omega arith) w)
                              w')))))
          ]
        ]

    set_iterator-Calm :
        (q i : ℕ) (c : Ctrl) → IsFine g c → Calm (suc (g.rank q)) c (set_iterator q i c)
    unfolding set_iterator
    set_iterator-Calm q i c v = (ground (arith, v.nodes), (λ n l. ground (arith, other_node n q l)))

    pub clone_range-Calm :
        (q start finish : ℕ) (c : Ctrl)
        → Below load q
        → IsFine g c
        → Returns
            (Calm (suc (g.rank q)) c)
            (clone_range g.rounds load q start finish sim dst lookahead c)
    unfolding clone_range for_each
    clone_range-Calm q start finish c h v =
        let c' = set_iterator q start c in
        let calm = set_iterator-Calm q start c v in
        Returns-weaken (Calm (suc (g.rank q)) c') (Calm (suc (g.rank q)) c) _
          (clone_loop-Calm g.rounds q finish c' h (omega (arith, g.size q))
            (omega (arith, g.size q)) calm.0)
          (λ c'' w. Calm-then (suc (g.rank q)) c c' c'' calm w)

    pub load_at-Done :
        (q i : ℕ) (c c' : Ctrl)
        → Below load q
        → i < length (g.nfa q).reachable
        → Calm (suc (g.rank q)) c c'
        → Returns (Done q c) (load_at load q i sim dst lookahead c')
    unfolding load_at
    load_at-Done q i c c' h e v =
        let (tmp, item) = get_elem-inside (g.nfa q).reachable i e in
        let (lower, loads) = h i tmp item in
        let item' : get_elem? (c'.nfa q).reachable i ≡ some tmp = rw v.0.nodes item in
        rw item' (
          Returns-weaken _ (Done q c) _ (loads sim dst lookahead c' v.0 sized) (λ r w. (
            w.0,
            Calm-then (suc (g.rank q)) c c' r.1 v
                (Calm-weaken (suc (g.rank tmp)) (suc (g.rank q)) c' r.1 (omega arith) w.1),
          )))

    pub clone_all-Calm :
        (low : ℕ) (nfas : List ℕ) (c : Ctrl)
        → Every (λ r. (g.rank r < low) × Loads load r) nfas
        → IsFine g c
        → Returns (Calm low c) (clone_all load nfas sim dst lookahead c)
    unfolding clone_all
    clone_all-Calm low [] c h v = (v, (λ n l. refl))
    clone_all-Calm low (q ∷ qs) c h v =
        Returns-bind (Calm low c) (Calm low c) (thread_clone load q sim dst lookahead c) _
          (thread_clone-Calm low q c h.0.0 h.0.1 v)
          (λ c' w.
            Returns-weaken (Calm low c') (Calm low c) _ (clone_all-Calm low qs c' h.1 w.0)
              (λ c'' w'. Calm-then low c c' c'' w w'))

    pub process_adjacents-Done :
        (q : ℕ) (c : Ctrl)
        → Below load q
        → 0 < length (g.nfa q).reachable
        → IsFine g c
        → Returns (Done q c) (process_adjacents load sim q dst lookahead c)
    unfolding process_adjacents
    process_adjacents-Done q c h e v =
        let P : ℕ → Type 0 = λ r. (g.rank r < suc (g.rank q)) × Loads load r in
        let all : Every P (c.nfa q).reachable = rw v.nodes (
          Every-index P (g.nfa q).reachable
            (λ i r e'. (omega (arith, (h i r e').0), (h i r e').1))) in
        Returns-bind (Calm (suc (g.rank q)) c) (Done q c)
          (clone_all load (drop 1 (c.nfa q).reachable) sim dst lookahead c) _
          (clone_all-Calm (suc (g.rank q)) (drop 1 (c.nfa q).reachable) c
            (Every-drop P 1 (c.nfa q).reachable all) v)
          (λ c' w. load_at-Done q 0 c c' h e w)
