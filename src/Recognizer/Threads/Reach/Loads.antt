-- ===== src/Recognizer/Threads/Reach/Loads.antt =====
-- The loads of src/recognizer.c keep the invariant on paths: the pools, the clones and the loops.
use regex.Base.{
  ℕ, zero, suc, ◌≡◌, refl, sym, inl, inr, Bool-cases, Option, some, Option-cases, List, [], ◌∷◌,
  arith, Every, Every-snoc, get_elem?, drop, leb,
}
use regex.Recognizer.Threads.{
  Thread, Ctrl, Dst, to_active, to_next, byte_at, append_thread, free_thread, obtain_thread,
}
use regex.Recognizer.Threads.Load.{
  Load, fits, copy_thread, keep_clone, thread_clone, set_iterator, get_next, for_each_loop,
  for_each, clone_range, load_at, clone_all, process_adjacents,
}
use regex.Recognizer.Threads.Reach.{Reaches, Inv, Live, Waits, Loaded, place, edge}
use regex.Recognizer.Ensures.{Ensures, Ensures-self, Ensures-bind}

pub Every-index :
    {A : Type 0} (P : A → Type 0) (xs : List A)
    → ((i : ℕ) (x : A) → get_elem? xs i ≡ some x → P x)
    → Every P xs
Every-index P [] h = tt
Every-index P (x ∷ xs) h = (h 0 x refl, Every-index P xs (λ i y e. h (suc i) y e))

pub Every-drop :
    {A : Type 0} (P : A → Type 0) (n : ℕ) (xs : List A) → Every P xs → Every P (drop n xs)
Every-drop P zero xs h = h
Every-drop P (suc n) [] h = tt
Every-drop P (suc n) (x ∷ xs) h = Every-drop P n xs h.1

module _ (g : Ctrl) (s p : ℕ) where
  -- The pools that the recycled threads come from are not restricted.
  pub obtain_thread-Inv : (c : Ctrl) → Inv g s p c → Inv g s p (obtain_thread c).2
  unfolding obtain_thread
  obtain_thread-Inv c v = ground (arith)

  pub free_thread-Inv : (t : Thread) (c : Ctrl) → Inv g s p c → Inv g s p (free_thread t c)
  unfolding free_thread
  free_thread-Inv t c v = ground (arith)

  pub append_active-Inv :
      (t : Thread) (c : Ctrl) → Inv g s p c → Live g s p t → Inv g s p (append_thread to_active t c)
  unfolding append_thread
  append_active-Inv t c v l = ground (arith, Every-snoc (Live g s p) c.active_threads t v.active l)

  pub append_next-Inv :
      (t : Thread) (c : Ctrl) → Inv g s p c → Waits g s p t → Inv g s p (append_thread to_next t c)
  unfolding append_thread
  append_next-Inv t c v l = ground (arith, Every-snoc (Waits g s p) c.next_threads t v.next l)

  pub append_thread-Inv :
      (dst : Dst) (t : Thread) (c : Ctrl)
      → Inv g s p c
      → Reaches g s t.ip (place dst p)
      → Inv g s p (append_thread dst t c)
  append_thread-Inv to_active t c v l = append_active-Inv t c v (inl l)
  append_thread-Inv to_next t c v l = append_next-Inv t c v l

  pub keep_clone-Inv : (r : Thread × Ctrl) → Inv g s p r.1 → Inv g s p (keep_clone r)
  unfolding keep_clone
  keep_clone-Inv (clone, c) v = ground (arith, free_thread-Inv clone c v)

  pub set_iterator-Inv : (nfa i : ℕ) (c : Ctrl) → Inv g s p c → Inv g s p (set_iterator nfa i c)
  unfolding set_iterator
  set_iterator-Inv nfa i c v = ground (arith)

  get_next-Inv : (nfa : ℕ) (c : Ctrl) → Inv g s p c → Inv g s p (get_next nfa c).1
  unfolding get_next
  get_next-Inv nfa c v = ground (arith)

  get_next-edge :
      (nfa tmp : ℕ) (c : Ctrl)
      → Inv g s p c
      → (get_next nfa c).0 ≡ some tmp
      → edge g nfa (c.iter_idx nfa) ≡ some tmp
  unfolding get_next
  get_next-edge nfa tmp c v e = ground (arith, v.same)

  -- A loop over the nodes behind a node keeps the invariant if its body does so at each of them.
  pub for_each_loop-Inv :
      (k : ℕ) (body : ℕ → Ctrl → Option Ctrl) (nfa finish : ℕ) (c : Ctrl)
      → ((i tmp : ℕ) (c' : Ctrl)
          → edge g nfa i ≡ some tmp
          → Inv g s p c'
          → Ensures (Inv g s p) (body tmp c'))
      → Inv g s p c
      → Ensures (Inv g s p) (for_each_loop k body nfa finish c)
  unfolding for_each_loop
  for_each_loop-Inv zero body nfa finish c h v = tt
  for_each_loop-Inv (suc k) body nfa finish c h v =
      let v' = get_next-Inv nfa c v in
      elim (Option-cases (get_next nfa c).0) [
        | inl e ↦ rw (e, Ensures) v'
        | inr (tmp, e) ↦ elim (Bool-cases (leb ((get_next nfa c).1.iter_idx nfa) finish)) [
          | inl b ↦
              rw (e, b, Ensures)
                (Ensures-bind (Inv g s p) (Inv g s p) (body tmp (get_next nfa c).1) _
                  (h (c.iter_idx nfa) tmp (get_next nfa c).1 (get_next-edge nfa tmp c v e) v')
                  (λ c' w. for_each_loop-Inv k body nfa finish c' h w))
          | inr b ↦ rw (e, b, Ensures) v'
        ]
      ]

  pub for_each-Inv :
      (rounds : ℕ) (body : ℕ → Ctrl → Option Ctrl) (nfa start finish : ℕ) (c : Ctrl)
      → ((i tmp : ℕ) (c' : Ctrl)
          → edge g nfa i ≡ some tmp
          → Inv g s p c'
          → Ensures (Inv g s p) (body tmp c'))
      → Inv g s p c
      → Ensures (Inv g s p) (for_each rounds body nfa start finish c)
  unfolding for_each
  for_each-Inv rounds body nfa start finish c h v =
      for_each_loop-Inv rounds body nfa finish (set_iterator nfa start c) h
        (set_iterator-Inv nfa start c v)

  -- A load keeps the invariant at each node of a path.
  abbrev pub Keeps : Load → Type 0
  Keeps load =
      (sim : Thread) (q : ℕ) (dst : Dst) (lookahead : ℕ) (c : Ctrl)
      → Inv g s p c
      → Reaches g s q (place dst p)
      → Ensures (Loaded g s p) (load sim q dst lookahead c)

  -- Where a node is left to all nodes behind it.
  abbrev pub Leaves : Dst → ℕ → Type 0
  Leaves dst nfa = (i r : ℕ) → edge g nfa i ≡ some r → Reaches g s r (place dst p)

  module _ (load : Load) (keeps : Keeps load) where
    pub thread_clone-Inv :
        (nfa : ℕ) (sim : Thread) (dst : Dst) (lookahead : ℕ) (c : Ctrl)
        → Inv g s p c
        → Reaches g s nfa (place dst p)
        → Ensures (Inv g s p) (thread_clone load nfa sim dst lookahead c)
    unfolding thread_clone
    thread_clone-Inv nfa sim dst lookahead c v h =
        elim (Bool-cases (fits (c.nfa nfa) (byte_at c lookahead))) [
          | inl b ↦ rw b (
              let clone =
                copy_thread c.loop_record_cap (obtain_thread c).0 (obtain_thread c).1 nfa sim in
              Ensures-bind (Loaded g s p) (Inv g s p)
                (load clone nfa dst lookahead (obtain_thread c).2) _
                (keeps clone nfa dst lookahead (obtain_thread c).2 (obtain_thread-Inv c v) h)
                (λ r w. keep_clone-Inv r w.1))
          | inr b ↦ rw b v
        ]

    pub clone_range-Inv :
        (rounds nfa start finish : ℕ) (sim : Thread) (dst : Dst) (lookahead : ℕ) (c : Ctrl)
        → Inv g s p c
        → Leaves dst nfa
        → Ensures (Inv g s p) (clone_range rounds load nfa start finish sim dst lookahead c)
    unfolding clone_range
    clone_range-Inv rounds nfa start finish sim dst lookahead c v h =
        for_each-Inv rounds _ nfa start finish c
          (λ i tmp c' e w. thread_clone-Inv tmp sim dst lookahead c' w (h i tmp e)) v

    pub load_at-Loaded :
        (nfa i : ℕ) (sim : Thread) (dst : Dst) (lookahead : ℕ) (c : Ctrl)
        → Inv g s p c
        → Leaves dst nfa
        → Ensures (Loaded g s p) (load_at load nfa i sim dst lookahead c)
    unfolding load_at
    load_at-Loaded nfa i sim dst lookahead c v h =
        Ensures-bind (λ r. get_elem? (c.nfa nfa).reachable i ≡ some r) (Loaded g s p)
          (get_elem? (c.nfa nfa).reachable i) _ (Ensures-self (get_elem? (c.nfa nfa).reachable i))
          (λ r e. keeps sim r dst lookahead c v (h i r (rw (sym v.same.nfa) e)))

    clone_all-Inv :
        (nfas : List ℕ) (sim : Thread) (dst : Dst) (lookahead : ℕ) (c : Ctrl)
        → Inv g s p c
        → Every (λ r. Reaches g s r (place dst p)) nfas
        → Ensures (Inv g s p) (clone_all load nfas sim dst lookahead c)
    unfolding clone_all
    clone_all-Inv [] sim dst lookahead c v h = v
    clone_all-Inv (q ∷ nfas) sim dst lookahead c v h =
        Ensures-bind (Inv g s p) (Inv g s p) (thread_clone load q sim dst lookahead c) _
          (thread_clone-Inv q sim dst lookahead c v h.0)
          (λ c' w. clone_all-Inv nfas sim dst lookahead c' w h.1)

    pub process_adjacents-Loaded :
        (sim : Thread) (nfa : ℕ) (dst : Dst) (lookahead : ℕ) (c : Ctrl)
        → Inv g s p c
        → Leaves dst nfa
        → Ensures (Loaded g s p) (process_adjacents load sim nfa dst lookahead c)
    unfolding process_adjacents
    process_adjacents-Loaded sim nfa dst lookahead c v h =
        let all =
          Every-drop (λ r. Reaches g s r (place dst p)) 1 (c.nfa nfa).reachable
            (Every-index (λ r. Reaches g s r (place dst p)) (c.nfa nfa).reachable
              (λ i r e. h i r (rw (sym v.same.nfa) e))) in
        Ensures-bind (Inv g s p) (Loaded g s p)
          (clone_all load (drop 1 (c.nfa nfa).reachable) sim dst lookahead c) _
          (clone_all-Inv (drop 1 (c.nfa nfa).reachable) sim dst lookahead c v all)
          (λ c' w. load_at-Loaded nfa 0 sim dst lookahead c' w h)
