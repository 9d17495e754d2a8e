-- ===== src/Recognizer/Threads/Reach/Intervals.antt =====
-- `load_next` of src/recognizer.c keeps the invariant on paths, at intervals and at the other nodes.
use regex.Base.{
  ℕ, zero, suc, ◌≡◌, refl, sym, inl, inr, true, ◌&&◌, Bool-cases, Option, some, arith, ltb, ◌==◌,
  length, set, if◌then◌else◌,
}
use regex.Nfa.{nfa_accepting}
use regex.Recognizer.Output.{◌>>=◌}
use regex.Recognizer.Threads.{Thread, Ctrl, Dst, to_active, to_next, continue}
use regex.Recognizer.Threads.Load.{Load, clone_range, process_adjacents}
use regex.Recognizer.Threads.Next.{
  begin_capture, end_capture, leave_interval, repeat_interval, within_interval, end_interval,
  unbounded_interval, choose_interval, load_interval, load_accepting, load_default, load_next,
  set_count, track, untrack,
}
use regex.Recognizer.Threads.Reach.{Reaches, pass, passes, Inv, Loaded, place}
use regex.Recognizer.Ensures.{Ensures, Ensures-bind, Ensures-self}
use regex.Recognizer.Threads.Reach.Loads.{
  append_active-Inv, append_thread-Inv, Keeps, Leaves, clone_range-Inv, load_at-Loaded,
  process_adjacents-Loaded,
}

module _ (g : Ctrl) (s p : ℕ) where
  module _ (rounds : ℕ) (load : Load) (keeps : Keeps g s p load) where
    -- Clones go to a range of the nodes behind a node, and what follows keeps the invariant.
    clone_range-Loaded :
        (nfa start finish : ℕ) (sim : Thread) (dst : Dst) (lookahead : ℕ) (c : Ctrl)
        (f : Ctrl → Option (Thread × Ctrl))
        → Inv g s p c
        → Leaves g s p dst nfa
        → ((c' : Ctrl) → Inv g s p c' → Ensures (Loaded g s p) (f c'))
        → Ensures
            (Loaded g s p)
            (clone_range rounds load nfa start finish sim dst lookahead c >>= f)
    clone_range-Loaded nfa start finish sim dst lookahead c f v h k =
        Ensures-bind (Inv g s p) (Loaded g s p)
          (clone_range rounds load nfa start finish sim dst lookahead c) f
          (clone_range-Inv g s p load keeps rounds nfa start finish sim dst lookahead c v h) k

    leave_interval-Loaded :
        (nfa : ℕ) (sim : Thread) (dst : Dst) (lookahead : ℕ) (c : Ctrl)
        → Inv g s p c
        → Leaves g s p dst nfa
        → Ensures (Loaded g s p) (leave_interval rounds load nfa sim dst lookahead c)
    unfolding leave_interval
    leave_interval-Loaded nfa sim dst lookahead c v h =
        clone_range-Loaded nfa _ _ sim dst lookahead c _ v h
          (λ c' w. load_at-Loaded g s p load keeps nfa _ sim dst lookahead c' w h)

    module _ (nfa : ℕ) (sim : Thread) (dst : Dst) (lookahead : ℕ) (c : Ctrl) (v : Inv g s p c)
        (h : Leaves g s p dst nfa) where
      repeat_interval-Loaded :
          Ensures (Loaded g s p) (repeat_interval rounds load nfa sim dst lookahead c)
      unfolding repeat_interval
      repeat_interval-Loaded =
          clone_range-Loaded nfa _ _ (track sim) dst lookahead c _ v h
            (λ c' w. load_at-Loaded g s p load keeps nfa 0 (track sim) dst lookahead c' w h)

      within_interval-Loaded :
          Ensures (Loaded g s p) (within_interval rounds load nfa sim dst lookahead c)
      unfolding within_interval
      within_interval-Loaded =
          let left = set_count (c.nfa nfa).id 0 (untrack (track sim)) in
          elim (Bool-cases ((c.nfa nfa).cycle && c.last_interval_pos == lookahead)) [
            | inl b ↦ rw b (leave_interval-Loaded nfa left dst lookahead c v h)
            | inr b ↦ rw b (
                let c' =
                  if (c.nfa nfa).cycle then record c { last_interval_pos = lookahead } else c in
                let v' : Inv g s p c' = ground (arith) in
                clone_range-Loaded nfa _ _ (track sim) dst lookahead c' _ v' h
                  (λ c'' w. leave_interval-Loaded nfa left dst lookahead c'' w h))
          ]

      end_interval-Loaded :
          Ensures (Loaded g s p) (end_interval rounds load nfa sim dst lookahead c)
      unfolding end_interval
      end_interval-Loaded =
          let left = set_count (c.nfa nfa).id 0 (untrack sim) in
          elim (Bool-cases (c.nfa nfa).cycle) [
            | inl b ↦ rw b (
                clone_range-Loaded nfa _ _ left dst lookahead c _ v h
                  (λ c' w. load_at-Loaded g s p load keeps nfa 0 left dst lookahead c' w h))
            | inr b ↦ rw b (leave_interval-Loaded nfa left dst lookahead c v h)
          ]

      unbounded_interval-Loaded :
          Ensures (Loaded g s p) (unbounded_interval rounds load nfa sim dst lookahead c)
      unfolding unbounded_interval
      unbounded_interval-Loaded =
          clone_range-Loaded nfa _ _ (track sim) dst lookahead c _ v h
            (λ c' w. leave_interval-Loaded nfa _ dst lookahead c' w h)

      choose_interval-Loaded :
          (count : ℕ)
          → Ensures (Loaded g s p) (choose_interval rounds load nfa count sim dst lookahead c)
      unfolding choose_interval
      choose_interval-Loaded count = ground (
        arith, repeat_interval-Loaded, within_interval-Loaded, end_interval-Loaded,
        unbounded_interval-Loaded,
      )

    load_interval-Loaded :
        (nfa : ℕ) (sim : Thread) (dst : Dst) (lookahead : ℕ) (c : Ctrl)
        → Inv g s p c
        → Leaves g s p dst nfa
        → Ensures (Loaded g s p) (load_interval rounds load nfa sim dst lookahead c)
    unfolding load_interval
    load_interval-Loaded nfa sim dst lookahead c v h =
        elim (Bool-cases (ltb (c.nfa nfa).id (length sim.loop_record))) [
          | inl b ↦ rw b (choose_interval-Loaded nfa _ dst lookahead c v h _)
          | inr b ↦ rw b tt
        ]

  load_accepting-Loaded :
      (q : ℕ) (sim : Thread) (dst : Dst) (c : Ctrl)
      → Inv g s p c
      → Reaches g s q (place dst p)
      → (c.nfa q).type ≡ nfa_accepting
      → Ensures (Loaded g s p) (load_accepting q sim c)
  unfolding load_accepting
  load_accepting-Loaded q sim to_active c v h e =
      (refl, append_active-Inv g s p (record sim { ip = q; status = continue }) c v (inl h))
  load_accepting-Loaded q sim to_next c v h e = (
    refl,
    append_active-Inv g s p (record sim { ip = q; status = continue }) c v
        (inr (rw (sym v.same.nfa) e, h)),
  )

  load_default-Loaded :
      (q : ℕ) (sim : Thread) (dst : Dst) (lookahead : ℕ) (c : Ctrl)
      → Inv g s p c
      → Reaches g s q (place dst p)
      → Ensures (Loaded g s p) (load_default q sim dst lookahead c)
  unfolding load_default
  load_default-Loaded q sim dst lookahead c v h =
      let c' = record c { active_threads_sp = set c.active_threads_sp (c.nfa q).id lookahead } in
      let v' : Inv g s p c' = ground (arith) in
      ground (arith, append_thread-Inv g s p dst (record sim { ip = q; status = continue }) c' v' h)

  -- A node that is left without input.
  passing-Leaves :
      (q : ℕ) (dst : Dst)
      → Reaches g s q (place dst p)
      → passes g q (place dst p) ≡ true
      → Leaves g s p dst q
  passing-Leaves q dst h e i r e' = pass h e i e'

  module _ (rounds depth : ℕ) (keeps : Keeps g s p (load_next rounds depth)) (q : ℕ) (sim : Thread)
      (dst : Dst) (lookahead : ℕ) (c : Ctrl) (v : Inv g s p c)
      (h : Reaches g s q (place dst p)) where
    passing-Loaded :
        (o : Option Thread)
        → passes g q (place dst p) ≡ true
        → Ensures
            (Loaded g s p)
            (o >>= λ t. process_adjacents (load_next rounds depth) t q dst lookahead c)
    passing-Loaded o e =
        Ensures-bind (λ t. o ≡ some t) (Loaded g s p) o _ (Ensures-self o)
          (λ t w.
            process_adjacents-Loaded g s p (load_next rounds depth) keeps t q dst lookahead c v
              (passing-Leaves q dst h e))

    load_next-Loaded : Ensures (Loaded g s p) (load_next rounds (suc depth) sim q dst lookahead c)
    unfolding load_next passes
    load_next-Loaded = ground (
      arith,
      v.same,
      passing-Loaded (begin_capture (c.nfa q).id lookahead sim),
      passing-Loaded (end_capture (c.nfa q).id lookahead sim),
      (λ (e : passes g q (place dst p) ≡ true).
          load_interval-Loaded rounds (load_next rounds depth) keeps q sim dst lookahead c v
            (passing-Leaves q dst h e)),
      load_accepting-Loaded q sim dst c v h,
      load_default-Loaded q sim dst lookahead c v h,
    )

  -- Whatever depth and rounds are given, a load keeps the invariant.
  pub load_next-Keeps : (rounds depth : ℕ) → Keeps g s p (load_next rounds depth)
  unfolding load_next
  load_next-Keeps rounds zero sim q dst lookahead c v h = tt
  load_next-Keeps rounds (suc depth) sim q dst lookahead c v h =
      load_next-Loaded rounds depth (load_next-Keeps rounds depth) q sim dst lookahead c v h
