-- ===== src/Recognizer/Threads/Depth/Next.antt =====
-- `load_next` of src/recognizer.c returns where the depth exceeds the rank of its node.
use regex.Base.{
  ℕ, suc, ◌+◌, ◌-◌, ◌≡◌, ◌<◌, ◌∙◌, refl, inl, inr, true, ◌&&◌, Bool-cases, Option, ◌==◌,
  if◌then◌else◌, arith, ltb, length, length-set, set, get_or,
}
use regex.Recognizer.Output.{◌>>=◌}
use regex.Nfa.{NfaType, nfa_interval}
use regex.Recognizer.Threads.{
  Thread, Ctrl, Dst, to_active, to_next, continue, byte_at, append_thread,
}
use regex.Recognizer.Threads.Load.{Load, fits, clone_range, process_adjacents}
use regex.Recognizer.Threads.Next.{
  set_capture, begin_capture, end_capture, leave_interval, repeat_interval, within_interval,
  end_interval, unbounded_interval, choose_interval, load_interval, load_accepting, load_default,
  may_load, set_count, track, untrack,
}
use regex.Recognizer.Threads.Depth.{Ranked, IsSized, IsFine, is_left, is_group}
use regex.Recognizer.Threads.Depth.Clones.{
  Calm, Calm-then, Below, Done, clone_range-Calm, load_at-Done, process_adjacents-Done,
}
use regex.Recognizer.Ensures.{Returns, Returns-bind}

module _ (g : Ranked) where
  -- An interval, whose loads are one step shallower.
  module _ (load : Load) (dst : Dst) (lookahead q : ℕ) (interval : (g.nfa q).type ≡ nfa_interval)
      (below : Below g load q) where
    -- Clones go to a range of the nodes behind the interval, and what follows returns.
    clone_range-Done :
        (start finish : ℕ) (sim : Thread) (c c' : Ctrl) (f : Ctrl → Option (Thread × Ctrl))
        → IsSized g.cap sim
        → Calm g (suc (g.rank q)) c c'
        → ((c'' : Ctrl) → Calm g (suc (g.rank q)) c c'' → Returns (Done g q c) (f c''))
        → Returns (Done g q c) (clone_range g.rounds load q start finish sim dst lookahead c' >>= f)
    clone_range-Done start finish sim c c' f sized calm k =
        Returns-bind (Calm g (suc (g.rank q)) c') (Done g q c)
          (clone_range g.rounds load q start finish sim dst lookahead c') f
          (clone_range-Calm g load sim sized dst lookahead q start finish c' below calm.0)
          (λ c'' w. k c'' (Calm-then g (suc (g.rank q)) c c' c'' calm w))

    module _ (sim : Thread) (c c' : Ctrl) (sized : IsSized g.cap sim)
        (calm : Calm g (suc (g.rank q)) c c') where
      leave_interval-Done :
          Returns (Done g q c) (leave_interval g.rounds load q sim dst lookahead c')
      unfolding leave_interval
      leave_interval-Done = clone_range-Done _ _ sim c c' _ sized calm (λ c'' w.
          load_at-Done g load sim sized dst lookahead q _ c c'' below
            (rw calm.0.nodes (g.split q interval)) w)

    set_count-IsSized :
        (id count : ℕ) (sim : Thread) → IsSized g.cap sim → IsSized g.cap (set_count id count sim)
    set_count-IsSized id count sim h = (h.0, length-set sim.loop_record id count ∙ h.1)

    -- The branches of an interval.
    module _ (sim : Thread) (c : Ctrl) (sized : IsSized g.cap sim) (v : IsFine g c) where
      still : Calm g (suc (g.rank q)) c c
      still = (v, (λ n l. refl))

      inside : 0 < length (g.nfa q).reachable
      inside = omega (arith, g.split q interval)

      repeat_interval-Done :
          Returns (Done g q c) (repeat_interval g.rounds load q sim dst lookahead c)
      unfolding repeat_interval
      repeat_interval-Done =
          clone_range-Done _ _ (track sim) c c _ sized still
            (λ c' w. load_at-Done g load (track sim) sized dst lookahead q 0 c c' below inside w)

      within_interval-Done :
          Returns (Done g q c) (within_interval g.rounds load q sim dst lookahead c)
      unfolding within_interval
      within_interval-Done =
          let left = set_count (c.nfa q).id 0 (untrack (track sim)) in
          let left-IsSized : IsSized g.cap left =
            set_count-IsSized (c.nfa q).id 0 (untrack (track sim)) sized in
          elim (Bool-cases ((c.nfa q).cycle && c.last_interval_pos == lookahead)) [
            | inl b ↦ rw b (leave_interval-Done left c c left-IsSized still)
            | inr b ↦ rw b (
                let c' =
                  if (c.nfa q).cycle then record c { last_interval_pos = lookahead } else c in
                let calm : Calm g (suc (g.rank q)) c c' =
                  (ground (arith), (λ n l. ground (arith))) in
                clone_range-Done _ _ (track sim) c c' _ sized calm
                  (λ c'' w. leave_interval-Done left c c'' left-IsSized w))
          ]

      end_interval-Done : Returns (Done g q c) (end_interval g.rounds load q sim dst lookahead c)
      unfolding end_interval
      end_interval-Done =
          let left = set_count (c.nfa q).id 0 (untrack sim) in
          let left-IsSized : IsSized g.cap left =
            set_count-IsSized (c.nfa q).id 0 (untrack sim) sized in
          elim (Bool-cases (c.nfa q).cycle) [
            | inl b ↦ rw b (
                clone_range-Done _ _ left c c _ left-IsSized still (λ c' w.
                  load_at-Done g load left left-IsSized dst lookahead q 0 c c' below inside w))
            | inr b ↦ rw b (leave_interval-Done left c c left-IsSized still)
          ]

      unbounded_interval-Done :
          Returns (Done g q c) (unbounded_interval g.rounds load q sim dst lookahead c)
      unfolding unbounded_interval
      unbounded_interval-Done =
          let next =
            if (c.nfa q).accepts then track sim else set_count (c.nfa q).id 0 (track sim) in
          let next-IsSized : IsSized g.cap next =
            ground (arith, set_count-IsSized (c.nfa q).id 0 (track sim) sized) in
          clone_range-Done _ _ (track sim) c c _ sized still
            (λ c' w. leave_interval-Done next c c' next-IsSized w)

      choose_interval-Done :
          (count : ℕ)
          → Returns (Done g q c) (choose_interval g.rounds load q count sim dst lookahead c)
      unfolding choose_interval
      choose_interval-Done count = ground (
        arith, repeat_interval-Done, within_interval-Done, end_interval-Done,
        unbounded_interval-Done,
      )

    pub load_interval-Done :
        (sim : Thread) (c : Ctrl)
        → IsSized g.cap sim
        → IsFine g c
        → Returns (Done g q c) (load_interval g.rounds load q sim dst lookahead c)
    unfolding load_interval
    load_interval-Done sim c sized v =
        let count = get_or sim.loop_record (c.nfa q).id 0 + 1 in
        let counted = record sim { interval_count = sim.interval_count + 1 } in
        let b : ltb (c.nfa q).id (length sim.loop_record) ≡ true =
          rw (v.nodes, sized.1) (ground (arith, g.loop q interval)) in
        rw b (
          choose_interval-Done (set_count (c.nfa q).id count counted) c
            (set_count-IsSized (c.nfa q).id count counted sized) v count)

  pub load_accepting-Done :
      (q : ℕ) (sim : Thread) (c : Ctrl)
      → IsSized g.cap sim
      → IsFine g c
      → Returns (Done g q c) (load_accepting q sim c)
  unfolding load_accepting append_thread
  load_accepting-Done q sim c sized v = (sized, (ground (arith), (λ n l. refl)))

  append_thread-Calm :
      (low : ℕ) (dst : Dst) (t : Thread) (c c' : Ctrl)
      → Calm g low c c'
      → Calm g low c (append_thread dst t c')
  unfolding append_thread
  append_thread-Calm low to_active t c c' h = (ground (arith, h.0), h.1)
  append_thread-Calm low to_next t c c' h = (ground (arith, h.0), h.1)

  pub load_default-Done :
      (q : ℕ) (sim : Thread) (dst : Dst) (lookahead : ℕ) (c : Ctrl)
      → IsSized g.cap sim
      → IsFine g c
      → Returns (Done g q c) (load_default q sim dst lookahead c)
  unfolding load_default
  load_default-Done q sim dst lookahead c sized v =
      let b : ltb (c.nfa q).id (length c.active_threads_sp) ≡ true =
        rw (v.nodes, v.sp) (ground (arith, g.numbered q)) in
      let c' = record c { active_threads_sp = set c.active_threads_sp (c.nfa q).id lookahead } in
      let fine : IsFine g c' =
        ground (arith, v, length-set c.active_threads_sp (c.nfa q).id lookahead) in
      let t = record sim { ip = q; status = continue } in
      let put = append_thread-Calm (suc (g.rank q)) dst t c c' (fine, (λ n l. refl)) in
      elim (Bool-cases
        (may_load (c.nfa q) sim lookahead c && fits (c.nfa q) (byte_at c lookahead))) [
          | inl b' ↦ rw (b, b') (sized, put)
          | inr b' ↦ rw (b, b') (sized, (v, (λ n l. refl)))
        ]

  -- A group begins or ends at a node.
  pub group_node-Done :
      (load : Load) (q : ℕ) (dst : Dst) (lookahead : ℕ) (c : Ctrl) (o : Option Thread)
      → Below g load q
      → is_group (g.nfa q).type ≡ true
      → IsFine g c
      → Returns (IsSized g.cap) o
      → Returns (Done g q c) (o >>= λ t. process_adjacents load t q dst lookahead c)
  group_node-Done load q dst lookahead c o below e v h =
      Returns-bind (IsSized g.cap) (Done g q c) o _ h (λ t w.
        process_adjacents-Done g load t w dst lookahead q c below
          (g.nonempty q (group_left (g.nfa q).type e)) v)
    where
      group_left : (t : NfaType) → is_group t ≡ true → is_left t ≡ true
      group_left t e = ground (arith)

  pub begin_capture-IsSized :
      (id lookahead : ℕ) (sim : Thread)
      → IsSized g.cap sim
      → id < 9
      → Returns (IsSized g.cap) (begin_capture id lookahead sim)
  unfolding begin_capture set_capture
  begin_capture-IsSized id lookahead sim sized e =
      ground (arith, length-set sim.backref_match id (record { start = lookahead; end = 0 }))

  pub end_capture-IsSized :
      (id lookahead : ℕ) (sim : Thread)
      → IsSized g.cap sim
      → id < 9
      → Returns (IsSized g.cap) (end_capture id lookahead sim)
  unfolding end_capture set_capture
  end_capture-IsSized id lookahead sim sized e = ground (
    arith,
    length-set sim.backref_match id (record {
      start = (get_or sim.backref_match id (record { start = 0; end = 0 })).start;
      end = lookahead - 1;
    }),
  )
