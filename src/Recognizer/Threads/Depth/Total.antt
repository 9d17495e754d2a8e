-- ===== src/Recognizer/Threads/Depth/Total.antt =====
-- `load_next` and `thread_step` of src/recognizer.c return where the depth exceeds the ranks.
use regex.Base.{
  ℕ, zero, suc, ◌+◌, ◌≡◌, ◌<◌, refl, true, Option, some, [], ◌∷◌, ◌++◌, ◌==◌, if◌then◌else◌, arith,
  get_elem?, drop, ltb, length, length-set, set, Every,
}
use regex.Recognizer.Output.{◌>>=◌}
use regex.Nfa.{nfa_interval, nfa_backreference}
use regex.Recognizer.Threads.{
  Thread, Ctrl, Capture, Dst, to_active, to_next, continue, append_thread,
}
use regex.Recognizer.Threads.Load.{process_adjacents, clone_all, load_at}
use regex.Recognizer.Threads.Next.{begin_capture, end_capture, load_next}
use regex.Recognizer.Threads.Step.{
  matched, consume, step_any, step_literal, step_range, follow_backreference, step_backreference,
  step_bol_anchor, step_eol_anchor, step_node, step_input, thread_step,
}
use regex.Recognizer.Threads.Reach.Loads.{Every-index, Every-drop}
use regex.Recognizer.Threads.Depth.{Ranked, IsSized, IsFine, is_passed, is_group, is_left}
use regex.Recognizer.Threads.Depth.Clones.{Loads, Below, Done, get_elem-inside, clone_all-Calm}
use regex.Recognizer.Threads.Depth.Next.{
  load_interval-Done, load_accepting-Done, load_default-Done, group_node-Done,
  begin_capture-IsSized, end_capture-IsSized,
}
use regex.Recognizer.Ensures.{Returns, Returns-bind, Returns-weaken}

module _ (g : Ranked) where
  load_node-Done :
      (depth q : ℕ) (sim : Thread) (dst : Dst) (lookahead : ℕ) (c : Ctrl)
      → (is_passed (g.nfa q).type ≡ true → Below g (load_next g.rounds depth) q)
      → IsFine g c
      → IsSized g.cap sim
      → Returns (Done g q c) (load_next g.rounds (suc depth) sim q dst lookahead c)
  unfolding load_next
  load_node-Done depth q sim dst lookahead c below v sized =
      let load = load_next g.rounds depth in
      let group : (o : Option Thread)
          → is_group (g.nfa q).type ≡ true
          → is_passed (g.nfa q).type ≡ true
          → Returns (IsSized g.cap) o
          → Returns (Done g q c) (o >>= λ t. process_adjacents load t q dst lookahead c) =
        λ o e e' h. group_node-Done g load q dst lookahead c o (below e') e v h in
      ground (
        arith,
        v.nodes,
        group (begin_capture (c.nfa q).id lookahead sim),
        group (end_capture (c.nfa q).id lookahead sim),
        begin_capture-IsSized g (c.nfa q).id lookahead sim sized,
        end_capture-IsSized g (c.nfa q).id lookahead sim sized,
        g.group q,
        (λ (e : (g.nfa q).type ≡ nfa_interval) (e' : is_passed (g.nfa q).type ≡ true).
            load_interval-Done g load dst lookahead q e (below e') sim c sized v),
        load_accepting-Done g q sim c sized v,
        load_default-Done g q sim dst lookahead c sized v,
      )

  -- Where the rank falls along the edges that a load goes through, the indices of the nodes are in
  -- range and the lists are shorter than the rounds, a load at a node whose rank is less than the
  -- depth returns a thread and a controller. Their arrays keep their lengths, and the iterators of
  -- the nodes with a higher rank stand where they stood.
  pub load_next-Done :
      (depth q : ℕ) (sim : Thread) (dst : Dst) (lookahead : ℕ) (c : Ctrl)
      → g.rank q < depth
      → IsFine g c
      → IsSized g.cap sim
      → Returns (Done g q c) (load_next g.rounds depth sim q dst lookahead c)
  load_next-Done zero q sim dst lookahead c h v sized = absurd (omega arith)
  load_next-Done (suc depth) q sim dst lookahead c h v sized =
      load_node-Done depth q sim dst lookahead c
        (λ e i r e'.
          let lower : g.rank r < g.rank q = g.falls q e i r e' in
          (lower, (λ t d l c' v' s. load_next-Done depth r t d l c' (omega arith) v' s)))
        v sized

  -- A thread and a controller whose arrays have their lengths.
  abbrev pub Fit : Thread × Ctrl → Type 0
  Fit r = IsSized g.cap r.0 × IsFine g r.1

  module _ (depth : ℕ) (deep : (q : ℕ) → g.rank q < depth) where
    load_all : (q : ℕ) → Loads g (load_next g.rounds depth) q
    load_all q sim dst lookahead c v sized =
        load_next-Done depth q sim dst lookahead c (deep q) v sized

    -- The thread leaves a node that other nodes stand behind.
    leave-Fit :
        (sim : Thread) (q : ℕ) (dst : Dst) (lookahead : ℕ) (c : Ctrl)
        → is_left (g.nfa q).type ≡ true
        → IsFine g c
        → IsSized g.cap sim
        → Returns Fit (process_adjacents (load_next g.rounds depth) sim q dst lookahead c)
    unfolding process_adjacents load_at
    leave-Fit sim q dst lookahead c e v sized =
        let load = load_next g.rounds depth in
        let P : ℕ → Type 0 = λ r. (g.rank r < depth) × Loads g load r in
        let all : Every P (c.nfa q).reachable =
          Every-index P (c.nfa q).reachable (λ i r _. (deep r, load_all r)) in
        Returns-bind _ Fit (clone_all load (drop 1 (c.nfa q).reachable) sim dst lookahead c) _
          (clone_all-Calm g load sim sized dst lookahead depth (drop 1 (c.nfa q).reachable) c
            (Every-drop P 1 (c.nfa q).reachable all) v)
          (λ c' w.
            let (tmp, item) = get_elem-inside (g.nfa q).reachable 0 (g.nonempty q e) in
            let item' : get_elem? (c'.nfa q).reachable 0 ≡ some tmp = rw w.0.nodes item in
            rw item' (
              Returns-weaken (Done g tmp c') Fit _ (load_all tmp sim dst lookahead c' w.0 sized)
                (λ r x. (x.0, x.1.0))))

    module _ (sim : Thread) (c : Ctrl) (v : IsFine g c) (sized : IsSized g.cap sim) where
      consume-Fit :
          (t : Thread)
          → t.ip ≡ sim.ip
          → IsSized g.cap t
          → is_left (g.nfa sim.ip).type ≡ true
          → Returns Fit (consume g.rounds depth t c)
      unfolding consume
      consume-Fit t e h e' = leave-Fit t t.ip to_next (c.cur_pos + 1) c (rw e e') v h

      follow_backreference-Fit :
          (capture : Capture) (t : Thread)
          → t.ip ≡ sim.ip
          → IsSized g.cap t
          → is_left (g.nfa sim.ip).type ≡ true
          → Returns Fit (follow_backreference g.rounds depth capture t c)
      unfolding follow_backreference append_thread
      follow_backreference-Fit capture t e h e' =
          let put : IsFine g (record c {
            next_threads =
                c.next_threads ++ record t { bref_ptr = t.bref_ptr + 1; status = continue } ∷ [];
          }) =
            ground (arith, v) in
          ground (arith, consume-Fit (record (matched t c) { bref_ptr = 0 }) e h e', put)

      step_backreference-Fit :
          (g.nfa sim.ip).type ≡ nfa_backreference
          → Returns Fit (step_backreference g.rounds depth sim c)
      unfolding step_backreference
      step_backreference-Fit e =
          let place =
            get_elem-inside sim.backref_match (c.nfa sim.ip).id
              (rw (v.nodes, sized.0) (g.backreference sim.ip e)) in
          let t =
            if sim.bref_ptr == 0
            then record (matched sim c) { bref_ptr = place.0.start }
            else sim in
          rw place.1 (
            follow_backreference-Fit place.0 t (ground (arith)) (ground (arith, sized)) (rw e refl))

      step_node-Fit : Returns Fit (step_node g.rounds depth sim c)
      unfolding step_node step_any step_literal step_range step_bol_anchor step_eol_anchor
      step_node-Fit = ground (
        arith,
        v.nodes,
        consume-Fit (matched sim c) refl sized,
        step_backreference-Fit,
        leave-Fit sim sim.ip to_active c.cur_pos c,
        leave-Fit sim sim.ip to_next c.cur_pos c,
      )

    -- Where the rank falls along the edges that a load goes through and is less than the depth at
    -- every node, the indices of the nodes are in range, a node that is left has nodes behind it and
    -- the lists are shorter than the rounds, a step of a thread returns a thread and a controller,
    -- whatever the node of the thread, the line and the position are. Their arrays keep their lengths.
    pub thread_step-Fit :
        (sim : Thread) (c : Ctrl)
        → IsFine g c
        → IsSized g.cap sim
        → Returns Fit (thread_step g.rounds depth sim c)
    unfolding thread_step step_input
    thread_step-Fit sim c v sized =
        let id = (c.nfa sim.ip).id in
        let b : ltb id (length c.active_threads_sp) ≡ true =
          rw (v.nodes, v.sp) (ground (arith, g.numbered sim.ip)) in
        let c' = record c { active_threads_sp = set c.active_threads_sp id 0 } in
        let fine : IsFine g c' = ground (arith, v, length-set c.active_threads_sp id 0) in
        rw b (ground (arith, fine, sized, step_node-Fit sim c' fine sized))
