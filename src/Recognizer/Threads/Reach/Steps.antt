-- ===== src/Recognizer/Threads/Reach/Steps.antt =====
-- `thread_step` of src/recognizer.c keeps the invariant on paths, and reports a match only on a path
-- that accepts.
use regex.Base.{
  ℕ, suc, ◌+◌, ◌≡◌, refl, sym, inl, inr, true, Option, none, some, arith, get_elem?, set,
}
use regex.Nfa.{nfa_accepting, nfa_backreference}
use regex.Recognizer.Threads.{
  Thread, Ctrl, Capture, to_active, to_next, continue, full_match, byte_at,
}
use regex.Recognizer.Threads.Load.{process_adjacents}
use regex.Recognizer.Threads.Next.{load_next}
use regex.Recognizer.Threads.Step.{
  fold_case, input, at_eol, matched, consume, step_any, step_literal, step_range,
  follow_backreference, step_backreference, step_bol_anchor, step_eol_anchor, step_node, step_input,
  thread_step,
}
use regex.Recognizer.Threads.Reach.{
  at, Reaches, pass, take, hold, passes, takes, Accepts, accepting, alive, Inv, Live, Loaded,
  is_full,
}
use regex.Recognizer.Ensures.{Ensures, Ensures-bind, Ensures-self}
use regex.Recognizer.Threads.Reach.Loads.{append_next-Inv, process_adjacents-Loaded}
use regex.Recognizer.Threads.Reach.Intervals.{load_next-Keeps}

-- What a step leaves: the invariant, and a path that accepts where it reports a match.
abbrev pub Stepped : Ctrl → ℕ → ℕ → Thread × Ctrl → Type 0
Stepped g s p r = (is_full r.0.status ≡ true → Accepts g s) × Inv g s p r.1

module _ (g : Ctrl) (s p : ℕ) where
  Loaded-Stepped : (r : Thread × Ctrl) → Loaded g s p r → Stepped g s p r
  Loaded-Stepped r (e, v) = ((λ e'. absurd (cc)), v)

  Ensures-Stepped :
      (o : Option (Thread × Ctrl)) → Ensures (Loaded g s p) o → Ensures (Stepped g s p) o
  Ensures-Stepped none h = tt
  Ensures-Stepped (some r) h = Loaded-Stepped r h

  full_match-Stepped :
      (t : Thread) (c : Ctrl)
      → Inv g s p c
      → Accepts g s
      → Ensures (Stepped g s p) (some (record t { status = full_match }, c))
  full_match-Stepped t c v a = ((λ _. a), v)

  fold_case-same : (c : Ctrl) (b : ℕ) → Inv g s p c → fold_case c b ≡ fold_case g b
  unfolding fold_case
  fold_case-same c b v = rw v.same.ignore_case refl

  input-same : (c : Ctrl) → Inv g s p c → input c ≡ input (at g p)
  unfolding input fold_case byte_at
  input-same c v = rw (v.same.ignore_case, v.same.text, v.same.buffer, v.position) refl

  at_eol-same : (c : Ctrl) → Inv g s p c → at_eol c ≡ at_eol (at g p)
  unfolding at_eol
  at_eol-same c v = rw (input-same c v, v.same.eol_symbol) refl

  module _ (rounds depth : ℕ) (sim : Thread) (c : Ctrl) (v : Inv g s p c)
      (h : Reaches g s sim.ip p) where
    -- The thread's node is left with the byte.
    consume-Loaded :
        (t : Thread)
        → t.ip ≡ sim.ip
        → takes g sim.ip p ≡ true
        → Ensures (Loaded g s p) (consume rounds depth t c)
    unfolding consume
    consume-Loaded t e e' =
        process_adjacents-Loaded g s p (load_next rounds depth) (load_next-Keeps g s p rounds depth)
          t t.ip to_next (c.cur_pos + 1) c v (λ i r e''. take h e' i (rw (sym e) e''))

    pass-Loaded :
        passes g sim.ip p ≡ true
        → Ensures
            (Loaded g s p)
            (process_adjacents (load_next rounds depth) sim sim.ip to_active c.cur_pos c)
    pass-Loaded e =
        process_adjacents-Loaded g s p (load_next rounds depth) (load_next-Keeps g s p rounds depth)
          sim sim.ip to_active c.cur_pos c v (λ i r e'. pass h e i e')

    end-Loaded :
        takes g sim.ip p ≡ true
        → Ensures
            (Loaded g s p)
            (process_adjacents (load_next rounds depth) sim sim.ip to_next c.cur_pos c)
    end-Loaded e =
        process_adjacents-Loaded g s p (load_next rounds depth) (load_next-Keeps g s p rounds depth)
          sim sim.ip to_next c.cur_pos c v (λ i r e'. take h e i e')

    follow_backreference-Loaded :
        (capture : Capture) (t : Thread)
        → t.ip ≡ sim.ip
        → (g.nfa sim.ip).type ≡ nfa_backreference
        → Ensures (Loaded g s p) (follow_backreference rounds depth capture t c)
    unfolding follow_backreference takes
    follow_backreference-Loaded capture t e e' =
        let next : Thread = record t { bref_ptr = t.bref_ptr + 1; status = continue } in
        let waits : Reaches g s t.ip (suc p) = rw e (hold h e') in
        ground (
          arith,
          consume-Loaded (record (matched t c) { bref_ptr = 0 }) e,
          append_next-Inv g s p next c v waits,
        )

    step_backreference-Loaded :
        (g.nfa sim.ip).type ≡ nfa_backreference
        → Ensures (Loaded g s p) (step_backreference rounds depth sim c)
    unfolding step_backreference
    step_backreference-Loaded e =
        let cap = get_elem? sim.backref_match (c.nfa sim.ip).id in
        Ensures-bind (λ k. cap ≡ some k) (Loaded g s p) cap _ (Ensures-self cap)
          (λ k w. follow_backreference-Loaded k _ (ground (arith)) e)

    -- A node that waits for input.
    step_node-Stepped : Ensures (Stepped g s p) (step_node rounds depth sim c)
    unfolding step_node step_any step_literal step_range step_bol_anchor step_eol_anchor takes
        passes
    step_node-Stepped = ground (
      arith,
      v.same,
      v.position,
      at_eol-same c v,
      input-same c v,
      fold_case-same c (g.nfa sim.ip).literal v,
      Ensures-Stepped (consume rounds depth (matched sim c) c),
      consume-Loaded (matched sim c) refl,
      Ensures-Stepped (process_adjacents (load_next rounds depth) sim sim.ip to_active c.cur_pos c),
      pass-Loaded,
      Ensures-Stepped (process_adjacents (load_next rounds depth) sim sim.ip to_next c.cur_pos c),
      end-Loaded,
      Ensures-Stepped (step_backreference rounds depth sim c),
      step_backreference-Loaded,
      (λ (e : (g.nfa sim.ip).type ≡ nfa_accepting). full_match-Stepped sim c v (accepting h e)),
    )

  accepting_node-Stepped :
      (rounds depth : ℕ) (sim : Thread) (c : Ctrl)
      → Inv g s p c
      → (g.nfa sim.ip).type ≡ nfa_accepting
      → Reaches g s sim.ip (suc p)
      → Ensures (Stepped g s p) (step_node rounds depth sim c)
  unfolding step_node
  accepting_node-Stepped rounds depth sim c v e h =
      ground (arith, v.same, full_match-Stepped sim c v (accepting h e))

  -- A live thread, the one at the accepting node included.
  step_living-Stepped :
      (rounds depth : ℕ) (sim : Thread) (c : Ctrl)
      → Inv g s p c
      → Live g s p sim
      → Ensures (Stepped g s p) (step_node rounds depth sim c)
  step_living-Stepped rounds depth sim c v (inl h) = step_node-Stepped rounds depth sim c v h
  step_living-Stepped rounds depth sim c v (inr (e, h)) =
      accepting_node-Stepped rounds depth sim c v e h

  alive-Accepts : (sim : Thread) → Live g s p sim → input (at g p) ≡ 0 → Accepts g s
  alive-Accepts sim (inl h) e = alive h e
  alive-Accepts sim (inr (e', h)) e = accepting h e'

  step_input-Stepped :
      (rounds depth : ℕ) (sim : Thread) (c : Ctrl)
      → Inv g s p c
      → Live g s p sim
      → Ensures (Stepped g s p) (step_input rounds depth sim c)
  unfolding step_input
  step_input-Stepped rounds depth sim c v h = ground (
    arith,
    input-same c v,
    (λ (e : input (at g p) ≡ 0). full_match-Stepped sim c v (alive-Accepts sim h e)),
    step_living-Stepped rounds depth sim c v h,
  )

  -- Where all threads stand on paths of the line from one position, a step of a live thread, if it
  -- returns, leaves the active and the next threads on such paths. It reports a match only if a path
  -- comes to the accepting node, or one is alive at a null.
  pub thread_step-Stepped :
      (rounds depth : ℕ) (sim : Thread) (c : Ctrl)
      → Inv g s p c
      → Live g s p sim
      → Ensures (Stepped g s p) (thread_step rounds depth sim c)
  unfolding thread_step
  thread_step-Stepped rounds depth sim c v h =
      let c' = record c { active_threads_sp = set c.active_threads_sp (c.nfa sim.ip).id 0 } in
      let v' : Inv g s p c' = ground (arith) in
      ground (arith, step_input-Stepped rounds depth sim c' v' h)
