-- ===== src/Recognizer/Threads/Reach/Runs.antt =====
-- The search of a line, src/recognizer.c `run_nfa`, keeps its threads on paths: a match that it reports
-- has a path that accepts.
use regex.Base.{ℕ, ◌≡◌, sym, inl, some, arith, length}
use regex.Recognizer.Output.{◌>>=◌}
use regex.Recognizer.Threads.{Ctrl, to_active, obtain_thread}
use regex.Recognizer.Threads.Load.{keep_clone}
use regex.Recognizer.Threads.Next.{load_next}
use regex.Recognizer.Threads.Run.{fresh_start, start_range, start_thread, load_start_states}
use regex.Recognizer.Threads.Reach.{Reaches, begin, Inv, Loaded, edge}
use regex.Recognizer.Ensures.{Ensures, Ensures-bind}
use regex.Recognizer.Threads.Reach.Loads.{
  append_active-Inv, free_thread-Inv, obtain_thread-Inv, keep_clone-Inv, for_each-Inv,
}
use regex.Recognizer.Threads.Reach.Intervals.{load_next-Keeps}

module _ (g : Ctrl) (s : ℕ) where
  -- A thread at a node behind the start state.
  start_thread-Inv :
      (rounds depth lookahead i tmp : ℕ) (c : Ctrl)
      → edge g g.start_state i ≡ some tmp
      → Inv g s s c
      → Ensures (Inv g s s) (start_thread rounds depth lookahead tmp c)
  unfolding start_thread start_range fresh_start
  start_thread-Inv rounds depth lookahead i tmp c e v =
      let o = obtain_thread c in
      let clone = fresh_start c.loop_record_cap o.0 o.1 tmp in
      let c' = record o.2 {
        output = record o.2.output { match = record o.2.output.match { last_match_end = 0 } };
      } in
      let w : Inv g s s o.2 = obtain_thread-Inv g s s c v in
      let v' : Inv g s s c' = ground (arith) in
      let h : Reaches g s tmp s = begin i e in
      let loaded : Ensures (Inv g s s)
          (load_next rounds depth clone tmp to_active lookahead c' >>= λ r. some (keep_clone r)) =
        Ensures-bind (Loaded g s s) (Inv g s s)
          (load_next rounds depth clone tmp to_active lookahead c') _
          (load_next-Keeps g s s rounds depth clone tmp to_active lookahead c' v' h)
          (λ r w. keep_clone-Inv g s s r w.1) in
      ground (
        arith,
        loaded,
        free_thread-Inv g s s clone c' v',
        append_active-Inv g s s clone c' v' (inl h),
      )

  pub load_start_states-Inv :
      (rounds depth lookahead : ℕ) (c : Ctrl)
      → Inv g s s c
      → Ensures (Inv g s s) (load_start_states rounds depth lookahead c)
  unfolding load_start_states
  load_start_states-Inv rounds depth lookahead c v =
      for_each-Inv g s s rounds _ c.start_state 0 (length (c.nfa c.start_state).reachable) c
        (λ i tmp c' e w.
          start_thread-Inv rounds depth lookahead i tmp c' (rw (sym v.same.start_state) e) w)
        v
