-- ===== src/Recognizer/Threads/Next.antt =====
-- `load_next` of src/recognizer.c: what a thread does at a node before it waits for the input.
use regex.Base.{
  ℕ, zero, suc, ◌+◌, ◌-◌, Bool, true, not, ◌&&◌, ◌||◌, Option, none, some, ltb, ◌==◌, if◌then◌else◌,
  length, get_or, set,
}
use regex.Base.Int.{pos, inc, dec}
use regex.Nfa.{Nfa, nfa_accepting, nfa_interval, nfa_capturegrp_end, nfa_capturegrp_begin}
use regex.Recognizer.Output.{◌>>=◌}
use regex.Recognizer.Threads.{
  Thread, Ctrl, Capture, Dst, to_active, no_match, continue, byte_at, append_thread,
}
use regex.Recognizer.Threads.Load.{Load, fits, is_zero, clone_range, load_at, process_adjacents}

-- `backref_match[id] = ...`; an index outside the array is a fault.
unfoldable pub set_capture : ℕ → Capture → Thread → Option Thread
set_capture id capture sim =
    if ltb id (length sim.backref_match)
    then some (record sim { backref_match = set sim.backref_match id capture })
    else none

-- `backref_match[id].start = lookahead` and `end = NULL`.
unfoldable pub begin_capture : ℕ → ℕ → Thread → Option Thread
unfolding set_capture
begin_capture id lookahead sim =
    set_capture id (record { start = lookahead; end = 0 }) (record sim { tracking_backrefs = true })

-- `backref_match[id].end = lookahead - 1`
unfoldable pub end_capture : ℕ → ℕ → Thread → Option Thread
unfolding set_capture
end_capture id lookahead sim =
    set_capture id
      (record {
        start = (get_or sim.backref_match id (record { start = 0; end = 0 })).start;
        end = lookahead - 1;
      })
      sim

-- `loop_record[id].count = count`
abbrev pub set_count : ℕ → ℕ → Thread → Thread
set_count id count sim = record sim { loop_record = set sim.loop_record id count }

abbrev pub track : Thread → Thread
track sim = record sim { tracking_intervals = inc sim.tracking_intervals }

abbrev pub untrack : Thread → Thread
untrack sim = record sim { tracking_intervals = dec sim.tracking_intervals }

module _ (rounds : ℕ) (load : Load) (nfa : ℕ) where
  -- The way out of an interval: behind the split index, then at it.
  unfoldable pub leave_interval : Thread → Dst → ℕ → Ctrl → Option (Thread × Ctrl)
  leave_interval sim dst lookahead ctrl =
      let n = ctrl.nfa nfa in
      clone_range rounds load nfa (n.split_idx + 1) (length n.reachable) sim dst lookahead ctrl
      >>= λ c. load_at load nfa n.split_idx sim dst lookahead c

  -- Fewer rounds than the minimum: back into the interval.
  unfoldable pub repeat_interval : Thread → Dst → ℕ → Ctrl → Option (Thread × Ctrl)
  repeat_interval sim dst lookahead ctrl =
      let n = ctrl.nfa nfa in
      clone_range rounds load nfa 1 n.split_idx (track sim) dst lookahead ctrl >>= λ c.
      load_at load nfa 0 (track sim) dst lookahead c

  -- Fewer rounds than the maximum: into the interval and out of it, but only out of it when a
  -- cycle comes back without input.
  unfoldable pub within_interval : Thread → Dst → ℕ → Ctrl → Option (Thread × Ctrl)
  unfolding leave_interval
  within_interval sim dst lookahead ctrl =
      let n = ctrl.nfa nfa in
      let left = set_count n.id 0 (untrack (track sim)) in
      if n.cycle && ctrl.last_interval_pos == lookahead
      then leave_interval left dst lookahead ctrl
      else (let c = if n.cycle then record ctrl { last_interval_pos = lookahead } else ctrl in
          clone_range rounds load nfa 0 n.split_idx (track sim) dst lookahead c >>= λ c'.
          leave_interval left dst lookahead c')

  -- The maximum is reached.
  unfoldable pub end_interval : Thread → Dst → ℕ → Ctrl → Option (Thread × Ctrl)
  unfolding leave_interval
  end_interval sim dst lookahead ctrl =
      let n = ctrl.nfa nfa in
      let left = set_count n.id 0 (untrack sim) in
      if n.cycle
      then (clone_range rounds load nfa 1 (length n.reachable) left dst lookahead ctrl >>= λ c.
          load_at load nfa 0 left dst lookahead c)
      else leave_interval left dst lookahead ctrl

  -- No maximum.
  unfoldable pub unbounded_interval : Thread → Dst → ℕ → Ctrl → Option (Thread × Ctrl)
  unfolding leave_interval
  unbounded_interval sim dst lookahead ctrl =
      let n = ctrl.nfa nfa in
      clone_range rounds load nfa 0 n.split_idx (track sim) dst lookahead ctrl >>= λ c.
      leave_interval (if n.accepts then track sim else set_count n.id 0 (track sim)) dst lookahead c

  -- The case NFA_INTERVAL, with the count of the rounds after its increment.
  unfoldable pub choose_interval : ℕ → Thread → Dst → ℕ → Ctrl → Option (Thread × Ctrl)
  unfolding repeat_interval within_interval end_interval unbounded_interval
  choose_interval count sim dst lookahead ctrl =
      if ltb count (ctrl.nfa nfa).min_rep
      then repeat_interval sim dst lookahead ctrl
      else elim ((ctrl.nfa nfa).max_rep) [
        | pos (suc m) ↦
            if ltb count (suc m)
            then within_interval sim dst lookahead ctrl
            else end_interval sim dst lookahead ctrl
        | _ ↦ unbounded_interval sim dst lookahead ctrl
      ]

  unfoldable pub load_interval : Thread → Dst → ℕ → Ctrl → Option (Thread × Ctrl)
  unfolding choose_interval
  load_interval sim dst lookahead ctrl =
      let n = ctrl.nfa nfa in
      let count = get_or sim.loop_record n.id 0 + 1 in
      if ltb n.id (length sim.loop_record)
      then choose_interval count
          (set_count n.id count (record sim { interval_count = sim.interval_count + 1 })) dst
          lookahead ctrl
      else none

-- The case NFA_ACCEPTING: the thread is put among the active ones, whatever the pool asked for.
unfoldable pub load_accepting : ℕ → Thread → Ctrl → Option (Thread × Ctrl)
load_accepting nfa sim ctrl =
    let t = record sim { ip = nfa; status = continue } in some (t, append_thread to_active t ctrl)

-- The test of the default case: a node is loaded once at a position, unless the thread counts.
unfoldable pub may_load : Nfa → Thread → ℕ → Ctrl → Bool
may_load n sim lookahead ctrl =
    not (is_zero sim.tracking_intervals) || not (get_or ctrl.active_threads_sp n.id 0 == lookahead)

unfoldable pub load_default : ℕ → Thread → Dst → ℕ → Ctrl → Option (Thread × Ctrl)
unfolding may_load
load_default nfa sim dst lookahead ctrl =
    let n = ctrl.nfa nfa in
    let t = record sim { ip = nfa; status = continue } in
    if not (ltb n.id (length ctrl.active_threads_sp))
    then none
    else if may_load n sim lookahead ctrl && fits n (byte_at ctrl lookahead)
    then some (
      t,
      append_thread dst t
          (record ctrl { active_threads_sp = set ctrl.active_threads_sp n.id lookahead }),
    )
    else some (record sim { status = no_match }, ctrl)

-- The first number bounds the rounds of a loop over a list, the second the depth of the calls.
unfoldable pub load_next : ℕ → ℕ → Load
unfolding begin_capture end_capture load_interval load_accepting load_default
load_next rounds zero sim nfa dst lookahead ctrl = none
load_next rounds (suc depth) sim nfa dst lookahead ctrl = elim ((ctrl.nfa nfa).type) [
  | nfa_capturegrp_begin ↦ begin_capture (ctrl.nfa nfa).id lookahead sim >>= λ t.
      process_adjacents (load_next rounds depth) t nfa dst lookahead ctrl
  | nfa_capturegrp_end ↦ end_capture (ctrl.nfa nfa).id lookahead sim >>= λ t.
      process_adjacents (load_next rounds depth) t nfa dst lookahead ctrl
  | nfa_interval ↦ load_interval rounds (load_next rounds depth) nfa sim dst lookahead ctrl
  | nfa_accepting ↦ load_accepting nfa sim ctrl
  | _ ↦ load_default nfa sim dst lookahead ctrl
]
