-- ===== src/Recognizer/Threads/Step.antt =====
-- A step of a thread on the byte at the current position, src/recognizer.c `thread_step`.
use regex.Base.{
  ℕ, ◌+◌, ◌-◌, Bool, not, ◌&&◌, Option, none, some, ltb, leb, ◌==◌, if◌then◌else◌, get_elem?,
  length, set,
}
use regex.CharRange.{is_literal_in_range}
use regex.Flags.{has_flag, ignore_case_flag}
use regex.Nfa.{
  nfa_any, nfa_literal, nfa_range, nfa_accepting, nfa_bol_anchor, nfa_eol_anchor, nfa_backreference,
}
use regex.Scanner.Scan.{to_unsigned}
use regex.Recognizer.Matches.{update_match}
use regex.Recognizer.Output.{◌>>=◌}
use regex.Recognizer.Threads.{
  Thread, Ctrl, Capture, to_active, to_next, no_match, continue, full_match, byte_at, append_thread,
}
use regex.Recognizer.Threads.Load.{process_adjacents}
use regex.Recognizer.Threads.Next.{load_next}

-- `toupper` in the C locale.
abbrev toupper : ℕ → ℕ
toupper c = if leb b'a' c && leb c b'z' then c - 32 else c

-- `CASE_FOLD(sim) ? toupper(c) : c`
unfoldable pub fold_case : Ctrl → ℕ → ℕ
fold_case ctrl c = if has_flag ignore_case_flag ctrl.output.ctrl_flags then toupper c else c

-- `INPUT(sim)`, as the unsigned number that the comparisons make of it.
unfoldable pub input : Ctrl → ℕ
unfolding fold_case to_unsigned
input ctrl = fold_case ctrl (to_unsigned (byte_at ctrl ctrl.cur_pos))

-- `EOL(sim)`
unfoldable pub at_eol : Ctrl → Bool
unfolding input to_unsigned
at_eol ctrl = input ctrl == to_unsigned ctrl.scanner.eol_symbol

-- `sim->status = -1`
abbrev pub fail : Thread → Ctrl → Option (Thread × Ctrl)
fail sim ctrl = some (record sim { status = no_match }, ctrl)

-- `update_match(sim)`
abbrev pub matched : Thread → Ctrl → Thread
matched sim ctrl = record sim { match = update_match sim.match ctrl.cur_pos }

module _ (rounds depth : ℕ) where
  -- The node takes the byte, and the thread goes on behind it.
  unfoldable pub consume : Thread → Ctrl → Option (Thread × Ctrl)
  consume sim ctrl =
      process_adjacents (load_next rounds depth) sim sim.ip to_next (ctrl.cur_pos + 1) ctrl

  unfoldable pub step_any : Thread → Ctrl → Option (Thread × Ctrl)
  unfolding consume at_eol
  step_any sim ctrl = if at_eol ctrl then fail sim ctrl else consume (matched sim ctrl) ctrl

  unfoldable pub step_literal : Thread → Ctrl → Option (Thread × Ctrl)
  unfolding consume fold_case input
  step_literal sim ctrl =
      if input ctrl == fold_case ctrl (ctrl.nfa sim.ip).literal
      then consume (matched sim ctrl) ctrl
      else fail sim ctrl

  unfoldable pub step_range : Thread → Ctrl → Option (Thread × Ctrl)
  unfolding consume at_eol input
  step_range sim ctrl =
      if at_eol ctrl
      then fail sim ctrl
      else if is_literal_in_range (ctrl.nfa sim.ip).range (input ctrl)
      then consume (matched sim ctrl) ctrl
      else fail sim ctrl

  -- The byte is compared to the one of the captured text at `bref_ptr`.
  unfoldable pub follow_backreference : Capture → Thread → Ctrl → Option (Thread × Ctrl)
  unfolding consume input
  follow_backreference capture sim ctrl =
      if not (sim.bref_ptr == 0) && input ctrl == to_unsigned (byte_at ctrl sim.bref_ptr)
      then (if sim.bref_ptr == capture.end
          then consume (record (matched sim ctrl) { bref_ptr = 0 }) ctrl
          else (let t = record sim { bref_ptr = sim.bref_ptr + 1; status = continue } in
              some (t, append_thread to_next t ctrl)))
      else fail sim ctrl

  unfoldable pub step_backreference : Thread → Ctrl → Option (Thread × Ctrl)
  unfolding follow_backreference
  step_backreference sim ctrl = get_elem? sim.backref_match (ctrl.nfa sim.ip).id >>= λ capture.
      follow_backreference capture
        (if sim.bref_ptr == 0 then record (matched sim ctrl) { bref_ptr = capture.start } else sim)
        ctrl

  unfoldable pub step_bol_anchor : Thread → Ctrl → Option (Thread × Ctrl)
  step_bol_anchor sim ctrl =
      if ctrl.cur_pos == ctrl.buffer
      then process_adjacents (load_next rounds depth) sim sim.ip to_active ctrl.cur_pos ctrl
      else fail sim ctrl

  unfoldable pub step_eol_anchor : Thread → Ctrl → Option (Thread × Ctrl)
  unfolding at_eol
  step_eol_anchor sim ctrl =
      if at_eol ctrl
      then process_adjacents (load_next rounds depth) sim sim.ip to_next ctrl.cur_pos ctrl
      else fail sim ctrl

  -- `switch(INST_TYPE(sim))`
  unfoldable pub step_node : Thread → Ctrl → Option (Thread × Ctrl)
  unfolding step_any step_literal step_range step_backreference step_bol_anchor step_eol_anchor
  step_node sim ctrl = elim ((ctrl.nfa sim.ip).type) [
    | nfa_any ↦ step_any sim ctrl
    | nfa_literal ↦ step_literal sim ctrl
    | nfa_range ↦ step_range sim ctrl
    | nfa_backreference ↦ step_backreference sim ctrl
    | nfa_bol_anchor ↦ step_bol_anchor sim ctrl
    | nfa_eol_anchor ↦ step_eol_anchor sim ctrl
    | nfa_accepting ↦ some (record sim { status = full_match }, ctrl)
    | _ ↦ fail sim ctrl
  ]

  -- A null in the input ends every thread with a match.
  unfoldable pub step_input : Thread → Ctrl → Option (Thread × Ctrl)
  unfolding step_node input
  step_input sim ctrl =
      if input ctrl == 0
      then some (record sim { status = full_match }, ctrl)
      else step_node sim ctrl

  unfoldable pub thread_step : Thread → Ctrl → Option (Thread × Ctrl)
  unfolding step_input
  thread_step sim ctrl =
      let id = (ctrl.nfa sim.ip).id in
      if ltb id (length ctrl.active_threads_sp)
      then step_input sim (record ctrl { active_threads_sp = set ctrl.active_threads_sp id 0 })
      else none
