-- ===== src/Recognizer/Threads/Run.antt =====
-- The search of a line, src/recognizer.c: `load_start_states` and `run_nfa` with what they call.
use regex.Base.{
  ℕ, zero, suc, ◌+◌, ◌-◌, Bool, true, false, not, Option, none, some, [], ◌∷◌, leb, if◌then◌else◌,
  length, replicate, bit_or,
}
use regex.BoyerMoore.{MatchRecord}
use regex.CharRange.{is_literal_in_range}
use regex.Flags.{has_flag, mglobal_flag, silent_match_flag, invert_match_flag, show_match_line_flag}
use regex.Nfa.{Nfa, nfa_range}
use regex.Scanner.{restart_from}
use regex.Scanner.Scan.{to_unsigned}
use regex.Recognizer.Matches.{update_longest_match}
use regex.Recognizer.NewMatch.{new_match}
use regex.Recognizer.Output.{◌>>=◌}
use regex.Recognizer.Threads.{
  Thread, Ctrl, to_active, no_match, continue, full_match, byte_at, append_thread, free_thread,
  shift_active, obtain_thread, release_thread,
}
use regex.Recognizer.Threads.Load.{for_each, keep_clone}
use regex.Recognizer.Threads.Next.{load_next}
use regex.Recognizer.Threads.Step.{thread_step}

-- The fields of a thread that starts; a recycled one forgets its loops.
unfoldable pub fresh_start : ℕ → Bool → Thread → ℕ → Thread
fresh_start loop_record_cap new t nfa =
    record (if new then t else record t { loop_record = replicate loop_record_cap 0 }) {
      ip = nfa;
      status = continue;
      bref_ptr = 0;
      match = record t.match { start = 0; end = 0 };
      interval_count = 0;
      tracking_backrefs = false;
    }

-- A range is tested here, and goes to the active threads past `load_next`.
unfoldable pub start_range : Thread → Nfa → ℕ → Ctrl → Ctrl
start_range clone n lookahead ctrl =
    if is_literal_in_range n.range (to_unsigned (byte_at ctrl lookahead))
    then append_thread to_active clone ctrl
    else free_thread clone ctrl

module _ (rounds depth : ℕ) where
  unfoldable pub start_thread : ℕ → ℕ → Ctrl → Option Ctrl
  unfolding start_range fresh_start
  start_thread lookahead tmp ctrl =
      let (new, t, c) = obtain_thread ctrl in
      let clone = fresh_start ctrl.loop_record_cap new t tmp in
      let c' = record c {
        output = record c.output { match = record c.output.match { last_match_end = 0 } };
      } in
      elim ((ctrl.nfa tmp).type) [
        | nfa_range ↦ some (start_range clone (ctrl.nfa tmp) lookahead c')
        | _ ↦ load_next rounds depth clone tmp to_active lookahead c' >>= λ r. some (keep_clone r)
      ]

  unfoldable pub load_start_states : ℕ → Ctrl → Option Ctrl
  unfolding start_thread
  load_start_states lookahead ctrl =
      for_each rounds (λ tmp c. start_thread lookahead tmp c) ctrl.start_state 0
        (length (ctrl.nfa ctrl.start_state).reachable) ctrl

-- A position as an offset from the buffer.
unfoldable pub offset : Ctrl → ℕ → Option ℕ
offset ctrl p = if leb ctrl.buffer p then some (p - ctrl.buffer) else none

-- `restart_from(ctrl->scanner, start_pos)`; the flags are those that the recognizer reads too.
unfoldable pub restart : ℕ → Ctrl → Ctrl
unfolding offset
restart start_pos ctrl =
    let s = restart_from ctrl.scanner (offset ctrl start_pos) in
    record ctrl { scanner = s; output = record ctrl.output { ctrl_flags = s.ctrl_flags } }

-- An empty pool of threads ends the program.
unfoldable pub reset_thread : ℕ → ℕ → ℕ → Ctrl → Option (Option Thread × Ctrl)
unfolding restart load_start_states
reset_thread rounds depth start_pos ctrl = elim (ctrl.thread_pool) [
  | [] ↦ none
  | _ ∷ _ ↦ load_start_states rounds depth start_pos (restart start_pos ctrl) >>= λ c.
      some (shift_active c)
]

-- `new_match(ctrl)`
unfoldable pub show_match : Ctrl → Option Ctrl
show_match ctrl =
    new_match (λ p. byte_at ctrl p) ctrl.output >>= λ out. some (record ctrl { output = out })

-- The functions of a keyword search, on its object.
pub record KwSearch (S : Type 0) : Type 0 where
  pub kw_search : (ℕ → ℕ) → ℕ → ℕ → S → S
  pub kw_match_count : S → ℕ
  pub kw_next_match : S → Option MatchRecord × S
  pub kw_clear_matches : S → S

-- The local variables of `run_nfa`; `stopped` is the way to RELEASE_ALL_THREADS.
pub record Run (S : Type 0) : Type 0 where
  pub ctrl : Ctrl
  pub kw_search_obj : S
  pub thread : Option Thread
  pub input_pointer : ℕ
  pub current_run : Bool
  pub match_found : Bool
  pub stopped : Bool

-- `INDIVIDUAL_MATCHES`, `MATCH_GLOBALLY`, `BAIL_EARLY`, `INVERT_MATCH`, `SHOW_MATCH_LINE` and
-- `LINE_OR_INVERT`
abbrev pub has_ctrl_flag : ℕ → Ctrl → Bool
has_ctrl_flag flag ctrl = has_flag flag ctrl.output.ctrl_flags

abbrev pub individual_matches : Ctrl → Bool
individual_matches ctrl =
    not (
      has_ctrl_flag (bit_or silent_match_flag (bit_or invert_match_flag show_match_line_flag)) ctrl)

abbrev pub bail_early : Ctrl → Bool
bail_early ctrl = has_ctrl_flag (bit_or invert_match_flag mglobal_flag) ctrl

abbrev pub line_or_invert : Ctrl → Bool
line_or_invert ctrl = has_ctrl_flag (bit_or show_match_line_flag invert_match_flag) ctrl

-- A null behind the buffer, for the empty string that ends the search.
unfoldable pub quit_pointer : Ctrl → ℕ
quit_pointer ctrl = ctrl.buffer + length ctrl.scanner.buffer

module _ {S : Type 0} (kw : Option (KwSearch S)) (rounds depth : ℕ) where
  -- `thread = release_thread(ctrl, thread, ctrl->start_state)`
  unfoldable pub release : Thread → Ctrl → Run S → Run S
  release t c run = record run { thread = (release_thread c t).0; ctrl = (release_thread c t).1 }

  -- `case MATCH`, up to its fall through.
  unfoldable pub on_match : Thread → Ctrl → Run S → Option (Run S)
  unfolding release show_match
  on_match t c run =
      let found = record run { current_run = true; match_found = true } in
      if individual_matches c
      then (let c' = record c {
        output = record c.output { match = update_longest_match c.output.match t.match };
      } in
          if has_ctrl_flag mglobal_flag c'
          then some (release t c' found)
          else (show_match c' >>= λ out.
              some (record found { ctrl = out; thread = some t; stopped = true })))
      else if bail_early c
      then some (release t c found)
      else some (record found { ctrl = c; thread = some t; stopped = true })

  -- The body of the inner loop.
  unfoldable pub step_run : Thread → Run S → Option (Run S)
  unfolding on_match
  step_run thread run = thread_step rounds depth thread run.ctrl >>= λ r.
      let (t, c) = r in
      elim (t.status) [
        | full_match ↦ on_match t c run
        | no_match ↦ some (release t c run)
        | continue ↦ some (record run { thread = (shift_active c).0; ctrl = (shift_active c).1 })
      ]

  -- `while(thread)`
  unfoldable pub run_threads : ℕ → Run S → Option (Run S)
  unfolding step_run
  run_threads zero run = none
  run_threads (suc k) run = elim (run.thread) [
    | none ↦ some run
    | some t ↦ step_run t run >>= λ r. elim (r.stopped) [ true ↦ some r | false ↦ run_threads k r ]
  ]
