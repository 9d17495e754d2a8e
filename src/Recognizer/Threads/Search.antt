-- ===== src/Recognizer/Threads/Search.antt =====
-- The loop of `run_nfa` over the positions of a line, and its ends, src/recognizer.c.
use regex.Base.{
  ℕ, zero, suc, ◌+◌, ◌-◌, Bool, true, false, not, ◌&&◌, ◌||◌, Option, none, some, [], ◌∷◌, ◌==◌,
  if◌then◌else◌,
}
use regex.Flags.{invert_match_flag, show_match_line_flag}
use regex.Recognizer.Matches.{next_start, next_keyword}
use regex.Recognizer.Output.{◌>>=◌}
use regex.Recognizer.Threads.{Ctrl, byte_at, shift_active, release_all_threads, swap_next_w_active}
use regex.Recognizer.Threads.Run.{
  KwSearch, Run, has_ctrl_flag, line_or_invert, load_start_states, reset_thread, show_match,
  quit_pointer, run_threads,
}

-- `ctrl->match.start = NULL; ctrl->match.end = NULL;`
abbrev pub no_match_yet : Ctrl → Ctrl
no_match_yet ctrl = record ctrl {
  output = record ctrl.output { match = record ctrl.output.match { start = 0; end = 0 } };
}

-- The position that a pointer stands for.
abbrev pub pointer_or_quit : Ctrl → Option ℕ → ℕ
pointer_or_quit ctrl none = quit_pointer ctrl
pointer_or_quit ctrl (some p) = p

module _ {S : Type 0} (kw : Option (KwSearch S)) (rounds depth : ℕ) where
  -- The number bounds the keyword matches that are skipped.
  unfoldable pub update_input_pointer : ℕ → Run S → Option (Run S)
  update_input_pointer fuel run = elim kw [
    | none ↦ some (record run {
      input_pointer = next_start run.ctrl.output.match run.current_run run.input_pointer;
    })
    | some k ↦
        next_keyword k.kw_next_match fuel run.ctrl.output.match run.current_run run.kw_search_obj
        >>= λ r.
            some (record run { input_pointer = pointer_or_quit run.ctrl r.0; kw_search_obj = r.1 })
  ]

  -- Threads wait behind the current byte: they become the active ones.
  unfoldable pub advance : Run S → Run S
  advance run =
      let (t, c) = shift_active (swap_next_w_active run.ctrl) in
      record run { thread = t; ctrl = record c { cur_pos = c.cur_pos + 1 } }

  -- No thread is left: the match is shown, and the search starts again.
  unfoldable pub start_again : ℕ → Run S → Option (Run S)
  unfolding update_input_pointer
  start_again fuel run =
      (if line_or_invert run.ctrl then some run.ctrl else show_match run.ctrl) >>= λ shown.
      update_input_pointer fuel (record run { ctrl = shown }) >>= λ r.
      (let c = record (no_match_yet r.ctrl) { last_interval_pos = 0; cur_pos = r.input_pointer } in
        reset_thread rounds depth r.input_pointer c >>= λ s.
        some (record r { current_run = false; thread = s.0; ctrl = s.1 }))

  unfoldable pub next_position : ℕ → Run S → Option (Run S)
  unfolding advance start_again
  next_position fuel run = elim (run.ctrl.next_threads) [
    | _ ∷ _ ↦ some (advance run)
    | [] ↦ start_again fuel run
  ]

  -- `while((*input_pointer) != '\0')`; the first number bounds the rounds of the loops inside.
  unfoldable pub search_line : ℕ → ℕ → Run S → Option (Run S)
  unfolding run_threads next_position
  search_line fuel zero run = none
  search_line fuel (suc k) run = elim (byte_at run.ctrl run.input_pointer == 0) [
    | true ↦ some run
    | false ↦ run_threads kw rounds depth fuel run >>= λ r. elim (r.stopped) [
      | true ↦ some r
      | false ↦ next_position fuel r >>= λ r'. search_line fuel k r'
    ]
  ]

  -- `find_keyword_start_pos`
  unfoldable pub find_keyword_start_pos : KwSearch S → S → Ctrl → Option (S × Ctrl)
  find_keyword_start_pos k obj ctrl =
      let found =
        k.kw_search (λ p. byte_at ctrl p) ctrl.output.buffer_start ctrl.output.buffer_end obj in
      let c = record ctrl { cur_pos = ctrl.output.buffer_end + 1 } in
      if k.kw_match_count found == 0 then some (found, c) else elim ((k.kw_next_match found).0) [
        | none ↦ none
        | some mr ↦ load_start_states rounds depth mr.beg (record c { cur_pos = mr.beg }) >>= λ c'.
            some ((k.kw_next_match found).1, c')
      ]

  abbrev pub begin_run : S → Ctrl → Run S
  begin_run obj ctrl = record {
    ctrl = (shift_active ctrl).1;
    kw_search_obj = obj;
    thread = (shift_active ctrl).0;
    input_pointer = ctrl.cur_pos;
    current_run = false;
    match_found = false;
    stopped = false;
  }

  -- The first start position; a keyword search without a thread is over.
  unfoldable pub start_run : S → Ctrl → Option (Run S)
  unfolding find_keyword_start_pos
  start_run obj ctrl = elim kw [
    | none ↦ load_start_states rounds depth ctrl.cur_pos ctrl >>= λ c. some (begin_run obj c)
    | some k ↦ find_keyword_start_pos k obj ctrl >>= λ r. some (begin_run r.0 r.1)
  ]

  -- Whether a keyword search has_ctrl_flag found no thread to begin with.
  abbrev pub hopeless : Run S → Bool
  hopeless run = elim kw [
    | none ↦ false
    | some _ ↦ elim (run.thread) [ none ↦ true | some _ ↦ false ]
  ]

  -- The whole line is shown where a line is asked for.
  unfoldable pub show_line : Bool → Ctrl → Option Ctrl
  show_line match_found c =
      let line = record c {
        output = record c.output {
          match = record c.output.match {
            start = c.output.buffer_start;
            end = c.output.buffer_end - 1;
          };
        };
      } in
      if not match_found && has_ctrl_flag invert_match_flag c
        || match_found && has_ctrl_flag show_match_line_flag c
      then show_match line
      else some c

  -- What follows RELEASE_ALL_THREADS.
  unfoldable pub finish_run : Run S → Option (Bool × S × Ctrl)
  unfolding show_line
  finish_run run =
      let obj : S = elim kw [
        | none ↦ run.kw_search_obj
        | some k ↦ k.kw_clear_matches run.kw_search_obj
      ] in
      show_line run.match_found (release_all_threads run.ctrl run.thread) >>= λ shown.
      some (run.match_found, obj, shown)

  unfoldable pub run_nfa : ℕ → S → Ctrl → Option (Bool × S × Ctrl)
  unfolding start_run search_line finish_run
  run_nfa fuel obj ctrl = start_run obj (record ctrl { last_interval_pos = 0 }) >>= λ run.
      (if hopeless run then some run else search_line fuel fuel run) >>= λ r. finish_run r
