-- ===== src/Recognizer/Threads/Reach/Positions.antt =====
-- The way from one position of a line to the next in `run_nfa` of src/recognizer.c.
use mathlib.Core.Path.{subst}
use regex.Base.{
  ℕ, suc, ◌+◌, ◌≡◌, ◌∙◌, refl, sym, ap, inl, true, false, Option, none, some, List, [], ◌∷◌, arith,
  if◌then◌else◌, Every,
}
use regex.Recognizer.Matches.{next_keyword}
use regex.Recognizer.Output.{◌>>=◌}
use regex.Recognizer.Threads.{Thread, Ctrl, shift_active, swap_next_w_active}
use regex.Recognizer.Threads.Run.{
  restart, reset_thread, load_start_states, show_match, KwSearch, Run, line_or_invert,
}
use regex.Recognizer.Threads.Search.{
  no_match_yet, update_input_pointer, advance, start_again, next_position,
}
use regex.Recognizer.Threads.Reach.{Accepts, Inv, Live, Waits}
use regex.Recognizer.Threads.Reach.Runs.{load_start_states-Inv}
use regex.Recognizer.Threads.Reach.Found.{
  Shifted, shift_active-Shifted, Shown, show_match-Shown, restart-Inv, IsStanding, IsSound,
  Shifted-IsStanding, IsDrained,
}
use regex.Recognizer.Ensures.{Ensures, Ensures-bind, Ensures-self}

shift_active-position :
    (c : Ctrl) (q : ℕ)
    → shift_active (record c { cur_pos = q })
      ≡ ((shift_active c).0, record (shift_active c).1 { cur_pos = q })
unfolding shift_active
shift_active-position c q = ground (arith)

shift_active-cur_pos : (c : Ctrl) → (shift_active c).1.cur_pos ≡ c.cur_pos
unfolding shift_active
shift_active-cur_pos c = ground (arith)

-- The pointer, the flags of the run and the keyword search are all that the update may change.
abbrev Pointed : {S : Type 0} → Run S → Run S → Type 0
Pointed run r = (r.ctrl ≡ run.ctrl) × (r.match_found ≡ run.match_found) × (r.stopped ≡ run.stopped)

update_input_pointer-Pointed :
    {S : Type 0} (kw : Option (KwSearch S)) (rounds depth fuel : ℕ) (run : Run S)
    → Ensures (Pointed run) (update_input_pointer kw rounds depth fuel run)
unfolding update_input_pointer
update_input_pointer-Pointed none rounds depth fuel run = (refl, refl, refl)
update_input_pointer-Pointed (some k) rounds depth fuel run =
    let next =
      next_keyword k.kw_next_match fuel run.ctrl.output.match run.current_run run.kw_search_obj in
    Ensures-bind (λ r. next ≡ some r) (Pointed run) next _ (Ensures-self next)
      (λ r e. (refl, refl, refl))

-- No thread is in a pool.
abbrev pub IsIdle : Ctrl → Type 0
IsIdle c = (c.active_threads ≡ []) × (c.next_threads ≡ [])

module _ (g : Ctrl) where
  -- A waiting thread is live at the next position.
  Waits-Live : (s p : ℕ) (ts : List Thread) → Every (Waits g s p) ts → Every (Live g s (suc p)) ts
  Waits-Live s p [] h = tt
  Waits-Live s p (t ∷ ts) h = (inl h.0, Waits-Live s p ts h.1)

  -- A start at a position: the threads that stand behind the start state there.
  reset_thread-Shifted :
      (rounds depth s p q : ℕ) (c : Ctrl)
      → Inv g s p c
      → IsIdle c
      → Ensures (Shifted g q q) (reset_thread rounds depth q (record c { cur_pos = q }))
  unfolding reset_thread
  reset_thread-Shifted rounds depth s p q c v h = go c.thread_pool
    where
      go :
          (ts : List Thread)
          → Ensures (Shifted g q q) (elim ts as (λ _. Option (Option Thread × Ctrl)) [
            | [] ↦ none
            | _ ∷ _ ↦
                load_start_states rounds depth q (restart q (record c { cur_pos = q })) >>= λ c'.
                some (shift_active c')
          ])
      go [] = tt
      go (t ∷ ts) =
          Ensures-bind (Inv g q q) (Shifted g q q)
            (load_start_states rounds depth q (restart q (record c { cur_pos = q }))) _
            (load_start_states-Inv g q rounds depth q (restart q (record c { cur_pos = q }))
              (restart-Inv g s q q (record c { cur_pos = q }) (ground (arith)) h.0 h.1 refl))
            (λ c' w. shift_active-Shifted g q q c' w)

  module _ {S : Type 0} (kw : Option (KwSearch S)) (rounds depth : ℕ) where
    abbrev pub Sound : Run S → Type 0
    Sound = IsSound g kw rounds depth

    abbrev pub Standing : Run S → Type 0
    Standing = IsStanding g kw rounds depth

    -- A sound run that goes on.
    abbrev pub Going : Run S → Type 0
    Going run = Sound run × (run.stopped ≡ false)

    pub Standing-Going :
        (run : Run S)
        → (run.match_found ≡ true → (s : ℕ) × Accepts g s)
        → run.stopped ≡ false
        → Standing run
        → Going run
    Standing-Going run a e h = (record { found = a; standing = λ _. h }, e)

    advance-Going :
        (run : Run S)
        → (run.match_found ≡ true → (s : ℕ) × Accepts g s)
        → run.stopped ≡ false
        → Standing run
        → Going (advance kw rounds depth run)
    unfolding advance swap_next_w_active
    advance-Going run a o h =
        let q = (shift_active (swap_next_w_active run.ctrl)).1.cur_pos + 1 in
        let c = record (swap_next_w_active run.ctrl) { cur_pos = q } in
        let v : Inv g h.from (suc h.place) c = record {
          same = ground (arith, h.inv.same);
          position =
              ground (arith, shift_active-cur_pos (swap_next_w_active run.ctrl), h.inv.position);
          active = Waits-Live h.from h.place run.ctrl.next_threads h.inv.next;
          next = tt;
        } in
        let shifted =
          subst (λ (r : Option Thread × Ctrl). Shifted g h.from (suc h.place) r)
            (shift_active-position (swap_next_w_active run.ctrl) q)
            (shift_active-Shifted g h.from (suc h.place) c v) in
        Standing-Going (advance kw rounds depth run) a o (
          Shifted-IsStanding g kw rounds depth h.from (suc h.place) (advance kw rounds depth run)
            shifted)

    -- A new start, after the loop over the threads has ended.
    start_again-Going :
        (fuel : ℕ) (run : Run S)
        → (run.match_found ≡ true → (s : ℕ) × Accepts g s)
        → run.stopped ≡ false
        → Standing run
        → run.thread ≡ none
        → run.ctrl.next_threads ≡ []
        → Ensures Going (start_again kw rounds depth fuel run)
    unfolding start_again update_input_pointer
    start_again-Going fuel run a o h e e' =
        let idle : IsIdle run.ctrl = (h.drained e, e') in
        Ensures-bind (Shown g h.from h.place run.ctrl) Going
          (if line_or_invert run.ctrl then some run.ctrl else show_match run.ctrl) _
          (ground (arith, show_match-Shown g h.from h.place run.ctrl h.inv))
          (λ shown w.
            Ensures-bind (Pointed (record run { ctrl = shown })) Going
              (update_input_pointer kw rounds depth fuel (record run { ctrl = shown })) _
              (update_input_pointer-Pointed kw rounds depth fuel (record run { ctrl = shown }))
              (λ r u.
                let q = r.input_pointer in
                let c = record (no_match_yet r.ctrl) { last_interval_pos = 0 } in
                let v' : Inv g h.from h.place r.ctrl = rw u.0 w.0 in
                let v : Inv g h.from h.place c = ground (arith, v') in
                let i : IsIdle c = (
                  ap (λ (c' : Ctrl). c'.active_threads) u.0 ∙ (w.1 ∙ idle.0),
                  ap (λ (c' : Ctrl). c'.next_threads) u.0 ∙ (w.2 ∙ idle.1),
                ) in
                Ensures-bind (Shifted g q q) Going
                  (reset_thread rounds depth q (record c { cur_pos = q })) _
                  (reset_thread-Shifted rounds depth h.from h.place q c v i)
                  (λ b x.
                    Standing-Going _ (λ m. a (sym u.1 ∙ m)) (u.2 ∙ o)
                      (Shifted-IsStanding g kw rounds depth q q _ x))))

    pub next_position-Going :
        (fuel : ℕ) (run : Run S)
        → IsDrained g kw rounds depth run
        → run.stopped ≡ false
        → Ensures Going (next_position kw rounds depth fuel run)
    unfolding next_position
    next_position-Going fuel run h e = go run.ctrl.next_threads refl
      where
        go :
            (ts : List Thread)
            → run.ctrl.next_threads ≡ ts
            → Ensures Going (elim ts as (λ _. Option (Run S)) [
              | [] ↦ start_again kw rounds depth fuel run
              | _ ∷ _ ↦ some (advance kw rounds depth run)
            ])
        go [] e' = start_again-Going fuel run h.0.found e (h.0.standing e) (h.1 e) e'
        go (t ∷ ts) e' = advance-Going run h.0.found e (h.0.standing e)
