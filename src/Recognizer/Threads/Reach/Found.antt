-- ===== src/Recognizer/Threads/Reach/Found.antt =====
-- The loops of `run_nfa` in src/recognizer.c: the search reports a match only where a path accepts.
use mathlib.Core.Path.{subst}
use regex.Base.{
  ℕ, zero, suc, ◌≡◌, ◌∙◌, refl, sym, inl, inr, true, false, Bool-cases, Option, none, some,
  Option-cases, List, [], ◌∷◌, arith, Every,
}
use regex.Scanner.Kept.{restart_from-IsKept}
use regex.Recognizer.Kept.{new_match-flags}
use regex.Recognizer.Matches.{update_longest_match}
use regex.Recognizer.NewMatch.{new_match}
use regex.Recognizer.Output.{◌>>=◌}
use regex.Recognizer.Threads.{
  Thread, Ctrl, Status, no_match, continue, full_match, byte_at, shift_active, release_thread,
  to_list, free_thread,
}
use regex.Recognizer.Threads.Run.{
  offset, restart, show_match, KwSearch, Run, release, on_match, step_run, run_threads,
  individual_matches, bail_early, has_ctrl_flag,
}
use regex.Recognizer.Threads.Step.{thread_step}
use regex.Recognizer.Threads.Reach.{Accepts, Inv, Live, is_full}
use regex.Recognizer.Threads.Reach.Loads.{free_thread-Inv}
use regex.Recognizer.Threads.Reach.Steps.{Stepped, thread_step-Stepped}
use regex.Recognizer.Ensures.{Ensures, Ensures-bind}

module _ (g : Ctrl) where
  -- What a thread and a controller are after a shift of the active threads.
  abbrev pub Shifted : ℕ → ℕ → Option Thread × Ctrl → Type 0
  Shifted s p r =
      Every (Live g s p) (to_list r.0) × Inv g s p r.1 × (r.0 ≡ none → r.1.active_threads ≡ [])

  pub shift_active-Shifted : (s p : ℕ) (c : Ctrl) → Inv g s p c → Shifted s p (shift_active c)
  unfolding shift_active
  shift_active-Shifted s p c v = go c.active_threads refl v.active
    where
      go :
          (ts : List Thread)
          → c.active_threads ≡ ts
          → Every (Live g s p) ts
          → Shifted s p (elim ts as (λ _. Option Thread × Ctrl) [
            | [] ↦ (none, c)
            | t ∷ us ↦ (some t, record c { active_threads = us })
          ])
      go [] e h = (tt, v, (λ _. e))
      go (t ∷ ts) e h = ((h.0, tt), ground (arith), (λ e'. absurd (cc)))

  release_thread-Shifted :
      (s p : ℕ) (c : Ctrl) (t : Thread) → Inv g s p c → Shifted s p (release_thread c t)
  unfolding release_thread
  release_thread-Shifted s p c t v =
      shift_active-Shifted s p (free_thread t c) (free_thread-Inv g s p t c v)

  -- The invariant, and pools that are not touched.
  abbrev pub Shown : ℕ → ℕ → Ctrl → Ctrl → Type 0
  Shown s p c r =
      Inv g s p r × (r.active_threads ≡ c.active_threads) × (r.next_threads ≡ c.next_threads)

  pub show_match-Shown : (s p : ℕ) (c : Ctrl) → Inv g s p c → Ensures (Shown s p c) (show_match c)
  unfolding show_match
  show_match-Shown s p c v =
      Ensures-bind _ (Shown s p c) (new_match (λ q. byte_at c q) c.output) _
        (new_match-flags (λ q. byte_at c q) c.output)
        (λ out e. (ground (arith, v.same.ignore_case, v.same.shared, e), refl, refl))

  -- The controller at a new start, when no thread is left.
  pub restart-Inv :
      (s p q : ℕ) (c : Ctrl)
      → Inv g s p c
      → c.active_threads ≡ []
      → c.next_threads ≡ []
      → c.cur_pos ≡ q
      → Inv g q q (restart q c)
  unfolding restart
  restart-Inv s p q c v e e' e'' =
      let k = restart_from-IsKept c.scanner (offset c q) in
      record {
        same = record {
          nfa = v.same.nfa;
          start_state = v.same.start_state;
          buffer = v.same.buffer;
          text = k.text ∙ v.same.text;
          eol_symbol = k.eol_symbol ∙ v.same.eol_symbol;
          ignore_case = k.ignore_case ∙ rw (sym v.same.shared) v.same.ignore_case;
          shared = refl;
        };
        position = e'';
        active = rw e tt;
        next = rw e' tt;
      }

  module _ {S : Type 0} (kw : Option (KwSearch S)) (rounds depth : ℕ) where
    -- The threads of a run stand on paths from one position, and no active thread is left behind.
    pub record IsStanding (run : Run S) : Type 0 where
      pub from : ℕ
      pub place : ℕ
      pub inv : Inv g from place run.ctrl
      pub live : Every (Live g from place) (to_list run.thread)
      pub drained : run.thread ≡ none → run.ctrl.active_threads ≡ []

    -- What a run that goes on and one that is stopped satisfy.
    pub record IsSound (run : Run S) : Type 0 where
      pub found : run.match_found ≡ true → (s : ℕ) × Accepts g s
      pub standing : run.stopped ≡ false → IsStanding run

    pub Shifted-IsStanding :
        (s p : ℕ) (run : Run S) → Shifted s p (run.thread, run.ctrl) → IsStanding run
    Shifted-IsStanding s p run h = record {
      from = s;
      place = p;
      inv = h.1;
      live = h.0;
      drained = h.2;
    }

    release-IsSound :
        (s p : ℕ) (t : Thread) (c : Ctrl) (run : Run S)
        → Inv g s p c
        → (run.match_found ≡ true → (s' : ℕ) × Accepts g s')
        → IsSound (release kw rounds depth t c run)
    unfolding release
    release-IsSound s p t c run v h = record {
      found = h;
      standing = λ _. Shifted-IsStanding s p _ (release_thread-Shifted s p c t v);
    }

    abbrev stop_at : Thread → Ctrl → Run S → Run S
    stop_at t c run = record run {
      current_run = true;
      match_found = true;
      ctrl = c;
      thread = some t;
      stopped = true;
    }

    stop-IsSound :
        (t : Thread) (c : Ctrl) (run : Run S) → (s : ℕ) × Accepts g s → IsSound (stop_at t c run)
    stop-IsSound t c run a = record { found = λ _. a; standing = λ e. absurd (cc) }

    -- A thread reports a match.
    on_match-IsSound :
        (s p : ℕ) (t : Thread) (c : Ctrl) (run : Run S)
        → Inv g s p c
        → Accepts g s
        → Ensures IsSound (on_match kw rounds depth t c run)
    unfolding on_match
    on_match-IsSound s p t c run v a =
        let c' = record c {
          output = record c.output { match = update_longest_match c.output.match t.match };
        } in
        let v' : Inv g s p c' = ground (arith) in
        let found = record run { current_run = true; match_found = true } in
        let shown : Ensures IsSound (show_match c' >>= λ out. some (stop_at t out run)) =
          Ensures-bind (Shown s p c') IsSound (show_match c') _ (show_match-Shown s p c' v')
            (λ out w. stop-IsSound t out run (s, a)) in
        elim (Bool-cases (individual_matches c)) [
          | inl b ↦ elim (Bool-cases (has_ctrl_flag 0x00040 c')) [
            | inl b' ↦ rw (b, b') (release-IsSound s p t c' found v' (λ _. (s, a)))
            | inr b' ↦ rw (b, b') shown
          ]
          | inr b ↦ elim (Bool-cases (bail_early c)) [
            | inl b' ↦ rw (b, b') (release-IsSound s p t c found v (λ _. (s, a)))
            | inr b' ↦ rw (b, b') (stop-IsSound t c run (s, a))
          ]
        ]

    -- One round of the inner loop.
    step_run-IsSound :
        (t : Thread) (run : Run S)
        → run.thread ≡ some t
        → run.stopped ≡ false
        → IsSound run
        → Ensures IsSound (step_run kw rounds depth t run)
    unfolding step_run
    step_run-IsSound t run e e' h =
        let st = h.standing e' in
        let live : Every (Live g st.from st.place) (to_list (some t)) =
          subst (λ (o : Option Thread). Every (Live g st.from st.place) (to_list o)) e st.live in
        Ensures-bind (Stepped g st.from st.place) IsSound (thread_step rounds depth t run.ctrl) _
          (thread_step-Stepped g st.from st.place rounds depth t run.ctrl st.inv live.0)
          (λ (t', c) w. go t' c w.0 w.1 t'.status refl)
      where
        go :
            (t' : Thread) (c : Ctrl)
            → (is_full t'.status ≡ true → Accepts g (h.standing e').from)
            → Inv g (h.standing e').from (h.standing e').place c
            → (status : Status) → t'.status ≡ status
            → Ensures IsSound (elim status as (λ _. Option (Run S)) [
              | full_match ↦ on_match kw rounds depth t' c run
              | no_match ↦ some (release kw rounds depth t' c run)
              | continue ↦
                  some (record run { thread = (shift_active c).0; ctrl = (shift_active c).1 })
            ])
        go t' c a v full_match e'' = on_match-IsSound _ _ t' c run v (a (rw e'' refl))
        go t' c a v no_match e'' = release-IsSound _ _ t' c run v h.found
        go t' c a v continue e'' = record {
          found = h.found;
          standing = λ _. Shifted-IsStanding _ _ _ (shift_active-Shifted _ _ c v);
        }

    -- The inner loop ends with no thread left, or stops.
    abbrev pub IsDrained : Run S → Type 0
    IsDrained run = IsSound run × (run.stopped ≡ false → run.thread ≡ none)

    pub run_threads-IsDrained :
        (k : ℕ) (run : Run S)
        → run.stopped ≡ false
        → IsSound run
        → Ensures IsDrained (run_threads kw rounds depth k run)
    unfolding run_threads
    run_threads-IsDrained zero run e h = tt
    run_threads-IsDrained (suc k) run e h = elim (Option-cases run.thread) [
      | inl e' ↦ rw (e', Ensures) (h, (λ _. e'))
      | inr (t, e') ↦
          rw (e', Ensures)
            (Ensures-bind IsSound IsDrained (step_run kw rounds depth t run) _
              (step_run-IsSound t run e' e h)
              (λ r w. elim (Bool-cases r.stopped) [
                | inl b ↦ rw (b, Ensures) (w, (λ b'. absurd (cc)))
                | inr b ↦ rw (b, Ensures) (run_threads-IsDrained k r b w)
              ]))
    ]
