-- ===== src/Recognizer/Threads.antt =====
-- The threads of the recognizer, src/recognizer.h and src/recognizer.c. A pool is the list of its
-- threads, which Recognizer/Queue shows that the linked pools are; a thread is a value, and the
-- threads that were released keep their old fields. A position is an address, and 0 is null.
pub mod Load
pub mod Next
pub mod Step
pub mod Run
pub mod Search
pub mod Reach
pub mod Depth
pub mod Tests
use regex.Base.{
  ℕ, zero, suc, ◌+◌, ◌-◌, Bool, true, false, not, ◌&&◌, ◌||◌, Option, none, some, List, [], ◌∷◌,
  ◌++◌, ltb, leb, ◌==◌, if◌then◌else◌, length, get_or, replicate,
}
use regex.Base.Int.{ℤ, pos, negsuc}
use regex.Nfa.{Nfa}
use regex.Scanner.{Scanner}
use regex.Recognizer.Matches.{Match}
use regex.Recognizer.Output.{Output}

-- `NO_MATCH`, `CONTINUE` and `MATCH`
pub data Status : Type 0 where
  no_match : Status
  continue : Status
  full_match : Status

-- A `Match` of a capture group; its `last_match_end` is not used.
pub record Capture : Type 0 where
  pub start : ℕ
  pub end : ℕ

-- `NFASim`
pub record Thread : Type 0 where
  pub bref_ptr : ℕ
  pub ip : ℕ
  pub match : Match
  pub status : Status
  pub tracking_intervals : ℤ
  pub tracking_backrefs : Bool
  pub interval_count : ℕ
  pub backref_match : List Capture
  pub loop_record : List ℕ

-- `NFASimCtrl`. The buffer of the scanner begins at the address `buffer`; `iter_idx` is the index at
-- which the iterator of a node's `reachable` list stands.
pub record Ctrl : Type 0 where
  pub nfa : ℕ → Nfa
  pub start_state : ℕ
  pub thread_pool : List Thread
  pub active_threads : List Thread
  pub next_threads : List Thread
  pub active_threads_sp : List ℕ
  pub loop_record_cap : ℕ
  pub cur_pos : ℕ
  pub last_interval_pos : ℕ
  pub iter_idx : ℕ → ℕ
  pub buffer : ℕ
  pub scanner : Scanner
  pub output : Output

-- `*p`. Behind the buffer there is nothing but nulls.
unfoldable pub byte_at : Ctrl → ℕ → ℕ
byte_at ctrl p = get_or ctrl.scanner.buffer (p - ctrl.buffer) 0

-- The pool that a thread is put into.
pub data Dst : Type 0 where
  to_active : Dst
  to_next : Dst

unfoldable pub append_thread : Dst → Thread → Ctrl → Ctrl
append_thread to_active t ctrl = record ctrl { active_threads = ctrl.active_threads ++ t ∷ [] }
append_thread to_next t ctrl = record ctrl { next_threads = ctrl.next_threads ++ t ∷ [] }

-- `sim_pool_append(&(ctrl->thread_pool), t)`
unfoldable pub free_thread : Thread → Ctrl → Ctrl
free_thread t ctrl = record ctrl { thread_pool = ctrl.thread_pool ++ t ∷ [] }

-- `sim_pool_shift(&(ctrl->active_threads))`
unfoldable pub shift_active : Ctrl → Option Thread × Ctrl
shift_active ctrl = elim (ctrl.active_threads) [
  | [] ↦ (none, ctrl)
  | t ∷ ts ↦ (some t, record ctrl { active_threads = ts })
]

-- A thread from `calloc`.
abbrev pub new_thread : ℕ → Thread
new_thread loop_record_cap = record {
  bref_ptr = 0;
  ip = 0;
  match = record { start = 0; end = 0; last_match_end = 0 };
  status = continue;
  tracking_intervals = pos 0;
  tracking_backrefs = false;
  interval_count = 0;
  backref_match = replicate 9 (record { start = 0; end = 0 });
  loop_record = replicate loop_record_cap 0;
}

-- A thread from the pool, or a new one; the flag says that it is new.
unfoldable pub obtain_thread : Ctrl → Bool × Thread × Ctrl
obtain_thread ctrl = elim (ctrl.thread_pool) [
  | [] ↦ (true, new_thread ctrl.loop_record_cap, ctrl)
  | t ∷ ts ↦ (false, t, record ctrl { thread_pool = ts })
]

-- `release_thread`
unfoldable pub release_thread : Ctrl → Thread → Option Thread × Ctrl
unfolding free_thread shift_active
release_thread ctrl sim = shift_active (free_thread sim ctrl)

unfoldable pub swap_next_w_active : Ctrl → Ctrl
swap_next_w_active ctrl = record ctrl { active_threads = ctrl.next_threads; next_threads = [] }

-- The list of one thread, or none.
abbrev pub to_list : Option Thread → List Thread
to_list none = []
to_list (some t) = t ∷ []

unfoldable pub release_all_threads : Ctrl → Option Thread → Ctrl
release_all_threads ctrl thread = record ctrl {
  thread_pool = ctrl.thread_pool ++ (ctrl.active_threads ++ (ctrl.next_threads ++ to_list thread));
  active_threads = [];
  next_threads = [];
}
