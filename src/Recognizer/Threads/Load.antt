-- ===== src/Recognizer/Threads/Load.antt =====
-- Loading the nodes that a thread can go to, src/recognizer.c: `load_next`, `thread_clone` and
-- `process_adjacents` call each other. The two latter take the former as an argument, and
-- `load_next` has numbers for its depth and for the rounds of its loops. The iterator of a list is
-- the index at which it stands.
use regex.Base.{
  ℕ, zero, suc, ◌+◌, Bool, true, false, not, ◌&&◌, Option, none, some, List, [], ◌∷◌, leb, ◌==◌,
  if◌then◌else◌, get_elem?, length, drop, replicate,
}
use regex.Base.Int.{ℤ, pos}
use regex.CharRange.{is_literal_in_range}
use regex.Nfa.{Nfa, nfa_literal, nfa_range}
use regex.Scanner.Scan.{to_unsigned}
use regex.Recognizer.Output.{◌>>=◌}
use regex.Recognizer.Threads.{
  Thread, Ctrl, Dst, no_match, continue, byte_at, free_thread, obtain_thread,
}

-- What `load_next` does for a thread, a node, a pool and a position.
abbrev pub Load : Type 0
Load = Thread → ℕ → Dst → ℕ → Ctrl → Option (Thread × Ctrl)

-- Whether a node can take the byte: a literal and a range are tested, any other node can.
unfoldable pub fits : Nfa → ℕ → Bool
unfolding to_unsigned
fits nfa c = elim (nfa.type) [
  | nfa_literal ↦ nfa.literal == to_unsigned c
  | nfa_range ↦ is_literal_in_range nfa.range (to_unsigned c)
  | _ ↦ true
]

abbrev pub is_zero : ℤ → Bool
is_zero (pos zero) = true
is_zero _ = false

-- The fields that a clone takes over.
unfoldable pub copy_thread : ℕ → Bool → Thread → ℕ → Thread → Thread
copy_thread loop_record_cap new nfa_clone nfa sim =
    let base = record nfa_clone {
      status = continue;
      ip = nfa;
      bref_ptr = 0;
      match = sim.match;
      tracking_backrefs = sim.tracking_backrefs;
      interval_count = sim.interval_count;
    } in
    let looped =
      if not (is_zero sim.tracking_intervals)
      then record base {
        loop_record = sim.loop_record;
        tracking_intervals = sim.tracking_intervals;
      }
      else if not new && not (is_zero nfa_clone.tracking_intervals)
      then record base { loop_record = replicate loop_record_cap 0; tracking_intervals = pos 0 }
      else base in
    if sim.tracking_backrefs && not new
    then record looped { backref_match = sim.backref_match }
    else looped

-- A clone that could not be loaded goes back to the pool.
unfoldable pub keep_clone : Thread × Ctrl → Ctrl
keep_clone (clone, ctrl) = elim (clone.status) [ no_match ↦ free_thread clone ctrl | _ ↦ ctrl ]

unfoldable pub thread_clone : Load → ℕ → Thread → Dst → ℕ → Ctrl → Option Ctrl
thread_clone load nfa sim dst lookahead ctrl =
    if fits (ctrl.nfa nfa) (byte_at ctrl lookahead)
    then (let (new, clone, ctrl') = obtain_thread ctrl in
        load (copy_thread ctrl.loop_record_cap new clone nfa sim) nfa dst lookahead ctrl' >>= λ r.
        some (keep_clone r))
    else some ctrl

-- `list_set_iterator` on the `reachable` list of a node: an index behind the list is refused.
unfoldable pub set_iterator : ℕ → ℕ → Ctrl → Ctrl
set_iterator nfa i ctrl =
    if leb (length (ctrl.nfa nfa).reachable) i
    then ctrl
    else record ctrl { iter_idx = λ n. if n == nfa then i else ctrl.iter_idx n }

-- `list_get_next` on the `reachable` list of a node.
unfoldable pub get_next : ℕ → Ctrl → Option ℕ × Ctrl
get_next nfa ctrl = elim (get_elem? (ctrl.nfa nfa).reachable (ctrl.iter_idx nfa)) [
  | none ↦ (none, ctrl)
  | some tmp ↦ (
    some tmp,
    record ctrl { iter_idx = λ n. if n == nfa then ctrl.iter_idx n + 1 else ctrl.iter_idx n },
  )
]

-- The loop of `list_for_each`, whose rounds are the first number. Its body may move the iterator.
unfoldable pub for_each_loop : ℕ → (ℕ → Ctrl → Option Ctrl) → ℕ → ℕ → Ctrl → Option Ctrl
unfolding get_next
for_each_loop zero body nfa finish ctrl = none
for_each_loop (suc k) body nfa finish ctrl =
    let c = (get_next nfa ctrl).1 in
    elim ((get_next nfa ctrl).0) [
      | none ↦ some c
      | some tmp ↦ elim (leb (c.iter_idx nfa) finish) [
        | true ↦ body tmp c >>= λ c'. for_each_loop k body nfa finish c'
        | false ↦ some c
      ]
    ]

-- `list_for_each(tmp, &(nfa->reachable), start, finish) body`
unfoldable pub for_each : ℕ → (ℕ → Ctrl → Option Ctrl) → ℕ → ℕ → ℕ → Ctrl → Option Ctrl
unfolding for_each_loop set_iterator
for_each rounds body nfa start finish ctrl =
    for_each_loop rounds body nfa finish (set_iterator nfa start ctrl)

unfoldable pub clone_range : ℕ → Load → ℕ → ℕ → ℕ → Thread → Dst → ℕ → Ctrl → Option Ctrl
unfolding for_each
clone_range rounds load nfa start finish sim dst lookahead ctrl =
    for_each rounds (λ tmp c. thread_clone load tmp sim dst lookahead c) nfa start finish ctrl

-- The thread itself goes to the node at an index of the list; a null for the node is a fault.
unfoldable pub load_at : Load → ℕ → ℕ → Thread → Dst → ℕ → Ctrl → Option (Thread × Ctrl)
load_at load nfa i sim dst lookahead ctrl =
    get_elem? (ctrl.nfa nfa).reachable i >>= λ tmp. load sim tmp dst lookahead ctrl

unfoldable pub clone_all : Load → List ℕ → Thread → Dst → ℕ → Ctrl → Option Ctrl
clone_all load [] sim dst lookahead ctrl = some ctrl
clone_all load (nfa ∷ nfas) sim dst lookahead ctrl =
    thread_clone load nfa sim dst lookahead ctrl >>= λ c. clone_all load nfas sim dst lookahead c

-- The nodes behind the first one get clones, the first one the thread itself.
unfoldable pub process_adjacents : Load → Thread → ℕ → Dst → ℕ → Ctrl → Option (Thread × Ctrl)
process_adjacents load sim nfa dst lookahead ctrl =
    clone_all load (drop 1 (ctrl.nfa nfa).reachable) sim dst lookahead ctrl >>= λ c.
    load_at load nfa 0 sim dst lookahead c
