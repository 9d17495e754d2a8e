-- ===== src/Recognizer/Threads/Reach.antt =====
-- The paths through an NFA that a line allows, as a relation, and the invariant that the threads of
-- src/recognizer.c stand on such paths.
pub mod Loads
pub mod Intervals
pub mod Steps
pub mod Runs
pub mod Found
pub mod Positions
pub mod Line
use regex.Base.{
  ℕ, zero, suc, ◌+◌, ◌≡◌, ◌⊎◌, Bool, true, false, not, ◌&&◌, Option, none, some, List, [], ◌∷◌,
  ◌==◌, Every, get_elem?,
}
use regex.CharRange.{is_literal_in_range}
use regex.Flags.{has_flag, ignore_case_flag}
use regex.Nfa.{
  Nfa, NfaType, nfa_any, nfa_literal, nfa_range, nfa_split, nfa_epsilon, nfa_accepting,
  nfa_bol_anchor, nfa_eol_anchor, nfa_interval, nfa_backreference, nfa_capturegrp_end,
  nfa_capturegrp_begin, nfa_tree,
}
use regex.Recognizer.Threads.{
  Thread, Ctrl, Dst, to_active, to_next, Status, no_match, continue, full_match,
}
use regex.Recognizer.Threads.Step.{fold_case, input, at_eol}

-- The line of a controller, seen from a position.
abbrev pub at : Ctrl → ℕ → Ctrl
at g p = record g { cur_pos = p }

-- A node that is left without input: an interval, a group, and the begin of the line at its begin.
unfoldable pub passes : Ctrl → ℕ → ℕ → Bool
passes g q p = elim ((g.nfa q).type) [
  | nfa_interval ↦ true
  | nfa_capturegrp_begin ↦ true
  | nfa_capturegrp_end ↦ true
  | nfa_bol_anchor ↦ p == g.buffer
  | _ ↦ false
]

-- A node that is left with the byte at the position. The end of a line is left so too, and what a
-- backreference compares is not said here.
unfoldable pub takes : Ctrl → ℕ → ℕ → Bool
takes g q p = elim ((g.nfa q).type) [
  | nfa_any ↦ not (at_eol (at g p))
  | nfa_literal ↦ input (at g p) == fold_case g (g.nfa q).literal
  | nfa_range ↦ not (at_eol (at g p)) && is_literal_in_range (g.nfa q).range (input (at g p))
  | nfa_backreference ↦ true
  | nfa_eol_anchor ↦ at_eol (at g p)
  | _ ↦ false
]

-- The i-th node that is reachable from a node.
abbrev pub edge : Ctrl → ℕ → ℕ → Option ℕ
edge g q i = get_elem? (g.nfa q).reachable i

-- The nodes and the positions that a search from the position `s` may come to.
pub data Reaches (g : Ctrl) (s : ℕ) : ℕ → ℕ → Type 0 where
  begin : {q : ℕ} → (i : ℕ) → edge g g.start_state i ≡ some q → Reaches g s q s
  pass :
      {q p r : ℕ}
      → Reaches g s q p
      → passes g q p ≡ true
      → (i : ℕ) → edge g q i ≡ some r
      → Reaches g s r p
  take :
      {q p r : ℕ}
      → Reaches g s q p
      → takes g q p ≡ true
      → (i : ℕ) → edge g q i ≡ some r
      → Reaches g s r (suc p)
  hold : {q p : ℕ} → Reaches g s q p → (g.nfa q).type ≡ nfa_backreference → Reaches g s q (suc p)

-- What a search from `s` needs to report a match: a path to the accepting node, or one that is alive
-- at a null.
pub data Accepts (g : Ctrl) (s : ℕ) : Type 0 where
  accepting : {q p : ℕ} → Reaches g s q p → (g.nfa q).type ≡ nfa_accepting → Accepts g s
  alive : {q p : ℕ} → Reaches g s q p → input (at g p) ≡ 0 → Accepts g s

-- The parts of the controller that say which paths there are; the control flags are one word, which
-- the scanner points at too.
pub record Same (g c : Ctrl) : Type 0 where
  pub nfa : c.nfa ≡ g.nfa
  pub start_state : c.start_state ≡ g.start_state
  pub buffer : c.buffer ≡ g.buffer
  pub text : c.scanner.buffer ≡ g.scanner.buffer
  pub eol_symbol : c.scanner.eol_symbol ≡ g.scanner.eol_symbol
  pub ignore_case :
      has_flag ignore_case_flag c.output.ctrl_flags ≡ has_flag ignore_case_flag g.output.ctrl_flags
  pub shared : c.output.ctrl_flags ≡ c.scanner.ctrl_flags

-- A thread in the pool of active ones. The accepting node is put there a byte too early.
abbrev pub Live : Ctrl → ℕ → ℕ → Thread → Type 0
Live g s p t = Reaches g s t.ip p ⊎ ((g.nfa t.ip).type ≡ nfa_accepting) × Reaches g s t.ip (suc p)

abbrev pub Waits : Ctrl → ℕ → ℕ → Thread → Type 0
Waits g s p t = Reaches g s t.ip (suc p)

pub record Inv (g : Ctrl) (s p : ℕ) (c : Ctrl) : Type 0 where
  pub same : Same g c
  pub position : c.cur_pos ≡ p
  pub active : Every (Live g s p) c.active_threads
  pub next : Every (Waits g s p) c.next_threads

-- The position at which a pool's threads wait.
abbrev pub place : Dst → ℕ → ℕ
place to_active p = p
place to_next p = suc p

abbrev pub is_full : Status → Bool
is_full full_match = true
is_full _ = false

-- What a load leaves: the invariant, and a thread that does not report a match.
abbrev pub Loaded : Ctrl → ℕ → ℕ → Thread × Ctrl → Type 0
Loaded g s p r = (is_full r.0.status ≡ false) × Inv g s p r.1
