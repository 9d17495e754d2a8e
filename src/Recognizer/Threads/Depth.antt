-- ===== src/Recognizer/Threads/Depth.antt =====
-- The depth of the calls of `load_next`, src/recognizer.c: where no node comes back to itself without
-- input, a node's rank bounds it. What the nodes, the threads and the controller must satisfy.
pub mod Clones
pub mod Next
pub mod Total
use regex.Base.{
  ℕ, zero, suc, ◌+◌, ◌≡◌, ◌≤◌, ◌<◌, Bool, true, false, Option, none, some, List, length, get_elem?,
  Every,
}
use regex.Nfa.{
  Nfa, NfaType, nfa_any, nfa_literal, nfa_range, nfa_split, nfa_epsilon, nfa_accepting,
  nfa_bol_anchor, nfa_eol_anchor, nfa_interval, nfa_backreference, nfa_capturegrp_end,
  nfa_capturegrp_begin, nfa_tree,
}
use regex.Recognizer.Threads.{Thread, Ctrl}

abbrev pub is_group : NfaType → Bool
is_group nfa_capturegrp_begin = true
is_group nfa_capturegrp_end = true
is_group _ = false

-- A node that a load goes through.
abbrev pub is_passed : NfaType → Bool
is_passed nfa_interval = true
is_passed nfa_capturegrp_begin = true
is_passed nfa_capturegrp_end = true
is_passed _ = false

-- A node that other nodes stand behind.
abbrev pub is_left : NfaType → Bool
is_left nfa_accepting = false
is_left nfa_split = false
is_left nfa_epsilon = false
is_left nfa_tree = false
is_left _ = true

-- Nodes with a rank that falls along the edges that a load goes through; the indices are in range,
-- and the lists are shorter than the rounds of a loop.
pub record Ranked : Type 0 where
  pub nfa : ℕ → Nfa
  pub rank : ℕ → ℕ
  pub ids : ℕ
  pub cap : ℕ
  pub rounds : ℕ
  pub numbered : (q : ℕ) → (nfa q).id < ids
  pub group : (q : ℕ) → is_group (nfa q).type ≡ true → (nfa q).id < 9
  pub backreference : (q : ℕ) → (nfa q).type ≡ nfa_backreference → (nfa q).id < 9
  pub loop : (q : ℕ) → (nfa q).type ≡ nfa_interval → (nfa q).id < cap
  pub split : (q : ℕ) → (nfa q).type ≡ nfa_interval → (nfa q).split_idx < length (nfa q).reachable
  pub nonempty : (q : ℕ) → is_left (nfa q).type ≡ true → 0 < length (nfa q).reachable
  pub falls :
      (q : ℕ)
      → is_passed (nfa q).type ≡ true
      → (i r : ℕ) → get_elem? (nfa q).reachable i ≡ some r
      → rank r < rank q
  pub size : (q : ℕ) → length (nfa q).reachable < rounds

-- The arrays of a thread have their lengths.
abbrev pub IsSized : ℕ → Thread → Type 0
IsSized cap t = (length t.backref_match ≡ 9) × (length t.loop_record ≡ cap)

pub record IsFine (g : Ranked) (c : Ctrl) : Type 0 where
  pub nodes : c.nfa ≡ g.nfa
  pub sp : length c.active_threads_sp ≡ g.ids
  pub loops : c.loop_record_cap ≡ g.cap
  pub pool : Every (IsSized g.cap) c.thread_pool
