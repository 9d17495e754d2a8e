-- ===== src/Nfa/Repeat.antt =====
-- The construction of intervals and of strings of literals, src/nfa.c.
use regex.Base.{ℕ, ◌+◌, Option, some, List, [], ◌∷◌, ◌==◌, if◌then◌else◌}
use regex.Base.Int.{ℤ}
use regex.Scanner.Scan.{to_unsigned}
use regex.Recognizer.Output.{◌>>=◌}
use regex.Nfa.{nfa_literal, nfa_split, nfa_epsilon, nfa_accepting, nfa_interval}
use regex.Nfa.Build.{
  Allocator, NfaCtrl, update, mark_interval_nfa, new_nfa, new_literal_nfa, concatenate_nfa, tighten,
}

-- The nodes that `new_interval_nfa` gives: its result, and what it writes to its two arguments.
pub record IntervalNodes : Type 0 where
  pub accept : ℕ
  pub t_reachable : ℕ
  pub ret_interval : ℕ

module _ {A : Type 0} (allocator : Allocator A) where
  -- The start of an interval; a minimum of zero is an optional one of one.
  unfoldable pub begin_interval : ℕ → ℕ → ℕ → ℕ → NfaCtrl A → ℕ × NfaCtrl A
  unfolding update
  begin_interval start accept target min ctrl =
      let first = (ctrl.nodes target).parent in
      if min == 0
      then (
        min + 1,
        update allocator start
            (λ n. record n { type = nfa_split; literal = b'?'; out1 = first; out2 = accept }) ctrl,
      )
      else (min, update allocator start (λ n. record n { out1 = first; out2 = first }) ctrl)

  unfoldable pub new_interval_nfa : ℕ → ℕ → ℕ → ℤ → NfaCtrl A → Option (IntervalNodes × NfaCtrl A)
  unfolding new_nfa begin_interval update mark_interval_nfa tighten
  new_interval_nfa fuel target min max ctrl =
      let (start, c1) = new_nfa allocator nfa_epsilon ctrl in
      let (accept, c2) = new_nfa allocator nfa_accepting c1 in
      let (new_interval, c3) = new_nfa allocator nfa_interval c2 in
      let (min', c4) = begin_interval start accept target min c3 in
      let id = (c4.nodes (c4.nodes target).parent).id in
      let c5 = update allocator start (λ n. record n { id = id }) c4 in
      let c6 =
        update allocator target (λ n. record n { type = nfa_epsilon; out2 = new_interval }) c5 in
      let c7 = mark_interval_nfa allocator new_interval c6 in
      let c8 =
        update allocator new_interval
          (λ n. record n { min_rep = min'; max_rep = max; split_idx = 0 }) c7 in
      tighten allocator fuel (c8.nodes target).parent c8 >>= λ tmp. some (
        record { accept = accept; t_reachable = tmp; ret_interval = new_interval },
        update allocator accept (λ n. record n { parent = start })
            (update allocator new_interval (λ n. record n { out1 = tmp; out2 = accept }) c8),
      )

  -- The loop of `new_lliteral_nfa`.
  unfoldable pub lliteral_loop : List ℕ → ℕ → NfaCtrl A → ℕ × NfaCtrl A
  unfolding new_literal_nfa concatenate_nfa
  lliteral_loop [] left ctrl = (left, ctrl)
  lliteral_loop (b ∷ src) left ctrl =
      let (right, c) = new_literal_nfa allocator (to_unsigned b) nfa_literal ctrl in
      let (left', c') = concatenate_nfa allocator left right c in lliteral_loop src left' c'

  -- The first byte, and those behind it up to the length.
  unfoldable pub new_lliteral_nfa : ℕ → List ℕ → NfaCtrl A → ℕ × NfaCtrl A
  unfolding lliteral_loop new_literal_nfa
  new_lliteral_nfa b src ctrl =
      let (left, c) = new_literal_nfa allocator (to_unsigned b) nfa_literal ctrl in
      lliteral_loop src left c
