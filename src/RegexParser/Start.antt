-- ===== src/RegexParser/Start.antt =====
-- `parse_regex` of src/regex_parser.c: the scan ahead, the parse, and what is left on the stack
-- joined to one NFA with a first node of its own, up to the call of `compile_regex`.
use regex.Base.{ℕ, ltb, Bool, true, false, none, some, length}
use regex.Nfa.{NfaType, nfa_epsilon, nfa_split}
use regex.Nfa.Build.{Allocator, update, new_nfa, mark_nfa, concatenate_nfa}
use regex.RegexParser.State.{
  P, ◌>>=◌, ◌>>◌, pure, crash, branch_on, get, modify, push, pop, need, build, change_flags, top_of,
}
use regex.RegexParser.Prescan.{prescan_input}
use regex.RegexParser.Groups.{join_times}
use regex.RegexParser.Alternation.{start}
use regex.RegexParser.Grammar.{parse}

-- `type & ~(NFA_SPLIT|NFA_EPSILON)`
abbrev pub is_not_empty : NfaType → Bool
is_not_empty nfa_split = false
is_not_empty nfa_epsilon = false
is_not_empty _ = true

module _ {A : Type 0} (allocator : Allocator A) where
  unfoldable pub insert_epsilon_start : P A (Unit {0})
  insert_epsilon_start = do
    s ← get
    need (top_of s.symbol_stack)
    let start_nfa = (s.nfa_ctrl.nodes (top_of s.symbol_stack)).parent
    need start_nfa
    branch_on (is_not_empty (s.nfa_ctrl.nodes start_nfa).type)
        (do
          start_node ← build (new_nfa allocator nfa_epsilon)
          right ← pop
          modify (λ r. record r {
            nfa_ctrl =
                update allocator right (λ n. record n { parent = start_node })
                  (update allocator start_node
                    (λ n. record n {
                      out1 = (r.nfa_ctrl.nodes right).parent;
                      out2 = (r.nfa_ctrl.nodes right).parent;
                    })
                    r.nfa_ctrl);
          })
          push right)
        (pure tt)

  -- What is left on the stack is joined.
  unfoldable pub join_stack : P A (Unit {0})
  join_stack = do
    s ← get
    branch_on (ltb 1 (length s.symbol_stack))
        (do
          right ← pop
          left ← pop
          nfa ← build (concatenate_nfa allocator left right)
          s1 ← get
          joined ← join_times allocator (length s1.symbol_stack) nfa
          push joined)
        (pure tt)

  -- The marks of the scan ahead.
  unfoldable pub mark_groups : ℕ → P A (Unit {0})
  mark_groups k = do
    s ← get
    elim (prescan_input k s.reader.scanner s.cgrp_map) [
      | none ↦ crash
      | some p ↦
          change_flags (λ _. p.ctrl_flags) >> modify (λ r. record r { cgrp_map = p.cgrp_map })
    ]

  -- `k` is the fuel of each loop, `n` that of the calls.
  unfoldable pub parse_regex : ℕ → ℕ → P A (Unit {0})
  parse_regex k n = do
    mark_groups k
    parse allocator k n start
    join_stack
    s ← get
    need (top_of s.symbol_stack)
    modify (λ r. record r { nfa_ctrl = mark_nfa allocator (top_of r.symbol_stack) r.nfa_ctrl })
    insert_epsilon_start
