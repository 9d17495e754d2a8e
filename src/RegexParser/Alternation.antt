-- ===== src/RegexParser/Alternation.antt =====
-- Alternations, src/regex_parser.c: what `parse_quantifier_expression` does at a `|`.
use regex.Base.{ℕ, zero, suc, ◌+◌, ◌-◌, ◌^◌, none, some, true, false, ◌∷◌, ◌==◌, length}
use regex.Base.Int.{ℤ, pos, negsuc, inc}
use regex.Nfa.Build.{Allocator, concatenate_nfa}
use regex.Nfa.Alternate.{new_alternation_nfa}
use regex.RegexParser.State.{
  P, ◌>>=◌, ◌>>◌, pure, crash, branch_on, get, modify, consume, push, pop, build, build_or_fault,
  top_of,
}

-- What a call parses.
pub data Goal : Type 0 where
  quantifier sub_expression start : Goal

-- The number of branches, which is passed as an `unsigned int`.
unfoldable pub branch_number : ℤ → ℕ
branch_number (pos n) = n
branch_number (negsuc n) = 2 ^ 32 - 1 - n

module _ {A : Type 0} (allocator : Allocator A) where
  -- The loop that joins what is on the stack, up to a null.
  unfoldable pub join_all : ℕ → P A (Unit {0})
  join_all zero = crash
  join_all (suc k) = do
    s ← get
    let rest = join_all k
    branch_on (length s.symbol_stack == 0) (pure tt) (do
      right ← pop
      left ← pop
      branch_on (left == 0) (push 0 >> push right)
          (do nfa ← build (concatenate_nfa allocator left right); push nfa; rest))

  -- `while(left != NULL)`: what the rest of the stack is joined to.
  unfoldable pub join_down : ℕ → ℕ → ℕ → P A ℕ
  join_down zero left right = crash
  join_down (suc k) left right =
      branch_on (left == 0) (pure right)
        (do nfa ← build (concatenate_nfa allocator left right); below ← pop; join_down k below nfa)

  unfoldable pub add_alternation : ℕ → P A (Unit {0})
  add_alternation num_branches = do
    s ← get
    (nfa, left) ← build_or_fault (λ c.
        elim (new_alternation_nfa allocator s.branch_stack num_branches c) [
          | none ↦ none
          | some (p, bs, c') ↦ some ((p, bs), c')
        ])
    modify (λ r. record r { branch_stack = left; subtree_branch_count = pos 0 })
    push nfa

  -- Behind `|`.
  unfoldable pub parse_alternation : ℕ → (Goal → P A (Unit {0})) → P A (Unit {0})
  parse_alternation k call = do
    modify (λ r. record r {
      tree_count = elim (r.in_alternation == 0) [ true ↦ r.tree_count + 1 | false ↦ r.tree_count ];
      branch = r.branch + 1;
      in_alternation = r.in_alternation + 1;
      lowest_id_on_branch = r.nfa_ctrl.next_seq_id;
    })
    consume
    join_all k
    left ← pop
    modify (λ r. record r {
      branch_stack = elim (left == 0) [ true ↦ r.branch_stack | false ↦ left ∷ r.branch_stack ];
      subtree_branch_count = elim r.in_new_cgrp [
        | true ↦ pos 2
        | false ↦ inc r.subtree_branch_count
      ];
      in_new_cgrp = false;
    })
    push 0
    call sub_expression
    s ← get
    branch_on (top_of s.symbol_stack == 0) (pure tt) (do
      right ← pop
      below ← pop
      joined ← join_down k below right
      push 0
      modify (λ r. record r { branch_stack = joined ∷ r.branch_stack }))
    modify (λ r. record r { in_alternation = r.in_alternation - 1 })
    s1 ← get
    branch_on (s1.in_alternation == 0)
        (do add_alternation (length s1.branch_stack); modify (λ r. record r { branch = 0 }))
        (add_alternation (branch_number s1.subtree_branch_count))
