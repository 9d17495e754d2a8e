-- ===== src/Nfa/Alternate.antt =====
-- The construction of alternations, src/nfa.c `new_alternation_nfa` and `is_nfa_tree`, without a
-- terminator of the caller's. The lists of branches are lists of addresses.
use regex.Base.{
  ℕ, Bool, true, false, ◌&&◌, Option, none, some, List, [], ◌∷◌, ◌++◌, ◌==◌, ltb, if◌then◌else◌,
  length, take, drop,
}
use regex.Recognizer.Output.{◌>>=◌}
use regex.Nfa.{NfaType, nfa_epsilon, nfa_accepting, nfa_tree}
use regex.Nfa.Build.{Allocator, NfaCtrl, update, new_nfa}

abbrev pub is_tree_type : NfaType → Bool
is_tree_type nfa_tree = true
is_tree_type _ = false

-- What `list_transfer_on_match` makes of a list of branches: the branches of the trees, the others,
-- and whether the last one was a tree.
pub record Transferred (A : Type 0) : Type 0 where
  pub sub_trees : List (List ℕ)
  pub kept : List ℕ
  pub last_moved : Bool
  pub ctrl : NfaCtrl A

module _ {A : Type 0} (allocator : Allocator A) where
  -- `is_nfa_tree` for a last node: the branches of its tree, whose node is given back.
  unfoldable pub is_nfa_tree : ℕ → ℕ → NfaCtrl A → Option (List ℕ) × NfaCtrl A
  unfolding update
  is_nfa_tree arg arg2 ctrl =
      let parent = (ctrl.nodes arg).parent in
      if arg == 0
      then (none, ctrl)
      else if parent == 0
      then (none, ctrl)
      else if is_tree_type (ctrl.nodes parent).type
      then (let c = update allocator arg (λ n. record n { type = nfa_epsilon; out2 = arg2 }) ctrl in
          (
            some (c.nodes parent).branches,
            record c { alloc = allocator.nfa_dealloc parent c.alloc },
          ))
      else (none, ctrl)

  unfoldable pub transfer_trees : List ℕ → ℕ → NfaCtrl A → Transferred A
  unfolding is_nfa_tree
  transfer_trees [] arg2 ctrl = record {
    sub_trees = [];
    kept = [];
    last_moved = false;
    ctrl = ctrl;
  }
  transfer_trees (b ∷ bs) arg2 ctrl =
      let (tree, c) = is_nfa_tree b arg2 ctrl in
      let r = transfer_trees bs arg2 c in
      let last = length bs == 0 in
      elim tree [
        | some sub ↦ record r {
          sub_trees = sub ∷ r.sub_trees;
          last_moved = if last then true else r.last_moved;
        }
        | none ↦ record r { kept = b ∷ r.kept }
      ]

  -- The loop over the branches: each last node leads to the terminator, and each branch is then
  -- listed by its first node. A null among them is a fault.
  unfoldable pub close_branches : List ℕ → ℕ → NfaCtrl A → Option (List ℕ × NfaCtrl A)
  unfolding update
  close_branches [] terminator ctrl = some ([], ctrl)
  close_branches (b ∷ bs) terminator ctrl =
      let c = update allocator b (λ n. record n { type = nfa_epsilon; out2 = terminator }) ctrl in
      let rest = close_branches bs terminator c >>= λ r. some ((c.nodes b).parent ∷ r.0, r.1) in
      if b == 0 then none else rest

  unfoldable pub join_lists : List (List ℕ) → List ℕ
  join_lists [] = []
  join_lists (l ∷ ls) = l ++ join_lists ls

  -- The result, what is left of the list of branches, and the control block. Where the last of three
  -- branches or more is a tree, and two others stay, the tail of the list is a freed item, to which
  -- the branches of the tree would be linked.
  unfoldable pub new_alternation_nfa : List ℕ → ℕ → NfaCtrl A → Option (ℕ × List ℕ × NfaCtrl A)
  unfolding new_nfa transfer_trees close_branches join_lists update
  new_alternation_nfa branches_list num_branches ctrl =
      let (start, c1) = new_nfa allocator nfa_tree ctrl in
      let (terminator, c2) = new_nfa allocator nfa_accepting c1 in
      let c3 = update allocator terminator (λ n. record n { parent = terminator }) c2 in
      let r = transfer_trees (take num_branches branches_list) terminator c3 in
      let dangling = r.last_moved && ltb 1 (length r.kept) in
      if ltb num_branches 2
      then (elim branches_list [ [] ↦ some (0, [], ctrl) | b ∷ bs ↦ some (b, bs, ctrl) ])
      else if length branches_list == 0
      then none
      else if dangling
      then none
      else (close_branches r.kept terminator r.ctrl >>= λ closed. some (
        terminator,
        drop num_branches branches_list,
        update allocator terminator (λ n. record n { parent = start })
            (update allocator start
              (λ n. record n { branches = closed.0 ++ join_lists r.sub_trees }) closed.1),
      ))
