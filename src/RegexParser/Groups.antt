-- ===== src/RegexParser/Groups.antt =====
-- Capture groups and their parentheses, src/regex_parser.c from `track_capture_group` on.
use regex.Base.{ℕ, zero, suc, ◌+◌, ◌-◌, Bool, true, false, ◌==◌, ltb, length, get_or, set}
use regex.Base.Int.{ℤ, pos}
use regex.CaptureGroups.{cgrp_has_backref}
use regex.Scanner.{Scanner}
use regex.Nfa.{nfa_capturegrp_begin, nfa_capturegrp_end}
use regex.Nfa.Build.{Allocator, update, new_literal_nfa, concatenate_nfa}
use regex.RegexParser.State.{
  CaptureGrpRecord, P, ◌>>=◌, ◌>>◌, pure, reject, branch_on, get, modify, consume, push, pop, build,
  missing_close_paren_error,
}

abbrev pub no_record : CaptureGrpRecord
no_record = record { next_id = 0; end = 0 }

-- `get_cur_pos(parser->scanner)`
abbrev pub cur_pos : Scanner → ℕ
cur_pos s = elim (ltb s.str_begin s.readhead) [ true ↦ s.readhead - 1 | false ↦ s.readhead ]

module _ {A : Type 0} (allocator : Allocator A) where
  unfoldable pub join_top : P A (Unit {0})
  join_top = do
    right ← pop
    left ← pop
    nfa ← build (concatenate_nfa allocator left right)
    push nfa

  -- The node that marks the begin or the end of a group. The literal that it gets is the number of
  -- `NFA_LITERAL`. A record of a group is written in its place, or not at all.
  unfoldable pub mark_group : Bool → P A (Unit {0})
  mark_group begins = do
    right ← build (
        new_literal_nfa allocator 2
          (elim begins [ true ↦ nfa_capturegrp_begin | false ↦ nfa_capturegrp_end ]))
    left ← pop
    s ← get
    let first = (s.nfa_ctrl.nodes right).parent
    let i = s.current_cgrp - 1
    modify (λ r. record r {
      capgrp_record = elim begins [
        | true ↦
            set r.capgrp_record i (record (get_or r.capgrp_record i no_record) {
              next_id = (s.nfa_ctrl.nodes first).id;
            })
        | false ↦ r.capgrp_record
      ];
      nfa_ctrl =
          update allocator first
            (λ n. record n { id = get_or r.paren_stack (r.paren_idx - 1) 0 - 1 }) r.nfa_ctrl;
    })
    nfa ← build (concatenate_nfa allocator left right)
    push nfa

  unfoldable pub track_capture_group : Bool → P A Bool
  track_capture_group begins = do
    s ← get
    let tracked = cgrp_has_backref s.cgrp_map s.current_cgrp
    branch_on tracked (mark_group begins) (pure tt)
    branch_on begins (pure tt) (
        modify (λ r.
          let i = r.current_cgrp - 1 in
          record r {
            capgrp_record = elim tracked [
              | true ↦
                  set r.capgrp_record i
                    (record (get_or r.capgrp_record i no_record) { end = cur_pos r.reader.scanner })
              | false ↦ r.capgrp_record
            ];
            current_cgrp = r.current_cgrp - 1;
          }))
    pure tracked

  -- As many joins as the group has left on the stack.
  unfoldable pub join_times : ℕ → ℕ → P A ℕ
  join_times zero right = pure right
  join_times (suc n) right = do
    left ← pop
    nfa ← build (concatenate_nfa allocator left right)
    join_times n nfa

  -- The count of branches that is restored at the end of the group.
  unfoldable pub update_open_paren_accounting : P A ℤ
  update_open_paren_accounting = do
    modify (λ r. record r {
      in_new_cgrp = true;
      paren_count = r.paren_count + 1;
      cgrp_count = r.cgrp_count + 1;
      current_cgrp = r.cgrp_count + 1;
      paren_stack = set r.paren_stack r.paren_idx (r.cgrp_count + 1);
      paren_idx = r.paren_idx + 1;
    })
    _ ← track_capture_group true
    s ← get
    modify (λ r. record r { subtree_branch_count = pos 0 })
    pure s.subtree_branch_count

  unfoldable pub update_close_paren_accounting : ℤ → P A (Unit {0})
  update_close_paren_accounting subtree_br_cnt =
      modify (λ r. record r { subtree_branch_count = subtree_br_cnt; paren_idx = r.paren_idx - 1 })

  unfoldable pub close_group : ℤ → Bool → ℕ → P A (Unit {0})
  close_group subtree_branch_count in_new_cgrp preceding_stack_size = do
    s ← get
    branch_on (s.paren_count == 0) (reject missing_close_paren_error) (pure tt)
    has_backref ← track_capture_group false
    modify (λ r. record r { paren_count = r.paren_count - 1 })
    consume
    update_close_paren_accounting subtree_branch_count
    modify (λ r. record r { in_new_cgrp = in_new_cgrp })
    right ← pop
    s1 ← get
    joined ← join_times (length s1.symbol_stack - preceding_stack_size) right
    nfa ←
        branch_on has_backref (do left ← pop; build (concatenate_nfa allocator left joined))
          (pure joined)
    push nfa
