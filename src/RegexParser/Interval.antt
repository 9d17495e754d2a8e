-- ===== src/RegexParser/Interval.antt =====
-- Interval expressions, src/regex_parser.c `parse_interval_expression` and `merge_intervals`. The
-- number is the fuel of each loop; integers do not overflow.
use regex.Base.{ℕ, zero, suc, ◌+◌, Bool, true, false, not, ◌&&◌, ◌||◌, none, some, ◌==◌, length}
use regex.Base.Int.{ℤ, pos, negsuc, dec, times, plus, int_less, int_same}
use regex.Token.{SymbolType, closebrace, openbrace}
use regex.Nfa.{nfa_accepting}
use regex.Nfa.Build.{
  Allocator, update, new_nfa, tighten, new_kleene_nfa, new_posclosure_nfa, new_qmark_nfa,
  concatenate_nfa,
}
use regex.Nfa.Repeat.{new_interval_nfa}
use regex.RegexParser.{discard_whitespace, convert_to_uint}
use regex.RegexParser.State.{
  P, ◌>>=◌, ◌>>◌, pure, reject, crash, branch_on, get, modify, consume, push, pop, need, build,
  build_or_fault, scan, invalid_interval_expression_error, missing_close_brace_error,
}

abbrev pub is_openbrace : SymbolType → Bool
is_openbrace openbrace = true
is_openbrace _ = false

abbrev pub is_closebrace : SymbolType → Bool
is_closebrace closebrace = true
is_closebrace _ = false

-- `(bound == -1) ? local : (local >= 0) ? bound * local : bound`
unfoldable pub combine : ℤ → ℤ → ℤ
combine bound local = elim (int_same bound (negsuc 0)) [
  | true ↦ local
  | false ↦ elim local [ pos k ↦ times bound k | negsuc n ↦ bound ]
]

-- `(a == 0 || b == 0) ? a + b : a * b`, for a `b` that is not negative
unfoldable pub merge_bound : ℤ → ℕ → ℤ
merge_bound a b = elim (b == 0 || int_same a (pos 0)) [ true ↦ plus a b | false ↦ times a b ]

-- A number that is not negative.
unfoldable pub at_least_zero : ℤ → ℕ
at_least_zero (pos n) = n
at_least_zero (negsuc n) = 0

module _ {A : Type 0} where
  unfoldable pub skip_whitespace : ℕ → P A (Unit {0})
  skip_whitespace k =
      scan (λ p. elim (discard_whitespace k p) [ none ↦ none | some q ↦ some (tt, q) ])

  -- The bounds of one pair of braces, from its opening brace on; the closing brace is looked for
  -- afterwards.
  unfoldable pub read_bounds : ℕ → P A (ℤ × ℤ)
  read_bounds k = do
    consume
    skip_whitespace k
    local_min ← scan (convert_to_uint k (negsuc 0))
    skip_whitespace k
    s ← get
    local_max ←
        branch_on (s.reader.lookahead.value == b',')
          (do
            consume
            skip_whitespace k
            n ← scan (convert_to_uint k (negsuc 0))
            skip_whitespace k
            pure n)
          (pure (negsuc 0))
    pure (local_min, local_max)

  -- `braces_balance` after a round
  unfoldable pub close_brace : P A Bool
  close_brace = do
    s ← get
    branch_on (is_closebrace s.reader.lookahead.type) (do consume; pure true) (pure false)

  -- The loop over pairs of braces: the bounds, and whether the last pair is closed.
  unfoldable pub braces_loop : ℕ → ℕ → ℤ → ℤ → P A (ℤ × ℤ × Bool)
  braces_loop zero k min max = crash
  braces_loop (suc n) k min max = do
    (local_min, local_max) ← read_bounds k
    balanced ← close_brace
    s ← get
    let min' = combine min local_min
    let max' = combine max local_max
    let again = not (int_same min' (negsuc 0)) && balanced && is_openbrace s.reader.lookahead.type
    let rest = braces_loop n k min' max'
    branch_on again rest (pure (min', max', balanced))

module _ {A : Type 0} (allocator : Allocator A) where
  -- The interval made last takes the new bounds if it is the one that the target begins with.
  unfoldable pub merge_intervals : ℕ → ℕ → ℕ → ℕ → P A Bool
  merge_intervals k min max target = do
    need target
    tmp ← build_or_fault (λ c. elim (tighten allocator k (c.nodes target).parent c) [
      | none ↦ none
      | some t ↦ some (t, c)
    ])
    s ← get
    branch_on (s.prev_interval_head == tmp)
        (do
          need s.prev_interval
          need (s.nfa_ctrl.nodes s.prev_interval).out2
          branch_on ((s.nfa_ctrl.nodes (s.nfa_ctrl.nodes s.prev_interval).out2).out2 == 0)
              (do
                modify (λ r. record r {
                  nfa_ctrl =
                      update allocator r.prev_interval
                        (λ n. record n {
                          min_rep = at_least_zero (merge_bound (pos n.min_rep) min);
                          max_rep = merge_bound n.max_rep max;
                        })
                        r.nfa_ctrl;
                })
                push target
                pure true)
              (pure false))
        (pure false)

  -- `new_interval_nfa`, with what it writes to the parser.
  unfoldable pub add_interval : ℕ → ℕ → ℕ → ℤ → P A ℕ
  add_interval k target min max = do
    need target
    nodes ← build_or_fault (new_interval_nfa allocator k target min max)
    modify (λ r. record r {
      prev_interval_head = nodes.t_reachable;
      prev_interval = nodes.ret_interval;
      interval_count = r.interval_count + 1;
    })
    pure nodes.accept

  -- With a maximum above zero.
  unfoldable pub bounded_interval : ℕ → ℕ → ℤ → ℤ → P A (Unit {0})
  bounded_interval k target min max =
      branch_on (int_less max min) (reject invalid_interval_expression_error) (
        branch_on (int_same min (pos 0) && int_same max (pos 1))
          (do
            need target
            nfa ← build (new_qmark_nfa allocator target)
            push nfa
            modify (λ r. record r { interval_count = r.interval_count + 1 }))
          (branch_on (int_same min (pos 1) && int_same max (pos 1)) (push target) (do
            merged ← merge_intervals k (at_least_zero min) (at_least_zero max) target
            branch_on merged (pure tt)
                (do nfa ← add_interval k target (at_least_zero min) max; push nfa))))

  -- The target is given up.
  unfoldable pub drop_target : ℕ → P A (Unit {0})
  drop_target target = do
    modify (λ r. record r {
      nfa_ctrl = elim (target == 0) [
        | true ↦ r.nfa_ctrl
        | false ↦ record r.nfa_ctrl { alloc = allocator.nfa_dealloc target r.nfa_ctrl.alloc }
      ];
      subtree_branch_count = elim (r.in_alternation == 0) [
        | true ↦ r.subtree_branch_count
        | false ↦ dec r.subtree_branch_count
      ];
    })
    s ← get
    branch_on (length s.symbol_stack == 0 && (s.in_alternation == 0))
        (do
          accept ← build (λ c.
              let (p, c') = new_nfa allocator nfa_accepting c in
              (p, update allocator p (λ n. record n { parent = p }) c'))
          push accept)
        (pure tt)

  -- Without a maximum, or with zero.
  unfoldable pub open_interval : ℕ → ℕ → ℤ → ℤ → P A (Unit {0})
  open_interval k target min max =
      let unset = int_same max (negsuc 0) in
      branch_on (int_same min (pos 1) && unset)
        (do need target; nfa ← build_or_fault (new_posclosure_nfa allocator k target); push nfa)
        (branch_on (int_less (pos 0) min && unset)
          (do
            nfa ← add_interval k target (at_least_zero min) max
            left ← pop
            both ← build (concatenate_nfa allocator left nfa)
            push both)
          (branch_on (int_same min (negsuc 0) && unset)
            (do need target; nfa ← build_or_fault (new_kleene_nfa allocator k target); push nfa)
            (drop_target target)))

  unfoldable pub parse_interval_expression : ℕ → P A (Unit {0})
  parse_interval_expression k = do
    target ← pop
    (min, max, balanced) ← braces_loop k k (negsuc 0) (negsuc 0)
    branch_on balanced
        (branch_on (int_less (pos 0) max) (bounded_interval k target min max)
          (open_interval k target min max))
        (reject missing_close_brace_error)
