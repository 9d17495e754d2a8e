-- ===== src/RegexParser/Grammar.antt =====
-- The functions of the grammar, src/regex_parser.c from
-- `parse_quantifier_expression` to `regex_parser_start`. They call one another: each takes the calls as an argument, and `parse` ties
-- them together, with a fuel for the depth of the calls.
use regex.Base.{
  ℕ, zero, suc, ◌-◌, Option, some, Bool, true, false, ◌&&◌, ◌||◌, List, [], ◌∷◌, ◌==◌, leb, ltb,
  length, get_or,
}
use regex.CaptureGroups.{cgrp_max}
use regex.Token.{
  SymbolType, alpha, asciidigit, backreference, circumflex, closebrace, closebracket, closeparen,
  colon, dot, dollar, hyphen, kleene, openbrace, openbracket, openparen, pipe, plus, qmark,
}
use regex.Nfa.Build.{
  Allocator, NfaCtrl, new_backreference_nfa, new_kleene_nfa, new_qmark_nfa, new_posclosure_nfa,
}
use regex.RegexParser.State.{
  done, P, ◌>>=◌, ◌>>◌, pure, reject, crash, branch_on, get, consume, push, pop, need, build,
  build_or_fault, missing_open_brace_error, missing_open_bracket_error, missing_open_paren_error,
  missing_close_paren_error, invalid_backref_error, invalid_parse_start_error,
}
use regex.RegexParser.Interval.{parse_interval_expression}
use regex.RegexParser.Bracket.{parse_bracket}
use regex.RegexParser.Groups.{no_record, join_top, update_open_paren_accounting, close_group}
use regex.RegexParser.Literals.{literal_by}
use regex.RegexParser.Alternation.{Goal, quantifier, sub_expression, start, parse_alternation}

-- The tokens that `regex_parser_start` accepts.
abbrev pub starts : SymbolType → Bool
starts alpha = true
starts asciidigit = true
starts backreference = true
starts circumflex = true
starts dollar = true
starts dot = true
starts openbracket = true
starts openparen = true
starts _ = false

abbrev pub is_closeparen : SymbolType → Bool
is_closeparen closeparen = true
is_closeparen _ = false

-- `list_get_tail`
abbrev pub last_of : List ℕ → ℕ
last_of [] = 0
last_of (p ∷ []) = p
last_of (p ∷ q ∷ qs) = last_of (q ∷ qs)

module _ {A : Type 0} (allocator : Allocator A) where
  -- A construction on the top of the stack, for `+`, `*` and `?`.
  unfoldable pub quantify : (ℕ → NfaCtrl A → Option (ℕ × NfaCtrl A)) → P A (Unit {0})
  quantify f = do consume; body ← pop; need body; nfa ← build_or_fault (f body); push nfa

  unfoldable pub quantify_by : ℕ → (Goal → P A (Unit {0})) → SymbolType → P A (Unit {0})
  quantify_by k call plus = quantify (new_posclosure_nfa allocator k) >> call quantifier
  quantify_by k call kleene = quantify (new_kleene_nfa allocator k) >> call quantifier
  quantify_by k call qmark = quantify (λ b c. some (new_qmark_nfa allocator b c)) >> call quantifier
  quantify_by k call openbrace = parse_interval_expression allocator k >> call quantifier
  quantify_by k call pipe = parse_alternation allocator k call
  quantify_by k call _ = pure tt

  unfoldable pub parse_quantifier_expression : ℕ → (Goal → P A (Unit {0})) → P A (Unit {0})
  parse_quantifier_expression k call = do s ← get; quantify_by k call s.reader.lookahead.type

  unfoldable pub parse_literal_expression : ℕ → (Goal → P A (Unit {0})) → P A (Unit {0})
  parse_literal_expression k call = do
    s ← get
    nfa ← literal_by allocator k s.reader.lookahead.type
    push nfa
    call quantifier

  unfoldable pub parse_bracket_expression : ℕ → (Goal → P A (Unit {0})) → P A (Unit {0})
  parse_bracket_expression k call = parse_bracket allocator k >> call quantifier

  -- A hyphen counts as a literal.
  unfoldable pub as_alpha : P A (Unit {0})
  as_alpha s =
      let r = s.reader in
      done (tt, record s { reader = record r { lookahead = record r.lookahead { type = alpha } } })

  unfoldable pub parse_paren_expression : (Goal → P A (Unit {0})) → P A (Unit {0})
  parse_paren_expression call = do
    subtree_branch_count ← update_open_paren_accounting allocator
    s ← get
    consume
    push 0
    call start
    s1 ← get
    branch_on (is_closeparen s1.reader.lookahead.type)
        (do
          close_group allocator subtree_branch_count s.in_new_cgrp (length s.symbol_stack)
          call quantifier)
        (reject missing_close_paren_error)

  -- `val`, the number of a group, and the node at the tail of the stack of branches.
  unfoldable pub validate_backref : P A (Unit {0})
  validate_backref = do
    s ← get
    let val = s.reader.lookahead.value
    let group = get_or s.capgrp_record (val - 1) no_record
    let tail = last_of s.branch_stack
    branch_on (val == 0 || ltb cgrp_max val || (group.end == 0)) (reject invalid_backref_error) (
        branch_on (s.in_alternation == 0) (pure tt) (do
          need tail
          let lowest = (s.nfa_ctrl.nodes (s.nfa_ctrl.nodes tail).parent).id
          branch_on (leb lowest group.next_id && ltb group.next_id s.lowest_id_on_branch)
              (reject invalid_backref_error) (pure tt)))

  unfoldable pub parse_backreference : (Goal → P A (Unit {0})) → P A (Unit {0})
  parse_backreference call = do
    validate_backref
    s ← get
    left ← build (new_backreference_nfa allocator (s.reader.lookahead.value - 1))
    push left
    consume
    call quantifier

  -- What follows is parsed and joined to it.
  unfoldable pub followed : (Goal → P A (Unit {0})) → P A (Unit {0}) → P A (Unit {0})
  followed call first = do first; call sub_expression; join_top allocator

  unfoldable pub sub_expression_by : ℕ → (Goal → P A (Unit {0})) → SymbolType → P A (Unit {0})
  sub_expression_by k call dot = followed call (parse_literal_expression k call)
  sub_expression_by k call colon = followed call (parse_literal_expression k call)
  sub_expression_by k call alpha = followed call (parse_literal_expression k call)
  sub_expression_by k call dollar = followed call (parse_literal_expression k call)
  sub_expression_by k call circumflex = followed call (parse_literal_expression k call)
  sub_expression_by k call asciidigit = followed call (parse_literal_expression k call)
  sub_expression_by k call openparen = parse_paren_expression call >> call sub_expression
  sub_expression_by k call openbracket = followed call (parse_bracket_expression k call)
  sub_expression_by k call backreference = followed call (parse_backreference call)
  sub_expression_by k call closebrace = reject missing_open_brace_error
  sub_expression_by k call closebracket = reject missing_open_bracket_error
  sub_expression_by k call hyphen = as_alpha >> followed call (parse_literal_expression k call)
  sub_expression_by k call closeparen = do
    s ← get
    branch_on (s.paren_count == 0) (reject missing_open_paren_error) (pure tt)
  sub_expression_by k call _ = pure tt

  unfoldable pub parse_sub_expression : ℕ → (Goal → P A (Unit {0})) → P A (Unit {0})
  parse_sub_expression k call = do s ← get; sub_expression_by k call s.reader.lookahead.type

  unfoldable pub regex_parser_start : (Goal → P A (Unit {0})) → P A (Unit {0})
  regex_parser_start call = do
    s ← get
    branch_on (starts s.reader.lookahead.type) (call sub_expression)
        (reject invalid_parse_start_error)

  -- `k` is the fuel of each loop, `n` that of the calls.
  unfoldable pub parse : ℕ → ℕ → Goal → P A (Unit {0})
  parse k zero goal = crash
  parse k (suc n) quantifier = parse_quantifier_expression k (parse k n)
  parse k (suc n) sub_expression = parse_sub_expression k (parse k n)
  parse k (suc n) start = regex_parser_start (parse k n)
