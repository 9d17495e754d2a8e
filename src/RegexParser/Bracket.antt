-- ===== src/RegexParser/Bracket.antt =====
-- Bracket expressions, src/regex_parser.c `parse_matching_list` and `parse_bracket_expression`. The
-- array of `token_in_charclass` is only ever reset here, and is left out.
use regex.Base.{
  ℕ, zero, suc, ◌+◌, ◌-◌, Bool, true, false, not, ◌&&◌, ◌||◌, ◌==◌, leb, ltb, take, drop,
}
use regex.Flags.{escp_seq_flag, set_flag, clear_flag}
use regex.CharRange.{update_range_nfa, update_range_w_collation}
use regex.Token.{SymbolType, circumflex, closebracket, openbracket, colon, dot, equal, hyphen, eof}
use regex.Nfa.{nfa_literal}
use regex.Nfa.Build.{Allocator, update, new_literal_nfa, new_range_nfa}
use regex.RegexParser.State.{
  P, ◌>>=◌, ◌>>◌, pure, reject, crash, branch_on, get, modify, consume, backtrack, change_flags,
  push, pop, build, invalid_range_expression_error, malformed_collation_expression_error,
  unknown_charclass_error, missing_close_bracket_error, bracket_expression_error,
}

-- A delimiter of a collation expression.
abbrev pub is_delimiter : SymbolType → Bool
is_delimiter dot = true
is_delimiter colon = true
is_delimiter equal = true
is_delimiter _ = false

-- The token's type is the delimiter.
abbrev pub is_delim : SymbolType → SymbolType → Bool
is_delim dot dot = true
is_delim colon colon = true
is_delim equal equal = true
is_delim _ _ = false

abbrev pub is_eof : SymbolType → Bool
is_eof eof = true
is_eof _ = false

abbrev pub is_closebracket : SymbolType → Bool
is_closebracket closebracket = true
is_closebracket _ = false

abbrev pub is_openbracket : SymbolType → Bool
is_openbracket openbracket = true
is_openbracket _ = false

abbrev pub is_hyphen : SymbolType → Bool
is_hyphen hyphen = true
is_hyphen _ = false

abbrev pub is_colon : SymbolType → Bool
is_colon colon = true
is_colon _ = false

abbrev pub is_circumflex : SymbolType → Bool
is_circumflex circumflex = true
is_circumflex _ = false

abbrev pub within : ℕ → ℕ → ℕ → Bool
within low high c = leb low c && leb c high

module _ {A : Type 0} (allocator : Allocator A) where
  unfoldable pub add_range : ℕ → Bool → ℕ → ℕ → P A (Unit {0})
  add_range range_nfa negate low high = modify (λ s. record s {
    nfa_ctrl =
        update allocator range_nfa
          (λ n. record n { range = update_range_nfa low high n.range negate }) s.nfa_ctrl;
  })

  -- `while(lookahead.type != __EOF)` up to a `]` behind the delimiter; the type of the token before
  -- the last one.
  unfoldable pub find_delim : ℕ → SymbolType → SymbolType → P A SymbolType
  find_delim zero delim prev = crash
  find_delim (suc k) delim prev = do
    s ← get
    let type = s.reader.lookahead.type
    let ended = is_eof type || (is_closebracket type && is_delim prev delim)
    let rest = find_delim k delim type
    branch_on ended (pure prev) (consume >> rest)

  -- `update_range_w_collation` with the name between the delimiters.
  unfoldable pub add_class : ℕ → Bool → ℕ → ℕ → P A (Unit {0})
  add_class range_nfa negate start len = do
    s ← get
    let name = take len (drop start s.reader.scanner.buffer)
    let (known, range) = update_range_w_collation name len (s.nfa_ctrl.nodes range_nfa).range negate
    branch_on known
        (modify (λ r. record r {
          nfa_ctrl = update allocator range_nfa (λ n. record n { range = range }) r.nfa_ctrl;
        }))
        (reject unknown_charclass_error)

  -- Behind `[` and a delimiter: whether the list goes on. A name with no characters ends it.
  unfoldable pub parse_collation : ℕ → ℕ → Bool → P A Bool
  parse_collation k range_nfa negate = do
    s ← get
    let delim = s.reader.lookahead.type
    consume
    s1 ← get
    (start, prev) ←
        branch_on (is_closebracket s1.reader.lookahead.type)
          (do
            literal ← build (new_literal_nfa allocator s1.reader.lookahead.value nfa_literal)
            push literal
            consume
            pure (s1.reader.scanner.readhead, s1.reader.lookahead.type))
          (pure (s.reader.scanner.readhead, delim))
    last ← find_delim k delim prev
    s2 ← get
    branch_on (not (is_closebracket s2.reader.lookahead.type) && not (is_delim last delim))
        (reject malformed_collation_expression_error)
        (branch_on (leb s2.reader.scanner.readhead (start + 2)) (pure false) (do
          branch_on (is_colon delim)
              (add_class range_nfa negate start (s2.reader.scanner.readhead - start - 2)) (pure tt)
          consume
          pure true))

  -- A range with a hyphen, from the character `low` to the token behind the hyphen.
  unfoldable pub parse_range : ℕ → Bool → ℕ → P A (Unit {0})
  parse_range range_nfa negate low = do
    consume
    s ← get
    let high = s.reader.lookahead.value
    branch_on (within b'a' b'z' low)
        (branch_on (within b'a' b'z' high)
          (branch_on (ltb high low) (reject invalid_range_expression_error)
            (add_range range_nfa negate low high))
          (branch_on (within b'A' b'Z' high)
            (do add_range range_nfa negate low b'z'; add_range range_nfa negate b'A' high)
            (reject invalid_range_expression_error)))
        (branch_on (leb low high)
          (branch_on (within b'A' b'Z' low)
            (branch_on (within b'A' b'Z' high) (add_range range_nfa negate low high)
              (reject invalid_range_expression_error))
            (add_range range_nfa negate low high))
          (reject invalid_range_expression_error))
    consume

  -- `len` is `matching_list_len`, the depth of the calls, and the number is their fuel.
  unfoldable pub parse_matching_list : ℕ → ℕ → ℕ → Bool → P A (Unit {0})
  parse_matching_list zero len range_nfa negate = crash
  parse_matching_list (suc k) len range_nfa negate = do
    s ← get
    let prev = s.reader.lookahead
    consume
    s1 ← get
    let type = s1.reader.lookahead.type
    let rest = parse_matching_list k (len + 1) range_nfa negate
    branch_on (is_eof prev.type) (pure tt) (
        branch_on (is_openbracket prev.type && is_delimiter type)
          (do more ← parse_collation k range_nfa negate; branch_on more rest (pure tt))
          (branch_on (is_closebracket prev.type && ltb 0 len) backtrack (
            branch_on (is_eof type) (pure tt) (
              branch_on (is_hyphen type) (parse_range range_nfa negate prev.value)
                (add_range range_nfa negate prev.value prev.value)
              >> rest))))

  -- Up to the quantifier.
  unfoldable pub parse_bracket : ℕ → P A (Unit {0})
  parse_bracket k = do
    push 0
    change_flags (clear_flag escp_seq_flag)
    consume
    s ← get
    let negate = is_circumflex s.reader.lookahead.type
    branch_on negate consume (pure tt)
    range_nfa ← build (new_range_nfa allocator negate)
    push range_nfa
    s1 ← get
    parse_matching_list k 0 (s1.nfa_ctrl.nodes range_nfa).parent negate
    s2 ← get
    branch_on (is_closebracket s2.reader.lookahead.type)
        (do
          change_flags (set_flag escp_seq_flag)
          consume
          right ← pop
          left ← pop
          branch_on (left == 0) (push right) (reject bracket_expression_error))
        (reject missing_close_bracket_error)
