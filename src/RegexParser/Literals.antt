-- ===== src/RegexParser/Literals.antt =====
-- Literals, src/regex_parser.c `parse_literal_expression` up to the quantifier.
use regex.Base.{ℕ, zero, suc, ◌+◌, ◌-◌, Bool, true, false, ◌==◌, ltb, take, drop, get_or}
use regex.Flags.{escp_seq_flag, set_flag, clear_flag}
use regex.Scanner.Scan.{to_unsigned}
use regex.Token.{
  SymbolType, alpha, asciidigit, circumflex, dot, dollar, kleene, openbrace, plus, qmark,
}
use regex.Nfa.{NfaType, nfa_any, nfa_literal, nfa_bol_anchor, nfa_eol_anchor}
use regex.Nfa.Build.{Allocator, new_literal_nfa}
use regex.Nfa.Repeat.{new_lliteral_nfa}
use regex.RegexParser.State.{
  P, ◌>>=◌, ◌>>◌, pure, crash, branch_on, get, consume, backtrack, change_flags, build,
}
use regex.RegexParser.Groups.{cur_pos}

-- What the loop over literals does on a token: whether it goes on, and how often it steps back.
unfoldable pub literal_stop : SymbolType → ℕ → ℕ → Bool × ℕ
literal_stop alpha value len = elim (value == 92) [ true ↦ (false, 1) | false ↦ (true, 0) ]
literal_stop asciidigit value len = elim (value == 92) [ true ↦ (false, 1) | false ↦ (true, 0) ]
literal_stop openbrace value len = elim (ltb 2 len) [ true ↦ (false, 2) | false ↦ (false, 1) ]
literal_stop kleene value len = elim (ltb 2 len) [ true ↦ (false, 2) | false ↦ (false, 1) ]
literal_stop qmark value len = elim (ltb 2 len) [ true ↦ (false, 2) | false ↦ (false, 1) ]
literal_stop plus value len = elim (ltb 2 len) [ true ↦ (false, 2) | false ↦ (false, 1) ]
literal_stop _ value len = (false, 1)

module _ {A : Type 0} (allocator : Allocator A) where
  -- The loop over literals: how many there are. `len` counts the token ahead, too.
  unfoldable pub literal_loop : ℕ → ℕ → P A ℕ
  literal_loop zero len = crash
  literal_loop (suc k) len = do
    s ← get
    let (more, back) = literal_stop s.reader.lookahead.type s.reader.lookahead.value len
    let rest = literal_loop k (len + 1)
    branch_on more (consume >> rest)
        (do backtrack; branch_on (back == 2) backtrack (pure tt); pure (len - back))

  -- A token that is a node of its own.
  unfoldable pub parse_single : NfaType → P A ℕ
  parse_single type = do
    s ← get
    nfa ← build (new_literal_nfa allocator s.reader.lookahead.value type)
    consume
    pure nfa

  unfoldable pub parse_literals : ℕ → P A ℕ
  parse_literals k = do
    s ← get
    let src = cur_pos s.reader.scanner
    let bytes = s.reader.scanner.buffer
    change_flags (clear_flag escp_seq_flag)
    consume
    len ← literal_loop k 2
    change_flags (set_flag escp_seq_flag)
    nfa ←
        branch_on (ltb 1 len)
          (build (
            new_lliteral_nfa allocator (get_or bytes src 0)
              (take (len - 1) (drop (src + 1) bytes))))
          (build (new_literal_nfa allocator (to_unsigned (get_or bytes src 0)) nfa_literal))
    consume
    pure nfa

  unfoldable pub literal_by : ℕ → SymbolType → P A ℕ
  literal_by k dot = parse_single nfa_any
  literal_by k dollar = parse_single nfa_eol_anchor
  literal_by k circumflex = parse_single nfa_bol_anchor
  literal_by k _ = parse_literals k
