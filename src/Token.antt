-- ===== src/Token.antt =====
-- Tokens of the regular expression, src/token.h and src/token.c.
use regex.Base.{ℕ}

pub data SymbolType : Type 0 where
  alpha asciidigit backreference circumflex closebrace closebracket closeparen colon dot dollar :
      SymbolType
  equal hyphen kleene newline openbrace openbracket openparen pipe plus qmark : SymbolType
  word_boundary not_word_boundary at_word_begin at_word_end : SymbolType
  word_constituent not_word_constituent whitespace not_whitespace : SymbolType
  eof : SymbolType

-- `length` is declared and never written.
pub record Token : Type 0 where
  pub value : ℕ
  pub type : SymbolType
  pub length : ℕ

-- `new_token`: memory from `calloc`, so the first symbol type.
abbrev pub new_token : Token
new_token = record { value = 0; type = alpha; length = 0 }

unfoldable pub update_token : Token → ℕ → SymbolType → Token
update_token t c type = record t { value = c; type = type }
