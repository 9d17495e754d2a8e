-- ===== src/RegexParser/State.antt =====
-- The state of the parser of src/regex_parser.c, and the steps that the functions of the grammar
-- share. `reader` has the fields that scanning uses; a stack is the list of its data, the top first;
-- a node is an address, 0 the null pointer. The names of the program and the file, the keyword
-- patterns and the number of the ids are left out.
use regex.Base.{ℕ, Bool, true, false, Option, none, some, List, [], ◌∷◌, ◌==◌}
use regex.Base.Int.{ℤ}
use regex.Nfa.Build.{NfaCtrl}
use regex.RegexParser.{Parser, parser_consume_token, parser_backtrack}

-- What `parser_fatal` and `fatal` are called with; they end the program.
pub data ParseError : Type 0 where
  invalid_range_expression_error invalid_interval_expression_error : ParseError
  malformed_collation_expression_error unknown_charclass_error : ParseError
  missing_open_brace_error missing_open_bracket_error missing_open_paren_error : ParseError
  missing_close_paren_error missing_close_bracket_error missing_close_brace_error : ParseError
  invalid_backref_error invalid_parse_start_error bracket_expression_error : ParseError

-- `fault` is a read through null, or a loop or a depth of calls that used up its fuel.
pub data Parsed (B : Type 0) : Type 0 where
  done : B → Parsed B
  fatal : ParseError → Parsed B
  fault : Parsed B

pub record CaptureGrpRecord : Type 0 where
  pub next_id : ℕ
  pub end : ℕ

pub record ParserState (A : Type 0) : Type 0 where
  pub reader : Parser
  pub symbol_stack : List ℕ
  pub branch_stack : List ℕ
  pub nfa_ctrl : NfaCtrl A
  pub paren_stack : List ℕ
  pub prev_interval : ℕ
  pub prev_interval_head : ℕ
  pub paren_count : ℕ
  pub subtree_branch_count : ℤ
  pub cgrp_count : ℕ
  pub current_cgrp : ℕ
  pub in_new_cgrp : Bool
  pub paren_idx : ℕ
  pub in_alternation : ℕ
  pub tree_count : ℕ
  pub branch : ℕ
  pub lowest_id_on_branch : ℕ
  pub interval_count : ℕ
  pub capgrp_record : List CaptureGrpRecord
  pub cgrp_map : List ℕ

unfoldable pub top_of : List ℕ → ℕ
top_of [] = 0
top_of (p ∷ ps) = p

unfoldable pub rest_of : List ℕ → List ℕ
rest_of [] = []
rest_of (p ∷ ps) = ps

-- A step of the parser.
abbrev pub P : Type 0 → Type 0 → Type 0
P A B = ParserState A → Parsed (B × ParserState A)

module _ {A B : Type 0} where
  unfoldable pub pure : B → P A B
  pure b s = done (b, s)

  unfoldable pub reject : ParseError → P A B
  reject e s = fatal e

  unfoldable pub crash : P A B
  crash s = fault

  -- `if(b) p else q`
  unfoldable pub branch_on : Bool → P A B → P A B → P A B
  branch_on true p q = p
  branch_on false p q = q

module _ {A B C : Type 0} where
  infixl 5 ◌>>=◌
  unfoldable pub ◌>>=◌ : P A B → (B → P A C) → P A C
  ◌>>=◌ p f s = elim (p s) [ done (b, s') ↦ f b s' | fatal e ↦ fatal e | fault ↦ fault ]

module _ {A B : Type 0} where
  infixl 5 ◌>>◌
  unfoldable pub ◌>>◌ : P A (Unit {0}) → P A B → P A B
  p >> q = p >>= λ _. q

module _ {A : Type 0} where
  unfoldable pub get : P A (ParserState A)
  get s = done (s, s)

  -- A change of the fields other than `reader`.
  unfoldable pub modify : (ParserState A → ParserState A) → P A (Unit {0})
  modify f s = done (tt, record (f s) { reader = s.reader })

  unfoldable pub consume : P A (Unit {0})
  consume s = done (tt, record s { reader = parser_consume_token s.reader })

  unfoldable pub backtrack : P A (Unit {0})
  backtrack s = done (tt, record s { reader = parser_backtrack s.reader })

  -- `CLEAR_ESCP_FLAG` and `SET_ESCP_FLAG`, on the word that the scanner shares.
  unfoldable pub change_flags : (ℕ → ℕ) → P A (Unit {0})
  change_flags f s =
      let scanner = s.reader.scanner in
      done (
        tt,
        record s {
          reader = record s.reader {
            scanner = record scanner { ctrl_flags = f scanner.ctrl_flags };
          };
        },
      )

  unfoldable pub push : ℕ → P A (Unit {0})
  push p = modify (λ s. record s { symbol_stack = p ∷ s.symbol_stack })

  -- The pop of an empty stack gives null.
  unfoldable pub pop : P A ℕ
  pop = do
    s ← get
    modify (λ r. record r { symbol_stack = rest_of r.symbol_stack })
    pure (top_of s.symbol_stack)

  -- A read through the node, which faults on null.
  unfoldable pub need : ℕ → P A (Unit {0})
  need p = branch_on (p == 0) crash (pure tt)

module _ {A B : Type 0} where
  -- A construction of src/nfa.c.
  unfoldable pub build : (NfaCtrl A → B × NfaCtrl A) → P A B
  build f s = let (b, c) = f s.nfa_ctrl in done (b, record s { nfa_ctrl = c })

  unfoldable pub build_or_fault : (NfaCtrl A → Option (B × NfaCtrl A)) → P A B
  build_or_fault f s = elim (f s.nfa_ctrl) [
    | none ↦ fault
    | some (b, c) ↦ done (b, record s { nfa_ctrl = c })
  ]

  -- A loop that reads tokens, with fuel.
  unfoldable pub scan : (Parser → Option (B × Parser)) → P A B
  scan f s = elim (f s.reader) [ none ↦ fault | some (b, r) ↦ done (b, record s { reader = r }) ]
