-- ===== src/RegexParser/Ready/Grammars.antt =====
-- The functions of the grammar of src/regex_parser.c keep the scanner ready.
use regex.Base.{ℕ, zero, suc, Bool, Option}
use regex.Base.Int.{ℤ}
use regex.Token.{SymbolType}
use regex.Scanner.Bounds.{}
use regex.Nfa.{NfaType, nfa_any, nfa_eol_anchor, nfa_bol_anchor}
use regex.Nfa.Build.{Allocator, NfaCtrl}
use regex.RegexParser.State.{P}
use regex.RegexParser.Ready.{
  Keeps, keeps, then-Keeps, bind-Keeps, get-Keeps, branch_on-Keeps, pure-Keeps, pop-Keeps,
  push-Keeps, build-Keeps,
}
use regex.RegexParser.Ready.Reading.{parse_interval-Keeps, parse_bracket-Keeps}
use regex.RegexParser.Groups.{
  join_top, mark_group, track_capture_group, join_times, update_open_paren_accounting,
  update_close_paren_accounting, close_group,
}
use regex.RegexParser.Literals.{literal_loop, parse_literals, parse_single, literal_by}
use regex.RegexParser.Alternation.{
  Goal, quantifier, sub_expression, start, join_all, join_down, add_alternation, parse_alternation,
}
use regex.RegexParser.Grammar.{
  quantify, quantify_by, parse_quantifier_expression, parse_literal_expression,
  parse_bracket_expression, as_alpha, parse_paren_expression, validate_backref, parse_backreference,
  followed, sub_expression_by, parse_sub_expression, regex_parser_start, parse,
}

module _ {A : Type 0} (allocator : Allocator A) where
  join_top-Keeps : Keeps (join_top allocator)
  unfolding join_top
  join_top-Keeps = search keeps depth 40 fits 6000

  mark_group-Keeps : (begins : Bool) → Keeps (mark_group allocator begins)
  unfolding mark_group
  mark_group-Keeps begins = search keeps depth 40 fits 6000

  track-Keeps : (begins : Bool) → Keeps (track_capture_group allocator begins)
  unfolding track_capture_group
  track-Keeps begins = search (keeps, mark_group-Keeps) depth 40 fits 6000

  pub join_times-Keeps : (n right : ℕ) → Keeps (join_times allocator n right)
  unfolding join_times
  join_times-Keeps zero right = search keeps depth 40 fits 6000
  join_times-Keeps (suc n) right = search (keeps, join_times-Keeps n) depth 40 fits 6000

  open_paren-Keeps : Keeps (update_open_paren_accounting allocator)
  unfolding update_open_paren_accounting
  open_paren-Keeps = search (keeps, track-Keeps) depth 40 fits 6000

  close_paren-Keeps : (n : ℤ) → Keeps (update_close_paren_accounting allocator n)
  unfolding update_close_paren_accounting
  close_paren-Keeps n = search keeps depth 40 fits 6000

  close_group-Keeps : (n : ℤ) (b : Bool) (size : ℕ) → Keeps (close_group allocator n b size)
  unfolding close_group
  close_group-Keeps n b size =
      search (keeps, track-Keeps, close_paren-Keeps, join_times-Keeps) depth 40 fits 6000

  literal_loop-Keeps : (k len : ℕ) → Keeps (literal_loop allocator k len)
  unfolding literal_loop
  literal_loop-Keeps zero len = search keeps depth 40 fits 6000
  literal_loop-Keeps (suc k) len = search (keeps, literal_loop-Keeps k) depth 40 fits 6000

  parse_literals-Keeps : (k : ℕ) → Keeps (parse_literals allocator k)
  unfolding parse_literals
  parse_literals-Keeps k = search (keeps, literal_loop-Keeps) depth 40 fits 6000

  parse_single-Keeps : (type : NfaType) → Keeps (parse_single allocator type)
  unfolding parse_single
  parse_single-Keeps type = search keeps depth 40 fits 6000

  literal_by-Keeps : (k : ℕ) (type : SymbolType) → Keeps (literal_by allocator k type)
  unfolding literal_by
  literal_by-Keeps k SymbolType.dot = parse_single-Keeps nfa_any
  literal_by-Keeps k SymbolType.dollar = parse_single-Keeps nfa_eol_anchor
  literal_by-Keeps k SymbolType.circumflex = parse_single-Keeps nfa_bol_anchor
  literal_by-Keeps k _ = parse_literals-Keeps k

  join_all-Keeps : (k : ℕ) → Keeps (join_all allocator k)
  unfolding join_all
  join_all-Keeps zero = search keeps depth 40 fits 6000
  join_all-Keeps (suc k) = bind-Keeps _ _ get-Keeps (λ s. branch_on-Keeps _ _ _ (pure-Keeps tt) (
      bind-Keeps _ _ pop-Keeps (λ right. bind-Keeps _ _ pop-Keeps (λ left.
        branch_on-Keeps _ _ _ (then-Keeps _ _ (push-Keeps 0) (push-Keeps right)) (
          bind-Keeps _ _ (build-Keeps _)
            (λ nfa. then-Keeps _ _ (push-Keeps nfa) (join_all-Keeps k)))))))

  join_down-Keeps : (k left right : ℕ) → Keeps (join_down allocator k left right)
  unfolding join_down
  join_down-Keeps zero left right = search keeps depth 40 fits 6000
  join_down-Keeps (suc k) left right = search (keeps, join_down-Keeps k) depth 40 fits 6000

  add_alternation-Keeps : (n : ℕ) → Keeps (add_alternation allocator n)
  unfolding add_alternation
  add_alternation-Keeps n = search keeps depth 40 fits 6000

  quantify-Keeps : (f : ℕ → NfaCtrl A → Option (ℕ × NfaCtrl A)) → Keeps (quantify allocator f)
  unfolding quantify
  quantify-Keeps f = search keeps depth 40 fits 6000

  -- Where the calls keep the scanner ready, so do the functions.
  module _ (k : ℕ) (call : Goal → P A (Unit {0})) (ih : (g : Goal) → Keeps (call g)) where
    alternation-Keeps : Keeps (parse_alternation allocator k call)
    unfolding parse_alternation
    alternation-Keeps =
        search (keeps, join_all-Keeps, join_down-Keeps, add_alternation-Keeps, ih) depth 40 fits
          6000

    quantify_by-Keeps : (type : SymbolType) → Keeps (quantify_by allocator k call type)
    unfolding quantify_by
    quantify_by-Keeps SymbolType.plus = search (keeps, quantify-Keeps, ih)
    quantify_by-Keeps SymbolType.kleene = search (keeps, quantify-Keeps, ih)
    quantify_by-Keeps SymbolType.qmark = search (keeps, quantify-Keeps, ih)
    quantify_by-Keeps SymbolType.openbrace = search (keeps, parse_interval-Keeps, ih)
    quantify_by-Keeps SymbolType.pipe = alternation-Keeps
    quantify_by-Keeps _ = search keeps

    quantifier-Keeps : Keeps (parse_quantifier_expression allocator k call)
    unfolding parse_quantifier_expression
    quantifier-Keeps = search (keeps, quantify_by-Keeps) depth 40 fits 6000

    literal-Keeps : Keeps (parse_literal_expression allocator k call)
    unfolding parse_literal_expression
    literal-Keeps = search (keeps, literal_by-Keeps, ih) depth 40 fits 6000

    bracket-Keeps : Keeps (parse_bracket_expression allocator k call)
    unfolding parse_bracket_expression
    bracket-Keeps = search (keeps, parse_bracket-Keeps, ih) depth 40 fits 6000

    as_alpha-Keeps : Keeps (as_alpha allocator)
    unfolding as_alpha
    as_alpha-Keeps = record { run = λ s v. v }

    paren-Keeps : Keeps (parse_paren_expression allocator call)
    unfolding parse_paren_expression
    paren-Keeps = search (keeps, open_paren-Keeps, close_group-Keeps, ih) depth 40 fits 6000

    validate-Keeps : Keeps (validate_backref allocator)
    unfolding validate_backref
    validate-Keeps = search keeps depth 40 fits 6000

    backreference-Keeps : Keeps (parse_backreference allocator call)
    unfolding parse_backreference
    backreference-Keeps = search (keeps, validate-Keeps, ih) depth 40 fits 6000

    followed-Keeps : (p : P A (Unit {0})) → Keeps p → Keeps (followed allocator call p)
    unfolding followed
    followed-Keeps p h = then-Keeps _ _ h (then-Keeps _ _ (ih sub_expression) join_top-Keeps)

    sub_by-Keeps : (type : SymbolType) → Keeps (sub_expression_by allocator k call type)
    unfolding sub_expression_by
    sub_by-Keeps SymbolType.openparen = search (keeps, paren-Keeps, ih)
    sub_by-Keeps SymbolType.openbracket =
        followed-Keeps (parse_bracket_expression allocator k call) bracket-Keeps
    sub_by-Keeps SymbolType.backreference =
        followed-Keeps (parse_backreference allocator call) backreference-Keeps
    sub_by-Keeps SymbolType.hyphen = search (keeps, as_alpha-Keeps, followed-Keeps, literal-Keeps)
    sub_by-Keeps SymbolType.dot =
        followed-Keeps (parse_literal_expression allocator k call) literal-Keeps
    sub_by-Keeps SymbolType.colon =
        followed-Keeps (parse_literal_expression allocator k call) literal-Keeps
    sub_by-Keeps SymbolType.alpha =
        followed-Keeps (parse_literal_expression allocator k call) literal-Keeps
    sub_by-Keeps SymbolType.dollar =
        followed-Keeps (parse_literal_expression allocator k call) literal-Keeps
    sub_by-Keeps SymbolType.circumflex =
        followed-Keeps (parse_literal_expression allocator k call) literal-Keeps
    sub_by-Keeps SymbolType.asciidigit =
        followed-Keeps (parse_literal_expression allocator k call) literal-Keeps
    sub_by-Keeps _ = search keeps depth 40 fits 6000

    sub_expression-Keeps : Keeps (parse_sub_expression allocator k call)
    unfolding parse_sub_expression
    sub_expression-Keeps = search (keeps, sub_by-Keeps) depth 40 fits 6000

    start-Keeps : Keeps (regex_parser_start allocator call)
    unfolding regex_parser_start
    start-Keeps = search (keeps, ih) depth 40 fits 6000

  pub parse-Keeps : (k n : ℕ) (g : Goal) → Keeps (parse allocator k n g)
  unfolding parse
  parse-Keeps k zero g = search keeps
  parse-Keeps k (suc n) quantifier = quantifier-Keeps k (parse allocator k n) (parse-Keeps k n)
  parse-Keeps k (suc n) sub_expression =
      sub_expression-Keeps k (parse allocator k n) (parse-Keeps k n)
  parse-Keeps k (suc n) start = start-Keeps k (parse allocator k n) (parse-Keeps k n)
