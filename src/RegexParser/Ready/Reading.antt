-- ===== src/RegexParser/Ready/Reading.antt =====
-- The functions of src/regex_parser.c for numbers, intervals and bracket expressions keep the
-- scanner ready.
use regex.Base.{ℕ, zero, suc, ◌+◌, ◌-◌, ◌*◌, Bool, Option, none, some, arith}
use regex.Base.Int.{ℤ, times, plus}
use regex.Token.{SymbolType}
use regex.Scanner.Bounds.{IsReady}
use regex.Nfa.Build.{Allocator}
use regex.RegexParser.{
  Parser, parser_consume_token, discard_whitespace, convert_loop, convert_to_uint,
}
use regex.RegexParser.State.{ParserState, done, fault, scan}
use regex.RegexParser.Ready.{LeavesReady, Keeps, keeps, consume_token-IsReady}
use regex.RegexParser.Interval.{
  skip_whitespace, read_bounds, close_brace, braces_loop, merge_intervals, add_interval,
  bounded_interval, drop_target, open_interval, parse_interval_expression,
}
use regex.RegexParser.Bracket.{
  add_range, find_delim, add_class, parse_collation, parse_range, parse_matching_list,
  parse_bracket,
}

-- Where the reading ends, the scanner is ready.
abbrev EndsReady : Option Parser → Type 0
EndsReady none = Unit
EndsReady (some p) = IsReady p.scanner

abbrev ReadsReady : Option (ℤ × Parser) → Type 0
ReadsReady none = Unit
ReadsReady (some (n, p)) = IsReady p.scanner

discard-EndsReady : (k : ℕ) (p : Parser) → IsReady p.scanner → EndsReady (discard_whitespace k p)
unfolding discard_whitespace
discard-EndsReady zero p v = tt
discard-EndsReady (suc k) p v =
    let next = discard-EndsReady k (parser_consume_token p) (consume_token-IsReady p v) in
    ground (arith, next)

convert-ReadsReady :
    (k dec_pos : ℕ) (n : ℤ) (p : Parser)
    → IsReady p.scanner
    → ReadsReady (convert_loop k dec_pos n p)
unfolding convert_loop
convert-ReadsReady zero dec_pos n p v = tt
convert-ReadsReady (suc k) dec_pos n p v =
    let next =
      convert-ReadsReady k (dec_pos * 10 + 1)
        (plus (times n (dec_pos * 10)) (p.lookahead.value - b'0')) (parser_consume_token p)
        (consume_token-IsReady p v) in
    ground (arith, next)

module _ {A : Type 0} where
  skipped :
      (o : Option Parser) (s : ParserState A)
      → EndsReady o
      → LeavesReady
          (elim (elim o as (λ _. Option (Unit {0} × Parser)) [
            | none ↦ none
            | some q ↦ some (tt, q)
          ]) [ none ↦ fault | some (b, r) ↦ done (b, record s { reader = r }) ])
  skipped none s v = tt
  skipped (some q) s v = v

  pub skip_whitespace-Keeps : (k : ℕ) → Keeps {A = A} (skip_whitespace k)
  unfolding skip_whitespace scan
  skip_whitespace-Keeps k = record {
    run = λ s v. skipped (discard_whitespace k s.reader) s (discard-EndsReady k s.reader v);
  }

  converted :
      (o : Option (ℤ × Parser)) (s : ParserState A)
      → ReadsReady o
      → LeavesReady (elim o [ none ↦ fault | some (b, r) ↦ done (b, record s { reader = r }) ])
  converted none s v = tt
  converted (some (n, q)) s v = v

  pub convert-Keeps : (k : ℕ) (n : ℤ) → Keeps {A = A} (scan (convert_to_uint k n))
  unfolding scan convert_to_uint
  convert-Keeps k n = record {
    run = λ s v. converted (convert_loop k 0 n s.reader) s (convert-ReadsReady k 0 n s.reader v);
  }

  pub read_bounds-Keeps : (k : ℕ) → Keeps {A = A} (read_bounds k)
  unfolding read_bounds
  read_bounds-Keeps k = search (keeps, skip_whitespace-Keeps, convert-Keeps) depth 40 fits 6000

  pub close_brace-Keeps : Keeps {A = A} close_brace
  unfolding close_brace
  close_brace-Keeps = search keeps depth 40 fits 6000

  pub braces_loop-Keeps : (n k : ℕ) (min max : ℤ) → Keeps {A = A} (braces_loop n k min max)
  unfolding braces_loop
  braces_loop-Keeps zero k min max = search keeps depth 40 fits 6000
  braces_loop-Keeps (suc n) k min max =
      search (keeps, read_bounds-Keeps, close_brace-Keeps, braces_loop-Keeps n k) depth 40 fits 6000

module _ {A : Type 0} (allocator : Allocator A) where
  pub merge_intervals-Keeps :
      (k min max target : ℕ) → Keeps (merge_intervals allocator k min max target)
  unfolding merge_intervals
  merge_intervals-Keeps k min max target = search keeps depth 40 fits 6000

  pub add_interval-Keeps :
      (k target min : ℕ) (max : ℤ) → Keeps (add_interval allocator k target min max)
  unfolding add_interval
  add_interval-Keeps k target min max = search keeps depth 40 fits 6000

  pub bounded_interval-Keeps :
      (k target : ℕ) (min max : ℤ) → Keeps (bounded_interval allocator k target min max)
  unfolding bounded_interval
  bounded_interval-Keeps k target min max =
      search (keeps, merge_intervals-Keeps, add_interval-Keeps) depth 40 fits 6000

  pub drop_target-Keeps : (target : ℕ) → Keeps (drop_target allocator target)
  unfolding drop_target
  drop_target-Keeps target = search keeps depth 40 fits 6000

  pub open_interval-Keeps :
      (k target : ℕ) (min max : ℤ) → Keeps (open_interval allocator k target min max)
  unfolding open_interval
  open_interval-Keeps k target min max =
      search (keeps, add_interval-Keeps, drop_target-Keeps) depth 40 fits 6000

  pub parse_interval-Keeps : (k : ℕ) → Keeps (parse_interval_expression allocator k)
  unfolding parse_interval_expression
  parse_interval-Keeps k =
      search (keeps, braces_loop-Keeps, bounded_interval-Keeps, open_interval-Keeps) depth 40 fits
        6000

  pub add_range-Keeps :
      (range_nfa : ℕ) (negate : Bool) (low high : ℕ)
      → Keeps (add_range allocator range_nfa negate low high)
  unfolding add_range
  add_range-Keeps range_nfa negate low high = search keeps depth 40 fits 6000

  pub find_delim-Keeps :
      (k : ℕ) (delim prev : SymbolType) → Keeps (find_delim allocator k delim prev)
  unfolding find_delim
  find_delim-Keeps zero delim prev = search keeps depth 40 fits 6000
  find_delim-Keeps (suc k) delim prev = search (keeps, find_delim-Keeps k delim) depth 40 fits 6000

  pub add_class-Keeps :
      (range_nfa : ℕ) (negate : Bool) (start len : ℕ)
      → Keeps (add_class allocator range_nfa negate start len)
  unfolding add_class
  add_class-Keeps range_nfa negate start len = search keeps depth 40 fits 6000

  pub parse_collation-Keeps :
      (k range_nfa : ℕ) (negate : Bool) → Keeps (parse_collation allocator k range_nfa negate)
  unfolding parse_collation
  parse_collation-Keeps k range_nfa negate =
      search (keeps, find_delim-Keeps, add_class-Keeps) depth 40 fits 6000

  pub parse_range-Keeps :
      (range_nfa : ℕ) (negate : Bool) (low : ℕ) → Keeps (parse_range allocator range_nfa negate low)
  unfolding parse_range
  parse_range-Keeps range_nfa negate low = search (keeps, add_range-Keeps) depth 40 fits 6000

  pub parse_matching_list-Keeps :
      (k len range_nfa : ℕ) (negate : Bool)
      → Keeps (parse_matching_list allocator k len range_nfa negate)
  unfolding parse_matching_list
  parse_matching_list-Keeps zero len range_nfa negate = search keeps depth 40 fits 6000
  parse_matching_list-Keeps (suc k) len range_nfa negate =
      search
        (
          keeps,
          parse_collation-Keeps,
          parse_range-Keeps,
          add_range-Keeps,
          parse_matching_list-Keeps k,
        )
        depth 40 fits 6000

  pub parse_bracket-Keeps : (k : ℕ) → Keeps (parse_bracket allocator k)
  unfolding parse_bracket
  parse_bracket-Keeps k = search (keeps, parse_matching_list-Keeps) depth 40 fits 6000
