-- ===== src/RegexParser/Ready/Tests.antt =====
-- A literal is parsed from its first token on.
use regex.Base.{ℕ, ◌+◌, ◌≡◌, refl, false, true, Bool, none, ◌∷◌, []}
use regex.Base.Int.{pos}
use regex.Nfa.{Nfa, nfa_epsilon}
use regex.Nfa.Build.{Allocator, NfaCtrl}
use regex.Scanner.{Scanner, eol_char}
use regex.Token.{new_token}
use regex.RegexParser.{Parser, parser_consume_token}
use regex.RegexParser.State.{ParserState, Parsed, done, fatal, fault}
use regex.RegexParser.Start.{parse_regex}

abbrev counter : Allocator ℕ
counter = record { nfa_alloc = λ n. (n, n + 1); nfa_dealloc = λ p n. n }

abbrev no_node : Nfa
no_node = record {
  type = nfa_epsilon;
  id = 0;
  parent = 0;
  out1 = 0;
  out2 = 0;
  reachable = [];
  cycle = false;
  accepts = false;
  literal = 0;
  range = [];
  branches = [];
  min_rep = 0;
  max_rep = pos 0;
  split_idx = 0;
}

abbrev a_scanner : Scanner
a_scanner = record {
  line_no = pos 1;
  eol_symbol = eol_char;
  line_len = 2;
  buf_len = 3;
  filename = none;
  ctrl_flags = 0;
  buffer = b'a' ∷ 254 ∷ 0 ∷ [];
  readhead = 0;
  str_begin = 0;
  last_newline = none;
  curtoken = new_token;
}

abbrev unread : Parser
unread = record { scanner = a_scanner; seen_newline = false; lookahead = new_token }

abbrev one_letter : ParserState ℕ
one_letter = record {
  reader = parser_consume_token unread;
  symbol_stack = [];
  branch_stack = [];
  nfa_ctrl = record { nodes = λ p. no_node; alloc = 1; next_seq_id = 1; next_interval_seq_id = 1 };
  paren_stack = [];
  prev_interval = 0;
  prev_interval_head = 0;
  paren_count = 0;
  subtree_branch_count = pos 0;
  cgrp_count = 0;
  current_cgrp = 0;
  in_new_cgrp = false;
  paren_idx = 0;
  in_alternation = 0;
  tree_count = 0;
  branch = 0;
  lowest_id_on_branch = 0;
  interval_count = 0;
  capgrp_record = [];
  cgrp_map = 0 ∷ [];
}

abbrev returns : {B : Type 0} → Parsed B → Bool
returns (done b) = true
returns (fatal e) = false
returns fault = false

one_letter-returns : returns (parse_regex counter 3 4 one_letter) ≡ true
unfolding parse_regex regex.Scanner.init_scanner regex.Scanner.reset_scanner regex.Scanner.end_line
    regex.RegexParser.Grammar.parse regex.RegexParser.Start.mark_groups
    regex.RegexParser.Start.join_stack regex.RegexParser.Start.insert_epsilon_start
    regex.RegexParser.Prescan.prescan_input regex.RegexParser.Prescan.prescan_scanner
    regex.RegexParser.Prescan.prescan_loop regex.RegexParser.Prescan.count_char
    regex.RegexParser.State.need regex.Nfa.Build.mark_nfa regex.Nfa.Build.update
    regex.RegexParser.Groups.join_times regex.Nfa.Build.new_nfa
    regex.RegexParser.Grammar.regex_parser_start regex.RegexParser.Grammar.parse_sub_expression
    regex.RegexParser.Grammar.sub_expression_by regex.RegexParser.Grammar.followed
    regex.RegexParser.Grammar.parse_literal_expression
    regex.RegexParser.Grammar.parse_quantifier_expression regex.RegexParser.Grammar.quantify_by
    regex.RegexParser.Groups.join_top regex.RegexParser.Literals.literal_by
    regex.RegexParser.Literals.parse_literals regex.RegexParser.Literals.literal_loop
    regex.RegexParser.Literals.literal_stop regex.RegexParser.State.◌>>=◌
    regex.RegexParser.State.◌>>◌ regex.RegexParser.State.get regex.RegexParser.State.branch_on
    regex.RegexParser.State.pure regex.RegexParser.State.modify regex.RegexParser.State.push
    regex.RegexParser.State.pop regex.RegexParser.State.top_of regex.RegexParser.State.rest_of
    regex.RegexParser.State.build regex.RegexParser.State.consume regex.RegexParser.State.backtrack
    regex.RegexParser.State.change_flags regex.RegexParser.parser_backtrack parser_consume_token
    regex.Scanner.Scan.regex_scan regex.Scanner.Scan.scan_loop regex.Scanner.Scan.scan_char
    regex.Scanner.Scan.end_token regex.Scanner.step regex.Scanner.step_back
    regex.Scanner.update_flags regex.Scanner.after_newline regex.Scanner.Scan.operator
    regex.Scanner.Scan.to_unsigned regex.Token.update_token regex.Nfa.Build.concatenate_nfa
    regex.Nfa.Build.new_literal_nfa regex.Flags.set_flag regex.Flags.clear_flag
one_letter-returns = refl
