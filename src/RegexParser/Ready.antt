-- ===== src/RegexParser/Ready.antt =====
-- Steps of the parser of src/regex_parser.c that keep the scanner ready: the rules for the steps of
-- RegexParser/State, by which the functions of the grammar are taken apart.
pub mod Reading
pub mod Grammars
pub mod Regex
pub mod Tests
use regex.Base.{
  ℕ, zero, suc, ◌==◌, Bool, true, false, Option, none, some, ◌∷◌, ◌||◌, ◌≡◌, Bool-cases, inl, inr,
  arith,
}
use regex.Scanner.{Scanner, step_back}
use regex.Scanner.Scan.{regex_scan}
use regex.Scanner.Bounds.{IsReady, regex_scan-IsReady, step_back-IsReady}
use regex.Nfa.Build.{NfaCtrl}
use regex.RegexParser.{Parser, parser_consume_token, parser_backtrack}
use regex.RegexParser.State.{
  ParserState, P, Parsed, ParseError, done, fatal, fault, ◌>>=◌, ◌>>◌, pure, reject, crash,
  branch_on, get, modify, consume, backtrack, change_flags, push, pop, need, build, build_or_fault,
  scan, rest_of, top_of,
}

-- Where the step returns, the scanner is ready.
module _ {A B : Type 0} where
  abbrev pub LeavesReady : Parsed (B × ParserState A) → Type 0
  LeavesReady (done (b, s)) = IsReady s.reader.scanner
  LeavesReady (fatal e) = Unit
  LeavesReady fault = Unit

  pub record Keeps (p : P A B) : Type 0 where
    pub run : (s : ParserState A) → IsReady s.reader.scanner → LeavesReady (p s)

pub consume_token-IsReady :
    (p : Parser) → IsReady p.scanner → IsReady (parser_consume_token p).scanner
unfolding parser_consume_token
consume_token-IsReady p v = regex_scan-IsReady p.seen_newline p.scanner v

module _ {A B : Type 0} where
  pub pure-Keeps : (b : B) → Keeps {A = A} (pure b)
  unfolding pure
  pure-Keeps b = record { run = λ s v. v }

  pub reject-Keeps : (e : ParseError) → Keeps {A = A} {B = B} (reject e)
  unfolding reject
  reject-Keeps e = record { run = λ s v. tt }

  pub crash-Keeps : Keeps {A = A} {B = B} crash
  unfolding crash
  crash-Keeps = record { run = λ s v. tt }

  pub branch_on-Keeps : (b : Bool) (p q : P A B) → Keeps p → Keeps q → Keeps (branch_on b p q)
  unfolding branch_on
  branch_on-Keeps true p q h g = h
  branch_on-Keeps false p q h g = g

  pub build-Keeps : (f : NfaCtrl A → B × NfaCtrl A) → Keeps (build f)
  unfolding build
  build-Keeps f = record { run = λ s v. v }

  built :
      (o : Option (B × NfaCtrl A)) (s : ParserState A)
      → IsReady s.reader.scanner
      → LeavesReady (elim o [ none ↦ fault | some (b, c) ↦ done (b, record s { nfa_ctrl = c }) ])
  built none s v = tt
  built (some (b, c)) s v = v

  pub build_or_fault-Keeps : (f : NfaCtrl A → Option (B × NfaCtrl A)) → Keeps (build_or_fault f)
  unfolding build_or_fault
  build_or_fault-Keeps f = record { run = λ s v. built (f s.nfa_ctrl) s v }

module _ {A B C : Type 0} where
  and_then :
      (r : Parsed (B × ParserState A)) (f : B → P A C)
      → LeavesReady r
      → ((b : B) → Keeps (f b))
      → LeavesReady (elim r [ done (b, s') ↦ f b s' | fatal e ↦ fatal e | fault ↦ fault ])
  and_then (done (b, s)) f v g = (g b).run s v
  and_then (fatal e) f v g = tt
  and_then fault f v g = tt

  pub bind-Keeps : (p : P A B) (f : B → P A C) → Keeps p → ((b : B) → Keeps (f b)) → Keeps (p >>= f)
  unfolding ◌>>=◌
  bind-Keeps p f h g = record { run = λ s v. and_then (p s) f (h.run s v) g }

module _ {A B : Type 0} where
  pub then-Keeps : (p : P A (Unit {0})) (q : P A B) → Keeps p → Keeps q → Keeps (p >> q)
  unfolding ◌>>◌
  then-Keeps p q h g = bind-Keeps p (λ _. q) h (λ _. g)

module _ {A : Type 0} where
  pub get-Keeps : Keeps {A = A} get
  unfolding get
  get-Keeps = record { run = λ s v. v }

  pub modify-Keeps : (f : ParserState A → ParserState A) → Keeps (modify f)
  unfolding modify
  modify-Keeps f = record { run = λ s v. v }

  pub consume-Keeps : Keeps {A = A} consume
  unfolding consume
  consume-Keeps = record { run = λ s v. consume_token-IsReady s.reader v }

  pub backtrack-Keeps : Keeps {A = A} backtrack
  unfolding backtrack parser_backtrack
  backtrack-Keeps = record {
    run = λ s v.
        consume_token-IsReady (record s.reader { scanner = step_back (step_back s.reader.scanner) })
          (step_back-IsReady (step_back s.reader.scanner) (step_back-IsReady s.reader.scanner v));
  }

  pub change_flags-Keeps : (f : ℕ → ℕ) → Keeps {A = A} (change_flags f)
  unfolding change_flags
  change_flags-Keeps f = record {
    run = λ s v. record {
      on_line = v.on_line;
      nonempty = v.nonempty;
      room = v.room;
      symbol = v.symbol;
      last = v.last;
      null = v.null;
    };
  }

  pub push-Keeps : (p : ℕ) → Keeps {A = A} (push p)
  unfolding push
  push-Keeps p = modify-Keeps (λ s. record s { symbol_stack = p ∷ s.symbol_stack })

  pub pop-Keeps : Keeps {A = A} pop
  unfolding pop
  pop-Keeps = search (bind-Keeps, then-Keeps, get-Keeps, modify-Keeps, pure-Keeps)

  pub need-Keeps : (p : ℕ) → Keeps {A = A} (need p)
  unfolding need
  need-Keeps p = search (branch_on-Keeps, crash-Keeps, pure-Keeps)

pub ruleset keeps = (
  bind-Keeps, then-Keeps, branch_on-Keeps, get-Keeps, modify-Keeps, pure-Keeps, reject-Keeps,
  crash-Keeps, build-Keeps, build_or_fault-Keeps, consume-Keeps, backtrack-Keeps,
  change_flags-Keeps, push-Keeps, pop-Keeps, need-Keeps,
)
