-- ===== src/Recognizer/Threads/Tests.antt =====
-- Runs of the recognizer with the NFA of `(a){2}b` on the line `xaab`.
use regex.Base.{
  ℕ, zero, suc, ◌≡◌, ◌==◌, if◌then◌else◌, refl, true, false, inl, none, some, List, ◌∷◌, [], arith,
  replicate, ◌<◌, get_elem?, length,
}
use regex.Base.Int.{pos}
use regex.Nfa.{
  Nfa, NfaType, nfa_literal, nfa_epsilon, nfa_accepting, nfa_interval, nfa_backreference,
  nfa_capturegrp_end, nfa_capturegrp_begin,
}
use regex.Scanner.{Scanner, eol_char}
use regex.Token.{new_token}
use regex.Recognizer.Threads.{Thread, Ctrl, to_active, new_thread}
use regex.Recognizer.Threads.Next.{load_next}
use regex.Recognizer.Threads.Step.{thread_step}
use regex.Recognizer.Threads.Depth.{Ranked, IsFine, is_passed, is_group, is_left}
use regex.Recognizer.Threads.Depth.Total.{load_next-Done, thread_step-Fit, Fit}
use regex.Recognizer.Threads.Depth.Clones.{Done}
use regex.Recognizer.Threads.Reach.{begin, pass, passes, Inv, Live}
use regex.Recognizer.Threads.Reach.Steps.{Stepped, thread_step-Stepped}
use regex.Recognizer.Ensures.{Ensures, Returns}

abbrev node : NfaType → ℕ → List ℕ → ℕ → Nfa
node type id reachable literal = record {
  type = type;
  id = id;
  parent = 0;
  out1 = 0;
  out2 = 0;
  reachable = reachable;
  cycle = false;
  accepts = false;
  literal = literal;
  range = [];
  branches = [];
  min_rep = 2;
  max_rep = pos 2;
  split_idx = 1;
}

abbrev group_twice : ℕ → Nfa
group_twice p =
    if p == 1
    then node nfa_capturegrp_begin 0 (2 ∷ []) 0
    else if p == 2
    then node nfa_literal 1 (3 ∷ []) b'a'
    else if p == 3
    then node nfa_capturegrp_end 0 (4 ∷ []) 0
    else if p == 4
    then node nfa_interval 0 (1 ∷ 5 ∷ []) 0
    else if p == 5
    then node nfa_literal 2 (6 ∷ []) b'b'
    else if p == 6
    then node nfa_accepting 3 [] 0
    else node nfa_epsilon 4 (1 ∷ []) 0

abbrev steps_left : ℕ → ℕ
steps_left q = if q == 1 then 1 else if q == 3 then 3 else if q == 4 then 2 else 0

group_numbered : (q : ℕ) → (group_twice q).id < 5
group_numbered q = ground (arith)

group_falls :
    (q : ℕ)
    → is_passed (group_twice q).type ≡ true
    → (i r : ℕ) → get_elem? (group_twice q).reachable i ≡ some r
    → steps_left r < steps_left q
group_falls q e zero r e' = ground (arith)
group_falls q e (suc zero) r e' = ground (arith)
group_falls q e (suc (suc i)) r e' = ground (arith)

group_group : (q : ℕ) → is_group (group_twice q).type ≡ true → (group_twice q).id < 9
group_group q e = ground (arith)

group_backreference : (q : ℕ) → (group_twice q).type ≡ nfa_backreference → (group_twice q).id < 9
group_backreference q e = ground (arith)

group_loop : (q : ℕ) → (group_twice q).type ≡ nfa_interval → (group_twice q).id < 1
group_loop q e = ground (arith)

group_split :
    (q : ℕ)
    → (group_twice q).type ≡ nfa_interval
    → (group_twice q).split_idx < length (group_twice q).reachable
group_split q e = ground (arith)

group_nonempty :
    (q : ℕ) → is_left (group_twice q).type ≡ true → 0 < length (group_twice q).reachable
group_nonempty q e = ground (arith)

group_size : (q : ℕ) → length (group_twice q).reachable < 3
group_size q = ground (arith)

abbrev ranked : Ranked
ranked = record {
  nfa = group_twice;
  rank = steps_left;
  ids = 5;
  cap = 1;
  rounds = 3;
  numbered = group_numbered;
  group = group_group;
  backreference = group_backreference;
  loop = group_loop;
  split = group_split;
  nonempty = group_nonempty;
  falls = group_falls;
  size = group_size;
}

abbrev line_scanner : Scanner
line_scanner = record {
  line_no = pos 1;
  eol_symbol = eol_char;
  line_len = 5;
  buf_len = 6;
  filename = none;
  ctrl_flags = 0;
  buffer = b'x' ∷ b'a' ∷ b'a' ∷ b'b' ∷ 254 ∷ 0 ∷ [];
  readhead = 0;
  str_begin = 0;
  last_newline = none;
  curtoken = new_token;
}

abbrev ready : Ctrl
ready = record {
  nfa = group_twice;
  start_state = 9;
  thread_pool = new_thread 1 ∷ [];
  active_threads = [];
  next_threads = [];
  active_threads_sp = replicate 5 0;
  loop_record_cap = 1;
  cur_pos = 100;
  last_interval_pos = 0;
  iter_idx = λ _. 0;
  buffer = 100;
  scanner = line_scanner;
  output = record {
    matches = replicate 16 0;
    match_idx = 0;
    printed = [];
    match = record { start = 0; end = 0; last_match_end = 0 };
    filename = [];
    line_no = 1;
    buffer_start = 100;
    buffer_end = 104;
    ctrl_flags = 0;
  };
}

-- A thread waits for the first `a`.
abbrev first_thread : Thread
first_thread = record (new_thread 1) { ip = 2 }

abbrev second_byte : Ctrl
second_byte = record ready { cur_pos = 101 }

first_thread-Live : Live ready 101 101 first_thread
unfolding passes
first_thread-Live = inl (pass (begin 0 refl) refl 0 refl)

second_byte-Inv : Inv ready 101 101 second_byte
second_byte-Inv = record {
  same = record {
    nfa = refl;
    start_state = refl;
    buffer = refl;
    text = refl;
    eol_symbol = refl;
    ignore_case = refl;
    shared = refl;
  };
  position = refl;
  active = tt;
  next = tt;
}

thread_step-Stepped_example :
    Ensures (Stepped ready 101 101) (thread_step 9 9 first_thread second_byte)
thread_step-Stepped_example =
    thread_step-Stepped ready 101 101 9 9 first_thread second_byte second_byte-Inv first_thread-Live

second_byte-IsFine : IsFine ranked second_byte
second_byte-IsFine = record { nodes = refl; sp = refl; loops = refl; pool = ((refl, refl), tt) }

-- The depth 3 is enough for the interval, whose rank is 2.
load_next-Done_example :
    Returns (Done ranked 4 second_byte) (load_next 3 3 first_thread 4 to_active 101 second_byte)
load_next-Done_example =
    load_next-Done ranked 3 4 first_thread to_active 101 second_byte (omega arith)
      second_byte-IsFine (refl, refl)

shallow : (q : ℕ) → steps_left q < 4
shallow q = ground (arith)

thread_step-Fit_example : Returns (Fit ranked) (thread_step 3 4 first_thread second_byte)
thread_step-Fit_example =
    thread_step-Fit ranked 4 shallow first_thread second_byte second_byte-IsFine (refl, refl)
