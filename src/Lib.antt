-- ===== src/Lib.antt =====
-- Verification of the regular expression engine of this repository (src/).
--
-- The program compiles a regular expression into an NFA and runs it as a set of threads over the
-- lines of a file. The scanner (src/scanner.c) turns the expression into tokens (src/token.h) under
-- the control flags (src/misc.h); the parser (src/regex_parser.c) builds the NFA from them, with
-- character sets for bracket expressions (src/nfa.c, src/collations.c, src/bits.h) and a map of the
-- groups that back-references name (src/cgrps.h); the recognizer (src/recognizer.c) runs the
-- threads, keeps the longest match and prints it, and may skip to the places that a keyword search
-- (src/boyer_moore.c, src/mpat.c) has found. Lists and stacks are src/slist.c.
--
-- Modules:
--   Base           shared names, Boolean tests, lists, the bits of machine words
--   BitArray       the macros of src/bits.h
--   CaptureGroups  src/cgrps.h
--   Collations     the table of src/collations.c
--   CharRange      src/nfa.c (update_range_nfa, update_range_w_collation) and the tests
--                  is_literal_in_range and the like of src/recognizer.c
--   Flags, Token   src/misc.h, src/token.h and src/token.c
--   Scanner        src/scanner.c: the state in Scanner, regex_scan in Scanner/Scan, the stack of
--                  scanners in Scanner/States, a scanner of a copied line in Scanner/Copy
--   Slist          src/slist.c on an explicit memory: Slist/Memory, then Pool, Ends, Walk and Whole
--                  by the kind of operation; chains of items in Slist/Chain, and the list of
--                  data that a memory holds in Slist/Lookup
--   BoyerMoore     src/boyer_moore.c: the tables in BoyerMoore/Tables, bm_search in
--                  BoyerMoore/Search; it takes the tree of src/rbtree.c as an interface
--   RbTree         src/rbtree.c on an explicit memory (Memory, and Shape for the trees that it holds):
--                  Queries, Pool, Insert, Rotate, Remove and Free have the operations. The proofs
--                  for insertion are Rotate/Turn for the rotations, Steps, Rounds, Cases and Repair
--                  for the repair, Walk and Hang for the new node's place, Order and Insertion
--   Nfa            src/nfa.h and src/nfa.c: the nodes; Build and Repeat construct fragments, with the
--                  allocator as an interface, Alternate those of several branches; Words has the
--                  paths through a fragment, Kleene the star
--   RegexParser    src/regex_parser.c: the tokens and the numbers of interval expressions; State has the
--                  state of the parser and the steps that its functions are written in, Interval,
--                  Bracket, Groups, Literals and Alternation the parts of the grammar, Grammar the
--                  functions that call one another, Prescan the scan ahead for back-references,
--                  Start parse_regex, and Ready the scanner along a parse
--   Recognizer     src/recognizer.c: Pool (thread pools, with proofs in Queue, Join
--                  and Release), Matches (longest match, next start),
--                  Output and NewMatch (the buffer of output), and Threads (run_nfa): Load and Next
--                  for thread_clone, process_adjacents and load_next, Step for thread_step, Run and
--                  Search for load_start_states and run_nfa; Reach has the paths that a line
--                  allows, Depth the ranks that bound the calls
-- Operations have the names of the functions, and a struct is a record of its fields. A `char *` is
-- an offset into a list of bytes, or an address with 0 for null; `none` is a null pointer or a
-- fault, as each file says.
--
-- Fuel: the walks of Slist take one round more than the list has items, and those of RbTree one
-- more than the tree has nodes; bm_search takes one round
-- for each position of the input and two more, and is proved to end with them; the loop that fills
-- the output takes one round for each byte that is left and one more, and each round takes away
-- some of them. load_next has a number for the depth of its calls and one for the rounds of a loop
-- over a list; a depth above the rank of its node and rounds above the length of every list are
-- enough where nodes have a rank that falls along the edges that are passed without input. run_nfa
-- has a number for the rounds of each of its loops, whose end is not proved. The loop that tightens
-- a star ends with more rounds than some path of the body has steps, and the loop over the digits of
-- a number with more rounds than digits. A parse has a number for the depth of its calls and one for
-- the rounds of its other loops, which are not bounded
-- here; the scan ahead takes at most as many rounds as the line is long.
--
-- Not modelled: init_parser and parser_free, which set up and free, the allocator of nodes and
-- src/compile.c, the search for several keywords and the ring of match records; new_nfa_sim,
-- reset_nfa_sim and free_nfa_sim, which set up and free; main.c and the rest of misc.c, which are
-- input, output and options.
pub mod Base
pub mod BitArray
pub mod BoyerMoore
pub mod CaptureGroups
pub mod CharRange
pub mod Collations
pub mod Flags
pub mod Nfa
pub mod RbTree
pub mod Recognizer
pub mod RegexParser
pub mod Scanner
pub mod Slist
pub mod Token
