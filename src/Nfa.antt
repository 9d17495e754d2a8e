-- ===== src/Nfa.antt =====
-- The nodes of an NFA, src/nfa.h. A node stands at an address; the union of its value is written as
-- one field for each of its members.
pub mod Build
pub mod Repeat
pub mod Alternate
pub mod Words
pub mod Tighten
pub mod Kleene
pub mod Tests
use regex.Base.{ℕ, Bool, List}
use regex.Base.Int.{ℤ}

-- `value.type`. The types for words are not produced by the parser.
pub data NfaType : Type 0 where
  nfa_any : NfaType
  nfa_literal : NfaType
  nfa_range : NfaType
  nfa_split : NfaType
  nfa_epsilon : NfaType
  nfa_accepting : NfaType
  nfa_bol_anchor : NfaType
  nfa_eol_anchor : NfaType
  nfa_interval : NfaType
  nfa_backreference : NfaType
  nfa_capturegrp_end : NfaType
  nfa_capturegrp_begin : NfaType
  nfa_tree : NfaType

-- `cycle` and `accepts` are bits of `flags`; `reachable` and `branches` are lists of addresses.
pub record Nfa : Type 0 where
  pub type : NfaType
  pub id : ℕ
  pub parent : ℕ
  pub out1 : ℕ
  pub out2 : ℕ
  pub reachable : List ℕ
  pub cycle : Bool
  pub accepts : Bool
  pub literal : ℕ
  pub range : List ℕ
  pub branches : List ℕ
  pub min_rep : ℕ
  pub max_rep : ℤ
  pub split_idx : ℕ
