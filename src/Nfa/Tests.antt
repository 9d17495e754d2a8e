-- ===== src/Nfa/Tests.antt =====
-- The star of a literal, with an allocator that counts.
use regex.Base.{
  ℕ, ◌+◌, ◌≡◌, ◌==◌, if◌then◌else◌, refl, some, false, Bool, List, ◌∷◌, [], arith, Every,
}
use regex.Base.Int.{pos}
use regex.Nfa.{Nfa, NfaType, nfa_literal, nfa_accepting}
use regex.Nfa.Build.{Allocator, NfaCtrl, new_kleene_nfa}
use regex.Nfa.Words.{Word, take, stop, takes_byte, everywhere}
use regex.Nfa.Kleene.{joined, new_kleene_nfa-Word}

abbrev counter : Allocator ℕ
counter = record { nfa_alloc = λ n. (n, n + 1); nfa_dealloc = λ p n. n }

abbrev plain_node : NfaType → ℕ → ℕ → Nfa
plain_node type parent out = record {
  type = type;
  id = 1;
  parent = parent;
  out1 = out;
  out2 = out;
  reachable = [];
  cycle = false;
  accepts = false;
  literal = b'a';
  range = [];
  branches = [];
  min_rep = 0;
  max_rep = pos 0;
  split_idx = 0;
}

-- The literal stands at 1 and its last node at 2; the nodes from 3 on are free.
abbrev letter : NfaCtrl ℕ
letter = record {
  nodes = λ p. if p == 1 then plain_node nfa_literal 0 2 else plain_node nfa_accepting 1 0;
  alloc = 3;
  next_seq_id = 2;
  next_interval_seq_id = 0;
}

abbrev only_first : ℕ → Bool
only_first q = q == 1

letter-Word : Word letter.nodes only_first 1 (b'a' ∷ []) 2
unfolding takes_byte
letter-Word = take refl refl refl stop

new_kleene_nfa-Word_example :
    (c : NfaCtrl ℕ) × (new_kleene_nfa counter 2 2 letter ≡ some (4, c))
    × ((ws : List (List ℕ))
        → Every (λ v. Word letter.nodes only_first 1 v 2) ws
        → Word c.nodes everywhere (c.nodes 4).parent (joined ws) 4)
unfolding letter-Word
new_kleene_nfa-Word_example =
    new_kleene_nfa-Word counter 2 letter 3 4 refl refl refl refl refl only_first refl refl refl 2
      letter-Word (omega arith)
