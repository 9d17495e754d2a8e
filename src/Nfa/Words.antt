-- ===== src/Nfa/Words.antt =====
-- The words of a fragment, as a relation on the nodes of src/nfa.h: `compile.c` follows `out2` behind
-- a node that takes a byte or nothing, and both ways behind a split.
use regex.Base.{
  ℕ, suc, ◌≡◌, ◌∙◌, refl, ap, inl, inr, Bool, true, false, Bool-cases, List, [], ◌∷◌, ◌++◌, ◌==◌,
  ==_iff, arith,
}
use regex.CharRange.{is_literal_in_range}
use regex.Nfa.{Nfa, nfa_any, nfa_literal, nfa_range, nfa_split, nfa_epsilon, nfa_accepting}

-- Whether a node takes a byte.
unfoldable pub takes_byte : Nfa → ℕ → Bool
takes_byte n c = elim (n.type) [
  | nfa_any ↦ true
  | nfa_literal ↦ n.literal == c
  | nfa_range ↦ is_literal_in_range n.range c
  | _ ↦ false
]

-- A path from node to node that leaves only nodes of a set, and the bytes that it takes.
pub data Word (nodes : ℕ → Nfa) (within : ℕ → Bool) : ℕ → List ℕ → ℕ → Type 0 where
  stop : {s : ℕ} → Word nodes within s [] s
  empty :
      {s r t : ℕ} {w : List ℕ}
      → within s ≡ true
      → (nodes s).type ≡ nfa_epsilon
      → (nodes s).out2 ≡ r
      → Word nodes within r w t
      → Word nodes within s w t
  left :
      {s r t : ℕ} {w : List ℕ}
      → within s ≡ true
      → (nodes s).type ≡ nfa_split
      → (nodes s).out1 ≡ r
      → Word nodes within r w t
      → Word nodes within s w t
  right :
      {s r t : ℕ} {w : List ℕ}
      → within s ≡ true
      → (nodes s).type ≡ nfa_split
      → (nodes s).out2 ≡ r
      → Word nodes within r w t
      → Word nodes within s w t
  take :
      {s r t : ℕ} {w : List ℕ} {c : ℕ}
      → within s ≡ true
      → takes_byte (nodes s) c ≡ true
      → (nodes s).out2 ≡ r
      → Word nodes within r w t
      → Word nodes within s (c ∷ w) t

abbrev pub steps :
    {nodes : ℕ → Nfa} {within : ℕ → Bool} {s t : ℕ} {w : List ℕ} → Word nodes within s w t → ℕ
steps stop = 0
steps (empty i e o d) = suc (steps d)
steps (left i e o d) = suc (steps d)
steps (right i e o d) = suc (steps d)
steps (take i e o d) = suc (steps d)

pub Word-append :
    {nodes : ℕ → Nfa} {within : ℕ → Bool} {s t u : ℕ} {w v : List ℕ}
    → Word nodes within s w t
    → Word nodes within t v u
    → Word nodes within s (w ++ v) u
Word-append stop d = d
Word-append (empty i e o d) d' = empty i e o (Word-append d d')
Word-append (left i e o d) d' = left i e o (Word-append d d')
Word-append (right i e o d) d' = right i e o (Word-append d d')
Word-append (take i e o d) d' = take i e o (Word-append d d')

abbrev pub everywhere : ℕ → Bool
everywhere q = true

not_body :
    (nodes : ℕ → Nfa) (body q : ℕ)
    → (nodes body).type ≡ nfa_accepting
    → ((nodes q).type ≡ nfa_accepting → false ≡ true)
    → (q == body) ≡ false
not_body nodes body q a h = elim (Bool-cases (q == body)) [
  | inl b ↦
      (let e : (nodes q).type ≡ nfa_accepting = rw ((==_iff q body).0 b) a in
        absurd (let f = h e in cc))
  | inr b ↦ b
]

takes_none : (n : Nfa) (c : ℕ) → takes_byte n c ≡ true → n.type ≡ nfa_accepting → false ≡ true
unfolding takes_byte
takes_none n c e a = ground (arith)

-- A path to an accepting node survives a change of other nodes, and of the accepting node, and has
-- as many steps.
pub Word-change :
    (nodes nodes' : ℕ → Nfa) {within : ℕ → Bool} {s t : ℕ} {w : List ℕ} (body : ℕ)
    → (nodes body).type ≡ nfa_accepting
    → ((q : ℕ) → within q ≡ true → (q == body) ≡ false → nodes' q ≡ nodes q)
    → (d : Word nodes within s w t) → (d' : Word nodes' everywhere s w t) × (steps d' ≡ steps d)
Word-change nodes nodes' body a same stop = (stop, refl)
Word-change nodes nodes' {s = s} body a same (empty i e o d) =
    let e' : nodes' s ≡ nodes s = same s i (not_body nodes body s a (λ x. ground (arith))) in
    let (d', n) = Word-change nodes nodes' body a same d in
    (empty refl (ap (λ n. n.type) e' ∙ e) (ap (λ n. n.out2) e' ∙ o) d', ap suc n)
Word-change nodes nodes' {s = s} body a same (left i e o d) =
    let e' : nodes' s ≡ nodes s = same s i (not_body nodes body s a (λ x. ground (arith))) in
    let (d', n) = Word-change nodes nodes' body a same d in
    (left refl (ap (λ n. n.type) e' ∙ e) (ap (λ n. n.out1) e' ∙ o) d', ap suc n)
Word-change nodes nodes' {s = s} body a same (right i e o d) =
    let e' : nodes' s ≡ nodes s = same s i (not_body nodes body s a (λ x. ground (arith))) in
    let (d', n) = Word-change nodes nodes' body a same d in
    (right refl (ap (λ n. n.type) e' ∙ e) (ap (λ n. n.out2) e' ∙ o) d', ap suc n)
Word-change nodes nodes' {s = s} body a same (take {c} i e o d) =
    let e' : nodes' s ≡ nodes s = same s i (not_body nodes body s a (takes_none (nodes s) c e)) in
    let (d', n) = Word-change nodes nodes' body a same d in
    (take refl (ap (λ n. takes_byte n c) e' ∙ e) (ap (λ n. n.out2) e' ∙ o) d', ap suc n)
