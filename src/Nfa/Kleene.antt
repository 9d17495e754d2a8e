-- ===== src/Nfa/Kleene.antt =====
-- The fragment of a star, src/nfa.c `new_kleene_nfa`: it takes every repetition of its body's words.
use regex.Base.{
  ℕ, ◌≡◌, ◌<◌, ◌∙◌, refl, sym, ap, inl, inr, Bool, true, false, Bool-cases, some, List, [], ◌∷◌,
  ◌++◌, ◌==◌, ==_iff, arith, Every,
}
use regex.Recognizer.Output.{◌>>=◌}
use regex.Nfa.{nfa_split, nfa_accepting}
use regex.Nfa.Build.{
  Allocator, NfaCtrl, update, new_nfa, surround, tighten, begin_kleene, end_kleene, new_kleene_nfa,
}
use regex.Nfa.Words.{Word, stop, left, right, steps, everywhere, Word-append, Word-change}
use regex.Nfa.Tighten.{is_epsilon, tighten-ends, tighten-Word}

-- The words of a list one behind the other.
abbrev pub joined : List (List ℕ) → List ℕ
joined [] = []
joined (w ∷ ws) = w ++ joined ws

module _ {A : Type 0} (allocator : Allocator A) where
  -- What the construction does with the nodes that it has linked.
  end_kleene-after :
      (fuel body start accept first target : ℕ) (b : ℕ × ℕ × NfaCtrl A)
      → b.0 ≡ start
      → b.1 ≡ accept
      → (b.2.nodes body).parent ≡ first
      → tighten allocator fuel first b.2 ≡ some target
      → ◌>>=◌ {B = ℕ × NfaCtrl A}
          (tighten allocator fuel (b.2.nodes body).parent b.2)
          (λ t. some (b.1, end_kleene allocator b.0 b.1 body t b.2))
        ≡ some (accept, end_kleene allocator start accept body target b.2)
  end_kleene-after fuel body start accept first target (x, y, c) e e' e'' found =
      rw (e'', found, e, e') refl

  module _ (body : ℕ) (c : NfaCtrl A) (start accept : ℕ)
      (first_free : (allocator.nfa_alloc c.alloc).0 ≡ start)
      (second_free : (allocator.nfa_alloc (allocator.nfa_alloc c.alloc).1).0 ≡ accept)
      (apart : (start == accept) ≡ false) (start_apart : (start == body) ≡ false)
      (accept_apart : (accept == body) ≡ false) where
    abbrev linked : NfaCtrl A
    linked = (begin_kleene allocator body c).2

    abbrev result : ℕ → NfaCtrl A
    result target = end_kleene allocator start accept body target linked

    linked-parent : (linked.nodes body).parent ≡ (c.nodes body).parent
    unfolding begin_kleene surround new_nfa update
    linked-parent = ground (arith)

    linked-start : (begin_kleene allocator body c).0 ≡ start
    unfolding begin_kleene surround new_nfa
    linked-start = first_free

    linked-accept : (begin_kleene allocator body c).1 ≡ accept
    unfolding begin_kleene surround new_nfa
    linked-accept = second_free

    result-start :
        (target : ℕ)
        → (((result target).nodes start).type ≡ nfa_split)
          × (((result target).nodes start).out1 ≡ accept)
          × (((result target).nodes start).out2 ≡ (c.nodes body).parent)
    unfolding begin_kleene end_kleene surround new_nfa update
    result-start target = ground (arith)

    result-body :
        (target : ℕ)
        → (((result target).nodes body).type ≡ nfa_split)
          × (((result target).nodes body).out1 ≡ target)
          × (((result target).nodes body).out2 ≡ accept)
    unfolding begin_kleene end_kleene surround new_nfa update
    result-body target = ground (arith)

    result-accept : (target : ℕ) → ((result target).nodes accept).parent ≡ start
    unfolding begin_kleene end_kleene surround new_nfa update
    result-accept target = ground (arith)

    result-other :
        (target q : ℕ)
        → (q == start) ≡ false
        → (q == accept) ≡ false
        → (q == body) ≡ false
        → (result target).nodes q ≡ c.nodes q
    unfolding begin_kleene end_kleene surround new_nfa update
    result-other target q e e' e'' = ground (arith)

    linked-same :
        (target p : ℕ)
        → ((linked.nodes p).type ≡ ((result target).nodes p).type)
          × ((linked.nodes p).out2 ≡ ((result target).nodes p).out2)
    unfolding end_kleene update
    linked-same target p = ground (arith)

    module _ (within : ℕ → Bool) (accepts : (c.nodes body).type ≡ nfa_accepting)
        (start_outside : within start ≡ false) (accept_outside : within accept ≡ false) where
      abbrev first : ℕ
      first = (c.nodes body).parent

      outside : (q p : ℕ) → within q ≡ true → within p ≡ false → (q == p) ≡ false
      outside q p i o = elim (Bool-cases (q == p)) [
        | inl b ↦
            (let e : within q ≡ within p = ap within ((==_iff q p).0 b) in
              absurd (let f : true ≡ false = sym i ∙ (e ∙ o) in cc))
        | inr b ↦ b
      ]

      -- The nodes of the body are left alone.
      inside-same :
          (target q : ℕ)
          → within q ≡ true
          → (q == body) ≡ false
          → (result target).nodes q ≡ c.nodes q
      inside-same target q i e =
          result-other target q (outside q start i start_outside)
            (outside q accept i accept_outside) e

      linked-inside : (q : ℕ) → within q ≡ true → (q == body) ≡ false → linked.nodes q ≡ c.nodes q
      unfolding end_kleene update
      linked-inside q i e =
          let out = outside q accept i accept_outside in ground (arith, inside-same 0 q i e, out)

      linked-body : is_epsilon (linked.nodes body).type ≡ false
      linked-body = rw ((linked-same 0 body).0 ∙ (result-body 0).0) refl

      body-Word :
          (fuel target : ℕ) {w : List ℕ}
          → tighten allocator fuel first linked ≡ some target
          → Word c.nodes within first w body
          → Word (result target).nodes everywhere first w body
            × Word (result target).nodes everywhere target w body
      body-Word fuel target found d =
          let d' =
            (Word-change c.nodes (result target).nodes body accepts (inside-same target) d).0 in
          (
            d',
            tighten-Word allocator fuel body target linked (result target).nodes
                (linked-same target) (ap is_epsilon (result-body target).0) d' found,
          )

      -- From the body, which is the split of the loop.
      repeat-Word :
          (fuel target : ℕ) (ws : List (List ℕ))
          → tighten allocator fuel first linked ≡ some target
          → Every (λ w. Word c.nodes within first w body) ws
          → Word (result target).nodes everywhere body (joined ws) accept
      repeat-Word fuel target [] found h =
          right refl (result-body target).0 (result-body target).2 stop
      repeat-Word fuel target (w ∷ ws) found h =
          left refl (result-body target).0 (result-body target).1
            (Word-append (body-Word fuel target found h.0).1 (repeat-Word fuel target ws found h.1))

      star-Word :
          (fuel target : ℕ) (ws : List (List ℕ))
          → tighten allocator fuel first linked ≡ some target
          → Every (λ w. Word c.nodes within first w body) ws
          → Word (result target).nodes everywhere start (joined ws) accept
      star-Word fuel target [] found h =
          left refl (result-start target).0 (result-start target).1 stop
      star-Word fuel target (w ∷ ws) found h =
          right refl (result-start target).0 (result-start target).2
            (Word-append (body-Word fuel target found h.0).0 (repeat-Word fuel target ws found h.1))

      new_kleene_nfa-result :
          (fuel target : ℕ)
          → tighten allocator fuel first linked ≡ some target
          → new_kleene_nfa allocator fuel body c ≡ some (accept, result target)
      unfolding new_kleene_nfa
      new_kleene_nfa-result fuel target found =
          end_kleene-after fuel body start accept first target (begin_kleene allocator body c)
            linked-start linked-accept linked-parent found

      -- The star of a body: the last node of the body accepts, the allocator gives two nodes apart from
      -- each other, from that node and from those that the paths of the body leave, and some path of the
      -- body has fewer steps than the fuel. Then the construction returns a fragment, and each
      -- repetition of words of the body, the empty one included, leads from its first node to its last.
      pub new_kleene_nfa-Word :
          (fuel : ℕ) {w : List ℕ} (d : Word c.nodes within first w body)
          → steps d < fuel
          → (c' : NfaCtrl A) × (new_kleene_nfa allocator fuel body c ≡ some (accept, c'))
            × ((ws : List (List ℕ))
                → Every (λ v. Word c.nodes within first v body) ws
                → Word c'.nodes everywhere (c'.nodes accept).parent (joined ws) accept)
      new_kleene_nfa-Word fuel d less =
          let (d', n) = Word-change c.nodes linked.nodes body accepts linked-inside d in
          let (target, found) =
            tighten-ends allocator fuel body linked linked.nodes (λ p. (refl, refl)) linked-body d'
              (omega (arith, n)) in
          (
            result target,
            new_kleene_nfa-result fuel target found,
            (λ ws h. rw (result-accept target) (star-Word fuel target ws found h)),
          )
