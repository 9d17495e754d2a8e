-- ===== src/Nfa/Tighten.antt =====
-- The loop over nodes that take nothing, by which the constructions of src/nfa.c look for a target.
use mathlib.Core.Path.{subst}
use regex.Base.{
  ℕ, zero, suc, ◌≡◌, ◌<◌, ◌∙◌, inl, inr, Bool, true, false, Bool-cases, Option, some, List, [], ◌∷◌,
  ◌==◌, if◌then◌else◌, arith,
}
use regex.Nfa.{Nfa, NfaType, nfa_epsilon}
use regex.Nfa.Build.{Allocator, NfaCtrl, tighten}
use regex.Nfa.Words.{Word, stop, empty, left, right, take, takes_byte, steps, everywhere}

abbrev pub is_epsilon : NfaType → Bool
is_epsilon nfa_epsilon = true
is_epsilon _ = false

takes_epsilon : (n : Nfa) (c : ℕ) → takes_byte n c ≡ true → is_epsilon n.type ≡ false
unfolding takes_byte
takes_epsilon n c e = ground (arith)

module _ {A : Type 0} (allocator : Allocator A) where
  tighten_other :
      (k q : ℕ) (c : NfaCtrl A)
      → is_epsilon (c.nodes q).type ≡ false
      → tighten allocator (suc k) q c ≡ some q
  unfolding tighten
  tighten_other k q c e = ground (arith)

  tighten_next :
      (k q r : ℕ) (c : NfaCtrl A)
      → (c.nodes q).type ≡ nfa_epsilon
      → (c.nodes q).out2 ≡ r
      → tighten allocator (suc k) q c ≡ (if r == 0 then some 0 else tighten allocator k r c)
  unfolding tighten
  tighten_next k q r c e o = ground (arith)

  -- The nodes that the loop looks at and those of a path agree where it looks.
  abbrev pub Agree : NfaCtrl A → (ℕ → Nfa) → Type 0
  Agree c nodes =
      (p : ℕ) → ((c.nodes p).type ≡ (nodes p).type) × ((c.nodes p).out2 ≡ (nodes p).out2)

  -- The loop ends in fewer rounds than a path has steps.
  pub tighten-ends :
      (k body : ℕ) (c : NfaCtrl A) (nodes : ℕ → Nfa) {q : ℕ} {w : List ℕ}
      → Agree c nodes
      → is_epsilon (nodes body).type ≡ false
      → (d : Word nodes everywhere q w body) → steps d < k
      → (target : ℕ) × (tighten allocator k q c ≡ some target)
  tighten-ends zero body c nodes same e d h = absurd (omega arith)
  tighten-ends (suc k) body c nodes same e (stop {s}) h =
      (s, tighten_other k s c (ground (arith, same s)))
  tighten-ends (suc k) body c nodes same e (left {s = s} i e' o d) h =
      (s, tighten_other k s c (ground (arith, same s)))
  tighten-ends (suc k) body c nodes same e (right {s = s} i e' o d) h =
      (s, tighten_other k s c (ground (arith, same s)))
  tighten-ends (suc k) body c nodes same e (take {s = s} {c = b} i e' o d) h =
      (s, tighten_other k s c (ground (arith, same s, takes_epsilon (nodes s) b e')))
  tighten-ends (suc k) body c nodes same e (empty {s = s} {r = r} i e' o d) h =
      let next = tighten_next k s r c ((same s).0 ∙ e') ((same s).1 ∙ o) in
      elim (Bool-cases (r == 0)) [
        | inl z ↦ (0, next ∙ ground (arith))
        | inr z ↦
            (let (target, found) = tighten-ends k body c nodes same e d (omega arith) in
              (target, next ∙ ground (arith, found)))
      ]

  same_target : {o : Option ℕ} {s target : ℕ} → o ≡ some s → o ≡ some target → s ≡ target
  same_target e e' = cc

  -- A path goes on from the node at which the loop ends.
  pub tighten-Word :
      (k body target : ℕ) (c : NfaCtrl A) (nodes : ℕ → Nfa) {q : ℕ} {w : List ℕ}
      → Agree c nodes
      → is_epsilon (nodes body).type ≡ false
      → (d : Word nodes everywhere q w body) → tighten allocator k q c ≡ some target
      → Word nodes everywhere target w body
  unfolding tighten
  tighten-Word zero body target c nodes same e d h = absurd (cc)
  tighten-Word (suc k) body target c nodes same e (stop {s}) h =
      let e' = same_target (tighten_other k s c (ground (arith, same s))) h in
      subst (λ (x : ℕ). Word nodes everywhere x [] body) e' stop
  tighten-Word (suc k) body target c nodes same e (left {s = s} {w = w} i e' o d) h =
      let f = same_target (tighten_other k s c (ground (arith, same s))) h in
      subst (λ (x : ℕ). Word nodes everywhere x w body) f (left i e' o d)
  tighten-Word (suc k) body target c nodes same e (right {s = s} {w = w} i e' o d) h =
      let f = same_target (tighten_other k s c (ground (arith, same s))) h in
      subst (λ (x : ℕ). Word nodes everywhere x w body) f (right i e' o d)
  tighten-Word (suc k) body target c nodes same e (take {s = s} {w = w} {c = b} i e' o d) h =
      let f =
        same_target (tighten_other k s c (ground (arith, same s, takes_epsilon (nodes s) b e')))
          h in
      subst (λ (x : ℕ). Word nodes everywhere x (b ∷ w) body) f (take i e' o d)
  tighten-Word (suc k) body target c nodes same e (empty {s = s} {r = r} {w = w} i e' o d) h =
      let next = tighten_next k s r c ((same s).0 ∙ e') ((same s).1 ∙ o) in
      elim (Bool-cases (r == 0)) [
        | inl z ↦
            (let f : r ≡ target = ground (arith, next, h) in
              subst (λ (x : ℕ). Word nodes everywhere x w body) f d)
        | inr z ↦ tighten-Word k body target c nodes same e d (ground (arith, next, h))
      ]
