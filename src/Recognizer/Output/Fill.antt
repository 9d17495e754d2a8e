-- ===== src/Recognizer/Output/Fill.antt =====
-- The parts of `fill_output_buffer` of src/recognizer.c for a long text: the loop and the rest.
use regex.Base.{
  ℕ, zero, suc, ◌+◌, ◌-◌, ◌*◌, ◌≤◌, ◌<◌, ◌≡◌, ◌≢◌, ◌∙◌, refl, sym, ap, true, false, some, List, [],
  ◌∷◌, ◌++◌, arith, ltb, length, drop, length-append, Every-snoc,
}
use native.Mathlib.Nat.{suc-mul}
use regex.Recognizer.Output.{Output, write_at, fill_and_flush, fill_loop, finish_output}
use regex.Recognizer.Output.Buffer.{
  slice, NoNull, length-slice, slice_split, strncpy_bytes-slice, append_assoc, length-drop,
  write_at-append, append_null-append, append_newline-append, flush_matches-append,
}

-- The bytes of `line` went to stdout, and the buffer is empty and as large as before.
pub record Prints (ctrl : Output) (line : List ℕ) (c : Output) : Type 0 where
  pub printed : c.printed ≡ ctrl.printed ++ line
  pub emptied : c.match_idx ≡ 0
  pub size : length c.matches ≡ length ctrl.matches

module _ (text : ℕ → ℕ) where
  -- The state behind a buffer that is filled to its last byte but one.
  fill_and_flush-Prints :
      (begin n : ℕ) (ctrl : Output)
      → ctrl.match_idx ≡ 0
      → n + 1 ≡ length ctrl.matches
      → NoNull (slice text begin n)
      → (c : Output) × (fill_and_flush text begin n ctrl ≡ some c)
        × Prints ctrl (slice text begin n) c
  unfolding fill_and_flush
  fill_and_flush-Prints begin n ctrl i e v =
      let s : List ℕ = slice text begin n in
      let r : List ℕ = drop (length s) ctrl.matches in
      let l : length s ≡ n = length-slice text begin n in
      let room : length r ≡ 1 = omega (arith, length-drop (length s) ctrl.matches, l, e) in
      let w : write_at s ctrl ≡ some (record ctrl { matches = s ++ r }) =
        write_at-append ctrl [] ctrl.matches s refl i (omega (arith, l, e)) in
      let size : length (s ++ r) ≡ length ctrl.matches =
        omega (arith, length-append s r, room, l, e) in
      let full : Output = record ctrl { matches = s ++ r; match_idx = length (s ++ r) - 1 } in
      let a = append_null-append full s r refl (omega (arith, size, l, e)) (omega (arith, room)) in
      let ended : Output = record full {
        matches = s ++ 0 ∷ drop 1 r;
        match = record ctrl.match { last_match_end = ctrl.match.end };
      } in
      let f = flush_matches-append ended s (drop 1 r) refl v in
      (
        record ended {
          printed = ctrl.printed ++ s;
          match_idx = 0;
          match = record ended.match { last_match_end = 0 };
        },
        rw (strncpy_bytes-slice text begin n v, w, a, f) refl,
        record {
          printed = refl;
          emptied = refl;
          size = omega (arith, length-append s (0 ∷ drop 1 r), length-drop 1 r, room, l, e);
        },
      )

  -- The rest of the text, its newline and a null fit into the buffer.
  pub finish_output-Prints :
      (begin n : ℕ) (ctrl : Output)
      → n + 2 ≤ length ctrl.matches
      → NoNull (slice text begin n)
      → (c : Output) × (finish_output text begin n ctrl ≡ some c)
        × Prints ctrl (slice text begin n ++ 10 ∷ []) c
  unfolding finish_output
  finish_output-Prints begin n ctrl e v =
      let s : List ℕ = slice text begin n in
      let t : List ℕ = s ++ 10 ∷ [] in
      let r : List ℕ = drop (length s) ctrl.matches in
      let l : length s ≡ n = length-slice text begin n in
      let l' : length t ≡ n + 1 = omega (arith, length-append s (10 ∷ []), l) in
      let room : length r ≡ length ctrl.matches - n =
        omega (arith, length-drop (length s) ctrl.matches, l) in
      let w =
        write_at-append (record ctrl { match_idx = 0 }) [] ctrl.matches s refl refl
          (omega (arith, l, e)) in
      let full : Output = record ctrl { matches = s ++ r; match_idx = n } in
      let b = append_newline-append full s r refl (sym l) (omega (arith, room, e)) in
      let lined : Output = record full { matches = s ++ 10 ∷ drop 1 r; match_idx = n + 1 } in
      let a =
        append_null-append lined t (drop 1 r) (sym (append_assoc s (10 ∷ []) (drop 1 r))) (sym l')
          (omega (arith, length-drop 1 r, room, e)) in
      let ended : Output = record lined {
        matches = t ++ 0 ∷ drop 1 (drop 1 r);
        match = record ctrl.match { last_match_end = ctrl.match.end };
      } in
      let f =
        flush_matches-append ended t (drop 1 (drop 1 r)) refl
          (Every-snoc (λ c. c ≢ 0) s 10 v (omega arith)) in
      (
        record ended {
          printed = ctrl.printed ++ t;
          match_idx = 0;
          match = record ended.match { last_match_end = 0 };
        },
        rw (strncpy_bytes-slice text begin n v, w, b, a, f) refl,
        record {
          printed = refl;
          emptied = refl;
          size = omega (
            arith,
            length-append t (0 ∷ drop 1 (drop 1 r)),
            length-drop 1 r,
            length-drop 1 (drop 1 r),
            room,
            l',
            e,
          );
        },
      )

append_nil : (s : List ℕ) → s ++ [] ≡ s
append_nil [] = refl
append_nil (c ∷ s) = ap (λ t. c ∷ t) (append_nil s)

pub Prints-trans :
    (a b c : Output) (s t : List ℕ) → Prints a s b → Prints b t c → Prints a (s ++ t) c
Prints-trans a b c s t p q = record {
  printed = q.printed ∙ ap (λ l. l ++ t) p.printed ∙ append_assoc a.printed s t;
  emptied = q.emptied;
  size = q.size ∙ p.size;
}

Prints-slice :
    (text : ℕ → ℕ) (begin n k total : ℕ)
    → total ≡ n + k
    → (a b c : Output) → Prints a (slice text begin n) b
    → Prints b (slice text (begin + n) k) c
    → Prints a (slice text begin total) c
Prints-slice text begin n k total e a b c p q =
    rw (e, slice_split text begin n k) (Prints-trans a b c _ _ p q)

pub le-mul : (q f : ℕ) → 1 ≤ f → q ≤ q * f
le-mul zero f h = omega arith
le-mul (suc q) f h = omega (arith, le-mul q f h, suc-mul q f)

-- No null among the `n` bytes of the text from `begin` on.
abbrev pub Printable : (ℕ → ℕ) → ℕ → ℕ → Type 0
Printable text begin n = (i : ℕ) → begin ≤ i → i < begin + n → text i ≢ 0

pub Printable-NoNull :
    (text : ℕ → ℕ) (begin n : ℕ) → Printable text begin n → NoNull (slice text begin n)
Printable-NoNull text begin zero v = tt
Printable-NoNull text begin (suc n) v = (
  v begin (omega arith) (omega arith),
  Printable-NoNull text (begin + 1) n (λ i p q. v i (omega arith) (omega arith)),
)

module _ (text : ℕ → ℕ) where
  -- Each round but the last prints a full buffer.
  pub fill_loop-Prints :
      (q k begin f r remain : ℕ) (ctrl : Output)
      → q < k
      → remain ≡ q * f + r
      → 1 ≤ r
      → r ≤ f
      → f + 1 ≡ length ctrl.matches
      → ctrl.match_idx ≡ 0
      → Printable text begin remain
      → (c : Output) × (fill_loop k text begin remain f ctrl ≡ some (begin + q * f, r, c))
        × Prints ctrl (slice text begin (q * f)) c
  unfolding fill_loop
  fill_loop-Prints q zero begin f r remain ctrl p e a b size i v = absurd (omega arith)
  fill_loop-Prints zero (suc k) begin f r remain ctrl p e a b size i v =
      let z : 0 * f ≡ 0 = omega arith in
      let last : ltb f remain ≡ false = ground arith in
      let all : remain ≡ r = omega arith in
      (
        ctrl,
        rw (last, all, z) (ground arith),
        rw z (record { printed = sym (append_nil ctrl.printed); emptied = i; size = refl }),
      )
  fill_loop-Prints (suc q) (suc k) begin f r remain ctrl p e a b size i v =
      let h : suc q * f ≡ f + q * f = omega (arith, suc-mul q f) in
      let more : ltb f remain ≡ true = ground (arith, h) in
      let place : begin + suc q * f ≡ begin + f + q * f = omega (arith, h) in
      let (c1, e1, p1) =
        fill_and_flush-Prints text begin f ctrl i size
          (Printable-NoNull text begin f (λ j x y. v j x (omega (arith, h, e)))) in
      let (c2, e2, p2) =
        fill_loop-Prints q k (begin + f) f r (remain - f) c1 (omega arith) (omega (arith, h, e)) a b
          (size ∙ sym p1.size) p1.emptied (λ j x y. v j (omega arith) (omega (arith, h, e))) in
      (
        c2,
        rw (more, e1, place) e2,
        Prints-slice text begin f (q * f) (suc q * f) h ctrl c1 c2 p1 p2,
      )
