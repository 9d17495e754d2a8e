-- ===== src/Recognizer/Output/Large.antt =====
-- What `fill_output_buffer` of src/recognizer.c does with a text that is longer than the buffer.
use regex.Base.{
  ℕ, zero, suc, ◌+◌, ◌-◌, ◌*◌, ◌≤◌, ◌<◌, ◌≡◌, ◌∙◌, refl, Bool, true, some, [], ◌∷◌, ◌++◌, arith,
  leb, ◌==◌, length,
}
use native.Mathlib.Nat.{suc-mul}
use regex.Recognizer.Output.{
  Output, fill_loop, fill_rest, finish_output, fill_large, fill_output_buffer,
}
use regex.Recognizer.Output.Buffer.{slice, slice_split, append_assoc}
use regex.Recognizer.Output.Fill.{
  Prints, Prints-trans, Printable, Printable-NoNull, le-mul, fill_loop-Prints, finish_output-Prints,
}

Prints-line :
    (text : ℕ → ℕ) (begin n k total : ℕ)
    → total ≡ n + k
    → (a b c : Output) → Prints a (slice text begin n) b
    → Prints b (slice text (begin + n) k ++ 10 ∷ []) c
    → Prints a (slice text begin total ++ 10 ∷ []) c
Prints-line text begin n k total e a b c p q =
    rw
      (
        e,
        slice_split text begin n k,
        append_assoc (slice text begin n) (slice text (begin + n) k) (10 ∷ []),
      )
      (Prints-trans a b c _ _ p q)

one_round : (q f : ℕ) → 1 ≤ q → f ≤ q * f
one_round zero f h = absurd (omega arith)
one_round (suc q) f h = omega (arith, suc-mul q f)

module _ (text : ℕ → ℕ) where
  -- The way through `fill_output_buffer` for a text that does not fit, from an empty buffer.
  large_run :
      (begin f r sz begin' : ℕ) (flush : Bool) (ctrl c : Output)
      → leb (length ctrl.matches) (ctrl.match_idx + sz + 1) ≡ true
      → (ctrl.match_idx == 0) ≡ true
      → length ctrl.matches - ctrl.match_idx - 1 ≡ f
      → fill_loop (sz + 1) text begin sz f ctrl ≡ some (begin', r, c)
      → fill_output_buffer text begin sz flush ctrl ≡ fill_rest text begin' r c
  unfolding fill_output_buffer fill_large
  large_run begin f r sz begin' flush ctrl c big empty fill e = rw (big, empty, fill, e) refl

  -- The text of `sz` bytes is longer than the buffer, which is empty and has `f + 1` bytes.
  large :
      (q begin f r sz : ℕ) (ctrl : Output) (flush : Bool)
      → sz ≡ q * f + r
      → 1 ≤ q
      → 1 ≤ r
      → r ≤ f
      → f + 1 ≡ length ctrl.matches
      → ctrl.match_idx ≡ 0
      → Printable text begin sz
      → (c : Output) × (fill_output_buffer text begin sz flush ctrl
          ≡ fill_rest text (begin + q * f) r c)
        × Prints ctrl (slice text begin (q * f)) c
  large q begin f r sz ctrl flush e t a b size i v =
      let (c, e1, p) =
        fill_loop-Prints text q (sz + 1) begin f r sz ctrl (omega (arith, le-mul q f (omega arith)))
          e a b size i v in
      (
        c,
        large_run begin f r sz _ flush ctrl c (ground (arith, one_round q f t)) (ground arith)
            (omega arith) e1,
        p,
      )

  fill_rest-finish :
      (begin r : ℕ) (c : Output)
      → 1 ≤ r
      → r + 1 ≤ length c.matches
      → fill_rest text begin r c ≡ finish_output text begin r c
  unfolding fill_rest
  fill_rest-finish begin r c a b = ground arith

  -- A text longer than the buffer of `f + 1` bytes, which is empty, goes to stdout in full and with
  -- a newline behind it, and leaves the buffer empty, if the text has no null and what is left of
  -- it after `q` rounds of `f` bytes is not empty and shorter than `f`.
  pub fill_output_buffer-Prints :
      (q begin f r sz : ℕ) (ctrl : Output) (flush : Bool)
      → sz ≡ q * f + r
      → 1 ≤ q
      → 1 ≤ r
      → r < f
      → f + 1 ≡ length ctrl.matches
      → ctrl.match_idx ≡ 0
      → Printable text begin sz
      → (c : Output) × (fill_output_buffer text begin sz flush ctrl ≡ some c)
        × Prints ctrl (slice text begin sz ++ 10 ∷ []) c
  fill_output_buffer-Prints q begin f r sz ctrl flush e t a b size i v =
      let (c1, e1, p1) = large q begin f r sz ctrl flush e t a (omega arith) size i v in
      let (c2, e2, p2) =
        finish_output-Prints text (begin + q * f) r c1 (omega (arith, p1.size))
          (Printable-NoNull text (begin + q * f) r (λ j x y. v j (omega arith) (omega arith))) in
      (
        c2,
        e1 ∙ fill_rest-finish (begin + q * f) r c1 a (omega (arith, p1.size)) ∙ e2,
        Prints-line text begin (q * f) r sz e ctrl c1 c2 p1 p2,
      )
