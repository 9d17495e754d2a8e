-- ===== src/Recognizer/Output/Buffer.antt =====
-- Writes to the buffer of output, src/recognizer.c: text behind what the buffer holds, its null, and
-- the flush.
use regex.Base.{
  ℕ, zero, suc, ◌+◌, ◌-◌, ◌≤◌, ◌≡◌, ◌≢◌, refl, ap, none, some, List, [], ◌∷◌, ◌++◌, arith, length,
  take, drop, Every, length-append,
}
use regex.Recognizer.Output.{
  Output, c_string, strncpy_bytes, put_bytes, write_at, flush_matches, append_newline, append_null,
}

-- The `n` bytes of the text from `begin` on.
abbrev pub slice : (ℕ → ℕ) → ℕ → ℕ → List ℕ
slice text begin zero = []
slice text begin (suc n) = text begin ∷ slice text (begin + 1) n

abbrev pub NoNull : List ℕ → Type 0
NoNull s = Every (λ c. c ≢ 0) s

pub length-slice : (text : ℕ → ℕ) (begin n : ℕ) → length (slice text begin n) ≡ n
length-slice text begin zero = refl
length-slice text begin (suc n) = ap suc (length-slice text (begin + 1) n)

pub slice_split :
    (text : ℕ → ℕ) (begin n k : ℕ)
    → slice text begin (n + k) ≡ slice text begin n ++ slice text (begin + n) k
slice_split text begin zero k = ground arith
slice_split text begin (suc n) k =
    let e : suc n + k ≡ suc (n + k) = omega arith in
    let f : begin + suc n ≡ begin + 1 + n = omega arith in
    rw (e, f) (ap (λ t. text begin ∷ t) (slice_split text (begin + 1) n k))

pub strncpy_bytes-slice :
    (text : ℕ → ℕ) (begin n : ℕ)
    → NoNull (slice text begin n)
    → strncpy_bytes text begin n ≡ slice text begin n
unfolding strncpy_bytes
strncpy_bytes-slice text begin zero v = refl
strncpy_bytes-slice text begin (suc n) v =
    ground (arith, strncpy_bytes-slice text (begin + 1) n v.1)

pub take-append : (s r : List ℕ) → take (length s) (s ++ r) ≡ s
take-append [] r = refl
take-append (c ∷ s) r = ap (λ t. c ∷ t) (take-append s r)

drop-append : (s r : List ℕ) (n : ℕ) → drop (length s + n) (s ++ r) ≡ drop n r
drop-append [] r n = ground arith
drop-append (c ∷ s) r n =
    let e : suc (length s) + n ≡ suc (length s + n) = omega arith in rw e (drop-append s r n)

pub length-drop : (n : ℕ) (s : List ℕ) → length (drop n s) ≡ length s - n
length-drop zero s = omega arith
length-drop (suc n) [] = omega arith
length-drop (suc n) (c ∷ s) = omega (arith, length-drop n s)

pub append_assoc : (r s t : List ℕ) → (r ++ s) ++ t ≡ r ++ (s ++ t)
append_assoc [] s t = refl
append_assoc (c ∷ r) s t = ap (λ l. c ∷ l) (append_assoc r s t)

-- A write behind `s` that fits.
put_bytes-append :
    (s r b : List ℕ)
    → length b ≤ length r
    → put_bytes (s ++ r) (length s) b ≡ some (s ++ (b ++ drop (length b) r))
unfolding put_bytes
put_bytes-append s r b h = ground (
  arith,
  take-append s r,
  drop-append s r (length b),
  length-append s r,
  append_assoc s b (drop (length b) r),
)

c_string-append : (s r : List ℕ) → NoNull s → c_string (s ++ 0 ∷ r) ≡ some s
unfolding c_string
c_string-append [] r v = refl
c_string-append (c ∷ s) r v = ground (arith, c_string-append s r v.1)

module _ (ctrl : Output) (s r : List ℕ) where
  pub write_at-append :
      (b : List ℕ)
      → ctrl.matches ≡ s ++ r
      → ctrl.match_idx ≡ length s
      → length b ≤ length r
      → write_at b ctrl ≡ some (record ctrl { matches = s ++ (b ++ drop (length b) r) })
  unfolding write_at
  write_at-append b e i h = rw (e, i, put_bytes-append s r b h) refl

  pub append_null-append :
      ctrl.matches ≡ s ++ r
      → ctrl.match_idx ≡ length s
      → 1 ≤ length r
      → append_null ctrl
        ≡ some (record ctrl {
          matches = s ++ 0 ∷ drop 1 r;
          match = record ctrl.match { last_match_end = ctrl.match.end };
        })
  unfolding append_null
  append_null-append e i h = rw (write_at-append (0 ∷ []) e i h) refl

  pub append_newline-append :
      ctrl.matches ≡ s ++ r
      → ctrl.match_idx ≡ length s
      → 1 ≤ length r
      → append_newline ctrl
        ≡ some (record ctrl { matches = s ++ 10 ∷ drop 1 r; match_idx = ctrl.match_idx + 1 })
  unfolding append_newline
  append_newline-append e i h = rw (write_at-append (10 ∷ []) e i h) refl

  pub flush_matches-append :
      ctrl.matches ≡ s ++ 0 ∷ r
      → NoNull s
      → flush_matches ctrl
        ≡ some (record ctrl {
          printed = ctrl.printed ++ s;
          match_idx = 0;
          match = record ctrl.match { last_match_end = 0 };
        })
  unfolding flush_matches
  flush_matches-append e v = rw (e, c_string-append s r v) refl

-- There is no byte behind the buffer for a null.
pub append_null-full :
    (ctrl : Output) → length ctrl.matches ≤ ctrl.match_idx → append_null ctrl ≡ none
unfolding append_null write_at put_bytes
append_null-full ctrl h = ground arith
