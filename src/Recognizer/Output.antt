-- ===== src/Recognizer/Output.antt =====
-- The buffer of output, src/recognizer.c. `printed` is what stdout has got; `matches` is the buffer,
-- whose length is MATCH_BUFFER_SIZE; an access outside it is a fault, `none`. A position is an
-- address, 0 is null, and `text` is the byte at an address.
pub mod Buffer
pub mod Fill
pub mod Small
pub mod Large
pub mod Tests
use regex.Base.{
  ℕ, zero, suc, ◌+◌, ◌-◌, Bool, Option, none, some, List, [], ◌∷◌, ◌++◌, ltb, leb, ◌==◌,
  if◌then◌else◌, length, take, drop, replicate,
}
use regex.Recognizer.Matches.{Match}

infixl 5 ◌>>=◌
abbrev pub ◌>>=◌ : {A B : Type 0} → Option A → (A → Option B) → Option B
none >>= f = none
some a >>= f = f a

-- The fields of an `NFASimCtrl` that the output uses; `line_no` is its scanner's.
pub record Output : Type 0 where
  pub matches : List ℕ
  pub match_idx : ℕ
  pub printed : List ℕ
  pub match : Match
  pub filename : List ℕ
  pub line_no : ℕ
  pub buffer_start : ℕ
  pub buffer_end : ℕ
  pub ctrl_flags : ℕ

-- A C string: the bytes before the first null.
unfoldable pub c_string : List ℕ → Option (List ℕ)
c_string [] = none
c_string (c ∷ rest) =
    let more = c_string rest in if c == 0 then some [] else more >>= λ s. some (c ∷ s)

-- `strncpy`: the bytes before a null, and nulls from there on.
unfoldable pub strncpy_bytes : (ℕ → ℕ) → ℕ → ℕ → List ℕ
strncpy_bytes text begin zero = []
strncpy_bytes text begin (suc n) =
    let rest = strncpy_bytes text (begin + 1) n in
    if text begin == 0 then replicate (suc n) 0 else text begin ∷ rest

-- A write of bytes at the index `i`.
unfoldable pub put_bytes : List ℕ → ℕ → List ℕ → Option (List ℕ)
put_bytes buffer i bytes =
    if leb (i + length bytes) (length buffer)
    then some (take i buffer ++ bytes ++ drop (i + length bytes) buffer)
    else none

unfoldable pub write_at : List ℕ → Output → Option Output
write_at bytes ctrl = do
  buffer ← put_bytes ctrl.matches ctrl.match_idx bytes
  some (record ctrl { matches = buffer })

unfoldable pub flush_matches : Output → Option Output
flush_matches ctrl = do
  s ← c_string ctrl.matches
  some (record ctrl {
    printed = ctrl.printed ++ s;
    match_idx = 0;
    match = record ctrl.match { last_match_end = 0 };
  })

-- `APPEND_NEWLINE`
unfoldable pub append_newline : Output → Option Output
append_newline ctrl = do
  c ← write_at (10 ∷ []) ctrl
  some (record c { match_idx = c.match_idx + 1 })

-- `APPEND_NULL`
unfoldable pub append_null : Output → Option Output
append_null ctrl = do
  c ← write_at (0 ∷ []) ctrl
  some (record c { match = record c.match { last_match_end = c.match.end } })

-- `strncpy` to the index, then the index goes to the last byte, a null there, and a flush.
unfoldable pub fill_and_flush : (ℕ → ℕ) → ℕ → ℕ → Output → Option Output
fill_and_flush text begin fill_size ctrl = do
  c ← write_at (strncpy_bytes text begin fill_size) ctrl
  n ← append_null (record c { match_idx = length c.matches - 1 })
  flush_matches n

-- `while(remain_out > fill_size)`; the begin and the remainder behind it
unfoldable pub fill_loop : ℕ → (ℕ → ℕ) → ℕ → ℕ → ℕ → Output → Option (ℕ × ℕ × Output)
fill_loop zero text begin remain_out fill_size ctrl = none
fill_loop (suc k) text begin remain_out fill_size ctrl =
    if ltb fill_size remain_out
    then (do
      c ← fill_and_flush text begin fill_size ctrl
      fill_loop k text (begin + fill_size) (remain_out - fill_size) fill_size c)
    else some (begin, remain_out, ctrl)

-- What is left behind the loop: the text with its newline.
unfoldable pub finish_output : (ℕ → ℕ) → ℕ → ℕ → Output → Option Output
finish_output text begin remain_out ctrl = do
  c ← write_at (strncpy_bytes text begin remain_out) (record ctrl { match_idx = 0 })
  n ← append_newline (record c { match_idx = remain_out })
  t ← append_null n
  flush_matches t

unfoldable pub fill_rest : (ℕ → ℕ) → ℕ → ℕ → Output → Option Output
fill_rest text begin remain_out ctrl =
    let size = length ctrl.matches in
    if remain_out == 0
    then some ctrl
    else if remain_out == size
    then (do
      f ← fill_and_flush text begin (size - 1) (record ctrl { match_idx = 0 })
      finish_output text begin (remain_out - (size - 1)) f)
    else finish_output text begin remain_out ctrl

unfoldable pub fill_large : (ℕ → ℕ) → ℕ → ℕ → Output → Option Output
fill_large text begin sz ctrl =
    let size = length ctrl.matches in
    let fill_size = size - ctrl.match_idx - 1 in
    (if ctrl.match_idx == 0
      then some (begin, sz, fill_size, ctrl)
      else if ltb fill_size 1
      then (do c ← flush_matches ctrl; some (begin, sz, size - 1, c))
      else (do
        c ← fill_and_flush text begin fill_size ctrl
        some (begin + fill_size, sz - fill_size, size - 1, c)))
    >>= λ (b, remain, fill, c). fill_loop (remain + 1) text b remain fill c >>= λ (b', remain', c').
        fill_rest text b' remain' c'

unfoldable pub fill_output_buffer : (ℕ → ℕ) → ℕ → ℕ → Bool → Output → Option Output
fill_output_buffer text begin sz flush_buffer ctrl =
    if leb (length ctrl.matches) (ctrl.match_idx + sz + 1)
    then fill_large text begin sz ctrl
    else (do
      c ← write_at (strncpy_bytes text begin sz) ctrl
      n ← append_newline (record c { match_idx = c.match_idx + sz })
      t ← append_null n
      if flush_buffer then flush_matches t else some t)
