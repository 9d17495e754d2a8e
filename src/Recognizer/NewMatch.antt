-- ===== src/Recognizer/NewMatch.antt =====
-- The output of a match, src/recognizer.c `new_match`: what precedes it, and the buffer or stdout.
use regex.Base.{
  ℕ, zero, suc, ◌+◌, ◌-◌, ◌/◌, ◌%◌, Bool, true, false, ◌&&◌, ◌||◌, Option, none, some, List, [],
  ◌∷◌, ◌++◌, ltb, leb, ◌==◌, if◌then◌else◌, length, take,
}
use regex.Flags.{
  has_flag, show_lineno_flag, show_file_name_flag, silent_match_flag, show_match_line_flag,
}
use regex.Recognizer.Output.{Output, ◌>>=◌, write_at, flush_matches, fill_output_buffer}

-- `while((tmp/10 > 0) && (tmp /= 10) && (++w))`; a number is its own bound on the rounds.
unfoldable pub width_loop : ℕ → ℕ → ℕ → ℕ
width_loop zero tmp w = w
width_loop (suc k) tmp w = if ltb 0 (tmp / 10) then width_loop k (tmp / 10) (w + 1) else w

unfoldable pub line_width : ℕ → ℕ
unfolding width_loop
line_width line_no = width_loop line_no line_no 1

-- `%d` of a number that is not negative
unfoldable pub decimal : ℕ → ℕ → List ℕ
decimal zero n = (b'0' + n % 10) ∷ []
decimal (suc k) n =
    let front = decimal k (n / 10) in
    if ltb 0 (n / 10) then front ++ (b'0' + n % 10) ∷ [] else (b'0' + n % 10) ∷ []

-- `snprintf`: at most `size - 1` bytes of the string, and a null.
unfoldable pub snprintf_bytes : ℕ → List ℕ → List ℕ
snprintf_bytes size s = take (size - 1) s ++ 0 ∷ []

-- A prefix goes straight to stdout if the output does not fit into the buffer, and into the
-- buffer otherwise.
unfoldable pub put_prefix : Bool → ℕ → List ℕ → Output → Option Output
unfolding write_at snprintf_bytes
put_prefix true size s ctrl = some (record ctrl { printed = ctrl.printed ++ s })
put_prefix false size s ctrl = do
  c ← write_at (snprintf_bytes size s) ctrl
  some (record c { match_idx = c.match_idx + length s })

-- `match_idx -= n`
unfoldable pub step_index : ℕ → Output → Option Output
step_index n ctrl =
    if leb n ctrl.match_idx then some (record ctrl { match_idx = ctrl.match_idx - n }) else none

-- A match at or right behind the end of the last one takes back the newline between them.
unfoldable pub join_last : Output → Option Output
unfolding step_index
join_last ctrl =
    if ctrl.match.last_match_end == 0
    then some ctrl
    else if ctrl.match.start == ctrl.match.last_match_end
    then step_index 2 ctrl
    else if ctrl.match.start == ctrl.match.last_match_end + 1
    then step_index 1 ctrl
    else some ctrl

-- `(match_idx + sz + 1) >= MATCH_BUFFER_SIZE`
unfoldable pub input_too_big : ℕ → Output → Bool
input_too_big sz ctrl = leb (length ctrl.matches) (ctrl.match_idx + sz + 1)

unfoldable pub flush_if_full : ℕ → Output → Option Output
unfolding input_too_big flush_matches
flush_if_full sz ctrl =
    if ctrl.match_idx == 0
    then some ctrl
    else if input_too_big sz ctrl
    then flush_matches ctrl
    else some ctrl

-- The text from `begin`, `sz` bytes long, behind the file name and the line number.
unfoldable pub emit_match : (ℕ → ℕ) → ℕ → ℕ → Output → Option Output
unfolding join_last flush_if_full put_prefix line_width decimal fill_output_buffer
emit_match text begin sz ctrl =
    let named = has_flag show_file_name_flag ctrl.ctrl_flags && ltb 0 (length ctrl.filename) in
    let numbered = has_flag show_lineno_flag ctrl.ctrl_flags in
    let nm_len = length ctrl.filename in
    let w = line_width ctrl.line_no in
    let whole = sz + (if named then nm_len + 1 else 0) + (if numbered then w + 1 else 0) in
    join_last ctrl >>= λ joined. flush_if_full whole joined >>= λ c.
    let too_big = input_too_big whole c in
    (if named then put_prefix too_big (nm_len + 2) (ctrl.filename ++ b':' ∷ []) c else some c)
    >>= λ c'.
        (if numbered
          then put_prefix too_big (nm_len + w + 1) (decimal ctrl.line_no ctrl.line_no ++ b':' ∷ [])
              c'
          else some c')
        >>= λ c''. fill_output_buffer text begin sz (too_big && (named || numbered)) c''

-- The line that holds the match, or the match. `end - begin + 1` is taken for a line or a match
-- that ends no more than one byte before it begins.
unfoldable pub new_match : (ℕ → ℕ) → Output → Option Output
unfolding emit_match
new_match text ctrl =
    if has_flag silent_match_flag ctrl.ctrl_flags
    then some ctrl
    else if ctrl.match.start == 0
    then some ctrl
    else if ltb ctrl.match.end ctrl.match.start
    then some ctrl
    else if has_flag show_match_line_flag ctrl.ctrl_flags
    then emit_match text ctrl.buffer_start (ctrl.buffer_end - ctrl.buffer_start) ctrl
    else emit_match text ctrl.match.start (ctrl.match.end + 1 - ctrl.match.start) ctrl
