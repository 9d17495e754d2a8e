-- ===== src/Recognizer/Kept.antt =====
-- The control flags are not changed by the output of a match, src/recognizer.c.
use regex.Base.{
  ℕ, zero, suc, ◌+◌, ◌-◌, ◌≡◌, refl, Bool, true, false, ◌&&◌, Bool-cases, inl, inr, Option, some,
  List, [], ◌∷◌, arith, ltb, ◌==◌, length, if◌then◌else◌,
}
use regex.Flags.{has_flag, show_lineno_flag, show_file_name_flag}
use regex.Recognizer.Output.{
  Output, ◌>>=◌, c_string, strncpy_bytes, put_bytes, write_at, flush_matches, append_newline,
  append_null, fill_and_flush, fill_loop, finish_output, fill_rest, fill_large, fill_output_buffer,
}
use regex.Recognizer.NewMatch.{
  put_prefix, step_index, join_last, flush_if_full, emit_match, new_match, snprintf_bytes,
}
use regex.Recognizer.Ensures.{Ensures, Ensures-bind, Ensures-self}

module _ (f : ℕ) where
  abbrev Kept : Output → Type 0
  Kept o = o.ctrl_flags ≡ f

  Kept-bind :
      (o : Option Output) (k : Output → Option Output)
      → Ensures Kept o
      → ((c : Output) → Kept c → Ensures Kept (k c))
      → Ensures Kept (o >>= k)
  Kept-bind o k = Ensures-bind Kept Kept o k

  -- A part that does not look at the flags, and a record that keeps them.
  part-Kept :
      {A : Type 0} (o : Option A) (k : A → Option Output)
      → ((a : A) → Ensures Kept (k a))
      → Ensures Kept (o >>= k)
  part-Kept o k h = Ensures-bind (λ a. o ≡ some a) Kept o k (Ensures-self o) (λ a e. h a)

  write_at-Kept : (bytes : List ℕ) (o : Output) → Kept o → Ensures Kept (write_at bytes o)
  unfolding write_at
  write_at-Kept bytes o e = part-Kept (put_bytes o.matches o.match_idx bytes) _ (λ b. e)

  flush_matches-Kept : (o : Output) → Kept o → Ensures Kept (flush_matches o)
  unfolding flush_matches
  flush_matches-Kept o e = part-Kept (c_string o.matches) _ (λ b. e)

  append_newline-Kept : (o : Output) → Kept o → Ensures Kept (append_newline o)
  unfolding append_newline
  append_newline-Kept o e =
      Kept-bind (write_at (10 ∷ []) o) _ (write_at-Kept (10 ∷ []) o e) (λ c w. w)

  append_null-Kept : (o : Output) → Kept o → Ensures Kept (append_null o)
  unfolding append_null
  append_null-Kept o e = Kept-bind (write_at (0 ∷ []) o) _ (write_at-Kept (0 ∷ []) o e) (λ c w. w)

  fill_and_flush-Kept :
      (text : ℕ → ℕ) (begin n : ℕ) (o : Output)
      → Kept o
      → Ensures Kept (fill_and_flush text begin n o)
  unfolding fill_and_flush
  fill_and_flush-Kept text begin n o e =
      Kept-bind (write_at (strncpy_bytes text begin n) o) _ (write_at-Kept _ o e) (λ c w.
        Kept-bind (append_null (record c { match_idx = length c.matches - 1 })) _
          (append_null-Kept _ w) (λ c' w'. flush_matches-Kept c' w'))

  fill_loop-Kept :
      (k : ℕ) (text : ℕ → ℕ) (begin remain n : ℕ) (o : Output)
      → Kept o
      → Ensures (λ r. Kept r.2) (fill_loop k text begin remain n o)
  unfolding fill_loop
  fill_loop-Kept zero text begin remain n o e = tt
  fill_loop-Kept (suc k) text begin remain n o e = elim (Bool-cases (ltb n remain)) [
    | inl b ↦ rw b (
        Ensures-bind Kept (λ (r : ℕ × ℕ × Output). Kept r.2) (fill_and_flush text begin n o) _
          (fill_and_flush-Kept text begin n o e)
          (λ c w. fill_loop-Kept k text (begin + n) (remain - n) n c w))
    | inr b ↦ rw b e
  ]

  finish_output-Kept :
      (text : ℕ → ℕ) (begin n : ℕ) (o : Output)
      → Kept o
      → Ensures Kept (finish_output text begin n o)
  unfolding finish_output
  finish_output-Kept text begin n o e =
      Kept-bind (write_at (strncpy_bytes text begin n) (record o { match_idx = 0 })) _
        (write_at-Kept _ _ e)
        (λ c w.
          Kept-bind (append_newline (record c { match_idx = n })) _ (append_newline-Kept _ w)
            (λ c' w'.
              Kept-bind (append_null c') _ (append_null-Kept c' w')
                (λ t w''. flush_matches-Kept t w'')))

  fill_rest-Kept :
      (text : ℕ → ℕ) (begin n : ℕ) (o : Output) → Kept o → Ensures Kept (fill_rest text begin n o)
  unfolding fill_rest
  fill_rest-Kept text begin n o e =
      let back = record o { match_idx = 0 } in
      let size = length o.matches in
      let first : Ensures Kept (
          fill_and_flush text begin (size - 1) back >>= λ r.
          finish_output text begin (n - (size - 1)) r) =
        Kept-bind (fill_and_flush text begin (size - 1) back) _
          (fill_and_flush-Kept text begin (size - 1) back e)
          (λ c w. finish_output-Kept text begin (n - (size - 1)) c w) in
      ground (arith, first, finish_output-Kept text begin n o e)

  -- The first part of the large output.
  abbrev start_fill : (ℕ → ℕ) → ℕ → ℕ → Output → Option (ℕ × ℕ × ℕ × Output)
  start_fill text begin sz o =
      let size = length o.matches in
      let fill_size = size - o.match_idx - 1 in
      if o.match_idx == 0
      then some (begin, sz, fill_size, o)
      else if ltb fill_size 1
      then (flush_matches o >>= λ c. some (begin, sz, size - 1, c))
      else (fill_and_flush text begin fill_size o >>= λ c.
          some (begin + fill_size, sz - fill_size, size - 1, c))

  start_fill-Kept :
      (text : ℕ → ℕ) (begin sz : ℕ) (o : Output)
      → Kept o
      → Ensures (λ (r : ℕ × ℕ × ℕ × Output). Kept r.3) (start_fill text begin sz o)
  start_fill-Kept text begin sz o e =
      let P = λ (r : ℕ × ℕ × ℕ × Output). Kept r.3 in
      let size = length o.matches in
      let fill_size = size - o.match_idx - 1 in
      let flushed : Ensures P (flush_matches o >>= λ c. some (begin, sz, size - 1, c)) =
        Ensures-bind Kept P (flush_matches o) _ (flush_matches-Kept o e) (λ c w. w) in
      let filled : Ensures P (
          fill_and_flush text begin fill_size o >>= λ c.
          some (begin + fill_size, sz - fill_size, size - 1, c)) =
        Ensures-bind Kept P (fill_and_flush text begin fill_size o) _
          (fill_and_flush-Kept text begin fill_size o e) (λ c w. w) in
      ground (arith, flushed, filled)

  fill_large-Kept :
      (text : ℕ → ℕ) (begin sz : ℕ) (o : Output)
      → Kept o
      → Ensures Kept (fill_large text begin sz o)
  unfolding fill_large
  fill_large-Kept text begin sz o e =
      Ensures-bind (λ (r : ℕ × ℕ × ℕ × Output). Kept r.3) Kept (start_fill text begin sz o) _
        (start_fill-Kept text begin sz o e)
        (λ (b, remain, fill, c) w.
          Ensures-bind (λ (r : ℕ × ℕ × Output). Kept r.2) Kept
            (fill_loop (remain + 1) text b remain fill c) _
            (fill_loop-Kept (remain + 1) text b remain fill c w)
            (λ (b', remain', c') w'. fill_rest-Kept text b' remain' c' w'))

  fill_output_buffer-Kept :
      (text : ℕ → ℕ) (begin sz : ℕ) (flush_buffer : Bool) (o : Output)
      → Kept o
      → Ensures Kept (fill_output_buffer text begin sz flush_buffer o)
  unfolding fill_output_buffer
  fill_output_buffer-Kept text begin sz flush_buffer o e =
      let flush : (t : Output)
          → Kept t
          → Ensures Kept (if flush_buffer then flush_matches t else some t) =
        λ t w. ground (arith, flush_matches-Kept t w) in
      let small : Ensures Kept (
          write_at (strncpy_bytes text begin sz) o >>= λ c.
          append_newline (record c { match_idx = c.match_idx + sz }) >>= λ n.
          append_null n >>= λ t. if flush_buffer then flush_matches t else some t) =
        Kept-bind (write_at (strncpy_bytes text begin sz) o) _ (write_at-Kept _ o e) (λ c w.
          Kept-bind (append_newline (record c { match_idx = c.match_idx + sz })) _
            (append_newline-Kept _ w)
            (λ n w'. Kept-bind (append_null n) _ (append_null-Kept n w') flush)) in
      ground (arith, fill_large-Kept text begin sz o e, small)

  put_prefix-Kept :
      (big : Bool) (size : ℕ) (str : List ℕ) (o : Output)
      → Kept o
      → Ensures Kept (put_prefix big size str o)
  unfolding put_prefix
  put_prefix-Kept true size str o e = e
  put_prefix-Kept false size str o e =
      Kept-bind (write_at (snprintf_bytes size str) o) _ (write_at-Kept _ o e) (λ c w. w)

  join_last-Kept : (o : Output) → Kept o → Ensures Kept (join_last o)
  unfolding join_last step_index
  join_last-Kept o e = ground (arith)

  flush_if_full-Kept : (sz : ℕ) (o : Output) → Kept o → Ensures Kept (flush_if_full sz o)
  unfolding flush_if_full
  flush_if_full-Kept sz o e = ground (arith, flush_matches-Kept o e)

  maybe_prefix-Kept :
      (b big : Bool) (size : ℕ) (str : List ℕ) (o : Output)
      → Kept o
      → Ensures Kept (if b then put_prefix big size str o else some o)
  maybe_prefix-Kept true big size str o e = put_prefix-Kept big size str o e
  maybe_prefix-Kept false big size str o e = e

  emit_match-Kept :
      (text : ℕ → ℕ) (begin sz : ℕ) (o : Output)
      → Kept o
      → Ensures Kept (emit_match text begin sz o)
  unfolding emit_match
  emit_match-Kept text begin sz o e = Kept-bind (join_last o) _ (join_last-Kept o e) (λ joined w.
      Kept-bind (flush_if_full _ joined) _ (flush_if_full-Kept _ joined w) (λ c w'.
        Kept-bind
          (if has_flag show_file_name_flag o.ctrl_flags && ltb 0 (length o.filename) then _ else _)
          _ (maybe_prefix-Kept _ _ _ _ c w')
          (λ c' w''.
            Kept-bind (if has_flag show_lineno_flag o.ctrl_flags then _ else _) _
              (maybe_prefix-Kept _ _ _ _ c' w'')
              (λ c'' w'''. fill_output_buffer-Kept text begin sz _ c'' w'''))))

  new_match-Kept : (text : ℕ → ℕ) (o : Output) → Kept o → Ensures Kept (new_match text o)
  unfolding new_match
  new_match-Kept text o e = ground (
    arith,
    emit_match-Kept text o.buffer_start (o.buffer_end - o.buffer_start) o e,
    emit_match-Kept text o.match.start (o.match.end + 1 - o.match.start) o e,
  )

pub new_match-flags :
    (text : ℕ → ℕ) (o : Output)
    → Ensures (λ (r : Output). r.ctrl_flags ≡ o.ctrl_flags) (new_match text o)
new_match-flags text o = new_match-Kept o.ctrl_flags text o refl
