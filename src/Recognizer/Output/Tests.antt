-- ===== src/Recognizer/Output/Tests.antt =====
-- Runs of the buffer of output, with buffers of four and of sixteen bytes.
use regex.Base.{ℕ, ◌≡◌, refl, false, some, List, ◌∷◌, [], ◌++◌, arith, replicate}
use regex.Recognizer.Output.{Output, fill_output_buffer}
use regex.Recognizer.Output.Buffer.{slice}
use regex.Recognizer.Output.Fill.{Prints}
use regex.Recognizer.Output.Large.{fill_output_buffer-Prints}

abbrev buffered : List ℕ → ℕ → Output
buffered bytes idx = record {
  matches = bytes;
  match_idx = idx;
  printed = [];
  match = record { start = 1; end = 8; last_match_end = 0 };
  filename = [];
  line_no = 1;
  buffer_start = 1;
  buffer_end = 9;
  ctrl_flags = 0;
}

-- Every byte of the text is an `x`.
abbrev xs : ℕ → ℕ
xs a = b'x'

-- Seven bytes through a buffer of four: two rounds of three, and one byte.
fill_output_buffer-Prints_example :
    (c : Output) × (fill_output_buffer xs 1 7 false (buffered (replicate 4 0) 0) ≡ some c)
    × Prints (buffered (replicate 4 0) 0) (slice xs 1 7 ++ 10 ∷ []) c
fill_output_buffer-Prints_example =
    fill_output_buffer-Prints xs 2 1 3 1 7 (buffered (replicate 4 0) 0) false refl (omega arith)
      (omega arith) (omega arith) refl refl (λ i p q. omega arith)
