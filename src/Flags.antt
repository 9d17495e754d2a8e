-- ===== src/Flags.antt =====
-- The control flags of src/misc.h: one `unsigned int` that the parser and the scanners share.
pub mod Laws
use regex.Base.{ℕ, ◌-◌, ◌^◌, Bool, not, ◌==◌, bit_and, bit_or, bit_xor}

abbrev pub at_eol_flag : ℕ
at_eol_flag = 0x00008

abbrev pub at_bol_flag : ℕ
at_bol_flag = 0x00010

abbrev pub escp_seq_flag : ℕ
escp_seq_flag = 0x00020

abbrev pub mglobal_flag : ℕ
mglobal_flag = 0x00040

abbrev pub show_lineno_flag : ℕ
show_lineno_flag = 0x00080

abbrev pub show_file_name_flag : ℕ
show_file_name_flag = 0x00100

abbrev pub ignore_case_flag : ℕ
ignore_case_flag = 0x00200

abbrev pub silent_match_flag : ℕ
silent_match_flag = 0x00400

abbrev pub invert_match_flag : ℕ
invert_match_flag = 0x00800

abbrev pub show_match_line_flag : ℕ
show_match_line_flag = 0x01000

-- The body of the `SET_` macros, `flags | flag`.
unfoldable pub set_flag : ℕ → ℕ → ℕ
set_flag flag flags = bit_or flags flag

-- The body of the `CLEAR_` macros, `flags & ~flag`.
unfoldable pub clear_flag : ℕ → ℕ → ℕ
clear_flag flag flags = bit_and flags (bit_xor (2 ^ 32 - 1) flag)

-- `flags & flag` as a test, as in `PARSE_ESCP_SEQ`.
unfoldable pub has_flag : ℕ → ℕ → Bool
has_flag flag flags = not (bit_and flags flag == 0)
