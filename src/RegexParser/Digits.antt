-- ===== src/RegexParser/Digits.antt =====
-- What `CONVERT_TO_UINT` of src/regex_parser.c makes of a number in an interval expression.
use regex.Base.{
  ℕ, zero, suc, ◌+◌, ◌-◌, ◌*◌, ◌≡◌, ◌<◌, ◌∙◌, ◌↔◌, refl, true, false, some, List, [], ◌∷◌, length,
  arith,
}
use regex.Base.Int.{ℤ, pos, negsuc, times, plus}
use regex.RegexParser.{Parser, parser_consume_token, is_asciidigit, convert_loop, convert_to_uint}

-- The tokens ahead are the digits of a list, and no further digit.
pub data Digits : Parser → List ℕ → Parser → Type 0 where
  last : {p : Parser} → is_asciidigit p.lookahead.type ≡ false → Digits p [] p
  digit :
      {p q : Parser} {d : ℕ} {ds : List ℕ}
      → is_asciidigit p.lookahead.type ≡ true
      → p.lookahead.value ≡ b'0' + d
      → Digits (parser_consume_token p) ds q
      → Digits p (d ∷ ds) q

last-convert :
    (k dec_pos : ℕ) (x : ℤ) (p : Parser)
    → is_asciidigit p.lookahead.type ≡ false
    → convert_loop (suc k) dec_pos x p ≡ some (x, p)
unfolding convert_loop
last-convert k dec_pos x p e = ground (arith)

digit-convert :
    (k dec_pos next d : ℕ) (x y : ℤ) (p : Parser)
    → is_asciidigit p.lookahead.type ≡ true
    → p.lookahead.value ≡ b'0' + d
    → next ≡ dec_pos * 10 + 1
    → y ≡ plus (times x (dec_pos * 10)) d
    → convert_loop (suc k) dec_pos x p ≡ convert_loop k next y (parser_consume_token p)
unfolding convert_loop
digit-convert k dec_pos next d x y p e v n m =
    let d' : p.lookahead.value - b'0' ≡ d = omega (arith, v) in ground (arith, d')

-- The first digit of a number that was not set.
first-convert :
    (k d : ℕ) (p : Parser)
    → is_asciidigit p.lookahead.type ≡ true
    → p.lookahead.value ≡ b'0' + d
    → convert_loop (suc k) 0 (negsuc 0) p ≡ convert_loop k 1 (pos d) (parser_consume_token p)
first-convert k d p e v = digit-convert k 0 1 d (negsuc 0) (pos d) p e v (omega arith) unset
  where
    unset : pos d ≡ plus (times (negsuc 0) (0 * 10)) d
    unset = ground (arith)

-- A digit behind others.
next-convert :
    (k dec_pos next d n : ℕ) (p : Parser)
    → is_asciidigit p.lookahead.type ≡ true
    → p.lookahead.value ≡ b'0' + d
    → next ≡ dec_pos * 10 + 1
    → convert_loop (suc k) dec_pos (pos n) p
      ≡ convert_loop k next (pos (n * (dec_pos * 10) + d)) (parser_consume_token p)
next-convert k dec_pos next d n p e v m =
    digit-convert k dec_pos next d (pos n) (pos (n * (dec_pos * 10) + d)) p e v m refl

-- The number that a list of digits stands for, behind a number that was read before.
abbrev pub decimal : ℕ → List ℕ → ℕ
decimal n [] = n
decimal n (d ∷ ds) = decimal (n * 10 + d) ds

-- Where one or two digits are ahead, and the fuel exceeds their number, the conversion of a number
-- that was not set, -1, gives the number that they stand for, and leaves the parser behind them.
pub convert_to_uint-decimal :
    {p q : Parser} (fuel d : ℕ) (ds : List ℕ)
    → Digits p (d ∷ ds) q
    → length ds < 2
    → length (d ∷ ds) < fuel
    → convert_to_uint fuel (negsuc 0) p ≡ some (pos (decimal 0 (d ∷ ds)), q)
unfolding convert_to_uint
convert_to_uint-decimal zero d ds h l f = absurd (omega arith)
convert_to_uint-decimal (suc zero) d ds h l f = absurd (omega arith)
convert_to_uint-decimal {p} (suc (suc k)) d [] (digit e v (last e')) l f =
    let z : 0 * 10 + d ≡ d = omega arith in
    rw z (first-convert (suc k) d p e v ∙ last-convert k 1 (pos d) (parser_consume_token p) e')
convert_to_uint-decimal (suc (suc zero)) d (d' ∷ ds) h l f = absurd (omega arith)
convert_to_uint-decimal {p} (suc (suc (suc k))) d (d' ∷ []) (digit e v (digit e' v' (last e''))) l
      f =
    let z : 0 * 10 + d ≡ d = omega arith in
    rw z (
      first-convert (suc (suc k)) d p e v
      ∙ (next-convert (suc k) 1 11 d' d (parser_consume_token p) e' v' (omega arith)
          ∙ last-convert k 11 (pos (d * 10 + d')) (parser_consume_token (parser_consume_token p))
              e''))
convert_to_uint-decimal (suc (suc (suc k))) d (d' ∷ d'' ∷ ds) h l f = absurd (omega arith)

-- Where three digits are ahead, and the fuel exceeds their number, the conversion of a number that
-- was not set multiplies the first two by 110 and not by 10: it gives the number that the digits stand
-- for exactly if the first two are zero.
pub convert_to_uint-three :
    {p q : Parser} (k a b c : ℕ)
    → Digits p (a ∷ b ∷ c ∷ []) q
    → (convert_to_uint (suc (suc (suc (suc k)))) (negsuc 0) p
        ≡ some (pos ((a * 10 + b) * 110 + c), q))
      × (((a * 10 + b) * 110 + c ≡ decimal 0 (a ∷ b ∷ c ∷ [])) ↔ ((a ≡ 0) × (b ≡ 0)))
unfolding convert_to_uint
convert_to_uint-three {p} k a b c (digit e v (digit e' v' (digit e'' v'' (last e''')))) = (
  first-convert (suc (suc (suc k))) a p e v
      ∙ (next-convert (suc (suc k)) 1 11 b a (parser_consume_token p) e' v' (omega arith)
          ∙ (next-convert (suc k) 11 111 c (a * 10 + b)
                (parser_consume_token (parser_consume_token p)) e'' v'' (omega arith)
              ∙ last-convert k 111 (pos ((a * 10 + b) * 110 + c))
                  (parser_consume_token (parser_consume_token (parser_consume_token p))) e''')),
  ((λ h. (omega arith, omega arith)), (λ h. omega arith)),
)
