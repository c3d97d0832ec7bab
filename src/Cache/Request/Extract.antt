-- ===== src/Cache/Request/Extract.antt =====
-- What each extraction takes from the front of a well-formed stream.
use technosphere.Cache.Stream.{
  Stream, skip_ws, word, after_word, is_digit, digits_value, after_digits, read_number, read_signed,
  extract_word, extract_unsigned, extract_ws, line, after_line, has_newline, getline,
}
use technosphere.Common.Bytes.{Bytes, isspace}
use technosphere.Common.{
  ℕ, ◌+◌, ◌-◌, ◌*◌, ◌^◌, ◌<◌, ◌≡◌, true, false, [], ◌∷◌, ◌++◌, arith, leb, ◌==◌,
}

-- A stream in a good state, with characters left.
abbrev pub ready : Bytes → Stream
ready r = record { rest = r; eof = false; fail = false }

-- No white space in it.
abbrev pub NoSpace : Bytes → Type 0
NoSpace [] = Unit
NoSpace (c ∷ s) = (isspace c ≡ false) × NoSpace s

abbrev pub IsWord : Bytes → Type 0
IsWord [] = ⊥
IsWord (c ∷ s) = (isspace c ≡ false) × NoSpace s

abbrev pub AllDigits : Bytes → Type 0
AllDigits [] = Unit
AllDigits (c ∷ s) = (is_digit c ≡ true) × AllDigits s

-- A decimal number.
abbrev pub IsNumber : Bytes → Type 0
IsNumber [] = ⊥
IsNumber (c ∷ s) = (is_digit c ≡ true) × AllDigits s

abbrev pub NoNewline : Bytes → Type 0
NoNewline [] = Unit
NoNewline (c ∷ s) = ((c == b'\n') ≡ false) × NoNewline s

-- It begins with a character that is no white space.
abbrev pub IsFirst : Bytes → Type 0
IsFirst [] = ⊥
IsFirst (c ∷ s) = isspace c ≡ false

module _ (c : ℕ) (r : Bytes) where
  word_before :
      (w : Bytes)
      → NoSpace w
      → isspace c ≡ true
      → (word (w ++ (c ∷ r)) ≡ w) × (after_word (w ++ (c ∷ r)) ≡ c ∷ r)
  unfolding word after_word
  word_before [] h e = ground arith
  word_before (b ∷ w) h e = ground (arith, word_before w h.1 e)

  digits_before :
      (ds : Bytes) (acc : ℕ)
      → AllDigits ds
      → is_digit c ≡ false
      → (digits_value acc (ds ++ (c ∷ r)) ≡ digits_value acc ds)
        × (after_digits (ds ++ (c ∷ r)) ≡ c ∷ r)
  unfolding digits_value after_digits
  digits_before [] acc h e = ground arith
  digits_before (d ∷ ds) acc h e = ground (arith, digits_before ds (acc * 10 + (d - 48)) h.1 e)

  -- a word, behind white space and before it
  pub extract_word_lem :
      (before w : Bytes)
      → skip_ws before ≡ w ++ (c ∷ r)
      → IsWord w
      → isspace c ≡ true
      → extract_word (ready before) ≡ (ready (c ∷ r), w)
  unfolding extract_word
  extract_word_lem before [] e h s = absurd h
  extract_word_lem before (b ∷ w) e h s = let k = word_before (b ∷ w) h s in rw (e, k.0, k.1)

  pub extract_unsigned_lem :
      (before ds : Bytes)
      → skip_ws before ≡ ds ++ (c ∷ r)
      → IsNumber ds
      → is_digit c ≡ false
      → digits_value 0 ds < 2 ^ 32
      → extract_unsigned (ready before) ≡ (ready (c ∷ r), digits_value 0 ds)
  unfolding extract_unsigned read_signed read_number
  extract_unsigned_lem before [] e h s small = absurd h
  extract_unsigned_lem before (d ∷ ds) e h s small =
      let k = digits_before (d ∷ ds) 0 h s in
      let minus_not : (d == b'-') ≡ false = ground arith in
      let plus_not : (d == b'+') ≡ false = ground arith in
      let fits : leb (2 ^ 32) (digits_value 0 (d ∷ ds)) ≡ false = ground arith in
      rw (e, minus_not, plus_not, h.0, k.0, fits, k.1)

pub line_before :
    (s r : Bytes)
    → NoNewline s
    → (line (s ++ (b'\n' ∷ r)) ≡ s)
      × (after_line (s ++ (b'\n' ∷ r)) ≡ r)
      × (has_newline (s ++ (b'\n' ∷ r)) ≡ true)
unfolding line after_line has_newline
line_before [] r h = ground arith
line_before (c ∷ s) r h = ground (arith, line_before s r h.1)

-- the rest of a line that starts with no white space, behind white space
pub getline_lem :
    (before s r : Bytes)
    → skip_ws before ≡ s ++ (b'\n' ∷ r)
    → IsFirst s
    → NoNewline s
    → getline (extract_ws (ready before)) ≡ (ready r, s)
unfolding getline extract_ws
getline_lem before [] r e f h = absurd f
getline_lem before (c ∷ s) r e f h = let k = line_before (c ∷ s) r h in rw (e, k.0, k.1, k.2)
