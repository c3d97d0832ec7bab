-- ===== src/Cache/Stream.antt =====
-- What the request parser uses of `std::istringstream`: the characters left and the two flags.
use technosphere.Common.Bytes.{Bytes, isspace}
use technosphere.Common.{
  ℕ, ◌+◌, ◌-◌, ◌*◌, ◌%◌, ◌^◌, Bool, true, false, ◌&&◌, ◌||◌, not, [], ◌∷◌, leb, ◌==◌, if◌then◌else◌,
}

pub record Stream : Type 0 where
  pub rest : Bytes
  pub eof : Bool
  pub fail : Bool

abbrev pub open_stream : Bytes → Stream
open_stream s = record { rest = s; eof = false; fail = false }

-- Without its leading white space.
unfoldable pub skip_ws : Bytes → Bytes
skip_ws [] = []
skip_ws (c ∷ s) = if isspace c then skip_ws s else c ∷ s

abbrev pub is_empty : Bytes → Bool
is_empty [] = true
is_empty (c ∷ s) = false

-- The characters before the next white space, and those from there on.
unfoldable pub word : Bytes → Bytes
word [] = []
word (c ∷ s) = if isspace c then [] else c ∷ word s

unfoldable pub after_word : Bytes → Bytes
after_word [] = []
after_word (c ∷ s) = if isspace c then c ∷ s else after_word s

abbrev pub is_digit : ℕ → Bool
is_digit c = leb 48 c && leb c 57

-- The digits at the front, as a number, and what follows them.
unfoldable pub digits_value : ℕ → Bytes → ℕ
digits_value acc [] = acc
digits_value acc (c ∷ s) = if is_digit c then digits_value (acc * 10 + (c - 48)) s else acc

unfoldable pub after_digits : Bytes → Bytes
after_digits [] = []
after_digits (c ∷ s) = if is_digit c then after_digits s else c ∷ s

abbrev pub starts_digit : Bytes → Bool
starts_digit [] = false
starts_digit (c ∷ s) = is_digit c

-- A sentry fails on a stream that is not good.
abbrev pub failed : Stream → Stream
failed st = record st { fail = true }

-- `stream >> string`: the string read, or an empty one.
unfoldable pub extract_word : Stream → Stream × Bytes
extract_word st =
    if st.eof || st.fail
    then (failed st, [])
    else (let r = skip_ws st.rest in
        (record { rest = after_word r; eof = is_empty (after_word r); fail = is_empty r }, word r))

-- The number behind an optional sign; a minus sign negates it modulo 2^32. It fails without a digit,
-- and beyond 2^32 - 1.
unfoldable pub read_number : Bool → Bytes → Stream × ℕ
read_number negative r =
    let v = digits_value 0 r in
    let end = after_digits r in
    if not (starts_digit r)
    then (record { rest = r; eof = is_empty r; fail = true }, 0)
    else if leb (2 ^ 32) v
    then (record { rest = end; eof = is_empty end; fail = true }, 2 ^ 32 - 1)
    else (
      record { rest = end; eof = is_empty end; fail = false },
      if negative then (2 ^ 32 - v) % 2 ^ 32 else v,
    )

unfoldable pub read_signed : Bytes → Stream × ℕ
read_signed [] = read_number false []
read_signed (c ∷ s) =
    if c == b'-'
    then read_number true s
    else if c == b'+'
    then read_number false s
    else read_number false (c ∷ s)

-- `stream >> unsigned`. (The variable keeps its indeterminate value where the sentry fails; that
-- value is 0 here, and the caller drops it.)
unfoldable pub extract_unsigned : Stream → Stream × ℕ
extract_unsigned st = if st.eof || st.fail then (failed st, 0) else read_signed (skip_ws st.rest)

-- `stream >> std::ws`
unfoldable pub extract_ws : Stream → Stream
extract_ws st =
    if st.eof || st.fail
    then st
    else (let r = skip_ws st.rest in record { rest = r; eof = is_empty r; fail = false })

-- The characters before the newline, and those behind it.
unfoldable pub line : Bytes → Bytes
line [] = []
line (c ∷ s) = if c == b'\n' then [] else c ∷ line s

unfoldable pub after_line : Bytes → Bytes
after_line [] = []
after_line (c ∷ s) = if c == b'\n' then s else after_line s

unfoldable pub has_newline : Bytes → Bool
has_newline [] = false
has_newline (c ∷ s) = c == b'\n' || has_newline s

-- `std::getline(stream, value)`: it fails where it takes no character, not even the newline.
unfoldable pub getline : Stream → Stream × Bytes
getline st = if st.eof || st.fail then (failed st, []) else (
  record { rest = after_line st.rest; eof = not (has_newline st.rest); fail = is_empty st.rest },
  line st.rest,
)
