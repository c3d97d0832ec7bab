-- ===== src/Cache/Request/Protocol.antt =====
-- The requests that a client writes, and the answers that it reads.
use technosphere.Cache.Request.Extract.{
  IsWord, IsNumber, IsFirst, NoNewline, extract_word_lem, extract_unsigned_lem, getline_lem,
}
use technosphere.Cache.Request.{get_request, set_request, drop_last, parse_request}
use technosphere.Cache.Stream.{digits_value, skip_ws}
use technosphere.Common.Bytes.{Bytes, codes, isspace}
use technosphere.Common.{ℕ, ◌^◌, ◌<◌, ◌≡◌, refl, ◌∙◌, false, some, [], ◌∷◌, ◌++◌, arith}

-- `set TTL key value`, ended as telnet ends a line, and whatever follows it in the buffer.
abbrev pub set_line : Bytes → Bytes → Bytes → Bytes → Bytes
set_line ds key value tail =
    codes "set" ++ (32 ∷ (ds ++ (32 ∷ (key ++ (32 ∷ ((value ++ (13 ∷ [])) ++ (b'\n' ∷ tail)))))))

abbrev pub get_line : Bytes → Bytes → Bytes
get_line key tail = codes "get" ++ (32 ∷ (key ++ (13 ∷ b'\n' ∷ tail)))

drop_last_append : (s : Bytes) (c : ℕ) → drop_last (s ++ (c ∷ [])) ≡ s
unfolding drop_last
drop_last_append [] c = refl
drop_last_append (b ∷ []) c = refl
drop_last_append (b ∷ d ∷ s) c = rw (drop_last_append (d ∷ s) c)

NoNewline-append : (s : Bytes) → NoNewline s → NoNewline (s ++ (13 ∷ []))
NoNewline-append [] h = (refl, tt)
NoNewline-append (c ∷ s) h = (h.0, NoNewline-append s h.1)

IsFirst-append : (s t : Bytes) → IsFirst s → IsFirst (s ++ t)
IsFirst-append [] t h = absurd h
IsFirst-append (c ∷ s) t h = h

pub skip_word : (w r : Bytes) → IsWord w → skip_ws (w ++ r) ≡ w ++ r
unfolding skip_ws
skip_word [] r h = absurd h
skip_word (c ∷ w) r h = rw h.0

skip_first : (w r : Bytes) → IsFirst w → skip_ws (w ++ r) ≡ w ++ r
unfolding skip_ws
skip_first [] r h = absurd h
skip_first (c ∷ w) r h = rw h

digit_first : (w r : Bytes) → IsNumber w → skip_ws (w ++ r) ≡ w ++ r
unfolding skip_ws
digit_first [] r h = absurd h
digit_first (c ∷ w) r h = let e : isspace c ≡ false = ground (arith, h.0) in rw e

pub skip_blank : (r : Bytes) → skip_ws (32 ∷ r) ≡ skip_ws r
unfolding skip_ws
skip_blank r = refl

skip_command : (c : ℕ) (w : Bytes) → isspace c ≡ false → skip_ws (c ∷ w) ≡ c ∷ w
unfolding skip_ws
skip_command c w h = rw h

module _ (key tail : Bytes) (is_word : IsWord key) where
  -- A `get` line is read as a `get` of its key, a word, whatever stands behind it in the buffer.
  pub parse_request-get :
      parse_request (get_line key tail)
      ≡ record { request = some (get_request key); parse_error = false }
  unfolding parse_request
  parse_request-get =
      let rest = key ++ (13 ∷ b'\n' ∷ tail) in
      let command =
        extract_word_lem 32 rest (get_line key tail) (codes "get")
          (skip_command b'g' (b'e' ∷ b't' ∷ 32 ∷ rest) refl) (refl, (refl, (refl, tt))) refl in
      let name =
        extract_word_lem 13 (b'\n' ∷ tail) (32 ∷ rest) key
          (skip_blank rest ∙ skip_word key (13 ∷ b'\n' ∷ tail) is_word) is_word refl in
      rw (command, name)

  -- A `set` line is read as a `set` of its key, its value and its number, whatever stands behind
  -- it, if the key is a word, the number one below 2^32 and the value one line that begins with no
  -- white space.
  pub parse_request-set :
      (ds value : Bytes)
      → IsNumber ds
      → digits_value 0 ds < 2 ^ 32
      → IsFirst value
      → NoNewline value
      → parse_request (set_line ds key value tail)
        ≡ record { request = some (set_request key value (digits_value 0 ds)); parse_error = false }
  unfolding parse_request
  parse_request-set ds value number small first one_line =
      let v = value ++ (13 ∷ []) in
      let r₃ = v ++ (b'\n' ∷ tail) in
      let r₂ = key ++ (32 ∷ r₃) in
      let r₁ = ds ++ (32 ∷ r₂) in
      let command =
        extract_word_lem 32 r₁ (set_line ds key value tail) (codes "set")
          (skip_command b's' (b'e' ∷ b't' ∷ 32 ∷ r₁) refl) (refl, (refl, (refl, tt))) refl in
      let ttl =
        extract_unsigned_lem 32 r₂ (32 ∷ r₁) ds (skip_blank r₁ ∙ digit_first ds (32 ∷ r₂) number)
          number refl small in
      let name =
        extract_word_lem 32 r₃ (32 ∷ r₂) key (skip_blank r₂ ∙ skip_word key (32 ∷ r₃) is_word)
          is_word refl in
      let last =
        getline_lem (32 ∷ r₃) v tail
          (skip_blank r₃ ∙ skip_first v (b'\n' ∷ tail) (IsFirst-append value (13 ∷ []) first))
          (IsFirst-append value (13 ∷ []) first) (NoNewline-append value one_line) in
      rw (command, ttl, name, last, drop_last_append value 13)
