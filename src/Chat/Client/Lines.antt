-- ===== src/Chat/Client/Lines.antt =====
-- The messages of a connection are its lines, however the bytes arrive.
use mathlib.Core.List.{append-nil, append_assoc, flatten}
use mathlib.Core.Option
use technosphere.Chat.Client.{Client, find_newline, append, take_messages, receive}
use technosphere.Common.Bytes.{Bytes, NoNul, c_str, c_str-append}
use technosphere.Common.{
  ℕ, zero, suc, ◌+◌, ◌<◌, ◌≡◌, refl, sym, ap, ◌∙◌, false, Option, none, some, List, [], ◌∷◌, ◌++◌,
  arith, ◌==◌, if◌then◌else◌, take, drop, length, length-drop, Option-cases, Bool-cases, inl, inr,
}

-- The reference: the lines of a text, each with its newline, and what stands behind the last one.
unfoldable pub add_char : ℕ → List Bytes → Bytes → List Bytes × Bytes
add_char c [] rest = if c == b'\n' then ((c ∷ []) ∷ [], rest) else ([], c ∷ rest)
add_char c (l ∷ ls) rest = if c == b'\n' then ((c ∷ []) ∷ l ∷ ls, rest) else ((c ∷ l) ∷ ls, rest)

unfoldable pub split_lines : Bytes → List Bytes × Bytes
unfolding add_char
split_lines [] = ([], [])
split_lines (c ∷ s) = add_char c (split_lines s).0 (split_lines s).1

add_newline :
    (c : ℕ) (ls : List Bytes) (r : Bytes) → c ≡ b'\n' → add_char c ls r ≡ ((c ∷ []) ∷ ls, r)
unfolding add_char
add_newline c [] r e = rw e
add_newline c (l ∷ ls) r e = rw e

no_line : (s : Bytes) → find_newline s 0 ≡ none → split_lines s ≡ ([], s)
unfolding find_newline split_lines
no_line [] h = refl
no_line (c ∷ s) h = elim (Bool-cases (c == b'\n')) [
  | inl e ↦ absurd (ground arith)
  | inr e ↦ let i = no_line s (ground arith) in ground (arith, i)
]

first_line :
    (s : Bytes) (p : ℕ)
    → find_newline s 0 ≡ some p
    → (p < length s)
      × (split_lines s
          ≡ (take (suc p) s ∷ (split_lines (drop (suc p) s)).0, (split_lines (drop (suc p) s)).1))
unfolding find_newline split_lines
first_line [] p h = absurd (ground arith)
first_line (c ∷ s) p h = elim (Bool-cases (c == b'\n')) [
  | inl e ↦
      let z : p ≡ 0 = ground arith in
      rw z (omega arith, add_newline c (split_lines s).0 (split_lines s).1 (ground arith))
  | inr e ↦ elim (Option-cases (find_newline s 0)) [
    | inl f ↦ absurd (ground arith)
    | inr (q, f) ↦
        let i = first_line s q f in
        let same : p ≡ suc q = ground arith in rw same (omega (arith, i.0), rw (i.1, e))
  ]
]

-- The buffer of a client between two receptions holds no newline.
pub record IsDrained (c : Client) : Type 0 where
  pub whole : find_newline c.curmsg 0 ≡ none
  pub no_eol : c.eolpos ≡ none

take_messages-split_lines :
    (fuel : ℕ) (c : Client)
    → length c.curmsg < fuel
    → c.eolpos ≡ find_newline c.curmsg 0
    → (c' : Client) × (take_messages fuel c ≡ some (c', (split_lines c.curmsg).0))
      × (c'.fd ≡ c.fd)
      × (c'.curmsg ≡ (split_lines c.curmsg).1)
      × IsDrained c'
unfolding take_messages
take_messages-split_lines zero c h e = absurd (omega arith)
take_messages-split_lines (suc fuel) c h e = elim (Option-cases (find_newline c.curmsg 0)) [
  | inl f ↦
      let n = no_line c.curmsg f in
      let quiet : c.eolpos ≡ none = e ∙ f in
      (c, ground (arith, quiet, n), refl, ground (arith, n), record { whole = f; no_eol = quiet })
  | inr (p, f) ↦
      let rest = drop (suc p) c.curmsg in
      let first = first_line c.curmsg p f in
      let (c', run, same, left, drained) =
        take_messages-split_lines fuel (record c { curmsg = rest; eolpos = find_newline rest 0 })
          (omega (arith, length-drop (suc p) c.curmsg, first.0)) refl in
      let ready : c.eolpos ≡ some p = e ∙ f in
      (
        c',
        ground (arith, ready, run, first.1),
        same,
        left ∙ ap (λ (r : List Bytes × Bytes). r.1) (sym first.1),
        drained,
      )
]

add_char-append :
    (c : ℕ) (ls : List Bytes) (r b : Bytes)
    → add_char c (ls ++ (split_lines (r ++ b)).0) (split_lines (r ++ b)).1 ≡ (
      (add_char c ls r).0 ++ (split_lines ((add_char c ls r).1 ++ b)).0,
      (split_lines ((add_char c ls r).1 ++ b)).1,
    )
unfolding split_lines
add_char-append c ls r b = elim (Bool-cases (c == b'\n')) [
  | inl e ↦
      let f : c ≡ b'\n' = ground arith in
      rw (
        add_newline c ls r f,
        add_newline c (ls ++ (split_lines (r ++ b)).0) (split_lines (r ++ b)).1 f,
      )
  | inr e ↦ other ls e
]
  where
    other :
        (ms : List Bytes)
        → c == b'\n' ≡ false
        → add_char c (ms ++ (split_lines (r ++ b)).0) (split_lines (r ++ b)).1 ≡ (
          (add_char c ms r).0 ++ (split_lines ((add_char c ms r).1 ++ b)).0,
          (split_lines ((add_char c ms r).1 ++ b)).1,
        )
    other [] e = rw e
    other (l ∷ ms) e = rw e

-- The reference cut in two: the text behind the last line of the first part begins the second.
split_lines-append :
    (a b : Bytes)
    → split_lines (a ++ b) ≡ (
      (split_lines a).0 ++ (split_lines ((split_lines a).1 ++ b)).0,
      (split_lines ((split_lines a).1 ++ b)).1,
    )
unfolding split_lines
split_lines-append [] b = refl
split_lines-append (c ∷ a) b =
    rw (split_lines-append a b) (add_char-append c (split_lines a).0 (split_lines a).1 b)

-- The C string of the bytes that arrive at a drained client becomes exactly the lines that it completes,
-- in order, and the client is drained again, with what stands behind the last line in its buffer.
pub receive-split_lines :
    (c : Client) (str : Bytes)
    → IsDrained c
    → (c' : Client) × (receive c str ≡ some (c', (split_lines (c.curmsg ++ c_str str)).0))
      × (c'.fd ≡ c.fd)
      × (c'.curmsg ≡ (split_lines (c.curmsg ++ c_str str)).1)
      × IsDrained c'
unfolding receive
receive-split_lines c str d =
    take_messages-split_lines (length (c.curmsg ++ c_str str) + 1) (append c (c_str str))
      (omega arith) (rw d.no_eol)

-- Several receptions in a row.
unfoldable pub receive_all : Client → List Bytes → Option (Client × List Bytes)
receive_all c [] = some (c, [])
receive_all c (str ∷ rest) = elim (receive c str) [
  | none ↦ none
  | some (c', msgs) ↦
      Option.map (λ (r : Client × List Bytes). (r.0, msgs ++ r.1)) (receive_all c' rest)
]

-- Each reception holds no NUL.
abbrev pub AllNoNul : List Bytes → Type 0
AllNoNul [] = Unit
AllNoNul (str ∷ rest) = NoNul str × AllNoNul rest

c_str-NoNul : (str : Bytes) → NoNul str → c_str str ≡ str
unfolding c_str
c_str-NoNul str h = ap c_str (sym (append-nil str)) ∙ c_str-append str [] h ∙ append-nil str

-- The messages of a drained client that sends no NUL do not depend on how its connection cuts the bytes:
-- they are the lines of the whole, and the client is drained again.
pub receive_all-split_lines :
    (strs : List Bytes) (c : Client)
    → IsDrained c
    → AllNoNul strs
    → (c' : Client) × (receive_all c strs ≡ some (c', (split_lines (c.curmsg ++ flatten strs)).0))
      × (c'.curmsg ≡ (split_lines (c.curmsg ++ flatten strs)).1)
      × IsDrained c'
unfolding receive_all flatten
receive_all-split_lines [] c d h =
    let n = no_line c.curmsg d.whole in
    (c, rw (append-nil c.curmsg, n), rw (append-nil c.curmsg, n), d)
receive_all-split_lines (str ∷ rest) c d h =
    let (c₁, run, _, left, d₁) = receive-split_lines c str d in
    let (c₂, run₂, left₂, d₂) = receive_all-split_lines rest c₁ d₁ h.1 in
    let text = c_str-NoNul str h.0 in
    let cut = split_lines-append (c.curmsg ++ str) (flatten rest) in
    let whole = append_assoc c.curmsg str (flatten rest) in
    (
      c₂,
      ground (arith, run, run₂, left, cut, whole, text),
      ground (arith, left₂, left, cut, whole, text),
      d₂,
    )
