-- ===== src/Http/Request/Body.antt =====
-- The lines of a stream, and the body of a request.
use mathlib.Core.List.{append_assoc}
use technosphere.Cache.Stream.{Stream, is_empty, line, after_line, has_newline, getline}
use technosphere.Common.Bytes.{Bytes}
use technosphere.Common.{
  ℕ, zero, suc, ◌+◌, ◌<◌, ◌≤◌, ◌≡◌, refl, sym, ap, ◌∙◌, true, false, not, some, [], ◌∷◌, ◌++◌,
  arith, ◌==◌, length, Bool-cases, inl, inr,
}
use technosphere.Http.Request.{Parser, States, body_loop, read_body}

-- A stream that has not ended has not failed.
pub record IsGood (st : Stream) : Type 0 where
  pub no_fail : st.eof ≡ false → st.fail ≡ false

pub getline_good :
    (st : Stream)
    → st.eof ≡ false
    → IsGood st
    → getline st ≡ (
      record {
        rest = after_line st.rest;
        eof = not (has_newline st.rest);
        fail = is_empty st.rest;
      },
      line st.rest,
    )
unfolding getline
getline_good st e g = rw (e, g.no_fail e)

pub line_cut :
    (s : Bytes)
    → has_newline s ≡ true
    → (line s ++ (b'\n' ∷ after_line s) ≡ s)
      × (length (after_line s) < length s)
      × (is_empty s ≡ false)
unfolding has_newline line after_line
line_cut [] h = cc
line_cut (c ∷ s) h = elim (Bool-cases (c == b'\n')) [
  | inl e ↦ let n : c ≡ b'\n' = ground arith in (rw (e, n), rw e (omega arith), refl)
  | inr e ↦ let i = line_cut s (rw e at h) in (rw (e, i.0), rw e (omega (arith, i.1)), refl)
]

pub line_whole :
    (s : Bytes) → has_newline s ≡ false → (line s ≡ s) × (length (after_line s) ≤ length s)
unfolding has_newline line after_line
line_whole [] h = (refl, omega arith)
line_whole (c ∷ s) h = elim (Bool-cases (c == b'\n')) [
  | inl e ↦ absurd (ground (arith, e, h))
  | inr e ↦ let i = line_whole s (rw e at h) in (rw (e, i.0), rw e (omega (arith, i.1)))
]

body_loop-line :
    (fuel : ℕ) (str : Stream) (text : Bytes)
    → str.eof ≡ false
    → IsGood str
    → has_newline str.rest ≡ true
    → is_empty str.rest ≡ false
    → body_loop (suc fuel) str text
      ≡ body_loop fuel
          (record { rest = after_line str.rest; eof = false; fail = false })
          (text ++ (line str.rest ++ (b'\n' ∷ [])))
unfolding body_loop
body_loop-line fuel str text e g n full = rw (getline_good str e g, e, n, full)

glue :
    (text front back : Bytes)
    → (text ++ (front ++ (b'\n' ∷ []))) ++ (back ++ (b'\n' ∷ []))
      ≡ text ++ ((front ++ (b'\n' ∷ back)) ++ (b'\n' ∷ []))
glue text front back =
    append_assoc text (front ++ (b'\n' ∷ [])) (back ++ (b'\n' ∷ []))
    ∙ ap (λ (s : Bytes). text ++ s)
        (append_assoc front (b'\n' ∷ []) (back ++ (b'\n' ∷ []))
          ∙ sym (append_assoc front (b'\n' ∷ back) (b'\n' ∷ [])))

body_loop-rest :
    (fuel : ℕ) (str : Stream) (text : Bytes)
    → str.eof ≡ false
    → IsGood str
    → length str.rest + 1 < fuel
    → (str' : Stream) × (body_loop fuel str text ≡ some (str', text ++ (str.rest ++ (b'\n' ∷ []))))
      × (str'.eof ≡ true)
unfolding body_loop
body_loop-rest zero str text e g h = absurd (omega arith)
body_loop-rest (suc zero) str text e g h = absurd (omega arith)
body_loop-rest (suc (suc fuel)) str text e g h = elim (Bool-cases (has_newline str.rest)) [
  | inl n ↦
      let (cut, less, full) = line_cut str.rest n in
      let next : Stream = record { rest = after_line str.rest; eof = false; fail = false } in
      let (str', run, ended) =
        body_loop-rest (suc fuel) next (text ++ (line str.rest ++ (b'\n' ∷ []))) refl
          (record { no_fail = λ _. refl }) (omega arith) in
      (
        str',
        body_loop-line (suc fuel) str text e g n full
            ∙ run
            ∙ ap (λ (t : Bytes). some (str', t))
                (glue text (line str.rest) (after_line str.rest)
                  ∙ ap (λ (r : Bytes). text ++ (r ++ (b'\n' ∷ []))) cut),
        ended,
      )
  | inr n ↦ (
    record { rest = after_line str.rest; eof = true; fail = is_empty str.rest },
    rw (getline_good str e g, e, n, (line_whole str.rest n).0),
    refl,
  )
]

-- On a good stream the case BODY appends what is left of the text, with one newline more than it
-- has, and ends the stream.
pub read_body-rest :
    (p : Parser)
    → p.str.eof ≡ false
    → IsGood p.str
    → (str' : Stream) × (read_body p
        ≡ some (record p {
          str = str';
          body = p.body ++ (p.str.rest ++ (b'\n' ∷ []));
          state = States.end;
        }))
      × (str'.eof ≡ true)
unfolding read_body
read_body-rest p e g =
    let (str', run, ended) =
      body_loop-rest (length p.str.rest + 2) p.str p.body e g (omega arith) in
    (str', rw run, ended)
