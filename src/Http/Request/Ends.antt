-- ===== src/Http/Request/Ends.antt =====
-- The parser's `while` ends on every text.
use technosphere.Cache.Stream.{Stream, open_stream, extract_word, after_line, has_newline, getline}
use technosphere.Common.Bytes.{Bytes, bytes_eq, codes}
use technosphere.Common.{
  ℕ, zero, suc, ◌+◌, ◌<◌, ◌≤◌, ◌≡◌, refl, ap, ◌∙◌, Bool, true, false, ◌&&◌, not, Option, none, some,
  [], ◌∷◌, ◌++◌, arith, if◌then◌else◌, length, Bool-cases, inl, inr, Option-cases,
}
use technosphere.Http.Request.Body.{IsGood, getline_good, line_cut, read_body-rest}
use technosphere.Http.Request.{
  Parser, States, token_type, read_startline, read_info, read_header, read_header_line, step,
  is_going, run, start,
}
use technosphere.Http.Strings.{find_char, all_space}

-- What is left to do in a state.
abbrev rank : States → ℕ
rank States.startline = 3
rank States.startline_info = 2
rank States.header = 1
rank States.body = 1
rank _ = 0

-- A bound of the rounds left.
abbrev weight : Bool → States → Bytes → ℕ
weight true st rest = 0
weight false st rest = if is_going st then suc (length rest + rank st) else 0

weight_le :
    (eof : Bool) (st : States) (rest : Bytes) → weight eof st rest ≤ suc (length rest + rank st)
weight_le true st rest = omega arith
weight_le false States.startline rest = omega arith
weight_le false States.startline_info rest = omega arith
weight_le false States.header rest = omega arith
weight_le false States.body rest = omega arith
weight_le false States.error rest = omega arith
weight_le false States.end rest = omega arith

-- A line read takes a character, or the stream ends.
pub getline-weight :
    (str : Stream) (st : States) (n : ℕ)
    → str.eof ≡ false
    → IsGood str
    → rank st ≤ n
    → IsGood (getline str).0
      × (weight (getline str).0.eof st (getline str).0.rest < suc (length str.rest + n))
getline-weight str st n e g h =
    rw (getline_good str e g) (elim (Bool-cases (has_newline str.rest)) [
      | inl k ↦
          let (cut, less, full) = line_cut str.rest k in
          (
            record { no_fail = λ _. full },
            rw k (omega (arith, weight_le false st (after_line str.rest))),
          )
      | inr k ↦ (record { no_fail = λ f. absurd (ground (arith, f, k)) }, rw k (omega arith))
    ])

rank-token_type : (t : Bytes) → rank (token_type t).1 ≤ 2
unfolding token_type
rank-token_type t = elim (Bool-cases (bytes_eq t (codes "GET"))) [
  | inl e ↦ rw e (omega arith)
  | inr e ↦ elim (Bool-cases (bytes_eq t (codes "POST"))) [
    | inl f ↦ rw (e, f) (omega arith)
    | inr f ↦ elim (Bool-cases (bytes_eq t (codes "HEAD"))) [
      | inl g ↦ rw (e, f, g) (omega arith)
      | inr g ↦ rw (e, f, g) (omega arith)
    ]
  ]
]

abbrev weight_of : Parser → ℕ
weight_of p = weight p.str.eof p.state p.str.rest

-- A round ends, and leaves less to do.
step-weight :
    (st : States) (p : Parser)
    → p.state ≡ st
    → p.str.eof ≡ false
    → IsGood p.str
    → is_going st ≡ true
    → (p' : Parser) × (step st p ≡ some p')
      × IsGood p'.str
      × (weight_of p' < suc (length p.str.rest + rank st))
unfolding step read_startline read_info read_header read_header_line
step-weight States.startline p s e g h =
    let token = (extract_word (open_stream (getline p.str).1)).1 in
    let (good, less) =
      getline-weight p.str (token_type token).1 3 e g (omega (arith, rank-token_type token)) in
    (read_startline p, refl, good, less)
step-weight States.startline_info p s e g h = (read_info p, refl, g, rw e (omega arith))
step-weight States.header p s e g h = elim (Bool-cases (all_space (getline p.str).1)) [
  | inl f ↦
      let (good, less) = getline-weight p.str States.body 1 e g (omega arith) in
      (record p { str = (getline p.str).0; state = States.body }, rw f, good, less)
  | inr f ↦ elim (Option-cases (find_char b':' (getline p.str).1 0)) [
    | inl k ↦
        let (good, less) = getline-weight p.str States.error 1 e g (omega arith) in
        (record p { str = (getline p.str).0; state = States.error }, rw (f, k), good, less)
    | inr (pst, k) ↦
        let (good, less) = getline-weight p.str States.header 1 e g (omega arith) in
        (
          read_header_line (some pst) (getline p.str).1 (record p { str = (getline p.str).0 }),
          rw (f, k),
          good,
          rw s less,
        )
  ]
]
step-weight States.body p s e g h =
    let (str', run, ended) = read_body-rest p e g in
    (
      record p { str = str'; body = p.body ++ (p.str.rest ++ (b'\n' ∷ [])); state = States.end },
      run,
      record { no_fail = λ f. absurd (ground (arith, f, ended)) },
      rw ended (omega arith),
    )
step-weight States.error p s e g h = absurd (ground (arith, h))
step-weight States.end p s e g h = absurd (ground (arith, h))

run-step :
    (fuel : ℕ) (p p' : Parser)
    → p.str.eof ≡ false
    → is_going p.state ≡ true
    → step p.state p ≡ some p'
    → run (suc fuel) p ≡ run fuel p'
unfolding run
run-step fuel p p' e f once =
    ap
      (λ (b : Bool).
        if b then elim (step p.state p) [ none ↦ none | some q ↦ run fuel q ] else some p)
      (ap (λ (b : Bool). not b && is_going p.state) e ∙ f)
    ∙ ap (λ (o : Option Parser). elim o [ none ↦ none | some q ↦ run fuel q ]) once

run-weight :
    (fuel : ℕ) (p : Parser)
    → IsGood p.str
    → weight_of p < fuel
    → (p' : Parser) × (run fuel p ≡ some p')
unfolding run
run-weight zero p g h = absurd (omega arith)
run-weight (suc fuel) p g h = elim (Bool-cases p.str.eof) [
  | inl e ↦ (p, rw e)
  | inr e ↦ elim (Bool-cases (is_going p.state)) [
    | inr f ↦ (p, rw (e, f))
    | inl f ↦
        let (p', once, good, less) = step-weight p.state p refl e g f in
        let here : weight_of p ≡ suc (length p.str.rest + rank p.state) = rw (e, f) in
        let (p'', rest) = run-weight fuel p' good (omega (arith, here)) in
        (p'', run-step fuel p p' e f once ∙ rest)
  ]
]

-- The `while` of the parser ends on every text, within as many rounds as it has characters and five
-- more.
pub run_ends : (s : Bytes) → (p : Parser) × (run (length s + 5) (start s) ≡ some p)
run_ends s = run-weight (length s + 5) (start s) (record { no_fail = λ _. refl }) (omega arith)
