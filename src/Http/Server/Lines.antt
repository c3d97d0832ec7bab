-- ===== src/Http/Server/Lines.antt =====
-- A request as a client writes it: a request line, header lines, a blank line, and no body.
use technosphere.Cache.Request.Extract.{NoNewline, line_before}
use technosphere.Cache.Stream.{
  Stream, open_stream, getline, is_empty, line, has_newline, after_line,
}
use technosphere.Common.Bytes.{Bytes}
use technosphere.Common.{
  ℕ, zero, suc, ◌+◌, ◌<◌, ◌≡◌, refl, ◌∙◌, true, false, some, List, [], ◌∷◌, ◌++◌, arith, length,
  take, drop,
}
use technosphere.Http.Params.{Params, assign}
use technosphere.Http.Request.{
  RequestType, States, Parser, read_header, read_header_line, body_loop, step, run,
}
use technosphere.Http.Strings.{find_char, all_space, lower, trim}

-- A header line: one line that is not blank, with a colon.
pub record IsHeader (h : Bytes) : Type 0 where
  pub one_line : NoNewline h
  pub not_blank : all_space h ≡ false
  pub colon : ℕ
  pub found : find_char b':' h 0 ≡ some colon

abbrev pub AllHeaders : List Bytes → Type 0
AllHeaders [] = Unit
AllHeaders (h ∷ hs) = IsHeader h × AllHeaders hs

-- The header lines, and the blank line as a client writes it.
abbrev pub header_lines : List Bytes → Bytes
header_lines [] = 13 ∷ b'\n' ∷ []
header_lines (h ∷ hs) = h ++ (b'\n' ∷ header_lines hs)

-- The request line.
abbrev pub request_line : Bytes → Bytes → Bytes → Bytes
request_line token url version = token ++ (32 ∷ (url ++ (32 ∷ (version ++ (13 ∷ [])))))

abbrev pub request_text : Bytes → Bytes → Bytes → List Bytes → Bytes
request_text token url version hs = request_line token url version ++ (b'\n' ∷ header_lines hs)

-- The parser before a header line.
abbrev pub at_header : RequestType → Bytes → Bytes → Stream → Params → Bytes → Parser
at_header t url version sls headers rest = record {
  str = open_stream rest;
  startlinestr = sls;
  state = States.header;
  type = t;
  full_url = url;
  version = version;
  headers = headers;
  body = [];
}

-- And at its end.
abbrev pub at_end : RequestType → Bytes → Bytes → Stream → Params → Parser
at_end t url version sls headers = record {
  str = record { rest = []; eof = true; fail = true };
  startlinestr = sls;
  state = States.end;
  type = t;
  full_url = url;
  version = version;
  headers = headers;
  body = b'\n' ∷ [];
}

not_empty : (h r : Bytes) → is_empty (h ++ (b'\n' ∷ r)) ≡ false
not_empty [] r = refl
not_empty (c ∷ h) r = refl

pub getline_line :
    (h r : Bytes) → NoNewline h → getline (open_stream (h ++ (b'\n' ∷ r))) ≡ (open_stream r, h)
unfolding getline
getline_line h r w =
    let k = line_before h r w in let e = not_empty h r in rw (k.0, k.1, k.2, e) refl

module _ (t : RequestType) (url version : Bytes) (sls : Stream) where
  header_round :
      (headers : Params) (h r : Bytes)
      → IsHeader h
      → (headers' : Params) × (step States.header
            (at_header t url version sls headers (h ++ (b'\n' ∷ r)))
          ≡ some (at_header t url version sls headers' r))
  unfolding step read_header read_header_line
  header_round headers h r w =
      let e = getline_line h r (w.one_line) in
      let blank = w.not_blank in
      let found = w.found in
      (
        assign (lower (trim (take (w.colon) h))) (trim (drop (suc (w.colon)) h)) headers,
        rw (e, blank, found) refl,
      )

  run_header :
      (fuel : ℕ) (headers headers' : Params) (rest rest' : Bytes)
      → step States.header (at_header t url version sls headers rest)
        ≡ some (at_header t url version sls headers' rest')
      → run (suc fuel) (at_header t url version sls headers rest)
        ≡ run fuel (at_header t url version sls headers' rest')
  unfolding run
  run_header fuel headers headers' rest rest' e = ground (arith, e)

  -- the blank line, and the body that the parser reads behind it
  run_blank :
      (fuel : ℕ) (headers : Params)
      → run (suc (suc (suc fuel))) (at_header t url version sls headers (13 ∷ b'\n' ∷ []))
        ≡ some (at_end t url version sls headers)
  unfolding run getline read_header body_loop all_space line has_newline after_line
  run_blank fuel headers = refl

  pub run_headers :
      (hs : List Bytes) (fuel : ℕ) (headers : Params)
      → AllHeaders hs
      → length hs + 2 < fuel
      → (headers' : Params) × (run fuel (at_header t url version sls headers (header_lines hs))
          ≡ some (at_end t url version sls headers'))
  run_headers [] zero headers w l = absurd (omega arith)
  run_headers [] (suc zero) headers w l = absurd (omega arith)
  run_headers [] (suc (suc zero)) headers w l = absurd (omega arith)
  run_headers [] (suc (suc (suc fuel))) headers w l = (headers, run_blank fuel headers)
  run_headers (h ∷ hs) zero headers w l = absurd (omega arith)
  run_headers (h ∷ hs) (suc fuel) headers w l =
      let (headers₁, e) = header_round headers h (header_lines hs) w.0 in
      let (headers₂, r) = run_headers hs fuel headers₁ w.1 (omega (arith, l)) in
      (
        headers₂,
        run_header fuel headers headers₁ (h ++ (b'\n' ∷ header_lines hs)) (header_lines hs) e ∙ r,
      )
