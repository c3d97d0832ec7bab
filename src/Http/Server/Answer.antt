-- ===== src/Http/Server/Answer.antt =====
-- A request without a body, from the bytes that arrive to those that are sent.
use technosphere.Cache.Request.Extract.{IsWord, NoNewline, NoSpace, extract_word_lem}
use technosphere.Cache.Request.Protocol.{skip_word, skip_blank}
use technosphere.Cache.Stream.{open_stream}
use technosphere.Common.Bytes.{Bytes, codes, isspace, bytes_eq}
use technosphere.Common.{
  ℕ, suc, ◌+◌, ◌≤◌, ◌≡◌, ◌≢◌, refl, ap, ◌∙◌, true, false, some, List, [], ◌∷◌, ◌++◌, ◌==◌, arith,
  length, take,
}
use technosphere.Http.Params.{Params, parse_url, parse_body}
use technosphere.Http.Request.{
  RequestType, Request, States, Parser, token_type, read_startline, read_info, step, run, start,
  finish, parse,
}
use technosphere.Http.Server.Lines.{
  AllHeaders, header_lines, request_line, request_text, at_header, at_end, getline_line,
  run_headers,
}

-- A word holds no newline.
space_newline : (c : ℕ) → isspace c ≡ false → (c == b'\n') ≡ false
space_newline c h = ground (arith, h)

NoNewline-word : (w r : Bytes) → NoSpace w → NoNewline r → NoNewline (w ++ r)
NoNewline-word [] r h k = k
NoNewline-word (c ∷ w) r h k = (space_newline c h.0, NoNewline-word w r h.1 k)

IsWord-NoSpace : (w : Bytes) → IsWord w → NoSpace w
IsWord-NoSpace [] h = absurd h
IsWord-NoSpace (c ∷ w) h = h

length-behind : (a b : Bytes) → length b ≤ length (a ++ b)
length-behind [] b = omega arith
length-behind (x ∷ a) b = omega (arith, length-behind a b)

length-header_lines : (hs : List Bytes) → length hs ≤ length (header_lines hs)
length-header_lines [] = omega arith
length-header_lines (h ∷ hs) =
    omega (arith, length-header_lines hs, length-behind h (b'\n' ∷ header_lines hs))

-- The body is one newline, which the parser takes for a name and its value.
newline_params : parse_body (b'\n' ∷ []) ≡ some ((b'\n' ∷ [], b'\n' ∷ []) ∷ [])
unfolding parse_body
newline_params = refl

abbrev understood : RequestType → Parser → Bytes → Params → Request
understood t p path params = record {
  type = t;
  url = path;
  url_params = params;
  version = p.version;
  headers = p.headers;
  body = p.body;
  body_params = (b'\n' ∷ [], b'\n' ∷ []) ∷ [];
}

finish_known :
    (t : RequestType) (p : Parser) (path : Bytes) (params : Params)
    → t ≢ RequestType.error
    → parse_url (p.full_url) ≡ some (path, params)
    → p.body ≡ b'\n' ∷ []
    → (r : Request) × (finish t p ≡ some r) × (r.type ≡ t) × (r.url ≡ path)
unfolding finish
finish_known RequestType.error p path params known address body = absurd (known refl)
finish_known RequestType.get p path params known address body =
    let e = ap parse_body body ∙ newline_params in
    (understood RequestType.get p path params, ground (arith, address, e), refl, refl)
finish_known RequestType.post p path params known address body =
    let e = ap parse_body body ∙ newline_params in
    (understood RequestType.post p path params, ground (arith, address, e), refl, refl)
finish_known RequestType.head p path params known address body =
    let e = ap parse_body body ∙ newline_params in
    (understood RequestType.head p path params, ground (arith, address, e), refl, refl)

module _ (token url version : Bytes) (hs : List Bytes) (t : RequestType) (token_word : IsWord token)
    (url_word : IsWord url) (version_word : IsWord version)
    (named : token_type token ≡ (t, States.startline_info))
    (http : bytes_eq (take 5 version) (codes "HTTP/") ≡ true) (fine : AllHeaders hs) where
  abbrev text : Bytes
  text = request_text token url version hs

  one_line : NoNewline (request_line token url version)
  one_line = NoNewline-word token _ (IsWord-NoSpace token token_word) (
    refl,
    NoNewline-word url _ (IsWord-NoSpace url url_word)
        (refl, NoNewline-word version _ (IsWord-NoSpace version version_word) (refl, tt)),
  )

  abbrev behind_token : Bytes
  behind_token = url ++ (32 ∷ (version ++ (13 ∷ [])))

  startline_round :
      step States.startline (start text)
      ≡ some (record (start text) {
        str = open_stream (header_lines hs);
        startlinestr = open_stream (32 ∷ behind_token);
        type = t;
        state = States.startline_info;
      })
  unfolding step read_startline
  startline_round =
      let whole = getline_line (request_line token url version) (header_lines hs) one_line in
      let first =
        extract_word_lem 32 behind_token (request_line token url version) token
          (skip_word token (32 ∷ behind_token) token_word) token_word refl in
      rw (whole, first, named) refl

  info_round :
      step States.startline_info (record (start text) {
        str = open_stream (header_lines hs);
        startlinestr = open_stream (32 ∷ behind_token);
        type = t;
        state = States.startline_info;
      })
      ≡ some (at_header t url version (open_stream (13 ∷ [])) [] (header_lines hs))
  unfolding step read_info
  info_round =
      let second =
        extract_word_lem 32 (version ++ (13 ∷ [])) (32 ∷ behind_token) url
          (skip_blank behind_token ∙ skip_word url (32 ∷ (version ++ (13 ∷ []))) url_word) url_word
          refl in
      let third =
        extract_word_lem 13 [] (32 ∷ (version ++ (13 ∷ []))) version
          (skip_blank (version ++ (13 ∷ [])) ∙ skip_word version (13 ∷ []) version_word)
          version_word refl in
      rw (second, third, http) refl

  run-start :
      (fuel : ℕ)
      → run (suc (suc fuel)) (start text)
        ≡ run fuel (at_header t url version (open_stream (13 ∷ [])) [] (header_lines hs))
  unfolding run
  run-start fuel = ground (arith, startline_round, info_round)

  -- what the parser leaves
  parsed :
      (headers : Params) × (run (length text + 5) (start text)
        ≡ some (at_end t url version (open_stream (13 ∷ [])) headers))
  parsed =
      let long = length-header_lines hs in
      let inside = length-behind (request_line token url version) (b'\n' ∷ header_lines hs) in
      let (headers, e) =
        run_headers t url version (open_stream (13 ∷ [])) hs (length text + 3) [] fine
          (omega (arith, long, inside)) in
      let fuel : length text + 5 ≡ suc (suc (length text + 3)) = omega arith in
      (headers, ap (λ (n : ℕ). run n (start text)) fuel ∙ run-start (length text + 3) ∙ e)

  pub parse-text :
      (path : Bytes) (params : Params)
      → t ≢ RequestType.error
      → parse_url url ≡ some (path, params)
      → (r : Request) × (parse text ≡ some r) × (r.type ≡ t) × (r.url ≡ path)
  unfolding parse
  parse-text path params known address =
      let (headers, e) = parsed in
      let p = at_end t url version (open_stream (13 ∷ [])) headers in
      let (r, f, g, h) = finish_known t p path params known address refl in
      let ends : parse text ≡ finish t p = ground (arith, e) in (r, ends ∙ f, g, h)
