-- ===== src/Http/Request.antt =====
-- sphere_prac/http_server/Request.cpp, Request.hpp: a request, its parser and its printer.
pub mod Body
pub mod Ends
pub mod Url
use mathlib.Core.Option
use technosphere.Cache.Stream.{Stream, open_stream, extract_word, getline}
use technosphere.Common.Bytes.{Bytes, bytes_eq, codes}
use technosphere.Common.{
  ℕ, zero, suc, ◌+◌, ◌-◌, Bool, true, false, ◌&&◌, not, Option, none, some, List, [], ◌∷◌, ◌++◌,
  ◌==◌, if◌then◌else◌, take, drop, length,
}
use technosphere.Http.Params.{Params, assign, parse_url, parse_body}
use technosphere.Http.Strings.{find_char, trim, all_space, lower, without_last}

-- `enum { GET, POST, HEAD, ERROR }`
pub data RequestType : Type 0 where
  get post head error : RequestType

pub record Request : Type 0 where
  pub type : RequestType
  pub url : Bytes
  pub url_params : Params
  pub version : Bytes
  pub headers : Params
  pub body : Bytes
  pub body_params : Params

-- The constructor from the members; any type but GET, POST and HEAD becomes ERROR.
unfoldable pub type_of : ℕ → RequestType
type_of type =
    if type == 0
    then RequestType.get
    else if type == 1
    then RequestType.post
    else if type == 2
    then RequestType.head
    else RequestType.error

unfoldable pub new_request : ℕ → Bytes → Params → Bytes → Params → Bytes → Params → Request
unfolding type_of
new_request type url url_params version headers body body_params = record {
  type = type_of type;
  url = url;
  url_params = url_params;
  version = version;
  headers = headers;
  body = body;
  body_params = body_params;
}

-- `STATES`, without HEADER_VALUE, which nothing sets.
pub data States : Type 0 where
  startline startline_info header body error end : States

-- The variables of the parser.
pub record Parser : Type 0 where
  pub str : Stream
  pub startlinestr : Stream
  pub state : States
  pub type : RequestType
  pub full_url : Bytes
  pub version : Bytes
  pub headers : Params
  pub body : Bytes

-- The type that the first token names, and the state after it.
unfoldable pub token_type : Bytes → RequestType × States
token_type token =
    if bytes_eq token (codes "GET")
    then (RequestType.get, States.startline_info)
    else if bytes_eq token (codes "POST")
    then (RequestType.post, States.startline_info)
    else if bytes_eq token (codes "HEAD")
    then (RequestType.head, States.startline_info)
    else (RequestType.error, States.error)

-- The case STARTLINE.
unfoldable pub read_startline : Parser → Parser
unfolding token_type
read_startline p =
    let (str, tmp) = getline p.str in
    let (startlinestr, token) = extract_word (open_stream tmp) in
    record p {
      str = str;
      startlinestr = startlinestr;
      type = (token_type token).0;
      state = (token_type token).1;
    }

-- The case STARTLINE_INFO. The state ERROR that a bad version sets is overwritten at once.
unfoldable pub read_info : Parser → Parser
read_info p =
    let (s₁, full_url) = extract_word p.startlinestr in
    let (s₂, version) = extract_word s₁ in
    record p {
      startlinestr = s₂;
      full_url = full_url;
      version = version;
      type = if bytes_eq (take 5 version) (codes "HTTP/") then p.type else RequestType.error;
      state = States.header;
    }

-- The header that a line holds, with the place of its colon. Without a colon the state is ERROR, and
-- the type stays: the code compares it where it means to assign.
unfoldable pub read_header_line : Option ℕ → Bytes → Parser → Parser
read_header_line none tmp p = record p { state = States.error }
read_header_line (some pst) tmp p = record p {
  headers = assign (lower (trim (take pst tmp))) (trim (drop (suc pst) tmp)) p.headers;
}

-- The case HEADER.
unfoldable pub read_header : Parser → Parser
unfolding read_header_line
read_header p =
    let (str, tmp) = getline p.str in
    if all_space tmp
    then record p { str = str; state = States.body }
    else read_header_line (find_char b':' tmp 0) tmp (record p { str = str })

-- The loop of the case BODY; `none` if the fuel runs out.
unfoldable pub body_loop : ℕ → Stream → Bytes → Option (Stream × Bytes)
body_loop zero str text = none
body_loop (suc fuel) str text =
    let (str', tmp) = getline str in
    let rest = body_loop fuel str' (text ++ (tmp ++ (b'\n' ∷ []))) in
    if str.eof then some (str, text) else rest

-- The case BODY: each line read takes a character or ends the stream.
unfoldable pub read_body : Parser → Option Parser
unfolding body_loop
read_body p =
    Option.map (λ (r : Stream × Bytes). record p { str = r.0; body = r.1; state = States.end })
      (body_loop (length p.str.rest + 2) p.str p.body)

-- One round of the `switch`.
unfoldable pub step : States → Parser → Option Parser
unfolding read_startline read_info read_header read_body
step States.startline p = some (read_startline p)
step States.startline_info p = some (read_info p)
step States.header p = some (read_header p)
step States.body p = read_body p
step States.error p = some p
step States.end p = some p

-- Whether the state is neither END nor ERROR.
abbrev pub is_going : States → Bool
is_going States.end = false
is_going States.error = false
is_going _ = true

-- The `while` of the parser; `none` if the fuel runs out.
unfoldable pub run : ℕ → Parser → Option Parser
unfolding step
run zero p = none
run (suc fuel) p =
    if not p.str.eof && is_going p.state
    then elim (step p.state p) [ none ↦ none | some p' ↦ run fuel p' ]
    else some p

abbrev pub start : Bytes → Parser
start s = record {
  str = open_stream s;
  startlinestr = open_stream [];
  state = States.startline;
  type = RequestType.error;
  full_url = [];
  version = [];
  headers = [];
  body = [];
}

-- Behind the loop: the parameters, unless the type is ERROR.
unfoldable pub finish : RequestType → Parser → Option Request
finish RequestType.error p = some (record {
  type = RequestType.error;
  url = [];
  url_params = [];
  version = p.version;
  headers = p.headers;
  body = p.body;
  body_params = [];
})
finish t p = elim (parse_url p.full_url) [
  | none ↦ none
  | some (url, url_params) ↦ elim (parse_body p.body) [
    | none ↦ none
    | some body_params ↦ some (record {
      type = t;
      url = url;
      url_params = url_params;
      version = p.version;
      headers = p.headers;
      body = p.body;
      body_params = body_params;
    })
  ]
]

-- `Request::Request(const std::string &)`; `none` if a loop does not end.
unfoldable pub parse : Bytes → Option Request
unfolding run finish
parse s = elim (run (length s + 5) (start s)) [ none ↦ none | some p ↦ finish p.type p ]

unfoldable pub type_name : RequestType → Bytes
type_name RequestType.get = codes "GET"
type_name RequestType.post = codes "POST"
type_name RequestType.head = codes "HEAD"
type_name RequestType.error = []

-- The loop over `url_params`, with an `&` behind each.
unfoldable pub print_pairs : Params → Bytes
print_pairs [] = []
print_pairs (p ∷ ps) = p.0 ++ (b'=' ∷ (p.1 ++ (b'&' ∷ print_pairs ps)))

-- What `to_http` prints so far, with the parameters behind it.
unfoldable pub print_params : Params → Bytes → Bytes
unfolding print_pairs
print_params [] res = res
print_params (p ∷ ps) res = without_last (res ++ (b'?' ∷ print_pairs (p ∷ ps)))

unfoldable pub print_headers : Params → Bytes
print_headers [] = []
print_headers (p ∷ ps) = p.0 ++ (b':' ∷ 32 ∷ (p.1 ++ (b'\n' ∷ print_headers ps)))

-- `Request::to_http`
unfoldable pub to_http : Request → Bytes
unfolding type_name print_params print_headers
to_http r =
    print_params r.url_params (type_name r.type ++ (32 ∷ r.url))
    ++ (32 ∷ (r.version ++ (b'\n' ∷ (print_headers r.headers ++ (b'\n' ∷ r.body)))))
