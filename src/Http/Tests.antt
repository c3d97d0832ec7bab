-- ===== src/Http/Tests.antt =====
-- Runs of the theorems on sphere_prac/http_server.
use technosphere.Cache.Stream.{
  extract_word, word, skip_ws, line, after_line, has_newline, after_word, getline,
}
use technosphere.Common.Bytes.{codes, bytes_eq}
use technosphere.Common.{◌+◌, ◌≡◌, refl, false, none, some, [], ◌∷◌, arith, length}
use technosphere.Http.Handler.{Files}
use technosphere.Http.Params.Endless.{params_loop_never}
use technosphere.Http.Params.Query.{IsQuery}
use technosphere.Http.Params.{Params, parse_body, parse_url, params_loop}
use technosphere.Http.Request.Ends.{run_ends}
use technosphere.Http.Request.Url.{IsOrdered, parse_url-print_params}
use technosphere.Http.Request.{
  RequestType, Request, States, Parser, start, run, parse, print_params,
}
use technosphere.Http.Strings.{bytes_lt, all_space, find_char, trim}

abbrev two_params : Params
two_params = (codes "name", codes "Ann") ∷ (codes "phone", codes "5") ∷ []

two_params-IsQuery : IsQuery two_params
two_params-IsQuery = (
  (refl, (refl, (refl, (refl, tt)))),
  (refl, (refl, (refl, tt))),
  ((refl, (refl, (refl, (refl, (refl, tt))))), (refl, tt), tt),
)

two_params-IsOrdered : IsOrdered two_params
unfolding bytes_lt
two_params-IsOrdered = ((refl, tt), (tt, tt))

parse_url-print_params_example :
    parse_url (print_params two_params (codes "/a")) ≡ some (codes "/a", two_params)
parse_url-print_params_example =
    parse_url-print_params (codes "/a") two_params (refl, (refl, tt)) two_params-IsQuery
      two_params-IsOrdered

params_loop_never_example : params_loop 1000 (codes "x=1&y") 0 [] ≡ none
params_loop_never_example =
    params_loop_never 1000 (codes "x") (codes "1") (codes "y") (refl, tt) (refl, tt) (refl, tt)
      (refl, tt) (omega arith)

run_ends_example :
    (p : Parser) × (run (length (codes "GET / HTTP/1.1\n") + 5) (start (codes "GET / HTTP/1.1\n"))
      ≡ some p)
run_ends_example = run_ends (codes "GET / HTTP/1.1\n")

abbrev at_body : Parser
at_body = record (start (codes "I love\nyou")) { state = States.body }

-- The request of the repository's own test.
sample_request :
    parse (codes "GET /path?b=1&a=2 HTTP/1.1\nHost: ru.org\nInfo:  X \n\nI love\n")
    ≡ some (record {
      type = RequestType.get;
      url = codes "/path";
      url_params = (codes "a", codes "2") ∷ (codes "b", codes "1") ∷ [];
      version = codes "HTTP/1.1";
      headers = (codes "host", codes "ru.org") ∷ (codes "info", codes "X") ∷ [];
      body = codes "I love\n\n";
      body_params = (codes "I love\n\n", codes "I love\n\n") ∷ [];
    })
unfolding parse getline has_newline bytes_eq extract_word word skip_ws line all_space after_line
    find_char after_word parse_url parse_body trim
sample_request = refl

abbrev files : Files
files = record { contents = λ name. some (codes "text"); can_append = λ name. false }

abbrev page : Request
page = record {
  type = RequestType.get;
  url = codes "/a";
  url_params = [];
  version = codes "HTTP/1.1";
  headers = [];
  body = [];
  body_params = [];
}

abbrev index_file : Files
index_file = record { contents = λ name. some (codes "hello"); can_append = λ name. false }
