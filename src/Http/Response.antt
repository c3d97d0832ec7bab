-- ===== src/Http/Response.antt =====
-- sphere_prac/http_server/Response.cpp, Response.hpp.
use technosphere.Common.Bytes.{Bytes}
use technosphere.Common.{ℕ, ◌+◌, ◌/◌, ◌%◌, [], ◌∷◌, ◌++◌}
use technosphere.Http.Params.{Params, assign}
use technosphere.Http.Request.{print_headers}
use technosphere.Http.Strings.{lower}

pub record Response : Type 0 where
  pub version : Bytes
  pub status : ℕ
  pub reason : Bytes
  pub headers : Params
  pub body : Bytes

unfoldable pub new_response : Response
new_response = record { version = []; status = 0; reason = []; headers = []; body = [] }

unfoldable pub set_version : Bytes → Response → Response
set_version version r = record r { version = version }

unfoldable pub set_status : ℕ → Response → Response
set_status status r = record r { status = status }

unfoldable pub set_reason : Bytes → Response → Response
set_reason reason r = record r { reason = reason }

unfoldable pub set_headers : Params → Response → Response
set_headers headers r = record r { headers = headers }

unfoldable pub set_body : Bytes → Response → Response
set_body body r = record r { body = body }

unfoldable pub add_header : Bytes → Bytes → Response → Response
add_header name value r = record r { headers = assign (lower name) value r.headers }

unfoldable pub add_body : Bytes → Response → Response
add_body body r = record r { body = r.body ++ body }

-- `std::to_string` of a status of three digits
unfoldable pub status_text : ℕ → Bytes
status_text n = (48 + n / 100) ∷ (48 + n / 10 % 10) ∷ (48 + n % 10) ∷ []

-- `Response::to_http`
unfoldable pub response_text : Response → Bytes
unfolding status_text
response_text r =
    r.version
    ++ (32
        ∷ (status_text r.status
            ++ (32 ∷ (r.reason ++ (b'\n' ∷ (print_headers r.headers ++ (b'\n' ∷ r.body)))))))
