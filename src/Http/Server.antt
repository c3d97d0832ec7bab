-- ===== src/Http/Server.antt =====
-- sphere_prac/http_server/main.cpp: what the server does with the bytes of a connection.
pub mod Lines
pub mod Answer
use technosphere.Common.Bytes.{Bytes, c_str}
use technosphere.Common.{Option, none, some, List}
use technosphere.Http.Handler.{Files, Handled, response, out_of_range, no_value, handle}
use technosphere.Http.Request.{Request, parse}
use technosphere.Http.Response.{Response, response_text}

-- What `send` gets, with what was appended to which file; a loop of the parser that goes on for ever; an
-- exception that nothing catches; or a function that ends without its value.
pub data Served : Type 0 where
  sends : Bytes → List (Bytes × Bytes) → Served
  endless : Served
  escapes : Served
  undefined : Served

unfoldable pub answered : Handled → Served
unfolding response_text
answered (Handled.response r files) = sends (response_text r) files
answered Handled.out_of_range = escapes
answered Handled.no_value = undefined

module _ (root : Bytes) (fs : Files) where
  unfoldable pub serve_request : Option Request → Served
  unfolding answered handle
  serve_request none = endless
  serve_request (some r) = answered (handle root fs r)

  -- The loop of `main`, for one connection and what its buffer holds after `receive`.
  unfoldable pub serve : Bytes → Served
  unfolding serve_request parse
  serve buf = serve_request (parse (c_str buf))
