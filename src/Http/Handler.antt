-- ===== src/Http/Handler.antt =====
-- sphere_prac/http_server/Handler.cpp, Handler.hpp. The files are a parameter.
use technosphere.Common.Bytes.{Bytes, codes}
use technosphere.Common.{
  ◌≡◌, Bool, Option, none, some, List, [], ◌∷◌, ◌++◌, if◌then◌else◌, Option-cases, inl, inr,
}
use technosphere.Http.Params.{at}
use technosphere.Http.Request.{RequestType, Request}
use technosphere.Http.Response.{
  Response, new_response, set_version, set_status, set_reason, set_body,
}

-- What the file streams find: the contents of a file that opens for reading, and whether one opens
-- for appending.
pub record Files : Type 0 where
  pub contents : Bytes → Option Bytes
  pub can_append : Bytes → Bool

-- What a handler does: it returns a response, with what it appended to which file; `at` throws
-- `std::out_of_range`; or it runs off its end without a value.
pub data Handled : Type 0 where
  response : Response → List (Bytes × Bytes) → Handled
  out_of_range : Handled
  no_value : Handled

abbrev fresh : Response
unfolding new_response set_version
fresh = set_version (codes "HTTP/1.1") new_response

module _ (root : Bytes) (fs : Files) where
  unfoldable pub get_file : Option Bytes → Response
  unfolding set_status set_reason set_body fresh
  get_file none =
      set_body (codes "File error") (set_reason (codes "File error") (set_status 404 fresh))
  get_file (some text) = set_body text (set_reason (codes "OK") (set_status 200 fresh))

  -- `Handler::get`
  unfoldable pub handle_get : Request → Handled
  unfolding get_file
  handle_get r = response (get_file (fs.contents (root ++ r.url))) []

  unfoldable pub head_file : Option Bytes → Response
  unfolding set_status set_reason fresh
  head_file none = set_reason (codes "File error") (set_status 404 fresh)
  head_file (some text) = set_reason (codes "OK") (set_status 200 fresh)

  -- `Handler::head`
  unfoldable pub handle_head : Request → Handled
  unfolding head_file
  handle_head r = response (head_file (fs.contents (root ++ r.url))) []

  -- The line that `post` appends, behind `ofs.open`. What part of a line reaches the file when `at`
  -- throws is left out.
  unfoldable pub post_params : Option Bytes → Option Bytes → Request → Handled
  unfolding set_status set_reason set_body fresh
  post_params (some name) (some phone) r =
      response
        (set_body (codes "Post finished. Try to load data.html\n" ++ r.body)
          (set_reason (codes "OK") (set_status 200 fresh)))
        ((root ++ codes "/data.html", name ++ (32 ∷ (phone ++ (b'\n' ∷ [])))) ∷ [])
  post_params _ _ r = out_of_range

  -- `Handler::post`
  unfoldable pub handle_post : Request → Handled
  unfolding post_params set_status set_reason set_body fresh at
  handle_post r =
      if fs.can_append (root ++ codes "/data.html")
      then post_params (at (codes "name") r.body_params) (at (codes "phone") r.body_params) r
      else response
          (set_body (codes "Post failed") (set_reason (codes "File error") (set_status 404 fresh)))
          []

  unfoldable pub handle_type : RequestType → Request → Handled
  unfolding handle_get handle_post handle_head
  handle_type RequestType.get r = handle_get r
  handle_type RequestType.post r = handle_post r
  handle_type RequestType.head r = handle_head r
  handle_type RequestType.error r = no_value

  -- `Handler::handle`
  unfoldable pub handle : Request → Handled
  unfolding handle_type
  handle r = handle_type r.type r

  -- A HEAD request is answered as the GET request of the same URL is, without the body.
  pub handle_head-get :
      (r : Request)
      → (answer : Response) × (handle (record r { type = RequestType.get }) ≡ response answer [])
        × (handle (record r { type = RequestType.head })
            ≡ response (record answer { body = [] }) [])
  unfolding handle
  handle_head-get r = elim (Option-cases (fs.contents (root ++ r.url))) [
    | inl e ↦ (get_file none, rw e, rw e)
    | inr (text, e) ↦ (get_file (some text), rw e, rw e)
  ]
