-- ===== src/Cache/Request.antt =====
-- sphere_prac/p5/Request.cpp, Request.hpp: the text protocol.
pub mod Extract
pub mod Protocol
pub mod Answers
use technosphere.Cache.HashTable.{HashTable, get, set}
use technosphere.Cache.Machine.{
  State, Outcome, done, thrown, asleep, M, pure, ◌>>=◌, ◌>>◌, code_value,
}
use technosphere.Cache.Semaphore.{SysV}
use technosphere.Cache.Stream.{
  Stream, open_stream, extract_word, extract_unsigned, extract_ws, getline,
}
use technosphere.Common.Bytes.{Bytes, codes, bytes_eq}
use technosphere.Common.{
  ℕ, ◌+◌, Bool, true, false, ◌||◌, Option, none, some, [], ◌∷◌, ◌++◌, if◌then◌else◌,
}

-- `RequestBase` and its subclasses.
pub data RequestBase : Type 0 where
  get_request : Bytes → RequestBase
  set_request : Bytes → Bytes → ℕ → RequestBase

pub record Request : Type 0 where
  pub request : Option RequestBase
  pub parse_error : Bool

-- `value.substr(0, value.size() - 1)`: all but the last character. (An empty value stays empty,
-- since `size() - 1` is then `npos`.)
unfoldable pub drop_last : Bytes → Bytes
drop_last [] = []
drop_last (c ∷ []) = []
drop_last (c ∷ d ∷ s) = c ∷ drop_last (d ∷ s)

-- The branch of "get".
unfoldable pub parse_get : Stream → Request
parse_get st =
    let (st', key) = extract_word st in
    record { request = some (get_request key); parse_error = st'.fail }

-- The branch of "set".
unfoldable pub parse_set : Stream → Request
parse_set st =
    let (s₁, ttl) = extract_unsigned st in
    let (s₂, key) = extract_word s₁ in
    let (s₃, value) = getline (extract_ws s₂) in
    record { request = some (set_request key (drop_last value) ttl); parse_error = s₃.fail }

-- `Request::Request(const std::string &)`
unfoldable pub parse_request : Bytes → Request
unfolding parse_get parse_set bytes_eq
parse_request s =
    let (st, type) = extract_word (open_stream s) in
    if bytes_eq type (codes "get")
    then parse_get st
    else if bytes_eq type (codes "set")
    then parse_set st
    else record { request = none; parse_error = true }

module _ (sys : SysV) where
  open sys use {Sems}

  -- `GetRequest::perform` and `SetRequest::perform`
  unfoldable pub perform_base : HashTable → RequestBase → M Sems Bytes
  perform_base t (get_request key) =
      get sys t key >>= λ v. pure (codes "ok " ++ (key ++ (codes " " ++ v)))
  perform_base t (set_request key value ttl) =
      set sys t key value ttl >> pure (codes "ok " ++ (key ++ (codes " " ++ value)))

  -- the `try` and its handler; a code has one digit
  unfoldable pub answer : Outcome Sems Bytes → Outcome Sems Bytes
  unfolding code_value
  answer (done r s) = done r s
  answer (thrown c s) = done (codes "error " ++ (48 + code_value c) ∷ []) s
  answer asleep = asleep

  -- `Request::perform`. (A null `request` is never reached: it comes with a parse error.)
  unfoldable pub perform_parsed : HashTable → Option RequestBase → M Sems Bytes
  unfolding perform_base answer
  perform_parsed t none s = asleep
  perform_parsed t (some r) s = answer (perform_base t r s)

  unfoldable pub perform : HashTable → Request → M Sems Bytes
  unfolding perform_parsed
  perform t r =
      if r.parse_error then pure (codes "error parse_error") else perform_parsed t r.request
