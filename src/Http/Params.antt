-- ===== src/Http/Params.antt =====
-- sphere_prac/http_server/Request.cpp: the parameters of a query. A text is shorter than 2^31, as the
-- index of the loop is an `int`.
pub mod Query
pub mod Endless
use mathlib.Core.Option
use technosphere.Common.Bytes.{Bytes, bytes_eq, codes}
use technosphere.Common.{
  ℕ, zero, suc, ◌+◌, Bool, true, false, Option, none, some, List, [], ◌∷◌, ◌++◌, ltb, if◌then◌else◌,
  length,
}
use technosphere.Http.Strings.{find_char, substr_to, behind, bytes_lt}

-- `std::map<std::string, std::string>`: its pairs, in the order of the keys.
abbrev pub Params : Type 0
Params = List (Bytes × Bytes)

-- `params[name] = value`
unfoldable pub assign : Bytes → Bytes → Params → Params
unfolding bytes_lt
assign name value [] = (name, value) ∷ []
assign name value (p ∷ ps) =
    let rest = assign name value ps in
    if bytes_eq name p.0
    then (name, value) ∷ ps
    else if bytes_lt name p.0
    then (name, value) ∷ p ∷ ps
    else p ∷ rest

-- `params.at(name)`, which throws (here `none`) without the key
unfoldable pub at : Bytes → Params → Option Bytes
at name [] = none
at name (p ∷ ps) = if bytes_eq name p.0 then some p.1 else at name ps

-- `pst != npos ? pst + 1 : s.size()`
unfoldable pub after_amp : Bytes → Option ℕ → ℕ
after_amp s none = length s
after_amp s (some p) = p + 1

-- The loop of `parse_params`; `none` if the fuel runs out.
unfoldable pub params_loop : ℕ → Bytes → ℕ → Params → Option Params
unfolding find_char substr_to behind after_amp assign
params_loop zero s i params = none
params_loop (suc fuel) s i params =
    let eq = find_char b'=' s i in
    let name = substr_to s i eq in
    let i' = behind eq in
    let amp = find_char b'&' s i' in
    let value = substr_to s i' amp in
    let rest = params_loop fuel s (after_amp s amp) (assign name value params) in
    if ltb i (length s) then rest else some params

unfoldable pub parse_url_at : Option ℕ → Bytes → Option (Bytes × Params)
unfolding params_loop
parse_url_at none s = some (s, [])
parse_url_at (some p) s =
    Option.map (λ (ps : Params). (substr_to s 0 (some p), ps))
      (params_loop (length s + 1) s (p + 1) [])

-- `parse_params` with `addr_exist`: the address and the parameters
unfoldable pub parse_url : Bytes → Option (Bytes × Params)
unfolding parse_url_at
parse_url s = parse_url_at (find_char b'?' s 0) s

-- `parse_params` without it
unfoldable pub parse_body : Bytes → Option Params
unfolding params_loop
parse_body s = params_loop (length s + 1) s 0 []

-- The parameters as `Request::to_http` prints them, without the last `&`.
unfoldable pub query : Params → Bytes
query [] = []
query (p ∷ []) = p.0 ++ (b'=' ∷ p.1)
query (p ∷ q ∷ ps) = p.0 ++ (b'=' ∷ (p.1 ++ (b'&' ∷ query (q ∷ ps))))
