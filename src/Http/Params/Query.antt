-- ===== src/Http/Params/Query.antt =====
-- A query whose names hold no `=` and whose values hold no `&` is parsed into its pairs.
use technosphere.Common.Bytes.{drop-append, move_front, length-move_front, Bytes}
use technosphere.Common.{
  ℕ, zero, suc, ◌+◌, ◌<◌, ◌≤◌, ◌≡◌, sym, ap, ◌∙◌, true, false, Option, none, some, [], ◌∷◌, ◌++◌,
  arith, ltb, length, length-append,
}
use technosphere.Http.Params.{Params, assign, after_amp, params_loop, parse_body, parse_url, query}
use technosphere.Http.Strings.{
  find_char, substr_to, behind, Without, find_char-found, find_char-none, substr_to-found,
}

-- Names without `=`, values without `&`.
abbrev pub IsQuery : Params → Type 0
IsQuery [] = Unit
IsQuery (p ∷ ps) = Without b'=' p.0 × Without b'&' p.1 × IsQuery ps

-- The assignments of the pairs, in order.
unfoldable pub assign_all : Params → Params → Params
assign_all [] params = params
assign_all (p ∷ ps) params = assign_all ps (assign p.0 p.1 params)

-- One round on a text in which a pair stands at the index.
params_loop-pair :
    (fuel : ℕ) (pre name rest value : Bytes) (amp : Option ℕ) (params : Params)
    → Without b'=' name
    → find_char b'&' (pre ++ (name ++ (b'=' ∷ rest))) (suc (length pre + length name)) ≡ amp
    → substr_to (pre ++ (name ++ (b'=' ∷ rest))) (suc (length pre + length name)) amp ≡ value
    → params_loop (suc fuel) (pre ++ (name ++ (b'=' ∷ rest))) (length pre) params
      ≡ params_loop fuel
          (pre ++ (name ++ (b'=' ∷ rest)))
          (after_amp (pre ++ (name ++ (b'=' ∷ rest))) amp)
          (assign name value params)
unfolding params_loop behind
params_loop-pair fuel pre name rest value amp params h found taken =
    let s = pre ++ (name ++ (b'=' ∷ rest)) in
    let inside : ltb (length pre) (length s) ≡ true =
      ground (arith, length-append pre (name ++ (b'=' ∷ rest)), length-append name (b'=' ∷ rest)) in
    rw (
      inside,
      find_char-found b'=' pre name rest h,
      substr_to-found pre name (b'=' ∷ rest),
      found,
      taken,
    )

params_loop-end :
    (fuel : ℕ) (s : Bytes) (i : ℕ) (params : Params)
    → 0 < fuel
    → length s ≤ i
    → params_loop fuel s i params ≡ some params
unfolding params_loop
params_loop-end zero s i params f h = absurd (omega arith)
params_loop-end (suc fuel) s i params f h =
    let outside : ltb i (length s) ≡ false = ground arith in rw outside

-- What is read behind the `=` is read at the front of the rest.
module _ {A : Type 0} (read : Bytes → ℕ → A) (pre name rest : Bytes) (c : ℕ) where
  read_behind :
      read (pre ++ (name ++ (c ∷ rest))) (suc (length pre + length name))
      ≡ read ((pre ++ (name ++ (c ∷ []))) ++ rest) (length (pre ++ (name ++ (c ∷ []))))
  read_behind =
      ap (λ (s : Bytes). read s (suc (length pre + length name))) (move_front pre name rest c)
      ∙ ap (read ((pre ++ (name ++ (c ∷ []))) ++ rest)) (sym (length-move_front pre name c))

params_loop-last :
    (fuel : ℕ) (pre name value : Bytes) (params : Params)
    → Without b'=' name
    → Without b'&' value
    → 0 < fuel
    → params_loop (suc fuel) (pre ++ (name ++ (b'=' ∷ value))) (length pre) params
      ≡ some (assign name value params)
unfolding substr_to after_amp
params_loop-last fuel pre name value params h k f =
    let s = pre ++ (name ++ (b'=' ∷ value)) in
    let pre' = pre ++ (name ++ (b'=' ∷ [])) in
    params_loop-pair fuel pre name value value none params h
      (read_behind (find_char b'&') pre name value b'=' ∙ find_char-none b'&' pre' value k)
      (read_behind (λ (t : Bytes) (i : ℕ). substr_to t i none) pre name value b'='
        ∙ drop-append pre' value)
    ∙ params_loop-end fuel s (length s) (assign name value params) f (omega arith)

pub params_loop-next :
    (fuel : ℕ) (pre name value rest : Bytes) (params : Params)
    → Without b'=' name
    → Without b'&' value
    → params_loop
        (suc fuel)
        (pre ++ (name ++ (b'=' ∷ (value ++ (b'&' ∷ rest)))))
        (length pre)
        params
      ≡ params_loop fuel
          (((pre ++ (name ++ (b'=' ∷ []))) ++ (value ++ (b'&' ∷ []))) ++ rest)
          (length ((pre ++ (name ++ (b'=' ∷ []))) ++ (value ++ (b'&' ∷ []))))
          (assign name value params)
unfolding after_amp
params_loop-next fuel pre name value rest params h k =
    let tail = value ++ (b'&' ∷ rest) in
    let pre' = pre ++ (name ++ (b'=' ∷ [])) in
    let pre'' = pre' ++ (value ++ (b'&' ∷ [])) in
    let amp : Option ℕ = some (length pre' + length value) in
    let p' = assign name value params in
    let next : length pre' + length value + 1 ≡ length pre'' =
      omega (arith, length-move_front pre' value b'&') in
    params_loop-pair fuel pre name tail value amp params h
      (read_behind (find_char b'&') pre name tail b'=' ∙ find_char-found b'&' pre' value rest k)
      (read_behind (λ (t : Bytes) (i : ℕ). substr_to t i amp) pre name tail b'='
        ∙ substr_to-found pre' value (b'&' ∷ rest))
    ∙ ap (λ (i : ℕ). params_loop fuel (pre ++ (name ++ (b'=' ∷ tail))) i p') next
    ∙ ap (λ (s : Bytes). params_loop fuel s (length pre'') p')
        (move_front pre name tail b'=' ∙ move_front pre' value rest b'&')

params_loop-query :
    (fuel : ℕ) (ps : Params) (pre : Bytes) (params : Params)
    → IsQuery ps
    → length (query ps) < fuel
    → params_loop fuel (pre ++ query ps) (length pre) params ≡ some (assign_all ps params)
unfolding query assign_all
params_loop-query zero ps pre params h f = absurd (omega arith)
params_loop-query (suc fuel) [] pre params h f =
    params_loop-end (suc fuel) (pre ++ []) (length pre) params (omega arith)
      (omega (arith, length-append pre []))
params_loop-query (suc fuel) (p ∷ []) pre params h f =
    params_loop-last fuel pre p.0 p.1 params h.0 h.1 (omega (arith, length-append p.0 (b'=' ∷ p.1)))
params_loop-query (suc fuel) (p ∷ q ∷ ps) pre params h f =
    let rest = query (q ∷ ps) in
    params_loop-next fuel pre p.0 p.1 rest params h.0 h.1
    ∙ params_loop-query fuel (q ∷ ps) ((pre ++ (p.0 ++ (b'=' ∷ []))) ++ (p.1 ++ (b'&' ∷ [])))
        (assign p.0 p.1 params) h.2
        (omega (
          arith,
          length-append p.0 (b'=' ∷ (p.1 ++ (b'&' ∷ rest))),
          length-append p.1 (b'&' ∷ rest),
        ))

-- The loop of `parse_params` ends on a query whose names hold no `=` and whose values hold no `&`,
-- and its parameters are the pairs, assigned in order.
pub parse_body-query : (ps : Params) → IsQuery ps → parse_body (query ps) ≡ some (assign_all ps [])
unfolding parse_body
parse_body-query ps h = params_loop-query (length (query ps) + 1) ps [] [] h (omega arith)

-- Behind an address without `?` a query whose names hold no `=` and whose values hold no `&` is
-- parsed into its pairs, assigned in order, and the address is cut off.
pub parse_url-query :
    (addr : Bytes) (ps : Params)
    → Without b'?' addr
    → IsQuery ps
    → parse_url (addr ++ (b'?' ∷ query ps)) ≡ some (addr, assign_all ps [])
unfolding parse_url
parse_url-query addr ps a h =
    let s = addr ++ (b'?' ∷ query ps) in
    let pre = addr ++ (b'?' ∷ []) in
    let fuel = length s + 1 in
    let place : length {A = ℕ} [] + length addr + 1 ≡ length pre =
      omega (arith, length-append addr (b'?' ∷ [])) in
    let loop : params_loop fuel s (length {A = ℕ} [] + length addr + 1) []
        ≡ some (assign_all ps []) =
      ap (λ (i : ℕ). params_loop fuel s i []) place
      ∙ ap (λ (t : Bytes). params_loop fuel t (length pre) []) (move_front [] addr (query ps) b'?')
      ∙ params_loop-query fuel ps pre [] h (omega (arith, length-append addr (b'?' ∷ query ps))) in
    let found : find_char b'?' s 0 ≡ some (length {A = ℕ} [] + length addr) =
      find_char-found b'?' [] addr (query ps) a in
    let cut : substr_to s 0 (some (length {A = ℕ} [] + length addr)) ≡ addr =
      substr_to-found [] addr (b'?' ∷ query ps) in
    rw (found, loop, cut)
