-- ===== src/Http/Request/Url.antt =====
-- A URL with parameters, printed by `to_http` and parsed again.
use mathlib.Core.List.{append_assoc, append-nil}
use technosphere.Common.Bytes.{Bytes, bytes_eq}
use technosphere.Common.{ℕ, ◌≡◌, refl, sym, ap, ◌∙◌, true, false, none, some, [], ◌∷◌, ◌++◌, arith}
use technosphere.Http.Params.Query.{IsQuery, assign_all, parse_url-query}
use technosphere.Http.Params.{Params, assign, parse_url, query}
use technosphere.Http.Request.{print_pairs, print_params}
use technosphere.Http.Strings.{bytes_lt, Without, find_char, find_char-none, without_last}

-- The keys of a map are in order.
abbrev pub IsBelow : Bytes → Params → Type 0
IsBelow name [] = Unit
IsBelow name (p ∷ ps) = (bytes_lt name p.0 ≡ true) × IsBelow name ps

abbrev pub IsOrdered : Params → Type 0
IsOrdered [] = Unit
IsOrdered (p ∷ ps) = IsBelow p.0 ps × IsOrdered ps

abbrev IsAbove : Bytes → Params → Type 0
IsAbove name [] = Unit
IsAbove name (p ∷ ps) = (bytes_lt p.0 name ≡ true) × IsAbove name ps

abbrev IsApart : Params → Params → Type 0
IsApart acc [] = Unit
IsApart acc (p ∷ ps) = IsAbove p.0 acc × IsApart acc ps

bytes_lt_asym :
    (a b : Bytes) → bytes_lt a b ≡ true → (bytes_eq b a ≡ false) × (bytes_lt b a ≡ false)
unfolding bytes_lt bytes_eq
bytes_lt_asym [] [] h = cc
bytes_lt_asym [] (y ∷ b) h = (refl, refl)
bytes_lt_asym (x ∷ a) [] h = cc
bytes_lt_asym (x ∷ a) (y ∷ b) h = ground (arith, h, bytes_lt_asym a b)

assign-IsAbove :
    (name value : Bytes) (acc : Params)
    → IsAbove name acc
    → assign name value acc ≡ acc ++ ((name, value) ∷ [])
unfolding assign
assign-IsAbove name value [] h = refl
assign-IsAbove name value (p ∷ acc) h =
    let (e, f) = bytes_lt_asym p.0 name h.0 in rw (e, f, assign-IsAbove name value acc h.1)

IsAbove-append :
    (name : Bytes) (acc : Params) (p : Bytes × Bytes)
    → IsAbove name acc
    → bytes_lt p.0 name ≡ true
    → IsAbove name (acc ++ (p ∷ []))
IsAbove-append name [] p h k = (k, tt)
IsAbove-append name (q ∷ acc) p h k = (h.0, IsAbove-append name acc p h.1 k)

IsApart-append :
    (acc ps : Params) (p : Bytes × Bytes)
    → IsApart acc ps
    → IsBelow p.0 ps
    → IsApart (acc ++ (p ∷ [])) ps
IsApart-append acc [] p h k = tt
IsApart-append acc (q ∷ ps) p h k =
    (IsAbove-append q.0 acc p h.0 k.0, IsApart-append acc ps p h.1 k.1)

assign_all-IsOrdered :
    (ps acc : Params) → IsOrdered ps → IsApart acc ps → assign_all ps acc ≡ acc ++ ps
unfolding assign_all
assign_all-IsOrdered [] acc o h = sym (append-nil acc)
assign_all-IsOrdered (p ∷ ps) acc o h =
    ap (assign_all ps) (assign-IsAbove p.0 p.1 acc h.0)
    ∙ assign_all-IsOrdered ps (acc ++ (p ∷ [])) o.1 (IsApart-append acc ps p h.1 o.0)
    ∙ append_assoc acc (p ∷ []) ps

IsApart-nil : (ps : Params) → IsApart [] ps
IsApart-nil [] = tt
IsApart-nil (p ∷ ps) = (tt, IsApart-nil ps)

without_last-append : (s : Bytes) (c : ℕ) → without_last (s ++ (c ∷ [])) ≡ s
unfolding without_last
without_last-append [] c = refl
without_last-append (x ∷ []) c = refl
without_last-append (x ∷ y ∷ s) c = ap (λ (t : Bytes). x ∷ t) (without_last-append (y ∷ s) c)

print_pairs-query :
    (p : Bytes × Bytes) (ps : Params) → print_pairs (p ∷ ps) ≡ query (p ∷ ps) ++ (b'&' ∷ [])
unfolding print_pairs query
print_pairs-query p [] = sym (append_assoc p.0 (b'=' ∷ p.1) (b'&' ∷ []))
print_pairs-query p (q ∷ ps) =
    ap (λ (t : Bytes). p.0 ++ (b'=' ∷ (p.1 ++ (b'&' ∷ t)))) (print_pairs-query q ps)
    ∙ ap (λ (t : Bytes). p.0 ++ (b'=' ∷ t))
        (sym (append_assoc p.1 (b'&' ∷ query (q ∷ ps)) (b'&' ∷ [])))
    ∙ sym (append_assoc p.0 (b'=' ∷ (p.1 ++ (b'&' ∷ query (q ∷ ps)))) (b'&' ∷ []))

print_params-query :
    (p : Bytes × Bytes) (ps : Params) (res : Bytes)
    → print_params (p ∷ ps) res ≡ res ++ (b'?' ∷ query (p ∷ ps))
unfolding print_params
print_params-query p ps res =
    ap (λ (t : Bytes). without_last (res ++ (b'?' ∷ t))) (print_pairs-query p ps)
    ∙ ap without_last (sym (append_assoc res (b'?' ∷ query (p ∷ ps)) (b'&' ∷ [])))
    ∙ without_last-append (res ++ (b'?' ∷ query (p ∷ ps))) b'&'

-- A URL without `?`, printed with the parameters of a map whose names hold no `=` and whose values
-- hold no `&`, and which stand in the order of the names, is parsed into the URL and the map.
pub parse_url-print_params :
    (url : Bytes) (ps : Params)
    → Without b'?' url
    → IsQuery ps
    → IsOrdered ps
    → parse_url (print_params ps url) ≡ some (url, ps)
unfolding parse_url print_params
parse_url-print_params url [] w h o =
    let found : find_char b'?' url 0 ≡ none = find_char-none b'?' [] url w in rw found
parse_url-print_params url (p ∷ ps) w h o =
    ap parse_url (print_params-query p ps url)
    ∙ parse_url-query url (p ∷ ps) w h
    ∙ ap (λ (qs : Params). some (url, qs))
        (assign_all-IsOrdered (p ∷ ps) [] o (IsApart-nil (p ∷ ps)))
