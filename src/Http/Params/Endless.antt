-- ===== src/Http/Params/Endless.antt =====
-- Where the loop of `parse_params` does not end.
use mathlib.Core.List.{append_assoc}
use technosphere.Common.Bytes.{move_front, length-move_front, Bytes}
use technosphere.Common.{
  ℕ, zero, suc, ◌+◌, ◌<◌, ◌≡◌, refl, sym, ap, ◌∙◌, false, ◌==◌, [], ◌∷◌, ◌++◌, length-append, true,
  none, some, arith, ltb, length,
}
use technosphere.Http.Params.{Params, assign, after_amp, params_loop}
use technosphere.Http.Params.Query.{params_loop-next}
use technosphere.Http.Strings.{
  find_char, substr_to, behind, Without, find_char-found, find_char-none,
}

-- If the text holds an `&` at p, and no `=` behind it, though something else, the loop does not end
-- once it stands behind p: it goes back to p + 1 each time.
params_loop_endless :
    (fuel : ℕ) (s : Bytes) (p : ℕ) (params : Params)
    → find_char b'&' s 0 ≡ some p
    → find_char b'=' s (p + 1) ≡ none
    → p + 1 < length s
    → params_loop fuel s (p + 1) params ≡ none
unfolding params_loop behind after_amp
params_loop_endless zero s p params h e f = refl
params_loop_endless (suc fuel) s p params h e f =
    let inside : ltb (p + 1) (length s) ≡ true = ground arith in
    let again =
      params_loop_endless fuel s p
        (assign (substr_to s (p + 1) none) (substr_to s 0 (some p)) params) h e f in
    rw (inside, e, h) again

Without-append :
    (c x : ℕ) (a b : Bytes)
    → Without c a
    → (x == c) ≡ false
    → Without c b
    → Without c (a ++ (x ∷ b))
Without-append c x [] b h e k = (e, k)
Without-append c x (y ∷ a) b h e k = (h.0, Without-append c x a b h.1 e k)

-- The loop of `parse_params` never ends on `name=value&rest`, if the rest is not empty and holds
-- no `=`, the name neither `=` nor `&`, and the value no `&`: no fuel is enough.
pub params_loop_never :
    (fuel : ℕ) (name value rest : Bytes)
    → Without b'=' name
    → Without b'&' name
    → Without b'&' value
    → Without b'=' rest
    → 0 < length rest
    → params_loop fuel (name ++ (b'=' ∷ (value ++ (b'&' ∷ rest)))) 0 [] ≡ none
unfolding params_loop
params_loop_never zero name value rest h k l r f = refl
params_loop_never (suc fuel) name value rest h k l r f =
    let tail = value ++ (b'&' ∷ rest) in
    let s = name ++ (b'=' ∷ tail) in
    let front = name ++ (b'=' ∷ value) in
    let pre' = name ++ (b'=' ∷ []) in
    let pre'' = pre' ++ (value ++ (b'&' ∷ [])) in
    let p = length front in
    let ps = assign name value [] in
    let moved = move_front [] name tail b'=' ∙ move_front pre' value rest b'&' in
    let place : length pre'' ≡ p + 1 = omega (
      arith,
      length-move_front pre' value b'&',
      length-append name (b'=' ∷ []),
      length-append name (b'=' ∷ value),
    ) in
    let cut = append_assoc name (b'=' ∷ value) (b'&' ∷ rest) in
    let amp : find_char b'&' s 0 ≡ some p =
      ap (λ (t : Bytes). find_char b'&' t 0) (sym cut)
      ∙ find_char-found b'&' [] front rest (Without-append b'&' b'=' name value k refl l)
      ∙ ap some (omega arith) in
    let no_eq : find_char b'=' s (p + 1) ≡ none =
      ap (find_char b'=' s) (sym place)
      ∙ ap (λ (t : Bytes). find_char b'=' t (length pre'')) moved
      ∙ find_char-none b'=' pre'' rest r in
    let more : p + 1 < length s = omega (
      arith,
      length-append name (b'=' ∷ tail),
      length-append value (b'&' ∷ rest),
      length-append name (b'=' ∷ value),
    ) in
    params_loop-next fuel [] name value rest [] h l
    ∙ ap (λ (t : Bytes). params_loop fuel t (length pre'') ps) (sym moved)
    ∙ ap (λ (i : ℕ). params_loop fuel s i ps) place
    ∙ params_loop_endless fuel s p ps amp no_eq more
