-- ===== src/Shell/CallParser/Words.antt =====
-- How the loop of `Call::Call` reads words: plain ones up to a delimiter, and quoted ones.
use mathlib.Core.List.{append_assoc}
use technosphere.Common.Bytes.{Bytes, drop-append, take-append, move_front, length-move_front}
use technosphere.Common.{
  ℕ, suc, ◌+◌, ◌-◌, ◌≡◌, sym, ap, ◌∙◌, true, false, Option, some, [], ◌∷◌, ◌++◌, ◌==◌, arith, take,
  drop, length, length-append,
}
use technosphere.Shell.Call.{Call}
use technosphere.Shell.CallParser.{Reader, store, redirect, read_token, call_loop, ends_token}
use technosphere.Shell.CallParser.Ends.{call_loop-some}
use technosphere.Shell.Text.{
  Outcome, find_first_of, find_first_of-found, get_or-append, get_or-between, Avoids, is_quote,
}

-- The loop where `last` stands behind `pre`.
abbrev pub at : ℕ → Bytes → Bytes → Reader → Outcome Call
at fuel pre rest r =
    call_loop fuel (pre ++ rest) (length pre) (find_first_of ends_token (pre ++ rest) (length pre))
      r

-- What stands behind `pre` is moved into it.
at_move :
    (fuel : ℕ) (pre a t : Bytes) (c : ℕ) (r : Reader)
    → call_loop fuel
        (pre ++ (a ++ (c ∷ t)))
        (suc (length pre + length a))
        (find_first_of ends_token (pre ++ (a ++ (c ∷ t))) (suc (length pre + length a)))
        r
      ≡ at fuel (pre ++ (a ++ (c ∷ []))) t r
at_move fuel pre a t c r =
    ap
      (λ (s : Bytes).
        call_loop fuel s (suc (length pre + length a))
          (find_first_of ends_token s (suc (length pre + length a))) r)
      (move_front pre a t c)
    ∙ ap
        (λ (n : ℕ).
          call_loop fuel ((pre ++ (a ++ (c ∷ []))) ++ t) n
            (find_first_of ends_token ((pre ++ (a ++ (c ∷ []))) ++ t) n) r)
        (sym (length-move_front pre a c))

-- A round that reads up to the byte c.
at-round :
    (fuel : ℕ) (pre a t : Bytes) (c i : ℕ) (token : Bytes) (r : Reader)
    → find_first_of ends_token (pre ++ (a ++ (c ∷ t))) (length pre) ≡ some i
    → read_token (pre ++ (a ++ (c ∷ t))) (length pre) i ≡ some (token, length pre + length a)
    → at (suc fuel) pre (a ++ (c ∷ t)) r
      ≡ at fuel (pre ++ (a ++ (c ∷ []))) t (redirect c (store token r))
at-round fuel pre a t c i token r f g =
    let s = pre ++ (a ++ (c ∷ t)) in
    let j = length pre + length a in
    ap (λ (o : Option ℕ). call_loop (suc fuel) s (length pre) o r) f
    ∙ call_loop-some fuel s (length pre) i j token r g
    ∙ ap
        (λ (d : ℕ).
          call_loop fuel s (suc j) (find_first_of ends_token s (suc j))
            (redirect d (store token r)))
        (get_or-between pre a t c)
    ∙ at_move fuel pre a t c (redirect c (store token r))

-- A plain word and the delimiter behind it.
read_token-plain :
    (pre a t : Bytes) (c : ℕ)
    → is_quote c ≡ false
    → read_token (pre ++ (a ++ (c ∷ t))) (length pre) (length pre + length a)
      ≡ some (a, length pre + length a)
unfolding read_token
read_token-plain pre a t c q =
    rw (get_or-between pre a t c, q) (ap (λ (u : Bytes). some (u, length pre + length a)) token)
  where
    token :
        take (length pre + length a - length pre) (drop (length pre) (pre ++ (a ++ (c ∷ t)))) ≡ a
    token =
        let e : length pre + length a - length pre ≡ length a = omega arith in
        ap (λ (u : Bytes). take (length pre + length a - length pre) u)
          (drop-append pre (a ++ (c ∷ t)))
        ∙ ap (λ (n : ℕ). take n (a ++ (c ∷ t))) e
        ∙ take-append a (c ∷ t)

pub at-word :
    (fuel : ℕ) (pre a t : Bytes) (c : ℕ) (r : Reader)
    → Avoids ends_token a
    → ends_token c ≡ true
    → is_quote c ≡ false
    → at (suc fuel) pre (a ++ (c ∷ t)) r
      ≡ at fuel (pre ++ (a ++ (c ∷ []))) t (redirect c (store a r))
at-word fuel pre a t c r h k q =
    at-round fuel pre a t c (length pre + length a) a r
      (find_first_of-found ends_token pre a c t h k) (read_token-plain pre a t c q)

quote_ends : (c : ℕ) → is_quote c ≡ true → ends_token c ≡ true
quote_ends c h = ground (arith, h)

abbrev pub quoted : ℕ → Bytes → Bytes
quoted c a = c ∷ (a ++ (c ∷ []))

read_token-quoted :
    (pre a t : Bytes) (c : ℕ)
    → is_quote c ≡ true
    → Avoids (λ (d : ℕ). d == c) a
    → read_token (pre ++ (c ∷ (a ++ (c ∷ t)))) (length pre) (length pre)
      ≡ some (quoted c a, suc (length pre + length a))
unfolding read_token
read_token-quoted pre a t c q h =
    let s = pre ++ (c ∷ (a ++ (c ∷ t))) in
    rw (get_or-append pre (a ++ (c ∷ t)) c, q, close)
      (ap (λ (u : Bytes). some (u, suc (length pre + length a))) token)
  where
    close :
        find_first_of (λ (d : ℕ). d == c) (pre ++ (c ∷ (a ++ (c ∷ t)))) (suc (length pre))
        ≡ some (suc (length pre + length a))
    close =
        let e : length (pre ++ (c ∷ [])) ≡ suc (length pre) =
          omega (arith, length-append pre (c ∷ [])) in
        ap (λ (n : ℕ). find_first_of (λ (d : ℕ). d == c) (pre ++ (c ∷ (a ++ (c ∷ t)))) n) (sym e)
        ∙ ap (λ (u : Bytes). find_first_of (λ (d : ℕ). d == c) u (length (pre ++ (c ∷ []))))
            (sym (append_assoc pre (c ∷ []) (a ++ (c ∷ t))))
        ∙ find_first_of-found (λ (d : ℕ). d == c) (pre ++ (c ∷ [])) a c t h (ground arith)
        ∙ ap (λ (n : ℕ). some n)
            (let g : length (pre ++ (c ∷ [])) + length a ≡ suc (length pre + length a) =
                omega (arith, e) in
              g)

    token :
        take
          (suc (suc (length pre + length a)) - length pre)
          (drop (length pre) (pre ++ (c ∷ (a ++ (c ∷ t)))))
        ≡ quoted c a
    token =
        let e : suc (suc (length pre + length a)) - length pre ≡ length (quoted c a) =
          omega (arith, length-append a (c ∷ [])) in
        ap (λ (u : Bytes). take (suc (suc (length pre + length a)) - length pre) u)
          (drop-append pre (c ∷ (a ++ (c ∷ t))))
        ∙ ap (λ (n : ℕ). take n (c ∷ (a ++ (c ∷ t)))) e
        ∙ ap (λ (u : Bytes). take (length (quoted c a)) (c ∷ u)) (sym (append_assoc a (c ∷ []) t))
        ∙ take-append (quoted c a) t

-- A quoted word.
pub at-quoted :
    (fuel : ℕ) (pre a t : Bytes) (c : ℕ) (r : Reader)
    → Avoids (λ (d : ℕ). d == c) a
    → is_quote c ≡ true
    → at (suc fuel) pre (c ∷ (a ++ (c ∷ t))) r
      ≡ at fuel (pre ++ quoted c a) t (redirect c (store (quoted c a) r))
at-quoted fuel pre a t c r h q =
    let e : length pre + suc (length a) ≡ suc (length pre + length a) = omega arith in
    let start : length pre + 0 ≡ length pre = omega arith in
    at-round fuel pre (c ∷ a) t c (length pre) (quoted c a) r
      (find_first_of-found ends_token pre [] c (a ++ (c ∷ t)) tt (quote_ends c q)
        ∙ ap (λ (n : ℕ). some n) start)
      (read_token-quoted pre a t c q h ∙ ap (λ (n : ℕ). some (quoted c a, n)) (sym e))
