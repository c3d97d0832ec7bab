-- ===== src/Shell/CallParser/Ends.antt =====
-- The loop over the tokens ends: every round goes forward.
use technosphere.Common.Bytes.{Bytes}
use technosphere.Common.{
  ℕ, zero, suc, ◌+◌, ◌≤◌, ◌<◌, ◌≡◌, ap, sym, ◌∙◌, ◌≢◌, ◌==◌, Option, none, some, arith, length,
  get_or, Bool-cases, Option-cases, inl, inr,
}
use technosphere.Shell.CallParser.{
  Reader, store, redirect, ends_command, read_token, call_loop, parse_call, parse_behind,
  read_command, ends_token,
}
use technosphere.Shell.Text.{Outcome, find_first_of, find_first_of-le, is_quote, trimmed}

read_token-le :
    (s : Bytes) (last i : ℕ) (token : Bytes) (j : ℕ)
    → i < length s
    → read_token s last i ≡ some (token, j)
    → (i ≤ j) × (j < length s)
unfolding read_token
read_token-le s last i token j h e = elim (Bool-cases (is_quote (get_or s i 0))) [
  | inl q ↦ elim (Option-cases (find_first_of (λ (d : ℕ). d == get_or s i 0) s (suc i))) [
    | inl f ↦ ground (arith, q, f, e)
    | inr (k, f) ↦
        let (le, below) = find_first_of-le (λ (d : ℕ). d == get_or s i 0) s (suc i) k f in
        ground (arith, q, f, e, le, below)
  ]
  | inr q ↦ ground (arith, q, e, h)
]

pub call_loop-some :
    (fuel : ℕ) (s : Bytes) (last i j : ℕ) (token : Bytes) (r : Reader)
    → read_token s last i ≡ some (token, j)
    → call_loop (suc fuel) s last (some i) r
      ≡ call_loop fuel s
          (suc j)
          (find_first_of ends_token s (suc j))
          (redirect (get_or s j 0) (store token r))
unfolding call_loop
call_loop-some fuel s last i j token r e = ground (arith, e)

call_loop-undefined :
    (fuel : ℕ) (s : Bytes) (last i : ℕ) (r : Reader)
    → read_token s last i ≡ none
    → call_loop (suc fuel) s last (some i) r ≡ Outcome.undefined
unfolding call_loop
call_loop-undefined fuel s last i r e = ground (arith, e)

call_loop_ends :
    (fuel : ℕ) (s : Bytes) (last k : ℕ) (r : Reader)
    → k ≤ length s
    → length s < k + fuel
    → call_loop fuel s last (find_first_of ends_token s k) r ≢ Outcome.no_fuel
unfolding call_loop
call_loop_ends zero s last k r h l e = absurd (omega arith)
call_loop_ends (suc fuel) s last k r h l e = elim (Option-cases (find_first_of ends_token s k)) [
  | inl f ↦ ground (arith, rw f at e)
  | inr (i, f) ↦
      let (le, below) = find_first_of-le ends_token s k i f in
      elim (Option-cases (read_token s last i)) [
        | inl g ↦ ground (arith, sym (run f ∙ call_loop-undefined fuel s last i r g) ∙ e)
        | inr ((token, j), g) ↦
            let (le', below') = read_token-le s last i token j below g in
            call_loop_ends fuel s (suc j) (suc j) (redirect (get_or s j 0) (store token r))
              (omega arith) (omega arith)
              (sym (run f ∙ call_loop-some fuel s last i j token r g) ∙ e)
      ]
]
  where
    run :
        {o : Option ℕ}
        → find_first_of ends_token s k ≡ o
        → call_loop (suc fuel) s last (find_first_of ends_token s k) r
          ≡ call_loop (suc fuel) s last o r
    run f = ap (λ (o : Option ℕ). call_loop (suc fuel) s last o r) f

read_command-le : (s : Bytes) → (read_command s).1 ≤ length s
unfolding read_command
read_command-le s = elim (Bool-cases (is_quote (get_or s 0 0))) [
  | inl q ↦ elim (Option-cases (find_first_of (λ (d : ℕ). d == get_or s 0 0) s 1)) [
    | inl f ↦ ground (arith, q, f)
    | inr (k, f) ↦
        let below = (find_first_of-le (λ (d : ℕ). d == get_or s 0 0) s 1 k f).1 in
        ground (arith, q, f, below)
  ]
  | inr q ↦ elim (Option-cases (find_first_of ends_command s 0)) [
    | inl f ↦ ground (arith, q, f)
    | inr (k, f) ↦
        let below = (find_first_of-le ends_command s 0 k f).1 in ground (arith, q, f, below)
  ]
]

-- The constructor of `Call` ends on every text.
pub parse_call_ends : (text : Bytes) (infd outfd : ℕ) → parse_call text infd outfd ≢ Outcome.no_fuel
unfolding parse_call parse_behind
parse_call_ends text infd outfd =
    let s = trimmed text in
    call_loop_ends (suc (length s)) s (read_command s).1 (read_command s).1 _ (read_command-le s)
      (omega arith)
