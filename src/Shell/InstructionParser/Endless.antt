-- ===== src/Shell/InstructionParser/Endless.antt =====
-- A quote that is not closed.
use mathlib.Core.List.{append_assoc}
use technosphere.Common.Bytes.{Bytes}
use technosphere.Common.{
  ℕ, zero, suc, ◌+◌, ◌≡◌, refl, sym, ap, ◌∙◌, true, false, none, some, [], ◌∷◌, ◌++◌, arith, ltb,
  ◌==◌, length, length-append,
}
use technosphere.Shell.Execute.{Action}
use technosphere.Shell.InstructionParser.{
  Scan, Seen, is_special, see, find_behind, skip_quoted, scan_round, scan, parse_instruction,
}
use technosphere.Shell.Text.{
  Outcome, proceed, find_first_of, find_first_of-found, find_first_of-none, Avoids, is_quote,
  get_or-append, trimmed,
}

module _ (a t : Bytes) (c : ℕ) (plain : Avoids is_special a) (q : is_quote c ≡ true)
    (open_quote : Avoids (λ (d : ℕ). d == c) t) where
  abbrev line : Bytes
  line = a ++ (c ∷ t)

  first_quote : find_first_of is_special line 0 ≡ some (length a)
  first_quote =
      let special : is_special c ≡ true = ground (arith, q) in
      let n : 0 + length a ≡ length a = omega arith in
      find_first_of-found is_special [] a c t plain special ∙ ap (λ (k : ℕ). some k) n

  see-quote : see line (length a) ≡ Seen.again
  unfolding see
  see-quote = rw (get_or-append a t c) (ground (arith, q))

  -- The search for the closing quote gives npos, and the next one starts at 0 again.
  skip_quoted-open : skip_quoted line (length a) ≡ some (length a)
  unfolding skip_quoted
  skip_quoted-open =
      let n : length (a ++ (c ∷ [])) ≡ suc (length a) = omega (arith, length-append a (c ∷ [])) in
      let unclosed : find_first_of (λ (d : ℕ). d == c) line (suc (length a)) ≡ none =
        ap (λ (k : ℕ). find_first_of (λ (d : ℕ). d == c) line k) (sym n)
        ∙ ap (λ (s : Bytes). find_first_of (λ (d : ℕ). d == c) s (length (a ++ (c ∷ []))))
            (sym (append_assoc a (c ∷ []) t))
        ∙ find_first_of-none (λ (d : ℕ). d == c) (a ++ (c ∷ [])) t open_quote in
      ap (λ (e : ℕ). find_behind line (find_first_of (λ (d : ℕ). d == e) line (suc (length a))))
        (get_or-append a t c)
      ∙ ap (find_behind line) unclosed
      ∙ first_quote

  scan_round-again :
      (x : Scan)
      → scan_round line 0 (length a) x ≡ Outcome.done (record x { i = skip_quoted line (length a) })
  unfolding scan_round
  scan_round-again x = ground (arith, see-quote)

  scan_never :
      (fuel : ℕ) (x : Scan)
      → x.last ≡ some 0
      → x.i ≡ some (length a)
      → x.instruction.parse_error ≡ false
      → scan fuel line x ≡ Outcome.no_fuel
  unfolding scan proceed
  scan_never zero x h k e = refl
  scan_never (suc fuel) x h k e =
      let inside : ltb 0 (length line) ≡ true = ground (arith, length-append a (c ∷ t)) in
      rw (e, k, h, inside, scan_round-again x)
        (scan_never fuel (record x { i = skip_quoted line (length a) }) h skip_quoted-open e)

  -- The constructor never ends on a line whose first special character is a quote that is not closed: no
  -- fuel is enough.
  pub parse_instruction_never :
      (fuel : ℕ) (text : Bytes)
      → trimmed text ≡ line
      → parse_instruction fuel text ≡ Outcome.no_fuel
  unfolding parse_instruction
  parse_instruction_never fuel text e =
      ap
        (λ (s : Bytes). scan fuel s (record {
          last = some 0;
          i = find_first_of is_special s 0;
          last_action = Action.first;
          instruction = record { calls = []; background = false; parse_error = false };
        }))
        e
      ∙ scan_never fuel _ refl first_quote refl
