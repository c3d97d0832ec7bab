-- ===== src/Shell/InstructionParser/Lines.antt =====
-- A chain of calls written as a line, parsed into its steps.
use mathlib.Core.List.{append_assoc, append-nil}
use technosphere.Common.Bytes.{Bytes, drop-append}
use technosphere.Common.{
  ℕ, suc, ◌+◌, ◌-◌, ◌≤◌, ◌≡◌, refl, sym, ap, ◌∙◌, false, List, [], ◌∷◌, ◌++◌, arith, ltb, length,
  length-append,
}
use technosphere.Shell.Call.{Call}
use technosphere.Shell.CallParser.Trim.{written, trimmed-EndsOnce, written-EndsOnce}
use technosphere.Shell.CallParser.{parse_call}
use technosphere.Shell.Execute.Chain.{Chain, only, and_then, or_else, sequel, steps}
use technosphere.Shell.Execute.{Action, Step}
use technosphere.Shell.InstructionParser.Rounds.{IsJoint, sign, clean, scan_at, scan-joined}
use technosphere.Shell.InstructionParser.{
  is_special, next_last_action, scan, finish, parse_instruction,
}
use technosphere.Shell.Text.{Outcome, proceed, find_first_of-none, Avoids, first_text}
use technosphere.Shell.InstructionParser.Pieces.{
  IsPiece, chain_text, ChainPieces, n_calls, parse_call-piece, parse_call-space,
  first_text-chain_text, chain_text-EndsOnce,
}

-- The text X and the action a behind it are scanned in r rounds.
abbrev pub Scans : Bytes → (ℕ → ℕ) → Action → List Step → Type 0
Scans text r a calls =
    (t : Bytes) (fuel : ℕ)
    → scan (r fuel) (text ++ (sign a ++ (32 ∷ t)))
        (scan_at (text ++ (sign a ++ (32 ∷ t))) 0 Action.first [])
      ≡ scan fuel (text ++ (sign a ++ (32 ∷ t))) (
          scan_at (text ++ (sign a ++ (32 ∷ t))) (length text + length (sign a))
            (next_last_action a) calls)

Scans-only :
    (c : Call) (a : Action)
    → IsPiece c
    → IsJoint a
    → Scans (written c) suc a (record { call = c; last_action = Action.first; action = a } ∷ [])
Scans-only c a h k t fuel =
    let (b, e, l, n) = written-EndsOnce c (h.words) in
    let p : 0 + length (written c) + length (sign a) ≡ length (written c) + length (sign a) =
      omega arith in
    let s = written c ++ (sign a ++ (32 ∷ t)) in
    scan-joined fuel [] (written c) a t Action.first [] c k (h.plain)
      (omega (arith, ap length e, length-append b (32 ∷ []))) (parse_call-piece c h)
    ∙ ap
        (λ (q : ℕ). scan fuel s (
          scan_at s q (next_last_action a)
            (record { call = c; last_action = Action.first; action = a } ∷ [])))
        p

Scans-more :
    (text : Bytes) (r : ℕ → ℕ) (j : Action) (calls : List Step) (c : Call) (a : Action)
    → IsPiece c
    → IsJoint a
    → Scans text r j calls
    → Scans
        (text ++ (sign j ++ (32 ∷ written c)))
        (λ (n : ℕ). r (suc n))
        a
        (calls ++ (record { call = c; last_action = next_last_action j; action = a } ∷ []))
Scans-more text r j calls c a h k before t fuel =
    let front = text ++ sign j in
    let w = 32 ∷ written c in
    let tail = sign a ++ (32 ∷ t) in
    let b = next_last_action j in
    let calls' = calls ++ (record { call = c; last_action = b; action = a } ∷ []) in
    let flat : (text ++ (sign j ++ w)) ++ tail ≡ text ++ (sign j ++ (w ++ tail)) =
      append_assoc text (sign j ++ w) tail
      ∙ ap (λ (u : Bytes). text ++ u) (append_assoc (sign j) w tail) in
    let split : text ++ (sign j ++ (w ++ tail)) ≡ front ++ (w ++ tail) =
      sym (append_assoc text (sign j) (w ++ tail)) in
    let p : length text + length (sign j) ≡ length front = sym (length-append text (sign j)) in
    let q : length front + length w + length (sign a)
        ≡ length (text ++ (sign j ++ w)) + length (sign a) =
      omega (
        arith,
        length-append text (sign j),
        length-append text (sign j ++ w),
        length-append (sign j) w,
      ) in
    ap (λ (s : Bytes). scan (r (suc fuel)) s (scan_at s 0 Action.first [])) flat
    ∙ before (written c ++ tail) (suc fuel)
    ∙ ap (λ (s : Bytes). scan (suc fuel) s (scan_at s (length text + length (sign j)) b calls))
        split
    ∙ ap
        (λ (n : ℕ).
          scan (suc fuel) (front ++ (w ++ tail)) (scan_at (front ++ (w ++ tail)) n b calls))
        p
    ∙ scan-joined fuel front w a t b calls c k (refl, h.plain) (omega arith) (parse_call-space c h)
    ∙ ap
        (λ (n : ℕ).
          scan fuel (front ++ (w ++ tail))
            (scan_at (front ++ (w ++ tail)) n (next_last_action a) calls'))
        q
    ∙ ap
        (λ (s : Bytes). scan fuel s (
          scan_at s (length (text ++ (sign j ++ w)) + length (sign a)) (next_last_action a) calls'))
        (sym (flat ∙ split))

-- The last call.
scan-last :
    (fuel : ℕ) (pre w : Bytes) (b : Action) (calls : List Step) (c : Call)
    → Avoids is_special w
    → parse_call w 0 1 ≡ Outcome.done c
    → scan (suc fuel) (pre ++ w) (scan_at (pre ++ w) (length pre) b calls)
      ≡ Outcome.done
          (clean (calls ++ (record { call = c; last_action = b; action = Action.last } ∷ [])))
unfolding scan finish proceed
scan-last fuel pre w b calls c h e =
    let inside : ltb (length (pre ++ w)) (length pre) ≡ false =
      ground (arith, length-append pre w) in
    rw (find_first_of-none is_special pre w h, inside, drop-append pre w, e) refl

Scans-last :
    (text : Bytes) (r : ℕ → ℕ) (j : Action) (calls : List Step) (c : Call) (fuel : ℕ)
    → IsPiece c
    → Scans text r j calls
    → scan
        (r (suc fuel))
        (text ++ (sign j ++ (32 ∷ written c)))
        (scan_at (text ++ (sign j ++ (32 ∷ written c))) 0 Action.first [])
      ≡ Outcome.done (
          clean (
            calls
            ++ (record { call = c; last_action = next_last_action j; action = Action.last } ∷ [])))
Scans-last text r j calls c fuel h before =
    let front = text ++ sign j in
    let w = 32 ∷ written c in
    let b = next_last_action j in
    before (written c) (suc fuel)
    ∙ ap (λ (s : Bytes). scan (suc fuel) s (scan_at s (length text + length (sign j)) b calls))
        (sym (append_assoc text (sign j) w))
    ∙ ap (λ (n : ℕ). scan (suc fuel) (front ++ w) (scan_at (front ++ w) n b calls))
        (sym (length-append text (sign j)))
    ∙ scan-last fuel front w b calls c (refl, h.plain) (parse_call-space c h)

-- The rounds of a chain.
abbrev rounds : Chain → ℕ → ℕ
rounds (only c) n = suc n
rounds (and_then x c) n = rounds x (suc n)
rounds (or_else x c) n = rounds x (suc n)
rounds (sequel x c) n = rounds x (suc n)

rounds-le : (x : Chain) (n : ℕ) → rounds x n ≡ n_calls x + n
rounds-le (only c) n = omega arith
rounds-le (and_then x c) n = omega (arith, rounds-le x (suc n))
rounds-le (or_else x c) n = omega (arith, rounds-le x (suc n))
rounds-le (sequel x c) n = omega (arith, rounds-le x (suc n))

Scans-chain :
    (x : Chain) (a : Action)
    → ChainPieces x
    → IsJoint a
    → Scans (chain_text x) (rounds x) a (steps x a)
unfolding chain_text steps next_last_action
Scans-chain (only c) a h k = Scans-only c a h k
Scans-chain (and_then x c) a h k =
    Scans-more (chain_text x) (rounds x) Action.and (steps x Action.and) c a h.1 k
      (Scans-chain x Action.and h.0 tt)
Scans-chain (or_else x c) a h k =
    Scans-more (chain_text x) (rounds x) Action.or (steps x Action.or) c a h.1 k
      (Scans-chain x Action.or h.0 tt)
Scans-chain (sequel x c) a h k =
    Scans-more (chain_text x) (rounds x) Action.last (steps x Action.last) c a h.1 k
      (Scans-chain x Action.last h.0 tt)

scan-chain :
    (x : Chain) (fuel : ℕ)
    → ChainPieces x
    → scan (rounds x fuel) (chain_text x) (scan_at (chain_text x) 0 Action.first [])
      ≡ Outcome.done (clean (steps x Action.last))
unfolding chain_text steps next_last_action
scan-chain (only c) fuel h =
    scan-last fuel [] (written c) Action.first [] c (h.plain) (parse_call-piece c h)
scan-chain (and_then x c) fuel h =
    Scans-last (chain_text x) (rounds x) Action.and (steps x Action.and) c fuel h.1
      (Scans-chain x Action.and h.0 tt)
scan-chain (or_else x c) fuel h =
    Scans-last (chain_text x) (rounds x) Action.or (steps x Action.or) c fuel h.1
      (Scans-chain x Action.or h.0 tt)
scan-chain (sequel x c) fuel h =
    Scans-last (chain_text x) (rounds x) Action.last (steps x Action.last) c fuel h.1
      (Scans-chain x Action.last h.0 tt)

-- A chain without pipes, written as a line with a space behind each call, is parsed into its steps. The
-- words of its calls are plain and hold no `&`, `|` and `;`, and its descriptors are 0 and 1.
pub parse_instruction-chain_text :
    (x : Chain) (fuel : ℕ)
    → ChainPieces x
    → n_calls x ≤ fuel
    → parse_instruction fuel (chain_text x) ≡ Outcome.done (clean (steps x Action.last))
unfolding parse_instruction
parse_instruction-chain_text x fuel h k =
    let n : fuel ≡ rounds x (fuel - n_calls x) = omega (arith, rounds-le x (fuel - n_calls x)) in
    ap (λ (s : Bytes). scan fuel s (scan_at s 0 Action.first []))
      (trimmed-EndsOnce (chain_text x)
        (ap first_text (sym (append-nil (chain_text x))) ∙ first_text-chain_text x [] h)
        (chain_text-EndsOnce x h))
    ∙ ap (λ (m : ℕ). scan m (chain_text x) (scan_at (chain_text x) 0 Action.first [])) n
    ∙ scan-chain x (fuel - n_calls x) h
