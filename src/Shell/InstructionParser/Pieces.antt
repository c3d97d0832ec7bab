-- ===== src/Shell/InstructionParser/Pieces.antt =====
-- A chain of calls as a line, and its calls as pieces of it.
use mathlib.Core.List.{append_assoc}
use technosphere.Common.Bytes.{Bytes, take-append}
use technosphere.Common.{
  ℕ, suc, ◌-◌, ◌≡◌, sym, ap, ◌∙◌, false, [], ◌∷◌, ◌++◌, arith, ◌==◌, take, length,
}
use technosphere.Shell.Call.{Call}
use technosphere.Shell.CallParser.Trim.{
  written, IsWritten, EndsOnce, EndsOnce-append, first_text-word, trimmed-EndsOnce,
  written-EndsOnce,
}
use technosphere.Shell.CallParser.Written.{parse_call-written}
use technosphere.Shell.CallParser.{parse_call, parse_behind, read_command}
use technosphere.Shell.Execute.Chain.{Chain, only, and_then, or_else, sequel}
use technosphere.Shell.Execute.{Action}
use technosphere.Shell.InstructionParser.Rounds.{sign}
use technosphere.Shell.InstructionParser.{is_special}
use technosphere.Shell.Text.{Outcome, Avoids, first_text, end_text, trimmed}

-- A call that a line can hold: its words hold no `&`, `|` and `;`, and no quotes.
pub record IsPiece (c : Call) : Type 0 where
  pub words : IsWritten c
  pub input : c.infd ≡ 0
  pub output : c.outfd ≡ 1
  pub plain : Avoids is_special (written c)

-- `call && call || call ; call `
unfoldable pub chain_text : Chain → Bytes
chain_text (only c) = written c
chain_text (and_then x c) = chain_text x ++ (sign Action.and ++ (32 ∷ written c))
chain_text (or_else x c) = chain_text x ++ (sign Action.or ++ (32 ∷ written c))
chain_text (sequel x c) = chain_text x ++ (sign Action.last ++ (32 ∷ written c))

abbrev pub ChainPieces : Chain → Type 0
ChainPieces (only c) = IsPiece c
ChainPieces (and_then x c) = ChainPieces x × IsPiece c
ChainPieces (or_else x c) = ChainPieces x × IsPiece c
ChainPieces (sequel x c) = ChainPieces x × IsPiece c

abbrev pub n_calls : Chain → ℕ
n_calls (only c) = 1
n_calls (and_then x c) = suc (n_calls x)
n_calls (or_else x c) = suc (n_calls x)
n_calls (sequel x c) = suc (n_calls x)

pub first_text-written : (c : Call) (t : Bytes) → IsWritten c → first_text (written c ++ t) ≡ 0
first_text-written c t h =
    ap first_text (append_assoc (c.command) _ t) ∙ first_text-word (c.command) _ (h.command)

-- A call behind a space.
trimmed-space : (s : Bytes) → first_text s ≡ 0 → EndsOnce s → trimmed (32 ∷ s) ≡ s
unfolding trimmed first_text end_text
trimmed-space s f (a, e, l, h) =
    let n : suc (end_text s) - suc (first_text s) ≡ length a = omega (arith, f, l) in
    let some_text : end_text s == 0 ≡ false = ground (arith, l) in
    rw (some_text, n, f)
      (ap (λ (u : Bytes). take (length a) u ++ (32 ∷ [])) e
        ∙ ap (λ (u : Bytes). u ++ (32 ∷ [])) (take-append a (32 ∷ []))
        ∙ sym e)

piece_first : (c : Call) → IsPiece c → first_text (written c) ≡ 0
piece_first c h = first_text-word (c.command) _ (h.words.command)

pub parse_call-piece : (c : Call) → IsPiece c → parse_call (written c) 0 1 ≡ Outcome.done c
parse_call-piece c h =
    ap (λ (n : ℕ). parse_call (written c) n 1) (sym (h.input))
    ∙ ap (λ (n : ℕ). parse_call (written c) (c.infd) n) (sym (h.output))
    ∙ parse_call-written c (h.words)

pub parse_call-space : (c : Call) → IsPiece c → parse_call (32 ∷ written c) 0 1 ≡ Outcome.done c
unfolding parse_call
parse_call-space c h =
    let once = written-EndsOnce c (h.words) in
    ap (λ (s : Bytes). parse_behind s (read_command s) 0 1)
      (trimmed-space (written c) (piece_first c h) once
        ∙ sym (trimmed-EndsOnce (written c) (piece_first c h) once))
    ∙ parse_call-piece c h

pub first_text-chain_text :
    (x : Chain) (t : Bytes) → ChainPieces x → first_text (chain_text x ++ t) ≡ 0
unfolding chain_text
first_text-chain_text (only c) t h = first_text-written c t (h.words)
first_text-chain_text (and_then x c) t h =
    ap first_text (append_assoc (chain_text x) _ t) ∙ first_text-chain_text x _ h.0
first_text-chain_text (or_else x c) t h =
    ap first_text (append_assoc (chain_text x) _ t) ∙ first_text-chain_text x _ h.0
first_text-chain_text (sequel x c) t h =
    ap first_text (append_assoc (chain_text x) _ t) ∙ first_text-chain_text x _ h.0

piece-EndsOnce :
    (text : Bytes) (a : Action) (c : Call)
    → IsPiece c
    → EndsOnce (text ++ (sign a ++ (32 ∷ written c)))
piece-EndsOnce text a c h = EndsOnce-append text _ (
    EndsOnce-append (sign a) _
      (EndsOnce-append (32 ∷ []) (written c) (written-EndsOnce c (h.words))))

pub chain_text-EndsOnce : (x : Chain) → ChainPieces x → EndsOnce (chain_text x)
unfolding chain_text
chain_text-EndsOnce (only c) h = written-EndsOnce c (h.words)
chain_text-EndsOnce (and_then x c) h = piece-EndsOnce (chain_text x) Action.and c h.1
chain_text-EndsOnce (or_else x c) h = piece-EndsOnce (chain_text x) Action.or c h.1
chain_text-EndsOnce (sequel x c) h = piece-EndsOnce (chain_text x) Action.last c h.1
