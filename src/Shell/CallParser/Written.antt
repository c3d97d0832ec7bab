-- ===== src/Shell/CallParser/Written.antt =====
-- The line of a call, parsed.
use mathlib.Core.List.{append_assoc, append-nil}
use mathlib.Core.Path.{subst}
use technosphere.Common.Bytes.{Bytes, take-append}
use technosphere.Common.{
  ℕ, suc, ◌+◌, ◌<◌, ◌≡◌, refl, sym, ap, ◌∙◌, true, false, some, List, [], ◌∷◌, ◌++◌, ◌==◌, arith,
  length, length-append, inl, inr, take,
}
use technosphere.Shell.Call.{Call}
use technosphere.Shell.CallParser.Reads.{IsWord, Reads, Reads-end, Reads-plain, Reads-word}
use technosphere.Shell.CallParser.Trim.{
  written_args, written_file, written, AllWords, IsFile, IsWritten, word-length, first_text-word,
  trimmed-EndsOnce, written-EndsOnce,
}
use technosphere.Shell.CallParser.Words.{quoted}
use technosphere.Shell.CallParser.{
  Reader, store, redirect, ends_token, ends_command, read_command, new_reader, parse_behind,
  parse_call,
}
use technosphere.Shell.Text.{Outcome, find_first_of, find_first_of-found, Avoids, is_quote}

-- No redirection is open.
abbrev ready : Call → Reader
ready c = record { call = c; input_file_need = false; output_file_need = false }

store-arg :
    (w : Bytes) (c : Call)
    → 0 < length w
    → store w (ready c) ≡ ready (record c { args = c.args ++ (w ∷ []) })
unfolding store
store-arg [] c h = absurd (omega arith)
store-arg (x ∷ w) c h = refl

Reads-args :
    (rest : List Bytes) (t : Bytes) (c d : Call)
    → AllWords rest
    → Reads t (ready (record c { args = c.args ++ rest })) d
    → Reads (written_args rest t) (ready c) d
Reads-args [] t c d h k =
    subst (λ (l : List Bytes). Reads t (ready (record c { args = l })) d) (append-nil (c.args)) k
Reads-args (a ∷ rest) t c d h k = Reads-word a (written_args rest t) (ready c) d h.0 (
    subst (λ (r : Reader). Reads (written_args rest t) r d)
      (sym (store-arg a c (word-length a h.0)))
      (Reads-args rest t (record c { args = c.args ++ (a ∷ []) }) d h.1
        (subst (λ (l : List Bytes). Reads t (ready (record c { args = l })) d)
          (sym (append_assoc (c.args) (a ∷ []) rest)) k)))

Reads-input :
    (f t : Bytes) (c d : Call)
    → IsFile f
    → c.input_file ≡ []
    → Reads t (ready (record c { input_file = f })) d
    → Reads (written_file 60 f t) (ready c) d
unfolding redirect store
Reads-input [] t c d h e rest =
    subst (λ (f : Bytes). Reads t (ready (record c { input_file = f })) d) (sym e) rest
Reads-input (x ∷ f) t c d (inl n) e rest = absurd (omega (arith, ap length n))
Reads-input (x ∷ f) t c d (inr w) e rest =
    Reads-plain [] ((x ∷ f) ++ (32 ∷ t)) 60 (ready c) d tt refl refl
      (Reads-word (x ∷ f) t (redirect 60 (ready c)) d w rest)

Reads-output :
    (f t : Bytes) (c d : Call)
    → IsFile f
    → c.output_file ≡ []
    → Reads t (ready (record c { output_file = f })) d
    → Reads (written_file 62 f t) (ready c) d
unfolding redirect store
Reads-output [] t c d h e rest =
    subst (λ (f : Bytes). Reads t (ready (record c { output_file = f })) d) (sym e) rest
Reads-output (x ∷ f) t c d (inl n) e rest = absurd (omega (arith, ap length n))
Reads-output (x ∷ f) t c d (inr w) e rest =
    Reads-plain [] ((x ∷ f) ++ (32 ∷ t)) 62 (ready c) d tt refl refl
      (Reads-word (x ∷ f) t (redirect 62 (ready c)) d w rest)

-- The command.
ends_token-command : (w : Bytes) → Avoids ends_token w → Avoids ends_command w
ends_token-command [] h = tt
ends_token-command (c ∷ w) h = (ground (arith, h.0), ends_token-command w h.1)

read_command-quoted :
    (d : ℕ) (a t : Bytes)
    → is_quote d ≡ true
    → Avoids (λ (x : ℕ). x == d) a
    → read_command (d ∷ (a ++ (d ∷ t))) ≡ (quoted d a, suc (suc (length a)))
unfolding read_command
read_command-quoted d a t q h =
    let close = find_first_of-found (λ (x : ℕ). x == d) (d ∷ []) a d t h (ground arith) in
    let n : suc (1 + length a) ≡ length (quoted d a) = omega (arith, length-append a (d ∷ [])) in
    rw (q, close)
      (ap (λ (k : ℕ). (take k (d ∷ (a ++ (d ∷ t))), k)) n
        ∙ ap (λ (u : Bytes). (u, length (quoted d a)))
            (ap (λ (u : Bytes). take (length (quoted d a)) (d ∷ u))
                (sym (append_assoc a (d ∷ []) t))
              ∙ take-append (quoted d a) t)
        ∙ ap (λ (k : ℕ). (quoted d a, k))
            (let k : length (quoted d a) ≡ suc (suc (length a)) = omega (arith, n) in k))

read_command-word : (w t : Bytes) → IsWord w → read_command (w ++ (32 ∷ t)) ≡ (w, length w)
unfolding read_command
read_command-word [] t (inl p) = absurd (omega (arith, p.0))
read_command-word (c ∷ w) t (inl p) =
    let no_quote : is_quote c ≡ false = ground (arith, p.1.0) in
    let end : find_first_of ends_command ((c ∷ w) ++ (32 ∷ t)) 0 ≡ some (length (c ∷ w)) =
      find_first_of-found ends_command [] (c ∷ w) 32 t (ends_token-command (c ∷ w) p.1) refl
      ∙ ap (λ (n : ℕ). some n) (let n : 0 + length (c ∷ w) ≡ length (c ∷ w) = omega arith in n) in
    rw (no_quote, end, take-append (c ∷ w) (32 ∷ t)) refl
read_command-word w t (inr (d, a, e, q, h)) =
    ap (λ (u : Bytes). read_command (u ++ (32 ∷ t))) e
    ∙ ap (λ (u : Bytes). read_command (d ∷ u)) (append_assoc a (d ∷ []) (32 ∷ t))
    ∙ read_command-quoted d a (32 ∷ t) q h
    ∙ ap (λ (n : ℕ). (quoted d a, n))
        (let n : suc (suc (length a)) ≡ length (quoted d a) =
            omega (arith, length-append a (d ∷ [])) in
          n)
    ∙ ap (λ (u : Bytes). (u, length u)) (sym e)

-- A call is parsed from its line: the command, the arguments and the files, with a space behind each.
-- A word is plain, without white space, quotes, `<` and `>`, or stands in quotes, which are kept.
pub parse_call-written :
    (c : Call) → IsWritten c → parse_call (written c) (c.infd) (c.outfd) ≡ Outcome.done c
unfolding parse_call parse_behind new_reader redirect store
parse_call-written c h =
    let files = written_file 60 (c.input_file) (written_file 62 (c.output_file) []) in
    let tail = written_args (c.args) files in
    let empty = (new_reader (c.command) (c.infd) (c.outfd)).call in
    ap (λ (s : Bytes). parse_behind s (read_command s) (c.infd) (c.outfd))
      (trimmed-EndsOnce (written c) (first_text-word (c.command) (32 ∷ tail) (h.command))
        (written-EndsOnce c h))
    ∙ ap (λ (start : Bytes × ℕ). parse_behind (written c) start (c.infd) (c.outfd))
        (read_command-word (c.command) tail (h.command))
    ∙ Reads-plain [] tail 32 (ready empty) c tt refl refl
        (Reads-args (c.args) files empty c (h.args) (
          Reads-input (c.input_file) _ (record empty { args = c.args }) c (h.input_file) refl
            (Reads-output (c.output_file) []
              (record empty { args = c.args; input_file = c.input_file }) c (h.output_file) refl
              (Reads-end (ready c)))))
        (c.command) (suc (length (written c)))
        (omega (arith, length-append (c.command) (32 ∷ tail)))
