-- ===== src/Shell/CallParser.antt =====
-- sphere_prac/p4/Call.cpp: the constructor of `Call` from a text, and `output_call`.
pub mod Words
pub mod Ends
pub mod Reads
pub mod Trim
pub mod Written
use technosphere.Common.Bytes.{Bytes, codes}
use technosphere.Common.{
  ℕ, zero, suc, ◌+◌, ◌-◌, Bool, true, false, ◌||◌, Option, none, some, List, [], ◌∷◌, ◌++◌, ◌==◌,
  if◌then◌else◌, take, drop, length, get_or,
}
use technosphere.Shell.Call.{Call}
use technosphere.Shell.Text.{
  Outcome, done, undefined, no_fuel, find_first_of, trimmed, quote, double_quote, is_quote,
}

-- `" <>"` and `" <>\'\""`
abbrev pub ends_command : ℕ → Bool
ends_command c = c == 32 || c == 60 || c == 62

abbrev pub ends_token : ℕ → Bool
ends_token c = c == 32 || c == 60 || c == 62 || is_quote c

-- The variables of the loop: the call so far, `input_file_need` and `output_file_need`.
pub record Reader : Type 0 where
  pub call : Call
  pub input_file_need : Bool
  pub output_file_need : Bool

-- What a token that is not empty becomes.
unfoldable pub store : Bytes → Reader → Reader
store [] r = r
store (c ∷ token) r =
    if r.input_file_need
    then record r { call = record (r.call) { input_file = c ∷ token }; input_file_need = false }
    else if r.output_file_need
    then record r { call = record (r.call) { output_file = c ∷ token }; output_file_need = false }
    else record r { call = record (r.call) { args = r.call.args ++ ((c ∷ token) ∷ []) } }

-- The tests for `<` and `>` at the end of a round.
unfoldable pub redirect : ℕ → Reader → Reader
redirect c r =
    if c == 60
    then record r { input_file_need = true }
    else if c == 62
    then record r { output_file_need = true }
    else r

-- The token at i and where i stands behind it; none if a quote is not closed: then `s[i]` is read at
-- `npos`.
unfoldable pub read_token : Bytes → ℕ → ℕ → Option (Bytes × ℕ)
read_token s last i =
    let c = get_or s i 0 in
    if is_quote c
    then elim (find_first_of (λ (d : ℕ). d == c) s (suc i)) [
      | none ↦ none
      | some j ↦ some (take (suc j - i) (drop i s), j)
    ]
    else some (take (i - last) (drop last s), i)

-- The loop over the tokens.
unfoldable pub call_loop : ℕ → Bytes → ℕ → Option ℕ → Reader → Outcome Call
unfolding store redirect read_token
call_loop zero s last i r = Outcome.no_fuel
call_loop (suc fuel) s last none r = Outcome.done (r.call)
call_loop (suc fuel) s last (some i) r = elim (read_token s last i) [
  | none ↦ Outcome.undefined
  | some (token, j) ↦
      call_loop fuel s (suc j) (find_first_of ends_token s (suc j))
        (redirect (get_or s j 0) (store token r))
]

-- Where the command ends, and `last`. An opening quote that is not closed makes `last` and the length
-- npos + 1, which is 0.
unfoldable pub read_command : Bytes → Bytes × ℕ
read_command s =
    let c = get_or s 0 0 in
    if is_quote c
    then elim (find_first_of (λ (d : ℕ). d == c) s 1) [
      | none ↦ ([], 0)
      | some j ↦ (take (suc j) s, suc j)
    ]
    else elim (find_first_of ends_command s 0) [ none ↦ (s, length s) | some j ↦ (take j s, j) ]

-- The object before the loop.
unfoldable pub new_reader : Bytes → ℕ → ℕ → Reader
new_reader command infd outfd = record {
  call = record {
    command = command;
    args = [];
    input_file = [];
    output_file = [];
    infd = infd;
    outfd = outfd;
  };
  input_file_need = false;
  output_file_need = false;
}

unfoldable pub parse_behind : Bytes → Bytes × ℕ → ℕ → ℕ → Outcome Call
unfolding call_loop new_reader
parse_behind s (command, last) infd outfd =
    call_loop (suc (length s)) s last (find_first_of ends_token s last)
      (new_reader command infd outfd)

-- `Call::Call(const std::string &_s, int _infd, int _outfd)`
unfoldable pub parse_call : Bytes → ℕ → ℕ → Outcome Call
unfolding read_command parse_behind
parse_call text infd outfd = let s = trimmed text in parse_behind s (read_command s) infd outfd

-- `Call::output_call`
unfoldable pub bracketed : Bytes → Bytes
bracketed s = codes "[" ++ (s ++ codes "] ")

unfoldable pub output_file_part : Bytes → Bytes → Bytes
unfolding bracketed
output_file_part sign [] = []
output_file_part sign (c ∷ s) = sign ++ bracketed (c ∷ s)

unfoldable pub output_args : List Bytes → Bytes
unfolding bracketed
output_args [] = []
output_args (a ∷ args) = bracketed a ++ output_args args

unfoldable pub output_call : Call → Bytes
unfolding bracketed output_file_part output_args
output_call c =
    bracketed (c.command)
    ++ (output_file_part (codes "<") (c.input_file)
        ++ (output_file_part (codes ">") (c.output_file) ++ (output_args (c.args) ++ (10 ∷ []))))
