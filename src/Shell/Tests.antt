-- ===== src/Shell/Tests.antt =====
-- Runs of the shell's instructions.
use technosphere.Common.Bytes.{Bytes, codes}
use technosphere.Common.{
  Bool, true, ℕ, zero, suc, ◌+◌, ◌≡◌, arith, inl, inr, false, refl, some, [], ◌∷◌,
}
use technosphere.Shell.Call.{Call, Process, process, set_in_fd}
use technosphere.Shell.CallParser.Trim.{written, IsWritten}
use technosphere.Shell.CallParser.Written.{parse_call-written}
use technosphere.Shell.CallParser.{parse_call}
use technosphere.Shell.InstructionParser.Endless.{parse_instruction_never}
use technosphere.Shell.InstructionParser.Pieces.{IsPiece, chain_text}
use technosphere.Shell.InstructionParser.{parse_instruction}
use technosphere.Shell.Session.{exited, session, session-chains}
use technosphere.Shell.Text.{Outcome, find_first_of, trimmed}
use technosphere.Shell.Execute.Chain.{
  Chain, only, and_then, or_else, steps, value_of, execute_calls-steps,
}
use technosphere.Shell.Execute.{Action, is_simultaneous, execute_calls}

abbrev call : Bytes → Call
call name = record {
  command = name;
  args = [];
  input_file = [];
  output_file = [];
  infd = 0;
  outfd = 1;
}

-- The first process fails, the others succeed.
abbrev codes_of : ℕ → ℕ
codes_of zero = 1
codes_of (suc n) = 0

abbrev all_run : Process → Bool
all_run p = true

abbrev pipes : ℕ → ℕ × ℕ
pipes n = (n + n + 3, n + n + 4)

-- `a && b || c`
abbrev chain : Chain
chain = or_else (and_then (only (call (codes "a"))) (call (codes "b"))) (call (codes "c"))

execute_calls-steps_example :
    execute_calls codes_of pipes all_run (steps chain Action.last)
    ≡ some (
      0,
      record {
        started = process (call (codes "a")) ∷ process (call (codes "c")) ∷ [];
        active = [];
        fds = [];
        n_pipes = 0;
      },
    )
unfolding value_of is_simultaneous
execute_calls-steps_example =
    execute_calls-steps codes_of pipes all_run chain Action.last refl ((refl, refl), refl)

-- `a || b | c` where a succeeds: b does not start, and c does, with the pipe as its input.
second_half :
    execute_calls
      (λ n. 0)
      pipes
      all_run
      (record { call = call (codes "a"); last_action = Action.first; action = Action.or }
        ∷ record {
          call = call (codes "b");
          last_action = Action.or;
          action = Action.simultaneously;
        }
        ∷ record {
          call = call (codes "c");
          last_action = Action.simultaneously;
          action = Action.last;
        }
        ∷ [])
    ≡ some (
      0,
      record {
        started = process (call (codes "a")) ∷ process (set_in_fd 3 (call (codes "c"))) ∷ [];
        active = [];
        fds = [];
        n_pipes = 1;
      },
    )
unfolding execute_calls
second_half = refl

-- `cat "a b" <in >out`
abbrev cat : Call
cat = record {
  command = codes "cat";
  args = codes "\"a b\"" ∷ codes "-n" ∷ [];
  input_file = codes "in";
  output_file = codes "out";
  infd = 0;
  outfd = 1;
}

cat_line : written cat ≡ codes "cat \"a b\" -n <in >out "
cat_line = refl

cat-IsWritten : IsWritten cat
cat-IsWritten = record {
  command = inl (omega arith, (refl, (refl, (refl, tt))), (refl, (refl, (refl, tt))));
  args = (
    inr (34, codes "a b", refl, refl, (refl, (refl, (refl, tt)))),
    (inl (omega arith, (refl, (refl, tt)), (refl, (refl, tt))), tt),
  );
  input_file = inr (inl (omega arith, (refl, (refl, tt)), (refl, (refl, tt))));
  output_file = inr (inl (omega arith, (refl, (refl, (refl, tt))), (refl, (refl, (refl, tt)))));
}

parse_call-written_example : parse_call (codes "cat \"a b\" -n <in >out ") 0 1 ≡ Outcome.done cat
parse_call-written_example = parse_call-written cat cat-IsWritten

-- The quote that is not closed is read at `npos`.
parse_call-open : parse_call (codes "ls 'a") 0 1 ≡ Outcome.undefined
unfolding parse_call find_first_of trimmed
parse_call-open = refl

a-IsPiece : IsPiece (call (codes "a"))
a-IsPiece = record {
  words = record {
    command = inl (omega arith, (refl, tt), (refl, tt));
    args = tt;
    input_file = inl refl;
    output_file = inl refl;
  };
  input = refl;
  output = refl;
  plain = (refl, (refl, tt));
}

b-IsPiece : IsPiece (call (codes "b"))
b-IsPiece = record {
  words = record {
    command = inl (omega arith, (refl, tt), (refl, tt));
    args = tt;
    input_file = inl refl;
    output_file = inl refl;
  };
  input = refl;
  output = refl;
  plain = (refl, (refl, tt));
}

abbrev either : Chain
either = or_else (only (call (codes "a"))) (call (codes "b"))

either_line : chain_text either ≡ codes "a || b "
unfolding chain_text
either_line = refl

abbrev pids : ℕ → ℕ
pids n = 1000 + n

abbrev statuses : ℕ → ℕ → ℕ
statuses n = codes_of

abbrev all_pipes : ℕ → ℕ → ℕ × ℕ
all_pipes n = pipes

-- The first process of every line fails, the others succeed.
session-chains_example :
    session 100 pids statuses all_pipes all_run 0 false
      (chain_text either ∷ chain_text (only (call (codes "a"))) ∷ [])
    ≡ Outcome.done (exited 1000 0 ∷ exited 1001 1 ∷ [])
unfolding value_of
session-chains_example =
    session-chains 100 pids statuses all_pipes all_run 0 (either ∷ only (call (codes "a")) ∷ [])
      ((a-IsPiece, b-IsPiece), omega arith, (refl, refl), (a-IsPiece, omega arith, refl, tt))

parse_instruction_never_example : parse_instruction 50 (codes "ls 'a") ≡ Outcome.no_fuel
unfolding trimmed
parse_instruction_never_example =
    parse_instruction_never (codes "ls ") (codes "a ") 39 (refl, (refl, (refl, tt))) refl
      (refl, (refl, tt)) 50 (codes "ls 'a") refl
