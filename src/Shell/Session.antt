-- ===== src/Shell/Session.antt =====
-- sphere_prac/p4/main.cpp: the loop over the lines. The kernel's side is a parameter: the process that
-- runs the n-th line, the exit codes and pipes of the processes that it starts, and whether `execvp`
-- runs a process.
use technosphere.Common.Bytes.{Bytes}
use technosphere.Common.{
  ℕ, suc, ◌%◌, ◌≤◌, ◌≡◌, refl, Bool, true, false, Option, none, some, List, [], ◌∷◌, if◌then◌else◌,
  map,
}
use technosphere.Shell.Call.{Process}
use technosphere.Shell.Execute.Chain.{Chain, AllExec, value_of, execute_calls-steps}
use technosphere.Shell.Execute.{Action, Shell, execute_calls, is_simultaneous}
use technosphere.Shell.InstructionParser.Lines.{parse_instruction-chain_text}
use technosphere.Shell.InstructionParser.Pieces.{chain_text, ChainPieces, n_calls}
use technosphere.Shell.InstructionParser.{Instruction, parse_instruction}
use technosphere.Shell.Text.{Outcome, proceed}

-- What is written to `std::cerr`.
pub data Report : Type 0 where
  spawned : ℕ → Report
  exited : ℕ → ℕ → Report

module _ (fuel : ℕ) (pid : ℕ → ℕ) (status : ℕ → ℕ → ℕ) (pipe : ℕ → ℕ → ℕ × ℕ)
    (execs : Process → Bool) where
  -- `instruction.wait()`: the child exits with what `execute` returns, of which eight bits are left.
  unfoldable pub wait_for : ℕ → Option (ℕ × Shell) → Outcome Report
  wait_for n none = Outcome.undefined
  wait_for n (some (code, s)) = Outcome.done (exited (pid n) (code % 256))

  -- One round of the `while`, on the n-th line.
  unfoldable pub run_line : ℕ → Instruction → Outcome Report
  unfolding wait_for
  run_line n x =
      if x.background
      then Outcome.done (spawned (pid n))
      else wait_for n (execute_calls (status n) (pipe n) execs (x.calls))

  -- `main`, from the n-th line on, with what it writes. `active` keeps pointers to instructions that
  -- are gone: the waits at the end are undefined if there are any.
  unfoldable pub session : ℕ → Bool → List Bytes → Outcome (List Report)
  unfolding run_line
  session n active [] = if active then Outcome.undefined else Outcome.done []
  session n active (line ∷ lines) = proceed (parse_instruction fuel line) (λ (x : Instruction).
      proceed (run_line n x) (λ (r : Report).
        proceed (session (suc n) (if x.background then true else active) lines)
          (λ (rs : List Report). Outcome.done (r ∷ rs))))

  abbrev pub AllPieces : List Chain → Type 0
  AllPieces [] = Unit
  AllPieces (x ∷ xs) = ChainPieces x × (n_calls x ≤ fuel) × AllExec execs x × AllPieces xs

  -- The exit codes of the chains, one line after the other.
  abbrev pub exits : ℕ → List Chain → List Report
  exits n [] = []
  exits n (x ∷ xs) = exited (pid n) ((value_of (status n) x).0 % 256) ∷ exits (suc n) xs

  -- A session of lines that are chains without pipes, in the spelling of `chain_text`, in which one space
  -- stands behind each word and each operator, ends, and reports the exit code of each chain, in order.
  -- The words of the calls are plain and hold no `&`, `|` and `;`, `execvp` runs every call, and the fuel
  -- is the number of the calls of each line at least.
  pub session-chains :
      (n : ℕ) (xs : List Chain)
      → AllPieces xs
      → session n false (map chain_text xs) ≡ Outcome.done (exits n xs)
  unfolding session proceed run_line wait_for is_simultaneous
  session-chains n [] h = refl
  session-chains n (x ∷ xs) h =
      rw
        (
          parse_instruction-chain_text x fuel h.0 h.1,
          execute_calls-steps (status n) (pipe n) execs x Action.last refl h.2,
          session-chains (suc n) xs h.3,
        )
        refl
