-- ===== src/Shell/Execute.antt =====
-- sphere_prac/p4/Instruction.cpp: the run of the calls of an instruction. The kernel's side is a
-- parameter: the exit code of the n-th process, the descriptors of the n-th pipe, and whether `execvp`
-- runs a process.
pub mod Chain
use mathlib.Core.Option
use technosphere.Common.{
  ℕ, suc, ◌+◌, Bool, true, false, Option, none, some, List, [], ◌∷◌, ◌++◌, ◌==◌, if◌then◌else◌, not,
  length,
}
use technosphere.Shell.Call.{Call, Process, process, set_in_fd, set_out_fd}

-- `enum { FIRST, AND, OR, SIMULTANEOUSLY, LAST }`
pub data Action : Type 0 where
  first and or simultaneously last : Action

-- `calls`: a call, the action before it and the one behind it.
pub record Step : Type 0 where
  pub call : Call
  pub last_action : Action
  pub action : Action

-- The processes started so far, those of `active` by their numbers, and the open pipes.
pub record Shell : Type 0 where
  pub started : List Process
  pub active : List ℕ
  pub fds : List (ℕ × ℕ)
  pub n_pipes : ℕ

unfoldable pub is_simultaneous : Action → Bool
is_simultaneous Action.simultaneously = true
is_simultaneous _ = false

-- The `switch`: whether a call starts after an exit code.
unfoldable pub starts : Action → ℕ → Bool
starts Action.first code = true
starts Action.and code = code == 0
starts Action.or code = not (code == 0)
starts Action.simultaneously code = true
starts Action.last code = false

-- `fds.back()`; `none` on an empty vector, where it is undefined
unfoldable pub back : List (ℕ × ℕ) → Option (ℕ × ℕ)
back [] = none
back (fd ∷ []) = some fd
back (fd ∷ next ∷ fds) = back (next ∷ fds)

-- The call with its input from the last pipe, if it stands behind a `|`.
unfoldable pub with_input : Action → List (ℕ × ℕ) → Call → Option Call
unfolding back
with_input Action.simultaneously fds c = Option.map (λ (fd : ℕ × ℕ). set_in_fd fd.0 c) (back fds)
with_input _ fds c = some c

unfoldable pub close_descriptors : Shell → Shell
close_descriptors s = record s { fds = [] }

module _ (status : ℕ → ℕ) (pipe : ℕ → ℕ × ℕ) (execs : Process → Bool) where
  -- the call with its output into a new pipe, if a `|` follows
  unfoldable pub with_output : Action → Call → Shell → Call × Shell
  with_output Action.simultaneously c s =
      let fd = pipe s.n_pipes in
      (set_out_fd fd.1 c, record s { fds = s.fds ++ (fd ∷ []); n_pipes = s.n_pipes + 1 })
  with_output _ c s = (c, s)

  -- the exit code of the last of the calls, 0 if there is none
  unfoldable pub last_code : List ℕ → ℕ → ℕ
  last_code [] code = code
  last_code (p ∷ ps) code = last_code ps (status p)

  unfoldable pub wait_active_calls : Shell → ℕ × Shell
  unfolding last_code
  wait_active_calls s = (last_code s.active 0, record s { active = [] })

  -- `call.run()`, and the call among the active ones; none where `execvp` fails: the child then returns
  -- from `run` too, with the result 0, and there are two shells that go on with the rest of the chain.
  unfoldable pub run_call : Call → Shell → Option Shell
  run_call c s =
      if execs (process c)
      then some (record s {
        started = s.started ++ (process c ∷ []);
        active = s.active ++ (length s.started ∷ []);
      })
      else none

  -- The rest of one round: the call starts, and unless a `|` follows the active calls are waited for.
  unfoldable pub run_started : Bool → Action → ℕ → Call → Shell → Option (ℕ × Shell)
  unfolding run_call wait_active_calls close_descriptors is_simultaneous
  run_started false action code c s = some (code, s)
  run_started true action code c s =
      Option.map
        (λ (s' : Shell).
          if is_simultaneous action then (code, s') else wait_active_calls (close_descriptors s'))
        (run_call c s)

  -- one round of the `for` in `execute`
  unfoldable pub execute_one : Step → ℕ → Shell → Option (ℕ × Shell)
  unfolding with_input with_output run_started starts
  execute_one x code s = elim (with_input x.last_action s.fds x.call) [
    | none ↦ none
    | some c ↦
        let (c', s') = with_output x.action c s in
        run_started (starts x.last_action code) x.action code c' s'
  ]

  unfoldable pub execute_from : List Step → ℕ → Shell → Option (ℕ × Shell)
  unfolding execute_one
  execute_from [] code s = some (code, s)
  execute_from (x ∷ xs) code s = elim (execute_one x code s) [
    | none ↦ none
    | some (code', s') ↦ execute_from xs code' s'
  ]

  -- `Instruction::execute`
  unfoldable pub execute_calls : List Step → Option (ℕ × Shell)
  unfolding execute_from
  execute_calls xs = execute_from xs 0 (record { started = []; active = []; fds = []; n_pipes = 0 })
