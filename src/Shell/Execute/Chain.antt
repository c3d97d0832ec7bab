-- ===== src/Shell/Execute/Chain.antt =====
-- Calls without pipes run as the chain of `&&`, `||` and `;` says.
use technosphere.Common.{
  ℕ, ◌≡◌, refl, ap, ◌∙◌, Bool, true, false, Option, none, some, List, [], ◌∷◌, ◌++◌, ◌==◌, not,
  length,
}
use technosphere.Shell.Call.{Call, Process, process}
use technosphere.Shell.Execute.{
  Action, Step, Shell, is_simultaneous, starts, with_input, with_output, run_started, run_call,
  wait_active_calls, close_descriptors, last_code, execute_one, execute_from, execute_calls,
}

-- The reference: a chain, read from the left.
pub data Chain : Type 0 where
  only : Call → Chain
  and_then or_else sequel : Chain → Call → Chain

-- The steps into which a chain is cut, the last with the action that follows it.
unfoldable pub steps : Chain → Action → List Step
steps (only c) a = record { call = c; last_action = Action.first; action = a } ∷ []
steps (and_then x c) a =
    steps x Action.and ++ (record { call = c; last_action = Action.and; action = a } ∷ [])
steps (or_else x c) a =
    steps x Action.or ++ (record { call = c; last_action = Action.or; action = a } ∷ [])
steps (sequel x c) a =
    steps x Action.last ++ (record { call = c; last_action = Action.first; action = a } ∷ [])

-- `execvp` runs every call of the chain.
abbrev pub AllExec : (Process → Bool) → Chain → Type 0
AllExec execs (only c) = execs (process c) ≡ true
AllExec execs (and_then x c) = AllExec execs x × (execs (process c) ≡ true)
AllExec execs (or_else x c) = AllExec execs x × (execs (process c) ≡ true)
AllExec execs (sequel x c) = AllExec execs x × (execs (process c) ≡ true)

module _ (status : ℕ → ℕ) where
  -- one more process behind those that ran, if the exit code so far asks for it
  unfoldable pub also : Bool → Call → ℕ × List Process → ℕ × List Process
  also false c r = r
  also true c r = (status (length r.1), r.1 ++ (process c ∷ []))

  -- The exit code of a chain, and the processes that ran.
  unfoldable pub value_of : Chain → ℕ × List Process
  unfolding also
  value_of (only c) = also true c (0, [])
  value_of (and_then x c) = also ((value_of x).0 == 0) c (value_of x)
  value_of (or_else x c) = also (not ((value_of x).0 == 0)) c (value_of x)
  value_of (sequel x c) = also true c (value_of x)

  module _ (pipe : ℕ → ℕ × ℕ) (execs : Process → Bool) where
    -- The shell with nothing active and no pipe open.
    abbrev after : ℕ × List Process → ℕ × Shell
    after r = (r.0, record { started = r.1; active = []; fds = []; n_pipes = 0 })

    -- One more step behind a run.
    abbrev and_next : Step → Option (ℕ × Shell) → Option (ℕ × Shell)
    and_next x none = none
    and_next x (some (code, s)) = execute_from status pipe execs (x ∷ []) code s

    -- The steps that follow an outcome.
    abbrev follow : List Step → Option (ℕ × Shell) → Option (ℕ × Shell)
    follow xs o = elim o [ none ↦ none | some (code, s) ↦ execute_from status pipe execs xs code s ]

    follow-append :
        (xs : List Step) (x : Step) (o : Option (ℕ × Shell))
        → ((code : ℕ) (s : Shell)
            → execute_from status pipe execs (xs ++ (x ∷ [])) code s
              ≡ and_next x (execute_from status pipe execs xs code s))
        → follow (xs ++ (x ∷ [])) o ≡ and_next x (follow xs o)
    follow-append xs x none ih = refl
    follow-append xs x (some (code, s)) ih = ih code s

    execute_from-append :
        (xs : List Step) (x : Step) (code : ℕ) (s : Shell)
        → execute_from status pipe execs (xs ++ (x ∷ [])) code s
          ≡ and_next x (execute_from status pipe execs xs code s)
    unfolding execute_from
    execute_from-append [] x code s = refl
    execute_from-append (y ∷ xs) x code s =
        follow-append xs x (execute_one status pipe execs y code s) (execute_from-append xs x)

    with_input_plain :
        (b : Action) (fds : List (ℕ × ℕ)) (c : Call)
        → is_simultaneous b ≡ false
        → with_input b fds c ≡ some c
    unfolding with_input is_simultaneous
    with_input_plain Action.first fds c h = refl
    with_input_plain Action.and fds c h = refl
    with_input_plain Action.or fds c h = refl
    with_input_plain Action.simultaneously fds c h = cc
    with_input_plain Action.last fds c h = refl

    with_output_plain :
        (a : Action) (c : Call) (s : Shell)
        → is_simultaneous a ≡ false
        → with_output status pipe execs a c s ≡ (c, s)
    unfolding with_output is_simultaneous
    with_output_plain Action.first c s h = refl
    with_output_plain Action.and c s h = refl
    with_output_plain Action.or c s h = refl
    with_output_plain Action.simultaneously c s h = cc
    with_output_plain Action.last c s h = refl

    run_started-also :
        (go : Bool) (a : Action) (c : Call) (r : ℕ × List Process)
        → is_simultaneous a ≡ false
        → execs (process c) ≡ true
        → run_started status pipe execs go a r.0 c (after r).1 ≡ some (after (also go c r))
    unfolding run_started run_call wait_active_calls close_descriptors last_code also
    run_started-also false a c r h e = refl
    run_started-also true a c r h e = rw (e, h) refl

    -- What the end of the loop makes of an outcome.
    abbrev kept : Option (ℕ × Shell) → Option (ℕ × Shell)
    kept o = follow [] o

    one_step :
        (c : Call) (b a : Action) (r : ℕ × List Process)
        → is_simultaneous b ≡ false
        → is_simultaneous a ≡ false
        → execs (process c) ≡ true
        → execute_from status pipe execs
            (record { call = c; last_action = b; action = a } ∷ [])
            r.0
            (after r).1
          ≡ some (after (also (starts b r.0) c r))
    unfolding execute_from execute_one
    one_step c b a r h k e =
        let s = (after r).1 in
        let go = starts b r.0 in
        ap
          (λ (o : Option Call). kept (elim o [
            | none ↦ none
            | some d ↦
                run_started status pipe execs go a r.0 (with_output status pipe execs a d s).0
                  (with_output status pipe execs a d s).1
          ]))
          (with_input_plain b [] c h)
        ∙ ap (λ (q : Call × Shell). kept (run_started status pipe execs go a r.0 q.0 q.1))
            (with_output_plain a c s k)
        ∙ ap kept (run_started-also go a c r k e)

    grow :
        (xs : List Step) (c : Call) (b a : Action) (r : ℕ × List Process)
        → is_simultaneous b ≡ false
        → is_simultaneous a ≡ false
        → execs (process c) ≡ true
        → execute_calls status pipe execs xs ≡ some (after r)
        → execute_calls status pipe execs
            (xs ++ (record { call = c; last_action = b; action = a } ∷ []))
          ≡ some (after (also (starts b r.0) c r))
    unfolding execute_calls
    grow xs c b a r h k e ran =
        let x : Step = record { call = c; last_action = b; action = a } in
        execute_from-append xs x 0 (record { started = []; active = []; fds = []; n_pipes = 0 })
        ∙ ap (and_next x) ran
        ∙ one_step c b a r h k e

    -- `execute` runs a chain of calls without pipes, each of which `execvp` can run, as the chain says: the
    -- same processes start, in order, its exit code is that of the chain, and no process is left active.
    -- The action behind the last call is any but `|`.
    pub execute_calls-steps :
        (x : Chain) (a : Action)
        → is_simultaneous a ≡ false
        → AllExec execs x
        → execute_calls status pipe execs (steps x a)
          ≡ some (
            (value_of x).0,
            record { started = (value_of x).1; active = []; fds = []; n_pipes = 0 },
          )
    unfolding steps value_of starts is_simultaneous execute_calls execute_from
    execute_calls-steps (only c) a h e = grow [] c Action.first a (0, []) refl h e refl
    execute_calls-steps (and_then x c) a h e =
        grow (steps x Action.and) c Action.and a (value_of x) refl h e.1
          (execute_calls-steps x Action.and refl e.0)
    execute_calls-steps (or_else x c) a h e =
        grow (steps x Action.or) c Action.or a (value_of x) refl h e.1
          (execute_calls-steps x Action.or refl e.0)
    execute_calls-steps (sequel x c) a h e =
        grow (steps x Action.last) c Action.first a (value_of x) refl h e.1
          (execute_calls-steps x Action.last refl e.0)
