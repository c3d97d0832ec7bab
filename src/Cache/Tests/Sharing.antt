-- ===== src/Cache/Tests/Sharing.antt =====
-- Calls of several processes on the semaphores of a small table.
use technosphere.Cache.Exclusion.{CallOn, takes_read, takes_write, Holders, readers, Next, steps}
use technosphere.Cache.Exclusion.Follows.{Ends, calls-steps}
use technosphere.Cache.Tests.{kernel, table, table-IsSetUp, idle_state}
use technosphere.Common.{◌≡◌, refl, List, [], ◌∷◌, arith}

abbrev nobody : Holders
nobody j = readers 0

-- A reader of 0 and a writer of 1 together, and then a writer of 0.
abbrev shared : List CallOn
shared =
    record { number = 0; op = takes_read }
    ∷ record { number = 1; op = takes_write }
    ∷ record { number = 0; op = takes_write }
    ∷ []

shared_waits : steps 4 shared nobody ≡ Next.waits
unfolding steps
shared_waits = refl

calls-steps_example :
    Ends kernel (table.semaphore) 3 (table-IsSetUp.locked) shared idle_state (steps 4 shared nobody)
calls-steps_example =
    calls-steps kernel (table.semaphore) 3 (table-IsSetUp.locked) shared nobody idle_state
      (omega arith, (omega arith, (omega arith, tt))) (λ j h. (refl, omega arith))
