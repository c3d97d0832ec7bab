-- ===== src/Cache/Tests/Protocol.antt =====
-- The theorems about requests and workers at a small table.
use technosphere.Cache.Coworker.{execute, execute-Answered, Answered}
use technosphere.Cache.HashTable.Runs.{IsIdleState}
use technosphere.Cache.HashTable.{set}
use technosphere.Cache.Machine.{State, done}
use technosphere.Cache.Memory.{padded}
use technosphere.Cache.Request.Answers.{IsAnswer, perform_answers, perform-set-get}
use technosphere.Cache.Request.Protocol.{set_line, get_line}
use technosphere.Cache.Request.{parse_request, perform}
use technosphere.Cache.Stream.{digits_value}
use technosphere.Cache.Tests.{
  Values, kernel, table, table-IsSetUp, idle_state, idle_state-IsIdle, ab-IsKey, val-IsValue,
  stored, set_runs,
}
use technosphere.Common.Bytes.{Bytes, codes}
use technosphere.Common.{◌≡◌, refl, List, [], ◌∷◌, ◌++◌, arith, replicate}

small_ttl : digits_value 0 (codes "7") ≡ 7
unfolding digits_value
small_ttl = refl

perform_answers_example :
    (r : Bytes) × (s' : State Values) × (perform kernel table
        (parse_request (codes "set 5 k\r\n"))
        idle_state
      ≡ done r s')
    × IsIdleState kernel table table-IsSetUp s'
    × IsAnswer r
perform_answers_example =
    perform_answers kernel table table-IsSetUp (codes "set 5 k\r\n") idle_state idle_state-IsIdle

stores :
    set kernel table (codes "ab") (codes "val") (digits_value 0 (codes "7")) idle_state
    ≡ done tt stored
stores = rw (small_ttl) set_runs

perform-set-get_example :
    (perform kernel table
        (parse_request (set_line (codes "7") (codes "ab") (codes "val") []))
        idle_state
      ≡ done (codes "ok " ++ (codes "ab" ++ (codes " " ++ codes "val"))) stored)
    × ((u : Values) × (perform kernel table
            (parse_request (get_line (codes "ab") (codes "al")))
            stored
          ≡ done
              (codes "ok " ++ (codes "ab" ++ (codes " " ++ padded (codes "val") 4)))
              (record stored { sems = u })))
perform-set-get_example =
    perform-set-get kernel table table-IsSetUp (codes "7") (codes "ab") (codes "val") []
      (codes "al") idle_state stored idle_state-IsIdle (refl, (refl, tt)) (refl, tt)
      (omega (arith, small_ttl)) refl (refl, (refl, (refl, tt))) ab-IsKey val-IsValue stores

execute-Answered_example :
    (sent : List Bytes) × (s' : State Values) × (execute kernel table
        (codes "!")
        16
        (codes "get ab\r\n" ∷ codes "?" ∷ [])
        idle_state
      ≡ done sent s')
    × IsIdleState kernel table table-IsSetUp s'
    × Answered kernel table table-IsSetUp
        (codes "!")
        (replicate 16 0)
        idle_state
        (codes "get ab\r\n" ∷ codes "?" ∷ [])
        sent
        s'
execute-Answered_example =
    execute-Answered kernel table table-IsSetUp (codes "!") 16 (codes "get ab\r\n" ∷ codes "?" ∷ [])
      idle_state idle_state-IsIdle
