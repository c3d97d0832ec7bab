-- ===== src/Cache/Tests/Records.antt =====
-- The theorems about the hash table at a small table.
use technosphere.Cache.HashTable.Aging.{Aged, HasTtls}
use technosphere.Cache.HashTable.Collect.{collect-Aged}
use technosphere.Cache.HashTable.Expiry.{get-passes-set, get-passes-set_expired}
use technosphere.Cache.HashTable.Passes.{passes}
use technosphere.Cache.HashTable.Locks.{IsIdle}
use technosphere.Cache.HashTable.Lookup.{lookup, place}
use technosphere.Cache.HashTable.Map.{reply, get-set, get-set_ne, set-IsTidy, IsTidy}
use technosphere.Cache.HashTable.Runs.{IsSetUp, IsIdleState, got, put, get-lookup, set-place}
use technosphere.Cache.HashTable.Setup.{main_table, main_table-IsSetUp, zeroed-IsTidy}
use technosphere.Cache.HashTable.{HashTable, get, set, collect}
use technosphere.Cache.Machine.{State, done, thrown, no_such_key, invalid_key, invalid_value}
use technosphere.Cache.Memory.{padded, read_unsigned}
use technosphere.Common.Bytes.{Bytes, codes}
use technosphere.Common.{
  ℕ, ◌+◌, ◌<◌, ◌≡◌, refl, ap, get_or, Option, some, arith, ltb, if◌then◌else◌, length,
}
use technosphere.Cache.Tests.{
  Values, kernel, table, table-IsSetUp, table-ProbesDistinct, idle_state, idle_state-IsIdle,
  ab-IsKey, xy-IsKey, val-IsValue, stored, set_runs, stored-IsIdle,
}

get-lookup_example :
    (u : Values) × (get kernel table (codes "xy") stored ≡ (
      if ltb table.key_size (length (codes "xy") + 1)
      then thrown invalid_key (record stored { sems = u })
      else got table (lookup table stored.mem (codes "xy") 3 0) (record stored { sems = u })))
    × IsIdle kernel 4 3 u
get-lookup_example = get-lookup kernel table table-IsSetUp (codes "xy") stored stored-IsIdle

set-place_example :
    (u : Values) × (set kernel table (codes "xy") (codes "val") 7 stored ≡ (
      if ltb table.key_size (length (codes "xy") + 1)
      then thrown invalid_key (record stored { sems = u })
      else if ltb table.value_size (length (codes "val") + 1)
      then thrown invalid_value (record stored { sems = u })
      else put table
          (codes "xy")
          (codes "val")
          7
          (place table stored.mem (codes "xy") 3 0)
          (record stored { sems = u })))
    × IsIdle kernel 4 3 u
set-place_example =
    set-place kernel table table-IsSetUp (codes "xy") (codes "val") 7 stored stored-IsIdle

get-set_example :
    (u : Values) × (get kernel table (codes "ab") stored
      ≡ done (padded (codes "val") 4) (record stored { sems = u }))
    × IsIdle kernel 4 3 u
get-set_example =
    get-set kernel table table-IsSetUp (codes "ab") (codes "val") 7 idle_state stored
      idle_state-IsIdle ab-IsKey val-IsValue set_runs

get-set_ne_example :
    (o : Option Bytes) × (u : Values) × (u' : Values) × (get kernel table (codes "xy") idle_state
      ≡ reply o (record idle_state { sems = u }))
    × (get kernel table (codes "xy") stored ≡ reply o (record stored { sems = u' }))
get-set_ne_example =
    get-set_ne kernel table table-IsSetUp (codes "ab") (codes "val") 7 idle_state stored
      idle_state-IsIdle ab-IsKey val-IsValue set_runs (codes "xy") xy-IsKey
      (λ e. absurd (ground (arith, ap (λ (l : Bytes). get_or l 0 0) e)))
      (zeroed-IsTidy table table-IsSetUp.in_range)

set-IsTidy_example : IsTidy table stored.mem
set-IsTidy_example =
    set-IsTidy kernel table table-IsSetUp (codes "ab") (codes "val") 7 idle_state stored
      idle_state-IsIdle ab-IsKey val-IsValue set_runs table-ProbesDistinct
      (zeroed-IsTidy table table-IsSetUp.in_range)

zeroed_ttls : HasTtls table 3 (λ a. 0)
unfolding read_unsigned
zeroed_ttls k h = omega arith

collect-Aged_example :
    (s' : State Values) × (collect kernel table idle_state ≡ done tt s')
    × ((k : ℕ) → k < 3 → Aged table k idle_state.mem s'.mem)
    × IsIdleState kernel table table-IsSetUp s'
collect-Aged_example =
    collect-Aged kernel table table-IsSetUp idle_state idle_state-IsIdle zeroed_ttls

get-passes-set_example :
    (s'' : State Values) × (u : Values) × (passes kernel table 6 stored ≡ done tt s'')
    × (get kernel table (codes "ab") s'' ≡ done (padded (codes "val") 4) (record s'' { sems = u }))
get-passes-set_example =
    get-passes-set kernel table table-IsSetUp (codes "ab") (codes "val") 7 idle_state stored
      idle_state-IsIdle ab-IsKey val-IsValue set_runs (omega arith) zeroed_ttls (λ k e j h ne. refl)
      6 (omega arith)

get-passes-set_expired_example :
    (s'' : State Values) × (u : Values) × (passes kernel table (7 + 1) stored ≡ done tt s'')
    × (get kernel table (codes "ab") s'' ≡ thrown no_such_key (record s'' { sems = u }))
get-passes-set_expired_example =
    get-passes-set_expired kernel table table-IsSetUp (codes "ab") (codes "val") 7 idle_state stored
      idle_state-IsIdle ab-IsKey val-IsValue set_runs (omega arith) zeroed_ttls (λ k e j h ne. refl)

main_table-IsSetUp_example : (t : HashTable) × (main_table 4096 (λ key. 17) ≡ some t) × IsSetUp t
main_table-IsSetUp_example = main_table-IsSetUp 4096 (λ key. 17)
