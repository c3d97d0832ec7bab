-- ===== src/Cache/HashTable/Collect.antt =====
-- A pass of the garbage collector, and what it does to `get`.
use technosphere.Cache.HashTable.Aging.{Aged, HasTtls, aged_from, aged_from-Aged, aged_memory}
use technosphere.Cache.HashTable.Locks.{IsIdle, full_lock-Guards}
use technosphere.Cache.HashTable.Lookup.{entry_of}
use technosphere.Cache.HashTable.Records.{get_entry_number_lem}
use technosphere.Cache.HashTable.Runs.{IsSetUp, IsIdleState}
use technosphere.Cache.HashTable.{HashTable, alive, collect_loop, collect}
use technosphere.Cache.Machine.{State, done}
use technosphere.Cache.Semaphore.{SysV}
use technosphere.Common.{ℕ, zero, suc, ◌+◌, ◌≤◌, ◌<◌, ◌≡◌, refl, inl, inr, arith, ◌==◌, Bool-cases}

module _ (sys : SysV) (t : HashTable) (up : IsSetUp t) where
  open sys use {Sems}

  collect_loop-aged_from :
      (n i : ℕ) (s : State Sems)
      → i + n ≤ t.n_records
      → IsIdleState sys t up s
      → (u : Sems) × (collect_loop sys t n i s
          ≡ done tt (record { mem = aged_from t n i s.mem; sems = u }))
        × IsIdle sys t.semaphore.max_value t.n_records u
  unfolding collect_loop aged_from
  collect_loop-aged_from zero i s le idle = (s.sems, refl, idle)
  collect_loop-aged_from (suc n) i s le idle =
      let g = full_lock-Guards sys t.semaphore t.n_records i s up.locked (omega arith) idle in
      let entry = get_entry_number_lem t i (record s { sems = g.held }) up.laid_out (omega arith) in
      let m = aged_memory t i s.mem in
      let (u, run, v) =
        collect_loop-aged_from n (i + 1) (record { mem = m; sems = g.after m }) (omega arith)
          (g.idle m) in
      (
        u,
        elim (Bool-cases ((entry_of t s.mem i).status == alive)) [
          | inl e ↦ ground (arith, g.takes, entry, g.gives m, run)
          | inr e ↦ ground (arith, g.takes, entry, g.gives m, run)
        ],
        v,
      )

  -- In a table that is set up, with every lock free and the TTLs below 2^32, a pass of the
  -- collector ends with every lock given back, and ages every record by one: its key and its value
  -- stay.
  pub collect-Aged :
      (s : State Sems)
      → IsIdleState sys t up s
      → HasTtls t t.n_records s.mem
      → (s' : State Sems) × (collect sys t s ≡ done tt s')
        × ((k : ℕ) → k < t.n_records → Aged t k s.mem s'.mem)
        × IsIdleState sys t up s'
  unfolding collect
  collect-Aged s idle small =
      let (u, run, v) = collect_loop-aged_from t.n_records 0 s (omega arith) idle in
      (
        record { mem = aged_from t t.n_records 0 s.mem; sems = u },
        run,
        λ k h. aged_from-Aged t t.n_records 0 k s.mem (small k h) (omega arith) (omega arith),
        v,
      )
