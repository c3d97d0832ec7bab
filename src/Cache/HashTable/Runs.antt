-- ===== src/Cache/HashTable/Runs.antt =====
-- `get` and `set` run to their end on an idle set of semaphores and leave it idle; what they return
-- and write is that of the loops over an unchanging memory.
use technosphere.Cache.HashTable.Locks.{IsSemaphore, IsIdle, lock-Guards, full_lock-Guards}
use technosphere.Cache.HashTable.Lookup.{entry_of, lookup, place}
use technosphere.Cache.HashTable.Records.{place_of, IsLaidOut, get_entry_number_lem}
use technosphere.Cache.HashTable.{
  HashTable, holds, takes, free, alive, set_entry, get_loop, get, set_loop, set,
}
use technosphere.Cache.Machine.{
  State, Outcome, done, thrown, no_such_key, no_free_space, invalid_key, invalid_value,
}
use technosphere.Cache.Memory.{Memory, read_bytes}
use technosphere.Cache.Semaphore.{SysV}
use technosphere.Common.Bytes.{Bytes}
use technosphere.Common.{
  ℕ, zero, suc, ◌+◌, ◌≤◌, ◌<◌, ◌≡◌, refl, inl, inr, Option, none, some, arith, ◌==◌, ltb,
  if◌then◌else◌, Bool-cases, length,
}

-- What `main` builds: the file has room for the records, the hash gives numbers of records, and
-- there is a semaphore for each.
pub record IsSetUp (t : HashTable) : Type 0 where
  pub laid_out : IsLaidOut t
  pub in_range : (key : Bytes) (i : ℕ) → t.hash key i < t.n_records
  pub locked : IsSemaphore t.semaphore t.n_records

-- The memory after the record that was found is overwritten.
abbrev pub written : HashTable → Bytes → Bytes → ℕ → Memory → ℕ → Memory
written t key value ttl m k =
    set_entry t (record { key = some key; value = some value; ttl = ttl; status = alive })
      (place_of t k) m

-- `get` by the record found: the bytes of its value field, or the code for a missing key.
abbrev pub got : {S : Type 0} → HashTable → Option ℕ → State S → Outcome S Bytes
got t none s = thrown no_such_key s
got t (some k) s = done (read_bytes s.mem (place_of t k + t.key_size) t.value_size) s

-- `set` by the record taken.
abbrev pub put :
    {S : Type 0} → HashTable → Bytes → Bytes → ℕ → Option ℕ → State S → Outcome S (Unit {0})
put t key value ttl none s = thrown no_free_space s
put t key value ttl (some k) s = done tt (record s { mem = written t key value ttl s.mem k })

module _ (sys : SysV) (t : HashTable) (up : IsSetUp t) where
  open sys use {Sems}

  abbrev pub IsIdleState : State Sems → Type 0
  IsIdleState s = IsIdle sys t.semaphore.max_value t.n_records s.sems

  get_loop-lookup :
      (key : Bytes) (n i : ℕ) (s : State Sems)
      → i + n ≤ t.n_records
      → IsIdleState s
      → (u : Sems) × (get_loop sys t key n i s
          ≡ got t (lookup t s.mem key n i) (record s { sems = u }))
        × IsIdle sys t.semaphore.max_value t.n_records u
  unfolding get_loop lookup
  get_loop-lookup key zero i s le idle = (s.sems, refl, idle)
  get_loop-lookup key (suc n) i s le idle =
      let g = lock-Guards sys t.semaphore t.n_records i s up.locked (omega arith) idle in
      let entry =
        get_entry_number_lem t (t.hash key i) (record s { sems = g.held }) up.laid_out
          (up.in_range key i) in
      let back = g.gives s.mem in
      elim (Bool-cases (holds t key s.mem (entry_of t s.mem (t.hash key i)))) [
        | inl e ↦ (g.after s.mem, ground (arith, g.takes, entry, back), g.idle s.mem)
        | inr e ↦ elim (Bool-cases ((entry_of t s.mem (t.hash key i)).status == free)) [
          | inl f ↦ (g.after s.mem, ground (arith, g.takes, entry, back), g.idle s.mem)
          | inr f ↦
              let (u, run, v) =
                get_loop-lookup key n (i + 1) (record { mem = s.mem; sems = g.after s.mem })
                  (omega arith) (g.idle s.mem) in
              (u, ground (arith, g.takes, entry, back, run), v)
        ]
      ]

  set_loop-place :
      (key value : Bytes) (ttl n i : ℕ) (s : State Sems)
      → i + n ≤ t.n_records
      → IsIdleState s
      → (u : Sems) × (set_loop sys t key value ttl n i s
          ≡ put t key value ttl (place t s.mem key n i) (record s { sems = u }))
        × IsIdle sys t.semaphore.max_value t.n_records u
  unfolding set_loop place
  set_loop-place key value ttl zero i s le idle = (s.sems, refl, idle)
  set_loop-place key value ttl (suc n) i s le idle =
      let k = t.hash key i in
      let g = full_lock-Guards sys t.semaphore t.n_records i s up.locked (omega arith) idle in
      let entry =
        get_entry_number_lem t k (record s { sems = g.held }) up.laid_out (up.in_range key i) in
      elim (Bool-cases (takes t key s.mem (entry_of t s.mem k))) [
        | inl e ↦
            let m = written t key value ttl s.mem k in
            (g.after m, ground (arith, g.takes, entry, g.gives m), g.idle m)
        | inr e ↦
            let s' : State Sems = record { mem = s.mem; sems = g.after s.mem } in
            let (u, run, v) =
              set_loop-place key value ttl n (i + 1) s' (omega arith) (g.idle s.mem) in
            (u, ground (arith, g.takes, entry, g.gives s.mem, run), v)
      ]

  -- In a table that is set up and with every lock free, `get` ends: it sleeps on no lock, gives
  -- every lock back, and leaves the memory alone. It throws INVALID_KEY for a long key, and
  -- otherwise returns the value field of the record that `lookup` finds over all the probes, or
  -- throws NO_SUCH_KEY where it finds none.
  pub get-lookup :
      (key : Bytes) (s : State Sems)
      → IsIdleState s
      → (u : Sems) × (get sys t key s ≡ (
          if ltb t.key_size (length key + 1)
          then thrown invalid_key (record s { sems = u })
          else got t (lookup t s.mem key t.n_records 0) (record s { sems = u })))
        × IsIdle sys t.semaphore.max_value t.n_records u
  unfolding get
  get-lookup key s idle = elim (Bool-cases (ltb t.key_size (length key + 1))) [
    | inl e ↦ (s.sems, ground arith, idle)
    | inr e ↦
        let (u, run, v) = get_loop-lookup key t.n_records 0 s (omega arith) idle in
        (u, ground (arith, run), v)
  ]

  -- In a table that is set up and with every lock free, `set` ends, with every lock given back. It
  -- throws INVALID_KEY for a long key and INVALID_VALUE for a long value, and otherwise writes the
  -- record that `place` takes over all the probes, or throws NO_FREE_SPACE where it takes none.
  pub set-place :
      (key value : Bytes) (ttl : ℕ) (s : State Sems)
      → IsIdleState s
      → (u : Sems) × (set sys t key value ttl s ≡ (
          if ltb t.key_size (length key + 1)
          then thrown invalid_key (record s { sems = u })
          else if ltb t.value_size (length value + 1)
          then thrown invalid_value (record s { sems = u })
          else put t key value ttl (place t s.mem key t.n_records 0) (record s { sems = u })))
        × IsIdle sys t.semaphore.max_value t.n_records u
  unfolding set
  set-place key value ttl s idle = elim (Bool-cases (ltb t.key_size (length key + 1))) [
    | inl e ↦ (s.sems, ground arith, idle)
    | inr e ↦ elim (Bool-cases (ltb t.value_size (length value + 1))) [
      | inl f ↦ (s.sems, ground arith, idle)
      | inr f ↦
          let (u, run, v) = set_loop-place key value ttl t.n_records 0 s (omega arith) idle in
          (u, ground (arith, run), v)
    ]
  ]
