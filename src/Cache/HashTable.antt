-- ===== src/Cache/HashTable.antt =====
-- sphere_prac/p5/HashTable.cpp, HashTable.hpp: a table of fixed-size records in the mapped file, with
-- probing by a hash of the key and the number of the probe.
pub mod Layout
pub mod Records
pub mod Locks
pub mod Lookup
pub mod Writes
pub mod Runs
pub mod Map
pub mod Aging
pub mod Collect
pub mod Lifetime
pub mod Passes
pub mod Expiry
pub mod Setup
use technosphere.Cache.Machine.{
  done, thrown, M, pure, throw, ◌>>=◌, ◌>>◌, read_mem, change_mem, no_such_key, invalid_key,
  invalid_value, invalid_place, no_free_space,
}
use technosphere.Cache.Memory.{
  Memory, memcpy, memset, read_bytes, strncmp_eq, unsigned_bytes, read_unsigned,
}
use technosphere.Cache.Semaphore.{Semaphore, SysV, lock, full_lock, full_release, release}
use technosphere.Common.Bytes.{Bytes, c_str}
use technosphere.Common.{
  ℕ, zero, suc, ◌+◌, ◌^◌, ◌-◌, ◌*◌, ◌%◌, Bool, ◌&&◌, ◌||◌, not, Option, none, some, [], ◌∷◌, ltb,
  leb, ◌==◌, if◌then◌else◌, length,
}

-- `base` is the member `data`. The hash function is the caller's.
pub record HashTable : Type 0 where
  pub base : ℕ
  pub data_size : ℕ
  pub n_records : ℕ
  pub key_size : ℕ
  pub value_size : ℕ
  pub hash : Bytes → ℕ → ℕ
  pub semaphore : Semaphore

-- The constructor. It throws NO_FREE_SPACE (here `none`) if the file has no room for the
-- records, by a product of `size_t`.
unfoldable pub hash_table : ℕ → Semaphore → ℕ → ℕ → ℕ → ℕ → (Bytes → ℕ → ℕ) → Option HashTable
hash_table base semaphore data_size n_records key_size value_size hash =
    if ltb data_size (n_records * (key_size + value_size + 4 + 1) % 2 ^ 64)
    then none
    else some (record {
      base = base;
      data_size = data_size;
      n_records = n_records;
      key_size = key_size;
      value_size = value_size;
      hash = hash;
      semaphore = semaphore;
    })

-- `enum { FREE, ALIVE, REMOVED }`
abbrev pub free : ℕ
free = 0

abbrev pub alive : ℕ
alive = 1

abbrev pub removed : ℕ
removed = 2

-- An `Entry` that `get_entry` returns: `key` and `value` point into the mapped file.
pub record Entry : Type 0 where
  pub key : ℕ
  pub value : ℕ
  pub ttl : ℕ
  pub status : ℕ

-- An `Entry` that `set_entry` copies from: the pointers are null, or `data()` of a string.
pub record Source : Type 0 where
  pub key : Option Bytes
  pub value : Option Bytes
  pub ttl : ℕ
  pub status : ℕ

abbrev pub record_size : HashTable → ℕ
record_size t = t.key_size + t.value_size + 4 + 1

-- The entry that stands at an address.
abbrev pub entry_at : HashTable → Memory → ℕ → Entry
entry_at t m from = record {
  key = from;
  value = from + t.key_size;
  ttl = read_unsigned m (from + t.key_size + t.value_size);
  status = m (from + t.key_size + t.value_size + 4);
}

-- `get_entry(char *)`, with its check of the place.
unfoldable pub get_entry : {S : Type 0} → HashTable → ℕ → M S Entry
get_entry t from s =
    if ltb from t.base
      || leb (t.base + t.data_size) from
      || not ((from - t.base) % record_size t == 0)
    then thrown invalid_place s
    else done (entry_at t s.mem from) s

-- `get_entry(std::size_t)`
unfoldable pub get_entry_number : {S : Type 0} → HashTable → ℕ → M S Entry
unfolding get_entry
get_entry_number t k = get_entry t (t.base + k * record_size t)

-- One field of `set_entry`: `memcpy` and `memset` of a C string, or nothing for a null pointer.
unfoldable pub set_field : ℕ → ℕ → Option Bytes → Memory → Memory
unfolding c_str memcpy memset
set_field to size none m = m
set_field to size (some s) m =
    let len = length (c_str s) in memset (to + len) 0 (size - len) (memcpy to (c_str s) m)

unfoldable pub set_entry : HashTable → Source → ℕ → Memory → Memory
unfolding set_field memcpy
set_entry t src to m =
    let m₁ = set_field to t.key_size src.key m in
    let m₂ = set_field (to + t.key_size) t.value_size src.value m₁ in
    let m₃ = memcpy (to + t.key_size + t.value_size) (unsigned_bytes src.ttl) m₂ in
    memcpy (to + t.key_size + t.value_size + 4) (src.status ∷ []) m₃

-- `entry.status == ALIVE && std::strncmp(entry.key, key.data(), key_size) == 0`
abbrev pub holds : HashTable → Bytes → Memory → Entry → Bool
holds t key m e = e.status == alive && strncmp_eq m e.key key t.key_size

-- The test by which `set` and `find_place` take a record.
abbrev pub takes : HashTable → Bytes → Memory → Entry → Bool
takes t key m e = e.status == free || e.status == removed || holds t key m e

-- The private `get_entry(const std::string &)`: no locks. (n rounds are left, the next is i.)
unfoldable pub get_entry_by_key : {S : Type 0} → HashTable → Bytes → ℕ → ℕ → M S Entry
unfolding get_entry_number
get_entry_by_key t key zero i = throw no_such_key
get_entry_by_key t key (suc n) i =
    let rest = get_entry_by_key t key n (i + 1) in
    do
      e ← get_entry_number t (t.hash key i)
      m ← read_mem
      if holds t key m e then pure e else if e.status == free then throw no_such_key else rest

-- `find_place`
unfoldable pub find_place : {S : Type 0} → HashTable → Bytes → ℕ → ℕ → M S Entry
unfolding get_entry_number
find_place t key zero i = throw no_free_space
find_place t key (suc n) i =
    let rest = find_place t key n (i + 1) in
    do e ← get_entry_number t (t.hash key i); m ← read_mem; if takes t key m e then pure e else rest

module _ (sys : SysV) where
  open sys use {Sems}

  -- the loop of `get`: n rounds are left, the next is i
  unfoldable pub get_loop : HashTable → Bytes → ℕ → ℕ → M Sems Bytes
  unfolding get_entry_number lock release
  get_loop t key zero i = throw no_such_key
  get_loop t key (suc n) i =
      let rest = get_loop t key n (i + 1) in
      do
        lock sys i 1
        e ← get_entry_number t (t.hash key i)
        m ← read_mem
        if holds t key m e
            then (release sys i 1 >> pure (read_bytes m e.value t.value_size))
            else (release sys i 1 >> (if e.status == free then throw no_such_key else rest))

  unfoldable pub get : HashTable → Bytes → M Sems Bytes
  unfolding get_loop
  get t key =
      if ltb t.key_size (length key + 1) then throw invalid_key else get_loop t key t.n_records 0

  -- the loop of `set`
  unfoldable pub set_loop : HashTable → Bytes → Bytes → ℕ → ℕ → ℕ → M Sems (Unit {0})
  unfolding get_entry_number set_entry full_lock full_release
  set_loop t key value ttl zero i = throw no_free_space
  set_loop t key value ttl (suc n) i =
      let rest = set_loop t key value ttl n (i + 1) in
      do
        full_lock sys t.semaphore i 1
        e ← get_entry_number t (t.hash key i)
        m ← read_mem
        if takes t key m e
            then (change_mem (
                  set_entry t
                    (record { key = some key; value = some value; ttl = ttl; status = alive })
                    e.key)
                >> full_release sys t.semaphore i 1)
            else (full_release sys t.semaphore i 1 >> rest)

  unfoldable pub set : HashTable → Bytes → Bytes → ℕ → M Sems (Unit {0})
  unfolding set_loop
  set t key value ttl =
      if ltb t.key_size (length key + 1)
      then throw invalid_key
      else if ltb t.value_size (length value + 1)
      then throw invalid_value
      else set_loop t key value ttl t.n_records 0

  -- one pass of the `for` in `execute`, the garbage collector
  unfoldable pub collect_loop : HashTable → ℕ → ℕ → M Sems (Unit {0})
  unfolding get_entry_number set_entry full_lock full_release
  collect_loop t zero i = pure tt
  collect_loop t (suc n) i =
      let rest = collect_loop t n (i + 1) in
      do
        full_lock sys t.semaphore i 1
        e ← get_entry_number t i
        (if e.status == alive
            then change_mem (
                set_entry t
                  (if e.ttl == 0
                    then record { key = none; value = none; ttl = 0; status = removed }
                    else record { key = none; value = none; ttl = e.ttl - 1; status = alive })
                  e.key)
            else pure tt)
        full_release sys t.semaphore i 1
        rest

  unfoldable pub collect : HashTable → M Sems (Unit {0})
  unfolding collect_loop
  collect t = collect_loop t t.n_records 0
