-- ===== src/Cache/Tests.antt =====
-- A small table for the tests of the cache, on a kernel that keeps a function of values.
mod Records
mod Sharing
mod Protocol
use technosphere.Cache.HashTable.Aging.{Aged, HasTtls}
use technosphere.Cache.HashTable.Collect.{collect-Aged}
use technosphere.Cache.HashTable.Expiry.{get-passes-set}
use technosphere.Cache.HashTable.Passes.{passes}
use technosphere.Cache.HashTable.Locks.{IsIdle}
use technosphere.Cache.HashTable.Lookup.{IsKey, lookup, place}
use technosphere.Cache.HashTable.Map.{IsValue, reply, get-set, get-set_ne, set-IsTidy, IsTidy}
use technosphere.Cache.HashTable.Runs.{
  IsSetUp, IsIdleState, written, got, put, get-lookup, set-place,
}
use technosphere.Cache.HashTable.Setup.{
  main_table, main_table-IsSetUp, probe-distinct, zeroed-IsTidy,
}
use technosphere.Cache.HashTable.Writes.{ProbesDistinct}
use technosphere.Cache.HashTable.{HashTable, get, set, collect}
use technosphere.Cache.Machine.{State, done, thrown, no_such_key, invalid_key, invalid_value}
use technosphere.Cache.Memory.{padded, read_unsigned}
use technosphere.Cache.Semaphore.{Semaphore, Short, plus, minus, Sembuf, SysV}
use technosphere.Common.Bytes.{Bytes, codes, c_str, NoNul}
use technosphere.Common.{
  ℕ, zero, suc, ◌+◌, ◌-◌, ◌*◌, ◌%◌, ◌^◌, ◌≤◌, ◌<◌, ◌≡◌, ◌≢◌, refl, ap, get_or, true, false, Option,
  none, some, List, [], ◌∷◌, arith, ltb, ◌==◌, if◌then◌else◌, length,
}

abbrev pub Values : Type 0
Values = ℕ → ℕ

abbrev pub raise : ℕ → ℕ → Values → Values
raise i k v j = if j == i then v j + k else v j

abbrev pub lower : ℕ → ℕ → Values → Values
lower i k v j = if j == i then v j - k else v j

abbrev pub one_op : Sembuf → Short → Values → Option Values
one_op b (plus k) v = some (raise b.sem_num k v)
one_op b (minus k) v = if ltb (v b.sem_num) k then none else some (lower b.sem_num k v)

abbrev pub all_ops : List Sembuf → Values → Option Values
all_ops [] v = some v
all_ops (b ∷ bs) v = elim (one_op b b.sem_op v) [ none ↦ none | some w ↦ all_ops bs w ]

pub kernel_plus :
    (b : Sembuf) (k : ℕ) (s : Values)
    → 0 < k
    → b.sem_op ≡ plus k
    → s b.sem_num + k < 2 ^ 15
    → (s' : Values) × (all_ops (b ∷ []) s ≡ some s')
      × ((j : ℕ) → s' j ≡ (if j == b.sem_num then s j + k else s j))
kernel_plus b k s pos e h = (raise b.sem_num k s, rw e, λ j. refl)

pub kernel_minus :
    (b : Sembuf) (k : ℕ) (s : Values)
    → 0 < k
    → b.sem_op ≡ minus k
    → k ≤ s b.sem_num
    → (s' : Values) × (all_ops (b ∷ []) s ≡ some s')
      × ((j : ℕ) → s' j ≡ (if j == b.sem_num then s j - k else s j))
kernel_minus b k s pos e h =
    let f : ltb (s b.sem_num) k ≡ false = ground arith in
    (lower b.sem_num k s, ground (arith, f), λ j. refl)

pub kernel_wait :
    (b : Sembuf) (k : ℕ) (s : Values)
    → 0 < k
    → b.sem_op ≡ minus k
    → s b.sem_num < k
    → all_ops (b ∷ []) s ≡ none
kernel_wait b k s pos e h = let f : ltb (s b.sem_num) k ≡ true = ground arith in ground (arith, f)

abbrev pub kernel : SysV
kernel = record {
  Sems = Values;
  value = λ s. s;
  semop = all_ops;
  semop-plus = kernel_plus;
  semop-minus = kernel_minus;
  semop-wait = kernel_wait;
}

abbrev pub table : HashTable
table = record {
  base = 100;
  data_size = 40;
  n_records = 3;
  key_size = 4;
  value_size = 4;
  hash = λ key i. (length key + i) % 3;
  semaphore = record { n = 3; max_value = 4 };
}

pub table-IsSetUp : IsSetUp table
table-IsSetUp = record {
  laid_out = omega arith;
  in_range = λ key i. omega arith;
  locked = record {
    enough = omega arith;
    numbered = omega arith;
    some_room = omega arith;
    short_value = omega arith;
  };
}

pub table-ProbesDistinct : ProbesDistinct table
table-ProbesDistinct q i j e hi hj = omega arith

abbrev pub idle_state : State Values
idle_state = record { mem = λ a. 0; sems = λ j. 4 }

pub idle_state-IsIdle : IsIdleState kernel table table-IsSetUp idle_state
idle_state-IsIdle j h = refl

pub ab-IsKey : IsKey table (codes "ab")
ab-IsKey = record { no_nul = (refl, (refl, tt)); short = omega arith }

pub xy-IsKey : IsKey table (codes "xy")
xy-IsKey = record { no_nul = (refl, (refl, tt)); short = omega arith }

pub val-IsValue : IsValue table (codes "val")
val-IsValue = record { no_nul = (refl, (refl, (refl, tt))); short = omega arith }

unfoldable pub program : Unit {0}
unfolding get set c_str padded
program = tt

-- "ab" goes to record 2, under semaphore 0.
abbrev pub stored : State Values
stored = record {
  mem = written table (codes "ab") (codes "val") 7 (λ a. 0) 2;
  sems = raise 0 4 (lower 0 4 (λ j. 4));
}

pub set_runs : set kernel table (codes "ab") (codes "val") 7 idle_state ≡ done tt stored
unfolding program
set_runs = refl

pub stored-IsIdle : IsIdleState kernel table table-IsSetUp stored
stored-IsIdle j h = ground arith
