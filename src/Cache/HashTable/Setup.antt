-- ===== src/Cache/HashTable/Setup.antt =====
-- sphere_prac/p5/main.cpp: the table that `main` builds has what the other theorems ask for.
use technosphere.Cache.HashTable.Lookup.{NothingBehindFree}
use technosphere.Cache.HashTable.Map.{IsTidy}
use technosphere.Cache.HashTable.Passes.{lookup-none}
use technosphere.Cache.HashTable.Runs.{IsSetUp}
use technosphere.Cache.HashTable.{HashTable, hash_table}
use technosphere.Cache.Semaphore.{Semaphore}
use technosphere.Common.Bytes.{Bytes}
use technosphere.Common.{
  ℕ, zero, suc, ◌+◌, ◌*◌, ◌%◌, ◌^◌, ◌≤◌, ◌<◌, ◌≡◌, ◌≢◌, Option, some, arith, refl,
}

-- The constants of `main.cpp`.
abbrev pub n_coworkers : ℕ
n_coworkers = 4

abbrev pub key_size : ℕ
key_size = 32

abbrev pub value_size : ℕ
value_size = 256

abbrev pub n_records : ℕ
n_records = 3000

abbrev pub data_size : ℕ
data_size = n_records * (key_size + value_size + 4 + 1)

-- The λ that `main` passes; `std_hash` is `std::hash<std::string>`, and the sum is a `size_t`.
unfoldable pub probe : (Bytes → ℕ) → Bytes → ℕ → ℕ
probe std_hash key k = (std_hash key + k) % 2 ^ 64 % n_records

abbrev pub semaphore : Semaphore
semaphore = record { n = n_records; max_value = n_coworkers }

abbrev pub main_table : ℕ → (Bytes → ℕ) → Option HashTable
main_table base std_hash =
    hash_table base semaphore data_size n_records key_size value_size (probe std_hash)

-- The constructor accepts what `main` gives it, and the table is laid out in the file, its hash
-- names records only, and the set has a semaphore for each record, as far as the kernel makes it.
pub main_table-IsSetUp :
    (base : ℕ) (std_hash : Bytes → ℕ)
    → (t : HashTable) × (main_table base std_hash ≡ some t) × IsSetUp t
unfolding hash_table probe
main_table-IsSetUp base std_hash = (
  record {
    base = base;
    data_size = data_size;
    n_records = n_records;
    key_size = key_size;
    value_size = value_size;
    hash = probe std_hash;
    semaphore = semaphore;
  },
  refl,
  record {
    laid_out = omega arith;
    in_range = λ key i. omega arith;
    locked = record {
      enough = omega arith;
      numbered = omega arith;
      some_room = omega arith;
      short_value = omega arith;
    };
  },
)

-- Two different probes of a key go to different records, as the numbers of the probes stay below the
-- number of records, unless `std::hash` is so near 2^64 that the sum wraps.
pub probe-distinct :
    (std_hash : Bytes → ℕ) (q : Bytes) (i j : ℕ)
    → std_hash q + n_records ≤ 2 ^ 64
    → i < n_records
    → j < n_records
    → i ≢ j
    → probe std_hash q i ≢ probe std_hash q j
unfolding probe
probe-distinct std_hash q i j h hi hj ne e = ne (omega arith)

-- A file of zeros is tidy, if the hash goes to records only: every record is FREE.
pub zeroed-IsTidy :
    (t : HashTable) → ((key : Bytes) (i : ℕ) → t.hash key i < t.n_records) → IsTidy t (λ a. 0)
zeroed-IsTidy t range q good = tidy t.n_records 0
  where
    tidy : (n i : ℕ) → NothingBehindFree t (λ a. 0) q n i
    tidy zero i = tt
    tidy (suc n) i = (λ f. lookup-none t q (λ a. 0) range (λ j h. refl) n (i + 1), tidy n (i + 1))
