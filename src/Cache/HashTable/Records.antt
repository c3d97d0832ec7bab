-- ===== src/Cache/HashTable/Records.antt =====
-- The records of the table: their places, and what depends on one record alone.
use native.Mathlib.Nat.{mul-mod_left}
use technosphere.Cache.HashTable.Layout.{read_unsigned_congr}
use technosphere.Cache.HashTable.{HashTable, record_size, entry_at, get_entry_number, holds}
use technosphere.Cache.Machine.{State, done}
use technosphere.Cache.Memory.{Memory, Agrees, strncmp_eq_congr, read_bytes, read_bytes_congr}
use technosphere.Common.Bytes.{Bytes}
use technosphere.Common.{
  ℕ, ◌+◌, ◌-◌, ◌*◌, ◌≤◌, ◌<◌, ◌≡◌, ◌≢◌, ◌⊎◌, inl, inr, false, arith, ltb, leb, Bool-cases,
}

-- The address of record number k.
abbrev pub place_of : HashTable → ℕ → ℕ
place_of t k = t.base + k * record_size t

-- Two records have no byte in common.
pub records_apart :
    (t : HashTable) (j k q : ℕ)
    → j ≢ k
    → place_of t j ≤ q
    → q < place_of t j + record_size t
    → (q < place_of t k) ⊎ (place_of t k + record_size t ≤ q)
records_apart t j k q ne lo hi = elim (Bool-cases (ltb j k)) [
  | inl e ↦
      let h : j < k = ground arith in
      let p : (j + 1) * record_size t ≤ k * record_size t = grind arith in inl (omega arith)
  | inr e ↦
      let h : k < j = ground arith in
      let p : (k + 1) * record_size t ≤ j * record_size t = grind arith in inr (omega arith)
]

-- What depends on one record depends on its bytes alone.
module _ (t : HashTable) (m m' : Memory) (a : ℕ) (same : Agrees m m' a (record_size t)) where
  pub entry_at_congr : entry_at t m' a ≡ entry_at t m a
  entry_at_congr =
      let s : m' (a + t.key_size + t.value_size + 4) ≡ m (a + t.key_size + t.value_size + 4) =
        same _ (omega arith) (omega arith) in
      let u =
        read_unsigned_congr m m' (a + t.key_size + t.value_size)
          (λ q p r. same q (omega arith) (omega arith)) in
      cc (s, u)

  pub holds_congr :
      (key : Bytes) → holds t key m' (entry_at t m' a) ≡ holds t key m (entry_at t m a)
  holds_congr key = cc (
    same (a + t.key_size + t.value_size + 4) (omega arith) (omega arith),
    strncmp_eq_congr m m' a key t.key_size (λ q p r. same q p (omega arith)),
  )

  pub value_congr :
      read_bytes m' (a + t.key_size) t.value_size ≡ read_bytes m (a + t.key_size) t.value_size
  value_congr =
      read_bytes_congr m m' (a + t.key_size) t.value_size
        (λ q p r. same q (omega arith) (omega arith))

-- `HashTable::HashTable` checks this.
abbrev pub IsLaidOut : HashTable → Type 0
IsLaidOut t = t.n_records * record_size t ≤ t.data_size

-- The place of a record that the file has room for is accepted.
pub get_entry_number_lem :
    {S : Type 0} (t : HashTable) (k : ℕ) (s : State S)
    → IsLaidOut t
    → k < t.n_records
    → get_entry_number t k s ≡ done (entry_at t s.mem (place_of t k)) s
unfolding get_entry_number
get_entry_number_lem t k s laid h =
    let p : (k + 1) * record_size t ≤ t.n_records * record_size t = grind arith in
    let d : place_of t k - t.base ≡ k * record_size t = omega arith in
    let z = mul-mod_left k (record_size t) in
    let low : ltb (place_of t k) t.base ≡ false = ground arith in
    let high : leb (t.base + t.data_size) (place_of t k) ≡ false = ground arith in
    rw (low, high, d, z)
