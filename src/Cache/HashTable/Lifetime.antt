-- ===== src/Cache/HashTable/Lifetime.antt =====
-- How long `get` returns what was set: the TTL of the record, in passes of the collector.
use technosphere.Cache.HashTable.Aging.{Aged}
use technosphere.Cache.HashTable.Lookup.{entry_of, lookup}
use technosphere.Cache.HashTable.Records.{place_of}
use technosphere.Cache.HashTable.{HashTable, Entry, holds, free, alive}
use technosphere.Cache.Memory.{Memory, strncmp_eq_congr, read_bytes, read_bytes_congr}
use technosphere.Common.Bytes.{Bytes}
use technosphere.Common.{
  ℕ, zero, suc, ◌+◌, ◌-◌, ◌<◌, ◌^◌, ◌≡◌, ◌≢◌, ap, inl, inr, true, false, some, arith, ◌==◌,
  Bool-cases, ◌&&◌, not,
}

module _ (t : HashTable) (q : Bytes) (m m' : Memory) where
  -- The probes of q find the same record, if it still holds q, and those before it neither hold q
  -- now nor became FREE.
  pub lookup_follows :
      (k : ℕ)
      → holds t q m' (entry_of t m' k) ≡ true
      → ((j : ℕ)
          → j < t.n_records
          → holds t q m (entry_of t m j) ≡ false
          → (entry_of t m j).status ≢ free
          → (holds t q m' (entry_of t m' j) ≡ false) × ((entry_of t m' j).status ≢ free))
      → ((key : Bytes) (i : ℕ) → t.hash key i < t.n_records)
      → (n i : ℕ) → lookup t m q n i ≡ some k
      → lookup t m' q n i ≡ some k
  unfolding lookup
  lookup_follows k there before range zero i h = cc
  lookup_follows k there before range (suc n) i h =
      let j = t.hash q i in
      elim (Bool-cases (holds t q m (entry_of t m j))) [
        | inl e ↦ let same : j ≡ k = ground arith in rw same (rw there)
        | inr e ↦ elim (Bool-cases ((entry_of t m j).status == free)) [
          | inl f ↦ absurd (ground arith)
          | inr f ↦
              let (a, b) = before j (range q i) e (ground arith) in
              rw a (ground (arith, lookup_follows k there before range n (i + 1)))
        ]
      ]

  -- Record k of q after a pass.
  pub holds-Aged :
      (k : ℕ)
      → Aged t k m m'
      → holds t q m' (entry_of t m' k)
        ≡ (holds t q m (entry_of t m k) && not ((entry_of t m k).ttl == 0))
  holds-Aged k a =
      let same =
        strncmp_eq_congr m m' (place_of t k) q t.key_size (λ x p r. a.fields x p (omega arith)) in
      let st = ap (λ (e : Entry). e.status) a.entry in ground (arith, same, st)

  pub value-Aged :
      (k : ℕ)
      → Aged t k m m'
      → read_bytes m' (place_of t k + t.key_size) t.value_size
        ≡ read_bytes m (place_of t k + t.key_size) t.value_size
  value-Aged k a =
      read_bytes_congr m m' (place_of t k + t.key_size) t.value_size
        (λ x p r. a.fields x (omega arith) (omega arith))

  pub status-Aged :
      (k : ℕ) → Aged t k m m' → (entry_of t m k).status ≢ free → (entry_of t m' k).status ≢ free
  status-Aged k a h = let st = ap (λ (e : Entry). e.status) a.entry in ground (arith, st)

  pub ttl-Aged :
      (k : ℕ)
      → Aged t k m m'
      → (entry_of t m k).status ≡ alive
      → (entry_of t m' k).ttl ≡ (entry_of t m k).ttl - 1
  ttl-Aged k a h = let u = ap (λ (e : Entry). e.ttl) a.entry in ground (arith, u)

  pub ttl_bound-Aged :
      (k : ℕ) → Aged t k m m' → (entry_of t m k).ttl < 2 ^ 32 → (entry_of t m' k).ttl < 2 ^ 32
  ttl_bound-Aged k a h = let u = ap (λ (e : Entry). e.ttl) a.entry in ground (arith, u)
