-- ===== src/Cache/HashTable/Lookup.antt =====
-- The probing loops over an unchanging memory: what `get` finds, and where `set` writes.
use technosphere.Cache.HashTable.Layout.{Written}
use technosphere.Cache.HashTable.Records.{place_of, records_apart, entry_at_congr, holds_congr}
use technosphere.Cache.HashTable.{
  HashTable, Entry, entry_at, record_size, holds, takes, free, alive,
}
use technosphere.Cache.Memory.{Memory, Agrees, strncmp_eq, strncmp_eq-Stores}
use technosphere.Common.Bytes.{Bytes, NoNul, c_str-NoNul, bytes_eq}
use technosphere.Common.{
  ℕ, zero, suc, ◌+◌, ◌≤◌, ◌<◌, ◌≡◌, ◌≢◌, refl, ap, inl, inr, true, Option, none, some, [], ◌∷◌,
  arith, ◌==◌, if◌then◌else◌, length, Bool-cases,
}

-- The entry of record k.
abbrev pub entry_of : HashTable → Memory → ℕ → Entry
entry_of t m k = entry_at t m (place_of t k)

module _ (t : HashTable) (m : Memory) (key : Bytes) where
  -- the number of the record whose value `get` returns, over n probes from the i-th
  unfoldable pub lookup : ℕ → ℕ → Option ℕ
  lookup zero i = none
  lookup (suc n) i =
      if holds t key m (entry_of t m (t.hash key i))
      then some (t.hash key i)
      else if (entry_of t m (t.hash key i)).status == free
      then none
      else lookup n (i + 1)

  -- the number of the record that `set` takes
  unfoldable pub place : ℕ → ℕ → Option ℕ
  place zero i = none
  place (suc n) i =
      if takes t key m (entry_of t m (t.hash key i)) then some (t.hash key i) else place n (i + 1)

  pub place-takes : (n i k : ℕ) → place n i ≡ some k → takes t key m (entry_of t m k) ≡ true
  unfolding place
  place-takes zero i k h = cc
  place-takes (suc n) i k h = elim (Bool-cases (takes t key m (entry_of t m (t.hash key i)))) [
    | inl e ↦ let q : t.hash key i ≡ k = ground arith in rw q at e
    | inr e ↦ place-takes n (i + 1) k (rw e at h)
  ]

  pub lookup-holds : (n i k : ℕ) → lookup n i ≡ some k → holds t key m (entry_of t m k) ≡ true
  unfolding lookup
  lookup-holds zero i k h = cc
  lookup-holds (suc n) i k h = elim (Bool-cases (holds t key m (entry_of t m (t.hash key i)))) [
    | inl e ↦ let q : t.hash key i ≡ k = ground arith in rw q at e
    | inr e ↦ lookup-holds n (i + 1) k (ground arith)
  ]

  -- Behind a FREE record of its probes the key is nowhere: nothing is missed by stopping there.
  abbrev pub NothingBehindFree : ℕ → ℕ → Type 0
  NothingBehindFree zero i = Unit
  NothingBehindFree (suc n) i =
      ((entry_of t m (t.hash key i)).status ≡ free → lookup n (i + 1) ≡ none)
      × NothingBehindFree n (i + 1)

-- A key that the API takes, and that is a C string.
pub record IsKey (t : HashTable) (key : Bytes) : Type 0 where
  pub no_nul : NoNul key
  pub short : length key + 1 ≤ t.key_size

-- Record k was written by `set key value ttl`.
abbrev pub Wrote : HashTable → Bytes → Bytes → ℕ → ℕ → Memory → Memory → Type 0
Wrote t key value ttl k =
    Written t (record { key = some key; value = some value; ttl = ttl; status = alive })
      (place_of t k)

-- The bytes of a record hold at most one key.
pub holds_one :
    (t : HashTable) (m : Memory) (a : ℕ) (key key' : Bytes) (n : ℕ)
    → NoNul key
    → NoNul key'
    → length key < n
    → length key' < n
    → strncmp_eq m a key n ≡ true
    → strncmp_eq m a key' n ≡ true
    → key ≡ key'
unfolding strncmp_eq
holds_one t m a key key' zero z z' l l' e e' = absurd (omega arith)
holds_one t m a [] [] (suc n) z z' l l' e e' = refl
holds_one t m a [] (c ∷ cs) (suc n) z z' l l' e e' = ground arith
holds_one t m a (b ∷ bs) [] (suc n) z z' l l' e e' = ground arith
holds_one t m a (b ∷ bs) (c ∷ cs) (suc n) z z' l l' e e' =
    ground (arith, holds_one t m (a + 1) bs cs n z.1 z'.1 (omega arith) (omega arith))

module _ (t : HashTable) (key value : Bytes) (ttl k : ℕ) (m m' : Memory)
    (w : Wrote t key value ttl k m m') (good : IsKey t key) where
  pub elsewhere : (j : ℕ) → j ≢ k → Agrees m m' (place_of t j) (record_size t)
  elsewhere j ne q lo hi = w.outside q (records_apart t j k q ne lo hi)

  pub entry_elsewhere : (j : ℕ) → j ≢ k → entry_of t m' j ≡ entry_of t m j
  entry_elsewhere j ne = entry_at_congr t m m' (place_of t j) (elsewhere j ne)

  pub holds_elsewhere :
      (q : Bytes) (j : ℕ) → j ≢ k → holds t q m' (entry_of t m' j) ≡ holds t q m (entry_of t m j)
  holds_elsewhere q j ne = holds_congr t m m' (place_of t j) (elsewhere j ne) q

  pub holds_there : (q : Bytes) → IsKey t q → holds t q m' (entry_of t m' k) ≡ bytes_eq key q
  holds_there q g =
      let plain = c_str-NoNul key good.no_nul in
      let s =
        strncmp_eq-Stores m' (place_of t k) key q t.key_size (rw plain at (w.key_set key refl))
          good.no_nul g.no_nul (omega arith) (omega arith) in
      ground (arith, w.status, s)

  pub status_elsewhere : (j : ℕ) → j ≢ k → (entry_of t m' j).status ≡ (entry_of t m j).status
  status_elsewhere j ne = ap (λ (e : Entry). e.status) (entry_elsewhere j ne)
