-- ===== src/Cache/HashTable/Aging.antt =====
-- What one pass of the garbage collector does to the memory, record by record.
use native.Mathlib.Decide.{ℕ_discrete}
use mathlib.Core.Path.{subst}
use technosphere.Cache.HashTable.Layout.{Written, FieldFits, set_entry-Written}
use technosphere.Cache.HashTable.Lookup.{entry_of}
use technosphere.Cache.HashTable.Records.{place_of, records_apart, entry_at_congr}
use technosphere.Cache.HashTable.{HashTable, Entry, Source, record_size, alive, removed, set_entry}
use technosphere.Cache.Memory.{Memory, Agrees}
use technosphere.Common.{
  ℕ, zero, suc, ◌+◌, ◌-◌, ◌^◌, ◌≤◌, ◌<◌, ◌≡◌, ◌≢◌, ◌⊎◌, refl, sym, ap, ◌∙◌, inl, inr, none, arith,
  ◌==◌, if◌then◌else◌, Bool-cases, ltb,
}

-- What a pass makes of an entry: an alive one loses a second, or is removed if it had none left.
abbrev pub age : Entry → Entry
age e =
    if e.status == alive
    then (if e.ttl == 0
        then record e { ttl = 0; status = removed }
        else record e { ttl = e.ttl - 1; status = alive })
    else e

-- The source that the collector writes over an alive entry.
abbrev pub tick : Entry → Source
tick e =
    if e.ttl == 0
    then record { key = none; value = none; ttl = 0; status = removed }
    else record { key = none; value = none; ttl = e.ttl - 1; status = alive }

module _ (t : HashTable) where
  -- Record k is as it was.
  abbrev pub Unchanged : ℕ → Memory → Memory → Type 0
  Unchanged k m m' = Agrees m m' (place_of t k) (record_size t)

  -- Record k was aged: its key and value fields are as they were.
  pub record Aged (k : ℕ) (m m' : Memory) : Type 0 where
    pub entry : entry_of t m' k ≡ age (entry_of t m k)
    pub fields : Agrees m m' (place_of t k) (t.key_size + t.value_size)

  -- The memory after one round of the `for`.
  abbrev pub aged_memory : ℕ → Memory → Memory
  aged_memory k m =
      if (entry_of t m k).status == alive
      then set_entry t (tick (entry_of t m k)) (place_of t k) m
      else m

  -- Writing null fields keeps the key and the value.
  stamped :
      (src : Source) (k : ℕ) (m m' : Memory)
      → src.key ≡ none
      → src.value ≡ none
      → src.ttl < 2 ^ 32
      → Written t src (place_of t k) m m'
      → (entry_of t m' k ≡ record (entry_of t m k) { ttl = src.ttl; status = src.status })
        × Agrees m m' (place_of t k) (t.key_size + t.value_size)
  stamped src k m m' e f small w = (
    ground (arith, w.status, w.ttl small),
    λ q p r. elim (Bool-cases (ltb q (place_of t k + t.key_size))) [
      | inl h ↦ w.key_same e q p (ground arith)
      | inr h ↦ w.value_same f q (ground arith) (omega arith)
    ],
  )

  stamped-Aged :
      (src : Source) (k : ℕ) (m : Memory)
      → src.key ≡ none
      → src.value ≡ none
      → src.ttl < 2 ^ 32
      → age (entry_of t m k) ≡ record (entry_of t m k) { ttl = src.ttl; status = src.status }
      → Aged k m (set_entry t src (place_of t k) m)
  stamped-Aged src k m e f small same =
      let w =
        set_entry-Written t src (place_of t k) m (subst (λ x. FieldFits x t.key_size) (sym e) tt)
          (subst (λ x. FieldFits x t.value_size) (sym f) tt) in
      let (entry, fields) = stamped src k m _ e f small w in
      record { entry = entry ∙ sym same; fields = fields }

  aged_memory-Aged :
      (k : ℕ) (m : Memory) → (entry_of t m k).ttl < 2 ^ 32 → Aged k m (aged_memory k m)
  aged_memory-Aged k m small = elim (Bool-cases ((entry_of t m k).status == alive)) [
    | inr e ↦ rw e (record { entry = rw e; fields = λ q p r. refl })
    | inl e ↦ elim (Bool-cases ((entry_of t m k).ttl == 0)) [
      | inl z ↦ rw (e, z) (stamped-Aged _ k m refl refl (omega arith) (rw (e, z)))
      | inr z ↦ rw (e, z) (stamped-Aged _ k m refl refl (omega arith) (rw (e, z)))
    ]
  ]

  aged_memory-Unchanged : (k j : ℕ) (m : Memory) → j ≢ k → Unchanged j m (aged_memory k m)
  aged_memory-Unchanged k j m ne q lo hi = elim (Bool-cases ((entry_of t m k).status == alive)) [
    | inr e ↦ rw e
    | inl e ↦ elim (Bool-cases ((entry_of t m k).ttl == 0)) [
      | inl z ↦
          rw (e, z)
            ((set_entry-Written t _ (place_of t k) m tt tt).outside q
              (records_apart t j k q ne lo hi))
      | inr z ↦
          rw (e, z)
            ((set_entry-Written t _ (place_of t k) m tt tt).outside q
              (records_apart t j k q ne lo hi))
    ]
  ]

  -- The memory after the rounds for the n records from the i-th on.
  unfoldable pub aged_from : ℕ → ℕ → Memory → Memory
  aged_from zero i m = m
  aged_from (suc n) i m = aged_from n (i + 1) (aged_memory i m)

  pub aged_from-Unchanged :
      (n i j : ℕ) (m : Memory) → (j < i) ⊎ (i + n ≤ j) → Unchanged j m (aged_from n i m)
  unfolding aged_from
  aged_from-Unchanged zero i j m h q lo hi = refl
  aged_from-Unchanged (suc n) i j m h q lo hi =
      aged_from-Unchanged n (i + 1) j (aged_memory i m) (omega arith) q lo hi
      ∙ aged_memory-Unchanged i j m (omega arith) q lo hi

  -- The TTL fields hold 32 bits.
  abbrev pub HasTtls : ℕ → Memory → Type 0
  HasTtls n m = (k : ℕ) → k < n → (entry_of t m k).ttl < 2 ^ 32

  Aged-Unchanged : (k : ℕ) (m₀ m₁ m₂ : Memory) → Aged k m₀ m₁ → Unchanged k m₁ m₂ → Aged k m₀ m₂
  Aged-Unchanged k m₀ m₁ m₂ a u = record {
    entry = entry_at_congr t m₁ m₂ (place_of t k) u ∙ a.entry;
    fields = λ q p r. u q p (omega arith) ∙ a.fields q p r;
  }

  Unchanged-Aged : (k : ℕ) (m₀ m₁ m₂ : Memory) → Unchanged k m₀ m₁ → Aged k m₁ m₂ → Aged k m₀ m₂
  Unchanged-Aged k m₀ m₁ m₂ u a = record {
    entry = a.entry ∙ ap age (entry_at_congr t m₀ m₁ (place_of t k) u);
    fields = λ q p r. a.fields q p r ∙ u q p (omega arith);
  }

  pub aged_from-Aged :
      (n i k : ℕ) (m : Memory)
      → (entry_of t m k).ttl < 2 ^ 32
      → i ≤ k
      → k < i + n
      → Aged k m (aged_from n i m)
  unfolding aged_from
  aged_from-Aged zero i k m small lo hi = absurd (omega arith)
  aged_from-Aged (suc n) i k m small lo hi = elim (ℕ_discrete k i) [
    | yes e ↦ rw e (
        Aged-Unchanged i m (aged_memory i m) (aged_from n (i + 1) (aged_memory i m))
          (aged_memory-Aged i m (rw e at small))
          (aged_from-Unchanged n (i + 1) i (aged_memory i m) (inl (omega arith))))
    | no ne ↦
        let u = aged_memory-Unchanged i k m ne in
        Unchanged-Aged k m (aged_memory i m) (aged_from n (i + 1) (aged_memory i m)) u (
          aged_from-Aged n (i + 1) k (aged_memory i m)
            (subst (λ (e : Entry). e.ttl < 2 ^ 32)
              (sym (entry_at_congr t m (aged_memory i m) (place_of t k) u)) small)
            (omega arith) (omega arith))
  ]
