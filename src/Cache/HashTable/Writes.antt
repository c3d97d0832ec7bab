-- ===== src/Cache/HashTable/Writes.antt =====
-- How one `set` changes what the probes of each key find.
use native.Mathlib.Decide.{ℕ_discrete}
use technosphere.Cache.HashTable.Lookup.{
  entry_of, lookup, place, NothingBehindFree, IsKey, Wrote, holds_one, holds_elsewhere, holds_there,
  status_elsewhere,
}
use technosphere.Cache.HashTable.Records.{place_of}
use technosphere.Cache.HashTable.{HashTable, holds, takes}
use technosphere.Cache.Memory.{Memory}
use technosphere.Common.Bytes.{Bytes, bytes_eq_iff}
use technosphere.Common.{
  ℕ, zero, suc, ◌+◌, ◌≤◌, ◌<◌, ◌≡◌, ◌≢◌, refl, sym, ◌∙◌, true, false, some, arith,
}

-- Two of the first `n_records` probes of one key never meet.
abbrev pub ProbesDistinct : HashTable → Type 0
ProbesDistinct t =
    (q : Bytes) (i j : ℕ) → t.hash q i ≡ t.hash q j → i < t.n_records → j < t.n_records → i ≡ j

module _ (t : HashTable) (key value : Bytes) (ttl k : ℕ) (m m' : Memory)
    (w : Wrote t key value ttl k m m') (good : IsKey t key) where
  -- What was set is found, under the same key.
  pub lookup-set_self : (n i : ℕ) → place t m key n i ≡ some k → lookup t m' key n i ≡ some k
  unfolding place lookup
  lookup-set_self zero i h = cc
  lookup-set_self (suc n) i h = elim (ℕ_discrete (t.hash key i) k) [
    | yes e ↦
        let self = (bytes_eq_iff key key).1 refl in
        rw e (ground (arith, holds_there t key value ttl k m m' w good key good))
    | no ne ↦ ground (
      arith,
      holds_elsewhere t key value ttl k m m' w good key (t.hash key i) ne,
      status_elsewhere t key value ttl k m m' w good (t.hash key i) ne,
      lookup-set_self n (i + 1),
    )
  ]

  module _ (q : Bytes) (other : IsKey t q) (ne : key ≢ q)
      (taken : takes t key m (entry_of t m k) ≡ true) where
    -- Record k holds at most one of the two keys.
    exclusive : holds t q m (entry_of t m k) ≡ true → holds t key m (entry_of t m k) ≡ true → ⊥
    exclusive h h' = ne (
        holds_one t m (place_of t k) key q t.key_size good.no_nul other.no_nul
          (omega (arith, good.short)) (omega (arith, other.short)) (ground arith) (ground arith))

    pub not_after : holds t q m' (entry_of t m' k) ≡ false
    not_after =
        ground (arith, holds_there t key value ttl k m m' w good q other, bytes_eq_iff key q)

    pub lookup-set_ne :
        (n i : ℕ) → NothingBehindFree t m q n i → lookup t m' q n i ≡ lookup t m q n i
    unfolding lookup
    lookup-set_ne zero i h = refl
    lookup-set_ne (suc n) i h = elim (ℕ_discrete (t.hash q i) k) [
      | yes e ↦
          rw e
            (ground (arith, not_after, w.status, exclusive, rw e at h.0, lookup-set_ne n (i + 1)))
      | no apart ↦ ground (
        arith,
        holds_elsewhere t key value ttl k m m' w good q (t.hash q i) apart,
        status_elsewhere t key value ttl k m m' w good (t.hash q i) apart,
        lookup-set_ne n (i + 1),
      )
    ]

    pub NothingBehindFree-set_ne :
        (n i : ℕ) → NothingBehindFree t m q n i → NothingBehindFree t m' q n i
    NothingBehindFree-set_ne zero i h = tt
    NothingBehindFree-set_ne (suc n) i h = (
      elim (ℕ_discrete (t.hash q i) k) [
        | yes e ↦ rw e (λ f. absurd (ground (arith, w.status)))
        | no apart ↦ λ f.
            lookup-set_ne n (i + 1) h.1
            ∙ h.0 (sym (status_elsewhere t key value ttl k m m' w good (t.hash q i) apart) ∙ f)
      ],
      NothingBehindFree-set_ne n (i + 1) h.1,
    )

  -- No probe of the n from the i-th on reaches record k.
  abbrev Avoids : ℕ → ℕ → Type 0
  Avoids zero i = Unit
  Avoids (suc n) i = (t.hash key i ≢ k) × Avoids n (i + 1)

  lookup-Avoids : (n i : ℕ) → Avoids n i → lookup t m' key n i ≡ lookup t m key n i
  unfolding lookup
  lookup-Avoids zero i h = refl
  lookup-Avoids (suc n) i h = ground (
    arith,
    holds_elsewhere t key value ttl k m m' w good key (t.hash key i) h.0,
    status_elsewhere t key value ttl k m m' w good (t.hash key i) h.0,
    lookup-Avoids n (i + 1) h.1,
  )

  NothingBehindFree-Avoids :
      (n i : ℕ) → Avoids n i → NothingBehindFree t m key n i → NothingBehindFree t m' key n i
  NothingBehindFree-Avoids zero i a h = tt
  NothingBehindFree-Avoids (suc n) i a h = (
    λ f.
        lookup-Avoids n (i + 1) a.1
        ∙ h.0 (sym (status_elsewhere t key value ttl k m m' w good (t.hash key i) a.0) ∙ f),
    NothingBehindFree-Avoids n (i + 1) a.1 h.1,
  )

  -- The probes of the key go to different records.
  module _ (distinct : ProbesDistinct t) where
    Avoids-after :
        (first : ℕ)
        → t.hash key first ≡ k
        → (n i : ℕ) → first < i
        → i + n ≤ t.n_records
        → Avoids n i
    Avoids-after first e zero i lt le = tt
    Avoids-after first e (suc n) i lt le = (
      λ f. absurd (omega (arith, distinct key first i (e ∙ sym f) (omega arith) (omega arith))),
      Avoids-after first e n (i + 1) (omega arith) (omega arith),
    )

    pub NothingBehindFree-set_self :
        (n i : ℕ)
        → i + n ≤ t.n_records
        → place t m key n i ≡ some k
        → NothingBehindFree t m key n i
        → NothingBehindFree t m' key n i
    unfolding place
    NothingBehindFree-set_self zero i le h s = tt
    NothingBehindFree-set_self (suc n) i le h s = elim (ℕ_discrete (t.hash key i) k) [
      | yes e ↦ (
        rw e (λ f. absurd (ground (arith, w.status))),
        NothingBehindFree-Avoids n (i + 1) (Avoids-after i e n (i + 1) (omega arith) (omega arith))
            s.1,
      )
      | no apart ↦ (
        λ f. ground (arith, status_elsewhere t key value ttl k m m' w good (t.hash key i) apart),
        NothingBehindFree-set_self n (i + 1) (omega arith) (ground arith) s.1,
      )
    ]
