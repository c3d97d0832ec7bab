-- ===== src/Cache/HashTable/Map.antt =====
-- The table as a map: what `set` does to what `get` returns, for the same and for another key.
use mathlib.Core.Path.{subst}
use technosphere.Cache.HashTable.Locks.{IsIdle}
use technosphere.Cache.HashTable.Layout.{set_entry-Written, length-c_str}
use technosphere.Cache.HashTable.Lookup.{
  lookup, place, place-takes, NothingBehindFree, IsKey, Wrote, lookup-holds, elsewhere,
}
use technosphere.Cache.HashTable.Records.{place_of, value_congr}
use technosphere.Cache.HashTable.Runs.{IsSetUp, IsIdleState, written, get-lookup, set-place}
use technosphere.Cache.HashTable.Writes.{
  ProbesDistinct, not_after, lookup-set_self, lookup-set_ne, NothingBehindFree-set_ne,
  NothingBehindFree-set_self,
}
use technosphere.Cache.HashTable.{HashTable, get, set}
use technosphere.Cache.Machine.{State, Outcome, done, thrown, no_such_key}
use technosphere.Cache.Memory.{Memory, padded, read_bytes, read_bytes-Stores}
use technosphere.Cache.Semaphore.{SysV}
use technosphere.Common.Bytes.{Bytes, NoNul, c_str-NoNul, bytes_eq, bytes_eq_iff}
use technosphere.Common.{
  ℕ, ◌+◌, ◌≤◌, ◌≡◌, ◌≢◌, refl, sym, ◌∙◌, inl, inr, Option, none, some, arith, Bool-cases,
  Option-cases, length,
}

-- No key is to be found behind a FREE record of its probes. It holds of a zeroed file.
abbrev pub IsTidy : HashTable → Memory → Type 0
IsTidy t m = (q : Bytes) → IsKey t q → NothingBehindFree t m q t.n_records 0

-- A call of `get` that found a value, or none.
abbrev pub reply : {S : Type 0} → Option Bytes → State S → Outcome S Bytes
reply none s = thrown no_such_key s
reply (some v) s = done v s

-- A value that the API takes, and that is a C string.
pub record IsValue (t : HashTable) (value : Bytes) : Type 0 where
  pub no_nul : NoNul value
  pub short : length value + 1 ≤ t.value_size

module _ (t : HashTable) (key value : Bytes) (ttl k : ℕ) (m : Memory) (good : IsKey t key)
    (fits : IsValue t value) where
  pub written-Wrote : Wrote t key value ttl k m (written t key value ttl m k)
  written-Wrote =
      set_entry-Written t _ (place_of t k) m (omega (arith, length-c_str key, good.short))
        (omega (arith, length-c_str value, fits.short))

module _ (sys : SysV) (t : HashTable) (up : IsSetUp t) where
  open sys use {Sems}

  -- A successful `set` wrote the record that `place` names.
  pub record SetWrote (key value : Bytes) (ttl : ℕ) (s s' : State Sems) : Type 0 where
    pub number : ℕ
    pub placed : place t s.mem key t.n_records 0 ≡ some number
    pub memory : s'.mem ≡ written t key value ttl s.mem number
    pub idle : IsIdleState sys t up s'

  pub set-SetWrote :
      (key value : Bytes) (ttl : ℕ) (s s' : State Sems)
      → IsIdleState sys t up s
      → set sys t key value ttl s ≡ done tt s'
      → SetWrote key value ttl s s'
  set-SetWrote key value ttl s s' idle h =
      let (u, run, v) = set-place sys t up key value ttl s idle in
      elim (Option-cases (place t s.mem key t.n_records 0)) [
        | inl e ↦ absurd (ground (arith, run))
        | inr (k, e) ↦ record {
          number = k;
          placed = e;
          memory = ground (arith, run);
          idle =
              let w : s'.sems ≡ u = ground (arith, run) in
              subst (IsIdle sys t.semaphore.max_value t.n_records) (sym w) v;
        }
      ]

  -- The value field of the record just written is the value, padded with NULs.
  pub value_there :
      (key value : Bytes) (ttl k : ℕ) (m m' : Memory)
      → Wrote t key value ttl k m m'
      → IsValue t value
      → read_bytes m' (place_of t k + t.key_size) t.value_size ≡ padded value t.value_size
  value_there key value ttl k m m' w fits =
      read_bytes-Stores m' (place_of t k + t.key_size) value t.value_size
        (rw (c_str-NoNul value fits.no_nul) at (w.value_set value refl))

  module _ (key value : Bytes) (ttl : ℕ) (s s' : State Sems) (idle : IsIdleState sys t up s)
      (good : IsKey t key) (fits : IsValue t value)
      (ran : set sys t key value ttl s ≡ done tt s') where
    pub wrote : (r : SetWrote key value ttl s s') → Wrote t key value ttl r.number s.mem s'.mem
    wrote r =
        subst (Wrote t key value ttl r.number s.mem) (sym r.memory)
          (written-Wrote t key value ttl r.number s.mem good fits)

    -- After a `set` that returned, in a table that is set up and with every lock free, `get` of
    -- the key returns the value that was set, padded with NULs to the size of the field, if the
    -- key and the value are C strings that fit. Nothing is assumed of what the file holds.
    pub get-set :
        (u : Sems) × (get sys t key s' ≡ done (padded value t.value_size) (record s' { sems = u }))
        × IsIdle sys t.semaphore.max_value t.n_records u
    get-set =
        let r = set-SetWrote key value ttl s s' idle ran in
        let w = wrote r in
        let found =
          lookup-set_self t key value ttl r.number s.mem s'.mem w good t.n_records 0 r.placed in
        let (u, run, v) = get-lookup sys t up key s' r.idle in
        (
          u,
          ground (
            arith,
            run,
            good.short,
            found,
            value_there key value ttl r.number s.mem s'.mem w fits,
          ),
          v,
        )

    -- Under the conditions of `get-set`, a `set` that returned changes what `get` returns for no
    -- other key that is a C string and fits, in a tidy file.
    pub get-set_ne :
        (q : Bytes)
        → IsKey t q
        → key ≢ q
        → IsTidy t s.mem
        → (o : Option Bytes) × (u : Sems) × (u' : Sems) × (get sys t q s
            ≡ reply o (record s { sems = u }))
          × (get sys t q s' ≡ reply o (record s' { sems = u' }))
    get-set_ne q other ne tidy =
        let r = set-SetWrote key value ttl s s' idle ran in
        let w = wrote r in
        let taken = place-takes t s.mem key t.n_records 0 r.number r.placed in
        let same =
          lookup-set_ne t key value ttl r.number s.mem s'.mem w good q other ne taken t.n_records 0
            (tidy q other) in
        let (u, run, _) = get-lookup sys t up q s idle in
        let (u', run', _) = get-lookup sys t up q s' r.idle in
        elim (Option-cases (lookup t s.mem q t.n_records 0)) [
          | inl e ↦ (
            none,
            u,
            u',
            ground (arith, run, other.short),
            ground (arith, run', other.short, same),
          )
          | inr (j, e) ↦
              let there = lookup-holds t s'.mem q t.n_records 0 j (same ∙ e) in
              let apart : j ≢ r.number = λ f.
                cc (
                  there,
                  not_after t key value ttl r.number s.mem s'.mem w good q other ne taken,
                ) in
              let kept =
                value_congr t s.mem s'.mem (place_of t j)
                  (elsewhere t key value ttl r.number s.mem s'.mem w good j apart) in
              (
                some (read_bytes s.mem (place_of t j + t.key_size) t.value_size),
                u,
                u',
                ground (arith, run, other.short),
                ground (arith, run', other.short, same, kept),
              )
        ]

    -- Under the conditions of `get-set`, the file stays tidy after a `set` that returned, if the
    -- probes of a key go to different records.
    pub set-IsTidy : ProbesDistinct t → IsTidy t s.mem → IsTidy t s'.mem
    set-IsTidy distinct tidy q other =
        let r = set-SetWrote key value ttl s s' idle ran in
        let w = wrote r in
        let taken = place-takes t s.mem key t.n_records 0 r.number r.placed in
        elim (Bool-cases (bytes_eq key q)) [
          | inl e ↦
              let same : key ≡ q = (bytes_eq_iff key q).0 e in
              subst (λ x. NothingBehindFree t s'.mem x t.n_records 0) same
                (NothingBehindFree-set_self t key value ttl r.number s.mem s'.mem w good distinct
                  t.n_records 0 (omega arith) r.placed (tidy key good))
          | inr e ↦
              let ne : key ≢ q = λ f. cc ((bytes_eq_iff key q).1 f) in
              NothingBehindFree-set_ne t key value ttl r.number s.mem s'.mem w good q other ne taken
                t.n_records 0 (tidy q other)
        ]
