-- ===== src/Cache/HashTable/Expiry.antt =====
-- The time that a value stays: exactly as many passes of the collector as its TTL says.
use mathlib.Core.Path.{subst}
use native.Mathlib.Decide.{ℕ_discrete}
use technosphere.Cache.HashTable.Aging.{HasTtls}
use technosphere.Cache.HashTable.Lookup.{place, IsKey, holds_elsewhere, entry_elsewhere}
use technosphere.Cache.HashTable.Map.{IsValue, set-SetWrote, wrote, value_there}
use technosphere.Cache.HashTable.Runs.{IsSetUp, IsIdleState}
use technosphere.Cache.HashTable.Writes.{lookup-set_self}
use technosphere.Cache.HashTable.{HashTable, Entry, get, set}
use technosphere.Cache.Machine.{State, done, thrown, no_such_key}
use technosphere.Cache.Memory.{padded}
use technosphere.Cache.Semaphore.{SysV}
use technosphere.Common.Bytes.{Bytes}
use technosphere.Common.{ℕ, ◌+◌, ◌-◌, ◌≤◌, ◌<◌, ◌^◌, ◌≡◌, sym, ◌∙◌, some, arith}
use technosphere.Cache.HashTable.Passes.{
  passes, passes-last, place-lt, IsSole, Lives, Lives-passes, Lives-get, expires,
}

module _ (sys : SysV) (t : HashTable) (up : IsSetUp t) where
  open sys use {Sems}

  module _ (key value : Bytes) (ttl : ℕ) (s s' : State Sems) (idle : IsIdleState sys t up s)
      (good : IsKey t key) (fits : IsValue t value) (ran : set sys t key value ttl s ≡ done tt s')
      (small : ttl < 2 ^ 32) (ttls : HasTtls t t.n_records s.mem)
      (alone : (k : ℕ) → place t s.mem key t.n_records 0 ≡ some k → IsSole t key k s.mem) where
    set-Lives : (k : ℕ) × Lives sys t up key (padded value t.value_size) k ttl s'
    set-Lives =
        let r = set-SetWrote sys t up key value ttl s s' idle ran in
        let w = wrote sys t up key value ttl s s' idle good fits ran r in
        let k = r.number in
        (
          k,
          record {
            inside = place-lt t s.mem key up.in_range t.n_records 0 k r.placed;
            found = lookup-set_self t key value ttl k s.mem s'.mem w good t.n_records 0 r.placed;
            left = w.ttl small;
            value = value_there sys t up key value ttl k s.mem s'.mem w fits;
            sole = λ j h ne.
                holds_elsewhere t key value ttl k s.mem s'.mem w good key j ne
                ∙ alone k r.placed j h ne;
            ttls = λ j h. elim (ℕ_discrete j k) [
              | yes e ↦ rw (e, w.ttl small) small
              | no ne ↦
                  subst (λ (e : Entry). e.ttl < 2 ^ 32)
                    (sym (entry_elsewhere t key value ttl k s.mem s'.mem w good j ne)) (ttls j h)
            ];
            idle = r.idle;
          },
        )

    -- A value that a `set` stored stays for as many passes of the collector as its TTL: `get`
    -- returns it, padded with NULs, after n passes, n ≤ ttl. Provided that the table is set up and
    -- every lock free, the key and the value are C strings that fit, the TTL and those of all
    -- records are below 2^32, and no record but the one taken held the key when it was set.
    pub get-passes-set :
        (n : ℕ)
        → n ≤ ttl
        → (s'' : State Sems) × (u : Sems) × (passes sys t n s' ≡ done tt s'')
          × (get sys t key s'' ≡ done (padded value t.value_size) (record s'' { sems = u }))
    get-passes-set n h =
        let v = padded value t.value_size in
        let (k, l) = set-Lives in
        let (s₁, run, l₁) = Lives-passes sys t up key v k n ttl s' h l in
        let (u, got) = Lives-get sys t up key v k (ttl - n) s₁ good l₁ in (s₁, u, run, got)

    -- And no longer: after ttl + 1 passes `get` throws NO_SUCH_KEY, under the conditions of `get-
    -- passes-set`: the table set up, every lock free, a key and a value that are C strings and
    -- fit, TTLs below 2^32, and no record but the one taken that held the key when it was set.
    pub get-passes-set_expired :
        (s'' : State Sems) × (u : Sems) × (passes sys t (ttl + 1) s' ≡ done tt s'')
        × (get sys t key s'' ≡ thrown no_such_key (record s'' { sems = u }))
    get-passes-set_expired =
        let v = padded value t.value_size in
        let (k, l) = set-Lives in
        let (s₁, run, l₁) = Lives-passes sys t up key v k ttl ttl s' (omega arith) l in
        let z : ttl - ttl ≡ 0 = omega arith in
        let (s₂, u, last, got) = expires sys t up key v k s₁ good (rw z at l₁) in
        (s₂, u, passes-last sys t up ttl s' s₁ s₂ run last, got)
