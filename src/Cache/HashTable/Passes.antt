-- ===== src/Cache/HashTable/Passes.antt =====
-- What a pass of the collector does to a value with time left, and to one without.
use native.Mathlib.Decide.{ℕ_discrete}
use technosphere.Cache.HashTable.Aging.{Aged, HasTtls}
use technosphere.Cache.HashTable.Collect.{collect-Aged}
use technosphere.Cache.HashTable.Lifetime.{
  lookup_follows, holds-Aged, value-Aged, status-Aged, ttl-Aged, ttl_bound-Aged,
}
use technosphere.Cache.HashTable.Lookup.{entry_of, lookup, place, lookup-holds, IsKey}
use technosphere.Cache.HashTable.Records.{place_of}
use technosphere.Cache.HashTable.Runs.{IsSetUp, IsIdleState, get-lookup}
use technosphere.Cache.HashTable.{HashTable, holds, takes, collect, get}
use technosphere.Cache.Machine.{State, Outcome, M, done, thrown, asleep, no_such_key, pure, ◌>>◌}
use technosphere.Cache.Memory.{Memory, read_bytes}
use technosphere.Cache.Semaphore.{SysV}
use technosphere.Common.Bytes.{Bytes}
use technosphere.Common.{
  ℕ, zero, suc, ◌+◌, ◌-◌, ◌≤◌, ◌<◌, ◌≡◌, ◌≢◌, refl, ◌∙◌, inl, inr, true, false, none, some, arith,
  Bool-cases,
}

-- The first n rounds of the `while (true)` in `execute`.
unfoldable pub passes : (sys : SysV) → HashTable → ℕ → M sys.Sems (Unit {0})
passes sys t zero = pure tt
passes sys t (suc n) = collect sys t >> passes sys t n

-- No record but k holds q.
abbrev pub IsSole : HashTable → Bytes → ℕ → Memory → Type 0
IsSole t q k m = (j : ℕ) → j < t.n_records → j ≢ k → holds t q m (entry_of t m j) ≡ false

pub place-lt :
    (t : HashTable) (m : Memory) (q : Bytes)
    → ((key : Bytes) (i : ℕ) → t.hash key i < t.n_records)
    → (n i k : ℕ) → place t m q n i ≡ some k
    → k < t.n_records
unfolding place
place-lt t m q range zero i k h = cc
place-lt t m q range (suc n) i k h = elim (Bool-cases (takes t q m (entry_of t m (t.hash q i)))) [
  | inl e ↦ let same : t.hash q i ≡ k = ground arith in rw same at (range q i)
  | inr e ↦ place-lt t m q range n (i + 1) k (rw e at h)
]

pub lookup-none :
    (t : HashTable) (q : Bytes) (m : Memory)
    → ((key : Bytes) (i : ℕ) → t.hash key i < t.n_records)
    → ((j : ℕ) → j < t.n_records → holds t q m (entry_of t m j) ≡ false)
    → (n i : ℕ) → lookup t m q n i ≡ none
unfolding lookup
lookup-none t q m range empty zero i = refl
lookup-none t q m range empty (suc n) i =
    ground (arith, empty (t.hash q i) (range q i), lookup-none t q m range empty n (i + 1))

module _ (sys : SysV) (t : HashTable) (up : IsSetUp t) where
  open sys use {Sems}

  passes-suc :
      (n : ℕ) (s s₁ s₂ : State Sems)
      → passes sys t n s ≡ done tt s₁
      → collect sys t s₁ ≡ done tt s₂
      → passes sys t (suc n) s ≡ done tt s₂
  unfolding passes
  passes-suc zero s s₁ s₂ h e = ground (arith, h, e)
  passes-suc (suc n) s s₁ s₂ h e = go (λ s₀ f. passes-suc n s₀ s₁ s₂ f e) (collect sys t s) refl
    where
      go :
          ((s₀ : State Sems)
            → passes sys t n s₀ ≡ done tt s₁
            → passes sys t (suc n) s₀ ≡ done tt s₂)
          → (o : Outcome Sems (Unit {0})) → collect sys t s ≡ o
          → passes sys t (suc (suc n)) s ≡ done tt s₂
      go ih (done a s₀) f = ground (arith, f, h, ih s₀ (ground (arith, f, h)))
      go ih (thrown c s₀) f = absurd (ground (arith, f, h))
      go ih asleep f = absurd (ground (arith, f, h))

  pub passes-last :
      (n : ℕ) (s s₁ s₂ : State Sems)
      → passes sys t n s ≡ done tt s₁
      → collect sys t s₁ ≡ done tt s₂
      → passes sys t (n + 1) s ≡ done tt s₂
  passes-last n s s₁ s₂ h e = let f : n + 1 ≡ suc n = omega arith in rw f (passes-suc n s s₁ s₂ h e)

  -- In this state `get q` finds record k with value v, which has d seconds left.
  pub record Lives (q v : Bytes) (k d : ℕ) (s : State Sems) : Type 0 where
    pub inside : k < t.n_records
    pub found : lookup t s.mem q t.n_records 0 ≡ some k
    pub left : (entry_of t s.mem k).ttl ≡ d
    pub value : read_bytes s.mem (place_of t k + t.key_size) t.value_size ≡ v
    pub sole : IsSole t q k s.mem
    pub ttls : HasTtls t t.n_records s.mem
    pub idle : IsIdleState sys t up s

  module _ (q v : Bytes) (k : ℕ) where
    there : {d : ℕ} {s : State Sems} → Lives q v k d s → holds t q s.mem (entry_of t s.mem k) ≡ true
    there {d} {s} l = lookup-holds t s.mem q t.n_records 0 k l.found

    IsSole-Aged :
        (m m' : Memory)
        → ((j : ℕ) → j < t.n_records → Aged t j m m')
        → IsSole t q k m
        → IsSole t q k m'
    IsSole-Aged m m' aged sole j h ne =
        ground (arith, holds-Aged t q m m' j (aged j h), sole j h ne)

    Lives-collect :
        (d : ℕ) (s : State Sems)
        → Lives q v k (suc d) s
        → (s' : State Sems) × (collect sys t s ≡ done tt s') × Lives q v k d s'
    Lives-collect d s l =
        let (s', run, aged, idle) = collect-Aged sys t up s l.idle l.ttls in
        let a = aged k l.inside in
        let h = holds-Aged t q s.mem s'.mem k a in
        (
          s',
          run,
          record {
            inside = l.inside;
            found =
                lookup_follows t q s.mem s'.mem k (ground (arith, h, there l, l.left))
                  (λ j r un f. (
                    ground (arith, holds-Aged t q s.mem s'.mem j (aged j r), un),
                    status-Aged t q s.mem s'.mem j (aged j r) f,
                  ))
                  up.in_range t.n_records 0 l.found;
            left =
                let e = ttl-Aged t q s.mem s'.mem k a (ground (arith, there l)) in
                omega (arith, l.left, e);
            value = value-Aged t q s.mem s'.mem k a ∙ l.value;
            sole = IsSole-Aged s.mem s'.mem aged l.sole;
            ttls = λ j r. ttl_bound-Aged t q s.mem s'.mem j (aged j r) (l.ttls j r);
            idle = idle;
          },
        )

    pub Lives-passes :
        (n d : ℕ) (s : State Sems)
        → n ≤ d
        → Lives q v k d s
        → (s' : State Sems) × (passes sys t n s ≡ done tt s') × Lives q v k (d - n) s'
    unfolding passes
    Lives-passes zero d s le l = let e : d - 0 ≡ d = omega arith in (s, refl, rw e l)
    Lives-passes (suc n) zero s le l = absurd (omega arith)
    Lives-passes (suc n) (suc d) s le l =
        let (s₁, run, l₁) = Lives-collect d s l in
        let (s₂, run₂, l₂) = Lives-passes n d s₁ (omega arith) l₁ in
        let e : suc d - suc n ≡ d - n = omega arith in (s₂, ground (arith, run, run₂), rw e l₂)

    pub Lives-get :
        (d : ℕ) (s : State Sems)
        → IsKey t q
        → Lives q v k d s
        → (u : Sems) × (get sys t q s ≡ done v (record s { sems = u }))
    Lives-get d s good l =
        let (u, run, _) = get-lookup sys t up q s l.idle in
        (u, ground (arith, run, good.short, l.found, l.value))

    pub expires :
        (s : State Sems)
        → IsKey t q
        → Lives q v k 0 s
        → (s' : State Sems) × (u : Sems) × (collect sys t s ≡ done tt s')
          × (get sys t q s' ≡ thrown no_such_key (record s' { sems = u }))
    expires s good l =
        let (s', run, aged, idle) = collect-Aged sys t up s l.idle l.ttls in
        let (u, got, _) = get-lookup sys t up q s' idle in
        let a = aged k l.inside in
        let gone : holds t q s'.mem (entry_of t s'.mem k) ≡ false =
          ground (arith, holds-Aged t q s.mem s'.mem k a, l.left) in
        let none_left =
          lookup-none t q s'.mem up.in_range
            (λ j h. elim (ℕ_discrete j k) [
              | yes e ↦ rw e gone
              | no ne ↦ IsSole-Aged s.mem s'.mem aged l.sole j h ne
            ])
            t.n_records 0 in
        (s', u, run, ground (arith, got, good.short, none_left))
