-- ===== src/Cache/Machine.antt =====
-- sphere_prac/p5: what an operation of the cache server runs on. The state is the mapped file and
-- the System V semaphores; a call returns, throws an `unsigned` code, or sleeps in `semop`.
use technosphere.Cache.Memory.{Memory}
use technosphere.Common.{ℕ}

-- The `enum` of `HashTable`. (`OK` is never thrown.)
pub data Code : Type 0 where
  no_such_key invalid_key invalid_value invalid_place no_free_space : Code

-- The value of the enumerator, which `throw unsigned(...)` carries.
unfoldable pub code_value : Code → ℕ
code_value no_such_key = 1
code_value invalid_key = 2
code_value invalid_value = 3
code_value invalid_place = 4
code_value no_free_space = 5

pub record State (S : Type 0) : Type 0 where
  pub mem : Memory
  pub sems : S

pub data Outcome (S A : Type 0) : Type 0 where
  done : A → State S → Outcome S A
  thrown : Code → State S → Outcome S A
  asleep : Outcome S A

abbrev pub M : Type 0 → Type 0 → Type 0
M S A = State S → Outcome S A

abbrev pub pure : {S A : Type 0} → A → M S A
pure a s = done a s

abbrev pub throw : {S A : Type 0} → Code → M S A
throw c s = thrown c s

infixl 5 ◌>>=◌ ◌>>◌
abbrev pub ◌>>=◌ : {S A B : Type 0} → M S A → (A → M S B) → M S B
◌>>=◌ m f s = elim (m s) [ done a s' ↦ f a s' | thrown c s' ↦ thrown c s' | asleep ↦ asleep ]

abbrev pub ◌>>◌ : {S B : Type 0} → M S (Unit {0}) → M S B → M S B
m >> k = m >>= λ _. k

abbrev pub read_mem : {S : Type 0} → M S Memory
read_mem s = done s.mem s

abbrev pub change_mem : {S : Type 0} → (Memory → Memory) → M S (Unit {0})
change_mem f s = done tt (record s { mem = f s.mem })
