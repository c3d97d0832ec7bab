-- ===== src/Cache/Semaphore.antt =====
-- sphere_prac/p5/Semaphore.cpp, Semaphore.hpp: an array of System V semaphores, one for each number
-- of a record. The kernel is the parameter `SysV`: it keeps the values, and `semop` is a parameter
-- with its documented behaviour.
use technosphere.Cache.Machine.{done, asleep, M}
use technosphere.Common.{
  ℕ, zero, suc, ◌+◌, ◌-◌, ◌%◌, ◌^◌, ◌≤◌, ◌<◌, ◌≡◌, Bool, true, false, Option, none, some, List, [],
  ◌∷◌, ◌==◌, if◌then◌else◌,
}

-- A `short`, by its sign.
pub data Short : Type 0 where
  plus minus : ℕ → Short

-- `struct sembuf`; `nowait` and `undo` are the flags IPC_NOWAIT and SEM_UNDO.
pub record Sembuf : Type 0 where
  pub sem_num : ℕ
  pub sem_op : Short
  pub nowait : Bool
  pub undo : Bool

-- One process calls `semop` on a set of semaphores. `none`: the call does not complete now, because
-- a value is too small (the process sleeps, or gets EAGAIN under IPC_NOWAIT).
pub record SysV : Type 1 where
  pub Sems : Type 0
  pub value : Sems → ℕ → ℕ
  pub semop : List Sembuf → Sems → Option Sems
  -- a positive operation completes, as long as the value stays in a `short`
  pub semop-plus :
      (b : Sembuf) (k : ℕ) (s : Sems)
      → 0 < k
      → b.sem_op ≡ plus k
      → value s b.sem_num + k < 2 ^ 15
      → (s' : Sems) × (semop (b ∷ []) s ≡ some s')
        × ((j : ℕ) → value s' j ≡ (if j == b.sem_num then value s j + k else value s j))
  -- a negative operation completes where the value is large enough
  pub semop-minus :
      (b : Sembuf) (k : ℕ) (s : Sems)
      → 0 < k
      → b.sem_op ≡ minus k
      → k ≤ value s b.sem_num
      → (s' : Sems) × (semop (b ∷ []) s ≡ some s')
        × ((j : ℕ) → value s' j ≡ (if j == b.sem_num then value s j - k else value s j))
  -- and not otherwise
  pub semop-wait :
      (b : Sembuf) (k : ℕ) (s : Sems)
      → 0 < k
      → b.sem_op ≡ minus k
      → value s b.sem_num < k
      → semop (b ∷ []) s ≡ none

-- The members that stay fixed; the set itself is the kernel's.
pub record Semaphore : Type 0 where
  pub n : ℕ
  pub max_value : ℕ

-- The vector `sb` that `update` fills; `sem_num` is an unsigned short.
unfoldable pub sembufs : ℕ → ℕ → Short → Bool → List Sembuf
sembufs start zero op nowait = []
sembufs start (suc m) op nowait =
    record { sem_num = start % 2 ^ 16; sem_op = op; nowait = nowait; undo = true }
    ∷ sembufs (start + 1) m op nowait

module _ (sys : SysV) where
  open sys use {Sems, semop}

  -- `Semaphore::update`; every caller passes SEM_UNDO. The code that `semop` returns is not modelled, as no
  -- caller looks at it: under IPC_NOWAIT a call that cannot be made changes nothing.
  unfoldable pub update : ℕ → ℕ → Short → Bool → M Sems (Unit {0})
  unfolding sembufs
  update start m op nowait s = elim (semop (sembufs start m op nowait) s.sems) [
    | none ↦ if nowait then done tt s else asleep
    | some t ↦ done tt (record s { sems = t })
  ]

  unfoldable pub lock : ℕ → ℕ → M Sems (Unit {0})
  unfolding update
  lock start m = update start m (minus 1) false

  unfoldable pub full_lock : Semaphore → ℕ → ℕ → M Sems (Unit {0})
  unfolding update
  full_lock sem start m = update start m (minus sem.max_value) false

  unfoldable pub lock_nowait : ℕ → ℕ → M Sems (Unit {0})
  unfolding update
  lock_nowait start m = update start m (minus 1) true

  unfoldable pub full_release : Semaphore → ℕ → ℕ → M Sems (Unit {0})
  unfolding update
  full_release sem start m = update start m (plus sem.max_value) false

  unfoldable pub release : ℕ → ℕ → M Sems (Unit {0})
  unfolding update
  release start m = update start m (plus 1) false
