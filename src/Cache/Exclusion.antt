-- ===== src/Cache/Exclusion.antt =====
-- What the semaphores promise to the processes that share them: readers and a writer for each number.
-- The calls of all processes are one sequence, in the order in which the kernel makes them.
pub mod Follows
use technosphere.Cache.HashTable.Locks.{IsSemaphore}
use technosphere.Cache.Machine.{State, done, thrown, asleep, M}
use technosphere.Cache.Semaphore.{
  Semaphore, Short, plus, minus, Sembuf, SysV, update, lock, release, full_lock, full_release,
}
use technosphere.Common.{
  ℕ, zero, suc, ◌+◌, ◌-◌, ◌%◌, ◌^◌, ◌≤◌, ◌<◌, ◌≡◌, refl, ap, ◌∙◌, inl, inr, true, false, List, [],
  ◌∷◌, ltb, ◌==◌, if◌then◌else◌, Bool-cases, arith,
}

-- Who holds a semaphore.
pub data Holder : Type 0 where
  readers : ℕ → Holder
  writer : Holder

-- A call of `lock`, `release`, `full_lock` or `full_release`.
pub data Op : Type 0 where
  takes_read gives_read takes_write gives_write : Op

-- What the call does: it waits for others; it gives back what nobody holds; or it is made.
pub data Next (A : Type 0) : Type 0 where
  next : A → Next A
  waits : Next A
  wrong : Next A

-- At most `max` readers, or one writer.
unfoldable pub step : ℕ → Op → Holder → Next Holder
step max Op.takes_read (Holder.readers k) =
    if ltb k max then next (Holder.readers (suc k)) else waits
step max Op.takes_read Holder.writer = waits
step max Op.takes_write (Holder.readers zero) = next Holder.writer
step max Op.takes_write (Holder.readers (suc k)) = waits
step max Op.takes_write Holder.writer = waits
step max Op.gives_read (Holder.readers zero) = wrong
step max Op.gives_read (Holder.readers (suc k)) = next (Holder.readers k)
step max Op.gives_read Holder.writer = wrong
step max Op.gives_write (Holder.readers k) = wrong
step max Op.gives_write Holder.writer = next (Holder.readers zero)

-- The holders of all semaphores.
abbrev pub Holders : Type 0
Holders = ℕ → Holder

abbrev pub hold : ℕ → Holder → Holders → Holders
hold i x h j = if j == i then x else h j

-- A call on the number i.
pub record CallOn : Type 0 where
  pub number : ℕ
  pub op : Op

-- The calls one after the other, up to one that waits.
unfoldable pub steps : ℕ → List CallOn → Holders → Next Holders
unfolding step
steps max [] h = next h
steps max (c ∷ cs) h = elim (step max (c.op) (h (c.number))) [
  | next x ↦ steps max cs (hold (c.number) x h)
  | waits ↦ waits
  | wrong ↦ wrong
]

abbrev pub remaining : ℕ → Holder → ℕ
remaining max (Holder.readers k) = max - k
remaining max Holder.writer = 0

abbrev pub Fits : ℕ → Holder → Type 0
Fits max (Holder.readers k) = k ≤ max
Fits max Holder.writer = Unit

module _ (sys : SysV) (sem : Semaphore) where
  open sys use {Sems}

  -- The code's calls.
  unfoldable pub call : CallOn → M Sems (Unit {0})
  unfolding lock release full_lock full_release
  call c = elim (c.op) [
    | takes_read ↦ lock sys (c.number) 1
    | gives_read ↦ release sys (c.number) 1
    | takes_write ↦ full_lock sys sem (c.number) 1
    | gives_write ↦ full_release sys sem (c.number) 1
  ]

  unfoldable pub calls : List CallOn → M Sems (Unit {0})
  unfolding call
  calls [] s = done tt s
  calls (c ∷ cs) s = elim (call c s) [
    | done u s' ↦ calls cs s'
    | thrown e s' ↦ thrown e s'
    | asleep ↦ asleep
  ]
