-- ===== src/Cache/HashTable/Locks.antt =====
-- The locks around one record: taken from an idle set, and given back.
use technosphere.Cache.Machine.{State, done, M}
use technosphere.Cache.Memory.{Memory}
use technosphere.Cache.Semaphore.{
  Semaphore, Short, plus, minus, Sembuf, SysV, update, lock, release, full_lock, full_release,
}
use technosphere.Common.{ℕ, ◌+◌, ◌%◌, ◌^◌, ◌≤◌, ◌<◌, ◌≡◌, refl, false, true, arith}

-- What `main` sets up: a semaphore for each of the n records at least, each of which can hold
-- `max_value`.
pub record IsSemaphore (sem : Semaphore) (n : ℕ) : Type 0 where
  pub enough : n ≤ sem.n
  pub numbered : n ≤ 2 ^ 16
  pub some_room : 1 ≤ sem.max_value
  pub short_value : sem.max_value < 2 ^ 15

module _ (sys : SysV) where
  open sys use {Sems, value, semop-plus, semop-minus}

  -- Nobody holds any of the first n semaphores.
  abbrev pub IsIdle : ℕ → ℕ → Sems → Type 0
  IsIdle full n s = (j : ℕ) → j < n → value s j ≡ full

  -- Operation `take` on semaphore i completes, and then `give` restores what every semaphore had,
  -- whatever was written to the memory in between.
  pub record Guards (full n i : ℕ) (take give : M Sems (Unit {0})) (s : State Sems) : Type 0 where
    pub held : Sems
    pub takes : take s ≡ done tt (record { mem = s.mem; sems = held })
    pub after : Memory → Sems
    pub gives :
        (m : Memory)
        → give (record { mem = m; sems = held }) ≡ done tt (record { mem = m; sems = after m })
    pub idle : (m : Memory) → IsIdle full n (after m)

  abbrev one_buf : ℕ → Short → Sembuf
  one_buf i op = record { sem_num = i % 2 ^ 16; sem_op = op; nowait = false; undo = true }

  guard_of :
      (full n i k : ℕ) (s : State Sems)
      → n ≤ 2 ^ 16
      → full < 2 ^ 15
      → k ≤ full
      → 0 < k
      → i < n
      → IsIdle full n s.sems
      → Guards full n i (update sys i 1 (minus k) false) (update sys i 1 (plus k) false) s
  unfolding update
  guard_of full n i k s hn hf hk pos hi idle =
      let wrap : i % 2 ^ 16 ≡ i = omega arith in
      let (t, run, vals) =
        semop-minus (one_buf i (minus k)) k s.sems pos refl (rw wrap (omega (arith, idle i hi))) in
      let here : value t (i % 2 ^ 16) + k ≡ full =
        ground (arith, vals (i % 2 ^ 16), idle i hi, wrap) in
      let (u, back, vals') = semop-plus (one_buf i (plus k)) k t pos refl (omega (arith, here)) in
      record {
        held = t;
        takes = rw (run, update);
        after = λ m. u;
        gives = λ m. rw (back, update);
        idle = λ m j hj. ground (arith, vals j, vals' j, idle j hj, idle i hi, wrap);
      }

  module _ (sem : Semaphore) (n i : ℕ) (s : State Sems) (fits : IsSemaphore sem n) (inside : i < n)
      (idle : IsIdle sem.max_value n s.sems) where
    pub full_lock-Guards :
        Guards sem.max_value n i (full_lock sys sem i 1) (full_release sys sem i 1) s
    unfolding full_lock full_release
    full_lock-Guards =
        guard_of sem.max_value n i sem.max_value s fits.numbered fits.short_value (omega arith)
          fits.some_room inside idle

    pub lock-Guards : Guards sem.max_value n i (lock sys i 1) (release sys i 1) s
    unfolding lock release
    lock-Guards =
        guard_of sem.max_value n i 1 s fits.numbered fits.short_value fits.some_room (omega arith)
          inside idle
