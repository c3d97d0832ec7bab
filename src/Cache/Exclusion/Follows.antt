-- ===== src/Cache/Exclusion/Follows.antt =====
-- The calls on the semaphores do what the holders say.
use technosphere.Cache.HashTable.Locks.{IsSemaphore}
use technosphere.Cache.Machine.{State, done, asleep}
use technosphere.Cache.Semaphore.{
  Semaphore, Short, plus, minus, Sembuf, SysV, update, lock, release, full_lock, full_release,
}
use technosphere.Common.{
  ℕ, zero, suc, ◌+◌, ◌-◌, ◌%◌, ◌^◌, ◌≤◌, ◌<◌, ◌≡◌, refl, ap, ◌∙◌, inl, inr, true, false, List, [],
  ◌∷◌, ltb, ◌==◌, Bool-cases, arith,
}
use technosphere.Cache.Exclusion.{
  Holder, Op, Next, next, waits, wrong, step, Holders, hold, CallOn, steps, remaining, Fits, call,
  calls,
}

module _ (sys : SysV) (sem : Semaphore) where
  open sys use {Sems, value, semop-plus, semop-minus, semop-wait}

  -- The values of the first n semaphores are what the holders leave.
  abbrev pub Represents : ℕ → Holders → Sems → Type 0
  Represents n h s =
      (j : ℕ) → j < n → (value s j ≡ remaining (sem.max_value) (h j)) × Fits (sem.max_value) (h j)

  module _ (n : ℕ) (fits : IsSemaphore sem n) where
    open fits use {numbered, some_room, short_value}

    abbrev one_buf : ℕ → Short → Sembuf
    one_buf i op = record { sem_num = i % 2 ^ 16; sem_op = op; nowait = false; undo = true }

    -- `update` by k where it completes, and where it does not
    taken :
        (i k : ℕ) (x : Holder) (h : Holders) (s : State Sems)
        → 0 < k
        → i < n
        → Represents n h (s.sems)
        → k ≤ value (s.sems) i
        → value (s.sems) i - k ≡ remaining (sem.max_value) x
        → Fits (sem.max_value) x
        → (s' : State Sems) × (update sys i 1 (minus k) false s ≡ done tt s')
          × Represents n (hold i x h) (s'.sems)
    unfolding update
    taken i k x h s pos hi r le rest fit =
        let wrap : i % 2 ^ 16 ≡ i = omega (arith, numbered) in
        let (t, run, vals) = semop-minus (one_buf i (minus k)) k (s.sems) pos refl (rw wrap le) in
        (
          record s { sems = t },
          rw (run, update) refl,
          λ j hj. elim (Bool-cases (j == i)) [
            | inl e ↦
                let same : j ≡ i = ground (arith, e) in
                rw e
                  (vals j ∙ (rw (wrap, e) (ap (λ (y : ℕ). value (s.sems) y - k) same) ∙ rest), fit)
            | inr e ↦ rw e (vals j ∙ rw (wrap, e) ((r j hj).0), (r j hj).1)
          ],
        )

    given :
        (i k : ℕ) (x : Holder) (h : Holders) (s : State Sems)
        → 0 < k
        → i < n
        → Represents n h (s.sems)
        → value (s.sems) i + k < 2 ^ 15
        → value (s.sems) i + k ≡ remaining (sem.max_value) x
        → Fits (sem.max_value) x
        → (s' : State Sems) × (update sys i 1 (plus k) false s ≡ done tt s')
          × Represents n (hold i x h) (s'.sems)
    unfolding update
    given i k x h s pos hi r room rest fit =
        let wrap : i % 2 ^ 16 ≡ i = omega (arith, numbered) in
        let (t, run, vals) = semop-plus (one_buf i (plus k)) k (s.sems) pos refl (rw wrap room) in
        (
          record s { sems = t },
          rw (run, update) refl,
          λ j hj. elim (Bool-cases (j == i)) [
            | inl e ↦
                let same : j ≡ i = ground (arith, e) in
                rw e
                  (vals j ∙ (rw (wrap, e) (ap (λ (y : ℕ). value (s.sems) y + k) same) ∙ rest), fit)
            | inr e ↦ rw e (vals j ∙ rw (wrap, e) ((r j hj).0), (r j hj).1)
          ],
        )

    refused :
        (i k : ℕ) (s : State Sems)
        → i < n
        → value (s.sems) i < k
        → update sys i 1 (minus k) false s ≡ asleep
    unfolding update
    refused i k s hi lt =
        let wrap : i % 2 ^ 16 ≡ i = omega (arith, numbered) in
        let run =
          semop-wait (one_buf i (minus k)) k (s.sems) (omega (arith, lt)) refl (rw wrap lt) in
        rw (run, update) refl

    -- One call does what the holders say.
    abbrev pub Follows : CallOn → Holders → State Sems → Next Holder → Type 0
    Follows c h s (Next.next x) =
        (s' : State Sems) × (call sys sem c s ≡ done tt s')
        × Represents n (hold (c.number) x h) (s'.sems)
    Follows c h s Next.waits = call sys sem c s ≡ asleep
    Follows c h s Next.wrong = Unit

    abbrev on : ℕ → Op → CallOn
    on i o = record { number = i; op = o }

    Follows-at :
        (i : ℕ) (o : Op) (x : Holder) (h : Holders) (s : State Sems)
        → i < n
        → Represents n h (s.sems)
        → value (s.sems) i ≡ remaining (sem.max_value) x
        → Fits (sem.max_value) x
        → Follows (on i o) h s (step (sem.max_value) o x)
    unfolding step call lock release full_lock full_release
    Follows-at i Op.takes_read (Holder.readers k) h s hi r e f =
        elim (Bool-cases (ltb k (sem.max_value))) [
          | inl g ↦ rw g (
              taken i 1 (Holder.readers (suc k)) h s (omega arith) hi r (ground (arith, g, e))
                (omega (arith, e)) (ground (arith, g)))
          | inr g ↦ rw g (refused i 1 s hi (ground (arith, g, e)))
        ]
    Follows-at i Op.takes_read Holder.writer h s hi r e f = refused i 1 s hi (omega (arith, e))
    Follows-at i Op.takes_write (Holder.readers zero) h s hi r e f =
        taken i (sem.max_value) Holder.writer h s some_room hi r (omega (arith, e))
          (omega (arith, e)) tt
    Follows-at i Op.takes_write (Holder.readers (suc k)) h s hi r e f =
        refused i (sem.max_value) s hi (omega (arith, e, some_room))
    Follows-at i Op.takes_write Holder.writer h s hi r e f =
        refused i (sem.max_value) s hi (omega (arith, e, some_room))
    Follows-at i Op.gives_read (Holder.readers zero) h s hi r e f = tt
    Follows-at i Op.gives_read (Holder.readers (suc k)) h s hi r e f =
        given i 1 (Holder.readers k) h s (omega arith) hi r (omega (arith, e, f, short_value))
          (omega (arith, e, f)) (omega (arith, f))
    Follows-at i Op.gives_read Holder.writer h s hi r e f = tt
    Follows-at i Op.gives_write (Holder.readers k) h s hi r e f = tt
    Follows-at i Op.gives_write Holder.writer h s hi r e f =
        given i (sem.max_value) (Holder.readers zero) h s some_room hi r
          (omega (arith, e, short_value)) (omega (arith, e)) (omega arith)

    -- The numbers are below n.
    abbrev pub Inside : List CallOn → Type 0
    Inside [] = Unit
    Inside (c ∷ cs) = (c.number < n) × Inside cs

    -- What a sequence of calls does.
    abbrev pub Ends : List CallOn → State Sems → Next Holders → Type 0
    Ends cs s (Next.next h) =
        (s' : State Sems) × (calls sys sem cs s ≡ done tt s') × Represents n h (s'.sems)
    Ends cs s Next.waits = calls sys sem cs s ≡ asleep
    Ends cs s Next.wrong = Unit

    calls-next :
        (c : CallOn) (cs : List CallOn) (s s₁ : State Sems)
        → call sys sem c s ≡ done tt s₁
        → calls sys sem (c ∷ cs) s ≡ calls sys sem cs s₁
    unfolding calls
    calls-next c cs s s₁ run = ground (arith, run)

    calls-waits :
        (c : CallOn) (cs : List CallOn) (s : State Sems)
        → call sys sem c s ≡ asleep
        → calls sys sem (c ∷ cs) s ≡ asleep
    unfolding calls
    calls-waits c cs s run = ground (arith, run)

    later :
        (c : CallOn) (cs : List CallOn) (s s₁ : State Sems) (o : Next Holders)
        → calls sys sem (c ∷ cs) s ≡ calls sys sem cs s₁
        → Ends cs s₁ o
        → Ends (c ∷ cs) s o
    later c cs s s₁ (Next.next h) e (s', run, r) = (s', e ∙ run, r)
    later c cs s s₁ Next.waits e run = e ∙ run
    later c cs s s₁ Next.wrong e u = tt

    -- Any sequence of calls, of whatever processes, on semaphores that stand as the holders say: where
    -- nothing is given back that nobody holds, the calls are made as long as each number has at most
    -- `max_value` readers or one writer, and the first that would break this sleeps.
    pub calls-steps :
        (cs : List CallOn) (h : Holders) (s : State Sems)
        → Inside cs
        → Represents n h (s.sems)
        → Ends cs s (steps (sem.max_value) cs h)
    unfolding calls steps
    calls-steps [] h s inside r = (s, refl, r)
    calls-steps (c ∷ cs) h s inside r =
        let i = c.number in
        let (e, f) = r i inside.0 in
        continues (step (sem.max_value) (c.op) (h i)) (Follows-at i (c.op) (h i) h s inside.0 r e f)
          (λ x s₁ r₁. calls-steps cs (hold i x h) s₁ inside.1 r₁)
      where
        continues :
            (o : Next Holder)
            → Follows c h s o
            → ((x : Holder) (s₁ : State Sems)
                → Represents n (hold (c.number) x h) (s₁.sems)
                → Ends cs s₁ (steps (sem.max_value) cs (hold (c.number) x h)))
            → Ends (c ∷ cs) s (elim o [
              | next x ↦ steps (sem.max_value) cs (hold (c.number) x h)
              | waits ↦ waits
              | wrong ↦ wrong
            ])
        continues (Next.next x) (s₁, run, r₁) ih =
            later c cs s s₁ (steps (sem.max_value) cs (hold (c.number) x h))
              (calls-next c cs s s₁ run) (ih x s₁ r₁)
        continues Next.waits run ih = calls-waits c cs s run
        continues Next.wrong u ih = tt
