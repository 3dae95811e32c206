-- ===== src/Lock.antt =====
-- thread/lock.c and thread/lock.h: semaphores and recursive mutexes.
-- A thread that finds a semaphore at 0 enters the waiters, blocks, and tests it again when it next
-- runs: `asleep` is the state in which it leaves the processor, `done` that of a call that returns.
-- The functions run with interrupts off, so they are single steps of an interleaving.
pub mod Rounds
pub mod Mutual
mod Tests
use xbay_os.Base.{
  ℕ, ◌+◌, ◌-◌, ◌%◌, ◌^◌, Bool, true, false, not, Option, none, some, List, [], ◌∷◌, ◌++◌, Run, ok,
  panic, hang, ◌>>=◌, ◌>>◌, assert, ltb, ◌==◌, if◌then◌else◌, has, u8,
}
use xbay_os.Intr.{IntrStat}
use xbay_os.Thread.{Sys, Status, blocked, off, restore, thread_block, thread_unblock}

-- struct __sem_t
pub record Sem : Type 0 where
  pub value : ℕ
  pub waiters : List ℕ

-- struct __mutex_t; holder 0 is NULL
pub record Mutex : Type 0 where
  pub sem : Sem
  pub holder : ℕ
  pub recursion : ℕ

pub data Wait (A : Type 0) : Type 0 where
  done : A → Wait A
  asleep : A → Wait A

-- sem_init
abbrev pub sem_init : ℕ → Sem
sem_init value = record { value = u8 value; waiters = [] }

-- What sem_up does to the semaphore: the first waiter leaves the queue, and the value, of 8 bits,
-- goes up.
abbrev pub first_waiter : List ℕ → Option ℕ × List ℕ
first_waiter [] = (none, [])
first_waiter (t ∷ ts) = (some t, ts)

abbrev pub raise : Sem → Sem
raise m = record { value = u8 (m.value + 1); waiters = (first_waiter m.waiters).1 }

abbrev pub wake : (stale : IntrStat) → Option ℕ → Sys → Run Sys
wake stale none s = ok s
wake stale (some t) s = thread_unblock stale t s

-- What sem_down does to it: the value goes down, or a thread enters the waiters.
abbrev pub lower : Sem → Sem
lower m = record m { value = m.value - 1 }

abbrev pub enter : ℕ → Sem → Sem
enter t m = record m { waiters = m.waiters ++ t ∷ [] }

-- sem_up
unfoldable pub sem_up : (stale : IntrStat) → Sem → Sys → Run (Sem × Sys)
sem_up stale m s0 = wake stale (first_waiter m.waiters).0 (off s0) >>= λ s. do
  assert (ltb 0 (raise m).value)
  ok (raise m, restore stale s0.intr s)

-- One round of the loop of sem_down, and the decrement behind it. The assertion sem->value >= 0
-- holds of every unsigned value.
unfoldable pub sem_down : (phys : ℕ → ℕ) (stale : IntrStat) → Sem → Sys → Run (Wait (Sem × Sys))
sem_down phys stale m s0 =
    let s = off s0 in
    if m.value == 0
    then (do
      assert (not (has s.current m.waiters))
      s' ← thread_block phys stale blocked s
      ok (asleep (enter s.current m, s')))
    else ok (done (lower m, restore stale s0.intr s))

-- mutex_init
abbrev pub mutex_init : Mutex
mutex_init = record { sem = sem_init 1; holder = 0; recursion = 0 }

-- What follows sem_down in mutex_lock.
abbrev pub hold : Mutex → Wait (Sem × Sys) → Run (Wait (Mutex × Sys))
hold x (asleep (m, s)) = ok (asleep (record x { sem = m }, s))
hold x (done (m, s)) = do
  assert (x.recursion == 0)
  ok (done (record { sem = m; holder = s.current; recursion = u8 (x.recursion + 1) }, s))

-- mutex_lock
unfoldable pub mutex_lock :
    (phys : ℕ → ℕ) (stale : IntrStat) → Mutex → Sys → Run (Wait (Mutex × Sys))
unfolding sem_down
mutex_lock phys stale x s =
    if not (x.holder == s.current)
    then (sem_down phys stale x.sem s >>= hold x)
    else ok (done (record x { recursion = u8 (x.recursion + 1) }, s))

-- mutex_unlock; the assertion assigns the running thread to the holder and tests that it is not NULL
unfoldable pub mutex_unlock : (stale : IntrStat) → Mutex → Sys → Run (Mutex × Sys)
unfolding sem_up
mutex_unlock stale x0 s =
    let x = record x0 { holder = s.current } in
    do
      assert (not (x.holder == 0))
      let freed =
          sem_up stale x.sem s >>= λ (m, s'). ok (record { sem = m; holder = 0; recursion = 0 }, s')
      if x.recursion == 1
          then freed
          else ok (record x { recursion = (x.recursion + 2 ^ 8 - 1) % 2 ^ 8 }, s)
