-- ===== src/IoQueue.antt =====
-- device/io_queue.c and device/io_queue.h: the ring of 64 characters between the keyboard
-- interrupt and its reader, guarded by three semaphores of thread/lock.c.
pub mod Ring
pub mod Fifo
mod Tests
use xbay_os.Thread.{Sys}
use xbay_os.Lock.{Sem, Wait, asleep, done, sem_down, sem_init, sem_up}
use xbay_os.Intr.{IntrStat}
use xbay_os.Bitmap.First.{full}
use xbay_os.Base.{Bool, Option, Run, none, ok, some, update, ℕ, ◌%◌, ◌+◌, ◌==◌, ◌>>=◌, ◌>>◌}

-- struct __io_queue_t
pub record IoQueue : Type 0 where
  pub slots : Sem
  pub items : Sem
  pub mutex : Sem
  pub buffer : ℕ → ℕ
  pub front : ℕ
  pub rear : ℕ

-- BUF_SIZE
abbrev pub buf_size : ℕ
buf_size = 64

-- io_queue_init; the characters of the buffer are what they were
abbrev pub io_queue_init : IoQueue → IoQueue
io_queue_init q = record q {
  slots = sem_init buf_size;
  items = sem_init 0;
  mutex = sem_init 1;
  front = 0;
  rear = 0;
}

-- What a call does once sem_down has returned; a thread that sleeps in sem_down stays there, with
-- the queue as `at` stores it.
abbrev pub then_or_sleep :
    {A : Type 0}
    → (at : Sem → IoQueue) → (IoQueue → Sys → Run (Wait (Option A × IoQueue × Sys)))
    → Wait (Sem × Sys)
    → Run (Wait (Option A × IoQueue × Sys))
then_or_sleep at k (asleep (m, s)) = ok (asleep (none, at m, s))
then_or_sleep at k (done (m, s)) = k (at m) s

abbrev pub with_items : IoQueue → Sem → IoQueue
with_items q m = record q { items = m }

abbrev pub with_slots : IoQueue → Sem → IoQueue
with_slots q m = record q { slots = m }

abbrev pub with_mutex : IoQueue → Sem → IoQueue
with_mutex q m = record q { mutex = m }

module _ (phys : ℕ → ℕ) (stale : IntrStat) where
  -- io_queue_full
  unfoldable pub io_queue_full : IoQueue → Sys → Run (Wait (Option Bool × IoQueue × Sys))
  io_queue_full q0 s0 =
      sem_down phys stale q0.mutex s0
      >>= then_or_sleep (with_mutex q0) (λ q s.
        let full = (q.front + 1) % buf_size == q.rear in
        sem_up stale q.mutex s >>= λ (m, s'). ok (done (some full, with_mutex q m, s')))

  -- io_queue_getchar
  unfoldable pub io_queue_getchar : IoQueue → Sys → Run (Wait (Option ℕ × IoQueue × Sys))
  io_queue_getchar q0 s0 =
      sem_down phys stale q0.items s0
      >>= then_or_sleep (with_items q0) (λ q1 s1.
        sem_down phys stale q1.mutex s1
        >>= then_or_sleep (with_mutex q1) (λ q2 s2.
          let c = q2.buffer q2.front in
          let q = record q2 { front = (q2.front + 1) % buf_size } in
          sem_up stale q.mutex s2 >>= λ (m, s3). sem_up stale q.slots s3 >>= λ (m', s4).
          ok (done (some c, with_slots (with_mutex q m) m', s4))))

  -- io_queue_putchar
  unfoldable pub io_queue_putchar :
      ℕ → IoQueue → Sys → Run (Wait (Option (Unit {0}) × IoQueue × Sys))
  io_queue_putchar c q0 s0 =
      sem_down phys stale q0.slots s0
      >>= then_or_sleep (with_slots q0) (λ q1 s1.
        sem_down phys stale q1.mutex s1
        >>= then_or_sleep (with_mutex q1) (λ q2 s2.
          let q = record q2 {
            buffer = update q2.buffer q2.rear c;
            rear = (q2.rear + 1) % buf_size;
          } in
          sem_up stale q.mutex s2 >>= λ (m, s3). sem_up stale q.items s3 >>= λ (m', s4).
          ok (done (some tt, with_items (with_mutex q m) m', s4))))
