-- ===== src/Thread/Queue.antt =====
-- What the scheduler keeps true.
use xbay_os.Base.{ℕ, ◌≡◌, ◌≢◌, ◌⊎◌, true, false, has, Distinct}
use xbay_os.Thread.{running, ready, is_blocked, Sys}

-- The ready queue holds distinct tasks, all READY; the current task is RUNNING; the idle task is
-- blocked, waiting in the queue, or current; and no task stands at address 0.
pub record IsValid (s : Sys) : Type 0 where
  pub distinct : Distinct s.ready_list
  pub queued : (t : ℕ) → has t s.ready_list ≡ true → (s.task t).status ≡ ready
  pub runs : (s.task s.current).status ≡ running
  pub idle_somewhere :
      (is_blocked (s.task s.idle).status ≡ true)
      ⊎ (has s.idle s.ready_list ≡ true)
      ⊎ (s.current ≡ s.idle)
  pub no_null : (has 0 s.ready_list ≡ false) × (s.current ≢ 0) × (s.idle ≢ 0)
