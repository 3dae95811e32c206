-- ===== src/Thread.antt =====
-- thread/thread.c, process_activate of proc/process.c, set_tss_esp0 of proc/tss.c and the clock
-- interrupt of device/timer.c: tasks, the ready queue and the scheduler.
-- A task is named by the address of its task_struct. The two task lists hold the tasks of the nodes
-- that lib/list.c links (LinkedList.Ends and LinkedList.Remove). `current` is what running_thread
-- computes from the stack pointer: switch_to changes it, so a function that schedules is modelled
-- up to the switch, and what it does after it belongs to the resumption of the same thread.
-- `phys` stands for vaddr_to_phy, and `stale` for the uninitialised variable of intr_set_status.
pub mod Queue
pub mod Pick
pub mod Switch
pub mod Boot
pub mod Reach
mod Tests
use xbay_os.Base.{
  ℕ, ◌+◌, ◌-◌, ◌%◌, ◌^◌, Bool, true, false, not, ◌&&◌, ◌||◌, List, [], ◌∷◌, ◌++◌, Run, ok, panic,
  ◌>>=◌, ◌>>◌, assert, ◌==◌, if◌then◌else◌, has, update, u8, u16, u32,
}
use xbay_os.Intr.{IntrStat, intr_off, intr_on, same, disable, set_status}

-- enum __task_status
pub data Status : Type 0 where
  running ready blocked waiting hanging died : Status

-- state == BLOCKED || state == HANGING || state == WAITING
abbrev pub is_blocked : Status → Bool
is_blocked blocked = true
is_blocked hanging = true
is_blocked waiting = true
is_blocked _ = false

abbrev pub is_running : Status → Bool
is_running running = true
is_running _ = false

-- The fields of struct __task_struct that these functions use.
pub record Task : Type 0 where
  pub status : Status
  pub priority : ℕ
  pub pid : ℕ
  pub ava_time : ℕ
  pub elapsed_time : ℕ
  pub page_dir : ℕ
  pub stack_magic_num : ℕ

-- The variables of thread.c, the interrupt flag, cr3, esp0 of the TSS and the clock's counter.
pub record Sys : Type 0 where
  pub task : ℕ → Task
  pub current : ℕ
  pub ready_list : List ℕ
  pub all_list : List ℕ
  pub idle : ℕ
  pub next_pid : ℕ
  pub intr : IntrStat
  pub cr3 : ℕ
  pub esp0 : ℕ
  pub total_times : ℕ

abbrev pub set_status_of : ℕ → Status → Sys → Sys
set_status_of t v s = record s { task = update s.task t (record (s.task t) { status = v }) }

-- INTERRUPT_RESTORE
abbrev pub restore : (stale old : IntrStat) → Sys → Sys
restore stale old s = record s { intr = (set_status stale old s.intr).1 }

-- INTERRUPT_DISABLE
abbrev pub off : Sys → Sys
off s = record s { intr = (disable s.intr).1 }

-- A section between INTERRUPT_DISABLE and INTERRUPT_RESTORE that changes nothing of this state by
-- itself, as in list_push_back, sem_down and sem_up
abbrev pub guarded : (stale : IntrStat) → Sys → Sys
guarded stale s = restore stale s.intr (off s)

-- allocate_pid; pid_t has 16 bits. No thread holds pid_lock, so that mutex_lock and mutex_unlock are
-- one guarded section each.
unfoldable pub allocate_pid : (stale : IntrStat) → Sys → Run (ℕ × Sys)
allocate_pid stale s = do
  assert (not (s.next_pid == 0xffff))
  ok (s.next_pid, record (guarded stale (guarded stale s)) { next_pid = u16 (s.next_pid + 1) })

-- task_struct_init; `is_main` is the test thread == main_thread
unfoldable pub task_struct_init :
    (stale : IntrStat) (is_main : Bool) (thread prio : ℕ) → Sys → Run Sys
unfolding allocate_pid
task_struct_init stale is_main thread prio s = do
  assert (not (thread == 0))
  allocate_pid stale s >>= λ (pid, s'). ok (record s' {
    task = update s'.task thread (record {
      status = if is_main then running else ready;
      priority = u8 prio;
      pid = pid;
      ava_time = u32 prio;
      elapsed_time = 0;
      page_dir = 0;
      stack_magic_num = 0x1998_0312;
    });
  })

-- thread_start, given the page that get_kern_pages returns for the PCB
pub thread_start : (stale : IntrStat) (thread prio : ℕ) → Sys → Run Sys
unfolding task_struct_init
thread_start stale thread prio s = task_struct_init stale false thread prio s >>= λ s'. do
  assert (not (has thread s'.ready_list))
  assert (not (has thread s'.all_list))
  ok (record (guarded stale (guarded stale s')) {
    ready_list = s'.ready_list ++ thread ∷ [];
    all_list = s'.all_list ++ thread ∷ [];
  })

-- thread_unblock
pub thread_unblock : (stale : IntrStat) → ℕ → Sys → Run Sys
thread_unblock stale thread s0 =
    let s = off s0 in
    do
      assert (is_blocked (s.task thread).status)
      assert (not (has thread s.ready_list))
      ok (
          restore stale s0.intr
            (set_status_of thread ready (record s { ready_list = thread ∷ s.ready_list })))

-- process_activate
pub process_activate : (phys : ℕ → ℕ) → ℕ → Sys → Run Sys
process_activate phys thread s = do
  assert (not (thread == 0))
  ok (
      if (s.task thread).page_dir == 0
      then record s { cr3 = 0x10_0000 }
      else record s { cr3 = phys (s.task thread).page_dir; esp0 = u32 (thread + 2 ^ 12) })

-- The end of schedule: the first ready task becomes RUNNING, is activated and switched to. The
-- list is never empty here; list_pop_front would give NULL.
pub dispatch : (phys : ℕ → ℕ) → List ℕ → Sys → Run Sys
dispatch phys [] s = panic
dispatch phys (next ∷ rest) s =
    process_activate phys next (set_status_of next running (record s { ready_list = rest }))
    >>= λ s'. ok (record s' { current = next })

-- The first part of schedule: a running task goes to the end of the queue with a new time slice.
pub requeue : Sys → Run Sys
requeue s =
    let t = s.task s.current in
    if is_running t.status
    then (do
      assert (not (has s.current s.ready_list))
      ok (record s {
        ready_list = s.ready_list ++ s.current ∷ [];
        task = update s.task s.current (record t { ava_time = t.priority; status = ready });
      }))
    else ok s

-- schedule wakes the idle task if no other is ready.
pub wake_idle : (stale : IntrStat) → List ℕ → Sys → Run Sys
wake_idle stale [] s = thread_unblock stale s.idle s
wake_idle stale (_ ∷ _) s = ok s

-- The rest of schedule.
pub pick : (phys : ℕ → ℕ) (stale : IntrStat) → Sys → Run Sys
unfolding wake_idle dispatch process_activate thread_unblock
pick phys stale s = do s2 ← wake_idle stale s.ready_list s; dispatch phys s2.ready_list s2

-- schedule
pub schedule : (phys : ℕ → ℕ) (stale : IntrStat) → Sys → Run Sys
unfolding requeue pick
schedule phys stale s = do assert (same s.intr intr_off); s1 ← requeue s; pick phys stale s1

-- thread_block, up to the switch
pub thread_block : (phys : ℕ → ℕ) (stale : IntrStat) → Status → Sys → Run Sys
unfolding schedule
thread_block phys stale state s = do
  assert (is_blocked state)
  schedule phys stale (set_status_of s.current state (off s))

-- thread_yield, up to the switch
pub thread_yield : (phys : ℕ → ℕ) (stale : IntrStat) → Sys → Run Sys
unfolding schedule
thread_yield phys stale s0 =
    let s = set_status_of s0.current ready (off s0) in
    do
      assert (not (has s.current s.ready_list))
      schedule phys stale (record s { ready_list = s.ready_list ++ s.current ∷ [] })

-- time_intr_handler
pub time_intr_handler : (phys : ℕ → ℕ) (stale : IntrStat) → Sys → Run Sys
unfolding schedule
time_intr_handler phys stale s =
    let t = s.task s.current in
    do
      assert (same s.intr intr_off)
      assert (t.stack_magic_num == 0x1998_0312)
      let t' = record t { elapsed_time = u32 (t.elapsed_time + 1) }
      let s' = record s { task = update s.task s.current t'; total_times = u32 (s.total_times + 1) }
      let later = record s' {
        task = update s.task s.current (record t' { ava_time = t.ava_time - 1 });
      }
      if t.ava_time == 0 then schedule phys stale s' else ok later
