-- ===== src/Thread/Tests.antt =====
-- A system of three tasks: 0x1000 runs, 0x2000 is ready, and the idle task 0x3000 is blocked.
use xbay_os.Thread.{
  task_struct_init, thread_start, schedule, thread_yield, is_blocked, set_status_of,
}
use xbay_os.Thread.Boot.{make_main_thread, thread_init}
use xbay_os.Thread.Reach.{Reach, Reach-IsValid, booted, later, yield}
use xbay_os.Base.{
  ℕ, ◌≡◌, refl, arith, [], ◌∷◌, ok, ◌==◌, if◌then◌else◌, inl, Run, hang, panic, true, update,
}
use xbay_os.Intr.{intr_off, intr_on, set_status}
use xbay_os.Thread.{
  Status, running, ready, blocked, waiting, Task, Sys, thread_block, time_intr_handler,
}
use xbay_os.Thread.Queue.{IsValid}
use xbay_os.Thread.Pick.{Switched, Ran}
use xbay_os.Thread.Switch.{thread_block-Switched, time_intr_handler-Switched}

abbrev task : Status → ℕ → Task
task st n = record {
  status = st;
  priority = 32;
  pid = n;
  ava_time = 0;
  elapsed_time = 0;
  page_dir = 0;
  stack_magic_num = 0x1998_0312;
}

abbrev tasks : ℕ → Task
tasks t =
    if t == 0x1000 then task running 0 else if t == 0x2000 then task ready 1 else task blocked 2

abbrev three : Sys
three = record {
  task = tasks;
  current = 0x1000;
  ready_list = 0x2000 ∷ [];
  all_list = 0x1000 ∷ 0x2000 ∷ 0x3000 ∷ [];
  idle = 0x3000;
  next_pid = 3;
  intr = intr_off;
  cr3 = 0;
  esp0 = 0;
  total_times = 7;
}

three-IsValid : IsValid three
three-IsValid = record {
  distinct = ground arith;
  queued = λ t h. ground arith;
  runs = refl;
  idle_somewhere = inl refl;
  no_null = ground arith;
}

thread_block-Switched_example :
    (s' : Sys) × (thread_block (λ a. a) intr_off waiting three ≡ ok s')
    × Switched (0x2000 ∷ []) three s'
    × Ran (set_status_of 0x1000 waiting three).task 7 s'
thread_block-Switched_example =
    thread_block-Switched (λ a. a) intr_off three three-IsValid waiting refl

time_intr_handler-Switched_example :
    (s' : Sys) × (time_intr_handler (λ a. a) intr_off three ≡ ok s')
    × (Switched (0x2000 ∷ 0x1000 ∷ []) three s'
        × Ran
            (update tasks 0x1000 (record (task ready 0) { elapsed_time = 1; ava_time = 32 }))
            8
            s')
time_intr_handler-Switched_example =
    time_intr_handler-Switched (λ a. a) intr_off three three-IsValid refl refl

-- The state before thread_init: the code of the main thread runs at 0x1000.
abbrev unstarted : Sys
unstarted = record {
  task = λ t. task ready 0;
  current = 0x1000;
  ready_list = [];
  all_list = [];
  idle = 0;
  next_pid = 0;
  intr = intr_off;
  cr3 = 0;
  esp0 = 0;
  total_times = 0;
}

abbrev state_of : Run Sys → Sys
state_of (ok s) = s
state_of panic = unstarted
state_of hang = unstarted

abbrev started : Sys
started = state_of (thread_init intr_on 0x2000 unstarted)

abbrev yielded : Sys
yielded = state_of (thread_yield (λ a. a) intr_on started)

started-Reach : Reach (λ a. a) intr_on 0x2000 unstarted started
unfolding thread_init make_main_thread task_struct_init thread_start
started-Reach = booted refl

yielded-Reach : Reach (λ a. a) intr_on 0x2000 unstarted yielded
unfolding thread_yield schedule thread_init make_main_thread task_struct_init thread_start
    set_status
yielded-Reach = later started-Reach (yield refl)

Reach-IsValid_example :
    IsValid yielded
    × ((s' : Sys) × (thread_yield (λ a. a) intr_on yielded ≡ ok s') × IsValid s')
    × ((state : Status)
        → is_blocked state ≡ true
        → (s' : Sys) × (thread_block (λ a. a) intr_on state yielded ≡ ok s') × IsValid s')
Reach-IsValid_example =
    Reach-IsValid (λ a. a) intr_on 0x2000 unstarted yielded (omega arith) (omega arith)
      yielded-Reach
