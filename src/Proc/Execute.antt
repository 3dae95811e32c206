-- ===== src/Proc/Execute.antt =====
-- What process_execute does to the tasks.
use xbay_os.Base.Update.{update-here, update-other}
use xbay_os.Bitmap.{init}
use xbay_os.Thread.{off, guarded}
use xbay_os.Heap.{mem_block_init}
use xbay_os.Intr.{IntrStat}
use xbay_os.Base.{
  [], div_round_up, false, has, ok, some, true, ℕ, ◌++◌, ◌+◌, ◌<◌, ◌∷◌, ◌≡◌, ◌≢◌, arith, ◌==◌, u16,
  u32, u8, update, ◌^◌, Distinct-append, has-append, ne_of_has, refl, ◌*◌, ap, ◌∙◌,
}
use xbay_os.Proc.{
  Procs, ThreadStack, create_page_dir, create_user_vaddr_bitmap, enlist, process_execute,
  thread_create, user_length, user_vaddr_start, copy_words,
}
use xbay_os.Thread.Queue.{IsValid}
use xbay_os.Thread.{Sys, ready, restore, task_struct_init, allocate_pid, Task}
use xbay_os.Memory.{Mem, get_kern_pages, page_size, entry_of, vaddr_to_phy, VirtualAddr}

-- The process at a page is ready, last in both lists, with the next number, a directory and a stack
-- that starts it.
pub record Started (thread dir kthread start_process prog : ℕ) (s s' : Procs) : Type 0 where
  pub valid : IsValid s'.sys
  pub queued : s'.sys.ready_list ≡ s.sys.ready_list ++ thread ∷ []
  pub listed : s'.sys.all_list ≡ s.sys.all_list ++ thread ∷ []
  pub numbered : (s'.sys.task thread).pid ≡ s.sys.next_pid
  pub counted : s'.sys.next_pid ≡ s.sys.next_pid + 1
  pub directed : (s'.sys.task thread).page_dir ≡ dir
  pub returns : (s'.stack thread).eip ≡ kthread
  pub runs : ((s'.stack thread).func ≡ start_process) × ((s'.stack thread).func_arg ≡ prog)
  pub addresses : (s'.user_vaddr thread).vaddr_bitmap.length ≡ user_length
  pub others : (t : ℕ) → t ≢ thread → s'.sys.task t ≡ s.sys.task t

-- The new process's task
abbrev task_of : (dir pid : ℕ) → Task
task_of dir pid = record {
  status = ready;
  priority = u8 32;
  pid = pid;
  ava_time = u32 32;
  elapsed_time = 0;
  page_dir = dir;
  stack_magic_num = 0x1998_0312;
}

abbrev mem_with : (dir : ℕ) → Mem → Mem
mem_with dir m =
    let word = copy_words 256 (u32 (dir + 0x300 * 4)) (u32 (0xffff_f000 + 0x300 * 4)) m.word in
    record m { word = update word (dir + 1023 * 4) (entry_of (vaddr_to_phy word dir)) }

abbrev tasks_with : (thread dir : ℕ) → Sys → ℕ → Task
tasks_with thread dir s =
    let task = update s.task thread (task_of 0 s.next_pid) in
    update task thread (record (task thread) { page_dir = dir })

abbrev sys_with : IntrStat → (thread dir : ℕ) → Sys → Sys
sys_with stale thread dir s =
    let g = guarded stale (guarded stale s) in
    restore stale g.intr (record (off g) {
      task = tasks_with thread dir s;
      next_pid = u16 (s.next_pid + 1);
      all_list = s.all_list ++ thread ∷ [];
      ready_list = s.ready_list ++ thread ∷ [];
    })

tasks_with-here :
    (thread dir : ℕ) (s : Sys) → tasks_with thread dir s thread ≡ task_of dir s.next_pid
tasks_with-here thread dir s =
    let first = task_of 0 s.next_pid in
    let task = update s.task thread first in
    let e : task thread ≡ first = update-here s.task thread first in
    update-here task thread (record (task thread) { page_dir = dir })
    ∙ ap (λ (t : Task). record t { page_dir = dir }) e

sys_with-IsValid :
    (stale : IntrStat) (thread dir : ℕ) (s : Sys)
    → IsValid s
    → (has s.current s.all_list ≡ true) × (has s.idle s.all_list ≡ true)
    → (0 < thread) × (has thread s.all_list ≡ false) × (has thread s.ready_list ≡ false)
    → IsValid (sys_with stale thread dir s)
sys_with-IsValid stale thread dir s v known new =
    let apart = ne_of_has s.all_list thread s.current known.0 new.1 in
    let apart' = ne_of_has s.all_list thread s.idle known.1 new.1 in
    record {
      distinct = Distinct-append s.ready_list thread v.distinct new.2;
      queued = λ t h. ground (arith, v.queued t, has-append t s.ready_list (thread ∷ []), h);
      runs = ground (arith, apart, v.runs);
      idle_somewhere =
          ground (arith, apart', v.idle_somewhere, has-append s.idle s.ready_list (thread ∷ []));
      no_null = ground (arith, v.no_null, new.0, has-append 0 s.ready_list (thread ∷ []));
    }

-- If get_kern_pages finds the three runs of pages that it is asked for, the first of them a page that
-- is not on the list of tasks, on which the running and the idle task are, and if numbers are left,
-- process_execute succeeds; the new process is Started, the other tasks are as they were, and the
-- state stays valid for the scheduler.
pub process_execute-Started :
    (stale : IntrStat) (kthread start prog : ℕ) (bits : ℕ → ℕ) (s : Procs) (thread pages dir : ℕ)
    (m1 m2 m3 : Mem)
    → IsValid s.sys
    → (has s.sys.current s.sys.all_list ≡ true) × (has s.sys.idle s.sys.all_list ≡ true)
    → s.sys.next_pid < 0xffff
    → (0 < thread) × (has thread s.sys.all_list ≡ false) × (has thread s.sys.ready_list ≡ false)
    → get_kern_pages 1 s.mem ≡ ok (some thread, m1)
    → get_kern_pages (div_round_up user_length page_size) m1 ≡ ok (some pages, m2)
    → get_kern_pages 1 m2 ≡ ok (some dir, m3)
    → (s' : Procs) × (process_execute stale kthread start prog bits s ≡ ok s')
      × Started thread dir kthread start prog s s'
unfolding process_execute create_page_dir create_user_vaddr_bitmap task_struct_init allocate_pid
    enlist thread_create init
process_execute-Started stale kthread start prog bits s thread pages dir m1 m2 m3 v known num new g1
      g2 g3 =
    let t0 : (thread == 0) ≡ false = ground (arith, new.0) in
    let left : (s.sys.next_pid == 0xffff) ≡ false = ground (arith, num) in
    let not_ready = new.2 in
    let not_listed = new.1 in
    (
      record {
        mem = mem_with dir m3;
        sys = sys_with stale thread dir s.sys;
        kstack =
            update s.kstack thread (thread_create kthread (u32 (thread + 2 ^ 12)) start prog).0;
        stack = update s.stack thread (thread_create kthread (u32 (thread + 2 ^ 12)) start prog).1;
        user_vaddr = update s.user_vaddr thread (record {
          vaddr_bitmap = init (record { length = 0; bits = bits }) user_length;
          vaddr_start = user_vaddr_start;
        });
        um_block_descs = update s.um_block_descs thread mem_block_init;
      },
      rw (g1, t0, left, g2, g3, not_listed, not_ready) refl,
      record {
        valid = sys_with-IsValid stale thread dir s.sys v known new;
        queued = refl;
        listed = refl;
        numbered = ap (λ (t : Task). t.pid) (tasks_with-here thread dir s.sys);
        counted = omega (arith, num);
        directed = ap (λ (t : Task). t.page_dir) (tasks_with-here thread dir s.sys);
        returns = ap (λ (x : ThreadStack). x.eip) (update-here s.stack thread _);
        runs = (
          ap (λ (x : ThreadStack). x.func) (update-here s.stack thread _),
          ap (λ (x : ThreadStack). x.func_arg) (update-here s.stack thread _),
        );
        addresses =
            ap (λ (x : VirtualAddr). x.vaddr_bitmap.length) (update-here s.user_vaddr thread _);
        others = λ t ne.
            let first = task_of 0 s.sys.next_pid in
            let task = update s.sys.task thread first in
            update-other task thread (record (task thread) { page_dir = dir }) t ne
            ∙ update-other s.sys.task thread first t ne;
      },
    )
