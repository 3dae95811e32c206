-- ===== src/Thread/Boot.antt =====
-- make_main_thread and thread_init of thread/thread.c: the tasks at the start.
use xbay_os.Base.Update.{update-here, update-other}
use xbay_os.Base.{
  Run, [], arith, assert, false, has, not, ok, true, u16, ℕ, ◌++◌, ◌+◌, ◌<◌, ◌==◌, ◌>>=◌, ◌>>◌, ◌∷◌,
  ◌≡◌, ◌≢◌, inl, inr, refl, u32, u8, update, ap, sym, ◌∙◌,
}
use xbay_os.Thread.{Sys, task_struct_init, thread_start, ready, running, Task, IntrStat, guarded}
use xbay_os.Thread.Queue.{IsValid}

-- make_main_thread: the running thread is the main thread.
unfoldable pub make_main_thread : (stale : IntrStat) → Sys → Run Sys
unfolding task_struct_init
make_main_thread stale s = do
  s' ← task_struct_init stale true s.current 32 s
  assert (not (has s.current s'.all_list))
  ok (record (guarded stale s') { all_list = s'.all_list ++ s.current ∷ [] })

-- thread_init, given the page that get_kern_pages returns for the idle thread. The mutex of the
-- numbers is Lock's.
unfoldable pub thread_init : (stale : IntrStat) → (page : ℕ) → Sys → Run Sys
unfolding thread_start
thread_init stale page s = do
  s1 ← make_main_thread stale (record s { ready_list = []; all_list = [] })
  s2 ← thread_start stale page 10 s1
  ok (record s2 { idle = page })

-- thread_init, with a page for the idle thread other than the main thread's and with two numbers
-- left, succeeds and makes the state valid for the scheduler: the main thread runs, and the idle
-- thread alone is ready, with the next number.
pub thread_init-IsValid :
    (stale : IntrStat) (page : ℕ) (s : Sys)
    → (0 < s.current) × (0 < page) × (page ≢ s.current)
    → s.next_pid + 1 < 0xffff
    → (s' : Sys) × (thread_init stale page s ≡ ok s')
      × IsValid s'
      × (s'.current ≡ s.current)
      × (s'.ready_list ≡ page ∷ [])
      × ((s'.task s.current).pid ≡ s.next_pid)
      × ((s'.task page).pid ≡ s.next_pid + 1)
unfolding thread_init make_main_thread task_struct_init thread_start
thread_init-IsValid stale page s apart left =
    let m0 : (s.current == 0) ≡ false = ground (arith, apart.0) in
    let p0 : (page == 0) ≡ false = ground (arith, apart.1) in
    let l0 : (s.next_pid == 0xffff) ≡ false = ground (arith, left) in
    let l1 : (u16 (s.next_pid + 1) == 0xffff) ≡ false = ground (arith, left) in
    let ne : (page == s.current) ≡ false = ground (arith, apart.2) in
    let main : Task = record {
      status = running;
      priority = u8 32;
      pid = s.next_pid;
      ava_time = u32 32;
      elapsed_time = 0;
      page_dir = 0;
      stack_magic_num = 0x1998_0312;
    } in
    let idle : Task = record {
      status = ready;
      priority = u8 10;
      pid = u16 (s.next_pid + 1);
      ava_time = u32 10;
      elapsed_time = 0;
      page_dir = 0;
      stack_magic_num = 0x1998_0312;
    } in
    let task = update s.task s.current main in
    let s2 = guarded stale (guarded stale (guarded stale s)) in
    let s' = record (guarded stale (guarded stale (guarded stale (guarded stale s2)))) {
      task = update task page idle;
      ready_list = page ∷ [];
      all_list = s.current ∷ page ∷ [];
      idle = page;
      next_pid = u16 (u16 (s.next_pid + 1) + 1);
    } in
    (
      s',
      rw (m0, l0, p0, l1, ne) refl,
      record {
        distinct = (refl, tt);
        queued = λ t h. ground (arith, h);
        runs = ground (arith, apart.2);
        idle_somewhere = inr (inl (ground arith));
        no_null = ground (arith, apart.0, apart.1);
      },
      refl,
      refl,
      ap (λ (t : Task). t.pid)
          (update-other task page idle s.current (λ q. apart.2 (sym q))
            ∙ update-here s.task s.current main),
      ap (λ (t : Task). t.pid) (update-here task page idle) ∙ omega (arith, left),
    )
