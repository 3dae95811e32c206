-- ===== src/Proc.antt =====
-- proc/process.c but for process_activate, which is Thread's, and the stacks of thread/thread.h with
-- thread_create of thread/thread.c. The words of the page directories are in the same map as the
-- window of the page tables, at their addresses. The jump of start_process to intr_exit is assembly.
pub mod Stack
pub mod Space
pub mod Execute
mod Tests
use xbay_os.Intr.{IntrStat}
use xbay_os.Base.{
  List, Option, Run, [], assert, div_round_up, false, has, length, none, not, ok, panic, some,
  sub32, suc, u32, update, zero, ℕ, ◌*◌, ◌++◌, ◌+◌, ◌-◌, ◌/◌, ◌>>=◌, ◌>>◌, ◌^◌, ◌∷◌,
}
use xbay_os.Bitmap.{Bitmap, init}
use xbay_os.Heap.{Desc, mem_block_init}
use xbay_os.Memory.{
  Mem, VirtualAddr, entry_of, get_kern_pages, get_page, page_size, pf_user, vaddr_to_phy,
}
use xbay_os.Thread.{Sys, off, restore, task_struct_init}

-- struct __intr_stack
pub record IntrStack : Type 0 where
  pub vec_no : ℕ
  pub edi : ℕ
  pub esi : ℕ
  pub ebp : ℕ
  pub esp_dummy : ℕ
  pub ebx : ℕ
  pub edx : ℕ
  pub ecx : ℕ
  pub eax : ℕ
  pub gs : ℕ
  pub fs : ℕ
  pub es : ℕ
  pub ds : ℕ
  pub error_code : ℕ
  pub eip : ℕ
  pub cs : ℕ
  pub eflags : ℕ
  pub esp : ℕ
  pub ss : ℕ

-- struct __thread_stack
pub record ThreadStack : Type 0 where
  pub ebp : ℕ
  pub ebx : ℕ
  pub edi : ℕ
  pub esi : ℕ
  pub eip : ℕ
  pub retaddr : ℕ
  pub func : ℕ
  pub func_arg : ℕ

-- sizeof(intr_stack) and sizeof(thread_stack)
abbrev pub intr_stack_bytes : ℕ
intr_stack_bytes = 19 * 4

abbrev pub thread_stack_bytes : ℕ
thread_stack_bytes = 8 * 4

-- thread_create: the new kstack and the stack that it points to. kstack is a pointer to words, so that
-- the sizes in bytes move it by four times as many.
unfoldable pub thread_create : (kthread kstack func func_args : ℕ) → ℕ × ThreadStack
thread_create kthread kstack func func_args = (
  sub32 (sub32 kstack (4 * intr_stack_bytes)) (4 * thread_stack_bytes),
  record {
    ebp = 0;
    ebx = 0;
    edi = 0;
    esi = 0;
    eip = kthread;
    retaddr = 0;
    func = func;
    func_arg = func_args;
  },
)

-- SELECTOR_U_CODE and SELECTOR_U_DATA
abbrev pub selector_u_code : ℕ
selector_u_code = 5 * 2 ^ 3 + 0 * 2 ^ 2 + 3

abbrev pub selector_u_data : ℕ
selector_u_data = 6 * 2 ^ 3 + 0 * 2 ^ 2 + 3

-- EFLAGS_IOPL_0 | EFLAGS_MBS | EFLAGS_IF_1, which have no bit in common
abbrev pub user_eflags : ℕ
user_eflags = 0 * 2 ^ 12 + 1 * 2 ^ 1 + 1 * 2 ^ 9

-- USER_STACK_VADDR and USER_VADDR_START
abbrev pub user_stack_vaddr : ℕ
user_stack_vaddr = 0xc000_0000 - 0x1000

abbrev pub user_vaddr_start : ℕ
user_vaddr_start = 0x0804_8000

-- A pointer that may be NULL
abbrev pub pointer : Option ℕ → ℕ
pointer none = 0
pointer (some a) = a

-- start_process up to intr_exit: the address of the context and the context. `context` is what stood
-- there, which vec_no and error_code keep.
unfoldable pub start_process :
    (prog kstack : ℕ) → (context : IntrStack) → Mem → Run (ℕ × IntrStack × Mem)
start_process prog kstack context m = get_page pf_user user_stack_vaddr m >>= λ (page, m'). ok (
  u32 (kstack + 4 * thread_stack_bytes),
  record context {
    edi = 0;
    esi = 0;
    ebp = 0;
    esp_dummy = 0;
    ebx = 0;
    edx = 0;
    ecx = 0;
    eax = 0;
    gs = 0;
    ds = selector_u_data;
    es = selector_u_data;
    fs = selector_u_data;
    eip = prog;
    cs = selector_u_code;
    eflags = user_eflags;
    esp = u32 (pointer page + page_size);
    ss = selector_u_data;
  },
  m',
)

-- The length of the bitmap of a process's addresses, in bytes
abbrev pub user_length : ℕ
user_length = (0xc000_0000 - user_vaddr_start) / page_size / 8

-- bitmap_init of the pages; the memset in it refuses NULL
abbrev pub user_bitmap : (bits : ℕ → ℕ) → Option ℕ × Mem → Run (VirtualAddr × Mem)
user_bitmap bits (none, m) = panic
user_bitmap bits (some a, m) = ok (
  record {
    vaddr_bitmap = init (record { length = 0; bits = bits }) user_length;
    vaddr_start = user_vaddr_start;
  },
  m,
)

-- create_user_vaddr_bitmap; `bits` is what the pages hold
unfoldable pub create_user_vaddr_bitmap : (bits : ℕ → ℕ) → Mem → Run (VirtualAddr × Mem)
create_user_vaddr_bitmap bits m =
    get_kern_pages (div_round_up user_length page_size) m >>= user_bitmap bits

-- memcpy of whole words
unfoldable pub copy_words : (left dest src : ℕ) → (ℕ → ℕ) → ℕ → ℕ
copy_words zero dest src word = word
copy_words (suc left) dest src word =
    copy_words left (dest + 4) (src + 4) (update word dest (word src))

-- The directory that create_page_dir fills
abbrev pub filled_dir : Option ℕ × Mem → Run (ℕ × Mem)
filled_dir (none, m) = panic
filled_dir (some dir, m) =
    let word = copy_words 256 (u32 (dir + 0x300 * 4)) (u32 (0xffff_f000 + 0x300 * 4)) m.word in
    ok (dir, record m { word = update word (dir + 1023 * 4) (entry_of (vaddr_to_phy word dir)) })

-- create_page_dir
unfoldable pub create_page_dir : Mem → Run (ℕ × Mem)
create_page_dir m = get_kern_pages 1 m >>= filled_dir

-- What process_execute changes: memory and tasks, and by task what its task_struct has besides
pub record Procs : Type 0 where
  pub mem : Mem
  pub sys : Sys
  pub kstack : ℕ → ℕ
  pub stack : ℕ → ThreadStack
  pub user_vaddr : ℕ → VirtualAddr
  pub um_block_descs : ℕ → List Desc

-- The end of process_execute: the task goes to both lists.
unfoldable pub enlist : (stale : IntrStat) → (thread : ℕ) → Sys → Run Sys
enlist stale thread s0 =
    let s = off s0 in
    do
      assert (not (has thread s.all_list))
      assert (not (has thread s.ready_list))
      ok (
          restore stale s0.intr (record s {
            all_list = s.all_list ++ thread ∷ [];
            ready_list = s.ready_list ++ thread ∷ [];
          }))

-- process_execute; kthread and start_process are the addresses of these functions, and the new page is
-- not that of the main thread. DEFAULT_THREAD_PRIO is 32.
unfoldable pub process_execute :
    (stale : IntrStat) → (kthread start_process prog : ℕ) → (bits : ℕ → ℕ) → Procs → Run Procs
process_execute stale kthread start_process prog bits s = do
  (page, m1) ← get_kern_pages 1 s.mem
  let thread = pointer page
  sys1 ← task_struct_init stale false thread 32 s.sys
  (va, m2) ← create_user_vaddr_bitmap bits m1
  let (top, stack) = thread_create kthread (u32 (thread + 2 ^ 12)) start_process prog
  (dir, m3) ← create_page_dir m2
  let task = update sys1.task thread (record (sys1.task thread) { page_dir = dir })
  sys2 ← enlist stale thread (record sys1 { task = task })
  ok (record {
    mem = m3;
    sys = sys2;
    kstack = update s.kstack thread top;
    stack = update s.stack thread stack;
    user_vaddr = update s.user_vaddr thread va;
    um_block_descs = update s.um_block_descs thread mem_block_init;
  })
