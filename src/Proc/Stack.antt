-- ===== src/Proc/Stack.antt =====
-- The stacks of a new process: where thread_create and start_process put them.
use xbay_os.Base.{ok, some, ℕ, ◌%◌, ◌+◌, ◌/◌, ◌<◌, ◌^◌, ◌≡◌, ◌≤◌, arith, refl, sub32, u32}
use xbay_os.Proc.{
  IntrStack, intr_stack_bytes, start_process, thread_create, thread_stack_bytes, user_stack_vaddr,
  selector_u_code, selector_u_data, user_eflags,
}
use xbay_os.Memory.{Mem, get_page, pf_user}

-- A process starts as it should if get_page maps its user stack: from the kstack that task_struct_init
-- gives the page of its task, thread_create puts a stack that returns to kthread with start_process
-- and the program as arguments, and start_process then finds the context for intr_exit behind that
-- stack. The stack, the context and the bottom 3664 bytes of the page, where the task_struct
-- stands, do not overlap, and both lie in the page. The context enters the program at privilege level
-- 3, with interrupts on and the stack pointer at the end of the user stack's page.
pub thread_create-start_process :
    (thread kthread start prog : ℕ) (context : IntrStack) (m m' : Mem)
    → thread + 2 ^ 12 < 2 ^ 32
    → get_page pf_user user_stack_vaddr m ≡ ok (some user_stack_vaddr, m')
    → let (kstack, stack) = thread_create kthread (thread + 2 ^ 12) start prog in
      (at : ℕ) × (c : IntrStack) × (start_process prog kstack context m ≡ ok (at, c, m'))
      × (thread + 3664 ≤ kstack)
      × (kstack + thread_stack_bytes ≤ at)
      × (at + intr_stack_bytes ≤ thread + 2 ^ 12)
      × ((stack.eip ≡ kthread) × (stack.func ≡ start) × (stack.func_arg ≡ prog))
      × ((c.eip ≡ prog) × (c.esp ≡ 0xc000_0000))
      × ((c.cs % 4 ≡ 3) × (c.ss % 4 ≡ 3) × (c.ds % 4 ≡ 3))
      × (c.eflags / 2 ^ 9 % 2 ≡ 1)
unfolding thread_create start_process
thread_create-start_process thread kthread start prog context m m' low h =
    let top : sub32 (sub32 (thread + 4096) 304) 128 ≡ thread + 3664 = omega (arith, low) in
    let at : u32 (thread + 3664 + 128) ≡ thread + 3792 = omega (arith, low) in
    (
      thread + 3792,
      record context {
        edi = 0;
        esi = 0;
        ebp = 0;
        esp_dummy = 0;
        ebx = 0;
        edx = 0;
        ecx = 0;
        eax = 0;
        gs = 0;
        ds = selector_u_data;
        es = selector_u_data;
        fs = selector_u_data;
        eip = prog;
        cs = selector_u_code;
        eflags = user_eflags;
        esp = 0xc000_0000;
        ss = selector_u_data;
      },
      rw (h, top, at) refl,
      rw top (omega arith),
      rw top (omega arith),
      omega arith,
      (refl, refl, refl),
      (refl, refl),
      (refl, refl, refl),
      refl,
    )
