-- ===== src/Proc/Tests.antt =====
-- A process started from the main thread, on a memory of 32 pages.
use xbay_os.Bitmap.{Bitmap, scan, scan_run, set, has}
use xbay_os.Base.Bytes.{bit, with_bit}
use xbay_os.Thread.Queue.{IsValid}
use xbay_os.Thread.{Status, Sys, Task, blocked, running}
use xbay_os.Proc.Stack.{thread_create-start_process}
use xbay_os.Proc.Space.{create_page_dir-pde_ptr}
use xbay_os.Proc.Execute.{Started, process_execute-Started}
use xbay_os.Proc.{
  IntrStack, Procs, create_page_dir, intr_stack_bytes, process_execute, start_process,
  thread_create, thread_stack_bytes, user_length, user_stack_vaddr, user_vaddr_start,
}
use xbay_os.Intr.{intr_off, intr_on}
use xbay_os.Base.{
  Option, Run, false, if◌then◌else◌, ok, ℕ, ◌==◌, [], arith, hang, inl, panic, refl, some, true,
  ◌%◌, ◌*◌, ◌+◌, ◌/◌, ◌<◌, ◌^◌, ◌∷◌, ◌≡◌, ◌≤◌, ◌⊎◌,
}
use xbay_os.Memory.{Mem, get_kern_pages, entry_of, get_page, pde_ptr, pf_user, vaddr_to_phy}
use xbay_os.Memory.Example.{page_base, words}

-- Bitmaps of four bytes: 32 pages and frames
abbrev bitmap : Bitmap
bitmap = record { length = 4; bits = λ i. if i == 0 then 1 else 0 }

abbrev larger : Mem
larger = record {
  kern_pool = record {
    pool_bitmap = bitmap;
    phy_addr_start = 0x0020_0000;
    pool_size = 0x2_0000;
    depth = 0;
  };
  user_pool = record {
    pool_bitmap = bitmap;
    phy_addr_start = 0x0022_0000;
    pool_size = 0x2_0000;
    depth = 0;
  };
  kern_vaddr = record { vaddr_bitmap = bitmap; vaddr_start = page_base };
  user_vaddr = record { vaddr_bitmap = bitmap; vaddr_start = 0x0804_8000 };
  is_process = false;
  word = words;
}

abbrev mem_of : Run (Option ℕ × Mem) → Mem
mem_of (ok (o, m)) = m
mem_of panic = larger
mem_of hang = larger

abbrev first_left : Mem
first_left = mem_of (get_kern_pages 1 larger)

abbrev second_left : Mem
second_left = mem_of (get_kern_pages 23 first_left)

abbrev third_left : Mem
third_left = mem_of (get_kern_pages 1 second_left)

first_got : get_kern_pages 1 larger ≡ ok (some 0xc010_1000, first_left)
unfolding get_kern_pages scan scan_run set has with_bit bit
first_got = refl

second_got : get_kern_pages 23 first_left ≡ ok (some 0xc010_2000, second_left)
unfolding get_kern_pages scan scan_run set has with_bit bit
second_got = refl

third_got : get_kern_pages 1 second_left ≡ ok (some 0xc011_9000, third_left)
unfolding get_kern_pages scan scan_run set has with_bit bit
third_got = refl

create_page_dir-pde_ptr_example :
    (m' : Mem) × (create_page_dir larger ≡ ok (0xc010_1000, m'))
    × ((vaddr : ℕ)
        → 0xc000_0000 ≤ vaddr
        → vaddr < 0xffc0_0000
        → m'.word (0xc010_1000 + vaddr / 2 ^ 22 * 4) ≡ first_left.word (pde_ptr vaddr))
    × (m'.word (0xc010_1000 + 1023 * 4) ≡ entry_of (vaddr_to_phy first_left.word 0xc010_1000))
    × ((vaddr : ℕ)
        → vaddr < 0xc000_0000
        → m'.word (0xc010_1000 + vaddr / 2 ^ 22 * 4)
          ≡ first_left.word (0xc010_1000 + vaddr / 2 ^ 22 * 4))
    × ((a : ℕ) → (a < 0xc010_1000) ⊎ (0xc010_1000 + 2 ^ 12 ≤ a) → m'.word a ≡ first_left.word a)
create_page_dir-pde_ptr_example =
    create_page_dir-pde_ptr larger first_left 0xc010_1000 first_got (omega arith) (omega arith)

abbrev task : Status → ℕ → Task
task st n = record {
  status = st;
  priority = 32;
  pid = n;
  ava_time = 0;
  elapsed_time = 0;
  page_dir = 0;
  stack_magic_num = 0x1998_0312;
}

-- The main thread runs and the idle thread is blocked.
abbrev two : Sys
two = record {
  task = λ t. if t == 0x1000 then task running 0 else task blocked 1;
  current = 0x1000;
  ready_list = [];
  all_list = 0x1000 ∷ 0x2000 ∷ [];
  idle = 0x2000;
  next_pid = 2;
  intr = intr_on;
  cr3 = 0;
  esp0 = 0;
  total_times = 7;
}

two-IsValid : IsValid two
two-IsValid = record {
  distinct = tt;
  queued = λ t h. ground arith;
  runs = refl;
  idle_somewhere = inl refl;
  no_null = ground arith;
}

abbrev procs : Procs
procs = record {
  mem = larger;
  sys = two;
  kstack = λ t. 0;
  stack = λ t. record {
    ebp = 0;
    ebx = 0;
    edi = 0;
    esi = 0;
    eip = 0;
    retaddr = 0;
    func = 0;
    func_arg = 0;
  };
  user_vaddr = λ t. larger.user_vaddr;
  um_block_descs = λ t. [];
}

process_execute-Started_example :
    (s' : Procs) × (process_execute intr_off 0x500 0x600 0x700 (λ i. 0) procs ≡ ok s')
    × Started 0xc010_1000 0xc011_9000 0x500 0x600 0x700 procs s'
process_execute-Started_example =
    process_execute-Started intr_off 0x500 0x600 0x700 (λ i. 0) procs 0xc010_1000 0xc010_2000
      0xc011_9000 first_left second_left third_left two-IsValid (refl, refl) (omega arith)
      (omega arith, refl, refl) first_got second_got third_got

-- A process's view of the memory
abbrev inside : Mem
inside = record larger {
  is_process = true;
  user_vaddr = record {
    vaddr_bitmap = record { length = user_length; bits = λ i. 0 };
    vaddr_start = user_vaddr_start;
  };
}

abbrev stack_left : Mem
stack_left = mem_of (get_page pf_user user_stack_vaddr inside)

stack_got : get_page pf_user user_stack_vaddr inside ≡ ok (some user_stack_vaddr, stack_left)
unfolding get_page scan set has with_bit bit
stack_got = refl

abbrev context : IntrStack
context = record {
  vec_no = 0;
  edi = 1;
  esi = 2;
  ebp = 3;
  esp_dummy = 4;
  ebx = 5;
  edx = 6;
  ecx = 7;
  eax = 8;
  gs = 9;
  fs = 10;
  es = 11;
  ds = 12;
  error_code = 13;
  eip = 14;
  cs = 15;
  eflags = 16;
  esp = 17;
  ss = 18;
}

thread_create-start_process_example :
    let (kstack, stack) = thread_create 0x500 (0xc010_1000 + 2 ^ 12) 0x600 0x700 in
    (at : ℕ) × (c : IntrStack) × (start_process 0x700 kstack context inside
      ≡ ok (at, c, stack_left))
    × (0xc010_1000 + 3664 ≤ kstack)
    × (kstack + thread_stack_bytes ≤ at)
    × (at + intr_stack_bytes ≤ 0xc010_1000 + 2 ^ 12)
    × ((stack.eip ≡ 0x500) × (stack.func ≡ 0x600) × (stack.func_arg ≡ 0x700))
    × ((c.eip ≡ 0x700) × (c.esp ≡ 0xc000_0000))
    × ((c.cs % 4 ≡ 3) × (c.ss % 4 ≡ 3) × (c.ds % 4 ≡ 3))
    × (c.eflags / 2 ^ 9 % 2 ≡ 1)
thread_create-start_process_example =
    thread_create-start_process 0xc010_1000 0x500 0x600 0x700 context inside stack_left
      (omega arith) stack_got
