-- ===== src/IoQueue/Tests.antt =====
-- A ring that wraps around the end of the buffer, and an empty one.
use xbay_os.Thread.Queue.{IsValid}
use xbay_os.Thread.{Sys, blocked, running}
use xbay_os.Lock.{Wait, done, sem_init}
use xbay_os.IoQueue.Ring.{Holds}
use xbay_os.IoQueue.{IoQueue, io_queue_getchar, io_queue_putchar}
use xbay_os.Intr.{intr_off}
use xbay_os.Base.{Option, [], arith, if◌then◌else◌, inl, ok, refl, some, ℕ, ◌==◌, ◌∷◌, ◌≡◌}
use xbay_os.IoQueue.Fifo.{Woken, unread, io_queue_putchar-Holds, Got, io_queue_getchar-Holds}

abbrev two : IoQueue
two = record {
  slots = record { value = 62; waiters = [] };
  items = record { value = 2; waiters = [] };
  mutex = sem_init 1;
  buffer = λ i. if i == 63 then 0x61 else 0x62;
  front = 63;
  rear = 1;
}

two-Holds : Holds (0x61 ∷ 0x62 ∷ []) two
two-Holds = record {
  fits = omega arith;
  front_in = omega arith;
  rear_at = refl;
  content = (refl, (refl, tt));
  items_count = refl;
  slots_count = refl;
  unlocked = refl;
  nobody = (refl, refl, refl);
}

abbrev lone : Sys
lone = record {
  task = λ t. record {
    status = if t == 0x1000 then running else blocked;
    priority = 32;
    pid = 1;
    ava_time = 0;
    elapsed_time = 0;
    page_dir = 0;
    stack_magic_num = 0x1998_0312;
  };
  current = 0x1000;
  ready_list = [];
  all_list = 0x1000 ∷ 0x3000 ∷ [];
  idle = 0x3000;
  next_pid = 2;
  intr = intr_off;
  cr3 = 0;
  esp0 = 0;
  total_times = 7;
}

lone-IsValid : IsValid lone
lone-IsValid = record {
  distinct = ground arith;
  queued = λ t h. ground arith;
  runs = refl;
  idle_somewhere = inl refl;
  no_null = ground arith;
}

-- The same ring, with a thread that waits for a character, or for a slot
abbrev read : IoQueue
read = record two { items = record { value = 2; waiters = 0x2000 ∷ [] } }

abbrev written : IoQueue
written = record two { slots = record { value = 62; waiters = 0x2000 ∷ [] } }

io_queue_putchar-Holds_example :
    (q' : IoQueue) × (s' : Sys) × (io_queue_putchar (λ a. a) intr_off 0x63 read lone
      ≡ ok (done (some tt, q', s')))
    × Holds (0x61 ∷ 0x62 ∷ 0x63 ∷ []) (unread q')
    × (s'.current ≡ 0x1000)
    × Woken (0x2000 ∷ []) q'.items.waiters [] s'
io_queue_putchar-Holds_example =
    io_queue_putchar-Holds (λ a. a) intr_off 0x63 (0x61 ∷ 0x62 ∷ []) read lone two-Holds
      (refl, refl) lone-IsValid

io_queue_getchar-Holds_example :
    (r : Wait (Option ℕ × IoQueue × Sys)) × (io_queue_getchar (λ a. a) intr_off written lone ≡ ok r)
    × Got lone written (0x61 ∷ 0x62 ∷ []) r
io_queue_getchar-Holds_example =
    io_queue_getchar-Holds (λ a. a) intr_off (0x61 ∷ 0x62 ∷ []) written lone two-Holds (refl, refl)
      lone-IsValid
