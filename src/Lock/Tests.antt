-- ===== src/Lock/Tests.antt =====
-- Runs of the locks: a semaphore of value 1 taken and waited for, and a mutex of a lone task.
use xbay_os.Base.{◌≡◌, refl, arith, [], ◌∷◌, ok, ◌==◌, if◌then◌else◌, inl, ◌<◌}
use xbay_os.Base.{◌+◌, ◌≤◌, ◌⊎◌, length}
use xbay_os.Intr.{intr_off}
use xbay_os.Thread.{Sys, running, blocked}
use xbay_os.Thread.Queue.{IsValid}
use xbay_os.Lock.{Mutex, mutex_init, Wait, mutex_lock}
use xbay_os.Lock.Rounds.{start, next, down_take, down_wait, Reach-Inv, System}
use xbay_os.Lock.Mutual.{free, Locked, mutex_lock-Locked}

abbrev lone : Sys
lone = record {
  task = λ t. record {
    status = if t == 0x1000 then running else blocked;
    priority = 32;
    pid = 1;
    ava_time = 0;
    elapsed_time = 0;
    page_dir = 0;
    stack_magic_num = 0x1998_0312;
  };
  current = 0x1000;
  ready_list = [];
  all_list = 0x1000 ∷ 0x3000 ∷ [];
  idle = 0x3000;
  next_pid = 2;
  intr = intr_off;
  cr3 = 0;
  esp0 = 0;
  total_times = 7;
}

lone-IsValid : IsValid lone
lone-IsValid = record {
  distinct = ground arith;
  queued = λ t h. ground arith;
  runs = refl;
  idle_somewhere = inl refl;
  no_null = ground arith;
}

abbrev waited : System
waited = record {
  sem = record { value = 0; waiters = 0x2000 ∷ [] };
  woken = [];
  downs = 1;
  ups = 0;
}

Reach-Inv_example :
    (waited.sem.value + waited.downs ≡ 1 + waited.ups)
    × (waited.downs ≤ 1 + waited.ups)
    × ((waited.sem.waiters ≡ []) ⊎ ((waited.sem.value ≡ 0) ⊎ (0 < length waited.woken)))
Reach-Inv_example =
    Reach-Inv {value = 1} {s = waited} (omega arith)
      (next (next start (down_take (omega arith))) (down_wait 0x2000 refl))

mutex_lock-Locked_example :
    (r : Wait (Mutex × Sys)) × (mutex_lock (λ a. a) intr_off mutex_init lone ≡ ok r)
    × Locked mutex_init lone r
mutex_lock-Locked_example =
    mutex_lock-Locked (λ a. a) intr_off mutex_init lone (free refl refl refl) lone-IsValid
      (omega arith) refl
