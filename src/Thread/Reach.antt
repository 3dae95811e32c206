-- ===== src/Thread/Reach.antt =====
-- States of the scheduler: thread_init, and then steps, which are the returns of thread_block,
-- thread_yield, thread_unblock and thread_start, clock interrupts, and changes of the interrupt flag.
-- The starting of processes (Proc/Execute) is not among them.
use mathlib.Core.Path.{subst}
use xbay_os.Intr.{IntrStat, intr_off, same}
use xbay_os.Base.{
  Run, ok, true, ℕ, ◌+◌, ◌<◌, ◌≡◌, ◌≢◌, Bool-cases, has, inl, inr, refl, sym, ◌==◌, ◌∙◌,
  Distinct-append, [], arith, has-append, ◌∷◌,
}
use xbay_os.Thread.Queue.{IsValid}
use xbay_os.Thread.Boot.{thread_init, thread_init-IsValid}
use xbay_os.Thread.Switch.{
  thread_block-Switched, thread_unblock-first, thread_yield-Switched, time_intr_handler-Switched,
}
use xbay_os.Thread.{
  Sys, is_blocked, thread_block, thread_start, thread_unblock, thread_yield, time_intr_handler,
  Status, task_struct_init,
}

module _ (phys : ℕ → ℕ) (stale : IntrStat) where
  -- The returns of thread.c's functions and of the clock interrupt. A clock interrupt comes with
  -- interrupts off, which its gate and iret turn off and on, and finds the magic number of the task that runs; a new task's page is neither
  -- that of the running task nor that of the idle one.
  pub data Step (s s' : Sys) : Type 0 where
    block :
        (state : Status)
        → is_blocked state ≡ true
        → thread_block phys stale state s ≡ ok s'
        → Step s s'
    yield : thread_yield phys stale s ≡ ok s' → Step s s'
    unblock : (t : ℕ) → t ≢ 0 → thread_unblock stale t s ≡ ok s' → Step s s'
    clock :
        s.intr ≡ intr_off
        → (s.task s.current).stack_magic_num ≡ 0x1998_0312
        → time_intr_handler phys stale s ≡ ok s'
        → Step s s'
    start :
        (thread prio : ℕ)
        → (thread ≢ s.current) × (thread ≢ s.idle)
        → thread_start stale thread prio s ≡ ok s'
        → Step s s'
    flag : (intr : IntrStat) → s' ≡ record s { intr = intr } → Step s s'

  pub data Reach (page : ℕ) (s0 : Sys) : Sys → Type 0 where
    booted : {s : Sys} → thread_init stale page s0 ≡ ok s → Reach page s0 s
    later : {s t : Sys} → Reach page s0 s → Step s t → Reach page s0 t

  ok_inj {ℓ} : {A : Type ℓ} (a b : A) → ok a ≡ ok b → a ≡ b
  ok_inj a b e = cc

  -- A result that is valid is the one that a run returns.
  returned : (run : Run Sys) (a b : Sys) → run ≡ ok a → run ≡ ok b → IsValid a → IsValid b
  returned run a b ha hb v = let e : a ≡ b = ok_inj a b (sym ha ∙ hb) in subst IsValid e v

  thread_start-IsValid :
      (thread prio : ℕ) (s s' : Sys)
      → IsValid s
      → (thread ≢ s.current) × (thread ≢ s.idle)
      → thread_start stale thread prio s ≡ ok s'
      → IsValid s'
  unfolding thread_start task_struct_init
  thread_start-IsValid thread prio s s' v apart h = elim (Bool-cases (thread == 0)) [
    | inl e ↦ let h' = rw e at h in cc
    | inr nz ↦ elim (Bool-cases (s.next_pid == 0xffff)) [
      | inl e ↦ let h' = rw (nz, e) at h in cc
      | inr left ↦ elim (Bool-cases (has thread s.ready_list)) [
        | inl e ↦ let h' = rw (nz, left, e) at h in cc
        | inr out ↦ elim (Bool-cases (has thread s.all_list)) [
          | inl e ↦ let h' = rw (nz, left, out, e) at h in cc
          | inr new ↦
              let h' = rw (nz, left, out, new) at h in
              returned _ _ s' refl h' (record {
                distinct = Distinct-append s.ready_list thread v.distinct out;
                queued =
                    λ t q. ground (arith, v.queued t, has-append t s.ready_list (thread ∷ []), q);
                runs = ground (arith, apart.0, v.runs);
                idle_somewhere = ground (
                  arith,
                  apart.1,
                  v.idle_somewhere,
                  has-append s.idle s.ready_list (thread ∷ []),
                );
                no_null = ground (arith, nz, v.no_null, has-append 0 s.ready_list (thread ∷ []));
              })
        ]
      ]
    ]
  ]

  unblock-IsValid :
      (t : ℕ) (s s' : Sys) → IsValid s → t ≢ 0 → thread_unblock stale t s ≡ ok s' → IsValid s'
  unblock-IsValid t s s' v ne h =
      let any = thread_unblock-first phys stale s t v ne in
      elim (Bool-cases (is_blocked (s.task t).status)) [
        | inl b ↦ let (s1, run, valid, queue, same) = rw b at any in returned _ s1 s' run h valid
        | inr b ↦ let none = rw b at any in cc
      ]

  clock-IsValid :
      (s s' : Sys)
      → IsValid s
      → s.intr ≡ intr_off
      → (s.task s.current).stack_magic_num ≡ 0x1998_0312
      → time_intr_handler phys stale s ≡ ok s'
      → IsValid s'
  clock-IsValid s s' v masked magic h =
      let (s1, run, any) = time_intr_handler-Switched phys stale s v masked magic in
      elim (Bool-cases ((s.task s.current).ava_time == 0)) [
        | inl e ↦ let (sw, ran) = rw e at any in returned _ s1 s' run h sw.valid
        | inr e ↦ let (valid, all) = rw e at any in returned _ s1 s' run h valid
      ]

  Step-IsValid : {s s' : Sys} → IsValid s → Step s s' → IsValid s'
  Step-IsValid v (block state b h) =
      let (s1, run, sw, ran) = thread_block-Switched phys stale _ v state b in
      returned _ s1 _ run h sw.valid
  Step-IsValid v (yield h) =
      let (s1, run, sw, ran) = thread_yield-Switched phys stale _ v in
      returned _ s1 _ run h sw.valid
  Step-IsValid v (unblock t ne h) = unblock-IsValid t _ _ v ne h
  Step-IsValid v (clock masked magic h) = clock-IsValid _ _ v masked magic h
  Step-IsValid v (flag intr e) = subst IsValid (sym e) (record {
    distinct = v.distinct;
    queued = v.queued;
    runs = v.runs;
    idle_somewhere = v.idle_somewhere;
    no_null = v.no_null;
  })
  Step-IsValid v (start thread prio apart h) = thread_start-IsValid thread prio _ _ v apart h

  reached :
      (page : ℕ) (s0 s : Sys)
      → (0 < s0.current) × (0 < page) × (page ≢ s0.current)
      → s0.next_pid + 1 < 0xffff
      → Reach page s0 s
      → IsValid s
  reached page s0 s apart left (booted h) =
      let (s1, run, v, c, q, p1, p2) = thread_init-IsValid stale page s0 apart left in
      returned _ s1 s run h v
  reached page s0 s apart left (later r step) = Step-IsValid (reached page s0 _ apart left r) step

  -- Every state that returns of thread_block, thread_yield, thread_unblock and thread_start, clock
  -- interrupts and changes of the interrupt flag reach from thread_init is valid for the scheduler, so
  -- that there its
  -- running task can give the processor up by thread_yield and by thread_block in every blocked
  -- state: these calls return, in a valid state. The pages of the main and the idle thread are to
  -- differ, and two numbers to be left at the start.
  pub Reach-IsValid :
      (page : ℕ) (s0 s : Sys)
      → (0 < s0.current) × (0 < page) × (page ≢ s0.current)
      → s0.next_pid + 1 < 0xffff
      → Reach page s0 s
      → IsValid s
        × ((s' : Sys) × (thread_yield phys stale s ≡ ok s') × IsValid s')
        × ((state : Status)
            → is_blocked state ≡ true
            → (s' : Sys) × (thread_block phys stale state s ≡ ok s') × IsValid s')
  Reach-IsValid page s0 s apart left r =
      let v = reached page s0 s apart left r in
      let (s1, run1, sw1, ran1) = thread_yield-Switched phys stale s v in
      (
        v,
        (s1, run1, sw1.valid),
        λ state b.
            let (s2, run2, sw2, ran2) = thread_block-Switched phys stale s v state b in
            (s2, run2, sw2.valid),
      )
