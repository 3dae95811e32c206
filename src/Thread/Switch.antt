-- ===== src/Thread/Switch.antt =====
-- What thread_block, thread_yield, thread_unblock and the clock interrupt do to the ready queue.
use xbay_os.Base.Update.{update-here}
use xbay_os.Base.{
  ℕ, ◌+◌, ◌-◌, ◌%◌, ◌^◌, ◌≡◌, ◌≢◌, inl, inr, refl, true, false, [], ◌∷◌, ◌++◌, has, has-append,
  Distinct-append, u32, arith, ok, ◌==◌, if◌then◌else◌, update, Bool-cases, ap, ◌∙◌, panic,
}
use xbay_os.Intr.{IntrStat, intr_off, same}
use xbay_os.Thread.{
  Status, Task, ready, is_blocked, is_running, Sys, set_status_of, off, thread_unblock, pick,
  schedule, thread_block, thread_yield, time_intr_handler,
}
use xbay_os.Thread.Queue.{IsValid}
use xbay_os.Thread.Pick.{
  IsPending, Switched, Ran, Ran-same, first, unblocked, thread_unblock_lem, pick_lem, pick_pending,
  schedule_stopped, requeued, schedule_running, disable_off,
}

-- A task that is stored twice
requeued_task :
    (task : ℕ → Task) (i : ℕ) (v : Task) (u : ℕ)
    → update
        (update task i v)
        i
        (record (update task i v i) { ava_time = (update task i v i).priority; status = ready })
        u
      ≡ update task i (record v { ava_time = v.priority; status = ready }) u
requeued_task task i v u = elim (Bool-cases (u == i)) [
  | inl e ↦
      let here = update-here task i v in
      rw (e, update) (ap (λ (x : Task). record x { ava_time = x.priority; status = ready }) here)
  | inr e ↦ rw (e, update, e) refl
]

module _ (phys : ℕ → ℕ) (stale : IntrStat) where
  module _ (s : Sys) (v : IsValid s) where
    current_out : has s.current s.ready_list ≡ false
    current_out = ground (arith, v.queued s.current, v.runs)

    -- thread_block puts the current task into the given blocked state and leaves the processor to
    -- the first ready task, or to the idle task if there is none, which then runs; all other tasks
    -- are as they were. It cannot fail on a valid state.
    pub thread_block-Switched :
        (state : Status)
        → is_blocked state ≡ true
        → (s' : Sys) × (thread_block phys stale state s ≡ ok s')
          × Switched s.ready_list s s'
          × Ran (set_status_of s.current state s).task s.total_times s'
    unfolding thread_block
    thread_block-Switched state b =
        let s1 = set_status_of s.current state (off s) in
        let here = current_out in
        let stopped : is_running (s1.task s1.current).status ≡ false = ground arith in
        let pend : IsPending s1 = record {
          distinct = v.distinct;
          queued = λ t h. ground (arith, v.queued t);
          idle_there = ground (arith, v.idle_somewhere);
          no_null = ground (arith, v.no_null);
        } in
        let (s', run, sw, ran) = pick_pending phys stale s1 pend in
        (
          s',
          rw b (schedule_stopped phys stale s1 (disable_off s.intr) stopped ∙ run),
          record { valid = sw.valid; chosen = sw.chosen; left = sw.left },
          ran,
        )

    -- The queue with the current task at its end is never empty, so the idle task is not woken.
    turn :
        (s1 : Sys)
        → s1.ready_list ≡ s.ready_list ++ s.current ∷ []
        → s1.idle ≡ s.idle
        → ((t : ℕ) → (s1.task t).status ≡ (if t == s.current then ready else (s.task t).status))
        → (s' : Sys) × (pick phys stale s1 ≡ ok s')
          × Switched (s.ready_list ++ s.current ∷ []) s s'
          × Ran s1.task s1.total_times s'
    turn s1 el ei st =
        let here = current_out in
        let pend : IsPending s1 = record {
          distinct = rw el (Distinct-append s.ready_list s.current v.distinct here);
          queued = λ t h.
              let h' : has t (s.ready_list ++ s.current ∷ []) ≡ true = rw el at h in
              ground (arith, st t, v.queued t, has-append t s.ready_list (s.current ∷ []));
          idle_there =
              rw (el, ei)
                (ground (
                  arith,
                  st s.idle,
                  v.idle_somewhere,
                  has-append s.idle s.ready_list (s.current ∷ []),
                ));
          no_null =
              rw (el, ei) (ground (arith, v.no_null, has-append 0 s.ready_list (s.current ∷ [])));
        } in
        let (s', run, sw, ran) = pick_lem phys stale (s.ready_list ++ s.current ∷ []) s1 el pend in
        (
          s',
          run,
          record {
            valid = sw.valid;
            chosen = sw.chosen ∙ ap (first (s.ready_list ++ s.current ∷ [])) ei;
            left = sw.left;
          },
          ran,
        )

    -- thread_yield sends the current task to the end of the queue and takes the first of the queue.
    pub thread_yield-Switched :
        (s' : Sys) × (thread_yield phys stale s ≡ ok s')
        × Switched (s.ready_list ++ s.current ∷ []) s s'
        × Ran (set_status_of s.current ready s).task s.total_times s'
    unfolding thread_yield
    thread_yield-Switched =
        let here = current_out in
        let s1 = set_status_of s.current ready (off s) in
        let s2 = record s1 { ready_list = s1.ready_list ++ s1.current ∷ [] } in
        let stopped : is_running (s2.task s2.current).status ≡ false = ground arith in
        let (s', run, sw, ran) = turn s2 refl refl (λ t. ground arith) in
        (s', rw here (schedule_stopped phys stale s2 (disable_off s.intr) stopped ∙ run), sw, ran)

    abbrev pub ticked : Task
    ticked = record (s.task s.current) { elapsed_time = u32 ((s.task s.current).elapsed_time + 1) }

    -- The clock interrupt, on a valid state, with interrupts off and the magic number intact: it counts the tick, for
    -- the current task too. While the time slice lasts it takes one from it and changes nothing
    -- else; when it is used up the task goes to the end of the queue with a new slice, READY, and
    -- the first of the queue runs. The other tasks are as they were.
    pub time_intr_handler-Switched :
        s.intr ≡ intr_off
        → (s.task s.current).stack_magic_num ≡ 0x1998_0312
        → (s' : Sys) × (time_intr_handler phys stale s ≡ ok s')
          × (if (s.task s.current).ava_time == 0
              then Switched (s.ready_list ++ s.current ∷ []) s s'
                × Ran
                    (update s.task s.current
                      (record ticked { ava_time = ticked.priority; status = ready }))
                    (u32 (s.total_times + 1))
                    s'
              else IsValid s'
                × (s' ≡ record s {
                  task =
                      update s.task s.current
                        (record ticked { ava_time = (s.task s.current).ava_time - 1 });
                  total_times = u32 (s.total_times + 1);
                }))
    unfolding time_intr_handler
    time_intr_handler-Switched masked magic =
        let here = current_out in
        let m : ((s.task s.current).stack_magic_num == 0x1998_0312) ≡ true = ground arith in
        let i : same s.intr intr_off ≡ true = rw masked refl in
        let t' = record (s.task s.current) {
          elapsed_time = ((s.task s.current).elapsed_time + 1) % 2 ^ 32;
        } in
        let s1 = record s {
          task = update s.task s.current t';
          total_times = (s.total_times + 1) % 2 ^ 32;
        } in
        elim (Bool-cases ((s.task s.current).ava_time == 0)) [
          | inl e ↦
              let active : is_running (s1.task s1.current).status ≡ true = ground (arith, v.runs) in
              let (s', run, sw, ran) =
                turn (requeued phys stale s1) refl refl (λ t. ground arith) in
              let sr : schedule phys stale s1 ≡ ok s' =
                schedule_running phys stale s1 i active here ∙ run in
              let again : (u : ℕ)
                  → (requeued phys stale s1).task u
                    ≡ update s.task s.current
                        (record ticked { ava_time = ticked.priority; status = ready }) u =
                requeued_task s.task s.current ticked in
              (s', rw (i, m, e) (rw i at sr), rw e (sw, Ran-same _ _ _ s' again ran))
          | inr e ↦ (
            record s1 {
              task =
                  update s.task s.current
                    (record t' { ava_time = (s.task s.current).ava_time - 1 });
            },
            rw (i, m, e) refl,
            rw e (
              record {
                distinct = v.distinct;
                queued = λ t h. ground (arith, v.queued t h);
                runs = ground (arith, v.runs);
                idle_somewhere = ground (arith, v.idle_somewhere);
                no_null = v.no_null;
              },
              refl,
            ),
          )
        ]

  -- thread_unblock puts a blocked task at the front of the queue, so that the next switch takes it;
  -- it fails its assertion for a task that is not blocked.
  pub thread_unblock-first :
      (s : Sys) (t : ℕ)
      → IsValid s
      → t ≢ 0
      → (if is_blocked (s.task t).status
          then ((s' : Sys) × (thread_unblock stale t s ≡ ok s')
              × IsValid s'
              × (s'.ready_list ≡ t ∷ s.ready_list)
              × (s'.current ≡ s.current))
          else thread_unblock stale t s ≡ panic)
  unfolding thread_unblock
  thread_unblock-first s t v ne = elim (Bool-cases (is_blocked (s.task t).status)) [
    | inl b ↦
        let out : has t s.ready_list ≡ false = ground (arith, v.queued t) in
        rw b (
          unblocked phys stale t s,
          rw b at (thread_unblock_lem phys stale t s b out),
          record {
            distinct = (out, v.distinct);
            queued = λ u h. ground (arith, v.queued u);
            runs = ground (arith, v.runs);
            idle_somewhere = ground (arith, v.idle_somewhere);
            no_null = ground (arith, v.no_null);
          },
          refl,
          refl,
        )
    | inr b ↦ rw b refl
  ]
