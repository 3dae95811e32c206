-- ===== src/Thread/Pick.antt =====
-- How schedule chooses the next task.
use xbay_os.Base.{
  ℕ, ◌+◌, ◌%◌, ◌^◌, ◌≡◌, ◌≢◌, ◌⊎◌, inl, inr, refl, true, false, List, [], ◌∷◌, ◌++◌, has, Distinct,
  arith, ok, if◌then◌else◌, sym, ◌==◌, update, Bool-cases, ◌>>=◌, ap, ◌∙◌, sym,
}
use xbay_os.Intr.{IntrStat, intr_off, intr_on, disable, same}
use xbay_os.Thread.{
  Task, running, ready, is_blocked, is_running, Sys, set_status_of, off, restore, thread_unblock,
  process_activate, dispatch, requeue, wake_idle, pick, schedule,
}
use xbay_os.Thread.Queue.{IsValid}

-- What holds when the next task is chosen: the current one is out of the way.
pub record IsPending (s : Sys) : Type 0 where
  pub distinct : Distinct s.ready_list
  pub queued : (t : ℕ) → has t s.ready_list ≡ true → (s.task t).status ≡ ready
  pub idle_there : (is_blocked (s.task s.idle).status ≡ true) ⊎ (has s.idle s.ready_list ≡ true)
  pub no_null : (has 0 s.ready_list ≡ false) × (s.idle ≢ 0)

abbrev pub first : List ℕ → ℕ → ℕ
first [] i = i
first (x ∷ xs) i = x

abbrev pub rest : List ℕ → List ℕ
rest [] = []
rest (x ∷ xs) = xs

-- The queue moves on: its first task runs, the idle task if there was none.
pub record Switched (queue : List ℕ) (s s' : Sys) : Type 0 where
  pub valid : IsValid s'
  pub chosen : s'.current ≡ first queue s.idle
  pub left : s'.ready_list ≡ rest queue

-- The tasks are these, but that the current one runs, and the clock has counted so far.
pub record Ran (task : ℕ → Task) (times : ℕ) (s' : Sys) : Type 0 where
  pub tasks :
      (t : ℕ)
      → s'.task t ≡ (if t == s'.current then record (task t) { status = running } else task t)
  pub counted : s'.total_times ≡ times

-- The same for tasks that agree.
pub Ran-same :
    (task task' : ℕ → Task) (times : ℕ) (s' : Sys)
    → ((t : ℕ) → task t ≡ task' t)
    → Ran task times s'
    → Ran task' times s'
Ran-same task task' times s' e r = record {
  tasks = λ t.
      r.tasks t
      ∙ ap (λ (x : Task). if t == s'.current then record x { status = running } else x) (e t);
  counted = r.counted;
}

-- The state that dispatch leaves, but for cr3 and esp0.
pub record Dispatched (next : ℕ) (rest : List ℕ) (s s' : Sys) : Type 0 where
  pub current : s'.current ≡ next
  pub task : s'.task ≡ update s.task next (record (s.task next) { status = running })
  pub ready_list : s'.ready_list ≡ rest
  pub idle : s'.idle ≡ s.idle
  pub total_times : s'.total_times ≡ s.total_times

pub dispatch_lem :
    (phys : ℕ → ℕ) (next : ℕ) (left : List ℕ) (s : Sys)
    → next ≢ 0
    → (s' : Sys) × (dispatch phys (next ∷ left) s ≡ ok s') × Dispatched next left s s'
unfolding dispatch process_activate
dispatch_lem phys next left s ne =
    let nz : (next == 0) ≡ false = ground arith in
    let s1 = set_status_of next running (record s { ready_list = left }) in
    elim (Bool-cases ((s1.task next).page_dir == 0)) [
      | inl e ↦ (
        record s1 { cr3 = 0x10_0000; current = next },
        rw (nz, e) refl,
        record { current = refl; task = refl; ready_list = refl; idle = refl; total_times = refl },
      )
      | inr e ↦ (
        record s1 {
          cr3 = phys (s1.task next).page_dir;
          esp0 = (next + 2 ^ 12) % 2 ^ 32;
          current = next;
        },
        rw (nz, e) refl,
        record { current = refl; task = refl; ready_list = refl; idle = refl; total_times = refl },
      )
    ]

pub disable_off : (i : IntrStat) → same (disable i).1 intr_off ≡ true
disable_off intr_off = refl
disable_off intr_on = refl

Dispatched-Ran :
    (next : ℕ) (left : List ℕ) (s s' : Sys)
    → Dispatched next left s s'
    → Ran s.task s.total_times s'
Dispatched-Ran next left s s' d = record {
  tasks = λ t.
      rw (d.task, d.current)
        (elim (Bool-cases (t == next)) [
          | inl e ↦
              let e' : t ≡ next = ground (arith, e) in
              rw (e, update) (ap (λ (x : ℕ). record (s.task x) { status = running }) (sym e'))
          | inr e ↦ rw (e, update) refl
        ]);
  counted = d.total_times;
}

module _ (phys : ℕ → ℕ) (stale : IntrStat) where
  -- The first task of a queue that satisfies the conditions is switched to.
  pub switch_lem :
      (x : ℕ) (xs : List ℕ) (s : Sys)
      → s.ready_list ≡ x ∷ xs
      → IsPending s
      → (s' : Sys) × (dispatch phys (x ∷ xs) s ≡ ok s')
        × IsValid s'
        × (s'.current ≡ x)
        × (s'.ready_list ≡ xs)
        × Ran s.task s.total_times s'
  switch_lem x xs s e pend =
      let d : Distinct (x ∷ xs) = rw e at pend.distinct in
      let z : has 0 (x ∷ xs) ≡ false = rw e at pend.no_null.0 in
      let q : (t : ℕ) → has t (x ∷ xs) ≡ true → (s.task t).status ≡ ready = rw e at pend.queued in
      let i : (is_blocked (s.task s.idle).status ≡ true) ⊎ (has s.idle (x ∷ xs) ≡ true) =
        rw e at pend.idle_there in
      let ne : x ≢ 0 = ground arith in
      let (s', run, after) = dispatch_lem phys x xs s ne in
      let task = after.task in
      (
        s',
        run,
        record {
          distinct = rw after.ready_list d.1;
          queued = λ t h. rw task (ground (arith, q t, rw after.ready_list at h));
          runs = rw (after.current, task) (ground arith);
          idle_somewhere =
              rw (after.current, after.ready_list, after.idle, task) (ground (arith, q s.idle));
          no_null =
              rw (after.current, after.ready_list, after.idle) (ground (arith, pend.no_null.1));
        },
        after.current,
        after.ready_list,
        Dispatched-Ran x xs s s' after,
      )

  -- What thread_unblock leaves.
  abbrev pub unblocked : ℕ → Sys → Sys
  unblocked t s =
      restore stale s.intr
        (set_status_of t ready (record (off s) { ready_list = t ∷ s.ready_list }))

  pub thread_unblock_lem :
      (t : ℕ) (s : Sys)
      → is_blocked (s.task t).status ≡ true
      → has t s.ready_list ≡ false
      → thread_unblock stale t s ≡ ok (unblocked t s)
  unfolding thread_unblock
  thread_unblock_lem t s b n = rw (b, n) refl

  pub pick_nil :
      (s : Sys)
      → s.ready_list ≡ []
      → is_blocked (s.task s.idle).status ≡ true
      → pick phys stale s ≡ dispatch phys (s.idle ∷ s.ready_list) (unblocked s.idle s)
  unfolding pick
  pick_nil s e b =
      ap (λ l. wake_idle stale l s >>= λ s2. dispatch phys s2.ready_list s2) e
      ∙ ap (λ r. r >>= λ s2. dispatch phys s2.ready_list s2)
          (thread_unblock_lem s.idle s b (ap (has s.idle) e))

  pub pick_cons :
      (x : ℕ) (xs : List ℕ) (s : Sys)
      → s.ready_list ≡ x ∷ xs
      → pick phys stale s ≡ dispatch phys (x ∷ xs) s
  unfolding pick
  pick_cons x xs s e =
      ap (λ l. wake_idle stale l s >>= λ s2. dispatch phys s2.ready_list s2) e
      ∙ ap (λ l. dispatch phys l s) e

  woken_task :
      (s s' : Sys)
      → s'.current ≡ s.idle
      → (t : ℕ)
      → (if t == s'.current
          then record ((unblocked s.idle s).task t) { status = running }
          else (unblocked s.idle s).task t)
        ≡ (if t == s'.current then record (s.task t) { status = running } else s.task t)
  woken_task s s' chosen t = elim (Bool-cases (t == s.idle)) [
    | inl e ↦
        let e' : t ≡ s.idle = ground (arith, e) in
        rw (chosen, e, update) (ap (λ (x : ℕ). record (s.task x) { status = running }) (sym e'))
    | inr e ↦ rw (chosen, e, update) refl
  ]

  woken-Ran :
      (s s' : Sys)
      → s'.current ≡ s.idle
      → Ran (unblocked s.idle s).task s.total_times s'
      → Ran s.task s.total_times s'
  woken-Ran s s' chosen r = record {
    tasks = λ t. r.tasks t ∙ woken_task s s' chosen t;
    counted = r.counted;
  }

  -- The choice of the next task: the first of the queue, or the idle task, which is then blocked.
  pub pick_lem :
      (xs : List ℕ) (s : Sys)
      → s.ready_list ≡ xs
      → IsPending s
      → (s' : Sys) × (pick phys stale s ≡ ok s') × Switched xs s s' × Ran s.task s.total_times s'
  pick_lem [] s e pend =
      let none_ready : has s.idle s.ready_list ≡ false = ap (has s.idle) e in
      let b : is_blocked (s.task s.idle).status ≡ true = ground arith in
      let pend' : IsPending (unblocked s.idle s) = record {
        distinct = (none_ready, pend.distinct);
        queued = λ t h. ground (arith, pend.queued t);
        idle_there = inr (ground arith);
        no_null = ground (arith, pend.no_null);
      } in
      let (s', run, valid, chosen, left, ran) =
        switch_lem s.idle s.ready_list (unblocked s.idle s) refl pend' in
      (
        s',
        pick_nil s e b ∙ run,
        record { valid = valid; chosen = chosen; left = left ∙ e },
        woken-Ran s s' chosen ran,
      )
  pick_lem (x ∷ xs) s e pend =
      let (s', run, valid, chosen, left, ran) = switch_lem x xs s e pend in
      (s', pick_cons x xs s e ∙ run, record { valid = valid; chosen = chosen; left = left }, ran)

  pub pick_pending :
      (s : Sys)
      → IsPending s
      → (s' : Sys) × (pick phys stale s ≡ ok s')
        × Switched s.ready_list s s'
        × Ran s.task s.total_times s'
  pick_pending s = pick_lem s.ready_list s refl

  pub schedule_stopped :
      (s : Sys)
      → same s.intr intr_off ≡ true
      → is_running (s.task s.current).status ≡ false
      → schedule phys stale s ≡ pick phys stale s
  unfolding schedule requeue
  schedule_stopped s i r = rw (i, r) refl

  -- The state after the requeueing of the current task.
  abbrev pub requeued : Sys → Sys
  requeued s = record s {
    ready_list = s.ready_list ++ s.current ∷ [];
    task =
        update s.task s.current
          (record (s.task s.current) { ava_time = (s.task s.current).priority; status = ready });
  }

  pub schedule_running :
      (s : Sys)
      → same s.intr intr_off ≡ true
      → is_running (s.task s.current).status ≡ true
      → has s.current s.ready_list ≡ false
      → schedule phys stale s ≡ pick phys stale (requeued s)
  unfolding schedule requeue
  schedule_running s i r h = rw (i, r, h) refl
