-- ===== src/Lock/Mutual.antt =====
-- The mutex: who holds it, how often, and what an unlock checks.
use xbay_os.Base.{
  ℕ, ◌+◌, ◌-◌, ◌%◌, ◌^◌, ◌<◌, ◌≡◌, ◌≢◌, inl, inr, refl, true, false, ok, ◌==◌, has, arith,
  Bool-cases,
}
use xbay_os.Intr.{IntrStat}
use xbay_os.Thread.{Sys, blocked, off, restore}
use xbay_os.Thread.Queue.{IsValid}
use xbay_os.Thread.Pick.{Switched}
use xbay_os.Thread.Switch.{thread_block-Switched}
use xbay_os.Lock.{Mutex, Wait, done, asleep, enter, mutex_lock, mutex_unlock, lower}

-- A mutex is free, or held by one thread between 1 and 255 deep.
pub data IsMutex (x : Mutex) : Type 0 where
  free : x.sem.value ≡ 1 → x.holder ≡ 0 → x.recursion ≡ 0 → IsMutex x
  held : x.sem.value ≡ 0 → x.holder ≢ 0 → 0 < x.recursion → x.recursion < 2 ^ 8 → IsMutex x

-- How mutex_lock ends: the caller holds the mutex, one deeper than before, or it sleeps as the last
-- of the waiters of a mutex that another thread holds, and which is otherwise unchanged.
pub data Locked (x : Mutex) (s : Sys) : Wait (Mutex × Sys) → Type 0 where
  got :
      {x' : Mutex} {s' : Sys}
      → IsMutex x'
      → x'.holder ≡ s.current
      → x'.recursion ≡ x.recursion + 1
      → x'.sem.waiters ≡ x.sem.waiters
      → s'.current ≡ s.current
      → Locked x s (done (x', s'))
  sleeps :
      {s' : Sys}
      → x.holder ≢ 0
      → x.holder ≢ s.current
      → Switched s.ready_list s s'
      → Locked x s (asleep (record x { sem = enter s.current x.sem }, s'))

module _ (phys : ℕ → ℕ) (stale : IntrStat) (x : Mutex) (s : Sys) where
  -- On a mutex in a good state mutex_lock never fails an assertion: it hands the mutex to the caller
  -- if it is free or already the caller's, fewer than 255 deep, and otherwise puts the caller to
  -- sleep, if it is not among the waiters.
  pub mutex_lock-Locked :
      IsMutex x
      → IsValid s
      → x.recursion < 2 ^ 8 - 1
      → has s.current x.sem.waiters ≡ false
      → (r : Wait (Mutex × Sys)) × (mutex_lock phys stale x s ≡ ok r) × Locked x s r
  unfolding mutex_lock
  mutex_lock-Locked (free v h r) val deep out =
      let other : (x.holder == s.current) ≡ false = ground (arith, val.no_null) in
      let some_left : (x.sem.value == 0) ≡ false = ground arith in
      let fresh : (x.recursion == 0) ≡ true = ground arith in
      let s1 = restore stale s.intr (off s) in
      (
        done (
          record { sem = lower x.sem; holder = s1.current; recursion = (x.recursion + 1) % 2 ^ 8 },
          s1,
        ),
        rw (other, some_left, fresh) refl,
        got (held (ground arith) (ground (arith, val.no_null)) (ground arith) (ground arith)) refl
            (ground arith) refl refl,
      )
  mutex_lock-Locked (held v h r b) val deep out = elim (Bool-cases (x.holder == s.current)) [
    | inl mine ↦ (
      done (record x { recursion = (x.recursion + 1) % 2 ^ 8 }, s),
      rw mine refl,
      got (held v h (ground arith) (ground arith)) (ground arith) (ground arith) refl refl,
    )
    | inr other ↦
        let none_left : (x.sem.value == 0) ≡ true = ground arith in
        let val' : IsValid (off s) = record {
          distinct = val.distinct;
          queued = val.queued;
          runs = val.runs;
          idle_somewhere = val.idle_somewhere;
          no_null = val.no_null;
        } in
        let (s', run, sw, ran) = thread_block-Switched phys stale (off s) val' blocked refl in
        (
          asleep (record x { sem = enter s.current x.sem }, s'),
          rw (other, none_left, out, run) refl,
          sleeps h (ground arith) (record { valid = sw.valid; chosen = sw.chosen; left = sw.left }),
        )
  ]

  -- mutex_unlock does not look at the holder: any thread, at any address but NULL, releases a mutex
  -- that another one holds, exactly as the holder would.
  pub mutex_unlock-any :
      (h : ℕ) → mutex_unlock stale (record x { holder = h }) s ≡ mutex_unlock stale x s
  unfolding mutex_unlock
  mutex_unlock-any h = refl
