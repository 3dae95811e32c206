-- ===== src/IoQueue/Fifo.antt =====
-- The ring refines a first-in, first-out queue of at most 64 characters.
use xbay_os.IoQueue.Ring.{Holds, Reads-update}
use xbay_os.IoQueue.{
  IoQueue, io_queue_putchar, with_slots, io_queue_full, io_queue_getchar, with_items,
}
use xbay_os.Thread.Switch.{thread_block-Switched}
use xbay_os.Base.Update.{update-here}
use xbay_os.Thread.Queue.{IsValid}
use xbay_os.Thread.Pick.{Switched, thread_unblock_lem, unblocked}
use xbay_os.Thread.{Sys, Task, is_blocked, ready, blocked, off, restore}
use xbay_os.Lock.{Sem, asleep, done, enter, lower, raise, sem_down, sem_up, Wait, first_waiter}
use xbay_os.Intr.{IntrStat}
use xbay_os.Base.{
  [], arith, false, has, ltb, ok, refl, true, ℕ, ◌%◌, ◌+◌, ◌<◌, ◌==◌, ◌^◌, ◌≡◌, Bool-cases, List,
  if◌then◌else◌, inl, inr, length, none, some, update, ◌++◌, ◌∷◌, Option, ap, length-append,
}

-- The queue as it would be if no thread waited for an item, or for a slot
abbrev pub unread : IoQueue → IoQueue
unread q = record q { items = record q.items { waiters = [] } }

abbrev pub unwritten : IoQueue → IoQueue
unwritten q = record q { slots = record q.slots { waiters = [] } }

-- The first of the waiters can be woken: it is blocked and not in the ready queue.
abbrev pub CanWake : List ℕ → (task : ℕ → Task) (ready_list : List ℕ) → Type 0
CanWake [] task ready_list = Unit
CanWake (t ∷ ts) task ready_list = (is_blocked (task t).status ≡ true) × (has t ready_list ≡ false)

-- The first of the waiters has left them for the front of the ready queue, and is READY; without
-- waiters the ready queue is as it was.
abbrev pub Woken : List ℕ → (left ready_list : List ℕ) → Sys → Type 0
Woken [] left ready_list s' = (left ≡ []) × (s'.ready_list ≡ ready_list)
Woken (t ∷ ts) left ready_list s' =
    (left ≡ ts) × (s'.ready_list ≡ t ∷ ready_list) × ((s'.task t).status ≡ ready)

-- What io_queue_getchar does to a queue that holds the list.
abbrev pub Got : Sys → IoQueue → List ℕ → Wait (Option ℕ × IoQueue × Sys) → Type 0
Got s q [] (asleep (c, q', s')) =
    (c ≡ none) × (q' ≡ with_items q (enter s.current q.items)) × Switched s.ready_list s s'
Got s q [] (done r) = ⊥
Got s q (x ∷ xs) (asleep r) = ⊥
Got s q (x ∷ xs) (done (c, q', s')) =
    (c ≡ some x)
    × Holds xs (unwritten q')
    × (s'.current ≡ s.current)
    × Woken q.slots.waiters q'.slots.waiters s.ready_list s'

first_waiter_none : (ws : List ℕ) → ws ≡ [] → (first_waiter ws).1 ≡ []
first_waiter_none ws h = rw h refl

module _ (phys : ℕ → ℕ) (stale : IntrStat) where
  sem_down_free :
      (m : Sem) (s : Sys)
      → 0 < m.value
      → sem_down phys stale m s ≡ ok (done (lower m, restore stale s.intr (off s)))
  unfolding sem_down
  sem_down_free m s h = let e : (m.value == 0) ≡ false = ground arith in rw e refl

  sem_down_taken :
      (m : Sem) (s : Sys)
      → m.value ≡ 0
      → m.waiters ≡ []
      → IsValid s
      → (s' : Sys) × (sem_down phys stale m s ≡ ok (asleep (enter s.current m, s')))
        × Switched s.ready_list s s'
  unfolding sem_down
  sem_down_taken m s h w val =
      let e : (m.value == 0) ≡ true = ground arith in
      let out : has s.current m.waiters ≡ false = rw w refl in
      let val' : IsValid (off s) = record {
        distinct = val.distinct;
        queued = val.queued;
        runs = val.runs;
        idle_somewhere = val.idle_somewhere;
        no_null = val.no_null;
      } in
      let (s', run, sw, ran) = thread_block-Switched phys stale (off s) val' blocked refl in
      (s', rw (e, out, run) refl, record { valid = sw.valid; chosen = sw.chosen; left = sw.left })

  sem_up_alone :
      (m : Sem) (s : Sys)
      → m.waiters ≡ []
      → m.value < 255
      → sem_up stale m s ≡ ok (raise m, restore stale s.intr (off s))
  unfolding sem_up
  sem_up_alone m s w h =
      let e : ltb 0 ((m.value + 1) % 2 ^ 8) ≡ true = ground arith in rw (w, e) refl

  sem_up_from :
      (v : ℕ) (ws : List ℕ) (s : Sys)
      → CanWake ws s.task s.ready_list
      → ltb 0 ((v + 1) % 2 ^ 8) ≡ true
      → let m : Sem = record { value = v; waiters = ws } in
        (s' : Sys) × (sem_up stale m s ≡ ok (raise m, s'))
        × Woken ws (raise m).waiters s.ready_list s'
        × (s'.current ≡ s.current)
  unfolding sem_up
  sem_up_from v [] s can e = (restore stale s.intr (off s), rw e refl, (refl, refl), refl)
  sem_up_from v (t ∷ ts) s can e =
      let run = thread_unblock_lem phys stale t (off s) can.0 can.1 in
      let here = update-here s.task t (record (s.task t) { status = ready }) in
      (
        restore stale s.intr (unblocked phys stale t (off s)),
        rw (run, e) refl,
        (refl, refl, ap (λ (x : Task). x.status) here),
        refl,
      )

  sem_up-Woken :
      (m : Sem) (s : Sys)
      → CanWake m.waiters s.task s.ready_list
      → m.value < 255
      → (s' : Sys) × (sem_up stale m s ≡ ok (raise m, s'))
        × Woken m.waiters (raise m).waiters s.ready_list s'
        × (s'.current ≡ s.current)
  unfolding sem_up
  sem_up-Woken m s can h =
      let e : ltb 0 ((m.value + 1) % 2 ^ 8) ≡ true = ground arith in
      sem_up_from m.value m.waiters s can e

  -- In a valid state, where no thread waits for a slot or the mutex, no one has the mutex, and the first thread that
  -- waits for an item, if there is one, is blocked and not ready: on a queue
  -- with fewer than 64 characters io_queue_putchar succeeds, in the running thread, the queue
  -- then holds the new character behind the others, and the thread that waited first for an item
  -- has left the waiters for the front of the ready queue; on a full queue the running thread
  -- sleeps as the first waiter for a slot, and nothing is stored.
  pub io_queue_putchar-Holds :
      (c : ℕ) (xs : List ℕ) (q : IoQueue) (s : Sys)
      → Holds xs (unread q)
      → CanWake q.items.waiters s.task s.ready_list
      → IsValid s
      → (if ltb (length xs) 64
          then ((q' : IoQueue) × (s' : Sys) × (io_queue_putchar phys stale c q s
                ≡ ok (done (some tt, q', s')))
              × Holds (xs ++ c ∷ []) (unread q')
              × (s'.current ≡ s.current)
              × Woken q.items.waiters q'.items.waiters s.ready_list s')
          else ((s' : Sys) × (io_queue_putchar phys stale c q s
                ≡ ok (asleep (none, with_slots q (enter s.current q.slots), s')))
              × Switched s.ready_list s s'))
  unfolding io_queue_putchar
  io_queue_putchar-Holds c xs q s h can val = elim (Bool-cases (ltb (length xs) 64)) [
    | inl room ↦
        let s1 = restore stale s.intr (off s) in
        let s2 = restore stale s1.intr (off s1) in
        let s3 = restore stale s2.intr (off s2) in
        let a = sem_down_free q.slots s (ground (arith, h.slots_count)) in
        let b = sem_down_free q.mutex s1 (ground (arith, h.unlocked)) in
        let d = sem_up_alone (lower q.mutex) s2 h.nobody.2 (ground (arith, h.unlocked)) in
        let (s4, e, woken, cur) =
          sem_up-Woken q.items s3 can (ground (arith, h.items_count, h.fits)) in
        let q' = record q {
          slots = lower q.slots;
          items = raise q.items;
          mutex = raise (lower q.mutex);
          buffer = update q.buffer q.rear c;
          rear = (q.rear + 1) % 64;
        } in
        let len = length-append xs (c ∷ []) in
        let hold : Holds (xs ++ c ∷ []) (unread q') = record {
          fits = ground (arith, len);
          front_in = h.front_in;
          rear_at = ground (arith, len, h.rear_at);
          content =
              Reads-update q.buffer xs q.front q.rear c h.front_in (ground arith) h.rear_at
                h.content;
          items_count = ground (arith, len, h.items_count, h.fits);
          slots_count = ground (arith, len, h.slots_count);
          unlocked = ground (arith, h.unlocked);
          nobody = (refl, h.nobody.1, first_waiter_none _ h.nobody.2);
        } in
        rw room (q', s4, rw (a, b, d, e) refl, hold, cur, woken)
    | inr no_room ↦
        let (s', run, sw) =
          sem_down_taken q.slots s (ground (arith, h.slots_count, h.fits)) h.nobody.1 val in
        rw no_room (s', rw run refl, sw)
  ]

  -- In a valid state, where no thread waits for an item or the mutex, no one has the mutex, and the first thread that
  -- waits for a slot, if there is one, is blocked and not ready: io_queue_getchar takes the oldest
  -- character out of a queue that holds one, in the running thread, and the thread that waited first
  -- for a slot has left the waiters for the front of the ready queue; on an empty queue the running
  -- thread sleeps as the first waiter for an item.
  pub io_queue_getchar-Holds :
      (xs : List ℕ) (q : IoQueue) (s : Sys)
      → Holds xs (unwritten q)
      → CanWake q.slots.waiters s.task s.ready_list
      → IsValid s
      → (r : Wait (Option ℕ × IoQueue × Sys)) × (io_queue_getchar phys stale q s ≡ ok r)
        × Got s q xs r
  unfolding io_queue_getchar
  io_queue_getchar-Holds [] q s h can val =
      let (s', run, sw) = sem_down_taken q.items s h.items_count h.nobody.0 val in
      (asleep (none, with_items q (enter s.current q.items), s'), rw run refl, (refl, refl, sw))
  io_queue_getchar-Holds (x ∷ xs) q s h can val =
      let s1 = restore stale s.intr (off s) in
      let s2 = restore stale s1.intr (off s1) in
      let s3 = restore stale s2.intr (off s2) in
      let a = sem_down_free q.items s (ground (arith, h.items_count)) in
      let b = sem_down_free q.mutex s1 (ground (arith, h.unlocked)) in
      let d = sem_up_alone (lower q.mutex) s2 h.nobody.2 (ground (arith, h.unlocked)) in
      let (s4, e, woken, cur) = sem_up-Woken q.slots s3 can (ground (arith, h.slots_count)) in
      let q' = record q {
        slots = raise q.slots;
        items = lower q.items;
        mutex = raise (lower q.mutex);
        front = (q.front + 1) % 64;
      } in
      let hold : Holds xs (unwritten q') = record {
        fits = ground (arith, h.fits);
        front_in = ground arith;
        rear_at = ground (arith, h.rear_at);
        content = h.content.1;
        items_count = ground (arith, h.items_count);
        slots_count = ground (arith, h.slots_count);
        unlocked = ground (arith, h.unlocked);
        nobody = (h.nobody.0, refl, first_waiter_none _ h.nobody.2);
      } in
      (
        done (some (q.buffer q.front), q', s4),
        rw (a, b, d, e) refl,
        (ap some h.content.0, hold, cur, woken),
      )

  -- io_queue_full, on a queue at rest, does not tell that the queue is full: it is true exactly if
  -- the queue holds one character. The queue is afterwards what it was.
  pub io_queue_full-one :
      (xs : List ℕ) (q : IoQueue) (s : Sys)
      → Holds xs q
      → (q' : IoQueue) × (s' : Sys) × (io_queue_full phys stale q s
          ≡ ok (done (some (length xs == 1), q', s')))
        × Holds xs q'
  unfolding io_queue_full
  io_queue_full-one xs q s h =
      let s1 = restore stale s.intr (off s) in
      let s2 = restore stale s1.intr (off s1) in
      let a = sem_down_free q.mutex s (ground (arith, h.unlocked)) in
      let d = sem_up_alone (lower q.mutex) s1 h.nobody.2 (ground (arith, h.unlocked)) in
      let q' = record q { mutex = raise (lower q.mutex) } in
      let t : ((q.front + 1) % 64 == q.rear) ≡ (length xs == 1) =
        ground (arith, h.rear_at, h.fits, h.front_in) in
      let hold : Holds xs q' = record {
        fits = h.fits;
        front_in = h.front_in;
        rear_at = h.rear_at;
        content = h.content;
        items_count = h.items_count;
        slots_count = h.slots_count;
        unlocked = ground (arith, h.unlocked);
        nobody = (h.nobody.0, h.nobody.1, first_waiter_none _ h.nobody.2);
      } in
      (q', s2, rw (a, d, t) refl, hold)
