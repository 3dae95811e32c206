-- ===== src/Lock/Rounds.antt =====
-- Interleaved calls of sem_up and sem_down on one semaphore, by any number of threads.
use xbay_os.Base.{
  ℕ, ◌+◌, ◌^◌, ◌<◌, ◌≤◌, ◌≡◌, ◌⊎◌, inl, inr, refl, List, [], ◌∷◌, ◌++◌, length, length-append,
  arith, ap,
}
use xbay_os.Lock.{Sem, sem_init, first_waiter, raise, lower, enter}

-- The semaphore, the threads that sem_up has taken out of the waiters and that have not run since
-- (they will test the value again), and the numbers of downs and ups that are complete.
pub record System : Type 0 where
  pub sem : Sem
  pub woken : List ℕ
  pub downs : ℕ
  pub ups : ℕ

abbrev pub add_woken : List ℕ → List ℕ → List ℕ
add_woken [] w = w
add_woken (t ∷ ts) w = t ∷ w

-- A step is one critical section of thread/lock.c: a thread's first test of the value or its test
-- after a wake-up, which succeeds or sends it to the end of the waiters, and a sem_up.
pub data Step (s : System) : System → Type 0 where
  down_take : 0 < s.sem.value → Step s (record s { sem = lower s.sem; downs = s.downs + 1 })
  down_wait : (t : ℕ) → s.sem.value ≡ 0 → Step s (record s { sem = enter t s.sem })
  retry_take :
      (l : List ℕ) (t : ℕ) (r : List ℕ)
      → s.woken ≡ l ++ t ∷ r
      → 0 < s.sem.value
      → Step s (record s { sem = lower s.sem; woken = l ++ r; downs = s.downs + 1 })
  retry_wait :
      (l : List ℕ) (t : ℕ) (r : List ℕ)
      → s.woken ≡ l ++ t ∷ r
      → s.sem.value ≡ 0
      → Step s (record s { sem = enter t s.sem; woken = l ++ r })
  up :
      s.sem.value + 1 < 2 ^ 8
      → Step s
          (record s { sem = raise s.sem; woken = add_woken s.sem.waiters s.woken; ups = s.ups + 1 })

pub data Reach (value : ℕ) : System → Type 0 where
  start : Reach value (record { sem = sem_init value; woken = []; downs = 0; ups = 0 })
  next : {s t : System} → Reach value s → Step s t → Reach value t

-- The count of the semaphore, and that no wake-up is lost: while a thread waits, the value does not
-- exceed the number of woken threads that have still to test it.
pub record Inv (value : ℕ) (s : System) : Type 0 where
  pub counted : s.sem.value + s.downs ≡ value + s.ups
  pub served : (s.sem.waiters ≡ []) ⊎ (s.sem.value ≤ length s.woken)

served_up :
    (v w : ℕ) (ts ws : List ℕ)
    → (ts ≡ []) ⊎ (v ≤ length ws)
    → w ≤ v + 1
    → ((first_waiter ts).1 ≡ []) ⊎ (w ≤ length (add_woken ts ws))
served_up v w [] ws h e = inl refl
served_up v w (t ∷ ts) ws (inl h) e = absurd (ground (arith, h))
served_up v w (t ∷ ts) ws (inr h) e = inr (omega arith)

Step-Inv : {value : ℕ} {s t : System} → Step s t → Inv value s → Inv value t
Step-Inv (down_take h) i = record {
  counted = omega (arith, i.counted);
  served = ground (arith, i.served);
}
Step-Inv (down_wait t h) i = record { counted = i.counted; served = inr (omega arith) }
Step-Inv (retry_take l t r e h) i = record {
  counted = omega (arith, i.counted);
  served = ground (arith, i.served, ap length e, length-append l (t ∷ r), length-append l r);
}
Step-Inv (retry_wait l t r e h) i = record { counted = i.counted; served = inr (omega arith) }
Step-Inv {s} (up h) i = record {
  counted = omega (arith, i.counted);
  served = served_up s.sem.value _ s.sem.waiters s.woken i.served (omega arith);
}

Reach-counted : {value : ℕ} {s : System} → value < 2 ^ 8 → Reach value s → Inv value s
Reach-counted {value} small start = record { counted = omega arith; served = inl refl }
Reach-counted small (next r st) = Step-Inv st (Reach-counted small r)

-- In every reachable state value + downs = initial value + ups, so that no more downs complete than
-- the initial value and the ups allow; and if threads wait while the value is positive, some woken
-- thread is still to test it: no wake-up is lost.
pub Reach-Inv :
    {value : ℕ} {s : System}
    → value < 2 ^ 8
    → Reach value s
    → (s.sem.value + s.downs ≡ value + s.ups)
      × (s.downs ≤ value + s.ups)
      × ((s.sem.waiters ≡ []) ⊎ ((s.sem.value ≡ 0) ⊎ (0 < length s.woken)))
Reach-Inv small r =
    let i = Reach-counted small r in (i.counted, omega (arith, i.counted), ground (arith, i.served))
