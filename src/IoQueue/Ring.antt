-- ===== src/IoQueue/Ring.antt =====
-- The characters that lie in the ring from front on.
use xbay_os.IoQueue.{IoQueue, buf_size}
use xbay_os.Base.{List, [], arith, length, update, ℕ, ◌%◌, ◌++◌, ◌+◌, ◌<◌, ◌∷◌, ◌≡◌, ◌≤◌}

-- The buffer holds the list from index f on, around the end.
abbrev pub Reads : (ℕ → ℕ) → ℕ → List ℕ → Type 0
Reads buf f [] = Unit
Reads buf f (x ∷ xs) = (buf f ≡ x) × Reads buf ((f + 1) % buf_size) xs

-- A queue at rest that holds a list of characters.
pub record Holds (xs : List ℕ) (q : IoQueue) : Type 0 where
  pub fits : length xs ≤ 64
  pub front_in : q.front < 64
  pub rear_at : q.rear ≡ (q.front + length xs) % 64
  pub content : Reads q.buffer q.front xs
  pub items_count : q.items.value ≡ length xs
  pub slots_count : q.slots.value + length xs ≡ 64
  pub unlocked : q.mutex.value ≡ 1
  pub nobody : (q.items.waiters ≡ []) × (q.slots.waiters ≡ []) × (q.mutex.waiters ≡ [])

pub Reads-update :
    (buf : ℕ → ℕ) (xs : List ℕ) (f r c : ℕ)
    → f < 64
    → length xs < 64
    → r ≡ (f + length xs) % 64
    → Reads buf f xs
    → Reads (update buf r c) f (xs ++ c ∷ [])
Reads-update buf [] f r c hf hl hr h = (ground arith, tt)
Reads-update buf (x ∷ xs) f r c hf hl hr h = (
  ground arith,
  Reads-update buf xs ((f + 1) % 64) r c (omega arith) (omega arith) (omega arith) h.1,
)
