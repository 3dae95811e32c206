-- ===== src/LinkedList.antt =====
-- lib/list.c and lib/list.h: circular-free doubly linked lists over the memory of the kernel.
-- A node is named by its address; `struct __list` holds its two sentinel nodes one behind the
-- other, 8 bytes apart. `stale` is what the uninitialised variable of intr_set_status holds.
pub mod Seg
pub mod Insert
pub mod Remove
pub mod Ends
pub mod Walk
mod Tests
use xbay_os.Base.{
  ℕ, zero, suc, ◌+◌, Bool, true, false, Option, none, some, Run, ok, hang, ◌>>=◌, ◌==◌,
  if◌then◌else◌, update,
}
use xbay_os.Intr.{IntrStat, disable, set_status}

-- The memory that the functions touch: the fields of every node, and the interrupt flag.
pub record Links : Type 0 where
  pub intr : IntrStat
  pub next : ℕ → ℕ
  pub prev : ℕ → ℕ

abbrev pub null : ℕ
null = 0

-- &l->head and &l->tail
abbrev pub head : ℕ → ℕ
head l = l

abbrev pub tail : ℕ → ℕ
tail l = l + 8

abbrev pub set_next : ℕ → ℕ → Links → Links
set_next a v m = record m { next = update m.next a v }

abbrev pub set_prev : ℕ → ℕ → Links → Links
set_prev a v m = record m { prev = update m.prev a v }

-- list_init
pub init : ℕ → Links → Links
init l m =
    set_next (tail l) null
      (set_prev (tail l) (head l) (set_prev (head l) null (set_next (head l) (tail l) m)))

-- The four writes of list_insert_before.
unfoldable pub link_before : (target node : ℕ) → Links → Links
link_before target node m =
    let m1 = set_next (m.prev target) node m in
    let m2 = set_next node target m1 in
    let m3 = set_prev node (m2.prev target) m2 in set_prev target node m3

-- The two writes of list_remove.
unfoldable pub unlink : ℕ → Links → Links
unlink node m =
    let m1 = set_next (m.prev node) (m.next node) m in set_prev (m1.next node) (m1.prev node) m1

-- INTERRUPT_DISABLE(status) body INTERRUPT_RESTORE(status)
abbrev pub guarded : IntrStat → (Links → Links) → Links → Links
guarded stale body m =
    let (status, off) = disable m.intr in
    let m' = body (record m { intr = off }) in
    record m' { intr = (set_status stale status m'.intr).1 }

-- list_insert_before
pub insert_before : IntrStat → (target node : ℕ) → Links → Links
insert_before stale target node = guarded stale (link_before target node)

-- list_push_front
pub push_front : IntrStat → (l node : ℕ) → Links → Links
push_front stale l node m = insert_before stale (m.next (head l)) node m

-- list_push_back
pub push_back : IntrStat → (l node : ℕ) → Links → Links
push_back stale l node m = insert_before stale (tail l) node m

-- list_remove
pub remove : IntrStat → ℕ → Links → Links
remove stale node = guarded stale (unlink node)

-- The loop of list_size, with fuel.
pub size_loop : ℕ → (curr end result : ℕ) → Links → Run ℕ
size_loop zero curr end result m = hang
size_loop (suc k) curr end result m =
    let more = size_loop k (m.next curr) end (result + 1) m in
    if curr == end then ok result else more

-- list_size
pub size : ℕ → ℕ → Links → Run ℕ
size fuel l m = size_loop fuel (m.next (head l)) (tail l) 0 m

-- list_pop_front
pub pop_front : IntrStat → ℕ → Links → Option ℕ × Links
pop_front stale l m =
    let node = m.next (head l) in
    if node == tail l then (none, m) else (some node, remove stale node m)

-- list_pop_back
pub pop_back : IntrStat → ℕ → Links → Option ℕ × Links
pop_back stale l m =
    let node = m.prev (tail l) in
    if node == head l then (none, m) else (some node, remove stale node m)

-- The loop of list_traversal; `func` is the test with its argument.
pub traversal_loop : ℕ → (func : ℕ → Bool) (node end : ℕ) → Links → Run (Option ℕ)
traversal_loop zero func node end m = hang
traversal_loop (suc k) func node end m =
    let more = traversal_loop k func (m.next node) end m in
    if node == end then ok none else if func node then ok (some node) else more

-- list_traversal
pub traversal : ℕ → ℕ → (ℕ → Bool) → Links → Run (Option ℕ)
traversal fuel l func m = traversal_loop fuel func (m.next (head l)) (tail l) m

-- The loop of list_exist.
pub exist_loop : ℕ → (node curr end : ℕ) → Links → Run Bool
exist_loop zero node curr end m = hang
exist_loop (suc k) node curr end m =
    let more = exist_loop k node (m.next curr) end m in
    if curr == end then ok false else if curr == node then ok true else more

-- list_exist
pub exist : ℕ → (l node : ℕ) → Links → Run Bool
exist fuel l node m = exist_loop fuel node (m.next (head l)) (tail l) m

-- list_empty
pub empty : ℕ → Links → Bool
empty l m = if m.next (head l) == tail l then true else false
