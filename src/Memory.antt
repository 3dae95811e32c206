-- ===== src/Memory.antt =====
-- kernel/memory.c and kernel/memory.h: the pools of physical pages, the pools of virtual pages, and
-- the page tables. The heap of small blocks that stands on them is Heap.
-- The page tables are the words of the window at 0xffc00000 through which the last entry of a page
-- directory shows the directory and its tables; `word` is that window, by address. A call of
-- mutex_lock by the thread that runs adds one to the depth of its pool's mutex (Lock.Mutual); the
-- contents of the pages are not part of the state.
pub mod Address
pub mod Layout
pub mod Frames
pub mod Mapping
pub mod Loop
pub mod Alloc
pub mod Free
pub mod Release
pub mod RoundTrip
pub mod Example
mod Tests
use xbay_os.Bitmap.{Bitmap, scan, set, clear}
use xbay_os.Base.{
  Bool, Option, Run, assert, false, if◌then◌else◌, ltb, none, not, ok, some, sub32, suc, true, u32,
  u8, update, zero, ℕ, ◌%◌, ◌*◌, ◌+◌, ◌-◌, ◌/◌, ◌==◌, ◌>>=◌, ◌>>◌, ◌^◌,
}

-- PAGE_SIZE
abbrev pub page_size : ℕ
page_size = 2 ^ 12

-- enum __pool_flags
pub data PoolFlags : Type 0 where
  pf_kernel pf_user : PoolFlags

-- struct __pool; depth stands for the recursion of the mutex
pub record Pool : Type 0 where
  pub pool_bitmap : Bitmap
  pub phy_addr_start : ℕ
  pub pool_size : ℕ
  pub depth : ℕ

-- struct __virtual_addr
pub record VirtualAddr : Type 0 where
  pub vaddr_bitmap : Bitmap
  pub vaddr_start : ℕ

-- The two pools of frames, kern_vaddr, and of the running thread whether it has a page directory of
-- its own and its user_vaddr; and the window of the page tables.
pub record Mem : Type 0 where
  pub kern_pool : Pool
  pub user_pool : Pool
  pub kern_vaddr : VirtualAddr
  pub user_vaddr : VirtualAddr
  pub is_process : Bool
  pub word : ℕ → ℕ

abbrev pub pool_of : PoolFlags → Mem → Pool
pool_of pf_kernel m = m.kern_pool
pool_of pf_user m = m.user_pool

abbrev pub with_pool : PoolFlags → Pool → Mem → Mem
with_pool pf_kernel po m = record m { kern_pool = po }
with_pool pf_user po m = record m { user_pool = po }

abbrev pub vaddr_of : PoolFlags → Mem → VirtualAddr
vaddr_of pf_kernel m = m.kern_vaddr
vaddr_of pf_user m = m.user_vaddr

abbrev pub with_vaddr : PoolFlags → VirtualAddr → Mem → Mem
with_vaddr pf_kernel va m = record m { kern_vaddr = va }
with_vaddr pf_user va m = record m { user_vaddr = va }

-- pte_ptr: what its local variable is given; a return statement is missing in the function, so that
-- its value is taken to be what the register holds after that
abbrev pub pte_ptr : ℕ → ℕ
pte_ptr vaddr = u32 (0xffc0_0000 + vaddr / 2 ^ 22 * 2 ^ 22 / 2 ^ 10 + vaddr / 2 ^ 12 % 2 ^ 10 * 4)

-- pde_ptr
abbrev pub pde_ptr : ℕ → ℕ
pde_ptr vaddr = u32 (0xffff_f000 + vaddr / 2 ^ 22 * 4)

-- entry & PG_P_1
abbrev pub present : ℕ → Bool
present entry = entry % 2 == 1

-- phyaddr | PG_US_U | PG_RW_W | PG_P_1, that is | 7
abbrev pub entry_of : ℕ → ℕ
entry_of phyaddr = phyaddr / 2 ^ 3 * 2 ^ 3 + 7

-- vaddr_to_phy
abbrev pub vaddr_to_phy : (word : ℕ → ℕ) → ℕ → ℕ
vaddr_to_phy word vaddr = u32 (word (pte_ptr vaddr) / 2 ^ 12 * 2 ^ 12 + vaddr % 2 ^ 12)

-- The loop of vaddr_get that sets the bits from a position on.
unfoldable pub set_run : (left : ℕ) → Bitmap → ℕ → Run Bitmap
set_run zero bm position = ok bm
set_run (suc left) bm position = set bm (u32 position) >>= λ bm'. set_run left bm' (position + 1)

-- vaddr_get, by the pool of addresses; `below_kernel` is the test of the user's part
abbrev pub take_vaddr :
    (below_kernel : ℕ → Bool) (cnt : ℕ) → VirtualAddr → Option ℕ → Run (Option ℕ × VirtualAddr)
take_vaddr below_kernel cnt va none = ok (none, va)
take_vaddr below_kernel cnt va (some position) = set_run cnt va.vaddr_bitmap position >>= λ bm.
    let start = u32 (va.vaddr_start + position * page_size) in
    assert (below_kernel start) >> ok (some start, record va { vaddr_bitmap = bm })

abbrev pub below_kernel : PoolFlags → ℕ → Bool
below_kernel pf_kernel start = true
below_kernel pf_user start = ltb start (0xc000_0000 - page_size)

unfoldable pub vaddr_get : PoolFlags → ℕ → Mem → Run (Option ℕ × Mem)
unfolding set_run
vaddr_get type cnt m = scan (vaddr_of type m).vaddr_bitmap cnt >>= λ found.
    take_vaddr (below_kernel type) cnt (vaddr_of type m) found >>= λ (start, va).
    ok (start, with_vaddr type va m)

-- palloc
abbrev pub take_frame : Pool → Option ℕ → Run (Option ℕ × Pool)
take_frame po none = ok (none, po)
take_frame po (some position) = set po.pool_bitmap position >>= λ bm.
    ok (some (u32 (position * page_size + po.phy_addr_start)), record po { pool_bitmap = bm })

unfoldable pub palloc : Pool → Run (Option ℕ × Pool)
palloc po = scan po.pool_bitmap 1 >>= take_frame po

-- NULL is 0
abbrev pub or_null : Option ℕ → ℕ
or_null none = 0
or_null (some a) = a

-- memset of the page of tables that holds an entry
abbrev pub clear_table : ℕ → (ℕ → ℕ) → ℕ → ℕ
clear_table pte word a = if a / page_size == pte / page_size then 0 else word a

-- The end of both branches of page_table_add.
abbrev pub put_entry : (vaddr phyaddr : ℕ) → Mem → Run Mem
put_entry vaddr phyaddr m = do
  assert (not (present (m.word (pte_ptr vaddr))))
  ok (record m { word = update m.word (pte_ptr vaddr) (entry_of phyaddr) })

-- page_table_add; the frame of a new table is used whether palloc finds one or not
unfoldable pub page_table_add : (vaddr phyaddr : ℕ) → Mem → Run Mem
unfolding palloc
page_table_add vaddr phyaddr m =
    if present (m.word (pde_ptr vaddr))
    then put_entry vaddr phyaddr m
    else (palloc m.kern_pool >>= λ (frame, po). put_entry vaddr phyaddr (record m {
      kern_pool = po;
      word = clear_table (pte_ptr vaddr) (update m.word (pde_ptr vaddr) (entry_of (or_null frame)));
    }))

-- A round of the loop of malloc_page, given the frame; false if it is missing.
abbrev pub page_next : (vaddr : ℕ) → (Mem → Run (Bool × Mem)) → Option ℕ → Mem → Run (Bool × Mem)
page_next vaddr next none m = ok (false, m)
page_next vaddr next (some frame) m = page_table_add vaddr frame m >>= next

-- The loop of malloc_page
unfoldable pub page_loop : (left : ℕ) → PoolFlags → (vaddr : ℕ) → Mem → Run (Bool × Mem)
unfolding page_table_add palloc
page_loop zero type vaddr m = ok (true, m)
page_loop (suc left) type vaddr m = palloc (pool_of type m) >>= λ (frame, po).
    page_next vaddr (page_loop left type (u32 (vaddr + page_size))) frame (with_pool type po m)

abbrev pub mapped : ℕ → Bool × Mem → Option ℕ × Mem
mapped start (b, m) = (if b then some start else none, m)

abbrev pub map_pages : PoolFlags → ℕ → Option ℕ × Mem → Run (Option ℕ × Mem)
map_pages type cnt (none, m) = ok (none, m)
map_pages type cnt (some start, m) = page_loop cnt type start m >>= λ r. ok (mapped start r)

-- malloc_page. What vaddr_get took stays taken if a frame is missing.
unfoldable pub malloc_page : PoolFlags → ℕ → Mem → Run (Option ℕ × Mem)
unfolding vaddr_get page_loop
malloc_page type cnt m = do
  assert (ltb 0 cnt)
  assert (ltb cnt 3840)
  r ← vaddr_get type cnt m
  map_pages type cnt r

-- mutex_lock and mutex_unlock of a pool, by the thread that runs
abbrev pub lock_pool : Pool → Pool
lock_pool po = record po { depth = u8 (po.depth + 1) }

abbrev pub unlock_pool : Pool → Pool
unlock_pool po = record po { depth = (po.depth + 2 ^ 8 - 1) % 2 ^ 8 }

-- The pool of the running thread
abbrev pub own_flags : Mem → PoolFlags
own_flags m = if m.is_process then pf_user else pf_kernel

-- pfree
unfoldable pub pfree : (paddr : ℕ) → Mem → Run Mem
pfree paddr m =
    let po = lock_pool (pool_of (own_flags m) m) in
    clear po.pool_bitmap (sub32 paddr po.phy_addr_start / page_size) >>= λ bm.
    ok (with_pool (own_flags m) (unlock_pool (record po { pool_bitmap = bm })) m)

-- page_table_remove; the entry's bit 0 is cleared
unfoldable pub page_table_remove : (vaddr : ℕ) → Mem → Run Mem
page_table_remove vaddr m = do
  assert (present (m.word (pde_ptr vaddr)))
  ok (record m { word = update m.word (pte_ptr vaddr) (m.word (pte_ptr vaddr) / 2 * 2) })

-- The loop of vaddr_remove that clears the bits from a position on.
unfoldable pub clear_run : (left : ℕ) → Bitmap → ℕ → Run Bitmap
clear_run zero bm position = ok bm
clear_run (suc left) bm position =
    clear bm (u32 position) >>= λ bm'. clear_run left bm' (position + 1)

-- vaddr_remove
unfoldable pub vaddr_remove : PoolFlags → (vaddr page_cnt : ℕ) → Mem → Run Mem
unfolding clear_run
vaddr_remove type vaddr page_cnt m =
    let va = vaddr_of type m in
    let body = clear_run page_cnt va.vaddr_bitmap (sub32 vaddr va.vaddr_start / page_size) >>= λ bm.
    ok (with_vaddr type (record va { vaddr_bitmap = bm }) m) in
    do assert (ltb 0 page_cnt); assert (ltb page_cnt 3840); if vaddr == 0 then ok m else body

-- The loop of free_page
unfoldable pub free_loop : (left vaddr : ℕ) → Mem → Run Mem
unfolding pfree page_table_remove
free_loop zero vaddr m = ok m
free_loop (suc left) vaddr m = do
  m1 ← pfree (vaddr_to_phy m.word vaddr) m
  m2 ← page_table_remove vaddr m1
  free_loop left (u32 (vaddr + page_size)) m2

-- free_page
unfoldable pub free_page : PoolFlags → (vaddr page_cnt : ℕ) → Mem → Run Mem
unfolding vaddr_remove free_loop
free_page type vaddr page_cnt m = do
  m1 ← vaddr_remove type vaddr page_cnt m
  free_loop page_cnt vaddr m1

-- get_kern_pages, but for the memset of the pages
unfoldable pub get_kern_pages : ℕ → Mem → Run (Option ℕ × Mem)
unfolding malloc_page
get_kern_pages page_cnt m = malloc_page pf_kernel page_cnt m

-- get_user_pages, but for the memset of the pages
unfoldable pub get_user_pages : ℕ → Mem → Run (Option ℕ × Mem)
unfolding malloc_page
get_user_pages page_cnt m =
    malloc_page pf_user page_cnt (record m { user_pool = lock_pool m.user_pool }) >>= λ (r, m').
    ok (r, record m' { user_pool = unlock_pool m'.user_pool })

-- The end of get_page: the mutex stays locked if there is no frame.
abbrev pub map_at : PoolFlags → (vaddr : ℕ) → Option ℕ × Mem → Run (Option ℕ × Mem)
map_at type vaddr (none, m) = ok (none, m)
map_at type vaddr (some frame, m) = page_table_add vaddr frame m >>= λ m'.
    ok (some vaddr, with_pool type (unlock_pool (pool_of type m')) m')

-- The test of get_page on its type and the running thread
abbrev pub suits : PoolFlags → Bool → Bool
suits pf_kernel is_process = not is_process
suits pf_user is_process = is_process

-- get_page; bit_position is unsigned, so its assertion only refuses 0
unfoldable pub get_page : PoolFlags → (vaddr : ℕ) → Mem → Run (Option ℕ × Mem)
unfolding palloc page_table_add
get_page type vaddr m =
    let locked = with_pool type (lock_pool (pool_of type m)) m in
    let va = vaddr_of type m in
    let bit_position = sub32 vaddr va.vaddr_start / page_size in
    do
      assert (suits type m.is_process)
      assert (ltb 0 bit_position)
      set va.vaddr_bitmap bit_position >>= λ bm.
          let taken = with_vaddr type (record va { vaddr_bitmap = bm }) locked in
          palloc (pool_of type taken) >>= λ (frame, po).
          map_at type vaddr (frame, with_pool type po taken)
