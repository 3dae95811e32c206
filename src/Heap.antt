-- ===== src/Heap.antt =====
-- kernel/memory.c: sys_malloc and sys_free, which cut pages into blocks of seven sizes, and the
-- calls for the kernel's own use. The contents of blocks are not part of the state.
pub mod Sizes
pub mod Count
pub mod Invariant
pub mod Cut
pub mod Recount
pub mod Fresh
pub mod Lock
pub mod Pop
pub mod Fill
pub mod Malloc
pub mod Large
pub mod Drop
pub mod Free
pub mod Empty
mod Tests
use xbay_os.Thread.Pick.{rest}
use xbay_os.Strings.Text.{kept}
use xbay_os.Memory.{
  PoolFlags, free_page, lock_pool, malloc_page, own_flags, page_size, pf_kernel, pf_user, pool_of,
  unlock_pool, with_pool, Mem,
}
use xbay_os.Keyboard.Letters.{flags}
use xbay_os.Base.{
  Bool, List, Option, Run, [], assert, div_round_up, false, get_or, has, if◌then◌else◌, leb, ltb,
  none, not, ok, panic, some, sub32, suc, true, u16, u32, update, zero, ℕ, ◌*◌, ◌++◌, ◌+◌, ◌-◌, ◌/◌,
  ◌==◌, ◌>>=◌, ◌>>◌, ◌∷◌,
}

-- struct __mem_block_desc, without the list
pub record Desc : Type 0 where
  pub block_size : ℕ
  pub blocks_cnt : ℕ

-- struct __arena; its descriptor is named by the table it stands in and its index
pub record Arena : Type 0 where
  pub flags : PoolFlags
  pub index : ℕ
  pub cnt : ℕ
  pub large : Bool

-- The memory below, the headers of the pages that are arenas, by address, and the free blocks of
-- km_block_descs and of the running thread's um_block_descs, as lib/list.c links them.
pub record Heap : Type 0 where
  pub mem : Mem
  pub arena : ℕ → Option Arena
  pub kern_blocks : ℕ → List ℕ
  pub user_blocks : ℕ → List ℕ

-- sizeof(arena): a pointer, an uint32_t, a bool with its padding
abbrev pub arena_bytes : ℕ
arena_bytes = 4 + 4 + 4

-- The loop of mem_block_init; blk_size is a uint16_t
abbrev pub desc_loop : (left blk_size : ℕ) → List Desc
desc_loop zero blk_size = []
desc_loop (suc left) blk_size =
    record { block_size = blk_size; blocks_cnt = (page_size - arena_bytes) / blk_size }
    ∷ desc_loop left (u16 (blk_size * 2))

-- mem_block_init, with MEM_BLOCK_DESC_CNT 7; the lists of free blocks are empty
unfoldable pub mem_block_init : List Desc
mem_block_init = desc_loop 7 16

unfoldable pub desc_at : ℕ → Desc
unfolding mem_block_init
desc_at i = get_or mem_block_init i (record { block_size = 0; blocks_cnt = 0 })

abbrev pub size_at : ℕ → ℕ
size_at i = (desc_at i).block_size

abbrev pub cnt_at : ℕ → ℕ
cnt_at i = (desc_at i).blocks_cnt

-- arena_to_block
abbrev pub arena_to_block : (a i idx : ℕ) → ℕ
arena_to_block a i idx = u32 (a + arena_bytes + idx * size_at i)

-- block_to_arena
abbrev pub block_to_arena : ℕ → ℕ
block_to_arena b = b / page_size * page_size

-- The loop of sys_malloc that looks for the size; it ends at 7 if no size is enough
abbrev pub size_loop : List Desc → (size i : ℕ) → ℕ
size_loop [] size i = i
size_loop (d ∷ ds) size i =
    let next = size_loop ds size (i + 1) in if leb size d.block_size then i else next

abbrev pub blocks_of : PoolFlags → Heap → ℕ → List ℕ
blocks_of pf_kernel h = h.kern_blocks
blocks_of pf_user h = h.user_blocks

abbrev pub with_blocks : PoolFlags → ℕ → List ℕ → Heap → Heap
with_blocks pf_kernel i bs h = record h { kern_blocks = update h.kern_blocks i bs }
with_blocks pf_user i bs h = record h { user_blocks = update h.user_blocks i bs }

abbrev pub lock : PoolFlags → Heap → Heap
lock type h = record h { mem = with_pool type (lock_pool (pool_of type h.mem)) h.mem }

abbrev pub unlock : PoolFlags → Heap → Heap
unlock type h = record h { mem = with_pool type (unlock_pool (pool_of type h.mem)) h.mem }

-- The loop of sys_malloc that pushes the blocks of a new arena.
unfoldable pub cut_loop : (left a i idx : ℕ) → List ℕ → Run (List ℕ)
cut_loop zero a i idx bs = ok bs
cut_loop (suc left) a i idx bs = do
  assert (not (has (arena_to_block a i idx) bs))
  cut_loop left a i (idx + 1) (bs ++ arena_to_block a i idx ∷ [])

-- What sys_malloc does with the page of a new arena.
unfoldable pub new_arena : PoolFlags → (i a : ℕ) → Heap → Run Heap
unfolding cut_loop
new_arena type i a h = cut_loop (cnt_at i) a i 0 (blocks_of type h i) >>= λ bs. ok (
    with_blocks type i bs (record h {
      arena =
          update h.arena a
            (some (record { flags = type; index = i; cnt = cnt_at i; large = false }));
    }))

-- A header is read or written at a page that is no arena: a page fault, here a panic.
abbrev pub use_arena : Option Arena → (Arena → Run Heap) → Run Heap
use_arena none f = panic
use_arena (some r) f = f r

abbrev pub set_cnt : (a : ℕ) → Arena → ℕ → Heap → Heap
set_cnt a r n h = record h { arena = update h.arena a (some (record r { cnt = n })) }

-- The end of sys_malloc for a small block: the first free one leaves the list. The list is not
-- empty here; list_pop_front would give NULL.
abbrev pub pop_block : PoolFlags → ℕ → List ℕ → Heap → Run (Option ℕ × Heap)
pop_block type i [] h = panic
pop_block type i (b ∷ bs) h =
    let a = block_to_arena b in
    use_arena (h.arena a) (λ r. ok (set_cnt a r (sub32 r.cnt 1) (with_blocks type i bs h)))
    >>= λ h'. ok (some b, unlock type h')

abbrev pub fill_and_pop : PoolFlags → ℕ → Option ℕ → Heap → Run (Option ℕ × Heap)
fill_and_pop type i none h = ok (none, unlock type h)
fill_and_pop type i (some a) h =
    new_arena type i a h >>= λ h'. pop_block type i (blocks_of type h' i) h'

abbrev pub small_block : PoolFlags → ℕ → List ℕ → Heap → Run (Option ℕ × Heap)
small_block type i [] h =
    malloc_page type 1 h.mem >>= λ (page, mem). fill_and_pop type i page (record h { mem = mem })
small_block type i (b ∷ bs) h = pop_block type i (b ∷ bs) h

abbrev pub large_block : PoolFlags → (page_cnt : ℕ) → Option ℕ → Heap → Run (Option ℕ × Heap)
large_block type page_cnt none h = ok (none, unlock type h)
large_block type page_cnt (some a) h = ok (
  some (u32 (a + arena_bytes)),
  unlock type (record h {
    arena =
        update h.arena a (some (record { flags = type; index = 7; cnt = page_cnt; large = true }));
  }),
)

-- sys_malloc; the descriptor of a large arena is NULL, here the index 7
unfoldable pub sys_malloc : (size : ℕ) → Heap → Run (Option ℕ × Heap)
unfolding mem_block_init new_arena malloc_page
sys_malloc size h0 =
    let type = own_flags h0.mem in
    let h = lock type h0 in
    let i = size_loop mem_block_init size 0 in
    let page_cnt = div_round_up (size + arena_bytes) page_size in
    if ltb (pool_of type h0.mem).pool_size size
    then ok (none, h0)
    else if ltb 1024 size
    then (malloc_page type page_cnt h.mem >>= λ (page, mem).
        large_block type page_cnt page (record h { mem = mem }))
    else small_block type i (blocks_of type h i) h

-- list_remove of a block that list_exist finds
abbrev pub drop_block : ℕ → List ℕ → List ℕ
drop_block b [] = []
drop_block b (c ∷ cs) = let rest = drop_block b cs in if b == c then cs else c ∷ rest

-- The loop of sys_free that takes the blocks of an arena out of the list.
abbrev pub drop_loop : (left a i idx : ℕ) → List ℕ → List ℕ
drop_loop zero a i idx bs = bs
drop_loop (suc left) a i idx bs =
    drop_loop left a i (idx + 1) (drop_block (arena_to_block a i idx) bs)

abbrev pub release : PoolFlags → (a page_cnt : ℕ) → Heap → Run Heap
release type a page_cnt h = free_page type a page_cnt h.mem >>= λ mem.
    ok (unlock type (record h { mem = mem; arena = update h.arena a none }))

-- What sys_free does with a block, or with a large arena; the page of an arena is unmapped when all
-- its blocks are free.
abbrev pub free_block : PoolFlags → (ptr : ℕ) → Heap → Arena → Run Heap
free_block type ptr h r =
    let a = block_to_arena ptr in
    let n = u32 (r.cnt + 1) in
    let bs = blocks_of r.flags h r.index ++ ptr ∷ [] in
    let kept = set_cnt a r n (with_blocks r.flags r.index bs h) in
    let dropped = with_blocks r.flags r.index (drop_loop n a r.index 0 bs) kept in
    if r.large
    then release type a r.cnt h
    else (if n == cnt_at r.index then release type a 1 dropped else ok (unlock type kept))

-- sys_free
unfoldable pub sys_free : (ptr : ℕ) → Heap → Run Heap
unfolding free_page
sys_free ptr h0 =
    let type = own_flags h0.mem in
    let h = lock type h0 in
    do assert (not (ptr == 0)); use_arena (h.arena (block_to_arena ptr)) (free_block type ptr h)

abbrev pub as_kernel : Bool → Heap → Heap
as_kernel p h = record h { mem = record (h.mem) { is_process = p } }

-- sys_kmalloc and sys_kfree; page_dir is NULL for the time of the call
unfoldable pub sys_kmalloc : ℕ → Heap → Run (Option ℕ × Heap)
unfolding sys_malloc
sys_kmalloc size h =
    sys_malloc size (as_kernel false h) >>= λ (r, h'). ok (r, as_kernel h.mem.is_process h')

unfoldable pub sys_kfree : ℕ → Heap → Run Heap
unfolding sys_free
sys_kfree p h = sys_free p (as_kernel false h) >>= λ h'. ok (as_kernel h.mem.is_process h')
