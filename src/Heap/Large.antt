-- ===== src/Heap/Large.antt =====
-- sys_malloc for the kernel, of more than the largest block: an arena of whole pages.
use xbay_os.Thread.Pick.{rest}
use xbay_os.Memory.Loop.{Maps}
use xbay_os.Memory.Alloc.{Allocated, IsKernel, RunSet, malloc_page-Allocated, RunSet}
use xbay_os.Memory.{malloc_page, own_flags, page_size, pf_kernel}
use xbay_os.Heap.Malloc.{NoFrames}
use xbay_os.Heap.Lock.{Allocated-Grown, Grown-IsHeap, lock-IsHeap, unlock-IsHeap}
use xbay_os.Heap.Invariant.{IsHeap, page_blank, update_same}
use xbay_os.Heap.Fresh.{Fresh, Fresh-IsHeap}
use xbay_os.Heap.{Arena, Heap, arena_bytes, large_block, lock, sys_malloc, unlock, Mem}
use xbay_os.Bitmap.Bits.{bit_at}
use xbay_os.Bitmap.Scan.{IsFree}
use xbay_os.Base.{
  Option, Run, ap, arith, div_round_up, false, inl, inr, ltb, none, ok, refl, some, true, update, ℕ,
  ◌%◌, ◌*◌, ◌+◌, ◌-◌, ◌/◌, ◌<◌, ◌^◌, ◌≡◌, ◌≤◌, ◌⊎◌, ◌∙◌, List, length, Distinct, has, ◌||◌,
}

abbrev pub large_header : ℕ → Arena
large_header page_cnt = record { flags = pf_kernel; index = 7; cnt = page_cnt; large = true }

abbrev large_heap : (cnt a : ℕ) → Heap → Mem → Heap
large_heap cnt a h m = record h { mem = m; arena = update h.arena a (some (large_header cnt)) }

module _ (cnt : ℕ) (h : Heap) (r : Option ℕ) (m : Mem) (v : IsHeap h) (pos : 0 < cnt)
    (al : Allocated cnt h.mem r m) (k : IsKernel m) where
  large-Fresh :
      Fresh h
        (large_heap cnt (h.mem.kern_vaddr.vaddr_start + al.place * page_size) h m)
        al.place
        (large_header cnt)
  large-Fresh =
      let w = al.was_free.within in
      record {
        memory = k;
        same_mode = al.same_mode;
        same_start = al.same_start;
        same_length = al.run.1;
        still_used = λ q u. ground (arith, al.run.2 q, u);
        in_range = omega (arith, w);
        was_free = al.was_free.clear al.place (omega arith) (omega arith);
        used_now = ground (arith, al.run.2 al.place);
        new_header = refl;
        kernel = refl;
        counted = λ s. cc;
        distinct = v.distinct;
        all_blocks = λ j b lt t. inl t;
        others = λ b j ne. refl;
      }

-- The cnt pages from a on were free and are taken, and they are mapped to as many frames.
abbrev pub PagesTaken : (cnt a : ℕ) → Heap → Heap → Type 0
PagesTaken cnt a h h' =
    (place : ℕ) × (taken : List ℕ) × (a ≡ h.mem.kern_vaddr.vaddr_start + place * page_size)
    × IsFree h.mem.kern_vaddr.vaddr_bitmap place cnt
    × RunSet h.mem.kern_vaddr.vaddr_bitmap place cnt true h'.mem.kern_vaddr.vaddr_bitmap
    × (length taken ≡ cnt)
    × Distinct taken
    × ((f : ℕ) → has f taken ≡ true → bit_at h.mem.kern_pool.pool_bitmap f ≡ false)
    × ((q : ℕ)
        → bit_at h'.mem.kern_pool.pool_bitmap q
          ≡ (has q taken || bit_at h.mem.kern_pool.pool_bitmap q))
    × Maps h'.mem.word h'.mem.kern_pool.phy_addr_start a taken

large_run :
    (size : ℕ) (r : Option ℕ) (h : Heap) (m : Mem) (out : Run (Option ℕ × Heap))
    → IsHeap h
    → 1024 < size
    → size ≤ h.mem.kern_pool.pool_size
    → malloc_page pf_kernel (div_round_up (size + arena_bytes) page_size) (lock pf_kernel h).mem
      ≡ ok (r, m)
    → large_block pf_kernel (div_round_up (size + arena_bytes) page_size) r (record h { mem = m })
      ≡ out
    → sys_malloc size h ≡ out
unfolding sys_malloc
large_run size r h m out v lt fits run rest =
    let own : own_flags h.mem ≡ pf_kernel = rw (v.mode) refl in
    let in_pool : ltb h.mem.kern_pool.pool_size size ≡ false = ground arith in
    let big : ltb 1024 size ≡ true = ground arith in rw (own, in_pool, big, run) rest

-- In a good state with the kernel running, a request of more than 1024 bytes, not above the pool's
-- size, of fewer than 3840 pages with the header, with a free run of as many addresses: sys_malloc
-- returns and the state stays good. It gives the address behind the header of a new large arena, on
-- a page that was no arena, with the number of pages, which hold the header and the request; these
-- pages were free, are taken and mapped to frames that were free; or it gives NULL when no frame is left.
pub sys_malloc-Large :
    (size p : ℕ) (h : Heap)
    → IsHeap h
    → 1024 < size
    → size ≤ h.mem.kern_pool.pool_size
    → size + arena_bytes ≤ 3839 * page_size
    → IsFree h.mem.kern_vaddr.vaddr_bitmap p (div_round_up (size + arena_bytes) page_size)
    → (h' : Heap) × IsHeap h'
      × (((a : ℕ) × (cnt : ℕ) × (sys_malloc size h ≡ ok (some (a + arena_bytes), h'))
            × (h.arena a ≡ none)
            × (h'.arena a ≡ some (large_header cnt))
            × (size + arena_bytes ≤ cnt * page_size)
            × (a % page_size ≡ 0)
            × PagesTaken cnt a h h')
          ⊎ ((sys_malloc size h ≡ ok (none, h')) × NoFrames h h'))
sys_malloc-Large size p h v lt fits top f =
    let cnt = div_round_up (size + arena_bytes) page_size in
    let wrap : (size + arena_bytes + page_size - 1) % 2 ^ 32 ≡ size + arena_bytes + page_size - 1 =
      omega arith in
    let pages : cnt ≡ (size + arena_bytes + page_size - 1) / page_size =
      ap (λ (x : ℕ). x / page_size) wrap in
    let lh = lock pf_kernel h in
    let lv = lock-IsHeap h v in
    let (r, m, run, al, k) =
      malloc_page-Allocated cnt p lh.mem lv.memory (omega arith) (omega arith) f in
    let a = h.mem.kern_vaddr.vaddr_start + al.place * page_size in
    let w = al.was_free.within in
    elim al.outcome [
      | inl (got, frames) ↦
          let at : (a + arena_bytes) % 2 ^ 32 ≡ a + arena_bytes =
            omega (arith, v.memory.below, w) in
          let full = large_heap cnt a lh m in
          (
            unlock pf_kernel full,
            unlock-IsHeap full (
                Fresh-IsHeap lh full al.place (large_header cnt)
                  (large-Fresh cnt lh r m lv (omega arith) al k) lv),
            inl (
              a,
              cnt,
              large_run size (some a) h m _ v lt fits (run ∙ ap (λ (o : Option ℕ). ok (o, m)) got)
                  (rw at refl),
              page_blank h al.place v (omega (arith, w))
                  (al.was_free.clear al.place (omega arith) (omega arith)),
              update_same h.arena a (some (large_header cnt)),
              omega (arith, pages),
              omega (arith, v.memory.aligned),
              (
                al.place, al.taken, refl, al.was_free, al.run, frames, al.used.distinct,
                al.used.were_free, al.used.set_now, al.maps,
              ),
            ),
          )
      | inr (got, all) ↦
          let grown = record lh { mem = m } in
          (
            unlock pf_kernel grown,
            unlock-IsHeap grown (Grown-IsHeap lh grown (Allocated-Grown cnt lh r m al k) lv),
            inr (
              large_run size none h m _ v lt fits (run ∙ ap (λ (o : Option ℕ). ok (o, m)) got) refl,
              all,
            ),
          )
    ]
