-- ===== src/Heap/Malloc.antt =====
-- sys_malloc for the kernel: what a caller gets, and that the invariant of the heap is kept.
use xbay_os.Heap.Lock.{Allocated-Grown, Grown-IsHeap, lock-IsHeap, unlock-IsHeap}
use xbay_os.Heap.Cut.{cut}
use xbay_os.Thread.Pick.{rest}
use xbay_os.Memory.Alloc.{Allocated, IsKernel, malloc_page-Allocated}
use xbay_os.Memory.{malloc_page, pf_kernel, own_flags, page_size}
use xbay_os.Heap.Pop.{pop_block-IsHeap}
use xbay_os.Heap.Invariant.{IsBlock, IsHeap, update_other}
use xbay_os.Heap.Fill.{filled, filled-IsHeap, filled-first, new_arena-filled, page_at-blank}
use xbay_os.Heap.{
  Heap, block_to_arena, desc_at, mem_block_init, size_at, size_loop, small_block, Mem,
  arena_to_block, cnt_at, fill_and_pop, lock, new_arena, pop_block, sys_malloc, unlock,
}
use xbay_os.Bitmap.Scan.{IsFree}
use xbay_os.Bitmap.Bits.{bit_at}
use xbay_os.Base.Bytes.{all_below, all_below_sound}
use xbay_os.Base.{
  ==_refl, Bool, List, Option, Run, [], arith, false, has, inl, inr, leb, ltb, none, ok, refl, some,
  true, ℕ, ◌&&◌, ◌*◌, ◌<◌, ◌==◌, ◌∷◌, ◌≡◌, ◌≤◌, ◌⊎◌, ap, ◌+◌, ◌∙◌,
}

least_ok : ℕ → Bool
least_ok size =
    let i = size_loop mem_block_init size 0 in
    ltb i 7 && leb size (size_at i) && all_below i (λ j. ltb (size_at j) size)

least_all : all_below 1025 least_ok ≡ true
unfolding all_below least_ok mem_block_init desc_at
least_all = refl

-- The loop of sys_malloc finds the least size of blocks that is enough.
pub size_loop-least :
    (size : ℕ)
    → size ≤ 1024
    → (size_loop mem_block_init size 0 < 7)
      × (size ≤ size_at (size_loop mem_block_init size 0))
      × ((j : ℕ) → j < size_loop mem_block_init size 0 → size_at j < size)
unfolding least_ok
size_loop-least size le =
    let e = all_below_sound 1025 least_ok size least_all (omega arith) in
    let i = size_loop mem_block_init size 0 in
    let rest : all_below i (λ j. ltb (size_at j) size) ≡ true = ground (arith, e) in
    (
      ground (arith, e),
      ground (arith, e),
      λ j lt. let t = all_below_sound i (λ j. ltb (size_at j) size) j rest lt in ground (arith, t),
    )

-- What a caller gets: a block of size i in an arena of the kernel, which was free or lies in a page
-- that was no arena, and which is not free now; the lists of the other sizes are what they were.
pub record Given (i : ℕ) (h : Heap) (b : ℕ) (h' : Heap) : Type 0 where
  pub block : IsBlock h' i b
  pub taken : has b (h'.kern_blocks i) ≡ false
  pub unused : (has b (h.kern_blocks i) ≡ true) ⊎ (h.arena (block_to_arena b) ≡ none)
  pub others : (j : ℕ) → (j == i) ≡ false → h'.kern_blocks j ≡ h.kern_blocks j

-- No frame of the kernel's pool is free.
abbrev pub NoFrames : Heap → Heap → Type 0
NoFrames h h' =
    (q : ℕ)
    → q < h.mem.kern_pool.pool_bitmap.length * 8
    → bit_at h'.mem.kern_pool.pool_bitmap q ≡ true

-- The outcome of sys_malloc for a small block
abbrev pub Outcome : (i : ℕ) (h : Heap) → Run (Option ℕ × Heap) → Type 0
Outcome i h run =
    (h' : Heap) × IsHeap h'
    × (((b : ℕ) × (run ≡ ok (some b, h')) × Given i h b h')
        ⊎ ((run ≡ ok (none, h')) × (h.kern_blocks i ≡ []) × NoFrames h h'))

fill_run :
    (i a b : ℕ) (bs : List ℕ) (h filled_heap : Heap) (out : Run (Option ℕ × Heap))
    → new_arena pf_kernel i a h ≡ ok filled_heap
    → filled_heap.kern_blocks i ≡ b ∷ bs
    → pop_block pf_kernel i (b ∷ bs) filled_heap ≡ out
    → fill_and_pop pf_kernel i (some a) h ≡ out
fill_run i a b bs h filled_heap out new list popped = rw (new, list) popped

page_run :
    (i : ℕ) (r : Option ℕ) (h : Heap) (m : Mem) (out : Run (Option ℕ × Heap))
    → malloc_page pf_kernel 1 h.mem ≡ ok (r, m)
    → fill_and_pop pf_kernel i r (record h { mem = m }) ≡ out
    → small_block pf_kernel i [] h ≡ out
page_run i r h m out run rest = rw run rest

module _ (i : ℕ) (hi : i < 7) where
  from_list :
      (h : Heap) (b : ℕ) (bs : List ℕ)
      → IsHeap h
      → h.kern_blocks i ≡ b ∷ bs
      → Outcome i h (small_block pf_kernel i (b ∷ bs) h)
  from_list h b bs v list =
      let (h', run, v', block, lists, taken) = pop_block-IsHeap h i b bs v hi list in
      (
        h',
        v',
        inl (
          b,
          run,
          record {
            block = block;
            taken = taken;
            unused = inl (rw list (ground (arith, ==_refl b)));
            others = λ j ne. rw lists (update_other h.kern_blocks i bs j ne);
          },
        ),
      )

  from_page :
      (h : Heap) (r : Option ℕ) (m : Mem)
      → IsHeap h
      → h.kern_blocks i ≡ []
      → (al : Allocated 1 h.mem r m) → IsKernel m
      → malloc_page pf_kernel 1 h.mem ≡ ok (r, m)
      → r ≡ some (h.mem.kern_vaddr.vaddr_start + al.place * page_size)
      → Outcome i h (small_block pf_kernel i [] h)
  from_page h r m v none_free al k run got =
      let a = h.mem.kern_vaddr.vaddr_start + al.place * page_size in
      let (bs, list, at) = filled-first h i m v hi none_free r al k in
      let b = arena_to_block a i 0 in
      let full = filled h i m v hi none_free r al k in
      let (h', popped, v', block, lists, taken) =
        pop_block-IsHeap full i b bs (filled-IsHeap h i m v hi none_free r al k) hi list in
      (
        h',
        v',
        inl (
          b,
          page_run i (some a) h m (ok (some b, h')) (run ∙ ap (λ (o : Option ℕ). ok (o, m)) got) (
              fill_run i a b bs (record h { mem = m }) full (ok (some b, h'))
                (new_arena-filled h i m v hi none_free r al k) list popped),
          record {
            block = block;
            taken = taken;
            unused = inr (ap h.arena at ∙ page_at-blank h i m v hi none_free r al k);
            others = λ j ne.
                ap (λ (f : ℕ → List ℕ). f j) lists
                ∙ update_other full.kern_blocks i bs j ne
                ∙ update_other h.kern_blocks i (cut (cnt_at i) a i 0) j ne;
          },
        ),
      )

  no_page :
      (h : Heap) (r : Option ℕ) (m : Mem)
      → IsHeap h
      → h.kern_blocks i ≡ []
      → Allocated 1 h.mem r m
      → IsKernel m
      → malloc_page pf_kernel 1 h.mem ≡ ok (none, m)
      → NoFrames h (record h { mem = m })
      → Outcome i h (small_block pf_kernel i [] h)
  no_page h r m v none_free al k run all = (
    unlock pf_kernel (record h { mem = m }),
    unlock-IsHeap (record h { mem = m })
        (Grown-IsHeap h (record h { mem = m }) (Allocated-Grown 1 h r m al k) v),
    inr (rw run refl, none_free, all),
  )

  -- Whether there is a free block or not, in a good state a block is given, or no frame is left.
  pub small_block-Given :
      (h : Heap) (bs : List ℕ) (p : ℕ)
      → IsHeap h
      → h.kern_blocks i ≡ bs
      → IsFree h.mem.kern_vaddr.vaddr_bitmap p 1
      → Outcome i h (small_block pf_kernel i bs h)
  small_block-Given h (b ∷ bs) p v list f = from_list h b bs v list
  small_block-Given h [] p v list f =
      let (r, m, run, al, k) =
        malloc_page-Allocated 1 p h.mem v.memory (omega arith) (omega arith) f in
      elim al.outcome [
        | inl (got, _) ↦ from_page h r m v list al k run got
        | inr (got, all) ↦
            no_page h r m v list al k (run ∙ ap (λ (o : Option ℕ). ok (o, m)) got) all
      ]

-- In a good state with the kernel running, a request of at most 1024 bytes, not above the pool's
-- size, with a free page of addresses: sys_malloc returns and the state stays good. It gives a block
-- of the least size that is enough, which lies in an arena of that size, was free or in a page that
-- was no arena, and is no longer free, while the lists of the other sizes stay; or it gives NULL,
-- when there was no free block of that size and no frame is left.
pub sys_malloc-Given :
    (size p : ℕ) (h : Heap)
    → IsHeap h
    → size ≤ 1024
    → size ≤ h.mem.kern_pool.pool_size
    → IsFree h.mem.kern_vaddr.vaddr_bitmap p 1
    → (i : ℕ) × (i < 7)
      × (size ≤ size_at i)
      × ((j : ℕ) → j < i → size_at j < size)
      × Outcome i h (sys_malloc size h)
unfolding sys_malloc
sys_malloc-Given size p h v le fits f =
    let i = size_loop mem_block_init size 0 in
    let (hi, enough, least) = size_loop-least size le in
    let (h', v', res) =
      small_block-Given i hi (lock pf_kernel h) (h.kern_blocks i) p (lock-IsHeap h v) refl f in
    let own : own_flags h.mem ≡ pf_kernel = rw (v.mode) refl in
    let in_pool : ltb h.mem.kern_pool.pool_size size ≡ false = ground arith in
    let small : ltb 1024 size ≡ false = ground arith in
    (
      i,
      hi,
      enough,
      least,
      (
        h',
        v',
        elim res [
          | inl (b, run, g) ↦ inl (
            b,
            rw (own, in_pool, small) run,
            record { block = g.block; taken = g.taken; unused = g.unused; others = g.others },
          )
          | inr (run, none_free, all) ↦ inr (rw (own, in_pool, small) run, none_free, all)
        ],
      ),
    )
