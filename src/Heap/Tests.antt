-- ===== src/Heap/Tests.antt =====
-- Runs on a small heap: one arena of the kernel for blocks of 1024 bytes, with the given free blocks.
use xbay_os.Base.Bytes.{bit}
use xbay_os.Memory.Free.{Absent}
use xbay_os.Memory.Example.{
  page_base, example, example-IsFree, example-IsKernel, example-Maps, first_used,
}
use xbay_os.Memory.{page_size, pf_kernel}
use xbay_os.Heap.Sizes.{arena_to_block-inside}
use xbay_os.Heap.Malloc.{NoFrames, Outcome, sys_malloc-Given}
use xbay_os.Heap.Large.{sys_malloc-Large, large_header, PagesTaken}
use xbay_os.Heap.Invariant.{
  IsBlock, IsHeap, kernel_not_user, some_inj, some-none, update_other, update_same,
}
use xbay_os.Heap.Free.{sys_free-Kept}
use xbay_os.Heap.Empty.{sys_free-Emptied}
use xbay_os.Heap.Count.{count_in}
use xbay_os.Heap.{
  Arena, Heap, arena_bytes, arena_to_block, block_to_arena, desc_at, mem_block_init, size_at,
  sys_free, sys_malloc,
}
use xbay_os.Bitmap.Scan.{IsFree}
use xbay_os.Bitmap.Bits.{bit_at}
use xbay_os.Base.{
  Bool-cases, Distinct, List, [], ap, arith, false, has, inl, inr, none, ok, refl, some, sym, true,
  update, ℕ, ◌%◌, ◌*◌, ◌+◌, ◌<◌, ◌==◌, ◌∙◌, ◌∷◌, ◌≡◌, ◌≤◌, ◌⊎◌,
}

abbrev header : ℕ → Arena
header n = record { flags = pf_kernel; index = 6; cnt = n; large = false }

abbrev heap : List ℕ → Heap
heap bs = record {
  mem = example;
  arena = update (λ a. none) page_base (some (header (count_in page_base bs)));
  kern_blocks = update (λ i. []) 6 bs;
  user_blocks = λ i. [];
}

abbrev block : ℕ → ℕ
block k = arena_to_block page_base 6 k

block_at :
    (bs : List ℕ) (k : ℕ)
    → block_to_arena (block k) ≡ page_base
    → k < 3
    → IsBlock (heap bs) 6 (block k)
unfolding mem_block_init desc_at
block_at bs k at lt = record {
  header = header (count_in page_base bs);
  place = k;
  found = rw at refl;
  small = refl;
  kernel = refl;
  sized = refl;
  within = lt;
  at = rw at refl;
}

header_of :
    (bs : List ℕ) (a : ℕ) (r : Arena)
    → (heap bs).arena a ≡ some r
    → (a ≡ page_base) × (r ≡ header (count_in page_base bs))
header_of bs a r t = elim (Bool-cases (a == page_base)) [
  | inl e ↦
      let e' : a ≡ page_base = ground arith in
      (
        e',
        some_inj r (header (count_in page_base bs)) (
            sym t
            ∙ ap (heap bs).arena e'
            ∙ update_same (λ a. none) page_base (some (header (count_in page_base bs)))),
      )
  | inr e ↦ absurd (
      some-none r
        (sym t ∙ update_other (λ a. none) page_base (some (header (count_in page_base bs))) a e))
]

heap-IsHeap :
    (bs : List ℕ)
    → Distinct bs
    → count_in page_base bs ≤ 3
    → ((b : ℕ) → has b bs ≡ true → IsBlock (heap bs) 6 b)
    → IsHeap (heap bs)
unfolding mem_block_init desc_at bit
heap-IsHeap bs d top blocks = record {
  memory = example-IsKernel;
  mode = refl;
  distinct = λ i. elim (Bool-cases (i == 6)) [
    | inl e ↦
        let e' : i ≡ 6 = ground arith in
        rw (ap (heap bs).kern_blocks e' ∙ update_same (λ i. []) 6 bs) d
    | inr e ↦ rw (update_other (λ i. []) 6 bs i e) tt
  ];
  blocks = λ i b lt t. elim (Bool-cases (i == 6)) [
    | inl e ↦ let e' : i ≡ 6 = ground arith in rw e' (blocks b (ground (arith, e, t)))
    | inr e ↦ absurd (ground (arith, e, t))
  ];
  arenas = λ a r t k.
      let (at, is) = header_of bs a r t in
      rw (at, is)
        (record {
          page = 0;
          at = refl;
          in_range = omega arith;
          used = refl;
          counted = λ _. (omega arith, refl, top);
        });
  users = λ a r t k.
      absurd (kernel_not_user (ap (λ (q : Arena). q.flags) (sym (header_of bs a r t).1) ∙ k));
}

empty-IsHeap : IsHeap (heap [])
empty-IsHeap = heap-IsHeap [] tt (omega arith) (λ b t. cc)

one-IsHeap : IsHeap (heap (block 2 ∷ []))
unfolding mem_block_init desc_at
one-IsHeap =
    heap-IsHeap (block 2 ∷ []) (refl, tt) (omega arith)
      (λ b t.
        let e : b ≡ block 2 = ground (arith, t) in
        rw e (block_at (block 2 ∷ []) 2 refl (omega arith)))

two-IsHeap : IsHeap (heap (block 2 ∷ block 1 ∷ []))
unfolding mem_block_init desc_at
two-IsHeap =
    heap-IsHeap (block 2 ∷ block 1 ∷ []) (refl, (refl, tt)) (omega arith)
      (λ b t. elim (Bool-cases (b == block 2)) [
        | inl s ↦
            let e : b ≡ block 2 = ground arith in
            rw e (block_at (block 2 ∷ block 1 ∷ []) 2 refl (omega arith))
        | inr s ↦
            let e : b ≡ block 1 = ground (arith, s, t) in
            rw e (block_at (block 2 ∷ block 1 ∷ []) 1 refl (omega arith))
      ])

arena_to_block-inside_example :
    (page_base + arena_bytes ≤ arena_to_block page_base 6 2)
    × (arena_to_block page_base 6 2 + size_at 6 ≤ page_base + page_size)
    × ((x : ℕ)
        → arena_to_block page_base 6 2 ≤ x
        → x < arena_to_block page_base 6 2 + size_at 6
        → block_to_arena x ≡ page_base)
unfolding mem_block_init desc_at
arena_to_block-inside_example =
    arena_to_block-inside page_base 6 2 refl (omega arith) (omega arith) (omega arith)

page-IsFree : IsFree first_used 3 1
page-IsFree = record {
  within = omega arith;
  clear = λ q lo hi. example-IsFree.clear q (omega arith) (omega arith);
}

sys_malloc-Given_example :
    (i : ℕ) × (i < 7)
    × (700 ≤ size_at i)
    × ((j : ℕ) → j < i → size_at j < 700)
    × Outcome i (heap []) (sys_malloc 700 (heap []))
sys_malloc-Given_example =
    sys_malloc-Given 700 3 (heap []) empty-IsHeap (omega arith) (omega arith) page-IsFree

pages-IsFree : IsFree first_used 3 2
pages-IsFree = record {
  within = omega arith;
  clear = λ q lo hi. example-IsFree.clear q (omega arith) (omega arith);
}

sys_malloc-Large_example :
    (h' : Heap) × IsHeap h'
    × (((a : ℕ) × (cnt : ℕ) × (sys_malloc 5000 (heap []) ≡ ok (some (a + arena_bytes), h'))
          × ((heap []).arena a ≡ none)
          × (h'.arena a ≡ some (large_header cnt))
          × (5000 + arena_bytes ≤ cnt * page_size)
          × (a % page_size ≡ 0)
          × PagesTaken cnt a (heap []) h')
        ⊎ ((sys_malloc 5000 (heap []) ≡ ok (none, h')) × NoFrames (heap []) h'))
sys_malloc-Large_example =
    sys_malloc-Large 5000 3 (heap []) empty-IsHeap (omega arith) (omega arith) (omega arith)
      pages-IsFree

sys_free-Kept_example :
    (h' : Heap) × (sys_free (block 0) (heap (block 2 ∷ [])) ≡ ok h')
    × IsHeap h'
    × IsBlock h' 6 (block 0)
    × (h'.kern_blocks ≡ update (heap (block 2 ∷ [])).kern_blocks 6 (block 2 ∷ block 0 ∷ []))
unfolding mem_block_init desc_at block_at
sys_free-Kept_example =
    sys_free-Kept (heap (block 2 ∷ [])) 6 (block 0) one-IsHeap (omega arith)
      (block_at (block 2 ∷ []) 0 refl (omega arith)) refl refl

sys_free-Emptied_example :
    (h' : Heap) × (sys_free (block 0) (heap (block 2 ∷ block 1 ∷ [])) ≡ ok h')
    × IsHeap h'
    × (h'.arena page_base ≡ none)
    × (bit_at h'.mem.kern_pool.pool_bitmap 0 ≡ false)
    × Absent 1 page_base h'.mem.word
    × ((b : ℕ) → has b (h'.kern_blocks 6) ≡ true → (block_to_arena b == page_base) ≡ false)
unfolding mem_block_init desc_at block_at
sys_free-Emptied_example =
    sys_free-Emptied (heap (block 2 ∷ block 1 ∷ [])) 6 (block 0) 0 two-IsHeap (omega arith)
      (block_at (block 2 ∷ block 1 ∷ []) 0 refl (omega arith)) refl refl (omega arith) (omega arith)
      example-Maps
