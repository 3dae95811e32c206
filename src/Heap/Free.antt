-- ===== src/Heap/Free.antt =====
-- sys_free for the kernel, of a block of an arena whose other blocks are not all free.
use xbay_os.Memory.{page_size, pf_kernel, own_flags}
use xbay_os.Heap.Sizes.{arena_to_block_lem, size_at-bounds}
use xbay_os.Heap.Recount.{Recount, Recount-IsHeap}
use xbay_os.Heap.Lock.{lock-IsBlock, lock-IsHeap, unlock-IsBlock, unlock-IsHeap}
use xbay_os.Heap.Invariant.{IsArena, IsBlock, IsBlock-recount, IsHeap}
use xbay_os.Heap.Drop.{count_in-top}
use xbay_os.Heap.Count.{count_in, count_in-append}
use xbay_os.Heap.{
  Arena, Heap, arena_to_block, block_to_arena, cnt_at, free_block, lock, set_cnt, sys_free, unlock,
  with_blocks,
}
use xbay_os.Base.{
  ==_refl, Bool-cases, Distinct, Distinct-append, List, Run, [], ap, arith, false, has, has-append,
  inl, inr, ok, refl, some, true, u32, update, ℕ, ◌%◌, ◌++◌, ◌+◌, ◌<◌, ◌==◌, ◌^◌, ◌∙◌, ◌∷◌, ◌≡◌,
  ◌≤◌,
}

module _ (h : Heap) (v : IsHeap h) (i p : ℕ) (hi : i < 7) (x : IsBlock h i p)
    (new : has p (h.kern_blocks i) ≡ false) where
  -- The list once the block is free.
  abbrev pub freed_list : List ℕ
  freed_list = h.kern_blocks i ++ p ∷ []

  pub freed_blocks : (c : ℕ) → has c freed_list ≡ true → IsBlock h i c
  freed_blocks c t = elim (Bool-cases (c == p)) [
    | inl e ↦ let e' : c ≡ p = ground arith in rw e' x
    | inr e ↦
        let both = has-append c (h.kern_blocks i) (p ∷ []) in
        v.blocks i c hi (ground (arith, both, t, e))
  ]

  pub freed-Distinct : Distinct freed_list
  freed-Distinct = Distinct-append (h.kern_blocks i) p (v.distinct i) new

  own-IsArena : IsArena h (block_to_arena p) x.header
  own-IsArena = v.arenas (block_to_arena p) x.header x.found x.kernel

  pub arena_bounds :
      (block_to_arena p % page_size ≡ 0)
      × (block_to_arena p + page_size ≤ 2 ^ 32)
      × ((p == 0) ≡ false)
  arena_bounds =
      let y = own-IsArena in
      let al : block_to_arena p % page_size ≡ 0 = omega (arith, y.at, v.memory.aligned) in
      let top : block_to_arena p + page_size ≤ 2 ^ 32 =
        omega (arith, y.at, y.in_range, v.memory.below) in
      let inside = arena_to_block_lem (block_to_arena p) i x.place al top hi x.within in
      (al, top, ground (arith, inside.0, x.at))

  pub freed_counted :
      (1 + x.header.cnt ≡ count_in (block_to_arena p) freed_list)
      × (count_in (block_to_arena p) freed_list ≤ cnt_at i)
  freed_counted =
      let y = own-IsArena.counted x.small in
      let e : count_in (block_to_arena p) (h.kern_blocks x.header.index)
          ≡ count_in (block_to_arena p) (h.kern_blocks i) =
        ap (λ (j : ℕ). count_in (block_to_arena p) (h.kern_blocks j)) x.sized in
      let self = ==_refl (block_to_arena p) in
      let one : count_in (block_to_arena p) (p ∷ []) ≡ 1 = rw self refl in
      let sum = count_in-append (block_to_arena p) (h.kern_blocks i) (p ∷ []) in
      (
        omega (arith, y.1, e, one, sum),
        count_in-top (block_to_arena p) i (cnt_at i) freed_list freed-Distinct (λ b t s.
            let z = freed_blocks b t in
            let same : block_to_arena b ≡ block_to_arena p = ground arith in
            (z.place, z.within, z.at ∙ ap (λ (q : ℕ). arena_to_block q i z.place) same)),
      )

  pub count_elsewhere :
      (b : ℕ)
      → (b == block_to_arena p) ≡ false
      → count_in b freed_list ≡ count_in b (h.kern_blocks i)
  count_elsewhere b ne =
      let out : (block_to_arena p == b) ≡ false = ground (arith, ne) in
      let none_here : count_in b (p ∷ []) ≡ 0 = rw out refl in
      omega (arith, count_in-append b (h.kern_blocks i) (p ∷ []), none_here)

  abbrev kept_header : Arena
  kept_header = record (x.header) { cnt = u32 (x.header.cnt + 1) }

  abbrev kept_heap : Heap
  kept_heap =
      set_cnt (block_to_arena p) x.header (u32 (x.header.cnt + 1))
        (with_blocks pf_kernel i freed_list h)

  kept-Recount : Recount h kept_heap i (block_to_arena p) freed_list x.header kept_header
  kept-Recount =
      let k = freed_counted in
      let s = size_at-bounds i hi in
      let n : (x.header.cnt + 1) % 2 ^ 32 ≡ count_in (block_to_arena p) freed_list =
        omega (arith, k.0, k.1, s.2) in
      record {
        memory = v.memory;
        same_pages = refl;
        same_mode = refl;
        new_list = refl;
        new_header = refl;
        old_header = x.found;
        same_kind = (refl, refl, refl);
        kernel = x.kernel;
        small = x.small;
        sized = x.sized;
        index_in = hi;
        distinct = freed-Distinct;
        all_blocks = freed_blocks;
        counted = n;
        bounded = omega (arith, n, k.1);
        others = count_elsewhere;
      }

  pub kept-IsHeap : IsHeap kept_heap
  kept-IsHeap =
      Recount-IsHeap h kept_heap i (block_to_arena p) freed_list x.header kept_header kept-Recount v

  pub kept_run :
      (x.header.cnt + 1 == cnt_at i) ≡ false
      → free_block pf_kernel p h x.header ≡ ok (unlock pf_kernel kept_heap)
  kept_run more =
      let k = freed_counted in
      let s = size_at-bounds i hi in
      let n : (x.header.cnt + 1) % 2 ^ 32 ≡ x.header.cnt + 1 = omega (arith, k.0, k.1, s.2) in
      let idx = x.sized in rw (x.small, x.kernel, x.sized, n, more) refl

pub sys_free_run :
    (h : Heap) (p : ℕ) (r : Arena) (out : Run Heap)
    → h.mem.is_process ≡ false
    → (p == 0) ≡ false
    → h.arena (block_to_arena p) ≡ some r
    → free_block pf_kernel p (lock pf_kernel h) r ≡ out
    → sys_free p h ≡ out
unfolding sys_free
sys_free_run h p r out mode ne found run =
    let own : own_flags h.mem ≡ pf_kernel = rw mode refl in rw (own, ne, found) run

-- In a good state with the kernel running, sys_free of a block that is not free, in an arena of
-- which another block is in use too, returns and the state stays good: the block is the last of
-- the free blocks of its size, and the lists of the other sizes stay.
pub sys_free-Kept :
    (h : Heap) (i p : ℕ)
    → IsHeap h
    → i < 7
    → (x : IsBlock h i p) → has p (h.kern_blocks i) ≡ false
    → (x.header.cnt + 1 == cnt_at i) ≡ false
    → (h' : Heap) × (sys_free p h ≡ ok h')
      × IsHeap h'
      × IsBlock h' i p
      × (h'.kern_blocks ≡ update h.kern_blocks i (h.kern_blocks i ++ p ∷ []))
sys_free-Kept h i p v hi x new more =
    let lh = lock pf_kernel h in
    let lv = lock-IsHeap h v in
    let lx = lock-IsBlock h i p x in
    (
      unlock pf_kernel (kept_heap lh lv i p hi lx new),
      sys_free_run h p x.header _ v.mode (arena_bounds h v i p hi x new).2 x.found
          (kept_run lh lv i p hi lx new more),
      unlock-IsHeap (kept_heap lh lv i p hi lx new) (kept-IsHeap lh lv i p hi lx new),
      unlock-IsBlock (kept_heap lh lv i p hi lx new) i p (
          IsBlock-recount lh (kept_heap lh lv i p hi lx new) (block_to_arena p) i p x.header
            (kept_header lh lv i p hi lx new) x.found refl (refl, refl, refl) lx),
      refl,
    )
