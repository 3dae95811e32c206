-- ===== src/Heap/Pop.antt =====
-- The end of sys_malloc: a free block leaves its list.
use xbay_os.Heap.Sizes.{size_at-bounds}
use xbay_os.Heap.Recount.{Recount, Recount-IsHeap}
use xbay_os.Heap.Lock.{unlock-IsBlock, unlock-IsHeap}
use xbay_os.Memory.{pf_kernel}
use xbay_os.Heap.Invariant.{IsBlock, IsHeap, IsBlock-recount, update_same}
use xbay_os.Heap.Count.{count_in}
use xbay_os.Heap.{Heap, block_to_arena, cnt_at, set_cnt, unlock, with_blocks, pop_block}
use xbay_os.Base.{
  ==_refl, Distinct, List, ap, arith, has, refl, sub32, true, ℕ, ◌+◌, ◌<◌, ◌∙◌, ◌∷◌, ◌≡◌, ◌≤◌,
  false, ok, some, update, ◌%◌, ◌-◌, ◌==◌, ◌^◌,
}

module _ (h : Heap) (i b : ℕ) (bs : List ℕ) (v : IsHeap h) (hi : i < 7)
    (list : h.kern_blocks i ≡ b ∷ bs) where
  first_has : has b (h.kern_blocks i) ≡ true
  first_has = rw list (ground (arith, ==_refl b))

  first : IsBlock h i b
  first = v.blocks i b hi first_has

  old_list : Distinct (b ∷ bs)
  old_list = let d = v.distinct i in rw list at d

  counted_first :
      (first.header.cnt ≡ 1 + count_in (block_to_arena b) bs) × (first.header.cnt ≤ cnt_at i)
  counted_first =
      let x = v.arenas (block_to_arena b) first.header first.found first.kernel in
      let k = x.counted first.small in
      let e : count_in (block_to_arena b) (h.kern_blocks first.header.index)
          ≡ count_in (block_to_arena b) (b ∷ bs) =
        ap (λ (j : ℕ). count_in (block_to_arena b) (h.kern_blocks j)) first.sized
        ∙ ap (count_in (block_to_arena b)) list in
      let self = ==_refl (block_to_arena b) in
      let one : count_in (block_to_arena b) (b ∷ bs) ≡ 1 + count_in (block_to_arena b) bs =
        rw self refl in
      let top : cnt_at first.header.index ≡ cnt_at i = ap (λ (j : ℕ). cnt_at j) first.sized in
      (k.1 ∙ e ∙ one, omega (arith, k.2, top))

  -- The heap when the block has left.
  abbrev left_heap : Heap
  left_heap =
      set_cnt (block_to_arena b) first.header (sub32 first.header.cnt 1)
        (with_blocks pf_kernel i bs h)

  in_old : (c : ℕ) → has c bs ≡ true → has c (h.kern_blocks i) ≡ true
  in_old c t = rw list (ground (arith, t))

  popped-Recount :
      Recount h left_heap i
        (block_to_arena b)
        bs
        first.header
        (record (first.header) { cnt = sub32 first.header.cnt 1 })
  popped-Recount =
      let k = counted_first in
      let s = size_at-bounds i hi in
      let n : (first.header.cnt + 2 ^ 32 - 1) % 2 ^ 32 ≡ count_in (block_to_arena b) bs =
        omega (arith, k.0, k.1, s.2) in
      record {
        memory = v.memory;
        same_pages = refl;
        same_mode = refl;
        new_list = refl;
        new_header = refl;
        old_header = first.found;
        same_kind = (refl, refl, refl);
        kernel = first.kernel;
        small = first.small;
        sized = first.sized;
        index_in = hi;
        distinct = old_list.1;
        all_blocks = λ c t. v.blocks i c hi (in_old c t);
        counted = n;
        bounded = omega (arith, n, k.0, k.1);
        others = λ c ne.
            let out : (block_to_arena b == c) ≡ false = ground (arith, ne) in
            rw (list, out) (omega arith);
      }

  -- Block p is no longer free, and the rest of the list is what it was.
  pub pop_block-IsHeap :
      (h' : Heap) × (pop_block pf_kernel i (b ∷ bs) h ≡ ok (some b, h'))
      × IsHeap h'
      × IsBlock h' i b
      × (h'.kern_blocks ≡ update h.kern_blocks i bs)
      × (has b (h'.kern_blocks i) ≡ false)
  pop_block-IsHeap = (
    unlock pf_kernel left_heap,
    rw (first.found) refl,
    unlock-IsHeap left_heap
        (Recount-IsHeap h left_heap i (block_to_arena b) bs first.header _ popped-Recount v),
    unlock-IsBlock left_heap i b (
        IsBlock-recount h left_heap (block_to_arena b) i b first.header _ first.found refl
          (refl, refl, refl) first),
    refl,
    ap (has b) (update_same h.kern_blocks i bs) ∙ old_list.0,
  )
