-- ===== src/Heap/Fill.antt =====
-- A new arena for small blocks: its page is cut into blocks, which are all free.
use xbay_os.Memory.Alloc.{Allocated, IsKernel}
use xbay_os.Memory.{page_size, pf_kernel}
use xbay_os.Heap.Sizes.{arena_to_block_lem, size_at-bounds}
use xbay_os.Heap.Invariant.{IsBlock, IsHeap, page_blank, update_other, update_same}
use xbay_os.Heap.Fresh.{Fresh, Fresh-IsHeap}
use xbay_os.Heap.Cut.{count_in-cut, cut, cut-Distinct, cut_loop-cut, has-cut}
use xbay_os.Heap.Count.{count_in, count_in-zero}
use xbay_os.Heap.{Arena, Heap, arena_to_block, block_to_arena, cnt_at, new_arena, with_blocks, Mem}
use xbay_os.Base.{
  ==_refl, Bool-cases, List, Option, [], ap, arith, false, has, inl, inr, none, ok, refl, some, suc,
  sym, true, update, ℕ, ◌%◌, ◌*◌, ◌+◌, ◌-◌, ◌<◌, ◌==◌, ◌^◌, ◌∙◌, ◌∷◌, ◌≡◌, ◌≤◌,
}

module _ (h : Heap) (i : ℕ) (m : Mem) (v : IsHeap h) (hi : i < 7) (empty : h.kern_blocks i ≡ [])
    (r : Option ℕ) (al : Allocated 1 h.mem r m) (k : IsKernel m) where
  abbrev pub page_at : ℕ
  page_at = h.mem.kern_vaddr.vaddr_start + al.place * page_size

  abbrev pub fresh_header : Arena
  fresh_header = record { flags = pf_kernel; index = i; cnt = cnt_at i; large = false }

  abbrev pub filled : Heap
  filled =
      with_blocks pf_kernel i (cut (cnt_at i) page_at i 0)
        (record h { mem = m; arena = update h.arena page_at (some fresh_header) })

  page_bounds :
      (page_at % page_size ≡ 0)
      × (page_at + page_size ≤ 2 ^ 32)
      × (al.place < 8 * h.mem.kern_vaddr.vaddr_bitmap.length)
  page_bounds =
      let w = al.was_free.within in
      (omega (arith, v.memory.aligned), omega (arith, v.memory.below, w), omega (arith, w))

  cut_inside : (j : ℕ) → j < cnt_at i → block_to_arena (arena_to_block page_at i j) ≡ page_at
  cut_inside j lt = let p = page_bounds in (arena_to_block_lem page_at i j p.0 p.1 hi lt).2

  -- The loop that pushes the blocks runs to its end.
  pub new_arena-filled : new_arena pf_kernel i page_at (record h { mem = m }) ≡ ok filled
  unfolding new_arena
  new_arena-filled =
      let p = page_bounds in
      let run = cut_loop-cut page_at i p.0 p.1 hi (cnt_at i) 0 [] (omega arith) (λ j lo up. refl) in
      rw (empty, run) refl

  cut_block : (b : ℕ) → has b (cut (cnt_at i) page_at i 0) ≡ true → IsBlock filled i b
  cut_block b t =
      let p = page_bounds in
      let (j, lo, up, e) = has-cut page_at i p.0 p.1 hi (cnt_at i) 0 b t in
      let at : block_to_arena b ≡ page_at = rw e (cut_inside j (omega (arith, up))) in
      record {
        header = fresh_header;
        place = j;
        found = rw at (update_same h.arena page_at (some fresh_header));
        small = refl;
        kernel = refl;
        sized = refl;
        within = omega (arith, up);
        at = rw at e;
      }

  cut_elsewhere : (b : ℕ) → (b == page_at) ≡ false → count_in b (cut (cnt_at i) page_at i 0) ≡ 0
  cut_elsewhere b ne =
      let p = page_bounds in
      count_in-zero b (cut (cnt_at i) page_at i 0) (λ c t.
        let (j, lo, up, e) = has-cut page_at i p.0 p.1 hi (cnt_at i) 0 c t in
        let at : block_to_arena c ≡ page_at = rw e (cut_inside j (omega (arith, up))) in
        rw at (ground (arith, ne)))

  list_filled : (j : ℕ) → (j == i) ≡ true → filled.kern_blocks j ≡ cut (cnt_at i) page_at i 0
  list_filled j e =
      let e' : j ≡ i = ground arith in
      ap filled.kern_blocks e' ∙ update_same h.kern_blocks i (cut (cnt_at i) page_at i 0)

  list_other : (j : ℕ) → (j == i) ≡ false → filled.kern_blocks j ≡ h.kern_blocks j
  list_other j e = update_other h.kern_blocks i (cut (cnt_at i) page_at i 0) j e

  filled-Fresh : Fresh h filled al.place fresh_header
  filled-Fresh =
      let p = page_bounds in
      let s = size_at-bounds i hi in
      record {
        memory = k;
        same_mode = al.same_mode;
        same_start = al.same_start;
        same_length = al.run.1;
        still_used = λ q u. ground (arith, al.run.2 q, u);
        in_range = p.2;
        was_free = al.was_free.clear al.place (omega arith) (omega arith);
        used_now = ground (arith, al.run.2 al.place);
        new_header = refl;
        kernel = refl;
        counted = λ _. (
          hi,
          sym (
              ap (count_in page_at) (list_filled i (==_refl i))
              ∙ count_in-cut page_at i p.0 p.1 hi (cnt_at i) 0 (omega arith)),
          omega arith,
        );
        distinct = λ j. elim (Bool-cases (j == i)) [
          | inl e ↦
              rw (list_filled j e) (cut-Distinct page_at i p.0 p.1 hi (cnt_at i) 0 (omega arith))
          | inr e ↦ rw (list_other j e) (v.distinct j)
        ];
        all_blocks = λ j b lt t. elim (Bool-cases (j == i)) [
          | inl e ↦
              let e' : j ≡ i = ground arith in
              inr (rw e' (cut_block b (ap (has b) (sym (list_filled j e)) ∙ t)))
          | inr e ↦ inl (ap (has b) (sym (list_other j e)) ∙ t)
        ];
        others = λ b j ne. elim (Bool-cases (j == i)) [
          | inl e ↦
              let e' : j ≡ i = ground arith in
              ap (count_in b) (list_filled j e)
              ∙ cut_elsewhere b ne
              ∙ sym (ap (λ (q : ℕ). count_in b (h.kern_blocks q)) e' ∙ ap (count_in b) empty)
          | inr e ↦ ap (count_in b) (list_other j e)
        ];
      }

  pub filled-IsHeap : IsHeap filled
  filled-IsHeap = Fresh-IsHeap h filled al.place fresh_header filled-Fresh v

  pub page_at-blank : h.arena page_at ≡ none
  page_at-blank =
      page_blank h al.place v page_bounds.2 (al.was_free.clear al.place (omega arith) (omega arith))

  -- The list has a first block, in the new page.
  pub filled-first :
      (bs : List ℕ) × (filled.kern_blocks i ≡ arena_to_block page_at i 0 ∷ bs)
      × (block_to_arena (arena_to_block page_at i 0) ≡ page_at)
  filled-first = elim (Bool-cases (cnt_at i == 0)) [
    | inl z ↦ let s = size_at-bounds i hi in absurd (ground (arith, s.1))
    | inr p ↦
        let e : cnt_at i ≡ suc (cnt_at i - 1) = ground arith in
        (
          cut (cnt_at i - 1) page_at i 1,
          list_filled i (==_refl i) ∙ ap (λ (n : ℕ). cut n page_at i 0) e,
          cut_inside 0 (omega (arith, (size_at-bounds i hi).1)),
        )
  ]
