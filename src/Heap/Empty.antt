-- ===== src/Heap/Empty.antt =====
-- sys_free for the kernel, of the last block of an arena in use: the page of the arena is unmapped.
use xbay_os.Memory.Loop.{Maps}
use xbay_os.Memory.Free.{Absent}
use xbay_os.Heap.Lock.{lock-IsBlock, lock-IsHeap, unlock-IsHeap}
use xbay_os.Bitmap.Bits.{bit_at}
use xbay_os.Memory.Release.{Released, free_page-Released}
use xbay_os.Memory.Alloc.{IsKernel}
use xbay_os.Memory.{free_page, page_size, pf_kernel}
use xbay_os.Heap.Sizes.{arena_to_block_lem, size_at-bounds}
use xbay_os.Heap.Invariant.{
  IsArena, IsBlock, IsHeap, some_inj, some-none, update_other, update_same,
}
use xbay_os.Heap.Free.{arena_bounds, count_elsewhere, freed-Distinct, freed_blocks, sys_free_run}
use xbay_os.Heap.Drop.{count_in-drop_loop, drop_loop-Distinct, drop_loop-gone, has-drop_loop}
use xbay_os.Heap.Count.{count_in}
use xbay_os.Heap.{
  Arena, Heap, arena_to_block, block_to_arena, cnt_at, drop_loop, free_block, unlock, Mem, lock,
  sys_free,
}
use xbay_os.Base.{
  ==_refl, Bool-cases, List, Option, [], ap, arith, false, has, inl, inr, length, none, ok, some,
  sym, true, u32, update, ℕ, ◌%◌, ◌*◌, ◌++◌, ◌+◌, ◌<◌, ◌==◌, ◌^◌, ◌∙◌, ◌∷◌, ◌≡◌, refl,
}

module _ (h : Heap) (v : IsHeap h) (i p : ℕ) (hi : i < 7) (x : IsBlock h i p)
    (new : has p (h.kern_blocks i) ≡ false) (y : IsArena h (block_to_arena p) x.header)
    (last : x.header.cnt + 1 ≡ cnt_at i) where
  abbrev dropped_list : List ℕ
  dropped_list = drop_loop (cnt_at i) (block_to_arena p) i 0 (h.kern_blocks i ++ p ∷ [])

  -- The list when the blocks of the arena have left.
  abbrev dropped_lists : ℕ → List ℕ
  dropped_lists = update (update h.kern_blocks i (h.kern_blocks i ++ p ∷ [])) i dropped_list

  abbrev dropped_headers : ℕ → Option Arena
  dropped_headers =
      update
        (update h.arena (block_to_arena p)
          (some (record (x.header) { cnt = u32 (x.header.cnt + 1) })))
        (block_to_arena p) none

  abbrev gone_heap : Mem → Heap
  gone_heap m = record h { mem = m; kern_blocks = dropped_lists; arena = dropped_headers }

  list_other : (j : ℕ) → (j == i) ≡ false → dropped_lists j ≡ h.kern_blocks j
  list_other j ne =
      update_other (update h.kern_blocks i _) i dropped_list j ne
      ∙ update_other h.kern_blocks i _ j ne

  list_here : (j : ℕ) → (j == i) ≡ true → dropped_lists j ≡ dropped_list
  list_here j e =
      let e' : j ≡ i = ground arith in
      ap dropped_lists e' ∙ update_same (update h.kern_blocks i _) i dropped_list

  header_other : (b : ℕ) → (b == block_to_arena p) ≡ false → dropped_headers b ≡ h.arena b
  header_other b ne =
      update_other (update h.arena (block_to_arena p) _) (block_to_arena p) none b ne
      ∙ update_other h.arena (block_to_arena p) _ b ne

  not_here : (b : ℕ) (q : Arena) → dropped_headers b ≡ some q → (b == block_to_arena p) ≡ false
  not_here b q t = elim (Bool-cases (b == block_to_arena p)) [
    | inl e ↦
        let e' : b ≡ block_to_arena p = ground arith in
        absurd (
          some-none q (
            sym t
            ∙ ap dropped_headers e'
            ∙ update_same
                (update h.arena (block_to_arena p)
                  (some (record (x.header) { cnt = u32 (x.header.cnt + 1) })))
                (block_to_arena p) none))
    | inr e ↦ e
  ]

  -- No block of the arena is left in the list.
  dropped_outside :
      (b : ℕ) → has b dropped_list ≡ true → (block_to_arena b == block_to_arena p) ≡ false
  dropped_outside b t = elim (Bool-cases (block_to_arena b == block_to_arena p)) [
    | inl e ↦
        let z =
          freed_blocks h v i p hi x new b (has-drop_loop (cnt_at i) (block_to_arena p) i 0 b _ t) in
        let same : block_to_arena b ≡ block_to_arena p = ground arith in
        let at : b ≡ arena_to_block (block_to_arena p) i z.place =
          z.at ∙ ap (λ (q : ℕ). arena_to_block q i z.place) same in
        let out =
          drop_loop-gone (cnt_at i) (block_to_arena p) i 0 z.place (h.kern_blocks i ++ p ∷ [])
            (freed-Distinct h v i p hi x new) (omega arith) (omega (arith, z.within)) in
        let t' : has (arena_to_block (block_to_arena p) i z.place) dropped_list ≡ true =
          ap (λ (q : ℕ). has q dropped_list) (sym at) ∙ t in
        absurd (ground (arith, out, t'))
    | inr e ↦ e
  ]

  dropped_count :
      (b j : ℕ)
      → (b == block_to_arena p) ≡ false
      → count_in b (dropped_lists j) ≡ count_in b (h.kern_blocks j)
  dropped_count b j ne = elim (Bool-cases (j == i)) [
    | inl e ↦
        let e' : j ≡ i = ground arith in
        let bounds = arena_bounds h v i p hi x new in
        ap (count_in b) (list_here j e)
        ∙ count_in-drop_loop (cnt_at i) (block_to_arena p) i 0 b (h.kern_blocks i ++ p ∷ [])
            (λ k lo up.
              let inside =
                (arena_to_block_lem (block_to_arena p) i k bounds.0 bounds.1 hi (omega arith)).2 in
              rw inside (ground (arith, ne)))
        ∙ count_elsewhere h v i p hi x new b ne
        ∙ ap (λ (q : ℕ). count_in b (h.kern_blocks q)) (sym e')
    | inr e ↦ ap (count_in b) (list_other j e)
  ]

  block_kept :
      (m : Mem) (j b : ℕ)
      → (block_to_arena b == block_to_arena p) ≡ false
      → IsBlock h j b
      → IsBlock (gone_heap m) j b
  block_kept m j b ne z = record {
    header = z.header;
    place = z.place;
    found = header_other (block_to_arena b) ne ∙ z.found;
    small = z.small;
    kernel = z.kernel;
    sized = z.sized;
    within = z.within;
    at = z.at;
  }

  -- A block of another size lies in another arena.
  other_size :
      (j b : ℕ) → (j == i) ≡ false → IsBlock h j b → (block_to_arena b == block_to_arena p) ≡ false
  other_size j b ne z = elim (Bool-cases (block_to_arena b == block_to_arena p)) [
    | inl e ↦
        let same : block_to_arena b ≡ block_to_arena p = ground arith in
        let hd : z.header ≡ x.header =
          some_inj z.header x.header (sym z.found ∙ ap h.arena same ∙ x.found) in
        let idx : j ≡ i = sym z.sized ∙ ap (λ (q : Arena). q.index) hd ∙ x.sized in
        absurd (ground (arith, ne, idx))
    | inr e ↦ e
  ]

  arena_kept :
      (fs : List ℕ) (m : Mem) (b : ℕ) (q : Arena)
      → length fs ≡ 1
      → Released y.page fs h.mem m
      → (b == block_to_arena p) ≡ false
      → IsArena h b q
      → IsArena (gone_heap m) b q
  arena_kept fs m b q one c ne z = record {
    page = z.page;
    at = z.at ∙ ap (λ (s : ℕ). s + z.page * page_size) (sym c.same_start);
    in_range = omega (arith, z.in_range, c.run.1);
    used =
        let other : (z.page == y.page) ≡ false = ground (arith, z.at, y.at, ne) in
        ground (arith, c.run.2 z.page, z.used, one, other);
    counted = λ s. let k = z.counted s in (k.0, k.1 ∙ sym (dropped_count b q.index ne), k.2);
  }

  gone-IsHeap :
      (fs : List ℕ) (m : Mem)
      → length fs ≡ 1
      → Released y.page fs h.mem m
      → IsKernel m
      → IsHeap (gone_heap m)
  gone-IsHeap fs m one c k = record {
    memory = k;
    mode = c.same_mode ∙ v.mode;
    distinct = λ j. elim (Bool-cases (j == i)) [
      | inl e ↦
          rw (list_here j e) (
            drop_loop-Distinct (cnt_at i) (block_to_arena p) i 0 _
              (freed-Distinct h v i p hi x new))
      | inr e ↦ rw (list_other j e) (v.distinct j)
    ];
    blocks = λ j b lt t. elim (Bool-cases (j == i)) [
      | inl e ↦
          let e' : j ≡ i = ground arith in
          let t' : has b dropped_list ≡ true = ap (has b) (sym (list_here j e)) ∙ t in
          rw e' (
            block_kept m i b (dropped_outside b t') (
              freed_blocks h v i p hi x new b
                (has-drop_loop (cnt_at i) (block_to_arena p) i 0 b _ t')))
      | inr e ↦
          let z = v.blocks j b lt (ap (has b) (sym (list_other j e)) ∙ t) in
          block_kept m j b (other_size j b e z) z
    ];
    arenas = λ b q t f.
        let ne = not_here b q t in
        arena_kept fs m b q one c ne (v.arenas b q (sym (header_other b ne) ∙ t) f);
    users = λ b q t f.
        omega (arith, c.same_start, v.users b q (sym (header_other b (not_here b q t)) ∙ t) f);
  }

  gone_run :
      (m : Mem)
      → free_page pf_kernel (block_to_arena p) 1 h.mem ≡ ok m
      → free_block pf_kernel p h x.header ≡ ok (unlock pf_kernel (gone_heap m))
  gone_run m run =
      let s = size_at-bounds i hi in
      let n : (x.header.cnt + 1) % 2 ^ 32 ≡ cnt_at i = omega (arith, last, s.2) in
      let all : (cnt_at i == cnt_at i) ≡ true = ==_refl (cnt_at i) in
      rw (x.small, x.kernel, x.sized, n, all, run) refl

-- In a good state with the kernel running, sys_free of the last block in use of an arena, whose page
-- is mapped to a frame of the kernel's pool: it returns and the state stays good, the page is no
-- arena and not mapped, its frame is free, and no free block of the size lies in it.
pub sys_free-Emptied :
    (h : Heap) (i p f : ℕ)
    → IsHeap h
    → i < 7
    → (x : IsBlock h i p) → has p (h.kern_blocks i) ≡ false
    → x.header.cnt + 1 ≡ cnt_at i
    → h.mem.kern_pool.depth + 1 < 2 ^ 8
    → f < h.mem.kern_pool.pool_bitmap.length * 8
    → Maps h.mem.word h.mem.kern_pool.phy_addr_start (block_to_arena p) (f ∷ [])
    → (h' : Heap) × (sys_free p h ≡ ok h')
      × IsHeap h'
      × (h'.arena (block_to_arena p) ≡ none)
      × (bit_at h'.mem.kern_pool.pool_bitmap f ≡ false)
      × Absent 1 (block_to_arena p) h'.mem.word
      × ((b : ℕ) → has b (h'.kern_blocks i) ≡ true → (block_to_arena b == block_to_arena p) ≡ false)
sys_free-Emptied h i p f v hi x new all_free depth within maps =
    let lh = lock pf_kernel h in
    let lv = lock-IsHeap h v in
    let lx = lock-IsBlock h i p x in
    let y = lv.arenas (block_to_arena p) x.header x.found x.kernel in
    let maps' = rw (y.at) at maps in
    let (m, run, c, k, _) =
      free_page-Released y.page (f ∷ []) lh.mem lv.memory v.mode (omega (arith, depth))
        (omega arith) (omega arith) (refl, tt) (λ g t. ground (arith, t)) maps'
        (omega (arith, y.in_range)) in
    let run' : free_page pf_kernel (block_to_arena p) 1 lh.mem ≡ ok m =
      ap (λ (a : ℕ). free_page pf_kernel a 1 lh.mem) y.at ∙ run in
    let gone = gone_heap lh lv i p hi lx new y all_free m in
    (
      unlock pf_kernel gone,
      sys_free_run h p x.header _ v.mode (arena_bounds h v i p hi x new).2 x.found
          (gone_run lh lv i p hi lx new y all_free m run'),
      unlock-IsHeap gone (gone-IsHeap lh lv i p hi lx new y all_free (f ∷ []) m refl c k),
      update_same
          (update h.arena (block_to_arena p)
            (some (record (x.header) { cnt = u32 (x.header.cnt + 1) })))
          (block_to_arena p) none,
      ground (arith, c.freed.clear_now f, ==_refl f),
      (λ u lo up. c.absent u (omega (arith, y.at)) (omega (arith, y.at))),
      λ b t.
          dropped_outside lh lv i p hi lx new y all_free b
            (ap (has b) (sym (list_here lh lv i p hi lx new y all_free i (==_refl i))) ∙ t),
    )
