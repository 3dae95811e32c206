-- ===== src/Heap/Fresh.antt =====
-- A new arena, on a page that held none.
use xbay_os.Memory.Alloc.{IsKernel}
use xbay_os.Memory.{page_size, pf_kernel}
use xbay_os.Heap.Invariant.{
  IsArena, IsBlock, IsHeap, kernel_not_user, page_blank, some_inj, some-none, update_other,
  update_same,
}
use xbay_os.Heap.Count.{count_in}
use xbay_os.Heap.{Arena, Heap, block_to_arena, cnt_at}
use xbay_os.Bitmap.Bits.{bit_at}
use xbay_os.Base.{
  Bool-cases, Distinct, Option, ap, arith, false, has, inl, inr, some, sym, true, update, ℕ, ◌*◌,
  ◌+◌, ◌<◌, ◌==◌, ◌∙◌, ◌≡◌, ◌≤◌, ◌⊎◌,
}

-- The page of a new arena is taken from the free addresses, and the free blocks of all other arenas
-- are what they were.
pub record Fresh (h h' : Heap) (page : ℕ) (r : Arena) : Type 0 where
  pub memory : IsKernel h'.mem
  pub same_mode : h'.mem.is_process ≡ h.mem.is_process
  pub same_start : h'.mem.kern_vaddr.vaddr_start ≡ h.mem.kern_vaddr.vaddr_start
  pub same_length : h'.mem.kern_vaddr.vaddr_bitmap.length ≡ h.mem.kern_vaddr.vaddr_bitmap.length
  pub still_used :
      (p : ℕ)
      → bit_at h.mem.kern_vaddr.vaddr_bitmap p ≡ true
      → bit_at h'.mem.kern_vaddr.vaddr_bitmap p ≡ true
  pub in_range : page < 8 * h.mem.kern_vaddr.vaddr_bitmap.length
  pub was_free : bit_at h.mem.kern_vaddr.vaddr_bitmap page ≡ false
  pub used_now : bit_at h'.mem.kern_vaddr.vaddr_bitmap page ≡ true
  pub new_header :
      h'.arena ≡ update h.arena (h.mem.kern_vaddr.vaddr_start + page * page_size) (some r)
  pub kernel : r.flags ≡ pf_kernel
  pub counted :
      r.large ≡ false
      → (r.index < 7)
        × (r.cnt
            ≡ count_in (h.mem.kern_vaddr.vaddr_start + page * page_size) (h'.kern_blocks r.index))
        × (r.cnt ≤ cnt_at r.index)
  pub distinct : (j : ℕ) → Distinct (h'.kern_blocks j)
  pub all_blocks :
      (j b : ℕ)
      → j < 7
      → has b (h'.kern_blocks j) ≡ true
      → (has b (h.kern_blocks j) ≡ true) ⊎ IsBlock h' j b
  pub others :
      (b j : ℕ)
      → (b == h.mem.kern_vaddr.vaddr_start + page * page_size) ≡ false
      → count_in b (h'.kern_blocks j) ≡ count_in b (h.kern_blocks j)

module _ (h h' : Heap) (page : ℕ) (r : Arena) (c : Fresh h h' page r) (v : IsHeap h) where
  header_there :
      (b : ℕ)
      → (b == h.mem.kern_vaddr.vaddr_start + page * page_size) ≡ false
      → h'.arena b ≡ h.arena b
  header_there b ne =
      ap (λ (f : ℕ → Option Arena). f b) c.new_header ∙ update_other h.arena _ (some r) b ne

  -- A page with a header is not the new one.
  not_new :
      (b : ℕ) (q : Arena)
      → h.arena b ≡ some q
      → (b == h.mem.kern_vaddr.vaddr_start + page * page_size) ≡ false
  not_new b q e = elim (Bool-cases (b == h.mem.kern_vaddr.vaddr_start + page * page_size)) [
    | inl t ↦
        let t' : b ≡ h.mem.kern_vaddr.vaddr_start + page * page_size = ground arith in
        absurd (some-none q (sym e ∙ ap h.arena t' ∙ page_blank h page v c.in_range c.was_free))
    | inr t ↦ t
  ]

  IsBlock-keep : (j b : ℕ) → IsBlock h j b → IsBlock h' j b
  IsBlock-keep j b x = record {
    header = x.header;
    place = x.place;
    found = header_there (block_to_arena b) (not_new (block_to_arena b) x.header x.found) ∙ x.found;
    small = x.small;
    kernel = x.kernel;
    sized = x.sized;
    within = x.within;
    at = x.at;
  }

  IsArena-keep : (b : ℕ) (q : Arena) → h.arena b ≡ some q → IsArena h b q → IsArena h' b q
  IsArena-keep b q e x = record {
    page = x.page;
    at = x.at ∙ ap (λ (s : ℕ). s + x.page * page_size) (sym c.same_start);
    in_range = omega (arith, x.in_range, c.same_length);
    used = c.still_used x.page x.used;
    counted =
        λ s. let k = x.counted s in (k.0, k.1 ∙ sym (c.others b q.index (not_new b q e)), k.2);
  }

  IsArena-new : IsArena h' (h.mem.kern_vaddr.vaddr_start + page * page_size) r
  IsArena-new = record {
    page = page;
    at = ap (λ (s : ℕ). s + page * page_size) (sym c.same_start);
    in_range = omega (arith, c.in_range, c.same_length);
    used = c.used_now;
    counted = c.counted;
  }

  new_here :
      (b : ℕ) (q : Arena)
      → b ≡ h.mem.kern_vaddr.vaddr_start + page * page_size
      → h'.arena b ≡ some q
      → q ≡ r
  new_here b q e t = some_inj q r (
      sym t
      ∙ ap h'.arena e
      ∙ ap (λ (f : ℕ → Option Arena). f (h.mem.kern_vaddr.vaddr_start + page * page_size))
          c.new_header
      ∙ update_same h.arena _ (some r))

  -- A new arena keeps the invariant of the heap.
  pub Fresh-IsHeap : IsHeap h'
  Fresh-IsHeap = record {
    memory = c.memory;
    mode = c.same_mode ∙ v.mode;
    distinct = c.distinct;
    blocks = λ j b lt t. elim (c.all_blocks j b lt t) [
      | inl old ↦ IsBlock-keep j b (v.blocks j b lt old)
      | inr new ↦ new
    ];
    arenas = λ b q t k. elim (Bool-cases (b == h.mem.kern_vaddr.vaddr_start + page * page_size)) [
      | inl e ↦
          let e' : b ≡ h.mem.kern_vaddr.vaddr_start + page * page_size = ground arith in
          let q' = new_here b q e' t in rw (e', q') IsArena-new
      | inr e ↦ let old = sym (header_there b e) ∙ t in IsArena-keep b q old (v.arenas b q old k)
    ];
    users = λ b q t k. elim (Bool-cases (b == h.mem.kern_vaddr.vaddr_start + page * page_size)) [
      | inl e ↦
          let e' : b ≡ h.mem.kern_vaddr.vaddr_start + page * page_size = ground arith in
          let q' = new_here b q e' t in
          absurd (kernel_not_user (sym c.kernel ∙ ap (λ (x : Arena). x.flags) (sym q') ∙ k))
      | inr e ↦ omega (arith, c.same_start, v.users b q (sym (header_there b e) ∙ t) k)
    ];
  }
