-- ===== src/Memory/RoundTrip.antt =====
-- malloc_page and then free_page, for the kernel.
use xbay_os.Memory.Release.{Released, free_page-Released}
use xbay_os.Memory.Free.{Absent}
use xbay_os.Memory.Alloc.{Allocated, IsKernel, malloc_page-Allocated}
use xbay_os.Memory.Address.{window}
use xbay_os.Memory.{Mem, page_size, pte_ptr, free_page, pf_kernel, malloc_page}
use xbay_os.Bitmap.Scan.{IsFree}
use xbay_os.Bitmap.Bits.{bit_at}
use xbay_os.Base.{
  arith, false, ok, some, ℕ, ◌*◌, ◌+◌, ◌<◌, ◌^◌, ◌∙◌, ◌≡◌, ◌≤◌, ◌⊎◌, Option, length, true, ap, inl,
  inr, none, sym,
}

-- The memory is as it was: every frame and every page of addresses is free or in use as in m, no
-- page of the run is mapped, and all other pages below the page tables have the entries they had.
pub record Restored (start cnt : ℕ) (m m' : Mem) : Type 0 where
  pub frames : (q : ℕ) → bit_at m'.kern_pool.pool_bitmap q ≡ bit_at m.kern_pool.pool_bitmap q
  pub pages : (q : ℕ) → bit_at m'.kern_vaddr.vaddr_bitmap q ≡ bit_at m.kern_vaddr.vaddr_bitmap q
  pub absent : Absent cnt start m'.word
  pub others :
      (v : ℕ)
      → v < window
      → (v < start) ⊎ (start + page_size * cnt ≤ v)
      → m'.word (pte_ptr v) ≡ m.word (pte_ptr v)
  pub unlocked : m'.kern_pool.depth ≡ m.kern_pool.depth

Released-Restored :
    (cnt : ℕ) (m : Mem) (r : Option ℕ) (m' m'' : Mem) (a : Allocated cnt m r m')
    → IsKernel m
    → length a.taken ≡ cnt
    → Released a.place a.taken m' m''
    → Restored (m.kern_vaddr.vaddr_start + a.place * page_size) cnt m m''
Released-Restored cnt m r m' m'' a k all u =
    let al = k.aligned in
    let e = a.same_start in
    record {
      frames = λ q. ground (arith, u.freed.clear_now q, a.used.set_now q, a.used.were_free q);
      pages = λ q. ground (arith, u.run.2 q, a.run.2 q, a.was_free.clear q, all);
      absent = λ v lo hi. u.absent v (omega (arith, e)) (omega (arith, hi, all, e));
      others = λ v lt side.
          u.beside.entries v lt (ground (arith, side, al, all, e))
          ∙ a.beside.entries v lt (ground (arith, side, al));
      unlocked = u.freed.same_depth ∙ a.used.same_depth;
    }

free_page-Restored :
    (cnt : ℕ) (m : Mem) (r : Option ℕ) (m' : Mem) (a : Allocated cnt m r m')
    → IsKernel m
    → IsKernel m'
    → m.is_process ≡ false
    → m.kern_pool.depth < 2 ^ 8
    → 0 < cnt
    → cnt < 3840
    → length a.taken ≡ cnt
    → let start = m.kern_vaddr.vaddr_start + a.place * page_size in
      (m'' : Mem) × (free_page pf_kernel start cnt m' ≡ ok m'') × Restored start cnt m m''
free_page-Restored cnt m r m' a k k' kernel depth pos many all =
    let (m'', run, u, _, _) =
      free_page-Released a.place a.taken m' k' (a.same_mode ∙ kernel)
        (omega (arith, a.used.same_depth)) (omega arith) (omega arith) a.used.distinct
        (λ f h. omega (arith, a.used.in_range f h, a.used.same_length)) (rw (a.same_start) a.maps)
        (omega (arith, a.was_free.within, a.run.1, all)) in
    (
      m'',
      ap (λ (x : ℕ). free_page pf_kernel (x + a.place * page_size) cnt m') (sym a.same_start)
          ∙ ap
              (λ (x : ℕ).
                free_page pf_kernel (m'.kern_vaddr.vaddr_start + a.place * page_size) x m')
              (sym all)
          ∙ run,
      Released-Restored cnt m r m' m'' a k all u,
    )

-- In a good state of the kernel's memory, with the kernel running and a free run of addresses,
-- malloc_page of 1 to 3839 pages either finds no frame for one of them, or free_page of what it
-- returns succeeds and restores the bitmaps and all mappings outside the run, which is unmapped.
pub malloc_page-free_page :
    (cnt p : ℕ) (m : Mem)
    → IsKernel m
    → m.is_process ≡ false
    → m.kern_pool.depth < 2 ^ 8
    → 0 < cnt
    → cnt < 3840
    → IsFree m.kern_vaddr.vaddr_bitmap p cnt
    → ((m' : Mem) × (malloc_page pf_kernel cnt m ≡ ok (none, m'))
        × ((q : ℕ)
            → q < m.kern_pool.pool_bitmap.length * 8
            → bit_at m'.kern_pool.pool_bitmap q ≡ true))
      ⊎ ((start : ℕ) × (m' : Mem) × (m'' : Mem) × (malloc_page pf_kernel cnt m
            ≡ ok (some start, m'))
          × (free_page pf_kernel start cnt m' ≡ ok m'')
          × Restored start cnt m m'')
malloc_page-free_page cnt p m k kernel depth pos many f =
    let (r, m', run, a, k') = malloc_page-Allocated cnt p m k pos many f in
    elim a.outcome [
      | inl (e, all) ↦
          let (m'', freed, back) = free_page-Restored cnt m r m' a k k' kernel depth pos many all in
          inr (
            m.kern_vaddr.vaddr_start + a.place * page_size,
            m',
            m'',
            run ∙ ap (λ (o : Option ℕ). ok (o, m')) e,
            freed,
            back,
          )
      | inr (e, out) ↦ inl (m', run ∙ ap (λ (o : Option ℕ). ok (o, m')) e, out)
    ]
