-- ===== src/Memory/Release.antt =====
-- free_page for the kernel, of pages that are mapped.
use xbay_os.Thread.Pick.{rest}
use xbay_os.Strings.{not_null}
use xbay_os.Memory.Loop.{Beside, Maps}
use xbay_os.Memory.Free.{Absent, Freed, free_loop-Unmapped}
use xbay_os.Memory.Alloc.{IsKernel, RunSet}
use xbay_os.Memory.Address.{window}
use xbay_os.Memory.{
  Mem, VirtualAddr, clear_run, free_loop, free_page, page_size, pf_kernel, vaddr_remove,
}
use xbay_os.Fs.Inode.{place}
use xbay_os.Bitmap.Scan.{limit}
use xbay_os.Bitmap.Bits.{IsBytes, bit_at, clear-IsFlip}
use xbay_os.Bitmap.{Bitmap, clear}
use xbay_os.Base.{
  Bool-cases, Distinct, List, Run, ap, arith, false, has, inl, inr, leb, length, ltb, ok, refl, suc,
  true, zero, ℕ, ◌%◌, ◌&&◌, ◌*◌, ◌+◌, ◌-◌, ◌/◌, ◌<◌, ◌==◌, ◌^◌, ◌∙◌, ◌≡◌, ◌≤◌, ◌⊎◌,
}

clear_step :
    (cnt : ℕ) (bm bm1 : Bitmap) (p : ℕ) (r : Run Bitmap)
    → p % 2 ^ 32 ≡ p
    → clear bm p ≡ ok bm1
    → clear_run cnt bm1 (p + 1) ≡ r
    → clear_run (suc cnt) bm p ≡ r
unfolding clear_run
clear_step cnt bm bm1 p r wrap one run = rw (wrap, one, run) refl

clear_run-RunSet :
    (cnt : ℕ) (bm : Bitmap) (p : ℕ)
    → IsBytes bm
    → bm.length < limit
    → p + cnt ≤ bm.length * 8
    → (bm' : Bitmap) × (clear_run cnt bm p ≡ ok bm') × RunSet bm p cnt false bm'
unfolding clear_run
clear_run-RunSet zero bm p bytes small h = (bm, refl, (bytes, refl, λ q. ground arith))
clear_run-RunSet (suc cnt) bm p bytes small h =
    let (bm1, one, flip) = clear-IsFlip bm p bytes (omega arith) in
    let wrap : p % 2 ^ 32 ≡ p = omega (arith, small) in
    let (bm2, run, rest) =
      clear_run-RunSet cnt bm1 (p + 1) flip.0 (omega (arith, flip.1)) (omega (arith, flip.1)) in
    (
      bm2,
      clear_step cnt bm bm1 p (ok bm2) wrap one run,
      (rest.0, rest.1 ∙ flip.1, λ q. ground (arith, rest.2 q, flip.2 q)),
    )

free_page_run :
    (cnt start place : ℕ) (m m'' : Mem) (bm : Bitmap)
    → ltb 0 cnt ≡ true
    → ltb cnt 3840 ≡ true
    → (start == 0) ≡ false
    → (start + 2 ^ 32 - m.kern_vaddr.vaddr_start) % 2 ^ 32 / page_size ≡ place
    → clear_run cnt m.kern_vaddr.vaddr_bitmap place ≡ ok bm
    → free_loop cnt start (record m { kern_vaddr = record (m.kern_vaddr) { vaddr_bitmap = bm } })
      ≡ ok m''
    → free_page pf_kernel start cnt m ≡ ok m''
unfolding free_page vaddr_remove
free_page_run cnt start place m m'' bm some_pages not_many not_null at cleared run =
    rw (some_pages, not_many, not_null, at, cleared, run) refl

-- What free_page does: the bits of the pages and of their frames are clear, the pages are not mapped,
-- and all else is what it was.
pub record Released (place : ℕ) (fs : List ℕ) (m m' : Mem) : Type 0 where
  pub freed : Freed m.kern_pool fs m'.kern_pool
  pub run : RunSet m.kern_vaddr.vaddr_bitmap place (length fs) false m'.kern_vaddr.vaddr_bitmap
  pub same_start : m'.kern_vaddr.vaddr_start ≡ m.kern_vaddr.vaddr_start
  pub same_mode : m'.is_process ≡ m.is_process
  pub absent : Absent (length fs) (m.kern_vaddr.vaddr_start + place * page_size) m'.word
  pub beside :
      Beside
        (m.kern_vaddr.vaddr_start + place * page_size)
        (m.kern_vaddr.vaddr_start + place * page_size + page_size * length fs)
        m.word
        m'.word

Released-IsKernel :
    (place : ℕ) (fs : List ℕ) (m m' : Mem) → IsKernel m → Released place fs m m' → IsKernel m'
Released-IsKernel place fs m m' k a =
    let len : m'.kern_vaddr.vaddr_bitmap.length ≡ m.kern_vaddr.vaddr_bitmap.length = a.run.1 in
    record {
      frames = a.freed.pool;
      pages = a.run.0;
      small = omega (arith, len, k.small);
      aligned = omega (arith, a.same_start, k.aligned);
      positive = omega (arith, a.same_start, k.positive);
      below = omega (arith, a.same_start, len, k.below);
      tables = λ v lo hi.
          rw (a.beside.directory v (omega arith)) (k.tables v (omega (arith, a.same_start)) hi);
      unmapped = λ p lt clear. elim (Bool-cases (leb place p && ltb p (place + length fs))) [
        | inl inside ↦ rw (a.same_start) (
            a.absent (m.kern_vaddr.vaddr_start + p * page_size) (ground (arith, inside))
              (ground (arith, inside)))
        | inr outside ↦
            let before : bit_at m.kern_vaddr.vaddr_bitmap p ≡ false = ground (arith, a.run.2 p) in
            let side : (p < place) ⊎ (place + length fs ≤ p) = ground (arith, outside) in
            let same =
              a.beside.entries (m.kern_vaddr.vaddr_start + p * page_size)
                (omega (arith, k.below, len)) (ground (arith, side, k.aligned)) in
            rw (a.same_start, same) (k.unmapped p (omega (arith, len)) before)
      ];
    }

pub free_page-Released :
    (place : ℕ) (fs : List ℕ) (m : Mem)
    → IsKernel m
    → m.is_process ≡ false
    → m.kern_pool.depth < 2 ^ 8
    → 0 < length fs
    → length fs < 3840
    → Distinct fs
    → ((f : ℕ) → has f fs ≡ true → f < m.kern_pool.pool_bitmap.length * 8)
    → Maps m.word m.kern_pool.phy_addr_start (m.kern_vaddr.vaddr_start + place * page_size) fs
    → place + length fs ≤ m.kern_vaddr.vaddr_bitmap.length * 8
    → (m' : Mem) × (free_page pf_kernel (m.kern_vaddr.vaddr_start + place * page_size) (length fs) m
        ≡ ok m')
      × Released place fs m m'
      × IsKernel m'
      × (m'.kern_pool.depth ≡ m.kern_pool.depth)
free_page-Released place fs m k kernel depth pos many d range maps within =
    let start = m.kern_vaddr.vaddr_start + place * page_size in
    let top : start + page_size * length fs ≤ window = omega (arith, k.below) in
    let al : start % page_size ≡ 0 = omega (arith, k.aligned) in
    let (bm, cleared, flips) =
      clear_run-RunSet (length fs) m.kern_vaddr.vaddr_bitmap place k.pages k.small within in
    let at : (start + 2 ^ 32 - m.kern_vaddr.vaddr_start) % 2 ^ 32 / page_size ≡ place =
      omega (arith, top) in
    let not_null : (start == 0) ≡ false = ground (arith, k.positive) in
    let some_pages : ltb 0 (length fs) ≡ true = ground arith in
    let not_many : ltb (length fs) 3840 ≡ true = ground arith in
    let m1 = record m { kern_vaddr = record (m.kern_vaddr) { vaddr_bitmap = bm } } in
    let (m', run, u) =
      free_loop-Unmapped fs start m1 k.frames kernel depth d range maps al top
        (λ v lo hi. k.tables v (omega arith) hi) in
    let a : Released place fs m m' = record {
      freed = u.freed;
      run = rw (u.rest.1) flips;
      same_start = ap (λ (v : VirtualAddr). v.vaddr_start) u.rest.1;
      same_mode = u.rest.3;
      absent = u.absent;
      beside = u.beside;
    } in
    (
      m',
      free_page_run (length fs) start place m m' bm some_pages not_many not_null at cleared run,
      a,
      Released-IsKernel place fs m m' k a,
      u.freed.same_depth,
    )
