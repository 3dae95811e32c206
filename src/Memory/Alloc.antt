-- ===== src/Memory/Alloc.antt =====
-- malloc_page for the kernel, and the invariant of the kernel's part of memory.
use xbay_os.Memory.Loop.{Beside, IsBlank, Maps, Used, page_loop-Looped}
use xbay_os.Fs.Inode.{place}
use xbay_os.Thread.Pick.{rest}
use xbay_os.Memory.Frames.{IsPool}
use xbay_os.Memory.Address.{window}
use xbay_os.Memory.{
  Mem, page_size, pde_ptr, present, pte_ptr, set_run, pf_kernel, vaddr_get, VirtualAddr,
  malloc_page, mapped,
}
use xbay_os.Bitmap.Scan.{limit, IsFree, scan-FirstFree, scan-IsFree}
use xbay_os.Bitmap.Bits.{IsBytes, bit_at, set-IsFlip}
use xbay_os.Bitmap.{Bitmap, scan, set}
use xbay_os.Base.{
  Bool, arith, false, if◌then◌else◌, leb, length, ltb, ok, refl, suc, true, zero, ℕ, ◌%◌, ◌&&◌, ◌*◌,
  ◌+◌, ◌<◌, ◌^◌, ◌∙◌, ◌≡◌, ◌≤◌, Bool-cases, List, Option, Run, inl, inr, none, some, ◌-◌, ◌/◌, ◌==◌,
  ◌⊎◌, ap,
}

-- The kernel's virtual pages: their addresses end below the page tables, the directory has a table
-- for each (kernel.S sets up the tables of the high gigabyte), and a page whose bit is clear is not
-- mapped.
pub record IsKernel (m : Mem) : Type 0 where
  pub frames : IsPool m.kern_pool
  pub pages : IsBytes m.kern_vaddr.vaddr_bitmap
  pub small : m.kern_vaddr.vaddr_bitmap.length < limit
  pub aligned : m.kern_vaddr.vaddr_start % page_size ≡ 0
  pub positive : 0 < m.kern_vaddr.vaddr_start
  pub below : m.kern_vaddr.vaddr_start + page_size * (8 * m.kern_vaddr.vaddr_bitmap.length) ≤ window
  pub tables :
      (v : ℕ) → m.kern_vaddr.vaddr_start ≤ v → v < window → present (m.word (pde_ptr v)) ≡ true
  pub unmapped :
      (p : ℕ)
      → p < 8 * m.kern_vaddr.vaddr_bitmap.length
      → bit_at m.kern_vaddr.vaddr_bitmap p ≡ false
      → present (m.word (pte_ptr (m.kern_vaddr.vaddr_start + p * page_size))) ≡ false

-- The bits of a run are set, and no others changed.
abbrev pub RunSet : Bitmap → (p cnt : ℕ) → Bool → Bitmap → Type 0
RunSet bm p cnt v bm' =
    IsBytes bm'
    × (bm'.length ≡ bm.length)
    × ((q : ℕ) → bit_at bm' q ≡ (if leb p q && ltb q (p + cnt) then v else bit_at bm q))

set_step :
    (cnt : ℕ) (bm bm1 : Bitmap) (p : ℕ) (r : Run Bitmap)
    → p % 2 ^ 32 ≡ p
    → set bm p ≡ ok bm1
    → set_run cnt bm1 (p + 1) ≡ r
    → set_run (suc cnt) bm p ≡ r
unfolding set_run
set_step cnt bm bm1 p r wrap one run = rw (wrap, one, run) refl

pub set_run-RunSet :
    (cnt : ℕ) (bm : Bitmap) (p : ℕ)
    → IsBytes bm
    → bm.length < limit
    → p + cnt ≤ bm.length * 8
    → (bm' : Bitmap) × (set_run cnt bm p ≡ ok bm') × RunSet bm p cnt true bm'
unfolding set_run
set_run-RunSet zero bm p bytes small h = (bm, refl, (bytes, refl, λ q. ground arith))
set_run-RunSet (suc cnt) bm p bytes small h =
    let (bm1, one, flip) = set-IsFlip bm p bytes (omega arith) in
    let wrap : p % 2 ^ 32 ≡ p = omega (arith, small) in
    let (bm2, run, rest) =
      set_run-RunSet cnt bm1 (p + 1) flip.0 (omega (arith, flip.1)) (omega (arith, flip.1)) in
    (
      bm2,
      set_step cnt bm bm1 p (ok bm2) wrap one run,
      (rest.0, rest.1 ∙ flip.1, λ q. ground (arith, rest.2 q, flip.2 q)),
    )

-- A free run is found, for any number of bits but 0.
pub scan-IsFree_any :
    (bm : Bitmap) (cnt p : ℕ)
    → IsBytes bm
    → bm.length < limit
    → 0 < cnt
    → IsFree bm p cnt
    → (p' : ℕ) × (scan bm cnt ≡ ok (some p')) × IsFree bm p' cnt
scan-IsFree_any bm cnt p bytes small pos f = elim (Bool-cases (cnt == 1)) [
  | inl one ↦
      let e : cnt ≡ 1 = ground arith in
      elim (scan-FirstFree bm bytes small) [
        | inl (run, all) ↦ absurd (ground (arith, all p, f.clear p, f.within))
        | inr (q, run, within, free, before) ↦ (
          q,
          rw e run,
          record {
            within = omega arith;
            clear = λ x a b. let s : x ≡ q = omega arith in rw s free;
          },
        )
      ]
  | inr many ↦
      let (p', run, le, g) = scan-IsFree bm small cnt bytes (ground arith) p f in (p', run, g)
]

-- What malloc_page does for the kernel: the pages at the returned address, whose bits were clear,
-- are mapped to frames that were free, or no frame is left; all other mappings stay.
pub record Allocated (cnt : ℕ) (m : Mem) (r : Option ℕ) (m' : Mem) : Type 0 where
  pub place : ℕ
  pub taken : List ℕ
  pub was_free : IsFree m.kern_vaddr.vaddr_bitmap place cnt
  pub used : Used m.kern_pool taken m'.kern_pool
  pub maps :
      Maps m'.word m'.kern_pool.phy_addr_start (m.kern_vaddr.vaddr_start + place * page_size) taken
  pub run : RunSet m.kern_vaddr.vaddr_bitmap place cnt true m'.kern_vaddr.vaddr_bitmap
  pub same_start : m'.kern_vaddr.vaddr_start ≡ m.kern_vaddr.vaddr_start
  pub same_mode : m'.is_process ≡ m.is_process
  pub beside :
      Beside
        (m.kern_vaddr.vaddr_start + place * page_size)
        (m.kern_vaddr.vaddr_start + place * page_size + page_size * cnt)
        m.word
        m'.word
  pub outcome :
      ((r ≡ some (m.kern_vaddr.vaddr_start + place * page_size)) × (length taken ≡ cnt))
      ⊎ ((r ≡ none)
          × ((q : ℕ)
              → q < m.kern_pool.pool_bitmap.length * 8
              → bit_at m'.kern_pool.pool_bitmap q ≡ true))

vaddr_get_lem :
    (cnt p : ℕ) (m : Mem)
    → IsKernel m
    → 0 < cnt
    → IsFree m.kern_vaddr.vaddr_bitmap p cnt
    → (place : ℕ) × (bm : Bitmap) × (vaddr_get pf_kernel cnt m
        ≡ ok (
          some (m.kern_vaddr.vaddr_start + place * page_size),
          record m { kern_vaddr = record (m.kern_vaddr) { vaddr_bitmap = bm } },
        ))
      × IsFree m.kern_vaddr.vaddr_bitmap place cnt
      × RunSet m.kern_vaddr.vaddr_bitmap place cnt true bm
unfolding vaddr_get
vaddr_get_lem cnt p m k pos f =
    let (place, found, free) =
      scan-IsFree_any m.kern_vaddr.vaddr_bitmap cnt p k.pages k.small pos f in
    let (bm, run, flips) =
      set_run-RunSet cnt m.kern_vaddr.vaddr_bitmap place k.pages k.small free.within in
    let at : (m.kern_vaddr.vaddr_start + place * page_size) % 2 ^ 32
        ≡ m.kern_vaddr.vaddr_start + place * page_size =
      omega (arith, k.below, free.within) in
    (place, bm, rw (found, run, at) refl, free, flips)

-- The pages of a free run are blank.
free-IsBlank :
    (cnt place : ℕ) (m : Mem)
    → IsKernel m
    → IsFree m.kern_vaddr.vaddr_bitmap place cnt
    → IsBlank cnt (m.kern_vaddr.vaddr_start + place * page_size) m.word
free-IsBlank cnt place m k f = record {
  aligned = omega (arith, k.aligned);
  top = omega (arith, k.below, f.within);
  tables = λ v lo hi. k.tables v (omega arith) (omega (arith, k.below, f.within));
  unmapped = λ v lo hi al.
      let q = (v - m.kern_vaddr.vaddr_start) / page_size in
      let e : m.kern_vaddr.vaddr_start + q * page_size ≡ v = omega (arith, k.aligned) in
      rw e at (
        k.unmapped q (omega (arith, k.aligned, f.within))
          (f.clear q (omega (arith, k.aligned)) (omega (arith, k.aligned))));
}

Allocated-IsKernel :
    (cnt : ℕ) (m : Mem) (r : Option ℕ) (m' : Mem) → IsKernel m → Allocated cnt m r m' → IsKernel m'
Allocated-IsKernel cnt m r m' k a =
    let len : m'.kern_vaddr.vaddr_bitmap.length ≡ m.kern_vaddr.vaddr_bitmap.length = a.run.1 in
    record {
      frames = a.used.pool;
      pages = a.run.0;
      small = omega (arith, len, k.small);
      aligned = omega (arith, a.same_start, k.aligned);
      positive = omega (arith, a.same_start, k.positive);
      below = omega (arith, a.same_start, len, k.below);
      tables = λ v lo hi.
          rw (a.beside.directory v (omega arith)) (k.tables v (omega (arith, a.same_start)) hi);
      unmapped = λ p lt clear.
          let before : bit_at m.kern_vaddr.vaddr_bitmap p ≡ false = ground (arith, a.run.2 p) in
          let out : (p < a.place) ⊎ (a.place + cnt ≤ p) = ground (arith, a.run.2 p) in
          let same =
            a.beside.entries (m.kern_vaddr.vaddr_start + p * page_size)
              (omega (arith, k.below, len)) (ground (arith, out, k.aligned)) in
          rw (a.same_start, same) (k.unmapped p (omega (arith, len)) before);
    }

outcome_of :
    (b : Bool) (start n cnt : ℕ) (m' : Mem) (all : Type 0)
    → (if b then (n ≡ cnt) else all)
    → (((mapped start (b, m')).0 ≡ some start) × (n ≡ cnt))
      ⊎ (((mapped start (b, m')).0 ≡ none) × all)
outcome_of true start n cnt m' all h = inl (refl, h)
outcome_of false start n cnt m' all h = inr (refl, h)

-- In a good state of the kernel's memory, for 1 to 3839 pages for which there is a free run of
-- addresses, malloc_page returns: pages that were not mapped are mapped to distinct frames that were
-- free, exactly their bits are set and all other mappings stay, or else every frame is in use. The
-- state stays good either way.
pub malloc_page-Allocated :
    (cnt p : ℕ) (m : Mem)
    → IsKernel m
    → 0 < cnt
    → cnt < 3840
    → IsFree m.kern_vaddr.vaddr_bitmap p cnt
    → (r : Option ℕ) × (m' : Mem) × (malloc_page pf_kernel cnt m ≡ ok (r, m'))
      × Allocated cnt m r m'
      × IsKernel m'
unfolding malloc_page
malloc_page-Allocated cnt p m k pos top f =
    let (place, bm, got, free, flips) = vaddr_get_lem cnt p m k pos f in
    let m1 = record m { kern_vaddr = record (m.kern_vaddr) { vaddr_bitmap = bm } } in
    let start = m.kern_vaddr.vaddr_start + place * page_size in
    let (b, m', run, l) =
      page_loop-Looped cnt start m1 k.frames (free-IsBlank cnt place m k free) in
    let some_pages : ltb 0 cnt ≡ true = ground arith in
    let not_many : ltb cnt 3840 ≡ true = ground arith in
    let a : Allocated cnt m (mapped start (b, m')).0 m' = record {
      place = place;
      taken = l.taken;
      was_free = free;
      used = l.used;
      maps = l.maps;
      run = rw (l.rest.1) flips;
      same_start = ap (λ (v : VirtualAddr). v.vaddr_start) l.rest.1;
      same_mode = l.rest.3;
      beside = l.beside;
      outcome = outcome_of b start (length l.taken) cnt m' _ l.complete;
    } in
    (
      (mapped start (b, m')).0,
      m',
      rw (some_pages, not_many, got, run) refl,
      a,
      Allocated-IsKernel cnt m (mapped start (b, m')).0 m' k a,
    )
