-- ===== src/Memory/Free.antt =====
-- free_page for the kernel, and that it undoes malloc_page.
use xbay_os.Memory.Mapping.{page_table_remove_lem, without_entry}
use xbay_os.Memory.Loop.{Beside, Maps, SameRest}
use xbay_os.Memory.Frames.{IsPool, frame_at, IsPool-flip}
use xbay_os.Memory.Address.{window, pte_ptr-same}
use xbay_os.Memory.{
  Mem, Pool, free_loop, lock_pool, page_size, pde_ptr, pfree, present, pte_ptr, unlock_pool,
  page_table_remove, vaddr_to_phy,
}
use xbay_os.Intr.{same}
use xbay_os.Bitmap.Bits.{IsFlip, bit_at, clear-IsFlip}
use xbay_os.Bitmap.{Bitmap}
use xbay_os.Base.{
  Distinct, List, [], arith, false, has, if◌then◌else◌, length, ok, refl, suc, true, ℕ, ◌%◌, ◌*◌,
  ◌+◌, ◌-◌, ◌/◌, ◌<◌, ◌^◌, ◌∷◌, ◌≡◌, ◌≤◌, ==_refl, Bool-cases, inl, inr, ltb, ◌∙◌,
}

-- The frames' bits are clear, and no others have changed.
pub record Freed (po : Pool) (fs : List ℕ) (po' : Pool) : Type 0 where
  pub clear_now :
      (q : ℕ) → bit_at po'.pool_bitmap q ≡ (if has q fs then false else bit_at po.pool_bitmap q)
  pub same_start : po'.phy_addr_start ≡ po.phy_addr_start
  pub same_length : po'.pool_bitmap.length ≡ po.pool_bitmap.length
  pub same_depth : po'.depth ≡ po.depth
  pub pool : IsPool po'

-- None of the pages from vaddr on is mapped.
abbrev pub Absent : (left vaddr : ℕ) → (word : ℕ → ℕ) → Type 0
Absent left vaddr word =
    (v : ℕ) → vaddr ≤ v → v < vaddr + page_size * left → present (word (pte_ptr v)) ≡ false

Maps-same :
    (word word' : ℕ → ℕ) (phy vaddr : ℕ) (fs : List ℕ)
    → vaddr + page_size * length fs ≤ window
    → ((v : ℕ) → vaddr ≤ v → v < window → word' (pte_ptr v) ≡ word (pte_ptr v))
    → Maps word phy vaddr fs
    → Maps word' phy vaddr fs
Maps-same word word' phy vaddr [] top same h = tt
Maps-same word word' phy vaddr (f ∷ fs) top same h =
    let t : vaddr + page_size * suc (length fs) ≤ window = top in
    (
      rw (same vaddr (omega arith) (omega (arith, t))) h.0,
      (λ o lt. rw (same (vaddr + o) (omega arith) (omega (arith, t))) (h.1 o lt)),
      Maps-same word word' phy (vaddr + page_size) fs (omega (arith, t))
          (λ v lo hi. same v (omega arith) hi) h.2,
    )

-- What the loop of free_page does.
pub record Unmapped (vaddr : ℕ) (fs : List ℕ) (m m' : Mem) : Type 0 where
  pub freed : Freed m.kern_pool fs m'.kern_pool
  pub absent : Absent (length fs) vaddr m'.word
  pub rest : SameRest m m'
  pub beside : Beside vaddr (vaddr + page_size * length fs) m.word m'.word

abbrev after_pfree : Bitmap → Mem → Mem
after_pfree bm m = record m {
  kern_pool = unlock_pool (record (lock_pool m.kern_pool) { pool_bitmap = bm });
}

-- pfree of a frame's address clears the frame's bit.
pfree_lem :
    (f : ℕ) (m : Mem)
    → IsPool m.kern_pool
    → m.is_process ≡ false
    → f < m.kern_pool.pool_bitmap.length * 8
    → (bm : Bitmap) × (pfree (frame_at m.kern_pool.phy_addr_start f) m ≡ ok (after_pfree bm m))
      × IsFlip m.kern_pool.pool_bitmap f false bm
unfolding pfree
pfree_lem f m pool kernel within =
    let (bm, run, flip) = clear-IsFlip m.kern_pool.pool_bitmap f pool.bytes within in
    let at : (f * page_size + m.kern_pool.phy_addr_start + 2 ^ 32 - m.kern_pool.phy_addr_start)
          % 2 ^ 32
          / page_size
        ≡ f =
      omega (arith, pool.within) in
    (bm, rw (kernel, at, run) refl, flip)

Unmapped-cons :
    (vaddr f : ℕ) (fs : List ℕ) (bm : Bitmap) (m m' : Mem)
    → vaddr % page_size ≡ 0
    → vaddr + page_size * suc (length fs) ≤ window
    → m.kern_pool.depth < 2 ^ 8
    → has f fs ≡ false
    → IsFlip m.kern_pool.pool_bitmap f false bm
    → present (m.word (pde_ptr vaddr)) ≡ true
    → Unmapped (vaddr + page_size) fs (without_entry vaddr (after_pfree bm m)) m'
    → Unmapped vaddr (f ∷ fs) m m'
Unmapped-cons vaddr f fs bm m m' al top depth new flip table u =
    let (run, gone, other, dir) =
      page_table_remove_lem vaddr (after_pfree bm m) (omega (arith, top)) table in
    record {
      freed = record {
        clear_now = λ q. ground (arith, u.freed.clear_now q, flip.2 q, new);
        same_start = u.freed.same_start;
        same_length = u.freed.same_length ∙ flip.1;
        same_depth = u.freed.same_depth ∙ omega (arith, depth);
        pool = u.freed.pool;
      };
      absent = λ v lo hi. elim (Bool-cases (ltb v (vaddr + page_size))) [
        | inl here ↦
            let e =
              pte_ptr-same v vaddr (omega (arith, top)) (omega (arith, top)) (ground (arith, al)) in
            let w = u.beside.entries vaddr (omega (arith, top)) (inl (omega (arith, al))) in
            rw (e, w) gone
        | inr later ↦ u.absent v (ground arith) (omega arith)
      ];
      rest = u.rest;
      beside = record {
        entries = λ v lt side.
            u.beside.entries v lt (ground (arith, side))
            ∙ other v (omega arith) (ground (arith, side, al));
        directory = λ v lt. u.beside.directory v lt ∙ dir v lt;
      };
    }

abbrev with_depth : ℕ → Pool → Pool
with_depth n po = record po { depth = n }

IsPool-depth : (po : Pool) (n : ℕ) → IsPool po → IsPool (with_depth n po)
IsPool-depth po n v = record { bytes = v.bytes; aligned = v.aligned; within = v.within }

free_step :
    (fs : List ℕ) (vaddr f : ℕ) (m m1 m2 m' : Mem)
    → vaddr_to_phy m.word vaddr ≡ frame_at m.kern_pool.phy_addr_start f
    → pfree (frame_at m.kern_pool.phy_addr_start f) m ≡ ok m1
    → page_table_remove vaddr m1 ≡ ok m2
    → (vaddr + page_size) % 2 ^ 32 ≡ vaddr + page_size
    → free_loop (length fs) (vaddr + page_size) m2 ≡ ok m'
    → free_loop (suc (length fs)) vaddr m ≡ ok m'
unfolding free_loop
free_step fs vaddr f m m1 m2 m' here a b next run = rw (here, a, b, next, run) refl

pub free_loop-Unmapped :
    (fs : List ℕ) (vaddr : ℕ) (m : Mem)
    → IsPool m.kern_pool
    → m.is_process ≡ false
    → m.kern_pool.depth < 2 ^ 8
    → Distinct fs
    → ((f : ℕ) → has f fs ≡ true → f < m.kern_pool.pool_bitmap.length * 8)
    → Maps m.word m.kern_pool.phy_addr_start vaddr fs
    → vaddr % page_size ≡ 0
    → vaddr + page_size * length fs ≤ window
    → ((v : ℕ) → vaddr ≤ v → v < window → present (m.word (pde_ptr v)) ≡ true)
    → (m' : Mem) × (free_loop (length fs) vaddr m ≡ ok m') × Unmapped vaddr fs m m'
unfolding free_loop
free_loop-Unmapped [] vaddr m pool kernel depth d range maps al top tables = (
  m,
  refl,
  record {
    freed = record {
      clear_now = λ q. refl;
      same_start = refl;
      same_length = refl;
      same_depth = refl;
      pool = pool;
    };
    absent = λ v lo hi. absurd (omega arith);
    rest = (refl, refl, refl, refl);
    beside = record { entries = λ v h a. refl; directory = λ v h. refl };
  },
)
free_loop-Unmapped (f ∷ fs) vaddr m pool kernel depth d range maps al top tables =
    let top' : vaddr + page_size * suc (length fs) ≤ window = top in
    let low : vaddr < window = omega (arith, top') in
    let (bm, pfreed, flip) = pfree_lem f m pool kernel (range f (ground (arith, ==_refl f))) in
    let m1 = after_pfree bm m in
    let m2 = without_entry vaddr m1 in
    let table = tables vaddr (omega arith) low in
    let (removed, gone, other, dir) = page_table_remove_lem vaddr m1 low table in
    let here : vaddr_to_phy m.word vaddr ≡ frame_at m.kern_pool.phy_addr_start f =
      let t = maps.1 0 (omega arith) in
      let z : vaddr + 0 ≡ vaddr = omega arith in rw z at t ∙ omega arith in
    let next : (vaddr + page_size) % 2 ^ 32 ≡ vaddr + page_size = omega (arith, top') in
    let (m', run, u) =
      free_loop-Unmapped fs (vaddr + page_size) m2
        (IsPool-flip (with_depth m1.kern_pool.depth m.kern_pool) bm f false
          (IsPool-depth m.kern_pool m1.kern_pool.depth pool) flip)
        kernel (omega arith) d.1 (λ g h. ground (arith, range g, flip.1, h))
        (Maps-same m.word m2.word m.kern_pool.phy_addr_start (vaddr + page_size) fs
          (omega (arith, top')) (λ v lo hi. other v (omega arith) (ground (arith, al))) maps.2)
        (omega (arith, al)) (omega (arith, top'))
        (λ v lo hi. rw (dir v (omega arith)) (tables v (omega arith) hi)) in
    (
      m',
      free_step fs vaddr f m m1 m2 m' here pfreed removed next run,
      Unmapped-cons vaddr f fs bm m m' al top' depth d.0 flip table u,
    )
