-- ===== src/Memory/Frames.antt =====
-- palloc and pfree: single frames.
use xbay_os.Bitmap.{Bitmap}
use xbay_os.Memory.{Pool, page_size, palloc}
use xbay_os.Bitmap.Scan.{scan-FirstFree}
use xbay_os.Bitmap.Bits.{IsBytes, IsFlip, bit_at, set-IsFlip}
use xbay_os.Base.{
  Bool, arith, false, inl, inr, none, ok, refl, some, true, ℕ, ◌%◌, ◌*◌, ◌+◌, ◌<◌, ◌^◌, ◌≡◌, ◌≤◌,
  ◌⊎◌,
}

-- A pool of frames at page boundaries below 2^32, with a bitmap of bytes.
pub record IsPool (po : Pool) : Type 0 where
  pub bytes : IsBytes po.pool_bitmap
  pub aligned : po.phy_addr_start % page_size ≡ 0
  pub within : po.phy_addr_start + page_size * (8 * po.pool_bitmap.length) ≤ 2 ^ 32

abbrev pub frame_at : (phy_addr_start f : ℕ) → ℕ
frame_at phy_addr_start f = f * page_size + phy_addr_start

abbrev pub with_bitmap : Bitmap → Pool → Pool
with_bitmap bm po = record po { pool_bitmap = bm }

-- The lowest free frame is f, and bm is the bitmap with its bit set.
abbrev pub Taken : Pool → ℕ → Bitmap → Type 0
Taken po f bm =
    (f < po.pool_bitmap.length * 8)
    × (bit_at po.pool_bitmap f ≡ false)
    × ((q : ℕ) → q < f → bit_at po.pool_bitmap q ≡ true)
    × IsFlip po.pool_bitmap f true bm

-- palloc takes the lowest free frame and sets its bit and no other; without a free frame it returns
-- NULL and changes nothing.
pub palloc-first :
    (po : Pool)
    → IsPool po
    → ((palloc po ≡ ok (none, po))
        × ((q : ℕ) → q < po.pool_bitmap.length * 8 → bit_at po.pool_bitmap q ≡ true))
      ⊎ ((f : ℕ) × (bm : Bitmap) × (palloc po
            ≡ ok (some (frame_at po.phy_addr_start f), with_bitmap bm po))
          × Taken po f bm)
unfolding palloc
palloc-first po v = elim (scan-FirstFree po.pool_bitmap v.bytes (omega (arith, v.within))) [
  | inl (e, all) ↦ inl (rw e refl, all)
  | inr (f, e, within, free, before) ↦
      let (bm, run, flip) = set-IsFlip po.pool_bitmap f v.bytes within in
      let at : (f * page_size + po.phy_addr_start) % 2 ^ 32 ≡ frame_at po.phy_addr_start f =
        omega (arith, v.within) in
      inr (f, bm, rw (e, run, at) refl, (within, free, before, flip))
]

pub IsPool-flip :
    (po : Pool) (bm : Bitmap) (f : ℕ) (b : Bool)
    → IsPool po
    → IsFlip po.pool_bitmap f b bm
    → IsPool (with_bitmap bm po)
IsPool-flip po bm f b v flip = record {
  bytes = flip.0;
  aligned = v.aligned;
  within = omega (arith, flip.1, v.within);
}
