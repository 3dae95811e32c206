-- ===== src/Memory/Example.antt =====
-- A small memory for runs: eight pages of addresses and eight frames, of which the first page is
-- mapped to the first frame.
use xbay_os.Memory.Loop.{Maps}
use xbay_os.Memory.Alloc.{IsKernel}
use xbay_os.Memory.{Mem, page_size, pde_ptr, present, pte_ptr}
use xbay_os.Bitmap.Scan.{IsFree}
use xbay_os.Bitmap.Bits.{IsBytes, bit_at}
use xbay_os.Bitmap.{Bitmap}
use xbay_os.Base.Bytes.{all_below, all_below_sound, bit}
use xbay_os.Base.{
  Bool, [], arith, false, if◌then◌else◌, leb, ltb, not, refl, true, ℕ, ◌%◌, ◌*◌, ◌+◌, ◌==◌, ◌^◌,
  ◌||◌, ◌∷◌, ◌≡◌,
}

abbrev pub page_base : ℕ
page_base = 0xc010_0000

abbrev pub first_used : Bitmap
first_used = record { length = 1; bits = λ i. if i == 0 then 1 else 0 }

-- The directory has a table for each address.
abbrev pub words : ℕ → ℕ
words a = if a == pte_ptr page_base then 0x0020_0007 else (if leb 0xffff_f000 a then 1 else 0)

abbrev pub example : Mem
example = record {
  kern_pool = record {
    pool_bitmap = first_used;
    phy_addr_start = 0x0020_0000;
    pool_size = 0x8000;
    depth = 0;
  };
  user_pool = record {
    pool_bitmap = first_used;
    phy_addr_start = 0x0020_8000;
    pool_size = 0x8000;
    depth = 0;
  };
  kern_vaddr = record { vaddr_bitmap = first_used; vaddr_start = page_base };
  user_vaddr = record { vaddr_bitmap = first_used; vaddr_start = 0x0804_8000 };
  is_process = false;
  word = words;
}

first_used-IsBytes : IsBytes first_used
first_used-IsBytes i = ground arith

unmapped_ok : ℕ → Bool
unmapped_ok p = bit_at first_used p || not (present (words (pte_ptr (page_base + p * page_size))))

unmapped_all : all_below 8 unmapped_ok ≡ true
unfolding all_below unmapped_ok bit
unmapped_all = refl

pub example-IsKernel : IsKernel example
unfolding unmapped_ok
example-IsKernel = record {
  frames = record { bytes = first_used-IsBytes; aligned = refl; within = omega arith };
  pages = first_used-IsBytes;
  small = omega arith;
  aligned = refl;
  positive = omega arith;
  below = omega arith;
  tables = λ v lo hi.
      let above : leb 0xffff_f000 (pde_ptr v) ≡ true = ground (arith, lo, hi) in
      let other : (pde_ptr v == pte_ptr page_base) ≡ false = ground (arith, above) in
      rw (other, above) refl;
  unmapped = λ p lt clear.
      let e = all_below_sound 8 unmapped_ok p unmapped_all lt in ground (arith, e, clear);
}

pub example-IsFree : IsFree first_used 2 3
unfolding bit all_below
example-IsFree = record {
  within = omega arith;
  clear = λ q lo hi.
      let e = all_below_sound 5 (λ q. ltb q 2 || not (bit_at first_used q)) q refl (omega arith) in
      ground (arith, e, lo);
}

pub example-Maps : Maps words 0x0020_0000 page_base (0 ∷ [])
example-Maps = (
  refl,
  (λ o lt.
      let same : pte_ptr (page_base + o) ≡ pte_ptr page_base = omega arith in
      let low : (page_base + o) % 2 ^ 12 ≡ o = omega arith in rw (same, low) (omega arith)),
  tt,
)
