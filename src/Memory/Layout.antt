-- ===== src/Memory/Layout.antt =====
-- mem_pool_init of kernel/memory.c: the split of physical memory into two pools, and the place of
-- the three bitmaps.
use xbay_os.Bitmap.{init}
use xbay_os.Memory.{Pool, page_size}
use xbay_os.Base.{arith, sub32, u16, u32, ℕ, ◌%◌, ◌*◌, ◌+◌, ◌-◌, ◌/◌, ◌<◌, ◌^◌, ◌≡◌, ◌≤◌, refl}

-- What mem_pool_init computes: the pools, with the addresses of their bitmaps.
pub record Pools : Type 0 where
  pub kern_start : ℕ
  pub kern_size : ℕ
  pub kern_bits : ℕ
  pub kern_length : ℕ
  pub user_start : ℕ
  pub user_size : ℕ
  pub user_bits : ℕ
  pub user_length : ℕ
  pub vaddr_start : ℕ
  pub vaddr_bits : ℕ
  pub vaddr_length : ℕ

-- MEM_BITMAP_BASE and K_HEAP_START
abbrev pub mem_bitmap_base : ℕ
mem_bitmap_base = 0xc009_a000

abbrev pub k_heap_start : ℕ
k_heap_start = 0xc010_0000

-- used_mem: the page tables of the high gigabyte, and the low megabyte
abbrev pub used_mem : ℕ
used_mem = page_size * 256 + 0x10_0000

-- all_free_pages, a uint16_t
abbrev pub all_free_pages : ℕ → ℕ
all_free_pages all_mem = u16 (sub32 all_mem used_mem / page_size)

-- The computations of mem_pool_init, of a machine with all_mem bytes
unfoldable pub mem_pool_init : (all_mem : ℕ) → Pools
mem_pool_init all_mem =
    let all = all_free_pages all_mem in
    let kern = all / 2 in
    let user = sub32 all kern in
    let kbm_length = kern / 8 in
    let ubm_length = user / 8 in
    let kp_start = used_mem in
    record {
      kern_start = kp_start;
      kern_size = u32 (kern * page_size);
      kern_bits = mem_bitmap_base;
      kern_length = kbm_length;
      user_start = u32 (kp_start + kern * page_size);
      user_size = u32 (user * page_size);
      user_bits = u32 (mem_bitmap_base + kbm_length);
      user_length = ubm_length;
      vaddr_start = k_heap_start;
      vaddr_bits = u32 (mem_bitmap_base + kbm_length + ubm_length);
      vaddr_length = kbm_length;
    }

-- The pools as palloc finds them; bitmap_init has cleared their bitmaps, and mutex_init their mutexes
abbrev pub initial_pool : (start size len : ℕ) → (bits : ℕ → ℕ) → Pool
initial_pool start size len bits = record {
  pool_bitmap = init (record { length = len; bits = bits }) len;
  phy_addr_start = start;
  pool_size = size;
  depth = 0;
}

-- On a machine with at least 2 MB, the pools lie one behind the other, from byte 2 M on
-- and within the memory; each bit of a pool's bitmap has its frame in the pool; the three bitmaps lie
-- one behind the other in the four pages from 0xc009a000 on, before the kernel's PCB; the kernel's
-- addresses have as many bits as its frames and end below the page tables. Fewer than 16 frames of the pools' range have no bit.
pub mem_pool_init-Layout :
    (all_mem : ℕ)
    → used_mem ≤ all_mem
    → all_mem < 2 ^ 32
    → let p = mem_pool_init all_mem in
      (p.kern_start ≡ 2 * 2 ^ 20)
      × (p.user_start ≡ p.kern_start + p.kern_size)
      × (p.user_start + p.user_size ≤ all_mem)
      × (page_size * (8 * p.kern_length) ≤ p.kern_size)
      × (page_size * (8 * p.user_length) ≤ p.user_size)
      × (p.kern_size + p.user_size < page_size * (8 * p.kern_length + 8 * p.user_length + 16))
      × (p.kern_bits ≡ 0xc009_a000)
      × (p.user_bits ≡ p.kern_bits + p.kern_length)
      × (p.vaddr_bits ≡ p.user_bits + p.user_length)
      × (p.vaddr_bits + p.vaddr_length ≤ 0xc009_e000)
      × (p.vaddr_length ≡ p.kern_length)
      × (p.vaddr_start + page_size * (8 * p.vaddr_length) ≤ 0xffc0_0000)
unfolding mem_pool_init
mem_pool_init-Layout all_mem low high =
    let a = all_free_pages all_mem in
    let u : (a + 2 ^ 32 - a / 2) % 2 ^ 32 ≡ a - a / 2 = omega arith in
    rw u (
      refl,
      omega arith,
      omega arith,
      omega arith,
      omega arith,
      omega arith,
      refl,
      omega arith,
      omega arith,
      omega arith,
      refl,
      omega arith,
    )
