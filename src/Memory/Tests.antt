-- ===== src/Memory/Tests.antt =====
-- Runs on the small memory.
use xbay_os.Memory.RoundTrip.{Restored, malloc_page-free_page}
use xbay_os.Memory.Layout.{mem_pool_init, mem_pool_init-Layout}
use xbay_os.Memory.Example.{example, example-IsFree, example-IsKernel}
use xbay_os.Memory.Alloc.{Allocated, IsKernel, malloc_page-Allocated}
use xbay_os.Memory.{Mem, free_page, malloc_page, page_size, pf_kernel}
use xbay_os.Bitmap.Bits.{bit_at}
use xbay_os.Base.{Option, arith, none, ok, refl, some, true, ℕ, ◌*◌, ◌+◌, ◌<◌, ◌≡◌, ◌≤◌, ◌⊎◌, ◌^◌}

malloc_page-Allocated_example :
    (r : Option ℕ) × (m' : Mem) × (malloc_page pf_kernel 3 example ≡ ok (r, m'))
    × Allocated 3 example r m'
    × IsKernel m'
malloc_page-Allocated_example =
    malloc_page-Allocated 3 2 example example-IsKernel (omega arith) (omega arith) example-IsFree

malloc_page-free_page_example :
    ((m' : Mem) × (malloc_page pf_kernel 3 example ≡ ok (none, m'))
      × ((q : ℕ) → q < 8 → bit_at m'.kern_pool.pool_bitmap q ≡ true))
    ⊎ ((start : ℕ) × (m' : Mem) × (m'' : Mem) × (malloc_page pf_kernel 3 example
          ≡ ok (some start, m'))
        × (free_page pf_kernel start 3 m' ≡ ok m'')
        × Restored start 3 example m'')
malloc_page-free_page_example =
    malloc_page-free_page 3 2 example example-IsKernel refl (omega arith) (omega arith)
      (omega arith) example-IsFree

mem_pool_init-Layout_example :
    let p = mem_pool_init 0x0200_0000 in
    (p.kern_start ≡ 2 * 2 ^ 20)
    × (p.user_start ≡ p.kern_start + p.kern_size)
    × (p.user_start + p.user_size ≤ 0x0200_0000)
    × (page_size * (8 * p.kern_length) ≤ p.kern_size)
    × (page_size * (8 * p.user_length) ≤ p.user_size)
    × (p.kern_size + p.user_size < page_size * (8 * p.kern_length + 8 * p.user_length + 16))
    × (p.kern_bits ≡ 0xc009_a000)
    × (p.user_bits ≡ p.kern_bits + p.kern_length)
    × (p.vaddr_bits ≡ p.user_bits + p.user_length)
    × (p.vaddr_bits + p.vaddr_length ≤ 0xc009_e000)
    × (p.vaddr_length ≡ p.kern_length)
    × (p.vaddr_start + page_size * (8 * p.vaddr_length) ≤ 0xffc0_0000)
mem_pool_init-Layout_example = mem_pool_init-Layout 0x0200_0000 (omega arith) (omega arith)
