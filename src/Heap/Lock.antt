-- ===== src/Heap/Lock.antt =====
-- Changes of the memory below that leave the headers and the lists of free blocks alone: the mutex
-- of the pool, and addresses taken.
use xbay_os.Memory.Alloc.{IsKernel, Allocated}
use xbay_os.Memory.{page_size, pf_kernel}
use xbay_os.Heap.Invariant.{IsArena, IsBlock, IsHeap}
use xbay_os.Heap.{Arena, Heap, lock, unlock, Mem}
use xbay_os.Bitmap.Bits.{bit_at}
use xbay_os.Base.{
  List, Option, ap, arith, has, refl, some, sym, true, u8, ℕ, ◌%◌, ◌*◌, ◌+◌, ◌-◌, ◌^◌, ◌∙◌, ◌≡◌,
}

-- What the invariant of the heap asks of the memory is still there.
pub record Grown (h h' : Heap) : Type 0 where
  pub memory : IsKernel h'.mem
  pub same_mode : h'.mem.is_process ≡ h.mem.is_process
  pub same_start : h'.mem.kern_vaddr.vaddr_start ≡ h.mem.kern_vaddr.vaddr_start
  pub same_length : h'.mem.kern_vaddr.vaddr_bitmap.length ≡ h.mem.kern_vaddr.vaddr_bitmap.length
  pub still_used :
      (p : ℕ)
      → bit_at h.mem.kern_vaddr.vaddr_bitmap p ≡ true
      → bit_at h'.mem.kern_vaddr.vaddr_bitmap p ≡ true
  pub same_headers : h'.arena ≡ h.arena
  pub same_lists : h'.kern_blocks ≡ h.kern_blocks

module _ (h h' : Heap) (c : Grown h h') where
  header_back : (b : ℕ) (q : Arena) → h'.arena b ≡ some q → h.arena b ≡ some q
  header_back b q t = ap (λ (f : ℕ → Option Arena). f b) (sym c.same_headers) ∙ t

  block_kept : (j b : ℕ) → IsBlock h j b → IsBlock h' j b
  block_kept j b x = record {
    header = x.header;
    place = x.place;
    found = rw (c.same_headers) x.found;
    small = x.small;
    kernel = x.kernel;
    sized = x.sized;
    within = x.within;
    at = x.at;
  }

  arena_kept : (b : ℕ) (q : Arena) → IsArena h b q → IsArena h' b q
  arena_kept b q x = record {
    page = x.page;
    at = x.at ∙ ap (λ (s : ℕ). s + x.page * page_size) (sym c.same_start);
    in_range = omega (arith, x.in_range, c.same_length);
    used = c.still_used x.page x.used;
    counted = λ s. rw (c.same_lists) (x.counted s);
  }

  -- The invariant of the heap is kept.
  pub Grown-IsHeap : IsHeap h → IsHeap h'
  Grown-IsHeap v = record {
    memory = c.memory;
    mode = c.same_mode ∙ v.mode;
    distinct = λ j. rw (c.same_lists) (v.distinct j);
    blocks = λ j b lt t.
        block_kept j b
          (v.blocks j b lt (ap (λ (f : ℕ → List ℕ). has b (f j)) (sym c.same_lists) ∙ t));
    arenas = λ b q t k. arena_kept b q (v.arenas b q (header_back b q t) k);
    users = λ b q t k. omega (arith, c.same_start, v.users b q (header_back b q t) k);
  }

abbrev pub with_depth : ℕ → Mem → Mem
with_depth n m = record m { kern_pool = record (m.kern_pool) { depth = n } }

-- The mutex of the pool does not matter for the state of the memory.
pub with_depth-IsKernel : (n : ℕ) (m : Mem) → IsKernel m → IsKernel (with_depth n m)
with_depth-IsKernel n m k = record {
  frames = record { bytes = k.frames.bytes; aligned = k.frames.aligned; within = k.frames.within };
  pages = k.pages;
  small = k.small;
  aligned = k.aligned;
  positive = k.positive;
  below = k.below;
  tables = k.tables;
  unmapped = k.unmapped;
}

-- The depth of the mutex once sys_malloc or sys_free has unlocked the pool of a memory.
abbrev pub unlocked : Mem → ℕ
unlocked m = (m.kern_pool.depth + 2 ^ 8 - 1) % 2 ^ 8

pub unlock-IsHeap : (h : Heap) → IsHeap h → IsHeap (unlock pf_kernel h)
unlock-IsHeap h v =
    Grown-IsHeap h (unlock pf_kernel h)
      (record {
        memory = with_depth-IsKernel (unlocked h.mem) h.mem v.memory;
        same_mode = refl;
        same_start = refl;
        same_length = refl;
        still_used = λ p u. u;
        same_headers = refl;
        same_lists = refl;
      })
      v

pub lock-IsHeap : (h : Heap) → IsHeap h → IsHeap (lock pf_kernel h)
lock-IsHeap h v =
    Grown-IsHeap h (lock pf_kernel h)
      (record {
        memory = with_depth-IsKernel (u8 (h.mem.kern_pool.depth + 1)) h.mem v.memory;
        same_mode = refl;
        same_start = refl;
        same_length = refl;
        still_used = λ p u. u;
        same_headers = refl;
        same_lists = refl;
      })
      v

pub unlock-IsBlock : (h : Heap) (i b : ℕ) → IsBlock h i b → IsBlock (unlock pf_kernel h) i b
unlock-IsBlock h i b x = record {
  header = x.header;
  place = x.place;
  found = x.found;
  small = x.small;
  kernel = x.kernel;
  sized = x.sized;
  within = x.within;
  at = x.at;
}

-- What malloc_page does keeps what the heap needs.
pub Allocated-Grown :
    (cnt : ℕ) (h : Heap) (r : Option ℕ) (m : Mem)
    → Allocated cnt h.mem r m
    → IsKernel m
    → Grown h (record h { mem = m })
Allocated-Grown cnt h r m al k = record {
  memory = k;
  same_mode = al.same_mode;
  same_start = al.same_start;
  same_length = al.run.1;
  still_used = λ q u. ground (arith, al.run.2 q, u);
  same_headers = refl;
  same_lists = refl;
}

abbrev pub lock-IsBlock : (h : Heap) (i b : ℕ) → IsBlock h i b → IsBlock (lock pf_kernel h) i b
lock-IsBlock h i b x = record {
  header = x.header;
  place = x.place;
  found = x.found;
  small = x.small;
  kernel = x.kernel;
  sized = x.sized;
  within = x.within;
  at = x.at;
}
