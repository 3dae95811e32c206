-- ===== src/Heap/Sizes.antt =====
-- The seven sizes of blocks, and where the blocks of an arena lie.
use xbay_os.Memory.{page_size}
use xbay_os.Heap.{
  arena_bytes, arena_to_block, block_to_arena, cnt_at, desc_at, mem_block_init, size_at,
}
use xbay_os.Base.Bytes.{all_below, all_below_sound}
use xbay_os.Base.{
  Bool, arith, if◌then◌else◌, leb, ltb, refl, true, ℕ, ◌%◌, ◌&&◌, ◌*◌, ◌+◌, ◌<◌, ◌^◌, ◌≡◌, ◌≤◌,
}

block_fits : ℕ → ℕ → Bool
block_fits i k =
    if ltb k (cnt_at i) then leb (arena_bytes + k * size_at i + size_at i) page_size else true

fits_all : all_below 7 (λ i. all_below 256 (block_fits i)) ≡ true
unfolding all_below block_fits mem_block_init desc_at
fits_all = refl

size_ok : ℕ → Bool
size_ok i = leb 16 (size_at i) && ltb 0 (cnt_at i) && leb (cnt_at i) 255

sizes_all : all_below 7 size_ok ≡ true
unfolding all_below size_ok mem_block_init desc_at
sizes_all = refl

pub size_at-bounds : (i : ℕ) → i < 7 → (16 ≤ size_at i) × (0 < cnt_at i) × (cnt_at i ≤ 255)
unfolding size_ok
size_at-bounds i h =
    let e = all_below_sound 7 size_ok i sizes_all h in
    (ground (arith, e), ground (arith, e), ground (arith, e))

pub block_room :
    (i k : ℕ) → i < 7 → k < cnt_at i → arena_bytes + k * size_at i + size_at i ≤ page_size
unfolding block_fits
block_room i k hi hk =
    let s = size_at-bounds i hi in
    let row = all_below_sound 7 (λ i. all_below 256 (block_fits i)) i fits_all hi in
    let e = all_below_sound 256 (block_fits i) k row (omega (arith, s.2)) in
    let here : ltb k (cnt_at i) ≡ true = ground arith in let f = rw here at e in ground (arith, f)

pub arena_to_block_lem :
    (a i k : ℕ)
    → a % page_size ≡ 0
    → a + page_size ≤ 2 ^ 32
    → i < 7
    → k < cnt_at i
    → (a + arena_bytes ≤ arena_to_block a i k)
      × (arena_to_block a i k + size_at i ≤ a + page_size)
      × (block_to_arena (arena_to_block a i k) ≡ a)
arena_to_block_lem a i k al top hi hk =
    let room = block_room i k hi hk in
    let s = size_at-bounds i hi in
    let x = k * size_at i in
    let e : (a + arena_bytes + x) % 2 ^ 32 ≡ a + arena_bytes + x = omega (arith, room, s.0) in
    rw e (omega arith, omega (arith, room), omega (arith, room, s.0, al))

-- Every block of an arena at a page boundary lies in that page, behind the header, and
-- block_to_arena finds the arena of each address in it.
pub arena_to_block-inside :
    (a i k : ℕ)
    → a % page_size ≡ 0
    → a + page_size ≤ 2 ^ 32
    → i < 7
    → k < cnt_at i
    → (a + arena_bytes ≤ arena_to_block a i k)
      × (arena_to_block a i k + size_at i ≤ a + page_size)
      × ((x : ℕ)
          → arena_to_block a i k ≤ x
          → x < arena_to_block a i k + size_at i
          → block_to_arena x ≡ a)
arena_to_block-inside a i k al top hi hk =
    let room = block_room i k hi hk in
    let s = size_at-bounds i hi in
    let x = k * size_at i in
    let e : (a + arena_bytes + x) % 2 ^ 32 ≡ a + arena_bytes + x = omega (arith, room, s.0) in
    rw e (omega arith, omega (arith, room), λ y lo hi. omega (arith, room, s.0, al, lo, hi))
