-- ===== src/Bitmap.antt =====
-- lib/bitmap.c and lib/bitmap.h: bitmaps over bytes of memory.
-- `bits` is the memory from the pointer `bits` on, a byte at each offset, so that a read at or past
-- `length` yields whatever stands there, as in the flat memory of the kernel.
pub mod Bits
pub mod First
pub mod Scan
mod Tests
use Prim.Native.Nat.{bit_and}
use xbay_os.Base.{
  ℕ, zero, suc, ◌+◌, ◌-◌, ◌*◌, ◌/◌, ◌%◌, ◌^◌, Bool, true, false, ◌&&◌, Option, none, some, Run, ok,
  ◌>>=◌, ◌>>◌, assert, ltb, ◌==◌, if◌then◌else◌, update, u8, u32, sub32,
}
use xbay_os.Base.Bytes.{bit, with_bit, without_bit}

-- struct __bitmap
pub record Bitmap : Type 0 where
  pub length : ℕ
  pub bits : ℕ → ℕ

-- bitmap_init; its `memset` clears `len` bytes
unfoldable pub init : Bitmap → ℕ → Bitmap
init bm len = record { length = len; bits = λ i. if ltb i len then 0 else bm.bits i }

-- bitmap_has
unfoldable pub has : Bitmap → ℕ → Run Bool
has bm position = do
  assert (ltb (position / 8) bm.length)
  ok (bit (bm.bits (position / 8)) (position % 8))

-- bitmap_clear
unfoldable pub clear : Bitmap → ℕ → Run Bitmap
clear bm position = do
  assert (ltb (position / 8) bm.length)
  ok (record bm {
    bits = update bm.bits (position / 8) (u8 (without_bit (bm.bits (position / 8)) (position % 8)));
  })

-- bitmap_set
unfoldable pub set : Bitmap → ℕ → Run Bitmap
set bm position = do
  assert (ltb (position / 8) bm.length)
  ok (record bm {
    bits = update bm.bits (position / 8) (u8 (with_bit (bm.bits (position / 8)) (position % 8)));
  })

-- The first loop of bitmap_scan, with the rounds that are left: from `idx` at most
-- `length - idx` pass the test.
pub skip_full : ℕ → Bitmap → ℕ → ℕ
skip_full zero bm idx = idx
skip_full (suc k) bm idx =
    let next = skip_full k bm (idx + 1) in
    if (bm.bits idx == 0xff) && ltb idx bm.length then next else idx

-- The second loop, over one byte. At offset 8 the mask (uint8_t)(0x1 << offset) is 0.
pub free_bit : ℕ → ℕ → ℕ → ℕ
free_bit zero byte offset = offset
free_bit (suc k) byte offset =
    let next = free_bit k byte (offset + 1) in
    if bit_and (u8 (2 ^ offset)) byte == 0 then offset else next

-- The third loop, for cnt ≠ 1, from the bit `next_bit` on. `none` is the result -1.
unfoldable pub scan_run : ℕ → Bitmap → ℕ → ℕ → ℕ → Run (Option ℕ)
scan_run zero bm cnt next_bit count = ok none
scan_run (suc left) bm cnt next_bit count = has bm next_bit >>= λ taken.
    let count' = if taken then 0 else count + 1 in
    let next = scan_run left bm cnt (u32 (next_bit + 1)) count' in
    if count' == cnt then ok (some (u32 (sub32 next_bit cnt + 1))) else next

-- bitmap_scan. The result -1 is `none`. `position` is -1 when the third loop's bound is taken, so
-- that is length * 8 - (-1).
unfoldable pub scan : Bitmap → ℕ → Run (Option ℕ)
unfolding skip_full free_bit
scan bm cnt =
    let idx = skip_full bm.length bm 0 in
    let position = u32 (idx * 8 + free_bit 8 (bm.bits idx) 0) in
    if idx == bm.length
    then ok none
    else if cnt == 1
    then ok (some position)
    else scan_run (u32 (bm.length * 8 + 1)) bm cnt (u32 (position + 1)) 1
