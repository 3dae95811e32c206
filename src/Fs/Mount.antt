-- ===== src/Fs/Mount.antt =====
-- mount_part reads what build_fs asks to write.
use xbay_os.Disk.{max_lba}
use xbay_os.Fs.Build.{
  can_read, fs_writes, mount_from, from_sector, super_of, perform_all, buf_size_of,
  set_inode_bitmap, mount_part, mounted,
}
use xbay_os.Fs.{SuperBlock, init_super_block, set_free_block_bitmap}
use xbay_os.Base.{leb, arith, refl, ℕ, ◌+◌, ◌<◌, ◌∙◌, ◌≡◌, ◌≤◌, ap, u32, false, true, ◌==◌, ok}

pub reach : (lba : ℕ) → lba ≤ max_lba → leb (u32 lba) max_lba ≡ true
reach lba h = ground arith

module _ (start count : ℕ) (h : 81 ≤ count) (b : start + count ≤ max_lba + 1) where
  abbrev sb : SuperBlock
  sb = init_super_block start count

  module _ (stale buf : ℕ → ℕ) (disk : ℕ → ℕ → ℕ) where
    abbrev built : ℕ → ℕ → ℕ
    built = perform_all (fs_writes stale buf start count) disk

    abbrev bitmap : ℕ → ℕ
    bitmap = set_free_block_bitmap buf count

    abbrev marked : ℕ → ℕ
    marked = (set_inode_bitmap (buf_size_of sb) sb bitmap).0

pub mount_run :
    (alloc : ℕ → ℕ) (disk : ℕ → ℕ → ℕ) (start : ℕ) (sb : SuperBlock)
    → ((i : ℕ) → 0 < alloc i)
    → leb (u32 (start + 1)) max_lba ≡ true
    → can_read sb.fb_bmap_addr sb.fb_bmap_size ≡ true
    → can_read sb.in_bmap_addr sb.in_bmap_size ≡ true
    → super_of (from_sector disk (u32 (start + 1))) ≡ sb
    → mount_part alloc disk start ≡ ok (mounted disk sb)
unfolding mount_part
mount_run alloc disk start sb got first blocks inodes e =
    let a0 : (alloc 0 == 0) ≡ false = ground (arith, got 0) in
    let a1 : (alloc 1 == 0) ≡ false = ground (arith, got 1) in
    let a2 : (alloc 2 == 0) ≡ false = ground (arith, got 2) in
    let a3 : (alloc 3 == 0) ≡ false = ground (arith, got 3) in
    let wrap : u32 (u32 (start + 1)) ≡ u32 (start + 1) = omega arith in
    let from : mount_from alloc disk sb ≡ ok (mounted disk sb) =
      rw (a1, a2, a3, blocks, inodes) refl in
    rw (a0, wrap, first) (ap (mount_from alloc disk) e ∙ from)
