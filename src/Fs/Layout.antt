-- ===== src/Fs/Layout.antt =====
-- Where init_super_block puts the parts of a file system.
use xbay_os.Disk.{max_lba}
use xbay_os.Fs.{init_super_block, free_bmap_secs}
use xbay_os.Base.{arith, ℕ, ◌*◌, ◌+◌, ◌^◌, ◌≡◌, ◌≤◌, ◌%◌, ◌-◌, ◌/◌}

bitmap_size :
    (fb : ℕ)
    → 2 ≤ fb
    → fb ≤ max_lba
    → (free_bmap_secs fb ≤ fb) × (fb ≤ 4097 * free_bmap_secs fb + 1)
bitmap_size fb h b =
    let e : (fb + 4096 - 1) % 2 ^ 32 / 4096 ≤ fb = omega arith in
    let c = (fb + 4096 - 1) % 2 ^ 32 / 4096 in
    let d : (fb + 2 ^ 32 - c) % 2 ^ 32 ≡ fb - c = omega (arith, e) in
    rw d (omega (arith, e), omega (arith, e))

-- For a partition of at least 81 sectors that ends at the last sector of the
-- driver or before, the free-block bitmap, the
-- inode bitmap and the inode array follow one another from the third sector on, without gaps, and
-- end within the partition. The free-block bitmap has a bit for each sector behind them, but for
-- one at most. The data area does not follow: it starts at twice the sector of the inode array.
pub init_super_block-Layout :
    (start count : ℕ)
    → 81 ≤ count
    → start + count ≤ max_lba + 1
    → let sb = init_super_block start count in
      (sb.fb_bmap_addr ≡ start + 2)
      × (sb.in_bmap_addr ≡ sb.fb_bmap_addr + sb.fb_bmap_size)
      × (sb.in_array_addr ≡ sb.in_bmap_addr + sb.in_bmap_size)
      × (sb.in_array_addr + sb.in_array_size ≤ start + count)
      × (start + count ≤ sb.in_array_addr + sb.in_array_size + 4096 * sb.fb_bmap_size + 1)
      × (sb.data_start ≡ 2 * sb.in_array_addr)
unfolding init_super_block
init_super_block-Layout start count h b =
    let fb : (((count + 2 ^ 32 - 2) % 2 ^ 32 + 2 ^ 32 - 1) % 2 ^ 32 + 2 ^ 32 - 76) % 2 ^ 32
        ≡ count - 79 =
      omega arith in
    let size = bitmap_size (count - 79) (omega arith) (omega arith) in
    rw fb (
      omega arith,
      omega (arith, size.0),
      omega (arith, size.0),
      omega (arith, size.0),
      omega (arith, size.0, size.1),
      omega (arith, size.0),
    )
