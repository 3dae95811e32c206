-- ===== src/Fs.antt =====
-- fs/fs.c, fs/inode.c, fs/file.c and their headers: the layout of a file system on a partition, the
-- places of inodes, the tables of open inodes and files, the allocation of bits, and paths.
pub mod Layout
pub mod Words
pub mod Build
pub mod Requests
pub mod Mount
pub mod Init
pub mod Kept
pub mod Create
pub mod Open
pub mod Never
pub mod Inode
pub mod Opened
pub mod File
pub mod Path
mod Tests
mod Runs
use xbay_os.Base.Bytes.{with_bit, without_bit}
use xbay_os.Base.{
  div_round_up, if◌then◌else◌, leb, ltb, sub32, suc, u32, u8, update, zero, ℕ, ◌%◌, ◌&&◌, ◌*◌, ◌+◌,
  ◌-◌, ◌/◌,
}

-- struct __super_block, without the filling
pub record SuperBlock : Type 0 where
  pub magic_num : ℕ
  pub block_cnt : ℕ
  pub inode_cnt : ℕ
  pub start_lba : ℕ
  pub fb_bmap_addr : ℕ
  pub fb_bmap_size : ℕ
  pub in_bmap_addr : ℕ
  pub in_bmap_size : ℕ
  pub in_array_addr : ℕ
  pub in_array_size : ℕ
  pub data_start : ℕ
  pub root_inode_no : ℕ
  pub root_dir_size : ℕ

-- BITS_PER_SECTOR
abbrev pub bits_per_sector : ℕ
bits_per_sector = 4096

-- MAX_FILES_PER_PART
abbrev pub max_files_per_part : ℕ
max_files_per_part = 4096

-- SECTOR_SIZE
abbrev pub sector_size : ℕ
sector_size = 512

-- sizeof(inode_t): two pointers, three uint32_t, a bool with its padding, 13 uint32_t
abbrev pub inode_bytes : ℕ
inode_bytes = 2 * 4 + 3 * 4 + 4 + 13 * 4

-- sizeof(dir_entry): an int32_t, 64 characters, an enum
abbrev pub dir_entry_bytes : ℕ
dir_entry_bytes = 4 + 64 + 4

-- inode_bmap_secs and inode_array_secs of init_super_block
abbrev pub inode_bmap_secs : ℕ
inode_bmap_secs = div_round_up max_files_per_part bits_per_sector

abbrev pub inode_array_secs : ℕ
inode_array_secs = div_round_up (inode_bytes * max_files_per_part) bits_per_sector

-- fb_secs
abbrev pub free_block_secs : (total_secs : ℕ) → ℕ
free_block_secs total_secs = sub32 (sub32 (sub32 total_secs 2) inode_bmap_secs) inode_array_secs

-- fb_bmap_secs, after its second assignment
abbrev pub free_bmap_secs : (fb_secs : ℕ) → ℕ
free_bmap_secs fb_secs =
    div_round_up (sub32 fb_secs (div_round_up fb_secs bits_per_sector)) bits_per_sector

-- init_super_block, of a partition of `count` sectors from `start` on
unfoldable pub init_super_block : (start count : ℕ) → SuperBlock
init_super_block start count =
    let fb_bmap_addr = u32 (start + 2) in
    let fb_bmap_size = free_bmap_secs (free_block_secs count) in
    let in_bmap_addr = u32 (fb_bmap_addr + fb_bmap_size) in
    let in_array_addr = u32 (in_bmap_addr + inode_bmap_secs) in
    record {
      magic_num = 0xcafe_bebe;
      block_cnt = count;
      inode_cnt = max_files_per_part;
      start_lba = start;
      fb_bmap_addr = fb_bmap_addr;
      fb_bmap_size = fb_bmap_size;
      in_bmap_addr = in_bmap_addr;
      in_bmap_size = inode_bmap_secs;
      in_array_addr = in_array_addr;
      in_array_size = inode_array_secs;
      data_start = u32 (in_array_addr + in_array_addr);
      root_inode_no = 0;
      root_dir_size = dir_entry_bytes;
    }

-- The loop of set_free_block_bitmap that clears bits 0 to last_bit of a byte
abbrev pub clear_low : ℕ → ℕ → ℕ
clear_low zero byte = without_bit byte 0
clear_low (suc i) byte = u8 (without_bit (clear_low i byte) (suc i))

-- set_free_block_bitmap, up to its write to the disk: the bytes of buf
unfoldable pub set_free_block_bitmap : (buf : ℕ → ℕ) → (count : ℕ) → (ℕ → ℕ)
set_free_block_bitmap buf count =
    let fb_secs = free_block_secs count in
    let fb_bmap_len = sub32 fb_secs (div_round_up fb_secs bits_per_sector) in
    let last_byte = fb_bmap_len / 8 in
    let last_size = sector_size - last_byte % sector_size in
    let buf1 = update buf 0 (with_bit (buf 0) 0) in
    let buf2 : ℕ → ℕ =
      λ i. if leb last_byte i && ltb i (last_byte + last_size) then 0xff else buf1 i in
    update buf2 last_byte (clear_low (fb_bmap_len % 8) (buf2 last_byte))
