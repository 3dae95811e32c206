-- ===== src/Fs/Build.antt =====
-- build_fs and mount_part of fs/fs.c: what is written to the disk for a new file system, and what is
-- read of it when it is mounted. A disk is the bytes of its sectors, and a Request is what ide_write is
-- asked for; its assertion and the number of sectors it moves are those of device/disk.c.
use xbay_os.Disk.{max_lba}
use xbay_os.IoQueue.{buf_size}
use xbay_os.Fs.{SuperBlock, dir_entry_bytes, init_super_block, sector_size, set_free_block_bitmap}
use xbay_os.Bitmap.{Bitmap}
use xbay_os.Base.Little.{store32, word_at, word_bytes}
use xbay_os.Base.Bytes.{with_bit}
use xbay_os.Base.{
  Bool, suc, true, zero, ◌>>=◌, List, Run, [], assert, get_or, if◌then◌else◌, leb, ltb, not, ok,
  u32, update, ℕ, ◌%◌, ◌&&◌, ◌*◌, ◌+◌, ◌-◌, ◌/◌, ◌==◌, ◌>>◌, ◌∷◌,
}

pub record Request : Type 0 where
  pub lba : ℕ
  pub sectors : ℕ
  pub bytes : ℕ → ℕ

-- The sectors that ide_write moves when it is asked for cnt: it makes one transfer, whose count is a
-- byte, with 0 for 256
abbrev pub moved : (cnt : ℕ) → ℕ
moved cnt =
    if cnt == 0 then 0 else if leb cnt 256 then 256 else if cnt % 256 == 0 then 256 else cnt % 256

-- The assertion of ide_write's select_sector, which it comes to if it is asked for a sector
abbrev pub accepted : Request → Bool
accepted r = if r.sectors == 0 then true else leb r.lba max_lba

-- Requests that are made one after the other
abbrev pub send : List Request → Run (List Request)
send [] = ok []
send (r ∷ rs) = assert (accepted r) >>= λ _. send rs >>= λ later. ok (r ∷ later)

-- The assertions of ide_read's select_sector, for pieces of 256 sectors from lba on
abbrev pub readable : (pieces lba : ℕ) → Bool
readable zero lba = true
readable (suc pieces) lba = leb (u32 lba) max_lba && readable pieces (lba + 256)

-- Those of ide_read of cnt sectors
abbrev pub can_read : (lba cnt : ℕ) → Bool
can_read lba cnt = readable ((cnt + 255) / 256) lba

-- The disk once the request has been met. The bytes behind those that were meant are what follows in
-- memory.
abbrev pub perform : Request → (disk : ℕ → ℕ → ℕ) → ℕ → ℕ → ℕ
perform r disk l o =
    if leb r.lba l && ltb l (r.lba + moved r.sectors)
    then r.bytes ((l - r.lba) * sector_size + o)
    else disk l o

abbrev pub perform_all : List Request → (disk : ℕ → ℕ → ℕ) → ℕ → ℕ → ℕ
perform_all [] disk = disk
perform_all (r ∷ rs) disk = perform_all rs (perform r disk)

-- The words of struct __super_block, in its order
abbrev pub super_words : SuperBlock → List ℕ
super_words sb =
    sb.magic_num ∷ sb.block_cnt ∷ sb.inode_cnt ∷ sb.start_lba ∷ sb.fb_bmap_addr ∷ sb.fb_bmap_size
    ∷ sb.in_bmap_addr ∷ sb.in_bmap_size ∷ sb.in_array_addr ∷ sb.in_array_size ∷ sb.data_start
    ∷ sb.root_inode_no ∷ sb.root_dir_size ∷ []

-- Its bytes; those of the placeholder are what stood in the local variable, `stale`.
abbrev pub super_bytes : (stale : ℕ → ℕ) → SuperBlock → ℕ → ℕ
super_bytes stale sb o =
    if ltb o 52 then word_bytes (λ w. get_or (super_words sb) w 0) o else stale o

-- The superblock that some bytes hold
abbrev pub super_of : (ℕ → ℕ) → SuperBlock
super_of b = record {
  magic_num = word_at b 0;
  block_cnt = word_at b 1;
  inode_cnt = word_at b 2;
  start_lba = word_at b 3;
  fb_bmap_addr = word_at b 4;
  fb_bmap_size = word_at b 5;
  in_bmap_addr = word_at b 6;
  in_bmap_size = word_at b 7;
  in_array_addr = word_at b 8;
  in_array_size = word_at b 9;
  data_start = word_at b 10;
  root_inode_no = word_at b 11;
  root_dir_size = word_at b 12;
}

-- memset of the buffer; buf_size is in bytes here, but build_fs computes it in sectors
abbrev pub clear_buf : (buf_size : ℕ) → (ℕ → ℕ) → ℕ → ℕ
clear_buf buf_size buf o = if ltb o buf_size then 0 else buf o

-- set_inode_bitmap: the buffer, and the request, which has the size of the inode array
abbrev pub set_inode_bitmap : (buf_size : ℕ) → SuperBlock → (ℕ → ℕ) → (ℕ → ℕ) × Request
set_inode_bitmap buf_size sb buf =
    let cleared = clear_buf buf_size buf in
    let buf' = update cleared 0 (with_bit (cleared 0) 0) in
    (buf', record { lba = sb.in_bmap_addr; sectors = sb.in_array_size; bytes = buf' })

-- set_inode_array: i_no, i_size and i_sectors[0] stand at bytes 8, 12 and 24 of an inode_t
abbrev pub set_inode_array : (buf_size : ℕ) → SuperBlock → (ℕ → ℕ) → (ℕ → ℕ) × Request
set_inode_array buf_size sb buf =
    let cleared = clear_buf buf_size buf in
    let buf' =
      store32 24 sb.data_start (store32 8 0 (store32 12 (u32 (sb.root_dir_size * 2)) cleared)) in
    (buf', record { lba = sb.in_array_addr; sectors = sb.in_array_size; bytes = buf' })

-- The loop of memset over the first `count` characters of a name
abbrev pub dots : (at count : ℕ) → (ℕ → ℕ) → ℕ → ℕ
dots at count buf o = if leb at o && ltb o (at + count) then 46 else buf o

-- set_root_dir, with ET_DIRECTORY 2
abbrev pub set_root_dir : (buf_size : ℕ) → SuperBlock → (ℕ → ℕ) → (ℕ → ℕ) × Request
set_root_dir buf_size sb buf =
    let first = store32 68 2 (store32 0 0 (dots 4 1 (clear_buf buf_size buf))) in
    let at = dir_entry_bytes in
    let buf' = store32 (at + 68) 2 (store32 at 0 (dots (at + 4) 2 first)) in
    (buf', record { lba = sb.data_start; sectors = 1; bytes = buf' })

-- buf_size of build_fs: the macro max of two numbers of sectors
abbrev pub buf_size_of : SuperBlock → ℕ
buf_size_of sb = if ltb sb.in_bmap_size sb.fb_bmap_size then sb.fb_bmap_size else sb.in_bmap_size

-- The first two writes of build_fs
abbrev pub write_super : (stale : ℕ → ℕ) → (start : ℕ) → SuperBlock → Request
write_super stale start sb = record {
  lba = u32 (start + 1);
  sectors = 1;
  bytes = super_bytes stale sb;
}

abbrev pub write_bitmap : (buf : ℕ → ℕ) → SuperBlock → Request
write_bitmap buf sb = record { lba = sb.fb_bmap_addr; sectors = sb.fb_bmap_size; bytes = buf }

-- The writes of the inode array and of the root directory, given the buffer before them
abbrev pub write_rest : SuperBlock → (buf : ℕ → ℕ) → List Request
write_rest sb buf =
    let (buf', inode_array) = set_inode_array (buf_size_of sb) sb buf in
    inode_array ∷ (set_root_dir (buf_size_of sb) sb buf').1 ∷ []

-- The calls of build_fs behind the first write
abbrev pub fill_parts : SuperBlock → (buf : ℕ → ℕ) → List Request
fill_parts sb buf =
    let (buf', inode_bitmap) = set_inode_bitmap (buf_size_of sb) sb buf in
    inode_bitmap ∷ write_rest sb buf'

-- The calls of ide_write in build_fs, in their order
abbrev pub fs_writes : (stale buf : ℕ → ℕ) → (start count : ℕ) → List Request
fs_writes stale buf start count =
    let sb = init_super_block start count in
    let buf1 = set_free_block_bitmap buf count in
    write_super stale start sb ∷ write_bitmap buf1 sb ∷ fill_parts sb buf1

-- build_fs, given the address that sys_malloc gives for the buffer, which the calls of memset assert,
-- and the bytes from it on
unfoldable pub build_fs : (address : ℕ) (stale buf : ℕ → ℕ) → (start count : ℕ) → Run (List Request)
build_fs address stale buf start count = do
  assert (not (address == 0))
  send (fs_writes stale buf start count)

-- The fields of struct __partition that mount_part sets
pub record Mounted : Type 0 where
  pub sb : SuperBlock
  pub block_bm : Bitmap
  pub inode_bm : Bitmap
  pub open_inodes : List ℕ

-- The bytes that ide_read fetches from a sector on
abbrev pub from_sector : (disk : ℕ → ℕ → ℕ) → ℕ → ℕ → ℕ
from_sector disk lba i = disk (lba + i / sector_size) (i % sector_size)

-- What mount_part sets, for the superblock that it has read
abbrev pub mounted : (disk : ℕ → ℕ → ℕ) → SuperBlock → Mounted
mounted disk sb = record {
  sb = sb;
  block_bm = record {
    length = u32 (sb.fb_bmap_size * sector_size);
    bits = from_sector disk sb.fb_bmap_addr;
  };
  inode_bm = record {
    length = u32 (sb.in_bmap_size * sector_size);
    bits = from_sector disk sb.in_bmap_addr;
  };
  open_inodes = [];
}

-- mount_part behind its first ide_read; memset asserts that the address for the superblock is not NULL
abbrev pub mount_from : (alloc : ℕ → ℕ) → (disk : ℕ → ℕ → ℕ) → SuperBlock → Run Mounted
mount_from alloc disk sb = do
  assert (not (alloc 1 == 0))
  assert (not (alloc 2 == 0))
  assert (can_read sb.fb_bmap_addr sb.fb_bmap_size)
  assert (not (alloc 3 == 0))
  assert (can_read sb.in_bmap_addr sb.in_bmap_size)
  ok (mounted disk sb)

-- mount_part; `alloc` are the addresses that its calls of sys_malloc give
unfoldable pub mount_part : (alloc : ℕ → ℕ) → (disk : ℕ → ℕ → ℕ) → (start : ℕ) → Run Mounted
mount_part alloc disk start = do
  assert (not (alloc 0 == 0))
  assert (can_read (u32 (start + 1)) 1)
  mount_from alloc disk (super_of (from_sector disk (u32 (start + 1))))
