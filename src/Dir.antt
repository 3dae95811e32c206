-- ===== src/Dir.antt =====
-- fs/dir.c: looking a name up in a directory. Memory is flat, as in Strings; a sector of the disk is
-- its bytes. The blocks of addresses and the buffer, which sys_malloc gives, are an array and an
-- address. Dir/Entry adds entries.
pub mod Lookup
pub mod Exist
pub mod Entry
pub mod Opening
mod Tests
use xbay_os.Disk.{max_lba}
use xbay_os.Fs.{dir_entry_bytes}
use xbay_os.Base.Little.{store32, word_at}
use xbay_os.Strings.{memcpy, memset, strcmp, strlen, Mem, null}
use xbay_os.Base.{
  Bool, Run, assert, false, if◌then◌else◌, leb, ltb, not, ok, suc, true, u8, update, zero, ℕ, ◌%◌,
  ◌&&◌, ◌*◌, ◌+◌, ◌-◌, ◌/◌, ◌==◌, ◌>>=◌, ◌>>◌, ◌^◌,
}

-- set_entry; name_len is a uint8_t
unfoldable pub set_entry : (fuel name inode_no type e : ℕ) → Mem → Run Mem
set_entry fuel name inode_no type e m = do
  len ← strlen fuel name m
  assert (leb (u8 len) 64)
  m' ← memcpy (e + 4) name (u8 len) m
  ok (store32 (e + 68) type (store32 e inode_no m'))

-- The array that read_blocks gives: the direct blocks and those of the indirect block, whose sector is
-- `disk (isec 12)`; the array that sys_malloc gives is clear
abbrev pub all_blocks : (isec : ℕ → ℕ) → (disk : ℕ → ℕ → ℕ) → ℕ → ℕ
all_blocks isec disk i =
    if ltb i 12 then isec i else if isec 12 == 0 then 0 else word_at (disk (isec 12)) (i - 12)

-- read_blocks, with the assertion of ide_read on the indirect block; sector 0 is allowed, and is not
-- read
abbrev pub read_blocks : (isec : ℕ → ℕ) → (disk : ℕ → ℕ → ℕ) → Run (ℕ → ℕ)
read_blocks isec disk = assert (leb (isec 12) max_lba) >>= λ _. ok (all_blocks isec disk)

-- The loop of find_entry; true if an entry is found, which e then holds
unfoldable pub find_loop : (left fuel entry name e : ℕ) → Mem → Run (Bool × Mem)
find_loop zero fuel entry name e m = ok (false, m)
find_loop (suc left) fuel entry name e m =
    let next = find_loop left fuel (entry + dir_entry_bytes) name e m in
    strcmp fuel name (entry + 4) m >>= λ r.
    if r == 0 then (memcpy e entry dir_entry_bytes m >>= λ m'. ok (true, m')) else next

-- find_entry
unfoldable pub find_entry : (fuel table name e : ℕ) → Mem → Run (Bool × Mem)
find_entry fuel table name e m = find_loop (512 / dir_entry_bytes) fuel table name e m

-- ide_read of one sector to the buffer; search_loop has its assertion
abbrev pub load : (sector : ℕ → ℕ) → (buf : ℕ) → Mem → Mem
load sector buf m a = if leb buf a && ltb a (buf + 512) then sector (a - buf) else m a

-- What the loop of dir_exist does behind find_entry.
abbrev pub search_next : (buf : ℕ) → (Mem → Run Mem) → Bool × Mem → Run Mem
search_next buf next (true, m) = ok m
search_next buf next (false, m) = memset buf 0 512 m >>= next

-- The loop of dir_exist, from block i on
unfoldable pub search_loop :
    (left fuel i : ℕ) → (all_blks : ℕ → ℕ) → (disk : ℕ → ℕ → ℕ) → (buf name e : ℕ) → Mem → Run Mem
search_loop zero fuel i all_blks disk buf name e m = ok m
search_loop (suc left) fuel i all_blks disk buf name e m =
    let next = search_loop left fuel (i + 1) all_blks disk buf name e m in
    let searched = assert (leb (all_blks i) max_lba) >>= λ _.
    find_entry fuel buf name e (load (disk (all_blks i)) buf m) >>= λ r.
    search_next buf (λ m'. search_loop left fuel (i + 1) all_blks disk buf name e m') r in
    if all_blks i == 0 then next else searched

-- dir_exist, with the address of the buffer
unfoldable pub dir_exist :
    (fuel : ℕ) → (isec : ℕ → ℕ) → (disk : ℕ → ℕ → ℕ) → (buf name e : ℕ) → Mem → Run (Bool × Mem)
dir_exist fuel isec disk buf name e m = read_blocks isec disk >>= λ all_blks.
    search_loop (12 + 512 / 4) fuel 0 all_blks disk buf name e m >>= λ m'. ok (not (e == null), m')
