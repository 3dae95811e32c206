-- ===== src/Fs/Init.antt =====
-- fs_init of fs/fs.c: it builds a file system on each partition that has none and mounts the default
-- one. The partitions of the disk are those of the scan; `name` gives the address of the name of a
-- primary partition, by its index.
use xbay_os.Strings.Compare.{order}
use xbay_os.Strings.{strcmp, Mem}
use xbay_os.Fs.Build.{Mounted, build_fs, mount_part, perform_all}
use xbay_os.Disk.{max_lba}
use xbay_os.Disk.Partition.{Part, Parts}
use xbay_os.Base.Little.{word_at}
use xbay_os.Base.{
  leb, not, Bool, Option, Run, assert, if◌then◌else◌, ok, some, suc, u32, zero, ℕ, ◌+◌, ◌==◌, ◌>>=◌,
  ◌>>◌,
}

-- The disk, and the file system that curr_part stands for; none before mount_part
pub record FsState : Type 0 where
  pub disk : ℕ → ℕ → ℕ
  pub curr : Option Mounted

-- What sys_malloc gives in the calls of a round: to mount_part, and to build_fs, with the bytes of the
-- local superblock's filling and of the buffer
pub record Given : Type 0 where
  pub alloc : ℕ → ℕ
  pub address : ℕ
  pub stale : ℕ → ℕ
  pub buf : ℕ → ℕ

abbrev pub has_magic : (ℕ → ℕ) → Bool
has_magic sector = word_at sector 0 == 0xcafe_bebe

-- The part of a round of either loop that looks for a file system, behind the assertion of its ide_read
abbrev pub ensure_fs : Given → Part → (ℕ → ℕ → ℕ) → Run (ℕ → ℕ → ℕ)
ensure_fs g part disk =
    let build =
      build_fs g.address g.stale g.buf part.start part.count >>= λ rs. ok (perform_all rs disk) in
    assert (leb (u32 (part.start + 1)) max_lba) >>= λ _.
    if has_magic (disk (u32 (part.start + 1))) then ok disk else build

-- The end of a round of the first loop: strcmp of the name and the default one
abbrev pub mount_default : Given → Part → (order : ℕ) → (ℕ → ℕ → ℕ) → FsState → Run FsState
mount_default g part order disk s =
    let mount =
      mount_part g.alloc disk part.start >>= λ m. ok (record { disk = disk; curr = some m }) in
    if order == 0 then mount else ok (record s { disk = disk })

module _ (given : ℕ → Given) (fuel : ℕ) (m : Mem) (name : ℕ → ℕ) (default_part_name : ℕ) where
  -- The loop over the primary partitions, from index i on
  unfoldable pub prim_loop : (left i : ℕ) → (ℕ → Part) → FsState → Run FsState
  prim_loop zero i parts s = ok s
  prim_loop (suc left) i parts s =
      let skip = prim_loop left (i + 1) parts s in
      let round = ensure_fs (given i) (parts i) s.disk >>= λ disk.
      strcmp fuel (name i) default_part_name m >>= λ order.
      mount_default (given i) (parts i) order disk s >>= λ s'. prim_loop left (i + 1) parts s' in
      if (parts i).count == 0 then skip else round

  -- The loop over the logical partitions
  unfoldable pub logic_loop : (left i : ℕ) → (ℕ → Part) → (ℕ → ℕ → ℕ) → Run (ℕ → ℕ → ℕ)
  logic_loop zero i parts disk = ok disk
  logic_loop (suc left) i parts disk =
      let skip = logic_loop left (i + 1) parts disk in
      let round =
        ensure_fs (given (4 + i)) (parts i) disk >>= λ disk'. logic_loop left (i + 1) parts disk' in
      if (parts i).count == 0 then skip else round

  -- fs_init, up to the call of open_root. `sb` is the address that sys_malloc gives for the superblock;
  -- memset asserts that it is not NULL in a round, and sys_free at the end. PRIM_PARTS_CNT is 4 and
  -- LOGIC_PARTS_CNT 8.
  unfoldable pub fs_init : (sb : ℕ) → Parts → FsState → Run FsState
  unfolding prim_loop logic_loop
  fs_init sb ps s = do
    assert (not (sb == 0))
    s1 ← prim_loop 4 0 ps.prim_parts s
    disk ← logic_loop 8 0 ps.logic_parts s1.disk
    ok (record s1 { disk = disk })
