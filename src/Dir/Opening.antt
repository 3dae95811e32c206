-- ===== src/Dir/Opening.antt =====
-- open_root, open_dir and close_dir of fs/dir.c, over the open inodes of Fs/Opened. The structures
-- that sys_malloc gives are a map from their addresses.
use xbay_os.Base.Update.{update-back, update-here}
use xbay_os.Heap.Invariant.{some-none}
use xbay_os.Base.{
  assert, not, ◌*◌, ◌+◌, ◌/◌, ◌≤◌, ==_refl, List, Option, Run, arith, false, if◌then◌else◌, none,
  ok, panic, some, u16, update, ℕ, ◌%◌, ◌<◌, ◌==◌, ◌>>=◌, ◌^◌, ◌≡◌, ◌≢◌, refl, sym, ◌∙◌,
}
use xbay_os.Fs.Opened.{Opened, IsTable, inode_close, inode_open, inode_open-inode_close}
use xbay_os.Disk.{max_lba}
use xbay_os.Fs.{SuperBlock, inode_bytes, max_files_per_part, sector_size}

-- struct __dir_t, without the buffer, which nothing uses: the address of the inode, and the offset
pub record Directory : Type 0 where
  pub inode : ℕ
  pub offset : ℕ

-- The directories in memory, by address, and the open inodes
pub record Dirs : Type 0 where
  pub dirs : ℕ → Option Directory
  pub open_inodes : List Opened

module _ (stored : ℕ → ℕ) (root : ℕ) where
  abbrev pub opened_at : (address : ℕ) → Dirs → ℕ × List Opened → Dirs
  opened_at address s (inode, es) = record {
    dirs = update s.dirs address (some (record { inode = inode; offset = 0 }));
    open_inodes = es;
  }

  -- open_root
  unfoldable pub open_root : SuperBlock → (fresh buf : ℕ) → Dirs → Run Dirs
  open_root sb fresh buf s =
      inode_open stored sb.in_array_addr fresh buf sb.root_inode_no s.open_inodes >>= λ r.
      ok (opened_at root s r)

  -- open_dir: `address` is what sys_malloc gives it, which is not tested, and `fresh` and `buf` what
  -- sys_kmalloc gives inode_open
  unfoldable pub open_dir : SuperBlock → (address fresh buf inode_no : ℕ) → Dirs → Run Dirs
  open_dir sb address fresh buf inode_no s =
      inode_open stored sb.in_array_addr fresh buf (u16 inode_no) s.open_inodes >>= λ r.
      ok (opened_at address s r)

  -- The end of close_dir, for a directory other than the root, with the assertion of sys_free. A pointer to no directory is a panic.
  abbrev pub close_other : (dir : ℕ) → Dirs → Option Directory → Run Dirs
  close_other dir s none = panic
  close_other dir s (some d) = assert (not (dir == 0)) >>= λ _.
      ok (record { dirs = update s.dirs dir none; open_inodes = inode_close d.inode s.open_inodes })

  -- close_dir
  unfoldable pub close_dir : (dir : ℕ) → Dirs → Run Dirs
  close_dir dir s =
      let other = close_other dir s (s.dirs dir) in if dir == root then ok s else other

  -- For an inode number below 4096 whose sector is within the driver's last one, and addresses from
  -- sys_kmalloc that are not NULL, the second with a sector's room below 2^32, and open inodes that
  -- differ in address and are open once to 2^32 - 2 times: open_dir
  -- succeeds at an address that is not NULL, holds no directory and is
  -- not the root's, and
  -- close_dir of what it opened gives the directories back as they were, and the open inodes with
  -- their counts; close_dir of the root directory does nothing.
  pub open_dir-close_dir :
      (sb : SuperBlock) (address fresh buf inode_no : ℕ) (s : Dirs)
      → inode_no < max_files_per_part
      → sb.in_array_addr + inode_no * inode_bytes / sector_size ≤ max_lba
      → 0 < fresh
      → 0 < buf
      → buf + sector_size ≤ 2 ^ 32
      → IsTable s.open_inodes
      → s.dirs address ≡ none
      → 0 < address
      → address ≢ root
      → (s' : Dirs) × (open_dir sb address fresh buf inode_no s ≡ ok s')
        × (s'.dirs address ≢ none)
        × (t : Dirs) × (close_dir address s' ≡ ok t)
        × (t.open_inodes ≡ s.open_inodes)
        × ((a : ℕ) → t.dirs a ≡ s.dirs a)
        × (close_dir root s' ≡ ok s')
  unfolding open_dir close_dir
  open_dir-close_dir sb address fresh buf inode_no s lt within got at top table free some_place
        other =
      let low : inode_no % 2 ^ 16 ≡ inode_no = omega (arith, lt) in
      let (inode, es, opened, closed) =
        inode_open-inode_close stored sb.in_array_addr fresh buf inode_no s.open_inodes lt within
          got at top table in
      let e : (address == root) ≡ false = ground (arith, other) in
      let nonzero : (address == 0) ≡ false = ground (arith, some_place) in
      let at_root = ==_refl root in
      let s' = opened_at address s (inode, es) in
      let d : Directory = record { inode = inode; offset = 0 } in
      let here = update-here s.dirs address (some d) in
      (
        s',
        rw (low, opened) refl,
        λ n. some-none _ (sym here ∙ n),
        record { dirs = update s'.dirs address none; open_inodes = inode_close inode es },
        rw (e, here, nonzero) refl,
        closed,
        update-back s.dirs address (some d) none free,
        rw at_root refl,
      )
