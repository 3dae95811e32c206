-- ===== src/Fs/Create.antt =====
-- create_file of fs/file.c, over the tables of Fs/File and add_entry.
use xbay_os.Bitmap.Scan.{limit}
use xbay_os.Bitmap.Bits.{IsBytes}
use xbay_os.Memory.Example.{words}
use xbay_os.Fs.Inode.{inode_sync}
use xbay_os.Fs.File.{bitmap_sync, fd_install, file_table_alloc, inode_bm_alloc}
use xbay_os.Fs.Build.{Request}
use xbay_os.Fs.{SuperBlock, dir_entry_bytes, sector_size}
use xbay_os.Dir.Entry.{Adding, add_entry, Place, add_entry-panic}
use xbay_os.Dir.{set_entry}
use xbay_os.Bitmap.{Bitmap}
use xbay_os.Base.Little.{word_bytes}
use xbay_os.Base.{
  List, Option, Run, [], assert, if◌then◌else◌, leb, none, not, ok, panic, some, update, ℕ, ◌%◌,
  ◌++◌, ◌+◌, ◌-◌, ◌/◌, ◌^◌, ◌==◌, ◌>>=◌, ◌>>◌, ◌∷◌, ◌<◌, ◌≡◌, hang,
}
use xbay_os.Strings.{Mem, memset}

-- What create_file changes: the inode bitmap, the directory it adds to, the columns of file_table,
-- the inodes that curr_part has open, the descriptors of the process, and what is written.
pub record Files : Type 0 where
  pub inode_bm : Bitmap
  pub parent : Adding
  pub fd_inode : ℕ → ℕ
  pub fd_offset : ℕ → ℕ
  pub fd_flag : ℕ → ℕ
  pub open_inodes : List ℕ
  pub fd_table : ℕ → Option ℕ
  pub requests : List Request

-- inode_init: the words of an inode_t; the list node is not set. clear_status of inode_sync zeroes the
-- words that are zero here.
abbrev pub inode_words : (i_no i_size : ℕ) → (i_sectors : ℕ → ℕ) → ℕ → ℕ
inode_words i_no i_size i_sectors w =
    if w == 2 then i_no else if w == 3 then i_size else if leb 6 w then i_sectors (w - 6) else 0

-- The value of file_table_alloc as it stands in fidx; -1 is 2^32 - 1 here
abbrev pub index_of : Option ℕ → ℕ
index_of none = 2 ^ 32 - 1
index_of (some fidx) = fidx

-- An entry of file_table. The index is not tested: with -1, whose columns stand for the bytes in
-- front of the table, create_file goes on.
abbrev pub set_file : (fidx inode flag : ℕ) → Files → Files
set_file fidx inode flag s = record s {
  fd_inode = update s.fd_inode fidx inode;
  fd_offset = update s.fd_offset fidx 0;
  fd_flag = update s.fd_flag fidx flag;
}

-- inode_sync as a request
abbrev pub sync_inode :
    (disk : ℕ → ℕ → ℕ) → (in_array_addr num : ℕ) → (words : ℕ → ℕ) → Files → Run Files
sync_inode disk in_array_addr num words s =
    inode_sync (λ b. disk (b / sector_size) (b % sector_size)) (word_bytes words) in_array_addr num
    >>= λ (lba, sectors, bytes). ok (record s {
      requests = s.requests ++ record { lba = lba; sectors = sectors; bytes = bytes } ∷ [];
    })

-- The value of fd_install, -1 as none
abbrev pub install : (fd_max fidx : ℕ) → Files → Option ℕ × Files
install fd_max fidx s = elim (fd_install fd_max fidx s.fd_table) [
  | none ↦ (none, s)
  | some (fd, table) ↦ (some fd, record s { fd_table = table })
]

-- The end of create_file, behind add_entry
abbrev pub finish :
    SuperBlock
    → (disk : ℕ → ℕ → ℕ) → (parent_no inode_no new_inode fd_max fidx : ℕ) → Files
    → Run (Option ℕ × Files)
finish sb disk parent_no inode_no new_inode fd_max fidx s = do
  s1 ←
      sync_inode disk sb.in_array_addr parent_no
        (inode_words parent_no s.parent.i_size s.parent.isec) s
  s2 ← sync_inode disk sb.in_array_addr inode_no (inode_words inode_no 0 (λ i. 0)) s1
  let (lba, bytes) = bitmap_sync sb.in_bmap_addr s2.inode_bm inode_no
  ok (
      install fd_max fidx (record s2 {
        requests = s2.requests ++ record { lba = lba; sectors = 1; bytes = bytes } ∷ [];
        open_inodes = s2.open_inodes ++ new_inode ∷ [];
      }))

-- The middle of create_file, once the file is registered
abbrev pub add_file :
    SuperBlock
    → (disk : ℕ → ℕ → ℕ) → (make_entry : ℕ → Run (ℕ → ℕ))
    → (parent_no fd_max inode_no new_inode : ℕ) → ℕ × Files
    → Run (Option ℕ × Files)
add_file sb disk make_entry parent_no fd_max inode_no new_inode (fidx, s) = do
  entry ← make_entry inode_no
  let place : Place = record {
    start_lba = sb.start_lba;
    data_start = sb.data_start;
    fb_bmap_addr = sb.fb_bmap_addr;
  }
  (added, parent) ← add_entry place disk entry s.parent
  assert added
  finish sb disk parent_no inode_no new_inode fd_max fidx (record s { parent = parent })

-- create_file from the number on that inode_bm_alloc gives
abbrev pub with_inode :
    SuperBlock
    → (disk : ℕ → ℕ → ℕ) → (alloc : ℕ → ℕ) → (make_entry : ℕ → Run (ℕ → ℕ))
    → (parent_no fd_max flag : ℕ) → Option ℕ
    → Files
    → Run (Option ℕ × Files)
with_inode sb disk alloc make_entry parent_no fd_max flag none s = panic
with_inode sb disk alloc make_entry parent_no fd_max flag (some inode_no) s = do
  assert (not (alloc 1 == 0))
  let fidx = index_of (file_table_alloc s.fd_inode)
  add_file sb disk make_entry parent_no fd_max inode_no (alloc 1)
      (fidx, set_file fidx (alloc 1) flag s)

-- The bytes of the entry that set_entry fills on the stack, at e; ET_FILE is 1
abbrev pub file_entry : (fuel filename e : ℕ) → Mem → (inode_no : ℕ) → Run (ℕ → ℕ)
file_entry fuel filename e m inode_no = memset e 0 dir_entry_bytes m >>= λ m1.
    set_entry fuel filename inode_no 1 e m1 >>= λ m2. ok (λ o. m2 (e + o))

-- create_file; `alloc` are the addresses that sys_malloc gives, and parent_no the number of the
-- directory's inode
unfoldable pub create_file :
    SuperBlock
    → (disk : ℕ → ℕ → ℕ) → (alloc : ℕ → ℕ) → (fuel filename e : ℕ) → Mem
    → (parent_no fd_max flag : ℕ) → Files
    → Run (Option ℕ × Files)
create_file sb disk alloc fuel filename e m parent_no fd_max flag s = do
  assert (not (alloc 0 == 0))
  (inode_no, bm) ← inode_bm_alloc s.inode_bm
  with_inode sb disk alloc (file_entry fuel filename e m) parent_no fd_max flag inode_no
      (record s { inode_bm = bm })

-- No run ends with a value.
abbrev Fails {ℓ} : {A : Type ℓ} → Run A → Type ℓ
Fails {A = A} run = (a : A) → ¬ (run ≡ ok a)

Fails-behind {ℓ κ} :
    {A : Type ℓ} {B : Type κ} (run : Run A) (f : A → Run B)
    → ((a : A) → Fails (f a))
    → Fails (run >>= f)
Fails-behind (ok a) f h b e = h a b e
Fails-behind panic f h b e = cc
Fails-behind hang f h b e = cc

add_file-Fails :
    (sb : SuperBlock) (disk : ℕ → ℕ → ℕ) (make_entry : ℕ → Run (ℕ → ℕ))
    (parent_no fd_max inode_no new_inode fidx : ℕ) (s : Files)
    → IsBytes s.parent.block_bm
    → s.parent.block_bm.length < limit
    → Fails (add_file sb disk make_entry parent_no fd_max inode_no new_inode (fidx, s))
add_file-Fails sb disk make_entry parent_no fd_max inode_no new_inode fidx s bytes small =
    Fails-behind (make_entry inode_no) _ (λ entry r h.
      let place : Place = record {
        start_lba = sb.start_lba;
        data_start = sb.data_start;
        fb_bmap_addr = sb.fb_bmap_addr;
      } in
      let stop = add_entry-panic place disk entry s.parent bytes small in
      let h' = rw stop at h in cc)

with_inode-Fails :
    (sb : SuperBlock) (disk : ℕ → ℕ → ℕ) (alloc : ℕ → ℕ) (make_entry : ℕ → Run (ℕ → ℕ))
    (parent_no fd_max flag : ℕ) (o : Option ℕ) (s : Files)
    → IsBytes s.parent.block_bm
    → s.parent.block_bm.length < limit
    → Fails (with_inode sb disk alloc make_entry parent_no fd_max flag o s)
with_inode-Fails sb disk alloc make parent_no fd_max flag none s bytes small = λ r h. cc
with_inode-Fails sb disk alloc make parent_no fd_max flag (some inode_no) s bytes small =
    Fails-behind (assert (not (alloc 1 == 0))) _ (λ _.
      let fidx = index_of (file_table_alloc s.fd_inode) in
      add_file-Fails sb disk make parent_no fd_max inode_no (alloc 1) fidx
        (set_file fidx (alloc 1) flag s) bytes small)

-- create_file never returns, on an inode bitmap and a free-block bitmap of bytes, the latter of less
-- than 2^28 bytes: whatever is asked for, it ends in a failed assertion or does not end.
pub create_file-never :
    (sb : SuperBlock) (disk : ℕ → ℕ → ℕ) (alloc : ℕ → ℕ) (fuel filename e : ℕ) (m : Mem)
    (parent_no fd_max flag : ℕ) (s : Files) (r : Option ℕ × Files)
    → IsBytes s.parent.block_bm
    → s.parent.block_bm.length < limit
    → ¬ (create_file sb disk alloc fuel filename e m parent_no fd_max flag s ≡ ok r)
unfolding create_file
create_file-never sb disk alloc fuel filename e m parent_no fd_max flag s r bytes small =
    Fails-behind (assert (not (alloc 0 == 0))) _
      (λ _. Fails-behind (inode_bm_alloc s.inode_bm) _ (λ (o, bm).
        with_inode-Fails sb disk alloc (file_entry fuel filename e m) parent_no fd_max flag o
          (record s { inode_bm = bm }) bytes small))
      r
