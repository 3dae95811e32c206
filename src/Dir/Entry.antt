-- ===== src/Dir/Entry.antt =====
-- add_entry of fs/dir.c, which writes an entry into a directory. Reads are from the disk before the
-- call: a call that has written to a block of the directory returns.
use xbay_os.Fs.{dir_entry_bytes}
use xbay_os.Base.Little.{word_bytes}
use xbay_os.Base.Little.{word_at}
use xbay_os.Bitmap.Scan.{limit}
use xbay_os.Bitmap.Bits.{IsBytes}
use xbay_os.Fs.File.{bitmap_sync, block_bm_alloc, block_bm_alloc-never}
use xbay_os.Bitmap.{Bitmap}
use xbay_os.Base.{
  List, Option, Run, [], assert, none, not, ok, panic, some, sub32, ℕ, ◌++◌, ◌-◌, ◌==◌, ◌>>=◌, ◌>>◌,
  ◌^◌, ◌∷◌, Bool, false, if◌then◌else◌, inl, inr, leb, ltb, refl, suc, true, u32, update, zero,
  ◌&&◌, ◌*◌, ◌+◌, ◌/◌, ◌<◌, ◌≡◌,
}

-- What add_entry changes: the free-block bitmap, the i_sectors and the i_size of the directory's
-- inode, and what it asks ide_write for: the sector and the bytes, one sector each.
pub record Adding : Type 0 where
  pub block_bm : Bitmap
  pub isec : ℕ → ℕ
  pub i_size : ℕ
  pub writes : List (ℕ × (ℕ → ℕ))

-- The fields of the superblock that add_entry reads
pub record Place : Type 0 where
  pub start_lba : ℕ
  pub data_start : ℕ
  pub fb_bmap_addr : ℕ

abbrev pub write_to : (lba : ℕ) → (ℕ → ℕ) → Adding → Adding
write_to lba bytes s = record s { writes = s.writes ++ (lba, bytes) ∷ [] }

-- -1 where the code tests for it
abbrev pub present : Option ℕ → Run ℕ
present none = panic
present (some lba) = ok lba

-- block_bm_alloc, the index from a sector on, and bitmap_sync of it
abbrev pub alloc_synced : Place → (from : ℕ) → Adding → Run (ℕ × Adding)
alloc_synced pl from s = do
  (r, bm) ← block_bm_alloc pl.start_lba s.block_bm
  lba ← present r
  assert (not (sub32 lba from == 2 ^ 32 - 1))
  let (sector, bytes) = bitmap_sync pl.fb_bmap_addr bm (sub32 lba from)
  ok (lba, write_to sector bytes (record s { block_bm = bm }))

-- The bytes of a sector with those of an entry at an offset
abbrev pub with_entry_at : (at : ℕ) → (entry buf : ℕ → ℕ) → ℕ → ℕ
with_entry_at at entry buf o =
    if leb at o && ltb o (at + dir_entry_bytes) then entry (o - at) else buf o

abbrev pub grown : Adding → Adding
grown s = record s { i_size = u32 (s.i_size + dir_entry_bytes) }

-- The block of add_entry for an entry of all_blks that is 0: the number of the new block, all_blks
-- and the changes, up to the write of the entry
abbrev pub take_direct : Place → (i : ℕ) → (ℕ → ℕ) → Adding → Run ((ℕ → ℕ) × Adding)
take_direct pl i blks s = do
  (lba, s1) ← alloc_synced pl pl.start_lba s
  ok (update blks i lba, record s1 { isec = update s1.isec i lba })

-- The end of the indirect case: the number goes to entry 12, whatever i is.
abbrev pub put_indirect : (lba : ℕ) → (ℕ → ℕ) → Adding → (ℕ → ℕ) × Adding
put_indirect lba blks s =
    let blks' = update blks 12 lba in
    (blks', write_to (s.isec 12) (word_bytes (λ w. blks' (12 + w))) s)

abbrev pub take_indirect : Place → (i : ℕ) → (ℕ → ℕ) → Adding → Run ((ℕ → ℕ) × Adding)
take_indirect pl i blks s = do
  (lba, s1) ← alloc_synced pl pl.start_lba s
  let first = do
    (lba2, s2) ← alloc_synced pl pl.data_start (record s1 { isec = update s1.isec 12 lba })
    ok (put_indirect lba2 blks s2)
  if i == 12 then first else ok (put_indirect lba blks s1)

abbrev pub fill_free : Place → (i : ℕ) → (blks entry : ℕ → ℕ) → Adding → Run (Bool × Adding)
fill_free pl i blks entry s = do
  (blks', s') ← if ltb i 12 then take_direct pl i blks s else take_indirect pl i blks s
  ok (true, grown (write_to (blks' i) (with_entry_at 0 entry (λ o. 0)) s'))

-- The loop over the entries of a block: the first whose type is ET_UNKOWN
abbrev pub slot_loop : (left j : ℕ) → (ℕ → ℕ) → Option ℕ
slot_loop zero j buf = none
slot_loop (suc left) j buf =
    let next = slot_loop left (j + 1) buf in
    if word_at (λ o. buf (j * dir_entry_bytes + 68 + o)) 0 == 0 then some j else next

abbrev pub fill_used :
    (lba : ℕ) → (buf entry : ℕ → ℕ) → Option ℕ → Run (Bool × Adding) → Adding → Run (Bool × Adding)
fill_used lba buf entry none next s = next
fill_used lba buf entry (some j) next s =
    ok (true, grown (write_to lba (with_entry_at (j * dir_entry_bytes) entry buf) s))

-- The loop of add_entry, from block i on
unfoldable pub add_loop :
    (left i : ℕ) → Place → (disk : ℕ → ℕ → ℕ) → (blks entry : ℕ → ℕ) → Adding → Run (Bool × Adding)
add_loop zero i pl disk blks entry s = ok (false, s)
add_loop (suc left) i pl disk blks entry s =
    let next = add_loop left (i + 1) pl disk blks entry s in
    let buf = disk (blks i) in
    if blks i == 0
    then fill_free pl i blks entry s
    else fill_used (blks i) buf entry (slot_loop (512 / dir_entry_bytes) 0 buf) next s

-- add_entry; all_blks is the array that sys_malloc gives, whose bytes are clear
unfoldable pub add_entry :
    Place → (disk : ℕ → ℕ → ℕ) → (entry : ℕ → ℕ) → Adding → Run (Bool × Adding)
unfolding add_loop
add_entry pl disk entry s = add_loop (12 + 512 / 4) 0 pl disk (λ i. 0) entry s

-- add_entry never adds an entry: on every directory and every disk it fails an assertion, since its
-- array of blocks is empty and block_bm_alloc allocates none, on a bitmap of less than 2^28 bytes.
pub add_entry-panic :
    (pl : Place) (disk : ℕ → ℕ → ℕ) (entry : ℕ → ℕ) (s : Adding)
    → IsBytes s.block_bm
    → s.block_bm.length < limit
    → add_entry pl disk entry s ≡ panic
unfolding add_entry add_loop
add_entry-panic pl disk entry s bytes small =
    elim (block_bm_alloc-never pl.start_lba s.block_bm bytes small) [
      | inl (e, _) ↦ rw e refl
      | inr (e, _) ↦ rw e refl
    ]
