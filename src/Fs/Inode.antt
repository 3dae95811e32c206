-- ===== src/Fs/Inode.antt =====
-- get_position and inode_sync of fs/inode.c: the place of an inode on the disk.
use xbay_os.Fs.{inode_array_secs, inode_bytes, max_files_per_part, sector_size}
use xbay_os.Base.{
  Bool, Run, arith, assert, if◌then◌else◌, leb, ltb, ok, refl, true, u32, ℕ, ◌%◌, ◌&&◌, ◌*◌, ◌+◌,
  ◌-◌, ◌/◌, ◌<◌, ◌>>=◌, ◌>>◌, ◌^◌, ◌↔◌, ◌≡◌, ◌≤◌, ap, false, ◌∙◌,
}

-- inode_pos
pub record Position : Type 0 where
  pub cross_sector : Bool
  pub lba : ℕ
  pub offset : ℕ

-- What get_position stores, given in_array_addr of the partition's superblock
abbrev pub position : (in_array_addr num : ℕ) → Position
position in_array_addr num =
    let bytes = num * inode_bytes in
    let offset = bytes % sector_size in
    record {
      cross_sector = ltb sector_size (offset + inode_bytes);
      lba = u32 (in_array_addr + bytes / sector_size);
      offset = offset;
    }

-- get_position
unfoldable pub get_position : (in_array_addr num : ℕ) → Run Position
get_position in_array_addr num = do
  assert (ltb num max_files_per_part)
  ok (position in_array_addr num)

-- The number of sectors that inode_sync and inode_open move
abbrev pub sectors_at : Position → ℕ
sectors_at pos = if pos.cross_sector then 2 else 1

-- The bytes that inode_sync writes: those of the sectors, which ide_read fetches, and over them
-- those of the inode with its status cleared
abbrev pub synced : (disk inode : ℕ → ℕ) → Position → ℕ → ℕ
synced disk inode pos i =
    if leb pos.offset i && ltb i (pos.offset + inode_bytes)
    then inode (i - pos.offset)
    else disk (pos.lba * sector_size + i)

-- inode_sync: the first sector, the number of sectors, and the bytes that ide_write is given
unfoldable pub inode_sync : (disk inode : ℕ → ℕ) (in_array_addr num : ℕ) → Run (ℕ × ℕ × (ℕ → ℕ))
unfolding get_position
inode_sync disk inode in_array_addr num =
    get_position in_array_addr num >>= λ pos. ok (pos.lba, sectors_at pos, synced disk inode pos)

-- The byte of the disk at which an inode starts.
abbrev pub place : ℕ → ℕ → ℕ
place in_array_addr num = in_array_addr * sector_size + num * inode_bytes

-- For an inode number below 4096, and an array that starts below sector 2^31, the sectors that
-- get_position selects hold the whole inode, at its offset; they lie in the inode array of
-- init_super_block, of 76 sectors, exactly if the number is below 512.
get_position-place :
    (in_array_addr num : ℕ)
    → num < max_files_per_part
    → in_array_addr < 2 ^ 31
    → (pos : Position) × (get_position in_array_addr num ≡ ok pos)
      × (pos.lba * sector_size + pos.offset ≡ place in_array_addr num)
      × (pos.offset + inode_bytes ≤ sectors_at pos * sector_size)
      × ((pos.lba + sectors_at pos ≤ in_array_addr + inode_array_secs) ↔ (num < 512))
unfolding get_position
get_position-place in_array_addr num h b =
    let e : ltb num max_files_per_part ≡ true = ground arith in
    (position in_array_addr num, rw e refl, omega arith, ground arith, ground arith)

synced_in :
    (disk inode : ℕ → ℕ) (pos : Position) (a i : ℕ)
    → i < inode_bytes
    → a ≡ pos.offset + i
    → synced disk inode pos a ≡ inode i
synced_in disk inode pos a i lt e =
    let t : (leb pos.offset a && ltb a (pos.offset + inode_bytes)) ≡ true = ground arith in
    let u : a - pos.offset ≡ i = omega arith in rw (t, u) refl

synced_out :
    (disk inode : ℕ → ℕ) (pos : Position) (a : ℕ)
    → (leb pos.offset a && ltb a (pos.offset + inode_bytes)) ≡ false
    → synced disk inode pos a ≡ disk (pos.lba * sector_size + a)
synced_out disk inode pos a t = rw t refl

-- For an inode number below 4096, and an array that starts below sector 2^31, the sectors that
-- inode_sync writes hold the inode at its place, and every byte of another inode in them is as the
-- disk had it.
inode_sync-place :
    (disk inode : ℕ → ℕ) (in_array_addr num : ℕ)
    → num < max_files_per_part
    → in_array_addr < 2 ^ 31
    → (lba n : ℕ) × (bytes : ℕ → ℕ) × (inode_sync disk inode in_array_addr num ≡ ok (lba, n, bytes))
      × (lba * sector_size ≤ place in_array_addr num)
      × (place in_array_addr num + inode_bytes ≤ (lba + n) * sector_size)
      × ((i : ℕ)
          → i < inode_bytes
          → bytes (place in_array_addr num + i - lba * sector_size) ≡ inode i)
      × ((k : ℕ)
          → ¬ (k ≡ num)
          → (i : ℕ) → i < inode_bytes
          → lba * sector_size ≤ place in_array_addr k + i
          → bytes (place in_array_addr k + i - lba * sector_size)
            ≡ disk (place in_array_addr k + i))
unfolding inode_sync get_position
inode_sync-place disk inode in_array_addr num h b =
    let e : ltb num max_files_per_part ≡ true = ground arith in
    let pos = position in_array_addr num in
    (
      pos.lba,
      sectors_at pos,
      synced disk inode pos,
      rw e refl,
      ground arith,
      ground arith,
      (λ i lt. synced_in disk inode pos _ i lt (omega arith)),
      (λ k ne i lt from.
          synced_out disk inode pos _ (ground arith) ∙ ap disk (omega (arith, from))),
    )
