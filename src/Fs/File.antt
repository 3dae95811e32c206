-- ===== src/Fs/File.antt =====
-- fs/file.c: the table of open files, the descriptors of a process, and the allocation of inodes
-- and blocks.
use xbay_os.Fs.{bits_per_sector}
use xbay_os.Bitmap.Scan.{limit, scan-FirstFree}
use xbay_os.Bitmap.Bits.{IsBytes, IsFlip, bit_at, out_of_range-panic, set-IsFlip}
use xbay_os.Bitmap.{Bitmap, scan, set}
use xbay_os.Base.{
  Bool-cases, Option, Run, arith, false, if◌then◌else◌, inl, inr, none, ok, panic, refl, some,
  sub32, suc, true, u32, update, zero, ℕ, ◌*◌, ◌+◌, ◌-◌, ◌/◌, ◌<◌, ◌==◌, ◌>>=◌, ◌^◌, ◌≡◌, ◌≤◌, ◌⊎◌,
}

-- The loop of file_table_alloc from index i on; `left` entries are left. A file is free if its
-- fd_inode is NULL.
abbrev pub alloc_loop : (left : ℕ) → (fd_inode : ℕ → ℕ) → ℕ → Option ℕ
alloc_loop zero fd_inode i = none
alloc_loop (suc left) fd_inode i =
    let next = alloc_loop left fd_inode (i + 1) in if fd_inode i == 0 then some i else next

-- file_table_alloc, with OPEN_FILE_MAX 32 and USER_FILE_TABLE_START 3
unfoldable pub file_table_alloc : (ℕ → ℕ) → Option ℕ
file_table_alloc fd_inode = alloc_loop (32 - 3) fd_inode 3

-- The loop of fd_install; -1 is a free entry, given as none
abbrev pub install_loop : (left : ℕ) → ℕ → (ℕ → Option ℕ) → ℕ → Option (ℕ × (ℕ → Option ℕ))
install_loop zero ft_idx fd_table i = none
install_loop (suc left) ft_idx fd_table i =
    let next = install_loop left ft_idx fd_table (i + 1) in
    elim (fd_table i) [ none ↦ some (i, update fd_table i (some ft_idx)) | some j ↦ next ]

-- fd_install, with USER_FILE_TABLE_START 3; fd_max is what FD_MAX stands for
unfoldable pub fd_install : (fd_max : ℕ) → ℕ → (ℕ → Option ℕ) → Option (ℕ × (ℕ → Option ℕ))
fd_install fd_max ft_idx fd_table = install_loop (fd_max - 3) ft_idx fd_table 3

abbrev pub take_inode : Bitmap → Option ℕ → Run (Option ℕ × Bitmap)
take_inode bm none = ok (none, bm)
take_inode bm (some idx) = set bm idx >>= λ bm'. ok (some idx, bm')

-- inode_bm_alloc
unfoldable pub inode_bm_alloc : Bitmap → Run (Option ℕ × Bitmap)
inode_bm_alloc bm = scan bm 1 >>= take_inode bm

-- block_bm_alloc: the test is of -1, so that the bit 2^32 - 1 is set when the bitmap is full, and
-- nothing is allocated when it is not
abbrev pub take_block : (start_lba : ℕ) → Bitmap → Option ℕ → Run (Option ℕ × Bitmap)
take_block start_lba bm none = set bm (2 ^ 32 - 1) >>= λ bm'. ok (some (sub32 start_lba 1), bm')
take_block start_lba bm (some idx) = ok (none, bm)

unfoldable pub block_bm_alloc : (start_lba : ℕ) → Bitmap → Run (Option ℕ × Bitmap)
block_bm_alloc start_lba bm = scan bm 1 >>= take_block start_lba bm

-- bitmap_sync: the sector that ide_write is given, and its bytes
unfoldable pub bitmap_sync : (bmap_addr : ℕ) → Bitmap → (idx : ℕ) → ℕ × (ℕ → ℕ)
bitmap_sync bmap_addr bm idx = (u32 (idx / bits_per_sector + bmap_addr), λ i. bm.bits (idx / 8 + i))

-- The first free entry from i on, or that the `left` entries are taken.
abbrev pub FirstOf : (ℕ → ℕ) → (i left : ℕ) → Option ℕ → Type 0
FirstOf f i left none = (j : ℕ) → i ≤ j → j < i + left → ¬ (f j ≡ 0)
FirstOf f i left (some r) =
    (i ≤ r) × (r < i + left) × (f r ≡ 0) × ((j : ℕ) → i ≤ j → j < r → ¬ (f j ≡ 0))

one_more :
    (f : ℕ → ℕ) (i left : ℕ) (o : Option ℕ)
    → ¬ (f i ≡ 0)
    → FirstOf f (i + 1) left o
    → FirstOf f i (suc left) o
one_more f i left none ne h = λ j l u. elim (Bool-cases (j == i)) [
  | inl e ↦ let e' : j ≡ i = ground arith in rw e' ne
  | inr e ↦ h j (ground arith) (omega arith)
]
one_more f i left (some r) ne h = (
  omega (arith, h.0),
  omega (arith, h.1),
  h.2,
  λ j l u. elim (Bool-cases (j == i)) [
    | inl e ↦ let e' : j ≡ i = ground arith in rw e' ne
    | inr e ↦ h.3 j (ground arith) u
  ],
)

alloc_loop-FirstOf : (left : ℕ) (f : ℕ → ℕ) (i : ℕ) → FirstOf f i left (alloc_loop left f i)
alloc_loop-FirstOf zero f i = λ j l u. absurd (omega arith)
alloc_loop-FirstOf (suc left) f i = elim (Bool-cases (f i == 0)) [
  | inl e ↦ rw e (omega arith, omega arith, ground arith, λ j l u. absurd (omega arith))
  | inr e ↦ rw e (one_more f i left _ (ground arith) (alloc_loop-FirstOf left f (i + 1)))
]

-- file_table_alloc returns the first free index of 3 to 31, or -1 if none of them is free.
pub file_table_alloc-FirstOf : (f : ℕ → ℕ) → FirstOf f 3 29 (file_table_alloc f)
unfolding file_table_alloc
file_table_alloc-FirstOf f = alloc_loop-FirstOf 29 f 3

-- inode_bm_alloc takes the first clear bit of the bitmap and sets only that; if all are set it
-- returns -1 and the bitmap stays.
pub inode_bm_alloc-first :
    (bm : Bitmap)
    → IsBytes bm
    → bm.length < limit
    → ((inode_bm_alloc bm ≡ ok (none, bm)) × ((q : ℕ) → q < bm.length * 8 → bit_at bm q ≡ true))
      ⊎ ((p : ℕ) × (bm' : Bitmap) × (inode_bm_alloc bm ≡ ok (some p, bm'))
          × (bit_at bm p ≡ false)
          × ((q : ℕ) → q < p → bit_at bm q ≡ true)
          × IsFlip bm p true bm')
unfolding inode_bm_alloc
inode_bm_alloc-first bm bytes small = elim (scan-FirstFree bm bytes small) [
  | inl (e, all) ↦ inl (rw e refl, all)
  | inr (p, e, within, free, before) ↦
      let (bm', run, flip) = set-IsFlip bm p bytes within in
      inr (p, bm', rw (e, run) refl, free, before, flip)
]

-- block_bm_alloc never allocates a block, on a bitmap of less than 2^28 bytes: it returns -1 when a
-- block is free, with the bitmap as it was, and fails an assertion when none is.
pub block_bm_alloc-never :
    (start_lba : ℕ) (bm : Bitmap)
    → IsBytes bm
    → bm.length < limit
    → ((block_bm_alloc start_lba bm ≡ ok (none, bm)) × ((p : ℕ) × (bit_at bm p ≡ false)))
      ⊎ ((block_bm_alloc start_lba bm ≡ panic) × ((q : ℕ) → q < bm.length * 8 → bit_at bm q ≡ true))
unfolding block_bm_alloc
block_bm_alloc-never start_lba bm bytes small = elim (scan-FirstFree bm bytes small) [
  | inl (e, all) ↦
      let out = (out_of_range-panic bm (2 ^ 32 - 1) (omega arith)).1 in inr (rw (e, out) refl, all)
  | inr (p, e, within, free, before) ↦ inl (rw e refl, (p, free))
]
