-- ===== src/Fs/Runs.antt =====
-- Concrete disks: a file system on a partition of 2000 sectors from sector 63 on.
use xbay_os.Fs.Path.{path_depth}
use xbay_os.Fs.Open.{Entry, et_directory, sys_open}
use xbay_os.Fs.Never.{sys_open-path_depth}
use xbay_os.Fs.Create.{Files, create_file, create_file-never}
use xbay_os.Fs.Kept.{fs_init-kept, super_at}
use xbay_os.Fs.Init.{FsState, Given, fs_init}
use xbay_os.Disk.Partition.{Parts}
use xbay_os.Fs.Build.{mounted}
use xbay_os.Fs.{init_super_block}
use xbay_os.Base.{
  ◌≢◌, ◌⊎◌, ◌+◌, refl, arith, if◌then◌else◌, none, ok, some, ℕ, ◌<◌, ◌==◌, ◌≡◌, [], true, ◌∷◌,
  ◌>>=◌,
}

-- Each sector starts with the magic number.
abbrev magic_disk : ℕ → ℕ → ℕ
magic_disk l o =
    if o == 0
    then 0xbe
    else if o == 1
    then 0xbe
    else if o == 2
    then 0xfe
    else if o == 3
    then 0xca
    else 0

-- The names of the partitions start with 's' and, from the second on, with a zero byte.
abbrev names : ℕ → ℕ
names a = if a == 100 then b's' else if a == 90 then b's' else 0

abbrev parts : Parts
parts = record {
  ext_lba_base = 0;
  master_no = 1;
  logical_no = 0;
  prim_parts = λ i. record { start = 63; count = 2000; number = 1 };
  logic_parts = λ i. record { start = 0; count = 0; number = 5 };
}

abbrev found : FsState
found = record { disk = magic_disk; curr = none }

abbrev given : ℕ → Given
given k = record { alloc = λ i. 4096; address = 8192; stale = λ o. 0; buf = λ o. 0 }

fs_init-kept_example :
    (s' : FsState) × (fs_init given 9 names (λ i. 100 + i) 90 8192 parts found ≡ ok s')
    × (s'.disk ≡ magic_disk)
    × (((j : ℕ) × (j < 4)
          × (0 < 2000)
          × (names (100 + j) ≡ names 90)
          × (s'.curr ≡ some (mounted magic_disk (super_at magic_disk (parts.prim_parts j)))))
        ⊎ ((s'.curr ≡ none) × ((j : ℕ) → j < 4 → 0 < 2000 → names (100 + j) ≢ names 90)))
fs_init-kept_example =
    fs_init-kept given 8 names (λ i. 100 + i) 90 8192 parts found (λ a. ground arith)
      (λ k a. omega arith) (λ i. (omega arith, λ e. omega (arith, e))) (omega arith) (omega arith)
      (λ i lt used. (omega arith, refl)) (λ i lt used. absurd (omega arith))
      (λ i like. (refl, refl))

abbrev files : Files
files = record {
  inode_bm = record { length = 4; bits = λ i. 0 };
  parent = record {
    block_bm = record { length = 4; bits = λ i. 0 };
    isec = λ i. 0;
    i_size = 144;
    writes = [];
  };
  fd_inode = λ i. 0;
  fd_offset = λ i. 0;
  fd_flag = λ i. 0;
  open_inodes = [];
  fd_table = λ i. none;
  requests = [];
}

create_file-never_example : ¬ (
    create_file (init_super_block 63 2000) magic_disk (λ i. 4096) 9 100 2000 names 0 32 4 files
    ≡ ok (some 3, files))
create_file-never_example =
    create_file-never (init_super_block 63 2000) magic_disk (λ i. 4096) 9 100 2000 names 0 32 4
      files (some 3, files) (λ i. omega arith) (omega arith)

abbrev seen : Entry
seen = record { inode_no = 1; type = et_directory }

sys_open-path_depth_example :
    sys_open
      (λ dir name e. (true, e))
      (λ dir name flag. ok (some 3))
      9
      seen
      (λ i. [])
      (0x2f ∷ b'a' ∷ [])
      4
    ≡ (path_depth 9 [] (0x2f ∷ b'a' ∷ []) >>= λ depth. ok none)
sys_open-path_depth_example =
    sys_open-path_depth (λ dir name e. (true, e)) (λ dir name flag. ok (some 3)) 9 seen (λ i. [])
      (0x2f ∷ b'a' ∷ []) 4 (omega arith)
