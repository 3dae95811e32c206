-- ===== src/Dir/Tests.antt =====
-- A directory whose table has the names "b" and "a" in its first two entries; the name that is looked
-- up is "ax".
use xbay_os.Fs.{init_super_block}
use xbay_os.Dir.Opening.{Dirs, close_dir, open_dir, open_dir-close_dir}
use xbay_os.Dir.Lookup.{Found, find_entry-Found}
use xbay_os.Dir.Exist.{dir_exist-true}
use xbay_os.Dir.Entry.{Adding, add_entry, add_entry-panic}
use xbay_os.Dir.{dir_exist, find_entry, Mem}
use xbay_os.Base.{
  [], arith, if◌then◌else◌, inl, ok, panic, true, ℕ, ◌<◌, ◌==◌, ◌≡◌, none, refl, ◌∷◌, ◌≢◌,
}

abbrev memory : Mem
memory a =
    if a == 1004
    then b'b'
    else if a == 1076
    then b'a'
    else if a == 100
    then b'a'
    else if a == 101
    then b'x'
    else 0

memory-bytes : (a : ℕ) → memory a < 256
memory-bytes a = ground arith

find_entry-Found_example : Found 7 1000 100 2000 memory (find_entry 9 1000 100 2000 memory)
find_entry-Found_example =
    find_entry-Found 8 1000 100 2000 memory memory-bytes (omega arith) (omega arith) (omega arith)
      (inl (omega arith))

-- The directory has no block, and the name is found.
dir_exist-true_example :
    (m' : Mem) × (dir_exist 9 (λ i. 0) (λ lba o. 0) 1000 100 2000 memory ≡ ok (true, m'))
dir_exist-true_example =
    dir_exist-true 8 (λ i. 0) (λ lba o. 0) 1000 100 2000 memory (λ lba o. omega arith) (omega arith)
      (λ j. ground arith) (omega arith) (omega arith) (omega arith) (inl (omega arith)) memory-bytes

abbrev adding : Adding
adding = record {
  block_bm = record { length = 4; bits = λ i. 0 };
  isec = λ i. 0;
  i_size = 144;
  writes = [];
}

add_entry-panic_example :
    add_entry
      (record { start_lba = 63; data_start = 286; fb_bmap_addr = 65 })
      (λ lba o. 0)
      (λ o. 1)
      adding
    ≡ panic
add_entry-panic_example =
    add_entry-panic (record { start_lba = 63; data_start = 286; fb_bmap_addr = 65 }) (λ lba o. 0)
      (λ o. 1) adding (λ i. omega arith) (omega arith)

abbrev table : Dirs
table = record {
  dirs = λ a. none;
  open_inodes = record { addr = 0x9000; i_no = 7; open_cnt = 2 } ∷ [];
}

open_dir-close_dir_example :
    (s' : Dirs) × (open_dir (λ n. n) 8 (init_super_block 63 2000) 64 96 192 7 table ≡ ok s')
    × (s'.dirs 64 ≢ none)
    × (t : Dirs) × (close_dir (λ n. n) 8 64 s' ≡ ok t)
    × (t.open_inodes ≡ table.open_inodes)
    × ((a : ℕ) → t.dirs a ≡ none)
    × (close_dir (λ n. n) 8 8 s' ≡ ok s')
unfolding init_super_block
open_dir-close_dir_example =
    open_dir-close_dir (λ n. n) 8 (init_super_block 63 2000) 64 96 192 7 table (omega arith)
      (omega arith) (omega arith) (omega arith) (omega arith) (refl, omega arith, omega arith, tt)
      refl (omega arith) (omega arith)
