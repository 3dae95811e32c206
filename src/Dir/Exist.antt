-- ===== src/Dir/Exist.antt =====
-- dir_exist goes through the blocks of a directory and always answers true.
use xbay_os.Fs.{dir_entry_bytes}
use xbay_os.Strings.Block.{memset_lem}
use xbay_os.Strings.{memcpy_loop}
use xbay_os.Dir.Lookup.{find_entry-Found}
use xbay_os.Disk.{max_lba}
use xbay_os.Dir.{dir_exist, load, all_blocks, search_loop, Mem}
use xbay_os.Base.{
  leb, Bool-cases, Run, arith, false, inl, inr, ok, refl, suc, true, zero, ℕ, ◌*◌, ◌+◌, ◌-◌, ◌<◌,
  ◌==◌, ◌≡◌, ◌≤◌, ◌⊎◌,
}

abbrev Ends : Run Mem → Type 0
Ends run = (m' : Mem) × (run ≡ ok m')

search_loop-Ends :
    (left fuel i : ℕ) (blocks : ℕ → ℕ) (disk : ℕ → ℕ → ℕ) (buf name e : ℕ) (m : Mem)
    → ((lba o : ℕ) → disk lba o < 256)
    → ((j : ℕ) → blocks j ≤ max_lba)
    → 0 < name
    → 0 < buf
    → 0 < e
    → (name < buf) ⊎ (buf + 512 ≤ name)
    → ((a : ℕ) → m a < 256)
    → Ends (search_loop left (suc fuel) i blocks disk buf name e m)
unfolding search_loop
search_loop-Ends zero fuel i blks disk buf name e m bytes in_disk hn hb he apart ms = (m, refl)
search_loop-Ends (suc left) fuel i blks disk buf name e m bytes in_disk hn hb he apart ms =
    let lm = load (disk (blks i)) buf m in
    let lms : (a : ℕ) → lm a < 256 = λ a. ground (arith, ms a, bytes (blks i) (a - buf)) in
    let (cleared, clear, at) = memset_lem buf 0 512 lm hb in
    let low : leb (blks i) max_lba ≡ true = ground (arith, in_disk i) in
    elim (Bool-cases (blks i == 0)) [
      | inl z ↦
          let (m', run) =
            search_loop-Ends left fuel (i + 1) blks disk buf name e m bytes in_disk hn hb he apart
              ms in
          (m', rw z run)
      | inr nz ↦ elim (find_entry-Found fuel buf name e lm lms hn hb he apart) [
        | inl (j, _, found) ↦
            (memcpy_loop dir_entry_bytes e (buf + j * dir_entry_bytes) lm, rw (nz, low, found) refl)
        | inr (_, missing) ↦
            let (m', run) =
              search_loop-Ends left fuel (i + 1) blks disk buf name e cleared bytes in_disk hn hb he
                apart (λ a. ground (arith, at a, lms a)) in
            (m', rw (nz, low, missing, clear) run)
      ]
    ]

-- For a memory and a disk of bytes, pointers that are not NULL, a name outside of the buffer, and a
-- directory whose blocks, the indirect one and those it names included, are within the driver's last
-- sector: dir_exist returns true, whatever these blocks hold and whatever the name is.
pub dir_exist-true :
    (fuel : ℕ) (isec : ℕ → ℕ) (disk : ℕ → ℕ → ℕ) (buf name e : ℕ) (m : Mem)
    → ((lba o : ℕ) → disk lba o < 256)
    → isec 12 ≤ max_lba
    → ((j : ℕ) → all_blocks isec disk j ≤ max_lba)
    → 0 < name
    → 0 < buf
    → 0 < e
    → (name < buf) ⊎ (buf + 512 ≤ name)
    → ((a : ℕ) → m a < 256)
    → (m' : Mem) × (dir_exist (suc fuel) isec disk buf name e m ≡ ok (true, m'))
unfolding dir_exist
dir_exist-true fuel isec disk buf name e m bytes twelfth in_disk hn hb he apart ms =
    let (m', run) =
      search_loop-Ends 140 fuel 0 (all_blocks isec disk) disk buf name e m bytes in_disk hn hb he
        apart ms in
    let ne : (e == 0) ≡ false = ground arith in
    let low : leb (isec 12) max_lba ≡ true = ground arith in (m', rw (low, run, ne) refl)
