-- ===== src/Disk/Read.antt =====
-- ide_read reads what it is asked for.
use xbay_os.Thread.Pick.{rest}
use xbay_os.Disk.Transfers.{IsReady, drive_of}
use xbay_os.Disk.{Disk, Io, inb, spin_loop, spin_wait, device_bits, outb, read_piece}
use xbay_os.Base.{
  List, [], arith, ok, refl, true, ℕ, ◌*◌, ◌++◌, ◌+◌, ◌<◌, ◌^◌, ◌∷◌, ◌≡◌, ◌≤◌, if◌then◌else◌, ◌%◌,
  ◌/◌, ◌==◌,
}

pub piece_count : (n : ℕ) → 0 < n → n ≤ 256 → (if n % 2 ^ 8 == 0 then 256 else n % 2 ^ 8) ≡ n
piece_count n pos small = ground arith

pub device_low : (d : Disk) (x : ℕ) → (device_bits d + x % 2 ^ 4) % 2 ^ 4 ≡ x % 2 ^ 4
device_low d x = ground arith

pub device_drive :
    (d : Disk) (x : ℕ)
    → ((device_bits d + x % 2 ^ 4) / 2 ^ 4 % 2 ≡ drive_of d)
      × ((device_bits d + x % 2 ^ 4) / 2 ^ 6 % 2 ≡ 1)
device_drive d x = (ground arith, ground arith)

pub sector_address :
    (x : ℕ)
    → x < 2 ^ 28
    → x % 2 ^ 8
        + 2 ^ 8 * (x / 2 ^ 8 % 2 ^ 8)
        + 2 ^ 16 * (x / 2 ^ 16 % 2 ^ 8)
        + 2 ^ 24 * (x / 2 ^ 24 % 2 ^ 4)
      ≡ x
sector_address x h = omega arith

module _ (poll : ℕ → ℕ) (ready : IsReady poll) where
  pub spin_wait_ready :
      (d : Disk) (k : ℕ) → spin_wait poll d k ≡ ok (true, inb d.start_port 7 ∷ [], k + 1)
  unfolding spin_wait spin_loop
  spin_wait_ready d k = rw ((ready k).0, (ready k).1) refl

  sector_ios : Disk → ℕ → List Io
  sector_ios d lba =
      outb d.start_port 3 (lba % 2 ^ 8)
      ∷ outb d.start_port 4 (lba / 2 ^ 8 % 2 ^ 8)
      ∷ outb d.start_port 5 (lba / 2 ^ 16 % 2 ^ 8)
      ∷ outb d.start_port 6 (device_bits d + lba / 2 ^ 24 % 2 ^ 4)
      ∷ []

  -- The trace of one round and the rest.
  round : Disk → (lba buf offset n : ℕ) → List Io → List Io
  unfolding sector_ios
  round d lba buf offset n rest =
      read_piece d (sector_ios d ((lba + offset) % 2 ^ 32)) (inb d.start_port 7 ∷ [])
        ((buf + offset * 512) % 2 ^ 32) n
      ++ rest
