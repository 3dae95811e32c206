-- ===== src/Disk/Write.antt =====
-- ide_write makes one transfer, whatever number of sectors it is asked for.
use xbay_os.Thread.Pick.{rest}
use xbay_os.Disk.Transfers.{IsReady}
use xbay_os.Disk.{Disk, Io, device_bits, inb, outb, write_piece}
use xbay_os.Base.{List, [], ℕ, ◌%◌, ◌*◌, ◌+◌, ◌/◌, ◌^◌, ◌∷◌, ◌++◌}

module _ (poll : ℕ → ℕ) (ready : IsReady poll) where
  piece_of : Disk → (lba buf offset n : ℕ) → List Io → List Io
  piece_of d lba buf offset n rest =
      write_piece d
        (outb d.start_port 3 ((lba + offset) % 2 ^ 32 % 2 ^ 8)
          ∷ outb d.start_port 4 ((lba + offset) % 2 ^ 32 / 2 ^ 8 % 2 ^ 8)
          ∷ outb d.start_port 5 ((lba + offset) % 2 ^ 32 / 2 ^ 16 % 2 ^ 8)
          ∷ outb d.start_port 6 (device_bits d + (lba + offset) % 2 ^ 32 / 2 ^ 24 % 2 ^ 4)
          ∷ [])
        (inb d.start_port 7 ∷ []) ((buf + offset * 512) % 2 ^ 32) n
      ++ rest
