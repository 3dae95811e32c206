-- ===== src/Disk/Tests.antt =====
-- A slave drive that is always ready, and a disk with two primary partitions.
use xbay_os.Disk.Transfers.{Regs}
use xbay_os.Disk.Poll.{Answer, spin_wait-Answer}
use xbay_os.Disk.Partition.{
  Parts, PtEntry, Scanned, scan_partition, scan_partition-Scanned, used, entries,
}
use xbay_os.Disk.{Disk, Io, spin_wait}
use xbay_os.Base.{Bool, List, arith, ok, refl, ℕ, ◌+◌, ◌≡◌, ◌≤◌, suc, zero}

abbrev slave : Disk
slave = record { start_port = 0x1f0; no = 1 }

abbrev drdy : ℕ → ℕ
drdy k = 0x58

abbrev cold : Regs
cold = record { cnt = 0; low = 0; mid = 0; high = 0; device = 0; cmd = 0 }

spin_wait-Answer_example :
    (b : Bool) × (io : List Io) × (k' : ℕ) × (spin_wait drdy slave 7 ≡ ok (b, io, k'))
    × Answer drdy b 7 k'
    × (k' ≤ 7 + 3000)
spin_wait-Answer_example = spin_wait-Answer drdy slave 7

abbrev empty_entry : PtEntry
empty_entry = record { fs_type = 0; start_lba = 0; sec_cnt = 0 }

abbrev boot : (lba i : ℕ) → PtEntry
boot lba zero = record { fs_type = 0x83; start_lba = 2048; sec_cnt = 100 }
boot lba (suc zero) = empty_entry
boot lba (suc (suc zero)) = record { fs_type = 0x83; start_lba = 4096; sec_cnt = 200 }
boot lba (suc (suc (suc i))) = empty_entry

abbrev fresh : Parts
fresh = record {
  ext_lba_base = 0;
  master_no = 0;
  logical_no = 0;
  prim_parts = λ k. record { start = 0; count = 0; number = 0 };
  logic_parts = λ k. record { start = 0; count = 0; number = 0 };
}

scan_partition-Scanned_example :
    Scanned fresh (used (entries (boot 0))) (scan_partition 1 boot 0 fresh)
scan_partition-Scanned_example =
    scan_partition-Scanned 0 boot fresh
      (omega arith, (omega arith, (omega arith, (omega arith, tt)))) refl
