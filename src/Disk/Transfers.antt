-- ===== src/Disk/Transfers.antt =====
-- What a trace of port accesses asks of the drive: the registers that a data transfer finds.
use xbay_os.Disk.{Io, busy, data_ready, insw, outb, outsw, Disk}
use xbay_os.Base.{
  List, [], false, if◌then◌else◌, true, ℕ, ◌%◌, ◌*◌, ◌+◌, ◌-◌, ◌<◌, ◌==◌, ◌^◌, ◌∷◌, ◌≡◌, ◌≤◌, Bool,
  ◌&&◌, ◌/◌,
}

-- The registers, as last written: sector count, LBA low, mid and high, device, command.
pub record Regs : Type 0 where
  pub cnt : ℕ
  pub low : ℕ
  pub mid : ℕ
  pub high : ℕ
  pub device : ℕ
  pub cmd : ℕ

-- A transfer of words between memory at addr and the sectors of a drive from lba on; whether the
-- drive is addressed by LBA.
pub record Transfer : Type 0 where
  pub cmd : ℕ
  pub drive : ℕ
  pub by_lba : Bool
  pub lba : ℕ
  pub sectors : ℕ
  pub addr : ℕ
  pub words : ℕ

abbrev pub store : ℕ → ℕ → Regs → Regs
store n v r =
    if n == 2
    then record r { cnt = v }
    else if n == 3
    then record r { low = v }
    else if n == 4
    then record r { mid = v }
    else if n == 5
    then record r { high = v }
    else if n == 6
    then record r { device = v }
    else if n == 7
    then record r { cmd = v }
    else r

-- What the registers say: bit 4 of the device register is the drive and bit 6 the kind of the
-- address, of 28 bits; a sector count of 0 stands for 256.
abbrev pub transfer : Regs → (addr words : ℕ) → Transfer
transfer r addr words = record {
  cmd = r.cmd;
  drive = r.device / 2 ^ 4 % 2;
  by_lba = r.device / 2 ^ 6 % 2 == 1;
  lba = r.low + 2 ^ 8 * r.mid + 2 ^ 16 * r.high + 2 ^ 24 * (r.device % 2 ^ 4);
  sectors = if r.cnt == 0 then 256 else r.cnt;
  addr = addr;
  words = words;
}

-- The transfers at the channel whose ports start at `port`; reads and writes of words are at register
-- 0, the data register.
abbrev pub transfers : (port : ℕ) → Regs → List Io → List Transfer
transfers port r [] = []
transfers port r (outb p n v ∷ io) =
    let here = transfers port (store n v r) io in
    let elsewhere = transfers port r io in if p == port then here else elsewhere
transfers port r (insw p n a w ∷ io) =
    let rest = transfers port r io in if p == port && n == 0 then transfer r a w ∷ rest else rest
transfers port r (outsw p n a w ∷ io) =
    let rest = transfers port r io in if p == port && n == 0 then transfer r a w ∷ rest else rest
transfers port r (_ ∷ io) = transfers port r io

-- The transfers move, with one command and at one drive addressed by LBA, exactly cnt sectors from lba on, one after the other, to or
-- from the memory at buf, in pieces of 1 to 256 sectors, and each moves all its words.
abbrev pub Covers : (cmd drive lba buf cnt : ℕ) → List Transfer → Type 0
Covers cmd drive lba buf cnt [] = cnt ≡ 0
Covers cmd drive lba buf cnt (t ∷ ts) =
    (t.cmd ≡ cmd)
    × (t.drive ≡ drive)
    × (t.by_lba ≡ true)
    × (t.lba ≡ lba)
    × (t.addr ≡ buf)
    × (t.words ≡ 256 * t.sectors)
    × (0 < t.sectors)
    × (t.sectors ≤ 256)
    × (t.sectors ≤ cnt)
    × Covers cmd drive (lba + t.sectors) (buf + 512 * t.sectors) (cnt - t.sectors) ts

-- A drive that is ready at every poll.
abbrev pub IsReady : (ℕ → ℕ) → Type 0
IsReady poll = (k : ℕ) → (busy poll k ≡ false) × (data_ready poll k ≡ true)

-- The drive of a disk: 0 is the master and 1 the slave.
abbrev pub drive_of : Disk → ℕ
drive_of d = if d.no == 0 then 0 else 1
