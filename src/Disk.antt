-- ===== src/Disk.antt =====
-- device/disk.c and device/disk.h: the IDE driver. A routine gives the port accesses and the calls
-- of locks and of the timer that it makes, in order; `poll` stands for the status register, by the
-- number of the read since the start, and the second component of a result counts those reads.
pub mod Poll
pub mod Transfers
pub mod Read
pub mod Write
pub mod Partition
pub mod Init
mod Tests
use xbay_os.Thread.Pick.{rest}
use xbay_os.Thread.{waiting}
use xbay_os.Lock.Rounds.{next}
use xbay_os.Base.{
  Bool, List, Run, [], assert, false, hang, if◌then◌else◌, leb, ltb, ok, sub32, suc, true, u32, u8,
  update, zero, ℕ, ◌%◌, ◌*◌, ◌++◌, ◌+◌, ◌-◌, ◌/◌, ◌==◌, ◌>>=◌, ◌>>◌, ◌^◌, ◌||◌, ◌∷◌,
}

-- The registers are named by their offset from start_port.
pub data Io : Type 0 where
  outb : (port reg value : ℕ) → Io
  inb : (port reg : ℕ) → Io
  insw : (port reg addr words : ℕ) → Io
  outsw : (port reg addr words : ℕ) → Io
  set_waiting : Bool → Io
  sem_wait : Io
  sem_signal : Io
  mutex_take : Io
  mutex_give : Io
  sleep_ms : ℕ → Io

-- The fields of struct __disk and struct __ide_channel that the port accesses depend on.
pub record Disk : Type 0 where
  pub start_port : ℕ
  pub no : ℕ

-- MAX_LBA
abbrev pub max_lba : ℕ
max_lba = 80 * 1024 * 1024 / 512 - 1

-- DEV_MBS | DEV_LBA | (d->no == 0 ? 0 : DEV_DEV)
abbrev pub device_bits : Disk → ℕ
device_bits d = 0xa0 + 0x40 + (if d.no == 0 then 0 else 0x10)

-- select_disk
abbrev pub select_disk : Disk → List Io
select_disk d = outb d.start_port 6 (device_bits d) ∷ []

-- count_out; the parameter cnt is a uint8_t
abbrev pub count_out : Disk → ℕ → List Io
count_out d cnt = outb d.start_port 2 (u8 cnt) ∷ []

-- select_sector; the masked parts of lba are disjoint from the device bits
abbrev pub select_sector : Disk → ℕ → Run (List Io)
select_sector d lba = do
  assert (leb lba max_lba)
  ok (
      outb d.start_port 3 (lba % 2 ^ 8)
      ∷ outb d.start_port 4 (lba / 2 ^ 8 % 2 ^ 8)
      ∷ outb d.start_port 5 (lba / 2 ^ 16 % 2 ^ 8)
      ∷ outb d.start_port 6 (device_bits d + lba / 2 ^ 24 % 2 ^ 4)
      ∷ [])

-- send_cmd
abbrev pub send_cmd : Disk → ℕ → List Io
send_cmd d cmd = set_waiting true ∷ outb d.start_port 7 cmd ∷ []

-- cnt_ of disk_read and disk_write; the parameter cnt is a uint8_t
abbrev pub sectors_of : ℕ → ℕ
sectors_of cnt = if u8 cnt == 0 then 256 else u8 cnt

-- disk_read
abbrev pub disk_read : Disk → (buf cnt : ℕ) → List Io
disk_read d buf cnt = insw d.start_port 0 buf (sectors_of cnt * 512 / 2) ∷ []

-- disk_write
abbrev pub disk_write : Disk → (buf cnt : ℕ) → List Io
disk_write d buf cnt = outsw d.start_port 0 buf (sectors_of cnt * 512 / 2) ∷ []

-- What one round of the loop of ide_read does, given the accesses of select_sector and spin_wait.
abbrev pub read_piece : Disk → (sector waited : List Io) → (curr_buf curr_cnt : ℕ) → List Io
read_piece d sector waited curr_buf curr_cnt =
    count_out d curr_cnt
    ++ sector
    ++ send_cmd d 0x20
    ++ sem_wait ∷ waited
    ++ disk_read d curr_buf curr_cnt

-- What one round of the loop of ide_write does.
abbrev pub write_piece : Disk → (sector waited : List Io) → (curr_buf curr_cnt : ℕ) → List Io
write_piece d sector waited curr_buf curr_cnt =
    count_out d curr_cnt
    ++ sector
    ++ send_cmd d 0x30
    ++ waited
    ++ disk_write d curr_buf curr_cnt
    ++ sem_wait ∷ []

module _ (poll : ℕ → ℕ) where
  -- status & ALT_STATUS_BUSY
  abbrev pub busy : ℕ → Bool
  busy k = poll k / 0x80 % 2 == 1

  -- !!(status & ALT_STATUS_DATA_READY)
  abbrev pub data_ready : ℕ → Bool
  data_ready k = poll k / 0x08 % 2 == 1

  -- The loop of spin_wait: ms are left, and k polls have been made.
  unfoldable pub spin_loop : (fuel : ℕ) → Disk → (ms k : ℕ) → Run (Bool × List Io × ℕ)
  spin_loop zero d ms k = hang
  spin_loop (suc fuel) d ms k =
      let later = spin_loop fuel d (ms - 10) (k + 1) >>= λ (b, io, k').
      ok (b, inb d.start_port 7 ∷ sleep_ms 10 ∷ io, k') in
      if ltb 0 ms
      then (if busy k then later else ok (data_ready k, inb d.start_port 7 ∷ [], k + 1))
      else ok (false, [], k)

  -- spin_wait; 30 * 1000 / 10 rounds are made at most
  unfoldable pub spin_wait : Disk → ℕ → Run (Bool × List Io × ℕ)
  unfolding spin_loop
  spin_wait d k = spin_loop 3001 d (30 * 1000) k

  -- The loop of ide_read, from offset on. A failed wait panics.
  unfoldable pub read_loop : (fuel : ℕ) → Disk → (lba buf cnt offset k : ℕ) → Run (List Io × ℕ)
  unfolding spin_wait
  read_loop zero d lba buf cnt offset k = hang
  read_loop (suc fuel) d lba buf cnt offset k =
      let curr_cnt = if ltb (u32 (offset + 256)) cnt then 256 else sub32 cnt offset in
      let curr_buf = u32 (buf + offset * 512) in
      let next : ℕ → Run (List Io × ℕ) =
        λ k'. read_loop fuel d lba buf cnt (u32 (offset + curr_cnt)) k' in
      let body = select_sector d (u32 (lba + offset)) >>= λ sector.
      spin_wait d k >>= λ (good, waited, k').
      assert good
      >> (next k' >>= λ (rest, k'').
          ok (read_piece d sector waited curr_buf curr_cnt ++ rest, k'')) in
      if ltb offset cnt then body else ok ([], k)

  -- ide_read
  unfoldable pub ide_read : (fuel : ℕ) → Disk → (lba buf cnt k : ℕ) → Run (List Io × ℕ)
  unfolding read_loop
  ide_read fuel d lba buf cnt k = read_loop fuel d lba buf cnt 0 k >>= λ (io, k').
      ok (mutex_take ∷ [] ++ select_disk d ++ io ++ mutex_give ∷ [], k')

  -- The loop of ide_write, from offset on.
  unfoldable pub write_loop : (fuel : ℕ) → Disk → (lba buf cnt offset k : ℕ) → Run (List Io × ℕ)
  unfolding spin_wait
  write_loop zero d lba buf cnt offset k = hang
  write_loop (suc fuel) d lba buf cnt offset k =
      let curr_cnt = if ltb (u32 (offset + 256)) cnt then sub32 cnt offset else 256 in
      let curr_buf = u32 (buf + offset * 512) in
      let next : ℕ → Run (List Io × ℕ) =
        λ k'. write_loop fuel d lba buf cnt (u32 (offset + curr_cnt)) k' in
      let body = select_sector d (u32 (lba + offset)) >>= λ sector.
      spin_wait d k >>= λ (good, waited, k').
      assert good
      >> (next k' >>= λ (rest, k'').
          ok (write_piece d sector waited curr_buf curr_cnt ++ rest, k'')) in
      if ltb offset cnt then body else ok ([], k)

  -- ide_write
  unfoldable pub ide_write : (fuel : ℕ) → Disk → (lba buf cnt k : ℕ) → Run (List Io × ℕ)
  unfolding write_loop
  ide_write fuel d lba buf cnt k = write_loop fuel d lba buf cnt 0 k >>= λ (io, k').
      ok (mutex_take ∷ [] ++ select_disk d ++ io ++ mutex_give ∷ [], k')

-- disk_intr_handler: the channel that the interrupt names, whether it was waiting, and the calls
unfoldable pub disk_intr_handler :
    (pending : ℕ → Bool) (start_port : ℕ → ℕ) (irq : ℕ) → Run (ℕ × List Io)
disk_intr_handler pending start_port irq =
    let no = (irq + 2 ^ 8 - 0x2e) % 2 ^ 8 in
    do
      assert ((no == 0) || (no == 1))
      ok (
        no,
        (if pending no then (sem_signal ∷ set_waiting false ∷ inb (start_port no) 7 ∷ []) else []),
      )

-- The loop of word_to_bytes; src and buf are given by their bytes
unfoldable pub swap_loop : (fuel : ℕ) → (src buf : ℕ → ℕ) → (i len : ℕ) → Run (ℕ → ℕ)
swap_loop zero src buf i len = hang
swap_loop (suc fuel) src buf i len =
    let rest =
      swap_loop fuel src (update (update buf (i + 1) (src i)) i (src (i + 1))) (i + 2) len in
    if ltb i len then rest else ok (update buf len 0)

-- word_to_bytes
unfoldable pub word_to_bytes : (src buf : ℕ → ℕ) → (len : ℕ) → Run (ℕ → ℕ)
unfolding swap_loop
word_to_bytes src buf len = swap_loop (suc len) src buf 0 len
