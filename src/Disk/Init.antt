-- ===== src/Disk/Init.antt =====
-- print_disk_info and ide_channel_init of device/disk.c. TWO_DISKS is defined nowhere in the
-- repository, so that the second channel keeps its port and its vector 0. The lines that
-- print_disk_info prints are left out, so is its copy of the disk's words by word_to_bytes.
use xbay_os.Base.{
  Bool, List, Run, [], assert, div_round_up, false, if◌then◌else◌, ok, suc, u8, update, zero, ℕ,
  ◌*◌, ◌++◌, ◌+◌, ◌==◌, ◌>>=◌, ◌>>◌, ◌∷◌, ◌≡◌, ◌⊎◌, arith, refl,
}
use xbay_os.Lock.{Mutex, Sem, mutex_init, sem_init}
use xbay_os.Intr.{set_handler}
use xbay_os.Disk.Partition.{Parts, PtEntry, scan_partition}
use xbay_os.Disk.{Disk, Io, disk_read, select_disk, send_cmd, sem_wait, spin_wait}

-- The fields of struct __ide_channel, without the names and the disks
pub record Channel : Type 0 where
  pub start_port : ℕ
  pub irq_no : ℕ
  pub waiting_intr : Bool
  pub mutex : Mutex
  pub sem : Sem

-- The channels, the disks' names and partitions by twice the channel's number plus their own, the
-- table of handlers, the accesses so far and the number of polls among them. In `parts` of a disk
-- only prim_parts and logic_parts are its own; ext_lba_base, master_no and logical_no stand beside.
pub record Ide : Type 0 where
  pub channels : ℕ → Channel
  pub names : ℕ → List ℕ
  pub parts : ℕ → Parts
  pub ext_lba_base : ℕ
  pub master_no : ℕ
  pub logical_no : ℕ
  pub idt_table : ℕ → ℕ
  pub io : List Io
  pub polls : ℕ

module _ (poll : ℕ → ℕ) where
  -- print_disk_info, with the address of info; 0xec is CMD_IDENTIFY
  unfoldable pub print_disk_info : Disk → (info k : ℕ) → Run (List Io × ℕ)
  print_disk_info d info k = do
    (good, waited, k') ← spin_wait poll d k
    assert good
    ok (select_disk d ++ send_cmd d 0xec ++ sem_wait ∷ waited ++ disk_read d info 1, k')

  module _ (fuel info : ℕ) (table : (n lba i : ℕ) → PtEntry) where
    -- scan_partition of a disk, from the variables that the disks share
    abbrev pub scan_disk : (n : ℕ) → Ide → Run Parts
    scan_disk n s = scan_partition fuel (table n) 0 (record (s.parts n) {
      ext_lba_base = s.ext_lba_base;
      master_no = s.master_no;
      logical_no = s.logical_no;
    })

    -- The inner loop's body: disk j of channel i
    unfoldable pub disk_init : (i j : ℕ) → Ide → Run Ide
    disk_init i j s =
        let n = i * 2 + j in
        do
          (io, k) ←
              print_disk_info (record { start_port = (s.channels i).start_port; no = j }) info
                s.polls
          let s1 = record s {
            names = update s.names n (b's' ∷ b'd' ∷ u8 (b'a' + n) ∷ []);
            io = s.io ++ io;
            polls = k;
          }
          p ←
              if j == 0
              then ok (record (s1.parts n) { ext_lba_base = s1.ext_lba_base })
              else scan_disk n s1
          ok (record s1 {
            parts = update s1.parts n p;
            ext_lba_base = p.ext_lba_base;
            master_no = 0;
            logical_no = 0;
          })

    -- The outer loop's body: channel i, with the address of disk_intr_handler
    unfoldable pub channel_init : (handler i : ℕ) → Ide → Run Ide
    channel_init handler i s =
        let old = s.channels i in
        let c = record old {
          start_port = if i == 0 then 0x1f0 else old.start_port;
          irq_no = if i == 0 then 0x20 + 14 else old.irq_no;
          waiting_intr = false;
          mutex = mutex_init;
          sem = sem_init 0;
        } in
        do
          s1 ← disk_init i 0 (record s {
            channels = update s.channels i c;
            idt_table = set_handler s.idt_table c.irq_no handler;
          })
          disk_init i 1 s1

    unfoldable pub channels_loop : (left handler i : ℕ) → Ide → Run Ide
    channels_loop zero handler i s = ok s
    channels_loop (suc left) handler i s = do
      s1 ← channel_init handler i s
      channels_loop left handler (i + 1) s1

    -- ide_channel_init; disk_cnt is the byte at DISK_CNT_POINTER
    unfoldable pub ide_channel_init : (disk_cnt handler : ℕ) → Ide → Run Ide
    ide_channel_init disk_cnt handler s = channels_loop (div_round_up disk_cnt 2) handler 0 s

    -- With one or two disks, if the first channel's two disks answer and the table of the second can
    -- be scanned, ide_channel_init leaves the first channel at port 0x1f0 with its handler at vector
    -- 0x2e, no interrupt awaited, the mutex free and the semaphore at 0; the partitions of the second
    -- disk are those of scan_partition from the variables' values at the start.
    ide_channel_init-first :
        (disk_cnt handler : ℕ) (s : Ide) (io1 io2 : List Io) (k1 k2 : ℕ) (p : Parts)
        → (disk_cnt ≡ 1) ⊎ (disk_cnt ≡ 2)
        → print_disk_info (record { start_port = 0x1f0; no = 0 }) info s.polls ≡ ok (io1, k1)
        → print_disk_info (record { start_port = 0x1f0; no = 1 }) info k1 ≡ ok (io2, k2)
        → scan_partition fuel
            (table 1)
            0
            (record (s.parts 1) { ext_lba_base = s.ext_lba_base; master_no = 0; logical_no = 0 })
          ≡ ok p
        → (s' : Ide) × (ide_channel_init disk_cnt handler s ≡ ok s')
          × ((s'.channels 0).start_port ≡ 0x1f0)
          × ((s'.channels 0).mutex ≡ mutex_init)
          × ((s'.channels 0).sem ≡ sem_init 0)
          × ((s'.channels 0).waiting_intr ≡ false)
          × (s'.idt_table 0x2e ≡ handler)
          × (s'.parts 1 ≡ p)
          × (s'.io ≡ (s.io ++ io1) ++ io2)
    unfolding ide_channel_init channels_loop channel_init disk_init set_handler
    ide_channel_init-first disk_cnt handler s io1 io2 k1 k2 p cnt h1 h2 h3 =
        let one : div_round_up disk_cnt 2 ≡ 1 = ground (arith, cnt) in
        let c = record (s.channels 0) {
          start_port = 0x1f0;
          irq_no = 0x2e;
          waiting_intr = false;
          mutex = mutex_init;
          sem = sem_init 0;
        } in
        let names = update s.names 0 (b's' ∷ b'd' ∷ b'a' ∷ []) in
        let p0 = record (s.parts 0) { ext_lba_base = s.ext_lba_base } in
        (
          record {
            channels = update s.channels 0 c;
            names = update names 1 (b's' ∷ b'd' ∷ b'b' ∷ []);
            parts = update (update s.parts 0 p0) 1 p;
            ext_lba_base = p.ext_lba_base;
            master_no = 0;
            logical_no = 0;
            idt_table = update s.idt_table 0x2e handler;
            io = (s.io ++ io1) ++ io2;
            polls = k2;
          },
          rw (one, h1, h2, h3) refl,
          refl,
          refl,
          refl,
          refl,
          refl,
          refl,
          refl,
        )
