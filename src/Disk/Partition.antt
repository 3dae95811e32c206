-- ===== src/Disk/Partition.antt =====
-- scan_partition of device/disk.c: the partition tables of a disk.
-- The four entries of the boot sector at an lba, which ide_read fetches, are the argument `table`.
use xbay_os.Disk.{max_lba}
use xbay_os.LinkedList.Seg.{last}
use xbay_os.LinkedList.{empty}
use xbay_os.Bitmap.{scan}
use xbay_os.Base.{
  List, Run, [], assert, hang, if◌then◌else◌, leb, length, ltb, not, ok, panic, suc, u32, u8,
  update, zero, ℕ, ◌+◌, ◌<◌, ◌==◌, ◌>>=◌, ◌>>◌, ◌∷◌, ◌≡◌, ◌≢◌, ◌≤◌, ==_refl, Bool-cases, arith,
  false, inl, inr, refl, ◌%◌, ◌^◌, ◌∙◌,
}

-- The fields of struct __pt_entry that are used.
pub record PtEntry : Type 0 where
  pub fs_type : ℕ
  pub start_lba : ℕ
  pub sec_cnt : ℕ

-- The fields of struct __partition that a scan sets; the name is the disk's followed by `number`.
pub record Part : Type 0 where
  pub start : ℕ
  pub count : ℕ
  pub number : ℕ

-- ext_lba_base, master_no, logical_no, and prim_parts and logic_parts of the disk.
pub record Parts : Type 0 where
  pub ext_lba_base : ℕ
  pub master_no : ℕ
  pub logical_no : ℕ
  pub prim_parts : ℕ → Part
  pub logic_parts : ℕ → Part

-- A primary partition: it is stored before the test of the number.
abbrev pub add_primary : PtEntry → Parts → Run Parts
add_primary e s = do
  assert (ltb s.master_no 3)
  ok (record s {
    prim_parts =
        update s.prim_parts s.master_no
          (record { start = e.start_lba; count = e.sec_cnt; number = s.master_no + 1 });
    master_no = u8 (s.master_no + 1);
  })

-- A logical partition of the table at lba.
abbrev pub add_logical : (lba : ℕ) → PtEntry → Parts → Parts
add_logical lba e s = record s {
  logic_parts =
      update s.logic_parts s.logical_no
        (record { start = u32 (lba + e.start_lba); count = e.sec_cnt; number = s.logical_no + 5 });
  logical_no = u8 (s.logical_no + 1);
}

-- The address at which an extended entry's table lies, and ext_lba_base from then on.
abbrev pub extended : PtEntry → Parts → ℕ × Parts
extended e s =
    if not (s.ext_lba_base == 0)
    then (u32 (e.start_lba + s.ext_lba_base), s)
    else (e.start_lba, record s { ext_lba_base = e.start_lba })

-- The loop of scan_partition over the entries of the table at lba; `scan` is the recursive call.
-- The eighth logical partition ends the call.
abbrev pub entries_loop :
    (scan : ℕ → Parts → Run Parts) (lba : ℕ) → List PtEntry → Parts → Run Parts
entries_loop scan lba [] s = ok s
entries_loop scan lba (e ∷ es) s =
    let nested = scan (extended e s).0 (extended e s).1 >>= λ s'. entries_loop scan lba es s' in
    let primary = add_primary e s >>= λ s'. entries_loop scan lba es s' in
    let s1 = add_logical lba e s in
    let logical = entries_loop scan lba es s1 in
    let rest = entries_loop scan lba es s in
    if e.fs_type == 5
    then nested
    else if not (e.fs_type == 0)
    then (if lba == 0 then primary else (if leb 8 s1.logical_no then ok s1 else logical))
    else rest

-- The entries of a boot sector
abbrev pub entries : (ℕ → PtEntry) → List PtEntry
entries pt = pt 0 ∷ pt 1 ∷ pt 2 ∷ pt 3 ∷ []

-- scan_partition, with the assertion of ide_read; `fuel` bounds the chain of extended partitions, which a disk may close to a cycle
unfoldable pub scan_partition :
    (fuel : ℕ) → (table : (lba i : ℕ) → PtEntry) → (lba : ℕ) → Parts → Run Parts
scan_partition zero table lba s = hang
scan_partition (suc fuel) table lba s = do
  assert (leb lba max_lba)
  entries_loop (scan_partition fuel table) lba (entries (table lba)) s

abbrev pub used : List PtEntry → List PtEntry
used [] = []
used (e ∷ es) = if e.fs_type == 0 then used es else e ∷ used es

abbrev pub HasNoExtended : List PtEntry → Type 0
HasNoExtended [] = Unit
HasNoExtended (e ∷ es) = (e.fs_type ≢ 5) × HasNoExtended es

-- The entries are the primary partitions from number k on.
abbrev pub Recorded : (ℕ → Part) → ℕ → List PtEntry → Type 0
Recorded parts k [] = Unit
Recorded parts k (e ∷ es) =
    (parts k ≡ record { start = e.start_lba; count = e.sec_cnt; number = k + 1 })
    × Recorded parts (k + 1) es

-- What the loop does to a master boot record with these used entries.
abbrev pub Scanned : Parts → List PtEntry → Run Parts → Type 0
Scanned s us (ok s') =
    (s'.master_no ≡ s.master_no + length us)
    × (s'.logical_no ≡ s.logical_no)
    × (s'.logic_parts ≡ s.logic_parts)
    × Recorded s'.prim_parts s.master_no us
    × ((k : ℕ) → k < s.master_no → s'.prim_parts k ≡ s.prim_parts k)
    × (s.master_no + length us ≤ 3)
Scanned s us panic = 3 < s.master_no + length us
Scanned s us hang = ⊥

abbrev with_primary : PtEntry → Parts → Parts
with_primary e s = record s {
  prim_parts =
      update s.prim_parts s.master_no
        (record { start = e.start_lba; count = e.sec_cnt; number = s.master_no + 1 });
  master_no = (s.master_no + 1) % 2 ^ 8;
}

primary-Scanned :
    (s : Parts) (e : PtEntry) (us : List PtEntry) (r : Run Parts)
    → s.master_no < 3
    → Scanned (with_primary e s) us r
    → Scanned s (e ∷ us) r
primary-Scanned s e us (ok s') m h =
    let at : (s.master_no + 1) % 2 ^ 8 ≡ s.master_no + 1 = omega arith in
    let kept = rw at at h.4 in
    (
      omega (arith, h.0),
      h.1,
      h.2,
      (kept s.master_no (omega arith) ∙ update_same s e, rw at at h.3),
      (λ k lt. kept k (omega arith) ∙ update_other s e k lt),
      omega (arith, h.5),
    )
  where
    update_same :
        (s : Parts) (e : PtEntry)
        → (with_primary e s).prim_parts s.master_no
          ≡ record { start = e.start_lba; count = e.sec_cnt; number = s.master_no + 1 }
    update_same s e = let t = ==_refl s.master_no in rw (t, update) refl

    update_other :
        (s : Parts) (e : PtEntry) (k : ℕ)
        → k < s.master_no
        → (with_primary e s).prim_parts k ≡ s.prim_parts k
    update_other s e k lt = let t : (k == s.master_no) ≡ false = ground arith in rw (t, update) refl
primary-Scanned s e us panic m h = omega arith
primary-Scanned s e us hang m h = h

entries_loop-Scanned :
    (scan : ℕ → Parts → Run Parts) (es : List PtEntry) (s : Parts)
    → HasNoExtended es
    → s.master_no ≤ 3
    → Scanned s (used es) (entries_loop scan 0 es s)
entries_loop-Scanned scan [] s h m = (omega arith, refl, refl, tt, λ k lt. refl, omega arith)
entries_loop-Scanned scan (e ∷ es) s h m =
    let plain : (e.fs_type == 5) ≡ false = ground (arith, h.0) in
    elim (Bool-cases (e.fs_type == 0)) [
      | inl empty ↦ rw (plain, empty) (entries_loop-Scanned scan es s h.1 m)
      | inr filled ↦ elim (Bool-cases (ltb s.master_no 3)) [
        | inl fits ↦
            rw (plain, filled, fits)
              (primary-Scanned s e (used es) _ (ground arith)
                (entries_loop-Scanned scan es (with_primary e s) h.1 (ground arith)))
        | inr last ↦ rw (plain, filled, last) (ground arith)
      ]
    ]

-- Of a master boot record without extended partitions, on a disk with no partition yet, the used
-- entries become the primary partitions in order, if there are at most three, and the logical ones
-- are as they were; a fourth used entry, for which the disk has room, fails the assertion instead.
pub scan_partition-Scanned :
    (fuel : ℕ) (table : (lba i : ℕ) → PtEntry) (s : Parts)
    → HasNoExtended (entries (table 0))
    → s.master_no ≡ 0
    → Scanned s (used (entries (table 0))) (scan_partition (suc fuel) table 0 s)
unfolding scan_partition
scan_partition-Scanned fuel table s h m =
    entries_loop-Scanned (scan_partition fuel table) (entries (table 0)) s h (omega arith)
