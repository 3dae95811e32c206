-- ===== src/Fs/Opened.antt =====
-- inode_open and inode_close of fs/inode.c: the list of open inodes and its reference counts.
-- The list is that of the inode_t structures that lib/list.c links, in its order.
use xbay_os.Disk.{max_lba}
use xbay_os.Fs.Inode.{get_position, position}
use xbay_os.Fs.{inode_bytes, max_files_per_part, sector_size}
use xbay_os.Base.{
  ◌*◌, ◌/◌, ◌≤◌, assert, leb, not, ◌>>◌, ==_refl, Bool-cases, List, Option, Run, [], arith, false,
  has, if◌then◌else◌, inl, inr, ltb, ne_of_has, none, ok, refl, some, sub32, true, u32, ℕ, ◌%◌, ◌+◌,
  ◌-◌, ◌<◌, ◌==◌, ◌>>=◌, ◌^◌, ◌∷◌, ◌≡◌,
}

-- The fields of inode_t that the list is searched by; `addr` is its address
pub record Opened : Type 0 where
  pub addr : ℕ
  pub i_no : ℕ
  pub open_cnt : ℕ

abbrev pub after : Opened → Option (ℕ × List Opened) → Option (ℕ × List Opened)
after e none = none
after e (some (a, es)) = some (a, e ∷ es)

-- find_in_list, and the count of what it finds
abbrev pub open_in : ℕ → List Opened → Option (ℕ × List Opened)
open_in num [] = none
open_in num (e ∷ es) =
    let rest = after e (open_in num es) in
    if e.i_no == num then some (e.addr, record e { open_cnt = u32 (e.open_cnt + 1) } ∷ es) else rest

-- inode_open: `fresh` is the address that sys_kmalloc returns, NULL included, `buf` the one for the
-- sectors, and `stored` the number that the disk's copy of an inode has. The assertions are
-- those of get_position, of ide_read, of memcpy, whose source is `buf` with an offset, and of
-- sys_free.
abbrev pub open_new :
    (stored : ℕ → ℕ) (in_array_addr fresh buf num : ℕ)
    → List Opened
    → Option (ℕ × List Opened)
    → Run (ℕ × List Opened)
open_new stored in_array_addr fresh buf num es (some r) = ok r
open_new stored in_array_addr fresh buf num es none = do
  pos ← get_position in_array_addr num
  assert (leb pos.lba max_lba)
  assert (not (fresh == 0))
  assert (not (u32 (buf + pos.offset) == 0))
  assert (not (buf == 0))
  ok (fresh, record { addr = fresh; i_no = stored num; open_cnt = 1 } ∷ es)

unfoldable pub inode_open :
    (stored : ℕ → ℕ) (in_array_addr fresh buf num : ℕ) → List Opened → Run (ℕ × List Opened)
inode_open stored in_array_addr fresh buf num es =
    open_new stored in_array_addr fresh buf num es (open_in num es)

-- inode_close, of the inode at an address
abbrev pub inode_close : ℕ → List Opened → List Opened
inode_close a [] = []
inode_close a (e ∷ es) =
    let rest = inode_close a es in
    let cnt = sub32 e.open_cnt 1 in
    if e.addr == a then (if cnt == 0 then es else record e { open_cnt = cnt } ∷ es) else e ∷ rest

abbrev pub addresses : List Opened → List ℕ
addresses [] = []
addresses (e ∷ es) = e.addr ∷ addresses es

-- The addresses differ, and every inode is open at least once and less than 2^32 - 1 times.
abbrev pub IsTable : List Opened → Type 0
IsTable [] = Unit
IsTable (e ∷ es) =
    (has e.addr (addresses es) ≡ false) × (0 < e.open_cnt) × (e.open_cnt < 2 ^ 32 - 1) × IsTable es

-- What open_in finds is in the list, and a close undoes it.
abbrev pub Undone : List Opened → Option (ℕ × List Opened) → Type 0
Undone es none = Unit
Undone es (some (a, es')) = (has a (addresses es) ≡ true) × (inode_close a es' ≡ es)

after-Undone :
    (e : Opened) (es : List Opened) (o : Option (ℕ × List Opened))
    → has e.addr (addresses es) ≡ false
    → Undone es o
    → Undone (e ∷ es) (after e o)
after-Undone e es none out h = tt
after-Undone e es (some (a, es')) out h =
    let ne : (e.addr == a) ≡ false = ground (arith, ne_of_has (addresses es) e.addr a h.0 out) in
    (ground (arith, h.0), rw (ne, h.1) refl)

open_in-Undone : (num : ℕ) (es : List Opened) → IsTable es → Undone es (open_in num es)
open_in-Undone num [] h = tt
open_in-Undone num (e ∷ es) h = elim (Bool-cases (e.i_no == num)) [
  | inl hit ↦
      let same = ==_refl e.addr in
      let cnt : ((e.open_cnt + 1) % 2 ^ 32 + 2 ^ 32 - 1) % 2 ^ 32 ≡ e.open_cnt =
        omega (arith, h.1, h.2) in
      let some_left : (e.open_cnt == 0) ≡ false = ground (arith, h.1) in
      rw hit (ground (arith, same), rw (same, cnt, some_left) refl)
  | inr miss ↦ rw miss (after-Undone e es (open_in num es) h.0 (open_in-Undone num es h.3))
]

open_new-close :
    (stored : ℕ → ℕ) (in_array_addr fresh buf num : ℕ) (es : List Opened)
    (o : Option (ℕ × List Opened))
    → num < max_files_per_part
    → in_array_addr + num * inode_bytes / sector_size ≤ max_lba
    → 0 < fresh
    → 0 < buf
    → buf + sector_size ≤ 2 ^ 32
    → Undone es o
    → (a : ℕ) × (es' : List Opened) × (open_new stored in_array_addr fresh buf num es o
        ≡ ok (a, es'))
      × (inode_close a es' ≡ es)
unfolding get_position
open_new-close stored in_array_addr fresh buf num es none lt low got at top u =
    let pos = position in_array_addr num in
    let within : leb pos.lba max_lba ≡ true = ground (arith, low) in
    let here : (fresh == 0) ≡ false = ground (arith, got) in
    let nonzero : (buf == 0) ≡ false = ground (arith, at) in
    let there : (u32 (buf + pos.offset) == 0) ≡ false = ground (arith, at, top) in
    let e : ltb num max_files_per_part ≡ true = ground arith in
    let same = ==_refl fresh in
    (
      fresh,
      record { addr = fresh; i_no = stored num; open_cnt = 1 } ∷ es,
      rw (e, within, here, there, nonzero) refl,
      rw same refl,
    )
open_new-close stored in_array_addr fresh buf num es (some (a, es')) lt low got at top u =
    (a, es', refl, u.1)

-- For an inode number below 4096 whose sector is within the driver's last one, and addresses from
-- sys_kmalloc that are not NULL, the second with a sector's room below 2^32, on a table of open
-- inodes (IsTable): inode_open succeeds, whether the inode is open already or not, and
-- closing what it returns leaves the table of open inodes, with its counts, as it was.
pub inode_open-inode_close :
    (stored : ℕ → ℕ) (in_array_addr fresh buf num : ℕ) (es : List Opened)
    → num < max_files_per_part
    → in_array_addr + num * inode_bytes / sector_size ≤ max_lba
    → 0 < fresh
    → 0 < buf
    → buf + sector_size ≤ 2 ^ 32
    → IsTable es
    → (a : ℕ) × (es' : List Opened) × (inode_open stored in_array_addr fresh buf num es
        ≡ ok (a, es'))
      × (inode_close a es' ≡ es)
unfolding inode_open
inode_open-inode_close stored in_array_addr fresh buf num es lt low got at top t =
    open_new-close stored in_array_addr fresh buf num es (open_in num es) lt low got at top
      (open_in-Undone num es t)
