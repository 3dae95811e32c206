-- ===== src/Fs/Kept.antt =====
-- The loops of fs_init on a disk whose partitions all have a file system: nothing is written.
use xbay_os.Strings.Compare.{order, order_iff, strcmp-first}
use xbay_os.Intr.{same}
use xbay_os.Disk.{max_lba}
use xbay_os.Fs.Mount.{mount_run, reach}
use xbay_os.Strings.{Mem}
use xbay_os.Fs.Init.{FsState, Given, has_magic, logic_loop, prim_loop, fs_init}
use xbay_os.Fs.Build.{can_read, from_sector, mounted, super_of}
use xbay_os.Fs.{SuperBlock}
use xbay_os.Disk.Partition.{Part, Parts}
use xbay_os.Base.{
  Bool-cases, Run, arith, inl, inr, ok, refl, some, suc, true, u32, zero, ℕ, ◌+◌, ◌<◌, ◌==◌, ◌≡◌,
  ◌≢◌, ◌≤◌, ◌⊎◌, ap, ◌∙◌, false,
}

-- The superblock that mount_part reads for a partition
abbrev pub super_at : (ℕ → ℕ → ℕ) → Part → SuperBlock
super_at disk part = super_of (from_sector disk (u32 (part.start + 1)))

module _ (given : ℕ → Given) (fuel : ℕ) (m : Mem) (name : ℕ → ℕ) (default : ℕ)
    (bytes : (a : ℕ) → m a < 256) (got : (k a : ℕ) → 0 < (given k).alloc a)
    (named : (i : ℕ) → (0 < name i) × (name i ≢ default)) (known : 0 < default) where
  -- Partition j is in use, and its name starts as the default one.
  abbrev pub Like : (ℕ → Part) → ℕ → Type 0
  Like parts j = (0 < (parts j).count) × (m (name j) ≡ m default)

  -- Of the partitions from i on, one that starts as the default one is mounted, or there is none and
  -- nothing has changed. The disk is what it was.
  abbrev pub Looked : (left i : ℕ) → (ℕ → Part) → FsState → Run FsState → Type 0
  Looked left i parts s run =
      (s' : FsState) × (run ≡ ok s')
      × (s'.disk ≡ s.disk)
      × (((j : ℕ) × (i ≤ j)
            × (j < i + left)
            × Like parts j
            × (s'.curr ≡ some (mounted s.disk (super_at s.disk (parts j)))))
          ⊎ ((s'.curr ≡ s.curr) × ((j : ℕ) → i ≤ j → j < i + left → ¬ (Like parts j))))

  -- ide_read accepts the sectors of the parts that mount_part reads.
  abbrev pub Readable : (ℕ → ℕ → ℕ) → Part → Type 0
  Readable disk part =
      (can_read (super_at disk part).fb_bmap_addr (super_at disk part).fb_bmap_size ≡ true)
      × (can_read (super_at disk part).in_bmap_addr (super_at disk part).in_bmap_size ≡ true)

  -- A partition in use has the magic number in a superblock within the driver's last sector.
  abbrev AllMagic : (left i : ℕ) → (ℕ → Part) → (ℕ → ℕ → ℕ) → Type 0
  AllMagic left i parts disk =
      (j : ℕ)
      → i ≤ j
      → j < i + left
      → 0 < (parts j).count
      → ((parts j).start + 1 ≤ max_lba) × (has_magic (disk (u32 ((parts j).start + 1))) ≡ true)

  logic_loop-kept :
      (left i : ℕ) (parts : ℕ → Part) (disk : ℕ → ℕ → ℕ)
      → AllMagic left i parts disk
      → logic_loop given fuel m name default left i parts disk ≡ ok disk
  unfolding logic_loop
  logic_loop-kept zero i parts disk h = refl
  logic_loop-kept (suc left) i parts disk h =
      let rest =
        logic_loop-kept left (i + 1) parts disk (λ j lo hi. h j (omega arith) (omega arith)) in
      elim (Bool-cases ((parts i).count == 0)) [
        | inl e ↦ rw e rest
        | inr e ↦
            let (low, magic) = h i (omega arith) (omega arith) (ground arith) in
            let first = reach ((parts i).start + 1) low in rw (e, first, magic) rest
      ]

  Looked-on :
      (left i : ℕ) (parts : ℕ → Part) (s : FsState) (run : Run FsState)
      → ¬ (Like parts i)
      → Looked left (i + 1) parts s run
      → Looked (suc left) i parts s run
  Looked-on left i parts s run no_like (s', e, same, inl (j, lo, hi, like, at)) =
      (s', e, same, inl (j, omega arith, omega arith, like, at))
  Looked-on left i parts s run no_like (s', e, same, inr (at, out)) = (
    s',
    e,
    same,
    inr (
      at,
      λ j lo hi. elim (Bool-cases (j == i)) [
        | inl q ↦ let q' : j ≡ i = ground arith in rw q' no_like
        | inr q ↦ out j (ground arith) (omega arith)
      ],
    ),
  )

  -- Behind a partition that has been mounted
  Looked-mounted :
      (left i : ℕ) (parts : ℕ → Part) (s s1 : FsState) (run : Run FsState)
      → Like parts i
      → s1.disk ≡ s.disk
      → s1.curr ≡ some (mounted s.disk (super_at s.disk (parts i)))
      → Looked left (i + 1) parts s1 run
      → Looked (suc left) i parts s run
  Looked-mounted left i parts s s1 run like d c (s', e, same, inl (j, lo, hi, like', at)) = (
    s',
    e,
    same ∙ d,
    inl (
      j,
      omega arith,
      omega arith,
      like',
      at ∙ ap (λ (k : ℕ → ℕ → ℕ). some (mounted k (super_at k (parts j)))) d,
    ),
  )
  Looked-mounted left i parts s s1 run like d c (s', e, same, inr (at, out)) =
      (s', e, same ∙ d, inl (i, omega arith, omega arith, like, at ∙ c))

  prim_loop-Looked :
      (left i : ℕ) (parts : ℕ → Part) (s : FsState)
      → AllMagic left i parts s.disk
      → ((j : ℕ) → Like parts j → Readable s.disk (parts j))
      → Looked left i parts s (prim_loop given (suc fuel) m name default left i parts s)
  unfolding prim_loop
  prim_loop-Looked zero i parts s h can =
      (s, refl, refl, inr (refl, λ j lo hi. absurd (omega arith)))
  prim_loop-Looked (suc left) i parts s h can =
      let later : (s1 : FsState) → s1.disk ≡ s.disk → AllMagic left (i + 1) parts s1.disk =
        λ s1 d j lo hi used. rw d (h j (omega arith) (omega arith) used) in
      elim (Bool-cases ((parts i).count == 0)) [
        | inl e ↦ rw e (
            Looked-on left i parts s _ (λ l. ground (arith, l.0))
              (prim_loop-Looked left (i + 1) parts s (later s refl) can))
        | inr e ↦
            let (low, magic) = h i (omega arith) (omega arith) (ground arith) in
            let first = reach ((parts i).start + 1) low in
            let run =
              (strcmp-first fuel (name i) default m bytes (named i).0 known (named i).1).0 in
            let o = order_iff (m (name i)) (m default) (bytes (name i)) (bytes default) in
            elim (Bool-cases (order (m (name i)) (m default) == 0)) [
              | inl z ↦
                  let s1 : FsState = record {
                    disk = s.disk;
                    curr = some (mounted s.disk (super_at s.disk (parts i)));
                  } in
                  let like : Like parts i = (ground arith, o.0 (ground arith)) in
                  let (blocks, inodes) = can i like in
                  let mount =
                    mount_run (given i).alloc s.disk (parts i).start (super_at s.disk (parts i))
                      (got i) first blocks inodes refl in
                  rw (e, first, magic, run, z, mount)
                    (Looked-mounted left i parts s s1 _ like refl refl
                      (prim_loop-Looked left (i + 1) parts s1 (later s1 refl) can))
              | inr z ↦
                  rw (e, first, magic, run, z)
                    (Looked-on left i parts s _ (λ l. ground (arith, o.1 l.1))
                      (prim_loop-Looked left (i + 1) parts s (later s refl) can))
            ]
      ]

nonzero : (a : ℕ) → 0 < a → (a == 0) ≡ false
nonzero a h = ground arith

-- On partitions in use that all have a superblock's magic number within the driver's last sector, with
-- names and addresses that are not NULL, the names not at the default one's address, and with parts within the driver's last sector on the
-- partitions whose name starts like the default name: the loops of fs_init come to the call of
-- open_root and leave the disk as it was. curr_part is then a primary partition whose name has the first
-- character of the default name or, if there is none, what it was.
pub fs_init-kept :
    (given : ℕ → Given) (fuel : ℕ) (m : Mem) (name : ℕ → ℕ) (default sb : ℕ) (ps : Parts)
    (s : FsState)
    → ((a : ℕ) → m a < 256)
    → ((k a : ℕ) → 0 < (given k).alloc a)
    → ((i : ℕ) → (0 < name i) × (name i ≢ default))
    → 0 < default
    → 0 < sb
    → ((i : ℕ)
        → i < 4
        → 0 < (ps.prim_parts i).count
        → ((ps.prim_parts i).start + 1 ≤ max_lba)
          × (has_magic (s.disk (u32 ((ps.prim_parts i).start + 1))) ≡ true))
    → ((i : ℕ)
        → i < 8
        → 0 < (ps.logic_parts i).count
        → ((ps.logic_parts i).start + 1 ≤ max_lba)
          × (has_magic (s.disk (u32 ((ps.logic_parts i).start + 1))) ≡ true))
    → ((i : ℕ)
        → (0 < (ps.prim_parts i).count) × (m (name i) ≡ m default)
        → (can_read
              (super_at s.disk (ps.prim_parts i)).fb_bmap_addr
              (super_at s.disk (ps.prim_parts i)).fb_bmap_size
            ≡ true)
          × (can_read
                (super_at s.disk (ps.prim_parts i)).in_bmap_addr
                (super_at s.disk (ps.prim_parts i)).in_bmap_size
              ≡ true))
    → (s' : FsState) × (fs_init given (suc fuel) m name default sb ps s ≡ ok s')
      × (s'.disk ≡ s.disk)
      × (((j : ℕ) × (j < 4)
            × (0 < (ps.prim_parts j).count)
            × (m (name j) ≡ m default)
            × (s'.curr ≡ some (mounted s.disk (super_at s.disk (ps.prim_parts j)))))
          ⊎ ((s'.curr ≡ s.curr)
              × ((j : ℕ) → j < 4 → 0 < (ps.prim_parts j).count → m (name j) ≢ m default)))
unfolding fs_init
fs_init-kept given fuel m name default sb ps s bytes got named known there prim logic can =
    let (s', run, same, res) =
      prim_loop-Looked given fuel m name default bytes got named known 4 0 ps.prim_parts s
        (λ j lo hi used. prim j hi used) can in
    let logical =
      logic_loop-kept given (suc fuel) m name default bytes got named known 8 0 ps.logic_parts
        s.disk (λ j lo hi used. logic j hi used) in
    let address = nonzero sb there in
    (
      record { disk = s.disk; curr = s'.curr },
      rw (address, run, same, logical) refl,
      refl,
      elim res [
        | inl (j, _, lt, like, at) ↦ inl (j, lt, like.0, like.1, at)
        | inr (at, out) ↦ inr (at, λ j lt used like. out j (omega arith) lt (used, like))
      ],
    )
