-- ===== src/Fs/Never.antt =====
-- sys_open opens nothing: what it does is what path_depth does.
use xbay_os.Strings.Compare.{order, order_iff}
use xbay_os.Fs.Path.{path_depth, path_valid}
use xbay_os.Fs.Open.{
  Entry, PathRecord, ft_directory, is_root, search_file, ends_in_slash, first_byte, sys_open,
}
use xbay_os.Base.{
  Bool, List, Option, Run, [], arith, assert, false, none, not, ok, refl, some, ℕ, ◌==◌, ◌>>=◌,
  ◌>>◌, ◌||◌, ◌∷◌, ◌≡◌, Bool-cases, ap, if◌then◌else◌, inl, inr, panic, sym, ◌∙◌, ◌<◌,
}

abbrev root : PathRecord
root = record { prev = []; parent = 0; type = ft_directory }

order_other : (c : ℕ) → c < 256 → (c == 0x2f) ≡ false → (order c 0x2f == 0) ≡ false
order_other c lt ne =
    let o = order_iff c 0x2f lt (omega arith) in
    elim (Bool-cases (order c 0x2f == 0)) [
      | inl e ↦ let z : order c 0x2f ≡ 0 = ground arith in let q = o.0 z in ground arith
      | inr e ↦ e
    ]

-- is_root takes every path that starts with a slash, and no other, for the root directory.
is_root_iff :
    (path : List ℕ) (r : PathRecord)
    → first_byte path < 256
    → is_root path r ≡ (if first_byte path == 0x2f then some root else none)
is_root_iff [] r lt = refl
is_root_iff (c ∷ cs) r lt = elim (Bool-cases (c == 0x2f)) [
  | inl e ↦
      let e' : c ≡ 0x2f = ground arith in
      ap (λ (x : ℕ). is_root (x ∷ cs) r) e'
      ∙ ap (λ (x : ℕ). if x == 0x2f then some root else none) (sym e')
  | inr e ↦ rw (order_other c lt e, e) refl
]

path_valid-slash : (path : List ℕ) → (first_byte path == 0x2f) ≡ false → path_valid path ≡ false
unfolding path_valid
path_valid-slash [] e = refl
path_valid-slash (c ∷ cs) e = ground (arith, e)

module _ (exist : (dir : ℕ) → (name : List ℕ) → Entry → Bool × Entry)
    (create : (parent : ℕ) → (filename : List ℕ) → (flag : ℕ) → Run (Option ℕ)) where
  searched :
      (fuel : ℕ) (stale : Entry) (path : List ℕ) (r : PathRecord)
      → first_byte path < 256
      → search_file exist fuel stale path r
        ≡ (if first_byte path == 0x2f then ok (some 0, root) else panic)
  unfolding search_file
  searched fuel stale path r lt = elim (Bool-cases (first_byte path == 0x2f)) [
    | inl e ↦ rw (is_root_iff path r lt, e) refl
    | inr e ↦ rw (is_root_iff path r lt, e, path_valid-slash path e) refl
  ]

  -- For every path and every flag, whatever the directories hold and create_file would do, sys_open
  -- opens and creates nothing: it fails an assertion if the path ends in a slash, the flag is none
  -- of the four, or the path does not start with a slash; otherwise it takes the path for the root
  -- directory and returns -1 as soon as path_depth returns, whatever that returns.
  pub sys_open-path_depth :
      (fuel : ℕ) (stale : Entry) (junk : ℕ → List ℕ) (path : List ℕ) (flag : ℕ)
      → first_byte path < 256
      → sys_open exist create fuel stale junk path flag ≡ (do
        assert (not (ends_in_slash path))
        assert (flag == 0 || flag == 2 || flag == 1 || flag == 4)
        assert (first_byte path == 0x2f)
        depth ← path_depth fuel (junk 0) path
        ok none)
  unfolding sys_open
  sys_open-path_depth fuel stale junk path flag lt = elim (Bool-cases (first_byte path == 0x2f)) [
    | inl e ↦ rw (searched fuel stale path _ lt, e) refl
    | inr e ↦ rw (searched fuel stale path _ lt, e) refl
  ]
