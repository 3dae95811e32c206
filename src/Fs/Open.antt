-- ===== src/Fs/Open.antt =====
-- search_file and sys_open of fs/fs.c. Paths are lists of characters, as in Fs/Path. dir_exist and
-- create_file, which Dir and Fs/Create model, are parameters here; a directory is the number of its
-- inode.
use xbay_os.Strings.Compare.{order}
use xbay_os.Fs.Path.{parse_path, path_depth, path_valid}
use xbay_os.Base.{
  Bool, List, Option, Run, [], assert, false, hang, has, if◌then◌else◌, none, not, ok, some, suc,
  true, zero, ℕ, ◌%◌, ◌&&◌, ◌++◌, ◌/◌, ◌==◌, ◌>>=◌, ◌>>◌, ◌||◌, ◌∷◌,
}

pub data FileType : Type 0 where
  ft_unkown ft_file ft_directory : FileType

pub data EntryType : Type 0 where
  et_unkown et_file et_directory : EntryType

-- struct __path_record
pub record PathRecord : Type 0 where
  pub prev : List ℕ
  pub parent : ℕ
  pub type : FileType

-- The fields of struct __dir_entry that search_file reads
pub record Entry : Type 0 where
  pub inode_no : ℕ
  pub type : EntryType

-- The byte at the address of a string
abbrev pub first_byte : List ℕ → ℕ
first_byte [] = 0
first_byte (c ∷ cs) = c

-- strcmp of two strings at different addresses (Strings/Compare)
abbrev pub strcmp_of : List ℕ → List ℕ → ℕ
strcmp_of a b = order (first_byte a) (first_byte b)

-- is_root: its loop over root_paths, and the record that it sets; the root directory has inode 0
abbrev pub root_loop : (root_paths : List (List ℕ)) → List ℕ → PathRecord → Option PathRecord
root_loop [] path record' = none
root_loop (p ∷ ps) path record' =
    let next = root_loop ps path record' in
    if strcmp_of path p == 0
    then some (record { prev = []; parent = 0; type = ft_directory })
    else next

abbrev pub is_root : List ℕ → PathRecord → Option PathRecord
is_root path record' =
    root_loop ((0x2f ∷ []) ∷ (0x2f ∷ 46 ∷ 46 ∷ []) ∷ (0x2f ∷ 46 ∷ []) ∷ []) path record'

-- The next component, if sub is not NULL: sub and name
abbrev pub next_name : Option (List ℕ) → Option (List ℕ) × List ℕ
next_name none = (none, [])
next_name (some sub) = parse_path sub

module _ (exist : (dir : ℕ) → (name : List ℕ) → Entry → Bool × Entry) where
  -- The loop of search_file; the result is -1 as none
  unfoldable pub search_loop :
      (fuel : ℕ)
      → Option (List ℕ)
      → (name : List ℕ) → (parent pinode_no : ℕ) → Entry
      → PathRecord
      → Run (Option ℕ × PathRecord)
  search_loop zero sub name parent pinode_no entry r = hang
  search_loop (suc fuel) sub [] parent pinode_no entry r =
      ok (some entry.inode_no, record r { parent = pinode_no; type = ft_directory })
  search_loop (suc fuel) sub (c ∷ cs) parent pinode_no entry r =
      let (found, e) = exist parent (c ∷ cs) entry in
      let r1 = record r { prev = r.prev ++ 0x2f ∷ c ∷ cs } in
      let (sub', name') = next_name sub in
      let inside =
        search_loop fuel sub' name' e.inode_no parent e (record r1 { parent = e.inode_no }) in
      let again = search_loop fuel sub' name' parent pinode_no e r1 in
      if found
      then (elim e.type [
        | et_unkown ↦ again
        | et_file ↦ ok (some e.inode_no, record r1 { type = ft_file })
        | et_directory ↦ inside
      ])
      else ok (none, r1)

  abbrev pub search_rest :
      (fuel : ℕ)
      → (stale : Entry) → (path : List ℕ) → Option PathRecord
      → PathRecord
      → Run (Option ℕ × PathRecord)
  search_rest fuel stale path (some r') r = ok (some 0, r')
  search_rest fuel stale path none r = do
    assert (path_valid path)
    search_loop fuel (parse_path path).0 (parse_path path).1 0 0 stale
        (record r { parent = 0; type = ft_unkown })

  -- search_file; `stale` is the entry on the stack
  unfoldable pub search_file :
      (fuel : ℕ) → (stale : Entry) → (path : List ℕ) → PathRecord → Run (Option ℕ × PathRecord)
  search_file fuel stale path r = search_rest fuel stale path (is_root path r) r

-- path[strlen(path)-1] == '/'
abbrev pub ends_in_slash : List ℕ → Bool
ends_in_slash [] = false
ends_in_slash (c ∷ []) = c == 0x2f
ends_in_slash (c ∷ d ∷ cs) = ends_in_slash (d ∷ cs)

-- strrchr(path, '/') + 1
abbrev pub file_name : List ℕ → List ℕ
file_name [] = []
file_name (c ∷ cs) =
    let rest = file_name cs in
    if has 0x2f (c ∷ cs) then (if has 0x2f cs then rest else cs) else c ∷ cs

abbrev pub is_some_number : Option ℕ → Bool
is_some_number none = false
is_some_number (some n) = true

abbrev pub is_ft_directory : FileType → Bool
is_ft_directory ft_directory = true
is_ft_directory _ = false

-- flag & O_CREAT, of a flag that sys_open accepts
abbrev pub creates : ℕ → Bool
creates flag = flag / 4 % 2 == 1

module _ (exist : (dir : ℕ) → (name : List ℕ) → Entry → Bool × Entry)
    (create : (parent : ℕ) → (filename : List ℕ) → (flag : ℕ) → Run (Option ℕ)) where
  -- The end of sys_open, given whether the depths of the path and of what was found are the same
  abbrev pub open_same :
      (same_depth : Bool) → (path : List ℕ) → (flag : ℕ) → Option ℕ × PathRecord → Run (Option ℕ)
  open_same same_depth path flag (inode_no, r) =
      if not same_depth
        || not (is_some_number inode_no) && not (creates flag)
        || is_some_number inode_no && creates flag
      then ok none
      else if creates flag
      then create r.parent (file_name path) flag
      else ok none

  -- sys_open from the result of search_file on; `junk` are the bytes behind the copies of path_depth
  abbrev pub open_found :
      (fuel : ℕ)
      → (junk : ℕ → List ℕ) → (path : List ℕ) → (flag : ℕ) → Option ℕ × PathRecord
      → Run (Option ℕ)
  open_found fuel junk path flag (inode_no, r) = path_depth fuel (junk 0) path >>= λ pdepth.
      let later = path_depth fuel (junk 1) r.prev >>= λ rdepth.
      open_same (pdepth == rdepth) path flag (inode_no, r) in
      if is_ft_directory r.type then ok none else later

  -- sys_open, with the flags O_RDONLY 0, O_RDWR 2, O_WRONLY 1 and O_CREAT 4; -1 is none
  unfoldable pub sys_open :
      (fuel : ℕ)
      → (stale : Entry) → (junk : ℕ → List ℕ) → (path : List ℕ) → (flag : ℕ) → Run (Option ℕ)
  sys_open fuel stale junk path flag = do
    assert (not (ends_in_slash path))
    assert (flag == 0 || flag == 2 || flag == 1 || flag == 4)
    found ← search_file exist fuel stale path (record { prev = []; parent = 0; type = ft_unkown })
    open_found fuel junk path flag found
