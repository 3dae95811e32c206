-- ===== src/Fs/Path.antt =====
-- parse_path, path_depth, path_valid and is_directory of fs/fs.c. A string is the list of its
-- characters without the NUL; 0x2f is the slash.
use mathlib.Core.List.{append_assoc, append-nil}
use xbay_os.Thread.Pick.{rest}
use xbay_os.Base.{
  Bool, List, Option, Run, [], arith, false, hang, has, if◌then◌else◌, length, ltb, none, not, ok,
  panic, refl, some, suc, zero, ℕ, ◌&&◌, ◌++◌, ◌+◌, ◌==◌, ◌∷◌, ◌≡◌, ap, ◌∙◌, ◌<◌,
}

abbrev pub skip_slashes : List ℕ → List ℕ
skip_slashes [] = []
skip_slashes (c ∷ cs) = let rest = skip_slashes cs in if c == 0x2f then rest else c ∷ cs

-- The second loop of parse_path: the characters that it copies to `first`, and where it stops.
abbrev pub take_name : List ℕ → List ℕ × List ℕ
take_name [] = ([], [])
take_name (c ∷ cs) =
    let r = take_name cs in if not (c == 0x2f) then (c ∷ r.0, r.1) else ([], c ∷ cs)

-- parse_path, of a path that is not NULL: the result, or NULL, and what is copied to `first`
abbrev pub parse_path : List ℕ → Option (List ℕ) × List ℕ
parse_path [] = (none, [])
parse_path (c ∷ cs) = let r = take_name (skip_slashes (c ∷ cs)) in (some r.1, r.0)

-- How a round of path_depth goes on from the result of parse_path. The read through a result NULL
-- is a panic here.
abbrev pub depth_next : Option (List ℕ) → (next : List ℕ → Run ℕ) → (depth : ℕ) → Run ℕ
depth_next none next depth = panic
depth_next (some []) next depth = ok depth
depth_next (some (c ∷ cs)) next depth = next (c ∷ cs)

-- The loop of path_depth: path is the pointer, and p the copy that each round parses.
unfoldable pub depth_loop : (fuel : ℕ) → (p path : List ℕ) → (depth : ℕ) → Run ℕ
depth_loop zero p path depth = hang
depth_loop (suc fuel) p [] depth = ok depth
depth_loop (suc fuel) p (c ∷ cs) depth =
    depth_next (parse_path p).0 (λ path. depth_loop fuel p path (depth + 1)) depth

-- path_depth; `junk` are the characters that stand behind p, up to the next NUL
unfoldable pub path_depth : (fuel : ℕ) → (junk path : List ℕ) → Run ℕ
unfolding depth_loop
path_depth fuel junk path = depth_loop fuel (path ++ junk) path 0

-- path_valid
unfoldable pub path_valid : List ℕ → Bool
path_valid [] = false
path_valid (c ∷ cs) = ltb 1 (length (c ∷ cs)) && (c == 0x2f) && ltb (length (c ∷ cs)) 512

abbrev pub slashes : ℕ → List ℕ
slashes zero = []
slashes (suc n) = 0x2f ∷ slashes n

take_name-split :
    (name rest : List ℕ)
    → has 0x2f name ≡ false
    → take_name (name ++ 0x2f ∷ rest) ≡ (name, 0x2f ∷ rest)
take_name-split [] rest h = refl
take_name-split (c ∷ cs) rest h =
    let ne : (c == 0x2f) ≡ false = ground arith in
    rw (ne, take_name-split cs rest (ground arith)) refl

take_name-end : (name : List ℕ) → has 0x2f name ≡ false → take_name name ≡ (name, [])
take_name-end [] h = refl
take_name-end (c ∷ cs) h =
    let ne : (c == 0x2f) ≡ false = ground arith in rw (ne, take_name-end cs (ground arith)) refl

skip_slashes-drop :
    (n : ℕ) (c : ℕ) (cs : List ℕ)
    → (c == 0x2f) ≡ false
    → skip_slashes (slashes n ++ c ∷ cs) ≡ c ∷ cs
skip_slashes-drop zero c cs h = rw h refl
skip_slashes-drop (suc n) c cs h = skip_slashes-drop n c cs h

-- parse_path of slashes, a component without a slash, and what follows it from the next slash on,
-- copies the component and returns what follows.
pub parse_path-first :
    (n c : ℕ) (name rest : List ℕ)
    → has 0x2f (c ∷ name) ≡ false
    → (parse_path (slashes n ++ (c ∷ (name ++ (0x2f ∷ rest)))) ≡ (some (0x2f ∷ rest), c ∷ name))
      × (parse_path (slashes n ++ c ∷ name) ≡ (some [], c ∷ name))
parse_path-first zero c name rest h =
    let ne : (c == 0x2f) ≡ false = ground arith in
    (
      rw (ne, take_name-split name rest (ground arith), ne) refl,
      rw (ne, take_name-end name (ground arith), ne) refl,
    )
parse_path-first (suc n) c name rest h =
    let ne : (c == 0x2f) ≡ false = ground arith in
    (
      rw
          (
            skip_slashes-drop n c (name ++ 0x2f ∷ rest) ne,
            ne,
            take_name-split name rest (ground arith),
          )
          refl,
      rw (skip_slashes-drop n c name ne, ne, take_name-end name (ground arith)) refl,
    )

stuck :
    (fuel : ℕ) (p : List ℕ) (d : ℕ) (ds : List ℕ) (c : ℕ) (cs : List ℕ) (depth : ℕ)
    → (parse_path p).0 ≡ some (d ∷ ds)
    → depth_loop fuel p (c ∷ cs) depth ≡ hang
unfolding depth_loop
stuck zero p d ds c cs depth h = refl
stuck (suc fuel) p d ds c cs depth h = rw (h, stuck fuel p d ds d ds (depth + 1) h) refl

depth_once :
    (fuel : ℕ) (p : List ℕ) (c : ℕ) (cs : List ℕ) (depth : ℕ)
    → (parse_path p).0 ≡ some []
    → depth_loop (suc fuel) p (c ∷ cs) depth ≡ ok depth
unfolding depth_loop
depth_once fuel p c cs depth h = rw h refl

-- path_depth does not count, where the first component fits its buffer: on slashes and one component it returns 0, if a NUL follows its copy of
-- the path, and with a slash behind the first component it never returns, whatever follows the copy,
-- since each round parses the path from its start.
pub path_depth-first :
    (n c : ℕ) (name rest junk : List ℕ)
    → has 0x2f (c ∷ name) ≡ false
    → length (c ∷ name) < 64
    → ((fuel : ℕ) → path_depth (suc fuel) [] (slashes (suc n) ++ c ∷ name) ≡ ok 0)
      × ((fuel : ℕ)
          → path_depth fuel junk (slashes (suc n) ++ (c ∷ (name ++ (0x2f ∷ rest)))) ≡ hang)
unfolding path_depth
path_depth-first n c name rest junk h fits =
    let one = slashes n ++ c ∷ name in
    let more = name ++ (0x2f ∷ rest) in
    let behind : (name ++ (0x2f ∷ rest)) ++ junk ≡ name ++ (0x2f ∷ (rest ++ junk)) =
      append_assoc name (0x2f ∷ rest) junk in
    let copy : (slashes (suc n) ++ (c ∷ more)) ++ junk
        ≡ slashes (suc n) ++ (c ∷ (name ++ (0x2f ∷ (rest ++ junk)))) =
      append_assoc (slashes (suc n)) (c ∷ more) junk
      ∙ ap (λ r. slashes (suc n) ++ (c ∷ r)) behind in
    (
      (λ fuel.
          ap (λ p. depth_loop (suc fuel) p (0x2f ∷ one) 0) (append-nil (0x2f ∷ one))
          ∙ depth_once fuel (0x2f ∷ one) 0x2f one 0
              (ap (λ r. r.0) (parse_path-first (suc n) c name [] h).1)),
      λ fuel.
          stuck fuel ((slashes (suc n) ++ (c ∷ more)) ++ junk) 0x2f (rest ++ junk) 0x2f
            (slashes n ++ (c ∷ more)) 0
            (ap (λ p. (parse_path p).0) copy
              ∙ ap (λ r. r.0) (parse_path-first (suc n) c name (rest ++ junk) h).0),
    )
