-- ===== src/Dir/Lookup.antt =====
-- find_entry looks at first characters only.
use xbay_os.Fs.{dir_entry_bytes}
use xbay_os.Strings.Compare.{order, order_iff, strcmp-first}
use xbay_os.Strings.Block.{memcpy-memcpy_loop}
use xbay_os.Strings.{memcpy_loop}
use xbay_os.Dir.{find_loop, Mem, find_entry}
use xbay_os.Base.{
  Bool, Bool-cases, Run, ap, arith, false, inl, inr, ok, refl, suc, true, zero, ℕ, ◌*◌, ◌+◌, ◌<◌,
  ◌==◌, ◌∙◌, ◌≡◌, ◌≢◌, ◌≤◌, ◌⊎◌, sym, ◌-◌,
}

-- The j-th entry has a name that starts as the name that is looked up, and none before has.
abbrev pub FirstLike : (m : Mem) → (left table name j : ℕ) → Type 0
FirstLike m left table name j =
    (j < left)
    × (m (table + j * dir_entry_bytes + 4) ≡ m name)
    × ((k : ℕ) → k < j → m (table + k * dir_entry_bytes + 4) ≢ m name)

-- What find_entry answers: the first entry with the first character of the name, copied to e, or
-- false if there is none.
abbrev pub Found : (left table name e : ℕ) → Mem → Run (Bool × Mem) → Type 0
Found left table name e m run =
    ((j : ℕ) × FirstLike m left table name j
      × (run ≡ ok (true, memcpy_loop dir_entry_bytes e (table + j * dir_entry_bytes) m)))
    ⊎ (((k : ℕ) → k < left → m (table + k * dir_entry_bytes + 4) ≢ m name) × (run ≡ ok (false, m)))

-- A fact of all entries behind the first is one of all others.
later_entries :
    (n table name : ℕ) (m : Mem)
    → m (table + 4) ≢ m name
    → ((k : ℕ) → k < n → m (table + dir_entry_bytes + k * dir_entry_bytes + 4) ≢ m name)
    → (k : ℕ) → k < suc n
    → m (table + k * dir_entry_bytes + 4) ≢ m name
later_entries n table name m ne all k lt = elim (Bool-cases (k == 0)) [
  | inl z ↦ let e : table + k * dir_entry_bytes + 4 ≡ table + 4 = ground arith in rw e ne
  | inr p ↦
      let e : table + dir_entry_bytes + (k - 1) * dir_entry_bytes + 4
          ≡ table + k * dir_entry_bytes + 4 =
        ground arith in
      rw⁻¹ e (all (k - 1) (ground arith))
]

found_later :
    (left table name e : ℕ) (m : Mem) (run : Run (Bool × Mem))
    → m (table + 4) ≢ m name
    → Found left (table + dir_entry_bytes) name e m run
    → Found (suc left) table name e m run
found_later left table name e m run ne (inl (j, (lt, like, before), eq)) =
    let shift : table + dir_entry_bytes + j * dir_entry_bytes ≡ table + (j + 1) * dir_entry_bytes =
      omega arith in
    inl (
      j + 1,
      (
        omega arith,
        ap (λ (x : ℕ). m (x + 4)) (sym shift) ∙ like,
        λ k up. later_entries j table name m ne before k (omega arith),
      ),
      eq ∙ ap (λ (x : ℕ). ok (true, memcpy_loop dir_entry_bytes e x m)) shift,
    )
found_later left table name e m run ne (inr (all, eq)) =
    inr (later_entries left table name m ne all, eq)

find_loop-Found :
    (left fuel table name e : ℕ) (m : Mem)
    → ((a : ℕ) → m a < 256)
    → 0 < name
    → 0 < table
    → 0 < e
    → (name < table) ⊎ (table + left * dir_entry_bytes ≤ name)
    → Found left table name e m (find_loop left (suc fuel) table name e m)
unfolding find_loop
find_loop-Found zero fuel table name e m bytes hn ht he apart =
    inr ((λ k lt. absurd (omega arith)), refl)
find_loop-Found (suc left) fuel table name e m bytes hn ht he apart =
    let other : name ≢ table + 4 = λ s. omega (arith, s, apart) in
    let run = (strcmp-first fuel name (table + 4) m bytes hn (omega arith) other).0 in
    let o = order_iff (m name) (m (table + 4)) (bytes name) (bytes (table + 4)) in
    let copy = memcpy-memcpy_loop e table dir_entry_bytes m he ht in
    let at : table ≡ table + 0 * dir_entry_bytes = omega arith in
    let r = order (m name) (m (table + 4)) in
    elim (Bool-cases (r == 0)) [
      | inl e0 ↦
          let z : r ≡ 0 = ground arith in
          inl (
            0,
            (
              omega arith,
              ap (λ (x : ℕ). m (x + 4)) (sym at) ∙ sym (o.0 z),
              λ k lt. absurd (omega arith),
            ),
            rw (run, e0, copy) (ap (λ (x : ℕ). ok (true, memcpy_loop dir_entry_bytes e x m)) at),
          )
      | inr e0 ↦
          rw (run, e0)
            (found_later left table name e m _ (λ s. ground (arith, o.1 (sym s)))
              (find_loop-Found left fuel (table + dir_entry_bytes) name e m bytes hn (omega arith)
                he (ground (arith, apart))))
    ]

-- For a memory of bytes, pointers that are not NULL and a name outside of the table, find_entry
-- returns. It looks at the first character of a name only: it copies the first of the seven entries
-- that has the one of the name that is looked up, and answers true, or answers false, with memory as
-- it was, if there is none.
pub find_entry-Found :
    (fuel table name e : ℕ) (m : Mem)
    → ((a : ℕ) → m a < 256)
    → 0 < name
    → 0 < table
    → 0 < e
    → (name < table) ⊎ (table + 512 ≤ name)
    → Found 7 table name e m (find_entry (suc fuel) table name e m)
unfolding find_entry
find_entry-Found fuel table name e m bytes hn ht he apart =
    find_loop-Found 7 fuel table name e m bytes hn ht he (ground (arith, apart))
