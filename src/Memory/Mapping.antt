-- ===== src/Memory/Mapping.antt =====
-- What page_table_add and page_table_remove do to the translation of addresses.
use xbay_os.Memory.Address.{
  entry_of-frame, entry_of-present, pte_ptr-ne, pte_ptr-same, cleared-absent, pde_ptr-pte_ptr,
  window,
}
use xbay_os.Memory.{
  Mem, entry_of, page_size, page_table_add, pde_ptr, present, pte_ptr, vaddr_to_phy,
  page_table_remove,
}
use xbay_os.Base.{
  ==_refl, arith, false, ok, refl, true, update, ℕ, ◌%◌, ◌+◌, ◌/◌, ◌<◌, ◌==◌, ◌^◌, ◌≡◌, ◌≤◌, ◌*◌,
}

abbrev pub with_entry : (vaddr phyaddr : ℕ) → Mem → Mem
with_entry vaddr phyaddr m = record m { word = update m.word (pte_ptr vaddr) (entry_of phyaddr) }

-- The page of vaddr translates to the frame, and the entries of other pages and of the directory
-- are those of m.
abbrev pub Translated : (vaddr phyaddr : ℕ) → (word word' : ℕ → ℕ) → Type 0
Translated vaddr phyaddr word word' =
    (present (word' (pte_ptr vaddr)) ≡ true)
    × ((v : ℕ)
        → v < 2 ^ 32
        → v / page_size ≡ vaddr / page_size
        → vaddr_to_phy word' v ≡ phyaddr + v % page_size)
    × ((v : ℕ)
        → v < 2 ^ 32
        → (v / page_size == vaddr / page_size) ≡ false
        → word' (pte_ptr v) ≡ word (pte_ptr v))
    × ((v : ℕ) → v < 2 ^ 32 → word' (pde_ptr v) ≡ word (pde_ptr v))

update_same : (word : ℕ → ℕ) (a e : ℕ) → update word a e a ≡ e
update_same word a e = let t = ==_refl a in rw (t, update) refl

update_other : (word : ℕ → ℕ) (a e b : ℕ) → (b == a) ≡ false → update word a e b ≡ word b
update_other word a e b ne = rw (ne, update) refl

entry-Translated :
    (vaddr phyaddr : ℕ) (m : Mem)
    → vaddr < window
    → phyaddr % page_size ≡ 0
    → phyaddr + page_size ≤ 2 ^ 32
    → Translated vaddr phyaddr m.word (with_entry vaddr phyaddr m).word
entry-Translated vaddr phyaddr m hv al hp =
    let new = update_same m.word (pte_ptr vaddr) (entry_of phyaddr) in
    (
      rw new (entry_of-present phyaddr),
      (λ v h e.
          let s = pte_ptr-same v vaddr h (omega arith) e in
          let f = entry_of-frame phyaddr al in rw (s, new, f) (omega arith)),
      (λ v h ne.
          update_other m.word (pte_ptr vaddr) (entry_of phyaddr) (pte_ptr v)
            (pte_ptr-ne v vaddr h (omega arith) ne)),
      (λ v h.
          update_other m.word (pte_ptr vaddr) (entry_of phyaddr) (pde_ptr v)
            (pde_ptr-pte_ptr v vaddr h hv)),
    )

-- If the directory has a table for an address below the page tables, and the page is not mapped,
-- page_table_add succeeds: the addresses of the page translate to those of the frame, and the
-- entries of all other pages and of the directory stay.
pub page_table_add-Translated :
    (vaddr phyaddr : ℕ) (m : Mem)
    → vaddr < window
    → phyaddr % page_size ≡ 0
    → phyaddr + page_size ≤ 2 ^ 32
    → present (m.word (pde_ptr vaddr)) ≡ true
    → present (m.word (pte_ptr vaddr)) ≡ false
    → (page_table_add vaddr phyaddr m ≡ ok (with_entry vaddr phyaddr m))
      × Translated vaddr phyaddr m.word (with_entry vaddr phyaddr m).word
unfolding page_table_add
page_table_add-Translated vaddr phyaddr m hv al hp table free =
    (rw (table, free) refl, entry-Translated vaddr phyaddr m hv al hp)

-- The state behind page_table_remove.
abbrev pub without_entry : (vaddr : ℕ) → Mem → Mem
without_entry vaddr m = record m {
  word = update m.word (pte_ptr vaddr) (m.word (pte_ptr vaddr) / 2 * 2);
}

-- Behind page_table_remove the page is not mapped, and the entries of all other pages and of the
-- directory stay.
pub page_table_remove_lem :
    (vaddr : ℕ) (m : Mem)
    → vaddr < window
    → present (m.word (pde_ptr vaddr)) ≡ true
    → (page_table_remove vaddr m ≡ ok (without_entry vaddr m))
      × (present ((without_entry vaddr m).word (pte_ptr vaddr)) ≡ false)
      × ((v : ℕ)
          → v < 2 ^ 32
          → (v / page_size == vaddr / page_size) ≡ false
          → (without_entry vaddr m).word (pte_ptr v) ≡ m.word (pte_ptr v))
      × ((v : ℕ) → v < 2 ^ 32 → (without_entry vaddr m).word (pde_ptr v) ≡ m.word (pde_ptr v))
unfolding page_table_remove
page_table_remove_lem vaddr m hv table =
    let e = m.word (pte_ptr vaddr) / 2 * 2 in
    (
      rw table refl,
      rw (update_same m.word (pte_ptr vaddr) e) (cleared-absent (m.word (pte_ptr vaddr))),
      (λ v h ne.
          update_other m.word (pte_ptr vaddr) e (pte_ptr v)
            (pte_ptr-ne v vaddr h (omega arith) ne)),
      (λ v h. update_other m.word (pte_ptr vaddr) e (pde_ptr v) (pde_ptr-pte_ptr v vaddr h hv)),
    )
