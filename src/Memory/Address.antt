-- ===== src/Memory/Address.antt =====
-- The addresses of table entries, and what an entry translates.
use xbay_os.Memory.{entry_of, page_size, pde_ptr, present, pte_ptr}
use xbay_os.Base.{arith, false, refl, true, ℕ, ◌%◌, ◌*◌, ◌+◌, ◌/◌, ◌<◌, ◌==◌, ◌^◌, ◌≡◌}

-- An address that is not in the window of the page tables.
abbrev pub window : ℕ
window = 0xffc0_0000

pub pte_ptr_lem : (v : ℕ) → v < 2 ^ 32 → pte_ptr v ≡ window + 4 * (v / page_size)
pte_ptr_lem v h = omega arith

pub pte_ptr-ne :
    (v w : ℕ)
    → v < 2 ^ 32
    → w < 2 ^ 32
    → (v / page_size == w / page_size) ≡ false
    → (pte_ptr v == pte_ptr w) ≡ false
pte_ptr-ne v w hv hw ne =
    let a = pte_ptr_lem v hv in let b = pte_ptr_lem w hw in rw (a, b) (ground (arith, ne))

pub pte_ptr-same :
    (v w : ℕ) → v < 2 ^ 32 → w < 2 ^ 32 → v / page_size ≡ w / page_size → pte_ptr v ≡ pte_ptr w
pte_ptr-same v w hv hw e = let a = pte_ptr_lem v hv in let b = pte_ptr_lem w hw in rw (a, b, e) refl

-- No entry of a page below the window is an entry of the page directory.
pub pde_ptr-pte_ptr : (v w : ℕ) → v < 2 ^ 32 → w < window → (pde_ptr v == pte_ptr w) ≡ false
pde_ptr-pte_ptr v w hv hw = let b = pte_ptr_lem w (omega arith) in rw b (ground arith)

pub entry_of-present : (phy : ℕ) → present (entry_of phy) ≡ true
entry_of-present phy = ground arith

pub entry_of-frame : (phy : ℕ) → phy % page_size ≡ 0 → entry_of phy / 2 ^ 12 * 2 ^ 12 ≡ phy
entry_of-frame phy h = omega arith

pub cleared-absent : (e : ℕ) → present (e / 2 * 2) ≡ false
cleared-absent e = ground arith
