-- ===== src/Tss/Descriptor.antt =====
-- What the processor reads from a descriptor.
use xbay_os.Tss.{GdtDesc, make_gdt_desc}
use xbay_os.Bitmap.Scan.{limit}
use xbay_os.Base.{arith, ℕ, ◌%◌, ◌*◌, ◌+◌, ◌/◌, ◌<◌, ◌^◌, ◌↔◌, ◌≡◌}

-- The base address and the limit of a descriptor, as the processor puts them together
abbrev pub base_of : GdtDesc → ℕ
base_of d = d.base_low_word + d.base_mid_byte * 2 ^ 16 + d.base_high_byte * 2 ^ 24

abbrev pub limit_of : GdtDesc → ℕ
limit_of d = d.limit_low_word + d.limit_high_attr_high % 2 ^ 4 * 2 ^ 16

-- For a 32-bit address, a 20-bit limit and attributes in the high four bits of a byte, a descriptor
-- of make_gdt_desc has the limit and the attributes. It has the address exactly when the
-- uninitialised byte happens to be the third byte of the address.
make_gdt_desc_iff :
    (stale addr limit attr_low attr_high : ℕ)
    → addr < 2 ^ 32
    → limit < 2 ^ 20
    → attr_high < 2 ^ 8
    → attr_high % 2 ^ 4 ≡ 0
    → let d = make_gdt_desc stale addr limit attr_low attr_high in
      (limit_of d ≡ limit)
      × (d.limit_high_attr_high / 2 ^ 4 ≡ attr_high / 2 ^ 4)
      × ((base_of d ≡ addr) ↔ (stale ≡ addr / 2 ^ 16 % 2 ^ 8))
unfolding make_gdt_desc
make_gdt_desc_iff stale addr limit attr_low attr_high ha hl hh nibble =
    (omega arith, omega arith, ((λ e. omega arith), (λ e. omega arith)))
