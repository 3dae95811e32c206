-- ===== src/Tss.antt =====
-- proc/tss.c: the task state segment and the descriptors that tss_init puts into the table of the
-- loader. The instructions lgdt and ltr are not part of the model.
pub mod Descriptor
mod Tests
use xbay_os.Bitmap.Scan.{limit}
use xbay_os.Base.{u32, u8, update, ℕ, ◌%◌, ◌*◌, ◌+◌, ◌-◌, ◌/◌, ◌^◌}

-- struct __gdt_desc
pub record GdtDesc : Type 0 where
  pub limit_low_word : ℕ
  pub base_low_word : ℕ
  pub base_mid_byte : ℕ
  pub attr_low_byte : ℕ
  pub limit_high_attr_high : ℕ
  pub base_high_byte : ℕ

-- make_gdt_desc. base_high_byte is assigned twice and base_mid_byte never: it is what stood in the
-- local variable, `stale`.
unfoldable pub make_gdt_desc : (stale addr limit attr_low attr_high : ℕ) → GdtDesc
make_gdt_desc stale addr limit attr_low attr_high = record {
  limit_low_word = limit % 2 ^ 16;
  base_low_word = addr % 2 ^ 16;
  base_mid_byte = stale;
  attr_low_byte = u8 attr_low;
  limit_high_attr_high = u8 (limit / 2 ^ 16 % 2 ^ 4 + u8 attr_high);
  base_high_byte = addr / 2 ^ 24;
}

-- TSS_ATTR_HIGH, TSS_ATTR_LOW, GDT_ATTR_HIGH, GDT_CODE_ATTR_LOW_DPL3 and GDT_DATA_ATTR_LOW_DPL3
abbrev pub tss_attr_high : ℕ
tss_attr_high = 1 * 2 ^ 7 + 0 * 2 ^ 6 + 0 * 2 ^ 5 + 0 * 2 ^ 4 + 0

abbrev pub tss_attr_low : ℕ
tss_attr_low = 1 * 2 ^ 7 + 0 * 2 ^ 5 + 0 * 2 ^ 4 + 9

abbrev pub gdt_attr_high : ℕ
gdt_attr_high = 1 * 2 ^ 7 + 1 * 2 ^ 6 + 0 * 2 ^ 5 + 0 * 2 ^ 4

abbrev pub gdt_code_attr_low_dpl3 : ℕ
gdt_code_attr_low_dpl3 = 1 * 2 ^ 7 + 3 * 2 ^ 5 + 1 * 2 ^ 4 + 8

abbrev pub gdt_data_attr_low_dpl3 : ℕ
gdt_data_attr_low_dpl3 = 1 * 2 ^ 7 + 3 * 2 ^ 5 + 1 * 2 ^ 4 + 2

-- sizeof(tss_t): 27 words
abbrev pub tss_size : ℕ
tss_size = 27 * 4

-- The words of the segment, by index: esp0 is word 1, ss0 word 2, io_base word 26
abbrev pub Tss : Type 0
Tss = ℕ → ℕ

-- set_tss_esp0; thread is the page of the task
abbrev pub set_tss_esp0 : (thread : ℕ) → Tss → Tss
set_tss_esp0 thread tss = update tss 1 (u32 (thread + 2 ^ 12))

-- SELECTOR_K_STACK
abbrev pub selector_k_stack : ℕ
selector_k_stack = 2 * 2 ^ 3 + 0 * 2 ^ 2 + 0

-- tss_init: the segment, and the table with entries 4 to 6, given the address of the segment
unfoldable pub tss_init : (stale : ℕ → ℕ) → (tss_at : ℕ) → (gdt : ℕ → GdtDesc) → Tss × (ℕ → GdtDesc)
unfolding make_gdt_desc
tss_init stale tss_at gdt =
    let tss = update (update (λ w. 0) 2 selector_k_stack) 26 tss_size in
    let gdt4 =
      update gdt 4 (make_gdt_desc (stale 4) tss_at (tss_size - 1) tss_attr_low tss_attr_high) in
    let gdt5 =
      update gdt4 5 (make_gdt_desc (stale 5) 0 0xf_ffff gdt_code_attr_low_dpl3 gdt_attr_high) in
    let gdt6 =
      update gdt5 6 (make_gdt_desc (stale 6) 0 0xf_ffff gdt_data_attr_low_dpl3 gdt_attr_high) in
    (tss, gdt6)
