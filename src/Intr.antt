-- ===== src/Intr.antt =====
-- kernel/interrupt.c and kernel/interrupt.h: the interrupt flag of the processor, the gate
-- descriptors of the IDT and the table of handlers.
pub mod Flag
pub mod Gate
pub mod Init
mod Tests
use Prim.Native.Nat.{bit_and}
use xbay_os.Base.{
  ℕ, zero, suc, ◌+◌, ◌*◌, ◌/◌, ◌%◌, ◌^◌, ◌<◌, Bool, true, false, if◌then◌else◌, ◌==◌, u16, update,
}

-- enum intr_status
pub data IntrStat : Type 0 where
  intr_off intr_on : IntrStat

abbrev pub same : IntrStat → IntrStat → Bool
same intr_off intr_off = true
same intr_on intr_on = true
same _ _ = false

-- intr_get_status on the value of EFLAGS; bit 9 is IF
pub get_status : ℕ → IntrStat
get_status eflags = if bit_and eflags 0x200 == 0 then intr_off else intr_on

-- intr_enable and intr_disable, on the state that intr_get_status reports: the old state, and the
-- new one. `sti` and `cli` run only where the state differs.
abbrev pub enable : IntrStat → IntrStat × IntrStat
enable intr_off = (intr_off, intr_on)
enable intr_on = (intr_on, intr_on)

abbrev pub disable : IntrStat → IntrStat × IntrStat
disable intr_on = (intr_on, intr_off)
disable intr_off = (intr_off, intr_off)

-- intr_set_status: `old` is read before anything is stored in it, so that `stale`, whatever the
-- variable happens to hold, decides. The value returned is that same `old`.
unfoldable pub set_status : (stale status : IntrStat) → IntrStat → IntrStat × IntrStat
set_status stale status now =
    if same now status
    then (stale, now)
    else (stale, if same stale intr_on then (disable now).1 else (enable now).1)

-- INTERRUPT_DISABLE(status) ... INTERRUPT_RESTORE(status) around code that leaves the flag alone.
abbrev pub bracket : (stale : IntrStat) → IntrStat → IntrStat
bracket stale now = let (old, off) = disable now in (set_status stale old off).1

-- struct gate_desc
pub record GateDesc : Type 0 where
  pub func_offset_low_word : ℕ
  pub selector : ℕ
  pub dcount : ℕ
  pub attribute : ℕ
  pub func_offset_high_word : ℕ

-- SELECTOR_K_CODE, IDT_DESC_ATTR_DPL0 and IDT_DESC_ATTR_DPL3 of kernel/global.h
abbrev pub selector_k_code : ℕ
selector_k_code = 1 * 2 ^ 3 + 0 * 2 ^ 2 + 0

abbrev pub idt_desc_attr_dpl0 : ℕ
idt_desc_attr_dpl0 = 1 * 2 ^ 7 + 0 * 2 ^ 5 + 0xe

abbrev pub idt_desc_attr_dpl3 : ℕ
idt_desc_attr_dpl3 = 1 * 2 ^ 7 + 3 * 2 ^ 5 + 0xe

-- make_idt_desc; the masks 0x0000ffff keep the low 16 bits
pub make_idt_desc : (attr func : ℕ) → GateDesc
make_idt_desc attr func = record {
  func_offset_low_word = func % 2 ^ 16;
  selector = selector_k_code;
  dcount = 0;
  attribute = attr;
  func_offset_high_word = func / 2 ^ 16 % 2 ^ 16;
}

abbrev pub idt_desc_cnt : ℕ
idt_desc_cnt = 0x81

-- The loop of idt_desc_init over the entries below `n`.
pub idt_fill : ℕ → (ℕ → ℕ) → (ℕ → GateDesc) → ℕ → GateDesc
idt_fill zero entry idt = idt
idt_fill (suc n) entry idt =
    update (idt_fill n entry idt) n (make_idt_desc idt_desc_attr_dpl0 (entry n))

-- idt_desc_init, given `intr_entry_table` and the address of `syscall_handler` of kernel.S
pub idt_desc_init : (entry : ℕ → ℕ) (syscall_handler : ℕ) → (ℕ → GateDesc) → ℕ → GateDesc
idt_desc_init entry syscall_handler idt =
    update (idt_fill idt_desc_cnt entry idt) 0x80 (make_idt_desc idt_desc_attr_dpl3 syscall_handler)

-- intr_set_handler
unfoldable pub set_handler : (ℕ → ℕ) → (vec_no handler : ℕ) → ℕ → ℕ
set_handler idt_table vec_no handler = update idt_table vec_no handler
