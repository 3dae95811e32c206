-- ===== src/Intr/Gate.antt =====
-- The interrupt descriptor table.
use xbay_os.Base.{
  ℕ, zero, suc, ◌+◌, ◌*◌, ◌/◌, ◌%◌, ◌^◌, ◌<◌, ◌≡◌, refl, ◌==◌, if◌then◌else◌, Bool-cases, update,
  inl, inr, arith,
}
use xbay_os.Intr.{
  GateDesc, make_idt_desc, idt_desc_attr_dpl0, idt_desc_cnt, idt_fill, idt_desc_init,
}

-- The address that the processor takes from a gate.
abbrev pub target : GateDesc → ℕ
target g = g.func_offset_high_word * 2 ^ 16 + g.func_offset_low_word

target-make_idt_desc : (attr func : ℕ) → func < 2 ^ 32 → target (make_idt_desc attr func) ≡ func
unfolding make_idt_desc
target-make_idt_desc attr func h = omega arith

idt_fill_lem :
    (n : ℕ) (entry : ℕ → ℕ) (idt : ℕ → GateDesc) (i : ℕ)
    → i < n
    → idt_fill n entry idt i ≡ make_idt_desc idt_desc_attr_dpl0 (entry i)
unfolding idt_fill
idt_fill_lem zero entry idt i h = absurd (omega arith)
idt_fill_lem (suc n) entry idt i h = elim (Bool-cases (i == n)) [
  | inl e ↦ let e' : i ≡ n = ground arith in rw (e, update) (rw e')
  | inr e ↦ rw (e, update) (idt_fill_lem n entry idt i (ground arith))
]

-- The privilege level (DPL) that a gate demands of a caller.
abbrev pub dpl : GateDesc → ℕ
dpl g = g.attribute / 2 ^ 5 % 4

-- After idt_desc_init vector 0x80 is the one gate that user code may call, and it leads to
-- syscall_handler; every other vector leads to its own entry and is reserved to the kernel.
pub idt_desc_init-target :
    (entry : ℕ → ℕ) (syscall_handler : ℕ) (idt : ℕ → GateDesc)
    → ((i : ℕ) → entry i < 2 ^ 32)
    → syscall_handler < 2 ^ 32
    → (i : ℕ) → i < idt_desc_cnt
    → let g = idt_desc_init entry syscall_handler idt i in
      (target g ≡ (if i == 0x80 then syscall_handler else entry i))
      × (dpl g ≡ (if i == 0x80 then 3 else 0))
unfolding idt_desc_init
idt_desc_init-target entry syscall_handler idt small h i lt = elim (Bool-cases (i == 0x80)) [
  | inl e ↦ rw (e, update) (target-make_idt_desc _ _ h, unfold make_idt_desc in refl)
  | inr e ↦
      rw (e, update, idt_fill_lem idt_desc_cnt entry idt i lt)
        (target-make_idt_desc _ _ (small i), unfold make_idt_desc in refl)
]
