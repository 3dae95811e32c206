-- ===== src/Intr/Init.antt =====
-- pic_init, exception_init and idt_init of kernel/interrupt.c.
use mathlib.Core.Option
use xbay_os.Base.Bytes.{bit}
use xbay_os.Base.{
  Bool, List, [], false, if◌then◌else◌, ltb, not, suc, update, zero, ℕ, ◌%◌, ◌&&◌, ◌++◌, ◌+◌, ◌==◌,
  ◌||◌, ◌∷◌, Option, none, some, ◌-◌,
}
use xbay_os.Intr.{GateDesc, idt_desc_cnt, idt_desc_init}

-- pic_init: the ports of the two controllers and the values written, in order
unfoldable pub pic_init : List (ℕ × ℕ)
pic_init =
    (0x20, 0x11)
    ∷ (0x21, 0x20)
    ∷ (0x21, 0x04)
    ∷ (0x21, 0x01)
    ∷ (0xa0, 0x11)
    ∷ (0xa1, 0x28)
    ∷ (0xa1, 0x02)
    ∷ (0xa1, 0x01)
    ∷ (0x21, 0xf8)
    ∷ (0xa1, 0xbf)
    ∷ []

-- The loop of exception_init over idt_table
unfoldable pub fill_handlers : (left : ℕ) → (default_handler : ℕ) → (ℕ → ℕ) → ℕ → ℕ
fill_handlers zero default_handler idt_table = idt_table
fill_handlers (suc left) default_handler idt_table =
    update (fill_handlers left default_handler idt_table) left default_handler

-- What idt_init sets up, besides the operand of lidt
pub record Setup : Type 0 where
  pub idt : ℕ → GateDesc
  pub idt_table : ℕ → ℕ
  pub writes : List (ℕ × ℕ)

-- idt_init; exception_init's names of interrupts are only printed
unfoldable pub idt_init : (entry : ℕ → ℕ) → (syscall_handler default_handler : ℕ) → Setup → Setup
idt_init entry syscall_handler default_handler s = record {
  idt = idt_desc_init entry syscall_handler s.idt;
  idt_table = fill_handlers idt_desc_cnt default_handler s.idt_table;
  writes = s.writes ++ pic_init;
}

-- A controller, as its data sheet has it: how many values at its data port the initialisation still
-- takes, its first vector and its mask. Before an initialisation it has no vectors.
pub record Pic : Type 0 where
  pub left : ℕ
  pub base : Option ℕ
  pub mask : ℕ

-- A value at the data port: the first after the start of an initialisation is the vector of the first
-- request, the next two are the wiring and the mode, and from then on each is the mask.
abbrev pub take_data : ℕ → Pic → Pic
take_data v p =
    if p.left == 3
    then record p { left = 2; base = some v }
    else if p.left == 0
    then record p { mask = v }
    else record p { left = p.left - 1 }

-- The value 0x11 at the control port starts an initialisation.
abbrev pub take_control : ℕ → Pic → Pic
take_control v p = if v == 0x11 then record { left = 3; base = none; mask = 0 } else p

abbrev pub controller : (control : ℕ) → List (ℕ × ℕ) → Pic → Pic
controller control [] p = p
controller control ((port, v) ∷ ws) p =
    controller control ws (
      if port == control
      then take_control v p
      else if port == control + 1
      then take_data v p
      else p)

-- The controller of an interrupt request after some writes
abbrev pub pic_of : (irq : ℕ) → List (ℕ × ℕ) → Pic
pic_of irq ws =
    controller (if ltb irq 8 then 0x20 else 0xa0) ws (record { left = 0; base = none; mask = 255 })

abbrev pub vector : (irq : ℕ) → List (ℕ × ℕ) → Option ℕ
vector irq ws = Option.map (λ base. base + irq % 8) (pic_of irq ws).base

abbrev pub is_masked : (irq : ℕ) → List (ℕ × ℕ) → Bool
is_masked irq ws = bit (pic_of irq ws).mask (irq % 8)

abbrev has_number : Option ℕ → ℕ → Bool
has_number none n = false
has_number (some m) n = m == n

abbrev as_meant : ℕ → Bool
as_meant irq =
    has_number (vector irq pic_init) (0x20 + irq)
    && (if is_masked irq pic_init
        then not (irq == 0 || irq == 1 || irq == 2 || irq == 14)
        else irq == 0 || irq == 1 || irq == 2 || irq == 14)
