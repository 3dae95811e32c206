-- ===== src/Intr/Tests.antt =====
-- Interrupts at concrete states.
use xbay_os.Base.{ℕ}
use xbay_os.Intr.{intr_on, get_status}
use xbay_os.Base.{◌≡◌, refl}

flags : get_status 0x202 ≡ intr_on
unfolding get_status
flags = refl

-- The first disk channel's request
abbrev disk_irq : ℕ
disk_irq = 14
