-- ===== src/Timer/Tests.antt =====
-- Concrete clocks.
use xbay_os.Timer.Sleep.{FirstRead, sleep_by_ticks-FirstRead}
use xbay_os.Timer.{sleep_by_ticks, sleep_loop, timer_init_ports}
use xbay_os.Base.{[], arith, ok, refl, ℕ, ◌*◌, ◌+◌, ◌∷◌, ◌≡◌}

sleep_by_ticks-FirstRead_example :
    (n : ℕ) × (sleep_by_ticks 9 20 (λ k. 100 + 3 * k) ≡ ok n) × FirstRead (λ k. 100 + 3 * k) 120 1 n
sleep_by_ticks-FirstRead_example =
    sleep_by_ticks-FirstRead 9 20 7 (λ k. 100 + 3 * k) (omega arith) (omega arith) (omega arith)

-- A sum that wraps ends the sleep at once.
sleep_wraps : sleep_by_ticks 9 20 (λ k. 0xffff_fff0 + k) ≡ ok 1
unfolding sleep_by_ticks sleep_loop
sleep_wraps = refl

-- The high byte of the counter is written as 0.
frequency_ports : timer_init_ports ≡ (0x43, 0x34) ∷ (0x40, 0x9b) ∷ (0x40, 0) ∷ []
frequency_ports = refl
