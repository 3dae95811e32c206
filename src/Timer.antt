-- ===== src/Timer.antt =====
-- device/timer.c: the frequency of the clock, and sleeping. The clock interrupt itself is in Thread.
-- total_times changes between two reads of it, so that it is a sequence, the value at each read.
pub mod Sleep
mod Tests
use xbay_os.Thread.Pick.{rest}
use xbay_os.Base.{
  List, Run, [], div_round_up, hang, if◌then◌else◌, ltb, ok, suc, u16, u32, u8, zero, ℕ, ◌*◌, ◌+◌,
  ◌/◌, ◌^◌, ◌∷◌,
}

-- COUNTER0_VALUE
abbrev pub counter0_value : ℕ
counter0_value = 1193180 / 100

abbrev pub ticks_per_second : ℕ
ticks_per_second = 100000

-- set_frequency: the ports and bytes of its three calls of outb. The cast binds more tightly than the
-- shift of the last one.
abbrev pub set_frequency : (port counter_no rw_latch mode value : ℕ) → List (ℕ × ℕ)
set_frequency port counter_no rw_latch mode value =
    (0x43, u8 (counter_no * 2 ^ 6 + rw_latch * 2 ^ 4 + mode * 2))
    ∷ (port, u8 value)
    ∷ (port, u8 value / 2 ^ 8)
    ∷ []

-- The first statement of timer_init
abbrev pub timer_init_ports : List (ℕ × ℕ)
timer_init_ports = set_frequency 0x40 0 3 2 (u16 counter0_value)

-- The loop of sleep_by_ticks, from the n-th read on; the result is the number of the read that ends
-- it
unfoldable pub sleep_loop : (fuel until : ℕ) → (total_times : ℕ → ℕ) → (n : ℕ) → Run ℕ
sleep_loop zero until total_times n = hang
sleep_loop (suc k) until total_times n =
    let rest = sleep_loop k until total_times (n + 1) in
    if ltb (total_times n) until then rest else ok n

-- sleep_by_ticks
unfoldable pub sleep_by_ticks : (fuel t : ℕ) → (total_times : ℕ → ℕ) → Run ℕ
sleep_by_ticks fuel t total_times = sleep_loop fuel (u32 (total_times 0 + t)) total_times 1

-- sleep_by_msecond
unfoldable pub sleep_by_msecond : (fuel ms : ℕ) → (total_times : ℕ → ℕ) → Run ℕ
sleep_by_msecond fuel ms total_times =
    sleep_by_ticks fuel (div_round_up (u32 (ms * ticks_per_second)) 1000) total_times

-- sleep_by_second
unfoldable pub sleep_by_second : (fuel s : ℕ) → (total_times : ℕ → ℕ) → Run ℕ
sleep_by_second fuel s total_times = sleep_by_ticks fuel (u32 (s * ticks_per_second)) total_times
