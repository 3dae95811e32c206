-- ===== src/Timer/Sleep.antt =====
-- The sleeping loop ends when the clock has gone far enough, and not before.
use xbay_os.Timer.{sleep_by_ticks, sleep_loop}
use xbay_os.Base.{
  Bool-cases, ap, arith, inl, inr, ltb, ok, refl, suc, zero, ℕ, ◌%◌, ◌+◌, ◌-◌, ◌<◌, ◌==◌, ◌^◌, ◌≡◌,
  ◌≤◌,
}

-- The n-th read is the first from `from` on that is not below `until`.
abbrev pub FirstRead : (total_times : ℕ → ℕ) → (until from n : ℕ) → Type 0
FirstRead total_times until from n =
    (from ≤ n) × (until ≤ total_times n) × ((j : ℕ) → from ≤ j → j < n → total_times j < until)

sleep_loop-FirstRead :
    (fuel until : ℕ) (total_times : ℕ → ℕ) (from k : ℕ)
    → k < fuel
    → until ≤ total_times (from + k)
    → (n : ℕ) × (sleep_loop fuel until total_times from ≡ ok n) × FirstRead total_times until from n
unfolding sleep_loop
sleep_loop-FirstRead zero until total_times from k lt reached = absurd (omega arith)
sleep_loop-FirstRead (suc fuel) until total_times from k lt reached =
    elim (Bool-cases (ltb (total_times from) until)) [
      | inl early ↦ elim (Bool-cases (k == 0)) [
        | inl z ↦
            let e : from + k ≡ from = ground arith in
            let r : total_times (from + k) ≡ total_times from = ap total_times e in
            absurd (ground (arith, early, reached, r))
        | inr more ↦
            let e : from + 1 + (k - 1) ≡ from + k = ground arith in
            let reached' : until ≤ total_times (from + 1 + (k - 1)) = rw e reached in
            let (n, run, (lo, here, before)) =
              sleep_loop-FirstRead fuel until total_times (from + 1) (k - 1) (ground arith)
                reached' in
            (
              n,
              rw early run,
              (
                omega arith,
                here,
                λ j a b. elim (Bool-cases (j == from)) [
                  | inl s ↦ let s' : j ≡ from = ground arith in rw s' (ground (arith, early))
                  | inr s ↦ before j (ground arith) b
                ],
              ),
            )
      ]
      | inr late ↦ (from, rw late refl, (omega arith, ground arith, λ j a b. absurd (omega arith)))
    ]

-- If start + t does not wrap and the clock reaches it at one of the reads that the fuel allows,
-- sleep_by_ticks returns, at the first read at which t ticks have gone by.
pub sleep_by_ticks-FirstRead :
    (fuel t k : ℕ) (total_times : ℕ → ℕ)
    → total_times 0 + t < 2 ^ 32
    → k < fuel
    → total_times 0 + t ≤ total_times (1 + k)
    → (n : ℕ) × (sleep_by_ticks fuel t total_times ≡ ok n)
      × FirstRead total_times (total_times 0 + t) 1 n
unfolding sleep_by_ticks
sleep_by_ticks-FirstRead fuel t k total_times fits lt reached =
    let e : (total_times 0 + t) % 2 ^ 32 ≡ total_times 0 + t = omega arith in
    rw e (sleep_loop-FirstRead fuel (total_times 0 + t) total_times 1 k lt reached)
