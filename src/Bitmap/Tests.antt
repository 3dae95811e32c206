-- ===== src/Bitmap/Tests.antt =====
-- Concrete bitmaps: two bytes, the first full and the second with bits 0, 1 and 3 set.
use xbay_os.Base.{
  ℕ, ◌≤◌, ◌≡◌, refl, true, false, some, arith, ok, panic, ◌==◌, if◌then◌else◌, Bool-cases, inl, inr,
  ◌%◌,
}
use xbay_os.Base.Bytes.{bit, all_below, all_below_sound}
use xbay_os.Bitmap.{Bitmap, has, scan, scan_run}
use xbay_os.Bitmap.Bits.{IsBytes}
use xbay_os.Bitmap.Scan.{IsFree, FirstFree, scan-FirstFree, scan-IsFree, scan-panic}

abbrev bytes : ℕ → ℕ
bytes i = if i == 0 then 0xff else if i == 1 then 0x0b else 0

abbrev two : Bitmap
two = record { length = 2; bits = bytes }

two-IsBytes : IsBytes two
two-IsBytes i = ground arith

scan_runs : scan two 1 ≡ ok (some 10)
unfolding scan
scan_runs = refl

scan_three : scan two 3 ≡ ok (some 12)
unfolding scan has scan_run bit
scan_three = refl

scan-FirstFree_example : FirstFree two (scan two 1)
scan-FirstFree_example = scan-FirstFree two two-IsBytes (omega arith)

two-IsFree : IsFree two 14 2
unfolding bit
two-IsFree = record {
  within = omega arith;
  clear = λ q a b. elim (Bool-cases (q == 14)) [
    | inl e ↦ let e' : q ≡ 14 = ground arith in rw e'
    | inr e ↦ let e' : q ≡ 15 = ground arith in rw e'
  ];
}

scan-IsFree_example : (p' : ℕ) × (scan two 2 ≡ ok (some p')) × (p' ≤ 14) × IsFree two p' 2
scan-IsFree_example = scan-IsFree two (omega arith) 2 two-IsBytes (omega arith) 14 two-IsFree

-- One byte with bit 7 clear, so that no two clear bits stand together.
abbrev tight : Bitmap
tight = record { length = 1; bits = λ i. 0x7f }

low_set : all_below 7 (λ q. bit 0x7f q) ≡ true
unfolding all_below bit
low_set = refl

not-IsFree : (p : ℕ) → ¬ IsFree tight p 2
not-IsFree p f =
    let same : p % 8 ≡ p = omega (arith, f.within) in
    let set_bit = all_below_sound 7 (λ q. bit 0x7f q) p low_set (omega (arith, f.within)) in
    let clear_bit : bit 0x7f p ≡ false = rw same at (f.clear p (omega arith) (omega arith)) in cc

scan-panic_example : scan tight 2 ≡ panic
unfolding bit
scan-panic_example =
    scan-panic tight (omega arith) 2 (λ i. omega arith) (omega arith) not-IsFree 7 (omega arith)
      refl
