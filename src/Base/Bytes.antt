-- ===== src/Base/Bytes.antt =====
-- Single bits of a byte, by evaluation over all bytes.
use Prim.Native.Nat.{ℕ, zero, suc, ◌-◌, ◌^◌, ◌<◌, bit_and, bit_or}
use mathlib.Core.Path.{◌≡◌, refl}
use mathlib.Core.Bool.{Bool, true, false, not, ◌&&◌}
use mathlib.Core.Logic.{inl, inr}
use native.Mathlib.Omega.{arith}
use xbay_os.Base.Tests.{◌==◌, ltb, if◌then◌else◌, Bool-cases}

unfoldable pub all_below : ℕ → (ℕ → Bool) → Bool
all_below zero test = true
all_below (suc m) test = test m && all_below m test

pub all_below_sound :
    (bound : ℕ) (test : ℕ → Bool) (k : ℕ) → all_below bound test ≡ true → k < bound → test k ≡ true
unfolding all_below
all_below_sound zero test k all lt = absurd (omega arith)
all_below_sound (suc m) test k all lt = elim (Bool-cases (k == m)) [
  | inl e ↦ let last : k ≡ m = ground arith in rw last (ground (arith, all))
  | inr e ↦ all_below_sound m test k (ground (arith, all)) (ground arith)
]

-- !!(b & (0x1 << o))
unfoldable pub bit : ℕ → ℕ → Bool
bit b o = not (bit_and b (2 ^ o) == 0)

-- b | (0x1 << o)
unfoldable pub with_bit : ℕ → ℕ → ℕ
with_bit b o = bit_or b (2 ^ o)

-- b & ~(0x1 << o), where ~ is taken on a 32-bit int
unfoldable pub without_bit : ℕ → ℕ → ℕ
without_bit b o = bit_and b (2 ^ 32 - 1 - 2 ^ o)

eqb : Bool → Bool → Bool
eqb true b = b
eqb false b = not b

eqb_sound : (a b : Bool) → eqb a b ≡ true → a ≡ b
unfolding eqb
eqb_sound true true h = refl
eqb_sound true false h = cc
eqb_sound false true h = cc
eqb_sound false false h = refl

over : (ℕ → ℕ → ℕ → Bool) → Bool
unfolding all_below
over p = all_below 256 (λ b. all_below 8 (λ o. all_below 8 (λ q. p b o q)))

over_sound :
    (p : ℕ → ℕ → ℕ → Bool) (b o q : ℕ) → over p ≡ true → b < 256 → o < 8 → q < 8 → p b o q ≡ true
unfolding over
over_sound p b o q h hb ho hq =
    let bytes = all_below_sound 256 (λ b. all_below 8 (λ o. all_below 8 (λ q. p b o q))) b h hb in
    let places = all_below_sound 8 (λ o. all_below 8 (λ q. p b o q)) o bytes ho in
    all_below_sound 8 (λ q. p b o q) q places hq

with_table : over (λ b o q. eqb (bit (with_bit b o) q) (if q == o then true else bit b q)) ≡ true
unfolding over eqb bit with_bit
with_table = refl

without_table :
    over (λ b o q. eqb (bit (without_bit b o) q) (if q == o then false else bit b q)) ≡ true
unfolding over eqb bit without_bit
without_table = refl

small_table : over (λ b o q. ltb (with_bit b o) 256 && ltb (without_bit b o) 256) ≡ true
unfolding over with_bit without_bit
small_table = refl

pub bit-with_bit :
    (b o q : ℕ)
    → b < 256
    → o < 8
    → q < 8
    → bit (with_bit b o) q ≡ (if q == o then true else bit b q)
bit-with_bit b o q hb ho hq = eqb_sound _ _ (over_sound _ b o q with_table hb ho hq)

pub bit-without_bit :
    (b o q : ℕ)
    → b < 256
    → o < 8
    → q < 8
    → bit (without_bit b o) q ≡ (if q == o then false else bit b q)
bit-without_bit b o q hb ho hq = eqb_sound _ _ (over_sound _ b o q without_table hb ho hq)

small : (b o : ℕ) → b < 256 → o < 8 → (ltb (with_bit b o) 256 && ltb (without_bit b o) 256) ≡ true
small b o hb ho =
    over_sound (λ b o q. ltb (with_bit b o) 256 && ltb (without_bit b o) 256) b o 0 small_table hb
      ho (omega arith)

pub with_bit-lt : (b o : ℕ) → b < 256 → o < 8 → with_bit b o < 256
with_bit-lt b o hb ho = ground (arith, small b o hb ho)

pub without_bit-lt : (b o : ℕ) → b < 256 → o < 8 → without_bit b o < 256
without_bit-lt b o hb ho = ground (arith, small b o hb ho)

zero_table : all_below 8 (λ q. not (bit 0 q)) ≡ true
unfolding all_below bit
zero_table = refl

pub bit-zero : (q : ℕ) → q < 8 → bit 0 q ≡ false
bit-zero q h = ground (arith, all_below_sound 8 (λ q. not (bit 0 q)) q zero_table h)
