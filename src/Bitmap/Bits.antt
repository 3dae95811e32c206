-- ===== src/Bitmap/Bits.antt =====
-- bitmap_set, bitmap_clear and bitmap_has act on single bits.
use xbay_os.Base.{
  ℕ, ◌*◌, ◌/◌, ◌%◌, ◌<◌, ◌≡◌, refl, inl, inr, Bool, true, false, arith, ok, ◌==◌, if◌then◌else◌,
  Bool-cases, update, lt→ltb, le→ltb, ◌≤◌, panic, ltb,
}
use xbay_os.Base.Bytes.{
  bit, with_bit, without_bit, bit-with_bit, bit-without_bit, with_bit-lt, without_bit-lt, bit-zero,
}
use xbay_os.Bitmap.{Bitmap, has, set, clear, init}

-- Every byte holds eight bits.
abbrev pub IsBytes : Bitmap → Type 0
IsBytes bm = (i : ℕ) → bm.bits i < 256

-- The bit at a position, with no test of its range.
abbrev pub bit_at : Bitmap → ℕ → Bool
bit_at bm p = bit (bm.bits (p / 8)) (p % 8)

pub has-bit_at : (bm : Bitmap) (p : ℕ) → p < bm.length * 8 → has bm p ≡ ok (bit_at bm p)
unfolding has
has-bit_at bm p h = rw (lt→ltb (p / 8) bm.length (omega arith))

pub has-panic : (bm : Bitmap) (p : ℕ) → bm.length * 8 ≤ p → has bm p ≡ panic
unfolding has
has-panic bm p h = rw (le→ltb (p / 8) bm.length (omega arith))

-- Past the end of the bitmap bitmap_has, bitmap_set and bitmap_clear fail their assertion.
pub out_of_range-panic :
    (bm : Bitmap) (p : ℕ)
    → bm.length * 8 ≤ p
    → (has bm p ≡ panic) × (set bm p ≡ panic) × (clear bm p ≡ panic)
unfolding set clear
out_of_range-panic bm p h =
    let e = le→ltb (p / 8) bm.length (omega arith) in (has-panic bm p h, rw e, rw e)

-- bitmap_init leaves every bit clear, and the memory behind the bitmap as it was.
pub init-clear :
    (bm : Bitmap) (len p : ℕ)
    → ((init bm len).length ≡ len)
      × (has (init bm len) p ≡ (if ltb (p / 8) len then ok false else panic))
      × ((i : ℕ) → len ≤ i → (init bm len).bits i ≡ bm.bits i)
unfolding init has
init-clear bm len p = (
  refl,
  elim (Bool-cases (ltb (p / 8) len)) [
    | inl e ↦ rw (e, bit-zero (p % 8) (omega arith))
    | inr e ↦ rw e
  ],
  λ i h. ground arith,
)

-- What a bitmap with the one bit `p` changed to `v` looks like.
abbrev pub IsFlip : Bitmap → ℕ → Bool → Bitmap → Type 0
IsFlip bm p v bm' =
    IsBytes bm'
    × (bm'.length ≡ bm.length)
    × ((q : ℕ) → bit_at bm' q ≡ (if q == p then v else bit_at bm q))

same_place : (p q : ℕ) → q / 8 ≡ p / 8 → q % 8 ≡ p % 8 → q ≡ p
same_place p q a b = omega arith

flip_lem :
    (bm : Bitmap) (p : ℕ) (v : Bool) (byte : ℕ)
    → IsBytes bm
    → byte < 256
    → ((q : ℕ) → q < 8 → bit byte q ≡ (if q == p % 8 then v else bit (bm.bits (p / 8)) q))
    → IsFlip bm p v (record bm { bits = update bm.bits (p / 8) byte })
flip_lem bm p v byte h small law = (λ i. ground (arith, h i), refl, at)
  where
    at :
        (q : ℕ)
        → bit_at (record bm { bits = update bm.bits (p / 8) byte }) q
          ≡ (if q == p then v else bit_at bm q)
    at q = elim (Bool-cases (q / 8 == p / 8)) [
      | inl e ↦ rw (e, update) (ground (arith, law (q % 8), same_place p q))
      | inr e ↦ rw (e, update) (ground arith)
    ]

module _ (bm : Bitmap) (p : ℕ) (bytes : IsBytes bm) (within : p < bm.length * 8) where
  -- bitmap_set sets the bit at its position and no other, at every position in the bitmap.
  pub set-IsFlip : (bm' : Bitmap) × (set bm p ≡ ok bm') × IsFlip bm p true bm'
  unfolding set
  set-IsFlip = (
    record bm { bits = update bm.bits (p / 8) (with_bit (bm.bits (p / 8)) (p % 8) % 256) },
    rw (lt→ltb (p / 8) bm.length (omega arith)),
    flip_lem bm p true _ bytes (omega arith) λ q lt.
        let small = with_bit-lt (bm.bits (p / 8)) (p % 8) (bytes (p / 8)) (omega arith) in
        let e : with_bit (bm.bits (p / 8)) (p % 8) % 256 ≡ with_bit (bm.bits (p / 8)) (p % 8) =
          omega arith in
        rw e (bit-with_bit (bm.bits (p / 8)) (p % 8) q (bytes (p / 8)) (omega arith) lt),
  )

  -- bitmap_clear clears the bit at its position and no other, at every position in the bitmap.
  pub clear-IsFlip : (bm' : Bitmap) × (clear bm p ≡ ok bm') × IsFlip bm p false bm'
  unfolding clear
  clear-IsFlip = (
    record bm { bits = update bm.bits (p / 8) (without_bit (bm.bits (p / 8)) (p % 8) % 256) },
    rw (lt→ltb (p / 8) bm.length (omega arith)),
    flip_lem bm p false _ bytes (omega arith) λ q lt.
        let small = without_bit-lt (bm.bits (p / 8)) (p % 8) (bytes (p / 8)) (omega arith) in
        let e : without_bit (bm.bits (p / 8)) (p % 8) % 256
            ≡ without_bit (bm.bits (p / 8)) (p % 8) =
          omega arith in
        rw e (bit-without_bit (bm.bits (p / 8)) (p % 8) q (bytes (p / 8)) (omega arith) lt),
  )
