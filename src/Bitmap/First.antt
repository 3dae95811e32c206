-- ===== src/Bitmap/First.antt =====
-- The first two loops of bitmap_scan: the first byte that is not full, and its first clear bit.
use xbay_os.Base.{
  ℕ, zero, suc, ◌+◌, ◌*◌, ◌/◌, ◌%◌, ◌<◌, ◌≤◌, ◌≡◌, ◌≢◌, refl, inl, inr, true, false, not, ◌&&◌,
  ◌||◌, arith, ltb, leb, ◌==◌, Bool-cases,
}
use xbay_os.Base.Bytes.{bit, all_below, all_below_sound}
use xbay_os.Bitmap.{Bitmap, skip_full, free_bit}
use xbay_os.Bitmap.Bits.{IsBytes, bit_at}

record Skipped (bm : Bitmap) (idx r : ℕ) : Type 0 where
  above : idx ≤ r
  within : r ≤ bm.length
  full : (i : ℕ) → idx ≤ i → i < r → bm.bits i ≡ 0xff
  stop : r < bm.length → bm.bits r ≢ 0xff

skip_full-Skipped :
    (k : ℕ) (bm : Bitmap) (idx : ℕ) → k + idx ≡ bm.length → Skipped bm idx (skip_full k bm idx)
unfolding skip_full
skip_full-Skipped zero bm idx e = record {
  above = omega arith;
  within = omega arith;
  full = λ i a b. absurd (omega arith);
  stop = λ lt. absurd (omega arith);
}
skip_full-Skipped (suc k) bm idx e = elim (Bool-cases (bm.bits idx == 0xff)) [
  | inl hit ↦
      let rest = skip_full-Skipped k bm (idx + 1) (omega arith) in
      let here : ltb idx bm.length ≡ true = ground arith in
      let all : bm.bits idx ≡ 0xff = ground arith in
      rw (hit, here)
        (record {
          above = omega (arith, rest.above);
          within = rest.within;
          full = λ i a b. elim (Bool-cases (i == idx)) [
            | inl same ↦ ground arith
            | inr other ↦ rest.full i (ground arith) b
          ];
          stop = rest.stop;
        })
  | inr miss ↦ rw miss (record {
    above = omega arith;
    within = omega arith;
    full = λ i a b. absurd (omega arith);
    stop = λ lt. ground arith;
  })
]

free_table :
    all_below 255 (λ b.
      ltb (free_bit 8 b 0) 8
      && not (bit b (free_bit 8 b 0))
      && all_below 8 (λ q. leb (free_bit 8 b 0) q || bit b q))
    ≡ true
unfolding all_below free_bit bit
free_table = refl

full_table : all_below 8 (λ q. bit 0xff q) ≡ true
unfolding all_below bit
full_table = refl

-- The first clear bit of a byte that is not full.
record IsFirst (b o : ℕ) : Type 0 where
  within : o < 8
  clear : bit b o ≡ false
  before : (q : ℕ) → q < o → bit b q ≡ true

free_bit-IsFirst : (b : ℕ) → b < 256 → b ≢ 0xff → IsFirst b (free_bit 8 b 0)
free_bit-IsFirst b small ne = record {
  within = ground (arith, row);
  clear = ground (arith, row);
  before =
      λ q lt. ground (arith, row, all_below_sound 8 (λ q. leb (free_bit 8 b 0) q || bit b q) q);
}
  where
    row :
        (ltb (free_bit 8 b 0) 8
          && not (bit b (free_bit 8 b 0))
          && all_below 8 (λ q. leb (free_bit 8 b 0) q || bit b q))
        ≡ true
    row =
        all_below_sound 255
          (λ b.
            ltb (free_bit 8 b 0) 8
            && not (bit b (free_bit 8 b 0))
            && all_below 8 (λ q. leb (free_bit 8 b 0) q || bit b q))
          b free_table (omega arith)

-- What the two loops find.
pub data Found (bm : Bitmap) (idx : ℕ) : Type 0 where
  full : idx ≡ bm.length → ((q : ℕ) → q < bm.length * 8 → bit_at bm q ≡ true) → Found bm idx
  clear :
      (p : ℕ)
      → idx < bm.length
      → p ≡ idx * 8 + free_bit 8 (bm.bits idx) 0
      → p < bm.length * 8
      → bit_at bm p ≡ false
      → ((q : ℕ) → q < p → bit_at bm q ≡ true)
      → Found bm idx

module _ (bm : Bitmap) (bytes : IsBytes bm) where
  full_byte : (q : ℕ) → bm.bits (q / 8) ≡ 0xff → bit_at bm q ≡ true
  full_byte q e = rw e (all_below_sound 8 (λ q. bit 0xff q) (q % 8) full_table (omega arith))

  found_at : (idx : ℕ) → Skipped bm 0 idx → Found bm idx
  found_at idx s = elim (Bool-cases (idx == bm.length)) [
    | inl e ↦
        let e' : idx ≡ bm.length = ground arith in
        full e' λ q lt. full_byte q (s.full (q / 8) (omega arith) (omega arith))
    | inr e ↦
        let lt : idx < bm.length = ground (arith, s.within) in
        let first = free_bit-IsFirst (bm.bits idx) (bytes idx) (s.stop lt) in
        let o = free_bit 8 (bm.bits idx) 0 in
        let lo : o < 8 = first.within in
        let d : (idx * 8 + o) / 8 ≡ idx = omega arith in
        let m : (idx * 8 + o) % 8 ≡ o = omega arith in
        clear (idx * 8 + o) lt refl (omega arith) (rw (d, m) first.clear) λ q below.
          elim (Bool-cases (q / 8 == idx)) [
            | inl same ↦
                let d' : q / 8 ≡ idx = ground arith in rw d' (first.before (q % 8) (omega arith))
            | inr other ↦ full_byte q (s.full (q / 8) (omega arith) (ground arith))
          ]
  ]

  pub find : Found bm (skip_full bm.length bm 0)
  find = found_at (skip_full bm.length bm 0) (skip_full-Skipped bm.length bm 0 (omega arith))
