-- ===== src/Bitmap/Scan.antt =====
-- bitmap_scan: one bit, and a run of several.
use xbay_os.Base.{
  ℕ, zero, suc, ◌+◌, ◌-◌, ◌*◌, ◌%◌, ◌^◌, ◌<◌, ◌≤◌, ◌≡◌, ◌≢◌, refl, ◌⊎◌, inl, inr, true, false,
  Option, none, some, arith, Run, ok, panic, ltb, ◌==◌, Bool-cases,
}
use xbay_os.Bitmap.{Bitmap, skip_full, scan_run, scan}
use xbay_os.Bitmap.Bits.{IsBytes, bit_at, has-bit_at, has-panic}
use xbay_os.Bitmap.First
use xbay_os.Bitmap.First.{Found, find}

-- The `n` bits from `p` on lie in the bitmap and are clear.
pub record IsFree (bm : Bitmap) (p n : ℕ) : Type 0 where
  pub within : p + n ≤ bm.length * 8
  pub clear : (q : ℕ) → p ≤ q → q < p + n → bit_at bm q ≡ false

-- Bitmaps of the kernel are far smaller; from 2^28 bytes on the int `position` overflows.
abbrev pub limit : ℕ
limit = 2 ^ 28

-- The first clear bit, or that there is none.
abbrev pub FirstFree : Bitmap → Run (Option ℕ) → Type 0
FirstFree bm r =
    ((r ≡ ok none) × ((q : ℕ) → q < bm.length * 8 → bit_at bm q ≡ true))
    ⊎ ((p : ℕ) × (r ≡ ok (some p))
        × (p < bm.length * 8)
        × (bit_at bm p ≡ false)
        × ((q : ℕ) → q < p → bit_at bm q ≡ true))

-- For one bit, bitmap_scan returns the first clear bit of a bitmap of less than 2^28 bytes, or -1
-- when every bit is set.
pub scan-FirstFree : (bm : Bitmap) → IsBytes bm → bm.length < limit → FirstFree bm (scan bm 1)
unfolding scan
scan-FirstFree bm bytes small = go (find bm bytes)
  where
    go : Found bm (skip_full bm.length bm 0) → FirstFree bm (scan bm 1)
    go (First.full e all) = inl (ground arith, all)
    go (First.clear p lt e within free before) =
        let at : p % 2 ^ 32 ≡ p = omega (arith, within, small) in
        inr (p, ground (arith, at), within, free, before)

module _ (bm : Bitmap) (small : bm.length < limit) (cnt : ℕ) where
  -- The third loop, while the run at `p` is ahead: it stops at a run that is no later.
  scan_run-IsFree :
      (left nb count p : ℕ)
      → IsFree bm p cnt
      → count ≤ nb
      → count < cnt
      → nb ≤ p + count
      → nb < p + cnt
      → p + cnt ≤ left + nb
      → ((q : ℕ) → nb ≤ q + count → q < nb → bit_at bm q ≡ false)
      → (p' : ℕ) × (scan_run left bm cnt nb count ≡ ok (some p')) × (p' ≤ p) × IsFree bm p' cnt
  unfolding scan_run
  scan_run-IsFree zero nb count p f a b c d fuel run = absurd (omega arith)
  scan_run-IsFree (suc left) nb count p f a b c d fuel run =
      let lt : nb < bm.length * 8 = omega (arith, f.within) in
      let e : (nb + 1) % 2 ^ 32 ≡ nb + 1 = omega arith in
      rw (has-bit_at bm nb lt, e)
        (elim (Bool-cases (bit_at bm nb)) [
          | inl taken ↦
              let later : nb < p = ground (arith, f.clear nb) in
              let more : (0 == cnt) ≡ false = ground arith in
              rw (taken, more)
                (scan_run-IsFree left (nb + 1) 0 p f (omega arith) (omega arith) (omega arith)
                  (omega arith) (omega arith) λ q x y. absurd (omega arith))
          | inr free ↦
              let run' : (q : ℕ) → nb + 1 ≤ q + (count + 1) → q < nb + 1 → bit_at bm q ≡ false =
                λ q x y. elim (Bool-cases (q == nb)) [
                  | inl same ↦ let s : q ≡ nb = ground arith in rw s free
                  | inr other ↦ run q (omega arith) (ground arith)
                ] in
              elim (Bool-cases (count + 1 == cnt)) [
                | inl done ↦
                    let n : count + 1 ≡ cnt = ground arith in
                    let v : ((nb + 2 ^ 32 - cnt) % 2 ^ 32 + 1) % 2 ^ 32 ≡ nb + 1 - cnt =
                      omega arith in
                    rw (free, done, v)
                      (
                        nb + 1 - cnt,
                        refl,
                        omega arith,
                        record {
                          within = omega arith;
                          clear = λ q x y. run' q (omega arith) (omega arith);
                        },
                      )
                | inr go ↦
                    let n : count + 1 ≢ cnt = ground arith in
                    rw (free, go)
                      (scan_run-IsFree left (nb + 1) (count + 1) p f (omega arith) (omega arith)
                        (omega arith) (omega arith) (omega arith) run')
              ]
        ])

  -- With no such run the loop goes on until bitmap_has fails its assertion.
  scan_run-panic :
      (left nb count : ℕ)
      → ((p : ℕ) → ¬ IsFree bm p cnt)
      → count ≤ nb
      → count < cnt
      → nb ≤ bm.length * 8
      → bm.length * 8 < left + nb
      → ((q : ℕ) → nb ≤ q + count → q < nb → bit_at bm q ≡ false)
      → scan_run left bm cnt nb count ≡ panic
  unfolding scan_run
  scan_run-panic zero nb count missing a b c fuel run = absurd (omega arith)
  scan_run-panic (suc left) nb count missing a b c fuel run =
      elim (Bool-cases (ltb nb (bm.length * 8))) [
        | inr past ↦ rw (has-panic bm nb (ground arith))
        | inl inside ↦
            let lt : nb < bm.length * 8 = ground arith in
            let e : (nb + 1) % 2 ^ 32 ≡ nb + 1 = omega arith in
            rw (has-bit_at bm nb lt, e)
              (elim (Bool-cases (bit_at bm nb)) [
                | inl taken ↦
                    let more : (0 == cnt) ≡ false = ground arith in
                    rw (taken, more)
                      (scan_run-panic left (nb + 1) 0 missing (omega arith) (omega arith)
                        (omega arith) (omega arith) λ q x y. absurd (omega arith))
                | inr free ↦
                    let run' : (q : ℕ)
                        → nb + 1 ≤ q + (count + 1)
                        → q < nb + 1
                        → bit_at bm q ≡ false =
                      λ q x y. elim (Bool-cases (q == nb)) [
                        | inl same ↦ let s : q ≡ nb = ground arith in rw s free
                        | inr other ↦ run q (omega arith) (ground arith)
                      ] in
                    elim (Bool-cases (count + 1 == cnt)) [
                      | inl done ↦
                          let n : count + 1 ≡ cnt = ground arith in
                          absurd (
                            missing (nb + 1 - cnt) (record {
                              within = omega arith;
                              clear = λ q x y. run' q (omega arith) (omega arith);
                            }))
                      | inr go ↦
                          let n : count + 1 ≢ cnt = ground arith in
                          rw (free, go)
                            (scan_run-panic left (nb + 1) (count + 1) missing (omega arith)
                              (omega arith) (omega arith) (omega arith) run')
                    ]
              ])
      ]

  module _ (bytes : IsBytes bm) (many : 2 ≤ cnt) where
    -- For cnt bits, 2 or more, bitmap_scan finds a run of that many clear bits whenever there is
    -- one, and none starts earlier than the one that it returns.
    pub scan-IsFree :
        (p : ℕ)
        → IsFree bm p cnt
        → (p' : ℕ) × (scan bm cnt ≡ ok (some p')) × (p' ≤ p) × IsFree bm p' cnt
    unfolding scan
    scan-IsFree p f = go (find bm bytes)
      where
        go :
            Found bm (skip_full bm.length bm 0)
            → (p' : ℕ) × (scan bm cnt ≡ ok (some p')) × (p' ≤ p) × IsFree bm p' cnt
        go (First.full e all) = absurd (ground (arith, f.within, f.clear p, all p))
        go (First.clear s lt e within free before) =
            let one : (cnt == 1) ≡ false = ground arith in
            let ne : (skip_full bm.length bm 0 == bm.length) ≡ false = ground arith in
            let v : s % 2 ^ 32 ≡ s = omega arith in
            let w : (s + 1) % 2 ^ 32 ≡ s + 1 = omega arith in
            let l : (bm.length * 8 + 1) % 2 ^ 32 ≡ bm.length * 8 + 1 = omega arith in
            let le : s ≤ p = ground (arith, f.clear p, before p) in
            rw (one, ne, ← e, v, w, l)
              (scan_run-IsFree (bm.length * 8 + 1) (s + 1) 1 p f (omega arith) (omega arith)
                (omega arith) (omega arith) (omega (arith, f.within))
                λ q x y. let same : q ≡ s = omega arith in rw same free)

    -- If some bit is clear but no run of cnt bits is, bitmap_scan does not return -1: it fails the
    -- assertion of bitmap_has at the end of the bitmap.
    pub scan-panic :
        ((p : ℕ) → ¬ IsFree bm p cnt)
        → (s : ℕ) → s < bm.length * 8
        → bit_at bm s ≡ false
        → scan bm cnt ≡ panic
    unfolding scan
    scan-panic missing s in_range clear = go (find bm bytes)
      where
        go : Found bm (skip_full bm.length bm 0) → scan bm cnt ≡ panic
        go (First.full e all) = absurd (ground (arith, all s))
        go (First.clear s lt e within free before) =
            let one : (cnt == 1) ≡ false = ground arith in
            let ne : (skip_full bm.length bm 0 == bm.length) ≡ false = ground arith in
            let v : s % 2 ^ 32 ≡ s = omega arith in
            let w : (s + 1) % 2 ^ 32 ≡ s + 1 = omega arith in
            let l : (bm.length * 8 + 1) % 2 ^ 32 ≡ bm.length * 8 + 1 = omega arith in
            rw (one, ne, ← e, v, w, l)
              (scan_run-panic (bm.length * 8 + 1) (s + 1) 1 missing (omega arith) (omega arith)
                (omega arith) (omega arith) λ q x y. let same : q ≡ s = omega arith in rw same free)
