-- ===== src/Base/Little.antt =====
-- Words of 32 bits as bytes in memory, the least significant first.
use xbay_os.Memory.Example.{words}
use xbay_os.Base.{update, ℕ, ◌%◌, ◌*◌, ◌+◌, ◌/◌, ◌<◌, ◌^◌, ◌≡◌, arith}

-- An uint32_t as its four bytes
abbrev pub store32 : (p n : ℕ) → (ℕ → ℕ) → (ℕ → ℕ)
store32 p n m =
    update
      (update (update (update m p (n % 256)) (p + 1) (n / 2 ^ 8 % 256)) (p + 2) (n / 2 ^ 16 % 256))
      (p + 3) (n / 2 ^ 24 % 256)

-- The i-th word of some bytes
abbrev pub word_at : (ℕ → ℕ) → ℕ → ℕ
word_at sector i =
    sector (4 * i)
    + sector (4 * i + 1) * 2 ^ 8
    + sector (4 * i + 2) * 2 ^ 16
    + sector (4 * i + 3) * 2 ^ 24

-- The bytes of some words
abbrev pub word_bytes : (ℕ → ℕ) → ℕ → ℕ
word_bytes words o = words (o / 4) / 2 ^ (8 * (o % 4)) % 256

-- The words come back from their bytes.
pub word_at-word_bytes :
    (words : ℕ → ℕ) (i : ℕ) → words i < 2 ^ 32 → word_at (word_bytes words) i ≡ words i
word_at-word_bytes words i h =
    let d0 : 4 * i / 4 ≡ i = omega arith in
    let d1 : (4 * i + 1) / 4 ≡ i = omega arith in
    let d2 : (4 * i + 2) / 4 ≡ i = omega arith in
    let d3 : (4 * i + 3) / 4 ≡ i = omega arith in
    let r0 : 4 * i % 4 ≡ 0 = omega arith in
    let r1 : (4 * i + 1) % 4 ≡ 1 = omega arith in
    let r2 : (4 * i + 2) % 4 ≡ 2 = omega arith in
    let r3 : (4 * i + 3) % 4 ≡ 3 = omega arith in
    rw (d0, d1, d2, d3, r0, r1, r2, r3) (omega (arith, h))
