-- ===== src/Fs/Words.antt =====
-- A superblock as the words and the bytes of its sector.
use xbay_os.Intr.{same}
use xbay_os.Fs.Build.{super_of, super_words}
use xbay_os.Fs.{SuperBlock, init_super_block}
use xbay_os.Base.Little.{word_at, word_at-word_bytes, word_bytes}
use xbay_os.Base.{List, [], arith, get_or, refl, suc, zero, ℕ, ◌*◌, ◌+◌, ◌<◌, ◌^◌, ◌∙◌, ◌∷◌, ◌≡◌}

abbrev pub AllWords : List ℕ → Type 0
AllWords [] = Unit
AllWords (w ∷ ws) = (w < 2 ^ 32) × AllWords ws

get_or-AllWords : (ws : List ℕ) (i : ℕ) → AllWords ws → get_or ws i 0 < 2 ^ 32
get_or-AllWords [] i h = omega arith
get_or-AllWords (w ∷ ws) zero h = h.0
get_or-AllWords (w ∷ ws) (suc i) h = get_or-AllWords ws i h.1

word_at-same :
    (b c : ℕ → ℕ) (w : ℕ) → ((o : ℕ) → o < 52 → b o ≡ c o) → w < 13 → word_at b w ≡ word_at c w
word_at-same b c w same lt =
    let e0 = same (4 * w) (omega arith) in
    let e1 = same (4 * w + 1) (omega arith) in
    let e2 = same (4 * w + 2) (omega arith) in
    let e3 = same (4 * w + 3) (omega arith) in rw (e0, e1, e2, e3) refl

-- The superblock comes back from bytes that start with its own.
pub super_of-super_words :
    (sb : SuperBlock) (b : ℕ → ℕ)
    → AllWords (super_words sb)
    → ((o : ℕ) → o < 52 → b o ≡ word_bytes (λ w. get_or (super_words sb) w 0) o)
    → super_of b ≡ sb
super_of-super_words sb b all same =
    let words = λ (w : ℕ). get_or (super_words sb) w 0 in
    let field : (w : ℕ) → w < 13 → word_at b w ≡ words w = λ w lt.
      word_at-same b (word_bytes words) w same lt
      ∙ word_at-word_bytes words w (get_or-AllWords (super_words sb) w all) in
    let f0 = field 0 (omega arith) in
    let f1 = field 1 (omega arith) in
    let f2 = field 2 (omega arith) in
    let f3 = field 3 (omega arith) in
    let f4 = field 4 (omega arith) in
    let f5 = field 5 (omega arith) in
    let f6 = field 6 (omega arith) in
    let f7 = field 7 (omega arith) in
    let f8 = field 8 (omega arith) in
    let f9 = field 9 (omega arith) in
    let f10 = field 10 (omega arith) in
    let f11 = field 11 (omega arith) in
    let f12 = field 12 (omega arith) in
    rw (f0, f1, f2, f3, f4, f5, f6, f7, f8, f9, f10, f11, f12) refl

pub init_super_block-AllWords :
    (start count : ℕ)
    → start < 2 ^ 32
    → count < 2 ^ 32
    → AllWords (super_words (init_super_block start count))
unfolding init_super_block
init_super_block-AllWords start count hs hc = (
  omega arith,
  (
    omega arith,
    (
      omega arith,
      (
        omega arith,
        (
          omega arith,
          (
            omega arith,
            (
              omega arith,
              (
                omega arith,
                (omega arith, (omega arith, (omega arith, (omega arith, (omega arith, tt))))),
              ),
            ),
          ),
        ),
      ),
    ),
  ),
)
