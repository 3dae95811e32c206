-- ===== src/Strings/Text.antt =====
-- Strings: strlen, strchr, strrchr and strcnt.
use xbay_os.Base.{
  ℕ, zero, suc, ◌+◌, ◌-◌, ◌^◌, ◌%◌, ◌<◌, ◌≡◌, ◌≢◌, inl, inr, refl, false, some, List, [], ◌∷◌,
  arith, ok, ◌==◌, if◌then◌else◌, Bool-cases, length, get_elem?, ◌∙◌, ap,
}
use xbay_os.Strings.{
  Mem, null, strlen_loop, strlen, strchr_loop, strchr, strrchr_loop, strrchr, strcnt_loop, strcnt,
}

-- At `p` stands the string of the bytes `s`, with its zero byte.
abbrev pub Str : Mem → ℕ → List ℕ → Type 0
Str m p [] = m p ≡ 0
Str m p (c ∷ s) = (m p ≡ c) × (c ≢ 0) × Str m (p + 1) s

pub strlen_loop-Str :
    (k p : ℕ) (m : Mem) (s : List ℕ)
    → Str m p s
    → length s < k
    → strlen_loop k p m ≡ ok (p + length s)
unfolding strlen_loop
strlen_loop-Str zero p m s h fuel = absurd (omega arith)
strlen_loop-Str (suc k) p m [] h fuel = ground arith
strlen_loop-Str (suc k) p m (c ∷ s) h fuel = ground (arith, strlen_loop-Str k (p + 1) m s h.2)

-- strlen returns the number of bytes before the zero byte, with fuel above it.
pub strlen-length :
    (fuel p : ℕ) (m : Mem) (s : List ℕ)
    → Str m p s
    → length s < fuel
    → 0 < p
    → p + length s < 2 ^ 32
    → strlen fuel p m ≡ ok (length s)
unfolding strlen
strlen-length fuel p m s h enough pos fits =
    let e : (p == 0) ≡ false = ground arith in
    rw (e, strlen_loop-Str fuel p m s h enough)
      (let d : (p + length s + 2 ^ 32 - p) % 2 ^ 32 ≡ length s = omega arith in rw d refl)

abbrev step_back : (p i : ℕ) → p + 1 + i ≡ p + suc i
step_back p i = omega arith

-- The first place of `c` in `s`, as a pointer from `p` on, or NULL.
pub data FirstAt (p c : ℕ) (s : List ℕ) : ℕ → Type 0 where
  absent : ((j : ℕ) → get_elem? s j ≢ some c) → FirstAt p c s null
  found :
      (i : ℕ) {r : ℕ}
      → r ≡ p + i
      → get_elem? s i ≡ some c
      → ((j : ℕ) → j < i → get_elem? s j ≢ some c)
      → FirstAt p c s r

-- The last place.
pub data LastAt (p c : ℕ) (s : List ℕ) : ℕ → Type 0 where
  absent : ((j : ℕ) → get_elem? s j ≢ some c) → LastAt p c s null
  found :
      (i : ℕ) {r : ℕ}
      → r ≡ p + i
      → get_elem? s i ≡ some c
      → ((j : ℕ) → i < j → get_elem? s j ≢ some c)
      → LastAt p c s r

none_before :
    (c x : ℕ) (s : List ℕ)
    → x ≢ c
    → (n : ℕ) → ((j : ℕ) → j < n → get_elem? s j ≢ some c)
    → (j : ℕ) → j < suc n
    → get_elem? (x ∷ s) j ≢ some c
none_before c x s ne n h zero lt = λ e. ground arith
none_before c x s ne n h (suc j) lt = h j (omega arith)

nowhere :
    (c x : ℕ) (s : List ℕ)
    → x ≢ c
    → ((j : ℕ) → get_elem? s j ≢ some c)
    → (j : ℕ) → get_elem? (x ∷ s) j ≢ some c
nowhere c x s ne h zero = λ e. ground arith
nowhere c x s ne h (suc j) = h j

FirstAt-cons :
    (p c x : ℕ) (s : List ℕ) {r : ℕ} → x ≢ c → FirstAt (p + 1) c s r → FirstAt p c (x ∷ s) r
FirstAt-cons p c x s ne (absent h) = absent (nowhere c x s ne h)
FirstAt-cons p c x s ne (found i e g h) =
    found (suc i) (e ∙ step_back p i) g (none_before c x s ne i h)

strchr_loop-FirstAt :
    (k p c : ℕ) (m : Mem) (s : List ℕ)
    → Str m p s
    → length s < k
    → (r : ℕ) × (strchr_loop k p c m ≡ ok r) × FirstAt p c s r
unfolding strchr_loop
strchr_loop-FirstAt zero p c m s h fuel = absurd (omega arith)
strchr_loop-FirstAt (suc k) p c m [] h fuel = (null, ground arith, absent λ j e. cc)
strchr_loop-FirstAt (suc k) p c m (x ∷ s) h fuel =
    let (r, e, at) = strchr_loop-FirstAt k (p + 1) c m s h.2 (omega arith) in
    let nz : (m p == 0) ≡ false = ground arith in
    elim (Bool-cases (m p == c)) [
      | inl hit ↦
          (p, rw (nz, hit) refl, found 0 (omega arith) (ground arith) λ j lt. absurd (omega arith))
      | inr miss ↦ (r, rw (nz, miss) e, FirstAt-cons p c x s (ground arith) at)
    ]

-- strchr finds the first place of the character in the string, and NULL if there is none.
pub strchr-FirstAt :
    (fuel p c : ℕ) (m : Mem) (s : List ℕ)
    → Str m p s
    → length s < fuel
    → 0 < p
    → (r : ℕ) × (strchr fuel p c m ≡ ok r) × FirstAt p c s r
unfolding strchr
strchr-FirstAt fuel p c m s h enough pos =
    let e : (p == 0) ≡ false = ground arith in rw e (strchr_loop-FirstAt fuel p c m s h enough)

-- What strrchr has found so far is kept unless the rest has the character again.
pub data LastOr (p c : ℕ) (s : List ℕ) (old : ℕ) : ℕ → Type 0 where
  kept : {r : ℕ} → r ≡ old → ((j : ℕ) → get_elem? s j ≢ some c) → LastOr p c s old r
  found :
      (i : ℕ) {r : ℕ}
      → r ≡ p + i
      → get_elem? s i ≡ some c
      → ((j : ℕ) → i < j → get_elem? s j ≢ some c)
      → LastOr p c s old r

after_suc :
    (c x : ℕ) (s : List ℕ) (i : ℕ)
    → ((j : ℕ) → i < j → get_elem? s j ≢ some c)
    → (j : ℕ) → suc i < j
    → get_elem? (x ∷ s) j ≢ some c
after_suc c x s i h zero lt = absurd (omega arith)
after_suc c x s i h (suc j) lt = h j (omega arith)

after_zero :
    (c x : ℕ) (s : List ℕ)
    → ((j : ℕ) → get_elem? s j ≢ some c)
    → (j : ℕ) → 0 < j
    → get_elem? (x ∷ s) j ≢ some c
after_zero c x s h zero lt = absurd (omega arith)
after_zero c x s h (suc j) lt = h j

LastOr-hit :
    (p c x old : ℕ) (s : List ℕ) {r : ℕ} → x ≡ c → LastOr (p + 1) c s p r → LastOr p c (x ∷ s) old r
LastOr-hit p c x old s e (kept q h) = found 0 (omega arith) (ap some e) (after_zero c x s h)
LastOr-hit p c x old s e (found i q g h) = found (suc i) (q ∙ step_back p i) g (after_suc c x s i h)

LastOr-miss :
    (p c x old : ℕ) (s : List ℕ) {r : ℕ}
    → x ≢ c
    → LastOr (p + 1) c s old r
    → LastOr p c (x ∷ s) old r
LastOr-miss p c x old s ne (kept q h) = kept q (nowhere c x s ne h)
LastOr-miss p c x old s ne (found i q g h) =
    found (suc i) (q ∙ step_back p i) g (after_suc c x s i h)

strrchr_loop-LastOr :
    (k p c old : ℕ) (m : Mem) (s : List ℕ)
    → Str m p s
    → length s < k
    → (r : ℕ) × (strrchr_loop k p c old m ≡ ok r) × LastOr p c s old r
unfolding strrchr_loop
strrchr_loop-LastOr zero p c old m s h fuel = absurd (omega arith)
strrchr_loop-LastOr (suc k) p c old m [] h fuel = (old, ground arith, kept refl λ j e. cc)
strrchr_loop-LastOr (suc k) p c old m (x ∷ s) h fuel =
    let nz : (m p == 0) ≡ false = ground arith in
    elim (Bool-cases (m p == c)) [
      | inl hit ↦
          let (r, e, at) = strrchr_loop-LastOr k (p + 1) c p m s h.2 (omega arith) in
          (r, rw (nz, hit) e, LastOr-hit p c x old s (ground arith) at)
      | inr miss ↦
          let (r, e, at) = strrchr_loop-LastOr k (p + 1) c old m s h.2 (omega arith) in
          (r, rw (nz, miss) e, LastOr-miss p c x old s (ground arith) at)
    ]

to_LastAt : (p c : ℕ) (s : List ℕ) {r : ℕ} → LastOr p c s null r → LastAt p c s r
to_LastAt p c s (kept q h) = rw q (absent h)
to_LastAt p c s (found i q g h) = found i q g h

-- strrchr finds the last place of the character in the string, and NULL if there is none.
pub strrchr-LastAt :
    (fuel p c : ℕ) (m : Mem) (s : List ℕ)
    → Str m p s
    → length s < fuel
    → 0 < p
    → (r : ℕ) × (strrchr fuel p c m ≡ ok r) × LastAt p c s r
unfolding strrchr
strrchr-LastAt fuel p c m s h enough pos =
    let e : (p == 0) ≡ false = ground arith in
    let (r, q, at) = strrchr_loop-LastOr fuel p c null m s h enough in
    (r, rw e q, to_LastAt p c s at)

-- How often `c` stands in `s`.
abbrev pub count : ℕ → List ℕ → ℕ
count c [] = 0
count c (x ∷ s) = if x == c then suc (count c s) else count c s

strcnt_loop-count :
    (k p c n : ℕ) (m : Mem) (s : List ℕ)
    → Str m p s
    → length s < k
    → n + length s < 2 ^ 32
    → strcnt_loop k p c n m ≡ ok (n + count c s)
unfolding strcnt_loop
strcnt_loop-count zero p c n m s h fuel fits = absurd (omega arith)
strcnt_loop-count (suc k) p c n m [] h fuel fits = ground arith
strcnt_loop-count (suc k) p c n m (x ∷ s) h fuel fits =
    let w : (n + 1) % 2 ^ 32 ≡ n + 1 = omega arith in
    let nz : (m p == 0) ≡ false = ground arith in
    let same : (m p == c) ≡ (x == c) = ap (λ v. v == c) h.0 in
    elim (Bool-cases (x == c)) [
      | inl hit ↦
          rw (nz, same, hit, w)
            (strcnt_loop-count k (p + 1) c (n + 1) m s h.2 (omega arith) (omega arith)
              ∙ ap ok (omega arith))
      | inr miss ↦
          rw (nz, same, miss) (strcnt_loop-count k (p + 1) c n m s h.2 (omega arith) (omega arith))
    ]

-- strcnt returns how often the character stands in the string.
pub strcnt-count :
    (fuel p c : ℕ) (m : Mem) (s : List ℕ)
    → Str m p s
    → length s < fuel
    → length s < 2 ^ 32
    → 0 < p
    → strcnt fuel p c m ≡ ok (count c s)
unfolding strcnt
strcnt-count fuel p c m s h enough fits pos =
    let e : (p == 0) ≡ false = ground arith in
    rw e (strcnt_loop-count fuel p c 0 m s h enough (omega arith) ∙ ap ok (omega arith))
