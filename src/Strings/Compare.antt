-- ===== src/Strings/Compare.antt =====
-- strcmp and strncmp.
use xbay_os.Base.{
  ℕ, zero, suc, ◌+◌, ◌<◌, ◌≡◌, ◌≢◌, ◌↔◌, refl, false, ◌&&◌, not, arith, ok, ◌==◌, if◌then◌else◌,
  Bool-cases, inl, inr, ap,
}
use xbay_os.Strings.Block.{shift}
use xbay_os.Base.{ap}
use xbay_os.Strings.{Mem, char_lt, strcmp_loop, strcmp, strncmp_loop, strncmp}

-- How C orders two `char`s, as strcmp reports it.
abbrev pub order : ℕ → ℕ → ℕ
order a b = if char_lt a b then 255 else if char_lt b a then 1 else 0

pub order_iff : (a b : ℕ) → a < 256 → b < 256 → (order a b ≡ 0) ↔ (a ≡ b)
order_iff a b ha hb = (λ e. ground arith, λ e. ground arith)

-- Of two strings at different addresses strcmp compares the first bytes and nothing else, whatever
-- follows: it answers 0 exactly when these agree.
pub strcmp-first :
    (k s1 s2 : ℕ) (m : Mem)
    → ((a : ℕ) → m a < 256)
    → 0 < s1
    → 0 < s2
    → s1 ≢ s2
    → (strcmp (suc k) s1 s2 m ≡ ok (order (m s1) (m s2)))
      × ((strcmp (suc k) s1 s2 m ≡ ok 0) ↔ (m s1 ≡ m s2))
unfolding strcmp strcmp_loop
strcmp-first k s1 s2 m bytes h1 h2 ne =
    let e1 : (s1 == 0) ≡ false = ground arith in
    let e2 : (s2 == 0) ≡ false = ground arith in
    let apart : (not (m s1 == 0) && (s1 == s2)) ≡ false = ground arith in
    let o = order_iff (m s1) (m s2) (bytes s1) (bytes s2) in
    (rw (e1, e2, apart) refl, rw (e1, e2, apart) (λ e. o.0 (ground arith), λ e. ap ok (o.1 e)))

strncmp_loop_iff :
    (k a b : ℕ) (m : Mem)
    → ((c : ℕ) → m c < 256)
    → (strncmp_loop k a b m ≡ 0) ↔ ((i : ℕ) → i < k → m (a + i) ≡ m (b + i))
unfolding strncmp_loop
strncmp_loop_iff zero a b m bytes = (λ e i lt. absurd (omega arith), λ h. refl)
strncmp_loop_iff (suc k) a b m bytes = elim (Bool-cases (m a == m b)) [
  | inl e ↦
      let here : m a ≡ m b = ground arith in
      let same : char_lt (m b) (m b) ≡ false = ground arith in
      let (to, from) = strncmp_loop_iff k (a + 1) (b + 1) m bytes in
      rw (here, same)
        (
          (λ z. shift m a b k here (to z)),
          λ h. from λ i lt.
              let ea : a + 1 + i ≡ a + suc i = omega arith in
              let eb : b + 1 + i ≡ b + suc i = omega arith in rw (ea, eb) (h (suc i) (omega arith)),
        )
  | inr e ↦ ((λ z. absurd (unequal e z)), λ h. absurd (first_ne e (h 0 (omega arith))))
]
  where
    unequal :
        (m a == m b) ≡ false
        → ◌≡◌ {A = ℕ}
            (if char_lt (m b) (m a)
              then 1
              else if char_lt (m a) (m b)
              then 255
              else strncmp_loop k (a + 1) (b + 1) m)
            0
        → ⊥
    unequal e z = let ha = bytes a in let hb = bytes b in ground arith

    first_ne : (m a == m b) ≡ false → m (a + 0) ≡ m (b + 0) → ⊥
    first_ne e z =
        let ea : a + 0 ≡ a = omega arith in
        let eb : b + 0 ≡ b = omega arith in let z' : m a ≡ m b = rw (ea, eb) at z in ground arith

-- strncmp answers 0 exactly when all n bytes agree, also those behind the end of the strings.
pub strncmp_iff :
    (s1 s2 n : ℕ) (m : Mem)
    → ((c : ℕ) → m c < 256)
    → 0 < s1
    → 0 < s2
    → (strncmp s1 s2 n m ≡ ok 0) ↔ ((i : ℕ) → i < n → m (s1 + i) ≡ m (s2 + i))
unfolding strncmp
strncmp_iff s1 s2 n m bytes h1 h2 =
    let e1 : (s1 == 0) ≡ false = ground arith in
    let e2 : (s2 == 0) ≡ false = ground arith in
    let (to, from) = strncmp_loop_iff n s1 s2 m bytes in
    rw (e1, e2) ((λ z. to (ground arith)), λ h. ap ok (from h))
