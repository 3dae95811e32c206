-- ===== src/Strings/Block.antt =====
-- Blocks of bytes: memset, memcpy and memcmp.
use xbay_os.Base.{
  ℕ, zero, suc, ◌+◌, ◌-◌, ◌^◌, ◌<◌, ◌≤◌, ◌≡◌, ◌≢◌, ◌⊎◌, inl, inr, refl, false, arith, ok, ltb, leb,
  ◌==◌, ◌&&◌, if◌then◌else◌, Bool-cases, update,
}
use xbay_os.Strings.{Mem, memset_loop, memset, memcpy_loop, memcpy, memcmp_loop, memcmp}

memset_loop_lem :
    (k t v : ℕ) (m : Mem) (a : ℕ)
    → memset_loop k t v m a ≡ (if leb t a && ltb a (t + k) then v else m a)
unfolding memset_loop
memset_loop_lem zero t v m a = ground arith
memset_loop_lem (suc k) t v m a = ground (arith, memset_loop_lem k (t + 1) v (update m t v) a)

-- memset writes the value to the size bytes from dest on, and to no other.
pub memset_lem :
    (dest v size : ℕ) (m : Mem)
    → 0 < dest
    → (m' : Mem) × (memset dest v size m ≡ ok m')
      × ((a : ℕ) → m' a ≡ (if leb dest a && ltb a (dest + size) then v else m a))
unfolding memset
memset_lem dest v size m h =
    let e : (dest == 0) ≡ false = ground arith in
    (memset_loop size dest v m, rw e refl, memset_loop_lem size dest v m)

memcpy_loop_lem :
    (k d s : ℕ) (m : Mem) (a : ℕ)
    → (d ≤ s) ⊎ (s + k ≤ d)
    → memcpy_loop k d s m a ≡ (if leb d a && ltb a (d + k) then m (s + a - d) else m a)
unfolding memcpy_loop
memcpy_loop_lem zero d s m a h = ground arith
memcpy_loop_lem (suc k) d s m a h =
    let e : s + 1 + a - (d + 1) ≡ s + a - d = omega arith in
    ground (arith, memcpy_loop_lem k (d + 1) (s + 1) (update m d (m s)) a)

-- memcpy copies the size bytes at src to dest, and writes to no other, if dest does not lie inside
-- the source after its first byte.
pub memcpy_lem :
    (dest src size : ℕ) (m : Mem)
    → 0 < dest
    → 0 < src
    → (dest ≤ src) ⊎ (src + size ≤ dest)
    → (m' : Mem) × (memcpy dest src size m ≡ ok m')
      × ((i : ℕ) → i < size → m' (dest + i) ≡ m (src + i))
      × ((a : ℕ) → (a < dest) ⊎ (dest + size ≤ a) → m' a ≡ m a)
unfolding memcpy
memcpy_lem dest src size m hd hs h =
    let e : (dest == 0) ≡ false = ground arith in
    let f : (src == 0) ≡ false = ground arith in
    (
      memcpy_loop size dest src m,
      rw (e, f) refl,
      (λ i lt.
          let g : src + (dest + i) - dest ≡ src + i = omega arith in
          ground (arith, memcpy_loop_lem size dest src m (dest + i) h)),
      λ a out. ground (arith, memcpy_loop_lem size dest src m a h),
    )

-- The sign that memcmp gives to a comparison of two bytes.
abbrev pub sign : ℕ → ℕ → ℕ
sign a b = if ltb b a then 1 else 2 ^ 32 - 1

-- What memcmp answers: 0 for equal blocks, else the order of the first bytes that differ.
pub data Compared (m : Mem) (a b size : ℕ) : ℕ → Type 0 where
  equal : ((i : ℕ) → i < size → m (a + i) ≡ m (b + i)) → Compared m a b size 0
  differ :
      (i : ℕ) {r : ℕ}
      → i < size
      → ((j : ℕ) → j < i → m (a + j) ≡ m (b + j))
      → m (a + i) ≢ m (b + i)
      → r ≡ sign (m (a + i)) (m (b + i))
      → Compared m a b size r

pub shift :
    (m : Mem) (a b k : ℕ)
    → m a ≡ m b
    → ((i : ℕ) → i < k → m (a + 1 + i) ≡ m (b + 1 + i))
    → (i : ℕ) → i < suc k
    → m (a + i) ≡ m (b + i)
shift m a b k e h zero lt =
    let ea : a + 0 ≡ a = omega arith in let eb : b + 0 ≡ b = omega arith in rw (ea, eb) e
shift m a b k e h (suc i) lt =
    let ea : a + suc i ≡ a + 1 + i = omega arith in
    let eb : b + suc i ≡ b + 1 + i = omega arith in rw (ea, eb) (h i (omega arith))

Compared-step :
    (m : Mem) (a b k : ℕ) {r : ℕ}
    → m a ≡ m b
    → Compared m (a + 1) (b + 1) k r
    → Compared m a b (suc k) r
Compared-step m a b k e (equal h) = equal λ i lt. shift m a b k e h i lt
Compared-step m a b k e (differ i lt before ne s) =
    let ea : a + 1 + i ≡ a + suc i = omega arith in
    let eb : b + 1 + i ≡ b + suc i = omega arith in
    differ (suc i) (omega arith) (shift m a b i e before) (rw (ea, eb) at ne) (rw (ea, eb) at s)

differ_here :
    (m : Mem) (a b k : ℕ) {r : ℕ} → m a ≢ m b → r ≡ sign (m a) (m b) → Compared m a b (suc k) r
differ_here m a b k ne s =
    let ea : a + 0 ≡ a = omega arith in
    let eb : b + 0 ≡ b = omega arith in
    differ 0 (omega arith) (λ j lt. absurd (omega arith)) (rw (ea, eb) ne) (rw (ea, eb) s)

memcmp_loop-Compared : (k a b : ℕ) (m : Mem) → Compared m a b k (memcmp_loop k a b m)
unfolding memcmp_loop
memcmp_loop-Compared zero a b m = equal λ i lt. absurd (omega arith)
memcmp_loop-Compared (suc k) a b m = elim (Bool-cases (ltb (m b) (m a))) [
  | inl gt ↦ rw gt (differ_here m a b k (ground arith) (rw gt refl))
  | inr le ↦ elim (Bool-cases (ltb (m a) (m b))) [
    | inl lt ↦ rw (le, lt) (differ_here m a b k (ground arith) (rw le refl))
    | inr ge ↦
        rw (le, ge)
          (Compared-step m a b k (ground arith) (memcmp_loop-Compared k (a + 1) (b + 1) m))
  ]
]

-- memcmp decides by the first byte that differs, as unsigned numbers: 0 if none does among the
-- size bytes, else 1 or the uint32_t that stands for -1.
pub memcmp-Compared :
    (a b size : ℕ) (m : Mem)
    → 0 < a
    → 0 < b
    → (r : ℕ) × (memcmp a b size m ≡ ok r) × Compared m a b size r
unfolding memcmp
memcmp-Compared a b size m ha hb =
    let e : (a == 0) ≡ false = ground arith in
    let f : (b == 0) ≡ false = ground arith in
    (memcmp_loop size a b m, rw (e, f) refl, memcmp_loop-Compared size a b m)

pub memcpy-memcpy_loop :
    (d s n : ℕ) (m : Mem) → 0 < d → 0 < s → memcpy d s n m ≡ ok (memcpy_loop n d s m)
unfolding memcpy
memcpy-memcpy_loop d s n m hd hs =
    let e : (d == 0) ≡ false = ground arith in
    let f : (s == 0) ≡ false = ground arith in rw (e, f) refl
