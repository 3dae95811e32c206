-- ===== src/Strings/Copy.antt =====
-- strcpy and strcat.
use xbay_os.Base.{
  ℕ, zero, suc, ◌+◌, ◌<◌, ◌≤◌, ◌≡◌, ◌↔◌, ◌⊎◌, refl, true, false, List, [], ◌∷◌, ◌++◌, arith, ok,
  ◌==◌, length, update, ◌∙◌,
}
use xbay_os.Strings.{Mem, strcpy_loop, strcpy, strcat_loop, strcat}
use xbay_os.Strings.Text.{Str, strlen_loop-Str}

-- The bytes `s` stand from `p` on, whatever follows.
abbrev pub Holds : Mem → ℕ → List ℕ → Type 0
Holds m p [] = Unit
Holds m p (c ∷ s) = (m p ≡ c) × Holds m (p + 1) s

Holds-frame :
    (m m' : Mem) (p : ℕ) (s : List ℕ)
    → Holds m p s
    → ((a : ℕ) → p ≤ a → a < p + length s → m' a ≡ m a)
    → Holds m' p s
Holds-frame m m' p [] h same = tt
Holds-frame m m' p (c ∷ s) h same = (
  same p (omega arith) (omega arith) ∙ h.0,
  Holds-frame m m' (p + 1) s h.1 λ a x y. same a (omega arith) (omega arith),
)

Str-frame :
    (m m' : Mem) (p : ℕ) (s : List ℕ)
    → Str m p s
    → ((a : ℕ) → p ≤ a → a ≤ p + length s → m' a ≡ m a)
    → Str m' p s
Str-frame m m' p [] h same = same p (omega arith) (omega arith) ∙ h
Str-frame m m' p (c ∷ s) h same = (
  same p (omega arith) (omega arith) ∙ h.0,
  h.1,
  Str-frame m m' (p + 1) s h.2 λ a x y. same a (omega arith) (omega arith),
)

-- The regions [d, d + n] and [s, s + n] do not meet.
abbrev pub Apart : ℕ → ℕ → ℕ → Type 0
Apart d s n = (d + n < s) ⊎ (s + n < d)

record Copied (m : Mem) (d : ℕ) (s : List ℕ) (m' : Mem) : Type 0 where
  bytes : Holds m' d s
  same : (a : ℕ) → (a < d) ⊎ (d + length s ≤ a) → m' a ≡ m a

strcpy_loop-Copied :
    (k d p : ℕ) (m : Mem) (s : List ℕ)
    → Str m p s
    → length s < k
    → Apart d p (length s)
    → (m' : Mem) × (strcpy_loop k d p m ≡ ok m') × Copied m d s m'
unfolding strcpy_loop
strcpy_loop-Copied zero d p m s h fuel apart = absurd (omega arith)
strcpy_loop-Copied (suc k) d p m [] h fuel apart =
    (m, ground arith, record { bytes = tt; same = λ a out. refl })
strcpy_loop-Copied (suc k) d p m (c ∷ s) h fuel apart =
    let nz : (m p == 0) ≡ false = ground arith in
    let h' : Str (update m d (m p)) (p + 1) s =
      Str-frame m (update m d (m p)) (p + 1) s h.2 λ a x y. ground arith in
    let (m', e, cp) =
      strcpy_loop-Copied k (d + 1) (p + 1) (update m d (m p)) s h' (omega arith) (omega arith) in
    (
      m',
      rw nz e,
      record {
        bytes = (ground (arith, cp.same d), cp.bytes);
        same = λ a out. ground (arith, cp.same a);
      },
    )

-- A string of which only the zero byte is missing.
Str-iff :
    (m : Mem) (m0 : Mem) (p q : ℕ) (s : List ℕ)
    → Str m0 q s
    → Holds m p s
    → Str m p s ↔ (m (p + length s) ≡ 0)
Str-iff m m0 p q [] g h = let e : p + 0 ≡ p = omega arith in rw e (λ x. x, λ x. x)
Str-iff m m0 p q (c ∷ s) g h =
    let (to, from) = Str-iff m m0 (p + 1) (q + 1) s g.2 h.1 in
    let e : p + 1 + length s ≡ p + suc (length s) = omega arith in
    ((λ x. rw e at (to x.2)), λ z. (h.0, g.1, from (rw e z)))

-- strcpy copies the bytes of the string and leaves all else, the byte behind the copy included. So
-- dest holds the string afterwards exactly when a zero byte stood there before.
strcpy-Str :
    (fuel d p : ℕ) (m : Mem) (s : List ℕ)
    → Str m p s
    → length s < fuel
    → 0 < d
    → 0 < p
    → Apart d p (length s)
    → (m' : Mem) × (strcpy fuel d p m ≡ ok m')
      × Holds m' d s
      × ((a : ℕ) → (a < d) ⊎ (d + length s ≤ a) → m' a ≡ m a)
      × (Str m' d s ↔ (m (d + length s) ≡ 0))
unfolding strcpy
strcpy-Str fuel d p m s h enough hd hp apart =
    let e : (d == 0) ≡ false = ground arith in
    let f : (p == 0) ≡ false = ground arith in
    let (m', r, cp) = strcpy_loop-Copied fuel d p m s h enough apart in
    let last : m' (d + length s) ≡ m (d + length s) = cp.same _ (omega arith) in
    (m', rw (e, f) r, cp.bytes, cp.same, rw last at (Str-iff m' m d p s h cp.bytes))

strcat_loop-Str :
    (k d p : ℕ) (m : Mem) (s : List ℕ)
    → Str m p s
    → length s < k
    → Apart d p (length s)
    → (m' : Mem) × (strcat_loop k d p m ≡ ok m')
      × Str m' d s
      × ((a : ℕ) → (a < d) ⊎ (d + length s < a) → m' a ≡ m a)
unfolding strcat_loop
strcat_loop-Str zero d p m s h fuel apart = absurd (omega arith)
strcat_loop-Str (suc k) d p m [] h fuel apart =
    let z : (m p == 0) ≡ true = ground arith in
    (update m d 0, rw z refl, ground arith, λ a out. ground arith)
strcat_loop-Str (suc k) d p m (c ∷ s) h fuel apart =
    let nz : (m p == 0) ≡ false = ground arith in
    let h' : Str (update m d (m p)) (p + 1) s =
      Str-frame m (update m d (m p)) (p + 1) s h.2 λ a x y. ground arith in
    let (m', e, st, same) =
      strcat_loop-Str k (d + 1) (p + 1) (update m d (m p)) s h' (omega arith) (omega arith) in
    (m', rw nz e, (ground (arith, same d), h.1, st), λ a out. ground (arith, same a))

Str-append :
    (m m' : Mem) (p : ℕ) (t s : List ℕ)
    → Str m p t
    → Str m' (p + length t) s
    → ((a : ℕ) → a < p + length t → m' a ≡ m a)
    → Str m' p (t ++ s)
Str-append m m' p [] s h g same = let e : p + 0 ≡ p = omega arith in rw e at g
Str-append m m' p (c ∷ t) s h g same =
    let e : p + suc (length t) ≡ p + 1 + length t = omega arith in
    (
      same p (omega arith) ∙ h.0,
      h.1,
      Str-append m m' (p + 1) t s h.2 (rw e at g) λ a lt. same a (omega arith),
    )

-- strcat appends the string at src to the one at dest, zero byte included, if there is room that
-- does not meet src.
pub strcat-append :
    (fuel d p : ℕ) (m : Mem) (t s : List ℕ)
    → Str m d t
    → Str m p s
    → length t < fuel
    → length s < fuel
    → 0 < d
    → 0 < p
    → Apart (d + length t) p (length s)
    → (m' : Mem) × (strcat fuel d p m ≡ ok m')
      × Str m' d (t ++ s)
      × ((a : ℕ) → (a < d + length t) ⊎ (d + length t + length s < a) → m' a ≡ m a)
unfolding strcat
strcat-append fuel d p m t s ht hs et es hd hp apart =
    let e : (d == 0) ≡ false = ground arith in
    let f : (p == 0) ≡ false = ground arith in
    let (m', r, st, same) = strcat_loop-Str fuel (d + length t) p m s hs es apart in
    (
      m',
      rw (e, f, strlen_loop-Str fuel d m t ht et) r,
      Str-append m m' d t s ht st (λ a lt. same a (omega arith)),
      same,
    )
