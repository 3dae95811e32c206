-- ===== src/Base/Lists.antt =====
-- Lists measured and indexed by native numbers, and membership of a number by a Boolean test.
use Prim.Native.Nat.{ℕ, zero, suc, ◌+◌}
use mathlib.Core.Path.{◌≡◌, refl, ap}
use mathlib.Core.Bool.{Bool, true, false, ◌||◌, or_assoc}
use mathlib.Core.List.{List, [], ◌∷◌, ◌++◌}
use mathlib.Core.Option.{Option, none, some}
use mathlib.Core.Logic.{inl, inr}
use native.Mathlib.Omega.{arith}
use xbay_os.Base.Tests.{◌==◌, Bool-cases}

module _ {ℓ} {A : Type ℓ} where
  abbrev pub length : List A → ℕ
  length [] = 0
  length (x ∷ xs) = suc (length xs)

  abbrev pub get_elem? : List A → ℕ → Option A
  get_elem? [] i = none
  get_elem? (x ∷ xs) zero = some x
  get_elem? (x ∷ xs) (suc i) = get_elem? xs i

  abbrev pub get_or : List A → ℕ → A → A
  get_or [] i d = d
  get_or (x ∷ xs) zero d = x
  get_or (x ∷ xs) (suc i) d = get_or xs i d

  pub length-append : (xs ys : List A) → length (xs ++ ys) ≡ length xs + length ys
  length-append [] ys = omega arith
  length-append (x ∷ xs) ys = omega (arith, length-append xs ys)

abbrev pub has : ℕ → List ℕ → Bool
has a [] = false
has a (x ∷ xs) = (a == x) || has a xs

pub has-append : (c : ℕ) (front back : List ℕ) → has c (front ++ back) ≡ (has c front || has c back)
has-append c [] back = refl
has-append c (d ∷ front) back = let rest = has-append c front back in rw (rest, or_assoc (c == d))

-- All entries differ.
abbrev pub Distinct : List ℕ → Type 0
Distinct [] = Unit
Distinct (x ∷ xs) = (has x xs ≡ false) × Distinct xs

-- A function changed at one argument.
abbrev pub update {ℓ} : {A : Type ℓ} → (ℕ → A) → ℕ → A → ℕ → A
update f i v j = elim (j == i) [ true ↦ v | false ↦ f j ]

-- Two numbers that a list tells apart.
pub ne_of_has : (xs : List ℕ) (a c : ℕ) → has c xs ≡ true → has a xs ≡ false → (a == c) ≡ false
ne_of_has xs a c h g = elim (Bool-cases (a == c)) [
  | inl e ↦ let e' : a ≡ c = ground arith in absurd (clash (ap (λ d. has d xs) e'))
  | inr e ↦ e
]
  where
    clash : has a xs ≡ has c xs → ⊥
    clash e = cc

pub Distinct-append :
    (xs : List ℕ) (a : ℕ) → Distinct xs → has a xs ≡ false → Distinct (xs ++ a ∷ [])
Distinct-append [] a d h = (refl, tt)
Distinct-append (x ∷ xs) a d h =
    (rw has-append (ground arith), Distinct-append xs a d.1 (ground arith))

-- One entry of a list of distinct numbers may be left out.
pub Distinct-drop :
    (xs : List ℕ) (a : ℕ) (ys : List ℕ)
    → Distinct (xs ++ a ∷ ys)
    → Distinct (xs ++ ys) × (has a (xs ++ ys) ≡ false)
Distinct-drop [] a ys d = (d.1, d.0)
Distinct-drop (x ∷ xs) a ys d =
    let (rest, out) = Distinct-drop xs a ys d.1 in
    let here = d.0 in
    let e = has-append x xs (a ∷ ys) in
    let e' = has-append x xs ys in ((ground arith, rest), ground arith)
