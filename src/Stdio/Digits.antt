-- ===== src/Stdio/Digits.antt =====
-- itoa writes the digits of its number.
use xbay_os.Heap.Invariant.{update_other, update_same}
use xbay_os.Stdio.{digits_loop, Mem, digit_char, emit_loop, itoa}
use xbay_os.Base.{
  List, [], arith, if◌then◌else◌, length, ltb, ok, refl, suc, zero, ℕ, ◌*◌, ◌+◌, ◌-◌, ◌/◌, ◌<◌, ◌^◌,
  ◌∷◌, ◌≡◌, ◌≤◌, ap, false, inl, inr, update, ◌%◌, ◌==◌, ◌∙◌, ◌⊎◌,
}
use native.Mathlib.Nat.{pow-suc, div-add-mod', mod-lt, mul-le-mul_left, pow-suc}

-- The number of a sequence of digits behind a number, the most significant in front
abbrev value : (base acc : ℕ) → List ℕ → ℕ
value base acc [] = acc
value base acc (d ∷ ds) = value base (acc * base + d) ds

-- The value of a character as a digit
abbrev pub char_digit : ℕ → ℕ
char_digit c = if ltb 96 c then c - 87 else c - 48

-- The number whose digits stand at p, behind a number that has been read
abbrev pub read : (left base acc p : ℕ) → Mem → ℕ
read zero base acc p m = acc
read (suc left) base acc p m = read left base (acc * base + char_digit (m p)) (p + 1) m

abbrev AllBelow : ℕ → List ℕ → Type 0
AllBelow base [] = Unit
AllBelow base (d ∷ ds) = (d < base) × AllBelow base ds

value-some : (ds : List ℕ) (base n : ℕ) → value base 0 ds ≡ suc n → 0 < length ds
value-some [] base n e = absurd (omega (arith, e))
value-some (d ∷ ds) base n e = omega arith

half : (base var k : ℕ) → 2 ≤ base → var < 2 ^ suc k → var / base < 2 ^ k
half base var k two h =
    let e = div-add-mod' var base in
    let le : var / base * 2 ≤ var / base * base = mul-le-mul_left (var / base) two in
    let p : 2 ^ suc k ≡ 2 * 2 ^ k = pow-suc 2 k ∙ omega arith in omega (arith, e, le, p, h)

digits_loop-value :
    (k var base : ℕ) (ds : List ℕ)
    → 2 ≤ base
    → var < 2 ^ k
    → AllBelow base ds
    → (es : List ℕ) × (digits_loop (suc k) var base ds ≡ ok es)
      × (value base 0 es ≡ value base var ds)
      × AllBelow base es
      × (length es ≤ k + length ds)
unfolding digits_loop
digits_loop-value k zero base ds two small below = (ds, refl, refl, below, omega arith)
digits_loop-value zero (suc n) base ds two small below = absurd (omega (arith, small))
digits_loop-value (suc k) (suc n) base ds two small below =
    let var = suc n in
    let nz : (suc n == 0) ≡ false = ground arith in
    let e = div-add-mod' var base in
    let lt : var % base < base = mod-lt var (omega (arith, two)) in
    let (es, run, val, ok_all, le) =
      digits_loop-value k (var / base) base (var % base ∷ ds) two (half base var k two small)
        (lt, below) in
    (es, rw nz run, val ∙ ap (λ (x : ℕ). value base x ds) e, ok_all, omega (arith, le))

char_digit-digit_char : (d : ℕ) → d < 36 → char_digit (digit_char d) ≡ d
char_digit-digit_char d h = ground (arith, h)

-- The second loop leaves what is in front of the target.
emit_loop-before : (ds : List ℕ) (p : ℕ) (m : Mem) (a : ℕ) → a < p → (emit_loop ds p m).1 a ≡ m a
unfolding emit_loop
emit_loop-before [] p m a lt = refl
emit_loop-before (d ∷ ds) p m a lt =
    let ne : (a == p) ≡ false = ground arith in
    emit_loop-before ds (p + 1) (update m p (digit_char d)) a (omega arith)
    ∙ update_other m p (digit_char d) a ne

emit_loop-behind :
    (ds : List ℕ) (p : ℕ) (m : Mem) (a : ℕ) → p + length ds ≤ a → (emit_loop ds p m).1 a ≡ m a
unfolding emit_loop
emit_loop-behind [] p m a lt = refl
emit_loop-behind (d ∷ ds) p m a lt =
    let lt' : p + suc (length ds) ≤ a = lt in
    let ne : (a == p) ≡ false = ground (arith, lt') in
    emit_loop-behind ds (p + 1) (update m p (digit_char d)) a (omega (arith, lt'))
    ∙ update_other m p (digit_char d) a ne

emit_loop-read :
    (ds : List ℕ) (base acc p : ℕ) (m : Mem)
    → base ≤ 36
    → AllBelow base ds
    → read (length ds) base acc p (emit_loop ds p m).1 ≡ value base acc ds
unfolding emit_loop
emit_loop-read [] base acc p m top below = refl
emit_loop-read (d ∷ ds) base acc p m top below =
    let m1 = update m p (digit_char d) in
    let here : (emit_loop ds (p + 1) m1).1 p ≡ digit_char d =
      emit_loop-before ds (p + 1) m1 p (omega arith) ∙ update_same m p (digit_char d) in
    let digit : char_digit ((emit_loop ds (p + 1) m1).1 p) ≡ d =
      ap char_digit here ∙ char_digit-digit_char d (omega (arith, below.0, top)) in
    ap (λ (x : ℕ). read (length ds) base (acc * base + x) (p + 1) (emit_loop ds (p + 1) m1).1) digit
    ∙ emit_loop-read ds base (acc * base + d) (p + 1) m1 top below.1

emit_loop-target : (ds : List ℕ) (p : ℕ) (m : Mem) → (emit_loop ds p m).0 ≡ p + length ds
unfolding emit_loop
emit_loop-target [] p m = omega arith
emit_loop-target (d ∷ ds) p m =
    emit_loop-target ds (p + 1) (update m p (digit_char d)) ∙ omega arith

-- What itoa does: n characters stand at target, target moves behind them, they read as the number,
-- and the rest of memory is what it was.
pub record Printed (target var base : ℕ) (m : Mem) (p : ℕ) (m' : Mem) : Type 0 where
  pub count : ℕ
  pub moved : p ≡ target + count
  pub some_digits : 0 < count
  pub room : count ≤ 32
  pub reads : read count base 0 target m' ≡ var
  pub same : (a : ℕ) → (a < target) ⊎ (target + count ≤ a) → m' a ≡ m a

emitted :
    (ds : List ℕ) (target var base : ℕ) (m : Mem)
    → base ≤ 36
    → AllBelow base ds
    → value base 0 ds ≡ var
    → 0 < length ds
    → length ds ≤ 32
    → Printed target var base m (emit_loop ds target m).0 (emit_loop ds target m).1
emitted ds target var base m top below val pos room = record {
  count = length ds;
  moved = emit_loop-target ds target m;
  some_digits = pos;
  room = room;
  reads = emit_loop-read ds base 0 target m top below ∙ val;
  same = λ a side. elim side [
    | inl lt ↦ emit_loop-before ds target m a lt
    | inr le ↦ emit_loop-behind ds target m a le
  ];
}

-- For every uint32_t and every base from 2 to 36 itoa ends, with 1 to 32 digits, for which its array
-- has room; they read back as the number, target moves behind them, and no other byte changes.
pub itoa-Printed :
    (target var base : ℕ) (m : Mem)
    → var < 2 ^ 32
    → 2 ≤ base
    → base ≤ 36
    → (p : ℕ) × (m' : Mem) × (itoa target var base m ≡ ok (p, m')) × Printed target var base m p m'
unfolding itoa
itoa-Printed target zero base m small two top = (
  (emit_loop (0 ∷ []) target m).0,
  (emit_loop (0 ∷ []) target m).1,
  refl,
  emitted (0 ∷ []) target 0 base m top (omega arith, tt) (omega arith) (omega arith) (omega arith),
)
itoa-Printed target (suc n) base m small two top =
    let nz : (suc n == 0) ≡ false = ground arith in
    let (ds, run, val, below, le) = digits_loop-value 32 (suc n) base [] two small tt in
    (
      (emit_loop ds target m).0,
      (emit_loop ds target m).1,
      rw (nz, run) refl,
      emitted ds target (suc n) base m top below val (value-some ds base n val) (omega (arith, le)),
    )
