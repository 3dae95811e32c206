-- ===== src/Stdio/Tests.antt =====
-- Concrete texts.
use xbay_os.Stdio.Digits.{Printed, itoa-Printed}
use xbay_os.Stdio.{digits_loop, emit_loop, format_loop, itoa, Mem, Output}
use xbay_os.Base.{
  List, Run, [], arith, hang, if◌then◌else◌, ok, panic, refl, suc, zero, ℕ, ◌+◌, ◌-◌, ◌==◌, ◌^◌,
  ◌∷◌, ◌≡◌,
}

abbrev blank : ℕ → ℕ
blank a =
    if a == 100
    then b'a'
    else if a == 101
    then b'%'
    else if a == 102
    then b'x'
    else if a == 103
    then b'%'
    else if a == 104
    then b'd'
    else 0

itoa-Printed_example :
    (p : ℕ) × (m' : Mem) × (itoa 500 48879 16 blank ≡ ok (p, m')) × Printed 500 48879 16 blank p m'
itoa-Printed_example = itoa-Printed 500 48879 16 blank (omega arith) (omega arith) (omega arith)

abbrev text : (left p : ℕ) → Mem → List ℕ
text zero p m = []
text (suc left) p m = m p ∷ text left (p + 1) m

abbrev shown : (left p : ℕ) → Run Output → List ℕ
shown left p (ok s) = text left p s.mem
shown left p panic = []
shown left p hang = []

-- "a%x%d" with 0xbe and -7
format_run :
    shown 6 500 (
      format_loop 9 9
        (λ n. if n == 0 then 0xbe else 2 ^ 32 - 7)
        100
        (record { p = 500; read_args = 0; mem = blank }))
    ≡ b'a' ∷ b'b' ∷ b'e' ∷ 45 ∷ b'7' ∷ 0 ∷ []
unfolding format_loop itoa digits_loop emit_loop
format_run = refl
