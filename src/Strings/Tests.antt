-- ===== src/Strings/Tests.antt =====
-- Strings in a small memory: "abca" at 16, "xyz" at 32, and zero bytes elsewhere.
use xbay_os.Base.{ℕ, ◌<◌, List, [], ◌∷◌, arith, ◌==◌, if◌then◌else◌}
use xbay_os.Strings.{Mem}
use xbay_os.Strings.Text.{Str}

abbrev abca : List ℕ
abca = b'a' ∷ b'b' ∷ b'c' ∷ b'a' ∷ []

abbrev memory : Mem
memory a =
    if a == 16
    then b'a'
    else if a == 17
    then b'b'
    else if a == 18
    then b'c'
    else if a == 19
    then b'a'
    else if a == 32
    then b'x'
    else if a == 33
    then b'y'
    else if a == 34
    then b'z'
    else 0

abbrev xyz : List ℕ
xyz = b'x' ∷ b'y' ∷ b'z' ∷ []

abca-Str : Str memory 16 abca
abca-Str = omega arith

xyz-Str : Str memory 32 xyz
xyz-Str = omega arith

bytes : (a : ℕ) → memory a < 256
bytes a = ground arith
