-- ===== src/Stdio.antt =====
-- lib/stdio.c: numbers and formats as text, over the flat memory of Strings. The arguments behind the
-- format are a sequence of words, which va_arg reads in order.
pub mod Digits
mod Tests
use xbay_os.Thread.Pick.{rest}
use xbay_os.Strings.{strcpy, strlen, Mem}
use xbay_os.Base.{
  List, Run, [], hang, if◌then◌else◌, ltb, ok, suc, u32, u8, update, zero, ℕ, ◌%◌, ◌+◌, ◌-◌, ◌/◌,
  ◌==◌, ◌>>=◌, ◌>>◌, ◌^◌, ◌∷◌,
}

-- The first loop of itoa, which fills digits; the list has the last one in front, as the second loop
-- takes them.
unfoldable pub digits_loop : (fuel var base : ℕ) → List ℕ → Run (List ℕ)
digits_loop zero var base ds = hang
digits_loop (suc k) var base ds =
    let rest = digits_loop k (var / base) base (var % base ∷ ds) in if var == 0 then ok ds else rest

-- The character of a digit
abbrev pub digit_char : ℕ → ℕ
digit_char d = if ltb 9 d then u8 (97 + d - 10) else u8 (48 + d)

-- The second loop of itoa; target moves with the characters.
unfoldable pub emit_loop : List ℕ → (target : ℕ) → Mem → ℕ × Mem
emit_loop [] target m = (target, m)
emit_loop (d ∷ ds) target m = emit_loop ds (target + 1) (update m target (digit_char d))

-- itoa; digits has room for 32, so that its loop makes 33 tests at most
unfoldable pub itoa : (target var base : ℕ) → Mem → Run (ℕ × Mem)
itoa target var base m = (if var == 0 then ok (0 ∷ []) else digits_loop 33 var base []) >>= λ ds.
    ok (emit_loop ds target m)

-- The local variables of vsprintf and the memory: p, and how many arguments have been read.
pub record Output : Type 0 where
  pub p : ℕ
  pub read_args : ℕ
  pub mem : Mem

abbrev pub put : ℕ → Output → Output
put c s = record s { p = s.p + 1; mem = update s.mem s.p c }

abbrev pub next_arg : Output → Output
next_arg s = record s { read_args = s.read_args + 1 }

abbrev pub put_number : (var base : ℕ) → Output → Run Output
put_number var base s = itoa s.p var base s.mem >>= λ (p, m). ok (record s { p = p; mem = m })

-- The case of %d: var is an int
abbrev pub put_signed : (var : ℕ) → Output → Run Output
put_signed var s =
    if ltb var (2 ^ 31) then put_number var 10 s else put_number (u32 (2 ^ 32 - var)) 10 (put 45 s)

-- The case of %s
abbrev pub put_string : (fuel var : ℕ) → Output → Run Output
put_string fuel var s = do
  m ← strcpy fuel s.p var s.mem
  n ← strlen fuel var m
  ok (record s { p = s.p + n; mem = m })

-- The switch of vsprintf
abbrev pub conversion : (fuel c : ℕ) → (args : ℕ → ℕ) → Output → Run Output
conversion fuel c args s =
    let var = args s.read_args in
    if c == b'c'
    then ok (put (u8 var) (next_arg s))
    else if c == b'd'
    then put_signed var (next_arg s)
    else if c == b's'
    then put_string fuel var (next_arg s)
    else if c == b'x'
    then put_number var 16 (next_arg s)
    else if c == b'%'
    then ok (put b'%' s)
    else ok s

-- The loop of vsprintf; the character behind a '%' is skipped even if it is the NUL
unfoldable pub format_loop : (left fuel : ℕ) → (args : ℕ → ℕ) → (f : ℕ) → Output → Run Output
format_loop zero fuel args f s = hang
format_loop (suc left) fuel args f s =
    let c = s.mem f in
    let converted =
      conversion fuel (s.mem (f + 1)) args s >>= λ s'. format_loop left fuel args (f + 2) s' in
    let copied = format_loop left fuel args (f + 1) (put c s) in
    if c == 0 then ok s else if c == b'%' then converted else copied

-- vsprintf
unfoldable pub vsprintf : (fuel str format : ℕ) → (args : ℕ → ℕ) → Mem → Run (ℕ × Mem)
vsprintf fuel str format args m =
    format_loop fuel fuel args format (record { p = str; read_args = 0; mem = m }) >>= λ s.
    strlen fuel str s.mem >>= λ n. ok (n, s.mem)
