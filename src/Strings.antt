-- ===== src/Strings.antt =====
-- lib/string.c: blocks of bytes and strings that end in a zero byte, in flat memory.
-- Memory is a function from addresses to bytes (0 to 255). The counted loops recur on the rounds
-- left, the loops that look for a zero byte run on fuel. The ASSERTs are the tests for NULL.
-- `char` is signed on the target, and compared so.
pub mod Block
pub mod Text
pub mod Compare
pub mod Copy
mod Tests
use xbay_os.Base.{
  ℕ, zero, suc, ◌+◌, ◌-◌, ◌*◌, ◌/◌, ◌%◌, ◌^◌, Bool, true, false, not, ◌&&◌, Option, none, some, Run,
  ok, hang, ◌>>=◌, ◌>>◌, assert, ltb, ◌==◌, if◌then◌else◌, update, u8, u32, sub32,
}

abbrev pub Mem : Type 0
Mem = ℕ → ℕ

abbrev pub null : ℕ
null = 0

-- The order of `char`: the bytes from 128 on stand for negative numbers.
abbrev pub char_lt : ℕ → ℕ → Bool
char_lt a b = ltb ((a + 128) % 256) ((b + 128) % 256)

abbrev pub not_null : ℕ → Run (Unit {0})
not_null p = assert (not (p == null))

-- The loop of memset.
pub memset_loop : ℕ → (temp value : ℕ) → Mem → Mem
memset_loop zero temp value m = m
memset_loop (suc k) temp value m = memset_loop k (temp + 1) value (update m temp value)

-- memset
pub memset : (dest value size : ℕ) → Mem → Run Mem
memset dest value size m = do not_null dest; ok (memset_loop size dest value m)

-- The loop of memcpy.
pub memcpy_loop : ℕ → (d s : ℕ) → Mem → Mem
memcpy_loop zero d s m = m
memcpy_loop (suc k) d s m = memcpy_loop k (d + 1) (s + 1) (update m d (m s))

-- memcpy
pub memcpy : (dest src size : ℕ) → Mem → Run Mem
memcpy dest src size m = do not_null dest; not_null src; ok (memcpy_loop size dest src m)

-- The loop of memcmp, on unsigned bytes; -1 is converted to the result type uint32_t.
pub memcmp_loop : ℕ → (a b : ℕ) → Mem → ℕ
memcmp_loop zero a b m = 0
memcmp_loop (suc k) a b m =
    let rest = memcmp_loop k (a + 1) (b + 1) m in
    if ltb (m b) (m a) then 1 else if ltb (m a) (m b) then 2 ^ 32 - 1 else rest

-- memcmp
pub memcmp : (a b size : ℕ) → Mem → Run ℕ
memcmp a b size m = do not_null a; not_null b; ok (memcmp_loop size a b m)

-- The loop of strcpy: it stops before it copies the zero byte.
pub strcpy_loop : ℕ → (d s : ℕ) → Mem → Run Mem
strcpy_loop zero d s m = hang
strcpy_loop (suc k) d s m =
    let rest = strcpy_loop k (d + 1) (s + 1) (update m d (m s)) in if m s == 0 then ok m else rest

-- strcpy; its result is always `dest`
pub strcpy : ℕ → (dest src : ℕ) → Mem → Run Mem
strcpy fuel dest src m = do not_null dest; not_null src; strcpy_loop fuel dest src m

-- The loop of strlen.
pub strlen_loop : ℕ → (p : ℕ) → Mem → Run ℕ
strlen_loop zero p m = hang
strlen_loop (suc k) p m = let rest = strlen_loop k (p + 1) m in if m p == 0 then ok p else rest

-- strlen
pub strlen : ℕ → ℕ → Mem → Run ℕ
strlen fuel s m = if s == null then ok 0 else (strlen_loop fuel s m >>= λ p. ok (sub32 p s))

-- The loop of strcmp, which compares the pointers `a` and `b` and not the bytes behind them. It
-- gives the two pointers at which it stops.
pub strcmp_loop : ℕ → (a b : ℕ) → Mem → Run (ℕ × ℕ)
strcmp_loop zero a b m = hang
strcmp_loop (suc k) a b m =
    let rest = strcmp_loop k (a + 1) (b + 1) m in
    if not (m a == 0) && (a == b) then rest else ok (a, b)

-- strcmp; -1 is converted to the result type uint8_t
pub strcmp : ℕ → (s1 s2 : ℕ) → Mem → Run ℕ
strcmp fuel s1 s2 m = do
  not_null s1
  not_null s2
  strcmp_loop fuel s1 s2 m >>= λ (a, b).
      ok (if char_lt (m a) (m b) then 255 else if char_lt (m b) (m a) then 1 else 0)

-- The loop of strncmp; it goes on past the end of both strings.
pub strncmp_loop : ℕ → (a b : ℕ) → Mem → ℕ
strncmp_loop zero a b m = 0
strncmp_loop (suc k) a b m =
    let rest = strncmp_loop k (a + 1) (b + 1) m in
    if char_lt (m b) (m a) then 1 else if char_lt (m a) (m b) then 255 else rest

-- strncmp
pub strncmp : (s1 s2 n : ℕ) → Mem → Run ℕ
strncmp s1 s2 n m = do not_null s1; not_null s2; ok (strncmp_loop n s1 s2 m)

-- The loop of strchr.
pub strchr_loop : ℕ → (p c : ℕ) → Mem → Run ℕ
strchr_loop zero p c m = hang
strchr_loop (suc k) p c m =
    let rest = strchr_loop k (p + 1) c m in
    if m p == 0 then ok null else if m p == c then ok p else rest

-- strchr
pub strchr : ℕ → (s c : ℕ) → Mem → Run ℕ
strchr fuel s c m = do not_null s; strchr_loop fuel s c m

-- The loop of strrchr.
pub strrchr_loop : ℕ → (p c last_char : ℕ) → Mem → Run ℕ
strrchr_loop zero p c last_char m = hang
strrchr_loop (suc k) p c last_char m =
    let rest = strrchr_loop k (p + 1) c (if m p == c then p else last_char) m in
    if m p == 0 then ok last_char else rest

-- strrchr
pub strrchr : ℕ → (s c : ℕ) → Mem → Run ℕ
strrchr fuel s c m = do not_null s; strrchr_loop fuel s c null m

-- strcat: the loop to the end of dest, the copying loop, and the zero byte; the result is `dest`.
pub strcat_loop : ℕ → (p s : ℕ) → Mem → Run Mem
strcat_loop zero p s m = hang
strcat_loop (suc k) p s m =
    let rest = strcat_loop k (p + 1) (s + 1) (update m p (m s)) in
    if m s == 0 then ok (update m p 0) else rest

pub strcat : ℕ → (dest src : ℕ) → Mem → Run Mem
strcat fuel dest src m = do
  not_null dest
  not_null src
  strlen_loop fuel dest m >>= λ p. strcat_loop fuel p src m

-- The loop of strcnt.
pub strcnt_loop : ℕ → (p c cnt : ℕ) → Mem → Run ℕ
strcnt_loop zero p c cnt m = hang
strcnt_loop (suc k) p c cnt m =
    let rest = strcnt_loop k (p + 1) c (if m p == c then u32 (cnt + 1) else cnt) m in
    if m p == 0 then ok cnt else rest

-- strcnt
pub strcnt : ℕ → (s c : ℕ) → Mem → Run ℕ
strcnt fuel s c m = do not_null s; strcnt_loop fuel s c 0 m
