-- ===== src/Keyboard.antt =====
-- device/keyboard.c: the keyboard interrupt. The characters that a call puts into the keyboard's
-- queue (io_queue_putchar, IoQueue) are given as its result.
pub mod Letters
use xbay_os.Base.{
  Bool, List, Option, Run, [], false, get_or, if◌then◌else◌, leb, ltb, none, not, ok, panic, some,
  true, ℕ, ◌%◌, ◌&&◌, ◌+◌, ◌-◌, ◌==◌, ◌^◌, ◌||◌, ◌∷◌, ◌/◌,
}

-- scancode_ascii_map: the character of a key, and that of the key with shift
abbrev pub scancode_ascii_map : List (ℕ × ℕ)
scancode_ascii_map =
    (0x00, 0x00)
    ∷ (0x1b, 0x1b)
    ∷ (0x31, 0x21)
    ∷ (0x32, 0x40)
    ∷ (0x33, 0x23)
    ∷ (0x34, 0x24)
    ∷ (0x35, 0x25)
    ∷ (0x36, 0x5e)
    ∷ (0x37, 0x26)
    ∷ (0x38, 0x2a)
    ∷ (0x39, 0x28)
    ∷ (0x30, 0x29)
    ∷ (0x2d, 0x5f)
    ∷ (0x3d, 0x2b)
    ∷ (0x08, 0x08)
    ∷ (0x09, 0x09)
    ∷ (0x71, 0x51)
    ∷ (0x77, 0x57)
    ∷ (0x65, 0x45)
    ∷ (0x72, 0x52)
    ∷ (0x74, 0x54)
    ∷ (0x79, 0x59)
    ∷ (0x75, 0x55)
    ∷ (0x69, 0x49)
    ∷ (0x6f, 0x4f)
    ∷ (0x70, 0x50)
    ∷ (0x5b, 0x7b)
    ∷ (0x5d, 0x7d)
    ∷ (0x0d, 0x0d)
    ∷ (0x00, 0x00)
    ∷ (0x61, 0x41)
    ∷ (0x73, 0x53)
    ∷ (0x64, 0x44)
    ∷ (0x66, 0x46)
    ∷ (0x67, 0x47)
    ∷ (0x68, 0x48)
    ∷ (0x6a, 0x4a)
    ∷ (0x6b, 0x4b)
    ∷ (0x6c, 0x4c)
    ∷ (0x3b, 0x3a)
    ∷ (0x27, 0x22)
    ∷ (0x60, 0x7e)
    ∷ (0x00, 0x00)
    ∷ (0x5c, 0x7c)
    ∷ (0x7a, 0x5a)
    ∷ (0x78, 0x58)
    ∷ (0x63, 0x43)
    ∷ (0x76, 0x56)
    ∷ (0x62, 0x42)
    ∷ (0x6e, 0x4e)
    ∷ (0x6d, 0x4d)
    ∷ (0x2c, 0x3c)
    ∷ (0x2e, 0x3e)
    ∷ (0x2f, 0x3f)
    ∷ (0x00, 0x00)
    ∷ (0x2a, 0x2a)
    ∷ (0x00, 0x00)
    ∷ (0x20, 0x20)
    ∷ (0x00, 0x00)
    ∷ []

-- ctrl_down, shift_down, alt_down, capslock_down and ext_scancode
pub record Keys : Type 0 where
  pub ctrl_down : Bool
  pub shift_down : Bool
  pub alt_down : Bool
  pub capslock_down : Bool
  pub ext_scancode : Bool

-- The keys that the code tells apart by name; the codes are LEFT_CTRL_MAKECODE and so on.
abbrev pub is_ctrl : ℕ → Bool
is_ctrl c = (c == 0x1d) || (c == 0xe01d)

abbrev pub is_shift : ℕ → Bool
is_shift c = (c == 0x2a) || (c == 0x36)

abbrev pub is_alt : ℕ → Bool
is_alt c = (c == 0x38) || (c == 0xe038)

-- A break code, with the bit 0x80 taken out
unfoldable pub released : ℕ → Keys → Keys
released c k =
    if is_ctrl c
    then record k { ctrl_down = false }
    else if is_shift c
    then record k { shift_down = false }
    else if is_alt c
    then record k { alt_down = false }
    else k

-- has_shift
unfoldable pub has_shift : ℕ → Keys → Bool
has_shift c k =
    if ltb c 0x0e
      || (c == 0x2a)
      || (leb 0x27 c && leb c 0x29)
      || (leb 0x33 c && leb c 0x35)
      || (c == 0x1a)
      || (c == 0x1b)
    then k.shift_down
    else (k.shift_down && not k.capslock_down) || (not k.shift_down && k.capslock_down)

-- ascii_char; past the end of the map the code reads other memory, here 0
unfoldable pub ascii_char : Bool → ℕ → ℕ
ascii_char shifted index =
    let e = get_or scancode_ascii_map index (0, 0) in if shifted then e.1 else e.0

-- The control keys, of a scancode that has lost its prefix 0xe0
unfoldable pub pressed : ℕ → Keys → Keys
pressed c k =
    if is_ctrl c
    then record k { ctrl_down = true }
    else if is_shift c
    then record k { shift_down = true }
    else if is_alt c
    then record k { alt_down = true }
    else if c == 0x3a
    then record k { capslock_down = not k.capslock_down }
    else k

-- keyboard_interrupt_hanlder, of the byte that the port delivers. An unknown key fails the assertion.
unfoldable pub keyboard_interrupt_hanlder : ℕ → Keys → Run (Option ℕ × Keys)
unfolding released has_shift ascii_char pressed
keyboard_interrupt_hanlder code k0 =
    let scancode = if k0.ext_scancode then 0xe000 + code else code in
    let k = record k0 { ext_scancode = false } in
    let is_breakcode = code / 2 ^ 7 % 2 == 1 in
    let makecode = if is_breakcode then scancode - 0x80 else scancode in
    let index = scancode % 2 ^ 8 in
    let c = ascii_char (has_shift scancode k) index in
    if code == 0xe0
    then ok (none, record k0 { ext_scancode = true })
    else if is_breakcode
    then ok (none, released makecode k)
    else if (ltb 0 scancode && ltb scancode 0x3b) || (scancode == 0xe01d) || (scancode == 0xe038)
    then (if not (c == 0) then ok (some c, k) else ok (none, pressed index k))
    else panic
