-- ===== src/Keyboard/Letters.antt =====
-- The letters, and the modifier keys.
use xbay_os.Strings.Block.{shift}
use xbay_os.Keyboard.{Keys, keyboard_interrupt_hanlder}
use xbay_os.Base.Bytes.{all_below, all_below_sound}
use xbay_os.Base.{
  Bool, Option, Run, false, hang, if◌then◌else◌, leb, none, not, ok, panic, refl, some, true, ℕ,
  ◌&&◌, ◌||◌, ◌≡◌, arith,
}

-- The codes of the letter keys.
abbrev pub is_letter : ℕ → Bool
is_letter c = (leb 0x10 c && leb c 0x19) || (leb 0x1e c && leb c 0x26) || (leb 0x2c c && leb c 0x32)

abbrev pub flags : (ctrl shift alt caps : Bool) → Keys
flags ctrl shift alt caps = record {
  ctrl_down = ctrl;
  shift_down = shift;
  alt_down = alt;
  capslock_down = caps;
  ext_scancode = false;
}

-- What the handler gives is a letter, in upper case exactly if asked for.
abbrev pub is_case : Bool → Run (Option ℕ × Keys) → Bool
is_case upper (ok (some c, k)) =
    if upper then leb 0x41 c && leb c 0x5a else leb 0x61 c && leb c 0x7a
is_case upper (ok (none, k)) = false
is_case upper panic = false
is_case upper hang = false

abbrev pub xor : Bool → Bool → Bool
xor true b = not b
xor false b = b

good : Bool → Bool → Bool → Bool → ℕ → Bool
unfolding keyboard_interrupt_hanlder
good ctrl shift alt caps c =
    if is_letter c
    then is_case (xor shift caps) (keyboard_interrupt_hanlder c (flags ctrl shift alt caps))
    else true

good_all : (ctrl shift alt caps : Bool) → all_below 0x33 (good ctrl shift alt caps) ≡ true
unfolding good all_below
good_all ctrl true alt true = refl
good_all ctrl true alt false = refl
good_all ctrl false alt true = refl
good_all ctrl false alt false = refl

-- Each letter key, pressed without a prefix, puts a letter into the queue, which is in upper case
-- exactly if one of shift and caps lock, and not both, is in effect.
keyboard_interrupt_hanlder-letter :
    (c : ℕ) (ctrl shift alt caps : Bool)
    → is_letter c ≡ true
    → is_case (xor shift caps) (keyboard_interrupt_hanlder c (flags ctrl shift alt caps)) ≡ true
unfolding good
keyboard_interrupt_hanlder-letter c ctrl shift alt caps h =
    let g =
      all_below_sound 0x33 (good ctrl shift alt caps) c (good_all ctrl shift alt caps)
        (ground arith) in
    rw h at g
