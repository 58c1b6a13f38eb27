-- ===== src/Driver/Keyboard.antt =====
-- src/driver/keyboard.c: scan codes to characters, with the state of the modifier keys.
pub mod Laws
mod Tests
use Prim.Native.Nat.{bit_or}
use so2c2011tp.Prelude.{
  ℕ, ◌-◌, ◌%◌, ◌^◌, Bool, true, false, not, ◌&&◌, ◌||◌, Option, none, some, List, [], ◌∷◌, ◌++◌,
  ltb, leb, ◌==◌, get_elem?, if◌then◌else◌,
}
use so2c2011tp.Text.{Text}

-- The bits of `kbFlags`, and the eight bits of `fKeys`.
pub record Keyboard : Type 0 where
  pub escape : Bool
  pub shift : Bool
  pub ctrl : Bool
  pub alt : Bool
  pub del : Bool
  pub fn : Bool
  pub f_keys : ℕ

abbrev pub lcase : Text
lcase =
    0 ∷ 27 ∷ 49 ∷ 50 ∷ 51 ∷ 52 ∷ 53 ∷ 54 ∷ 55 ∷ 56 ∷ 57 ∷ 48 ∷ 45 ∷ 61 ∷ 8 ∷ 9 ∷ 113 ∷ 119 ∷ 101
    ∷ 114 ∷ 116 ∷ 121 ∷ 117 ∷ 105 ∷ 111 ∷ 112 ∷ 91 ∷ 93 ∷ 10 ∷ 0 ∷ 97 ∷ 115 ∷ 100 ∷ 102 ∷ 103 ∷ 104
    ∷ 106 ∷ 107 ∷ 108 ∷ 59 ∷ 39 ∷ 96 ∷ 0 ∷ 92 ∷ 122 ∷ 120 ∷ 99 ∷ 118 ∷ 98 ∷ 110 ∷ 109 ∷ 44 ∷ 46 ∷ 47
    ∷ 0 ∷ 42 ∷ 0 ∷ 32 ∷ 0 ∷ 0 ∷ []

abbrev pub ucase : Text
ucase =
    0 ∷ 27 ∷ 33 ∷ 64 ∷ 35 ∷ 36 ∷ 37 ∷ 94 ∷ 38 ∷ 42 ∷ 40 ∷ 41 ∷ 95 ∷ 43 ∷ 8 ∷ 9 ∷ 81 ∷ 87 ∷ 69 ∷ 82
    ∷ 84 ∷ 89 ∷ 85 ∷ 73 ∷ 79 ∷ 80 ∷ 123 ∷ 125 ∷ 10 ∷ 0 ∷ 65 ∷ 83 ∷ 68 ∷ 70 ∷ 71 ∷ 72 ∷ 74 ∷ 75 ∷ 76
    ∷ 58 ∷ 34 ∷ 126 ∷ 0 ∷ 124 ∷ 90 ∷ 88 ∷ 67 ∷ 86 ∷ 66 ∷ 78 ∷ 77 ∷ 60 ∷ 62 ∷ 63 ∷ 0 ∷ 42 ∷ 0 ∷ 32
    ∷ 0 ∷ 0 ∷ []

pub keyboard_init : Keyboard → Keyboard
keyboard_init kb = record kb { f_keys = 0 }

-- The second `switch` of `checkSpecialKey`; none is its default. Adding a bit to the char `fKeys`
-- drops what lies above its eight bits.
pub special_key : Keyboard → ℕ → Option Keyboard
special_key kb code =
    if (code == 0x2A) || (code == 0x36)
    then some (record kb { shift = true })
    else (if (code == 0xAA) || (code == 0xB6)
        then some (record kb { shift = false })
        else (if code == 0x1D
            then some (record kb { ctrl = true })
            else (if code == 0x9D
                then some (record kb { ctrl = false })
                else (if code == 0x38
                    then some (record kb { alt = true })
                    else (if code == 0xB8
                        then some (record kb { alt = false })
                        else (if code == 0xE0
                            then some (record kb { escape = true })
                            else (if leb 0x3B code && leb code 0x44
                                then some (record kb {
                                  fn = true;
                                  f_keys = bit_or kb.f_keys (2 ^ (code - 0x3B)) % 2 ^ 8;
                                })
                                else (if leb 0xBB code && leb code 0xC4
                                    then some (record kb { fn = false; f_keys = 0 })
                                    else none))))))))

-- What the rest of the kernel is told of a scan code: that a special key changed, or a character, which
-- is none if it is read past the end of the table.
pub data Event : Type 0 where
  silence : Event
  special_key_pressed : Event
  key_pressed : Option ℕ → Event

-- `translateSc`
pub translate_sc : Keyboard → ℕ → Option ℕ
translate_sc kb code = if kb.shift then get_elem? ucase code else get_elem? lcase code

-- `checkSpecialKey`: whether the code was one, whether the change is signalled, and the new state.
pub check_special_key : Keyboard → ℕ → Bool × Bool × Keyboard
check_special_key kb code =
    if kb.escape
    then (
      true,
      false,
      record kb {
        escape = false;
        del = if code == 0x53 then true else (if code == 0xD3 then false else kb.del);
      },
    )
    else (elim (special_key kb code) [ none ↦ (false, false, kb) | some kb' ↦ (true, true, kb') ])

-- `handleScanCode`; a code from 0x80 on is a release.
pub handle_scan_code : Keyboard → ℕ → Event × Keyboard
handle_scan_code kb code =
    let (special, signalled, kb') = check_special_key kb code in
    if special
    then ((if signalled then special_key_pressed else silence), kb')
    else (if leb 0x80 code
        then (silence, kb')
        else (key_pressed (translate_sc kb' (code % 0x80)), kb'))
