-- ===== src/Driver/Keyboard/Tests.antt =====
-- The keyboard with nothing held.
use so2c2011tp.Prelude.{◌≡◌, ◌&&◌, refl, false, some, arith, ltb}
use so2c2011tp.Driver.Keyboard.{
  Keyboard, key_pressed, handle_scan_code, check_special_key, special_key, translate_sc,
}
use so2c2011tp.Driver.Keyboard.Laws.{is_past, handle_scan_code-is_past}

abbrev idle : Keyboard
idle = record {
  escape = false;
  shift = false;
  ctrl = false;
  alt = false;
  del = false;
  fn = false;
  f_keys = 0;
}

-- Seven on the keypad.
handle_scan_code-is_past_example :
    is_past (handle_scan_code idle 0x47).0 ≡ ltb 0x44 0x47 && ltb 0x47 0x80
handle_scan_code-is_past_example = handle_scan_code-is_past idle 0x47 refl (omega arith)

-- The key C, and with shift.
typed_c : (handle_scan_code idle 0x2E).0 ≡ key_pressed (some 99)
unfolding handle_scan_code check_special_key special_key translate_sc
typed_c = refl

typed_upper_c : (handle_scan_code (handle_scan_code idle 0x2A).1 0x2E).0 ≡ key_pressed (some 67)
unfolding handle_scan_code check_special_key special_key translate_sc
typed_upper_c = refl
