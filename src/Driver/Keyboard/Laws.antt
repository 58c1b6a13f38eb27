-- ===== src/Driver/Keyboard/Laws.antt =====
-- Which scan codes are characters, and what holds of the modifiers in any sequence of codes.
use so2c2011tp.Prelude.{
  ℕ, zero, suc, ◌%◌, ◌<◌, ◌≡◌, refl, ap, ◌∙◌, inl, inr, Bool, true, false, ◌&&◌, none, some, List,
  [], ◌∷◌, ltb, leb, ◌==◌, get_elem?, length, if◌then◌else◌, arith, Bool-cases,
}
use so2c2011tp.Driver.Keyboard.{
  Keyboard, Event, silence, special_key_pressed, key_pressed, lcase, ucase, special_key,
  translate_sc, check_special_key, handle_scan_code,
}

-- A character that is read past the end of the table.
abbrev pub is_past : Event → Bool
is_past (key_pressed none) = true
is_past (key_pressed (some c)) = false
is_past silence = false
is_past special_key_pressed = false

-- A sequence of scan codes.
unfoldable pub after : Keyboard → List ℕ → Keyboard
after kb [] = kb
after kb (code ∷ codes) = after (handle_scan_code kb code).1 codes

-- Whether control is held after the codes: those behind an 0xE0 do not count.
unfoldable pub held : Bool → Bool → List ℕ → Bool
held escaped ctrl [] = ctrl
held true ctrl (code ∷ codes) = held false ctrl codes
held false ctrl (code ∷ codes) =
    held (code == 0xE0) (if code == 0x1D then true else (if code == 0x9D then false else ctrl))
      codes

ctrl_step :
    (kb : Keyboard) (code : ℕ)
    → kb.escape ≡ false
    → let kb' = (handle_scan_code kb code).1 in
      (kb'.escape ≡ (code == 0xE0))
      × (kb'.ctrl ≡ (if code == 0x1D then true else (if code == 0x9D then false else kb.ctrl)))
unfolding handle_scan_code check_special_key special_key
ctrl_step kb code h = ground (arith, h)

escaped_step :
    (kb : Keyboard) (code : ℕ)
    → kb.escape ≡ true
    → let (e, kb') = handle_scan_code kb code in
      (e ≡ silence) × (kb'.escape ≡ false) × (kb'.ctrl ≡ kb.ctrl)
unfolding handle_scan_code check_special_key
escaped_step kb code h = ground (arith, h)

held_from :
    (codes : List ℕ) (kb : Keyboard) (b c : Bool)
    → kb.escape ≡ b
    → kb.ctrl ≡ c
    → (after kb codes).ctrl ≡ held b c codes
unfolding after held
held_from [] kb b c e f = f
held_from (code ∷ codes) kb true c e f =
    let (_, e', f') = escaped_step kb code e in
    held_from codes (handle_scan_code kb code).1 false c e' (f' ∙ f)
held_from (code ∷ codes) kb false c e f =
    let (e', f') = ctrl_step kb code e in
    held_from codes (handle_scan_code kb code).1 _ _ e'
      (f' ∙ ap (λ x. if code == 0x1D then true else (if code == 0x9D then false else x)) f)

-- After any sequence of scan codes the control flag tells whether the key is held: the last of its
-- press and its release that is not behind an 0xE0 was the press.
pub after-held :
    (kb : Keyboard) (codes : List ℕ) → (after kb codes).ctrl ≡ held kb.escape kb.ctrl codes
after-held kb codes = held_from codes kb kb.escape kb.ctrl refl refl

past_end : (xs : List ℕ) (k : ℕ) → is_past (key_pressed (get_elem? xs k)) ≡ leb (length xs) k
past_end [] k = ground arith
past_end (x ∷ xs) zero = ground arith
past_end (x ∷ xs) (suc k) = ground (arith, past_end xs k)

past_translate :
    (kb : Keyboard) (code : ℕ) → is_past (key_pressed (translate_sc kb code)) ≡ leb 60 code
unfolding translate_sc
past_translate kb code = elim (Bool-cases kb.shift) [
  | inl upper ↦ simp upper (past_end ucase code)
  | inr lower ↦ simp lower (past_end lcase code)
]

-- Not behind an 0xE0, a scan code reads a character past the end of the tables exactly if it is one of
-- 0x45 to 0x7F: the keypad, F11 and F12.
pub handle_scan_code-is_past :
    (kb : Keyboard) (code : ℕ)
    → kb.escape ≡ false
    → code < 256
    → is_past (handle_scan_code kb code).0 ≡ ltb 0x44 code && ltb code 0x80
unfolding handle_scan_code check_special_key special_key
handle_scan_code-is_past kb code h w = ground (arith, h, past_translate kb (code % 0x80))
