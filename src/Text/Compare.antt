-- ===== src/Text/Compare.antt =====
-- What `strcmp` decides.
use so2c2011tp.Prelude.{
  ℕ, ◌<◌, ◌≡◌, inl, inr, sym, ◌≢◌, ◌↔◌, refl, ap, true, false, [], ◌∷◌, arith, Bool-cases,
}
use so2c2011tp.Prelude.Int.{ℤ, pos, ◌-ℤ◌, ◌==ℤ◌, int_laws, ==ℤ_iff}
use so2c2011tp.Text.{Text, to_char, strcmp, equal_texts}

-- Every character is a byte other than NUL.
abbrev pub IsText : Text → Type 0
IsText [] = Unit
IsText (c ∷ cs) = (0 < c) × (c < 256) × IsText cs

sub_self : (x : ℤ) → x -ℤ x ≡ pos 0
sub_self x = omega int_laws

strcmp_self : (s : Text) → strcmp s s ≡ pos 0
unfolding strcmp
strcmp_self [] = refl
strcmp_self (c ∷ cs) = rw (sub_self (to_char c)) (strcmp_self cs)

pub equal_texts_self : (s : Text) → equal_texts s s ≡ true
equal_texts_self s = rw (strcmp_self s)

pub not_equal_texts : (s t : Text) → equal_texts s t ≡ false → s ≢ t
not_equal_texts s t h e = ground (arith, ap (λ u. equal_texts s u) e, equal_texts_self s)

to_char_nonzero : (c : ℕ) → 0 < c → c < 256 → to_char c ≢ pos 0
unfolding to_char
to_char_nonzero c lo hi e = ground arith

to_char_injective : (a b : ℕ) → a < 256 → b < 256 → to_char a -ℤ to_char b ≡ pos 0 → a ≡ b
unfolding to_char ◌-ℤ◌
to_char_injective a b ha hb e = ground arith

strcmp-end : (c : ℕ) → 0 < c → c < 256 → pos 0 -ℤ to_char c ≢ pos 0
unfolding to_char ◌-ℤ◌
strcmp-end c lo hi e = ground arith

texts_of_zero : (s t : Text) → IsText s → IsText t → strcmp s t ≡ pos 0 → s ≡ t
unfolding strcmp
texts_of_zero [] [] hs ht e = refl
texts_of_zero [] (b ∷ bs) hs ht e = absurd (strcmp-end b ht.0 ht.1 e)
texts_of_zero (a ∷ xs) [] hs ht e = absurd (to_char_nonzero a hs.0 hs.1 e)
texts_of_zero (a ∷ xs) (b ∷ bs) hs ht e = elim (Bool-cases (to_char a -ℤ to_char b ==ℤ pos 0)) [
  | inl same ↦
      (let tails : xs ≡ bs = texts_of_zero xs bs hs.2 ht.2 (ground (arith, e)) in
        rw (to_char_injective a b hs.1 ht.1 ((==ℤ_iff _ (pos 0)).0 same), tails))
  | inr other ↦ ground (arith, e, ==ℤ_iff (to_char a -ℤ to_char b) (pos 0))
]

-- `strcmp` returns 0 exactly on equal strings, whatever the sign of their characters.
pub strcmp_zero_iff : (s t : Text) → IsText s → IsText t → (strcmp s t ≡ pos 0) ↔ (s ≡ t)
strcmp_zero_iff s t hs ht = (texts_of_zero s t hs ht, λ e. rw (sym e) (strcmp_self s))
