-- ===== src/Text.antt =====
-- src/lib/string.c. A string is the list of its characters before the NUL, none of which is 0.
-- The storage of a string is not modelled: what is copied into an array is taken to fit.
pub mod Compare
pub mod Numbers
use so2c2011tp.Prelude.{
  ℕ, zero, suc, ◌+◌, ◌-◌, ◌^◌, Bool, true, false, List, [], ◌∷◌, ◌++◌, ltb, ◌==◌, if◌then◌else◌,
}
use so2c2011tp.Prelude.Int.{ℤ, pos, negsuc, ◌-ℤ◌, ◌==ℤ◌}

abbrev pub Text : Type 0
Text = List ℕ

-- A `char` is signed.
unfoldable pub to_char : ℕ → ℤ
to_char n = if ltb n (2 ^ 7) then pos n else negsuc (2 ^ 8 - n - 1)

unfoldable pub strlen : Text → ℕ
strlen [] = 0
strlen (c ∷ cs) = suc (strlen cs)

-- The loop ends at the first difference, or where both strings end.
unfoldable pub strcmp : Text → Text → ℤ
strcmp [] [] = pos 0
strcmp [] (b ∷ bs) = pos 0 -ℤ to_char b
strcmp (a ∷ xs) [] = to_char a
strcmp (a ∷ xs) (b ∷ bs) =
    let ret = to_char a -ℤ to_char b in
    let rest = strcmp xs bs in if ret ==ℤ pos 0 then rest else ret

-- `!strcmp(s1, s2)`
abbrev pub equal_texts : Text → Text → Bool
equal_texts s1 s2 = strcmp s1 s2 ==ℤ pos 0

-- `strindex` from an offset that is not negative; `i` is the index of what is left.
pub index_from : Text → ℕ → ℕ → ℤ
index_from [] c i = negsuc 0
index_from (x ∷ xs) c i = if x == c then pos i else index_from xs c (i + 1)

-- `strspn`: how many characters at the start are in the set.
unfoldable pub is_in : Text → ℕ → Bool
is_in [] c = false
is_in (x ∷ xs) c = if x == c then true else is_in xs c

unfoldable pub strspn : Text → Text → ℕ
strspn [] set = 0
strspn (c ∷ cs) set = if is_in set c then suc (strspn cs set) else 0

-- `strreplace`: the number of replacements and the new string.
pub strreplace : Text → ℕ → ℕ → ℕ × Text
strreplace [] old new = (0, [])
strreplace (c ∷ cs) old new =
    let (n, rest) = strreplace cs old new in if c == old then (n + 1, new ∷ rest) else (n, c ∷ rest)

-- `substr` compares the first string with as much of the second.
pub substr : Text → Text → Bool
substr [] s2 = true
substr (a ∷ xs) [] = false
substr (a ∷ xs) (b ∷ bs) = if a == b then substr xs bs else false
