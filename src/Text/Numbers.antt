-- ===== src/Text/Numbers.antt =====
-- src/lib/stdlib.c, src/lib/math.c and the conversions of src/lib/printf.c: numbers and their digits.
-- An int is kept as its 32 bits where it may wrap around.
pub mod Decimal
mod Tests
use so2c2011tp.Prelude.{
  ℕ, zero, suc, ◌+◌, ◌-◌, ◌*◌, ◌/◌, ◌%◌, ◌^◌, Bool, true, false, Option, none, some, List, [], ◌∷◌,
  ◌++◌, ltb, leb, ◌==◌, take, if◌then◌else◌,
}
use so2c2011tp.Prelude.Int.{ℤ, pos, negsuc}
use so2c2011tp.Text.{Text, strlen}

-- A signed `char` as an int.
abbrev pub char_word : ℕ → ℕ
char_word c = if ltb c 128 then c else 2 ^ 32 - 256 + c

-- `(i << 3) + (i << 1) + (*str - '0')`
abbrev pub decimal_step : ℕ → ℕ → ℕ
decimal_step i c = (i * 8 + i * 2 + char_word c + (2 ^ 32 - 48)) % 2 ^ 32

pub atoi_from : ℕ → Text → ℕ
atoi_from i [] = i
atoi_from i (c ∷ cs) = atoi_from (decimal_step i c) cs

pub atoi : Text → ℕ
atoi str = atoi_from 0 str

pub htoi_from : ℕ → Text → ℕ
htoi_from i [] = i
htoi_from i (c ∷ cs) = htoi_from ((i * 16 + char_word c + (2 ^ 32 - 48)) % 2 ^ 32) cs

pub htoi : Text → ℕ
htoi str = htoi_from 0 str

-- A character of "0123456789ABCDEF".
abbrev pub digit_char : ℕ → ℕ
digit_char d = if ltb d 10 then 48 + d else 55 + d

-- The loops of `numberBaseNtoString`, which put the digits in front of those found before. A number
-- has at most as many digits as its value, so the number is fuel enough.
pub base_digits : ℕ → ℕ → ℕ → Text → Text
base_digits zero number base found = found
base_digits (suc fuel) number base found =
    if ltb number base
    then digit_char (number % base) ∷ found
    else base_digits fuel (number / base) base (digit_char (number % base) ∷ found)

pub number_base_n_to_string : ℕ → ℕ → Text
number_base_n_to_string number base =
    if number == 0 then 48 ∷ [] else base_digits number number base []

-- The loop of `itoa`, which runs at least once.
pub itoa_digits : ℕ → ℕ → Text → Text
itoa_digits zero i found = found
itoa_digits (suc fuel) i found =
    let more = itoa_digits fuel (i / 10) ((48 + i % 10) ∷ found) in
    if i / 10 == 0 then (48 + i % 10) ∷ found else more

-- The remainders of a negative int are negative, and are subtracted from '0'.
pub itoa : ℤ → Text
itoa (pos i) = itoa_digits (suc i) i []
itoa (negsuc i) = 45 ∷ itoa_digits (suc (suc i)) (suc i) []

-- The loop at the end of `prints`: blanks while the length, counted on, is at most the padding.
pub pad : ℕ → ℕ → ℕ → Text
pad zero len padding = []
pad (suc fuel) len padding =
    let rest = pad fuel (len + 1) padding in if leb len padding then 32 ∷ rest else []

-- `prints`: what it writes; a padding of -1 is none.
pub prints : Text → Option ℕ → Text
prints string none = string
prints string (some padding) =
    let len = strlen string in
    (if leb len padding then string else take padding string) ++ pad (padding + 1) len padding

-- `pow`, for a power that is not negative.
pub pow : ℕ → ℕ → ℕ
pow base zero = 1
pow base (suc power) = base * pow base power % 2 ^ 32

-- `random`: the number and the new seed.
pub random : ℕ → ℕ × ℕ
random seed = let next = (7717 * seed + 6007) % 101 in (next, next)
