-- ===== src/Text/Numbers/Tests.antt =====
-- Numbers in decimal and hexadecimal.
use so2c2011tp.Prelude.{◌≡◌, refl, arith}
use so2c2011tp.Text.Numbers.{atoi, htoi, htoi_from, number_base_n_to_string, base_digits}
use so2c2011tp.Text.Numbers.Decimal.{atoi-number_base_n_to_string}

atoi-number_base_n_to_string_example : atoi (number_base_n_to_string 4294967295 10) ≡ 4294967295
atoi-number_base_n_to_string_example = atoi-number_base_n_to_string 4294967295 (omega arith)

-- `htoi` reads the digit A as seventeen.
hexadecimal_ten : htoi (number_base_n_to_string 10 16) ≡ 17
unfolding htoi htoi_from number_base_n_to_string base_digits
hexadecimal_ten = refl
