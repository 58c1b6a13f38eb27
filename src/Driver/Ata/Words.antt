-- ===== src/Driver/Ata/Words.antt =====
-- The words of a sector and its bytes are two forms of one thing.
use so2c2011tp.Prelude.{
  ℕ, zero, suc, ◌+◌, ◌*◌, ◌/◌, ◌%◌, ◌^◌, ◌<◌, ◌≡◌, refl, ap, List, [], ◌∷◌, arith, length, AreBytes,
}
use so2c2011tp.Driver.Ata.{translate_bytes, data_word, sector_bytes, sector_words}

-- Each sector has 256 words of 16 bits.
abbrev pub AreWords : List ℕ → Type 0
AreWords [] = Unit
AreWords (w ∷ ws) = (w < 2 ^ 16) × AreWords ws

pub length-sector_bytes : (ws : List ℕ) → length (sector_bytes ws) ≡ length ws * 2
unfolding sector_bytes translate_bytes
length-sector_bytes [] = refl
length-sector_bytes (w ∷ ws) = omega (arith, length-sector_bytes ws)

pub sector_bytes-AreBytes : (ws : List ℕ) → AreBytes (sector_bytes ws)
unfolding sector_bytes translate_bytes
sector_bytes-AreBytes [] = tt
sector_bytes-AreBytes (w ∷ ws) = (omega arith, (omega arith, sector_bytes-AreBytes ws))

-- What `_write` sends, `_read` gets back.
pub sector_bytes-sector_words :
    (n : ℕ) (bs : List ℕ) → length bs ≡ n * 2 → AreBytes bs → sector_bytes (sector_words bs) ≡ bs
unfolding sector_bytes sector_words translate_bytes data_word
sector_bytes-sector_words n [] e h = refl
sector_bytes-sector_words n (b ∷ []) e h = absurd (omega arith)
sector_bytes-sector_words zero (b ∷ c ∷ bs) e h = absurd (omega arith)
sector_bytes-sector_words (suc n) (b ∷ c ∷ bs) e h =
    let rest = sector_bytes-sector_words n bs (omega arith) h.1.1 in
    let low : (c * 256 + b % 256) % 2 ^ 16 % 256 ≡ b = omega (arith, h.0, h.1.0) in
    let high : (c * 256 + b % 256) % 2 ^ 16 / 256 % 256 ≡ c = omega (arith, h.0, h.1.0) in
    rw (rest, low, high)

pub length-sector_words : (n : ℕ) (bs : List ℕ) → length bs ≡ n * 2 → length (sector_words bs) ≡ n
unfolding sector_words
length-sector_words n [] e = omega arith
length-sector_words n (b ∷ []) e = absurd (omega arith)
length-sector_words zero (b ∷ c ∷ bs) e = absurd (omega arith)
length-sector_words (suc n) (b ∷ c ∷ bs) e = ap suc (length-sector_words n bs (omega arith))
