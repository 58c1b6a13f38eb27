-- ===== src/Driver/Ata/Tests.antt =====
-- The disk driver on a disk of zeros.
use so2c2011tp.Prelude.{ℕ, ◌≡◌, refl, some, List, [], ◌∷◌, arith, replicate}
use so2c2011tp.Driver.Ata.{Media, ata1, ata_read, ata_write}
use so2c2011tp.Driver.Ata.Store.{ata_read-ata_write}

abbrev zeros : Media
zeros = λ _ _. replicate 256 0

abbrev four_bytes : List ℕ
four_bytes = 200 ∷ 1 ∷ 255 ∷ 9 ∷ []

ata_read-ata_write_example :
    (m' : Media) × (ata_write zeros ata1 four_bytes 4 7 510 ≡ some m')
    × (ata_read m' ata1 4 7 510 ≡ some four_bytes)
ata_read-ata_write_example =
    ata_read-ata_write zeros ata1 four_bytes 7 510 (λ _ _. refl)
      (omega arith, (omega arith, (omega arith, (omega arith, tt)))) (omega arith) (omega arith)
      (omega arith) refl
