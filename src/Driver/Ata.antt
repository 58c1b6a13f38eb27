-- ===== src/Driver/Ata.antt =====
-- src/driver/ata_disk.c: transfers of any length from and to a disk of 512-byte sectors.
-- The controller is hardware: what it holds is 256 words of 16 bits for each sector of each disk,
-- which the data register hands over, or takes, one by one.
pub mod Words
pub mod Flat
pub mod Part
pub mod Store
mod Tests
use so2c2011tp.Prelude.{
  ℕ, zero, suc, ◌+◌, ◌-◌, ◌*◌, ◌/◌, ◌%◌, ◌^◌, Bool, true, false, ◌&&◌, ◌||◌, Option, none, some,
  List, [], ◌∷◌, ◌++◌, ◌==◌, ltb, leb, if◌then◌else◌, take, drop, overlay,
}

abbrev pub sector_size : ℕ
sector_size = 512

-- The port bases that name the two disks.
abbrev pub ata0 : ℕ
ata0 = 0x1f0

abbrev pub ata1 : ℕ
ata1 = 0x170

-- The words of each sector of each disk.
abbrev pub Media : Type 0
Media = ℕ → ℕ → List ℕ

-- `unsigned short` arithmetic on sector numbers
abbrev pub u16 : ℕ → ℕ
u16 n = n % 2 ^ 16

-- The low byte, then the high byte.
unfoldable pub translate_bytes : ℕ → List ℕ
translate_bytes databyte = (databyte % 256) ∷ (databyte / 256 % 256) ∷ []

-- `upper << 8 | (lower & 0xff)`, kept in 16 bits
unfoldable pub data_word : ℕ → ℕ → ℕ
data_word upper lower = (upper * 256 + lower % 256) % 2 ^ 16

-- The loop of `_read` over the 256 words of a sector.
unfoldable pub sector_bytes : List ℕ → List ℕ
sector_bytes [] = []
sector_bytes (w ∷ ws) = translate_bytes w ++ sector_bytes ws

-- The loop of `_write` that sends `tmp[i + 1], tmp[i]`.
unfoldable pub sector_words : List ℕ → List ℕ
sector_words [] = []
sector_words (lower ∷ []) = []
sector_words (lower ∷ upper ∷ rest) = data_word upper lower ∷ sector_words rest

-- `_read`: `count` bytes of a sector, from `offset` on.
unfoldable pub read_part : Media → ℕ → ℕ → ℕ → ℕ → List ℕ
read_part m ata sector offset count = take count (drop offset (sector_bytes (m ata sector)))

-- The controller's write of a whole sector.
abbrev pub put_sector : Media → ℕ → ℕ → List ℕ → Media
put_sector m ata sector words ata' sector' =
    if (ata' == ata) && (sector' == sector) then words else m ata' sector'

-- `_write`: the sector is read, changed and sent back.
unfoldable pub write_part : Media → ℕ → List ℕ → ℕ → ℕ → Media
write_part m ata msg sector offset =
    put_sector m ata sector
      (sector_words (overlay (read_part m ata sector 0 sector_size) offset msg))

-- An offset behind the sector's end moves on to the sectors that follow.
unfoldable pub ata_normalize : ℕ → ℕ → ℕ × ℕ
ata_normalize sector offset =
    if leb sector_size offset
    then (u16 (sector + offset / sector_size), offset % sector_size)
    else (sector, offset)

abbrev pub is_disk : ℕ → Bool
is_disk ata = (ata == ata0) || (ata == ata1)

-- Each round moves at least one byte, so `bytes` rounds are enough.
unfoldable pub read_loop : ℕ → Media → ℕ → ℕ → ℕ → ℕ → List ℕ
unfolding ata_normalize
read_loop zero m ata bytes sector offset = []
read_loop (suc fuel) m ata bytes sector offset =
    let (s, o) = ata_normalize sector offset in
    let size = sector_size - o in
    let more = read_part m ata s o size ++ read_loop fuel m ata (bytes - size) (u16 (s + 1)) 0 in
    if bytes == 0
    then []
    else if ltb sector_size (o + bytes)
    then more
    else read_part m ata s o bytes

-- `none` stands for E_INVALID_ARG, with the caller's buffer left alone.
unfoldable pub ata_read : Media → ℕ → ℕ → ℕ → ℕ → Option (List ℕ)
ata_read m ata bytes sector offset =
    if is_disk ata then some (read_loop bytes m ata bytes sector offset) else none

-- `msg` is what is left of the caller's `bytes` bytes.
unfoldable pub write_loop : ℕ → Media → ℕ → List ℕ → ℕ → ℕ → ℕ → Media
unfolding ata_normalize
write_loop zero m ata msg bytes sector offset = m
write_loop (suc fuel) m ata msg bytes sector offset =
    let (s, o) = ata_normalize sector offset in
    let size = sector_size - o in
    let m' = write_part m ata (take size msg) s o in
    let more = write_loop fuel m' ata (drop size msg) (bytes - size) (u16 (s + 1)) 0 in
    if bytes == 0
    then m
    else if ltb sector_size (o + bytes)
    then more
    else write_part m ata (take bytes msg) s o

unfoldable pub ata_write : Media → ℕ → List ℕ → ℕ → ℕ → ℕ → Option Media
ata_write m ata msg bytes sector offset =
    if is_disk ata then some (write_loop bytes m ata msg bytes sector offset) else none
