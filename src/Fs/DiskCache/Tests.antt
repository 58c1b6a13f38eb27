-- ===== src/Fs/DiskCache/Tests.antt =====
-- The cache over disks of zeros.
use so2c2011tp.Prelude.{
  ℕ, ◌≡◌, ◌*◌, ◌+◌, ◌^◌, ◌<◌, refl, List, [], ◌∷◌, arith, replicate, AreBytes, take, drop,
}
use so2c2011tp.Driver.Ata.{Media, ata0, ata1}
use so2c2011tp.Driver.Ata.Flat.{Reads, disk_bytes}
use so2c2011tp.Fs.DiskCache.{
  Cache, blank, cache_size, disk_cache_init, disk_cache_read, disk_cache_write, cache_flush,
}
use so2c2011tp.Fs.DiskCache.View.{view, IsCoherent, SameView}
use so2c2011tp.Fs.DiskCache.Transfer.{disk_cache_read_lem}
use so2c2011tp.Fs.DiskCache.Write.{Stored, disk_cache_write_lem}
use so2c2011tp.Fs.DiskCache.Flush.{cache_flush_lem}
use so2c2011tp.Fs.DiskCache.Laws.{
  disk_cache_init-IsCoherent, disk_cache_read-disk_cache_write, high_sector_lost,
}

abbrev zeros : Media
zeros = λ _ _. replicate 256 0

abbrev four_bytes : List ℕ
four_bytes = 200 ∷ 1 ∷ 255 ∷ 9 ∷ []

abbrev empty_cache : Cache
empty_cache = record { table = replicate cache_size blank; media = zeros }

abbrev started : Cache
started = disk_cache_init empty_cache

four_bytes-AreBytes : AreBytes four_bytes
four_bytes-AreBytes = (omega arith, (omega arith, (omega arith, (omega arith, tt))))

started-IsCoherent : IsCoherent started
started-IsCoherent = (disk_cache_init-IsCoherent zeros (λ _ _. refl)).0

disk_cache_read_lem_example :
    let (msg, st') = disk_cache_read started ata0 700 3 10 in
    Reads (view started ata0) (3 * 512 + 10) 700 msg × IsCoherent st' × SameView started st'
disk_cache_read_lem_example =
    disk_cache_read_lem started ata0 700 3 10 started-IsCoherent refl (omega arith)

disk_cache_write_lem_example :
    Stored started ata1
      (7 * 512 + 510)
      4
      four_bytes
      (disk_cache_write started ata1 four_bytes 4 7 510)
disk_cache_write_lem_example =
    disk_cache_write_lem started ata1 four_bytes 7 510 started-IsCoherent refl four_bytes-AreBytes
      (omega arith)

disk_cache_read-disk_cache_write_example :
    (disk_cache_read (disk_cache_write started ata1 four_bytes 4 7 510) ata1 4 7 510).0 ≡ four_bytes
disk_cache_read-disk_cache_write_example =
    disk_cache_read-disk_cache_write started ata1 four_bytes 7 510 started-IsCoherent refl
      four_bytes-AreBytes (omega arith)

abbrev written : Cache
written = disk_cache_write started ata1 four_bytes 4 7 510

written-IsCoherent : IsCoherent written
written-IsCoherent =
    (disk_cache_write_lem started ata1 four_bytes 7 510 started-IsCoherent refl four_bytes-AreBytes
      (omega arith)).coherent

cache_flush_lem_example :
    let st' = cache_flush written in
    ((disk s : ℕ) → s < 2 ^ 15 → disk_bytes st'.media disk s ≡ view written disk s)
    × SameView written st'
    × IsCoherent st'
cache_flush_lem_example = cache_flush_lem written written-IsCoherent

high_sector_lost_example :
    (disk_cache_read (disk_cache_write empty_cache ata0 four_bytes 4 40000 8) ata0 4 40000 8).0
    ≡ take 4 (drop 8 (disk_bytes zeros ata0 40000))
high_sector_lost_example =
    high_sector_lost zeros (replicate 8 blank) ata0 40000 8 four_bytes (λ _ _. refl) refl
      (omega arith) (omega arith) (omega arith)
