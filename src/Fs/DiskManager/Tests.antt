-- ===== src/Fs/DiskManager/Tests.antt =====
-- The disk manager on the cache, over disks of zeros that have just been formatted.
use so2c2011tp.Prelude.{
  ℕ, zero, suc, ◌/◌, ◌%◌, ◌≤◌, ◌≡◌, refl, ap, ◌∙◌, some, List, [], ◌∷◌, arith, length, true,
  replicate, replicate-AreBytes, take, get_or,
}
use so2c2011tp.Prelude.Int.{pos}
use so2c2011tp.Driver.Ata.{Media}
use so2c2011tp.Fs.DiskCache.{Cache, blank, cache_size, disk_cache_init}
use so2c2011tp.Fs.DiskCache.Laws.{disk_cache_init-IsCoherent}
use so2c2011tp.Fs.Strategy.{Machine, Manager}
use so2c2011tp.Fs.Strategy.Instances.{lru_cache, lru_cache-IsDrive, lru_cache-IsGood}
use so2c2011tp.Fs.Structs.{FileHeader, DiskPage, page_at, inode_bytes, u32_at, header_of}
use so2c2011tp.Fs.Structs.RoundTrip.{PageFits, HeaderFits}
use so2c2011tp.Fs.DiskManager.Bitmap.{entry, bit}
use so2c2011tp.Fs.DiskManager.Inodes.{
  Inode, write_header, next_inode, set_inode, set_file_mode, set_file_uid, set_file_gid, strcpy,
}
use so2c2011tp.Fs.DiskManager.Blocks.{reserve_memory, free_memory}
use so2c2011tp.Fs.DiskManager.Files.{create_inode, created_header}
use so2c2011tp.Fs.DiskManager.Transfer.{write_contents, read_contents}
use so2c2011tp.Fs.DiskManager.NextInode.{NextInode, Fresh, next_inode_lem, write_header-Fresh}
use so2c2011tp.Fs.DiskManager.Chains.{free_entries, length-free_entries}
use so2c2011tp.Fs.DiskManager.Reserve.{row_of, first_page}
use so2c2011tp.Fs.DiskManager.Allocate.{Allocated, HasBlockMap, reserve_memory_lem}
use so2c2011tp.Fs.DiskManager.Create.{IsCreated, new_inode, first_of, create_inode_lem}
use so2c2011tp.Fs.DiskManager.Headers.{Changed, set_file_lem}
use so2c2011tp.Fs.DiskManager.Undo.{Freed, free_memory_lem, free_memory-reserve_memory}
use so2c2011tp.Fs.DiskManager.SmallFile.{IsSmallFile, IsCreated-IsSmallFile, small_inode}
use so2c2011tp.Fs.DiskManager.Splice.{splice}
use so2c2011tp.Fs.DiskManager.ReadWrite.{write_contents_lem, read_contents-write_contents}
use so2c2011tp.Fs.DiskManager.Overlap.{set_inode_block_map}

abbrev pub zeros : Media
zeros = λ _ _. replicate 256 0

abbrev pub machine : Machine Cache
machine = record { strategy = lru_cache; stack = λ n. replicate n 0 }

abbrev pub unformatted : Manager Cache
unformatted = record {
  drive = disk_cache_init (record { table = replicate cache_size blank; media = zeros });
  errno = pos 0;
}

abbrev pub fresh : Manager Cache
fresh = write_header machine unformatted

unformatted-IsGood : lru_cache-IsDrive.IsGood unformatted.drive
unformatted-IsGood =
    lru_cache-IsGood unformatted.drive (disk_cache_init-IsCoherent zeros (λ _ _. refl)).0

fresh-Fresh : Fresh machine lru_cache-IsDrive fresh
fresh-Fresh =
    write_header-Fresh machine lru_cache-IsDrive unformatted unformatted-IsGood refl
      (replicate-AreBytes 8 0 (omega arith))

stack-fits : PageFits (page_at (replicate 28 0) 0)
unfolding page_at u32_at
stack-fits = omega arith

next_inode_lem_example :
    NextInode machine lru_cache-IsDrive fresh (replicate 504 0) (next_inode machine fresh)
next_inode_lem_example =
    next_inode_lem machine lru_cache-IsDrive fresh (replicate 504 0) fresh-Fresh.good
      fresh-Fresh.inodes

bit-zero : (j : ℕ) → bit 0 j ≡ 0
unfolding bit
bit-zero j = grind arith

entry-zeros : (n j : ℕ) → entry (replicate n 0) j ≡ 0
unfolding entry
entry-zeros n j = ap (λ x. bit x (j % 8)) (get_or-zeros n (j / 8)) ∙ bit-zero (j % 8)
  where
    get_or-zeros : (n i : ℕ) → get_or {A = ℕ} (replicate n 0) i 0 ≡ 0
    get_or-zeros zero i = refl
    get_or-zeros (suc n) zero = refl
    get_or-zeros (suc n) (suc i) = get_or-zeros n i

two_free : 2 ≤ length (free_entries 4096 0 (replicate 512 0))
two_free = length-free_entries 2 4096 0 (replicate 512 0) (λ j _ _. entry-zeros 512 j) (omega arith)

one_free : 1 ≤ length (free_entries 4096 0 (replicate 512 0))
one_free = length-free_entries 1 4096 0 (replicate 512 0) (λ j _ _. entry-zeros 512 j) (omega arith)

reserve_memory_lem_example :
    let ks = take 2 (free_entries 4096 0 (replicate 512 0)) in
    (st' : Manager Cache) × (reserve_memory machine 2 (first_page 2 0) 2 11 0 fresh
      ≡ some (pos 0, first_page 2 (get_or ks 0 0), st'))
    × Allocated machine lru_cache-IsDrive fresh (replicate 512 0) ks st'
reserve_memory_lem_example =
    reserve_memory_lem machine lru_cache-IsDrive 2 (first_page 2 0) 2 (replicate 512 0) fresh
      fresh-Fresh.good stack-fits fresh-Fresh.blocks (omega arith) two_free

free_memory-reserve_memory_example :
    (page' : DiskPage) × (st1 st2 : Manager Cache) × (block2 : List ℕ) × (reserve_memory machine 2
        (first_page 2 0)
        2
        11
        0
        fresh
      ≡ some (pos 0, page', st1))
    × (free_memory machine 2 page' st1 ≡ some st2)
    × HasBlockMap machine lru_cache-IsDrive st2 block2
    × ((j : ℕ) → entry block2 j ≡ entry (replicate 512 0) j)
free_memory-reserve_memory_example =
    free_memory-reserve_memory machine lru_cache-IsDrive 2 (first_page 2 0) 2 (replicate 512 0)
      fresh fresh-Fresh.good stack-fits fresh-Fresh.blocks (omega arith) two_free (omega arith)

-- A file named "ab".
abbrev pub file_inode : Inode
file_inode = record {
  sector = 0;
  offset = 0;
  inode_id = 0;
  uid = 7;
  gid = 3;
  flags = 0;
  length = 0;
  impl = 0;
  mask = 420;
  name = 97 ∷ 98 ∷ 0 ∷ [];
}

abbrev pub file_header : FileHeader
file_header = created_header machine file_inode file_inode.name

file_header-fits : HeaderFits file_header
unfolding strcpy header_of u32_at
file_header-fits = omega arith

-- The block that the file gets.
abbrev pub first_block : ℕ
first_block = get_or (take 1 (free_entries 4096 0 (replicate 512 0))) 0 0

-- The file as it is made.
pub made :
    (st' : Manager Cache) × (create_inode machine 1 file_inode 0 file_inode.name fresh ≡ some st')
    × IsCreated machine lru_cache-IsDrive st' 0 first_block file_header
made =
    create_inode_lem machine lru_cache-IsDrive 1 file_inode 0 file_inode.name (replicate 512 0)
      fresh fresh-Fresh.good stack-fits fresh-Fresh.blocks one_free (omega arith) file_header-fits

made-IsSmallFile : IsSmallFile machine lru_cache-IsDrive made.0 0 first_block file_header []
made-IsSmallFile =
    IsCreated-IsSmallFile machine lru_cache-IsDrive made.0 0 first_block file_header made.2

abbrev pub three_bytes : List ℕ
three_bytes = 104 ∷ 105 ∷ 10 ∷ []

pub written :
    (st' : Manager Cache) × (write_contents machine 1 0 three_bytes 3 0 made.0 ≡ some (pos 0, st'))
    × IsSmallFile machine lru_cache-IsDrive st' 0 first_block file_header three_bytes
written =
    write_contents_lem machine lru_cache-IsDrive 0 0 first_block 0 file_header [] three_bytes made.0
      made-IsSmallFile (omega arith) (omega arith) (omega arith) (omega arith)

write_contents_lem_example :
    (st' : Manager Cache) × (write_contents machine 1 0 (33 ∷ 34 ∷ []) 2 2 written.0
      ≡ some (pos 0, st'))
    × IsSmallFile machine lru_cache-IsDrive st' 0 first_block file_header
        (splice three_bytes 2 (33 ∷ 34 ∷ []))
write_contents_lem_example =
    write_contents_lem machine lru_cache-IsDrive 0 0 first_block 2 file_header three_bytes
      (33 ∷ 34 ∷ []) written.0 written.2 (omega arith) (omega arith) (omega arith) (omega arith)

read_contents-write_contents_example :
    (st1 st2 : Manager Cache) × (write_contents machine 1 0 three_bytes 3 3 written.0
      ≡ some (pos 0, st1))
    × (read_contents machine 1 0 (0 ∷ 0 ∷ 0 ∷ []) 3 3 st1 ≡ some (pos 0, three_bytes, st2))
read_contents-write_contents_example =
    read_contents-write_contents machine lru_cache-IsDrive 0 0 first_block 3 file_header three_bytes
      three_bytes (0 ∷ 0 ∷ 0 ∷ []) written.0 written.2 (omega arith) (omega arith) (omega arith)
      (omega arith) refl

set_file_lem_example :
    (let (done, st') = set_file_mode machine 0 511 made.0 in
      (done ≡ true)
      × Changed machine lru_cache-IsDrive made.0 0
          (new_inode first_block)
          (record file_header { mask = 511 })
          st')
    × (let (done, st') = set_file_uid machine 0 511 made.0 in
        (done ≡ true)
        × Changed machine lru_cache-IsDrive made.0 0
            (new_inode first_block)
            (record file_header { uid = 511 })
            st')
    × (let (done, st') = set_file_gid machine 0 511 made.0 in
        (done ≡ true)
        × Changed machine lru_cache-IsDrive made.0 0
            (new_inode first_block)
            (record file_header { gid = 511 })
            st')
set_file_lem_example =
    set_file_lem machine lru_cache-IsDrive 511 0 (new_inode first_block) file_header made.0
      made.2.good made.2.file (omega arith)

-- One block reserved.
reserved :
    let ks = take 1 (free_entries 4096 0 (replicate 512 0)) in
    (st' : Manager Cache) × (reserve_memory machine 1 (first_page 1 0) 1 11 0 fresh
      ≡ some (pos 0, first_page 1 (get_or ks 0 0), st'))
    × Allocated machine lru_cache-IsDrive fresh (replicate 512 0) ks st'
reserved =
    reserve_memory_lem machine lru_cache-IsDrive 1 (first_page 1 0) 1 (replicate 512 0) fresh
      fresh-Fresh.good stack-fits fresh-Fresh.blocks (omega arith) one_free

free_memory_lem_example :
    (st' : Manager Cache) × (free_memory machine 1 (first_page 1 first_block) reserved.0 ≡ some st')
    × Freed machine lru_cache-IsDrive reserved.0 reserved.2.map_after (first_block ∷ []) st'
free_memory_lem_example =
    free_memory_lem machine lru_cache-IsDrive 1 (first_page 1 first_block) first_block []
      reserved.2.map_after reserved.0 reserved.2.good reserved.2.bitmap
      (record { disk = refl; next_sector = refl; next_offset = refl }) (omega arith)
      (first_of machine lru_cache-IsDrive (row_of machine lru_cache-IsDrive reserved.0)
        (free_entries 4096 0 (replicate 512 0)) one_free reserved.2.chain)

set_inode_block_map_example :
    HasBlockMap machine lru_cache-IsDrive
      (set_inode machine 128 (small_inode 5 9) fresh)
      (splice (replicate 512 0) 0 (inode_bytes (small_inode 5 9)))
set_inode_block_map_example =
    set_inode_block_map machine lru_cache-IsDrive 128 (small_inode 5 9) (replicate 512 0) fresh
      fresh-Fresh.good (omega arith) fresh-Fresh.blocks
