-- ===== src/Fs/Structs.antt =====
-- include/fs/diskManager.h: the structs that stand on the disk, packed, and their bytes. An `u32int`
-- is four bytes, the lowest first; so is a `boolean`.
pub mod RoundTrip
use so2c2011tp.Prelude.{ℕ, ◌+◌, ◌*◌, ◌/◌, ◌%◌, ◌^◌, ◌-◌, List, [], ◌∷◌, ◌++◌, get_or, take, drop}

abbrev pub magic_number : ℕ
magic_number = 123456

abbrev pub max_name_length : ℕ
max_name_length = 24

-- `DISK_BLOCK_SIZE_BYTES`
abbrev pub block_size : ℕ
block_size = 256

abbrev pub size_of_page : ℕ
size_of_page = 28

abbrev pub size_of_header : ℕ
size_of_header = 48

abbrev pub size_of_inode : ℕ
size_of_inode = 36

abbrev pub size_of_fs_header : ℕ
size_of_fs_header = 8

-- `FILE_BLOCK_OVERHEAD_SIZE_BYTES`
abbrev pub overhead : ℕ
overhead = size_of_page + size_of_header

-- Unsigned subtraction.
abbrev pub sub32 : ℕ → ℕ → ℕ
sub32 a b = (a + 2 ^ 32 - b) % 2 ^ 32

abbrev pub add32 : ℕ → ℕ → ℕ
add32 a b = (a + b) % 2 ^ 32

unfoldable pub u32_bytes : ℕ → List ℕ
u32_bytes n = (n % 256) ∷ (n / 256 % 256) ∷ (n / 65536 % 256) ∷ (n / 16777216 % 256) ∷ []

unfoldable pub u32_at : List ℕ → ℕ → ℕ
u32_at bs o =
    get_or bs o 0
    + get_or bs (o + 1) 0 * 256
    + get_or bs (o + 2) 0 * 65536
    + get_or bs (o + 3) 0 * 16777216

-- `DiskPage`
pub record DiskPage : Type 0 where
  pub magic : ℕ
  pub disk : ℕ
  pub next_sector : ℕ
  pub next_offset : ℕ
  pub total_length : ℕ
  pub used_bytes : ℕ
  pub has_next_page : ℕ

unfoldable pub page_bytes : DiskPage → List ℕ
unfolding u32_bytes
page_bytes p =
    u32_bytes p.magic
    ++ (u32_bytes p.disk
        ++ (u32_bytes p.next_sector
            ++ (u32_bytes p.next_offset
                ++ (u32_bytes p.total_length
                    ++ (u32_bytes p.used_bytes ++ u32_bytes p.has_next_page)))))

-- A page that stands at a place of a buffer.
unfoldable pub page_at : List ℕ → ℕ → DiskPage
unfolding u32_at
page_at bs o = record {
  magic = u32_at bs o;
  disk = u32_at bs (o + 4);
  next_sector = u32_at bs (o + 8);
  next_offset = u32_at bs (o + 12);
  total_length = u32_at bs (o + 16);
  used_bytes = u32_at bs (o + 20);
  has_next_page = u32_at bs (o + 24);
}

-- `iNodeDisk`; the field `data` is the page here.
pub record InodeDisk : Type 0 where
  pub page : DiskPage
  pub blocks : ℕ
  pub used_bytes : ℕ

unfoldable pub inode_bytes : InodeDisk → List ℕ
unfolding page_bytes
inode_bytes i = page_bytes i.page ++ (u32_bytes i.blocks ++ u32_bytes i.used_bytes)

unfoldable pub inode_of : List ℕ → InodeDisk
unfolding page_at
inode_of bs = record { page = page_at bs 0; blocks = u32_at bs 28; used_bytes = u32_at bs 32 }

-- `FileHeader`; the name is the 24 bytes of its array.
pub record FileHeader : Type 0 where
  pub magic : ℕ
  pub name : List ℕ
  pub mask : ℕ
  pub uid : ℕ
  pub gid : ℕ
  pub flags : ℕ
  pub impl : ℕ

unfoldable pub header_bytes : FileHeader → List ℕ
unfolding u32_bytes
header_bytes h =
    u32_bytes h.magic
    ++ (h.name
        ++ (u32_bytes h.mask
            ++ (u32_bytes h.uid ++ (u32_bytes h.gid ++ (u32_bytes h.flags ++ u32_bytes h.impl)))))

unfoldable pub header_of : List ℕ → FileHeader
unfolding u32_at
header_of bs = record {
  magic = u32_at bs 0;
  name = take max_name_length (drop 4 bs);
  mask = u32_at bs 28;
  uid = u32_at bs 32;
  gid = u32_at bs 36;
  flags = u32_at bs 40;
  impl = u32_at bs 44;
}
