-- ===== src/Fs/DiskManager/SmallFile.antt =====
-- Files of one block, as `diskManager_writeContents` and `diskManager_readContents` keep them: an
-- inode, a header and a list of at most 180 bytes.
use so2c2011tp.Prelude.{ℕ, ◌+◌, ◌*◌, ◌<◌, ◌≤◌, inr, refl, List, [], arith, length}
use so2c2011tp.Driver.Ata.{ata0}
use so2c2011tp.Fs.Strategy.{Machine, Manager}
use so2c2011tp.Fs.Strategy.Laws.{IsDrive, Slice}
use so2c2011tp.Fs.Strategy.Calls.{Stored-Slice, Stored-apart}
use so2c2011tp.Fs.Structs.{InodeDisk, FileHeader, inode_bytes}
use so2c2011tp.Fs.Structs.RoundTrip.{InodeFits, length-inode_bytes}
use so2c2011tp.Fs.DiskManager.Inodes.{set_inode}
use so2c2011tp.Fs.DiskManager.Places.{set_inode-Stored}
use so2c2011tp.Fs.DiskManager.Headers.{HasFile}
use so2c2011tp.Fs.DiskManager.Chains.{place}
use so2c2011tp.Fs.DiskManager.Reserve.{row_of, first_page}
use so2c2011tp.Fs.DiskManager.Free.{PointsTo}
use so2c2011tp.Fs.DiskManager.Create.{IsCreated, new_inode-Points}
use so2c2011tp.Fs.DiskManager.Contents.{Holds, WrittenTo}

-- The inode of a file that has block `k` and `n` bytes.
abbrev pub small_inode : ℕ → ℕ → InodeDisk
small_inode k n = record { page = first_page 1 k; blocks = 1; used_bytes = n }

small_inode-fits : (k n : ℕ) → k < 4096 → n ≤ 180 → InodeFits (small_inode k n)
small_inode-fits k n h hn = ground arith

pub points_to : (k : ℕ) → PointsTo k (first_page 1 k)
points_to k = record { disk = refl; next_sector = refl; next_offset = refl }

module _ {S : Type 0} (mc : Machine S) (dr : IsDrive mc.strategy) where
  -- File `n` has block `k` and the header `h`, and holds `content`.
  pub record IsSmallFile (st : Manager S) (n k : ℕ) (h : FileHeader) (content : List ℕ)
      : Type 0 where
    pub file : HasFile mc dr st n (small_inode k (length content)) h
    pub holds : Holds mc dr st k content

  -- A file that has just been made holds nothing.
  pub IsCreated-IsSmallFile :
      (st : Manager S) (n k : ℕ) (h : FileHeader)
      → IsCreated mc dr st n k h
      → IsSmallFile st n k h []
  IsCreated-IsSmallFile st n k h c =
      let (p, lt, (new, last), s) = c.page in
      record {
        file = c.file;
        holds = record {
          good = c.good;
          block = lt;
          page = p;
          uses = record {
            magic = new.magic;
            disk = new.disk;
            total_length = new.total_length;
            used_bytes = inr (new.used_bytes, refl);
            no_next = last;
            fits = new.fits;
          };
          room = omega arith;
          page_slice = s;
          bytes = record { count = refl; bytes = λ j p. absurd (omega arith) };
        };
      }

  -- The inode that is stored behind the bytes.
  pub stored-IsSmallFile :
      (st st2 : Manager S) (n k : ℕ) (h : FileHeader) (old content : List ℕ)
      → IsSmallFile st n k h old
      → WrittenTo mc dr st k content st2
      → IsSmallFile (set_inode mc n (small_inode k (length content)) st2) n k h content
  stored-IsSmallFile st st2 n k h old content f w =
      let i = small_inode k (length content) in
      let st3 = set_inode mc n i st2 in
      let lt = f.holds.block in
      let room = w.holds.room in
      let x : ℕ = 1 * 512 + n * 36 in
      let ws = set_inode-Stored mc dr n i st2 w.holds.good (omega (arith, f.file.number)) in
      let keep : (y m : ℕ) (piece : List ℕ)
          → 11 * 512 ≤ y
          → y + m ≤ place k + 256
          → Slice (row_of mc dr st2) y m piece
          → Slice (row_of mc dr st3) y m piece =
        λ y m piece a b s.
          Stored-apart mc dr st2 st3 ata0 x (inode_bytes i) ata0 y m piece ws (omega arith)
            (inr (inr (omega (arith, f.file.number, length-inode_bytes i)))) s in
      record {
        file = record {
          number = f.file.number;
          inode =
              Stored-Slice mc dr st2 st3 ata0 x 36 (inode_bytes i) (length-inode_bytes i)
                (omega (arith, f.file.number)) ws;
          fits = small_inode-fits k (length content) lt room;
          points = new_inode-Points k lt;
          header =
              keep (11 * 512 + (k * 256 + 28)) 48 _ (omega arith) (omega arith)
                (w.others _ 48 _ (inr (omega arith, omega arith)) f.file.header);
          header_fits = f.file.header_fits;
        };
        holds = record {
          good = ws.good;
          block = lt;
          page = w.holds.page;
          uses = w.holds.uses;
          room = room;
          page_slice = keep (place k) 28 _ (omega arith) (omega arith) w.holds.page_slice;
          bytes = keep (place k + 76) _ _ (omega arith) (omega arith) w.holds.bytes;
        };
      }
