-- ===== src/Fs/DiskManager/Transfer.antt =====
-- src/fs/diskManager.c: the bytes of a file are read from and written to its chain of pages. The
-- loops run on fuel, since nothing bounds them on a damaged disk; `none` means that it ran out.
use so2c2011tp.Prelude.{
  ℕ, zero, suc, ◌+◌, ◌-◌, Option, none, some, List, [], ◌++◌, ◌==◌, ltb, if◌then◌else◌, take, drop,
  min, not,
}
use so2c2011tp.Prelude as Lists
use so2c2011tp.Prelude.Int.{ℤ, pos, negsuc, ◌==ℤ◌}
use so2c2011tp.Fs.Strategy.{Machine, Manager, fetch, put, e_out_of_memory, e_corrupted_file}
use so2c2011tp.Fs.Structs.{
  DiskPage, InodeDisk, magic_number, size_of_page, overhead, sub32, add32, u32_at, page_bytes,
  page_at,
}
use so2c2011tp.Fs.DiskManager.Inodes.{
  get_inode, set_inode, available_mem, file_contents_inital_sector,
}
use so2c2011tp.Fs.DiskManager.Blocks.{extend_memory}

-- The result 0, with the buffer and the state that the loop of `_readBlock` leaves behind `piece`.
unfoldable pub after_piece :
    {S : Type 0} → List ℕ → Option (List ℕ × Manager S) → Option (ℤ × List ℕ × Manager S)
after_piece piece none = none
after_piece piece (some (rest, st)) = some (pos 0, piece ++ rest, st)

-- The bytes in use reach at least to `until`.
unfoldable pub grow : ℕ → InodeDisk → InodeDisk
grow until i = if ltb i.used_bytes until then record i { used_bytes = until } else i

module _ {S : Type 0} (mc : Machine S) where
  -- A piece of a page's contents is written, and the page with it if it uses more bytes than before;
  -- `head` is what stands before the contents.
  unfoldable pub write_piece :
      ℕ → ℕ → DiskPage → ℕ → ℕ → List ℕ → ℕ → Manager S → DiskPage × Manager S
  write_piece head disk curr sector page_offset piece offset st =
      let n = Lists.length piece in
      let used = add32 (add32 head offset) n in
      let st1 = put mc disk piece sector (add32 (add32 page_offset head) offset) st in
      let curr' = record curr { used_bytes = used } in
      if ltb curr.used_bytes used
      then (curr', put mc disk (page_bytes curr') sector page_offset st1)
      else (curr, st1)

  -- The `while` of `_writeBlock`; `disk` is that of its parameter `page`.
  unfoldable pub write_pages :
      ℕ → ℕ → DiskPage → List ℕ → ℕ → ℕ → Manager S → Option (ℤ × Manager S)
  write_pages zero disk curr contents length offset st = none
  write_pages (suc fuel) disk curr contents length offset st =
      let (b, st1) =
        fetch mc (page_bytes curr) curr.disk size_of_page curr.next_sector curr.next_offset st in
      let next = page_at b 0 in
      let room = sub32 next.total_length size_of_page in
      let n = min (sub32 room offset) length in
      let (next', st2) =
        write_piece size_of_page disk next curr.next_sector curr.next_offset (take n contents)
          offset st1 in
      let here = write_pages fuel disk next' (drop n contents) (length - n) 0 st2 in
      let beyond =
        write_pages fuel disk next contents length
          (sub32 offset (sub32 next.used_bytes size_of_page)) st1 in
      if length == 0
      then some (pos 0, st)
      else if curr.has_next_page == 0
      then some (negsuc 0, record st { errno = e_out_of_memory })
      else if not (next.magic == magic_number)
      then some (negsuc 0, record st1 { errno = e_corrupted_file })
      else if ltb offset room
      then here
      else beyond

  -- `_writeBlock` behind its read of the first page, `curr`.
  unfoldable pub write_first :
      ℕ → DiskPage → DiskPage → List ℕ → ℕ → ℕ → Manager S → Option (ℤ × Manager S)
  write_first fuel page curr contents length offset st =
      let room = sub32 curr.total_length overhead in
      let n = min (sub32 (sub32 curr.total_length offset) overhead) length in
      let (curr', st2) =
        write_piece overhead page.disk curr page.next_sector page.next_offset (take n contents)
          offset st in
      if not (curr.magic == magic_number)
      then some (negsuc 0, record st { errno = e_corrupted_file })
      else if ltb offset room
      then write_pages fuel page.disk curr' (drop n contents) (length - n) 0 st2
      else write_pages fuel page.disk curr contents length
          (sub32 offset (sub32 curr.used_bytes overhead)) st

  unfoldable pub write_block : ℕ → DiskPage → List ℕ → ℕ → ℕ → Manager S → Option (ℤ × Manager S)
  write_block fuel page contents length offset st =
      let (b, st1) =
        fetch mc (mc.stack size_of_page) page.disk size_of_page page.next_sector page.next_offset
          st in
      write_first fuel page (page_at b 0) contents length offset st1

  -- The `while` of `_readBlock`; `buffer` is what the caller's buffer holds from `contents` on, and
  -- the result is what it holds in the end.
  unfoldable pub read_pages :
      ℕ → ℕ → DiskPage → List ℕ → ℕ → ℕ → Manager S → Option (List ℕ × Manager S)
  read_pages zero disk curr buffer length offset st = none
  read_pages (suc fuel) disk curr buffer length offset st =
      let (b, st1) =
        fetch mc (page_bytes curr) curr.disk size_of_page curr.next_sector curr.next_offset st in
      let next = page_at b 0 in
      let used = sub32 next.used_bytes size_of_page in
      let n = min (sub32 used offset) length in
      let (piece, st2) =
        fetch mc (take n buffer) disk n curr.next_sector
          (add32 (add32 curr.next_offset size_of_page) offset) st1 in
      let here = read_pages fuel disk next (drop n buffer) (length - n) 0 st2 in
      let beyond = read_pages fuel disk next buffer length (sub32 offset used) st1 in
      if length == 0
      then some (buffer, st)
      else if ltb offset used
      then (elim here [ none ↦ none | some (rest, st3) ↦ some (piece ++ rest, st3) ])
      else beyond

  -- `_readBlock` behind its read of the first page, `curr`: its result and the caller's buffer.
  -- `bytesFromContent` is not set if the first page is passed over.
  unfoldable pub read_first :
      ℕ → DiskPage → DiskPage → List ℕ → ℕ → ℕ → Manager S → Option (ℤ × List ℕ × Manager S)
  read_first fuel page curr buffer length offset st =
      let used = sub32 curr.used_bytes overhead in
      let n = min (sub32 (sub32 curr.total_length overhead) offset) length in
      let (piece, st2) =
        fetch mc (take n buffer) page.disk n page.next_sector
          (add32 (add32 page.next_offset overhead) offset) st in
      if not (curr.magic == magic_number)
      then some (negsuc 0, buffer, record st { errno = e_corrupted_file })
      else if ltb offset used
      then (if n == 0
          then some (pos 0, buffer, st2)
          else after_piece piece
              (read_pages fuel page.disk curr (drop n buffer) (length - n) 0 st2))
      else if u32_at (mc.stack 4) 0 == 0
      then some (pos 0, buffer, st)
      else after_piece [] (read_pages fuel page.disk curr buffer length (sub32 offset used) st)

  unfoldable pub read_block :
      ℕ → DiskPage → List ℕ → ℕ → ℕ → Manager S → Option (ℤ × List ℕ × Manager S)
  read_block fuel page buffer length offset st =
      let (b, st1) =
        fetch mc (mc.stack size_of_page) page.disk size_of_page page.next_sector page.next_offset
          st in
      read_first fuel page (page_at b 0) buffer length offset st1

  -- The inode is stored if the write has gone well.
  unfoldable pub after_write : ℕ → InodeDisk → Option (ℤ × Manager S) → Option (ℤ × Manager S)
  after_write n i none = none
  after_write n i (some (status, st)) =
      some (if status ==ℤ negsuc 0 then (negsuc 0, st) else (pos 0, set_inode mc n i st))

  -- `diskManager_writeContents` from the new `usedBytes` on.
  unfoldable pub write_inode_contents :
      ℕ → ℕ → InodeDisk → List ℕ → ℕ → ℕ → Manager S → Option (ℤ × Manager S)
  write_inode_contents fuel n i contents length offset st =
      let i' = grow (add32 offset length) i in
      after_write n i' (write_block fuel i'.page contents length offset st)

  -- `diskManager_writeContents` behind `_getiNode`
  unfoldable pub write_to_inode :
      ℕ → ℕ → InodeDisk → List ℕ → ℕ → ℕ → Manager S → Option (ℤ × Manager S)
  write_to_inode fuel n i contents length offset st =
      let until = add32 offset length in
      if not (i.page.magic == magic_number)
      then some (negsuc 0, record st { errno = e_corrupted_file })
      else if ltb (available_mem i) until
      then (elim (extend_memory mc fuel i.page until file_contents_inital_sector 0 st) [
        | none ↦ none
        | some (extra, page, st2) ↦ (elim extra [
          | none ↦ some (pos 0, st2)
          | some e ↦
              write_inode_contents fuel n (record i { page = page; blocks = add32 i.blocks e })
                contents length offset st2
        ])
      ])
      else write_inode_contents fuel n i contents length offset st

  unfoldable pub write_contents : ℕ → ℕ → List ℕ → ℕ → ℕ → Manager S → Option (ℤ × Manager S)
  write_contents fuel n contents length offset st =
      let (i, st1) = get_inode mc n st in write_to_inode fuel n i contents length offset st1

  -- `diskManager_readContents` behind `_getiNode`
  unfoldable pub read_from_inode :
      ℕ → InodeDisk → List ℕ → ℕ → ℕ → Manager S → Option (ℤ × List ℕ × Manager S)
  read_from_inode fuel i buffer length offset st =
      if not (i.page.magic == magic_number)
      then some (negsuc 0, buffer, record st { errno = e_corrupted_file })
      else read_block fuel i.page buffer length offset st

  unfoldable pub read_contents :
      ℕ → ℕ → List ℕ → ℕ → ℕ → Manager S → Option (ℤ × List ℕ × Manager S)
  read_contents fuel n buffer length offset st =
      let (i, st1) = get_inode mc n st in read_from_inode fuel i buffer length offset st1
