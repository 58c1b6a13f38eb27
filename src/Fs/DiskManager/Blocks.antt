-- ===== src/Fs/DiskManager/Blocks.antt =====
-- src/fs/diskManager.c: blocks are reserved by the bitmap and linked, freed, and added to a file.
-- A loop along the pages of a file runs on fuel, since nothing bounds it on a damaged disk; `none`
-- means that the fuel ran out.
use so2c2011tp.Prelude.{
  ℕ, zero, suc, ◌+◌, ◌*◌, ◌/◌, Bool, Option, none, some, List, ◌==◌, ltb, if◌then◌else◌,
}
use so2c2011tp.Prelude.Int.{ℤ, pos, negsuc}
use so2c2011tp.Driver.Ata.{ata0}
use so2c2011tp.Fs.Strategy.{Machine, Manager, fetch, put, e_out_of_memory}
use so2c2011tp.Fs.Structs.{
  DiskPage, magic_number, block_size, size_of_page, size_of_header, page_bytes, page_at,
}
use so2c2011tp.Fs.DiskManager.Bitmap.{entry, mark, unmark}
use so2c2011tp.Fs.DiskManager.Inodes.{files_bit_map_sector}

-- The local variables of `_reserveMemoryBitMap`, and its parameter `page`.
pub record Reservation (S : Type 0) : Type 0 where
  pub block : List ℕ
  pub reserved : ℕ
  pub page : DiskPage
  pub curr : DiskPage
  pub previous_sector : ℕ
  pub previous_offset : ℕ
  pub mgr : Manager S

module _ {S : Type 0} (mc : Machine S) where
  -- A write to disk 0 that a test guards.
  unfoldable pub put_if : Bool → List ℕ → ℕ → ℕ → Manager S → Manager S
  unfolding put
  put_if b msg sector offset st = if b then put mc ata0 msg sector offset st else st

  -- The body of the loops for entry `k`, which is free. `currPage.disk` is disk 0 at both writes.
  unfoldable pub reserve_block : ℕ → ℕ → ℕ → ℕ → Reservation S → Reservation S
  unfolding mark put_if
  reserve_block blocks initial_sector initial_offset k r =
      let offset = initial_offset + k * block_size in
      let n = r.reserved + 1 in
      let used : DiskPage = record r.curr {
        magic = magic_number;
        disk = ata0;
        used_bytes = 0;
        total_length = block_size;
      } in
      let curr = if n == blocks then record used { has_next_page = 0 } else used in
      let mgr = put_if (n == blocks) (page_bytes curr) initial_sector offset r.mgr in
      let linked = record curr {
        has_next_page = 1;
        next_sector = initial_sector;
        next_offset = offset;
      } in
      let curr' = if ltb 1 n then linked else curr in
      let mgr' = put_if (ltb 1 n) (page_bytes linked) r.previous_sector r.previous_offset mgr in
      record {
        block = mark r.block k;
        reserved = n;
        page =
            if n == 1
            then record {
              magic = magic_number;
              disk = ata0;
              next_sector = initial_sector;
              next_offset = offset;
              total_length = blocks * block_size;
              used_bytes = 0;
              has_next_page = if ltb 1 blocks then 1 else 0;
            }
            else r.page;
        curr = curr';
        previous_sector = initial_sector;
        previous_offset = offset;
        mgr = mgr';
      }

  -- The two loops over the bytes of the bitmap and their bits, from entry `k` on, of which `n` are
  -- left.
  unfoldable pub reserve_loop : ℕ → ℕ → ℕ → ℕ → ℕ → Reservation S → Reservation S
  reserve_loop zero k blocks sector offset r = r
  reserve_loop (suc n) k blocks sector offset r =
      let r' = if entry r.block k == 0 then reserve_block blocks sector offset k r else r in
      let rest = reserve_loop n (k + 1) blocks sector offset r' in
      if ltb r.reserved blocks then rest else r

  -- The `do … while` of `_freeMemory`.
  unfoldable pub free_loop : ℕ → DiskPage → List ℕ → Manager S → Option (List ℕ × Manager S)
  free_loop zero curr block st = none
  free_loop (suc fuel) curr block st =
      let (b, st1) =
        fetch mc (page_bytes curr) curr.disk size_of_page curr.next_sector curr.next_offset st in
      let next = page_at b 0 in
      let block' = unmark block (curr.next_offset / block_size) in
      let rest = free_loop fuel next block' st1 in
      if next.has_next_page == 0 then some (block', st1) else rest

  -- `_freeMemory`
  unfoldable pub free_memory : ℕ → DiskPage → Manager S → Option (Manager S)
  unfolding fetch put free_loop
  free_memory fuel page st =
      let (block, st1) = fetch mc (mc.stack 512) ata0 512 files_bit_map_sector 0 st in
      let start = record (page_at (mc.stack size_of_page) 0) {
        disk = page.disk;
        next_sector = page.next_sector;
        next_offset = page.next_offset;
      } in
      elim (free_loop fuel start block st1) [
        | none ↦ none
        | some (block', st2) ↦ some (put mc ata0 block' files_bit_map_sector 0 st2)
      ]

  -- The state of `_reserveMemoryBitMap` before its loops.
  abbrev pub start : DiskPage → List ℕ → Manager S → Reservation S
  start page block st = record {
    block = block;
    reserved = 0;
    page = page;
    curr = page_at (mc.stack size_of_page) 0;
    previous_sector = 0;
    previous_offset = 0;
    mgr = st;
  }

  -- What follows the loops.
  unfoldable pub finish_reservation : ℕ → ℕ → Reservation S → Option (ℤ × DiskPage × Manager S)
  unfolding put free_memory
  finish_reservation fuel blocks r =
      let st2 = put mc ata0 r.block files_bit_map_sector 0 r.mgr in
      let page' = record r.page { total_length = 0 } in
      if ltb r.reserved blocks
      then (elim (free_memory fuel page' st2) [
        | none ↦ none
        | some st3 ↦ some (negsuc 0, page', record st3 { errno = e_out_of_memory })
      ])
      else some (pos 0, r.page, st2)

  -- `_reserveMemoryBitMap`: its result, the page that it sets, and the state.
  unfoldable pub reserve_memory :
      ℕ → DiskPage → ℕ → ℕ → ℕ → Manager S → Option (ℤ × DiskPage × Manager S)
  unfolding fetch
  reserve_memory fuel page blocks initial_sector initial_offset st =
      let (block, st1) = fetch mc (mc.stack 512) ata0 512 files_bit_map_sector 0 st in
      finish_reservation fuel blocks
        (reserve_loop (512 * 8) 0 blocks initial_sector initial_offset (start page block st1))

  -- The loop of `_extendMemory` to the last page: it, with its sector and offset.
  unfoldable pub last_page :
      ℕ → DiskPage → ℕ → ℕ → Manager S → Option (DiskPage × ℕ × ℕ × Manager S)
  unfolding fetch
  last_page zero page sector offset st = none
  last_page (suc fuel) page sector offset st =
      let (b, st1) =
        fetch mc (page_bytes page) page.disk size_of_page page.next_sector page.next_offset st in
      let rest = last_page fuel (page_at b 0) page.next_sector page.next_offset st1 in
      if page.has_next_page == 0 then some (page, sector, offset, st) else rest

  -- How many more blocks are asked for.
  unfoldable pub needed_blocks : ℕ → ℕ
  needed_blocks size =
      let first = size / (block_size + 1) + 1 in
      (size + first * size_of_header) / (block_size + 1) + 1

  -- `_extendMemory`: the blocks that were added, or `none` for the result -1, and the page.
  unfoldable pub extend_memory :
      ℕ → DiskPage → ℕ → ℕ → ℕ → Manager S → Option (Option ℕ × DiskPage × Manager S)
  unfolding fetch put last_page reserve_memory needed_blocks
  extend_memory fuel page size initial_sector initial_offset st =
      let (b, st1) =
        fetch mc (mc.stack size_of_page) page.disk size_of_page page.next_sector page.next_offset
          st in
      elim (last_page fuel (page_at b 0) page.next_sector page.next_offset st1) [
        | none ↦ none
        | some (last, sector, offset, st2) ↦
            (elim (reserve_memory fuel (page_at (mc.stack size_of_page) 0) (needed_blocks size)
              initial_sector initial_offset st2) [
                | none ↦ none
                | some (status, cont, st3) ↦ (elim status [
                  | negsuc _ ↦ some (none, page, st3)
                  | pos _ ↦ some (
                    some (needed_blocks size),
                    record page { total_length = cont.total_length },
                    put mc page.disk
                        (page_bytes (record last {
                          has_next_page = 1;
                          next_sector = cont.next_sector;
                          next_offset = cont.next_offset;
                        }))
                        sector offset st3,
                  )
                ])
              ])
      ]
