-- ===== src/Fs/DiskManager/Reserve.antt =====
-- One block reserved: what is written of its page and of the page before.
use so2c2011tp.Prelude.{
  ℕ, suc, ◌+◌, ◌*◌, ◌^◌, ◌<◌, ◌≤◌, ◌≡◌, ◌⊎◌, inl, inr, refl, ◌∙◌, List, arith, length, ◌==◌, ltb,
  if◌then◌else◌, Bool-cases, Bool, true, false,
}
use so2c2011tp.Driver.Ata.{ata0}
use so2c2011tp.Fs.Strategy.{Machine, Manager}
use so2c2011tp.Fs.Strategy.Laws.{IsDrive, Slice}
use so2c2011tp.Fs.Strategy.Calls.{put-Stored, Stored-Slice, Stored-apart}
use so2c2011tp.Fs.Structs.{DiskPage, magic_number, page_bytes}
use so2c2011tp.Fs.Structs.RoundTrip.{PageFits, length-page_bytes}
use so2c2011tp.Fs.DiskManager.Bitmap.{mark}
use so2c2011tp.Fs.DiskManager.Blocks.{Reservation, put_if, reserve_block}
use so2c2011tp.Fs.DiskManager.Places.{page_bytes-AreBytes}
use so2c2011tp.Fs.DiskManager.Chains.{place, IsNew, IsLast, IsBefore, HoldsPage}

module _ {S : Type 0} (mc : Machine S) (dr : IsDrive mc.strategy) where
  -- The bytes of disk 0.
  abbrev pub row_of : Manager S → ℕ → ℕ
  row_of st = dr.byte st.drive ata0

  -- From `st` to `st'` the disks changed at the page of block `k` at most, and there only if `b`.
  pub record PageWrite (b : Bool) (st : Manager S) (k : ℕ) (p : DiskPage) (st' : Manager S)
      : Type 0 where
    pub good : dr.IsGood st'.drive
    pub errno : st'.errno ≡ st.errno
    pub written : b ≡ true → Slice (row_of st') (place k) 28 (page_bytes p)
    pub apart :
        (y n : ℕ) (piece : List ℕ)
        → y + n < 2 ^ 24
        → (b ≡ false) ⊎ ((y + n ≤ place k) ⊎ (place k + 28 ≤ y))
        → Slice (row_of st) y n piece
        → Slice (row_of st') y n piece

  pub put_if-PageWrite :
      (b : Bool) (k : ℕ) (p : DiskPage) (sector offset : ℕ) (st : Manager S)
      → dr.IsGood st.drive
      → k < 4096
      → (b ≡ true → (sector ≡ 11) × (offset ≡ k * 256))
      → PageWrite b st k p (put_if mc b (page_bytes p) sector offset st)
  unfolding put_if
  put_if-PageWrite false k p sector offset st g h e = record {
    good = g;
    errno = refl;
    written = λ e. cc;
    apart = λ y n piece r a s. s;
  }
  put_if-PageWrite true k p sector offset st g h e =
      let w =
        put-Stored mc dr ata0 (page_bytes p) 11 (k * 256) st g refl (page_bytes-AreBytes p)
          (omega arith) (omega (arith, length-page_bytes p)) in
      rw ((e refl).0, (e refl).1)
        (record {
          good = w.good;
          errno = w.errno;
          written = λ e.
              Stored-Slice mc dr st _ ata0 (place k) 28 (page_bytes p) (length-page_bytes p)
                (omega arith) w;
          apart = λ y n piece r a s.
              Stored-apart mc dr st _ ata0 (place k) (page_bytes p) ata0 y n piece w r
                (inr (away y n a)) s;
        })
    where
      away :
          (y n : ℕ)
          → (true ≡ false) ⊎ ((y + n ≤ place k) ⊎ (place k + 28 ≤ y))
          → (y + n ≤ place k) ⊎ (place k + length (page_bytes p) ≤ y)
      away y n (inl e) = absurd (cc e)
      away y n (inr (inl e)) = inl e
      away y n (inr (inr e)) = inr (omega (arith, length-page_bytes p))

-- What the caller's page is set to, by the first block reserved.
abbrev pub first_page : ℕ → ℕ → DiskPage
first_page blocks k = record {
  magic = magic_number;
  disk = ata0;
  next_sector = 11;
  next_offset = k * 256;
  total_length = blocks * 256;
  used_bytes = 0;
  has_next_page = if ltb 1 blocks then 1 else 0;
}

module _ {S : Type 0} (mc : Machine S) (dr : IsDrive mc.strategy) where
  -- Where the loop of `_reserveMemoryBitMap` stands: entry `k` is next, and the last block reserved
  -- is `q`, if there is one.
  pub record IsReady (k q : ℕ) (r : Reservation S) : Type 0 where
    pub good : dr.IsGood r.mgr.drive
    pub fits : PageFits r.curr
    pub order : q ≤ k
    pub previous :
        1 ≤ r.reserved → (q < k) × (r.previous_sector ≡ 11) × (r.previous_offset ≡ q * 256)

  pub record Reserved (blocks k q : ℕ) (r r' : Reservation S) : Type 0 where
    pub ready : IsReady (suc k) k r'
    pub reserved : r'.reserved ≡ r.reserved + 1
    pub block : r'.block ≡ mark r.block k
    pub errno : r'.mgr.errno ≡ r.mgr.errno
    pub page : r'.page ≡ (if r.reserved == 0 then first_page blocks k else r.page)
    pub last : r.reserved + 1 ≡ blocks → HoldsPage (row_of mc dr r'.mgr) k IsLast
    pub linked : 1 ≤ r.reserved → HoldsPage (row_of mc dr r'.mgr) q (IsBefore k)
    pub below :
        (y n : ℕ) (piece : List ℕ)
        → y + n ≤ place q
        → Slice (row_of mc dr r.mgr) y n piece
        → Slice (row_of mc dr r'.mgr) y n piece

  -- The page that is written for block `k`, and the one that is written for the block before it.
  page_here : ℕ → Reservation S → DiskPage
  page_here blocks r =
      let used = record r.curr {
        magic = magic_number;
        disk = ata0;
        used_bytes = 0;
        total_length = 256;
      } in
      if (r.reserved + 1) == blocks then record used { has_next_page = 0 } else used

  page_before : ℕ → ℕ → Reservation S → DiskPage
  page_before blocks k r = record (page_here blocks r) {
    has_next_page = 1;
    next_sector = 11;
    next_offset = 0 + k * 256;
  }

  page_here-IsNew : (blocks : ℕ) (r : Reservation S) → PageFits r.curr → IsNew (page_here blocks r)
  unfolding page_here
  page_here-IsNew blocks r f = ground arith

  page_before-IsBefore :
      (blocks k : ℕ) (r : Reservation S)
      → PageFits r.curr
      → k < 4096
      → IsBefore k (page_before blocks k r)
  unfolding page_before page_here
  page_before-IsBefore blocks k r f h = ground arith

  fits_either :
      (b : Bool) (p p' : DiskPage) → PageFits p → PageFits p' → PageFits (if b then p' else p)
  fits_either true p p' f f' = f'
  fits_either false p p' f f' = f

  no_next :
      (blocks : ℕ) (r : Reservation S)
      → r.reserved + 1 ≡ blocks
      → (page_here blocks r).has_next_page ≡ 0
  unfolding page_here
  no_next blocks r e = ground arith

  behind :
      (k q : ℕ) (r : Reservation S)
      → IsReady k q r
      → (ltb 1 (r.reserved + 1) ≡ false) ⊎ ((place k + 28 ≤ place q) ⊎ (place q + 28 ≤ place k))
  behind k q r i = elim (Bool-cases (ltb 1 (r.reserved + 1))) [
    | inl some_before ↦ (let (o, _, _) = i.previous (ground arith) in inr (inr (omega arith)))
    | inr e ↦ inl e
  ]

  pub reserve_block-Reserved :
      (blocks k q : ℕ) (r : Reservation S)
      → IsReady k q r
      → k < 4096
      → Reserved blocks k q r (reserve_block mc blocks 11 0 k r)
  unfolding reserve_block page_here page_before
  reserve_block-Reserved blocks k q r i h =
      let here = page_here blocks r in
      let before = page_before blocks k r in
      let is_new = page_here-IsNew blocks r i.fits in
      let is_before = page_before-IsBefore blocks k r i.fits h in
      let w1 =
        put_if-PageWrite mc dr ((r.reserved + 1) == blocks) k here 11 (0 + k * 256) r.mgr i.good h
          (λ e. (refl, omega arith)) in
      let mgr1 = put_if mc ((r.reserved + 1) == blocks) (page_bytes here) 11 (0 + k * 256) r.mgr in
      let w2 =
        put_if-PageWrite mc dr (ltb 1 (r.reserved + 1)) q before r.previous_sector r.previous_offset
          mgr1 w1.good (omega (arith, i.order))
          (λ e. (let (_, s, o) = i.previous (ground arith) in (s, o))) in
      record {
        ready = record {
          good = w2.good;
          fits = fits_either (ltb 1 (r.reserved + 1)) here before is_new.fits is_before.0.fits;
          order = omega arith;
          previous = λ _. (omega arith, refl, omega arith);
        };
        reserved = refl;
        block = refl;
        errno = w2.errno ∙ w1.errno;
        page = ground arith;
        last = λ e. (
          here,
          h,
          (is_new, no_next blocks r e),
          w2.apart (place k) 28 (page_bytes here) (omega arith) (behind k q r i)
              (w1.written (ground arith)),
        );
        linked =
            λ e. (before, omega (arith, (i.previous e).0), is_before, w2.written (ground arith));
        below = λ y n piece e s.
            w2.apart y n piece (omega (arith, i.order)) (inr (inl e))
              (w1.apart y n piece (omega (arith, i.order)) (inr (inl (omega (arith, i.order)))) s);
      }
