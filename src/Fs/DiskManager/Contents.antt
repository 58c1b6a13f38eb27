-- ===== src/Fs/DiskManager/Contents.antt =====
-- The contents of a file of one block: what `_writeBlock` and `_readBlock` do to them.
use so2c2011tp.Prelude.{
  ℕ, ◌+◌, ◌-◌, ◌*◌, ◌^◌, ◌<◌, ◌≤◌, ◌≡◌, ◌⊎◌, inl, inr, refl, ap, sym, subst, ◌∙◌, ◌&&◌, List, arith,
  length, ◌==◌, ltb, leb, if◌then◌else◌, true, false, get_or, AreBytes, Bool-cases, max,
}
use so2c2011tp.Driver.Ata.{ata0}
use so2c2011tp.Fs.Strategy.{Machine, Manager, put}
use so2c2011tp.Fs.Strategy.Laws.{IsDrive, Slice}
use so2c2011tp.Fs.Strategy.Calls.{Stored, put-Stored, Stored-Slice, Stored-apart}
use so2c2011tp.Fs.Structs.{DiskPage, magic_number, add32, page_bytes}
use so2c2011tp.Fs.Structs.RoundTrip.{PageFits, length-page_bytes}
use so2c2011tp.Fs.DiskManager.Transfer.{write_piece}
use so2c2011tp.Fs.DiskManager.Places.{page_bytes-AreBytes}
use so2c2011tp.Fs.DiskManager.Chains.{place}
use so2c2011tp.Fs.DiskManager.Reserve.{row_of}
use so2c2011tp.Fs.DiskManager.Splice.{splice, length-splice, get_or-splice}

-- The page of a file of one block that holds `n` bytes; before the first write it uses none.
pub record Uses (n : ℕ) (p : DiskPage) : Type 0 where
  pub magic : p.magic ≡ magic_number
  pub disk : p.disk ≡ ata0
  pub total_length : p.total_length ≡ 256
  pub used_bytes : (p.used_bytes ≡ 76 + n) ⊎ ((p.used_bytes ≡ 0) × (n ≡ 0))
  pub no_next : p.has_next_page ≡ 0
  pub fits : PageFits p

pub beyond :
    (k y n : ℕ)
    → k < 4096
    → (y + n ≤ place k) ⊎ ((place k + 28 ≤ y) × (y + n ≤ place k + 76))
    → y + n < 2 ^ 24
beyond k y n lt (inl a) = omega arith
beyond k y n lt (inr a) = omega arith

around :
    (k y n : ℕ) (bs : List ℕ)
    → length bs ≡ 28
    → (y + n ≤ place k) ⊎ ((place k + 28 ≤ y) × (y + n ≤ place k + 76))
    → (y + n ≤ place k) ⊎ (place k + length bs ≤ y)
around k y n bs e (inl a) = inl a
around k y n bs e (inr a) = inr (omega (arith, a.0))

module _ {S : Type 0} (mc : Machine S) (dr : IsDrive mc.strategy) where
  -- Block `k` holds the bytes `content` behind its page and the file's header.
  pub record Holds (st : Manager S) (k : ℕ) (content : List ℕ) : Type 0 where
    pub good : dr.IsGood st.drive
    pub block : k < 4096
    pub page : DiskPage
    pub uses : Uses (length content) page
    pub room : length content ≤ 180
    pub page_slice : Slice (row_of mc dr st) (place k) 28 (page_bytes page)
    pub bytes : Slice (row_of mc dr st) (place k + 76) (length content) content

  -- All that stands outside block `k`, and the header in it, is kept.
  abbrev pub KeepsOthers : Manager S → ℕ → Manager S → Type 0
  KeepsOthers st k st' =
      (y n : ℕ) (piece : List ℕ)
      → (y + n ≤ place k) ⊎ ((place k + 28 ≤ y) × (y + n ≤ place k + 76))
      → Slice (row_of mc dr st) y n piece
      → Slice (row_of mc dr st') y n piece

  pub record WrittenTo (st : Manager S) (k : ℕ) (content : List ℕ) (st' : Manager S) : Type 0 where
    pub holds : Holds st' k content
    pub errno : st'.errno ≡ st.errno
    pub others : KeepsOthers st k st'

  -- The bytes in the block after the piece is written.
  spliced :
      (st st' : Manager S) (k o : ℕ) (content msg : List ℕ)
      → k < 4096
      → o ≤ length content
      → o + length msg ≤ 180
      → length content ≤ 180
      → Slice (row_of mc dr st) (place k + 76) (length content) content
      → Stored mc dr st ata0 (place k + 76 + o) msg st'
      → Slice
          (row_of mc dr st')
          (place k + 76)
          (length (splice content o msg))
          (splice content o msg)
  spliced st st' k o content msg lt h fit room s w = record {
    count = refl;
    bytes = λ j p.
        get_or-splice content o msg j h
        ∙ one j (omega (arith, length-splice content o msg h))
            (w.row ata0 (place k + 76 + j) (omega (arith, length-splice content o msg h)))
            (s.bytes j)
            (ap (λ n. get_or msg n 0) {x = place k + 76 + j - (place k + 76 + o)} {y = j - o}
              (omega arith));
  }
    where
      one :
          (j : ℕ)
          → j < max (length content) (o + length msg)
          → row_of mc dr st' (place k + 76 + j) ≡ (
              if (ata0 == ata0)
                && (leb (place k + 76 + o) (place k + 76 + j)
                    && ltb (place k + 76 + j) (place k + 76 + o + length msg))
              then get_or msg (place k + 76 + j - (place k + 76 + o)) 0
              else row_of mc dr st (place k + 76 + j))
          → (j < length content → get_or content j 0 ≡ row_of mc dr st (place k + 76 + j))
          → get_or msg (place k + 76 + j - (place k + 76 + o)) 0 ≡ get_or msg (j - o) 0
          → (if leb o j && ltb j (o + length msg) then get_or msg (j - o) 0 else get_or content j 0)
            ≡ row_of mc dr st' (place k + 76 + j)
      one j p w s e = ground arith

  -- The page uses more bytes than before only if the write ends behind them.
  grown-Uses :
      (p : DiskPage) (o n len : ℕ)
      → Uses len p
      → o ≤ len
      → o + n ≤ 180
      → ltb p.used_bytes (76 + o + n) ≡ true
      → Uses (max len (o + n)) (record p { used_bytes = 76 + o + n })
  grown-Uses p o n len u h fit more = ground arith

  kept-Uses :
      (p : DiskPage) (o n len : ℕ)
      → Uses len p
      → ltb p.used_bytes (76 + o + n) ≡ false
      → Uses (max len (o + n)) p
  kept-Uses p o n len u less = let same : max len (o + n) ≡ len = ground arith in rw same u

  -- What stands outside the block is kept when the piece is written.
  piece-KeepsOthers :
      (st st1 : Manager S) (k o : ℕ) (msg : List ℕ)
      → k < 4096
      → Stored mc dr st ata0 (place k + 76 + o) msg st1
      → KeepsOthers st k st1
  piece-KeepsOthers st st1 k o msg lt w y n piece (inl a) s =
      Stored-apart mc dr st st1 ata0 (place k + 76 + o) msg ata0 y n piece w (omega arith)
        (inr (inl (omega arith))) s
  piece-KeepsOthers st st1 k o msg lt w y n piece (inr a) s =
      Stored-apart mc dr st st1 ata0 (place k + 76 + o) msg ata0 y n piece w (omega arith)
        (inr (inl (omega arith))) s

  without_page :
      (st st1 : Manager S) (p : DiskPage) (k o : ℕ) (content msg : List ℕ)
      → k < 4096
      → o ≤ length content
      → o + length msg ≤ 180
      → length content ≤ 180
      → Stored mc dr st ata0 (place k + 76 + o) msg st1
      → Slice (row_of mc dr st1) (place k) 28 (page_bytes p)
      → Slice
          (row_of mc dr st1)
          (place k + 76)
          (length (splice content o msg))
          (splice content o msg)
      → Uses (max (length content) (o + length msg)) p
      → WrittenTo st k (splice content o msg) st1
  without_page st st1 p k o content msg lt h fit room w sp sb u = record {
    holds = record {
      good = w.good;
      block = lt;
      page = p;
      uses = subst (λ n. Uses n p) (sym (length-splice content o msg h)) u;
      room = omega (arith, length-splice content o msg h);
      page_slice = sp;
      bytes = sb;
    };
    errno = w.errno;
    others = piece-KeepsOthers st st1 k o msg lt w;
  }

  with_page :
      (st st1 : Manager S) (p : DiskPage) (k o : ℕ) (content msg : List ℕ)
      → k < 4096
      → o ≤ length content
      → o + length msg ≤ 180
      → length content ≤ 180
      → Stored mc dr st ata0 (place k + 76 + o) msg st1
      → Slice
          (row_of mc dr st1)
          (place k + 76)
          (length (splice content o msg))
          (splice content o msg)
      → Uses (max (length content) (o + length msg)) p
      → WrittenTo st k (splice content o msg) (put mc ata0 (page_bytes p) 11 (k * 256) st1)
  with_page st st1 p k o content msg lt h fit room w sb u =
      let st2 = put mc ata0 (page_bytes p) 11 (k * 256) st1 in
      let w2 =
        put-Stored mc dr ata0 (page_bytes p) 11 (k * 256) st1 w.good refl (page_bytes-AreBytes p)
          (omega arith) (omega (arith, length-page_bytes p)) in
      let len = length-splice content o msg h in
      record {
        holds = record {
          good = w2.good;
          block = lt;
          page = p;
          uses = subst (λ n. Uses n p) (sym len) u;
          room = omega (arith, len);
          page_slice =
              Stored-Slice mc dr st1 st2 ata0 (place k) 28 _ (length-page_bytes p) (omega arith) w2;
          bytes =
              Stored-apart mc dr st1 st2 ata0 (place k) (page_bytes p) ata0 (place k + 76) _ _ w2
                (omega (arith, len)) (inr (inr (omega (arith, length-page_bytes p)))) sb;
        };
        errno = w2.errno ∙ w.errno;
        others = λ y n piece a s.
            Stored-apart mc dr st1 st2 ata0 (place k) (page_bytes p) ata0 y n piece w2
              (beyond k y n lt a) (inr (around k y n (page_bytes p) (length-page_bytes p) a))
              (piece-KeepsOthers st st1 k o msg lt w y n piece a s);
      }

  pub write_piece-WrittenTo :
      (p : DiskPage) (k o : ℕ) (content msg : List ℕ) (st : Manager S)
      → dr.IsGood st.drive
      → k < 4096
      → Uses (length content) p
      → length content ≤ 180
      → o ≤ length content
      → o + length msg ≤ 180
      → AreBytes msg
      → Slice (row_of mc dr st) (place k) 28 (page_bytes p)
      → Slice (row_of mc dr st) (place k + 76) (length content) content
      → WrittenTo st k (splice content o msg) (write_piece mc 76 ata0 p 11 (k * 256) msg o st).1
  unfolding write_piece
  write_piece-WrittenTo p k o content msg st g lt u room h fit b sp sb =
      let address : add32 (add32 (k * 256) 76) o ≡ k * 256 + 76 + o = omega arith in
      let used : add32 (add32 76 o) (length msg) ≡ 76 + o + length msg = omega arith in
      let st1 = put mc ata0 msg 11 (k * 256 + 76 + o) st in
      let w : Stored mc dr st ata0 (place k + 76 + o) msg st1 =
        subst (λ x. Stored mc dr st ata0 x msg st1) {x = 11 * 512 + (k * 256 + 76 + o)}
          {y = place k + 76 + o} (omega arith)
          (put-Stored mc dr ata0 msg 11 (k * 256 + 76 + o) st g refl b (omega arith)
            (omega arith)) in
      let p' = record p { used_bytes = 76 + o + length msg } in
      let sp1 =
        Stored-apart mc dr st st1 ata0 (place k + 76 + o) msg ata0 (place k) 28 _ w (omega arith)
          (inr (inl (omega arith))) sp in
      let sb1 = spliced st st1 k o content msg lt h fit room sb w in
      elim (Bool-cases (ltb p.used_bytes (76 + o + length msg))) [
        | inl more ↦
            rw (address, used, more)
              (with_page st st1 p' k o content msg lt h fit room w sb1
                (grown-Uses p o (length msg) (length content) u h fit more))
        | inr less ↦
            rw (address, used, less)
              (without_page st st1 p k o content msg lt h fit room w sp1 sb1
                (kept-Uses p o (length msg) (length content) u less))
      ]
