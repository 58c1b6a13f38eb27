-- ===== src/Fs/DiskManager/ReserveLoop.antt =====
-- `_reserveMemoryBitMap` takes the first free blocks and links them in their order.
use so2c2011tp.Prelude.{
  ℕ, zero, suc, ◌+◌, ◌-◌, ◌<◌, ◌≤◌, ◌≡◌, inl, inr, refl, ap, sym, subst, ◌∙◌, List, [], ◌∷◌, arith,
  length, ◌==◌, ltb, if◌then◌else◌, Bool-cases, AreBytes, get_or, take,
}
use so2c2011tp.Fs.Strategy.{Machine}
use so2c2011tp.Fs.Strategy.Laws.{IsDrive, Slice}
use so2c2011tp.Fs.Structs.{page_bytes}
use so2c2011tp.Fs.DiskManager.Bitmap.{entry, mark}
use so2c2011tp.Fs.DiskManager.Bitmap.Laws.{entry-mark, mark-AreBytes, length-mark}
use so2c2011tp.Fs.DiskManager.Blocks.{Reservation, reserve_block, reserve_loop}
use so2c2011tp.Fs.DiskManager.Chains.{
  place, IsLast, HoldsPage, Chain, ChainOf, free_entries, free_entries-cong, mem,
}
use so2c2011tp.Fs.DiskManager.Reserve.{
  row_of, IsReady, Reserved, first_page, reserve_block-Reserved,
}

-- A bitmap of 4096 entries.
pub record IsBitmap (block : List ℕ) : Type 0 where
  pub bytes : AreBytes block
  pub full : length block ≡ 512

pub mark-IsBitmap : (block : List ℕ) (k : ℕ) → IsBitmap block → IsBitmap (mark block k)
mark-IsBitmap block k b = record {
  bytes = mark-AreBytes block k b.bytes;
  full = length-mark block k ∙ b.full;
}

module _ {S : Type 0} (mc : Machine S) (dr : IsDrive mc.strategy) where
  -- The blocks `ks` were reserved behind block `q`, or, if none was before, as the first.
  pub record Linked (blocks q : ℕ) (ks : List ℕ) (r r' : Reservation S) : Type 0 where
    pub good : dr.IsGood r'.mgr.drive
    pub errno : r'.mgr.errno ≡ r.mgr.errno
    pub reserved : r'.reserved ≡ blocks
    pub page : r'.page ≡ (if r.reserved == 0 then first_page blocks (get_or ks 0 0) else r.page)
    pub chain : 1 ≤ r.reserved → Chain (row_of mc dr r'.mgr) q ks
    pub chain_first : r.reserved ≡ 0 → ChainOf (row_of mc dr r'.mgr) ks
    pub below :
        (y n : ℕ) (piece : List ℕ)
        → y + n ≤ place q
        → Slice (row_of mc dr r.mgr) y n piece
        → Slice (row_of mc dr r'.mgr) y n piece
    pub entries : (j : ℕ) → entry r'.block j ≡ (if mem j ks then 1 else entry r.block j)
    pub bitmap : IsBitmap r'.block

  Linked-done :
      (blocks k q : ℕ) (r : Reservation S)
      → 1 ≤ blocks
      → IsReady mc dr k q r
      → IsBitmap r.block
      → r.reserved ≡ blocks
      → HoldsPage (row_of mc dr r.mgr) q IsLast
      → Linked blocks q [] r r
  Linked-done blocks k q r some_blocks i b e last = record {
    good = i.good;
    errno = refl;
    reserved = e;
    page = ground arith;
    chain = λ _. last;
    chain_first = λ z. tt;
    below = λ y n piece _ s. s;
    entries = λ j. refl;
    bitmap = b;
  }

  Linked-step :
      (blocks k q : ℕ) (ks : List ℕ) (r r1 r' : Reservation S)
      → IsReady mc dr k q r
      → IsBitmap r.block
      → k < 4096
      → Reserved mc dr blocks k q r r1
      → Linked blocks k ks r1 r'
      → Linked blocks q (k ∷ ks) r r'
  Linked-step blocks k q ks r r1 r' i b h one l = record {
    good = l.good;
    errno = l.errno ∙ one.errno;
    reserved = l.reserved;
    page = l.page ∙ ground (arith, one.reserved, one.page);
    chain = λ m.
        (let (p, lt, before, s) = one.linked m in
          (
            (
              p,
              lt,
              before,
              l.below (place q) 28 (page_bytes p) (omega (arith, (i.previous m).0)) s,
            ),
            l.chain (omega (arith, one.reserved)),
          ));
    chain_first = λ z. l.chain (omega (arith, one.reserved));
    below = λ y n piece e s. l.below y n piece (omega (arith, i.order)) (one.below y n piece e s);
    entries = λ j.
        l.entries j
        ∙ ground (
          arith,
          ap (λ block. entry block j) one.block,
          entry-mark r.block k b.bytes j (omega (arith, b.full)),
        );
    bitmap = l.bitmap;
  }

  IsReady-later :
      (k k' q : ℕ) (r : Reservation S) → IsReady mc dr k q r → k ≤ k' → IsReady mc dr k' q r
  IsReady-later k k' q r i h = record {
    good = i.good;
    fits = i.fits;
    order = omega (arith, i.order);
    previous = λ m. (let (o, s, p) = i.previous m in (omega arith, s, p));
  }

  -- The mark of block `k` is none of those that follow.
  later_same :
      (n k : ℕ) (r r1 : Reservation S)
      → IsBitmap r.block
      → k < 4096
      → r1.block ≡ mark r.block k
      → free_entries n (k + 1) r1.block ≡ free_entries n (k + 1) r.block
  later_same n k r r1 b h e =
      ap (free_entries n (k + 1)) e
      ∙ free_entries-cong n (k + 1) r.block (mark r.block k)
          (λ j p. entry-mark r.block k b.bytes j (omega (arith, b.full)) ∙ ground arith)

  rest_same :
      (n k blocks : ℕ) (r r1 : Reservation S)
      → IsBitmap r.block
      → k < 4096
      → r1.reserved ≡ r.reserved + 1
      → r1.block ≡ mark r.block k
      → take (blocks - r1.reserved) (free_entries n (k + 1) r1.block)
        ≡ take (blocks - (r.reserved + 1)) (free_entries n (k + 1) r.block)
  rest_same n k blocks r r1 b h m e =
      ap (λ todo. take todo (free_entries n (k + 1) r1.block)) {x = blocks - r1.reserved}
        {y = blocks - (r.reserved + 1)} (omega (arith, m))
      ∙ ap (take (blocks - (r.reserved + 1))) (later_same n k r r1 b h e)

  pub reserve_loop-Linked :
      (n k q blocks : ℕ) (r : Reservation S)
      → IsReady mc dr k q r
      → IsBitmap r.block
      → k + n ≤ 4096
      → 1 ≤ blocks
      → r.reserved ≤ blocks
      → blocks - r.reserved ≤ length (free_entries n k r.block)
      → (r.reserved ≡ blocks → HoldsPage (row_of mc dr r.mgr) q IsLast)
      → Linked blocks q
          (take (blocks - r.reserved) (free_entries n k r.block))
          r
          (reserve_loop mc n k blocks 11 0 r)
  unfolding reserve_loop free_entries
  reserve_loop-Linked zero k q blocks r i b h some_blocks le enough last =
      let done : r.reserved ≡ blocks = omega arith in
      let none_left : blocks - r.reserved ≡ zero = omega arith in
      rw none_left (Linked-done blocks k q r some_blocks i b done (last done))
  reserve_loop-Linked (suc n) k q blocks r i b h some_blocks le enough last =
      elim (Bool-cases (ltb r.reserved blocks)) [
        | inr full ↦
            (let done : r.reserved ≡ blocks = ground arith in
              let none_left : blocks - r.reserved ≡ zero = omega arith in
              rw (full, none_left) (Linked-done blocks k q r some_blocks i b done (last done)))
        | inl more ↦
            (let todo : blocks - r.reserved ≡ suc (blocks - (r.reserved + 1)) = ground arith in
              elim (Bool-cases (entry r.block k == 0)) [
                | inr taken ↦
                    rw (more, taken)
                      (reserve_loop-Linked n (k + 1) q blocks r
                        (IsReady-later k (k + 1) q r i (omega arith)) b (omega arith) some_blocks le
                        (ground arith) last)
                | inl free ↦
                    (let one = reserve_block-Reserved mc dr blocks k q r i (omega arith) in
                      let r1 = reserve_block mc blocks 11 0 k r in
                      let same = rest_same n k blocks r r1 b (omega arith) one.reserved one.block in
                      let few : blocks - r1.reserved ≤ length (free_entries n (k + 1) r1.block) =
                        ground (
                          arith,
                          one.reserved,
                          ap length (later_same n k r r1 b (omega arith) one.block),
                        ) in
                      let rest =
                        reserve_loop-Linked n (k + 1) k blocks r1
                          (IsReady-later (suc k) (k + 1) k r1 one.ready (omega arith))
                          (subst IsBitmap (sym one.block) (mark-IsBitmap r.block k b)) (omega arith)
                          some_blocks (omega (arith, one.reserved)) few
                          (λ e. one.last (omega (arith, one.reserved))) in
                      rw (more, free, todo)
                        (Linked-step blocks k q _ r r1 _ i b (omega arith) one (
                          subst
                            (λ ks. Linked blocks k ks r1 (reserve_loop mc n (k + 1) blocks 11 0 r1))
                            same rest)))
              ])
      ]
