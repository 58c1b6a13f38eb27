-- ===== src/Fs/Strategy/Calls.antt =====
-- A read and a write by the disk manager, on a strategy that keeps the laws.
use so2c2011tp.Prelude.{
  ℕ, ◌+◌, ◌-◌, ◌*◌, ◌^◌, ◌<◌, ◌≤◌, ◌≡◌, ◌≢◌, ◌⊎◌, refl, ap, sym, ◌∙◌, subst, true, ◌&&◌, List,
  arith, length, ◌==◌, ltb, leb, if◌then◌else◌, get_or, AreBytes, AreBytes-get_or, ext_get_or,
}
use so2c2011tp.Driver.Ata.{is_disk, u16}
use so2c2011tp.Fs.Strategy.{Machine, Manager, fetch, put, received}
use so2c2011tp.Fs.Strategy.Laws.{IsDrive, Slice, Overwritten}

pub Slice-unique :
    (v : ℕ → ℕ) (x n : ℕ) (msg msg' : List ℕ) → Slice v x n msg → Slice v x n msg' → msg ≡ msg'
Slice-unique v x n msg msg' a b =
    ext_get_or 0 msg msg' (a.count ∙ sym b.count)
      (λ k p. a.bytes k (omega (arith, a.count)) ∙ sym (b.bytes k (omega (arith, a.count))))

pub Slice-cong :
    (v v' : ℕ → ℕ) (x n : ℕ) (msg : List ℕ)
    → ((k : ℕ) → k < n → v' (x + k) ≡ v (x + k))
    → Slice v x n msg
    → Slice v' x n msg
Slice-cong v v' x n msg e a = record { count = a.count; bytes = λ k p. a.bytes k p ∙ sym (e k p) }

module _ {S : Type 0} (mc : Machine S) (dr : IsDrive mc.strategy) where
  -- What a read of `n` bytes at address `x` has given.
  pub record Fetched (st : Manager S) (disk x n : ℕ) (msg : List ℕ) (st' : Manager S) : Type 0 where
    pub slice : Slice (dr.byte st.drive disk) x n msg
    pub bytes : AreBytes msg
    pub good : dr.IsGood st'.drive
    pub same : (d y : ℕ) → y < 2 ^ 24 → dr.byte st'.drive d y ≡ dr.byte st.drive d y
    pub errno : st'.errno ≡ st.errno

  pub record Stored (st : Manager S) (disk x : ℕ) (msg : List ℕ) (st' : Manager S) : Type 0 where
    pub good : dr.IsGood st'.drive
    pub row : Overwritten (dr.byte st.drive) (dr.byte st'.drive) disk x msg
    pub errno : st'.errno ≡ st.errno

  pub fetch-Fetched :
      (old : List ℕ) (disk n sector offset : ℕ) (st : Manager S)
      → dr.IsGood st.drive
      → is_disk disk ≡ true
      → sector < 2 ^ 15
      → sector * 512 + offset + n < 2 ^ 24
      → let (msg, st') = fetch mc old disk n sector offset st in
        Fetched st disk (sector * 512 + offset) n msg st'
  unfolding fetch
  fetch-Fetched old disk n sector offset st g d hs h =
      let (msg, s', e, slice, good, same) = dr.read_lem st.drive disk n sector offset g d h in
      let got : fetch mc old disk n sector offset st ≡ (msg, record st { drive = s' }) =
        ap (λ s. received old st (mc.strategy.read st.drive disk n s offset)) {x = u16 sector}
          {y = sector} (omega arith)
        ∙ ap (received old st) e in
      subst (λ r. Fetched st disk (sector * 512 + offset) n r.0 r.1) (sym got)
        (record {
          slice = slice;
          bytes = AreBytes-get_or msg (λ k p.
              subst (λ b. b < 256) (sym (slice.bytes k (omega (arith, slice.count))))
                (dr.byte_bound st.drive disk (sector * 512 + offset + k) g));
          good = good;
          same = same;
          errno = refl;
        })

  pub put-Stored :
      (disk : ℕ) (msg : List ℕ) (sector offset : ℕ) (st : Manager S)
      → dr.IsGood st.drive
      → is_disk disk ≡ true
      → AreBytes msg
      → sector < 2 ^ 15
      → sector * 512 + offset + length msg < 2 ^ 24
      → Stored st disk (sector * 512 + offset) msg (put mc disk msg sector offset st)
  unfolding put
  put-Stored disk msg sector offset st g d b hs h =
      let short : u16 sector ≡ sector = omega arith in
      let (s', e, good, row) = dr.write_lem st.drive disk msg sector offset g d b h in
      rw (short, put) (rw (e, put) (record { good = good; row = row; errno = refl }))

  -- The bytes that were written stand where they were written.
  pub Stored-Slice :
      (st st' : Manager S) (disk x n : ℕ) (msg : List ℕ)
      → length msg ≡ n
      → x + n < 2 ^ 24
      → Stored st disk x msg st'
      → Slice (dr.byte st'.drive disk) x n msg
  Stored-Slice st st' disk x n msg e h w = record {
    count = e;
    bytes = λ k p. sym (
        w.row disk (x + k) (omega arith)
        ∙ ground (arith, ap (λ n. get_or msg n 0) {x = x + k - x} {y = k} (omega arith)));
  }

  -- A piece of a disk that the bytes written do not meet.
  pub Stored-apart :
      (st st' : Manager S) (disk x : ℕ) (msg : List ℕ) (d y n : ℕ) (piece : List ℕ)
      → Stored st disk x msg st'
      → y + n < 2 ^ 24
      → (d ≢ disk) ⊎ ((y + n ≤ x) ⊎ (x + length msg ≤ y))
      → Slice (dr.byte st.drive d) y n piece
      → Slice (dr.byte st'.drive d) y n piece
  Stored-apart st st' disk x msg d y n piece w h a s = record {
    count = s.count;
    bytes = λ k p. s.bytes k p ∙ sym (w.row d (y + k) (omega arith) ∙ ground arith);
  }

  -- Nothing that a client sees has changed.
  pub record Quiet (st st' : Manager S) : Type 0 where
    pub good : dr.IsGood st'.drive
    pub same : (d y : ℕ) → y < 2 ^ 24 → dr.byte st'.drive d y ≡ dr.byte st.drive d y
    pub errno : st'.errno ≡ st.errno

  pub Quiet-Slice :
      (st st' : Manager S) (d y n : ℕ) (piece : List ℕ)
      → Quiet st st'
      → y + n < 2 ^ 24
      → Slice (dr.byte st.drive d) y n piece
      → Slice (dr.byte st'.drive d) y n piece
  Quiet-Slice st st' d y n piece q h s =
      Slice-cong _ _ y n piece (λ k p. q.same d (y + k) (omega arith)) s

  -- A read of bytes that are known.
  pub fetch-Quiet :
      (old : List ℕ) (disk n sector offset : ℕ) (st : Manager S) (msg : List ℕ)
      → dr.IsGood st.drive
      → is_disk disk ≡ true
      → sector < 2 ^ 15
      → sector * 512 + offset + n < 2 ^ 24
      → Slice (dr.byte st.drive disk) (sector * 512 + offset) n msg
      → let (got, st') = fetch mc old disk n sector offset st in (got ≡ msg) × Quiet st st'
  fetch-Quiet old disk n sector offset st msg g d hs h s =
      let f = fetch-Fetched old disk n sector offset st g d hs h in
      (
        Slice-unique _ (sector * 512 + offset) n _ msg f.slice s,
        record { good = f.good; same = f.same; errno = f.errno },
      )

  pub Quiet-trans : (st st' st'' : Manager S) → Quiet st st' → Quiet st' st'' → Quiet st st''
  Quiet-trans st st' st'' a b = record {
    good = b.good;
    same = λ d y p. b.same d y p ∙ a.same d y p;
    errno = b.errno ∙ a.errno;
  }

  -- A write behind calls that change nothing.
  pub Quiet-Stored :
      (st st' st'' : Manager S) (disk x : ℕ) (msg : List ℕ)
      → Quiet st st'
      → Stored st' disk x msg st''
      → Stored st disk x msg st''
  Quiet-Stored st st' st'' disk x msg q w = record {
    good = w.good;
    row = λ d y p.
        w.row d y p
        ∙ ap
            (λ b.
              if (d == disk) && (leb x y && ltb y (x + length msg))
              then get_or msg (y - x) 0
              else b)
            (q.same d y p);
    errno = w.errno ∙ q.errno;
  }
