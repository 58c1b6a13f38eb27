-- ===== src/Fs/DiskCache/Transfer.antt =====
-- Transfers through the cache, of any length, against the row of bytes that a client sees.
use so2c2011tp.Prelude.{
  ℕ, zero, suc, ◌+◌, ◌-◌, ◌*◌, ◌/◌, ◌%◌, ◌<◌, ◌≤◌, ◌^◌, ◌≡◌, inl, inr, subst, sym, ◌∙◌, true, List,
  ◌++◌, arith, Bool-cases, leb, take, drop, get_or, length,
}
use so2c2011tp.Driver.Ata.{is_disk, u16}
use so2c2011tp.Driver.Ata.Flat.{Reads, Reads-append, part-Reads, Reads-cong, ata_normalize_lem}
use so2c2011tp.Fs.DiskCache.{
  Cache, blank, is_used, count_access, update, locate, read_body, read_calls, disk_cache_read,
}
use so2c2011tp.Fs.DiskCache.Table.{get_or-All}
use so2c2011tp.Fs.DiskCache.View.{view, IsSound, IsCoherent, SameView}
use so2c2011tp.Fs.DiskCache.Locate.{KeepsUsed, Located, locate-Located}
use so2c2011tp.Fs.DiskCache.Update.{count_access_lem, view_of_at}

-- What a read has done: the bytes of the row, and no change that a client sees.
pub record Served (st : Cache) (disk x n : ℕ) (out : List ℕ × Cache) : Type 0 where
  pub coherent : IsCoherent out.1
  pub kept : KeepsUsed st out.1
  pub same : SameView st out.1
  pub read : Reads (view st disk) x n out.0

Located-used :
    (st : Cache) (disk s i : ℕ) (st' : Cache)
    → Located st disk s i st'
    → (is_used (get_or st'.table i blank) ≡ true) × ((get_or st'.table i blank).disk ≡ disk)
Located-used st disk s i st' l = ground (arith, l.holds)

count-Served :
    (st st' : Cache) (disk x n i : ℕ) (msg : List ℕ)
    → IsCoherent st'
    → KeepsUsed st st'
    → SameView st st'
    → Reads (view st disk) x n msg
    → i < length st'.table
    → is_used (get_or st'.table i blank) ≡ true
    → Served st disk x n (msg, update count_access i st')
count-Served st st' disk x n i msg co kept same read h u =
    let (co', kept', same') = count_access_lem st' i co h u in
    record {
      coherent = co';
      kept = λ j v. kept' j (kept j v);
      same = λ d s p. same' d s p ∙ same d s p;
      read = read;
    }

-- The part of a read that lies in the located sector.
Located-Reads :
    (st : Cache) (disk x n i : ℕ) (st' : Cache)
    → Located st disk (x / 512 % 2 ^ 16) i st'
    → x < 2 ^ 24
    → x % 512 + n ≤ 512
    → Reads (view st disk) x n (take n (drop (x % 512) (get_or st'.table i blank).contents))
Located-Reads st disk x n i st' l hx h =
    let s = x / 512 % 2 ^ 16 in
    part-Reads (view st disk) x n _
      (get_or-All (IsSound st'.media) st'.table i l.coherent.sound l.within).full
      (sym (l.same disk s (omega arith)) ∙ view_of_at st' i disk s l.coherent l.within l.holds) h

-- One call of `diskCache_read`, given what the call for the next sector does.
read_body-Served :
    (again : Cache → ℕ → ℕ → ℕ → ℕ → List ℕ × Cache) (st : Cache) (disk x bytes : ℕ)
    → IsCoherent st
    → is_disk disk ≡ true
    → x + bytes < 2 ^ 24
    → ((st' : Cache)
        → IsCoherent st'
        → 512 ≤ x % 512 + bytes
        → Served st' disk
            (u16 (x / 512 % 2 ^ 16 + 1) * 512 + 0)
            (bytes - (512 - x % 512))
            (again st' disk (bytes - (512 - x % 512)) (u16 (x / 512 % 2 ^ 16 + 1)) 0))
    → Served st disk x bytes (read_body again st disk bytes (x / 512 % 2 ^ 16, x % 512))
unfolding read_body
read_body-Served again st disk x bytes co d hx ih = elim (Bool-cases (leb 512 (x % 512 + bytes))) [
  | inl more ↦ rw (more) (
      through
        (subst
          (λ d'. Served st' disk y (bytes - size) (again st' d' (bytes - size) (u16 (s + 1)) 0))
          (sym used.1) (ih st' l.coherent (ground arith)))
        (ground arith))
  | inr last ↦ rw (last) (
      count-Served st st' disk x bytes i _ l.coherent l.kept l.same
        (Located-Reads st disk x bytes i st' l (omega arith) (ground arith)) l.within used.0)
]
  where
    s : ℕ
    s = x / 512 % 2 ^ 16

    size : ℕ
    size = 512 - x % 512

    y : ℕ
    y = u16 (s + 1) * 512 + 0

    i : ℕ
    i = (locate st disk s).0

    st' : Cache
    st' = (locate st disk s).1

    l : Located st disk s i st'
    l = locate-Located st disk s co d (omega arith)

    used : (is_used (get_or st'.table i blank) ≡ true) × ((get_or st'.table i blank).disk ≡ disk)
    used = Located-used st disk s i st' l

    through :
        {beyond : List ℕ × Cache}
        → Served st' disk y (bytes - size) beyond
        → 512 ≤ x % 512 + bytes
        → Served st disk x bytes (
          take size (drop (x % 512) (get_or st'.table i blank).contents) ++ beyond.0,
          update count_access i beyond.1,
        )
    through {beyond} r more =
        count-Served st beyond.1 disk x bytes i _ r.coherent (λ j u. r.kept j (l.kept j u))
          (λ d' s' p. r.same d' s' p ∙ l.same d' s' p)
          (Reads-append (view st disk) x bytes _ _ beyond.0
            (Located-Reads st disk x size i st' l (omega arith) (omega arith))
            (Reads-cong (view st disk) (view st' disk) _ _ beyond.0 (l.same disk) (omega arith)
              r.read)
            (omega arith) (omega arith))
          (omega (arith, l.within, l.coherent.entries, r.coherent.entries)) (r.kept i used.0)

read_calls-Served :
    (fuel : ℕ) (st : Cache) (disk bytes sector offset : ℕ)
    → IsCoherent st
    → is_disk disk ≡ true
    → sector * 512 + offset + bytes < 2 ^ 24
    → bytes < fuel
    → Served st disk (sector * 512 + offset) bytes (read_calls fuel st disk bytes sector offset)
unfolding read_calls
read_calls-Served zero st disk bytes sector offset co d hx h = absurd (omega arith)
read_calls-Served (suc fuel) st disk bytes sector offset co d hx h =
    let x = sector * 512 + offset in
    rw (ata_normalize_lem sector offset (omega arith)) (
      read_body-Served (read_calls fuel) st disk x bytes co d hx (λ st' co' more.
        read_calls-Served fuel st' disk (bytes - (512 - x % 512)) (u16 (x / 512 % 2 ^ 16 + 1)) 0 co'
          d (omega arith) (omega arith)))

-- A read through the cache of a coherent state, below sector 2 ^ 15, yields the bytes that the client
-- sees from the address on, across sector bounds and whatever it evicts, and leaves a coherent state
-- in which the client sees the same.
pub disk_cache_read_lem :
    (st : Cache) (disk bytes sector offset : ℕ)
    → IsCoherent st
    → is_disk disk ≡ true
    → sector * 512 + offset + bytes < 2 ^ 24
    → let (msg, st') = disk_cache_read st disk bytes sector offset in
      Reads (view st disk) (sector * 512 + offset) bytes msg × IsCoherent st' × SameView st st'
unfolding disk_cache_read
disk_cache_read_lem st disk bytes sector offset co d h =
    let r = read_calls-Served (bytes + 1) st disk bytes sector offset co d h (omega arith) in
    (r.read, r.coherent, r.same)
