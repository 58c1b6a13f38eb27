-- ===== src/Fs/DiskCache/Write.antt =====
-- `diskCache_write`, of any length, against the row of bytes that a client sees.
use so2c2011tp.Prelude.{
  ℕ, zero, suc, ◌+◌, ◌-◌, ◌*◌, ◌/◌, ◌%◌, ◌<◌, ◌≤◌, ◌^◌, ◌≡◌, ◌≢◌, inl, inr, ap, subst, refl, sym,
  ◌∙◌, true, List, arith, Bool-cases, leb, take, drop, take_all, take-AreBytes, drop-AreBytes,
  length-take, length-drop, get_or, length, AreBytes, overlay,
}
use so2c2011tp.Driver.Ata.{is_disk, u16}
use so2c2011tp.Driver.Ata.Flat.{ata_normalize_lem}
use so2c2011tp.Driver.Ata.Part.{Writes, Writes-append, overlay-Writes}
use so2c2011tp.Fs.DiskCache.{
  Cache, blank, store, update, locate, write_body, write_calls, disk_cache_write,
}
use so2c2011tp.Fs.DiskCache.Table.{get_or-All}
use so2c2011tp.Fs.DiskCache.View.{view, IsSound, IsCoherent}
use so2c2011tp.Fs.DiskCache.Locate.{Located, locate-Located}
use so2c2011tp.Fs.DiskCache.Update.{view_of_at, store-Updated}

-- What a write has done, as a client sees it.
pub record Stored (st : Cache) (disk x n : ℕ) (msg : List ℕ) (st' : Cache) : Type 0 where
  pub coherent : IsCoherent st'
  pub row : Writes (2 ^ 24) (view st disk) (view st' disk) x n msg
  pub others : (disk' s : ℕ) → s < 2 ^ 15 → disk' ≢ disk → view st' disk' s ≡ view st disk' s

-- The part of a write that lies in the located sector.
part-Stored :
    (st : Cache) (disk x n i : ℕ) (msg : List ℕ) (st' : Cache)
    → Located st disk (x / 512 % 2 ^ 16) i st'
    → AreBytes msg
    → x < 2 ^ 24
    → x % 512 + n ≤ 512
    → length msg ≡ n
    → Stored st disk x n msg (update (store (x % 512) msg) i st')
part-Stored st disk x n i msg st' l b hx h len =
    let s = x / 512 % 2 ^ 16 in
    let seen = l.same disk s (omega arith) in
    let u = store-Updated st' i disk s (x % 512) msg l.coherent l.within l.holds b in
    let sound = get_or-All (IsSound st'.media) st'.table i l.coherent.sound l.within in
    record {
      coherent = u.coherent;
      row =
          overlay-Writes (2 ^ 24) (view st disk) (view (update (store (x % 512) msg) i st') disk) x
            n msg
            (λ s' p.
              u.views disk s'
              ∙ ground
                  (arith, l.same disk s' (omega arith), ap (λ c. overlay c (x % 512) msg) seen))
            (ap length (sym seen ∙ view_of_at st' i disk s l.coherent l.within l.holds)
              ∙ sound.full)
            (omega arith) (omega arith) h len;
      others = λ disk' s' p ne. u.views disk' s' ∙ ground (arith, l.same disk' s' p);
    }

-- One call of `diskCache_write`, given what the call for the next sector does.
write_body-Stored :
    (again : Cache → ℕ → List ℕ → ℕ → ℕ → ℕ → Cache) (st : Cache) (disk x bytes : ℕ) (msg : List ℕ)
    → IsCoherent st
    → is_disk disk ≡ true
    → x + bytes < 2 ^ 24
    → AreBytes msg
    → length msg ≡ bytes
    → ((st' : Cache)
        → IsCoherent st'
        → 512 ≤ x % 512 + bytes
        → let size = 512 - x % 512 in
          Stored st' disk
            (u16 (x / 512 % 2 ^ 16 + 1) * 512 + 0)
            (bytes - size)
            (drop size msg)
            (again st' disk (drop size msg) (bytes - size) (u16 (x / 512 % 2 ^ 16 + 1)) 0))
    → Stored st disk x bytes msg (write_body again st disk msg bytes (x / 512 % 2 ^ 16, x % 512))
unfolding write_body
write_body-Stored again st disk x bytes msg co d hx b len ih =
    elim (Bool-cases (leb 512 (x % 512 + bytes))) [
      | inl more ↦ rw more (
          subst
            (λ d'.
              Stored st disk x bytes msg
                (again stored d' (drop size msg) (bytes - size) (u16 (s + 1)) 0))
            (sym holds_disk)
            (through (ground arith) (ih stored (first (ground arith)).coherent (ground arith))))
      | inr last ↦
          rw (last, take_all bytes msg (omega arith))
            (part-Stored st disk x bytes i msg st' l b (omega arith) (ground arith) len)
    ]
  where
    s : ℕ
    s = x / 512 % 2 ^ 16

    size : ℕ
    size = 512 - x % 512

    i : ℕ
    i = (locate st disk s).0

    st' : Cache
    st' = (locate st disk s).1

    l : Located st disk s i st'
    l = locate-Located st disk s co d (omega arith)

    holds_disk : (get_or st'.table i blank).disk ≡ disk
    holds_disk = ground (arith, l.holds)

    stored : Cache
    stored = update (store (x % 512) (take size msg)) i st'

    first : 512 ≤ x % 512 + bytes → Stored st disk x size (take size msg) stored
    first more =
        part-Stored st disk x size i (take size msg) st' l (take-AreBytes size msg b) (omega arith)
          (omega arith) (omega (arith, length-take size msg))

    through :
        512 ≤ x % 512 + bytes
        → {end : Cache}
        → Stored stored disk (u16 (s + 1) * 512 + 0) (bytes - size) (drop size msg) end
        → Stored st disk x bytes msg end
    through more r = record {
      coherent = r.coherent;
      row =
          Writes-append (2 ^ 24) _ _ _ x bytes size _ msg (first more).row r.row (omega arith)
            (omega arith);
      others = λ disk' s' p ne. r.others disk' s' p ne ∙ (first more).others disk' s' p ne;
    }

write_calls-Stored :
    (fuel : ℕ) (st : Cache) (disk : ℕ) (msg : List ℕ) (bytes sector offset : ℕ)
    → IsCoherent st
    → is_disk disk ≡ true
    → sector * 512 + offset + bytes < 2 ^ 24
    → AreBytes msg
    → length msg ≡ bytes
    → bytes < fuel
    → Stored st disk
        (sector * 512 + offset)
        bytes
        msg
        (write_calls fuel st disk msg bytes sector offset)
unfolding write_calls
write_calls-Stored zero st disk msg bytes sector offset co d hx b len h = absurd (omega arith)
write_calls-Stored (suc fuel) st disk msg bytes sector offset co d hx b len h =
    let x = sector * 512 + offset in
    let size = 512 - x % 512 in
    rw (ata_normalize_lem sector offset (omega arith)) (
      write_body-Stored (write_calls fuel) st disk x bytes msg co d hx b len (λ st' co' more.
        write_calls-Stored fuel st' disk (drop size msg) (bytes - size) (u16 (x / 512 % 2 ^ 16 + 1))
          0 co' d (omega arith) (drop-AreBytes size msg b) (omega (arith, length-drop size msg))
          (omega arith)))

-- A write of `msg` through the cache of a coherent state, below sector 2 ^ 15, changes what the client
-- sees by exactly the bytes of `msg` in their places, and leaves a coherent state.
pub disk_cache_write_lem :
    (st : Cache) (disk : ℕ) (msg : List ℕ) (sector offset : ℕ)
    → IsCoherent st
    → is_disk disk ≡ true
    → AreBytes msg
    → sector * 512 + offset + length msg < 2 ^ 24
    → Stored st disk
        (sector * 512 + offset)
        (length msg)
        msg
        (disk_cache_write st disk msg (length msg) sector offset)
unfolding disk_cache_write
disk_cache_write_lem st disk msg sector offset co d b h =
    write_calls-Stored (length msg + 1) st disk msg (length msg) sector offset co d h b refl
      (omega arith)
