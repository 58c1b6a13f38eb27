-- ===== src/Fs/Structs/RoundTrip.antt =====
-- What is written of a struct to the disk is read back.
use so2c2011tp.Prelude.{
  ℕ, zero, suc, ◌+◌, ◌*◌, ◌^◌, ◌<◌, ◌≡◌, refl, ap, ◌∙◌, List, [], ◌∷◌, ◌++◌, arith, length, get_or,
  take, drop, AreBytes, length-append,
}
use so2c2011tp.Fs.Structs.{
  DiskPage, InodeDisk, FileHeader, u32_bytes, u32_at, page_bytes, page_at, inode_bytes, inode_of,
  header_bytes, header_of,
}

abbrev pub IsU32 : ℕ → Type 0
IsU32 n = n < 2 ^ 32

pub record PageFits (p : DiskPage) : Type 0 where
  pub magic : IsU32 p.magic
  pub disk : IsU32 p.disk
  pub next_sector : IsU32 p.next_sector
  pub next_offset : IsU32 p.next_offset
  pub total_length : IsU32 p.total_length
  pub used_bytes : IsU32 p.used_bytes
  pub has_next_page : IsU32 p.has_next_page

pub record InodeFits (i : InodeDisk) : Type 0 where
  pub page : PageFits i.page
  pub blocks : IsU32 i.blocks
  pub used_bytes : IsU32 i.used_bytes

pub record HeaderFits (h : FileHeader) : Type 0 where
  pub magic : IsU32 h.magic
  pub name_length : length h.name ≡ 24
  pub name_bytes : AreBytes h.name
  pub mask : IsU32 h.mask
  pub uid : IsU32 h.uid
  pub gid : IsU32 h.gid
  pub flags : IsU32 h.flags
  pub impl : IsU32 h.impl

pub u32_at-u32_bytes : (n : ℕ) (rest : List ℕ) → IsU32 n → u32_at (u32_bytes n ++ rest) 0 ≡ n
unfolding u32_at u32_bytes
u32_at-u32_bytes n rest h = omega arith

pub u32_at-cons : (x : ℕ) (xs : List ℕ) (o : ℕ) → u32_at (x ∷ xs) (suc o) ≡ u32_at xs o
unfolding u32_at
u32_at-cons x xs o = ap4 (omega arith) (omega arith) (omega arith)
  where
    ap4 :
        {i j k : ℕ}
        → i ≡ suc (o + 1)
        → j ≡ suc (o + 2)
        → k ≡ suc (o + 3)
        → get_or xs o 0
            + get_or (x ∷ xs) i 0 * 256
            + get_or (x ∷ xs) j 0 * 65536
            + get_or (x ∷ xs) k 0 * 16777216
          ≡ get_or xs o 0
            + get_or xs (o + 1) 0 * 256
            + get_or xs (o + 2) 0 * 65536
            + get_or xs (o + 3) 0 * 16777216
    ap4 e f g = rw (e, f, g)

pub u32_at-append :
    (xs ys : List ℕ) (o k : ℕ) → o ≡ length xs + k → u32_at (xs ++ ys) o ≡ u32_at ys k
u32_at-append [] ys o k e = ap (u32_at ys) (omega arith)
u32_at-append (x ∷ xs) ys o k e =
    ap (u32_at (x ∷ xs ++ ys)) {x = o} {y = suc (length xs + k)} (omega arith)
    ∙ u32_at-cons x (xs ++ ys) (length xs + k)
    ∙ u32_at-append xs ys (length xs + k) k refl

pub page_at-page_bytes :
    (p : DiskPage) (rest : List ℕ) → PageFits p → page_at (page_bytes p ++ rest) 0 ≡ p
unfolding page_at page_bytes u32_at u32_bytes
page_at-page_bytes p rest h = ground arith

pub inode_of-inode_bytes : (i : InodeDisk) → InodeFits i → inode_of (inode_bytes i) ≡ i
unfolding inode_of inode_bytes page_at page_bytes u32_at u32_bytes
inode_of-inode_bytes i h = ground (arith, h.page)

take-append : (n : ℕ) (xs ys : List ℕ) → length xs ≡ n → take n (xs ++ ys) ≡ xs
take-append zero [] ys e = refl
take-append zero (x ∷ xs) ys e = absurd (omega arith)
take-append (suc n) [] ys e = absurd (omega arith)
take-append (suc n) (x ∷ xs) ys e = ap (λ l. x ∷ l) (take-append n xs ys (omega arith))

-- The fields behind the name.
abbrev pub tail_bytes : FileHeader → List ℕ
tail_bytes h =
    u32_bytes h.mask
    ++ (u32_bytes h.uid ++ (u32_bytes h.gid ++ (u32_bytes h.flags ++ u32_bytes h.impl)))

tail_bytes_lem :
    (h : FileHeader)
    → HeaderFits h
    → (u32_at (tail_bytes h) 0 ≡ h.mask)
      × (u32_at (tail_bytes h) 4 ≡ h.uid)
      × (u32_at (tail_bytes h) 8 ≡ h.gid)
      × (u32_at (tail_bytes h) 12 ≡ h.flags)
      × (u32_at (tail_bytes h) 16 ≡ h.impl)
unfolding u32_at u32_bytes
tail_bytes_lem h f = omega arith

header_bytes_lem : (h : FileHeader) → header_bytes h ≡ u32_bytes h.magic ++ (h.name ++ tail_bytes h)
unfolding header_bytes
header_bytes_lem h = refl

behind_name :
    (h : FileHeader) (k : ℕ)
    → HeaderFits h
    → u32_at (u32_bytes h.magic ++ (h.name ++ tail_bytes h)) (28 + k) ≡ u32_at (tail_bytes h) k
unfolding u32_bytes
behind_name h k f =
    u32_at-append (u32_bytes h.magic) (h.name ++ tail_bytes h) (28 + k) (24 + k) (omega arith)
    ∙ u32_at-append h.name (tail_bytes h) (24 + k) k (omega (arith, f.name_length))

name_lem :
    (h : FileHeader)
    → HeaderFits h
    → take 24 (drop 4 (u32_bytes h.magic ++ (h.name ++ tail_bytes h))) ≡ h.name
unfolding u32_bytes
name_lem h f = take-append 24 h.name (tail_bytes h) f.name_length

fields_of :
    (h : FileHeader) (bs : List ℕ)
    → u32_at bs 0 ≡ h.magic
    → take 24 (drop 4 bs) ≡ h.name
    → u32_at bs 28 ≡ h.mask
    → u32_at bs 32 ≡ h.uid
    → u32_at bs 36 ≡ h.gid
    → u32_at bs 40 ≡ h.flags
    → u32_at bs 44 ≡ h.impl
    → header_of bs ≡ h
unfolding header_of
fields_of h bs e0 e1 e2 e3 e4 e5 e6 = cc

pub header_of-header_bytes : (h : FileHeader) → HeaderFits h → header_of (header_bytes h) ≡ h
header_of-header_bytes h f =
    let (mask, uid, gid, flags, impl) = tail_bytes_lem h f in
    rw (header_bytes_lem h) (
      fields_of h _ (u32_at-u32_bytes h.magic (h.name ++ tail_bytes h) f.magic) (name_lem h f)
        (behind_name h 0 f ∙ mask) (behind_name h 4 f ∙ uid) (behind_name h 8 f ∙ gid)
        (behind_name h 12 f ∙ flags) (behind_name h 16 f ∙ impl))

pub length-page_bytes : (p : DiskPage) → length (page_bytes p) ≡ 28
unfolding page_bytes u32_bytes
length-page_bytes p = refl

pub length-inode_bytes : (i : InodeDisk) → length (inode_bytes i) ≡ 36
unfolding inode_bytes page_bytes u32_bytes
length-inode_bytes i = refl

pub length-header_bytes : (h : FileHeader) → HeaderFits h → length (header_bytes h) ≡ 48
unfolding header_bytes u32_bytes
length-header_bytes h f = omega (
  arith,
  f.name_length,
  length-append h.name (
      u32_bytes h.mask
      ++ (u32_bytes h.uid ++ (u32_bytes h.gid ++ (u32_bytes h.flags ++ u32_bytes h.impl)))),
)

-- The same with nothing behind the page.
pub page_at-page_bytes_alone : (p : DiskPage) → PageFits p → page_at (page_bytes p) 0 ≡ p
unfolding page_at page_bytes u32_at u32_bytes
page_at-page_bytes_alone p h = ground arith
