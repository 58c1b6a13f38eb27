-- ===== src/Access/Permission.antt =====
-- src/access/permission.c: who may change a user, a group or a file.
use Prim.Native.Nat.{bit_and}
use so2c2011tp.Prelude.{
  ℕ, ◌*◌, ◌/◌, ◌^◌, ◌<◌, ◌≡◌, ◌≢◌, inl, inr, Bool-cases, ◌↔◌, Bool, true, false, ◌||◌, Option, none,
  some, List, [], ◌∷◌, ◌==◌, get_or, if◌then◌else◌, arith, ==_iff,
}
use so2c2011tp.Prelude.Int.{ℤ, ◌==ℤ◌, ==ℤ_iff}
use so2c2011tp.Text.{Text}
use so2c2011tp.Access.State.{User, Access, NullPage, no_user, super_user, user_get}
use so2c2011tp.Access.Session.{session_get_euid}
use so2c2011tp.Access.Bits.{HasThree, Covers-three, Covers-sixteen, Covers-bytes}

-- The fields of `fs_node_t` that access depends on.
pub record Node : Type 0 where
  pub mask : ℕ
  pub uid : ℤ
  pub gid : ℤ

unfoldable pub permission_user_is_owner : Access → ℤ → Bool
permission_user_is_owner a uid = (session_get_euid a ==ℤ super_user) || (session_get_euid a ==ℤ uid)

-- It compares the effective user with a group.
unfoldable pub permission_group_is_owner : Access → ℤ → Bool
permission_group_is_owner a gid =
    (session_get_euid a ==ℤ super_user) || (session_get_euid a ==ℤ gid)

unfoldable pub permission_file_is_owner : Access → Node → Bool
permission_file_is_owner a node =
    (session_get_euid a ==ℤ super_user) || (session_get_euid a ==ℤ node.uid)

-- `user->gid`, which for NULL is read from the page at address 0.
abbrev pub gid_at : NullPage → List User → Option ℕ → ℤ
gid_at null users none = null.user_gid
gid_at null users (some i) = (get_or users i no_user).gid

-- How far the desired bits are shifted: to the bits of the owner, of the group or of the others.
pub access_shift : NullPage → Access → Node → ℕ
access_shift null a node =
    if session_get_euid a ==ℤ node.uid
    then 8
    else (if gid_at null a.users (user_get a.users (session_get_euid a)) ==ℤ node.gid then 4 else 0)

pub permission_file_has_access : NullPage → Access → Node → ℕ → Bool
permission_file_has_access null a node access_desired =
    if session_get_euid a ==ℤ super_user
    then true
    else (let desired = access_desired * 2 ^ access_shift null a node in
        bit_and node.mask desired == desired)

-- `mask_string`: the type and the nine flags of a mask.
pub type_char : ℕ → ℕ
type_char t =
    if t == 0xC000
    then 115
    else (if t == 0xA000
        then 108
        else (if t == 0x8000
            then 45
            else (if t == 0x6000
                then 98
                else (if t == 0x4000
                    then 100
                    else (if t == 0x2000 then 99 else (if t == 0x1000 then 112 else 117))))))

abbrev flag : ℕ → ℕ → ℕ → ℕ
flag mask bit c = if bit_and mask bit == 0 then 45 else c

pub mask_string : ℕ → Text
mask_string mask =
    type_char (bit_and mask 0xF000)
    ∷ flag mask 0x400 114
    ∷ flag mask 0x200 119
    ∷ flag mask 0x100 120
    ∷ flag mask 0x40 114
    ∷ flag mask 0x20 119
    ∷ flag mask 0x10 120
    ∷ flag mask 0x4 114
    ∷ flag mask 0x2 119
    ∷ flag mask 0x1 120
    ∷ []

abbrev pub gid_of_current : NullPage → Access → ℤ
gid_of_current null a = gid_at null a.users (user_get a.users (session_get_euid a))

-- Whose bits decide: the mask has three for the owner, three for the group and three for the others.
pub data Granted (null : NullPage) (a : Access) (node : Node) (desired : ℕ) : Type 0 where
  root : session_get_euid a ≡ super_user → Granted null a node desired
  owner :
      session_get_euid a ≡ node.uid
      → HasThree (node.mask / 0x100) desired
      → Granted null a node desired
  in_group :
      session_get_euid a ≢ node.uid
      → gid_of_current null a ≡ node.gid
      → HasThree (node.mask / 0x10) desired
      → Granted null a node desired
  other :
      session_get_euid a ≢ node.uid
      → gid_of_current null a ≢ node.gid
      → HasThree node.mask desired
      → Granted null a node desired

allowed : ℕ → ℕ → ℕ → Bool
allowed mask shift desired = bit_and mask (desired * 2 ^ shift) == desired * 2 ^ shift

allowed_owner : (mask d : ℕ) → d < 8 → (allowed mask 8 d ≡ true) ↔ HasThree (mask / 0x100) d
unfolding allowed
allowed_owner mask d h = (
  λ e. (Covers-three _ d h).0 ((Covers-bytes mask d).0 ((==_iff _ _).0 e)),
  λ t. (==_iff _ _).1 ((Covers-bytes mask d).1 ((Covers-three _ d h).1 t)),
)

allowed_group : (mask d : ℕ) → d < 8 → (allowed mask 4 d ≡ true) ↔ HasThree (mask / 0x10) d
unfolding allowed
allowed_group mask d h = (
  λ e. (Covers-three _ d h).0 ((Covers-sixteen mask d).0 ((==_iff _ _).0 e)),
  λ t. (==_iff _ _).1 ((Covers-sixteen mask d).1 ((Covers-three _ d h).1 t)),
)

allowed_other : (mask d : ℕ) → d < 8 → (allowed mask 0 d ≡ true) ↔ HasThree mask d
unfolding allowed
allowed_other mask d h =
    let same : d * 2 ^ 0 ≡ d = omega arith in
    rw same (
      λ e. (Covers-three _ d h).0 ((==_iff _ _).0 e),
      λ t. (==_iff _ _).1 ((Covers-three _ d h).1 t),
    )

has_access_cases :
    (null : NullPage) (a : Access) (node : Node) (desired : ℕ)
    → permission_file_has_access null a node desired ≡ (
        if session_get_euid a ==ℤ super_user
        then true
        else (if session_get_euid a ==ℤ node.uid
            then allowed node.mask 8 desired
            else (if gid_of_current null a ==ℤ node.gid
                then allowed node.mask 4 desired
                else allowed node.mask 0 desired)))
unfolding permission_file_has_access access_shift allowed
has_access_cases null a node desired = ground arith

differs : (x y : ℤ) → x ≢ y → (x ==ℤ y) ≡ false
differs x y h = elim (Bool-cases (x ==ℤ y)) [ inl e ↦ absurd (h ((==ℤ_iff x y).0 e)) | inr e ↦ e ]

unequal : (x y : ℤ) → (x ==ℤ y) ≡ false → x ≢ y
unequal x y f e = ground (arith, f, (==ℤ_iff x y).1 e)

module _ (null : NullPage) (a : Access) (node : Node) (desired : ℕ) (h : desired < 8) where
  Granted-test : Granted null a node desired → permission_file_has_access null a node desired ≡ true
  Granted-test (root e) = rw (has_access_cases null a node desired, (==ℤ_iff _ _).1 e)
  Granted-test (owner e t) =
      rw (has_access_cases null a node desired, (==ℤ_iff _ _).1 e)
        (ground (arith, (allowed_owner node.mask desired h).1 t))
  Granted-test (in_group n e t) =
      rw (has_access_cases null a node desired, differs _ _ n, (==ℤ_iff _ _).1 e)
        (ground (arith, (allowed_group node.mask desired h).1 t))
  Granted-test (other n g t) =
      rw (has_access_cases null a node desired, differs _ _ n, differs _ _ g)
        (ground (arith, (allowed_other node.mask desired h).1 t))

  test-Granted : permission_file_has_access null a node desired ≡ true → Granted null a node desired
  test-Granted =
      rw (has_access_cases null a node desired)
        (elim (Bool-cases (session_get_euid a ==ℤ super_user)) [
          | inl r ↦ (λ _. root ((==ℤ_iff _ _).0 r))
          | inr nr ↦
              (rw nr (elim (Bool-cases (session_get_euid a ==ℤ node.uid)) [
                | inl o ↦
                    rw o (λ e. owner ((==ℤ_iff _ _).0 o) ((allowed_owner node.mask desired h).0 e))
                | inr foreign ↦
                    (rw foreign (elim (Bool-cases (gid_of_current null a ==ℤ node.gid)) [
                      | inl g ↦ rw g (λ e.
                          in_group (unequal _ _ foreign) ((==ℤ_iff _ _).0 g)
                            ((allowed_group node.mask desired h).0 e))
                      | inr ng ↦ rw ng (λ e.
                          other (unequal _ _ foreign) (unequal _ _ ng)
                            ((allowed_other node.mask desired h).0 e))
                    ]))
              ]))
        ])

-- For an access of three bits, `permission_file_hasAccess` answers true exactly if the effective user
-- is the super user, or each desired bit is in the triad of the mask that applies: the owner's for the
-- owner, else the group's for a user of the file's group, else the others'.
pub permission_file_has_access_lem :
    (null : NullPage) (a : Access) (node : Node) (desired : ℕ)
    → desired < 8
    → (permission_file_has_access null a node desired ≡ true) ↔ Granted null a node desired
permission_file_has_access_lem null a node desired h =
    (test-Granted null a node desired h, Granted-test null a node desired h)
