-- ===== src/Fs/FileSystem.antt =====
-- src/fs/fs.c: the state of the file system, and how its functions are chained. `none` means that the
-- fuel of a loop of the disk manager ran out.
pub mod Table
pub mod Nodes
pub mod Files
pub mod Folders
pub mod Start
pub mod Clone
pub mod Cached
pub mod RoundTrip
pub mod Open
mod Tests
use Prim.Native.Nat.{bit_and}
use so2c2011tp.Prelude.{ℕ, ◌-◌, ◌%◌, ◌^◌, Option, none, some, List, [], ltb, if◌then◌else◌}
use so2c2011tp.Prelude.Int.{ℤ, pos, negsuc}
use so2c2011tp.Fs.Strategy.{Manager}
use so2c2011tp.Fs.DiskManager.Inodes.{Inode}

-- The static variables of fs.c, and the disk manager.
pub record FileSystem (S : Type 0) : Type 0 where
  pub inodes : List Inode
  pub next_to_free : ℕ
  pub mgr : Manager S

-- `INODES`
abbrev pub max_inodes : ℕ
max_inodes = 15

abbrev pub no_inode : Inode
no_inode = record {
  sector = 0;
  offset = 0;
  inode_id = 0;
  uid = 0;
  gid = 0;
  flags = 0;
  length = 0;
  impl = 0;
  mask = 0;
  name = [];
}

-- `FILE_TYPE` and the types of files.
abbrev pub file_type : ℕ → ℕ
file_type mask = bit_and mask 0xF000

abbrev pub fs_pipe : ℕ
fs_pipe = 0x1000

abbrev pub fs_directory : ℕ
fs_directory = 0x4000

abbrev pub def_perm : ℕ
def_perm = 0x0644

-- An `int` in a `u32int`, and back.
abbrev pub to_u32 : ℤ → ℕ
to_u32 (pos n) = n % 2 ^ 32
to_u32 (negsuc n) = 2 ^ 32 - 1 - n % 2 ^ 32

abbrev pub to_int : ℕ → ℤ
to_int n = if ltb n (2 ^ 31) then pos n else negsuc (2 ^ 32 - 1 - n)

abbrev pub set_errno : {S : Type 0} → ℤ → FileSystem S → FileSystem S
set_errno e st = record st { mgr = record st.mgr { errno = e } }

-- A step of a function.
abbrev pub Step : Type 0 → Type 0 → Type 0
Step S A = FileSystem S → Option (A × FileSystem S)

module _ {S : Type 0} where
  infixl 5 ◌>>=◌ ◌>>◌
  abbrev pub ◌>>=◌ : {A B : Type 0} → Step S A → (A → Step S B) → Step S B
  ◌>>=◌ m f st = elim (m st) [ none ↦ none | some (a, st') ↦ f a st' ]

  abbrev pub ◌>>◌ : {A B : Type 0} → Step S A → Step S B → Step S B
  ◌>>◌ m n st = elim (m st) [ none ↦ none | some (_, st') ↦ n st' ]

  abbrev pub return : {A : Type 0} → A → Step S A
  return a st = some (a, st)

  -- A function that has no loop.
  abbrev pub run : {A : Type 0} → (FileSystem S → A × FileSystem S) → Step S A
  run f st = some (f st)

  abbrev pub gets : {A : Type 0} → (FileSystem S → A) → Step S A
  gets f st = some (f st, st)

  abbrev pub modify : (FileSystem S → FileSystem S) → Step S (Unit {0})
  modify f st = some (tt, f st)

  -- Calls of the disk manager.
  abbrev pub disk : {A : Type 0} → (Manager S → A × Manager S) → Step S A
  disk f st = (let (a, m) = f st.mgr in some (a, record st { mgr = m }))

  abbrev pub disk_ : (Manager S → Manager S) → Step S (Unit {0})
  disk_ f st = some (tt, record st { mgr = f st.mgr })

  abbrev pub loop : {A : Type 0} → (Manager S → Option (A × Manager S)) → Step S A
  loop f st = elim (f st.mgr) [ none ↦ none | some (a, m) ↦ some (a, record st { mgr = m }) ]

  abbrev pub loop_ : (Manager S → Option (Manager S)) → Step S (Unit {0})
  loop_ f st = elim (f st.mgr) [ none ↦ none | some m ↦ some (tt, record st { mgr = m }) ]
