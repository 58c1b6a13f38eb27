-- ===== src/Fs/FileSystem/Open.antt =====
-- `fs_open` and `fs_close` on the descriptors of a process.
use so2c2011tp.Prelude.{
  ℕ, zero, suc, ◌<◌, ◌≡◌, ◌≢◌, inl, inr, Bool, true, false, List, [], ◌∷◌, arith, length, ◌==◌, set,
  get_or, Bool-cases, ==_iff,
}
use so2c2011tp.Fs.FileSystem.{file_type}
use so2c2011tp.Fs.FileSystem.Nodes.{FsNode, Descriptor, open_in}

abbrev pub no_descriptor : Descriptor
no_descriptor = record { mask = 0; count = 0; inode = 0; mode = 0 }

-- The descriptor of a node that was opened.
abbrev pub descriptor_of : FsNode → Descriptor
descriptor_of node = record {
  mask = file_type node.mask;
  count = 1;
  inode = node.inode;
  mode = node.flags;
}

-- What opening a node does to the descriptors.
pub data Opened (node : FsNode) (ds : List Descriptor) : Bool × List Descriptor → Type 0 where
  taken :
      (i : ℕ)
      → i < length ds
      → (get_or ds i no_descriptor).mask ≡ 0
      → ((j : ℕ) → j < i → (get_or ds j no_descriptor).mask ≢ 0)
      → Opened node ds (true, set ds i (descriptor_of node))
  full :
      ((j : ℕ) → j < length ds → (get_or ds j no_descriptor).mask ≢ 0) → Opened node ds (false, ds)

still_used :
    (d : Descriptor) (ds : List Descriptor) (n : ℕ)
    → d.mask ≢ 0
    → ((j : ℕ) → j < n → (get_or ds j no_descriptor).mask ≢ 0)
    → (j : ℕ) → j < suc n
    → (get_or (d ∷ ds) j no_descriptor).mask ≢ 0
still_used d ds n h k zero below = h
still_used d ds n h k (suc j) below = k j (omega arith)

Opened-cons :
    (node : FsNode) (d : Descriptor) (ds : List Descriptor) (r : Bool × List Descriptor)
    → d.mask ≢ 0
    → Opened node ds r
    → Opened node (d ∷ ds) (r.0, d ∷ r.1)
Opened-cons node d ds r h (taken i below free before) =
    taken (suc i) (omega arith) free (still_used d ds i h before)
Opened-cons node d ds r h (full before) = full (still_used d ds (length ds) h before)

-- The first descriptor whose mask is 0 becomes that of the node and the others stay; if there is none,
-- no descriptor changes and the node is not opened.
pub open_in_lem : (node : FsNode) (ds : List Descriptor) → Opened node ds (open_in node ds)
unfolding open_in
open_in_lem node [] = full (λ j below. absurd (omega (arith, below)))
open_in_lem node (d ∷ ds) = elim (Bool-cases (d.mask == 0)) [
  | inl free ↦
      rw free (
        taken 0 (omega arith) ((==_iff d.mask 0).0 free) (λ j below. absurd (omega (arith, below))))
  | inr used ↦
      rw used (
        Opened-cons node d ds (open_in node ds) (λ e. ground (arith, used, e))
          (open_in_lem node ds))
]
