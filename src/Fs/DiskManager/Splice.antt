-- ===== src/Fs/DiskManager/Splice.antt =====
-- The bytes of a file after a write inside or at the end of them.
use so2c2011tp.Prelude.{
  ℕ, ◌+◌, ◌-◌, ◌≤◌, ◌≡◌, inl, inr, ap, ◌∙◌, ◌&&◌, List, ◌++◌, arith, length, ltb, leb,
  if◌then◌else◌, Bool-cases, get_or, get_or-append, get_or-take, get_or-drop, take, drop,
  length-append, length-take, length-drop, max, ext_get_or,
}

abbrev pub splice : List ℕ → ℕ → List ℕ → List ℕ
splice content o msg = take o content ++ (msg ++ drop (o + length msg) content)

pub length-splice :
    (content : List ℕ) (o : ℕ) (msg : List ℕ)
    → o ≤ length content
    → length (splice content o msg) ≡ max (length content) (o + length msg)
length-splice content o msg h = omega (
  arith,
  length-append (take o content) (msg ++ drop (o + length msg) content),
  length-append msg (drop (o + length msg) content),
  length-take o content,
  length-drop (o + length msg) content,
)

pub get_or-splice :
    (content : List ℕ) (o : ℕ) (msg : List ℕ) (j : ℕ)
    → o ≤ length content
    → get_or (splice content o msg) j 0
      ≡ (if leb o j && ltb j (o + length msg) then get_or msg (j - o) 0 else get_or content j 0)
get_or-splice content o msg j h = elim (Bool-cases (ltb j o)) [
  | inl before ↦ ground (
    arith,
    get_or-append (take o content) (msg ++ drop (o + length msg) content) j 0,
    length-take o content,
    get_or-take o content j 0,
  )
  | inr after ↦ ground (
    arith,
    get_or-append (take o content) (msg ++ drop (o + length msg) content) j 0,
    length-take o content,
    ap (λ i. get_or (msg ++ drop (o + length msg) content) i 0) {x = j - length (take o content)}
        {y = j - o} (omega (arith, length-take o content)),
    get_or-append msg (drop (o + length msg) content) (j - o) 0,
    get_or-drop (o + length msg) content (j - o - length msg) 0,
    λ (p : o + length msg ≤ j).
        ap (λ i. get_or content i 0) {x = o + length msg + (j - o - length msg)} {y = j}
          (omega arith),
  )
]

pub take-drop-splice :
    (content : List ℕ) (o : ℕ) (msg : List ℕ)
    → o ≤ length content
    → take (length msg) (drop o (splice content o msg)) ≡ msg
take-drop-splice content o msg h = ext_get_or 0 _ msg count (λ k p.
    get_or-take (length msg) (drop o (splice content o msg)) k 0 (omega (arith, count))
    ∙ get_or-drop o (splice content o msg) k 0
    ∙ get_or-splice content o msg (o + k) h
    ∙ ground (arith, count, ap (λ n. get_or msg n 0) {x = o + k - o} {y = k} (omega arith)))
  where
    count : length (take (length msg) (drop o (splice content o msg))) ≡ length msg
    count = omega (
      arith,
      length-take (length msg) (drop o (splice content o msg)),
      length-drop o (splice content o msg),
      length-splice content o msg h,
    )
