-- ===== src/Memory/Frames/Pages.antt =====
-- The frame that a page is given, and what is left when it is freed.
use so2c2011tp.Prelude.{
  ℕ, ◌*◌, ◌/◌, ◌%◌, ◌^◌, ◌≤◌, ◌<◌, ◌≡◌, ◌≢◌, refl, sym, ap, ◌∙◌, inl, inr, Option, none, some, List,
  arith, length, ◌==◌, if◌then◌else◌, set, get_or, Bool-cases, ==_iff, get_or-set_self,
  get_or-set_ne,
}
use so2c2011tp.Memory.Frames.{
  Page, digit, word_of, set_frame, clear_frame, first_from, first_frame, alloc_frame, free_frame,
}
use so2c2011tp.Memory.Frames.Digits.{digit-or_digit_self, digit-or_digit_ne, digit-and_not_digit_ne}
use so2c2011tp.Memory.Frames.Laws.{used, FreeFrame, frame_free, frames_used, first_from_lem}

-- A word is changed that holds the bit of frame `f`, or is not that of frame `g`.
used-set_ne :
    (frames : List ℕ) (f g v : ℕ)
    → g ≢ f
    → (g % 32 ≢ f % 32 → digit v (g % 32) ≡ digit (word_of frames f) (g % 32))
    → f / 32 < length frames
    → used (set frames (f / 32) v) g ≡ used frames g
used-set_ne frames f g v apart keeps below = elim (Bool-cases (g / 32 == f / 32)) [
  | inl same ↦
      (let i : g / 32 ≡ f / 32 = (==_iff (g / 32) (f / 32)).0 same in
        ap (λ k. digit (get_or (set frames (f / 32) v) k 0) (g % 32)) i
        ∙ ap (λ w. digit w (g % 32)) (get_or-set_self frames (f / 32) v 0 below)
        ∙ keeps (λ e. apart (omega arith))
        ∙ ap (λ k. digit (get_or frames k 0) (g % 32)) (sym i))
  | inr other ↦
      ap (λ w. digit w (g % 32)) (get_or-set_ne frames v 0 (λ e. ground (arith, other, e)))
]

set_frame-used :
    (frames : List ℕ) (f addr : ℕ)
    → addr / 0x1000 ≡ f
    → f / 32 < length frames
    → (used (set_frame frames addr) f ≡ 1)
      × ((g : ℕ) → g ≢ f → used (set_frame frames addr) g ≡ used frames g)
unfolding set_frame
set_frame-used frames f addr e below = rw e (
  ap (λ w. digit w (f % 32)) (get_or-set_self frames (f / 32) _ 0 below)
      ∙ digit-or_digit_self (f % 32) (word_of frames f),
  λ g apart.
      used-set_ne frames f g _ apart (λ h. digit-or_digit_ne (g % 32) (f % 32) (word_of frames f) h)
        below,
)

-- What `alloc_frame` does for a page without a frame.
pub data Given (frames : List ℕ) (nframes is_writeable : ℕ) : Option (Page × List ℕ) → Type 0 where
  given :
      (f : ℕ) (frames' : List ℕ)
      → f < nframes / 32 * 32
      → used frames f ≡ 0
      → ((g : ℕ) → g < f → used frames g ≢ 0)
      → used frames' f ≡ 1
      → ((g : ℕ) → g ≢ f → used frames' g ≡ used frames g)
      → Given frames nframes is_writeable (
          some (
            record { present = 1; rw = if is_writeable == 0 then 0 else 1; user = 0; frame = f },
            frames',
          ))
  halted :
      ((g : ℕ) → g < nframes / 32 * 32 → used frames g ≢ 0) → Given frames nframes is_writeable none

alloc_lem :
    (frames : List ℕ) (nframes : ℕ) (page : Page) (wr : ℕ) (o : Option ℕ)
    → nframes ≤ 2 ^ 20
    → nframes / 32 ≤ length frames
    → FreeFrame frames 0 (nframes / 32) o
    → Given frames nframes wr (elim o [
      | none ↦ none
      | some idx ↦ some (
        record { present = 1; rw = if wr == 0 then 0 else 1; user = 0; frame = idx % 2 ^ 20 },
        set_frame frames (idx * 0x1000 % 2 ^ 32),
      )
    ])
alloc_lem frames nframes page wr _ n len (frame_free f below free before) =
    let (own, others) = set_frame-used frames f (f * 0x1000 % 2 ^ 32) (omega arith) (omega arith) in
    rw (modulo f (omega arith))
      (given f _ (omega arith) free (λ g h. before g (omega arith) h) own others)
  where
    modulo : (k : ℕ) → k < 2 ^ 20 → k % 2 ^ 20 ≡ k
    modulo k h = omega arith
alloc_lem frames nframes page wr _ n len (frames_used all) =
    halted (λ g h. all g (omega arith) (omega arith))

-- With at most 2 ^ 20 frames and a word of the bitset for each 32, a page without a frame is given the
-- first whose bit is 0, is present, and may be written as asked; of the bitset only this bit changes,
-- to 1. The kernel halts only if every bit is 1.
pub alloc_frame_lem :
    (frames : List ℕ) (nframes : ℕ) (page : Page) (is_writeable : ℕ)
    → page.frame ≡ 0
    → nframes ≤ 2 ^ 20
    → nframes / 32 ≤ length frames
    → Given frames nframes is_writeable (alloc_frame frames nframes page is_writeable)
unfolding alloc_frame first_frame
alloc_frame_lem frames nframes page is_writeable e n len = rw e (
    alloc_lem frames nframes page is_writeable (first_from (nframes / 32) 0 frames) n len
      (first_from_lem (nframes / 32) 0 frames))

-- `free_frame` of a page with frame `f` other than 0 takes the frame from the page, but leaves the bit
-- of the frame in the bitset as it was.
pub free_frame_leaks :
    (frames : List ℕ) (page : Page)
    → page.frame ≢ 0
    → page.frame / 32 < length frames
    → ((free_frame frames page).0.frame ≡ 0)
      × (used (free_frame frames page).1 page.frame ≡ used frames page.frame)
unfolding free_frame clear_frame
free_frame_leaks frames page h below = elim (Bool-cases (page.frame == 0)) [
  | inl none_there ↦ absurd (h ((==_iff page.frame 0).0 none_there))
  | inr there ↦ rw there (
    refl,
    used-set_ne frames (page.frame / 0x1000) page.frame _ (omega arith)
        (λ k.
          digit-and_not_digit_ne (page.frame % 32) (page.frame / 0x1000 % 32)
            (word_of frames (page.frame / 0x1000)) k)
        (omega arith),
  )
]
