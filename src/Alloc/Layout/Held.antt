-- ===== src/Alloc/Layout/Held.antt =====
-- Where the allocated blocks of a row stand, before and after a block is split or freed.
use venus_scheduler.Prelude.{
  ℕ, ◌+◌, ◌-◌, ◌≤◌, ◌≡◌, ◌≢◌, refl, sym, ap, ◌∙◌, Bool, true, false, ◌&&◌, ◌||◌, List, [], ◌∷◌,
  ◌++◌, ◌==◌, arith, Bool-cases, inl, inr, if◌then◌else◌,
}
use venus_scheduler.Alloc.Block.{Memory}
use venus_scheduler.Alloc.Layout.{Tile, Tiled, free_starts, split_tile}
use venus_scheduler.Alloc.Layout.Tiles.{starts-bounds, starts-of_free}
use venus_scheduler.Alloc.Layout.Rows.{extent}
use venus_scheduler.Alloc.Layout.Release.{used}
use venus_scheduler.Alloc.Layout.Dispatch.{
  onto, onto-append, place_of, place-next, joined, released,
}

-- Whether an allocated block starts at `y`.
abbrev pub used_starts : ℕ → ℕ → List Tile → Bool
used_starts y a [] = false
used_starts y a (t ∷ ts) = ((y == a) && t.used) || used_starts y (a + t.size) ts

pub Tiled-extent : (m : Memory) (e a : ℕ) (ts : List Tile) → Tiled m a ts e → extent a ts ≡ e
Tiled-extent m e a [] c = c
Tiled-extent m e a (t ∷ ts) c = Tiled-extent m e (a + t.size) ts c.1

extent-injective : (a b : ℕ) (ts : List Tile) → extent a ts ≡ extent b ts → a ≡ b
extent-injective a b [] e = e
extent-injective a b (t ∷ ts) e = omega (arith, extent-injective (a + t.size) (b + t.size) ts e)

used_starts-of :
    (m : Memory) (e y a : ℕ) (ts : List Tile) → Tiled m a ts e → used_starts y a ts ≡ true → a ≤ y
used_starts-of m e y a [] c i = absurd (ground arith)
used_starts-of m e y a (t ∷ ts) c i = elim (Bool-cases (y == a)) [
  | inl here ↦ ground arith
  | inr there ↦ omega (arith, used_starts-of m e y (a + t.size) ts c.1 (ground arith))
]

-- A block that is free is not allocated.
pub used-not_free :
    (m : Memory) (e y a : ℕ) (ts : List Tile)
    → Tiled m a ts e
    → free_starts y a ts ≡ true
    → used_starts y a ts ≡ false
used-not_free m e y a [] c i = refl
used-not_free m e y a (t ∷ ts) c i = elim (Bool-cases (y == a)) [
  | inl here ↦ elim (Bool-cases (used_starts y (a + t.size) ts)) [
    | inl later ↦ absurd (ground (arith, used_starts-of m e y (a + t.size) ts c.1 later, c.0.least))
    | inr none_later ↦ ground (
      arith,
      c.0.least,
      starts-bounds m e y (a + t.size) ts c.1,
      starts-of_free y (a + t.size) ts,
    )
  ]
  | inr there ↦ ground (arith, used-not_free m e y (a + t.size) ts c.1 (ground arith))
]

-- Splitting a free block keeps the allocated ones, and adds its front.
pub used_starts-split :
    (m : Memory) (e x request a : ℕ) (ts : List Tile)
    → Tiled m a ts e
    → free_starts x a ts ≡ true
    → extent a (split_tile x request a ts) ≡ extent a ts
    → (used_starts x a (split_tile x request a ts) ≡ true)
      × ((y : ℕ) → used_starts y a ts ≡ true → used_starts y a (split_tile x request a ts) ≡ true)
used_starts-split m e x request a [] c i same = absurd (ground arith)
used_starts-split m e x request a (t ∷ ts) c i same = elim (Bool-cases (x == a)) [
  | inl here ↦
      let ends : a + request + (t.size - request) ≡ a + t.size =
        extent-injective (a + request + (t.size - request)) (a + t.size) ts (rw here at same) in
      let was_free = used-not_free m e x a (t ∷ ts) c i in
      (rw here (ground arith), λ y i'. rw (here, ends) (ground (arith, was_free)))
  | inr there ↦
      let rest =
        used_starts-split m e x request (a + t.size) ts c.1 (ground arith) (rw there at same) in
      (rw there (ground (arith, rest.0)), λ y i'. rw there (ground (arith, rest.1 y)))
]

pub used_starts-append :
    (y a : ℕ) (ls rs : List Tile)
    → used_starts y a (ls ++ rs) ≡ (used_starts y a ls || used_starts y (extent a ls) rs)
used_starts-append y a [] rs = refl
used_starts-append y a (t ∷ ts) rs = ground (arith, used_starts-append y (a + t.size) ts rs)

used_starts-onto :
    (y lo : ℕ) (ls rs : List Tile)
    → used_starts y (lo + 12) (onto ls rs)
      ≡ (used_starts y (lo + 12) (onto ls []) || used_starts y (place_of lo ls) rs)
used_starts-onto y lo ls rs =
    ap (used_starts y (lo + 12)) (onto-append ls [] rs)
    ∙ used_starts-append y (lo + 12) (onto ls []) rs

used_starts-joined :
    (y a n : ℕ) (rs : List Tile)
    → used_starts y (a + n) rs ≡ true
    → used_starts y a (joined n rs) ≡ true
used_starts-joined y a n [] i = absurd (ground arith)
used_starts-joined y a n (t ∷ ts) i = elim (Bool-cases t.used) [
  | inl in_use ↦ rw in_use (ground arith)
  | inr free ↦
      let at : a + (n + t.size) ≡ a + n + t.size = omega arith in rw (free, at) (ground arith)
]

-- Freeing a block keeps the other allocated ones.
pub used_starts-released :
    (y lo n : ℕ) (ls rs : List Tile)
    → y ≢ place_of lo ls
    → used_starts y (lo + 12) (onto ls (used n ∷ rs)) ≡ true
    → used_starts y (lo + 12) (released ls n rs) ≡ true
used_starts-released y lo n [] rs ne i = used_starts-joined y (lo + 12) n rs (ground arith)
used_starts-released y lo n (l ∷ ls) rs ne i = elim (Bool-cases l.used) [
  | inl in_use ↦
      let before = sym (used_starts-onto y lo (l ∷ ls) (used n ∷ rs)) ∙ i in
      let opened : released (l ∷ ls) n rs ≡ onto (l ∷ ls) (joined n rs) =
        ap (λ u. if u then onto (l ∷ ls) (joined n rs) else onto ls (joined (l.size + n) rs))
          in_use in
      ap (used_starts y (lo + 12)) opened
      ∙ (used_starts-onto y lo (l ∷ ls) (joined n rs)
          ∙ ground (arith, before, used_starts-joined y (place_of lo (l ∷ ls)) n rs))
  | inr free ↦
      let before = sym (used_starts-onto y lo ls (l ∷ used n ∷ rs)) ∙ i in
      let next = place-next lo l ls in
      let at : place_of lo ls + (l.size + n) ≡ place_of lo ls + l.size + n = omega arith in
      let later = used_starts-joined y (place_of lo ls) (l.size + n) rs in
      let opened : released (l ∷ ls) n rs ≡ onto ls (joined (l.size + n) rs) =
        ap (λ u. if u then onto (l ∷ ls) (joined n rs) else onto ls (joined (l.size + n) rs))
          free in
      ap (used_starts y (lo + 12)) opened
      ∙ (used_starts-onto y lo ls (joined (l.size + n) rs) ∙ ground (arith, before, rw at at later))
]

-- The row around an allocated block.
pub used_starts-around :
    (x lo a : ℕ) (ls ts : List Tile)
    → a ≡ place_of lo ls
    → used_starts x a ts ≡ true
    → (ms : List Tile) × (n : ℕ) × (rs : List Tile) × (onto ls ts ≡ onto ms (used n ∷ rs))
      × (place_of lo ms ≡ x)
used_starts-around x lo a ls [] e i = absurd (ground arith)
used_starts-around x lo a ls (t ∷ ts) e i = elim (Bool-cases ((x == a) && t.used)) [
  | inl here ↦
      let in_use : t.used ≡ true = ground arith in
      let tile : t ≡ used t.size = ap (λ u. record { size = t.size; used = u }) in_use in
      (ls, t.size, ts, ap (λ r. onto ls (r ∷ ts)) tile, ground arith)
  | inr there ↦
      used_starts-around x lo (a + t.size) (t ∷ ls) ts (omega (arith, place-next lo t ls))
        (ground arith)
]
