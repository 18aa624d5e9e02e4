-- ===== src/Alloc/Layout/Tiles.antt =====
-- Where the boundary words and the links of a row of blocks stand.
use venus_scheduler.Prelude.{
  ℕ, ◌+◌, ◌-◌, ◌*◌, ◌<◌, ◌≤◌, ◌≡◌, ◌≢◌, true, List, [], ◌∷◌, ◌==◌, arith, Bool-cases, inl, inr,
  eq_of_==, ◌∙◌, sym,
}
use mathlib.Core.Path.{subst}
use venus_scheduler.Alloc.Block.{Memory, get_blocksize}
use venus_scheduler.Alloc.Block.Words.{IsMemory, get_blocksize_lem}
use venus_scheduler.Alloc.Malloc.Split.{IsBlock, keep-Boundary}
use venus_scheduler.Alloc.Layout.{Tile, flag_of, Tiled, starts, free_starts, boundary, free_count}

pub keep-IsBlock :
    {m g : Memory} {a size flag : ℕ}
    → IsBlock m a size flag
    → g a ≡ m a
    → g (a + size - 4) ≡ m (a + size - 4)
    → IsBlock g a size flag
keep-IsBlock b e f = record {
  place = b.place;
  least = b.least;
  head = keep-Boundary b.head e;
  foot = keep-Boundary b.foot f;
}

pub starts-of_free : (y a : ℕ) (ts : List Tile) → free_starts y a ts ≡ true → starts y a ts ≡ true
starts-of_free y a [] i = i
starts-of_free y a (t ∷ ts) i = ground (arith, starts-of_free y (a + t.size) ts)

module _ (m : Memory) (e : ℕ) where
  pub Tiled-le : (a : ℕ) (ts : List Tile) → Tiled m a ts e → a ≤ e
  Tiled-le a [] c = omega arith
  Tiled-le a (t ∷ ts) c = omega (arith, Tiled-le (a + t.size) ts c.1)

  pub starts-bounds :
      (y a : ℕ) (ts : List Tile) → Tiled m a ts e → starts y a ts ≡ true → (a ≤ y) × (y + 16 ≤ e)
  starts-bounds y a [] c i = absurd (ground arith)
  starts-bounds y a (t ∷ ts) c i = elim (Bool-cases (y == a)) [
    | inl here ↦ omega (arith, c.0.least, eq_of_== y a here, Tiled-le (a + t.size) ts c.1)
    | inr there ↦ let r = starts-bounds y (a + t.size) ts c.1 (ground arith) in omega (arith, r)
  ]

  pub boundary-bounds :
      (b a : ℕ) (ts : List Tile) → Tiled m a ts e → boundary b a ts ≡ true → (a ≤ b) × (b < e)
  boundary-bounds b a [] c i = absurd (ground arith)
  boundary-bounds b a (t ∷ ts) c i = elim (Bool-cases (boundary b (a + t.size) ts)) [
    | inl there ↦ omega (arith, boundary-bounds b (a + t.size) ts c.1 there)
    | inr out ↦ ground (arith, c.0.least, Tiled-le (a + t.size) ts c.1)
  ]

  -- The two words behind a header are no boundary words.
  pub links-apart :
      (y b a : ℕ) (ts : List Tile)
      → Tiled m a ts e
      → starts y a ts ≡ true
      → boundary b a ts ≡ true
      → (b ≢ y + 4) × (b ≢ y + 8)
  links-apart y b a [] c i j = absurd (ground arith)
  links-apart y b a (t ∷ ts) c i j = elim (Bool-cases (starts y (a + t.size) ts)) [
    | inl later ↦ elim (Bool-cases (boundary b (a + t.size) ts)) [
      | inl there ↦ links-apart y b (a + t.size) ts c.1 later there
      | inr out ↦ ground (arith, c.0.least, starts-bounds y (a + t.size) ts c.1 later)
    ]
    | inr here ↦ elim (Bool-cases (boundary b (a + t.size) ts)) [
      | inl there ↦ ground (arith, c.0.least, boundary-bounds b (a + t.size) ts c.1 there)
      | inr out ↦ ground (arith, c.0.least)
    ]
  ]

  -- Each free block takes sixteen bytes or more.
  pub free_count-bound : (a : ℕ) (ts : List Tile) → Tiled m a ts e → a + 16 * free_count ts ≤ e
  free_count-bound a [] c = omega arith
  free_count-bound a (t ∷ ts) c = ground (arith, c.0.least, free_count-bound (a + t.size) ts c.1)

-- A row of blocks survives a change of memory that spares its boundary words.
pub keep-Tiled :
    (m g : Memory) (e a : ℕ) (ts : List Tile)
    → Tiled m a ts e
    → ((b : ℕ) → boundary b a ts ≡ true → g b ≡ m b)
    → Tiled g a ts e
keep-Tiled m g e a [] c same = c
keep-Tiled m g e a (t ∷ ts) c same = (
  keep-IsBlock c.0 (same a (ground arith)) (same (a + t.size - 4) (ground arith)),
  keep-Tiled m g e (a + t.size) ts c.1 (λ b i. same b (ground arith)),
)

-- The block that starts at a free start is free.
pub free_start-IsBlock :
    (m : Memory) (e y a : ℕ) (ts : List Tile)
    → IsMemory m
    → Tiled m a ts e
    → free_starts y a ts ≡ true
    → IsBlock m y (get_blocksize m y) 0
free_start-IsBlock m e y a [] w c i = absurd (ground arith)
free_start-IsBlock m e y a (t ∷ ts) w c i = elim (Bool-cases (free_starts y (a + t.size) ts)) [
  | inl there ↦ free_start-IsBlock m e y (a + t.size) ts w c.1 there
  | inr out ↦
      let here : y ≡ a = ground arith in
      let free : flag_of t.used ≡ 0 = ground arith in
      let block = subst (IsBlock m a t.size) free c.0 in
      subst (λ x. IsBlock m x (get_blocksize m x) 0) (sym here)
        (subst (λ n. IsBlock m a n 0) (sym (get_blocksize_lem a w ∙ block.head.size_bits)) block)
]
