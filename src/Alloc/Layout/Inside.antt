-- ===== src/Alloc/Layout/Inside.antt =====
-- The words inside the free blocks of a row.
use venus_scheduler.Prelude.{
  ℕ, ◌+◌, ◌<◌, ◌≤◌, ◌≡◌, true, List, [], ◌∷◌, ◌==◌, arith, Bool-cases, inl, inr,
}
use venus_scheduler.Alloc.Block.{Memory}
use venus_scheduler.Alloc.Layout.{Tile, Tiled, free_starts, in_free, tile_size}
use venus_scheduler.Alloc.Layout.Tiles.{Tiled-le, starts-bounds, starts-of_free}

module _ (m : Memory) (e : ℕ) where
  pub in_free-bounds :
      (b a : ℕ) (ts : List Tile) → Tiled m a ts e → in_free b a ts ≡ true → (a ≤ b) × (b < e)
  in_free-bounds b a [] c i = absurd (ground arith)
  in_free-bounds b a (t ∷ ts) c i = elim (Bool-cases (in_free b (a + t.size) ts)) [
    | inl there ↦ omega (arith, in_free-bounds b (a + t.size) ts c.1 there)
    | inr out ↦ ground (arith, Tiled-le m e (a + t.size) ts c.1)
  ]

  -- The words of a free block are among them.
  pub in_free-of_start :
      (y b a : ℕ) (ts : List Tile)
      → Tiled m a ts e
      → free_starts y a ts ≡ true
      → y ≤ b
      → b < y + tile_size y a ts
      → in_free b a ts ≡ true
  in_free-of_start y b a [] c i low high = absurd (ground arith)
  in_free-of_start y b a (t ∷ ts) c i low high = elim (Bool-cases (y == a)) [
    | inl here ↦ ground (
      arith,
      c.0.least,
      starts-bounds m e y (a + t.size) ts c.1,
      starts-of_free y (a + t.size) ts,
    )
    | inr there ↦
        let rest = in_free-of_start y b (a + t.size) ts c.1 (ground arith) low (ground arith) in
        ground arith
  ]
