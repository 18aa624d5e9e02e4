-- ===== src/Alloc/Layout/Split.antt =====
-- A row of blocks of which one is split.
use venus_scheduler.Prelude.{
  ℕ, ◌+◌, ◌-◌, ◌≤◌, ◌≡◌, refl, true, not, ◌&&◌, ◌||◌, List, [], ◌∷◌, ◌==◌, arith, Bool-cases, inl,
  inr,
}
use venus_scheduler.Alloc.Block.{Memory}
use venus_scheduler.Alloc.Layout.{
  Tile, Tiled, starts, free_starts, boundary, free_count, tile_size, split_tile,
}
use venus_scheduler.Alloc.Layout.Tiles.{starts-bounds, starts-of_free}

module _ (x request : ℕ) (least : 16 ≤ request) where
  pub rejoin : (a size : ℕ) → request + 16 ≤ size → a + request + (size - request) ≡ a + size
  rejoin a size room = omega arith

  -- What starts a block still does.
  pub starts-split_old :
      (y a : ℕ) (ts : List Tile)
      → request + 16 ≤ tile_size x a ts
      → starts y a ts ≡ true
      → starts y a (split_tile x request a ts) ≡ true
  starts-split_old y a [] room i = i
  starts-split_old y a (t ∷ ts) room i = elim (Bool-cases (x == a)) [
    | inl here ↦ rw (here, rejoin a t.size (ground arith)) (ground arith)
    | inr there ↦ rw there (ground (arith, starts-split_old y (a + t.size) ts (ground arith)))
  ]

  -- The rest starts one too.
  pub starts-split_new :
      (a : ℕ) (ts : List Tile)
      → request + 16 ≤ tile_size x a ts
      → starts (x + request) a (split_tile x request a ts) ≡ true
  starts-split_new a [] room = absurd (omega arith)
  starts-split_new a (t ∷ ts) room = elim (Bool-cases (x == a)) [
    | inl here ↦ rw here (ground arith)
    | inr there ↦ rw there (ground (arith, starts-split_new (a + t.size) ts (ground arith)))
  ]

  -- The boundary words of both parts are boundary words of the row.
  pub boundary-split :
      (a : ℕ) (ts : List Tile)
      → request + 16 ≤ tile_size x a ts
      → let row = split_tile x request a ts in
        (boundary x a row ≡ true)
        × (boundary (x + request - 4) a row ≡ true)
        × (boundary (x + request) a row ≡ true)
        × (boundary (x + tile_size x a ts - 4) a row ≡ true)
  boundary-split a [] room = absurd (omega arith)
  boundary-split a (t ∷ ts) room = elim (Bool-cases (x == a)) [
    | inl here ↦ rw (here, rejoin a t.size (ground arith)) (ground arith)
    | inr there ↦
        let rest = boundary-split (a + t.size) ts (ground arith) in rw there (ground (arith, rest))
  ]

  module _ (m : Memory) (e : ℕ) where
    -- The rest takes the place of the block among the free ones.
    pub free_starts-split :
        (y a : ℕ) (ts : List Tile)
        → Tiled m a ts e
        → free_starts x a ts ≡ true
        → request + 16 ≤ tile_size x a ts
        → free_starts y a (split_tile x request a ts)
          ≡ ((y == x + request) || (not (y == x) && free_starts y a ts))
    free_starts-split y a [] c i room = absurd (ground arith)
    free_starts-split y a (t ∷ ts) c i room = elim (Bool-cases (x == a)) [
      | inl here ↦
          rw (here, rejoin a t.size (ground arith))
            (ground (
              arith,
              starts-bounds m e y (a + t.size) ts c.1,
              starts-of_free y (a + t.size) ts,
              c.0.least,
            ))
      | inr there ↦
          rw there
            (ground (arith, free_starts-split y (a + t.size) ts c.1 (ground arith) (ground arith)))
    ]

    -- The count of free blocks stays.
    pub free_count-split :
        (a : ℕ) (ts : List Tile)
        → Tiled m a ts e
        → free_starts x a ts ≡ true
        → free_count (split_tile x request a ts) ≡ free_count ts
    free_count-split a [] c i = refl
    free_count-split a (t ∷ ts) c i = elim (Bool-cases (x == a)) [
      | inl here ↦ rw here (
          ground (
            arith,
            starts-bounds m e x (a + t.size) ts c.1,
            starts-of_free x (a + t.size) ts,
            c.0.least,
          ))
      | inr there ↦ rw there (ground (arith, free_count-split (a + t.size) ts c.1 (ground arith)))
    ]
