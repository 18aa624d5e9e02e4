-- ===== src/Alloc/Layout/Pieces.antt =====
-- The memory of a row of blocks of which one is split.
use venus_scheduler.Prelude.{
  ℕ, ◌+◌, ◌-◌, ◌<◌, ◌≤◌, ◌≡◌, ◌≢◌, refl, true, false, List, [], ◌∷◌, ◌==◌, arith, Bool-cases, inl,
  inr, eq_of_==, ◌∙◌, sym, ap,
}
use mathlib.Core.Path.{subst}
use venus_scheduler.Alloc.Block.{Memory, get_blocksize}
use venus_scheduler.Alloc.Block.Words.{IsMemory, get_blocksize_lem}
use venus_scheduler.Alloc.Malloc.Split.{IsBlock}
use venus_scheduler.Alloc.Layout.{Tile, Tiled, starts, boundary, tile_size, split_tile}
use venus_scheduler.Alloc.Layout.Tiles.{
  keep-IsBlock, Tiled-le, starts-bounds, keep-Tiled, boundary-bounds,
}
use venus_scheduler.Alloc.Layout.Split.{rejoin}

module _ (m : Memory) (e x : ℕ) where
  pub tile_size-bounds :
      (a : ℕ) (ts : List Tile)
      → Tiled m a ts e
      → 0 < tile_size x a ts
      → (a ≤ x) × (x + tile_size x a ts ≤ e)
  tile_size-bounds a [] c pos = absurd (omega arith)
  tile_size-bounds a (t ∷ ts) c pos = elim (Bool-cases (x == a)) [
    | inl here ↦ rw here (omega (arith, eq_of_== x a here, Tiled-le m e (a + t.size) ts c.1))
    | inr there ↦
        let r = tile_size-bounds (a + t.size) ts c.1 (ground arith) in rw there (omega (arith, r))
  ]

  -- It is the size in the header.
  pub tile_size-blocksize :
      (a : ℕ) (ts : List Tile)
      → IsMemory m
      → Tiled m a ts e
      → starts x a ts ≡ true
      → tile_size x a ts ≡ get_blocksize m x
  tile_size-blocksize a [] w c i = absurd (ground arith)
  tile_size-blocksize a (t ∷ ts) w c i = elim (Bool-cases (x == a)) [
    | inl here ↦ rw here (
        sym (ap (get_blocksize m) (eq_of_== x a here) ∙ get_blocksize_lem a w ∙ c.0.head.size_bits))
    | inr there ↦ rw there (tile_size-blocksize (a + t.size) ts w c.1 (ground arith))
  ]

  -- No block starts inside another.
  pub starts-inside :
      (d a : ℕ) (ts : List Tile)
      → Tiled m a ts e
      → 0 < d
      → d < tile_size x a ts
      → starts (x + d) a ts ≡ false
  starts-inside d a [] c pos less = refl
  starts-inside d a (t ∷ ts) c pos less = elim (Bool-cases (x == a)) [
    | inl here ↦ ground (arith, starts-bounds m e (x + d) (a + t.size) ts c.1)
    | inr there ↦
        let later = tile_size-bounds (a + t.size) ts c.1 (ground arith) in
        ground (arith, later, starts-inside d (a + t.size) ts c.1 pos (ground arith))
  ]

module _ (m g : Memory) (e x request : ℕ) (least : 16 ≤ request) where
  -- `g` differs from `m` at most in the boundary words of the two parts.
  abbrev Splits : ℕ → Type 0
  Splits size =
      IsBlock g x request 1
      × IsBlock g (x + request) (size - request) 0
      × ((b : ℕ) → b ≢ x → b ≢ x + request - 4 → b ≢ x + request → b ≢ x + size - 4 → g b ≡ m b)

  split_here :
      (t : Tile) (ts : List Tile)
      → Tiled m x (t ∷ ts) e
      → request + 16 ≤ t.size
      → Splits t.size
      → Tiled g x
          (record { size = request; used = true }
            ∷ record { size = t.size - request; used = false }
            ∷ ts)
          e
  split_here t ts c room sp = (
    sp.0,
    (
      sp.1,
      subst (λ z. Tiled g z ts e) (sym (rejoin x request least x t.size room))
          (keep-Tiled m g e (x + t.size) ts c.1 later),
    ),
  )
    where
      later : (b : ℕ) → boundary b (x + t.size) ts ≡ true → g b ≡ m b
      later b i =
          let r = boundary-bounds m e b (x + t.size) ts c.1 i in
          sp.2 b (omega arith) (omega arith) (omega arith) (omega arith)

  pub Tiled-split :
      (a : ℕ) (ts : List Tile)
      → Tiled m a ts e
      → request + 16 ≤ tile_size x a ts
      → Splits (tile_size x a ts)
      → Tiled g a (split_tile x request a ts) e
  Tiled-split a [] c room sp = absurd (omega arith)
  Tiled-split a (t ∷ ts) c room sp = elim (Bool-cases (x == a)) [
    | inl here ↦
        let same : tile_size x a (t ∷ ts) ≡ t.size = rw here refl in
        let row =
          record { size = request; used = true }
          ∷ record { size = t.size - request; used = false }
          ∷ ts in
        rw here (
          subst (λ z. Tiled m z (t ∷ ts) e → Tiled g z row e) (eq_of_== x a here)
            (λ c1. split_here t ts c1 (omega (arith, same)) (subst Splits same sp)) c)
    | inr there ↦
        let same : tile_size x a (t ∷ ts) ≡ tile_size x (a + t.size) ts = rw there refl in
        let (front, back, kept) = subst Splits same sp in
        let r = tile_size-bounds m e x (a + t.size) ts c.1 (omega (arith, same)) in
        let low : (b : ℕ) → b < a + t.size → g b ≡ m b = λ b less.
          kept b (omega arith) (omega (arith, same)) (omega arith) (omega (arith, same)) in
        rw there (
          keep-IsBlock c.0 (low a (omega (arith, c.0.least)))
              (low (a + t.size - 4) (omega (arith, c.0.least))),
          Tiled-split (a + t.size) ts c.1 (omega (arith, same)) (front, back, kept),
        )
  ]
