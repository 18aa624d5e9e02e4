-- ===== src/Alloc/Layout/Rows.antt =====
-- Rows of blocks behind one another.
use venus_scheduler.Prelude.{ℕ, ◌+◌, ◌≡◌, refl, ◌||◌, List, [], ◌∷◌, ◌++◌, arith}
use venus_scheduler.Alloc.Block.{Memory}
use venus_scheduler.Alloc.Layout.{Tile, Tiled, starts, free_starts, boundary, free_count}

-- Where a row that starts at `a` ends.
abbrev pub extent : ℕ → List Tile → ℕ
extent a [] = a
extent a (t ∷ ts) = extent (a + t.size) ts

module _ (m : Memory) (rs : List Tile) (e : ℕ) where
  pub Tiled-split_at :
      (a : ℕ) (ls : List Tile)
      → Tiled m a (ls ++ rs) e
      → Tiled m a ls (extent a ls) × Tiled m (extent a ls) rs e
  Tiled-split_at a [] c = (refl, c)
  Tiled-split_at a (t ∷ ts) c = let r = Tiled-split_at (a + t.size) ts c.1 in ((c.0, r.0), r.1)

  pub Tiled-append :
      (a : ℕ) (ls : List Tile)
      → Tiled m a ls (extent a ls)
      → Tiled m (extent a ls) rs e
      → Tiled m a (ls ++ rs) e
  Tiled-append a [] c d = d
  Tiled-append a (t ∷ ts) c d = (c.0, Tiled-append (a + t.size) ts c.1 d)

pub free_starts-append :
    (y a : ℕ) (ls rs : List Tile)
    → free_starts y a (ls ++ rs) ≡ (free_starts y a ls || free_starts y (extent a ls) rs)
free_starts-append y a [] rs = refl
free_starts-append y a (t ∷ ts) rs = ground (arith, free_starts-append y (a + t.size) ts rs)

pub starts-append :
    (y a : ℕ) (ls rs : List Tile)
    → starts y a (ls ++ rs) ≡ (starts y a ls || starts y (extent a ls) rs)
starts-append y a [] rs = refl
starts-append y a (t ∷ ts) rs = ground (arith, starts-append y (a + t.size) ts rs)

pub boundary-append :
    (b a : ℕ) (ls rs : List Tile)
    → boundary b a (ls ++ rs) ≡ (boundary b a ls || boundary b (extent a ls) rs)
boundary-append b a [] rs = refl
boundary-append b a (t ∷ ts) rs = ground (arith, boundary-append b (a + t.size) ts rs)

pub free_count-append : (ls rs : List Tile) → free_count (ls ++ rs) ≡ free_count ls + free_count rs
free_count-append [] rs = omega arith
free_count-append (t ∷ ts) rs = ground (arith, free_count-append ts rs)
