-- ===== src/Alloc/FreeList/Chain.antt =====
-- Runs of free blocks that are linked both ways.
use venus_scheduler.Prelude.{ℕ, ◌+◌, ◌-◌, ◌%◌, ◌^◌, ◌<◌, ◌≡◌, ◌≢◌, true, List, [], ◌∷◌, ◌++◌, arith}
use venus_scheduler.Prelude.{has, Distinct, last_or, has-last}
use venus_scheduler.Alloc.Block.{Memory}

-- Headers stand four past a multiple of eight, so that no link of one is a link of another.
abbrev pub IsNode : ℕ → Type 0
IsNode x = (x % 8 ≡ 4) × (x < 2 ^ 32 - 8)

abbrev pub AllNodes : List ℕ → Type 0
AllNodes [] = Unit
AllNodes (x ∷ xs) = IsNode x × AllNodes xs

-- `b` follows `a`: predecessor at +4, successor at +8.
abbrev pub Linked : Memory → ℕ → ℕ → Type 0
Linked m a b = (m (a + 8) ≡ b) × (m (b + 4) ≡ a)

-- From `a` through `xs` to `b`. A ring is a chain from its head to its head.
abbrev pub Chain : Memory → ℕ → List ℕ → ℕ → Type 0
Chain m a [] b = Linked m a b
Chain m a (x ∷ xs) b = Linked m a x × Chain m x xs b

pub IsNode-of_has : (xs : List ℕ) (y : ℕ) → AllNodes xs → has y xs ≡ true → IsNode y
IsNode-of_has [] y nodes i = absurd (ground arith)
IsNode-of_has (x ∷ xs) y nodes i = ground (arith, IsNode-of_has xs y)

pub last-prev :
    (m : Memory) (a : ℕ) (xs : List ℕ) (b : ℕ) → Chain m a xs b → m (b + 4) ≡ last_or a xs
last-prev m a [] b c = c.1
last-prev m a (x ∷ xs) b c = last-prev m x xs b c.1

module _ (m g : Memory) where
  -- A chain survives a change of memory that spares its links, and its end can be led elsewhere.
  pub relink :
      (a : ℕ) (xs : List ℕ) (b n : ℕ)
      → Chain m a xs b
      → Distinct (a ∷ xs)
      → ((y : ℕ) → has y xs ≡ true → g (y + 4) ≡ m (y + 4))
      → ((y : ℕ) → has y (a ∷ xs) ≡ true → y ≢ last_or a xs → g (y + 8) ≡ m (y + 8))
      → Linked g (last_or a xs) n
      → Chain g a xs n
  relink a [] b n c d prevs nexts end = end
  relink a (x ∷ xs) b n c d prevs nexts end = (
    (ground (arith, nexts a, has-last x xs), ground (arith, prevs x)),
    relink x xs b n c.1 d.1 (λ y i. prevs y (ground arith)) (λ y i ne. nexts y (ground arith) ne)
        end,
  )

  pub frame :
      (a : ℕ) (xs : List ℕ) (b : ℕ)
      → Chain m a xs b
      → ((y : ℕ) → has y xs ≡ true → g (y + 4) ≡ m (y + 4))
      → ((y : ℕ) → has y (a ∷ xs) ≡ true → g (y + 8) ≡ m (y + 8))
      → g (b + 4) ≡ m (b + 4)
      → Chain g a xs b
  frame a [] b c prevs nexts end = ground (arith, nexts a)
  frame a (x ∷ xs) b c prevs nexts end = (
    (ground (arith, nexts a), ground (arith, prevs x)),
    frame x xs b c.1 (λ y i. prevs y (ground arith)) (λ y i. nexts y (ground arith)) end,
  )

module _ (m : Memory) where
  pub Chain-split :
      (a : ℕ) (ys : List ℕ) (x : ℕ) (zs : List ℕ) (b : ℕ)
      → Chain m a (ys ++ (x ∷ zs)) b
      → Chain m a ys x × Chain m x zs b
  Chain-split a [] x zs b c = c
  Chain-split a (y ∷ ys) x zs b c = let r = Chain-split y ys x zs b c.1 in ((c.0, r.0), r.1)

  pub Chain-join :
      (a : ℕ) (ys : List ℕ) (x : ℕ) (zs : List ℕ) (b : ℕ)
      → Chain m a ys x
      → Chain m x zs b
      → Chain m a (ys ++ (x ∷ zs)) b
  Chain-join a [] x zs b c d = (c, d)
  Chain-join a (y ∷ ys) x zs b c d = (c.0, Chain-join y ys x zs b c.1 d)
