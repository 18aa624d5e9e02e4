-- ===== src/LinkedList/Chain.antt =====
-- What a store says of a list: its nodes in order.
use venus_scheduler.Prelude.{ℕ, ◌≡◌, true, List, [], ◌∷◌, arith, Distinct, has}
use venus_scheduler.LinkedList.{Store, Links}

-- `b` follows `a`.
abbrev pub Linked : Store → ℕ → ℕ → Type 0
Linked s a b = ((s a).next ≡ b) × ((s b).prev ≡ a)

-- From `a` through `xs` to `b`.
abbrev pub Chain : Store → ℕ → List ℕ → ℕ → Type 0
Chain s a [] b = Linked s a b
Chain s a (x ∷ xs) b = Linked s a x × Chain s x xs b

-- The list has the nodes `xs`, from head to tail.
pub record IsList (s : Store) (l : Links) (xs : List ℕ) : Type 0 where
  pub chain : Chain s l.head xs l.tail
  pub distinct : Distinct (l.head ∷ l.tail ∷ xs)

-- A chain survives a change that spares the links inside it.
pub keep-Chain :
    (s t : Store) (a : ℕ) (xs : List ℕ) (b : ℕ)
    → Chain s a xs b
    → ((y : ℕ) → has y (a ∷ xs) ≡ true → (t y).next ≡ (s y).next)
    → ((y : ℕ) → has y xs ≡ true → (t y).prev ≡ (s y).prev)
    → (t b).prev ≡ (s b).prev
    → Chain t a xs b
keep-Chain s t a [] b c nexts prevs end = ground (arith, nexts a)
keep-Chain s t a (x ∷ xs) b c nexts prevs end = (
  ground (arith, nexts a, prevs x),
  keep-Chain s t x xs b c.1 (λ y i. nexts y (ground arith)) (λ y i. prevs y (ground arith)) end,
)
