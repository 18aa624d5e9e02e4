-- ===== src/Alloc/Layout/Clients.antt =====
-- A client of the allocator of src/mem_alloc.c: it asks for blocks and frees blocks that it holds, in
-- any order.
use mathlib.Core.Option.{some-injective}
use venus_scheduler.Prelude.{
  ℕ, ◌+◌, ◌-◌, ◌<◌, ◌≤◌, ◌≡◌, ◌≢◌, ◌⊎◌, refl, sym, ap, ◌∙◌, arith, true, false, Bool-cases, inl,
  inr, List, [], ◌∷◌, ◌==◌, Option, some, has, erase, Distinct, Distinct-erase, has-erase-Distinct,
}
use venus_scheduler.Alloc.Block.{Heap}
use venus_scheduler.Alloc.Malloc.{malloc, request_size}
use venus_scheduler.Alloc.Free.{free}
use venus_scheduler.Alloc.Layout.{Tile, IsHeap, split_tile}
use venus_scheduler.Alloc.Layout.Release.{used}
use venus_scheduler.Alloc.Layout.Dispatch.{onto, place_of, released}
use venus_scheduler.Alloc.Layout.Malloc.{malloc-IsHeap}
use venus_scheduler.Alloc.Layout.Free.{free-IsHeap}
use venus_scheduler.Alloc.Layout.Held.{
  used_starts, used_starts-split, used_starts-released, used_starts-around, used-not_free,
  Tiled-extent,
}

-- The client holds the payloads `ps`, each of an allocated block of a whole heap.
pub record Holds (s : Heap) (lo hi : ℕ) (ps : List ℕ) : Type 0 where
  pub tiles : List Tile
  pub free_blocks : List ℕ
  pub heap : IsHeap s lo hi tiles free_blocks
  pub owns : (p : ℕ) → has p ps ≡ true → (4 ≤ p) × (used_starts (p - 4) (lo + 12) tiles ≡ true)
  pub once : Distinct ps

module _ (s : Heap) (lo hi : ℕ) (ps : List ℕ) where
  -- malloc returns NULL and the same heap, or a block that the client does not hold.
  pub malloc-Holds :
      (size : ℕ)
      → Holds s lo hi ps
      → 0 < size
      → size < hi - lo - 16
      → (malloc size s ≡ some (0, s))
        ⊎ ((p : ℕ) × (s' : Heap) × (malloc size s ≡ some (p, s'))
            × (0 < p)
            × (has p ps ≡ false)
            × Holds s' lo hi (p ∷ ps))
  malloc-Holds size h pos less =
      elim (malloc-IsHeap s lo hi h.tiles h.free_blocks size h.heap pos less) [
        | inl (refused, _) ↦ inl refused
        | inr (x, s', result, was_free, heap) ↦
            let ends =
              Tiled-extent s'.mem (hi - 4) (lo + 12)
                (split_tile x (request_size size) (lo + 12) h.tiles) heap.tiled
              ∙ sym (Tiled-extent s.mem (hi - 4) (lo + 12) h.tiles h.heap.tiled) in
            let (front, kept) =
              used_starts-split s.mem (hi - 4) x (request_size size) (lo + 12) h.tiles h.heap.tiled
                was_free ends in
            let unused = used-not_free s.mem (hi - 4) x (lo + 12) h.tiles h.heap.tiled was_free in
            let payload : x + 4 - 4 ≡ x = omega arith in
            let new : has (x + 4) ps ≡ false = elim (Bool-cases (has (x + 4) ps)) [
              | inl held ↦ absurd (ground (arith, unused, rw payload at (h.owns (x + 4) held).1))
              | inr not_held ↦ not_held
            ] in
            inr (
              x + 4,
              s',
              result,
              omega arith,
              new,
              record {
                tiles = split_tile x (request_size size) (lo + 12) h.tiles;
                free_blocks = (x + request_size size) ∷ erase x h.free_blocks;
                heap = heap;
                owns = λ p held. elim (Bool-cases (p == x + 4)) [
                  | inl here ↦
                      let same : p ≡ x + 4 = ground arith in rw (same, payload) (omega arith, front)
                  | inr there ↦
                      let (least, at) = h.owns p (ground (arith, rw there at held)) in
                      (least, kept (p - 4) at)
                ];
                once = (new, h.once);
              },
            )
      ]

  -- free of a block that the client holds returns.
  pub free-Holds :
      (p : ℕ)
      → Holds s lo hi ps
      → has p ps ≡ true
      → (s' : Heap) × (free p s ≡ some s') × Holds s' lo hi (erase p ps)
  free-Holds p h held =
      let (least, at) = h.owns p held in
      let (ls, n, rs, row, place) = used_starts-around (p - 4) lo (lo + 12) [] h.tiles refl at in
      let before : IsHeap s lo hi (onto ls (used n ∷ rs)) h.free_blocks = rw (← row) h.heap in
      let (s', xs', result, heap) = free-IsHeap s lo hi n ls rs h.free_blocks before in
      let payload : place_of lo ls + 4 ≡ p = omega arith in
      (
        s',
        rw payload at result,
        record {
          tiles = released ls n rs;
          free_blocks = xs';
          heap = heap;
          owns = λ q still.
              let kept = has-erase-Distinct p q ps h.once in
              let (q_least, q_at) = h.owns q (ground (arith, still, kept)) in
              let other : q - 4 ≢ place_of lo ls = ground (arith, still, kept) in
              (q_least, used_starts-released (q - 4) lo n ls rs other (rw row at q_at));
          once = Distinct-erase p ps h.once;
        },
      )

-- What calls lead to, from a heap of which the client holds nothing.
pub data Reached (lo hi : ℕ) (start : Heap) : Heap → List ℕ → Type 0 where
  begins : Reached lo hi start start []
  refused :
      {s s' : Heap} {ps : List ℕ} (size : ℕ)
      → Reached lo hi start s ps
      → 0 < size
      → size < hi - lo - 16
      → malloc size s ≡ some (0, s')
      → Reached lo hi start s' ps
  given :
      {s s' : Heap} {ps : List ℕ} (size p : ℕ)
      → Reached lo hi start s ps
      → 0 < size
      → size < hi - lo - 16
      → malloc size s ≡ some (p, s')
      → 0 < p
      → Reached lo hi start s' (p ∷ ps)
  freed :
      {s s' : Heap} {ps : List ℕ} (p : ℕ)
      → Reached lo hi start s ps
      → has p ps ≡ true
      → free p s ≡ some s'
      → Reached lo hi start s' (erase p ps)

same_answer :
    {s s' : Heap} {p q : ℕ} (r : Option (ℕ × Heap))
    → r ≡ some (p, s)
    → r ≡ some (q, s')
    → (p ≡ q) × (s ≡ s')
same_answer {s} {s'} {p} {q} r e e' =
    let same = some-injective (p, s) (q, s') (sym e ∙ e') in
    (ap (λ a. a.0) same, ap (λ a. a.1) same)

module _ (lo hi : ℕ) (start : Heap) (ts : List Tile) (xs : List ℕ)
    (whole : IsHeap start lo hi ts xs) where
  pub Reached-Holds : (s : Heap) (ps : List ℕ) → Reached lo hi start s ps → Holds s lo hi ps
  Reached-Holds s _ begins = record {
    tiles = ts;
    free_blocks = xs;
    heap = whole;
    owns = λ p held. absurd (ground arith);
    once = tt;
  }
  Reached-Holds s' ps (refused {s} size before pos less result) =
      let h = Reached-Holds s ps before in
      elim (malloc-Holds s lo hi ps size h pos less) [
        | inl same ↦ rw (← (same_answer (malloc size s) same result).1) h
        | inr (p, t, other, positive, _, _) ↦
            absurd (omega (arith, (same_answer (malloc size s) other result).0))
      ]
  Reached-Holds s' _ (given {s} {ps = ps} size p before pos less result positive) =
      elim (malloc-Holds s lo hi ps size (Reached-Holds s ps before) pos less) [
        | inl same ↦ absurd (omega (arith, (same_answer (malloc size s) same result).0))
        | inr (q, t, other, _, _, h) ↦
            let (same_p, same_s) = same_answer (malloc size s) other result in
            rw (← same_p, ← same_s) h
      ]
  Reached-Holds s' _ (freed {s} {ps = ps} p before held result) =
      let (t, other, h) = free-Holds s lo hi ps p (Reached-Holds s ps before) held in
      rw (← some-injective t s' (sym other ∙ result)) h

-- A client that begins with a whole heap, asks for sizes that are positive and below the room between
-- the sentinels, and frees only blocks that it holds: after any calls in any order, it holds no block
-- twice, free of each block that it holds returns, and so does malloc of each such size; no assertion
-- fails.
pub Reached-returns :
    (lo hi : ℕ) (start s : Heap) (ts : List Tile) (xs ps : List ℕ)
    → IsHeap start lo hi ts xs
    → Reached lo hi start s ps
    → Distinct ps
      × ((p : ℕ) → has p ps ≡ true → (s' : Heap) × (free p s ≡ some s'))
      × ((size : ℕ)
          → 0 < size
          → size < hi - lo - 16
          → (p : ℕ) × (s' : Heap) × (malloc size s ≡ some (p, s')) × (has p ps ≡ false ⊎ (p ≡ 0)))
Reached-returns lo hi start s ts xs ps whole reached =
    let h = Reached-Holds lo hi start ts xs whole s ps reached in
    (
      h.once,
      (λ p held. let (s', result, _) = free-Holds s lo hi ps p h held in (s', result)),
      λ size pos less. elim (malloc-Holds s lo hi ps size h pos less) [
        | inl refused_ ↦ (0, s, refused_, inr refl)
        | inr (p, s', result, _, new, _) ↦ (p, s', result, inl new)
      ],
    )
