-- ===== src/Alloc/Malloc/Init.antt =====
-- The heap that `heap_init` of src/mem_alloc.c sets up.
use venus_scheduler.Prelude.{
  ℕ, ◌+◌, ◌-◌, ◌%◌, ◌^◌, ◌<◌, ◌≤◌, ◌≡◌, ◌≢◌, refl, arith, ◌∙◌, [], ◌∷◌, sym,
}
use mathlib.Core.Path.{subst}
use venus_scheduler.Alloc.Block.{
  Memory, Heap, add32, sub32, align_up, align_down, get_prologue, get_epilogue, get_footer,
  get_firstblock,
}
use venus_scheduler.Alloc.Block.Words.{IsMemory, Boundary}
use venus_scheduler.Alloc.Block.Bounds.{IsHeader, get_footer_lem}
use venus_scheduler.Alloc.FreeList.{set_prevfree, set_nextfree, free_list_insert}
use venus_scheduler.Alloc.FreeList.Chain.{IsNode}
use venus_scheduler.Alloc.FreeList.Ring.{IsFreeList, link_addresses}
use venus_scheduler.Alloc.Malloc.{set_boundary, usable_size, init_sentinel, heap_init}
use venus_scheduler.Alloc.Malloc.Split.{IsBlock, Wrote, keep-Boundary, set_boundary_lem}

-- The sentinels at both ends, and one free block between them that the free list holds.
pub record IsFresh (s : Heap) : Type 0 where
  pub words : IsMemory s.mem
  pub prologue_head : Boundary s.mem (s.alloc_start + 4) 8 1
  pub prologue_foot : Boundary s.mem (s.alloc_start + 8) 8 1
  pub epilogue_head : Boundary s.mem (s.alloc_end - 4) 0 1
  pub block : IsBlock s.mem (s.alloc_start + 12) (s.alloc_end - s.alloc_start - 16) 0
  pub free_list : IsFreeList s ((s.alloc_start + 12) ∷ [])

-- The bounds that `heap_init` computes.
pub record IsArea (start end : ℕ) : Type 0 where
  pub start_aligned : start % 8 ≡ 0
  pub end_aligned : end % 8 ≡ 0
  pub room : start + 32 ≤ end
  pub fits : end < 2 ^ 32 - 16

module _ (m : Memory) (start end : ℕ) where
  abbrev init1 : Memory
  init1 = set_boundary m (start + 4) 1 8

  abbrev init2 : Memory
  init2 = set_boundary init1 (start + 8) 1 8

  abbrev init3 : Memory
  init3 = set_boundary init2 (end - 4) 1 0

  abbrev init4 : Memory
  init4 = set_boundary init3 (start + 12) 0 (end - start - 16)

  abbrev init5 : Memory
  init5 = set_boundary init4 (end - 8) 0 (end - start - 16)

module _ (s : Heap) (w : IsMemory s.mem) (a : IsArea s.alloc_start s.alloc_end) where
  open s use {mem, alloc_start as st, alloc_end as en}

  wrote1 : Wrote mem (init1 mem st en) (st + 4) 8 1
  wrote1 = set_boundary_lem w (st + 4) 1 8 (omega arith) refl (omega arith)

  wrote2 : Wrote (init1 mem st en) (init2 mem st en) (st + 8) 8 1
  wrote2 = set_boundary_lem wrote1.words (st + 8) 1 8 (omega arith) refl (omega arith)

  wrote3 : Wrote (init2 mem st en) (init3 mem st en) (en - 4) 0 1
  wrote3 = set_boundary_lem wrote2.words (en - 4) 1 0 (omega arith) refl (omega arith)

  wrote4 : Wrote (init3 mem st en) (init4 mem st en) (st + 12) (en - st - 16) 0
  wrote4 =
      set_boundary_lem wrote3.words (st + 12) 0 (en - st - 16) (omega arith) (omega (arith, a))
        (omega (arith, a))

  wrote5 : Wrote (init4 mem st en) (init5 mem st en) (en - 8) (en - st - 16) 0
  wrote5 =
      set_boundary_lem wrote4.words (en - 8) 0 (en - st - 16) (omega arith) (omega (arith, a))
        (omega (arith, a))

  place : IsHeader (st + 12) (en - st - 16)
  place = omega (arith, a)

  init_sentinel-eq : init_sentinel s ≡ record s { mem = init5 mem st en }
  unfolding init_sentinel get_prologue get_epilogue get_firstblock usable_size
  init_sentinel-eq = rw (a4, a8, e4, f12, size, footer)
    where
      a4 : add32 st 4 ≡ st + 4
      a4 = omega (arith, a)

      a8 : add32 (st + 4) 4 ≡ st + 8
      a8 = omega (arith, a)

      e4 : sub32 en 4 ≡ en - 4
      e4 = omega (arith, a)

      f12 : add32 (st + 4) 8 ≡ st + 12
      f12 = omega (arith, a)

      size : sub32 (sub32 (sub32 (sub32 en st) 4) 8) 4 ≡ en - st - 16
      size = omega (arith, a)

      footer : get_footer (init4 mem st en) (st + 12) ≡ en - 8
      footer = get_footer_lem place wrote4.words wrote4.now (omega (arith, a)) ∙ omega (arith, a)

  sentinels :
      let g = init5 mem st en in
      IsMemory g
      × Boundary g (st + 4) 8 1
      × Boundary g (st + 8) 8 1
      × Boundary g (en - 4) 0 1
      × IsBlock g (st + 12) (en - st - 16) 0
  sentinels = (
    wrote5.words,
    keep-Boundary wrote1.now (
        wrote5.same (st + 4) (omega (arith, a))
        ∙ wrote4.same (st + 4) (omega (arith, a))
        ∙ wrote3.same (st + 4) (omega (arith, a))
        ∙ wrote2.same (st + 4) (omega (arith, a))),
    keep-Boundary wrote2.now (
        wrote5.same (st + 8) (omega (arith, a))
        ∙ wrote4.same (st + 8) (omega (arith, a))
        ∙ wrote3.same (st + 8) (omega (arith, a))),
    keep-Boundary wrote3.now
        (wrote5.same (en - 4) (omega (arith, a)) ∙ wrote4.same (en - 4) (omega (arith, a))),
    record {
      place = place;
      least = omega (arith, a);
      head = keep-Boundary wrote4.now (wrote5.same (st + 12) (omega (arith, a)));
      foot = subst (λ b. Boundary (init5 mem st en) b (en - st - 16) 0) last_word wrote5.now;
    },
  )
    where
      last_word : en - 8 ≡ st + 12 + (en - st - 16) - 4
      last_word = omega (arith, a)

-- The two links of the only free block.
module _ (m : Memory) (n : ℕ) where
  abbrev own_links : Memory
  own_links = set_nextfree (set_prevfree m n n) n n

  own_links_lem :
      IsNode n
      → IsMemory m
      → IsMemory own_links × ((b : ℕ) → b ≢ n + 4 → b ≢ n + 8 → own_links b ≡ m b)
  unfolding set_nextfree set_prevfree
  own_links_lem node w =
      let (n4, n8, n0) = link_addresses n node in
      rw (n4, n8) (λ b. ground (arith, w b), λ b p q. ground arith)

insert_empty :
    (s : Heap) (n : ℕ)
    → s.free_list_head ≡ 0
    → free_list_insert s n ≡ record s {
      mem = set_nextfree (set_prevfree s.mem n n) n n;
      free_list_head = n;
      free_list_counter = 1;
    }
unfolding free_list_insert
insert_empty s n h = rw h

-- `heap_init` from the end of `init_sentinel` on.
module _ (s : Heap) where
  abbrev first_free : Heap
  first_free =
      let n = get_firstblock s in
      free_list_insert
        (record s { mem = own_links s.mem n; free_list_head = 0; free_list_counter = 0 }) n

-- The same with its address worked out, and its two writes done again by `free_list_insert`.
module _ (s : Heap) (n : ℕ) where
  abbrev first_listed : Heap
  first_listed = record s {
    mem = own_links (own_links s.mem n) n;
    free_list_head = n;
    free_list_counter = 1;
  }

  first_listed_lem : IsNode n → IsFreeList first_listed (n ∷ [])
  unfolding set_nextfree set_prevfree
  first_listed_lem node =
      let (n4, n8, n0) = link_addresses n node in
      rw (n4, n8) (refl, refl, (ground arith, ground arith), (refl, tt), (node, tt))

  first_free-eq : get_firstblock s ≡ n → first_free s ≡ first_listed
  first_free-eq e = rw e (insert_empty _ n refl)

module _ (s : Heap) (w : IsMemory s.mem) (heap_start heap_size : ℕ)
    (start_in : heap_start < 2 ^ 32 - 64) (room : 64 ≤ heap_size)
    (fits : heap_start + heap_size < 2 ^ 32 - 64) where
  abbrev area : Heap
  area = record s {
    alloc_start = align_up heap_start 8;
    alloc_end = align_down (add32 heap_start heap_size) 8;
  }

  ends-IsArea : IsArea area.alloc_start area.alloc_end
  unfolding align_up align_down
  ends-IsArea = omega arith

  abbrev ready : Heap
  ready = record area { mem = init5 s.mem area.alloc_start area.alloc_end }

  first-IsNode : IsNode (area.alloc_start + 12)
  first-IsNode = omega (arith, ends-IsArea)

  listed-IsFresh : IsFresh (first_listed ready (area.alloc_start + 12))
  listed-IsFresh = record {
    words = links2.0;
    prologue_head = keep-Boundary inits.1 (kept (st + 4) (omega arith) (omega arith));
    prologue_foot = keep-Boundary inits.2 (kept (st + 8) (omega arith) (omega arith));
    epilogue_head = keep-Boundary inits.3 (kept (en - 4) (omega (arith, ok)) (omega (arith, ok)));
    block = record {
      place = inits.4.place;
      least = inits.4.least;
      head = keep-Boundary inits.4.head (kept n (omega arith) (omega arith));
      foot =
          keep-Boundary inits.4.foot
            (kept (n + (en - st - 16) - 4) (omega (arith, ok)) (omega (arith, ok)));
    };
    free_list = first_listed_lem ready n first-IsNode;
  }
    where
      st : ℕ
      st = area.alloc_start

      en : ℕ
      en = area.alloc_end

      n : ℕ
      n = st + 12

      ok : IsArea area.alloc_start area.alloc_end
      ok = ends-IsArea

      inits :
          let g = ready.mem in
          IsMemory g
          × Boundary g (st + 4) 8 1
          × Boundary g (st + 8) 8 1
          × Boundary g (en - 4) 0 1
          × IsBlock g (st + 12) (en - st - 16) 0
      inits = sentinels area w ok

      links1 :
          IsMemory (own_links ready.mem n)
          × ((b : ℕ) → b ≢ n + 4 → b ≢ n + 8 → own_links ready.mem n b ≡ ready.mem b)
      links1 = own_links_lem ready.mem n first-IsNode inits.0

      links2 :
          let g = own_links ready.mem n in
          IsMemory (own_links g n) × ((b : ℕ) → b ≢ n + 4 → b ≢ n + 8 → own_links g n b ≡ g b)
      links2 = own_links_lem (own_links ready.mem n) n first-IsNode links1.0

      kept : (b : ℕ) → b ≢ n + 4 → b ≢ n + 8 → own_links (own_links ready.mem n) n b ≡ ready.mem b
      kept b p q = links2.1 b p q ∙ links1.1 b p q

  -- Of a region of 64 bytes or more that starts and ends more than 64 bytes below 2^32,
  -- `heap_init` makes a heap with its two sentinels and one free block of all the rest, alone in
  -- the free list, whatever words the memory held.
  pub heap_init-IsFresh : IsFresh (heap_init heap_start heap_size s)
  unfolding heap_init
  heap_init-IsFresh =
      subst (λ t. IsFresh (first_free t)) (sym (init_sentinel-eq area w ends-IsArea))
        (subst IsFresh (sym (first_free-eq ready (area.alloc_start + 12) firstblock))
          listed-IsFresh)
    where
      firstblock : get_firstblock ready ≡ area.alloc_start + 12
      firstblock = unfold get_firstblock get_prologue in omega (arith, ends-IsArea)
