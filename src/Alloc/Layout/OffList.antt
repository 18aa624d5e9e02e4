-- ===== src/Alloc/Layout/OffList.antt =====
-- The heap while blocks leave the free list, before they are merged.
use venus_scheduler.Prelude.{
  ℕ, ◌+◌, ◌-◌, ◌^◌, ◌<◌, ◌≡◌, refl, true, List, length, ◌∙◌, sym, erase, has, has-erase,
}
use venus_scheduler.Alloc.Block.{Heap}
use venus_scheduler.Alloc.Block.Words.{IsMemory}
use venus_scheduler.Alloc.FreeList.{free_list_delete}
use venus_scheduler.Alloc.FreeList.Ring.{IsFreeList, Outside, Outside-of_has}
use venus_scheduler.Alloc.FreeList.Delete.{free_list_delete_lem}
use venus_scheduler.Alloc.FreeList.Frame.{SameArea, Outside-of_all, free_list_delete_frame}
use venus_scheduler.Alloc.Layout.{Tile, Tiled, boundary, IsHeap}
use venus_scheduler.Alloc.Layout.Tiles.{starts-of_free, links-apart, keep-Tiled}

-- From `s` with the list `xs` to `s1` with `xs1`.
pub record OffList (s : Heap) (xs : List ℕ) (s1 : Heap) (xs1 : List ℕ) : Type 0 where
  pub free_list : IsFreeList s1 xs1
  pub words : IsMemory s1.mem
  pub area : SameArea s s1
  pub kept : (b : ℕ) → Outside xs b → s1.mem b ≡ s.mem b
  pub sub : (y : ℕ) → has y xs1 ≡ true → has y xs ≡ true

pub OffList-none :
    (s : Heap) (lo hi : ℕ) (ts : List Tile) (xs : List ℕ) → IsHeap s lo hi ts xs → OffList s xs s xs
OffList-none s lo hi ts xs h = record {
  free_list = h.free_list;
  words = h.words;
  area = (refl, refl);
  kept = λ b o. refl;
  sub = λ y j. j;
}

pub OffList-delete :
    (s : Heap) (xs : List ℕ) (s1 : Heap) (xs1 : List ℕ) (x : ℕ)
    → OffList s xs s1 xs1
    → has x xs1 ≡ true
    → length xs1 < 2 ^ 32
    → OffList s xs (free_list_delete s1 x) (erase x xs1)
OffList-delete s xs s1 xs1 x o i small =
    let d = free_list_delete_lem s1 xs1 x o.free_list i small in
    let fr = free_list_delete_frame s1 x o.words in
    record {
      free_list = d.0;
      words = fr.0;
      area = (fr.1.0 ∙ o.area.0, fr.1.1 ∙ o.area.1);
      kept = λ b out.
          d.1 b (Outside-of_all xs1 b (λ y j. Outside-of_has xs b y out (o.sub y j)))
          ∙ o.kept b out;
      sub = λ y j. o.sub y (has-erase x y xs1 j);
    }

module _ (s : Heap) (lo hi : ℕ) (ts : List Tile) (xs : List ℕ) (s1 : Heap) (xs1 : List ℕ)
    (h : IsHeap s lo hi ts xs) (o : OffList s xs s1 xs1) where
  -- The boundary words stay, and so do the blocks.
  pub OffList-boundary : (b : ℕ) → boundary b (lo + 12) ts ≡ true → s1.mem b ≡ s.mem b
  OffList-boundary b k = o.kept b (
      Outside-of_all xs b (λ y j.
        links-apart s.mem (hi - 4) y b (lo + 12) ts h.tiled
          (starts-of_free y (lo + 12) ts (sym (h.listed y) ∙ j)) k))

  pub OffList-Tiled : Tiled s1.mem (lo + 12) ts (hi - 4)
  OffList-Tiled = keep-Tiled s.mem s1.mem (hi - 4) (lo + 12) ts h.tiled OffList-boundary
